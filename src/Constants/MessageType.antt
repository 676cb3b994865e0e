-- ===== src/Constants/MessageType.antt =====
-- shared/ts/src/constants.ts: the enum `MessageType`, whose members are the bytes of the wire.
use streammix.Common.{ℕ}

abbrev pub hello : ℕ
hello = 0x01

abbrev pub track_list : ℕ
track_list = 0x02

abbrev pub audio_opus : ℕ
audio_opus = 0x03

abbrev pub fingerprint : ℕ
fingerprint = 0x04

abbrev pub track_meta : ℕ
track_meta = 0x05

abbrev pub stats : ℕ
stats = 0x10

abbrev pub sub_tracks : ℕ
sub_tracks = 0x20

abbrev pub error : ℕ
error = 0xff
