-- ===== src/Constants.antt =====
-- shared/ts/src/constants.ts: the constants of the wire format.
pub mod MessageType
use streammix.Common.{ℕ, List, [], ◌∷◌, String}

abbrev pub magic : List ℕ
magic = 0x53 ∷ 0x4d ∷ 0x58 ∷ 0x31 ∷ []

abbrev pub subprotocol : String
subprotocol = "streammix.v1"

abbrev pub header_bytes : ℕ
header_bytes = 21

abbrev pub max_payload_bytes : ℕ
max_payload_bytes = 4096

abbrev pub max_track_slot : ℕ
max_track_slot = 0x08

abbrev pub max_tracks : ℕ
max_tracks = 8

abbrev pub control_track : ℕ
control_track = 0x00
