-- ===== src/Examples/Frames.antt =====
-- Frames: examples for the header and for what the relay client makes of a frame.
use streammix.Common.{◌↔◌, ℕ, List, [], ◌∷◌, ◌≡◌, refl, some, arith, if◌then◌else◌}
use streammix.Common.Bytes.{be_bytes, be_from}
use streammix.Common.Int.{pos}
use streammix.Common.Number.{num, nan, finite, to_uint}
use streammix.Errors
use streammix.Errors.{ok, thrown, ◌>>=◌}
use streammix.Header.{Frame, has, known_types, frame_buffer, encode_frame, decode_frame}
use streammix.Header.RoundTrip.{stored, frame_of, decode_frame-encode_frame, encode_then_decode}
use streammix.Common.{take}
use streammix.Header.Lengths.{IsRefused, cut, decode_frame-IsOff}
use streammix.Header.Decoded.{encode_frame-decode_frame}
use streammix.Json.{JsonText}
use streammix.Messages.TrackList.{track_list_fields}
use streammix.Relay.Dispatch.{handle_message, dispatch, on_audio}
use streammix.Relay.Dispatch.Legal.{IsCall, handle_message_iff}
use streammix.Examples.Sample.{codec_of, sample_tracks}

abbrev packet : List ℕ
packet = 0xfc ∷ 0xff ∷ 0xfe ∷ []

abbrev json : JsonText
json = codec_of (track_list_fields sample_tracks)

abbrev packet_bytes : List ℕ
packet_bytes =
    0x53 ∷ 0x4d ∷ 0x58 ∷ 0x31 ∷ 3 ∷ 2 ∷ 0 ∷ 0 ∷ 3 ∷ 0 ∷ 0 ∷ 1 ∷ 7 ∷ 0 ∷ 0 ∷ 0 ∷ 0 ∷ 0 ∷ 0 ∷ 2 ∷ 20
    ∷ packet

packet_tests :
    (encode_frame (frame_of 3 2 0 263 532 packet) ≡ ok packet_bytes)
    × (decode_frame packet_bytes ≡ ok (frame_of 3 2 0 263 532 packet))
    × (decode_frame (0x53 ∷ [])
        ≡ thrown (record { message = Errors.frame_shorter 1; code = Errors.bad_length }))
    × (encode_frame (frame_of 3 9 0 263 532 packet)
        ≡ thrown (record { message = Errors.invalid_track (num 9); code = Errors.bad_track }))
    × (handle_message json packet_bytes ≡ some (on_audio (num 2) (frame_of 3 2 0 263 532 packet)))
unfolding encode_frame decode_frame frame_buffer be_bytes be_from has handle_message dispatch
packet_tests = (refl, refl, refl, refl, refl)

-- A track of 2.5 and a sequence number that is NaN pass the guards.
abbrev odd_frame : Frame
odd_frame = record {
  type = num 0x99;
  track = finite (pos 2) 1;
  flags = num 0;
  seq = nan;
  timestamp_ms = pos 0;
  payload = packet;
}

decode_frame-encode_frame_example : decode_frame (frame_buffer odd_frame) ≡ (
    if has known_types (to_uint 8 odd_frame.type)
    then ok (stored odd_frame)
    else thrown (record {
      message = Errors.unknown_type (to_uint 8 odd_frame.type);
      code = Errors.bad_type;
    }))
decode_frame-encode_frame_example =
    decode_frame-encode_frame odd_frame (frame_buffer odd_frame) (unfold encode_frame in refl)

encode_then_decode_example :
    (encode_frame (frame_of 3 2 0 263 532 packet) >>= decode_frame)
    ≡ ok (frame_of 3 2 0 263 532 packet)
encode_then_decode_example =
    encode_then_decode 3 2 0 263 532 packet (unfold has in refl) (omega arith) (omega arith)
      (omega arith) (omega arith) (omega arith)

encode_frame-decode_frame_example : encode_frame (frame_of 3 2 0 263 532 packet) ≡ ok packet_bytes
encode_frame-decode_frame_example =
    encode_frame-decode_frame packet_bytes (frame_of 3 2 0 263 532 packet) (omega arith)
      packet_tests.1

handle_message_iff_example :
    (handle_message json packet_bytes ≡ some (on_audio (num 2) (frame_of 3 2 0 263 532 packet)))
    ↔ IsCall json packet_bytes (on_audio (num 2) (frame_of 3 2 0 263 532 packet))
handle_message_iff_example =
    handle_message_iff json packet_bytes (on_audio (num 2) (frame_of 3 2 0 263 532 packet))

-- The first 22 bytes of the 24.
decode_frame-IsOff_example : IsRefused Errors.bad_length (take 22 packet_bytes)
decode_frame-IsOff_example =
    decode_frame-IsOff (frame_of 3 2 0 263 532 packet) packet_bytes (take 22 packet_bytes)
      packet_tests.0 (cut 22 (omega arith))
