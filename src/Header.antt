-- ===== src/Header.antt =====
-- shared/ts/src/header.ts: the frame header, 21 bytes before the payload.
pub mod Accepted
pub mod Layout
pub mod RoundTrip
pub mod Decoded
pub mod Lengths
use streammix.Common.{
  ℕ, ◌+◌, ◌-◌, Bool, true, false, not, ◌||◌, List, [], ◌∷◌, length, take, drop, ltb, ◌==◌,
  get_elem?,
}
use streammix.Common.{Option, none, some}
use streammix.Common.Bytes.{zeros, set_at, be_bytes, get_be}
use streammix.Common.Int.{ℤ, pos, ltb_ℤ, wrap}
use streammix.Common.Number.{Number, num, num_lt, to_uint}
use streammix.Constants.{magic, header_bytes, max_payload_bytes, max_track_slot}
use streammix.Constants.MessageType
use streammix.Errors
use streammix.Errors.{Result, ok, thrown, ◌>>=◌, ◌>>◌, throw_if}

pub record Frame : Type 0 where
  pub type : Number
  pub track : Number
  pub flags : Number
  pub seq : Number
  pub timestamp_ms : ℤ
  pub payload : List ℕ

abbrev pub known_types : List ℕ
known_types =
    MessageType.hello ∷ MessageType.track_list ∷ MessageType.audio_opus ∷ MessageType.fingerprint
    ∷ MessageType.track_meta ∷ MessageType.stats ∷ MessageType.sub_tracks ∷ MessageType.error ∷ []

-- `KNOWN_TYPES.has(type)`
unfoldable pub has : List ℕ → ℕ → Bool
has [] n = false
has (t ∷ ts) n = t == n || has ts n

-- The buffer that `encodeFrame` fills, one store after the other. Every store wraps to its width.
unfoldable pub frame_buffer : Frame → List ℕ
frame_buffer frame =
    let buf = zeros (header_bytes + length frame.payload) in
    let buf = set_at buf 0 magic in
    let buf = set_at buf 4 (to_uint 8 frame.type ∷ []) in
    let buf = set_at buf 5 (to_uint 8 frame.track ∷ []) in
    let buf = set_at buf 6 (to_uint 8 frame.flags ∷ []) in
    let buf = set_at buf 7 (be_bytes 2 (length frame.payload)) in
    let buf = set_at buf 9 (be_bytes 4 (to_uint 32 frame.seq)) in
    let buf = set_at buf 13 (be_bytes 8 (wrap 64 frame.timestamp_ms)) in
    set_at buf header_bytes frame.payload

unfoldable pub encode_frame : Frame → Result (List ℕ)
encode_frame frame = do
  throw_if (ltb max_payload_bytes (length frame.payload))
      (Errors.payload_too_large (length frame.payload)) Errors.too_large
  throw_if (num_lt frame.track (num 0) || num_lt (num max_track_slot) frame.track)
      (Errors.invalid_track frame.track) Errors.bad_track
  throw_if (num_lt frame.flags (num 0) || num_lt (num 0xff) frame.flags)
      (Errors.flags_out_of_range frame.flags) Errors.bad_payload
  throw_if (num_lt frame.seq (num 0) || num_lt (num 0xffffffff) frame.seq)
      (Errors.seq_out_of_range frame.seq) Errors.bad_payload
  throw_if (ltb_ℤ frame.timestamp_ms (pos 0) || ltb_ℤ (pos 0xffffffffffffffff) frame.timestamp_ms)
      Errors.timestamp_out_of_range Errors.bad_payload
  ok (frame_buffer frame)

-- The loop over MAGIC: whether some `input[i] !== MAGIC[i]`, a missing byte among them.
abbrev pub differs : List ℕ → List ℕ → Bool
differs [] input = false
differs (m ∷ ms) [] = true
differs (m ∷ ms) (b ∷ bs) = not (m == b) || differs ms bs

-- `input[i]!`, read where the length is known to suffice.
abbrev pub byte_at : List ℕ → ℕ → ℕ
byte_at input i = elim (get_elem? input i) [ some b ↦ b | none ↦ 0 ]

unfoldable pub decode_frame : List ℕ → Result Frame
decode_frame input = do
  throw_if (ltb (length input) header_bytes) (Errors.frame_shorter (length input)) Errors.bad_length
  throw_if (differs magic input) Errors.magic_mismatch Errors.bad_magic
  let type = byte_at input 4
  let track = byte_at input 5
  let flags = byte_at input 6
  let payload_len = get_be 2 input 7
  let seq = get_be 4 input 9
  let timestamp_ms = get_be 8 input 13
  throw_if (ltb max_payload_bytes payload_len) (Errors.payload_too_large payload_len)
      Errors.too_large
  throw_if (not (header_bytes + payload_len == length input))
      (Errors.length_mismatch payload_len (length input - header_bytes)) Errors.bad_length
  throw_if (ltb max_track_slot track) (Errors.invalid_track (num track)) Errors.bad_track
  throw_if (not (has known_types type)) (Errors.unknown_type type) Errors.bad_type
  ok (record {
    type = num type;
    track = num track;
    flags = num flags;
    seq = num seq;
    timestamp_ms = pos timestamp_ms;
    payload = take payload_len (drop header_bytes input);
  })
