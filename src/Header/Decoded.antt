-- ===== src/Header/Decoded.antt =====
-- What a successful `decodeFrame` has checked: shared/ts/src/header.ts.
use native.Mathlib.Nat.{mod-eq_of_lt}
use streammix.Common.{
  ◌%◌, false, ℕ, ◌^◌, ◌≤◌, ◌<◌, ◌≡◌, ap, ◌∙◌, sym, true, List, [], ◌∷◌, ◌++◌, length, arith,
  take_all, All,
}
use streammix.Common.Bytes.{IsByte, be_bytes, be_from, be_bytes-be_from_zero, be_from-lt}
use streammix.Errors.{ok}
use streammix.Header.{Frame, encode_frame, decode_frame, differs, known_types, has}
use streammix.Constants.{magic}
use streammix.Header.Layout.{header, frame_buffer_lem}
use streammix.Header.RoundTrip.{frame_of, encode_frame-frame_of}

module _ (m0 m1 m2 m3 b4 b5 b6 b7 b8 b9 b10 b11 b12 b13 b14 b15 b16 b17 b18 b19 b20 : ℕ)
    (rest : List ℕ) where
  abbrev input : List ℕ
  input =
      m0 ∷ m1 ∷ m2 ∷ m3 ∷ b4 ∷ b5 ∷ b6 ∷ b7 ∷ b8 ∷ b9 ∷ b10 ∷ b11 ∷ b12 ∷ b13 ∷ b14 ∷ b15 ∷ b16
      ∷ b17 ∷ b18 ∷ b19 ∷ b20 ∷ rest

  abbrev length_field : List ℕ
  length_field = b7 ∷ b8 ∷ []

  abbrev seq_field : List ℕ
  seq_field = b9 ∷ b10 ∷ b11 ∷ b12 ∷ []

  abbrev timestamp_field : List ℕ
  timestamp_field = b13 ∷ b14 ∷ b15 ∷ b16 ∷ b17 ∷ b18 ∷ b19 ∷ b20 ∷ []

  decode_frame_parts :
      (f : Frame)
      → decode_frame input ≡ ok f
      → (differs magic input ≡ false)
        × (has known_types b4 ≡ true)
        × (b5 ≤ 8)
        × (be_from 0 length_field ≡ length rest)
        × (length rest ≤ 4096)
        × (f ≡ frame_of b4 b5 b6 (be_from 0 seq_field) (be_from 0 timestamp_field) rest)
  unfolding decode_frame
  decode_frame_parts f e = ground (arith, take_all (be_from 0 length_field) rest)

  -- The header of the decoded frame is the 21 bytes that were read.
  header-parts :
      All IsByte input
      → differs magic input ≡ false
      → be_from 0 length_field ≡ length rest
      → header (frame_of b4 b5 b6 (be_from 0 seq_field) (be_from 0 timestamp_field) rest) ++ rest
        ≡ input
  unfolding header
  header-parts h same len =
      let length_ok : be_bytes 2 (length rest) ≡ length_field =
        ap (be_bytes 2) (sym len) ∙ be_bytes-be_from_zero length_field (omega arith) in
      let seq_ok : be_bytes 4 (be_from 0 seq_field % 2 ^ 32) ≡ seq_field =
        ap (be_bytes 4) (mod-eq_of_lt (be_from-lt 0 0 seq_field (omega arith) (omega arith)))
        ∙ be_bytes-be_from_zero seq_field (omega arith) in
      let timestamp_ok : be_bytes 8 (be_from 0 timestamp_field % 2 ^ 64) ≡ timestamp_field =
        ap (be_bytes 8) (mod-eq_of_lt (be_from-lt 0 0 timestamp_field (omega arith) (omega arith)))
        ∙ be_bytes-be_from_zero timestamp_field (omega arith) in
      let type_ok : b4 % 256 ≡ b4 = omega arith in
      let track_ok : b5 % 256 ≡ b5 = omega arith in
      let flags_ok : b6 % 256 ≡ b6 = omega arith in
      rw (length_ok, seq_ok, timestamp_ok, type_ok, track_ok, flags_ok) (ground arith)

  seq_field-lt : All IsByte input → be_from 0 seq_field < 2 ^ 32
  seq_field-lt h = be_from-lt 0 0 seq_field (omega arith) (omega arith)

  timestamp_field-lt : All IsByte input → be_from 0 timestamp_field < 2 ^ 64
  timestamp_field-lt h = be_from-lt 0 0 timestamp_field (omega arith) (omega arith)

  encode_frame-input :
      (f : Frame) → All IsByte input → decode_frame input ≡ ok f → encode_frame f ≡ ok input
  encode_frame-input f h e =
      let (same, known, slot, len, short, parts) = decode_frame_parts f e in
      let f = frame_of b4 b5 b6 (be_from 0 seq_field) (be_from 0 timestamp_field) rest in
      rw parts (
        encode_frame-frame_of b4 b5 b6 (be_from 0 seq_field) (be_from 0 timestamp_field) rest slot
          (omega arith) (seq_field-lt h) (timestamp_field-lt h) short
        ∙ ap ok (frame_buffer_lem f ∙ header-parts h same len))

-- Encoding what was decoded from a buffer of bytes gives back the same bytes.
pub encode_frame-decode_frame :
    (bytes : List ℕ) (f : Frame)
    → All IsByte bytes
    → decode_frame bytes ≡ ok f
    → encode_frame f ≡ ok bytes
unfolding decode_frame
encode_frame-decode_frame
      (m0 ∷ m1 ∷ m2 ∷ m3 ∷ b4 ∷ b5 ∷ b6 ∷ b7 ∷ b8 ∷ b9 ∷ b10 ∷ b11 ∷ b12 ∷ b13 ∷ b14 ∷ b15 ∷ b16
        ∷ b17 ∷ b18 ∷ b19 ∷ b20 ∷ rest)
      f h e =
    encode_frame-input m0 m1 m2 m3 b4 b5 b6 b7 b8 b9 b10 b11 b12 b13 b14 b15 b16 b17 b18 b19 b20
      rest f h e
encode_frame-decode_frame _ f h e = cc
