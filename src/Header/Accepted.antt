-- ===== src/Header/Accepted.antt =====
-- Which bytes `decodeFrame` of shared/ts/src/header.ts takes, said of the bytes, and for what frame.
use streammix.Common.{
  ℕ, zero, suc, ◌+◌, ◌≤◌, ◌≡◌, ◌↔◌, refl, ap, sym, ◌∙◌, true, false, List, [], ◌∷◌, ◌++◌, length,
  take, drop, take_all, arith,
}
use streammix.Common.Bytes.{get_be}
use streammix.Common.Int.{pos}
use streammix.Common.Number.{num}
use streammix.Constants.{magic}
use streammix.Errors.{ok}
use streammix.Header.{Frame, decode_frame, differs, byte_at, known_types, has}

-- "SMX1", a type that is known, a track of at most 8, and as many bytes behind the 21 of the header as it
-- declares, 4096 at most.
pub record IsFrame (input : List ℕ) : Type 0 where
  pub magic_bytes : (rest : List ℕ) × (input ≡ (0x53 ∷ 0x4d ∷ 0x58 ∷ 0x31 ∷ []) ++ rest)
  pub type : has known_types (byte_at input 4) ≡ true
  pub track : byte_at input 5 ≤ 8
  pub declared : 21 + get_be 2 input 7 ≡ length input
  pub short : get_be 2 input 7 ≤ 4096

-- The frame that stands in the bytes.
abbrev pub frame_at : List ℕ → Frame
frame_at input = record {
  type = num (byte_at input 4);
  track = num (byte_at input 5);
  flags = num (byte_at input 6);
  seq = num (get_be 4 input 9);
  timestamp_ms = pos (get_be 8 input 13);
  payload = drop 21 input;
}

differs_sound :
    (ms input : List ℕ) → differs ms input ≡ false → (rest : List ℕ) × (input ≡ ms ++ rest)
differs_sound [] input h = (input, refl)
differs_sound (m ∷ ms) [] h = absurd (ground arith)
differs_sound (m ∷ ms) (b ∷ bs) h =
    let (rest, e) = differs_sound ms bs (ground arith) in (rest, ground arith)

differs_complete : (ms rest : List ℕ) → differs ms (ms ++ rest) ≡ false
differs_complete [] rest = refl
differs_complete (m ∷ ms) rest = ground (arith, differs_complete ms rest)

length-drop : (k n : ℕ) (xs : List ℕ) → k + n ≡ length xs → length (drop k xs) ≤ n
length-drop zero n xs h = omega arith
length-drop (suc k) n [] h = omega arith
length-drop (suc k) n (x ∷ xs) h = length-drop k n xs (omega arith)

take-drop_all : (k n : ℕ) (xs : List ℕ) → k + n ≡ length xs → take n (drop k xs) ≡ drop k xs
take-drop_all k n xs h = take_all n (drop k xs) (length-drop k n xs h)

module _ (input : List ℕ) where
  decode_frame_sound :
      (f : Frame) → decode_frame input ≡ ok f → IsFrame input × (f ≡ frame_at input)
  unfolding decode_frame
  decode_frame_sound f h =
      let declared : 21 + get_be 2 input 7 ≡ length input = ground arith in
      let same : differs magic input ≡ false = ground arith in
      (
        record {
          magic_bytes = differs_sound magic input same;
          type = ground arith;
          track = ground arith;
          declared = declared;
          short = ground arith;
        },
        ground (arith, take-drop_all 21 (get_be 2 input 7) input declared),
      )

  decode_frame_complete : IsFrame input → decode_frame input ≡ ok (frame_at input)
  unfolding decode_frame
  decode_frame_complete v =
      let (rest, e) = v.magic_bytes in
      let same : differs magic input ≡ false = ap (differs magic) e ∙ differs_complete magic rest in
      ground (
        arith,
        v.type,
        v.track,
        v.declared,
        v.short,
        take-drop_all 21 (get_be 2 input 7) input v.declared,
      )

  pub decode_frame_iff :
      (f : Frame) → (decode_frame input ≡ ok f) ↔ (IsFrame input × (f ≡ frame_at input))
  decode_frame_iff f =
      (λ h. decode_frame_sound f h, λ (v, e). decode_frame_complete v ∙ ap ok (sym e))
