-- ===== src/Header/Lengths.antt =====
-- Input of a wrong length: shared/ts/src/header.ts.
use streammix.Common.{
  ℕ, zero, suc, ◌+◌, ◌-◌, ◌≤◌, ◌<◌, ◌≡◌, ◌≢◌, refl, ap, ◌∙◌, true, false, append_assoc, List, [],
  ◌∷◌, ◌++◌, length, length-append, take, arith, ltb, Bool-cases, inl, inr,
}
use Prim.Native.Nat.add
use streammix.Common.Bytes.{be_bytes, get_be, be_from-be_bytes}
use streammix.Errors
use streammix.Errors.{ok, thrown, Message, Code}
use streammix.Header.{Frame, encode_frame, decode_frame, differs}
use streammix.Constants.{magic}
use streammix.Header.Layout.{header, length-header}
use streammix.Header.RoundTrip.{encode_frame_guards}

-- Fewer bytes than `bytes`, from its beginning on, or the same with some behind.
pub data IsOff (bytes : List ℕ) : List ℕ → Type 0 where
  cut : (n : ℕ) → n < length bytes → IsOff bytes (take n bytes)
  extended : (b : ℕ) (rest : List ℕ) → IsOff bytes (bytes ++ (b ∷ rest))

length-take : (n : ℕ) (xs : List ℕ) → length (take n xs) ≤ n
length-take zero xs = omega arith
length-take (suc n) [] = omega arith
length-take (suc n) (x ∷ xs) = omega (arith, length-take n xs)

length-take_short : (n : ℕ) (xs : List ℕ) → n < length xs → length (take n xs) ≡ n
length-take_short zero xs h = refl
length-take_short (suc n) [] h = absurd (omega arith)
length-take_short (suc n) (x ∷ xs) h = omega (arith, length-take_short n xs)

take-append : (xs ys : List ℕ) (k : ℕ) → take (length xs + k) (xs ++ ys) ≡ xs ++ take k ys
take-append [] ys k = ap (λ n. take n ys) (add.zero k)
take-append (x ∷ xs) ys k =
    ap (λ n. take n (x ∷ (xs ++ ys))) (add.suc (length xs) k)
    ∙ ap (λ t. x ∷ t) (take-append xs ys k)

lt_of_ltb : (a b : ℕ) → ltb a b ≡ true → a < b
lt_of_ltb a b h = ground arith

-- The header of `f` with other bytes behind it.
decode_frame-header_mismatch :
    (f : Frame) (rest : List ℕ)
    → length f.payload ≤ 4096
    → length f.payload ≢ length rest
    → decode_frame (header f ++ rest)
      ≡ thrown (record {
        message = Errors.length_mismatch (length f.payload) (length rest);
        code = Errors.bad_length;
      })
unfolding decode_frame
decode_frame-header_mismatch f rest short other =
    let declared : get_be 2 (header f ++ rest) 7 ≡ length f.payload =
      unfold header be_bytes in be_from-be_bytes 2 (length f.payload) (omega arith) in
    let long : length (header f ++ rest) ≡ 21 + length rest =
      unfold header be_bytes in omega arith in
    let right_magic : differs magic (header f ++ rest) ≡ false = unfold header in refl in
    rw (right_magic, declared, long) (ground arith)

-- The code of a refused input.
abbrev pub IsRefused : Code → List ℕ → Type 0
IsRefused code input =
    (m : Message) × (decode_frame input ≡ thrown (record { message = m; code = code }))

decode_frame_short : (input : List ℕ) → length input < 21 → IsRefused Errors.bad_length input
unfolding decode_frame
decode_frame_short input h = (Errors.frame_shorter (length input), ground arith)

header-length : (f : Frame) → length (header f) ≡ 21
unfolding header be_bytes
header-length f = omega arith

take-header :
    (f : Frame) (n : ℕ)
    → 21 ≤ n
    → take n (header f ++ f.payload) ≡ header f ++ take (n - 21) f.payload
take-header f n h =
    let split : n ≡ length (header f) + (n - 21) = omega (arith, header-length f) in
    ap (λ k. take k (header f ++ f.payload)) split ∙ take-append (header f) f.payload (n - 21)

-- What `encodeFrame` returned for a frame, cut off anywhere or with anything behind it, is refused as
-- BAD_LENGTH: no frame is read from a part of another or from one with more bytes.
pub decode_frame-IsOff :
    (f : Frame) (bytes input : List ℕ)
    → encode_frame f ≡ ok bytes
    → IsOff bytes input
    → IsRefused Errors.bad_length input
decode_frame-IsOff f bytes input e (cut n h) =
    let (short, slot, same) = encode_frame_guards f bytes e in
    let total : length bytes ≡ 21 + length f.payload = ap length same ∙ length-header f in
    elim (Bool-cases (ltb n 21)) [
      | inl little ↦
          decode_frame_short (take n bytes)
            (omega (arith, length-take n bytes, lt_of_ltb n 21 little))
      | inr enough ↦
          let rest = take (n - 21) f.payload in
          let kept : length rest ≡ n - 21 =
            length-take_short (n - 21) f.payload (ground (arith, total, h)) in
          let cut_off : take n bytes ≡ header f ++ rest =
            ap (take n) same ∙ take-header f n (ground arith) in
          rw cut_off
            (_, decode_frame-header_mismatch f rest short (λ k. ground (arith, total, h, kept)))
    ]
decode_frame-IsOff f bytes input e (extended b rest) =
    let (short, slot, same) = encode_frame_guards f bytes e in
    let longer : bytes ++ (b ∷ rest) ≡ header f ++ (f.payload ++ (b ∷ rest)) =
      ap (λ t. t ++ (b ∷ rest)) same ∙ append_assoc (header f) f.payload (b ∷ rest) in
    rw longer (
      _,
      decode_frame-header_mismatch f (f.payload ++ (b ∷ rest)) short
          (λ k. omega (arith, length-append f.payload (b ∷ rest))),
    )
