-- ===== src/Messages/Fingerprint.antt =====
-- shared/ts/src/messages.ts: FINGERPRINT.
use streammix.Common.{ℕ, ◌%◌, ◌^◌, ◌≡◌, refl, ◌∙◌, ap, not, List, [], ◌∷◌, length, ◌==◌, arith, All}
use streammix.Common.Bytes.{
  zeros, set_at, be_bytes, get_be, be_from-be_bytes, IsByte, be_bytes-be_from_zero, be_from,
  be_from-lt,
}
use native.Mathlib.Nat.{mod-eq_of_lt}
use streammix.Common.Int.{ℤ, pos, wrap, wrap-lt}
use streammix.Common.Number.{Number, num, to_uint, to_integer}
use streammix.Errors.{Result, ok, ◌>>◌, bad_if, ok-injective}

pub record FingerprintPayload : Type 0 where
  pub hash : ℤ
  pub window_ms : Number

unfoldable pub encode_fingerprint : FingerprintPayload → List ℕ
encode_fingerprint p =
    let buf = zeros 10 in
    let buf = set_at buf 0 (be_bytes 8 (wrap 64 p.hash)) in
    set_at buf 8 (be_bytes 2 (to_uint 16 p.window_ms))

unfoldable pub decode_fingerprint : List ℕ → Result FingerprintPayload
decode_fingerprint buf = do
  bad_if (not (length buf == 10)) "fingerprint length"
  ok (record { hash = pos (get_be 8 buf 0); window_ms = num (get_be 2 buf 8) })

-- Every fingerprint is read back modulo the widths of its two fields: 64 and 16 bits.
pub decode_fingerprint-encode_fingerprint :
    (p : FingerprintPayload)
    → decode_fingerprint (encode_fingerprint p)
      ≡ ok (record { hash = pos (wrap 64 p.hash); window_ms = num (to_uint 16 p.window_ms) })
unfolding decode_fingerprint encode_fingerprint be_bytes
decode_fingerprint-encode_fingerprint p =
    let hash_ok : get_be 8 (encode_fingerprint p) 0 ≡ wrap 64 p.hash =
      be_from-be_bytes 8 (wrap 64 p.hash) (wrap-lt 64 p.hash) in
    let window_ok : get_be 2 (encode_fingerprint p) 8 ≡ to_uint 16 p.window_ms =
      be_from-be_bytes 2 (to_uint 16 p.window_ms) (wrap-lt 16 (to_integer p.window_ms)) in
    rw (hash_ok, window_ok) refl

-- Encoding a fingerprint that was decoded from a buffer of bytes gives the same buffer back.
pub decode_fingerprint_sound :
    (buf : List ℕ) (p : FingerprintPayload)
    → All IsByte buf
    → decode_fingerprint buf ≡ ok p
    → encode_fingerprint p ≡ buf
unfolding decode_fingerprint encode_fingerprint
decode_fingerprint_sound (b0 ∷ b1 ∷ b2 ∷ b3 ∷ b4 ∷ b5 ∷ b6 ∷ b7 ∷ b8 ∷ b9 ∷ []) p h e =
    let hash : List ℕ = b0 ∷ b1 ∷ b2 ∷ b3 ∷ b4 ∷ b5 ∷ b6 ∷ b7 ∷ [] in
    let window : List ℕ = b8 ∷ b9 ∷ [] in
    let hash_ok : be_bytes 8 (be_from 0 hash % 2 ^ 64) ≡ hash =
      ap (be_bytes 8) (mod-eq_of_lt (be_from-lt 0 0 hash (omega arith) (omega arith)))
      ∙ be_bytes-be_from_zero hash (omega arith) in
    let window_ok : be_bytes 2 (be_from 0 window % 2 ^ 16) ≡ window =
      ap (be_bytes 2) (mod-eq_of_lt (be_from-lt 0 0 window (omega arith) (omega arith)))
      ∙ be_bytes-be_from_zero window (omega arith) in
    rw (← ok-injective e, hash_ok, window_ok) refl
decode_fingerprint_sound [] p h e = cc
decode_fingerprint_sound _ p h e = ground arith
