-- ===== src/Common/Bytes.antt =====
-- Bytes and byte buffers: `Uint8Array`, and the big-endian accessors of `DataView` (`getUint16`,
-- `getUint32`, `getBigUint64` and their setters with `littleEndian = false`).
use Prim.Native.Nat.{ℕ, zero, suc, ◌+◌, ◌*◌, ◌/◌, ◌%◌, ◌^◌, ◌<◌}
use Prim.Native.Nat.add
use mathlib.Core.Path.{◌≡◌, refl, ap, ◌∙◌, sym}
use mathlib.Core.List.{List, [], ◌∷◌, ◌++◌, append-nil, append_assoc}
use native.Mathlib.Nat.{pow-suc, add-zero}
use native.Mathlib.Omega.{arith}
use streammix.Common.Lists.{length, All, take, drop}

abbrev pub IsByte : ℕ → Type 0
IsByte b = b < 256

-- `new Uint8Array(n)`
abbrev pub zeros : ℕ → List ℕ
zeros zero = []
zeros (suc n) = 0 ∷ zeros n

-- `buf.set(bytes, offset)`. What would go past the end is left out (the program never does that:
-- it would be a RangeError).
abbrev pub overlay : List ℕ → List ℕ → List ℕ
overlay xs [] = xs
overlay [] (b ∷ bs) = []
overlay (x ∷ xs) (b ∷ bs) = b ∷ overlay xs bs

abbrev pub set_at : List ℕ → ℕ → List ℕ → List ℕ
set_at xs zero bs = overlay xs bs
set_at [] (suc o) bs = []
set_at (x ∷ xs) (suc o) bs = x ∷ set_at xs o bs

-- The `k` low bytes of `v`, most significant first.
unfoldable pub be_bytes : ℕ → ℕ → List ℕ
be_bytes zero v = []
be_bytes (suc k) v = be_bytes k (v / 256) ++ (v % 256 ∷ [])

-- The number that `bs` spells, read behind the digits `acc`.
unfoldable pub be_from : ℕ → List ℕ → ℕ
be_from acc [] = acc
be_from acc (b ∷ bs) = be_from (acc * 256 + b) bs

-- `view.getUintN(offset, false)` of `k` bytes.
abbrev pub get_be : ℕ → List ℕ → ℕ → ℕ
get_be k buf offset = be_from 0 (take k (drop offset buf))

be_from-append :
    (acc : ℕ) (xs : List ℕ) (b : ℕ) → be_from acc (xs ++ (b ∷ [])) ≡ be_from acc xs * 256 + b
unfolding be_from
be_from-append acc [] b = refl
be_from-append acc (x ∷ xs) b = be_from-append (acc * 256 + x) xs b

-- Reading back what was written gives the number modulo 256 ^ k: here, for one that fits.
pub be_from-be_bytes : (k v : ℕ) → v < 256 ^ k → be_from 0 (be_bytes k v) ≡ v
unfolding be_bytes
be_from-be_bytes zero v h = unfold be_from in omega arith
be_from-be_bytes (suc k) v h =
    be_from-append 0 (be_bytes k (v / 256)) (v % 256)
    ∙ omega (arith, be_from-be_bytes k (v / 256) (omega (arith, pow-suc 256 k)))

suc-add-eq-add-suc : (m n : ℕ) → suc m + n ≡ m + suc n
suc-add-eq-add-suc m n = omega arith

be_bytes-be_from :
    (acc j : ℕ) (bs : List ℕ)
    → All IsByte bs
    → be_bytes (length bs + j) (be_from acc bs) ≡ be_bytes j acc ++ bs
unfolding be_bytes be_from
be_bytes-be_from acc j [] h =
    ap (λ n. be_bytes n acc) (add.zero j) ∙ sym (append-nil (be_bytes j acc))
be_bytes-be_from acc j (b ∷ bs) (hb, hbs) =
    let quotient : (acc * 256 + b) / 256 ≡ acc = omega arith in
    let digit : (acc * 256 + b) % 256 ≡ b = omega arith in
    ap (λ n. be_bytes n (be_from (acc * 256 + b) bs)) (suc-add-eq-add-suc (length bs) j)
    ∙ be_bytes-be_from (acc * 256 + b) (suc j) bs hbs
    ∙ rw (quotient, digit) (append_assoc (be_bytes j acc) (b ∷ []) bs)

-- Writing what was read gives the same bytes.
pub be_bytes-be_from_zero : (bs : List ℕ) → All IsByte bs → be_bytes (length bs) (be_from 0 bs) ≡ bs
unfolding be_bytes
be_bytes-be_from_zero bs h =
    ap (λ n. be_bytes n (be_from 0 bs)) (sym (add-zero (length bs))) ∙ be_bytes-be_from 0 0 bs h

pub be_from-lt :
    (acc k : ℕ) (bs : List ℕ)
    → All IsByte bs
    → acc < 256 ^ k
    → be_from acc bs < 256 ^ (length bs + k)
unfolding be_from
be_from-lt acc k [] h a = rw (add.zero k) a
be_from-lt acc k (b ∷ bs) (hb, hbs) a =
    let shifted : length bs + suc k ≡ suc (length bs) + k = omega arith in
    rw (← shifted) (be_from-lt (acc * 256 + b) (suc k) bs hbs (omega (arith, pow-suc 256 k)))
