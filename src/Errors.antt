-- ===== src/Errors.antt =====
-- shared/ts/src/errors.ts: the errors that the decoders throw and the codes of an ERROR payload.
use streammix.Common.{ℕ, ◌≡◌, refl, Bool, true, false, List, [], ◌∷◌, String}
use streammix.Common.Text.{Text, text, includes}
use streammix.Common.Number.{Number}

abbrev pub error_codes : List Text
error_codes =
    text "AUTH_FAILED"
    ∷ text "CHANNEL_TAKEN"
    ∷ text "VERSION_MISMATCH"
    ∷ text "RATE_LIMIT"
    ∷ text "TRACK_LIMIT"
    ∷ text "MALFORMED"
    ∷ []

unfoldable pub is_error_code : Text → Bool
is_error_code value = includes error_codes value

-- The code of a `ProtocolError`.
pub data Code : Type 0 where
  bad_magic bad_length bad_track bad_type bad_payload too_large : Code

-- The message of a `ProtocolError`: a constructor for each template string of the source, with what
-- is put into it. The texts behind "malformed payload: " stand as they are written.
pub data Message : Type 0 where
  payload_too_large json_too_large frame_shorter : ℕ → Message
  invalid_track flags_out_of_range seq_out_of_range : Number → Message
  timestamp_out_of_range magic_mismatch : Message
  length_mismatch : ℕ → ℕ → Message
  unknown_type : ℕ → Message
  invalid_json not_an_object : Message
  malformed : String → Message
  field_not_string field_too_long field_not_number : String → Message

pub record ProtocolError : Type 0 where
  pub message : Message
  pub code : Code

-- What a call returns or throws.
pub data Result {ℓ} (A : Type ℓ) : Type ℓ where
  ok : A → Result A
  thrown : ProtocolError → Result A

infixl 5 ◌>>=◌ ◌>>◌
-- The rest of a body, behind a call that may throw.
abbrev pub ◌>>=◌ {i j} : {V : Type i} {W : Type j} → Result V → (V → Result W) → Result W
thrown error >>= body = thrown error
ok value >>= body = body value

-- The same behind a call for its effect.
abbrev pub ◌>>◌ {j} : {W : Type j} → Result (Unit {0}) → Result W → Result W
thrown error >> body = thrown error
ok _ >> body = body

-- `if (test) throw new ProtocolError(message, code);`
abbrev pub throw_if : Bool → Message → Code → Result (Unit {0})
throw_if true m c = thrown (record { message = m; code = c })
throw_if false m c = ok tt

-- `if (test) throw bad(detail);`
abbrev pub bad_if : Bool → String → Result (Unit {0})
bad_if test detail = throw_if test (malformed detail) bad_payload

-- A body that returned went through its first call.
pub >>=-eq-ok {i j} :
    {V : Type i} {W : Type j} (call : Result V) (body : V → Result W) {w : W}
    → (call >>= body) ≡ ok w
    → (value : V) × (call ≡ ok value) × (body value ≡ ok w)
>>=-eq-ok (thrown error) body returned = cc
>>=-eq-ok (ok value) body returned = (value, refl, returned)

pub throw_if-eq-ok {ℓ} :
    {B : Type ℓ} (test : Bool) (m : Message) (c : Code) (k : Result B) {b : B}
    → (throw_if test m c >> k) ≡ ok b
    → (test ≡ false) × (k ≡ ok b)
throw_if-eq-ok true m c k h = cc
throw_if-eq-ok false m c k h = (refl, h)

pub ok-injective {ℓ} : {A : Type ℓ} {a b : A} → ok a ≡ ok b → a ≡ b
ok-injective h = cc
