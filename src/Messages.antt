-- ===== src/Messages.antt =====
-- shared/ts/src/messages.ts: the helpers that its codecs share.
pub mod Fingerprint
pub mod Hello
pub mod TrackList
pub mod SubTracks
pub mod TrackMeta
pub mod Stats
pub mod ErrorMessage
pub mod Codes
use streammix.Common.{
  ℕ, ◌≤◌, ◌≡◌, Bool, true, false, not, ◌||◌, List, Option, none, some, String, length, ltb,
  ltb-eq_false, arith, refl,
}
use streammix.Common.Text.{Text, text}
use streammix.Common.Number.{Number, num, num_lt, is_finite}
use streammix.Errors
use streammix.Errors.{Result, ok, thrown, ◌>>=◌, ◌>>◌, throw_if, bad_if}
use streammix.Json.{
  Json, null, bool, number, string, array, object, Fields, JsonText, IsReadBack, prop,
}

abbrev pub max_json_bytes : ℕ
max_json_bytes = 4096

unfoldable pub encode_json : JsonText → Json → Result (List ℕ)
encode_json json value = do
  let out = json.stringify value
  throw_if (ltb max_json_bytes (length out)) (Errors.json_too_large (length out)) Errors.too_large
  ok out

-- The tests on what `JSON.parse` returned: only an object that is no array passes.
abbrev pub require_object : Option Json → Result Fields
require_object none = thrown (record { message = Errors.invalid_json; code = Errors.bad_payload })
require_object (some (object fields)) = ok fields
require_object (some other) =
    thrown (record { message = Errors.not_an_object; code = Errors.bad_payload })

unfoldable pub decode_json : JsonText → List ℕ → Result Fields
decode_json json buf = do
  throw_if (ltb max_json_bytes (length buf)) (Errors.json_too_large (length buf)) Errors.too_large
  require_object (json.parse buf)

abbrev pub require_string : String → ℕ → Option Json → Result Text
require_string key max_len (some (string v)) = do
  throw_if (ltb max_len (length v)) (Errors.field_too_long key) Errors.bad_payload
  ok v
require_string key max_len other =
    thrown (record { message = Errors.field_not_string key; code = Errors.bad_payload })

unfoldable pub str_field : Fields → String → ℕ → Result Text
str_field obj key max_len = require_string key max_len (prop (text key) obj)

abbrev pub require_number : String → Option Json → Result Number
require_number key (some (number v)) = do
  throw_if (not (is_finite v) || num_lt v (num 0)) (Errors.field_not_number key) Errors.bad_payload
  ok v
require_number key other =
    thrown (record { message = Errors.field_not_number key; code = Errors.bad_payload })

unfoldable pub num_field : Fields → String → Result Number
num_field obj key = require_number key (prop (text key) obj)

-- An object that is read back from its text, and whose text fits, survives the two helpers: what the
-- decoder `k` makes of the bytes is what it makes of the object.
pub decode_json-encode_json {ℓ} :
    {A : Type ℓ} (json : JsonText) (obj : Fields) (k : Fields → Result A)
    → IsReadBack json (object obj)
    → length (json.stringify (object obj)) ≤ max_json_bytes
    → (encode_json json (object obj) >>= λ buf. decode_json json buf >>= k) ≡ k obj
unfolding encode_json decode_json
decode_json-encode_json json obj k h fits = rw (ltb-eq_false fits, ltb-eq_false fits, h) refl

pub encode_json_ok :
    (json : JsonText) (value : Json)
    → length (json.stringify value) ≤ max_json_bytes
    → encode_json json value ≡ ok (json.stringify value)
unfolding encode_json
encode_json_ok json value fits = rw (ltb-eq_false fits) refl

-- What was encoded is the text of the value, and fits.
pub encode_json_fits :
    (json : JsonText) (value : Json) {bytes : List ℕ}
    → encode_json json value ≡ ok bytes
    → (length bytes ≤ max_json_bytes) × (json.stringify value ≡ bytes)
unfolding encode_json
encode_json_fits json value h = ground arith

require_string_sound :
    (key : String) (max_len : ℕ) (o : Option Json) {v : Text}
    → require_string key max_len o ≡ ok v
    → (o ≡ some (string v)) × (length v ≤ max_len)
require_string_sound key max_len (some (string v)) h = ground arith
require_string_sound key max_len (some null) h = cc
require_string_sound key max_len (some (bool b)) h = cc
require_string_sound key max_len (some (number x)) h = cc
require_string_sound key max_len (some (array vs)) h = cc
require_string_sound key max_len (some (object fs)) h = cc
require_string_sound key max_len none h = cc

require_number_sound :
    (key : String) (o : Option Json) {v : Number}
    → require_number key o ≡ ok v
    → (o ≡ some (number v)) × (is_finite v ≡ true) × (num_lt v (num 0) ≡ false)
require_number_sound key (some (number v)) h = ground arith
require_number_sound key (some null) h = cc
require_number_sound key (some (bool b)) h = cc
require_number_sound key (some (string x)) h = cc
require_number_sound key (some (array vs)) h = cc
require_number_sound key (some (object fs)) h = cc
require_number_sound key none h = cc

pub str_field_sound :
    (obj : Fields) (key : String) (max_len : ℕ) {v : Text}
    → str_field obj key max_len ≡ ok v
    → (prop (text key) obj ≡ some (string v)) × (length v ≤ max_len)
unfolding str_field
str_field_sound obj key max_len h = require_string_sound key max_len (prop (text key) obj) h

pub num_field_sound :
    (obj : Fields) (key : String) {v : Number}
    → num_field obj key ≡ ok v
    → (prop (text key) obj ≡ some (number v)) × (is_finite v ≡ true) × (num_lt v (num 0) ≡ false)
unfolding num_field
num_field_sound obj key h = require_number_sound key (prop (text key) obj) h
