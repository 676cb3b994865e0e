-- ===== src/Messages/ErrorMessage.antt =====
-- shared/ts/src/messages.ts: ERROR.
use streammix.Common.{ℕ, ◌≤◌, ◌≡◌, subst, ◌∙◌, true, not, List, length, arith}
use streammix.Common.Text.{Text, text}
use streammix.Errors.{
  Result, ok, malformed, bad_payload, ◌>>=◌, ◌>>◌, bad_if, is_error_code, >>=-eq-ok, throw_if-eq-ok,
  ok-injective,
}
use streammix.Json.{string, object, Fields, end, field, JsonText, IsReadBack}
use streammix.Messages.{
  encode_json, decode_json, str_field, str_field_sound, decode_json-encode_json, max_json_bytes,
}

pub record ErrorPayload : Type 0 where
  pub code : Text
  pub message : Text

abbrev pub error_fields : ErrorPayload → Fields
error_fields p = field (text "code") (string p.code) (field (text "message") (string p.message) end)

unfoldable pub encode_error : JsonText → ErrorPayload → Result (List ℕ)
encode_error json p = encode_json json (object (error_fields p))

unfoldable pub decode_error : JsonText → List ℕ → Result ErrorPayload
decode_error json buf = do
  obj ← decode_json json buf
  code ← str_field obj "code" 32
  bad_if (not (is_error_code code)) "error.code"
  message ← str_field obj "message" 512
  ok (record { code = code; message = message })

pub record IsError (p : ErrorPayload) : Type 0 where
  pub code_length : length p.code ≤ 32
  pub code : is_error_code p.code ≡ true
  pub message : length p.message ≤ 512

-- `decodeError` returns one of the six codes and a message of at most 512 code units.
pub decode_error_sound :
    (json : JsonText) (buf : List ℕ) (p : ErrorPayload) → decode_error json buf ≡ ok p → IsError p
unfolding decode_error
decode_error_sound json buf p h =
    let (obj, _, h1) = >>=-eq-ok (decode_json json buf) _ h in
    let (code, got_code, h2) = >>=-eq-ok (str_field obj "code" 32) _ h1 in
    let (listed, h3) =
      throw_if-eq-ok (not (is_error_code code)) (malformed "error.code") bad_payload _ h2 in
    let (message, got_message, h4) = >>=-eq-ok (str_field obj "message" 512) _ h3 in
    subst IsError (ok-injective h4) (record {
      code_length = (str_field_sound obj "code" 32 got_code).1;
      code = ground arith;
      message = (str_field_sound obj "message" 512 got_message).1;
    })

-- An error with one of the six codes and a message of at most 512 code units is read back, if its
-- JSON text gives the object back and fits into 4096 bytes.
pub decode_error-encode_error :
    (json : JsonText) (p : ErrorPayload)
    → IsError p
    → IsReadBack json (object (error_fields p))
    → length (json.stringify (object (error_fields p))) ≤ max_json_bytes
    → (encode_error json p >>= decode_error json) ≡ ok p
unfolding decode_error encode_error str_field
decode_error-encode_error json p v back fits =
    decode_json-encode_json json (error_fields p) _ back fits ∙ ground arith
