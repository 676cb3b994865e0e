-- ===== src/Messages/Hello.antt =====
-- shared/ts/src/messages.ts: HELLO. The fields whose type has one value (`version: 1`,
-- `codec: "opus"`, `sampleRate: 48000`, `frameMs: 20`) are no fields of the model's payload.
use streammix.Common.{
  ℕ, ◌≤◌, ◌≡◌, subst, ◌∙◌, Bool, true, false, not, List, Option, none, some, String, length, arith,
  if◌then◌else◌, ltb-eq_false,
}
use streammix.Common.Text.{Text, text, text_eq_iff}
use streammix.Common.Int.{pos, negsuc}
use streammix.Common.Number.{num, nan, pos_inf, neg_inf, finite}
use streammix.Errors.{
  Result, ok, thrown, malformed, bad_payload, ◌>>=◌, ◌>>◌, bad_if, >>=-eq-ok, throw_if-eq-ok,
  ok-injective,
}
use streammix.Json.{
  Json, null, bool, number, string, array, object, Fields, end, field, JsonText, IsReadBack, prop,
  members, is_number, is_text,
}
use streammix.Messages.{
  encode_json, decode_json, str_field, str_field_sound, decode_json-encode_json, max_json_bytes,
}
use streammix.Messages.TrackList.{require_members}

-- `channels: 1 | 2`
pub data Channels : Type 0 where
  mono stereo : Channels

abbrev pub channel_count : Channels → ℕ
channel_count mono = 1
channel_count stereo = 2

pub record HelloPayload : Type 0 where
  pub client : Text
  pub channels : Channels

abbrev pub audio_fields : Channels → Fields
audio_fields channels = field (text "codec") (string (text "opus")) (
    field (text "sample_rate") (number (num 48000)) (
      field (text "channels") (number (num (channel_count channels)))
        (field (text "frame_ms") (number (num 20)) end)))

abbrev pub hello_fields : HelloPayload → Fields
hello_fields p = field (text "version") (number (num 1)) (
    field (text "client") (string p.client)
      (field (text "audio") (object (audio_fields p.channels)) end))

unfoldable pub encode_hello : JsonText → HelloPayload → Result (List ℕ)
encode_hello json p = encode_json json (object (hello_fields p))

-- `audio.channels !== 1 && audio.channels !== 2` throws; else the number is returned.
abbrev pub require_channels : Option Json → Result Channels
require_channels v =
    if is_number v 1
    then ok mono
    else if is_number v 2
    then ok stereo
    else thrown (record { message = malformed "hello.audio.channels"; code = bad_payload })

unfoldable pub decode_hello : JsonText → List ℕ → Result HelloPayload
decode_hello json buf = do
  obj ← decode_json json buf
  bad_if (not (is_number (prop (text "version") obj) 1)) "hello.version"
  client ← str_field obj "client" 128
  audio ← require_members "hello.audio" (members (prop (text "audio") obj))
  bad_if (not (is_text (prop (text "codec") audio) (text "opus"))) "hello.audio.codec"
  bad_if (not (is_number (prop (text "sample_rate") audio) 48000)) "hello.audio.sample_rate"
  channels ← require_channels (prop (text "channels") audio)
  bad_if (not (is_number (prop (text "frame_ms") audio) 20)) "hello.audio.frame_ms"
  ok (record { client = client; channels = channels })

-- A HELLO whose client name has at most 128 code units is read back, if its JSON text gives the object
-- back and fits into 4096 bytes.
pub decode_hello-encode_hello :
    (json : JsonText) (p : HelloPayload)
    → length p.client ≤ 128
    → IsReadBack json (object (hello_fields p))
    → length (json.stringify (object (hello_fields p))) ≤ max_json_bytes
    → (encode_hello json p >>= decode_hello json) ≡ ok p
unfolding decode_hello encode_hello str_field
decode_hello-encode_hello json p short back fits =
    decode_json-encode_json json (hello_fields p) _ back fits
    ∙ rw (ltb-eq_false short) (ground arith)

eq_of_is_number : (v : Option Json) (n : ℕ) → is_number v n ≡ true → v ≡ some (number (num n))
eq_of_is_number (some (number (finite (pos i) f))) n h = ground arith
eq_of_is_number (some (number (finite (negsuc i) f))) n h = cc
eq_of_is_number (some (number nan)) n h = cc
eq_of_is_number (some (number pos_inf)) n h = cc
eq_of_is_number (some (number neg_inf)) n h = cc
eq_of_is_number (some null) n h = cc
eq_of_is_number (some (bool b)) n h = cc
eq_of_is_number (some (string s)) n h = cc
eq_of_is_number (some (array vs)) n h = cc
eq_of_is_number (some (object fs)) n h = cc
eq_of_is_number none n h = cc

eq_of_is_text : (v : Option Json) (t : Text) → is_text v t ≡ true → v ≡ some (string t)
eq_of_is_text (some (string s)) t h = ground (arith, text_eq_iff s t)
eq_of_is_text (some (number x)) t h = cc
eq_of_is_text (some null) t h = cc
eq_of_is_text (some (bool b)) t h = cc
eq_of_is_text (some (array vs)) t h = cc
eq_of_is_text (some (object fs)) t h = cc
eq_of_is_text none t h = cc

-- What the bytes of an accepted HELLO say.
pub record Announces (obj : Fields) (p : HelloPayload) : Type 0 where
  pub version : prop (text "version") obj ≡ some (number (num 1))
  pub client : prop (text "client") obj ≡ some (string p.client)
  pub client_length : length p.client ≤ 128
  pub audio : Fields
  pub audio_members : members (prop (text "audio") obj) ≡ some audio
  pub codec : prop (text "codec") audio ≡ some (string (text "opus"))
  pub sample_rate : prop (text "sample_rate") audio ≡ some (number (num 48000))
  pub channels : prop (text "channels") audio ≡ some (number (num (channel_count p.channels)))
  pub frame_ms : prop (text "frame_ms") audio ≡ some (number (num 20))

of_not : {b : Bool} → not b ≡ false → b ≡ true
of_not h = ground arith

require_members_sound :
    (detail : String) (o : Option Fields) {fields : Fields}
    → require_members detail o ≡ ok fields
    → o ≡ some fields
require_members_sound detail none h = cc
require_members_sound detail (some obj) h = cc

require_channels_sound :
    (v : Option Json) {c : Channels}
    → require_channels v ≡ ok c
    → v ≡ some (number (num (channel_count c)))
require_channels_sound v h = ground (arith, eq_of_is_number v 1, eq_of_is_number v 2)

-- An accepted HELLO says version 1, codec "opus", 48000 samples a second, frames of 20 ms, and the
-- client name (128 code units at most) and the channels that are returned.
pub decode_hello_sound :
    (json : JsonText) (buf : List ℕ) (p : HelloPayload)
    → decode_hello json buf ≡ ok p
    → (obj : Fields) × (decode_json json buf ≡ ok obj) × Announces obj p
unfolding decode_hello
decode_hello_sound json buf p h =
    let (obj, parsed, h1) = >>=-eq-ok (decode_json json buf) _ h in
    let (version, h2) =
      throw_if-eq-ok (not (is_number (prop (text "version") obj) 1)) (malformed "hello.version")
        bad_payload _ h1 in
    let (client, got_client, h3) = >>=-eq-ok (str_field obj "client" 128) _ h2 in
    let (audio, got_audio, h4) =
      >>=-eq-ok (require_members "hello.audio" (members (prop (text "audio") obj))) _ h3 in
    let (codec, h5) =
      throw_if-eq-ok (not (is_text (prop (text "codec") audio) (text "opus")))
        (malformed "hello.audio.codec") bad_payload _ h4 in
    let (rate, h6) =
      throw_if-eq-ok (not (is_number (prop (text "sample_rate") audio) 48000))
        (malformed "hello.audio.sample_rate") bad_payload _ h5 in
    let (channels, got_channels, h7) =
      >>=-eq-ok (require_channels (prop (text "channels") audio)) _ h6 in
    let (frame, h8) =
      throw_if-eq-ok (not (is_number (prop (text "frame_ms") audio) 20))
        (malformed "hello.audio.frame_ms") bad_payload _ h7 in
    let (client_is, client_short) = str_field_sound obj "client" 128 got_client in
    (
      obj,
      parsed,
      subst (Announces obj) (ok-injective h8) (record {
        version = eq_of_is_number (prop (text "version") obj) 1 (of_not version);
        client = client_is;
        client_length = client_short;
        audio = audio;
        audio_members =
            require_members_sound "hello.audio" (members (prop (text "audio") obj)) got_audio;
        codec = eq_of_is_text (prop (text "codec") audio) (text "opus") (of_not codec);
        sample_rate = eq_of_is_number (prop (text "sample_rate") audio) 48000 (of_not rate);
        channels = require_channels_sound (prop (text "channels") audio) got_channels;
        frame_ms = eq_of_is_number (prop (text "frame_ms") audio) 20 (of_not frame);
      }),
    )
