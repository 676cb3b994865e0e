-- ===== src/Messages/Codes.antt =====
-- The codes of the errors that the decoders of shared/ts/src/messages.ts throw: the readers of members.
pub mod Decoders
use streammix.Common.{
  ℕ, ◌≡◌, refl, Bool, true, false, not, List, [], ◌∷◌, Option, none, some, String, length, ltb,
  ◌==◌, ◌&&◌, if◌then◌else◌, Bool-cases, inl, inr, arith,
}
use streammix.Common.Text.{Text, text, text_eq}
use streammix.Common.Number.{Number}
use streammix.Constants.{max_track_slot}
use streammix.Categories.{custom_category, is_preset_category, is_valid_slug}
use streammix.Errors.{
  Result, ok, thrown, Code, bad_payload, too_large, Message, malformed, is_error_code, ◌>>=◌, ◌>>◌,
  throw_if,
}
use streammix.Json.{
  Json, Fields, Items, nil, cons, JsonText, number, string, array, object, prop, members,
  count_items, is_number, is_text,
}
use streammix.Messages.{
  max_json_bytes, decode_json, require_object, require_string, require_number, str_field, num_field,
}
use streammix.Messages.ErrorMessage.{decode_error}
use streammix.Messages.Fingerprint.{decode_fingerprint}
use streammix.Messages.Hello.{decode_hello, require_channels}
use streammix.Messages.Stats.{decode_stats}
use streammix.Messages.SubTracks.{decode_sub_tracks, decode_ids}
use streammix.Messages.TrackList.{
  decode_track_list, decode_tracks, decode_track, require_members, require_items, require_id,
}
use streammix.Messages.TrackMeta.{decode_track_meta, read_track_meta, optional_field, require_https}

module _ {ℓ} {A : Type ℓ} where
  -- What is thrown, if anything, has the code.
  abbrev pub Carries : Code → Result A → Type 0
  Carries c (ok a) = Unit {0}
  Carries c (thrown e) = e.code ≡ c

module _ {ℓ κ} {A : Type ℓ} {B : Type κ} (m : Result A) (k : A → Result B) where
  pub >>=-Carries : (c : Code) → Carries c m → ((a : A) → Carries c (k a)) → Carries c (m >>= k)
  >>=-Carries c h rest =
      elim m as (λ r. Carries c r → Carries c (r >>= k)) [
        | ok a ↦ λ first. rest a
        | thrown e ↦ λ first. first
      ]
        h

pub throw_if-Carries {ℓ} :
    {B : Type ℓ} (c : Code) (test : Bool) (message : Message) (k : Result B)
    → Carries c k
    → Carries c (throw_if test message c >> k)
throw_if-Carries c true message k h = refl
throw_if-Carries c false message k h = h

require_string-Carries :
    (key : String) (max_len : ℕ) (v : Option Json)
    → Carries bad_payload (require_string key max_len v)
require_string-Carries key max_len (some (string v)) =
    throw_if-Carries bad_payload (ltb max_len (length v)) _ (ok v) tt
require_string-Carries key max_len _ = refl

require_number-Carries :
    (key : String) (v : Option Json) → Carries bad_payload (require_number key v)
require_number-Carries key (some (number v)) = throw_if-Carries bad_payload _ _ (ok v) tt
require_number-Carries key _ = refl

pub require_members-Carries :
    (detail : String) (v : Option Fields) → Carries bad_payload (require_members detail v)
require_members-Carries detail none = refl
require_members-Carries detail (some obj) = tt

pub require_items-Carries :
    (detail : String) (v : Option Json) → Carries bad_payload (require_items detail v)
require_items-Carries detail (some (array vs)) = tt
require_items-Carries detail _ = refl

require_id-Carries :
    (detail duplicate : String) (seen : List Number) (v : Option Json)
    → Carries bad_payload (require_id detail duplicate seen v)
require_id-Carries detail duplicate seen (some (number id)) = ground arith
require_id-Carries detail duplicate seen _ = refl

pub require_channels-Carries : (v : Option Json) → Carries bad_payload (require_channels v)
require_channels-Carries v = ground arith

pub str_field-Carries :
    (obj : Fields) (key : String) (max_len : ℕ) → Carries bad_payload (str_field obj key max_len)
unfolding str_field
str_field-Carries obj key max_len = require_string-Carries key max_len (prop (text key) obj)

pub num_field-Carries : (obj : Fields) (key : String) → Carries bad_payload (num_field obj key)
unfolding num_field
num_field-Carries obj key = require_number-Carries key (prop (text key) obj)

pub optional_field-Carries :
    (obj : Fields) (key : String) (max_len : ℕ) (v : Option Json)
    → Carries bad_payload (optional_field obj key max_len v)
optional_field-Carries obj key max_len none = tt
optional_field-Carries obj key max_len (some v) =
    >>=-Carries (str_field obj key max_len) _ bad_payload (str_field-Carries obj key max_len)
      (λ s. tt)

pub require_https-Carries : (url : Option Text) → Carries bad_payload (require_https url)
require_https-Carries none = tt
require_https-Carries (some u) = throw_if-Carries bad_payload _ _ (ok (some u)) tt

decode_track-Carries :
    (seen : List Number) (raw : Json) → Carries bad_payload (decode_track seen raw)
unfolding decode_track
decode_track-Carries seen raw =
    >>=-Carries _ _ bad_payload (require_members-Carries "track entry" (members (some raw))) λ obj.
      >>=-Carries _ _ bad_payload
        (require_id-Carries "track.id" "track.id duplicate" seen (prop (text "id") obj))
        λ id. >>=-Carries _ _ bad_payload (str_field-Carries obj "slug" 64) λ slug.
          throw_if-Carries bad_payload (not (is_valid_slug slug)) (malformed "track.slug format") _
            (>>=-Carries _ _ bad_payload (str_field-Carries obj "category" 32) λ category.
              throw_if-Carries bad_payload
                (not (text_eq category custom_category) && not (is_preset_category category))
                (malformed "track.category") _
                (>>=-Carries _ _ bad_payload (str_field-Carries obj "label" 64) λ label. tt))

pub decode_tracks-Carries :
    (seen : List Number) (vs : Items) → Carries bad_payload (decode_tracks seen vs)
unfolding decode_tracks
decode_tracks-Carries seen nil = tt
decode_tracks-Carries seen (cons raw rest) =
    >>=-Carries _ _ bad_payload (decode_track-Carries seen raw)
      λ t. >>=-Carries _ _ bad_payload (decode_tracks-Carries (t.id ∷ seen) rest) λ ts. tt

pub decode_ids-Carries :
    (seen : List Number) (vs : Items) → Carries bad_payload (decode_ids seen vs)
unfolding decode_ids
decode_ids-Carries seen nil = tt
decode_ids-Carries seen (cons raw rest) =
    >>=-Carries _ _ bad_payload
      (require_id-Carries "sub_tracks.id" "sub_tracks.id duplicate" seen (some raw))
      λ id. >>=-Carries _ _ bad_payload (decode_ids-Carries (id ∷ seen) rest) λ ids. tt
