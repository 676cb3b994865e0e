-- ===== src/Messages/TrackMeta.antt =====
-- shared/ts/src/messages.ts: TRACK_META.
use streammix.Common.{
  ℕ, ◌≤◌, ◌≡◌, subst, ◌∙◌, Bool, true, false, not, ◌&&◌, List, [], ◌∷◌, Option, none, some, length,
  String, arith, ◌==◌, refl,
}
use streammix.Common.Text.{Text, text}
use streammix.Errors.{
  Result, ok, malformed, bad_payload, ◌>>=◌, ◌>>◌, bad_if, >>=-eq-ok, throw_if-eq-ok, ok-injective,
}
use streammix.Json.{Json, string, object, Fields, end, field, JsonText, IsReadBack, prop}
use streammix.Messages.{
  encode_json, decode_json, str_field, str_field_sound, decode_json-encode_json, max_json_bytes,
}

pub record TrackMetaPayload : Type 0 where
  pub title : Option Text
  pub artist : Option Text
  pub album_art_url : Option Text

-- `if (value !== undefined) out[key] = value;`, before the members that are set later.
abbrev pub set_if : Text → Option Text → Fields → Fields
set_if key none rest = rest
set_if key (some v) rest = field key (string v) rest

abbrev pub track_meta_fields : TrackMetaPayload → Fields
track_meta_fields p =
    set_if (text "title") p.title
      (set_if (text "artist") p.artist (set_if (text "album_art_url") p.album_art_url end))

unfoldable pub encode_track_meta : JsonText → TrackMetaPayload → Result (List ℕ)
encode_track_meta json p = encode_json json (object (track_meta_fields p))

-- `s.startsWith(prefix)`
abbrev pub starts_with : Text → Text → Bool
starts_with s [] = true
starts_with [] (p ∷ ps) = false
starts_with (c ∷ s) (p ∷ ps) = c == p && starts_with s ps

-- `if (obj[key] !== undefined) out[key] = strField(obj, key, maxLen);`
abbrev pub optional_field : Fields → String → ℕ → Option Json → Result (Option Text)
optional_field obj key max_len none = ok none
optional_field obj key max_len (some v) = str_field obj key max_len >>= λ s. ok (some s)

abbrev pub require_https : Option Text → Result (Option Text)
require_https none = ok none
require_https (some u) = do
  bad_if (not (starts_with u (text "https://"))) "album_art_url must be https"
  ok (some u)

-- `decodeTrackMeta` behind `decodeJson`.
unfoldable pub read_track_meta : Fields → Result TrackMetaPayload
read_track_meta obj = do
  title ← optional_field obj "title" 256 (prop (text "title") obj)
  artist ← optional_field obj "artist" 256 (prop (text "artist") obj)
  url ← optional_field obj "album_art_url" 1024 (prop (text "album_art_url") obj)
  album_art_url ← require_https url
  ok (record { title = title; artist = artist; album_art_url = album_art_url })

unfoldable pub decode_track_meta : JsonText → List ℕ → Result TrackMetaPayload
unfolding read_track_meta
decode_track_meta json buf = decode_json json buf >>= read_track_meta

abbrev pub IsAbsentOr : (Text → Type 0) → Option Text → Type 0
IsAbsentOr P none = Unit {0}
IsAbsentOr P (some s) = P s

pub record IsMeta (p : TrackMetaPayload) : Type 0 where
  pub title : IsAbsentOr (λ s. length s ≤ 256) p.title
  pub artist : IsAbsentOr (λ s. length s ≤ 256) p.artist
  pub url_length : IsAbsentOr (λ s. length s ≤ 1024) p.album_art_url
  pub url : IsAbsentOr (λ s. starts_with s (text "https://") ≡ true) p.album_art_url

optional_field_sound :
    (obj : Fields) (key : String) (max_len : ℕ) (o : Option Json) {r : Option Text}
    → optional_field obj key max_len o ≡ ok r
    → IsAbsentOr (λ s. length s ≤ max_len) r
optional_field_sound obj key max_len none {r} h =
    subst (IsAbsentOr (λ s. length s ≤ max_len)) (ok-injective h) tt
optional_field_sound obj key max_len (some v) {r} h =
    let (s, got, h1) = >>=-eq-ok (str_field obj key max_len) _ h in
    subst (IsAbsentOr (λ s. length s ≤ max_len)) (ok-injective h1)
      (str_field_sound obj key max_len got).1

require_https_sound :
    (o : Option Text) {r : Option Text}
    → require_https o ≡ ok r
    → (o ≡ r) × IsAbsentOr (λ s. starts_with s (text "https://") ≡ true) r
require_https_sound none {r} h =
    subst (λ x. (none ≡ x) × IsAbsentOr (λ s. starts_with s (text "https://") ≡ true) x)
      (ok-injective h) (refl, tt)
require_https_sound (some u) {r} h =
    let (secure, h1) =
      throw_if-eq-ok (not (starts_with u (text "https://")))
        (malformed "album_art_url must be https") bad_payload _ h in
    subst (λ x. (some u ≡ x) × IsAbsentOr (λ s. starts_with s (text "https://") ≡ true) x)
      (ok-injective h1) (refl, ground arith)

-- What `decodeTrackMeta` returns keeps to the lengths, and its URL begins with "https://".
pub decode_track_meta_sound :
    (json : JsonText) (buf : List ℕ) (p : TrackMetaPayload)
    → decode_track_meta json buf ≡ ok p
    → IsMeta p
unfolding decode_track_meta
decode_track_meta_sound json buf p h =
    let (obj, _, h1) = >>=-eq-ok (decode_json json buf) _ h in
    let (title, got_title, h2) =
      >>=-eq-ok (optional_field obj "title" 256 (prop (text "title") obj)) _ h1 in
    let (artist, got_artist, h3) =
      >>=-eq-ok (optional_field obj "artist" 256 (prop (text "artist") obj)) _ h2 in
    let (url, got_url, h4) =
      >>=-eq-ok (optional_field obj "album_art_url" 1024 (prop (text "album_art_url") obj)) _ h3 in
    let (secure_url, secured, h5) = >>=-eq-ok (require_https url) _ h4 in
    let (same, secure) = require_https_sound url secured in
    subst IsMeta (ok-injective h5) (record {
      title = optional_field_sound obj "title" 256 (prop (text "title") obj) got_title;
      artist = optional_field_sound obj "artist" 256 (prop (text "artist") obj) got_artist;
      url_length =
          subst (IsAbsentOr (λ s. length s ≤ 1024)) same (
            optional_field_sound obj "album_art_url" 1024 (prop (text "album_art_url") obj)
              got_url);
      url = secure;
    })

read_track_meta-fields :
    (title artist url : Option Text)
    → IsMeta (record { title = title; artist = artist; album_art_url = url })
    → read_track_meta
        (track_meta_fields (record { title = title; artist = artist; album_art_url = url }))
      ≡ ok (record { title = title; artist = artist; album_art_url = url })
unfolding read_track_meta str_field
read_track_meta-fields none none none v = refl
read_track_meta-fields none none (some u) v = ground (arith, v.url_length, v.url)
read_track_meta-fields none (some a) none v = ground (arith, v.artist)
read_track_meta-fields none (some a) (some u) v = ground (arith, v.artist, v.url_length, v.url)
read_track_meta-fields (some t) none none v = ground (arith, v.title)
read_track_meta-fields (some t) none (some u) v = ground (arith, v.title, v.url_length, v.url)
read_track_meta-fields (some t) (some a) none v = ground (arith, v.title, v.artist)
read_track_meta-fields (some t) (some a) (some u) v =
    ground (arith, v.title, v.artist, v.url_length, v.url)

-- Metadata with any of its three members missing is read back, if the members keep to the lengths, the
-- URL begins with "https://", and the JSON text gives the object back and fits into 4096 bytes.
pub decode_track_meta-encode_track_meta :
    (json : JsonText) (p : TrackMetaPayload)
    → IsMeta p
    → IsReadBack json (object (track_meta_fields p))
    → length (json.stringify (object (track_meta_fields p))) ≤ max_json_bytes
    → (encode_track_meta json p >>= decode_track_meta json) ≡ ok p
unfolding encode_track_meta decode_track_meta
decode_track_meta-encode_track_meta json p v back fits =
    decode_json-encode_json json (track_meta_fields p) read_track_meta back fits
    ∙ read_track_meta-fields p.title p.artist p.album_art_url v
