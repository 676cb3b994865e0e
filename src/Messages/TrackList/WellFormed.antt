-- ===== src/Messages/TrackList/WellFormed.antt =====
-- Which track lists `decodeTrackList` of shared/ts/src/messages.ts lets through.
use streammix.Common.{
  ℕ, suc, ◌≤◌, ◌≡◌, ◌⊎◌, ap, ◌∙◌, refl, subst, true, false, not, ◌||◌, ◌&&◌, Option, some, none,
  String, List, [], ◌∷◌, length, ltb, ltb-eq_false, arith,
}
use streammix.Common.Text.{Text, text, text_eq, text_eq_iff}
use streammix.Common.Int.{pos, negsuc}
use streammix.Common.Number.{Number, num, num_lt, is_integer, nan, pos_inf, neg_inf, finite}
use streammix.Constants.{max_track_slot}
use streammix.Categories.{custom_category, is_preset_category, is_valid_slug}
use streammix.Errors.{ok, malformed, bad_payload, ◌>>=◌, >>=-eq-ok, throw_if-eq-ok, ok-injective}
use streammix.Json.{
  Json, null, bool, number, string, array, object, Items, nil, cons, JsonText, IsReadBack, prop,
  members, count_items,
}
use streammix.Messages.{
  decode_json, str_field, str_field_sound, decode_json-encode_json, max_json_bytes,
}
use streammix.Messages.TrackList.{
  TrackInfo, track_items, track_json, track_list_fields, encode_track_list, decode_track,
  decode_tracks, decode_track_list, has_id, require_id, require_members, require_items,
}

-- A slot of the wire that carries audio: 1 to 8.
abbrev pub IsSlot : Number → Type 0
IsSlot id = (n : ℕ) × (id ≡ num n) × (1 ≤ n) × (n ≤ 8)

pub record IsTrack (t : TrackInfo) : Type 0 where
  pub slot : IsSlot t.id
  pub slug_length : length t.slug ≤ 64
  pub slug : is_valid_slug t.slug ≡ true
  pub category_length : length t.category ≤ 32
  pub category : (t.category ≡ custom_category) ⊎ (is_preset_category t.category ≡ true)
  pub label : length t.label ≤ 64

-- Every track is one, and no id occurs twice nor among `seen`.
abbrev pub AreTracks : List Number → List TrackInfo → Type 0
AreTracks seen [] = Unit {0}
AreTracks seen (t ∷ ts) = IsTrack t × (has_id seen t.id ≡ false) × AreTracks (t.id ∷ seen) ts

IsSlot-of_test :
    (id : Number)
    → (not (is_integer id) || num_lt id (num 1) || num_lt (num 8) id) ≡ false
    → IsSlot id
IsSlot-of_test nan h = cc
IsSlot-of_test pos_inf h = cc
IsSlot-of_test neg_inf h = cc
IsSlot-of_test (finite (pos n) f) h = (n, ground arith, ground arith, ground arith)
IsSlot-of_test (finite (negsuc n) f) h = ground arith

pub test_of_slot :
    (id : Number)
    → IsSlot id
    → (not (is_integer id) || num_lt id (num 1) || num_lt (num 8) id) ≡ false
test_of_slot id (n, e, lo, hi) = rw e (ground arith)

pub require_id_sound :
    (detail duplicate : String) (seen : List Number) (o : Option Json) {id : Number}
    → require_id detail duplicate seen o ≡ ok id
    → IsSlot id × (has_id seen id ≡ false)
require_id_sound detail duplicate seen (some (number x)) h =
    let (inside, h1) = throw_if-eq-ok _ _ _ _ h in
    let (new, h2) = throw_if-eq-ok _ _ _ _ h1 in
    let same = ok-injective h2 in (rw (← same) (IsSlot-of_test x inside), rw (← same) new)
require_id_sound detail duplicate seen (some null) h = cc
require_id_sound detail duplicate seen (some (bool b)) h = cc
require_id_sound detail duplicate seen (some (string x)) h = cc
require_id_sound detail duplicate seen (some (array vs)) h = cc
require_id_sound detail duplicate seen (some (object fs)) h = cc
require_id_sound detail duplicate seen none h = cc

category_of_test :
    (c : Text)
    → (not (text_eq c custom_category) && not (is_preset_category c)) ≡ false
    → (c ≡ custom_category) ⊎ (is_preset_category c ≡ true)
category_of_test c h = ground (arith, text_eq_iff c custom_category)

test_of_category :
    (c : Text)
    → (c ≡ custom_category) ⊎ (is_preset_category c ≡ true)
    → (not (text_eq c custom_category) && not (is_preset_category c)) ≡ false
test_of_category c h = ground (arith, text_eq_iff c custom_category)

pub decode_track_sound :
    (seen : List Number) (raw : Json) (t : TrackInfo)
    → decode_track seen raw ≡ ok t
    → IsTrack t × (has_id seen t.id ≡ false)
unfolding decode_track
decode_track_sound seen raw t h =
    let (obj, _, h1) = >>=-eq-ok (require_members "track entry" (members (some raw))) _ h in
    let (id, got_id, h2) =
      >>=-eq-ok (require_id "track.id" "track.id duplicate" seen (prop (text "id") obj)) _ h1 in
    let (slug, got_slug, h3) = >>=-eq-ok (str_field obj "slug" 64) _ h2 in
    let (valid, h4) =
      throw_if-eq-ok (not (is_valid_slug slug)) (malformed "track.slug format") bad_payload _ h3 in
    let (category, got_category, h5) = >>=-eq-ok (str_field obj "category" 32) _ h4 in
    let (listed, h6) =
      throw_if-eq-ok (not (text_eq category custom_category) && not (is_preset_category category))
        (malformed "track.category") bad_payload _ h5 in
    let (label, got_label, h7) = >>=-eq-ok (str_field obj "label" 64) _ h6 in
    let (slot, new) =
      require_id_sound "track.id" "track.id duplicate" seen (prop (text "id") obj) got_id in
    subst (λ x. IsTrack x × (has_id seen x.id ≡ false)) (ok-injective h7)
      (
        record {
          slot = slot;
          slug_length = (str_field_sound obj "slug" 64 got_slug).1;
          slug = ground arith;
          category_length = (str_field_sound obj "category" 32 got_category).1;
          category = category_of_test category listed;
          label = (str_field_sound obj "label" 64 got_label).1;
        },
        new,
      )

decode_track-track_json :
    (seen : List Number) (t : TrackInfo)
    → IsTrack t
    → has_id seen t.id ≡ false
    → decode_track seen (track_json t) ≡ ok t
unfolding decode_track str_field
decode_track-track_json seen t v new =
    rw (test_of_slot t.id v.slot, new) (ground (arith, test_of_category t.category))

decode_tracks_sound :
    (seen : List Number) (vs : Items) (ts : List TrackInfo)
    → decode_tracks seen vs ≡ ok ts
    → AreTracks seen ts × (length ts ≡ count_items vs)
unfolding decode_tracks
decode_tracks_sound seen nil ts h = rw (← ok-injective h) (tt, refl)
decode_tracks_sound seen (cons raw rest) ts h =
    let (t, got, h1) = >>=-eq-ok (decode_track seen raw) _ h in
    let (more, got_more, h2) = >>=-eq-ok (decode_tracks (t.id ∷ seen) rest) _ h1 in
    let (track, new) = decode_track_sound seen raw t got in
    let (tracks, counted) = decode_tracks_sound (t.id ∷ seen) rest more got_more in
    subst (λ x. AreTracks seen x × (length x ≡ suc (count_items rest))) (ok-injective h2)
      ((track, new, tracks), ap suc counted)

decode_tracks-track_items :
    (seen : List Number) (ts : List TrackInfo)
    → AreTracks seen ts
    → decode_tracks seen (track_items ts) ≡ ok ts
unfolding decode_tracks
decode_tracks-track_items seen [] v = refl
decode_tracks-track_items seen (t ∷ ts) (track, new, tracks) =
    rw (decode_track-track_json seen t track new, decode_tracks-track_items (t.id ∷ seen) ts tracks)

count_items-track_items : (ts : List TrackInfo) → count_items (track_items ts) ≡ length ts
count_items-track_items [] = refl
count_items-track_items (t ∷ ts) = ap suc (count_items-track_items ts)

-- What `decodeTrackList` returns is at most 8 tracks with the ids, slugs, categories and labels that
-- the protocol allows, and no id twice.
pub decode_track_list_sound :
    (json : JsonText) (buf : List ℕ) (ts : List TrackInfo)
    → decode_track_list json buf ≡ ok ts
    → AreTracks [] ts × (length ts ≤ 8)
unfolding decode_track_list
decode_track_list_sound json buf ts h =
    let (obj, _, h1) = >>=-eq-ok (decode_json json buf) _ h in
    let (vs, _, h2) =
      >>=-eq-ok (require_items "track_list.tracks" (prop (text "tracks") obj)) _ h1 in
    let (few, h3) =
      throw_if-eq-ok (ltb max_track_slot (count_items vs)) (malformed "track_list too many tracks")
        bad_payload _ h2 in
    let (tracks, counted) = decode_tracks_sound [] vs ts h3 in (tracks, ground arith)

-- A list of at most 8 tracks with the ids, slugs, categories and labels that the protocol allows, and no
-- id twice, is read back, if its JSON text gives the object back and fits into
-- 4096 bytes.
pub decode_track_list-encode_track_list :
    (json : JsonText) (ts : List TrackInfo)
    → AreTracks [] ts
    → length ts ≤ 8
    → IsReadBack json (object (track_list_fields ts))
    → length (json.stringify (object (track_list_fields ts))) ≤ max_json_bytes
    → (encode_track_list json ts >>= decode_track_list json) ≡ ok ts
unfolding decode_track_list encode_track_list
decode_track_list-encode_track_list json ts tracks few back fits =
    decode_json-encode_json json (track_list_fields ts) _ back fits
    ∙ rw (count_items-track_items ts, ltb-eq_false few) (decode_tracks-track_items [] ts tracks)
