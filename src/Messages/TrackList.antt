-- ===== src/Messages/TrackList.antt =====
-- shared/ts/src/messages.ts: TRACK_LIST.
pub mod WellFormed
pub mod UnknownCategory
use streammix.Common.{
  ℕ, ◌≤◌, ◌≡◌, Bool, true, false, not, ◌&&◌, ◌||◌, List, [], ◌∷◌, Option, none, some, String, ltb,
}
use streammix.Common.Text.{Text, text, text_eq}
use streammix.Common.Number.{Number, num, num_eq, num_lt, is_integer}
use streammix.Constants.{max_track_slot}
use streammix.Categories.{custom_category, is_preset_category, is_valid_slug}
use streammix.Errors
use streammix.Errors.{Result, ok, thrown, ◌>>=◌, ◌>>◌, bad_if}
use streammix.Json.{
  Json, number, string, array, object, Items, nil, cons, Fields, end, field, JsonText, prop,
  members, count_items,
}
use streammix.Messages.{encode_json, decode_json, str_field}

pub record TrackInfo : Type 0 where
  pub id : Number
  pub slug : Text
  pub category : Text
  pub label : Text

abbrev pub track_json : TrackInfo → Json
track_json t = object (
    field (text "id") (number t.id) (
      field (text "slug") (string t.slug)
        (field (text "category") (string t.category) (field (text "label") (string t.label) end))))

abbrev pub track_items : List TrackInfo → Items
track_items [] = nil
track_items (t ∷ ts) = cons (track_json t) (track_items ts)

-- `{ tracks: p.tracks }`
abbrev pub track_list_fields : List TrackInfo → Fields
track_list_fields tracks = field (text "tracks") (array (track_items tracks)) end

unfoldable pub encode_track_list : JsonText → List TrackInfo → Result (List ℕ)
encode_track_list json tracks = encode_json json (object (track_list_fields tracks))

-- `seen.has(id)`
abbrev pub has_id : List Number → Number → Bool
has_id [] id = false
has_id (s ∷ seen) id = num_eq s id || has_id seen id

abbrev pub require_members : String → Option Fields → Result Fields
require_members detail none =
    thrown (record { message = Errors.malformed detail; code = Errors.bad_payload })
require_members detail (some obj) = ok obj

abbrev pub require_items : String → Option Json → Result Items
require_items detail (some (array vs)) = ok vs
require_items detail other =
    thrown (record { message = Errors.malformed detail; code = Errors.bad_payload })

-- `!Number.isInteger(id) || id < 1 || id > MAX_TRACK_SLOT`, which throws; then `seen.has(id)`.
abbrev pub require_id : String → String → List Number → Option Json → Result Number
require_id detail duplicate seen (some (number id)) = do
  bad_if (not (is_integer id) || num_lt id (num 1) || num_lt (num max_track_slot) id) detail
  bad_if (has_id seen id) duplicate
  ok id
require_id detail duplicate seen other =
    thrown (record { message = Errors.malformed detail; code = Errors.bad_payload })

-- One round of the loop over `obj.tracks`.
unfoldable pub decode_track : List Number → Json → Result TrackInfo
decode_track seen raw = do
  obj ← require_members "track entry" (members (some raw))
  id ← require_id "track.id" "track.id duplicate" seen (prop (text "id") obj)
  slug ← str_field obj "slug" 64
  bad_if (not (is_valid_slug slug)) "track.slug format"
  category ← str_field obj "category" 32
  bad_if (not (text_eq category custom_category) && not (is_preset_category category))
      "track.category"
  label ← str_field obj "label" 64
  ok (record { id = id; slug = slug; category = category; label = label })

-- The loop; `seen` holds the ids of the rounds before.
unfoldable pub decode_tracks : List Number → Items → Result (List TrackInfo)
decode_tracks seen nil = ok []
decode_tracks seen (cons raw rest) = do
  t ← decode_track seen raw
  ts ← decode_tracks (t.id ∷ seen) rest
  ok (t ∷ ts)

unfoldable pub decode_track_list : JsonText → List ℕ → Result (List TrackInfo)
decode_track_list json buf = do
  obj ← decode_json json buf
  tracks ← require_items "track_list.tracks" (prop (text "tracks") obj)
  bad_if (ltb max_track_slot (count_items tracks)) "track_list too many tracks"
  decode_tracks [] tracks
