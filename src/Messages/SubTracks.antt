-- ===== src/Messages/SubTracks.antt =====
-- shared/ts/src/messages.ts: SUB_TRACKS.
use streammix.Common.{
  ℕ, suc, ◌≤◌, ◌≡◌, refl, ap, subst, ◌∙◌, false, List, [], ◌∷◌, length, ltb, ltb-eq_false, arith,
}
use streammix.Common.Text.{text}
use streammix.Common.Number.{Number}
use streammix.Constants.{max_track_slot}
use streammix.Errors.{
  Result, ok, malformed, bad_payload, ◌>>=◌, ◌>>◌, bad_if, >>=-eq-ok, throw_if-eq-ok, ok-injective,
}
use streammix.Json.{
  number, array, object, Items, nil, cons, Fields, end, field, JsonText, IsReadBack, prop,
  count_items,
}
use streammix.Common.{some}
use streammix.Messages.{encode_json, decode_json, decode_json-encode_json, max_json_bytes}
use streammix.Messages.TrackList.{has_id, require_items, require_id}
use streammix.Messages.TrackList.WellFormed.{IsSlot, require_id_sound, test_of_slot}

abbrev pub id_items : List Number → Items
id_items [] = nil
id_items (id ∷ ids) = cons (number id) (id_items ids)

-- `{ tracks: p.tracks }`
abbrev pub sub_tracks_fields : List Number → Fields
sub_tracks_fields ids = field (text "tracks") (array (id_items ids)) end

unfoldable pub encode_sub_tracks : JsonText → List Number → Result (List ℕ)
encode_sub_tracks json ids = encode_json json (object (sub_tracks_fields ids))

-- The loop over `obj.tracks`.
unfoldable pub decode_ids : List Number → Items → Result (List Number)
decode_ids seen nil = ok []
decode_ids seen (cons raw rest) = do
  id ← require_id "sub_tracks.id" "sub_tracks.id duplicate" seen (some raw)
  ids ← decode_ids (id ∷ seen) rest
  ok (id ∷ ids)

unfoldable pub decode_sub_tracks : JsonText → List ℕ → Result (List Number)
decode_sub_tracks json buf = do
  obj ← decode_json json buf
  ids ← require_items "sub_tracks" (prop (text "tracks") obj)
  bad_if (ltb max_track_slot (count_items ids)) "sub_tracks too many"
  decode_ids [] ids

-- Slots of the wire, none twice nor among `seen`.
abbrev pub AreSlots : List Number → List Number → Type 0
AreSlots seen [] = Unit {0}
AreSlots seen (id ∷ ids) = IsSlot id × (has_id seen id ≡ false) × AreSlots (id ∷ seen) ids

decode_ids_sound :
    (seen : List Number) (vs : Items) (ids : List Number)
    → decode_ids seen vs ≡ ok ids
    → AreSlots seen ids × (length ids ≡ count_items vs)
unfolding decode_ids
decode_ids_sound seen nil ids h = rw (← ok-injective h) (tt, refl)
decode_ids_sound seen (cons raw rest) ids h =
    let (id, got, h1) =
      >>=-eq-ok (require_id "sub_tracks.id" "sub_tracks.id duplicate" seen (some raw)) _ h in
    let (more, got_more, h2) = >>=-eq-ok (decode_ids (id ∷ seen) rest) _ h1 in
    let (slot, new) =
      require_id_sound "sub_tracks.id" "sub_tracks.id duplicate" seen (some raw) got in
    let (slots, counted) = decode_ids_sound (id ∷ seen) rest more got_more in
    subst (λ x. AreSlots seen x × (length x ≡ suc (count_items rest))) (ok-injective h2)
      ((slot, new, slots), ap suc counted)

decode_ids-id_items :
    (seen ids : List Number) → AreSlots seen ids → decode_ids seen (id_items ids) ≡ ok ids
unfolding decode_ids
decode_ids-id_items seen [] v = refl
decode_ids-id_items seen (id ∷ ids) (slot, new, slots) =
    rw (test_of_slot id slot, new, decode_ids-id_items (id ∷ seen) ids slots)

count_items-id_items : (ids : List Number) → count_items (id_items ids) ≡ length ids
count_items-id_items [] = refl
count_items-id_items (id ∷ ids) = ap suc (count_items-id_items ids)

-- What `decodeSubTracks` returns is at most 8 different slots from 1 to 8.
pub decode_sub_tracks_sound :
    (json : JsonText) (buf : List ℕ) (ids : List Number)
    → decode_sub_tracks json buf ≡ ok ids
    → AreSlots [] ids × (length ids ≤ 8)
unfolding decode_sub_tracks
decode_sub_tracks_sound json buf ids h =
    let (obj, _, h1) = >>=-eq-ok (decode_json json buf) _ h in
    let (vs, _, h2) = >>=-eq-ok (require_items "sub_tracks" (prop (text "tracks") obj)) _ h1 in
    let (few, h3) =
      throw_if-eq-ok (ltb max_track_slot (count_items vs)) (malformed "sub_tracks too many")
        bad_payload _ h2 in
    let (slots, counted) = decode_ids_sound [] vs ids h3 in (slots, ground arith)

-- A list of at most 8 different slots is read back, if its JSON text gives the object back and fits
-- into 4096 bytes.
pub decode_sub_tracks-encode_sub_tracks :
    (json : JsonText) (ids : List Number)
    → AreSlots [] ids
    → length ids ≤ 8
    → IsReadBack json (object (sub_tracks_fields ids))
    → length (json.stringify (object (sub_tracks_fields ids))) ≤ max_json_bytes
    → (encode_sub_tracks json ids >>= decode_sub_tracks json) ≡ ok ids
unfolding decode_sub_tracks encode_sub_tracks
decode_sub_tracks-encode_sub_tracks json ids slots few back fits =
    decode_json-encode_json json (sub_tracks_fields ids) _ back fits
    ∙ rw (count_items-id_items ids, ltb-eq_false few) (decode_ids-id_items [] ids slots)
