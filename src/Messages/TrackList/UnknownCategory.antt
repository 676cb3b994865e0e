-- ===== src/Messages/TrackList/UnknownCategory.antt =====
-- What `decodeTrackList` of shared/ts/src/messages.ts does with a category that is not listed.
use streammix.Common.{ℕ, ◌≡◌, ◌⊎◌, subst, true, ◌++◌, All-middle, List, [], ◌∷◌, ltb, arith, All}
use streammix.Common.Number.{Number}
use streammix.Constants.{max_track_slot}
use streammix.Categories.{custom_category, is_preset_category}
use streammix.Errors.{ok, malformed, bad_payload, ◌>>◌, bad_if, >>=-eq-ok, throw_if-eq-ok}
use streammix.Json.{JsonText, count_items}
use streammix.Messages.{decode_json, str_field}
use streammix.Messages.TrackList.{
  TrackInfo, track_items, track_json, track_list_fields, decode_track, decode_tracks,
  decode_track_list,
}
use streammix.Messages.TrackList.WellFormed.{decode_track_sound}

-- The category of an entry that passes.
abbrev pub IsKnownCategory : TrackInfo → Type 0
IsKnownCategory t = (t.category ≡ custom_category) ⊎ (is_preset_category t.category ≡ true)

decode_track_same :
    (seen : List Number) (t u : TrackInfo)
    → decode_track seen (track_json t) ≡ ok u
    → u.category ≡ t.category
unfolding decode_track str_field
decode_track_same seen t u h = ground arith

decode_tracks_known :
    (seen : List Number) (ts us : List TrackInfo)
    → decode_tracks seen (track_items ts) ≡ ok us
    → All IsKnownCategory ts
unfolding decode_tracks
decode_tracks_known seen [] us h = tt
decode_tracks_known seen (t ∷ ts) us h =
    let (u, got, h1) = >>=-eq-ok (decode_track seen (track_json t)) _ h in
    let (more, got_more, h2) = >>=-eq-ok (decode_tracks (u.id ∷ seen) (track_items ts)) _ h1 in
    let (track, new) = decode_track_sound seen (track_json t) u got in
    (
      subst (λ c. (c ≡ custom_category) ⊎ (is_preset_category c ≡ true))
          (decode_track_same seen t u got) track.category,
      decode_tracks_known (u.id ∷ seen) ts more got_more,
    )

-- One track whose category is neither a preset nor "custom" makes `decodeTrackList` refuse the whole
-- list that holds it.
pub decode_track_list_unknown_category :
    (json : JsonText) (buf : List ℕ) (before after : List TrackInfo) (t : TrackInfo)
    → decode_json json buf ≡ ok (track_list_fields (before ++ (t ∷ after)))
    → ¬ IsKnownCategory t
    → ¬ ((us : List TrackInfo) × (decode_track_list json buf ≡ ok us))
unfolding decode_track_list
decode_track_list_unknown_category json buf before after t parsed unknown (us, h) =
    let all = before ++ (t ∷ after) in
    let h1 : (bad_if (ltb max_track_slot (count_items (track_items all)))
            "track_list too many tracks"
          >> decode_tracks [] (track_items all))
        ≡ ok us =
      rw parsed at h in
    let (few, h2) =
      throw_if-eq-ok (ltb max_track_slot (count_items (track_items all)))
        (malformed "track_list too many tracks") bad_payload _ h1 in
    unknown (All-middle IsKnownCategory before t after (decode_tracks_known [] all us h2))
