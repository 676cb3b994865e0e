-- ===== src/Content/Events/Playing.antt =====
-- Which audio frames extension/src/content/index.ts hands to a decoder.
use streammix.Common.{
  ℕ, ◌≡◌, refl, sym, ap, ◌∙◌, true, List, [], ◌∷◌, ◌++◌, some, if◌then◌else◌, arith, Bool-cases,
  Option-cases, inl, inr,
}
use streammix.Common.Assoc.{get, has, get-set}
use streammix.Common.Int.{ℤ, pos, negsuc}
use streammix.Common.Number.{Number, num_eq, pos_inf, neg_inf, finite}
use streammix.Common.Text.{Text, text_eq_refl, includes}
use streammix.Audio.Decoder.{new_lane}
use streammix.Audio.Graph.{entry_node_for}
use streammix.Messages.TrackList.{TrackInfo, has_id}
use streammix.Messages.TrackList.WellFormed.{AreTracks}
use streammix.Content.{
  Mixer, AudioLane, Page, slugs, set_id, get_id, index_from, index_tracks, open_lane, ensure_lane,
  drop_track, take_track, drop_missing, take_new, apply_track_list, on_track_list, decode_in,
  on_audio,
}
use streammix.Content.Events.Keys.{is_some, on_track_list-Fits, on_track_list-IsListed}
use streammix.Content.Events.Invariant.{IsMixing}

num_eq→eq : (x y : Number) → num_eq x y ≡ true → x ≡ y
num_eq→eq (finite (pos a) f) (finite (pos b) g) h = ground arith
num_eq→eq (finite (negsuc a) f) (finite (negsuc b) g) h = ground arith
num_eq→eq (finite (pos a) f) (finite (negsuc b) g) h = cc
num_eq→eq (finite (negsuc a) f) (finite (pos b) g) h = cc
num_eq→eq pos_inf pos_inf h = refl
num_eq→eq neg_inf neg_inf h = refl
num_eq→eq _ _ h = cc

get_id-set_id :
    (i j : Number) (s : Text) (m : List (Number × Text))
    → get_id j (set_id i s m) ≡ (if num_eq i j then some s else get_id j m)
unfolding get_id set_id
get_id-set_id i j s [] = refl
get_id-set_id i j s ((k, w) ∷ m) =
    ground (arith, num_eq→eq k i, num_eq→eq i j, num_eq→eq k j, get_id-set_id i j s m)

-- A seen id keeps its slug.
get_id-index_from :
    (i : Number) (seen : List Number) (ts : List TrackInfo) (m : List (Number × Text))
    → has_id seen i ≡ true
    → AreTracks seen ts
    → get_id i (index_from m ts) ≡ get_id i m
get_id-index_from i seen [] m h w = refl
get_id-index_from i seen (u ∷ us) m h (track, new, w) =
    get_id-index_from i (u.id ∷ seen) us (set_id u.id u.slug m) (ground arith) w
    ∙ ground (arith, get_id-set_id u.id i u.slug m, num_eq→eq u.id i)

get_id-index_from_listed :
    (seen : List Number) (before after : List TrackInfo) (t : TrackInfo) (m : List (Number × Text))
    → AreTracks seen (before ++ (t ∷ after))
    → get_id t.id (index_from m (before ++ (t ∷ after))) ≡ some t.slug
get_id-index_from_listed seen [] after t m (track, new, w) =
    let (n, slot, lo, hi) = track.slot in
    let same : num_eq t.id t.id ≡ true = rw slot (ground arith) in
    get_id-index_from t.id (t.id ∷ seen) after (set_id t.id t.slug m) (ground arith) w
    ∙ ground (arith, get_id-set_id t.id t.id t.slug m)
get_id-index_from_listed seen (u ∷ before) after t m (track, new, w) =
    get_id-index_from_listed (u.id ∷ seen) before after t (set_id u.id u.slug m) w

includes-slugs :
    (before after : List TrackInfo) (t : TrackInfo)
    → includes (slugs (before ++ (t ∷ after))) t.slug ≡ true
includes-slugs [] after t = ground (arith, text_eq_refl t.slug)
includes-slugs (u ∷ before) after t = ground (arith, includes-slugs before after t)

drop_missing_ids :
    (incoming : List Text) (ts : List TrackInfo) (m : Mixer)
    → (drop_missing incoming ts m).id_to_slug ≡ m.id_to_slug
unfolding drop_missing drop_track
drop_missing_ids incoming [] m = refl
drop_missing_ids incoming (t ∷ ts) m = elim (Bool-cases (includes incoming t.slug)) [
  | inl stays ↦ rw (stays, drop_missing) (drop_missing_ids incoming ts m)
  | inr goes ↦ rw (goes, drop_missing) (drop_missing_ids incoming ts (drop_track t.slug m))
]

module _ (page : Page) where
  ensure_lane_ids : (slug : Text) (m : Mixer) → (ensure_lane page slug m).id_to_slug ≡ m.id_to_slug
  unfolding ensure_lane open_lane
  ensure_lane_ids slug m = elim (Option-cases (get slug m.audio_lanes)) [
    | inr (lane, known) ↦ rw (known, ensure_lane) refl
    | inl new ↦
        rw (new, ensure_lane)
          (elim (Option-cases (entry_node_for m.graph slug)) [
            | inl unknown ↦ rw (unknown, open_lane) refl
            | inr (entry, found) ↦ rw (found, open_lane) (ground arith)
          ])
  ]

  take_new_ids : (ts : List TrackInfo) (m : Mixer) → (take_new page ts m).id_to_slug ≡ m.id_to_slug
  unfolding take_new take_track
  take_new_ids [] m = refl
  take_new_ids (t ∷ ts) m = elim (Bool-cases (has t.slug m.settings)) [
    | inl known ↦ rw (known, take_new) (take_new_ids ts m)
    | inr new ↦
        rw (new, take_new) (take_new_ids ts (take_track page t m) ∙ ensure_lane_ids t.slug _)
  ]

  on_track_list_ids :
      (incoming : List TrackInfo) (m : Mixer)
      → (on_track_list page incoming m).id_to_slug ≡ index_from [] incoming
  unfolding on_track_list apply_track_list index_tracks
  on_track_list_ids incoming m =
      take_new_ids incoming (drop_missing (slugs incoming) m.tracks (index_tracks incoming m))
      ∙ drop_missing_ids (slugs incoming) m.tracks (index_tracks incoming m)

  -- A slug with an entry node gets a lane.
  ensure_lane_found :
      (slug : Text) (m : Mixer)
      → page.has_audio_decoder ≡ true
      → is_some (entry_node_for m.graph slug) ≡ true
      → (lane : AudioLane) × (get slug (ensure_lane page slug m).audio_lanes ≡ some lane)
  unfolding ensure_lane open_lane
  ensure_lane_found slug m there found = elim (Option-cases (get slug m.audio_lanes)) [
    | inr (lane, known) ↦ (lane, rw (known, ensure_lane) known)
    | inl new ↦ elim (Option-cases (entry_node_for m.graph slug)) [
      | inl unknown ↦ absurd (ground arith)
      | inr (entry, e) ↦ (
        record { decoder = new_lane; entry = entry },
        rw (new, ensure_lane, e, open_lane, there)
            (ground (
              arith,
              get-set slug slug (record { decoder = new_lane; entry = entry }) m.audio_lanes,
              text_eq_refl slug,
            )),
      )
    ]
  ]

  decode_in_found :
      (slug : Text) (seq : ℕ) (m : Mixer) (lane : AudioLane)
      → get slug m.audio_lanes ≡ some lane
      → (timestamp : ℤ) × ((decode_in page slug seq m).1 ≡ some (slug, timestamp))
  unfolding decode_in
  decode_in_found slug seq m lane known = rw (known, decode_in) (_, refl)

  -- In a mixer that keeps its invariant, and a browser with an audio decoder, once a track list with the
  -- tracks that the protocol allows has come, an audio frame with the id of any of its tracks is handed to
  -- the decoder of that track's slug.
  pub on_audio-on_track_list :
      (before after : List TrackInfo) (t : TrackInfo) (seq : ℕ) (m : Mixer)
      → page.has_audio_decoder ≡ true
      → AreTracks [] (before ++ (t ∷ after))
      → IsMixing m
      → (timestamp : ℤ) × ((on_audio page t.id seq (on_track_list page (before ++ (t ∷ after)) m)).1
          ≡ some (t.slug, timestamp))
  unfolding on_audio on_track_list apply_track_list
  on_audio-on_track_list before after t seq m there tracks x =
      let incoming = before ++ (t ∷ after) in
      let m' = on_track_list page incoming m in
      let found : get_id t.id m'.id_to_slug ≡ some t.slug =
        ap (get_id t.id) (on_track_list_ids incoming m)
        ∙ get_id-index_from_listed [] before after t [] tracks in
      let entry : is_some (entry_node_for m'.graph t.slug) ≡ true =
        sym ((on_track_list-Fits page incoming m x.fits).keys t.slug)
        ∙ on_track_list-IsListed page incoming m x.listed t.slug
        ∙ includes-slugs before after t in
      let (lane, known) = ensure_lane_found t.slug m' there entry in
      rw (found, on_audio) (decode_in_found t.slug seq (ensure_lane page t.slug m') lane known)
