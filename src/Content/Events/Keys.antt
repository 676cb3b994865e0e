-- ===== src/Content/Events/Keys.antt =====
-- Which slugs the mixer of extension/src/content/index.ts holds, and where: in the settings, in the audio
-- graph and in the lanes.
use streammix.Common.{
  ◌≡◌, refl, ap, ◌∙◌, Bool, true, false, not, ◌||◌, ◌&&◌, List, [], ◌∷◌, Option, none, some, arith,
  Bool-cases, Option-cases, inl, inr,
}
use streammix.Common.Assoc.{get, set, has, get-set, get-delete, has-set, has-delete}
use streammix.Common.Text.{Text, text_eq, text_eq_iff, includes}
use streammix.Audio.Decoder.{new_lane}
use streammix.Audio.Graph.{add_track, set_track_gain, entry_node_for}
use streammix.Audio.Graph.Entries.{
  entry_node_for-add_track, entry_node_for-remove_track, entry_node_for-set_track_gain,
}
use streammix.Audio.Graph.Wiring.{IsWired}
use streammix.Audio.Graph.Changes.{add_track-IsWired}
use streammix.Audio.Graph.Removal.{remove_track-IsWired}
use streammix.Audio.Graph.Gains.{set_track_gain-IsWired}
use streammix.Messages.TrackList.{TrackInfo}
use streammix.Store.{effective_setting}
use streammix.Content.{
  Mixer, AudioLane, Page, slugs, audible, open_lane, ensure_lane, drop_track, take_track,
  drop_missing, take_new, apply_track_list, on_track_list, index_tracks,
}

abbrev pub is_some {ℓ} : {A : Type ℓ} → Option A → Bool
is_some none = false
is_some (some a) = true

-- The settings and the graph know the same slugs, every lane plays into the entry node that the graph has
-- for its slug, and the routing of the graph stands.
pub record Fits (m : Mixer) : Type 0 where
  pub keys : (s : Text) → has s m.settings ≡ is_some (entry_node_for m.graph s)
  pub lanes :
      (s : Text) (lane : AudioLane)
      → get s m.audio_lanes ≡ some lane
      → entry_node_for m.graph s ≡ some lane.entry
  pub wired : IsWired m.graph

drop_track-Fits : (slug : Text) (m : Mixer) → Fits m → Fits (drop_track slug m)
unfolding drop_track
drop_track-Fits slug m f = record {
  keys = λ s.
      ground
        (arith, has-delete slug s m.settings, entry_node_for-remove_track slug s m.graph, f.keys s);
  lanes = λ s lane h. ground (
    arith,
    get-delete slug s m.audio_lanes,
    entry_node_for-remove_track slug s m.graph,
    f.lanes s lane,
  );
  wired = remove_track-IsWired slug m.graph f.wired;
}

module _ (page : Page) where
  open_lane-Fits : (slug : Text) (m : Mixer) → Fits m → Fits (open_lane page slug m)
  unfolding open_lane
  open_lane-Fits slug m f = elim (Option-cases (entry_node_for m.graph slug)) [
    | inl unknown ↦ rw (unknown, open_lane) f
    | inr (entry, known) ↦ elim (Bool-cases page.has_audio_decoder) [
      | inr none_there ↦ rw (known, open_lane, none_there) f
      | inl there ↦
          rw (known, open_lane, there)
            (record {
              keys = f.keys;
              lanes = λ s lane h. ground (
                arith,
                get-set slug s (record { decoder = new_lane; entry = entry }) m.audio_lanes,
                text_eq_iff slug s,
                f.lanes s lane,
              );
              wired = f.wired;
            })
    ]
  ]

  pub ensure_lane-Fits : (slug : Text) (m : Mixer) → Fits m → Fits (ensure_lane page slug m)
  unfolding ensure_lane
  ensure_lane-Fits slug m f = elim (Option-cases (get slug m.audio_lanes)) [
    | inl new ↦ rw (new, ensure_lane) (open_lane-Fits slug m f)
    | inr (lane, known) ↦ rw (known, ensure_lane) f
  ]

  open_lane_settings : (slug : Text) (m : Mixer) → (open_lane page slug m).settings ≡ m.settings
  unfolding open_lane
  open_lane_settings slug m = elim (Option-cases (entry_node_for m.graph slug)) [
    | inl unknown ↦ rw (unknown, open_lane) refl
    | inr (entry, known) ↦ rw (known, open_lane) (ground arith)
  ]

  pub ensure_lane_settings :
      (slug : Text) (m : Mixer) → (ensure_lane page slug m).settings ≡ m.settings
  unfolding ensure_lane
  ensure_lane_settings slug m = elim (Option-cases (get slug m.audio_lanes)) [
    | inl new ↦ rw (new, ensure_lane) (open_lane_settings slug m)
    | inr (lane, known) ↦ rw (known, ensure_lane) refl
  ]

  take_track-Fits :
      (t : TrackInfo) (m : Mixer)
      → has t.slug m.settings ≡ false
      → Fits m
      → Fits (take_track page t m)
  unfolding take_track
  take_track-Fits t m new f =
      let eff = effective_setting t.slug t.category page.streamer_prefs page.global_prefs in
      ensure_lane-Fits t.slug
        (record m {
          settings = set t.slug eff m.settings;
          gains = set t.slug eff.gain m.gains;
          muted = set t.slug eff.muted m.muted;
          graph = set_track_gain t.slug (audible eff) (add_track t.slug m.graph).0;
        })
        (record {
          keys = λ s. ground (
            arith,
            has-set t.slug s eff m.settings,
            entry_node_for-set_track_gain t.slug s (audible eff) (add_track t.slug m.graph).0,
            entry_node_for-add_track t.slug s m.graph,
            f.keys s,
          );
          lanes = λ s lane h. ground (
            arith,
            entry_node_for-set_track_gain t.slug s (audible eff) (add_track t.slug m.graph).0,
            entry_node_for-add_track t.slug s m.graph,
            text_eq_iff t.slug s,
            f.keys s,
            f.lanes s lane h,
          );
          wired =
              set_track_gain-IsWired t.slug (audible eff) (add_track t.slug m.graph).0
                (add_track-IsWired t.slug m.graph f.wired);
        })

  take_track_settings :
      (t : TrackInfo) (s : Text) (m : Mixer)
      → has s (take_track page t m).settings ≡ (text_eq t.slug s || has s m.settings)
  unfolding take_track
  take_track_settings t s m =
      let eff = effective_setting t.slug t.category page.streamer_prefs page.global_prefs in
      ap (has s) (ensure_lane_settings t.slug _) ∙ has-set t.slug s eff m.settings

  take_new-Fits : (ts : List TrackInfo) (m : Mixer) → Fits m → Fits (take_new page ts m)
  unfolding take_new
  take_new-Fits [] m f = f
  take_new-Fits (t ∷ ts) m f = elim (Bool-cases (has t.slug m.settings)) [
    | inl known ↦ rw known (take_new-Fits ts m f)
    | inr new ↦ rw new (take_new-Fits ts (take_track page t m) (take_track-Fits t m new f))
  ]

  take_new_settings :
      (ts : List TrackInfo) (s : Text) (m : Mixer)
      → has s (take_new page ts m).settings ≡ (includes (slugs ts) s || has s m.settings)
  unfolding take_new
  take_new_settings [] s m = refl
  take_new_settings (t ∷ ts) s m = elim (Bool-cases (has t.slug m.settings)) [
    | inl known ↦
        rw (known, take_new) (ground (arith, take_new_settings ts s m, text_eq_iff t.slug s))
    | inr new ↦
        rw (new, take_new)
          (ground (arith, take_new_settings ts s (take_track page t m), take_track_settings t s m))
  ]

pub drop_missing-Fits :
    (incoming : List Text) (ts : List TrackInfo) (m : Mixer)
    → Fits m
    → Fits (drop_missing incoming ts m)
unfolding drop_missing
drop_missing-Fits incoming [] m f = f
drop_missing-Fits incoming (t ∷ ts) m f = elim (Bool-cases (includes incoming t.slug)) [
  | inl stays ↦ rw stays (drop_missing-Fits incoming ts m f)
  | inr goes ↦
      rw goes (drop_missing-Fits incoming ts (drop_track t.slug m) (drop_track-Fits t.slug m f))
]

pub drop_missing_settings :
    (incoming : List Text) (ts : List TrackInfo) (s : Text) (m : Mixer)
    → has s (drop_missing incoming ts m).settings
      ≡ (has s m.settings && (includes incoming s || not (includes (slugs ts) s)))
unfolding drop_missing drop_track
drop_missing_settings incoming [] s m = ground arith
drop_missing_settings incoming (t ∷ ts) s m = elim (Bool-cases (includes incoming t.slug)) [
  | inl stays ↦
      rw (stays, drop_missing)
        (ground (arith, drop_missing_settings incoming ts s m, text_eq_iff t.slug s))
  | inr goes ↦
      rw (goes, drop_missing)
        (ground (
          arith,
          drop_missing_settings incoming ts s (drop_track t.slug m),
          has-delete t.slug s m.settings,
          text_eq_iff t.slug s,
        ))
]

-- The settings are those of the tracks of the last list.
abbrev pub IsListed : Mixer → Type 0
IsListed m = (s : Text) → has s m.settings ≡ includes (slugs m.tracks) s

module _ (page : Page) where
  pub on_track_list-Fits :
      (incoming : List TrackInfo) (m : Mixer) → Fits m → Fits (on_track_list page incoming m)
  unfolding on_track_list apply_track_list index_tracks
  on_track_list-Fits incoming m f =
      let dropped =
        drop_missing-Fits (slugs incoming) m.tracks (index_tracks incoming m)
          (record { keys = f.keys; lanes = f.lanes; wired = f.wired }) in
      let taken =
        take_new-Fits page incoming
          (drop_missing (slugs incoming) m.tracks (index_tracks incoming m)) dropped in
      record { keys = taken.keys; lanes = taken.lanes; wired = taken.wired }

  pub on_track_list-IsListed :
      (incoming : List TrackInfo) (m : Mixer)
      → IsListed m
      → IsListed (on_track_list page incoming m)
  unfolding on_track_list apply_track_list index_tracks
  on_track_list-IsListed incoming m listed s =
      take_new_settings page incoming s
        (drop_missing (slugs incoming) m.tracks (index_tracks incoming m))
      ∙ ground (
        arith,
        drop_missing_settings (slugs incoming) m.tracks s (index_tracks incoming m),
        listed s,
      )
