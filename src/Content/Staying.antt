-- ===== src/Content/Staying.antt =====
-- What a track list leaves as it was in extension/src/content/index.ts. The publisher sends one whenever its
-- tracks change.
use streammix.Common.{
  ◌≡◌, refl, sym, ◌∙◌, true, false, List, [], ◌∷◌, arith, Bool-cases, Option-cases, inl, inr,
}
use streammix.Common.Assoc.{get, has, get-set, get-delete, has-get}
use streammix.Common.Text.{Text, text_eq, text_eq_iff, includes}
use streammix.Audio.Graph.{add_track, entry_node_for}
use streammix.Audio.Graph.Wiring.{IsWired}
use streammix.Audio.Graph.Changes.{add_track-IsWired}
use streammix.Audio.Graph.Removal.{remove_track-IsWired}
use streammix.Audio.Graph.Gains.{set_track_gain-IsWired}
use streammix.Audio.Graph.Values.{
  user_value, user_value-add_track, user_value-remove_track, user_value-set_track_gain_other,
}
use streammix.Messages.TrackList.{TrackInfo}
use streammix.Store.{effective_setting}
use streammix.Content.{
  Mixer, Page, slugs, audible, provision, drop_track, drop_missing, open_lane, ensure_lane,
  take_track, take_new, apply_track_list, index_tracks, on_track_list,
}
use streammix.Content.Events.Invariant.{IsMixing}

-- A track's setting, its values on the panel, its lane and the gain of its node are the same.
pub record Stays (s : Text) (m m' : Mixer) : Type 0 where
  pub setting : get s m'.settings ≡ get s m.settings
  pub gain : get s m'.gains ≡ get s m.gains
  pub muted : get s m'.muted ≡ get s m.muted
  pub lane : get s m'.audio_lanes ≡ get s m.audio_lanes
  pub value : user_value m'.graph s ≡ user_value m.graph s

-- The same, over a step that keeps the routing.
abbrev pub Goes : Text → Mixer → Mixer → Type 0
Goes s m m' = Stays s m m' × IsWired m'.graph

Stays-refl : (s : Text) (m : Mixer) → Stays s m m
Stays-refl s m = record { setting = refl; gain = refl; muted = refl; lane = refl; value = refl }

Stays-trans : (s : Text) (m m' m'' : Mixer) → Stays s m m' → Stays s m' m'' → Stays s m m''
Stays-trans s m m' m'' a b = record {
  setting = b.setting ∙ a.setting;
  gain = b.gain ∙ a.gain;
  muted = b.muted ∙ a.muted;
  lane = b.lane ∙ a.lane;
  value = b.value ∙ a.value;
}

drop_track-Goes :
    (k s : Text) (m : Mixer) → IsWired m.graph → text_eq k s ≡ false → Goes s m (drop_track k m)
unfolding drop_track
drop_track-Goes k s m w other = (
  record {
    setting = get-delete k s m.settings ∙ rw other refl;
    gain = get-delete k s m.gains ∙ rw other refl;
    muted = get-delete k s m.muted ∙ rw other refl;
    lane = get-delete k s m.audio_lanes ∙ rw other refl;
    value = user_value-remove_track k s m.graph ∙ rw other refl;
  },
  remove_track-IsWired k m.graph w,
)

drop_missing-Goes :
    (incoming : List Text) (ts : List TrackInfo) (s : Text) (m : Mixer)
    → includes incoming s ≡ true
    → IsWired m.graph
    → Goes s m (drop_missing incoming ts m)
unfolding drop_missing
drop_missing-Goes incoming [] s m kept w = (Stays-refl s m, w)
drop_missing-Goes incoming (t ∷ ts) s m kept w = elim (Bool-cases (includes incoming t.slug)) [
  | inl stays ↦ rw (stays, drop_missing) (drop_missing-Goes incoming ts s m kept w)
  | inr goes ↦
      let other : text_eq t.slug s ≡ false = ground (arith, text_eq_iff t.slug s) in
      let (one, w') = drop_track-Goes t.slug s m w other in
      let (rest, w'') = drop_missing-Goes incoming ts s (drop_track t.slug m) kept w' in
      rw (goes, drop_missing) (Stays-trans s m (drop_track t.slug m) _ one rest, w'')
]

module _ (page : Page) where
  ensure_lane-Goes :
      (k s : Text) (m : Mixer)
      → IsWired m.graph
      → text_eq k s ≡ false
      → Goes s m (ensure_lane page k m)
  unfolding ensure_lane open_lane
  ensure_lane-Goes k s m w other = elim (Option-cases (get k m.audio_lanes)) [
    | inr (lane, known) ↦ rw (known, ensure_lane) (Stays-refl s m, w)
    | inl new ↦ elim (Option-cases (entry_node_for m.graph k)) [
      | inl unknown ↦ rw (new, ensure_lane, unknown, open_lane) (Stays-refl s m, w)
      | inr (entry, found) ↦ elim (Bool-cases page.has_audio_decoder) [
        | inr missing ↦ rw (new, ensure_lane, found, open_lane, missing) (Stays-refl s m, w)
        | inl there ↦
            rw (new, ensure_lane, found, open_lane, there)
              (
                record {
                  setting = refl;
                  gain = refl;
                  muted = refl;
                  lane = get-set k s _ m.audio_lanes ∙ rw other refl;
                  value = refl;
                },
                w,
              )
      ]
    ]
  ]

  pub take_track-Goes :
      (t : TrackInfo) (s : Text) (m : Mixer)
      → IsWired m.graph
      → text_eq t.slug s ≡ false
      → Goes s m (take_track page t m)
  unfolding take_track
  take_track-Goes t s m w other =
      let eff = effective_setting t.slug t.category page.streamer_prefs page.global_prefs in
      let g = (add_track t.slug m.graph).0 in
      let wired = add_track-IsWired t.slug m.graph w in
      let given : Stays s m (provision page t m) = record {
        setting = get-set t.slug s eff m.settings ∙ rw other refl;
        gain = get-set t.slug s eff.gain m.gains ∙ rw other refl;
        muted = get-set t.slug s eff.muted m.muted ∙ rw other refl;
        lane = refl;
        value =
            user_value-set_track_gain_other t.slug s (audible eff) g wired other
            ∙ user_value-add_track t.slug s m.graph w other;
      } in
      let (laned, w') =
        ensure_lane-Goes t.slug s (provision page t m)
          (set_track_gain-IsWired t.slug (audible eff) g wired) other in
      (Stays-trans s m (provision page t m) _ given laned, w')

  pub take_new-Goes :
      (ts : List TrackInfo) (s : Text) (m : Mixer)
      → has s m.settings ≡ true
      → IsWired m.graph
      → Goes s m (take_new page ts m)
  unfolding take_new
  take_new-Goes [] s m known w = (Stays-refl s m, w)
  take_new-Goes (t ∷ ts) s m known w = elim (Bool-cases (has t.slug m.settings)) [
    | inl old ↦ rw (old, take_new) (take_new-Goes ts s m known w)
    | inr new ↦
        let other : text_eq t.slug s ≡ false = ground (arith, text_eq_iff t.slug s) in
        let (one, w') = take_track-Goes t s m w other in
        let still : has s (take_track page t m).settings ≡ true =
          has-get s (take_track page t m).settings
          ∙ rw one.setting (sym (has-get s m.settings) ∙ known) in
        let (rest, w'') = take_new-Goes ts s (take_track page t m) still w' in
        rw (new, take_new) (Stays-trans s m (take_track page t m) _ one rest, w'')
  ]

  -- A track list leaves every track that it has in common with the last one as it was, in a mixer that keeps
  -- its invariant: the track's setting, its gain and its mute on the panel, its lane with the decoder's
  -- numbers, and the gain of its node.
  pub on_track_list-Stays :
      (incoming : List TrackInfo) (s : Text) (m : Mixer)
      → IsMixing m
      → includes (slugs m.tracks) s ≡ true
      → includes (slugs incoming) s ≡ true
      → Stays s m (on_track_list page incoming m)
  unfolding on_track_list apply_track_list index_tracks
  on_track_list-Stays incoming s m x listed kept =
      let m1 = index_tracks incoming m in
      let m2 = drop_missing (slugs incoming) m.tracks m1 in
      let (dropped, w) = drop_missing-Goes (slugs incoming) m.tracks s m1 kept x.fits.wired in
      let known : has s m2.settings ≡ true =
        has-get s m2.settings
        ∙ rw dropped.setting (sym (has-get s m.settings) ∙ x.listed s ∙ listed) in
      let (taken, _) = take_new-Goes incoming s m2 known w in
      let both = Stays-trans s m1 m2 (take_new page incoming m2) dropped taken in
      record {
        setting = both.setting;
        gain = both.gain;
        muted = both.muted;
        lane = both.lane;
        value = both.value;
      }
