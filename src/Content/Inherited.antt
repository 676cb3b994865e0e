-- ===== src/Content/Inherited.antt =====
-- Tracks in extension/src/content/index.ts whose slug is a property that every object inherits: what
-- `effectiveSetting` of extension/src/store/prefs.ts finds for them is no setting.
use streammix.Common.{
  ◌≡◌, refl, sym, subst, ◌∙◌, true, false, List, [], ◌∷◌, none, some, arith, Bool-cases,
  Option-cases, inl, inr,
}
use streammix.Common.Assoc.{get, set, has, get-set, has-get, has-set}
use streammix.Common.Number.{Number, num}
use streammix.Common.Text.{Text, text_eq, text_eq_iff, text_eq_refl, includes}
use streammix.Audio.Graph.{Graph, TrackNodes, half, add_track, new_track, set_track_gain, clamp01}
use streammix.Audio.Graph.Wiring.{IsWired}
use streammix.Audio.Graph.Changes.{add_track-IsWired}
use streammix.Audio.Graph.Gains.{set_track_gain-IsWired}
use streammix.Audio.Graph.Values.{user_value}
use streammix.Messages.TrackList.{TrackInfo}
use streammix.Store.{object_prototype, effective_setting}
use streammix.Store.Laws.{effective_setting_inherited}
use streammix.Content.{
  Mixer, Page, slugs, audible, is_muted, gain_of, provision, take_track, take_new, drop_missing,
  apply_track_list, index_tracks, on_track_list,
}
use streammix.Content.Staying.{Stays, take_track-Goes, take_new-Goes}
use streammix.Content.Heard.Lists.{ensure_lane_lem}
use streammix.Content.Events.Keys.{drop_missing-Fits, drop_missing_settings}
use streammix.Content.Events.Invariant.{IsMixing}

-- The panel shows the track at 50 % and not muted, and its node lets nothing through.
pub record IsSilent (s : Text) (m : Mixer) : Type 0 where
  pub shown : gain_of m.gains s ≡ half
  pub unmuted : is_muted m.muted s ≡ false
  pub heard : user_value m.graph s ≡ some (num 0)
  pub known : has s m.settings ≡ true

user_value-set_track_gain_known :
    (s : Text) (v : Number) (g : Graph) (t : TrackNodes)
    → get s g.tracks ≡ some t
    → user_value (set_track_gain s v g) s ≡ some (clamp01 v)
unfolding user_value set_track_gain
user_value-set_track_gain_known s v g t known = rw (known, set_track_gain, known) (ground arith)

get-set_self :
    (s : Text) (t : TrackNodes) (ts : List (Text × TrackNodes))
    → (found : TrackNodes) × (get s (set s t ts) ≡ some found)
get-set_self s t ts = (t, get-set s s t ts ∙ rw (text_eq_refl s) refl)

add_track_known :
    (s : Text) (g : Graph) → (t : TrackNodes) × (get s (add_track s g).0.tracks ≡ some t)
unfolding add_track new_track
add_track_known s g = elim (Option-cases (get s g.tracks)) [
  | inr (t, known) ↦ (t, rw (known, add_track) known)
  | inl unknown ↦ rw (unknown, add_track) (get-set_self s _ g.tracks)
]

Stays-IsSilent : (s : Text) (m m' : Mixer) → Stays s m m' → IsSilent s m → IsSilent s m'
unfolding gain_of is_muted
Stays-IsSilent s m m' stays x = record {
  shown = rw (stays.gain, gain_of) x.shown;
  unmuted = rw (stays.muted, is_muted) x.unmuted;
  heard = stays.value ∙ x.heard;
  known = has-get s m'.settings ∙ rw stays.setting (sym (has-get s m.settings) ∙ x.known);
}

module _ (page : Page) where
  take_track-IsSilent :
      (t : TrackInfo) (m : Mixer)
      → includes object_prototype t.slug ≡ true
      → get t.slug page.streamer_prefs ≡ none
      → IsSilent t.slug (take_track page t m)
  unfolding take_track gain_of is_muted
  take_track-IsSilent t m inherited unsaved =
      let eff = effective_setting t.slug t.category page.streamer_prefs page.global_prefs in
      let nothing =
        effective_setting_inherited t.slug t.category page.streamer_prefs page.global_prefs
          inherited unsaved in
      let (nodes, known) = add_track_known t.slug m.graph in
      subst (IsSilent t.slug) (sym (ensure_lane_lem page t.slug (provision page t m))) (record {
        shown =
            rw (gain_of, get-set t.slug t.slug eff.gain m.gains, text_eq_refl t.slug, nothing) refl;
        unmuted =
            rw (is_muted, get-set t.slug t.slug eff.muted m.muted, text_eq_refl t.slug, nothing)
              refl;
        heard =
            user_value-set_track_gain_known t.slug (audible eff) (add_track t.slug m.graph).0 nodes
              known
            ∙ rw nothing (unfold clamp01 in refl);
        known = has-set t.slug t.slug eff m.settings ∙ rw (text_eq_refl t.slug) refl;
      })

  take_track-IsWired :
      (t : TrackInfo) (m : Mixer) → IsWired m.graph → IsWired (take_track page t m).graph
  unfolding take_track
  take_track-IsWired t m w =
      let eff = effective_setting t.slug t.category page.streamer_prefs page.global_prefs in
      subst (λ x. IsWired x.graph) (sym (ensure_lane_lem page t.slug (provision page t m)))
        (set_track_gain-IsWired t.slug (audible eff) (add_track t.slug m.graph).0
          (add_track-IsWired t.slug m.graph w))

  take_new-IsSilent :
      (ts : List TrackInfo) (s : Text) (m : Mixer)
      → includes object_prototype s ≡ true
      → get s page.streamer_prefs ≡ none
      → includes (slugs ts) s ≡ true
      → has s m.settings ≡ false
      → IsWired m.graph
      → IsSilent s (take_new page ts m)
  unfolding take_new
  take_new-IsSilent [] s m inherited unsaved listed new w = absurd (ground arith)
  take_new-IsSilent (t ∷ ts) s m inherited unsaved listed new w =
      elim (Bool-cases (text_eq t.slug s)) [
        | inl this ↦
            let same = (text_eq_iff t.slug s).0 this in
            let unknown : has t.slug m.settings ≡ false = rw same new in
            let silent : IsSilent s (take_track page t m) =
              subst (λ x. IsSilent x (take_track page t m)) same
                (take_track-IsSilent t m (rw same inherited) (rw same unsaved)) in
            let wired = take_track-IsWired t m w in
            let (rest, _) = take_new-Goes page ts s (take_track page t m) silent.known wired in
            rw (unknown, take_new) (Stays-IsSilent s (take_track page t m) _ rest silent)
        | inr other ↦
            let after : includes (slugs ts) s ≡ true = ground arith in
            elim (Bool-cases (has t.slug m.settings)) [
              | inl old ↦
                  rw (old, take_new) (take_new-IsSilent ts s m inherited unsaved after new w)
              | inr unknown ↦
                  let (one, wired) = take_track-Goes page t s m w other in
                  let still : has s (take_track page t m).settings ≡ false =
                    has-get s (take_track page t m).settings
                    ∙ rw one.setting (sym (has-get s m.settings) ∙ new) in
                  rw (unknown, take_new)
                    (take_new-IsSilent ts s (take_track page t m) inherited unsaved after still
                      wired)
            ]
      ]

  -- A track whose slug is a property that every object inherits, such as "constructor", and for which the
  -- streamer's preferences hold nothing: when a track list brings it to a mixer that did not have it and that
  -- keeps its invariant, the panel shows it at 50 % and not muted, while its node stands at 0, whatever is saved
  -- for its category.
  pub on_track_list_inherited :
      (incoming : List TrackInfo) (s : Text) (m : Mixer)
      → IsMixing m
      → includes object_prototype s ≡ true
      → get s page.streamer_prefs ≡ none
      → includes (slugs m.tracks) s ≡ false
      → includes (slugs incoming) s ≡ true
      → (gain_of (on_track_list page incoming m).gains s ≡ half)
        × (is_muted (on_track_list page incoming m).muted s ≡ false)
        × (user_value (on_track_list page incoming m).graph s ≡ some (num 0))
  unfolding on_track_list apply_track_list index_tracks
  on_track_list_inherited incoming s m x inherited unsaved absent listed =
      let m1 = index_tracks incoming m in
      let m2 = drop_missing (slugs incoming) m.tracks m1 in
      let fits =
        drop_missing-Fits (slugs incoming) m.tracks m1
          (record { keys = x.fits.keys; lanes = x.fits.lanes; wired = x.fits.wired }) in
      let new : has s m2.settings ≡ false =
        drop_missing_settings (slugs incoming) m.tracks s m1 ∙ ground (arith, x.listed s) in
      let silent = take_new-IsSilent incoming s m2 inherited unsaved listed new fits.wired in
      (silent.shown, silent.unmuted, silent.heard)
