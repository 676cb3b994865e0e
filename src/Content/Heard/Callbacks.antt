-- ===== src/Content/Heard/Callbacks.antt =====
-- The gains of extension/src/content/index.ts after the panel's callbacks.
use streammix.Common.{
  ◌≡◌, refl, sym, ap, ◌∙◌, Bool, true, false, not, ◌||◌, List, [], ◌∷◌, Option, some, if◌then◌else◌,
  arith, All,
}
use streammix.Common.Assoc.{set}
use streammix.Common.Number.{Number, num}
use streammix.Common.Text.{Text, text_eq, text_eq_refl, includes}
use streammix.Audio.Graph.{set_track_gain, clamp01, set_offset_ms}
use streammix.Audio.Graph.Wiring.{IsWired}
use streammix.Audio.Graph.Gains.{set_track_gain-IsWired}
use streammix.Audio.Graph.Values.{user_value, user_value-set_broadcast_gain}
use streammix.Messages.TrackList.{TrackInfo}
use streammix.Store.{ChannelSetting, effective_setting}
use streammix.Content.{Mixer, Page, is_muted, gain_of, audible, slugs}
use streammix.Content.Panel.{
  on_change, on_mute_toggle, on_solo_toggle, solo_tracks, on_broadcast_change, on_offset_change,
  on_reset, reset_tracks,
}
use streammix.Content.Heard.{
  wanted, IsHeard, everything, is_muted-set, is_muted-set_option, gain_of-set,
  IsHeard-set_track_gain,
}

-- The mixer is heard as its panel shows it.
abbrev pub IsShown : Mixer → Type 0
IsShown m = IsHeard everything m.gains m.muted m.graph

pub on_change-IsShown :
    (slug : Text) (v : Number) (m : Mixer)
    → IsWired m.graph
    → IsShown m
    → IsShown (on_change slug v m)
unfolding on_change
on_change-IsShown slug v m w x =
    IsHeard-set_track_gain everything everything m.gains (set slug (some v) m.gains) m.muted m.muted
      slug (if is_muted m.muted slug then num 0 else v) m.graph w (λ s other h. h)
      (λ s other. rw (gain_of-set slug s v m.gains, other) refl)
      (rw (gain_of-set slug slug v m.gains, text_eq_refl slug) refl) x

pub on_mute_toggle-IsShown :
    (slug : Text) (m : Mixer) → IsWired m.graph → IsShown m → IsShown (on_mute_toggle slug m)
unfolding on_mute_toggle
on_mute_toggle-IsShown slug m w x =
    let next = not (is_muted m.muted slug) in
    IsHeard-set_track_gain everything everything m.gains m.gains m.muted
      (set slug (some next) m.muted) slug (if next then num 0 else gain_of m.gains slug) m.graph w
      (λ s other h. h) (λ s other. rw (is_muted-set slug s next m.muted, other) refl)
      (rw (is_muted-set slug slug next m.muted, text_eq_refl slug) refl) x

pub on_broadcast_change-IsShown :
    (v : Number) (m : Mixer) → IsWired m.graph → IsShown m → IsShown (on_broadcast_change v m)
unfolding on_broadcast_change
on_broadcast_change-IsShown v m w x s y h e =
    x s y h (sym (user_value-set_broadcast_gain s v m.graph w) ∙ e)

pub on_offset_change-IsShown :
    (page : Page) (ms : Number) (m : Mixer) → IsShown m → IsShown (on_offset_change page ms m)
unfolding on_offset_change set_offset_ms user_value
on_offset_change-IsShown page ms m x s y h e = x s y h e

-- After the loop of `onSoloToggle`, also its slugs are heard as `nextMuted` says.
solo_tracks-IsHeard :
    (slug : Text) (ts : List TrackInfo) (muted : List (Text × Option Bool)) (m : Mixer)
    (seen : Text → Bool)
    → IsWired m.graph
    → IsHeard seen m.gains muted m.graph
    → IsHeard
        (λ s. includes (slugs ts) s || seen s)
        (solo_tracks slug ts muted m).gains
        (solo_tracks slug ts muted m).muted
        (solo_tracks slug ts muted m).graph
unfolding solo_tracks
solo_tracks-IsHeard slug [] muted m seen w x s y h e = x s y h e
solo_tracks-IsHeard slug (t ∷ ts) muted m seen w x s y h e =
    let silent = not (text_eq t.slug slug) in
    let v = if silent then num 0 else gain_of m.gains t.slug in
    let m' = record m { graph = set_track_gain t.slug v m.graph } in
    let muted' = set t.slug (some silent) muted in
    solo_tracks-IsHeard slug ts muted' m' (λ s. text_eq t.slug s || seen s)
      (set_track_gain-IsWired t.slug v m.graph w)
      (IsHeard-set_track_gain seen (λ s. text_eq t.slug s || seen s) m.gains m.gains muted muted'
        t.slug v m.graph w (λ s other h. ground arith)
        (λ s other. rw (is_muted-set t.slug s silent muted, other) refl)
        (rw (is_muted-set t.slug t.slug silent muted, text_eq_refl t.slug) refl) x)
      s y (ground arith) e

-- Every slug with a user node is one of the track list.
abbrev pub AreListed : Mixer → Type 0
AreListed m =
    (s : Text) (v : Number) → user_value m.graph s ≡ some v → includes (slugs m.tracks) s ≡ true

pub on_solo_toggle-IsShown :
    (slug : Text) (m : Mixer)
    → IsWired m.graph
    → AreListed (on_solo_toggle slug m)
    → (on_solo_toggle slug m).tracks ≡ m.tracks
    → IsShown (on_solo_toggle slug m)
unfolding on_solo_toggle
on_solo_toggle-IsShown slug m w listed same s y h e =
    let known : includes (slugs m.tracks) s ≡ true =
      ap (λ ts. includes (slugs ts) s) (sym same) ∙ listed s y e in
    solo_tracks-IsHeard slug m.tracks [] m (λ s. false) w (λ s y h e. cc) s y (rw known refl) e

-- A setting with a gain.
abbrev pub HasGain : ChannelSetting → Type 0
HasGain s = (v : Number) × (s.gain ≡ some v)

-- What is shown and heard of a slug that is given a setting.
pub wanted-set_setting :
    (k : Text) (eff : ChannelSetting) (gains : List (Text × Option Number))
    (muted : List (Text × Option Bool))
    → HasGain eff
    → clamp01 (audible eff) ≡ wanted (set k eff.gain gains) (set k eff.muted muted) k
wanted-set_setting k eff gains muted (v, e) =
    rw (e, gain_of-set k k v gains, is_muted-set_option k k eff.muted muted, text_eq_refl k) refl

pub wanted-set_setting_other :
    (k s : Text) (eff : ChannelSetting) (gains : List (Text × Option Number))
    (muted : List (Text × Option Bool))
    → HasGain eff
    → text_eq k s ≡ false
    → wanted (set k eff.gain gains) (set k eff.muted muted) s ≡ wanted gains muted s
wanted-set_setting_other k s eff gains muted (v, e) other =
    rw (e, gain_of-set k s v gains, is_muted-set_option k s eff.muted muted, other) refl

module _ (page : Page) where
  -- After the loop of `onReset`, also its slugs are heard as `nextGains` and `nextMuted` say.
  reset_tracks-IsHeard :
      (ts : List TrackInfo) (gains : List (Text × Option Number))
      (muted : List (Text × Option Bool)) (m : Mixer) (seen : Text → Bool)
      → All (λ t. HasGain (effective_setting t.slug t.category [] page.global_prefs)) ts
      → IsWired m.graph
      → IsHeard seen gains muted m.graph
      → IsHeard
          (λ s. includes (slugs ts) s || seen s)
          (reset_tracks page ts gains muted m).gains
          (reset_tracks page ts gains muted m).muted
          (reset_tracks page ts gains muted m).graph
  unfolding reset_tracks
  reset_tracks-IsHeard [] gains muted m seen has_gains w x s y h e = x s y h e
  reset_tracks-IsHeard (t ∷ ts) gains muted m seen (has_gain, has_gains) w x s y h e =
      let eff = effective_setting t.slug t.category [] page.global_prefs in
      let m' = record m {
        settings = set t.slug eff m.settings;
        graph = set_track_gain t.slug (audible eff) m.graph;
      } in
      let gains' = set t.slug eff.gain gains in
      let muted' = set t.slug eff.muted muted in
      reset_tracks-IsHeard ts gains' muted' m' (λ s. text_eq t.slug s || seen s) has_gains
        (set_track_gain-IsWired t.slug (audible eff) m.graph w)
        (IsHeard-set_track_gain seen (λ s. text_eq t.slug s || seen s) gains gains' muted muted'
          t.slug (audible eff) m.graph w (λ s other h. ground arith)
          (λ s other. wanted-set_setting_other t.slug s eff gains muted has_gain other)
          (wanted-set_setting t.slug eff gains muted has_gain) x)
        s y (ground arith) e

  pub on_reset-IsShown :
      (m : Mixer)
      → All (λ t. HasGain (effective_setting t.slug t.category [] page.global_prefs)) m.tracks
      → IsWired m.graph
      → AreListed (on_reset page m)
      → (on_reset page m).tracks ≡ m.tracks
      → IsShown (on_reset page m)
  unfolding on_reset
  on_reset-IsShown m has_gains w listed same s y h e =
      let known : includes (slugs m.tracks) s ≡ true =
        ap (λ ts. includes (slugs ts) s) (sym same) ∙ listed s y e in
      reset_tracks-IsHeard m.tracks [] [] m (λ s. false) has_gains w (λ s y h e. cc) s y
        (rw known refl) e
