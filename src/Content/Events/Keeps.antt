-- ===== src/Content/Events/Keeps.antt =====
-- What the panel's callbacks of extension/src/content/index.ts leave as it is.
use streammix.Common.{
  ◌≡◌, refl, sym, ap, ◌∙◌, Bool, true, not, List, [], ◌∷◌, Option, some, if◌then◌else◌, arith,
  Option-cases, inl, inr,
}
use streammix.Common.Assoc.{get, set, has, has-set, has-get}
use streammix.Common.Number.{Number, num}
use streammix.Common.Text.{Text, text_eq, text_eq_iff, text_eq_refl, includes}
use streammix.Audio.Graph.{set_track_gain, set_broadcast_gain, set_offset_ms, entry_node_for}
use streammix.Audio.Graph.Entries.{entry_node_for-set_track_gain}
use streammix.Audio.Graph.Wiring.{IsWired}
use streammix.Audio.Graph.Gains.{set_track_gain-IsWired}
use streammix.Audio.Graph.Routing.{set_broadcast_gain-IsWired, set_offset_ms-IsWired}
use streammix.Messages.TrackList.{TrackInfo}
use streammix.Store.{ChannelSetting, effective_setting}
use streammix.Content.{Mixer, Page, slugs, audible, gain_of}
use streammix.Content.Panel.{
  update_setting, on_change, on_mute_toggle, solo_tracks, on_broadcast_change, on_offset_change,
  reset_tracks,
}
use streammix.Content.Events.Keys.{Fits, IsListed, is_some}

-- The mixer keeps its slugs: the settings have the same keys, the graph the same entry nodes, and lanes
-- and track list are the same.
pub record Keeps (m m' : Mixer) : Type 0 where
  pub keys : (s : Text) → has s m'.settings ≡ has s m.settings
  pub entries : (s : Text) → entry_node_for m'.graph s ≡ entry_node_for m.graph s
  pub lanes : m'.audio_lanes ≡ m.audio_lanes
  pub tracks : m'.tracks ≡ m.tracks
  pub wired : IsWired m.graph → IsWired m'.graph

pub Keeps-Fits : (m m' : Mixer) → Keeps m m' → Fits m → Fits m'
Keeps-Fits m m' k f = record {
  keys = λ s. k.keys s ∙ f.keys s ∙ ap is_some (sym (k.entries s));
  lanes = λ s lane h. k.entries s ∙ f.lanes s lane (ap (get s) (sym k.lanes) ∙ h);
  wired = k.wired f.wired;
}

pub Keeps-IsListed : (m m' : Mixer) → Keeps m m' → IsListed m → IsListed m'
Keeps-IsListed m m' k listed s =
    k.keys s ∙ listed s ∙ ap (λ ts. includes (slugs ts) s) (sym k.tracks)

-- A setting replaced where there is one.
has-set_known :
    (k s : Text) (v : ChannelSetting) (m : List (Text × ChannelSetting))
    → has k m ≡ true
    → has s (set k v m) ≡ has s m
has-set_known k s v m h = ground (arith, has-set k s v m, text_eq_iff k s)

has-update_setting :
    (slug s : Text) (edit : ChannelSetting → ChannelSetting) (m : List (Text × ChannelSetting))
    → has s (update_setting slug edit m) ≡ has s m
has-update_setting slug s edit m = elim (Option-cases (get slug m)) [
  | inl unknown ↦ rw (unknown, update_setting) refl
  | inr (v, known) ↦
      rw (known, update_setting) (has-set_known slug s (edit v) m (has-get slug m ∙ rw known refl))
]

pub Keeps-on_change : (slug : Text) (v : Number) (m : Mixer) → Keeps m (on_change slug v m)
unfolding on_change
Keeps-on_change slug v m = record {
  keys = λ s. has-update_setting slug s _ m.settings;
  entries = λ s. entry_node_for-set_track_gain slug s _ m.graph;
  lanes = refl;
  tracks = refl;
  wired = λ w. set_track_gain-IsWired slug _ m.graph w;
}

pub Keeps-on_mute_toggle : (slug : Text) (m : Mixer) → Keeps m (on_mute_toggle slug m)
unfolding on_mute_toggle
Keeps-on_mute_toggle slug m = record {
  keys = λ s. has-update_setting slug s _ m.settings;
  entries = λ s. entry_node_for-set_track_gain slug s _ m.graph;
  lanes = refl;
  tracks = refl;
  wired = λ w. set_track_gain-IsWired slug _ m.graph w;
}

Keeps-trans : (m m' m'' : Mixer) → Keeps m m' → Keeps m' m'' → Keeps m m''
Keeps-trans m m' m'' a b = record {
  keys = λ s. b.keys s ∙ a.keys s;
  entries = λ s. b.entries s ∙ a.entries s;
  lanes = b.lanes ∙ a.lanes;
  tracks = b.tracks ∙ a.tracks;
  wired = λ w. b.wired (a.wired w);
}

pub Keeps-solo_tracks :
    (slug : Text) (ts : List TrackInfo) (muted : List (Text × Option Bool)) (m : Mixer)
    → Keeps m (solo_tracks slug ts muted m)
unfolding solo_tracks
Keeps-solo_tracks slug [] muted m = record {
  keys = λ s. refl;
  entries = λ s. refl;
  lanes = refl;
  tracks = refl;
  wired = λ w. w;
}
Keeps-solo_tracks slug (t ∷ ts) muted m =
    let v = if not (text_eq t.slug slug) then num 0 else gain_of m.gains t.slug in
    let m' = record m { graph = set_track_gain t.slug v m.graph } in
    Keeps-trans m m' (solo_tracks slug ts (set t.slug (some (not (text_eq t.slug slug))) muted) m')
      (record {
        keys = λ s. refl;
        entries = λ s. entry_node_for-set_track_gain t.slug s v m.graph;
        lanes = refl;
        tracks = refl;
        wired = λ w. set_track_gain-IsWired t.slug v m.graph w;
      })
      (Keeps-solo_tracks slug ts (set t.slug (some (not (text_eq t.slug slug))) muted) m')

module _ (page : Page) where
  -- Every track of the loop of `onReset` has a setting.
  pub Keeps-reset_tracks :
      (ts : List TrackInfo) (gains : List (Text × Option Number))
      (muted : List (Text × Option Bool)) (m : Mixer)
      → ((s : Text) → includes (slugs ts) s ≡ true → has s m.settings ≡ true)
      → Keeps m (reset_tracks page ts gains muted m)
  unfolding reset_tracks
  Keeps-reset_tracks [] gains muted m known = record {
    keys = λ s. refl;
    entries = λ s. refl;
    lanes = refl;
    tracks = refl;
    wired = λ w. w;
  }
  Keeps-reset_tracks (t ∷ ts) gains muted m known =
      let eff = effective_setting t.slug t.category [] page.global_prefs in
      let m' = record m {
        settings = set t.slug eff m.settings;
        graph = set_track_gain t.slug (audible eff) m.graph;
      } in
      let here : has t.slug m.settings ≡ true =
        known t.slug (ground (arith, text_eq_refl t.slug)) in
      let same = λ (s : Text). has-set_known t.slug s eff m.settings here in
      Keeps-trans m m'
        (reset_tracks page ts (set t.slug eff.gain gains) (set t.slug eff.muted muted) m')
        (record {
          keys = same;
          entries = λ s. entry_node_for-set_track_gain t.slug s (audible eff) m.graph;
          lanes = refl;
          tracks = refl;
          wired = λ w. set_track_gain-IsWired t.slug (audible eff) m.graph w;
        })
        (Keeps-reset_tracks ts (set t.slug eff.gain gains) (set t.slug eff.muted muted) m'
          (λ s h. same s ∙ known s (ground arith)))

pub Keeps-on_broadcast_change : (v : Number) (m : Mixer) → Keeps m (on_broadcast_change v m)
unfolding on_broadcast_change set_broadcast_gain entry_node_for
Keeps-on_broadcast_change v m = record {
  keys = λ s. refl;
  entries = λ s. refl;
  lanes = refl;
  tracks = refl;
  wired = λ w. set_broadcast_gain-IsWired v m.graph w;
}

pub Keeps-on_offset_change :
    (page : Page) (ms : Number) (m : Mixer) → Keeps m (on_offset_change page ms m)
unfolding on_offset_change set_offset_ms entry_node_for
Keeps-on_offset_change page ms m = record {
  keys = λ s. refl;
  entries = λ s. refl;
  lanes = refl;
  tracks = refl;
  wired = λ w. set_offset_ms-IsWired page.thousandth ms m.graph w;
}
