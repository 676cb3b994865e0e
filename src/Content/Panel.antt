-- ===== src/Content/Panel.antt =====
-- extension/src/content/index.ts: the callbacks of the panel.
use streammix.Common.{Bool, not, List, [], ◌∷◌, Option, none, some, if◌then◌else◌}
use streammix.Common.Assoc.{get, set}
use streammix.Common.Number.{Number, num}
use streammix.Common.Text.{Text, text_eq}
use streammix.Audio.Graph.{set_track_gain, set_broadcast_gain, set_offset_ms}
use streammix.Messages.TrackList.{TrackInfo}
use streammix.Store.{ChannelSetting, Storage, effective_setting, save_streamer}
use streammix.Content.{Mixer, Page, is_muted, gain_of, audible}

-- `const s = settings.get(slug); if (s) { … }`: the change of the setting of a slug, where it has one.
abbrev pub update_setting :
    Text
    → (ChannelSetting → ChannelSetting)
    → List (Text × ChannelSetting)
    → List (Text × ChannelSetting)
update_setting slug edit settings = elim (get slug settings) [
  | none ↦ settings
  | some s ↦ set slug (edit s) settings
]

unfoldable pub on_change : Text → Number → Mixer → Mixer
on_change slug v m = record m {
  gains = set slug (some v) m.gains;
  settings = update_setting slug (λ s. record s { gain = some v }) m.settings;
  graph = set_track_gain slug (if is_muted m.muted slug then num 0 else v) m.graph;
}

unfoldable pub on_mute_toggle : Text → Mixer → Mixer
on_mute_toggle slug m =
    let next = not (is_muted m.muted slug) in
    record m {
      muted = set slug (some next) m.muted;
      settings = update_setting slug (λ s. record s { muted = some next }) m.settings;
      graph = set_track_gain slug (if next then num 0 else gain_of m.gains slug) m.graph;
    }

-- The loop of `onSoloToggle`; `muted` is `nextMuted`.
unfoldable pub solo_tracks : Text → List TrackInfo → List (Text × Option Bool) → Mixer → Mixer
solo_tracks slug [] muted m = record m { muted = muted }
solo_tracks slug (t ∷ ts) muted m =
    let silent = not (text_eq t.slug slug) in
    solo_tracks slug ts (set t.slug (some silent) muted) (record m {
      graph = set_track_gain t.slug (if silent then num 0 else gain_of m.gains t.slug) m.graph;
    })

unfoldable pub on_solo_toggle : Text → Mixer → Mixer
on_solo_toggle slug m = solo_tracks slug m.tracks [] m

unfoldable pub on_broadcast_change : Number → Mixer → Mixer
on_broadcast_change v m = record m { broadcast_gain = v; graph = set_broadcast_gain v m.graph }

module _ (page : Page) where
  unfoldable pub on_offset_change : Number → Mixer → Mixer
  on_offset_change ms m = record m {
    offset_ms = ms;
    graph = set_offset_ms page.thousandth ms m.graph;
  }

  -- The loop of `onReset`; `gains` and `muted` are `nextGains` and `nextMuted`.
  unfoldable pub reset_tracks :
      List TrackInfo → List (Text × Option Number) → List (Text × Option Bool) → Mixer → Mixer
  reset_tracks [] gains muted m = record m { gains = gains; muted = muted }
  reset_tracks (t ∷ ts) gains muted m =
      let eff = effective_setting t.slug t.category [] page.global_prefs in
      reset_tracks ts (set t.slug eff.gain gains) (set t.slug eff.muted muted) (record m {
        settings = set t.slug eff m.settings;
        graph = set_track_gain t.slug (audible eff) m.graph;
      })

  unfoldable pub on_reset : Mixer → Mixer
  on_reset m = reset_tracks m.tracks [] [] m

  -- The storage after `onSaveStreamer`: `out` has the keys and values of `settings`.
  unfoldable pub on_save_streamer : Mixer → Storage → Storage
  on_save_streamer m storage = save_streamer storage page.channel_id m.settings
