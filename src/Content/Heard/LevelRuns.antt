-- ===== src/Content/Heard/LevelRuns.antt =====
-- The broadcast's gain and the delay of extension/src/content/index.ts in runs of events.
use streammix.Common.{
  ℕ, refl, sym, subst, Bool, true, false, not, List, [], ◌∷◌, Option, some, if◌then◌else◌, arith,
  Option-cases, inl, inr,
}
use streammix.Common.Assoc.{get, set, has}
use streammix.Common.Number.{Number, num}
use streammix.Common.Text.{Text, text_eq, includes}
use streammix.Audio.Graph.{
  build_graph, add_track, set_track_gain, set_broadcast_gain, set_offset_ms,
}
use streammix.Audio.Graph.Wiring.{IsWired-build_graph}
use streammix.Audio.Graph.Routing.{set_broadcast_gain-IsWired, set_offset_ms-IsWired}
use streammix.Messages.TrackList.{TrackInfo}
use streammix.Store.{effective_setting}
use streammix.Content.{
  Mixer, Page, new_mixer, one_fifth, gain_of, audible, slugs, drop_track, drop_missing, ensure_lane,
  take_track, take_new, apply_track_list, index_tracks, on_track_list, on_audio, decode_in, get_id,
}
use streammix.Content.Panel.{
  on_change, on_mute_toggle, on_solo_toggle, solo_tracks, on_broadcast_change, on_offset_change,
  on_reset, reset_tracks,
}
use streammix.Content.Events.{
  Event, track_list, audio, change, mute_toggle, solo_toggle, broadcast_change, offset_change,
  reset, handle, handle_all,
}
use streammix.Content.Heard.Lists.{ensure_lane_lem}
use streammix.Content.Heard.Levels.{
  IsLevel, IsLevel-set_track_gain, IsLevel-add_track, IsLevel-remove_track,
}

module _ (page : Page) where
  abbrev pub IsLevelled : Mixer → Type 0
  IsLevelled m = IsLevel page.thousandth m.graph m.broadcast_gain m.offset_ms

  either_way :
      (b : Bool) (m m' : Mixer) → IsLevelled m → IsLevelled m' → IsLevelled (if b then m else m')
  either_way true m m' x y = x
  either_way false m m' x y = y

  drop_missing-IsLevelled :
      (incoming : List Text) (ts : List TrackInfo) (m : Mixer)
      → IsLevelled m
      → IsLevelled (drop_missing incoming ts m)
  unfolding drop_missing drop_track
  drop_missing-IsLevelled incoming [] m x = x
  drop_missing-IsLevelled incoming (t ∷ ts) m x =
      drop_missing-IsLevelled incoming ts
        (if includes incoming t.slug then m else drop_track t.slug m)
        (either_way (includes incoming t.slug) m (drop_track t.slug m) x
          (IsLevel-remove_track page.thousandth m.broadcast_gain m.offset_ms t.slug m.graph x))

  ensure_lane-IsLevelled :
      (slug : Text) (m : Mixer) → IsLevelled m → IsLevelled (ensure_lane page slug m)
  ensure_lane-IsLevelled slug m x = subst IsLevelled (sym (ensure_lane_lem page slug m)) x

  take_track-IsLevelled :
      (t : TrackInfo) (m : Mixer) → IsLevelled m → IsLevelled (take_track page t m)
  unfolding take_track
  take_track-IsLevelled t m x =
      let eff = effective_setting t.slug t.category page.streamer_prefs page.global_prefs in
      ensure_lane-IsLevelled t.slug _ (
        IsLevel-set_track_gain page.thousandth m.broadcast_gain m.offset_ms t.slug (audible eff)
          (add_track t.slug m.graph).0
          (IsLevel-add_track page.thousandth m.broadcast_gain m.offset_ms t.slug m.graph x))

  take_new-IsLevelled :
      (ts : List TrackInfo) (m : Mixer) → IsLevelled m → IsLevelled (take_new page ts m)
  unfolding take_new
  take_new-IsLevelled [] m x = x
  take_new-IsLevelled (t ∷ ts) m x =
      take_new-IsLevelled ts (if has t.slug m.settings then m else take_track page t m)
        (either_way (has t.slug m.settings) m (take_track page t m) x (take_track-IsLevelled t m x))

  solo_tracks-IsLevelled :
      (slug : Text) (ts : List TrackInfo) (muted : List (Text × Option Bool)) (m : Mixer)
      → IsLevelled m
      → IsLevelled (solo_tracks slug ts muted m)
  unfolding solo_tracks
  solo_tracks-IsLevelled slug [] muted m x = x
  solo_tracks-IsLevelled slug (t ∷ ts) muted m x =
      let silent = not (text_eq t.slug slug) in
      let v = if silent then num 0 else gain_of m.gains t.slug in
      solo_tracks-IsLevelled slug ts (set t.slug (some silent) muted)
        (record m { graph = set_track_gain t.slug v m.graph })
        (IsLevel-set_track_gain page.thousandth m.broadcast_gain m.offset_ms t.slug v m.graph x)

  reset_tracks-IsLevelled :
      (ts : List TrackInfo) (gains : List (Text × Option Number))
      (muted : List (Text × Option Bool)) (m : Mixer)
      → IsLevelled m
      → IsLevelled (reset_tracks page ts gains muted m)
  unfolding reset_tracks
  reset_tracks-IsLevelled [] gains muted m x = x
  reset_tracks-IsLevelled (t ∷ ts) gains muted m x =
      let eff = effective_setting t.slug t.category [] page.global_prefs in
      reset_tracks-IsLevelled ts (set t.slug eff.gain gains) (set t.slug eff.muted muted)
        (record m {
          settings = set t.slug eff m.settings;
          graph = set_track_gain t.slug (audible eff) m.graph;
        })
        (IsLevel-set_track_gain page.thousandth m.broadcast_gain m.offset_ms t.slug (audible eff)
          m.graph x)

  on_audio-IsLevelled :
      (track_id : Number) (seq : ℕ) (m : Mixer)
      → IsLevelled m
      → IsLevelled (on_audio page track_id seq m).0
  unfolding on_audio decode_in
  on_audio-IsLevelled track_id seq m x = elim (Option-cases (get_id track_id m.id_to_slug)) [
    | inl unknown ↦ rw (unknown, on_audio) x
    | inr (slug, known) ↦
        let m' = ensure_lane page slug m in
        let x' = ensure_lane-IsLevelled slug m x in
        elim (Option-cases (get slug m'.audio_lanes)) [
          | inl unknown ↦ rw (known, on_audio, unknown, decode_in) x'
          | inr (lane, found) ↦ rw (known, on_audio, found, decode_in) x'
        ]
  ]

  IsLevelled-handle : (e : Event) (m : Mixer) → IsLevelled m → IsLevelled (handle page e m)
  unfolding handle
  IsLevelled-handle (track_list incoming) m x =
      unfold on_track_list apply_track_list index_tracks in
      take_new-IsLevelled incoming
        (drop_missing (slugs incoming) m.tracks (index_tracks incoming m))
        (drop_missing-IsLevelled (slugs incoming) m.tracks (index_tracks incoming m) x)
  IsLevelled-handle (audio track_id seq) m x = on_audio-IsLevelled track_id seq m x
  IsLevelled-handle (change slug v) m x =
      unfold on_change in
      IsLevel-set_track_gain page.thousandth m.broadcast_gain m.offset_ms slug _ m.graph x
  IsLevelled-handle (mute_toggle slug) m x =
      unfold on_mute_toggle in
      IsLevel-set_track_gain page.thousandth m.broadcast_gain m.offset_ms slug _ m.graph x
  IsLevelled-handle (solo_toggle slug) m x =
      unfold on_solo_toggle in solo_tracks-IsLevelled slug m.tracks [] m x
  IsLevelled-handle (broadcast_change v) m x =
      let wired = set_broadcast_gain-IsWired v m.graph x.wired in
      unfold on_broadcast_change set_broadcast_gain in
      (record {
        wired = wired;
        gain = ground arith;
        offset_ms = x.offset_ms;
        delay_time = x.delay_time;
      })
  IsLevelled-handle (offset_change ms) m x =
      let wired = set_offset_ms-IsWired page.thousandth ms m.graph x.wired in
      unfold on_offset_change set_offset_ms in
      (record { wired = wired; gain = x.gain; offset_ms = refl; delay_time = refl })
  IsLevelled-handle reset m x = unfold on_reset in reset_tracks-IsLevelled m.tracks [] [] m x

  IsLevelled-handle_all :
      (es : List Event) (m : Mixer) → IsLevelled m → IsLevelled (handle_all page es m)
  unfolding handle_all
  IsLevelled-handle_all [] m x = x
  IsLevelled-handle_all (e ∷ es) m x =
      IsLevelled-handle_all es (handle page e m) (IsLevelled-handle e m x)

  IsLevelled-new_mixer : IsLevelled (new_mixer page)
  unfolding new_mixer
  IsLevelled-new_mixer =
      let wired =
        set_offset_ms-IsWired page.thousandth (num 0) (set_broadcast_gain one_fifth build_graph)
          (set_broadcast_gain-IsWired one_fifth build_graph IsWired-build_graph) in
      unfold set_offset_ms set_broadcast_gain build_graph in
      (record { wired = wired; gain = refl; offset_ms = refl; delay_time = refl })

  -- After any track lists, audio frames and calls of the panel, in any order, the gain of the broadcast
  -- stands at what the panel shows, brought into the range from 0 to 1, and the delay of the side channels
  -- at the offset that it shows, brought into the range from 0 to 30 seconds.
  pub handle_all_levels :
      (es : List Event)
      → IsLevel page.thousandth
          (handle_all page es (new_mixer page)).graph
          (handle_all page es (new_mixer page)).broadcast_gain
          (handle_all page es (new_mixer page)).offset_ms
  handle_all_levels es = IsLevelled-handle_all es (new_mixer page) IsLevelled-new_mixer
