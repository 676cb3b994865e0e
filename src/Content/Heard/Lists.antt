-- ===== src/Content/Heard/Lists.antt =====
-- The gains of extension/src/content/index.ts when a track list comes.
use streammix.Common.{
  ◌≡◌, refl, sym, subst, ◌∙◌, Bool, true, false, not, List, [], ◌∷◌, Option, if◌then◌else◌,
  some-ne-none, arith, Bool-cases, Option-cases, inl, inr, All,
}
use streammix.Common.Assoc.{get, set, has, delete, get-delete}
use streammix.Common.Number.{Number}
use streammix.Common.Text.{Text, text_eq, includes}
use streammix.Audio.Graph.{add_track, entry_node_for}
use streammix.Audio.Graph.Wiring.{IsWired}
use streammix.Audio.Graph.Changes.{add_track-IsWired}
use streammix.Audio.Graph.Removal.{remove_track-IsWired}
use streammix.Audio.Graph.Gains.{set_track_gain-IsWired}
use streammix.Audio.Graph.Values.{user_value-add_track, user_value-remove_track}
use streammix.Messages.TrackList.{TrackInfo}
use streammix.Store.{effective_setting}
use streammix.Content.{
  Mixer, Page, is_muted, gain_of, audible, slugs, drop_track, drop_missing, open_lane, ensure_lane,
  take_track, take_new, apply_track_list, index_tracks, on_track_list,
}
use streammix.Content.Heard.{everything, IsHeard-set_track_gain}
use streammix.Content.Heard.Callbacks.{
  IsShown, HasGain, wanted-set_setting, wanted-set_setting_other,
}

-- The routing stands, and the mixer is heard as its panel shows it.
abbrev pub IsSound : Mixer → Type 0
IsSound m = IsWired m.graph × IsShown m

is_muted-delete :
    (k s : Text) (muted : List (Text × Option Bool))
    → text_eq k s ≡ false
    → is_muted (delete k muted) s ≡ is_muted muted s
unfolding is_muted
is_muted-delete k s muted other = rw (is_muted, get-delete k s muted, other) refl

gain_of-delete :
    (k s : Text) (gains : List (Text × Option Number))
    → text_eq k s ≡ false
    → gain_of (delete k gains) s ≡ gain_of gains s
unfolding gain_of
gain_of-delete k s gains other = rw (gain_of, get-delete k s gains, other) refl

drop_track-IsSound : (slug : Text) (m : Mixer) → IsSound m → IsSound (drop_track slug m)
unfolding drop_track
drop_track-IsSound slug m (w, x) = (
  remove_track-IsWired slug m.graph w,
  λ s v h e.
      let e' = sym (user_value-remove_track slug s m.graph) ∙ e in
      elim (Bool-cases (text_eq slug s)) [
        | inl same ↦ absurd (some-ne-none (sym e' ∙ rw same refl))
        | inr other ↦
            rw (is_muted-delete slug s m.muted other, gain_of-delete slug s m.gains other)
              (x s v h (rw other at e'))
      ],
)

either_way : (b : Bool) (m m' : Mixer) → IsSound m → IsSound m' → IsSound (if b then m else m')
either_way true m m' x y = x
either_way false m m' x y = y

drop_missing-IsSound :
    (incoming : List Text) (ts : List TrackInfo) (m : Mixer)
    → IsSound m
    → IsSound (drop_missing incoming ts m)
unfolding drop_missing
drop_missing-IsSound incoming [] m x = x
drop_missing-IsSound incoming (t ∷ ts) m x =
    drop_missing-IsSound incoming ts (if includes incoming t.slug then m else drop_track t.slug m) (
      either_way (includes incoming t.slug) m (drop_track t.slug m) x
        (drop_track-IsSound t.slug m x))

module _ (page : Page) where
  -- `ensureLane` changes nothing but the lanes.
  pub ensure_lane_lem :
      (slug : Text) (m : Mixer)
      → ensure_lane page slug m ≡ record m { audio_lanes = (ensure_lane page slug m).audio_lanes }
  unfolding ensure_lane open_lane
  ensure_lane_lem slug m = elim (Option-cases (get slug m.audio_lanes)) [
    | inr (lane, known) ↦ rw (known, ensure_lane) refl
    | inl new ↦ elim (Option-cases (entry_node_for m.graph slug)) [
      | inl unknown ↦ rw (new, ensure_lane, unknown, open_lane) refl
      | inr (entry, found) ↦ elim (Bool-cases page.has_audio_decoder) [
        | inl there ↦ rw (new, ensure_lane, found, open_lane, there) refl
        | inr missing ↦ rw (new, ensure_lane, found, open_lane, missing) refl
      ]
    ]
  ]

  pub ensure_lane-IsSound :
      (slug : Text) (m : Mixer) → IsSound m → IsSound (ensure_lane page slug m)
  ensure_lane-IsSound slug m x = subst IsSound (sym (ensure_lane_lem slug m)) x

  abbrev HasGains : List TrackInfo → Type 0
  HasGains ts =
      All (λ t. HasGain (effective_setting t.slug t.category page.streamer_prefs page.global_prefs))
        ts

  take_track-IsSound :
      (t : TrackInfo) (m : Mixer)
      → HasGain (effective_setting t.slug t.category page.streamer_prefs page.global_prefs)
      → IsSound m
      → IsSound (take_track page t m)
  unfolding take_track
  take_track-IsSound t m has_gain (w, x) =
      let eff = effective_setting t.slug t.category page.streamer_prefs page.global_prefs in
      let g = (add_track t.slug m.graph).0 in
      let wired = add_track-IsWired t.slug m.graph w in
      ensure_lane-IsSound t.slug _ (
        set_track_gain-IsWired t.slug (audible eff) g wired,
        IsHeard-set_track_gain (λ s. not (text_eq t.slug s)) everything m.gains
            (set t.slug eff.gain m.gains) m.muted (set t.slug eff.muted m.muted) t.slug
            (audible eff) g wired (λ s other h. rw other refl)
            (λ s other. wanted-set_setting_other t.slug s eff m.gains m.muted has_gain other)
            (wanted-set_setting t.slug eff m.gains m.muted has_gain)
            (λ s v h e.
              x s v refl (sym (user_value-add_track t.slug s m.graph w (ground (arith, h))) ∙ e)),
      )

  take_new-IsSound :
      (ts : List TrackInfo) (m : Mixer) → HasGains ts → IsSound m → IsSound (take_new page ts m)
  unfolding take_new
  take_new-IsSound [] m has_gains x = x
  take_new-IsSound (t ∷ ts) m (has_gain, has_gains) x =
      take_new-IsSound ts (if has t.slug m.settings then m else take_track page t m) has_gains (
        either_way (has t.slug m.settings) m (take_track page t m) x
          (take_track-IsSound t m has_gain x))

  pub on_track_list-IsSound :
      (incoming : List TrackInfo) (m : Mixer)
      → HasGains incoming
      → IsSound m
      → IsSound (on_track_list page incoming m)
  unfolding on_track_list apply_track_list index_tracks
  on_track_list-IsSound incoming m has_gains x =
      take_new-IsSound incoming (drop_missing (slugs incoming) m.tracks (index_tracks incoming m))
        has_gains (drop_missing-IsSound (slugs incoming) m.tracks (index_tracks incoming m) x)
