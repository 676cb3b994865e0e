-- ===== src/Content/Heard/Runs.antt =====
-- What is heard in extension/src/content/index.ts after any events.
use streammix.Common.{
  ℕ, ◌≡◌, refl, sym, subst, ◌∙◌, true, List, [], ◌∷◌, none, some, some-ne-none, Option-cases, inl,
  inr, All,
}
use streammix.Common.Assoc.{get}
use streammix.Common.Number.{Number}
use streammix.Common.Text.{Text}
use streammix.Audio.Graph.{entry_node_for, Graph, set_broadcast_gain, build_graph, set_offset_ms}
use streammix.Audio.Graph.Values.{user_value}
use streammix.Content.{Mixer, Page, new_mixer, on_audio, decode_in, ensure_lane, get_id}
use streammix.Content.Panel.{
  on_solo_toggle, on_reset, on_change, on_mute_toggle, on_broadcast_change, on_offset_change,
}
use streammix.Content.{on_track_list, apply_track_list}
use streammix.Content.Heard.Settings.{AreGains, IsPlain, IsPlainEvent, All-HasGain}
use streammix.Content.Events.{
  Event, track_list, audio, change, mute_toggle, solo_toggle, broadcast_change, offset_change,
  reset, handle, handle_all,
}
use streammix.Content.Events.Keys.{is_some}
use streammix.Content.Events.Keeps.{Keeps-solo_tracks, Keeps-reset_tracks}
use streammix.Content.Events.Invariant.{IsMixing, IsMixing-handle, IsMixing-new_mixer}
use streammix.Content.Heard.{wanted}
use streammix.Content.Heard.Callbacks.{
  IsShown, AreListed, on_change-IsShown, on_mute_toggle-IsShown, on_broadcast_change-IsShown,
  on_offset_change-IsShown, on_solo_toggle-IsShown, on_reset-IsShown,
}
use streammix.Content.Heard.Lists.{
  IsSound, ensure_lane_lem, ensure_lane-IsSound, on_track_list-IsSound,
}

is_some-entry_node_for :
    (g : Graph) (s : Text) (v : Number)
    → user_value g s ≡ some v
    → is_some (entry_node_for g s) ≡ true
unfolding user_value entry_node_for
is_some-entry_node_for g s v e = elim (Option-cases (get s g.tracks)) [
  | inl unknown ↦
      let missing : user_value g s ≡ none = rw (user_value, unknown) refl in
      absurd (some-ne-none (sym e ∙ missing))
  | inr (t, known) ↦ rw (entry_node_for, known) refl
]

AreListed-IsMixing : (m : Mixer) → IsMixing m → AreListed m
AreListed-IsMixing m x s v e =
    let there : is_some (entry_node_for m.graph s) ≡ true = is_some-entry_node_for m.graph s v e in
    sym (x.listed s) ∙ x.fits.keys s ∙ there

-- The invariant of a run.
record IsPlaying (m : Mixer) : Type 0 where
  mixing : IsMixing m
  shown : IsShown m
  plain : All IsPlain m.tracks

module _ (page : Page) (gs : AreGains page.streamer_prefs) (gg : AreGains page.global_prefs) where
  on_audio-IsSound :
      (track_id : Number) (seq : ℕ) (m : Mixer)
      → IsSound m
      → All IsPlain m.tracks
      → IsSound (on_audio page track_id seq m).0
        × All IsPlain (on_audio page track_id seq m).0.tracks
  unfolding on_audio decode_in
  on_audio-IsSound track_id seq m x plain = elim (Option-cases (get_id track_id m.id_to_slug)) [
    | inl unknown ↦ rw (unknown, on_audio) (x, plain)
    | inr (slug, known) ↦
        let m' = ensure_lane page slug m in
        let x' = ensure_lane-IsSound page slug m x in
        let plain' : All IsPlain m'.tracks =
          subst (λ n. All IsPlain n.tracks) (sym (ensure_lane_lem page slug m)) plain in
        elim (Option-cases (get slug m'.audio_lanes)) [
          | inl unknown ↦ rw (known, on_audio, unknown, decode_in) (x', plain')
          | inr (lane, found) ↦ rw (known, on_audio, found, decode_in) (x', plain')
        ]
  ]

  IsPlaying-handle :
      (e : Event) (m : Mixer) → IsPlainEvent e → IsPlaying m → IsPlaying (handle page e m)
  unfolding handle
  IsPlaying-handle (track_list incoming) m plain x = record {
    mixing = IsMixing-handle page (track_list incoming) m x.mixing;
    shown =
        (on_track_list-IsSound page incoming m
          (All-HasGain incoming page.streamer_prefs page.global_prefs plain gs gg)
          (x.mixing.fits.wired, x.shown)).1;
    plain = unfold on_track_list apply_track_list in plain;
  }
  IsPlaying-handle (audio track_id seq) m plain x =
      let (sound, plain') =
        on_audio-IsSound track_id seq m (x.mixing.fits.wired, x.shown) x.plain in
      record {
        mixing = IsMixing-handle page (audio track_id seq) m x.mixing;
        shown = sound.1;
        plain = plain';
      }
  IsPlaying-handle (change slug v) m plain x = record {
    mixing = IsMixing-handle page (change slug v) m x.mixing;
    shown = on_change-IsShown slug v m x.mixing.fits.wired x.shown;
    plain = unfold on_change in x.plain;
  }
  IsPlaying-handle (mute_toggle slug) m plain x = record {
    mixing = IsMixing-handle page (mute_toggle slug) m x.mixing;
    shown = on_mute_toggle-IsShown slug m x.mixing.fits.wired x.shown;
    plain = unfold on_mute_toggle in x.plain;
  }
  IsPlaying-handle (solo_toggle slug) m plain x =
      let mixing = IsMixing-handle page (solo_toggle slug) m x.mixing in
      let same : (on_solo_toggle slug m).tracks ≡ m.tracks =
        unfold on_solo_toggle in (Keeps-solo_tracks slug m.tracks [] m).tracks in
      record {
        mixing = mixing;
        shown =
            on_solo_toggle-IsShown slug m x.mixing.fits.wired
              (AreListed-IsMixing (on_solo_toggle slug m) mixing) same;
        plain = subst (All IsPlain) (sym same) x.plain;
      }
  IsPlaying-handle (broadcast_change v) m plain x = record {
    mixing = IsMixing-handle page (broadcast_change v) m x.mixing;
    shown = on_broadcast_change-IsShown v m x.mixing.fits.wired x.shown;
    plain = unfold on_broadcast_change in x.plain;
  }
  IsPlaying-handle (offset_change ms) m plain x = record {
    mixing = IsMixing-handle page (offset_change ms) m x.mixing;
    shown = on_offset_change-IsShown page ms m x.shown;
    plain = unfold on_offset_change in x.plain;
  }
  IsPlaying-handle reset m plain x =
      let mixing = IsMixing-handle page reset m x.mixing in
      let same : (on_reset page m).tracks ≡ m.tracks =
        unfold on_reset in
        (Keeps-reset_tracks page m.tracks [] [] m (λ s h. x.mixing.listed s ∙ h)).tracks in
      record {
        mixing = mixing;
        shown =
            on_reset-IsShown page m
              (All-HasGain m.tracks [] page.global_prefs x.plain (λ key s e. unfold get in cc) gg)
              x.mixing.fits.wired (AreListed-IsMixing (on_reset page m) mixing) same;
        plain = subst (All IsPlain) (sym same) x.plain;
      }

  IsPlaying-handle_all :
      (es : List Event) (m : Mixer)
      → All IsPlainEvent es
      → IsPlaying m
      → IsPlaying (handle_all page es m)
  unfolding handle_all
  IsPlaying-handle_all [] m plain x = x
  IsPlaying-handle_all (e ∷ es) m (p, ps) x =
      IsPlaying-handle_all es (handle page e m) ps (IsPlaying-handle e m p x)

  IsPlaying-new_mixer : IsPlaying (new_mixer page)
  unfolding new_mixer user_value get set_offset_ms set_broadcast_gain build_graph
  IsPlaying-new_mixer = record {
    mixing = IsMixing-new_mixer page;
    shown = λ s v h e. cc;
    plain = tt;
  }

-- After any track lists, audio frames and calls of the panel, in any order, the user's node of every track
-- stands at what the panel shows: at 0 for a muted track, and else at its gain, brought into the range from
-- 0 to 1. The preferences of the page each say a gain, and no slug or category is the name of a property
-- that every object inherits.
pub handle_all_heard :
    (page : Page) (es : List Event) (s : Text) (v : Number)
    → AreGains page.streamer_prefs
    → AreGains page.global_prefs
    → All IsPlainEvent es
    → user_value (handle_all page es (new_mixer page)).graph s ≡ some v
    → v
      ≡ wanted
          (handle_all page es (new_mixer page)).gains
          (handle_all page es (new_mixer page)).muted
          s
handle_all_heard page es s v gs gg plain e =
    let x =
      IsPlaying-handle_all page gs gg es (new_mixer page) plain (IsPlaying-new_mixer page gs gg) in
    x.shown s v refl e
