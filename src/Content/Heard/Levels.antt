-- ===== src/Content/Heard/Levels.antt =====
-- The broadcast's gain and the delay of extension/src/content/index.ts.
use streammix.Common.{◌≤◌, ◌≡◌, if◌then◌else◌, arith, Option-cases, inl, inr}
use streammix.Common.Assoc.{get}
use streammix.Common.Number.{Number, num, is_finite}
use streammix.Common.Text.{Text}
use streammix.Audio.Graph.{
  Graph, broadcast_gain, new_track, add_track, remove_track, set_track_gain, clamp01, clamp_offset,
}
use streammix.Audio.Graph.Wiring.{outs, IsWired}
use streammix.Audio.Graph.Changes.{AreWired-get, AreWired-le, add_track-IsWired}
use streammix.Audio.Graph.Removal.{remove_track-IsWired}
use streammix.Audio.Graph.Gains.{set_track_gain-IsWired}

-- The offset that is shown, brought into the range of the delay.
abbrev pub wanted_offset : Number → Number
wanted_offset ms = if is_finite ms then clamp_offset ms else num 0

module _ (thousandth : Number → Number) where
  -- The graph stands at the broadcast's gain and the offset that the panel shows.
  pub record IsLevel (g : Graph) (broadcast offset : Number) : Type 0 where
    pub wired : IsWired g
    pub gain : g.gain broadcast_gain ≡ clamp01 broadcast
    pub offset_ms : g.offset_ms ≡ wanted_offset offset
    pub delay_time : g.delay_time ≡ thousandth (wanted_offset offset)

  module _ (broadcast offset : Number) where
    pub IsLevel-set_track_gain :
        (k : Text) (v : Number) (g : Graph)
        → IsLevel g broadcast offset
        → IsLevel (set_track_gain k v g) broadcast offset
    unfolding set_track_gain
    IsLevel-set_track_gain k v g x = elim (Option-cases (get k g.tracks)) [
      | inl unknown ↦ rw (set_track_gain, unknown) x
      | inr (t, known) ↦
          let (low, _, wt) =
            AreWired-get (outs g.edges) g.gain 7 k t g.tracks g.created known x.wired.wired in
          let wired = set_track_gain-IsWired k v g x.wired in
          rw (set_track_gain, known)
            (record {
              wired = rw (set_track_gain, known) at wired;
              gain = ground (arith, low, wt.user, x.gain);
              offset_ms = x.offset_ms;
              delay_time = x.delay_time;
            })
    ]

    pub IsLevel-add_track :
        (k : Text) (g : Graph)
        → IsLevel g broadcast offset
        → IsLevel (add_track k g).0 broadcast offset
    unfolding add_track
    IsLevel-add_track k g x = elim (Option-cases (get k g.tracks)) [
      | inr (t, known) ↦ rw (add_track, known) x
      | inl new ↦
          let room : 7 ≤ g.created =
            AreWired-le (outs g.edges) g.gain 7 g.tracks g.created x.wired.wired in
          let wired = add_track-IsWired k g x.wired in
          rw (add_track, new)
            (record {
              wired = rw (add_track, new) at wired;
              gain = unfold new_track in ground (arith, room, x.gain);
              offset_ms = unfold new_track in x.offset_ms;
              delay_time = unfold new_track in x.delay_time;
            })
    ]

    pub IsLevel-remove_track :
        (k : Text) (g : Graph)
        → IsLevel g broadcast offset
        → IsLevel (remove_track k g) broadcast offset
    unfolding remove_track
    IsLevel-remove_track k g x = elim (Option-cases (get k g.tracks)) [
      | inl unknown ↦ rw (remove_track, unknown) x
      | inr (t, known) ↦
          let wired = remove_track-IsWired k g x.wired in
          rw (remove_track, known)
            (record {
              wired = rw (remove_track, known) at wired;
              gain = x.gain;
              offset_ms = x.offset_ms;
              delay_time = x.delay_time;
            })
    ]
