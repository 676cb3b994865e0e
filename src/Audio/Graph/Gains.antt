-- ===== src/Audio/Graph/Gains.antt =====
-- Setting gains in extension/src/audio/graph.ts: the mute of a track leaves its cancellation alone.
use streammix.Common.{
  ℕ, ◌+◌, ◌<◌, ◌≡◌, refl, sym, ap, ◌∙◌, subst, List, [], ◌∷◌, some, some-eq, arith, Bool-cases,
  Option-cases, inl, inr,
}
use streammix.Common.Assoc.{get}
use streammix.Common.Number.{Number}
use streammix.Common.Text.{Text, text_eq}
use streammix.Audio.Graph.{
  TrackNodes, Graph, broadcast_gain, cancellation_sum, inverter, master, update, set_track_gain,
  clamp01,
}
use streammix.Audio.Graph.Wiring.{outs, IsUnit, clamp01_bounds, AreWired, IsWired, AreWired-frame}
use streammix.Audio.Graph.Changes.{AreWired-get}

-- The gain of one track's user node may change, within the range.
module _ (out : ℕ → List ℕ) (gain : ℕ → Number) (slug : Text) (t : TrackNodes) (v : Number) where
  AreWired-gain :
      (lo : ℕ) (ts : List (Text × TrackNodes)) (hi : ℕ)
      → IsUnit v
      → t.user_gain ≡ t.entry + 1
      → get slug ts ≡ some t
      → AreWired out gain lo ts hi
      → AreWired out (update gain t.user_gain v) lo ts hi
  unfolding get
  AreWired-gain lo [] hi unit user e w = cc
  AreWired-gain lo ((k, u) ∷ ts) hi unit user e (low, high, wu, r) =
      elim (Bool-cases (text_eq k slug)) [
        | inl eq ↦
            let first : u ≡ t = some-eq (rw (eq, get) at e) in
            let above : u.entry ≡ t.entry = ap (λ (x : TrackNodes). x.entry) first in
            let own : u.user_gain ≡ t.user_gain = ap (λ (x : TrackNodes). x.user_gain) first in
            let set_own : update gain t.user_gain v u.user_gain ≡ v = ground arith in
            let kept : update gain t.user_gain v u.entry ≡ gain u.entry = ground arith in
            (
              low,
              high,
              record {
                user = wu.user;
                entry_gain = kept ∙ wu.entry_gain;
                entry_out = wu.entry_out;
                user_out = wu.user_out;
                user_value = subst IsUnit (sym set_own) unit;
              },
              AreWired-frame out out gain (update gain t.user_gain v) (u.entry + 2) ts hi hi
                  (omega arith) (λ n a b. (refl, ground arith)) r,
            )
        | inr ne ↦
            let known : get slug ts ≡ some t = rw (ne, get) at e in
            let (behind, _, _) = AreWired-get out gain (u.entry + 2) slug t ts hi known r in
            let kept : update gain t.user_gain v u.entry ≡ gain u.entry = ground arith in
            let kept_user : update gain t.user_gain v u.user_gain ≡ gain u.user_gain =
              ground (arith, wu.user) in
            (
              low,
              high,
              record {
                user = wu.user;
                entry_gain = kept ∙ wu.entry_gain;
                entry_out = wu.entry_out;
                user_out = wu.user_out;
                user_value = subst IsUnit (sym kept_user) wu.user_value;
              },
              AreWired-gain (u.entry + 2) ts hi unit user known r,
            )
      ]

set_known :
    (slug : Text) (v : Number) (g : Graph) (t : TrackNodes)
    → get slug g.tracks ≡ some t
    → IsUnit v
    → IsWired g
    → IsWired (record g { gain = update g.gain t.user_gain v })
set_known slug v g t known unit w =
    let (low, _, wt) =
      AreWired-get (outs g.edges) g.gain 7 slug t g.tracks g.created known w.wired in
    let user : t.user_gain ≡ t.entry + 1 = wt.user in
    let kept : (n : ℕ) → n < 7 → update g.gain t.user_gain v n ≡ g.gain n = λ n h. ground arith in
    record {
      source_out = w.source_out;
      broadcast_out = w.broadcast_out;
      sum_out = w.sum_out;
      delay_out = w.delay_out;
      inverter_out = w.inverter_out;
      master_out = w.master_out;
      sum_gain = kept cancellation_sum (omega arith) ∙ w.sum_gain;
      inverter_gain = kept inverter (omega arith) ∙ w.inverter_gain;
      master_gain = kept master (omega arith) ∙ w.master_gain;
      broadcast_value = subst IsUnit (sym (kept broadcast_gain (omega arith))) w.broadcast_value;
      fresh = w.fresh;
      wired =
          AreWired-gain (outs g.edges) g.gain slug t v 7 g.tracks g.created unit user known w.wired;
    }

-- Setting the gain of a track, whatever the value, keeps the routing: in particular every track's tap
-- into the cancellation, with its gain of 1.
pub set_track_gain-IsWired :
    (slug : Text) (value : Number) (g : Graph) → IsWired g → IsWired (set_track_gain slug value g)
unfolding set_track_gain
set_track_gain-IsWired slug value g w = elim (Option-cases (get slug g.tracks)) [
  | inl unknown ↦ rw (unknown, set_track_gain) w
  | inr (t, known) ↦
      rw (known, set_track_gain)
        (set_known slug (clamp01 value) g t known (clamp01_bounds value).0 w)
]
