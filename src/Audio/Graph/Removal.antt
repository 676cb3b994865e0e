-- ===== src/Audio/Graph/Removal.antt =====
-- Removing a track and setting gains keep the routing of extension/src/audio/graph.ts.
use streammix.Common.{
  ℕ, ◌+◌, ◌≤◌, ◌<◌, ◌≡◌, ◌≢◌, refl, ap, ◌∙◌, List, [], ◌∷◌, some, some-eq, arith, Bool-cases,
  Option-cases, inl, inr,
}
use streammix.Common.Assoc.{get, delete}
use streammix.Common.Number.{Number}
use streammix.Common.Text.{Text, text_eq}
use streammix.Audio.Graph.{
  TrackNodes, Graph, source, broadcast_gain, cancellation_sum, shared_delay, inverter, master,
  without_source, remove_track,
}
use streammix.Audio.Graph.Wiring.{outs, outs-without_source, AreWired, IsWired, AreWired-frame}
use streammix.Audio.Graph.Changes.{AreWired-get}

module _ (out : ℕ → List ℕ) (gain : ℕ → Number) (slug : Text) where
  AreWired-lo :
      (lo lo' : ℕ) (ts : List (Text × TrackNodes)) (hi : ℕ)
      → lo' ≤ lo
      → AreWired out gain lo ts hi
      → AreWired out gain lo' ts hi
  AreWired-lo lo lo' [] hi h w = omega arith
  AreWired-lo lo lo' ((k, u) ∷ ts) hi h (low, high, wu, r) = (omega arith, high, wu, r)

  AreWired-delete :
      (lo : ℕ) (ts : List (Text × TrackNodes)) (hi : ℕ)
      → AreWired out gain lo ts hi
      → AreWired out gain lo (delete slug ts) hi
  unfolding delete
  AreWired-delete lo [] hi w = w
  AreWired-delete lo ((k, u) ∷ ts) hi (low, high, wu, r) = elim (Bool-cases (text_eq k slug)) [
    | inl eq ↦ rw eq (
        AreWired-lo (u.entry + 2) lo (delete slug ts) hi (omega arith)
          (AreWired-delete (u.entry + 2) ts hi r))
    | inr ne ↦ rw ne (low, high, wu, AreWired-delete (u.entry + 2) ts hi r)
  ]

-- The tracks other than `slug` stay wired where only the nodes of `slug` lose their outputs.
module _ (out out' : ℕ → List ℕ) (gain : ℕ → Number) (slug : Text) (t : TrackNodes) where
  AreWired-disconnect :
      (lo : ℕ) (ts : List (Text × TrackNodes)) (hi : ℕ)
      → ((n : ℕ) → n ≢ t.entry → n ≢ t.user_gain → out' n ≡ out n)
      → t.user_gain ≡ t.entry + 1
      → get slug ts ≡ some t
      → AreWired out gain lo ts hi
      → AreWired out' gain lo (delete slug ts) hi
  unfolding get delete
  AreWired-disconnect lo [] hi same user e w = cc
  AreWired-disconnect lo ((k, u) ∷ ts) hi same user e (low, high, wu, r) =
      elim (Bool-cases (text_eq k slug)) [
        | inl eq ↦
            let first : u ≡ t = some-eq (rw (eq, get) at e) in
            let above : u.entry ≡ t.entry = ap (λ (x : TrackNodes). x.entry) first in
            rw eq (
              AreWired-lo out' gain slug (u.entry + 2) lo (delete slug ts) hi (omega arith) (
                AreWired-delete out' gain slug (u.entry + 2) ts hi (
                  AreWired-frame out out' gain gain (u.entry + 2) ts hi hi (omega arith)
                    (λ n a b. (same n (omega arith) (omega arith), refl)) r)))
        | inr ne ↦
            let known : get slug ts ≡ some t = rw (ne, get) at e in
            let (behind, _, _) = AreWired-get out gain (u.entry + 2) slug t ts hi known r in
            let at_entry = same u.entry (omega arith) (omega arith) in
            let at_user = same u.user_gain (omega (arith, wu.user)) (omega (arith, wu.user)) in
            rw ne (
              low,
              high,
              record {
                user = wu.user;
                entry_gain = wu.entry_gain;
                entry_out = at_entry ∙ wu.entry_out;
                user_out = at_user ∙ wu.user_out;
                user_value = wu.user_value;
              },
              AreWired-disconnect (u.entry + 2) ts hi same user known r,
            )
      ]

abbrev disconnected : TrackNodes → List (ℕ × ℕ) → List (ℕ × ℕ)
disconnected t es = without_source t.user_gain (without_source t.entry es)

outs-disconnected :
    (t : TrackNodes) (es : List (ℕ × ℕ)) (n : ℕ)
    → n ≢ t.entry
    → n ≢ t.user_gain
    → outs (disconnected t es) n ≡ outs es n
outs-disconnected t es n a b = ground (
  arith,
  outs-without_source (without_source t.entry es) t.user_gain n,
  outs-without_source es t.entry n,
)

outs-disconnected_nil :
    (t : TrackNodes) (es : List (ℕ × ℕ)) (n : ℕ) → outs es n ≡ [] → outs (disconnected t es) n ≡ []
outs-disconnected_nil t es n a = ground (
  arith,
  outs-without_source (without_source t.entry es) t.user_gain n,
  outs-without_source es t.entry n,
)

remove_known :
    (slug : Text) (g : Graph) (t : TrackNodes)
    → get slug g.tracks ≡ some t
    → IsWired g
    → IsWired (record g { edges = disconnected t g.edges; tracks = delete slug g.tracks })
remove_known slug g t known w =
    let (low, _, wt) =
      AreWired-get (outs g.edges) g.gain 7 slug t g.tracks g.created known w.wired in
    let user : t.user_gain ≡ t.entry + 1 = wt.user in
    let kept = λ (n : ℕ) (h : n < 7). outs-disconnected t g.edges n (omega arith) (omega arith) in
    record {
      source_out = kept source (omega arith) ∙ w.source_out;
      broadcast_out = kept broadcast_gain (omega arith) ∙ w.broadcast_out;
      sum_out = kept cancellation_sum (omega arith) ∙ w.sum_out;
      delay_out = kept shared_delay (omega arith) ∙ w.delay_out;
      inverter_out = kept inverter (omega arith) ∙ w.inverter_out;
      master_out = kept master (omega arith) ∙ w.master_out;
      sum_gain = w.sum_gain;
      inverter_gain = w.inverter_gain;
      master_gain = w.master_gain;
      broadcast_value = w.broadcast_value;
      fresh = λ n h. outs-disconnected_nil t g.edges n (w.fresh n h);
      wired =
          AreWired-disconnect (outs g.edges) (outs (disconnected t g.edges)) g.gain slug t 7
            g.tracks g.created (outs-disconnected t g.edges) user known w.wired;
    }

-- Removing a track, known or not, keeps the routing of what is left.
pub remove_track-IsWired : (slug : Text) (g : Graph) → IsWired g → IsWired (remove_track slug g)
unfolding remove_track
remove_track-IsWired slug g w = elim (Option-cases (get slug g.tracks)) [
  | inl new ↦ rw (new, remove_track) w
  | inr (t, known) ↦ rw (known, remove_track) (remove_known slug g t known w)
]
