-- ===== src/Audio/Graph/Changes.antt =====
-- Every operation of extension/src/audio/graph.ts on tracks and gains keeps the routing.
use streammix.Common.{
  ℕ, ◌+◌, ◌≤◌, ◌<◌, ◌≡◌, refl, sym, ◌∙◌, subst, List, [], ◌∷◌, ◌++◌, none, some, some-eq,
  some-ne-none, ◌==◌, if◌then◌else◌, arith, Bool-cases, Option-cases, inl, inr,
}
use streammix.Common.Assoc.{get, set}
use streammix.Common.Number.{Number, num}
use streammix.Common.Text.{Text, text_eq}
use streammix.Audio.Graph.{
  TrackNodes, Graph, source, broadcast_gain, cancellation_sum, shared_delay, inverter, master, half,
  new_track, add_track,
}
use streammix.Audio.Graph.Wiring.{
  outs, outs-append, IsUnit, IsWiredTrack, AreWired, IsWired, AreWired-frame,
}

module _ (out : ℕ → List ℕ) (gain : ℕ → Number) where
  AreWired-set :
      (lo : ℕ) (slug : Text) (t : TrackNodes) (ts : List (Text × TrackNodes)) (hi : ℕ)
      → get slug ts ≡ none
      → t.entry ≡ hi
      → IsWiredTrack out gain t
      → AreWired out gain lo ts hi
      → AreWired out gain lo (set slug t ts) (hi + 2)
  unfolding get set
  AreWired-set lo slug t [] hi new e w h = (omega arith, omega arith, w, omega arith)
  AreWired-set lo slug t ((k, u) ∷ ts) hi new e w (low, high, wu, r) =
      elim (Bool-cases (text_eq k slug)) [
        | inl same ↦ absurd (some-ne-none (rw (same, get) at new))
        | inr other ↦ rw other (
          low,
          omega arith,
          wu,
          AreWired-set (u.entry + 2) slug t ts hi (rw (other, get) at new) e w r,
        )
      ]

  -- A known track lies in the range, and is wired.
  pub AreWired-get :
      (lo : ℕ) (slug : Text) (t : TrackNodes) (ts : List (Text × TrackNodes)) (hi : ℕ)
      → get slug ts ≡ some t
      → AreWired out gain lo ts hi
      → (lo ≤ t.entry) × (t.entry + 2 ≤ hi) × IsWiredTrack out gain t
  unfolding get
  AreWired-get lo slug t [] hi e h = cc
  AreWired-get lo slug t ((k, u) ∷ ts) hi e (low, high, wu, r) =
      elim (Bool-cases (text_eq k slug)) [
        | inl same ↦
            subst (λ x. (lo ≤ x.entry) × (x.entry + 2 ≤ hi) × IsWiredTrack out gain x)
              (some-eq (rw (same, get) at e)) (low, high, wu)
        | inr other ↦
            let (a, b, c) = AreWired-get (u.entry + 2) slug t ts hi (rw (other, get) at e) r in
            (omega arith, b, c)
      ]

pub AreWired-le :
    (out : ℕ → List ℕ) (gain : ℕ → Number) (lo : ℕ) (ts : List (Text × TrackNodes)) (hi : ℕ)
    → AreWired out gain lo ts hi
    → lo ≤ hi
AreWired-le out gain lo [] hi h = h
AreWired-le out gain lo ((slug, t) ∷ ts) hi h = omega arith

-- What a new track changes: its own two nodes.
module _ (slug : Text) (g : Graph) where
  abbrev edges' : List (ℕ × ℕ)
  edges' = (g.edges ++ ((g.created, g.created + 1) ∷ [])) ++ ((g.created + 1, master) ∷ [])

  pub outs-new_track :
      (n : ℕ)
      → outs (new_track slug g).0.edges n ≡ (
          if g.created == n
          then outs g.edges n ++ ((g.created + 1) ∷ []) ++ (cancellation_sum ∷ [])
          else if g.created + 1 == n
          then outs g.edges n ++ (master ∷ [])
          else outs g.edges n)
  unfolding new_track
  outs-new_track n = ground (
    arith,
    outs-append g.edges g.created (g.created + 1) n,
    outs-append (g.edges ++ ((g.created, g.created + 1) ∷ [])) (g.created + 1) master n,
    outs-append edges' g.created cancellation_sum n,
  )

  new_track_old :
      (n : ℕ)
      → n < g.created
      → (outs (new_track slug g).0.edges n ≡ outs g.edges n)
        × ((new_track slug g).0.gain n ≡ g.gain n)
  new_track_old n h = (ground (arith, outs-new_track n), unfold new_track in ground arith)

  abbrev nodes : TrackNodes
  nodes = record { entry = g.created; user_gain = g.created + 1 }

  new_track_state :
      ((new_track slug g).0.created ≡ g.created + 2)
      × ((new_track slug g).0.tracks ≡ set slug nodes g.tracks)
      × ((new_track slug g).0.gain g.created ≡ num 1)
      × ((new_track slug g).0.gain (g.created + 1) ≡ half)
  unfolding new_track
  new_track_state = (omega arith, refl, ground arith, ground arith)

  nodes-IsWiredTrack :
      IsWired g
      → 7 ≤ g.created
      → IsWiredTrack (outs (new_track slug g).0.edges) (new_track slug g).0.gain nodes
  nodes-IsWiredTrack w room =
      let (_, _, entry, user) = new_track_state in
      record {
        user = refl;
        entry_gain = entry;
        entry_out = ground (arith, outs-new_track g.created, w.fresh g.created);
        user_out = ground (arith, outs-new_track (g.created + 1), w.fresh (g.created + 1));
        user_value = subst IsUnit (sym user) (refl, refl, refl);
      }

  new_track-IsWired : get slug g.tracks ≡ none → IsWired g → IsWired (new_track slug g).0
  new_track-IsWired new w =
      let room : 7 ≤ g.created = AreWired-le (outs g.edges) g.gain 7 g.tracks g.created w.wired in
      let old = new_track_old in
      record {
        source_out = (old source (omega arith)).0 ∙ w.source_out;
        broadcast_out = (old broadcast_gain (omega arith)).0 ∙ w.broadcast_out;
        sum_out = (old cancellation_sum (omega arith)).0 ∙ w.sum_out;
        delay_out = (old shared_delay (omega arith)).0 ∙ w.delay_out;
        inverter_out = (old inverter (omega arith)).0 ∙ w.inverter_out;
        master_out = (old master (omega arith)).0 ∙ w.master_out;
        sum_gain = (old cancellation_sum (omega arith)).1 ∙ w.sum_gain;
        inverter_gain = (old inverter (omega arith)).1 ∙ w.inverter_gain;
        master_gain = (old master (omega arith)).1 ∙ w.master_gain;
        broadcast_value = subst IsUnit (sym (old broadcast_gain (omega arith)).1) w.broadcast_value;
        fresh = λ n h. ground (arith, outs-new_track n, w.fresh n, new_track_state);
        wired =
            let (created, tracks, _, _) = new_track_state in
            rw (tracks, created)
              (AreWired-set (outs (new_track slug g).0.edges) (new_track slug g).0.gain 7 slug nodes
                g.tracks g.created new refl (nodes-IsWiredTrack w room)
                (AreWired-frame (outs g.edges) (outs (new_track slug g).0.edges) g.gain
                  (new_track slug g).0.gain 7 g.tracks g.created g.created (omega arith)
                  (λ n low high. old n high) w.wired));
      }

-- Adding a track, known or not, keeps the routing.
pub add_track-IsWired : (slug : Text) (g : Graph) → IsWired g → IsWired (add_track slug g).0
unfolding add_track
add_track-IsWired slug g w = elim (Option-cases (get slug g.tracks)) [
  | inl new ↦ rw (new, add_track) (new_track-IsWired slug g new w)
  | inr (t, known) ↦ rw (known, add_track) w
]
