-- ===== src/Audio/Graph/Silence.antt =====
-- Which nodes of extension/src/audio/graph.ts feed nothing: all those of tracks that are gone.
use streammix.Common.{
  ℕ, ◌+◌, ◌≤◌, ◌≡◌, ◌≢◌, sym, ap, ◌∙◌, List, [], none, some, some-eq, some-ne-none, ◌==◌, arith,
  Bool-cases, Option-cases, inl, inr,
}
use streammix.Common.Assoc.{get, delete, get-set, get-delete}
use streammix.Common.Text.{Text, text_eq, text_eq→eq, text_eq_refl}
use streammix.Audio.Graph.{
  TrackNodes, Graph, build_graph, new_track, add_track, remove_track, set_track_gain, disconnect,
  without_source,
}
use streammix.Common.Number.{Number}
use streammix.Audio.Graph.Wiring.{outs, outs-without_source}
use streammix.Audio.Graph.Changes.{outs-new_track}

-- No track of the graph has the node.
abbrev pub IsUnowned : List (Text × TrackNodes) → ℕ → Type 0
IsUnowned ts n = (s : Text) (t : TrackNodes) → get s ts ≡ some t → (n ≢ t.entry) × (n ≢ t.user_gain)

-- Behind the nodes of `buildGraph`, only nodes of tracks feed others.
abbrev pub IsSilent : Graph → Type 0
IsSilent g = (n : ℕ) → 7 ≤ n → IsUnowned g.tracks n → outs g.edges n ≡ []

pub IsSilent-build_graph : IsSilent build_graph
unfolding build_graph
IsSilent-build_graph n h u = ground arith

IsUnowned-delete :
    (slug : Text) (ts : List (Text × TrackNodes)) (t : TrackNodes) (n : ℕ)
    → get slug ts ≡ some t
    → n ≢ t.entry
    → n ≢ t.user_gain
    → IsUnowned (delete slug ts) n
    → IsUnowned ts n
IsUnowned-delete slug ts t n known a b u s v e = elim (Bool-cases (text_eq slug s)) [
  | inl same ↦
      let v_is : v ≡ t =
        some-eq (sym e ∙ ap (λ k. get k ts) (sym (text_eq→eq slug s same)) ∙ known) in
      rw v_is (a, b)
  | inr other ↦ u s v (get-delete slug s ts ∙ rw other e)
]

-- The nodes of the removed track are among those that feed nothing now.
outs_gone :
    (slug : Text) (g : Graph) (t : TrackNodes)
    → get slug g.tracks ≡ some t
    → IsSilent g
    → (n : ℕ) → 7 ≤ n
    → IsUnowned (delete slug g.tracks) n
    → outs (without_source t.user_gain (without_source t.entry g.edges)) n ≡ []
outs_gone slug g t known quiet n h u =
    let second = outs-without_source (without_source t.entry g.edges) t.user_gain n in
    let first = outs-without_source g.edges t.entry n in
    elim (Bool-cases (n == t.entry)) [
      | inl own ↦ ground (arith, second, first)
      | inr a ↦ elim (Bool-cases (n == t.user_gain)) [
        | inl own ↦ ground (arith, second)
        | inr b ↦ ground (
          arith,
          second,
          first,
          quiet n h (IsUnowned-delete slug g.tracks t n known (ground arith) (ground arith) u),
        )
      ]
    ]

pub IsSilent-remove_track : (slug : Text) (g : Graph) → IsSilent g → IsSilent (remove_track slug g)
unfolding remove_track disconnect
IsSilent-remove_track slug g quiet = elim (Option-cases (get slug g.tracks)) [
  | inl new ↦ rw (new, remove_track) quiet
  | inr (t, known) ↦ rw (known, remove_track) (outs_gone slug g t known quiet)
]

IsSilent-new_track :
    (slug : Text) (g : Graph)
    → get slug g.tracks ≡ none
    → IsSilent g
    → IsSilent (new_track slug g).0
unfolding new_track
IsSilent-new_track slug g new quiet n h u =
    let nodes : TrackNodes = record { entry = g.created; user_gain = g.created + 1 } in
    let (a, b) =
      u slug nodes (ground (arith, get-set slug slug nodes g.tracks, text_eq_refl slug)) in
    let before : IsUnowned g.tracks n = λ s t e. elim (Bool-cases (text_eq slug s)) [
      | inl same ↦
          absurd
            (some-ne-none (sym e ∙ ap (λ k. get k g.tracks) (sym (text_eq→eq slug s same)) ∙ new))
      | inr other ↦ u s t (get-set slug s nodes g.tracks ∙ rw other e)
    ] in
    ground (arith, outs-new_track slug g n, quiet n h before)

pub IsSilent-add_track : (slug : Text) (g : Graph) → IsSilent g → IsSilent (add_track slug g).0
unfolding add_track
IsSilent-add_track slug g quiet = elim (Option-cases (get slug g.tracks)) [
  | inl new ↦ rw (new, add_track) (IsSilent-new_track slug g new quiet)
  | inr (t, known) ↦ rw (known, add_track) quiet
]

pub IsSilent-set_track_gain :
    (slug : Text) (v : Number) (g : Graph) → IsSilent g → IsSilent (set_track_gain slug v g)
unfolding set_track_gain
IsSilent-set_track_gain slug v g quiet = elim (Option-cases (get slug g.tracks)) [
  | inl new ↦ rw (new, set_track_gain) quiet
  | inr (t, known) ↦ rw (known, set_track_gain) quiet
]
