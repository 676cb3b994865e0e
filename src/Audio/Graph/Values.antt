-- ===== src/Audio/Graph/Values.antt =====
-- The gain of a track's user node in extension/src/audio/graph.ts, after each operation.
use streammix.Common.{
  ℕ, ◌+◌, ◌≡◌, ◌≢◌, refl, sym, ap, ◌∙◌, false, List, [], ◌∷◌, Option, none, some, some-eq,
  some-ne-none, if◌then◌else◌, ◌==◌, arith, Bool-cases, Option-cases, inl, inr,
}
use streammix.Common.Assoc.{get, get-set, get-delete}
use streammix.Common.Number.{Number}
use streammix.Common.Text.{Text, text_eq, text_eq_iff, text_eq→eq}
use streammix.Audio.Graph.{
  TrackNodes, Graph, new_track, add_track, remove_track, set_track_gain, set_broadcast_gain,
  clamp01,
}
use streammix.Audio.Graph.Wiring.{outs, AreWired, IsWired}
use streammix.Audio.Graph.Changes.{AreWired-get}

abbrev pub value_of : (ℕ → Number) → Option TrackNodes → Option Number
value_of gain none = none
value_of gain (some t) = some (gain t.user_gain)

-- The gain that the user's node of a slug has.
unfoldable pub user_value : Graph → Text → Option Number
user_value g s = value_of g.gain (get s g.tracks)

-- Two slugs have two nodes.
user_gain-injective :
    (out : ℕ → List ℕ) (gain : ℕ → Number) (k s : Text) (t u : TrackNodes) (lo : ℕ)
    (ts : List (Text × TrackNodes)) (hi : ℕ)
    → AreWired out gain lo ts hi
    → get k ts ≡ some t
    → get s ts ≡ some u
    → text_eq k s ≡ false
    → t.user_gain ≢ u.user_gain
unfolding get
user_gain-injective out gain k s t u lo [] hi w a b other e = cc
user_gain-injective out gain k s t u lo ((j, x) ∷ ts) hi (low, high, wx, r) a b other e =
    elim (Bool-cases (text_eq j k)) [
      | inl at_k ↦
          let first : x ≡ t = some-eq (rw (at_k, get) at a) in
          let not_s : text_eq j s ≡ false = ground (arith, text_eq_iff j k) in
          let known : get s ts ≡ some u = rw (not_s, get) at b in
          let (behind, _, wu) = AreWired-get out gain (x.entry + 2) s u ts hi known r in
          let own : x.user_gain ≡ t.user_gain = ap (λ (n : TrackNodes). n.user_gain) first in
          omega (arith, wx.user, wu.user)
      | inr not_k ↦
          let known : get k ts ≡ some t = rw (not_k, get) at a in
          let (behind, _, wt) = AreWired-get out gain (x.entry + 2) k t ts hi known r in
          elim (Bool-cases (text_eq j s)) [
            | inl at_s ↦
                let first : x ≡ u = some-eq (rw (at_s, get) at b) in
                let own : x.user_gain ≡ u.user_gain = ap (λ (n : TrackNodes). n.user_gain) first in
                omega (arith, wx.user, wt.user)
            | inr not_s ↦
                user_gain-injective out gain k s t u (x.entry + 2) ts hi r known
                  (rw (not_s, get) at b) other e
          ]
    ]

pub user_value-set_track_gain :
    (k s : Text) (v : Number) (g : Graph) {x : Number}
    → IsWired g
    → user_value (set_track_gain k v g) s ≡ some x
    → (if text_eq k s then some (clamp01 v) else user_value g s) ≡ some x
unfolding user_value set_track_gain
user_value-set_track_gain k s v g w h = elim (Option-cases (get k g.tracks)) [
  | inl unknown ↦
      let same : user_value (set_track_gain k v g) s ≡ user_value g s =
        rw (unknown, set_track_gain) refl in
      ground (arith, same, text_eq_iff k s)
  | inr (t, known) ↦ elim (Option-cases (get s g.tracks)) [
    | inl unknown ↦
        let same : user_value (set_track_gain k v g) s ≡ none =
          rw (known, set_track_gain, unknown) refl in
        absurd (some-ne-none (sym h ∙ same))
    | inr (u, found) ↦
        let now : user_value (set_track_gain k v g) s
            ≡ some (if t.user_gain == u.user_gain then clamp01 v else g.gain u.user_gain) =
          rw (known, set_track_gain, found) refl in
        elim (Bool-cases (text_eq k s)) [
          | inl same ↦
              let node : t ≡ u =
                some-eq (sym known ∙ ap (λ j. get j g.tracks) (text_eq→eq k s same) ∙ found) in
              rw same (ground (arith, ap (λ (n : TrackNodes). n.user_gain) node))
          | inr other ↦ ground (
            arith,
            user_gain-injective (outs g.edges) g.gain k s t u 7 g.tracks g.created w.wired known
                found other,
          )
        ]
  ]
]

pub user_value-set_track_gain_other :
    (k s : Text) (v : Number) (g : Graph)
    → IsWired g
    → text_eq k s ≡ false
    → user_value (set_track_gain k v g) s ≡ user_value g s
unfolding user_value set_track_gain
user_value-set_track_gain_other k s v g w other = elim (Option-cases (get k g.tracks)) [
  | inl unknown ↦ rw (unknown, set_track_gain) refl
  | inr (t, known) ↦ elim (Option-cases (get s g.tracks)) [
    | inl unknown ↦ rw (known, set_track_gain, unknown) refl
    | inr (u, found) ↦
        rw (known, set_track_gain, found)
          (ground (
            arith,
            user_gain-injective (outs g.edges) g.gain k s t u 7 g.tracks g.created w.wired known
                found other,
          ))
  ]
]

pub user_value-add_track :
    (k s : Text) (g : Graph)
    → IsWired g
    → text_eq k s ≡ false
    → user_value (add_track k g).0 s ≡ user_value g s
unfolding user_value add_track
user_value-add_track k s g w other = elim (Option-cases (get k g.tracks)) [
  | inr (t, known) ↦ rw (known, add_track) refl
  | inl new ↦
      let nodes : TrackNodes = record { entry = g.created; user_gain = g.created + 1 } in
      let found : get s (new_track k g).0.tracks ≡ get s g.tracks =
        unfold new_track in get-set k s nodes g.tracks ∙ rw other refl in
      rw (new, add_track, found)
        (elim (Option-cases (get s g.tracks)) [
          | inl unknown ↦ rw unknown refl
          | inr (u, known) ↦
              let (_, high, wu) =
                AreWired-get (outs g.edges) g.gain 7 s u g.tracks g.created known w.wired in
              rw known (ap some (unfold new_track in ground (arith, wu.user, high)))
        ])
]

pub user_value-remove_track :
    (k s : Text) (g : Graph)
    → user_value (remove_track k g) s ≡ (if text_eq k s then none else user_value g s)
unfolding user_value remove_track
user_value-remove_track k s g = elim (Option-cases (get k g.tracks)) [
  | inl unknown ↦ rw (unknown, remove_track) (ground (arith, text_eq_iff k s))
  | inr (t, known) ↦ rw (known, remove_track, get-delete k s g.tracks) (ground arith)
]

pub user_value-set_broadcast_gain :
    (s : Text) (v : Number) (g : Graph)
    → IsWired g
    → user_value (set_broadcast_gain v g) s ≡ user_value g s
unfolding user_value set_broadcast_gain
user_value-set_broadcast_gain s v g w = elim (Option-cases (get s g.tracks)) [
  | inl unknown ↦ rw unknown refl
  | inr (u, known) ↦
      let (low, _, wu) =
        AreWired-get (outs g.edges) g.gain 7 s u g.tracks g.created known w.wired in
      rw known (ap some (ground (arith, wu.user, low)))
]
