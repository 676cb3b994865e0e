-- ===== src/Audio/Graph/Entries.antt =====
-- Which entry node extension/src/audio/graph.ts gives for a slug after each operation.
use streammix.Common.{
  ℕ, ◌+◌, ◌≡◌, refl, Option, none, some, if◌then◌else◌, arith, Option-cases, inl, inr,
}
use streammix.Common.Assoc.{get, get-set, get-delete}
use streammix.Common.Number.{Number}
use streammix.Common.Text.{Text, text_eq, text_eq_iff}
use streammix.Audio.Graph.{
  TrackNodes, Graph, new_track, add_track, remove_track, set_track_gain, entry_node_for,
}

abbrev entry_of : Option TrackNodes → Option ℕ
entry_of (some t) = some t.entry
entry_of none = none

entry_node_for_lem :
    (g : Graph) (slug : Text) → entry_node_for g slug ≡ entry_of (get slug g.tracks)
unfolding entry_node_for
entry_node_for_lem g slug = ground arith

pub entry_node_for-add_track :
    (k s : Text) (g : Graph)
    → entry_node_for (add_track k g).0 s
      ≡ (if text_eq k s then some (add_track k g).1 else entry_node_for g s)
unfolding add_track entry_node_for
entry_node_for-add_track k s g = elim (Option-cases (get k g.tracks)) [
  | inl new ↦
      rw (new, add_track)
        (unfold new_track in
          ground (
            arith,
            entry_node_for_lem g s,
            entry_node_for_lem (new_track k g).0 s,
            get-set k s (record { entry = g.created; user_gain = g.created + 1 }) g.tracks,
          ))
  | inr (t, known) ↦ rw (known, add_track) (ground (arith, text_eq_iff k s, entry_node_for_lem g s))
]

pub entry_node_for-remove_track :
    (k s : Text) (g : Graph)
    → entry_node_for (remove_track k g) s ≡ (if text_eq k s then none else entry_node_for g s)
unfolding remove_track entry_node_for
entry_node_for-remove_track k s g = elim (Option-cases (get k g.tracks)) [
  | inl new ↦ rw (new, remove_track) (ground (arith, text_eq_iff k s, entry_node_for_lem g s))
  | inr (t, known) ↦
      unfold remove_track in
      ground (
        arith,
        entry_node_for_lem g s,
        entry_node_for_lem (remove_track k g) s,
        get-delete k s g.tracks,
      )
]

pub entry_node_for-set_track_gain :
    (k s : Text) (v : Number) (g : Graph)
    → entry_node_for (set_track_gain k v g) s ≡ entry_node_for g s
unfolding set_track_gain entry_node_for
entry_node_for-set_track_gain k s v g = elim (Option-cases (get k g.tracks)) [
  | inl new ↦ rw (new, set_track_gain) refl
  | inr (t, known) ↦ rw (known, set_track_gain) (unfold entry_node_for in refl)
]
