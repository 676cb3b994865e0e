-- ===== src/Audio/Graph/Routing.antt =====
-- The routing of extension/src/audio/graph.ts after any run of its operations, and its shared delay.
use streammix.Common.{◌≡◌, refl, true, false, List, [], ◌∷◌, arith}
use streammix.Common.Int.{pos, negsuc}
use streammix.Common.Number.{Number, num, num_lt, is_finite, finite, nan, pos_inf, neg_inf}
use streammix.Common.Text.{Text}
use streammix.Audio.Graph.{
  Graph, broadcast_gain, build_graph, add_track, remove_track, set_track_gain, set_broadcast_gain,
  set_offset_ms, clamp_offset, max_offset_ms, update, clamp01,
}
use streammix.Audio.Graph.Wiring.{
  outs, IsWired, AreWired-frame, IsWired-build_graph, clamp01_bounds,
}
use streammix.Audio.Graph.Silence.{
  IsSilent, IsSilent-build_graph, IsSilent-add_track, IsSilent-remove_track,
  IsSilent-set_track_gain,
}
use streammix.Audio.Graph.Changes.{add_track-IsWired}
use streammix.Audio.Graph.Removal.{remove_track-IsWired}
use streammix.Audio.Graph.Gains.{set_track_gain-IsWired}

-- A call on the graph, `destroy` and the reading `entryNodeFor` aside.
pub data Operation : Type 0 where
  adds removes : Text → Operation
  sets_track_gain : Text → Number → Operation
  sets_broadcast_gain sets_offset_ms : Number → Operation

unfoldable pub perform : (Number → Number) → Operation → Graph → Graph
perform thousandth (adds slug) g = (add_track slug g).0
perform thousandth (removes slug) g = remove_track slug g
perform thousandth (sets_track_gain slug v) g = set_track_gain slug v g
perform thousandth (sets_broadcast_gain v) g = set_broadcast_gain v g
perform thousandth (sets_offset_ms ms) g = set_offset_ms thousandth ms g

-- The calls from the first to the last.
unfoldable pub perform_all : (Number → Number) → List Operation → Graph → Graph
perform_all thousandth [] g = g
perform_all thousandth (op ∷ ops) g = perform_all thousandth ops (perform thousandth op g)

pub set_broadcast_gain-IsWired :
    (value : Number) (g : Graph) → IsWired g → IsWired (set_broadcast_gain value g)
unfolding set_broadcast_gain
set_broadcast_gain-IsWired value g w = record {
  source_out = w.source_out;
  broadcast_out = w.broadcast_out;
  sum_out = w.sum_out;
  delay_out = w.delay_out;
  inverter_out = w.inverter_out;
  master_out = w.master_out;
  sum_gain = w.sum_gain;
  inverter_gain = w.inverter_gain;
  master_gain = w.master_gain;
  broadcast_value = (clamp01_bounds value).0;
  fresh = w.fresh;
  wired =
      AreWired-frame (outs g.edges) (outs g.edges) g.gain
        (update g.gain broadcast_gain (clamp01 value)) 7 g.tracks g.created g.created (omega arith)
        (λ n a b. (refl, ground arith)) w.wired;
}

pub set_offset_ms-IsWired :
    (thousandth : Number → Number) (ms : Number) (g : Graph)
    → IsWired g
    → IsWired (set_offset_ms thousandth ms g)
unfolding set_offset_ms
set_offset_ms-IsWired thousandth ms g w = record {
  source_out = w.source_out;
  broadcast_out = w.broadcast_out;
  sum_out = w.sum_out;
  delay_out = w.delay_out;
  inverter_out = w.inverter_out;
  master_out = w.master_out;
  sum_gain = w.sum_gain;
  inverter_gain = w.inverter_gain;
  master_gain = w.master_gain;
  broadcast_value = w.broadcast_value;
  fresh = w.fresh;
  wired = w.wired;
}

module _ (thousandth : Number → Number) where
  perform-IsWired : (op : Operation) (g : Graph) → IsWired g → IsWired (perform thousandth op g)
  unfolding perform
  perform-IsWired (adds slug) g w = add_track-IsWired slug g w
  perform-IsWired (removes slug) g w = remove_track-IsWired slug g w
  perform-IsWired (sets_track_gain slug v) g w = set_track_gain-IsWired slug v g w
  perform-IsWired (sets_broadcast_gain v) g w = set_broadcast_gain-IsWired v g w
  perform-IsWired (sets_offset_ms ms) g w = set_offset_ms-IsWired thousandth ms g w

  perform_all-IsWired :
      (ops : List Operation) (g : Graph) → IsWired g → IsWired (perform_all thousandth ops g)
  unfolding perform_all
  perform_all-IsWired [] g w = w
  perform_all-IsWired (op ∷ ops) g w =
      perform_all-IsWired ops (perform thousandth op g) (perform-IsWired op g w)

  perform-IsSilent : (op : Operation) (g : Graph) → IsSilent g → IsSilent (perform thousandth op g)
  unfolding perform set_broadcast_gain set_offset_ms
  perform-IsSilent (adds slug) g quiet = IsSilent-add_track slug g quiet
  perform-IsSilent (removes slug) g quiet = IsSilent-remove_track slug g quiet
  perform-IsSilent (sets_track_gain slug v) g quiet = IsSilent-set_track_gain slug v g quiet
  perform-IsSilent (sets_broadcast_gain v) g quiet = quiet
  perform-IsSilent (sets_offset_ms ms) g quiet = quiet

  perform_all-IsSilent :
      (ops : List Operation) (g : Graph) → IsSilent g → IsSilent (perform_all thousandth ops g)
  unfolding perform_all
  perform_all-IsSilent [] g quiet = quiet
  perform_all-IsSilent (op ∷ ops) g quiet =
      perform_all-IsSilent ops (perform thousandth op g) (perform-IsSilent op g quiet)

  -- After any calls on a new graph the routing stands: the stream goes through the broadcast gain to the
  -- master, every track's entry feeds its user's gain and, with gain 1 and before that gain, the sum
  -- that is delayed, inverted and added to the master, and every user's gain is from 0 to 1. The nodes
  -- of tracks that were removed feed nothing.
  pub perform_all-build_graph :
      (ops : List Operation)
      → IsWired (perform_all thousandth ops build_graph)
        × IsSilent (perform_all thousandth ops build_graph)
  perform_all-build_graph ops = (
    perform_all-IsWired ops build_graph IsWired-build_graph,
    perform_all-IsSilent ops build_graph IsSilent-build_graph,
  )

-- An offset that the shared delay can hold.
abbrev pub IsOffset : Number → Type 0
IsOffset x =
    (is_finite x ≡ true) × (num_lt x (num 0) ≡ false) × (num_lt (num max_offset_ms) x ≡ false)

clamp_offset_bounds : (ms : Number) → is_finite ms ≡ true → IsOffset (clamp_offset ms)
clamp_offset_bounds nan h = cc
clamp_offset_bounds pos_inf h = cc
clamp_offset_bounds neg_inf h = cc
clamp_offset_bounds (finite (pos n) f) h = ground arith
clamp_offset_bounds (finite (negsuc n) f) h = ground arith

clamp_offset_id : (ms : Number) → IsOffset ms → clamp_offset ms ≡ ms
clamp_offset_id nan h = cc
clamp_offset_id pos_inf h = cc
clamp_offset_id neg_inf h = cc
clamp_offset_id (finite (pos n) f) h = ground arith
clamp_offset_id (finite (negsuc n) f) h = cc

-- The shared delay is set to a thousandth of an offset from 0 to 30000 ms, whatever number is given: an
-- offset in that range is taken as it is, and one that is not finite as 0. Nothing else changes.
pub set_offset_ms_bounds :
    (thousandth : Number → Number) (ms : Number) (g : Graph)
    → IsOffset (set_offset_ms thousandth ms g).offset_ms
      × (IsOffset ms → (set_offset_ms thousandth ms g).offset_ms ≡ ms)
      × (is_finite ms ≡ false → (set_offset_ms thousandth ms g).offset_ms ≡ num 0)
      × (set_offset_ms thousandth ms g ≡ record g {
        offset_ms = (set_offset_ms thousandth ms g).offset_ms;
        delay_time = thousandth (set_offset_ms thousandth ms g).offset_ms;
      })
unfolding set_offset_ms
set_offset_ms_bounds thousandth nan g = ((refl, refl, refl), (λ h. cc), (λ h. refl), refl)
set_offset_ms_bounds thousandth pos_inf g = ((refl, refl, refl), (λ h. cc), (λ h. refl), refl)
set_offset_ms_bounds thousandth neg_inf g = ((refl, refl, refl), (λ h. cc), (λ h. refl), refl)
set_offset_ms_bounds thousandth (finite i f) g =
    (clamp_offset_bounds (finite i f) refl, clamp_offset_id (finite i f), (λ h. cc), refl)
