-- ===== src/Audio/Graph.antt =====
-- extension/src/audio/graph.ts: the Web Audio routing graph. A node is the number of its creation; a
-- graph keeps the gain of every node and the connections in the order in which they were made.
pub mod Wiring
pub mod Changes
pub mod Removal
pub mod Gains
pub mod Routing
pub mod Entries
pub mod Silence
pub mod Values
use streammix.Common.{
  ℕ, ◌+◌, ◌*◌, ◌^◌, Bool, true, false, not, List, [], ◌∷◌, ◌++◌, Option, none, some, ◌==◌,
  if◌then◌else◌,
}
use streammix.Common.Assoc.{get, set, delete}
use streammix.Common.Int.{pos, negsuc}
use streammix.Common.Number.{Number, num, num_lt, is_finite, finite}
use streammix.Common.Text.{Text}

pub record TrackNodes : Type 0 where
  pub entry : ℕ
  pub user_gain : ℕ

pub record Graph : Type 0 where
  -- The number of the next node of the context.
  pub created : ℕ
  pub gain : ℕ → Number
  pub edges : List (ℕ × ℕ)
  pub delay_time : Number
  pub offset_ms : Number
  pub tracks : List (Text × TrackNodes)
  pub closed : Bool

-- The nodes of `buildGraph`, in the order of their creation; `destination` is the context's own.
abbrev pub destination : ℕ
destination = 0

abbrev pub source : ℕ
source = 1

abbrev pub broadcast_gain : ℕ
broadcast_gain = 2

abbrev pub cancellation_sum : ℕ
cancellation_sum = 3

abbrev pub shared_delay : ℕ
shared_delay = 4

abbrev pub inverter : ℕ
inverter = 5

abbrev pub master : ℕ
master = 6

abbrev pub max_offset_seconds : ℕ
max_offset_seconds = 30

abbrev pub max_offset_ms : ℕ
max_offset_ms = max_offset_seconds * 1000

-- 0.5, as 2 ^ 1073 times 2 ^ -1074.
abbrev pub half : Number
half = finite (pos 0) (2 ^ 1073)

abbrev pub minus_one : Number
minus_one = finite (negsuc 0) 0

abbrev pub update : (ℕ → Number) → ℕ → Number → ℕ → Number
update f n v m = if n == m then v else f m

-- `n.gain.value = v`
unfoldable pub set_gain : ℕ → Number → Graph → Graph
set_gain n v g = record g { gain = update g.gain n v }

-- `ctx.createGain()`: a new node of gain 1.
unfoldable pub create_gain : Graph → Graph × ℕ
create_gain g =
    (record g { created = g.created + 1; gain = update g.gain g.created (num 1) }, g.created)

-- `a.connect(b)`, of two nodes that are not connected.
unfoldable pub connect : ℕ → ℕ → Graph → Graph
connect a b g = record g { edges = g.edges ++ ((a, b) ∷ []) }

abbrev pub without_source : ℕ → List (ℕ × ℕ) → List (ℕ × ℕ)
without_source n [] = []
without_source n ((a, b) ∷ es) =
    let rest = without_source n es in if a == n then rest else (a, b) ∷ rest

-- `n.disconnect()`
unfoldable pub disconnect : ℕ → Graph → Graph
disconnect n g = record g { edges = without_source n g.edges }

unfoldable pub build_graph : Graph
build_graph = record {
  created = 7;
  gain = λ n. if n == inverter then minus_one else num 1;
  edges =
      (source, broadcast_gain)
      ∷ (broadcast_gain, master)
      ∷ (cancellation_sum, shared_delay)
      ∷ (shared_delay, inverter)
      ∷ (inverter, master)
      ∷ (master, destination)
      ∷ [];
  delay_time = num 0;
  offset_ms = num 0;
  tracks = [];
  closed = false;
}

-- `addTrack` for a slug that is not known.
unfoldable pub new_track : Text → Graph → Graph × ℕ
unfolding set_gain create_gain connect
new_track slug g =
    let (g, entry) = create_gain g in
    let g = set_gain entry (num 1) g in
    let (g, user_gain) = create_gain g in
    let g = set_gain user_gain half g in
    let g = connect entry user_gain g in
    let g = connect user_gain master g in
    let g = connect entry cancellation_sum g in
    (
      record g { tracks = set slug (record { entry = entry; user_gain = user_gain }) g.tracks },
      entry,
    )

unfoldable pub add_track : Text → Graph → Graph × ℕ
add_track slug g = elim (get slug g.tracks) [
  | some existing ↦ (g, existing.entry)
  | none ↦ new_track slug g
]

unfoldable pub remove_track : Text → Graph → Graph
unfolding disconnect
remove_track slug g = elim (get slug g.tracks) [
  | none ↦ g
  | some t ↦
      let g = disconnect t.entry g in
      let g = disconnect t.user_gain g in record g { tracks = delete slug g.tracks }
]

unfoldable pub entry_node_for : Graph → Text → Option ℕ
entry_node_for g slug = elim (get slug g.tracks) [ some t ↦ some t.entry | none ↦ none ]

unfoldable pub clamp01 : Number → Number
clamp01 v =
    if not (is_finite v)
    then num 0
    else if num_lt v (num 0)
    then num 0
    else if num_lt (num 1) v
    then num 1
    else v

unfoldable pub set_track_gain : Text → Number → Graph → Graph
unfolding set_gain
set_track_gain slug value g = elim (get slug g.tracks) [
  | none ↦ g
  | some t ↦ set_gain t.user_gain (clamp01 value) g
]

unfoldable pub set_broadcast_gain : Number → Graph → Graph
unfolding set_gain
set_broadcast_gain value g = set_gain broadcast_gain (clamp01 value) g

-- `Math.max(0, Math.min(MAX_OFFSET_MS, ms))` of a finite `ms`.
abbrev pub clamp_offset : Number → Number
clamp_offset ms =
    let low = if num_lt ms (num max_offset_ms) then ms else num max_offset_ms in
    if num_lt low (num 0) then num 0 else low

-- `thousandth x` is the double `x / 1000`.
unfoldable pub set_offset_ms : (Number → Number) → Number → Graph → Graph
set_offset_ms thousandth ms g =
    let clamped = if is_finite ms then clamp_offset ms else num 0 in
    record g { offset_ms = clamped; delay_time = thousandth clamped }

unfoldable pub destroy : Graph → Graph
unfolding disconnect
destroy g = record (disconnect source g) { closed = true }
