-- ===== src/Audio/Graph/Wiring.antt =====
-- The routing of extension/src/audio/graph.ts: which node feeds which, whatever tracks come and go.
use streammix.Common.{
  ℕ, ◌+◌, ◌≤◌, ◌<◌, ◌≡◌, refl, sym, ◌∙◌, subst, true, false, List, [], ◌∷◌, ◌++◌, ◌==◌,
  if◌then◌else◌, arith,
}
use streammix.Common.Int.{pos, negsuc}
use streammix.Common.Number.{Number, num, num_lt, is_finite, finite, nan, pos_inf, neg_inf}
use streammix.Common.Text.{Text}
use streammix.Audio.Graph.{
  TrackNodes, Graph, source, destination, broadcast_gain, cancellation_sum, shared_delay, inverter,
  master, minus_one, without_source, build_graph, clamp01,
}

-- The nodes that `n` feeds, in the order of connection.
abbrev pub outs : List (ℕ × ℕ) → ℕ → List ℕ
outs [] n = []
outs ((a, b) ∷ es) n = if a == n then b ∷ outs es n else outs es n

pub outs-append :
    (es : List (ℕ × ℕ)) (a b n : ℕ)
    → outs (es ++ ((a, b) ∷ [])) n ≡ (if a == n then outs es n ++ (b ∷ []) else outs es n)
outs-append [] a b n = ground arith
outs-append ((c, d) ∷ es) a b n = ground (arith, outs-append es a b n)

pub outs-without_source :
    (es : List (ℕ × ℕ)) (a n : ℕ)
    → outs (without_source a es) n ≡ (if a == n then [] else outs es n)
outs-without_source [] a n = ground arith
outs-without_source ((c, d) ∷ es) a n = ground (arith, outs-without_source es a n)

-- A gain from 0 to 1.
abbrev pub IsUnit : Number → Type 0
IsUnit x = (is_finite x ≡ true) × (num_lt x (num 0) ≡ false) × (num_lt (num 1) x ≡ false)

-- `clamp01` maps every number, NaN and the infinities too, into the range from 0 to 1, and leaves the
-- numbers in the range as they are.
pub clamp01_bounds : (v : Number) → IsUnit (clamp01 v) × (IsUnit v → clamp01 v ≡ v)
unfolding clamp01
clamp01_bounds nan = ground arith
clamp01_bounds pos_inf = ground arith
clamp01_bounds neg_inf = ground arith
clamp01_bounds (finite (pos n) f) = ground arith
clamp01_bounds (finite (negsuc n) f) = ground arith

-- What a track's two nodes feed: the user's gain, which feeds the master, and the sum that is
-- cancelled. The tap into the sum stands before the user's gain and has gain 1.
pub record IsWiredTrack (out : ℕ → List ℕ) (gain : ℕ → Number) (t : TrackNodes) : Type 0 where
  pub user : t.user_gain ≡ t.entry + 1
  pub entry_gain : gain t.entry ≡ num 1
  pub entry_out : out t.entry ≡ t.user_gain ∷ cancellation_sum ∷ []
  pub user_out : out t.user_gain ≡ master ∷ []
  pub user_value : IsUnit (gain t.user_gain)

-- The tracks' nodes lie from `lo` on and below `hi`, each track behind the one before.
abbrev pub AreWired : (ℕ → List ℕ) → (ℕ → Number) → ℕ → List (Text × TrackNodes) → ℕ → Type 0
AreWired out gain lo [] hi = lo ≤ hi
AreWired out gain lo ((slug, t) ∷ ts) hi =
    (lo ≤ t.entry)
    × (t.entry + 2 ≤ hi)
    × IsWiredTrack out gain t
    × AreWired out gain (t.entry + 2) ts hi

pub record IsWired (g : Graph) : Type 0 where
  pub source_out : outs g.edges source ≡ broadcast_gain ∷ []
  pub broadcast_out : outs g.edges broadcast_gain ≡ master ∷ []
  pub sum_out : outs g.edges cancellation_sum ≡ shared_delay ∷ []
  pub delay_out : outs g.edges shared_delay ≡ inverter ∷ []
  pub inverter_out : outs g.edges inverter ≡ master ∷ []
  pub master_out : outs g.edges master ≡ destination ∷ []
  pub sum_gain : g.gain cancellation_sum ≡ num 1
  pub inverter_gain : g.gain inverter ≡ minus_one
  pub master_gain : g.gain master ≡ num 1
  pub broadcast_value : IsUnit (g.gain broadcast_gain)
  pub fresh : (n : ℕ) → g.created ≤ n → outs g.edges n ≡ []
  pub wired : AreWired (outs g.edges) g.gain 7 g.tracks g.created

pub IsWired-build_graph : IsWired build_graph
unfolding build_graph
IsWired-build_graph = record {
  source_out = refl;
  broadcast_out = refl;
  sum_out = refl;
  delay_out = refl;
  inverter_out = refl;
  master_out = refl;
  sum_gain = refl;
  inverter_gain = refl;
  master_gain = refl;
  broadcast_value = (refl, refl, refl);
  fresh = λ n h. ground arith;
  wired = omega arith;
}

-- A change to other nodes leaves the tracks wired.
module _ (out out' : ℕ → List ℕ) (gain gain' : ℕ → Number) where
  pub AreWired-frame :
      (lo : ℕ) (ts : List (Text × TrackNodes)) (hi hi' : ℕ)
      → hi ≤ hi'
      → ((n : ℕ) → lo ≤ n → n < hi → (out' n ≡ out n) × (gain' n ≡ gain n))
      → AreWired out gain lo ts hi
      → AreWired out' gain' lo ts hi'
  AreWired-frame lo [] hi hi' up same h = omega arith
  AreWired-frame lo ((slug, t) ∷ ts) hi hi' up same (low, high, w, r) =
      let (out_entry, gain_entry) = same t.entry low (omega arith) in
      let (out_user, gain_user) =
        same t.user_gain (omega (arith, w.user)) (omega (arith, w.user)) in
      (
        low,
        omega arith,
        record {
          user = w.user;
          entry_gain = gain_entry ∙ w.entry_gain;
          entry_out = out_entry ∙ w.entry_out;
          user_out = out_user ∙ w.user_out;
          user_value = subst IsUnit (sym gain_user) w.user_value;
        },
        AreWired-frame (t.entry + 2) ts hi hi' up (λ n a b. same n (omega arith) b) r,
      )
