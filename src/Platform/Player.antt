-- ===== src/Platform/Player.antt =====
-- extension/src/platform/player.ts. The document is the browser's: an observation is what its
-- `querySelector` finds for each selector at some time, `Node` its elements.
pub mod Settling
use streammix.Common.{ℕ, ◌+◌, Bool, List, [], ◌∷◌, Option, none, some, String, ltb, if◌then◌else◌}
use streammix.Platform.{Platform, twitch, kick}

pub record Selectors : Type 0 where
  pub video : String
  pub control_bar : String

abbrev pub twitch_selectors : Selectors
twitch_selectors = record {
  video = "video[playsinline]";
  control_bar = "[data-a-target='player-controls']";
}

abbrev pub kick_selectors : Selectors
kick_selectors = record { video = "video"; control_bar = ".vjs-control-bar" }

abbrev pub selectors : Platform → Selectors
selectors twitch = twitch_selectors
selectors kick = kick_selectors

pub record PlayerHooks (Node : Type 0) : Type 0 where
  pub video : Node
  pub control_bar : Node

-- The promise of `waitForPlayer`: still pending, with an observer since `start`, or resolved. Behind
-- `obs.disconnect()` the observer is not called any more.
pub data Waiting (Node : Type 0) : Type 0 where
  observing : ℕ → Waiting Node
  resolved : Option (PlayerHooks Node) → Waiting Node

-- A call of the observer: what the document has, and what `Date.now()` says.
pub record Observation (Node : Type 0) : Type 0 where
  pub query : String → Option Node
  pub now : ℕ

module _ {Node : Type 0} where
  -- `!video || !controlBar`
  abbrev pub both : Option Node → Option Node → Option (PlayerHooks Node)
  both (some video) (some control_bar) = some (record { video = video; control_bar = control_bar })
  both _ _ = none

  unfoldable pub find_player : (String → Option Node) → Platform → Option (PlayerHooks Node)
  find_player query platform =
      let sel = selectors platform in both (query sel.video) (query sel.control_bar)

  unfoldable pub wait_for_player : Platform → Observation Node → Waiting Node
  wait_for_player platform o = elim (find_player o.query platform) [
    | some hooks ↦ resolved (some hooks)
    | none ↦ observing o.now
  ]

  -- `Date.now() - start > timeoutMs`
  abbrev pub is_late : ℕ → ℕ → Observation Node → Bool
  is_late timeout_ms start o = ltb (start + timeout_ms) o.now

  unfoldable pub on_mutation : Platform → ℕ → Observation Node → Waiting Node → Waiting Node
  on_mutation platform timeout_ms o (resolved result) = resolved result
  on_mutation platform timeout_ms o (observing start) = elim (find_player o.query platform) [
    | some hooks ↦ resolved (some hooks)
    | none ↦ if is_late timeout_ms start o then resolved none else observing start
  ]

  unfoldable pub on_mutations : Platform → ℕ → List (Observation Node) → Waiting Node → Waiting Node
  on_mutations platform timeout_ms [] w = w
  on_mutations platform timeout_ms (o ∷ os) w =
      on_mutations platform timeout_ms os (on_mutation platform timeout_ms o w)
