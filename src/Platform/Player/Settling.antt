-- ===== src/Platform/Player/Settling.antt =====
-- When and with what the promise of extension/src/platform/player.ts is resolved, said of the elements that the
-- document has and of the times of its changes.
use streammix.Common.{
  ℕ, ◌+◌, ◌≤◌, ◌<◌, ◌≡◌, ◌↔◌, ◌⊎◌, refl, subst, true, false, List, [], ◌∷◌, Option, none, some,
  String, arith, inl, inr, Bool-cases, Option-cases,
}
use streammix.Platform.{Platform, twitch, kick}
use streammix.Platform.Player.{
  PlayerHooks, Waiting, observing, resolved, Observation, find_player, wait_for_player, is_late,
  on_mutation, on_mutations,
}

-- The elements of a player: a Twitch player's are marked as such, Kick's are found by their tag and class.
abbrev pub video_name : Platform → String
video_name twitch = "video[playsinline]"
video_name kick = "video"

abbrev pub control_bar_name : Platform → String
control_bar_name twitch = "[data-a-target='player-controls']"
control_bar_name kick = ".vjs-control-bar"

module _ {Node : Type 0} (platform : Platform) where
  -- The document has both elements of the player.
  pub record HasPlayer (query : String → Option Node) (hooks : PlayerHooks Node) : Type 0 where
    pub video : query (video_name platform) ≡ some hooks.video
    pub control_bar : query (control_bar_name platform) ≡ some hooks.control_bar

  -- One of them is missing.
  abbrev pub HasNone : (String → Option Node) → Type 0
  HasNone query = (query (video_name platform) ≡ none) ⊎ (query (control_bar_name platform) ≡ none)

  -- What comes of the wait since `start` over the changes of the page: it goes on over changes without a player
  -- that come in time, is over with the first player, or with the first change that comes too late.
  pub data Outcome (start timeout_ms : ℕ) : List (Observation Node) → Waiting Node → Type 0 where
    pending : Outcome start timeout_ms [] (observing start)
    quiet :
        {o : Observation Node} {os : List (Observation Node)} {w : Waiting Node}
        → HasNone o.query
        → o.now ≤ start + timeout_ms
        → Outcome start timeout_ms os w
        → Outcome start timeout_ms (o ∷ os) w
    found :
        {o : Observation Node} {os : List (Observation Node)} {hooks : PlayerHooks Node}
        → HasPlayer o.query hooks
        → Outcome start timeout_ms (o ∷ os) (resolved (some hooks))
    late :
        {o : Observation Node} {os : List (Observation Node)}
        → HasNone o.query
        → start + timeout_ms < o.now
        → Outcome start timeout_ms (o ∷ os) (resolved none)

  -- The same from the call on, which may find the player itself.
  pub data Settles (timeout_ms : ℕ) (call : Observation Node) (os : List (Observation Node))
      : Waiting Node → Type 0 where
    at_once :
        {hooks : PlayerHooks Node}
        → HasPlayer call.query hooks
        → Settles timeout_ms call os (resolved (some hooks))
    later :
        {w : Waiting Node}
        → HasNone call.query
        → Outcome call.now timeout_ms os w
        → Settles timeout_ms call os w

module _ {Node : Type 0} where
  find_player-HasPlayer :
      (platform : Platform) (query : String → Option Node) (hooks : PlayerHooks Node)
      → find_player query platform ≡ some hooks
      → HasPlayer platform query hooks
  unfolding find_player
  find_player-HasPlayer twitch query hooks h = record {
    video = ground arith;
    control_bar = ground arith;
  }
  find_player-HasPlayer kick query hooks h = record {
    video = ground arith;
    control_bar = ground arith;
  }

  HasPlayer-find_player :
      (platform : Platform) (query : String → Option Node) (hooks : PlayerHooks Node)
      → HasPlayer platform query hooks
      → find_player query platform ≡ some hooks
  unfolding find_player
  HasPlayer-find_player twitch query hooks h = ground (arith, h.video, h.control_bar)
  HasPlayer-find_player kick query hooks h = ground (arith, h.video, h.control_bar)

  find_player-HasNone :
      (platform : Platform) (query : String → Option Node)
      → find_player query platform ≡ none
      → HasNone platform query
  unfolding find_player
  find_player-HasNone twitch query h = ground arith
  find_player-HasNone kick query h = ground arith

  HasNone-find_player :
      (platform : Platform) (query : String → Option Node)
      → HasNone platform query
      → find_player query platform ≡ none
  unfolding find_player
  HasNone-find_player twitch query h = ground arith
  HasNone-find_player kick query h = ground arith

module _ {Node : Type 0} (platform : Platform) (timeout_ms : ℕ) where
  on_mutations_resolved :
      (os : List (Observation Node)) (result : Option (PlayerHooks Node))
      → on_mutations platform timeout_ms os (resolved result) ≡ resolved result
  unfolding on_mutations on_mutation
  on_mutations_resolved [] result = refl
  on_mutations_resolved (o ∷ os) result = on_mutations_resolved os result

  on_mutations-Outcome :
      (os : List (Observation Node)) (start : ℕ)
      → Outcome platform start timeout_ms os (on_mutations platform timeout_ms os (observing start))
  unfolding on_mutations on_mutation
  on_mutations-Outcome [] start = pending
  on_mutations-Outcome (o ∷ os) start = elim (Option-cases (find_player o.query platform)) [
    | inr (hooks, e) ↦
        rw (e, on_mutations, on_mutation, on_mutations_resolved os (some hooks))
          (found (find_player-HasPlayer platform o.query hooks e))
    | inl e ↦ elim (Bool-cases (is_late timeout_ms start o)) [
      | inl too_late ↦
          rw (e, on_mutations, on_mutation, too_late, on_mutations_resolved os none)
            (late (find_player-HasNone platform o.query e) (ground arith))
      | inr early ↦
          rw (e, on_mutations, on_mutation, early)
            (quiet (find_player-HasNone platform o.query e) (ground arith)
              (on_mutations-Outcome os start))
    ]
  ]

  Outcome-on_mutations :
      (os : List (Observation Node)) (start : ℕ) {w : Waiting Node}
      → Outcome platform start timeout_ms os w
      → on_mutations platform timeout_ms os (observing start) ≡ w
  unfolding on_mutations on_mutation
  Outcome-on_mutations [] start pending = refl
  Outcome-on_mutations (o ∷ os) start (quiet missing early rest) =
      let in_time : is_late timeout_ms start o ≡ false = ground arith in
      rw (HasNone-find_player platform o.query missing, on_mutations, on_mutation, in_time)
        (Outcome-on_mutations os start rest)
  Outcome-on_mutations (o ∷ os) start (found {hooks} player) =
      rw (HasPlayer-find_player platform o.query hooks player, on_mutations, on_mutation)
        (on_mutations_resolved os (some hooks))
  Outcome-on_mutations (o ∷ os) start (late missing behind) =
      let too_late : is_late timeout_ms start o ≡ true = ground arith in
      rw (HasNone-find_player platform o.query missing, on_mutations, on_mutation, too_late)
        (on_mutations_resolved os none)

  wait_for_player-Settles :
      (call : Observation Node) (os : List (Observation Node))
      → Settles platform timeout_ms call os
          (on_mutations platform timeout_ms os (wait_for_player platform call))
  unfolding wait_for_player
  wait_for_player-Settles call os = elim (Option-cases (find_player call.query platform)) [
    | inr (hooks, e) ↦
        rw (e, wait_for_player, on_mutations_resolved os (some hooks))
          (at_once (find_player-HasPlayer platform call.query hooks e))
    | inl e ↦
        rw (e, wait_for_player)
          (later (find_player-HasNone platform call.query e) (on_mutations-Outcome os call.now))
  ]

  Settles-wait_for_player :
      (call : Observation Node) (os : List (Observation Node)) {w : Waiting Node}
      → Settles platform timeout_ms call os w
      → on_mutations platform timeout_ms os (wait_for_player platform call) ≡ w
  unfolding wait_for_player
  Settles-wait_for_player call os (at_once {hooks} player) =
      rw (HasPlayer-find_player platform call.query hooks player, wait_for_player)
        (on_mutations_resolved os (some hooks))
  Settles-wait_for_player call os (later missing outcome) =
      rw (HasNone-find_player platform call.query missing, wait_for_player)
        (Outcome-on_mutations os call.now outcome)

  -- The promise of `waitForPlayer`, after the call and any changes of the page with their times, stands at `w`
  -- exactly if `w` is one of these: it is resolved with the video and the control bar, by the selectors of the
  -- platform, if the call found both, or else if a change did, and every change before it was one that missed
  -- one of the two and came no later than the timeout after the call; it is resolved with null if, after such
  -- changes only, one came without both elements and later than the timeout; and it is pending if there were
  -- such changes only, or none, however much time has gone by.
  pub wait_for_player_lem :
      (call : Observation Node) (os : List (Observation Node)) (w : Waiting Node)
      → (on_mutations platform timeout_ms os (wait_for_player platform call) ≡ w)
        ↔ Settles platform timeout_ms call os w
  wait_for_player_lem call os w = (
    λ e. subst (Settles platform timeout_ms call os) e (wait_for_player-Settles call os),
    λ settles. Settles-wait_for_player call os settles,
  )
