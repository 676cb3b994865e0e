-- ===== src/Relay/Connection.antt =====
-- `connect` of extension/src/relay/client.ts: the variables `closed`, `attempt` and `ws`, and what the
-- browser holds for it, the sockets whose `close` event is still to come and the pending timers.
pub mod Single
use streammix.Common.{
  ℕ, ◌+◌, ◌≤◌, ◌≡◌, Bool, true, false, List, [], ◌∷◌, ◌++◌, Option, none, some, get_elem?, leb,
  ◌==◌, if◌then◌else◌,
}
use Prim.Native.Nat.{min}
use streammix.Audio.Scheduler.{remove, lists}

-- RECONNECT_BACKOFF_MS
abbrev pub backoff_ms : List ℕ
backoff_ms = 500 ∷ 1000 ∷ 2000 ∷ 5000 ∷ 15000 ∷ []

-- `RECONNECT_BACKOFF_MS[Math.min(attempt, RECONNECT_BACKOFF_MS.length - 1)]`, `none` for `undefined`.
unfoldable pub backoff : ℕ → Option ℕ
backoff attempt = get_elem? backoff_ms (min attempt 4)

pub record Client : Type 0 where
  pub closed : Bool
  pub attempt : ℕ
  -- The socket that `ws` holds; a socket is the number of its creation.
  pub ws : Option ℕ
  pub created : ℕ
  -- Sockets whose `onclose` has not run yet.
  pub sockets : List ℕ
  -- The waits of the timers that have not fired yet.
  pub timers : List (Option ℕ)

-- The function `open`.
unfoldable pub open_socket : Client → Client
open_socket c = if c.closed then c else record c {
  ws = some c.created;
  created = c.created + 1;
  sockets = c.sockets ++ (c.created ∷ []);
}

unfoldable pub connect : Client
unfolding open_socket
connect =
    open_socket
      (record { closed = false; attempt = 0; ws = none; created = 0; sockets = []; timers = [] })

unfoldable pub schedule_reconnect : Client → Client
schedule_reconnect c =
    if c.closed
    then c
    else record c { attempt = c.attempt + 1; timers = c.timers ++ (backoff c.attempt ∷ []) }

-- `ws.onopen`
unfoldable pub on_open : Client → Client
on_open c = record c { attempt = 0 }

-- `ws.onclose` of the socket `id`.
unfoldable pub on_close : ℕ → Client → Client
unfolding schedule_reconnect
on_close id c =
    let c = record c { ws = none; sockets = remove id c.sockets } in
    if c.closed then c else schedule_reconnect c

-- The first timer fires.
unfoldable pub on_timer : List (Option ℕ) → Client → Client
unfolding open_socket
on_timer rest c = open_socket (record c { timers = rest })

-- `close()`: the socket is asked to close, and its `onclose` follows.
unfoldable pub close : Client → Client
close c = record c { closed = true }

-- What the browser or the caller may do next. Only a socket that is still there opens or closes, and
-- only a pending timer fires.
pub data Step : Client → Client → Type 0 where
  opened : (c : Client) (id : ℕ) → lists c.sockets id ≡ true → Step c (on_open c)
  ended : (c : Client) (id : ℕ) → lists c.sockets id ≡ true → Step c (on_close id c)
  fired :
      (c : Client) (wait : Option ℕ) (rest : List (Option ℕ))
      → c.timers ≡ wait ∷ rest
      → Step c (on_timer rest c)
  closed_by_caller : (c : Client) → Step c (close c)

pub data Reach : Client → Type 0 where
  start : Reach connect
  next : {c d : Client} → Reach c → Step c d → Reach d
