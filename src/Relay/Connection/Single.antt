-- ===== src/Relay/Connection/Single.antt =====
-- The connection of extension/src/relay/client.ts is one socket or one pending timer, never two.
use streammix.Common.{
  ℕ, zero, suc, get_elem?, Bool-cases, ◌≤◌, ◌≡◌, refl, ◌∙◌, true, List, [], ◌∷◌, Option, none, some,
  arith, inl, inr,
}
use Prim.Native.Nat.{min}
use streammix.Audio.Scheduler.{lists}
use streammix.Relay.Connection.{
  Client, backoff, backoff_ms, connect, on_open, on_close, on_timer, close, Step, Reach, opened,
  ended, fired, closed_by_caller, start, next,
}

-- A wait of the table: the index is never out of it, so the wait is never `undefined`.
abbrev pub IsWait : Option ℕ → Type 0
IsWait none = ⊥
IsWait (some ms) = (500 ≤ ms) × (ms ≤ 15000)

-- Where the connection stands: at one socket, which `ws` holds, at one timer, or, when the caller has
-- closed it, at neither.
pub data Stands (c : Client) : Type 0 where
  at_socket : (id : ℕ) → c.sockets ≡ id ∷ [] → c.ws ≡ some id → c.timers ≡ [] → Stands c
  at_timer :
      (wait : Option ℕ)
      → c.sockets ≡ []
      → c.ws ≡ none
      → c.timers ≡ wait ∷ []
      → IsWait wait
      → Stands c
  at_rest : c.closed ≡ true → c.sockets ≡ [] → c.ws ≡ none → c.timers ≡ [] → Stands c

backoff-IsWait : (attempt : ℕ) → IsWait (backoff attempt)
unfolding backoff
backoff-IsWait zero = omega arith
backoff-IsWait (suc zero) = omega arith
backoff-IsWait (suc (suc zero)) = omega arith
backoff-IsWait (suc (suc (suc zero))) = omega arith
backoff-IsWait (suc (suc (suc (suc n)))) = longest (omega arith)
  where
    longest :
        min (suc (suc (suc (suc n)))) 4 ≡ 4
        → IsWait (get_elem? backoff_ms (min (suc (suc (suc (suc n)))) 4))
    longest e = rw e (omega arith)

Stands-on_close :
    (c : Client) (id : ℕ) → c.sockets ≡ id ∷ [] → c.timers ≡ [] → Stands (on_close id c)
unfolding on_close
Stands-on_close c id s t = elim (Bool-cases c.closed) [
  | inl e ↦ at_rest (ground arith) (ground arith) (ground arith) (ground arith)
  | inr e ↦
      at_timer (backoff c.attempt) (ground arith) (ground arith) (ground arith)
        (backoff-IsWait c.attempt)
]

Stands-on_timer :
    (c : Client) (rest : List (Option ℕ))
    → c.sockets ≡ []
    → c.ws ≡ none
    → rest ≡ []
    → Stands (on_timer rest c)
unfolding on_timer
Stands-on_timer c rest s w t = elim (Bool-cases c.closed) [
  | inl e ↦ at_rest (ground arith) (ground arith) (ground arith) (ground arith)
  | inr e ↦ at_socket c.created (ground arith) (ground arith) (ground arith)
]

no_socket : (c : Client) (id : ℕ) → c.sockets ≡ [] → lists c.sockets id ≡ true → ⊥
no_socket c id s h = ground arith

Step-Stands : {c d : Client} → Step c d → Stands c → Stands d
unfolding on_open close
Step-Stands (opened c id h) (at_socket i s w t) = at_socket i s w t
Step-Stands (opened c id h) (at_timer wait s w t ok) = at_timer wait s w t ok
Step-Stands (opened c id h) (at_rest x s w t) = at_rest x s w t
Step-Stands (ended c id h) (at_socket i s w t) = Stands-on_close c id (ground arith) t
Step-Stands (ended c id h) (at_timer wait s w t ok) = absurd (no_socket c id s h)
Step-Stands (ended c id h) (at_rest x s w t) = absurd (no_socket c id s h)
Step-Stands (fired c wait rest h) (at_socket i s w t) = cc
Step-Stands (fired c wait rest h) (at_timer wait' s w t ok) = Stands-on_timer c rest s w (cc)
Step-Stands (fired c wait rest h) (at_rest x s w t) = cc
Step-Stands (closed_by_caller c) (at_socket i s w t) = at_socket i s w t
Step-Stands (closed_by_caller c) (at_timer wait s w t ok) = at_timer wait s w t ok
Step-Stands (closed_by_caller c) (at_rest x s w t) = at_rest refl s w t

-- However the events fall, the client stands at exactly one socket, which is the one that `ws` holds, or
-- at exactly one timer of half a second to 15 seconds; at neither only after the caller closed it.
pub Reach-Stands : {c : Client} → Reach c → Stands c
unfolding connect
Reach-Stands start = at_socket 0 refl refl refl
Reach-Stands (next r step) = Step-Stands step (Reach-Stands r)

-- The states that `c` can still come to.
pub data Steps (c : Client) : Client → Type 0 where
  done : Steps c c
  further : {d e : Client} → Steps c d → Step d e → Steps c e

stays_closed :
    {c d : Client} → Step c d → c.closed ≡ true → (d.closed ≡ true) × (d.created ≡ c.created)
unfolding on_open on_close on_timer close
stays_closed (opened c id h) e = (e, refl)
stays_closed (ended c id h) e = ground arith
stays_closed (fired c wait rest h) e = ground arith
stays_closed (closed_by_caller c) e = (refl, refl)

-- Once the caller has closed the client, no socket is created any more, whatever timer was pending.
pub no_socket_after_close :
    (c : Client) {d : Client} → Steps (close c) d → (d.closed ≡ true) × (d.created ≡ c.created)
unfolding close
no_socket_after_close c done = (refl, refl)
no_socket_after_close c (further steps step) =
    let (closed, created) = no_socket_after_close c steps in
    let (closed', created') = stays_closed step closed in (closed', created' ∙ created)
