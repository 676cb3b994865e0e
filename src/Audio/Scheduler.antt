-- ===== src/Audio/Scheduler.antt =====
-- extension/src/audio/scheduler.ts: when each decoded buffer starts to play.
use streammix.Common.{
  ℕ, ◌+◌, ◌≤◌, ◌<◌, ◌≡◌, refl, subst, ◌⊎◌, ◌||◌, Bool, true, false, List, [], ◌∷◌, ◌++◌,
  if◌then◌else◌, arith, Bool-cases, inl, inr, ◌==◌,
}

-- Times of the audio context, in seconds as doubles: the order, and `t + FRAME_DURATION` as the
-- hardware rounds it. The two laws hold for all doubles.
pub record AudioClock : Type 1 where
  pub Time : Type 0
  pub zero_time : Time
  -- `a < b`
  pub before : Time → Time → Bool
  -- `t + FRAME_DURATION`
  pub plus_frame : Time → Time
  pub before_irrefl : (a : Time) → before a a ≡ false
  pub before_asym : (a b : Time) → before a b ≡ true → before b a ≡ false

-- `liveSources.indexOf(src)` and `splice(idx, 1)`.
abbrev pub remove : ℕ → List ℕ → List ℕ
remove id [] = []
remove id (x ∷ xs) = let rest = x ∷ remove id xs in if x == id then xs else rest

abbrev pub lists : List ℕ → ℕ → Bool
lists [] id = false
lists (x ∷ xs) id = x == id || lists xs id

-- Strictly ascending numbers from `lo` on, below `hi`.
abbrev pub IsAscending : ℕ → List ℕ → ℕ → Type 0
IsAscending lo [] hi = lo ≤ hi
IsAscending lo (x ∷ xs) hi = (lo ≤ x) × IsAscending (x + 1) xs hi

IsAscending-append :
    (lo : ℕ) (xs : List ℕ) (hi : ℕ)
    → IsAscending lo xs hi
    → IsAscending lo (xs ++ (hi ∷ [])) (hi + 1)
IsAscending-append lo [] hi h = omega arith
IsAscending-append lo (x ∷ xs) hi (h, r) = (h, IsAscending-append (x + 1) xs hi r)

IsAscending-weaken :
    (lo lo' : ℕ) (xs : List ℕ) (hi : ℕ) → lo' ≤ lo → IsAscending lo xs hi → IsAscending lo' xs hi
IsAscending-weaken lo lo' [] hi w h = omega arith
IsAscending-weaken lo lo' (x ∷ xs) hi w (h, r) = (omega arith, r)

IsAscending-remove :
    (id lo : ℕ) (xs : List ℕ) (hi : ℕ) → IsAscending lo xs hi → IsAscending lo (remove id xs) hi
IsAscending-remove id lo [] hi h = h
IsAscending-remove id lo (x ∷ xs) hi (h, r) =
    ground (arith, IsAscending-weaken (x + 1) lo xs hi, IsAscending-remove id (x + 1) xs hi)

lists-below :
    (id lo : ℕ) (xs : List ℕ) (hi : ℕ) → IsAscending lo xs hi → id < lo → lists xs id ≡ false
lists-below id lo [] hi h b = refl
lists-below id lo (x ∷ xs) hi (h, r) b = ground (arith, lists-below id (x + 1) xs hi)

lists-remove :
    (id other lo : ℕ) (xs : List ℕ) (hi : ℕ)
    → IsAscending lo xs hi
    → lists (remove id xs) other ≡ (if id == other then false else lists xs other)
lists-remove id other lo [] hi h = ground arith
lists-remove id other lo (x ∷ xs) hi (h, r) =
    ground (arith, lists-below id (x + 1) xs hi, lists-remove id other (x + 1) xs hi)

module _ (clock : AudioClock) where
  open clock use {Time, zero_time, before, plus_frame, before_irrefl, before_asym}

  -- The variables that `createScheduler` closes over. A source node is the number of its creation.
  pub record Scheduler : Type 0 where
    pub play_cursor : Time
    pub live_sources : List ℕ
    pub created : ℕ

  abbrev pub new_scheduler : Scheduler
  new_scheduler = record { play_cursor = zero_time; live_sources = []; created = 0 }

  -- `enqueue(buf)` at the time `now`: the new state and the time given to `src.start`.
  unfoldable pub enqueue : Time → Scheduler → Scheduler × Time
  enqueue now s =
      let lead_in = plus_frame now in
      let start = if before s.play_cursor lead_in then lead_in else s.play_cursor in
      (
        record {
          play_cursor = plus_frame start;
          live_sources = s.live_sources ++ (s.created ∷ []);
          created = s.created + 1;
        },
        start,
      )

  -- The start times of buffers that arrive at the times `nows`.
  unfoldable pub enqueue_all : List Time → Scheduler → List Time
  enqueue_all [] s = []
  enqueue_all (now ∷ nows) s = let (s', start) = enqueue now s in start ∷ enqueue_all nows s'

  -- How `starts` answer arrivals at `nows` with the cursor at `t`: each buffer starts no earlier than
  -- the cursor and one frame after its arrival, at one of the two, and moves the cursor one frame on.
  abbrev pub IsPlayed : Time → List Time → List Time → Type 0
  IsPlayed t [] [] = Unit {0}
  IsPlayed t [] (start ∷ starts) = ⊥
  IsPlayed t (now ∷ nows) [] = ⊥
  IsPlayed t (now ∷ nows) (start ∷ starts) =
      (before start t ≡ false)
      × (before start (plus_frame now) ≡ false)
      × ((start ≡ t) ⊎ (start ≡ plus_frame now))
      × IsPlayed (plus_frame start) nows starts

  enqueue_start :
      (now : Time) (s : Scheduler)
      → (before (enqueue now s).1 s.play_cursor ≡ false)
        × (before (enqueue now s).1 (plus_frame now) ≡ false)
        × (((enqueue now s).1 ≡ s.play_cursor) ⊎ ((enqueue now s).1 ≡ plus_frame now))
        × ((enqueue now s).0.play_cursor ≡ plus_frame (enqueue now s).1)
  unfolding enqueue
  enqueue_start now s = elim (Bool-cases (before s.play_cursor (plus_frame now))) [
    | inl late ↦ rw late (
      before_asym s.play_cursor (plus_frame now) late,
      before_irrefl (plus_frame now),
      inr refl,
      refl,
    )
    | inr ahead ↦ rw ahead (before_irrefl s.play_cursor, ahead, inl refl, refl)
  ]

  -- Whenever the buffers arrive, they are played one after the other: none starts before the one ahead
  -- of it has played its frame, nor within a frame of its own arrival, and the start is the earliest
  -- such time.
  pub enqueue_all-IsPlayed :
      (nows : List Time) (s : Scheduler) → IsPlayed s.play_cursor nows (enqueue_all nows s)
  unfolding enqueue_all
  enqueue_all-IsPlayed [] s = tt
  enqueue_all-IsPlayed (now ∷ nows) s =
      let (after, lead, earliest, moved) = enqueue_start now s in
      let s' = (enqueue now s).0 in
      let starts = enqueue_all nows s' in
      (
        after,
        lead,
        earliest,
        subst (λ t. IsPlayed t nows starts) moved (enqueue_all-IsPlayed nows s'),
      )

  -- `src.onended` of the source `id`.
  unfoldable pub on_ended : ℕ → Scheduler → Scheduler
  on_ended id s = record s { live_sources = remove id s.live_sources }

  -- `close()`: the new state, and the sources that are stopped and disconnected.
  unfoldable pub close : Scheduler → Scheduler × List ℕ
  close s = (record s { live_sources = [] }, s.live_sources)

  -- The live sources were created, each is listed once, and in the order of creation.
  abbrev pub IsLive : Scheduler → Type 0
  IsLive s = IsAscending 0 s.live_sources s.created

  enqueue-IsLive : (now : Time) (s : Scheduler) → IsLive s → IsLive (enqueue now s).0
  unfolding enqueue
  enqueue-IsLive now s h = IsAscending-append 0 s.live_sources s.created h

  close-IsLive : (s : Scheduler) → IsLive (close s).0
  unfolding close
  close-IsLive s = omega arith

  -- Where the live sources are listed in the order of creation, each once, an ended source is no longer
  -- listed, every other one is listed as before, and the list stays in that order.
  pub on_ended_lem :
      (id : ℕ) (s : Scheduler)
      → IsLive s
      → IsLive (on_ended id s)
        × ((other : ℕ)
            → lists (on_ended id s).live_sources other
              ≡ (if id == other then false else lists s.live_sources other))
  unfolding on_ended
  on_ended_lem id s h = (
    IsAscending-remove id 0 s.live_sources s.created h,
    λ other. lists-remove id other 0 s.live_sources s.created h,
  )
