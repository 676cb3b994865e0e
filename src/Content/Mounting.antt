-- ===== src/Content/Mounting.antt =====
-- extension/src/content/index.ts: `mount`, `unmount` and the observer of the page's address, as a step
-- relation over what the page and the browser may do next. A call of `mount` that finds a channel is the
-- number of its start; it waits for the player, then for the preferences, and then makes itself `active`.
pub mod Calm
pub mod Document
pub mod Shown
pub mod Tidy
pub mod Leaks
use streammix.Common.{
  ℕ, ◌+◌, ◌≡◌, Bool, true, List, [], ◌∷◌, ◌++◌, Option, none, some, if◌then◌else◌,
}
use streammix.Audio.Scheduler.{remove, lists}

pub record Tab : Type 0 where
  pub started : ℕ
  -- Calls of `mount` at `await waitForPlayer`, and at `await Promise.all`.
  pub waiting : List ℕ
  pub loading : List ℕ
  pub active : Option ℕ
  -- Mounted mixers, with relay client, audio graph and panel, that `destroy()` was not called on.
  pub live : List ℕ

-- `mount()`, up to its first await.
unfoldable pub mount : Bool → Tab → Tab
mount has_channel t =
    if has_channel
    then record t { started = t.started + 1; waiting = t.waiting ++ (t.started ∷ []) }
    else t

abbrev pub destroy_one : Option ℕ → List ℕ → List ℕ
destroy_one none live = live
destroy_one (some id) live = remove id live

-- `unmount()`
unfoldable pub unmount : Tab → Tab
unmount t = record t { live = destroy_one t.active t.live; active = none }

-- The observer, when the address has changed.
unfoldable pub on_address : Bool → Tab → Tab
unfolding mount unmount
on_address has_channel t = mount has_channel (unmount t)

-- `waitForPlayer` gave the player, or null.
unfoldable pub on_player : ℕ → Bool → Tab → Tab
on_player id found t = record t {
  waiting = remove id t.waiting;
  loading = if found then t.loading ++ (id ∷ []) else t.loading;
}

-- The preferences are there: the rest of `mount`.
unfoldable pub on_loaded : ℕ → Tab → Tab
on_loaded id t = record t {
  loading = remove id t.loading;
  active = some id;
  live = t.live ++ (id ∷ []);
}

pub data Step : Tab → Tab → Type 0 where
  address : (t : Tab) (has_channel : Bool) → Step t (on_address has_channel t)
  player :
      (t : Tab) (id : ℕ) (found : Bool) → lists t.waiting id ≡ true → Step t (on_player id found t)
  loaded : (t : Tab) (id : ℕ) → lists t.loading id ≡ true → Step t (on_loaded id t)

-- The script as it starts, behind its own call of `mount`.
abbrev pub new_tab : Bool → Tab
new_tab has_channel =
    mount has_channel (record { started = 0; waiting = []; loading = []; active = none; live = [] })

pub data Reach : Tab → Type 0 where
  start : (has_channel : Bool) → Reach (new_tab has_channel)
  next : {t u : Tab} → Reach t → Step t u → Reach u

-- Runs in which the address changes only while no call of `mount` is under way.
pub data CalmReach : Tab → Type 0 where
  calm_start : (has_channel : Bool) → CalmReach (new_tab has_channel)
  calm_address :
      {t : Tab} (has_channel : Bool)
      → CalmReach t
      → t.waiting ≡ []
      → t.loading ≡ []
      → CalmReach (on_address has_channel t)
  calm_player :
      {t : Tab} (id : ℕ) (found : Bool)
      → CalmReach t
      → lists t.waiting id ≡ true
      → CalmReach (on_player id found t)
  calm_loaded :
      {t : Tab} (id : ℕ) → CalmReach t → lists t.loading id ≡ true → CalmReach (on_loaded id t)
