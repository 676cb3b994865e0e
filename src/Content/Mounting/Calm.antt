-- ===== src/Content/Mounting/Calm.antt =====
-- extension/src/content/index.ts where the address changes only between two calls of `mount`.
use streammix.Common.{ℕ, ◌≡◌, refl, Bool, true, false, [], ◌∷◌, none, some, arith}
use streammix.Audio.Scheduler.{lists}
use streammix.Content.Mounting.{
  Tab, mount, unmount, on_address, on_player, on_loaded, CalmReach, calm_start, calm_address,
  calm_player, calm_loaded,
}

-- Where a tab stands in calm runs: at a call of `mount`, at a mixer that is active, or at neither.
pub data IsCalm (t : Tab) : Type 0 where
  at_player :
      (id : ℕ) → t.waiting ≡ id ∷ [] → t.loading ≡ [] → t.active ≡ none → t.live ≡ [] → IsCalm t
  at_prefs :
      (id : ℕ) → t.waiting ≡ [] → t.loading ≡ id ∷ [] → t.active ≡ none → t.live ≡ [] → IsCalm t
  mounted :
      (id : ℕ) → t.waiting ≡ [] → t.loading ≡ [] → t.active ≡ some id → t.live ≡ id ∷ [] → IsCalm t
  idle : t.waiting ≡ [] → t.loading ≡ [] → t.active ≡ none → t.live ≡ [] → IsCalm t

IsCalm-mount :
    (has_channel : Bool) (t : Tab)
    → t.waiting ≡ []
    → t.loading ≡ []
    → t.active ≡ none
    → t.live ≡ []
    → IsCalm (mount has_channel t)
unfolding mount
IsCalm-mount true t w l a v = at_player t.started (ground arith) l a v
IsCalm-mount false t w l a v = idle w l a v

IsCalm-on_address :
    (has_channel : Bool) (t : Tab)
    → t.waiting ≡ []
    → t.loading ≡ []
    → IsCalm t
    → IsCalm (on_address has_channel t)
unfolding on_address unmount
IsCalm-on_address b t w l (at_player id w' l' a v) =
    IsCalm-mount b (unmount t) w l refl (rw (a, unmount) v)
IsCalm-on_address b t w l (at_prefs id w' l' a v) =
    IsCalm-mount b (unmount t) w l refl (rw (a, unmount) v)
IsCalm-on_address b t w l (mounted id w' l' a v) =
    IsCalm-mount b (unmount t) w l refl (ground arith)
IsCalm-on_address b t w l (idle w' l' a v) = IsCalm-mount b (unmount t) w l refl (rw (a, unmount) v)

IsCalm-on_player :
    (id : ℕ) (found : Bool) (t : Tab)
    → lists t.waiting id ≡ true
    → IsCalm t
    → IsCalm (on_player id found t)
unfolding on_player
IsCalm-on_player id true t h (at_player i w l a v) = at_prefs id (ground arith) (ground arith) a v
IsCalm-on_player id false t h (at_player i w l a v) = idle (ground arith) l a v
IsCalm-on_player id found t h (at_prefs i w l a v) = absurd (ground arith)
IsCalm-on_player id found t h (mounted i w l a v) = absurd (ground arith)
IsCalm-on_player id found t h (idle w l a v) = absurd (ground arith)

IsCalm-on_loaded :
    (id : ℕ) (t : Tab) → lists t.loading id ≡ true → IsCalm t → IsCalm (on_loaded id t)
unfolding on_loaded
IsCalm-on_loaded id t h (at_prefs i w l a v) = mounted id w (ground arith) refl (ground arith)
IsCalm-on_loaded id t h (at_player i w l a v) = absurd (ground arith)
IsCalm-on_loaded id t h (mounted i w l a v) = absurd (ground arith)
IsCalm-on_loaded id t h (idle w l a v) = absurd (ground arith)

-- As long as the address changes only while no call of `mount` is under way, a page has one mixer at most,
-- the active one, which the next change of the address destroys, and one call of `mount` under way at most.
pub CalmReach-IsCalm : {t : Tab} → CalmReach t → IsCalm t
CalmReach-IsCalm (calm_start b) = IsCalm-mount b _ refl refl refl refl
CalmReach-IsCalm (calm_address {t} b r w l) = IsCalm-on_address b t w l (CalmReach-IsCalm r)
CalmReach-IsCalm (calm_player {t} id found r h) = IsCalm-on_player id found t h (CalmReach-IsCalm r)
CalmReach-IsCalm (calm_loaded {t} id r h) = IsCalm-on_loaded id t h (CalmReach-IsCalm r)
