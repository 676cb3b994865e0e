-- ===== src/Content/Mounting/Leaks.antt =====
-- The mixers of extension/src/content/index.ts that a later call of `mount` overtakes.
use streammix.Common.{
  ℕ, ◌<◌, ◌≡◌, ◌≢◌, refl, ◌∙◌, Bool, true, false, ◌||◌, List, [], ◌∷◌, ◌++◌, some, arith,
  Bool-cases, Option-cases, inl, inr, ◌==◌, some-eq,
}
use streammix.Audio.Scheduler.{remove, lists}
use streammix.Content.Mounting.Tidy.{lists-count, Reach-IsTidy}
use streammix.Content.Mounting.{
  Tab, mount, unmount, on_address, on_player, on_loaded, Step, address, player, loaded, Reach,
}

-- A mixer that is mounted, is not `active`, and whose call of `mount` is over.
pub record IsLeaked (id : ℕ) (t : Tab) : Type 0 where
  pub live : lists t.live id ≡ true
  pub not_active : t.active ≢ some id
  pub not_waiting : lists t.waiting id ≡ false
  pub not_loading : lists t.loading id ≡ false
  pub old : id < t.started

lists-append_one :
    (id other : ℕ) (xs : List ℕ) → lists (xs ++ (other ∷ [])) id ≡ (lists xs id || other == id)
lists-append_one id other [] = ground arith
lists-append_one id other (x ∷ xs) = ground (arith, lists-append_one id other xs)

lists-remove_other :
    (id other : ℕ) (xs : List ℕ) → other ≢ id → lists (remove other xs) id ≡ lists xs id
lists-remove_other id other [] h = refl
lists-remove_other id other (x ∷ xs) h = ground (arith, lists-remove_other id other xs h)

lists-remove_missing :
    (id other : ℕ) (xs : List ℕ) → lists xs id ≡ false → lists (remove other xs) id ≡ false
lists-remove_missing id other [] h = refl
lists-remove_missing id other (x ∷ xs) h = ground (arith, lists-remove_missing id other xs)

lists_other :
    (id other : ℕ) (xs : List ℕ) → lists xs other ≡ true → lists xs id ≡ false → other ≢ id
lists_other id other xs h k e = cc

IsLeaked-unmount : (id : ℕ) (t : Tab) → IsLeaked id t → IsLeaked id (unmount t)
unfolding unmount
IsLeaked-unmount id t k = record {
  live = elim (Option-cases t.active) [
    | inl none_active ↦ rw (none_active, unmount) k.live
    | inr (other, e) ↦
        rw (e, unmount) (lists-remove_other id other t.live (ground (arith, k.not_active)) ∙ k.live)
  ];
  not_active = λ e. cc;
  not_waiting = k.not_waiting;
  not_loading = k.not_loading;
  old = k.old;
}

IsLeaked-mount : (id : ℕ) (b : Bool) (t : Tab) → IsLeaked id t → IsLeaked id (mount b t)
unfolding mount
IsLeaked-mount id false t k = k
IsLeaked-mount id true t k = record {
  live = k.live;
  not_active = k.not_active;
  not_waiting = ground (arith, lists-append_one id t.started t.waiting, k.not_waiting, k.old);
  not_loading = k.not_loading;
  old = omega (arith, k.old);
}

IsLeaked-Step : (id : ℕ) {t u : Tab} → Step t u → IsLeaked id t → IsLeaked id u
unfolding on_address on_player on_loaded
IsLeaked-Step id (address t b) k = IsLeaked-mount id b (unmount t) (IsLeaked-unmount id t k)
IsLeaked-Step id (player t other found h) k = record {
  live = k.live;
  not_active = k.not_active;
  not_waiting = lists-remove_missing id other t.waiting k.not_waiting;
  not_loading = elim (Bool-cases found) [
    | inl there ↦ rw there (
        ground (
          arith,
          lists-append_one id other t.loading,
          lists_other id other t.waiting h k.not_waiting,
          k.not_loading,
        ))
    | inr missing ↦ rw missing k.not_loading
  ];
  old = k.old;
}
IsLeaked-Step id (loaded t other h) k = record {
  live = ground (arith, lists-append_one id other t.live, k.live);
  not_active = λ e. lists_other id other t.loading h k.not_loading (some-eq e);
  not_waiting = k.not_waiting;
  not_loading = lists-remove_missing id other t.loading k.not_loading;
  old = k.old;
}

-- The tabs that `t` can still come to.
pub data Steps (t : Tab) : Tab → Type 0 where
  done : Steps t t
  further : {u v : Tab} → Steps t u → Step u v → Steps t v

IsLeaked-Steps : (id : ℕ) {t u : Tab} → Steps t u → IsLeaked id t → IsLeaked id u
IsLeaked-Steps id done k = k
IsLeaked-Steps id (further steps step) k = IsLeaked-Step id step (IsLeaked-Steps id steps k)

-- If a call of `mount` finishes while another call's mixer is active, then that mixer, with its relay
-- client, its audio graph and its panel, is never destroyed, whatever follows, and never active again.
pub overtaken_stays :
    (t : Tab) (id old : ℕ) {u : Tab}
    → Reach t
    → t.active ≡ some old
    → lists t.loading id ≡ true
    → Steps (on_loaded id t) u
    → (lists u.live old ≡ true) × (u.active ≢ some old)
unfolding on_loaded
overtaken_stays t id old r e h steps =
    let x = Reach-IsTidy r in
    let leaked : IsLeaked old (on_loaded id t) = record {
      live = ground (arith, lists-append_one old id t.live, lists-count old t.live, x.mounted old);
      not_active =
          λ f. ground (arith, some-eq f, x.mounted old, x.once old, lists-count old t.loading);
      not_waiting = ground (arith, lists-count old t.waiting, x.once old, x.mounted old);
      not_loading =
          lists-remove_missing old id t.loading
            (ground (arith, lists-count old t.loading, x.once old, x.mounted old));
      old = ground (arith, x.new old, x.mounted old);
    } in
    let after = IsLeaked-Steps old steps leaked in (after.live, after.not_active)
