-- ===== src/Content/Mounting/Tidy.antt =====
-- Where the calls of `mount` of extension/src/content/index.ts stand, in any run.
use streammix.Common.{
  ℕ, suc, ◌+◌, ◌-◌, ◌≤◌, ◌≡◌, refl, Bool, true, false, List, [], ◌∷◌, ◌++◌, some, arith,
  Option-cases, inl, inr, if◌then◌else◌, ◌==◌, ltb, some-eq,
}
use streammix.Audio.Scheduler.{remove, lists}
use streammix.Content.Mounting.{
  Tab, mount, unmount, on_address, on_player, on_loaded, Step, address, player, loaded, Reach,
  start, next,
}

-- How often a number is listed.
abbrev pub count : ℕ → List ℕ → ℕ
count id [] = 0
count id (x ∷ xs) = let rest = count id xs in if x == id then suc rest else rest

count-append_one :
    (id other : ℕ) (xs : List ℕ)
    → count id (xs ++ (other ∷ [])) ≡ (if other == id then suc (count id xs) else count id xs)
count-append_one id other [] = refl
count-append_one id other (x ∷ xs) = ground (arith, count-append_one id other xs)

count-remove :
    (id other : ℕ) (xs : List ℕ)
    → count id (remove other xs) ≡ (if other == id then count id xs - 1 else count id xs)
count-remove id other [] = ground arith
count-remove id other (x ∷ xs) = ground (arith, count-remove id other xs)

pub lists-count : (id : ℕ) (xs : List ℕ) → lists xs id ≡ ltb 0 (count id xs)
lists-count id [] = ground arith
lists-count id (x ∷ xs) = ground (arith, lists-count id xs)

-- Every call of `mount` stands at one place at most, and what is `active` is mounted.
pub record IsTidy (t : Tab) : Type 0 where
  pub once : (id : ℕ) → count id t.waiting + count id t.loading + count id t.live ≤ 1
  pub new :
      (id : ℕ) → t.started ≤ id → count id t.waiting + count id t.loading + count id t.live ≡ 0
  pub mounted : (id : ℕ) → t.active ≡ some id → 1 ≤ count id t.live

IsTidy-unmount : (t : Tab) → IsTidy t → IsTidy (unmount t)
unfolding unmount
IsTidy-unmount t x = elim (Option-cases t.active) [
  | inl e ↦ record {
    once = λ id. rw (e, unmount) (x.once id);
    new = λ id h. rw (e, unmount) (x.new id h);
    mounted = λ id h. cc;
  }
  | inr (other, e) ↦ record {
    once = λ id. rw (e, unmount) (ground (arith, count-remove id other t.live, x.once id));
    new = λ id h. rw (e, unmount) (ground (arith, count-remove id other t.live, x.new id));
    mounted = λ id h. cc;
  }
]

IsTidy-mount : (b : Bool) (t : Tab) → IsTidy t → IsTidy (mount b t)
unfolding mount
IsTidy-mount false t x = x
IsTidy-mount true t x = record {
  once = λ id. ground (arith, count-append_one id t.started t.waiting, x.once id, x.new id);
  new = λ id h. ground (arith, count-append_one id t.started t.waiting, x.new id);
  mounted = x.mounted;
}

IsTidy-Step : {t u : Tab} → Step t u → IsTidy t → IsTidy u
unfolding on_address on_player on_loaded
IsTidy-Step (address t b) x = IsTidy-mount b (unmount t) (IsTidy-unmount t x)
IsTidy-Step (player t other true h) x = record {
  once = λ id. ground (
    arith,
    count-append_one id other t.loading,
    count-remove id other t.waiting,
    lists-count other t.waiting,
    x.once id,
  );
  new = λ id above. ground (
    arith,
    count-append_one id other t.loading,
    count-remove id other t.waiting,
    lists-count other t.waiting,
    x.new id,
  );
  mounted = x.mounted;
}
IsTidy-Step (player t other false h) x = record {
  once = λ id. ground (arith, count-remove id other t.waiting, x.once id);
  new = λ id above. ground (arith, count-remove id other t.waiting, x.new id);
  mounted = x.mounted;
}
IsTidy-Step (loaded t other h) x = record {
  once = λ id. ground (
    arith,
    count-append_one id other t.live,
    count-remove id other t.loading,
    lists-count other t.loading,
    x.once id,
  );
  new = λ id above. ground (
    arith,
    count-append_one id other t.live,
    count-remove id other t.loading,
    lists-count other t.loading,
    x.new id,
  );
  mounted = λ id e. ground (arith, count-append_one id other t.live, some-eq e);
}

pub Reach-IsTidy : {t : Tab} → Reach t → IsTidy t
Reach-IsTidy (start b) =
    IsTidy-mount b _
      (record { once = λ id. omega arith; new = λ id h. omega arith; mounted = λ id h. cc })
Reach-IsTidy (next r step) = IsTidy-Step step (Reach-IsTidy r)
