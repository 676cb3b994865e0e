-- ===== src/Common/Assoc.antt =====
-- A `Map<string, V>`, or the own properties of an object, in order of insertion.
use mathlib.Core.Path.{◌≡◌, refl}
use mathlib.Core.Bool.{Bool, true, false, ◌||◌}
use mathlib.Core.Option.{Option, none, some}
use mathlib.Core.List.{List, [], ◌∷◌}
use native.Mathlib.Omega.{arith}
use streammix.Common.Tests.{if◌then◌else◌}
use streammix.Common.Text.{Text, text_eq, text_eq_iff}

module _ {ℓ} {V : Type ℓ} where
  unfoldable pub get : Text → List (Text × V) → Option V
  get k [] = none
  get k ((j, v) ∷ m) = if text_eq j k then some v else get k m

  -- The value of a key that is there is replaced in place.
  unfoldable pub set : Text → V → List (Text × V) → List (Text × V)
  set k v [] = (k, v) ∷ []
  set k v ((j, w) ∷ m) = let rest = (j, w) ∷ set k v m in if text_eq j k then (j, v) ∷ m else rest

  unfoldable pub delete : Text → List (Text × V) → List (Text × V)
  delete k [] = []
  delete k ((j, w) ∷ m) = let rest = delete k m in if text_eq j k then rest else (j, w) ∷ rest

  -- `m.has(k)`
  unfoldable pub has : Text → List (Text × V) → Bool
  has k [] = false
  has k ((j, w) ∷ m) = text_eq j k || has k m

  pub get-set :
      (k j : Text) (v : V) (m : List (Text × V))
      → get j (set k v m) ≡ (if text_eq k j then some v else get j m)
  unfolding get set
  get-set k j v [] = refl
  get-set k j v ((i, w) ∷ m) =
      ground (arith, text_eq_iff k j, text_eq_iff i k, text_eq_iff i j, get-set k j v m)

  pub get-delete :
      (k j : Text) (m : List (Text × V))
      → get j (delete k m) ≡ (if text_eq k j then none else get j m)
  unfolding get delete
  get-delete k j [] = ground arith
  get-delete k j ((i, w) ∷ m) =
      ground (arith, text_eq_iff k j, text_eq_iff i k, text_eq_iff i j, get-delete k j m)

  pub has-set :
      (k j : Text) (v : V) (m : List (Text × V)) → has j (set k v m) ≡ text_eq k j || has j m
  unfolding has set
  has-set k j v [] = refl
  has-set k j v ((i, w) ∷ m) =
      ground (arith, text_eq_iff k j, text_eq_iff i k, text_eq_iff i j, has-set k j v m)

  pub has-get :
      (k : Text) (m : List (Text × V)) → has k m ≡ (elim (get k m) [ some v ↦ true | none ↦ false ])
  unfolding has get
  has-get k [] = refl
  has-get k ((j, w) ∷ m) = ground (arith, has-get k m)

  pub has-delete :
      (k j : Text) (m : List (Text × V))
      → has j (delete k m) ≡ (if text_eq k j then false else has j m)
  unfolding has delete
  has-delete k j [] = ground arith
  has-delete k j ((i, w) ∷ m) =
      ground (arith, text_eq_iff k j, text_eq_iff i k, text_eq_iff i j, has-delete k j m)

  pub delete-eq_self : (k : Text) (m : List (Text × V)) → get k m ≡ none → delete k m ≡ m
  unfolding get delete
  delete-eq_self k [] absent = refl
  delete-eq_self k ((j, w) ∷ m) absent = ground (arith, delete-eq_self k m)

  pub set-eq_self : (k : Text) (v : V) (m : List (Text × V)) → get k m ≡ some v → set k v m ≡ m
  unfolding get set
  set-eq_self k v [] there = cc
  set-eq_self k v ((j, w) ∷ m) there = ground (arith, set-eq_self k v m)

  -- No key stands twice.
  abbrev pub IsMap : List (Text × V) → Type 0
  IsMap [] = Unit {0}
  IsMap ((k, v) ∷ m) = (has k m ≡ false) × IsMap m

  pub IsMap-set : (k : Text) (v : V) (m : List (Text × V)) → IsMap m → IsMap (set k v m)
  unfolding has set
  IsMap-set k v [] unique = (refl, tt)
  IsMap-set k v ((j, w) ∷ m) (new, unique) =
      ground (arith, has-set k j v m, text_eq_iff j k, text_eq_iff k j, IsMap-set k v m unique)

  pub IsMap-delete : (k : Text) (m : List (Text × V)) → IsMap m → IsMap (delete k m)
  unfolding has delete
  IsMap-delete k [] unique = tt
  IsMap-delete k ((j, w) ∷ m) (new, unique) =
      ground (arith, has-delete k j m, text_eq_iff j k, IsMap-delete k m unique)

module _ {ℓ κ} {V : Type ℓ} {W : Type κ} (f : V → W) where
  -- The same map with `f` of each value.
  abbrev pub map_values : List (Text × V) → List (Text × W)
  map_values [] = []
  map_values ((k, v) ∷ m) = (k, f v) ∷ map_values m

  pub get-map_values :
      (k : Text) (m : List (Text × V))
      → get k (map_values m) ≡ (elim (get k m) [ none ↦ none | some v ↦ some (f v) ])
  unfolding get
  get-map_values k [] = refl
  get-map_values k ((j, v) ∷ m) = ground (arith, get-map_values k m)

  pub map_values-set :
      (k : Text) (v : V) (m : List (Text × V)) → map_values (set k v m) ≡ set k (f v) (map_values m)
  unfolding set
  map_values-set k v [] = refl
  map_values-set k v ((j, w) ∷ m) = ground (arith, map_values-set k v m)

  pub map_values-delete :
      (k : Text) (m : List (Text × V)) → map_values (delete k m) ≡ delete k (map_values m)
  unfolding delete
  map_values-delete k [] = refl
  map_values-delete k ((j, w) ∷ m) = ground (arith, map_values-delete k m)
