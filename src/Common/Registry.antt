-- ===== src/Common/Registry.antt =====
-- A Go map with string keys, as the list of its entries in the order in which `range` gives them.
use Prim.Native.String.{String}
use mathlib.Core.Bool.{Bool, true, false}
use mathlib.Core.List.{List, [], ◌∷◌}
use mathlib.Core.Logic.{◌⊎◌, inl, inr}
use mathlib.Core.Option.{Option, none, some}
use mathlib.Core.Path.{◌≡◌, refl}
use native.Mathlib.Omega.{arith}
use distributed_fs.Common.Tests.{◌==◌, if◌then◌else◌}

abbrev pub Registry {ℓ} : Type ℓ → Type ℓ
Registry V = List (String × V)

module _ {ℓ} {V : Type ℓ} where
  -- `m[k]`
  unfoldable pub lookup : String → Registry V → Option V
  lookup k [] = none
  lookup k ((j, v) ∷ m) = if j == k then some v else lookup k m

  -- `m[k] = v`
  unfoldable pub insert : String → V → Registry V → Registry V
  insert k v [] = (k, v) ∷ []
  insert k v ((j, w) ∷ m) = let rest = insert k v m in if j == k then (k, v) ∷ m else (j, w) ∷ rest

  -- `delete(m, k)`
  unfoldable pub delete : String → Registry V → Registry V
  delete k [] = []
  delete k ((j, w) ∷ m) = let rest = delete k m in if j == k then rest else (j, w) ∷ rest

  -- The values, in the order of `range`.
  unfoldable pub values : Registry V → List V
  values [] = []
  values ((_, v) ∷ m) = v ∷ values m

  pub lookup-insert :
      (k : String) (v : V) (m : Registry V) (j : String)
      → lookup j (insert k v m) ≡ (if k == j then some v else lookup j m)
  unfolding lookup insert
  lookup-insert k v [] j = refl
  lookup-insert k v ((i, w) ∷ m) j = ground (arith, lookup-insert k v m j)

  pub lookup-delete :
      (k : String) (m : Registry V) (j : String)
      → lookup j (delete k m) ≡ (if k == j then none else lookup j m)
  unfolding lookup delete
  lookup-delete k [] j = ground arith
  lookup-delete k ((i, w) ∷ m) j = ground (arith, lookup-delete k m j)

  pub insert-insert :
      (k : String) (v w : V) (m : Registry V) → insert k v (insert k w m) ≡ insert k v m
  unfolding insert
  insert-insert k v w [] = ground arith
  insert-insert k v w ((i, x) ∷ m) = ground (arith, insert-insert k v w m)

  pub delete-insert : (k : String) (v : V) (m : Registry V) → delete k (insert k v m) ≡ delete k m
  unfolding insert delete
  delete-insert k v [] = ground arith
  delete-insert k v ((i, w) ∷ m) = ground (arith, delete-insert k v m)

  -- Every key stands once, as in a Go map.
  abbrev pub HasUniqueKeys : Registry V → Type ℓ
  HasUniqueKeys [] = Unit
  HasUniqueKeys ((k, _) ∷ m) = (lookup k m ≡ none) × HasUniqueKeys m

  pub insert-HasUniqueKeys :
      (k : String) (v : V) (m : Registry V) → HasUniqueKeys m → HasUniqueKeys (insert k v m)
  unfolding lookup insert
  insert-HasUniqueKeys k v [] u = (refl, tt)
  insert-HasUniqueKeys k v ((i, w) ∷ m) u =
      ground (arith, lookup-insert k v m i, insert-HasUniqueKeys k v m u.1)

  pub delete-HasUniqueKeys :
      (k : String) (m : Registry V) → HasUniqueKeys m → HasUniqueKeys (delete k m)
  unfolding lookup delete
  delete-HasUniqueKeys k [] u = tt
  delete-HasUniqueKeys k ((i, w) ∷ m) u =
      ground (arith, lookup-delete k m i, delete-HasUniqueKeys k m u.1)

module _ {V : Type 0} where
  -- `range` visits the value `v` at the key `k`.
  abbrev pub Visits : Registry V → String → V → Type 0
  Visits [] k v = ⊥
  Visits ((j, w) ∷ m) k v = ((j ≡ k) × (w ≡ v)) ⊎ Visits m k v

  pub Visits-lookup : (m : Registry V) (k : String) (v : V) → lookup k m ≡ some v → Visits m k v
  unfolding lookup
  Visits-lookup [] k v h = cc
  Visits-lookup ((j, w) ∷ m) k v h = ground (arith, Visits-lookup m k v)

  pub lookup-Visits :
      (m : Registry V) (k : String) (v : V) → HasUniqueKeys m → Visits m k v → lookup k m ≡ some v
  unfolding lookup
  lookup-Visits [] k v u h = absurd h
  lookup-Visits ((j, w) ∷ m) k v u (inl e) = ground arith
  lookup-Visits ((j, w) ∷ m) k v u (inr h) = ground (arith, lookup-Visits m k v u.1 h)

abbrev pub has {ℓ} : {V : Type ℓ} → String → Registry V → Bool
has k m = elim (lookup k m) [ some _ ↦ true | none ↦ false ]
