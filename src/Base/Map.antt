-- ===== src/Base/Map.antt =====
-- Go maps, as association lists in which a key stands once. Go does not fix the order of iteration,
-- and no statement of this library depends on the order of the list.
use mathlib.Core.Path.{◌≡◌, refl}
use mathlib.Core.Bool.{Bool, true, false}
use mathlib.Core.Option.{Option, none, some}
use mathlib.Core.List.{List, [], ◌∷◌, map}
use native.Mathlib.Omega.{arith}
use orv.Base.Tests.{Eq, ◌==◌, if◌then◌else◌}

abbrev pub Map : Type 0 → Type 0 → Type 0
Map K V = List (K × V)

pub beq_refl {ℓ} : {K : Type ℓ} ⦃e : Eq K⦄ (k : K) → (k == k) ≡ true
beq_refl ⦃e⦄ k = (e.beq_iff k k).1 refl

module _ {K V : Type 0} ⦃e : Eq K⦄ where
  -- `v, found := m[k]`
  unfoldable pub lookup : K → Map K V → Option V
  lookup k [] = none
  lookup k ((j, v) ∷ m) = if j == k then some v else lookup k m

  -- `delete(m, k)`
  unfoldable pub remove : K → Map K V → Map K V
  remove k [] = []
  remove k ((j, v) ∷ m) = if j == k then remove k m else (j, v) ∷ remove k m

  -- `m[k] = v`
  unfoldable pub insert : K → V → Map K V → Map K V
  insert k v m = (k, v) ∷ remove k m

  pub lookup-remove :
      (k j : K) (m : Map K V) → lookup j (remove k m) ≡ (if k == j then none else lookup j m)
  unfolding lookup remove
  lookup-remove k j [] = ground arith
  lookup-remove k j ((i, v) ∷ m) =
      ground (arith, e.beq_iff k j, e.beq_iff i k, e.beq_iff i j, lookup-remove k j m)

  pub lookup-insert :
      (k j : K) (v : V) (m : Map K V)
      → lookup j (insert k v m) ≡ (if k == j then some v else lookup j m)
  unfolding lookup insert
  lookup-insert k j v m = ground (arith, lookup-remove k j m)

  pub lookup-empty : (k : K) → lookup k [] ≡ none
  unfolding lookup
  lookup-empty k = refl

  -- `len(m) == 0`
  unfoldable pub is_empty : Map K V → Bool
  is_empty [] = true
  is_empty (x ∷ m) = false

  pub is_empty-lookup : (m : Map K V) (k : K) → is_empty m ≡ true → lookup k m ≡ none
  unfolding is_empty lookup
  is_empty-lookup [] k h = refl
  is_empty-lookup (x ∷ m) k h = cc

  pub is_empty-insert : (k : K) (v : V) (m : Map K V) → is_empty (insert k v m) ≡ false
  unfolding is_empty insert
  is_empty-insert k v m = refl

  pub is_empty-one : (k : K) (v : V) → is_empty ((k, v) ∷ []) ≡ false
  unfolding is_empty
  is_empty-one k v = refl

  -- A map that is not empty binds the key at its head.
  pub not_empty-lookup :
      (m : Map K V) → is_empty m ≡ false → (k : K) × (v : V) × (lookup k m ≡ some v)
  unfolding is_empty lookup
  not_empty-lookup [] h = cc
  not_empty-lookup ((k, v) ∷ m) h = (k, v, rw (beq_refl k))

module _ {K V : Type 0} where
  -- The keys, in the order of a `range` loop.
  abbrev pub keys : Map K V → List K
  keys m = map (λ p. p.0) m

  abbrev pub values : Map K V → List V
  values m = map (λ p. p.1) m
