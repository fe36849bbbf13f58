-- ===== src/Prelude/Maps.antt =====
-- Go's maps as association lists: a write replaces a key's entry, and a delete removes it.
use Prim.Native.Nat.{suc}
use mathlib.Core.Path.{◌≡◌, refl}
use mathlib.Core.Logic.{inl, inr}
use mathlib.Core.Bool.{Bool, true}
use mathlib.Core.List.{List, [], ◌∷◌}
use mathlib.Core.Option.{Option, none, some}
use native.Mathlib.Omega.{arith}
use klever_node_hub.Prelude.Tests.{if◌then◌else◌, Eq, ◌==◌, Bool-cases}
use klever_node_hub.Prelude.Lists.{length}

abbrev pub Map {ℓ} : Type 0 → Type ℓ → Type ℓ
Map K V = List (K × V)

module _ {ℓ} {K : Type 0} {V : Type ℓ} ⦃e : Eq K⦄ where
  unfoldable pub lookup : K → Map K V → Option V
  lookup k [] = none
  lookup k ((j, v) ∷ m) = if j == k then some v else lookup k m

  unfoldable pub insert : K → V → Map K V → Map K V
  insert k v [] = (k, v) ∷ []
  insert k v ((j, w) ∷ m) = if j == k then (k, v) ∷ m else (j, w) ∷ insert k v m

  unfoldable pub delete : K → Map K V → Map K V
  delete k [] = []
  delete k ((j, w) ∷ m) = let rest = delete k m in if j == k then rest else (j, w) ∷ rest

  -- `for k, v := range m { if !p(k, v) { delete(m, k) } }`
  unfoldable pub retain : (K → V → Bool) → Map K V → Map K V
  retain p [] = []
  retain p ((j, w) ∷ m) = let rest = retain p m in if p j w then (j, w) ∷ rest else rest

pub beq_refl : {K : Type 0} ⦃e : Eq K⦄ (k : K) → (k == k) ≡ true
beq_refl ⦃e⦄ k = (e.same_iff k k).1 refl

module _ {ℓ} {K : Type 0} {V : Type ℓ} ⦃e : Eq K⦄ where
  pub lookup-insert :
      (put got : K) (x : V) (rest : Map K V)
      → lookup got (insert put x rest) ≡ (if put == got then some x else lookup got rest)
  unfolding lookup insert
  lookup-insert put got x [] = refl
  lookup-insert put got x ((head, y) ∷ rest) = ground (
    arith,
    e.same_iff put got,
    e.same_iff head put,
    e.same_iff head got,
    lookup-insert put got x rest,
  )

  pub lookup-delete :
      (k j : K) (m : Map K V) → lookup j (delete k m) ≡ (if k == j then none else lookup j m)
  unfolding lookup delete
  lookup-delete k j [] = ground arith
  lookup-delete k j ((i, w) ∷ m) =
      ground (arith, e.same_iff k j, e.same_iff i k, e.same_iff i j, lookup-delete k j m)

-- Every key has one entry, so that `length` counts the keys.
module _ {ℓ} {K : Type 0} {V : Type ℓ} ⦃e : Eq K⦄ where
  abbrev pub IsUnique : Map K V → Type ℓ
  IsUnique [] = Unit
  IsUnique ((k, v) ∷ m) = (lookup k m ≡ none) × IsUnique m

  pub insert-IsUnique : (k : K) (v : V) (m : Map K V) → IsUnique m → IsUnique (insert k v m)
  unfolding insert lookup
  insert-IsUnique k v [] u = (refl, tt)
  insert-IsUnique k v ((j, w) ∷ m) u =
      ground
        (arith, e.same_iff j k, e.same_iff k j, insert-IsUnique k v m u.1, lookup-insert k j v m)

  pub delete-IsUnique : (k : K) (m : Map K V) → IsUnique m → IsUnique (delete k m)
  unfolding delete
  delete-IsUnique k [] u = tt
  delete-IsUnique k ((j, w) ∷ m) u = ground (arith, delete-IsUnique k m u.1, lookup-delete k j m)

  -- What a filtered map holds under a key.
  abbrev pub keep_if : (K → V → Bool) → K → Option V → Option V
  keep_if p k none = none
  keep_if p k (some v) = if p k v then some v else none

  pub lookup-retain :
      (p : K → V → Bool) (k : K) (m : Map K V)
      → IsUnique m
      → lookup k (retain p m) ≡ keep_if p k (lookup k m)
  unfolding retain lookup
  lookup-retain p k [] u = refl
  lookup-retain p k ((j, w) ∷ m) u = elim (Bool-cases (j == k)) [
    | inl same ↦ ground (arith, (e.same_iff j k).0 same, lookup-retain p k m u.1)
    | inr other ↦ ground (arith, lookup-retain p k m u.1)
  ]

  pub retain-IsUnique : (p : K → V → Bool) (m : Map K V) → IsUnique m → IsUnique (retain p m)
  unfolding retain
  retain-IsUnique p [] u = tt
  retain-IsUnique p ((j, w) ∷ m) u =
      ground (arith, retain-IsUnique p m u.1, lookup-retain p j m u.1)

  pub length-insert :
      (k : K) (v : V) (m : Map K V)
      → length (insert k v m) ≡ (elim (lookup k m) [ none ↦ suc (length m) | some _ ↦ length m ])
  unfolding insert lookup
  length-insert k v [] = refl
  length-insert k v ((j, w) ∷ m) = ground (arith, length-insert k v m)

  delete_absent : (k : K) (m : Map K V) → lookup k m ≡ none → delete k m ≡ m
  unfolding lookup delete
  delete_absent k [] h = refl
  delete_absent k ((j, w) ∷ m) h = ground (arith, delete_absent k m)

  pub length-delete :
      (k : K) (m : Map K V)
      → IsUnique m
      → length m
        ≡ (elim (lookup k m) [ none ↦ length (delete k m) | some _ ↦ suc (length (delete k m)) ])
  unfolding delete lookup
  length-delete k [] u = refl
  length-delete k ((j, w) ∷ m) u = elim (Bool-cases (j == k)) [
    | inl same ↦ ground (arith, (e.same_iff j k).0 same, delete_absent k m)
    | inr other ↦ ground (arith, length-delete k m u.1)
  ]
