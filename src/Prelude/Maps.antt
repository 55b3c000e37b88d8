-- ===== src/Prelude/Maps.antt =====
-- `std::unordered_map` with keys that are only compared for equality, as an association list with
-- one entry for a key. No operation that is modelled depends on the order of the entries.
use Prim.Native.Nat.{ℕ}
use mathlib.Core.Path.{◌≡◌, refl}
use mathlib.Core.Bool.{Bool, true, false}
use mathlib.Core.Option.{Option, none, some}
use mathlib.Core.List.{List, [], ◌∷◌}
use native.Mathlib.Omega.{arith}
use orbitersdk_cpp.Prelude.Tests.{◌==◌, if◌then◌else◌}

abbrev pub Assoc {ℓ} : Type ℓ → Type ℓ
Assoc V = List (ℕ × V)

module _ {ℓ} {V : Type ℓ} where
  -- `find`
  unfoldable pub lookup : ℕ → Assoc V → Option V
  lookup key [] = none
  lookup key ((k, value) ∷ rest) = if k == key then some value else lookup key rest

  -- `m[key] = value`, `insert_or_assign`
  unfoldable pub insert : ℕ → V → Assoc V → Assoc V
  insert key value [] = (key, value) ∷ []
  insert key value ((k, old) ∷ rest) =
      if k == key then (key, value) ∷ rest else (k, old) ∷ insert key value rest

  -- `erase`
  unfoldable pub erase : ℕ → Assoc V → Assoc V
  erase key [] = []
  erase key ((k, value) ∷ rest) =
      let others = erase key rest in if k == key then others else (k, value) ∷ others

  unfoldable pub contains : ℕ → Assoc V → Bool
  unfolding lookup
  contains key m = elim (lookup key m) [ none ↦ false | some _ ↦ true ]

  pub lookup-insert :
      (key other : ℕ) (value : V) (m : Assoc V)
      → lookup other (insert key value m) ≡ (if key == other then some value else lookup other m)
  unfolding lookup insert
  lookup-insert key other value [] = refl
  lookup-insert key other value ((k, old) ∷ rest) =
      ground (arith, lookup-insert key other value rest)

  pub lookup-erase :
      (key other : ℕ) (m : Assoc V)
      → lookup other (erase key m) ≡ (if key == other then none else lookup other m)
  unfolding lookup erase
  lookup-erase key other [] = ground arith
  lookup-erase key other ((k, value) ∷ rest) = ground (arith, lookup-erase key other rest)
