-- ===== src/Core/Rdpos/Shuffle.antt =====
-- `RandomGen::shuffle` of utils/randomgen.h, which orders the validators: it only reorders.
use native.Mathlib.Nat.{mod-lt}
use orbitersdk_cpp.Prelude.{
  ℕ, zero, suc, ◌+◌, ◌-◌, ◌%◌, ◌^◌, ◌≤◌, ◌<◌, ◌≡◌, refl, none, some, List, [], ◌∷◌, length,
  get_elem?, set, ◌==◌, if◌then◌else◌, arith, inl, inr, Option-cases,
}

-- `std::swap(v[n], v[i])`; an index out of range, which C++ leaves undefined, does nothing here,
-- and does not occur.
unfoldable pub swap : ℕ → ℕ → List ℕ → List ℕ
swap n i v = elim (get_elem? v n) [
  | none ↦ v
  | some a ↦ elim (get_elem? v i) [ none ↦ v | some b ↦ set (set v n b) i a ]
]

module _ (next_seed : ℕ → ℕ) where
  -- The loop at index `i` with `left` rounds to go
  unfoldable pub shuffle_loop : ℕ → ℕ → ℕ → List ℕ → ℕ × List ℕ
  shuffle_loop zero i seed v = (seed, v)
  shuffle_loop (suc left) i seed v =
      let seed' = next_seed seed in
      let n = (i + seed' % (length v - i)) % 2 ^ 64 in shuffle_loop left (i + 1) seed' (swap n i v)

  unfoldable pub shuffle : ℕ → List ℕ → ℕ × List ℕ
  unfolding shuffle_loop
  shuffle seed v = shuffle_loop (length v) 0 seed v

-- How often `a` occurs.
abbrev pub count : ℕ → List ℕ → ℕ
count a [] = 0
count a (x ∷ xs) = (if x == a then 1 else 0) + count a xs

length-set : (xs : List ℕ) (i v : ℕ) → length (set xs i v) ≡ length xs
length-set [] i v = refl
length-set (x ∷ xs) zero v = refl
length-set (x ∷ xs) (suc i) v = omega (arith, length-set xs i v)

abbrev one_if : ℕ → ℕ → ℕ
one_if x a = if x == a then 1 else 0

count-set :
    (a : ℕ) (xs : List ℕ) (i v x : ℕ)
    → get_elem? xs i ≡ some x
    → count a (set xs i v) + one_if x a ≡ count a xs + one_if v a
count-set a [] i v x h = ground arith
count-set a (y ∷ xs) zero v x h = ground arith
count-set a (y ∷ xs) (suc i) v x h = omega (arith, count-set a xs i v x h)

get_elem?-set :
    (xs : List ℕ) (n i v y : ℕ)
    → get_elem? xs i ≡ some y
    → get_elem? (set xs n v) i ≡ (if n == i then some v else some y)
get_elem?-set [] n i v y h = ground arith
get_elem?-set (x ∷ xs) zero zero v y h = ground arith
get_elem?-set (x ∷ xs) zero (suc i) v y h = ground arith
get_elem?-set (x ∷ xs) (suc n) zero v y h = ground arith
get_elem?-set (x ∷ xs) (suc n) (suc i) v y h = ground (arith, get_elem?-set xs n i v y h)

length-swap : (n i : ℕ) (v : List ℕ) → length (swap n i v) ≡ length v
unfolding swap
length-swap n i v = grind (arith, length-set)

count-swap_found :
    (a n i x y : ℕ) (v : List ℕ)
    → get_elem? v n ≡ some x
    → get_elem? v i ≡ some y
    → count a (swap n i v) ≡ count a v
unfolding swap
count-swap_found a n i x y v ex ey = ground (
  arith,
  count-set a v n y x ex,
  count-set a (set v n y) i x y (ground (arith, get_elem?-set v n i y y ey)),
)

count-swap : (a n i : ℕ) (v : List ℕ) → count a (swap n i v) ≡ count a v
count-swap a n i v = elim (Option-cases (get_elem? v n)) [
  | inl e ↦ unfold swap in ground arith
  | inr (x, ex) ↦ elim (Option-cases (get_elem? v i)) [
    | inl e ↦ unfold swap in ground arith
    | inr (y, ey) ↦ count-swap_found a n i x y v ex ey
  ]
]

module _ (next_seed : ℕ → ℕ) where
  shuffle_loop_lem :
      (left i seed a : ℕ) (v : List ℕ)
      → (length (shuffle_loop next_seed left i seed v).1 ≡ length v)
        × (count a (shuffle_loop next_seed left i seed v).1 ≡ count a v)
  unfolding shuffle_loop
  shuffle_loop_lem zero i seed a v = (refl, refl)
  shuffle_loop_lem (suc left) i seed a v =
      let seed' = next_seed seed in
      let n = (i + seed' % (length v - i)) % 2 ^ 64 in
      omega (
        arith,
        shuffle_loop_lem left (i + 1) seed' a (swap n i v),
        length-swap n i v,
        count-swap a n i v,
      )

  -- The index with which the loop swaps is in range, for a vector that 64 bits can index.
  pub shuffle_index-lt :
      (i seed : ℕ) (v : List ℕ)
      → i < length v
      → length v ≤ 2 ^ 64
      → (i + seed % (length v - i)) % 2 ^ 64 < length v
  shuffle_index-lt i seed v h k =
      let below : seed % (length v - i) < length v - i = mod-lt seed (omega arith) in
      omega (arith, below)

  -- `shuffle` only reorders: the result is as long, and has every element as often.
  pub shuffle_reorders :
      (seed a : ℕ) (v : List ℕ)
      → (length (shuffle next_seed seed v).1 ≡ length v)
        × (count a (shuffle next_seed seed v).1 ≡ count a v)
  unfolding shuffle
  shuffle_reorders seed a v = shuffle_loop_lem (length v) 0 seed a v
