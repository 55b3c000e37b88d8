-- ===== src/Contract/NativeWrapper/Covered.antt =====
-- What covers the tokens of any owners: how changes of what one owner holds change it.
use orbitersdk_cpp.Prelude.{
  ℕ, ◌+◌, ◌-◌, ◌^◌, ◌≤◌, ◌≡◌, refl, Bool, true, false, not, ◌&&◌, List, [], ◌∷◌, ltb, ◌==◌, ==_iff,
  if◌then◌else◌, arith, Bool-cases, inl, inr,
}
use orbitersdk_cpp.Contract.SafeUnorderedMap.{member}
use orbitersdk_cpp.Contract.Erc20.Transfers.{after_move}

-- The sum of what the owners hold
unfoldable pub total : (ℕ → ℕ) → List ℕ → ℕ
total f [] = 0
total f (a ∷ owners) = f a + total f owners

unfoldable pub are_distinct : List ℕ → Bool
unfolding member
are_distinct [] = true
are_distinct (a ∷ owners) = not (member a owners) && are_distinct owners

-- Whoever is asked, each once, they hold no more than `n` together.
unfoldable pub IsCovered : (ℕ → ℕ) → ℕ → Type 0
IsCovered f n = (owners : List ℕ) → are_distinct owners ≡ true → total f owners ≤ n

module _ (f g : ℕ → ℕ) where
  total-eq : ((j : ℕ) → g j ≡ f j) → (owners : List ℕ) → total g owners ≡ total f owners
  unfolding total
  total-eq same [] = refl
  total-eq same (a ∷ owners) = omega (arith, same a, total-eq same owners)

  pub IsCovered-eq : (n : ℕ) → ((j : ℕ) → g j ≡ f j) → IsCovered f n → IsCovered g n
  unfolding IsCovered
  IsCovered-eq n same h owners distinct = omega (arith, total-eq same owners, h owners distinct)

  -- A change at `a` changes a sum without `a` not, and a sum with it as much.
  total-absent :
      (a x : ℕ) (owners : List ℕ)
      → ((j : ℕ) → g j ≡ (if a == j then x else f j))
      → member a owners ≡ false
      → total g owners ≡ total f owners
  unfolding total member
  total-absent a x [] change absent = refl
  total-absent a x (j ∷ owners) change absent =
      ground (arith, change j, total-absent a x owners change, (==_iff a j).0, absent)

  total-present :
      (a x : ℕ) (owners : List ℕ)
      → ((j : ℕ) → g j ≡ (if a == j then x else f j))
      → are_distinct owners ≡ true
      → member a owners ≡ true
      → total g owners + f a ≡ total f owners + x
  unfolding total member are_distinct
  total-present a x [] change distinct present = absurd (ground (arith, present))
  total-present a x (j ∷ owners) change distinct present = elim (Bool-cases (a == j)) [
    | inl e ↦
        let same : a ≡ j = (==_iff a j).0 e in
        let absent : member a owners ≡ false = ground (arith, distinct, same) in
        let rest = total-absent a x owners change absent in ground (arith, change j, rest, e, same)
    | inr e ↦
        let others : are_distinct owners ≡ true = ground (arith, distinct) in
        let there : member a owners ≡ true = ground (arith, present, e, (==_iff j a).0) in
        let rest = total-present a x owners change others there in ground (arith, change j, rest, e)
  ]

  -- Who receives `v` needs `v` more to cover it.
  pub IsCovered-raise :
      (a v n : ℕ)
      → ((j : ℕ) → g j ≡ (if a == j then f a + v else f j))
      → IsCovered f n
      → IsCovered g (n + v)
  unfolding IsCovered
  IsCovered-raise a v n change h owners distinct =
      let covered = h owners distinct in
      elim (Bool-cases (member a owners)) [
        | inl e ↦ omega (arith, total-present a (f a + v) owners change distinct e, covered)
        | inr e ↦ omega (arith, total-absent a (f a + v) owners change e, covered)
      ]

  -- Who gives `v` away leaves `v` that need not be covered.
  pub IsCovered-lower :
      (a v n : ℕ)
      → ((j : ℕ) → g j ≡ (if a == j then f a - v else f j))
      → v ≤ f a
      → IsCovered f (n + v)
      → IsCovered g n
  unfolding IsCovered total are_distinct
  IsCovered-lower a v n change enough h owners distinct = elim (Bool-cases (member a owners)) [
    | inl e ↦
        omega (arith, total-present a (f a - v) owners change distinct e, h owners distinct, enough)
    | inr e ↦
        let more : are_distinct (a ∷ owners) ≡ true = ground (arith, distinct, e) in
        omega (arith, total-absent a (f a - v) owners change e, h (a ∷ owners) more, enough)
  ]

pub IsCovered-more : (f : ℕ → ℕ) (n k : ℕ) → n ≤ k → IsCovered f n → IsCovered f k
unfolding IsCovered
IsCovered-more f n k h covered owners distinct = omega (arith, h, covered owners distinct)

-- Each holds less than is there for all.
pub IsCovered-le : (f : ℕ → ℕ) (n a : ℕ) → IsCovered f n → f a ≤ n
unfolding IsCovered total are_distinct member
IsCovered-le f n a covered = omega (arith, covered (a ∷ []) refl)

-- A move of tokens, also one that ends halfway, needs no more than before.
module _ (from to v n : ℕ) (f : ℕ → ℕ) (covered : IsCovered f n) where
  abbrev paid : ℕ → ℕ
  paid j = if from == j then f from - v else f j

  paid-IsCovered : v ≤ f from → IsCovered paid (n - v)
  paid-IsCovered enough =
      let whole : n - v + v ≡ n = omega (arith, enough, IsCovered-le f n from covered) in
      IsCovered-lower f paid from v (n - v) (λ j. refl) enough (rw whole covered)

  pub IsCovered-after_move : IsCovered (after_move from to v f) n
  IsCovered-after_move = elim (Bool-cases (ltb (f from) v)) [
    | inl e ↦ IsCovered-eq f (after_move from to v f) n (λ j. rw e refl) covered
    | inr e ↦ elim (Bool-cases (ltb (paid to + v) (2 ^ 256))) [
      | inl fits ↦
          let enough : v ≤ f from = ground (arith, e) in
          let whole : n - v + v ≤ n = omega (arith, enough, IsCovered-le f n from covered) in
          let received : ℕ → ℕ = λ j. if to == j then paid to + v else paid j in
          let raised =
            IsCovered-raise paid received to v (n - v) (λ j. refl) (paid-IsCovered enough) in
          IsCovered-eq received (after_move from to v f) n (λ j. rw (e, fits) refl)
            (IsCovered-more received (n - v + v) n whole raised)
      | inr over ↦
          let enough : v ≤ f from = ground (arith, e) in
          IsCovered-eq paid (after_move from to v f) n (λ j. rw (e, over) refl)
            (IsCovered-more paid (n - v) n (omega arith) (paid-IsCovered enough))
    ]
  ]
