-- ===== src/Core/Rdpos/Pool/Round.antt =====
-- The invariant of the validators' mempool: it never holds more than what one block needs.
use orbitersdk_cpp.Prelude.{
  ℕ, zero, suc, ◌+◌, ◌*◌, ◌%◌, ◌^◌, ◌≤◌, ◌≡◌, refl, ap, Bool, true, false, some, List, [], ◌∷◌,
  ◌++◌, Result, ok, err, Assoc, lookup, insert, contains, length, get_elem?, take, drop, ◌==◌,
  ==_iff, if◌then◌else◌, arith, inl, inr, Bool-cases, Option-cases,
}
use native.Mathlib.Numerals.{add-one}
use orbitersdk_cpp.Core.Chain.{TxValidator, Block}
use orbitersdk_cpp.Core.Rdpos.{Rdpos, min_validators, bytes_eq}
use orbitersdk_cpp.Core.Rdpos.Pool.{participates, from_sender, admits, add_from, add_validator_tx}

-- At most one transaction for each of the two functions.
abbrev pub FewEach : List TxValidator → Type 0
FewEach [] = Unit
FewEach (a ∷ []) = Unit
FewEach (a ∷ b ∷ []) = bytes_eq (take 4 a.bytes) (take 4 b.bytes) ≡ false
FewEach (_ ∷ _ ∷ _ ∷ _) = ⊥

abbrev pub member : ℕ → List ℕ → Bool
member a [] = false
member a (x ∷ xs) = if a == x then true else member a xs

-- Every transaction is for the height `h` and by one of the validators `chosen`.
abbrev pub Belongs : ℕ → List ℕ → Assoc TxValidator → Type 0
Belongs h chosen [] = Unit
Belongs h chosen ((k, tx) ∷ m) =
    ((tx.n_height ≡ h) × (member tx.from chosen ≡ true)) × Belongs h chosen m

-- The invariant in a round: the mempool holds transactions for the height `h`, all of validators that
-- take part, and of each sender at most one for each function.
pub record IsRound (h : ℕ) (r : Rdpos) : Type 0 where
  pub belongs : Belongs h (take min_validators (drop 1 r.random_list)) r.validator_mempool
  pub few : (from : ℕ) → FewEach (from_sender from r.validator_mempool)

from_sender-insert :
    (from : ℕ) (tx : TxValidator) (m : Assoc TxValidator)
    → contains tx.hash m ≡ false
    → from_sender from (insert tx.hash tx m)
      ≡ (if tx.from == from then from_sender from m ++ (tx ∷ []) else from_sender from m)
unfolding from_sender insert contains lookup
from_sender-insert from tx [] new = ground arith
from_sender-insert from tx ((k, u) ∷ m) new = ground (arith, from_sender-insert from tx m)

FewEach-snoc :
    (tx : TxValidator) (txs : List TxValidator) → admits tx txs ≡ true → FewEach (txs ++ (tx ∷ []))
unfolding admits
FewEach-snoc tx [] h = tt
FewEach-snoc tx (a ∷ []) h = ground arith
FewEach-snoc tx (a ∷ b ∷ txs) h = cc

Belongs-insert :
    (h : ℕ) (chosen : List ℕ) (tx : TxValidator) (m : Assoc TxValidator)
    → tx.n_height ≡ h
    → member tx.from chosen ≡ true
    → Belongs h chosen m
    → Belongs h chosen (insert tx.hash tx m)
unfolding insert
Belongs-insert h chosen tx [] e p b = ((e, p), tt)
Belongs-insert h chosen tx ((k, u) ∷ m) e p b = ground (arith, Belongs-insert h chosen tx m e p b.1)

drop_at : (i v : ℕ) (xs : List ℕ) → get_elem? xs i ≡ some v → drop i xs ≡ v ∷ drop (suc i) xs
drop_at i v [] h = cc
drop_at zero v (x ∷ xs) h = ground arith
drop_at (suc i) v (x ∷ xs) h = drop_at i v xs h

participates-member :
    (left i from : ℕ) (random_list : List ℕ)
    → participates left i random_list from ≡ ok true
    → member from (take left (drop i random_list)) ≡ true
unfolding participates
participates-member zero i from random_list h = cc
participates-member (suc left) i from random_list h =
    elim (Option-cases (get_elem? random_list i)) [
      | inl e ↦ absurd (ground arith)
      | inr (v, e) ↦ rw (drop_at i v random_list e) (
          ground (
            arith,
            ap (λ k. drop k random_list) (add-one i),
            participates-member left (i + 1) from random_list,
          ))
    ]

module _ (h : ℕ) (tx : TxValidator) (r : Rdpos) where
  admitted_few :
      (from : ℕ)
      → contains tx.hash r.validator_mempool ≡ false
      → admits tx (from_sender tx.from r.validator_mempool) ≡ true
      → FewEach (from_sender from r.validator_mempool)
      → FewEach (from_sender from (insert tx.hash tx r.validator_mempool))
  admitted_few from new admitted few = elim (Bool-cases (tx.from == from)) [
    | inl same ↦
        rw (from_sender-insert from tx r.validator_mempool new, same)
          (rw (← (==_iff tx.from from).0 same) (FewEach-snoc tx _ admitted))
    | inr other ↦ rw (from_sender-insert from tx r.validator_mempool new, other) few
  ]

  add_from-IsRound :
      (found : Result Bool)
      → participates min_validators 1 r.random_list tx.from ≡ found
      → contains tx.hash r.validator_mempool ≡ false
      → tx.n_height ≡ h
      → IsRound h r
      → IsRound h (add_from tx found r).1
  unfolding add_from
  add_from-IsRound (err e) takes new height inv = inv
  add_from-IsRound (ok false) takes new height inv = inv
  add_from-IsRound (ok true) takes new height inv =
      elim (Bool-cases (admits tx (from_sender tx.from r.validator_mempool))) [
        | inr refused ↦ rw refused inv
        | inl admitted ↦ rw admitted (record {
          belongs =
              Belongs-insert h (take min_validators (drop 1 r.random_list)) tx r.validator_mempool
                height (participates-member min_validators 1 tx.from r.random_list takes)
                inv.belongs;
          few = λ from. admitted_few from new admitted (inv.few from);
        })
      ]

-- `addValidatorTx` keeps the invariant of the round for the height after the latest block, whatever
-- transaction it is given and however it ends.
pub add_validator_tx-IsRound :
    (latest : Block) (tx : TxValidator) (r : Rdpos)
    → IsRound ((latest.n_height + 1) % 2 ^ 64) r
    → IsRound ((latest.n_height + 1) % 2 ^ 64) (add_validator_tx latest tx r).1
unfolding add_validator_tx
add_validator_tx-IsRound latest tx r inv =
    elim (Bool-cases (contains tx.hash r.validator_mempool)) [
      | inl old ↦ rw old inv
      | inr new ↦ elim (Bool-cases (tx.n_height == (latest.n_height + 1) % 2 ^ 64)) [
        | inr wrong ↦ rw (new, wrong) inv
        | inl right ↦
            rw (new, right)
              (add_from-IsRound ((latest.n_height + 1) % 2 ^ 64) tx r _ refl new
                ((==_iff tx.n_height _).0 right) inv)
      ]
    ]

sum_from : List ℕ → Assoc TxValidator → ℕ
sum_from [] m = 0
sum_from (v ∷ vs) m = length (from_sender v m) + sum_from vs m

sum_from-cons :
    (chosen : List ℕ) (k : ℕ) (tx : TxValidator) (m : Assoc TxValidator)
    → (if member tx.from chosen then 1 else 0) + sum_from chosen m ≤ sum_from chosen ((k, tx) ∷ m)
unfolding sum_from from_sender
sum_from-cons [] k tx m = omega arith
sum_from-cons (v ∷ vs) k tx m = ground (arith, sum_from-cons vs k tx m)

length-le-sum_from :
    (h : ℕ) (chosen : List ℕ) (m : Assoc TxValidator)
    → Belongs h chosen m
    → length m ≤ sum_from chosen m
length-le-sum_from h chosen [] b = omega arith
length-le-sum_from h chosen ((k, tx) ∷ m) b =
    ground (arith, sum_from-cons chosen k tx m, length-le-sum_from h chosen m b.1)

FewEach-le : (txs : List TxValidator) → FewEach txs → length txs ≤ 2
FewEach-le [] f = omega arith
FewEach-le (a ∷ []) f = omega arith
FewEach-le (a ∷ b ∷ []) f = omega arith
FewEach-le (a ∷ b ∷ c ∷ txs) f = absurd f

sum_from-le :
    (chosen : List ℕ) (m : Assoc TxValidator)
    → ((from : ℕ) → FewEach (from_sender from m))
    → sum_from chosen m ≤ 2 * length chosen
unfolding sum_from
sum_from-le [] m few = omega arith
sum_from-le (v ∷ vs) m few =
    omega (arith, FewEach-le (from_sender v m) (few v), sum_from-le vs m few)

length-take-le : (n : ℕ) (xs : List ℕ) → length (take n xs) ≤ n
length-take-le zero xs = omega arith
length-take-le (suc n) [] = omega arith
length-take-le (suc n) (x ∷ xs) = omega (arith, length-take-le n xs)

-- In a round the mempool of the validators holds at most the 8 transactions that a block takes.
validator_mempool-le :
    (h : ℕ) (r : Rdpos) → IsRound h r → length r.validator_mempool ≤ min_validators * 2
validator_mempool-le h r inv =
    let chosen = take min_validators (drop 1 r.random_list) in
    omega (
      arith,
      length-le-sum_from h chosen r.validator_mempool inv.belongs,
      sum_from-le chosen r.validator_mempool inv.few,
      length-take-le min_validators (drop 1 r.random_list),
    )
