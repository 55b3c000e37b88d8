-- ===== src/Contract/Erc20/Transfers.antt =====
-- What `transfer` and `transferFrom` of contract/erc20.cpp do to the balances.
use orbitersdk_cpp.Prelude.{
  ℕ, ◌+◌, ◌-◌, ◌^◌, ◌≡◌, refl, ◌∙◌, ap, Option, none, some, Result, ok, err, range_error,
  overflow_error, ltb, ◌==◌, ==_iff, if◌then◌else◌, arith, Bool-cases, inl, inr,
}
use orbitersdk_cpp.Core.Chain.{checked_256}
use orbitersdk_cpp.Contract.SafeUnorderedMap.{index, write, find_const}
use orbitersdk_cpp.Contract.SafeUnorderedMap.Laws.{
  shown, or_zero, index-shown, shown-write, find_const-shown,
}
use orbitersdk_cpp.Contract.Erc20.{
  Erc20, Balances, sub_balance, add_balance, move, value_of, transfer, balance_of, allowance,
}

-- The balances as `balanceOf` answers them.
abbrev pub balance : Balances → ℕ → ℕ
balance s a = value_of (shown s.self a)

or_zero-some : (o : Option ℕ) → or_zero 0 o ≡ some (value_of o)
or_zero-some none = refl
or_zero-some (some b) = refl

module _ (a j : ℕ) (s : Balances) where
  indexed_balance : (index 0 a s).0 ≡ some (balance s a)
  indexed_balance = (index-shown 0 a j s).0 ∙ or_zero-some (shown s.self a)

  balance-index : balance ((index 0 a s).1) j ≡ balance s j
  balance-index = elim (Bool-cases (a == j)) [
    | inl e ↦
        ap value_of ((index-shown 0 a j s).1)
        ∙ rw (e, or_zero-some (shown s.self a), (==_iff a j).0 e) refl
    | inr e ↦ ap value_of ((index-shown 0 a j s).1) ∙ rw e refl
  ]

balance-write :
    (a j v : ℕ) (s : Balances) → balance (write a v s) j ≡ (if a == j then v else balance s j)
balance-write a j v s =
    ap value_of (shown-write a j v s)
    ∙ (elim (Bool-cases (a == j)) [ inl e ↦ rw e refl | inr e ↦ rw e refl ])

pub sub_balance_lem :
    (a v j : ℕ) (s : Balances)
    → let (r, s') = sub_balance a v s in
      let short = ltb (balance s a) v in
      (r ≡ (if short then err range_error else ok tt))
      × (balance s' j
          ≡ (if short then balance s j else if a == j then balance s a - v else balance s j))
unfolding sub_balance
sub_balance_lem a v j s = (
  ground (arith, indexed_balance a j s),
  ground (
    arith,
    indexed_balance a j s,
    balance-index a j s,
    balance-write a j (balance s a - v) ((index 0 a s).1),
  ),
)

pub add_balance_lem :
    (a v j : ℕ) (s : Balances)
    → let (r, s') = add_balance a v s in
      let fits = ltb (balance s a + v) (2 ^ 256) in
      (r ≡ (if fits then ok tt else err overflow_error))
      × (balance s' j
          ≡ (if fits then if a == j then balance s a + v else balance s j else balance s j))
unfolding add_balance checked_256
add_balance_lem a v j s = (
  ground (arith, indexed_balance a j s),
  ground (
    arith,
    indexed_balance a j s,
    balance-index a j s,
    balance-write a j (balance s a + v) ((index 0 a s).1),
  ),
)

-- A move of `v` leaves the sender `v` poorer and the receiver `v` richer, in this order, so that a move
-- to oneself changes nothing.
abbrev pub moved : ℕ → ℕ → ℕ → (ℕ → ℕ) → ℕ → ℕ
moved from to v f j =
    let paid = if from == j then f from - v else f j in
    let held = if from == to then f from - v else f to in if to == j then held + v else paid

-- How a move ends, and the balances after it; a receiver's balance that 256 bits do not hold is found when
-- the sender has paid.
abbrev pub move_result : ℕ → ℕ → ℕ → (ℕ → ℕ) → Result (Unit {0})
move_result from to v f =
    let held = if from == to then f from - v else f to in
    if ltb (f from) v
    then err range_error
    else if ltb (held + v) (2 ^ 256)
    then ok tt
    else err overflow_error

abbrev pub after_move : ℕ → ℕ → ℕ → (ℕ → ℕ) → ℕ → ℕ
after_move from to v f j =
    let held = if from == to then f from - v else f to in
    let paid = if from == j then f from - v else f j in
    if ltb (f from) v then f j else if ltb (held + v) (2 ^ 256) then moved from to v f j else paid

move_lem :
    (from to v j : ℕ) (s : Balances)
    → let (r, s') = move from to v s in
      (r ≡ move_result from to v (balance s)) × (balance s' j ≡ after_move from to v (balance s) j)
unfolding move
move_lem from to v j s =
    let s1 = (sub_balance from v s).1 in
    (
      ground (arith, sub_balance_lem from v to s, add_balance_lem to v j s1),
      ground (
        arith,
        sub_balance_lem from v to s,
        sub_balance_lem from v j s,
        add_balance_lem to v j s1,
      ),
    )

abbrev pub scope_of : Erc20 → Balances
scope_of t = record { self = t.balances; used_variables = t.used_variables }

pub balance_of-shown : (a : ℕ) (t : Erc20) → balance_of a t ≡ balance (scope_of t) a
unfolding balance_of
balance_of-shown a t = ap value_of ((find_const-shown a a (scope_of t)).0)

-- Tokens only move: `transfer` throws if the caller has less than the amount, or if the receiver's
-- balance would pass 256 bits; otherwise the caller's balance falls and the receiver's grows by the amount
-- (a transfer to oneself changes nothing), and every other balance stays. No transfer touches an
-- allowance.
pub transfer_moves :
    (caller to v j owner spender : ℕ) (t : Erc20)
    → let (r, t') = transfer caller to v t in
      let f = λ (a : ℕ). balance (scope_of t) a in
      (r ≡ move_result caller to v f)
      × (balance_of j t' ≡ after_move caller to v f j)
      × (allowance owner spender t' ≡ allowance owner spender t)
unfolding transfer allowance find_const
transfer_moves caller to v j owner spender t =
    let (r, f) = move_lem caller to v j (scope_of t) in
    (r, balance_of-shown j ((transfer caller to v t).1) ∙ f, refl)
