-- ===== src/Contract/Erc20/Allowances.antt =====
-- What `transferFrom` of contract/erc20.cpp does to the allowances and the balances.
use orbitersdk_cpp.Contract.Erc20.Transfers.{
  balance, scope_of, balance_of-shown, move_result, after_move, transfer_moves,
}
use orbitersdk_cpp.Prelude.{
  ℕ, ◌-◌, ◌≡◌, refl, ◌∙◌, ap, true, false, Option, none, some, [], ok, err, range_error, Assoc,
  lookup, insert, lookup-insert, ltb, ◌==◌, ==_iff, if◌then◌else◌, arith, Bool-cases, ◌&&◌, inl,
  inr,
}
use orbitersdk_cpp.Contract.SafeBase.{Scope}
use orbitersdk_cpp.Contract.SafeUnorderedMap.{SafeUnorderedMap, index, write}
use orbitersdk_cpp.Contract.SafeUnorderedMap.Laws.{
  shown, or_zero, index-shown, shown-write, find_const-shown,
}
use orbitersdk_cpp.Contract.Erc20.{
  Erc20, value_of, sub_allowed, approve, transfer, transfer_from, balance_of, allowance,
}

-- The allowances that an owner has given.
abbrev given : Option (Assoc ℕ) → Assoc ℕ
given none = []
given (some inner) = inner

abbrev allowances : Erc20 → Scope (SafeUnorderedMap (Assoc ℕ))
allowances t = record { self = t.allowed; used_variables = t.used_variables }

abbrev given_by : ℕ → Scope (SafeUnorderedMap (Assoc ℕ)) → Assoc ℕ
given_by o s = given (shown s.self o)

or_zero-given : (o : Option (Assoc ℕ)) → or_zero [] o ≡ some (given o)
or_zero-given none = refl
or_zero-given (some b) = refl

allowance-given :
    (o p : ℕ) (t : Erc20) → allowance o p t ≡ value_of (lookup p (given_by o (allowances t)))
unfolding allowance lookup
allowance-given o p t = ground (arith, (find_const-shown o o (allowances t)).0)

module _ (a j : ℕ) (s : Scope (SafeUnorderedMap (Assoc ℕ))) where
  indexed_given : (index [] a s).0 ≡ some (given_by a s)
  indexed_given = (index-shown [] a j s).0 ∙ or_zero-given (shown s.self a)

  given-index : given_by j ((index [] a s).1) ≡ given_by j s
  given-index = elim (Bool-cases (a == j)) [
    | inl e ↦
        ap given ((index-shown [] a j s).1)
        ∙ rw (e, or_zero-given (shown s.self a), (==_iff a j).0 e) refl
    | inr e ↦ ap given ((index-shown [] a j s).1) ∙ rw e refl
  ]

  given-write : (m : Assoc ℕ) → given_by j (write a m s) ≡ (if a == j then m else given_by j s)
  given-write m =
      ap given (shown-write a j m s)
      ∙ (elim (Bool-cases (a == j)) [ inl e ↦ rw e refl | inr e ↦ rw e refl ])

-- The allowances after the entry of `p` in those of `owner` is set to `n`.
set_allowance :
    (owner spender n o p : ℕ) (t : Erc20)
    → let inner = given_by owner (allowances t) in
      let s = write owner (insert spender n inner) ((index [] owner (allowances t)).1) in
      value_of (lookup p (given_by o s))
      ≡ (if owner == o && spender == p then n else allowance o p t)
set_allowance owner spender n o p t =
    let inner = given_by owner (allowances t) in
    let s = (index [] owner (allowances t)).1 in
    elim (Bool-cases (owner == o)) [
      | inl e ↦ grind (
        arith,
        given-write owner o s (insert spender n inner),
        lookup-insert spender p n inner,
        allowance-given o p t,
        (==_iff owner o).0,
      )
      | inr e ↦ grind (
        arith,
        given-write owner o s (insert spender n inner),
        given-index owner o (allowances t),
        allowance-given o p t,
      )
    ]

same_entry :
    (owner spender o p : ℕ) (t : Erc20)
    → (if owner == o && spender == p then allowance owner spender t else allowance o p t)
      ≡ allowance o p t
same_entry owner spender o p t = elim (Bool-cases (owner == o && spender == p)) [
  | inl e ↦
      let same : (owner ≡ o) × (spender ≡ p) = (ground arith, ground arith) in
      rw e (ap (λ x. allowance x spender t) same.0 ∙ ap (λ x. allowance o x t) same.1)
  | inr e ↦ rw e refl
]

sub_allowed_lem :
    (owner spender v o p : ℕ) (t : Erc20)
    → let (r, t') = sub_allowed owner spender v t in
      let a = allowance owner spender t in
      (r ≡ (if ltb a v then err range_error else ok tt))
      × (allowance o p t' ≡ (
          if ltb a v
          then allowance o p t
          else if owner == o && spender == p
          then a - v
          else allowance o p t))
      × (t'.balances ≡ t.balances)
unfolding sub_allowed
sub_allowed_lem owner spender v o p t =
    let a = allowance owner spender t in
    (
      ground (arith, indexed_given owner o (allowances t), allowance-given owner spender t),
      elim (Bool-cases (ltb a v)) [
        | inl e ↦ grind (
          arith,
          indexed_given owner o (allowances t),
          allowance-given owner spender t,
          allowance-given o p ((sub_allowed owner spender v t).1),
          set_allowance owner spender a o p t,
          same_entry owner spender o p t,
        )
        | inr e ↦ grind (
          arith,
          indexed_given owner o (allowances t),
          allowance-given owner spender t,
          allowance-given o p ((sub_allowed owner spender v t).1),
          set_allowance owner spender (a - v) o p t,
        )
      ],
      ground (arith, indexed_given owner o (allowances t)),
    )

module _ (caller from to v : ℕ) (t : Erc20) where
  abbrev charged : Erc20
  charged = (sub_allowed from caller v t).1

  transfer_from_short :
      ltb (allowance from caller t) v ≡ true
      → transfer_from caller from to v t ≡ (err range_error, charged)
  unfolding transfer_from
  transfer_from_short e = ground (arith, (sub_allowed_lem from caller v 0 0 t).0)

  transfer_from_enough :
      ltb (allowance from caller t) v ≡ false
      → transfer_from caller from to v t ≡ transfer from to v charged
  unfolding transfer_from transfer
  transfer_from_enough e = ground (arith, (sub_allowed_lem from caller v 0 0 t).0)

-- `transferFrom` throws if the caller's allowance is less than the amount; otherwise the allowance falls by
-- the amount, no other allowance changes, and the owner's tokens move as in `transfer`. An amount over
-- the allowance moves nothing.
pub transfer_from_moves :
    (caller from to v j owner spender : ℕ) (t : Erc20)
    → let (r, t') = transfer_from caller from to v t in
      let f = λ (a : ℕ). balance (scope_of t) a in
      let a = allowance from caller t in
      (r ≡ (if ltb a v then err range_error else move_result from to v f))
      × (balance_of j t' ≡ (if ltb a v then f j else after_move from to v f j))
      × (allowance owner spender t' ≡ (
          if ltb a v
          then allowance owner spender t
          else if from == owner && caller == spender
          then a - v
          else allowance owner spender t))
transfer_from_moves caller from to v j owner spender t =
    let (r, given_after, kept) = sub_allowed_lem from caller v owner spender t in
    let t1 = charged caller from to v t in
    let (r1, f1, a1) = transfer_moves from to v j owner spender t1 in
    elim (Bool-cases (ltb (allowance from caller t) v)) [
      | inl e ↦
          rw (transfer_from_short caller from to v t e, e)
            (
              refl,
              balance_of-shown j t1 ∙ ap (λ b. value_of (shown b j)) kept,
              given_after ∙ rw e refl,
            )
      | inr e ↦
          rw (transfer_from_enough caller from to v t e, e)
            (
              r1 ∙ ap (λ b. move_result from to v (λ a. value_of (shown b a))) kept,
              f1 ∙ ap (λ b. after_move from to v (λ a. value_of (shown b a)) j) kept,
              a1 ∙ given_after ∙ rw e refl,
            )
    ]

-- `approve` changes no balance.
pub balances-approve :
    (caller spender v : ℕ) (t : Erc20) → (approve caller spender v t).1.balances ≡ t.balances
unfolding approve
balances-approve caller spender v t = ground (arith, indexed_given caller caller (allowances t))
