-- ===== src/Contract/NativeWrapper/Backed.antt =====
-- The tokens of a NativeWrapper are backed by native ones.
use orbitersdk_cpp.Prelude.{
  ℕ, ◌+◌, ◌^◌, ◌≤◌, ◌≡◌, refl, sym, ◌∙◌, ap, true, false, err, range_error, Assoc, ltb, arith,
  Bool-cases, inl, inr,
}
use orbitersdk_cpp.Core.Chain.{Account}
use orbitersdk_cpp.Contract.SafeUnorderedMap.Laws.{shown}
use orbitersdk_cpp.Contract.Erc20 as Token
use orbitersdk_cpp.Contract.Erc20.{
  Erc20, balance_of, allowance, value_of, sub_balance, add_balance, on_balances,
}
use orbitersdk_cpp.Contract.Erc20.Transfers.{
  balance, scope_of, balance_of-shown, sub_balance_lem, add_balance_lem, after_move, transfer_moves,
}
use orbitersdk_cpp.Contract.Erc20.Allowances.{transfer_from_moves, balances-approve}
use orbitersdk_cpp.Contract.Interface.{send_tokens}
use orbitersdk_cpp.Contract.Interface.Transfers.{native, send_tokens_moves}
use orbitersdk_cpp.Contract.NativeWrapper.{
  NativeWrapper, Call, call_transfer, call_approve, call_transfer_from, call_deposit, call_withdraw,
  on_token, on_native, transfer, approve, transfer_from, deposit, withdraw, run,
}
use orbitersdk_cpp.Contract.NativeWrapper.Covered.{
  IsCovered, IsCovered-eq, IsCovered-raise, IsCovered-lower, IsCovered-more, IsCovered-le,
  IsCovered-after_move,
}

-- What the owners of tokens hold
abbrev pub held : Erc20 → ℕ → ℕ
held t a = balance (scope_of t) a

-- Each call that only moves tokens needs no more than before.
module _ (caller n : ℕ) (t : Erc20) (covered : IsCovered (held t) n) where
  transfer-IsCovered : (to v : ℕ) → IsCovered (held ((Token.transfer caller to v t).1)) n
  transfer-IsCovered to v =
      let t' : Erc20 = (Token.transfer caller to v t).1 in
      IsCovered-eq (after_move caller to v (held t)) (held t') n
        (λ j. sym (balance_of-shown j t') ∙ (transfer_moves caller to v j 0 0 t).1)
        (IsCovered-after_move caller to v n (held t) covered)

  transfer_from-IsCovered :
      (from to v : ℕ) → IsCovered (held ((Token.transfer_from caller from to v t).1)) n
  transfer_from-IsCovered from to v =
      let t' : Erc20 = (Token.transfer_from caller from to v t).1 in
      let shown : (j : ℕ) → held t' j ≡ _ =
        λ j. sym (balance_of-shown j t') ∙ (transfer_from_moves caller from to v j 0 0 t).1 in
      elim (Bool-cases (ltb (allowance from caller t) v)) [
        | inl e ↦ IsCovered-eq (held t) (held t') n (λ j. shown j ∙ rw e refl) covered
        | inr e ↦
            IsCovered-eq (after_move from to v (held t)) (held t') n (λ j. shown j ∙ rw e refl)
              (IsCovered-after_move from to v n (held t) covered)
      ]

  approve-IsCovered : (spender v : ℕ) → IsCovered (held ((Token.approve caller spender v t).1)) n
  approve-IsCovered spender v =
      let t' : Erc20 = (Token.approve caller spender v t).1 in
      IsCovered-eq (held t) (held t') n
        (λ j. ap (λ b. value_of (shown b j)) (balances-approve caller spender v t)) covered

  deposit-IsCovered : (v : ℕ) → IsCovered (held ((on_balances (add_balance caller v) t).1)) (n + v)
  deposit-IsCovered v =
      let t' : Erc20 = (on_balances (add_balance caller v) t).1 in
      let added = λ (j : ℕ). (add_balance_lem caller v j (scope_of t)).1 in
      elim (Bool-cases (ltb (held t caller + v) (2 ^ 256))) [
        | inl e ↦ IsCovered-raise (held t) (held t') caller v n (λ j. added j ∙ rw e refl) covered
        | inr e ↦
            IsCovered-more (held t') n (n + v) (omega arith)
              (IsCovered-eq (held t) (held t') n (λ j. added j ∙ rw e refl) covered)
      ]

-- The value that the contract received with the call, before it runs
unfoldable pub received : Call → ℕ
received (call_deposit value) = value
received _ = 0

module _ (accounts : Assoc Account) (here : ℕ) where
  -- The owners' tokens are no more than the native tokens of the contract.
  unfoldable pub IsBacked : NativeWrapper → Type 0
  unfolding IsCovered
  IsBacked w = IsCovered (held w.token) (native accounts w.native_balances here)

  module _ (caller v : ℕ) (w : NativeWrapper) where
    abbrev pub charged : NativeWrapper
    charged = (on_token (on_balances (sub_balance caller v)) w).1

    pub withdraw_short :
        ltb (held w.token caller) v ≡ true
        → withdraw accounts here caller v w ≡ (err range_error, charged)
    unfolding withdraw
    withdraw_short e = ground (arith, (sub_balance_lem caller v 0 (scope_of w.token)).0, e)

    pub withdraw_enough :
        ltb (held w.token caller) v ≡ false
        → withdraw accounts here caller v w ≡ on_native (send_tokens accounts here caller v) charged
    unfolding withdraw
    withdraw_enough e = ground (arith, (sub_balance_lem caller v 0 (scope_of w.token)).0, e)

    native_left :
        v ≤ native accounts w.native_balances here
        → native accounts w.native_balances here
          ≤ native accounts ((send_tokens accounts here caller v w.native_balances).1) here + v
    native_left enough =
        ground (arith, (send_tokens_moves accounts here caller v here w.native_balances).1, enough)

    withdraw-IsBacked : IsBacked w → IsBacked ((withdraw accounts here caller v w).1)
    unfolding IsBacked
    withdraw-IsBacked covered =
        let f : ℕ → ℕ = held w.token in
        let n : ℕ = native accounts w.native_balances here in
        let taken = λ (j : ℕ). (sub_balance_lem caller v j (scope_of w.token)).1 in
        elim (Bool-cases (ltb (f caller) v)) [
          | inl e ↦
              rw (withdraw_short e)
                (IsCovered-eq f (held charged.token) n (λ j. taken j ∙ rw e refl) covered)
          | inr e ↦
              let enough : v ≤ f caller = ground (arith, e) in
              let within : v ≤ n = omega (arith, enough, IsCovered-le f n caller covered) in
              let left = native_left within in
              let n' : ℕ =
                native accounts ((send_tokens accounts here caller v w.native_balances).1) here in
              rw (withdraw_enough e) (
                IsCovered-lower f (held charged.token) caller v n' (λ j. taken j ∙ rw e refl) enough
                  (IsCovered-more f n (n' + v) left covered))
        ]

  -- If the owners of tokens were covered before the value of a call arrived, then the contract is backed after the call, whoever calls and whether it throws or not: the tokens of any owners, each taken once, are no more than the native tokens that the contract has.
  pub run-IsBacked :
      (caller : ℕ) (call : Call) (n : ℕ) (w : NativeWrapper)
      → IsCovered (held w.token) n
      → native accounts w.native_balances here ≡ n + received call
      → IsBacked ((run accounts here caller call w).1)
  unfolding IsBacked run transfer approve transfer_from deposit received
  run-IsBacked caller (call_transfer to value) n w covered arrived =
      IsCovered-more _ n _ (omega (arith, arrived))
        (transfer-IsCovered caller n w.token covered to value)
  run-IsBacked caller (call_approve spender value) n w covered arrived =
      IsCovered-more _ n _ (omega (arith, arrived))
        (approve-IsCovered caller n w.token covered spender value)
  run-IsBacked caller (call_transfer_from from to value) n w covered arrived =
      IsCovered-more _ n _ (omega (arith, arrived))
        (transfer_from-IsCovered caller n w.token covered from to value)
  run-IsBacked caller (call_deposit value) n w covered arrived =
      IsCovered-more _ (n + value) _ (omega (arith, arrived))
        (deposit-IsCovered caller n w.token covered value)
  run-IsBacked caller (call_withdraw value) n w covered arrived =
      withdraw-IsBacked caller value w
        (IsCovered-more (held w.token) n _ (omega (arith, arrived)) covered)
