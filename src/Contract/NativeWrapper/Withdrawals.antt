-- ===== src/Contract/NativeWrapper/Withdrawals.antt =====
-- How tokens of a NativeWrapper are sold.
use orbitersdk_cpp.Prelude.{
  ℕ, ◌-◌, ◌≡◌, refl, err, runtime_error, range_error, Assoc, ltb, ◌==◌, if◌then◌else◌, Bool-cases,
  inl, inr,
}
use orbitersdk_cpp.Core.Chain.{Account}
use orbitersdk_cpp.Contract.Erc20.Transfers.{scope_of, sub_balance_lem, move_result, after_move}
use orbitersdk_cpp.Contract.Interface.Transfers.{native, send_tokens_moves}
use orbitersdk_cpp.Contract.NativeWrapper.{NativeWrapper, withdraw}
use orbitersdk_cpp.Contract.NativeWrapper.Backed.{held, withdraw_short, withdraw_enough}

-- `withdraw` throws and changes nothing if the caller holds fewer tokens than the amount. Otherwise they are taken, and then `sendTokens` throws and moves nothing if the caller has less than the amount in native tokens already, and else ends as a move of native tokens from the contract to the caller; tokens of others stay.
pub withdraw_moves :
    (accounts : Assoc Account) (here caller v j : ℕ) (w : NativeWrapper)
    → let (r, w') = withdraw accounts here caller v w in
      let tokens = held w.token in
      let f = native accounts w.native_balances in
      let short = ltb (tokens caller) v in
      let refused = ltb (f caller) v in
      (r ≡ (
        if short
        then err range_error
        else if refused
        then err runtime_error
        else move_result here caller v f))
      × (held w'.token j
          ≡ (if short then tokens j else if caller == j then tokens caller - v else tokens j))
      × (native accounts w'.native_balances j
          ≡ (if short then f j else if refused then f j else after_move here caller v f j))
withdraw_moves accounts here caller v j w =
    let (sent, after) = send_tokens_moves accounts here caller v j w.native_balances in
    let taken = (sub_balance_lem caller v j (scope_of w.token)).1 in
    elim (Bool-cases (ltb (held w.token caller) v)) [
      | inl e ↦ rw (withdraw_short accounts here caller v w e, taken, e) (refl, refl, refl)
      | inr e ↦ rw (withdraw_enough accounts here caller v w e, taken, e) (sent, refl, after)
    ]
