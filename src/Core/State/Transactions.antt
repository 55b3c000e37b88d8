-- ===== src/Core/State/Transactions.antt =====
-- `State::processTransaction`.
pub mod Outcomes
pub mod Effects
pub mod Failures
use orbitersdk_cpp.Prelude.{
  ℕ, Bool, true, false, some, none, Result, ok, err, undefined, if◌then◌else◌, lookup,
}
use orbitersdk_cpp.Prelude.Exec.{Exec, pure, lift, gets, modify, continue, ◌>>=◌, ◌>>◌}
use orbitersdk_cpp.Core.Chain.{Account, TxBlock, value_with_fees}
use orbitersdk_cpp.Core.State.{State, Contracts, sub_balance, add_balance_of, increment_nonce}
use orbitersdk_cpp.Core.State.Calls.{is_contract_address, is_payable, call_contract}

module _ {C R : Type 0} (cm : Contracts C) where
  -- The call of a contract within the `try` block. An exception leaves `processingPayable` as it is.
  unfoldable pub run_contract : TxBlock → Exec (State C R) (Unit {0})
  run_contract tx = do
    payable ← gets (λ s. is_payable cm s.contracts tx)
    modify (λ s. if payable then record s { processing_payable = true } else s)
    call_contract cm tx
    modify (λ s. record s { processing_payable = false })

  -- The `try` block
  unfoldable pub transfer : TxBlock → Exec (State C R) (Unit {0})
  transfer tx = do
    tx_value_with_fees ← lift (value_with_fees tx)
    sub_balance cm.after_underflow tx.from tx_value_with_fees
    add_balance_of tx.to tx.value
    call ← gets (λ s. is_contract_address cm s.contracts tx.to)
    if call then run_contract tx else pure tt

  -- The `catch` block gives the value back to the sender.
  unfoldable pub caught : TxBlock → Result (Unit {0}) → Exec (State C R) (Unit {0})
  caught tx (ok _) s = (ok tt, s)
  caught tx (err e) s = add_balance_of tx.from tx.value s

  -- Dereferencing the end of `accounts` is undefined.
  unfoldable pub process_transaction : TxBlock → Exec (State C R) (Unit {0})
  process_transaction tx s = elim (lookup tx.from s.accounts) [
    | none ↦ (err undefined, s)
    | some _ ↦ let (r, s') = transfer tx s in (caught tx r >> increment_nonce tx.from) s'
  ]
