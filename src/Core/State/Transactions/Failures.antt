-- ===== src/Core/State/Transactions/Failures.antt =====
-- A transaction whose contract call throws: what the `catch` block of `processTransaction` undoes and
-- what it does not.
use orbitersdk_cpp.Prelude.{
  ℕ, ◌+◌, ◌-◌, ◌%◌, ◌^◌, ◌≤◌, ◌<◌, ◌≡◌, ◌≢◌, Assoc, ◌==◌, refl, true, some, ok, err, Error,
  runtime_error, lookup, if◌then◌else◌, arith,
}
use orbitersdk_cpp.Core.Chain.{Account, TxBlock, checked_256, value_with_fees}
use orbitersdk_cpp.Core.State.{State, Contracts, account_at, bump_nonce}
use orbitersdk_cpp.Core.State.Balances.{account_at-set_balance, account_at-bump_nonce}
use orbitersdk_cpp.Core.State.Transactions.Effects.{account_at-credit}
use orbitersdk_cpp.Core.State.Calls.{
  is_contract_address, is_payable, call_contract, eth_call_rethrown,
}
use orbitersdk_cpp.Core.State.Transactions.{run_contract, process_transaction}
use orbitersdk_cpp.Core.State.Transactions.Outcomes.{
  balance_of, debit, credit, after_payment, process_transaction_thrown,
}

module _ (tx : TxBlock) where
  -- The price holds the value.
  value-le-price : {cost : ℕ} → value_with_fees tx ≡ ok cost → tx.value ≤ cost
  unfolding value_with_fees checked_256
  value-le-price priced = ground (arith, priced)

  module _ (cost : ℕ) (m : Assoc Account) (apart : tx.from ≢ tx.to) where
    abbrev refunded : Assoc Account
    refunded = bump_nonce tx.from (credit tx.from tx.value (after_payment tx cost m))

    refunded_account :
        (j : ℕ)
        → account_at j refunded ≡ (
            if tx.from == j
            then record {
              balance = balance_of tx.from m - cost + tx.value;
              nonce = ((account_at tx.from m).nonce + 1) % 2 ^ 64;
            }
            else if tx.to == j
            then record (account_at tx.to m) { balance = balance_of tx.to m + tx.value }
            else account_at j m)
    refunded_account j =
        let paid = debit tx.from cost m in
        let left = balance_of tx.from m - cost in
        ground (
          arith,
          account_at-bump_nonce tx.from j (credit tx.from tx.value (credit tx.to tx.value paid)),
          account_at-credit tx.from j tx.value (credit tx.to tx.value paid),
          account_at-credit tx.from tx.from tx.value (credit tx.to tx.value paid),
          account_at-credit tx.to j tx.value paid,
          account_at-credit tx.to tx.from tx.value paid,
          account_at-set_balance tx.from j left m,
          account_at-set_balance tx.from tx.to left m,
          account_at-set_balance tx.from tx.from left m,
        )

module _ {C R : Type 0} (cm : Contracts C) (tx : TxBlock) where
  -- A contract that throws has changed no account; the payable flag stays set if it was payable.
  run_contract_throws :
      (s : State C R) {e : Error}
      → is_contract_address cm s.contracts tx.to ≡ true
      → (cm.eth_call tx s.accounts s.contracts).0 ≡ err e
      → run_contract cm tx s ≡ (
        err runtime_error,
        record s {
          processing_payable = if is_payable cm s.contracts tx then true else s.processing_payable;
          contracts = (cm.eth_call tx s.accounts s.contracts).1;
        },
      )
  unfolding run_contract call_contract eth_call_rethrown is_contract_address
  run_contract_throws s called threw = ground arith

  -- A contract call that throws, in a transaction from an account other than the contract that can pay value and fees and whose balance has 256 bits, with room for the value in the contract's balance, does not stop the transaction, which returns: the contract keeps the value, the sender gets it back and pays the fees only, and gets the next nonce; all other accounts stay. The flag `processingPayable` stays set if the called function was payable.
  pub process_transaction_failed_call :
      (s : State C R) {sender : Account} {cost : ℕ} {e : Error}
      → lookup tx.from s.accounts ≡ some sender
      → value_with_fees tx ≡ ok cost
      → cost ≤ balance_of tx.from s.accounts
      → balance_of tx.from s.accounts < 2 ^ 256
      → balance_of tx.to s.accounts + tx.value < 2 ^ 256
      → tx.from ≢ tx.to
      → is_contract_address cm s.contracts tx.to ≡ true
      → (cm.eth_call tx (after_payment tx cost s.accounts) s.contracts).0 ≡ err e
      → let after = (process_transaction cm tx s).1 in
        ((process_transaction cm tx s).0 ≡ ok tt)
        × (balance_of tx.to after.accounts ≡ balance_of tx.to s.accounts + tx.value)
        × (balance_of tx.from after.accounts + cost ≡ balance_of tx.from s.accounts + tx.value)
        × ((account_at tx.from after.accounts).nonce
            ≡ ((account_at tx.from s.accounts).nonce + 1) % 2 ^ 64)
        × ((j : ℕ)
            → j ≢ tx.from
            → j ≢ tx.to
            → account_at j after.accounts ≡ account_at j s.accounts)
        × (after.processing_payable
            ≡ (if is_payable cm s.contracts tx then true else s.processing_payable))
  process_transaction_failed_call s {cost} known priced enough small fits apart called threw =
      let paid = after_payment tx cost s.accounts in
      let left = balance_of tx.from s.accounts - cost in
      let seen = refunded_account tx cost s.accounts apart in
      let debited = λ (j : ℕ). account_at-set_balance tx.from j left s.accounts in
      let receiver_fits : balance_of tx.to (debit tx.from cost s.accounts) + tx.value < 2 ^ 256 =
        ground (arith, debited tx.to, fits, apart) in
      let sender_left : balance_of tx.from paid ≡ left = ground (
        arith,
        account_at-credit tx.to tx.from tx.value (debit tx.from cost s.accounts),
        debited tx.from,
        apart,
      ) in
      let room : balance_of tx.from paid + tx.value < 2 ^ 256 =
        omega (arith, sender_left, value-le-price tx priced, small, enough) in
      rw
        (process_transaction_thrown cm tx s known priced enough receiver_fits called
          (run_contract_throws (record s { accounts = paid }) called threw) room)
        (
          refl,
          ground (arith, seen tx.to, apart),
          ground (arith, seen tx.from, enough),
          ground (arith, seen tx.from),
          λ j p q. ground (arith, seen j, p, q),
          refl,
        )
