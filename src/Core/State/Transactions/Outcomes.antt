-- ===== src/Core/State/Transactions/Outcomes.antt =====
-- What `processTransaction` leaves on each of its paths.
use orbitersdk_cpp.Prelude.{
  ℕ, ◌+◌, ◌-◌, ◌^◌, ◌≤◌, ◌<◌, ◌≡◌, true, false, some, ok, err, Error, range_error, Assoc, lookup,
  if◌then◌else◌, arith,
}
use orbitersdk_cpp.Core.Chain.{Account, TxBlock, value_with_fees}
use orbitersdk_cpp.Core.State.{
  State, Contracts, account_at, set_balance, bump_nonce, increment_nonce,
}
use orbitersdk_cpp.Core.State.Balances.{
  total, total-set_balance, account_at-set_balance, sub_balance-ok, sub_balance-throws,
  add_balance_of-ok,
}
use orbitersdk_cpp.Core.State.Calls.{is_contract_address}
use orbitersdk_cpp.Core.State.Transactions.{transfer, run_contract, caught, process_transaction}

abbrev pub balance_of : ℕ → Assoc Account → ℕ
balance_of a m = (account_at a m).balance

abbrev pub debit : ℕ → ℕ → Assoc Account → Assoc Account
debit a amount m = set_balance a (balance_of a m - amount) m

abbrev pub credit : ℕ → ℕ → Assoc Account → Assoc Account
credit a amount m = set_balance a (balance_of a m + amount) (set_balance a (balance_of a m) m)

-- The accounts once the sender has paid and the receiver has been credited.
abbrev pub after_payment : TxBlock → ℕ → Assoc Account → Assoc Account
after_payment tx cost m = credit tx.to tx.value (debit tx.from cost m)

pub total-credit : (a amount : ℕ) (m : Assoc Account) → total (credit a amount m) ≡ total m + amount
total-credit a amount m = ground (
  arith,
  total-set_balance a (balance_of a m + amount) (set_balance a (balance_of a m) m),
  total-set_balance a (balance_of a m) m,
  account_at-set_balance a a (balance_of a m) m,
)

pub total-debit :
    (a amount : ℕ) (m : Assoc Account)
    → amount ≤ balance_of a m
    → total (debit a amount m) + amount ≡ total m
total-debit a amount m h = omega (arith, total-set_balance a (balance_of a m - amount) m)

module _ {C R : Type 0} (cm : Contracts C) (tx : TxBlock) (s : State C R) {sender : Account}
    {cost : ℕ} (known : lookup tx.from s.accounts ≡ some sender)
    (priced : value_with_fees tx ≡ ok cost) where
  -- What the subtraction that throws leaves of the sender's balance, and the accounts then
  abbrev pub left_over : ℕ
  left_over = cm.after_underflow (balance_of tx.from s.accounts) cost

  abbrev pub overdrawn : Assoc Account
  overdrawn = set_balance tx.from left_over s.accounts

  pub balance_of-overdrawn : balance_of tx.from overdrawn ≡ left_over
  balance_of-overdrawn = ground (arith, account_at-set_balance tx.from tx.from left_over s.accounts)

  -- A sender that cannot pay: the `try` block throws at its first change.
  transfer_short :
      balance_of tx.from s.accounts < cost
      → transfer cm tx s ≡ (err range_error, record s { accounts = overdrawn })
  unfolding transfer
  transfer_short short = rw (priced, sub_balance-throws cm.after_underflow tx.from cost s short)

  pub process_transaction_short :
      balance_of tx.from s.accounts < cost
      → left_over + tx.value < 2 ^ 256
      → process_transaction cm tx s
        ≡ (ok tt, record s { accounts = bump_nonce tx.from (credit tx.from tx.value overdrawn) })
  unfolding process_transaction caught increment_nonce
  process_transaction_short short fits =
      let room : balance_of tx.from overdrawn + tx.value < 2 ^ 256 =
        omega (arith, balance_of-overdrawn, fits) in
      ground (
        arith,
        known,
        transfer_short short,
        add_balance_of-ok tx.from tx.value (record s { accounts = overdrawn }) room,
      )

  module _ (enough : cost ≤ balance_of tx.from s.accounts)
      (fits : balance_of tx.to (debit tx.from cost s.accounts) + tx.value < 2 ^ 256) where
    abbrev paid : State C R
    paid = record s { accounts = credit tx.to tx.value (debit tx.from cost s.accounts) }

    transfer-paid : transfer cm tx s ≡ (
        if is_contract_address cm s.contracts tx.to then run_contract cm tx paid else (ok tt, paid))
    unfolding transfer
    transfer-paid = ground (
      arith,
      sub_balance-ok cm.after_underflow tx.from cost s enough,
      add_balance_of-ok tx.to tx.value (record s { accounts = debit tx.from cost s.accounts }) fits,
    )

    -- A transfer to an address that is no contract.
    pub process_transaction_plain :
        is_contract_address cm s.contracts tx.to ≡ false
        → process_transaction cm tx s ≡ (
          ok tt,
          record s {
            accounts = bump_nonce tx.from (credit tx.to tx.value (debit tx.from cost s.accounts));
          },
        )
    unfolding process_transaction caught increment_nonce
    process_transaction_plain plain = ground (arith, known, transfer-paid, plain)

    -- A call of a contract that throws.
    pub process_transaction_thrown :
        {e : Error} {s' : State C R}
        → is_contract_address cm s.contracts tx.to ≡ true
        → run_contract cm tx paid ≡ (err e, s')
        → balance_of tx.from s'.accounts + tx.value < 2 ^ 256
        → process_transaction cm tx s ≡ (
          ok tt,
          record s' { accounts = bump_nonce tx.from (credit tx.from tx.value s'.accounts) },
        )
    unfolding process_transaction caught increment_nonce
    process_transaction_thrown {s'} called threw room =
        ground
          (arith, known, transfer-paid, called, threw, add_balance_of-ok tx.from tx.value s' room)
