-- ===== src/Contract/Interface.antt =====
-- The native balances that contracts see and move during a transaction: `populateBalance`,
-- `getBalanceFromAddress` and `sendTokens` of `ContractManagerInterface` in contract/contractmanager.cpp.
-- `balances` is the map of `ContractManager`, which starts empty.
pub mod Transfers
use orbitersdk_cpp.Prelude.{
  ℕ, ◌+◌, ◌-◌, ◌^◌, Bool, true, false, Option, none, some, Result, ok, err, runtime_error,
  range_error, Assoc, lookup, insert, contains, ltb, if◌then◌else◌,
}
use orbitersdk_cpp.Prelude.Exec.{Exec}
use orbitersdk_cpp.Core.Chain.{Account, checked_256}
use orbitersdk_cpp.Contract.Erc20.{value_of}

-- The balance of an account of the state, 0 for one that is not there
abbrev pub account_balance : Option Account → ℕ
account_balance none = 0
account_balance (some account) = account.balance

module _ (accounts : Assoc Account) where
  unfoldable pub populate_balance : ℕ → Assoc ℕ → Assoc ℕ
  populate_balance address balances =
      if contains address balances
      then balances
      else insert address (account_balance (lookup address accounts)) balances

  unfoldable pub get_balance_from_address : ℕ → Assoc ℕ → ℕ × Assoc ℕ
  unfolding populate_balance
  get_balance_from_address address balances =
      let populated = populate_balance address balances in
      (value_of (lookup address populated), populated)

  -- `balances[from] -= amount; balances[to] += amount` at checked integers, for two entries that are there
  unfoldable pub move_tokens : ℕ → ℕ → ℕ → Exec (Assoc ℕ) (Unit {0})
  unfolding checked_256
  move_tokens from to amount balances =
      let held = value_of (lookup from balances) in
      let paid = insert from (held - amount) balances in
      if ltb held amount
      then (err range_error, balances)
      else (elim (checked_256 (value_of (lookup to paid) + amount)) [
        | err e ↦ (err e, paid)
        | ok sum ↦ (ok tt, insert to sum paid)
      ])

  unfoldable pub send_tokens : ℕ → ℕ → ℕ → Exec (Assoc ℕ) (Unit {0})
  unfolding populate_balance move_tokens
  send_tokens from to amount balances =
      let populated = populate_balance to (populate_balance from balances) in
      if ltb (value_of (lookup to populated)) amount
      then (err runtime_error, populated)
      else move_tokens from to amount populated
