-- ===== src/Core/State.antt =====
-- The class `State` of core/state.h and core/state.cpp: native accounts and the mempool, and the calls
-- that it makes of the contract manager (contract/contractmanager.cpp), of the consensus and of the
-- storage. The locks make each method one step.
pub mod Balances
pub mod Calls
pub mod Transactions
pub mod Validation
pub mod Blocks
pub mod Database
use orbitersdk_cpp.Prelude.{
  ℕ, ◌+◌, ◌-◌, ◌%◌, ◌^◌, Bool, true, false, not, ◌||◌, Option, none, some, List, [], ◌∷◌, Result,
  ok, err, runtime_error, range_error, undefined, Assoc, lookup, insert, erase, contains, ◌==◌, ltb,
  if◌then◌else◌,
}
use orbitersdk_cpp.Prelude.Exec.{Exec, pure, lift, gets, modify, throw_if, continue, ◌>>=◌, ◌>>◌}
use orbitersdk_cpp.Core.Chain.{
  Account, no_account, TxBlock, TxValidator, Block, checked_256, value_with_fees,
}

-- `enum TxInvalid`
pub data TxInvalid : Type 0 where
  not_invalid invalid_nonce invalid_balance : TxInvalid

-- Converting the enum to `bool`: `NotInvalid` is 0.
abbrev pub is_invalid : TxInvalid → Bool
is_invalid not_invalid = false
is_invalid _ = true

-- What `State` needs of the contracts: which addresses are contracts, which functions are payable,
-- and `ethCall`, which gives the balances that the contracts moved and the contracts' new state `C`; and
-- of boost, what a checked `balance -= amount` that throws has left in `balance`.
pub record Contracts (C : Type 0) : Type 0 where
  pub contract_manager_address : ℕ
  pub rdpos_address : ℕ
  pub exists : C → ℕ → Bool
  pub is_payable_function : C → TxBlock → Bool
  pub eth_call : TxBlock → Assoc Account → C → Result (Assoc ℕ) × C
  pub after_underflow : ℕ → ℕ → ℕ

-- What `State` needs of the consensus, whose state is `R`.
pub record Consensus (R : Type 0) : Type 0 where
  pub validate_block : R → Block → Result Bool
  pub process_block : Block → Exec R (Unit {0})
  pub add_validator_tx : Block → TxValidator → Exec R Bool

-- `latest` and `blocks` stand for the storage: its latest block and the ones before it.
pub record State (C R : Type 0) : Type 0 where
  pub accounts : Assoc Account
  pub mempool : Assoc TxBlock
  pub processing_payable : Bool
  pub contracts : C
  pub rdpos : R
  pub latest : Block
  pub blocks : List Block

-- `accounts[addr]`, which makes an empty account where there is none
unfoldable pub account_at : ℕ → Assoc Account → Account
account_at a m = elim (lookup a m) [ none ↦ no_account | some account ↦ account ]

unfoldable pub set_balance : ℕ → ℕ → Assoc Account → Assoc Account
unfolding account_at
set_balance a n m = insert a (record (account_at a m) { balance = n }) m

-- `++nonce` at a `uint64_t`
unfoldable pub bump_nonce : ℕ → Assoc Account → Assoc Account
unfolding account_at
bump_nonce a m =
    let account = account_at a m in
    insert a (record account { nonce = (account.nonce + 1) % 2 ^ 64 }) m

-- the loop of `processContractPayable`
unfoldable pub set_balances : Assoc ℕ → Assoc Account → Assoc Account
unfolding set_balance account_at
set_balances [] m = m
set_balances ((a, amount) ∷ rest) m = set_balances rest (set_balance a amount m)

-- `validateTransactionInternal` from `find(tx.getFrom())` on: what `find` gives, and the price.
unfoldable pub priced_verdict : Account → TxBlock → Result ℕ → Result TxInvalid
priced_verdict account tx (err e) = err e
priced_verdict account tx (ok tx_with_fees) =
    if ltb account.balance tx_with_fees
    then ok invalid_balance
    else if account.nonce == tx.nonce
    then ok not_invalid
    else ok invalid_nonce

unfoldable pub account_verdict : Option Account → TxBlock → Result TxInvalid
unfolding priced_verdict
account_verdict none tx = ok invalid_balance
account_verdict (some account) tx = priced_verdict account tx (value_with_fees tx)

module _ {C R : Type 0} where
  -- `balance -= amount` at a checked integer, which leaves `left balance amount` where it throws
  unfoldable pub sub_balance : (ℕ → ℕ → ℕ) → ℕ → ℕ → Exec (State C R) (Unit {0})
  unfolding account_at set_balance
  sub_balance left a amount = do
    balance ← gets (λ s. (account_at a s.accounts).balance)
    let after = if ltb balance amount then left balance amount else balance - amount
    modify (λ s. record s { accounts = set_balance a after s.accounts })
    throw_if (ltb balance amount) range_error

  -- `accounts[a].balance += amount`: the account is made before the sum can throw
  unfoldable pub add_balance_of : ℕ → ℕ → Exec (State C R) (Unit {0})
  unfolding account_at set_balance checked_256
  add_balance_of a amount = do
    balance ← gets (λ s. (account_at a s.accounts).balance)
    modify (λ s. record s { accounts = set_balance a balance s.accounts })
    sum ← lift (checked_256 (balance + amount))
    modify (λ s. record s { accounts = set_balance a sum s.accounts })

  unfoldable pub increment_nonce : ℕ → Exec (State C R) (Unit {0})
  unfolding bump_nonce
  increment_nonce a = modify (λ s. record s { accounts = bump_nonce a s.accounts })

  unfoldable pub validate_transaction_internal : State C R → TxBlock → Result TxInvalid
  unfolding account_verdict
  validate_transaction_internal s tx =
      if contains tx.hash s.mempool
      then ok not_invalid
      else account_verdict (lookup tx.from s.accounts) tx

  unfoldable pub process_contract_payable : Assoc ℕ → Exec (State C R) (Unit {0})
  unfolding set_balances
  process_contract_payable payable_map = do
    processing ← gets (λ s. s.processing_payable)
    throw_if (not processing) runtime_error
    modify (λ s. record s { accounts = set_balances payable_map s.accounts })
