-- ===== src/Core/State/Transactions/Effects.antt =====
-- The balances and the nonce after a transaction, and the sum of all balances.
use orbitersdk_cpp.Prelude.{
  ℕ, ◌+◌, ◌-◌, ◌%◌, ◌^◌, ◌≤◌, ◌<◌, ◌≡◌, ◌≢◌, refl, false, some, ok, Assoc, lookup, ◌==◌,
  if◌then◌else◌, arith,
}
use orbitersdk_cpp.Core.Chain.{Account, TxBlock, value_with_fees}
use orbitersdk_cpp.Core.State.{State, Contracts, account_at, set_balance, bump_nonce}
use orbitersdk_cpp.Core.State.Balances.{
  total, total-bump_nonce, account_at-set_balance, account_at-bump_nonce,
}
use orbitersdk_cpp.Core.State.Calls.{is_contract_address}
use orbitersdk_cpp.Core.State.Transactions.{process_transaction}
use orbitersdk_cpp.Core.State.Transactions.Outcomes.{
  balance_of, debit, credit, total-credit, total-debit, process_transaction_plain,
  process_transaction_short, overdrawn,
}

-- What a transaction that pays `cost` from one account and credits its value to another has done.
pub record Transferred (tx : TxBlock) (cost : ℕ) (before after : Assoc Account) : Type 0 where
  pub fees_leave : total after + cost ≡ total before + tx.value
  pub sender_pays : balance_of tx.from after + cost ≡ balance_of tx.from before
  pub receiver_gets : balance_of tx.to after ≡ balance_of tx.to before + tx.value
  pub nonce_moves :
      (account_at tx.from after).nonce ≡ ((account_at tx.from before).nonce + 1) % 2 ^ 64
  pub others_stay : (j : ℕ) → j ≢ tx.from → j ≢ tx.to → account_at j after ≡ account_at j before

pub account_at-credit :
    (a j amount : ℕ) (m : Assoc Account)
    → account_at j (credit a amount m) ≡ (
        if a == j
        then record (account_at a m) { balance = balance_of a m + amount }
        else account_at j m)
account_at-credit a j amount m = ground (
  arith,
  account_at-set_balance a j (balance_of a m + amount) (set_balance a (balance_of a m) m),
  account_at-set_balance a j (balance_of a m) m,
  account_at-set_balance a a (balance_of a m) m,
)

module _ (tx : TxBlock) (cost : ℕ) (m : Assoc Account) (enough : cost ≤ balance_of tx.from m)
    (apart : tx.from ≢ tx.to) where
  abbrev moved : Assoc Account
  moved = bump_nonce tx.from (credit tx.to tx.value (debit tx.from cost m))

  moved_account :
      (j : ℕ)
      → account_at j moved ≡ (
          if tx.from == j
          then record {
            balance = balance_of tx.from m - cost;
            nonce = ((account_at tx.from m).nonce + 1) % 2 ^ 64;
          }
          else if tx.to == j
          then record (account_at tx.to m) { balance = balance_of tx.to m + tx.value }
          else account_at j m)
  moved_account j = ground (
    arith,
    account_at-bump_nonce tx.from j (credit tx.to tx.value (debit tx.from cost m)),
    account_at-credit tx.to j tx.value (debit tx.from cost m),
    account_at-credit tx.to tx.from tx.value (debit tx.from cost m),
    account_at-set_balance tx.from j (balance_of tx.from m - cost) m,
    account_at-set_balance tx.from tx.to (balance_of tx.from m - cost) m,
    account_at-set_balance tx.from tx.from (balance_of tx.from m - cost) m,
  )

  moved-Transferred : Transferred tx cost m moved
  moved-Transferred = record {
    fees_leave = omega (
      arith,
      total-bump_nonce tx.from (credit tx.to tx.value (debit tx.from cost m)),
      total-credit tx.to tx.value (debit tx.from cost m),
      total-debit tx.from cost m enough,
    );
    sender_pays = ground (arith, moved_account tx.from);
    receiver_gets = ground (arith, moved_account tx.to);
    nonce_moves = ground (arith, moved_account tx.from);
    others_stay = λ j p q. ground (arith, moved_account j);
  }

module _ {C R : Type 0} (cm : Contracts C) (tx : TxBlock) (s : State C R) {sender : Account}
    {cost : ℕ} (known : lookup tx.from s.accounts ≡ some sender)
    (priced : value_with_fees tx ≡ ok cost) where
  -- A transaction to an address that is no contract, from an account that can pay its value and
  -- fees to another account, with room in the receiver's balance, returns, moves the value, takes
  -- value and fees from the sender, adds one to the sender's nonce and leaves all other accounts and
  -- the mempool as they are.
  pub process_transaction-Transferred :
      cost ≤ balance_of tx.from s.accounts
      → balance_of tx.to s.accounts + tx.value < 2 ^ 256
      → tx.from ≢ tx.to
      → is_contract_address cm s.contracts tx.to ≡ false
      → ((process_transaction cm tx s).0 ≡ ok tt)
        × Transferred tx cost s.accounts (process_transaction cm tx s).1.accounts
        × ((process_transaction cm tx s).1.mempool ≡ s.mempool)
  process_transaction-Transferred enough room apart plain =
      rw
        (process_transaction_plain cm tx s known priced enough
          (ground (
            arith,
            account_at-set_balance tx.from tx.to (balance_of tx.from s.accounts - cost) s.accounts,
          ))
          plain)
        (refl, moved-Transferred tx cost s.accounts enough apart, refl)

  -- A transaction from an account that cannot pay its value and fees, which fit into 256 bits, is not rejected: it returns, nobody is paid and no contract is called, all other accounts and the mempool stay, and the sender gets the next nonce and has the value on top of what the subtraction that threw has left in its balance, if 256 bits hold that.
  pub process_transaction_overdrawn :
      let left = cm.after_underflow (balance_of tx.from s.accounts) cost in
      let after = (process_transaction cm tx s).1 in
      balance_of tx.from s.accounts < cost
      → left + tx.value < 2 ^ 256
      → ((process_transaction cm tx s).0 ≡ ok tt)
        × (account_at tx.from after.accounts ≡ (record {
          balance = left + tx.value;
          nonce = ((account_at tx.from s.accounts).nonce + 1) % 2 ^ 64;
        }))
        × ((j : ℕ) → j ≢ tx.from → account_at j after.accounts ≡ account_at j s.accounts)
        × (after.contracts ≡ s.contracts)
        × (after.mempool ≡ s.mempool)
  process_transaction_overdrawn short fits =
      let m = overdrawn cm tx s known priced in
      let left = cm.after_underflow (balance_of tx.from s.accounts) cost in
      let bumped = λ (j : ℕ). account_at-bump_nonce tx.from j (credit tx.from tx.value m) in
      let credited = λ (j : ℕ). account_at-credit tx.from j tx.value m in
      let drawn = λ (j : ℕ). account_at-set_balance tx.from j left s.accounts in
      rw (process_transaction_short cm tx s known priced short fits) (
        refl,
        ground (arith, bumped tx.from, credited tx.from, drawn tx.from),
        λ j other. ground (arith, bumped j, credited j, drawn j, other),
        refl,
        refl,
      )
