-- ===== src/Core/State/Balances.antt =====
-- The accounts as a map: what each update of a balance or a nonce leaves to be read, and the sum of
-- all balances.
use orbitersdk_cpp.Prelude.{
  ℕ, ◌+◌, ◌-◌, ◌%◌, ◌^◌, ◌≤◌, ◌<◌, ◌≡◌, [], ◌∷◌, ok, err, range_error, Assoc, lookup, insert,
  lookup-insert, ◌==◌, if◌then◌else◌, arith, lt→ltb, le→ltb_false,
}
use orbitersdk_cpp.Core.Chain.{Account}
use orbitersdk_cpp.Core.State.{
  State, account_at, set_balance, bump_nonce, sub_balance, add_balance_of,
}

-- The sum of all balances.
unfoldable pub total : Assoc Account → ℕ
total [] = 0
total ((a, account) ∷ m) = account.balance + total m

pub account_at-insert :
    (a j : ℕ) (account : Account) (m : Assoc Account)
    → account_at j (insert a account m) ≡ (if a == j then account else account_at j m)
unfolding account_at
account_at-insert a j account m = ground (arith, lookup-insert a j account m)

pub account_at-set_balance :
    (a j n : ℕ) (m : Assoc Account)
    → account_at j (set_balance a n m)
      ≡ (if a == j then record (account_at a m) { balance = n } else account_at j m)
unfolding set_balance
account_at-set_balance a j n m = account_at-insert a j (record (account_at a m) { balance = n }) m

pub account_at-bump_nonce :
    (a j : ℕ) (m : Assoc Account)
    → account_at j (bump_nonce a m) ≡ (
        if a == j
        then record (account_at a m) { nonce = ((account_at a m).nonce + 1) % 2 ^ 64 }
        else account_at j m)
unfolding bump_nonce
account_at-bump_nonce a j m = account_at-insert a j _ m

total-insert :
    (a : ℕ) (account : Account) (m : Assoc Account)
    → total (insert a account m) + (account_at a m).balance ≡ total m + account.balance
unfolding total insert account_at lookup
total-insert a account [] = ground arith
total-insert a account ((j, old) ∷ m) = ground (arith, total-insert a account m)

-- Setting a balance moves the sum by the difference.
pub total-set_balance :
    (a n : ℕ) (m : Assoc Account)
    → total (set_balance a n m) + (account_at a m).balance ≡ total m + n
unfolding set_balance
total-set_balance a n m = total-insert a (record (account_at a m) { balance = n }) m

pub total-bump_nonce : (a : ℕ) (m : Assoc Account) → total (bump_nonce a m) ≡ total m
unfolding bump_nonce
total-bump_nonce a m = omega (
  arith,
  total-insert a (record (account_at a m) { nonce = ((account_at a m).nonce + 1) % 2 ^ 64 }) m,
)

module _ {C R : Type 0} where
  pub sub_balance-ok :
      (left : ℕ → ℕ → ℕ) (a amount : ℕ) (s : State C R)
      → amount ≤ (account_at a s.accounts).balance
      → sub_balance left a amount s ≡ (
        ok tt,
        record s {
          accounts = set_balance a ((account_at a s.accounts).balance - amount) s.accounts;
        },
      )
  unfolding sub_balance
  sub_balance-ok left a amount s h = rw (le→ltb_false _ _ h)

  pub sub_balance-throws :
      (left : ℕ → ℕ → ℕ) (a amount : ℕ) (s : State C R)
      → (account_at a s.accounts).balance < amount
      → sub_balance left a amount s ≡ (
        err range_error,
        record s {
          accounts = set_balance a (left (account_at a s.accounts).balance amount) s.accounts;
        },
      )
  unfolding sub_balance
  sub_balance-throws left a amount s h = rw (lt→ltb _ _ h)

  pub add_balance_of-ok :
      (a amount : ℕ) (s : State C R)
      → (account_at a s.accounts).balance + amount < 2 ^ 256
      → add_balance_of a amount s ≡ (
        ok tt,
        record s {
          accounts =
              set_balance a
                ((account_at a s.accounts).balance + amount)
                (set_balance a (account_at a s.accounts).balance s.accounts);
        },
      )
  unfolding add_balance_of
  add_balance_of-ok a amount s h = rw (lt→ltb _ _ h)
