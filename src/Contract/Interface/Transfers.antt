-- ===== src/Contract/Interface/Transfers.antt =====
-- What `sendTokens` does to the native balances.
use orbitersdk_cpp.Prelude.{
  ℕ, ◌+◌, ◌-◌, ◌≡◌, sym, ◌∙◌, none, some, err, runtime_error, Assoc, lookup, insert, lookup-insert,
  contains, ltb, ◌==◌, ==_iff, if◌then◌else◌, arith,
}
use orbitersdk_cpp.Core.Chain.{Account, checked_256}
use orbitersdk_cpp.Contract.Erc20.{value_of}
use orbitersdk_cpp.Contract.Erc20.Transfers.{move_result, after_move}
use orbitersdk_cpp.Contract.Interface.{
  account_balance, populate_balance, get_balance_from_address, move_tokens, send_tokens,
}

module _ (accounts : Assoc Account) where
  -- The balance that a contract sees of an address: the one of this transaction, else that of the state
  unfoldable pub native : Assoc ℕ → ℕ → ℕ
  native balances a = elim (lookup a balances) [
    | some b ↦ b
    | none ↦ account_balance (lookup a accounts)
  ]

  native-insert :
      (a j v : ℕ) (balances : Assoc ℕ)
      → native (insert a v balances) j ≡ (if a == j then v else native balances j)
  unfolding native
  native-insert a j v balances = ground (arith, lookup-insert a j v balances)

  -- Looking up a balance changes none.
  native-populate_balance :
      (a j : ℕ) (balances : Assoc ℕ)
      → native (populate_balance accounts a balances) j ≡ native balances j
  unfolding populate_balance contains native
  native-populate_balance a j balances =
      ground
        (arith, lookup-insert a j (account_balance (lookup a accounts)) balances, (==_iff a j).0)

  lookup-populate_balance :
      (a j : ℕ) (balances : Assoc ℕ)
      → lookup j (populate_balance accounts a balances)
        ≡ (if a == j then some (native balances j) else lookup j balances)
  unfolding populate_balance contains native
  lookup-populate_balance a j balances =
      ground
        (arith, lookup-insert a j (account_balance (lookup a accounts)) balances, (==_iff a j).0)

  -- `getBalanceFromAddress` answers that balance.
  get_balance_from_address_lem :
      (a j : ℕ) (balances : Assoc ℕ)
      → let (n, populated) = get_balance_from_address accounts a balances in
        (n ≡ native balances a) × (native populated j ≡ native balances j)
  unfolding get_balance_from_address
  get_balance_from_address_lem a j balances =
      (ground (arith, lookup-populate_balance a a balances), native-populate_balance a j balances)

  move_tokens_lem :
      (from to v j : ℕ) (balances : Assoc ℕ)
      → value_of (lookup from balances) ≡ native balances from
      → value_of (lookup to balances) ≡ native balances to
      → let (r, after) = move_tokens accounts from to v balances in
        (r ≡ move_result from to v (native balances))
        × (native after j ≡ after_move from to v (native balances) j)
  unfolding move_tokens checked_256
  move_tokens_lem from to v j balances h k =
      let paid = insert from (value_of (lookup from balances) - v) balances in
      let held = value_of (lookup to paid) + v in
      (
        ground (arith, h, k, lookup-insert from to (value_of (lookup from balances) - v) balances),
        ground (
          arith,
          h,
          k,
          lookup-insert from to (value_of (lookup from balances) - v) balances,
          native-insert from j (value_of (lookup from balances) - v) balances,
          native-insert to j held paid,
        ),
      )

  module _ (from to : ℕ) (balances : Assoc ℕ) where
    abbrev populated : Assoc ℕ
    populated = populate_balance accounts to (populate_balance accounts from balances)

    native-populated : (j : ℕ) → native populated j ≡ native balances j
    native-populated j =
        native-populate_balance to j (populate_balance accounts from balances)
        ∙ native-populate_balance from j balances

    sender_there : value_of (lookup from populated) ≡ native balances from
    sender_there = ground (
      arith,
      lookup-populate_balance to from (populate_balance accounts from balances),
      lookup-populate_balance from from balances,
      native-populate_balance from from balances,
    )

    receiver_there : value_of (lookup to populated) ≡ native balances to
    receiver_there = ground (
      arith,
      lookup-populate_balance to to (populate_balance accounts from balances),
      native-populate_balance from to balances,
    )

  -- `sendTokens` throws and moves nothing if the receiver (not the sender) has less than the amount. Otherwise it throws if the sender has less than the amount, which then moves nothing either, or if the receiver's balance would pass 256 bits; and if it throws for none of these, the sender's balance falls and the receiver's grows by the amount, and every other balance stays.
  pub send_tokens_moves :
      (from to v j : ℕ) (balances : Assoc ℕ)
      → let (r, after) = send_tokens accounts from to v balances in
        let f = native balances in
        (r ≡ (if ltb (f to) v then err runtime_error else move_result from to v f))
        × (native after j ≡ (if ltb (f to) v then f j else after_move from to v f j))
  unfolding send_tokens
  send_tokens_moves from to v j balances =
      let seen = populated from to balances in
      let (r, after) =
        move_tokens_lem from to v j seen
          (sender_there from to balances ∙ sym (native-populated from to balances from))
          (receiver_there from to balances ∙ sym (native-populated from to balances to)) in
      let there = receiver_there from to balances in
      let at_from = native-populated from to balances from in
      let at_to = native-populated from to balances to in
      let at_j = native-populated from to balances j in
      (ground (arith, r, there, at_from, at_to), ground (arith, after, there, at_from, at_to, at_j))
