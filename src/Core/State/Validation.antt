-- ===== src/Core/State/Validation.antt =====
-- `State::validateTransactionInternal` against an independent description of its verdicts.
use orbitersdk_cpp.Prelude.{
  ℕ, ◌+◌, ◌*◌, ◌^◌, overflow_error, if◌then◌else◌, ◌≤◌, ◌<◌, ◌≡◌, ◌≢◌, ◌⊎◌, inl, inr, true, false,
  none, some, ok, err, Result, lookup, contains, ◌==◌, ltb, arith, Bool-cases, refl, Option, ltb→lt,
  ltb_false→le, ==_iff,
}
use orbitersdk_cpp.Core.Chain.{Account, TxBlock, checked_256, value_with_fees}
use orbitersdk_cpp.Core.State.{
  State, TxInvalid, not_invalid, invalid_nonce, invalid_balance, validate_transaction_internal,
  priced_verdict, account_verdict,
}

module _ {C R : Type 0} (s : State C R) (tx : TxBlock) where
  abbrev pub IsPending : Type 0
  IsPending = contains tx.hash s.mempool ≡ true

  abbrev pub Sender : Account → Type 0
  Sender account = lookup tx.from s.accounts ≡ some account

  -- What the sender has to have: the value and the highest fees
  abbrev pub price : ℕ
  price = tx.value + tx.gas_limit * tx.max_fee_per_gas

  -- What each verdict says; the five cases exclude one another.
  abbrev pub Verdict : Result TxInvalid → Type 0
  Verdict (ok not_invalid) =
      IsPending
      ⊎ ((account : Account) × Sender account
          × (price < 2 ^ 256)
          × (price ≤ account.balance)
          × (account.nonce ≡ tx.nonce))
  Verdict (ok invalid_balance) =
      (contains tx.hash s.mempool ≡ false)
      × ((lookup tx.from s.accounts ≡ none)
          ⊎ ((account : Account) × Sender account × (price < 2 ^ 256) × (account.balance < price)))
  Verdict (ok invalid_nonce) =
      (contains tx.hash s.mempool ≡ false)
      × ((account : Account) × Sender account
          × (price < 2 ^ 256)
          × (price ≤ account.balance)
          × (account.nonce ≢ tx.nonce))
  Verdict (err e) =
      (contains tx.hash s.mempool ≡ false)
      × ((account : Account) × Sender account × (2 ^ 256 ≤ price) × (e ≡ overflow_error))

  -- A product or a sum overflows exactly if the price does.
  value_with_fees_lem :
      value_with_fees tx ≡ (if ltb price (2 ^ 256) then ok price else err overflow_error)
  unfolding value_with_fees checked_256
  value_with_fees_lem = ground arith

  covered-Verdict :
      (account : Account)
      → contains tx.hash s.mempool ≡ false
      → Sender account
      → price < 2 ^ 256
      → Verdict (priced_verdict account tx (ok price))
  unfolding priced_verdict
  covered-Verdict account new known fits = elim (Bool-cases (ltb account.balance price)) [
    | inl short ↦ rw short (new, inr (account, known, fits, ltb→lt _ _ short))
    | inr covered ↦ elim (Bool-cases (account.nonce == tx.nonce)) [
      | inl same ↦
          rw (covered, same)
            (inr (account, known, fits, ltb_false→le _ _ covered, (==_iff _ _).0 same))
      | inr other ↦
          rw (covered, other)
            (new, (account, known, fits, ltb_false→le _ _ covered, λ e. ground (arith, other)))
    ]
  ]

  account-Verdict :
      (found : Option Account)
      → contains tx.hash s.mempool ≡ false
      → lookup tx.from s.accounts ≡ found
      → Verdict (account_verdict found tx)
  unfolding account_verdict priced_verdict
  account-Verdict none new missing = (new, inl missing)
  account-Verdict (some account) new known = elim (Bool-cases (ltb price (2 ^ 256))) [
    | inl fits ↦
        rw (value_with_fees_lem, fits) (covered-Verdict account new known (ltb→lt _ _ fits))
    | inr over ↦ rw (value_with_fees_lem, over) (new, (account, known, ltb_false→le _ _ over, refl))
  ]

  -- A transaction is valid exactly if it is in the mempool, or its sender has an account whose balance is at least value plus gas limit times fee, and whose nonce it carries; its balance is invalid exactly if it is not in the mempool and its sender has no account or less than that; its nonce is invalid exactly if only the nonce differs; and an overflow_error is thrown exactly if it is not in the mempool, its sender has an account, and that price is 2 ^ 256 or more.
  pub validate_transaction_internal-Verdict : Verdict (validate_transaction_internal s tx)
  unfolding validate_transaction_internal
  validate_transaction_internal-Verdict = elim (Bool-cases (contains tx.hash s.mempool)) [
    | inl pending ↦ rw pending (inl pending)
    | inr new ↦ rw new (account-Verdict (lookup tx.from s.accounts) new refl)
  ]
