-- ===== src/Core/State/Blocks/Live.antt =====
-- `processNextBlock` on blocks of plain transfers, and what could make it throw.
use orbitersdk_cpp.Prelude.{
  ℕ, ◌+◌, ◌-◌, ◌^◌, ◌≤◌, ◌<◌, ◌≡◌, refl, ap, ◌∙◌, ◌⊎◌, ◌%◌, inl, inr, true, false, some,
  Option-cases, List, [], ◌∷◌, Result, ok, err, Assoc, lookup, lookup-insert, contains, arith,
}
use orbitersdk_cpp.Prelude.Throw.{Error, Result-cases}
use orbitersdk_cpp.Prelude.Exec.{continue}
use orbitersdk_cpp.Core.Chain.{Account, TxBlock, Block, value_with_fees}
use orbitersdk_cpp.Core.State.{
  State, Contracts, Consensus, account_at, set_balance, bump_nonce, increment_nonce,
}
use orbitersdk_cpp.Core.State.Balances.{
  total, total-set_balance, total-bump_nonce, add_balance_of-ok,
}
use orbitersdk_cpp.Core.State.Calls.{is_contract_address}
use orbitersdk_cpp.Core.State.Transactions.{transfer, caught, process_transaction}
use orbitersdk_cpp.Core.State.Transactions.Outcomes.{
  balance_of, debit, credit, total-credit, total-debit, process_transaction_plain,
  process_transaction_short,
}
use orbitersdk_cpp.Core.State.Blocks.{
  process_transactions, process_rdpos, process_valid_block, process_next_block, process_decided,
}
use orbitersdk_cpp.Core.State.Blocks.Refresh.{IsMempool, refresh_mempool-survivors}
use orbitersdk_cpp.Core.State.Blocks.Links.{
  Accepted, Outcome, process_next_block-Outcome, validate_next_block_iff_Accepted,
}

le_or_lt : (a b : ℕ) → (a ≤ b) ⊎ (b < a)
le_or_lt a b = ground arith

balance_of-le-total : (a : ℕ) (m : Assoc Account) → balance_of a m ≤ total m
balance_of-le-total a m = omega (arith, total-set_balance a 0 m)

-- Every account of `m` is in `m'`.
Keeps : Assoc Account → Assoc Account → Type 0
Keeps m m' = (j : ℕ) → contains j m ≡ true → contains j m' ≡ true

Keeps-set_balance : (a n : ℕ) (m : Assoc Account) → Keeps m (set_balance a n m)
unfolding Keeps set_balance contains
Keeps-set_balance a n m j h =
    ground (arith, h, lookup-insert a j (record (account_at a m) { balance = n }) m)

Keeps-bump_nonce : (a : ℕ) (m : Assoc Account) → Keeps m (bump_nonce a m)
unfolding Keeps bump_nonce contains
Keeps-bump_nonce a m j h = ground (
  arith,
  h,
  lookup-insert a j (record (account_at a m) { nonce = ((account_at a m).nonce + 1) % 2 ^ 64 }) m,
)

Keeps-credit : (a n : ℕ) (m : Assoc Account) → Keeps m (credit a n m)
unfolding Keeps
Keeps-credit a n m j h =
    Keeps-set_balance a (balance_of a m + n) (set_balance a (balance_of a m) m) j
      (Keeps-set_balance a (balance_of a m) m j h)

-- What a subtraction of the price of a transaction that throws adds to a balance at most: nothing, if it leaves the balance as it was.
unfoldable pub IsBoundedBy : {C : Type 0} → Contracts C → (TxBlock → ℕ) → Type 0
IsBoundedBy cm extra =
    (tx : TxBlock) (cost n : ℕ)
    → value_with_fees tx ≡ ok cost
    → n < cost
    → cm.after_underflow n cost ≤ n + extra tx

module _ {C R : Type 0} (cm : Contracts C) (extra : TxBlock → ℕ)
    (bounded : IsBoundedBy cm extra) where
  -- A transaction that returned with these accounts, and changed nothing else
  record Returned (tx : TxBlock) (s : State C R) (m : Assoc Account) : Type 0 where
    done : process_transaction cm tx s ≡ (ok tt, record s { accounts = m })
    minted : total m ≤ total s.accounts + (tx.value + extra tx)
    keeps : Keeps s.accounts m

  module _ (tx : TxBlock) (s : State C R)
      (room : total s.accounts + (tx.value + extra tx) < 2 ^ 256) where
    refunded : Assoc Account → Assoc Account
    refunded m = bump_nonce tx.from (credit tx.from tx.value m)

    refunded-Returned :
        (m : Assoc Account)
        → total m ≤ total s.accounts + extra tx
        → Keeps s.accounts m
        → process_transaction cm tx s ≡ (ok tt, record s { accounts = refunded m })
        → Returned tx s (refunded m)
    unfolding refunded Keeps
    refunded-Returned m least kept done = record {
      done = done;
      minted = omega (
        arith,
        least,
        total-bump_nonce tx.from (credit tx.from tx.value m),
        total-credit tx.from tx.value m,
      );
      keeps = λ j h.
          Keeps-bump_nonce tx.from (credit tx.from tx.value m) j
            (Keeps-credit tx.from tx.value m j (kept j h));
    }

    unpriced :
        (sender : Account) (e : Error)
        → lookup tx.from s.accounts ≡ some sender
        → value_with_fees tx ≡ err e
        → Returned tx s (refunded s.accounts)
    unfolding process_transaction caught increment_nonce transfer refunded Keeps
    unpriced sender e known thrown =
        let fits : balance_of tx.from s.accounts + tx.value < 2 ^ 256 =
          omega (arith, room, balance_of-le-total tx.from s.accounts) in
        refunded-Returned s.accounts (omega arith) (λ j h. h)
          (ground (arith, known, thrown, add_balance_of-ok tx.from tx.value s fits))

    short :
        (sender : Account) (cost : ℕ)
        → lookup tx.from s.accounts ≡ some sender
        → value_with_fees tx ≡ ok cost
        → balance_of tx.from s.accounts < cost
        → (m : Assoc Account) × Returned tx s m
    unfolding refunded IsBoundedBy
    short sender cost known priced h =
        let n : ℕ = balance_of tx.from s.accounts in
        let left : ℕ = cm.after_underflow n cost in
        let most : left ≤ n + extra tx = bounded tx cost n priced h in
        let m : Assoc Account = set_balance tx.from left s.accounts in
        let fits : left + tx.value < 2 ^ 256 =
          omega (arith, most, room, balance_of-le-total tx.from s.accounts) in
        (
          refunded m,
          refunded-Returned m
              (omega (
                arith,
                most,
                balance_of-le-total tx.from s.accounts,
                total-set_balance tx.from left s.accounts,
              ))
              (Keeps-set_balance tx.from left s.accounts)
              (process_transaction_short cm tx s known priced h fits),
        )

    paid :
        (sender : Account) (cost : ℕ)
        → lookup tx.from s.accounts ≡ some sender
        → value_with_fees tx ≡ ok cost
        → cost ≤ balance_of tx.from s.accounts
        → is_contract_address cm s.contracts tx.to ≡ false
        → Returned tx s (bump_nonce tx.from (credit tx.to tx.value (debit tx.from cost s.accounts)))
    unfolding Keeps
    paid sender cost known priced enough plain =
        let m = debit tx.from cost s.accounts in
        let less = total-debit tx.from cost s.accounts enough in
        record {
          done =
              process_transaction_plain cm tx s known priced enough
                (omega (arith, room, less, balance_of-le-total tx.to m)) plain;
          minted = omega (
            arith,
            less,
            total-bump_nonce tx.from (credit tx.to tx.value m),
            total-credit tx.to tx.value m,
          );
          keeps = λ j h. Keeps-bump_nonce tx.from (credit tx.to tx.value m) j (
              Keeps-credit tx.to tx.value m j
                (Keeps-set_balance tx.from (balance_of tx.from s.accounts - cost) s.accounts j h));
        }

    -- A transfer from an account that exists returns, if no sum can pass 256 bits.
    process_transaction-Returned :
        contains tx.from s.accounts ≡ true
        → is_contract_address cm s.contracts tx.to ≡ false
        → (m : Assoc Account) × Returned tx s m
    unfolding contains
    process_transaction-Returned known plain = elim (Option-cases (lookup tx.from s.accounts)) [
      | inl absent ↦ absurd (ground (arith, known, absent))
      | inr (sender, present) ↦ elim (Result-cases (value_with_fees tx)) [
        | inl (e, thrown) ↦ (refunded s.accounts, unpriced sender e present thrown)
        | inr (cost, priced) ↦ elim (le_or_lt cost (balance_of tx.from s.accounts)) [
          | inl enough ↦ (_, paid sender cost present priced enough plain)
          | inr h ↦ short sender cost present priced h
        ]
      ]
    ]

-- The sum of the values of the transactions, and of what else each may add
unfoldable pub gains : (TxBlock → ℕ) → List TxBlock → ℕ
gains extra [] = 0
gains extra (tx ∷ txs) = tx.value + extra tx + gains extra txs

-- Each transaction goes from an account that exists to an address that is no contract.
unfoldable pub ArePlain : {C : Type 0} → Contracts C → C → Assoc Account → List TxBlock → Type 0
ArePlain cm c m [] = Unit
ArePlain cm c m (tx ∷ txs) =
    (contains tx.from m ≡ true) × (is_contract_address cm c tx.to ≡ false) × ArePlain cm c m txs

ArePlain-Keeps :
    {C : Type 0} (cm : Contracts C) (c : C) (m m' : Assoc Account) (txs : List TxBlock)
    → Keeps m m'
    → ArePlain cm c m txs
    → ArePlain cm c m' txs
unfolding ArePlain Keeps
ArePlain-Keeps cm c m m' [] k h = tt
ArePlain-Keeps cm c m m' (tx ∷ txs) k h = (k tx.from h.0, h.1, ArePlain-Keeps cm c m m' txs k h.2)

module _ {C R : Type 0} (cm : Contracts C) (rdpos : Consensus R) (extra : TxBlock → ℕ)
    (bounded : IsBoundedBy cm extra) where
  process_transactions-returns :
      (txs : List TxBlock) (s : State C R)
      → ArePlain cm s.contracts s.accounts txs
      → total s.accounts + gains extra txs < 2 ^ 256
      → (m : Assoc Account) × (process_transactions cm rdpos txs s
          ≡ (ok tt, record s { accounts = m }))
  unfolding process_transactions gains ArePlain
  process_transactions-returns [] s h room = (s.accounts, refl)
  process_transactions-returns (tx ∷ txs) s h room =
      let (m, r) =
        process_transaction-Returned cm extra bounded tx s (omega (arith, room)) h.0 h.1 in
      let s' : State C R = record s { accounts = m } in
      let (m', done) =
        process_transactions-returns txs s'
          (ArePlain-Keeps cm s.contracts s.accounts m txs r.keeps h.2)
          (omega (arith, room, r.minted)) in
      (m', ap (λ o. continue o.0 (λ _. process_transactions cm rdpos txs) o.1) r.done ∙ done)

  -- What follows the transactions returns, if the consensus processes the block.
  after_transactions :
      (block : Block) (s : State C R) (m : Assoc Account)
      → process_transactions cm rdpos block.txs s ≡ (ok tt, record s { accounts = m })
      → (rdpos.process_block block s.rdpos).0 ≡ ok tt
      → IsMempool s.mempool
      → (process_valid_block cm rdpos block s).0 ≡ ok tt
  unfolding process_valid_block process_rdpos
  after_transactions block s m done processed wf =
      let s' : State C R = record s {
        accounts = m;
        rdpos = (rdpos.process_block block s.rdpos).1;
      } in
      rw (done, processed, (refresh_mempool-survivors s' block 0 wf).0) refl

  process_valid_block-returns :
      (block : Block) (s : State C R)
      → ArePlain cm s.contracts s.accounts block.txs
      → total s.accounts + gains extra block.txs < 2 ^ 256
      → (rdpos.process_block block s.rdpos).0 ≡ ok tt
      → IsMempool s.mempool
      → (process_valid_block cm rdpos block s).0 ≡ ok tt
  process_valid_block-returns block s h room processed wf =
      let (m, done) = process_transactions-returns block.txs s h room in
      after_transactions block s m done processed wf

  appended :
      (s : State C R) (block : Block) (r : Result (Unit {0})) (s' : State C R)
      → r ≡ ok tt
      → Outcome cm rdpos s block (r, s')
      → (s'.latest ≡ block) × (s'.blocks ≡ s.latest ∷ s.blocks)
  appended s block (ok _) s' h o = (o.1, o.2)
  appended s block (err e) s' h o = absurd (ground (arith, h))

  process_next_block-returns :
      (s : State C R) (block : Block)
      → Accepted cm rdpos s block
      → ArePlain cm s.contracts s.accounts block.txs
      → total s.accounts + gains extra block.txs < 2 ^ 256
      → (rdpos.process_block block s.rdpos).0 ≡ ok tt
      → IsMempool s.mempool
      → (process_next_block cm rdpos block s).0 ≡ ok tt
  unfolding process_next_block process_decided
  process_next_block-returns s block a h room processed wf =
      rw ((validate_next_block_iff_Accepted cm rdpos s block).1 a)
        (process_valid_block-returns block s h room processed wf)

  pub process_next_block-appends :
      (s : State C R) (block : Block)
      → Accepted cm rdpos s block
      → ArePlain cm s.contracts s.accounts block.txs
      → total s.accounts + gains extra block.txs < 2 ^ 256
      → (rdpos.process_block block s.rdpos).0 ≡ ok tt
      → IsMempool s.mempool
      → ((process_next_block cm rdpos block s).0 ≡ ok tt)
        × ((process_next_block cm rdpos block s).1.latest ≡ block)
        × ((process_next_block cm rdpos block s).1.blocks ≡ s.latest ∷ s.blocks)
  process_next_block-appends s block a h room processed wf =
      let done = process_next_block-returns s block a h room processed wf in
      let outcome =
        appended s block (process_next_block cm rdpos block s).0
          (process_next_block cm rdpos block s).1 done
          (process_next_block-Outcome cm rdpos s block) in
      (done, outcome.0, outcome.1)
