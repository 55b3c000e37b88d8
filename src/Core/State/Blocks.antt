-- ===== src/Core/State/Blocks.antt =====
-- The methods of `State` for blocks and the mempool: `refreshMempool`, `validateNextBlock`,
-- `processNextBlock`, `fillBlockWithTransactions`, `addTx`, `addValidatorTx`, and the getters.
mod Frames
pub mod Links
pub mod Refresh
pub mod Live
pub mod Mempool
use orbitersdk_cpp.Prelude.{
  ℕ, ◌+◌, ◌%◌, ◌^◌, Bool, true, false, not, ◌&&◌, Option, none, some, List, [], ◌∷◌, ◌++◌, map,
  Result, ok, err, runtime_error, Assoc, lookup, insert, erase, contains, ◌==◌, ltb, if◌then◌else◌,
}
use orbitersdk_cpp.Prelude.Exec.{Exec, pure, lift, gets, modify, throw_if, continue, ◌>>=◌, ◌>>◌}
use orbitersdk_cpp.Core.Chain.{Account, TxBlock, TxValidator, Block}
use orbitersdk_cpp.Core.State.{
  State, Contracts, Consensus, TxInvalid, not_invalid, is_invalid, account_at, add_balance_of,
  validate_transaction_internal,
}
use orbitersdk_cpp.Core.State.Transactions.{process_transaction}

-- The first loop of `refreshMempool`
unfoldable pub without_block : List TxBlock → Assoc TxBlock → Assoc TxBlock
without_block [] mempool = mempool
without_block (tx ∷ txs) mempool = without_block txs (erase tx.hash mempool)

-- `mempool.insert({hash, tx})`, which keeps an entry that is there
unfoldable pub insert_new : ℕ → TxBlock → Assoc TxBlock → Assoc TxBlock
insert_new hash tx mempool = if contains hash mempool then mempool else insert hash tx mempool

module _ {C R : Type 0} where
  -- The second loop of `refreshMempool`, over the copy of the mempool
  unfoldable pub refill : Assoc TxBlock → Exec (State C R) (Unit {0})
  refill [] = pure tt
  refill ((hash, tx) ∷ rest) = λ s.
      let go_on = refill rest in
      elim (validate_transaction_internal s tx) [
        | err e ↦ (err e, s)
        | ok verdict ↦
            if is_invalid verdict
            then go_on s
            else go_on (record s { mempool = insert_new hash tx s.mempool })
      ]

  unfoldable pub refresh_mempool : Block → Exec (State C R) (Unit {0})
  refresh_mempool block s =
      let mempool_copy = without_block block.txs s.mempool in
      refill mempool_copy (record s { mempool = [] })

  -- The loop of `validateNextBlock` over the transactions
  unfoldable pub validate_transactions : State C R → List TxBlock → Result Bool
  validate_transactions s [] = ok true
  validate_transactions s (tx ∷ txs) =
      let rest = validate_transactions s txs in
      elim (validate_transaction_internal s tx) [
        | err e ↦ err e
        | ok verdict ↦ if is_invalid verdict then ok false else rest
      ]

module _ {C R : Type 0} (rdpos : Consensus R) where
  -- `validateNextBlock` from the verdict of the consensus on
  unfoldable pub validated : Result Bool → State C R → Block → Result Bool
  validated (err e) s block = err e
  validated (ok false) s block = ok false
  validated (ok true) s block = validate_transactions s block.txs

  unfoldable pub validate_next_block : State C R → Block → Result Bool
  validate_next_block s block =
      if not (block.n_height == (s.latest.n_height + 1) % 2 ^ 64)
      then ok false
      else if not (block.prev_block_hash == s.latest.hash)
      then ok false
      else if ltb block.timestamp s.latest.timestamp
      then ok false
      else validated (rdpos.validate_block s.rdpos block) s block

  -- `rdpos->processBlock(block)`
  unfoldable pub process_rdpos : Block → Exec (State C R) (Unit {0})
  process_rdpos block s =
      let (result, r) = rdpos.process_block block s.rdpos in (result, record s { rdpos = r })

  unfoldable pub add_validator_tx : TxValidator → Exec (State C R) Bool
  add_validator_tx tx s =
      let (result, r) = rdpos.add_validator_tx s.latest tx s.rdpos in
      (result, record s { rdpos = r })

module _ {C R : Type 0} (cm : Contracts C) (rdpos : Consensus R) where
  -- The loop of `processNextBlock` over the transactions
  unfoldable pub process_transactions : List TxBlock → Exec (State C R) (Unit {0})
  process_transactions [] = pure tt
  process_transactions (tx ∷ txs) = process_transaction cm tx >> process_transactions txs

  -- `storage->pushBack(std::move(block))`
  abbrev push_back : Block → Exec (State C R) (Unit {0})
  push_back block = modify (λ s. record s { latest = block; blocks = s.latest ∷ s.blocks })

  unfoldable pub process_valid_block : Block → Exec (State C R) (Unit {0})
  process_valid_block block = do
    process_transactions block.txs
    process_rdpos rdpos block
    refresh_mempool block
    push_back block

  -- What `processNextBlock` does with the verdict of `validateNextBlock`
  unfoldable pub process_decided : Block → Result Bool → Exec (State C R) (Unit {0})
  process_decided block (err e) s = (err e, s)
  process_decided block (ok false) s = (err runtime_error, s)
  process_decided block (ok true) s = process_valid_block block s

  unfoldable pub process_next_block : Block → Exec (State C R) (Unit {0})
  process_next_block block s = process_decided block (validate_next_block rdpos s block) s

module _ {C R : Type 0} where
  unfoldable pub add_tx : TxBlock → Exec (State C R) TxInvalid
  add_tx tx s = elim (validate_transaction_internal s tx) [
    | err e ↦ (err e, s)
    | ok verdict ↦
        if is_invalid verdict
        then (ok verdict, s)
        else (ok verdict, record s { mempool = insert_new tx.hash tx s.mempool })
  ]

  -- `fillBlockWithTransactions`; `Block::appendTx` leaves a finalized block alone
  unfoldable pub fill_block_with_transactions : State C R → Block → Block
  fill_block_with_transactions s block =
      if block.finalized
      then block
      else record block { txs = block.txs ++ map (λ (entry : ℕ × TxBlock). entry.1) s.mempool }

  unfoldable pub is_tx_in_mempool : State C R → ℕ → Bool
  is_tx_in_mempool s hash = contains hash s.mempool

  unfoldable pub get_tx_from_mempool : State C R → ℕ → Option TxBlock
  get_tx_from_mempool s hash = lookup hash s.mempool

  unfoldable pub get_native_balance : State C R → ℕ → ℕ
  get_native_balance s addr = elim (lookup addr s.accounts) [
    | none ↦ 0
    | some account ↦ account.balance
  ]

  unfoldable pub get_native_nonce : State C R → ℕ → ℕ
  get_native_nonce s addr = elim (lookup addr s.accounts) [
    | none ↦ 0
    | some account ↦ account.nonce
  ]

  -- `addBalance`: a thousand native tokens, for tests
  unfoldable pub add_balance : ℕ → Exec (State C R) (Unit {0})
  add_balance addr = add_balance_of addr 1_000_000_000_000_000_000_000
