-- ===== src/Core/Storage/Transactions.antt =====
-- How `Storage` finds transactions: `getTx`, `getTxByBlockHashAndIndex` and `getTxByBlockNumberAndIndex`.
use orbitersdk_cpp.Prelude.{ℕ, not, ◌||◌, none, some, lookup, runtime_error, ◌==◌}
use orbitersdk_cpp.Prelude.Exec.{Exec, pure, lift, gets, modify, throw_if, ◌>>=◌, ◌>>◌}
use orbitersdk_cpp.Core.Chain.{TxBlock}
use orbitersdk_cpp.Core.Storage.{
  not_found, on_chain, on_cache, on_db, TxPlace, no_place, TxFound, no_tx, Storage, Db, try_insert,
  found, tx_at, block_exists, block_exists_at, tx_exists, hash_at,
}

-- `this->cachedTxs[tx]`, which makes an entry where there is none
unfoldable pub cached_tx : ℕ → Exec Storage TxFound
cached_tx tx = do
  modify (λ s. record s { cached_txs = try_insert tx no_tx s.cached_txs })
  gets (λ s. elim (lookup tx s.cached_txs) [ none ↦ no_tx | some entry ↦ entry ])

-- `this->txByHash[tx]`
unfoldable pub place_of : ℕ → Exec Storage TxPlace
place_of tx = do
  modify (λ s. record s { tx_by_hash = try_insert tx no_place s.tx_by_hash })
  gets (λ s. elim (lookup tx s.tx_by_hash) [ none ↦ no_place | some place ↦ place ])

-- `this->blockByHash[hash]->getTxs()[index]`, and the same of `cachedBlocks`
abbrev pub chain_tx : ℕ → ℕ → Exec Storage TxBlock
chain_tx hash index s = (tx_at (lookup hash s.block_by_hash) index, s)

abbrev pub cached_block_tx : ℕ → ℕ → Exec Storage TxBlock
cached_block_tx hash index s = (tx_at (lookup hash s.cached_blocks) index, s)

module _ (db : Db) where
  -- A transaction of the database, which is cached under `key`
  unfoldable pub load_tx : ℕ → TxBlock → TxPlace → Exec Storage TxFound
  unfolding cached_tx
  load_tx key tx place = do
    modify (λ s. record s { cached_txs = try_insert key (some tx, place) s.cached_txs })
    cached_tx key

  unfoldable pub get_tx : ℕ → Exec Storage TxFound
  unfolding cached_tx load_tx tx_exists
  get_tx hash = do
    status ← gets (tx_exists db hash)
    elim status [
      | not_found ↦ pure no_tx
      | on_chain ↦ do
        place ← λ s. (found hash s.tx_by_hash, s)
        transaction ← chain_tx place.block_hash place.index
        throw_if (not (transaction.hash == hash)) runtime_error
        pure (some transaction, place)
      | on_cache ↦ cached_tx hash
      | on_db ↦ do
        place ← lift (db.tx_place hash)
        tx ← lift (db.block_tx place.block_hash place.index)
        load_tx hash tx place
    ]

  -- The height is that of `blockHeightByHash`, whose `operator[]` gives 0 where there is none.
  unfoldable pub load_block_tx : ℕ → ℕ → Exec Storage TxFound
  unfolding load_tx
  load_block_tx hash index = do
    tx ← lift (db.block_tx hash index)
    modify (λ s. record s { block_height_by_hash = try_insert hash 0 s.block_height_by_hash })
    height ← λ s. (found hash s.block_height_by_hash, s)
    load_tx tx.hash tx (record { block_hash = hash; index = index; height = height })

  unfoldable pub get_tx_by_block_hash_and_index : ℕ → ℕ → Exec Storage TxFound
  unfolding cached_tx place_of load_block_tx block_exists
  get_tx_by_block_hash_and_index hash index = do
    status ← gets (block_exists db hash)
    elim status [
      | not_found ↦ pure no_tx
      | on_chain ↦ do
        tx ← chain_tx hash index
        place ← place_of tx.hash
        throw_if (not (place.block_hash == hash) || not (place.index == index)) runtime_error
        pure (some tx, place)
      | on_cache ↦ do tx ← cached_block_tx hash index; cached_tx tx.hash
      | on_db ↦ load_block_tx hash index
    ]

  unfoldable pub get_tx_by_block_number_and_index : ℕ → ℕ → Exec Storage TxFound
  unfolding cached_tx place_of load_block_tx block_exists_at
  get_tx_by_block_number_and_index height index = do
    status ← gets (block_exists_at db height)
    elim status [
      | not_found ↦ pure no_tx
      | on_chain ↦ do
        hash ← hash_at db height
        tx ← chain_tx hash index
        place ← place_of tx.hash
        pure (some tx, place)
      | on_cache ↦ do hash ← hash_at db height; tx ← cached_block_tx hash index; cached_tx tx.hash
      | on_db ↦ do hash ← hash_at db height; load_block_tx hash index
    ]
