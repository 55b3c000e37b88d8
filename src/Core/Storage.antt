-- ===== src/Core/Storage.antt =====
-- `Storage` of core/storage.h and core/storage.cpp: the recent blocks in memory and what is cached of the older ones.
pub mod Transactions
pub mod Linked
pub mod Blocks
pub mod Cache
pub mod Index
use orbitersdk_cpp.Prelude.{
  ℕ, zero, suc, ◌+◌, ◌-◌, ◌%◌, ◌^◌, Bool, true, false, not, Option, none, some, List, [], ◌∷◌, ◌++◌,
  Assoc, lookup, insert, erase, contains, Result, ok, err, runtime_error, undefined, get_elem?,
  ◌==◌, if◌then◌else◌,
}
use orbitersdk_cpp.Prelude.Exec.{Exec, pure, lift, gets, modify, throw_if, ◌>>=◌, ◌>>◌}
use orbitersdk_cpp.Core.Chain.{TxBlock, Block}

pub data StorageStatus : Type 0 where
  not_found on_chain on_cache on_db : StorageStatus

-- Where a transaction is: the hash of its block, its index there, and the height of the block.
pub record TxPlace : Type 0 where
  pub block_hash : ℕ
  pub index : ℕ
  pub height : ℕ

-- `{Hash(), 0, 0}`
abbrev pub no_place : TxPlace
no_place = record { block_hash = 0; index = 0; height = 0 }

-- What `getTx` and its kin return: the pointer, and the place.
abbrev pub TxFound : Type 0
TxFound = Option TxBlock × TxPlace

abbrev pub no_tx : TxFound
no_tx = (none, no_place)

-- `chain` is from its front to its back.
pub record Storage : Type 0 where
  pub chain : List Block
  pub block_by_hash : Assoc Block
  pub tx_by_hash : Assoc TxPlace
  pub block_height_by_hash : Assoc ℕ
  pub block_hash_by_height : Assoc ℕ
  pub cached_blocks : Assoc Block
  pub cached_txs : Assoc TxFound

-- The database, as `Storage` reads it: its blocks through the constructor of `Block`, the places of transactions from the
-- 44 bytes that are stored, and the transaction that `getTxFromBlockWithIndex` makes.
pub record Db : Type 0 where
  pub has_block : ℕ → Bool
  pub block : ℕ → Result Block
  pub has_tx : ℕ → Bool
  pub tx_place : ℕ → Result TxPlace
  pub block_tx : ℕ → ℕ → Result TxBlock

module _ {V : Type 0} where
  -- `m.insert({key, value})`, which leaves an entry as it is
  abbrev pub try_insert : ℕ → V → Assoc V → Assoc V
  try_insert key value m = if contains key m then m else insert key value m

  -- `m.find(key)->second`
  abbrev pub found : ℕ → Assoc V → Result V
  found key m = elim (lookup key m) [ none ↦ err undefined | some value ↦ ok value ]

-- `chain.back()`
unfoldable pub back : List Block → Option Block
back [] = none
back (b ∷ []) = some b
back (b ∷ (c ∷ blocks)) = back (c ∷ blocks)

-- `chain.pop_back()`
unfoldable pub without_back : List Block → List Block
without_back [] = []
without_back (b ∷ []) = []
without_back (b ∷ (c ∷ blocks)) = b ∷ without_back (c ∷ blocks)

-- The loop over the transactions of a new block, from index `i` on
unfoldable pub index_txs : Block → ℕ → List TxBlock → Assoc TxPlace → Assoc TxPlace
index_txs b i [] m = m
index_txs b i (tx ∷ txs) m =
    index_txs b (i + 1) txs
      (try_insert tx.hash (record { block_hash = b.hash; index = i; height = b.n_height }) m)

unfoldable pub erase_txs : List TxBlock → Assoc TxPlace → Assoc TxPlace
erase_txs [] m = m
erase_txs (tx ∷ txs) m = erase_txs txs (erase tx.hash m)

-- The mappings with a new block, and this chain
unfoldable pub add_block : List Block → Block → Storage → Storage
unfolding index_txs
add_block chain b s = record s {
  chain = chain;
  block_by_hash = try_insert b.hash b s.block_by_hash;
  block_hash_by_height = try_insert b.n_height b.hash s.block_hash_by_height;
  block_height_by_hash = try_insert b.hash b.n_height s.block_height_by_hash;
  tx_by_hash = index_txs b 0 b.txs s.tx_by_hash;
}

-- An exception leaves the storage as it was.
unfoldable pub push_back : Storage → Block → Result Storage
push_back s b = elim (back s.chain) [
  | none ↦ ok (add_block (s.chain ++ (b ∷ [])) b s)
  | some last ↦
      if not (last.hash == b.prev_block_hash)
      then err runtime_error
      else if not (b.n_height == (last.n_height + 1) % 2 ^ 64)
      then err runtime_error
      else ok (add_block (s.chain ++ (b ∷ [])) b s)
]

unfoldable pub push_front : Storage → Block → Result Storage
push_front s b = elim s.chain [
  | [] ↦ ok (add_block (b ∷ []) b s)
  | first ∷ blocks ↦
      if not (first.prev_block_hash == b.hash)
      then err runtime_error
      else if not (b.n_height == (first.n_height + (2 ^ 64 - 1)) % 2 ^ 64)
      then err runtime_error
      else ok (add_block (b ∷ (first ∷ blocks)) b s)
]

-- The mappings without a block, and this chain
unfoldable pub remove_block : List Block → Block → Storage → Storage
unfolding erase_txs
remove_block chain b s = record s {
  chain = chain;
  tx_by_hash = erase_txs b.txs s.tx_by_hash;
  block_by_hash = erase b.hash s.block_by_hash;
}

-- `popBack` and `popFront`; on an empty chain they read what is not there.
unfoldable pub pop_back : Storage → Result Storage
pop_back s = elim (back s.chain) [
  | none ↦ err undefined
  | some b ↦ ok (remove_block (without_back s.chain) b s)
]

unfoldable pub pop_front : Storage → Result Storage
pop_front s = elim s.chain [ [] ↦ err undefined | b ∷ blocks ↦ ok (remove_block blocks b s) ]

-- `latest` and `currentChainSize`
unfoldable pub latest : Storage → Result Block
latest s = elim (back s.chain) [ none ↦ err undefined | some b ↦ ok b ]

unfoldable pub current_chain_size : Storage → Result ℕ
current_chain_size s = elim (latest s) [ err e ↦ err e | ok b ↦ ok ((b.n_height + 1) % 2 ^ 64) ]

-- `getTxs()[index]`, from a pointer to the block that may be null
unfoldable pub tx_at : Option Block → ℕ → Result TxBlock
tx_at none index = err undefined
tx_at (some b) index = elim (get_elem? b.txs index) [ none ↦ err undefined | some tx ↦ ok tx ]

module _ (db : Db) where
  unfoldable pub block_exists : ℕ → Storage → StorageStatus
  block_exists hash s =
      if contains hash s.block_by_hash
      then on_chain
      else if contains hash s.cached_blocks
      then on_cache
      else if db.has_block hash
      then on_db
      else not_found

  -- `blockExists` of a height does not ask the database.
  unfoldable pub block_exists_at : ℕ → Storage → StorageStatus
  block_exists_at height s = elim (lookup height s.block_hash_by_height) [
    | none ↦ not_found
    | some hash ↦
        if contains hash s.block_by_hash
        then on_chain
        else if contains hash s.cached_blocks
        then on_cache
        else on_db
  ]

  unfoldable pub tx_exists : ℕ → Storage → StorageStatus
  tx_exists tx s =
      if contains tx s.tx_by_hash
      then on_chain
      else if contains tx s.cached_txs
      then on_cache
      else if db.has_tx tx
      then on_db
      else not_found

  -- A block of the database, which is cached
  unfoldable pub load_block : ℕ → Exec Storage (Option Block)
  load_block hash = do
    b ← lift (db.block hash)
    modify (λ s. record s { cached_blocks = try_insert hash b s.cached_blocks })
    gets (λ s. lookup hash s.cached_blocks)

  -- `blockByHash.find(hash)->second`, and the hash that is stored for a height
  abbrev pub chain_block : ℕ → Exec Storage (Option Block)
  chain_block hash = do b ← λ s. (found hash s.block_by_hash, s); pure (some b)

  abbrev pub hash_at : ℕ → Exec Storage ℕ
  hash_at height s = (found height s.block_hash_by_height, s)

  -- A null pointer is `none`.
  unfoldable pub get_block : ℕ → Exec Storage (Option Block)
  unfolding load_block block_exists
  get_block hash = do
    status ← gets (block_exists hash)
    elim status [
      | not_found ↦ pure none
      | on_chain ↦ chain_block hash
      | on_cache ↦ gets (λ s. lookup hash s.cached_blocks)
      | on_db ↦ load_block hash
    ]

  unfoldable pub get_block_at : ℕ → Exec Storage (Option Block)
  unfolding load_block block_exists_at
  get_block_at height = do
    status ← gets (block_exists_at height)
    elim status [
      | not_found ↦ pure none
      | on_chain ↦ hash_at height >>= chain_block
      | on_cache ↦ hash_at height >>= λ hash. gets (λ s. lookup hash s.cached_blocks)
      | on_db ↦ hash_at height >>= load_block
    ]
