-- ===== src/Core/Storage/Cache.antt =====
-- What the getters of `Storage` return: from the chain, from what is cached, or from the database.
use orbitersdk_cpp.Prelude.{
  ℕ, ◌≡◌, refl, ap, sym, ◌∙◌, inl, inr, true, Option, none, some, List, [], ◌∷◌, ◌++◌, get_elem?,
  lookup, insert, contains, lookup-insert, lookup-erase, Result, ok, err, if◌then◌else◌, arith,
}
use orbitersdk_cpp.Prelude.Throw.{Result-cases}
use orbitersdk_cpp.Core.Chain.{TxBlock, Block}
use orbitersdk_cpp.Core.Storage.{
  on_db, no_tx, Storage, Db, try_insert, tx_at, back, without_back, add_block, push_back,
  remove_block, pop_back, block_exists, block_exists_at, load_block, get_block,
}
use orbitersdk_cpp.Core.Storage.Blocks.{IsConsistent, push_back-ok}
use orbitersdk_cpp.Core.Storage.Linked.{find_block}
use orbitersdk_cpp.Core.Storage.Transactions.{cached_tx, get_tx_by_block_hash_and_index}

module _ (db : Db) where
  -- A block of the database, and the storage that has it in its cache
  unfoldable pub loaded : ℕ → Storage → Result Block → Result (Option Block) × Storage
  loaded hash s (err e) = (err e, s)
  loaded hash s (ok b) = (ok (some b), record s { cached_blocks = insert hash b s.cached_blocks })

  -- The view of a storage: its chain, else its cache, else the database
  unfoldable pub view_block : ℕ → Storage → Result (Option Block) × Storage
  view_block hash s = elim (find_block hash s.chain) [
    | some b ↦ (ok (some b), s)
    | none ↦ elim (lookup hash s.cached_blocks) [
      | some b ↦ (ok (some b), s)
      | none ↦ if db.has_block hash then loaded hash s (db.block hash) else (ok none, s)
    ]
  ]

  load_block_lem :
      (s : Storage) (hash : ℕ)
      → lookup hash s.cached_blocks ≡ none
      → load_block db hash s ≡ loaded hash s (db.block hash)
  unfolding load_block loaded contains
  load_block_lem s hash h = elim (Result-cases (db.block hash)) [
    | inl (e, thrown) ↦ rw thrown refl
    | inr (b, read) ↦ rw read (ground (arith, h, lookup-insert hash hash b s.cached_blocks))
  ]

  -- In a consistent storage `getBlock` of a hash gives the block of the chain with this hash, else the cached one, else the one of the database, which is cached, else null; an exception of the block's constructor changes nothing.
  pub get_block-view :
      (s : Storage) (hash : ℕ) → IsConsistent s → get_block db hash s ≡ view_block hash s
  unfolding get_block block_exists contains view_block
  get_block-view s hash c = ground (arith, c.agrees hash, load_block_lem s hash)

  get_tx_on_cache :
      (s : Storage) (hash index : ℕ) (b : Block) (tx : TxBlock)
      → lookup hash s.block_by_hash ≡ none
      → lookup hash s.cached_blocks ≡ some b
      → get_elem? b.txs index ≡ some tx
      → lookup tx.hash s.cached_txs ≡ none
      → (get_tx_by_block_hash_and_index db hash index s).0 ≡ ok no_tx
  unfolding get_tx_by_block_hash_and_index block_exists contains tx_at cached_tx
  get_tx_on_cache s hash index b tx absent cached there unknown =
      ground
        (arith, absent, cached, there, unknown, lookup-insert tx.hash tx.hash no_tx s.cached_txs)

  -- After a block was loaded from the database, its transactions are not found by its hash and their index: a null pointer is returned, as the block is cached and they are not.
  get_tx-cached_block :
      (s : Storage) (hash index : ℕ) (b : Block) (tx : TxBlock)
      → IsConsistent s
      → find_block hash s.chain ≡ none
      → lookup hash s.cached_blocks ≡ none
      → db.has_block hash ≡ true
      → db.block hash ≡ ok b
      → get_elem? b.txs index ≡ some tx
      → lookup tx.hash s.cached_txs ≡ none
      → (get_tx_by_block_hash_and_index db hash index (get_block db hash s).1).0 ≡ ok no_tx
  unfolding view_block loaded
  get_tx-cached_block s hash index b tx c absent uncached stored read there unknown =
      let s' = record s { cached_blocks = insert hash b s.cached_blocks } in
      let got : get_block db hash s ≡ (ok (some b), s') =
        get_block-view s hash c ∙ ground (arith, absent, uncached, stored, read) in
      ap (λ r. (get_tx_by_block_hash_and_index db hash index r.1).0) got
      ∙ get_tx_on_cache s' hash index b tx (ground (arith, c.agrees hash, absent))
          (ground (arith, lookup-insert hash hash b s.cached_blocks)) there unknown

back-append : (blocks : List Block) (b : Block) → back (blocks ++ (b ∷ [])) ≡ some b
unfolding back
back-append [] b = refl
back-append (c ∷ []) b = refl
back-append (c ∷ (d ∷ blocks)) b = back-append (d ∷ blocks) b

push_pop :
    (s s1 s2 : Storage) (b : Block)
    → push_back s b ≡ ok s1
    → pop_back s1 ≡ ok s2
    → (blocks : List Block) × (s2 ≡ remove_block blocks b (add_block (s.chain ++ (b ∷ [])) b s))
unfolding pop_back add_block
push_pop s s1 s2 b h k =
    let (made, _) = push_back-ok s b s1 h in
    let popped = ap pop_back (sym made) ∙ k in
    (without_back (s.chain ++ (b ∷ [])), ground (arith, popped, back-append s.chain b))

-- After a block at a new height was pushed to the back and popped again its height is still known: `blockExists` of that height says that the block is in the database, whatever the database holds, if the block is not cached.
block_exists_at-pop_back :
    (db : Db) (s s1 s2 : Storage) (b : Block)
    → lookup b.n_height s.block_hash_by_height ≡ none
    → lookup b.hash s.cached_blocks ≡ none
    → push_back s b ≡ ok s1
    → pop_back s1 ≡ ok s2
    → block_exists_at db b.n_height s2 ≡ on_db
unfolding block_exists_at remove_block add_block contains
block_exists_at-pop_back db s s1 s2 b new_height uncached h k =
    let (blocks, popped) = push_pop s s1 s2 b h k in
    rw popped (
      ground (
        arith,
        new_height,
        uncached,
        lookup-insert b.n_height b.n_height b.hash s.block_hash_by_height,
        lookup-erase b.hash b.hash (try_insert b.hash b s.block_by_hash),
      ))
