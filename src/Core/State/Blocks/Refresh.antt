-- ===== src/Core/State/Blocks/Refresh.antt =====
-- `refreshMempool`: which transactions of the mempool survive a block.
use orbitersdk_cpp.Prelude.{
  ℕ, ◌≡◌, refl, Bool, true, false, Option, some, none, List, [], ◌∷◌, Result, ok, err, is_ok, Assoc,
  lookup, insert, erase, contains, lookup-insert, lookup-erase, ◌==◌, if◌then◌else◌, arith,
}
use orbitersdk_cpp.Core.Chain.{Account, Block, TxBlock, value_with_fees}
use orbitersdk_cpp.Core.State.{
  State, TxInvalid, is_invalid, validate_transaction_internal, account_verdict, priced_verdict,
}
use orbitersdk_cpp.Core.State.Blocks.{without_block, insert_new, refill, refresh_mempool}

-- Every entry of the mempool is filed under its own hash, no hash is filed twice, and value and fees
-- of every transaction fit 256 bits.
abbrev pub IsMempool : Assoc TxBlock → Type 0
IsMempool [] = Unit
IsMempool ((hash, tx) ∷ rest) =
    ((hash ≡ tx.hash) × (is_ok (value_with_fees tx) ≡ true))
    × (lookup hash rest ≡ none)
    × IsMempool rest

abbrev pub includes : List TxBlock → ℕ → Bool
includes [] hash = false
includes (tx ∷ txs) hash = if tx.hash == hash then true else includes txs hash

lookup-without_block :
    (txs : List TxBlock) (hash : ℕ) (m : Assoc TxBlock)
    → lookup hash (without_block txs m) ≡ (if includes txs hash then none else lookup hash m)
unfolding without_block
lookup-without_block [] hash m = refl
lookup-without_block (tx ∷ txs) hash m =
    ground (arith, lookup-without_block txs hash (erase tx.hash m), lookup-erase tx.hash hash m)

erase-IsMempool : (hash : ℕ) (m : Assoc TxBlock) → IsMempool m → IsMempool (erase hash m)
unfolding erase
erase-IsMempool hash [] h = tt
erase-IsMempool hash ((k, tx) ∷ m) h =
    ground (arith, erase-IsMempool hash m h.2, lookup-erase hash k m)

pub without_block-IsMempool :
    (txs : List TxBlock) (m : Assoc TxBlock) → IsMempool m → IsMempool (without_block txs m)
unfolding without_block
without_block-IsMempool [] m h = h
without_block-IsMempool (tx ∷ txs) m h =
    without_block-IsMempool txs (erase tx.hash m) (erase-IsMempool tx.hash m h)

-- The verdict on a transaction that is not in the mempool.
abbrev pub verdict_on : Assoc Account → TxBlock → Result TxInvalid
verdict_on accounts tx = account_verdict (lookup tx.from accounts) tx

abbrev keeps : Result TxInvalid → TxBlock → Option TxBlock
keeps (ok v) tx = if is_invalid v then none else some tx
keeps (err e) tx = none

-- A transaction that is kept if it is valid against the accounts.
abbrev pub kept : Assoc Account → Option TxBlock → Option TxBlock
kept accounts none = none
kept accounts (some tx) = keeps (verdict_on accounts tx) tx

abbrev or_else : Option TxBlock → Option TxBlock → Option TxBlock
or_else none o = o
or_else (some tx) o = some tx

-- No key of the list is in the map.
abbrev Apart : Assoc TxBlock → Assoc TxBlock → Type 0
Apart [] m = Unit
Apart ((k, tx) ∷ rest) m = (lookup k m ≡ none) × Apart rest m

Apart-insert :
    (k : ℕ) (tx : TxBlock) (rest m : Assoc TxBlock)
    → lookup k rest ≡ none
    → Apart rest m
    → Apart rest (insert k tx m)
unfolding lookup
Apart-insert k tx [] m new h = tt
Apart-insert k tx ((j, u) ∷ rest) m new h =
    ground (arith, Apart-insert k tx rest m, lookup-insert k j tx m)

Apart-nil : (rest : Assoc TxBlock) → Apart rest []
unfolding lookup
Apart-nil [] = tt
Apart-nil ((k, tx) ∷ rest) = (refl, Apart-nil rest)

lookup_nil : (hash : ℕ) → lookup {V = TxBlock} hash [] ≡ none
unfolding lookup
lookup_nil hash = refl

insert_new-insert :
    (k : ℕ) (tx : TxBlock) (m : Assoc TxBlock)
    → lookup k m ≡ none
    → insert_new k tx m ≡ insert k tx m
unfolding insert_new contains
insert_new-insert k tx m new = ground arith

module _ {C R : Type 0} where
  new_verdict :
      (s : State C R) (tx : TxBlock)
      → lookup tx.hash s.mempool ≡ none
      → validate_transaction_internal s tx ≡ verdict_on s.accounts tx
  unfolding validate_transaction_internal contains
  new_verdict s tx new = ground arith

  -- `refill` leaves what was there, and adds what is valid of the rest.
  refill_lem :
      (rest : Assoc TxBlock) (s : State C R) (hash : ℕ)
      → IsMempool rest
      → Apart rest s.mempool
      → (refill rest s).0 ≡ ok tt
      → lookup hash (refill rest s).1.mempool
        ≡ or_else (lookup hash s.mempool) (kept s.accounts (lookup hash rest))
  unfolding refill lookup
  refill_lem [] s hash wf apart done = ground arith
  refill_lem ((k, tx) ∷ rest) s hash wf apart done =
      let s' : State C R = record s { mempool = insert k tx s.mempool } in
      ground (
        arith,
        new_verdict s tx,
        insert_new-insert k tx s.mempool,
        lookup-insert k hash tx s.mempool,
        refill_lem rest s hash wf.2 apart.1,
        refill_lem rest s' hash wf.2 (Apart-insert k tx rest s.mempool wf.1 apart.1),
      )

  validate_returns :
      (s : State C R) (tx : TxBlock)
      → is_ok (value_with_fees tx) ≡ true
      → is_ok (validate_transaction_internal s tx) ≡ true
  unfolding validate_transaction_internal priced_verdict
  validate_returns s tx priced = ground arith

  refill_returns :
      (rest : Assoc TxBlock) (s : State C R) → IsMempool rest → (refill rest s).0 ≡ ok tt
  unfolding refill
  refill_returns [] s wf = refl
  refill_returns ((k, tx) ∷ rest) s wf =
      let s' : State C R = record s { mempool = insert_new k tx s.mempool } in
      ground (arith, validate_returns s tx, refill_returns rest s wf.2, refill_returns rest s' wf.2)

  -- From a well-formed mempool `refreshMempool` never throws, and a transaction is in the mempool
  -- afterwards exactly if it was there, is not in the block, and is valid against the accounts.
  pub refresh_mempool-survivors :
      (s : State C R) (block : Block) (hash : ℕ)
      → IsMempool s.mempool
      → ((refresh_mempool block s).0 ≡ ok tt)
        × (lookup hash (refresh_mempool block s).1.mempool
            ≡ (if includes block.txs hash then none else kept s.accounts (lookup hash s.mempool)))
  unfolding refresh_mempool
  refresh_mempool-survivors s block hash wf =
      let rest : Assoc TxBlock = without_block block.txs s.mempool in
      let s' : State C R = record s { mempool = [] } in
      let wf' : IsMempool rest = without_block-IsMempool block.txs s.mempool wf in
      let returns : (refill rest s').0 ≡ ok tt = refill_returns rest s' wf' in
      (
        returns,
        ground (
          arith,
          refill_lem rest s' hash wf' (Apart-nil rest) returns,
          lookup-without_block block.txs hash s.mempool,
          lookup_nil hash,
        ),
      )
