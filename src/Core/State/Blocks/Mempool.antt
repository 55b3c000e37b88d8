-- ===== src/Core/State/Blocks/Mempool.antt =====
-- `addTx`, and the well-formedness of the mempool under everything that changes it.
use orbitersdk_cpp.Prelude.{
  ℕ, ◌≡◌, refl, Bool, true, false, not, ◌&&◌, ◌||◌, [], ◌∷◌, ok, err, is_ok, Assoc, lookup, insert,
  contains, lookup-insert, ◌==◌, arith, ◌⊎◌, inl, inr, Result,
}
use orbitersdk_cpp.Core.Chain.{Block, TxBlock, value_with_fees}
use orbitersdk_cpp.Core.State.{
  State, TxInvalid, not_invalid, is_invalid, validate_transaction_internal,
}
use orbitersdk_cpp.Core.State.Blocks.{insert_new, refill, refresh_mempool, add_tx, is_tx_in_mempool}
use orbitersdk_cpp.Core.State.Blocks.Refresh.{IsMempool, without_block-IsMempool}

insert-IsMempool :
    (tx : TxBlock) (m : Assoc TxBlock)
    → IsMempool m
    → is_ok (value_with_fees tx) ≡ true
    → IsMempool (insert tx.hash tx m)
unfolding insert lookup
insert-IsMempool tx [] wf priced = ((refl, priced), refl, tt)
insert-IsMempool tx ((k, u) ∷ m) wf priced =
    ground (arith, insert-IsMempool tx m wf.2, lookup-insert tx.hash k tx m)

insert_new-IsMempool :
    (hash : ℕ) (tx : TxBlock) (m : Assoc TxBlock)
    → hash ≡ tx.hash
    → IsMempool m
    → is_ok (value_with_fees tx) ≡ true
    → IsMempool (insert_new hash tx m)
unfolding insert_new
insert_new-IsMempool hash tx m same wf priced =
    rw same (ground (arith, insert-IsMempool tx m wf priced))

abbrev pub accepts : Result TxInvalid → Bool
accepts (ok v) = not (is_invalid v)
accepts (err e) = false

contains-insert_new :
    (hash k : ℕ) (tx : TxBlock) (m : Assoc TxBlock)
    → contains hash (insert_new k tx m) ≡ (k == hash || contains hash m)
unfolding insert_new contains
contains-insert_new hash k tx m = ground (arith, lookup-insert k hash tx m)

module _ {C R : Type 0} where
  refill-IsMempool :
      (rest : Assoc TxBlock) (s : State C R)
      → IsMempool rest
      → IsMempool s.mempool
      → IsMempool (refill rest s).1.mempool
  unfolding refill
  refill-IsMempool [] s from wf = wf
  refill-IsMempool ((k, tx) ∷ rest) s from wf =
      let s' : State C R = record s { mempool = insert_new k tx s.mempool } in
      ground (
        arith,
        refill-IsMempool rest s from.2 wf,
        refill-IsMempool rest s' from.2 (insert_new-IsMempool k tx s.mempool from.0.0 wf from.0.1),
      )

  -- `refreshMempool` keeps the mempool well formed, also if it throws.
  refresh_mempool-IsMempool :
      (s : State C R) (block : Block)
      → IsMempool s.mempool
      → IsMempool (refresh_mempool block s).1.mempool
  unfolding refresh_mempool
  refresh_mempool-IsMempool s block wf =
      refill-IsMempool _ (record s { mempool = [] })
        (without_block-IsMempool block.txs s.mempool wf) tt

  valid_priced :
      (s : State C R) (tx : TxBlock)
      → validate_transaction_internal s tx ≡ ok not_invalid
      → (contains tx.hash s.mempool ≡ true) ⊎ (is_ok (value_with_fees tx) ≡ true)
  unfolding validate_transaction_internal
  valid_priced s tx valid = ground arith

  valid_added :
      (s : State C R) (tx : TxBlock)
      → validate_transaction_internal s tx ≡ ok not_invalid
      → IsMempool s.mempool
      → IsMempool (insert_new tx.hash tx s.mempool)
  unfolding insert_new
  valid_added s tx valid wf = elim (valid_priced s tx valid) [
    | inl pending ↦ rw pending wf
    | inr priced ↦ ground (arith, insert-IsMempool tx s.mempool wf priced)
  ]

  -- `addTx` returns what `validateTransaction` says and keeps the mempool well formed; afterwards the
  -- mempool has the transactions that it had, and the new one exactly if that is valid. The accounts
  -- are as they were.
  pub add_tx-admits :
      (s : State C R) (tx : TxBlock) (hash : ℕ)
      → IsMempool s.mempool
      → ((add_tx tx s).0 ≡ validate_transaction_internal s tx)
        × IsMempool (add_tx tx s).1.mempool
        × (is_tx_in_mempool (add_tx tx s).1 hash ≡ (
            accepts (validate_transaction_internal s tx) && tx.hash == hash
            || is_tx_in_mempool s hash))
        × ((add_tx tx s).1.accounts ≡ s.accounts)
  unfolding add_tx is_tx_in_mempool
  add_tx-admits s tx hash wf = (
    ground arith,
    ground (arith, valid_added s tx),
    ground (arith, contains-insert_new hash tx.hash tx s.mempool),
    ground arith,
  )
