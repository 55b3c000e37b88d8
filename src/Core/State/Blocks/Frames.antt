-- ===== src/Core/State/Blocks/Frames.antt =====
-- The methods of `State` below `processNextBlock` leave the storage alone.
use orbitersdk_cpp.Prelude.{
  ℕ, ◌≡◌, refl, Bool, true, false, List, [], ◌∷◌, Assoc, if◌then◌else◌, arith,
}
use orbitersdk_cpp.Prelude.Exec.{lift, gets, pure}
use orbitersdk_cpp.Prelude.Frame.{bind-Frame}
use orbitersdk_cpp.Core.Chain.{Block, TxBlock, value_with_fees}
use orbitersdk_cpp.Core.State.{
  State, Contracts, Consensus, sub_balance, add_balance_of, increment_nonce,
}
use orbitersdk_cpp.Core.State.Calls.{is_contract_address, call_contract}
use orbitersdk_cpp.Core.State.Transactions.{transfer, run_contract, caught, process_transaction}
use orbitersdk_cpp.Core.State.Blocks.{refill, refresh_mempool, process_rdpos, process_transactions}

module _ {C R : Type 0} where
  abbrev pub chain_of : State C R → Block × List Block
  chain_of s = (s.latest, s.blocks)

  pub chain_of-add_balance_of :
      (a amount : ℕ) (s : State C R) → chain_of (add_balance_of a amount s).1 ≡ chain_of s
  unfolding add_balance_of
  chain_of-add_balance_of a amount s = ground arith

  pub chain_of-sub_balance :
      (left : ℕ → ℕ → ℕ) (a amount : ℕ) (s : State C R)
      → chain_of (sub_balance left a amount s).1 ≡ chain_of s
  unfolding sub_balance
  chain_of-sub_balance left a amount s = ground arith

  pub chain_of-refill : (m : Assoc TxBlock) (s : State C R) → chain_of (refill m s).1 ≡ chain_of s
  unfolding refill
  chain_of-refill [] s = refl
  chain_of-refill ((hash, tx) ∷ rest) s = grind (arith, chain_of-refill rest)

module _ {C R : Type 0} (cm : Contracts C) where
  pub chain_of-run_contract :
      (tx : TxBlock) (s : State C R) → chain_of (run_contract cm tx s).1 ≡ chain_of s
  unfolding run_contract call_contract
  chain_of-run_contract tx s = ground arith

  pub chain_of-call :
      (tx : TxBlock) (call : Bool) (s : State C R)
      → chain_of ((if call then run_contract cm tx else pure tt) s).1 ≡ chain_of s
  chain_of-call tx true s = chain_of-run_contract tx s
  chain_of-call tx false s = refl

  pub chain_of-transfer :
      (tx : TxBlock) (s : State C R) → chain_of (transfer cm tx s).1 ≡ chain_of s
  unfolding transfer
  chain_of-transfer tx =
      bind-Frame chain_of (lift (value_with_fees tx)) _ (λ s. refl)
        λ cost.
          bind-Frame chain_of (sub_balance cm.after_underflow tx.from cost) _
            (chain_of-sub_balance cm.after_underflow tx.from cost)
            λ _.
              bind-Frame chain_of (add_balance_of tx.to tx.value) _
                (chain_of-add_balance_of tx.to tx.value)
                λ _.
                  bind-Frame chain_of (gets (λ s. is_contract_address cm s.contracts tx.to))
                    (λ call. if call then run_contract cm tx else pure tt) (λ s. refl)
                    (chain_of-call tx)

  pub chain_of-process_transaction :
      (tx : TxBlock) (s : State C R) → chain_of (process_transaction cm tx s).1 ≡ chain_of s
  unfolding process_transaction caught increment_nonce
  chain_of-process_transaction tx s = grind (arith, chain_of-transfer, chain_of-add_balance_of)

  pub chain_of-process_transactions :
      (rdpos : Consensus R) (txs : List TxBlock) (s : State C R)
      → chain_of (process_transactions cm rdpos txs s).1 ≡ chain_of s
  unfolding process_transactions
  chain_of-process_transactions rdpos [] s = refl
  chain_of-process_transactions rdpos (tx ∷ txs) s =
      grind (arith, chain_of-process_transaction, chain_of-process_transactions rdpos txs)

module _ {C R : Type 0} (cm : Contracts C) (rdpos : Consensus R) where
  pub chain_of-refresh_mempool :
      (block : Block) (s : State C R) → chain_of (refresh_mempool block s).1 ≡ chain_of s
  unfolding refresh_mempool
  chain_of-refresh_mempool block s = chain_of-refill _ _

  pub chain_of-process_rdpos :
      (block : Block) (s : State C R) → chain_of (process_rdpos rdpos block s).1 ≡ chain_of s
  unfolding process_rdpos
  chain_of-process_rdpos block s = ground arith
