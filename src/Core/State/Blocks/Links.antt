-- ===== src/Core/State/Blocks/Links.antt =====
-- `processNextBlock` keeps the chain linked, and an accepted block has passed every rule.
use orbitersdk_cpp.Prelude.{
  ◌+◌, ◌%◌, ◌^◌, ◌≤◌, ◌≡◌, ◌↔◌, refl, ap, Bool, true, false, List, [], ◌∷◌, Result, ok, err, arith,
  All,
}
use orbitersdk_cpp.Prelude.Exec.{continue, Exec}
use orbitersdk_cpp.Core.Chain.{Block, TxBlock}
use orbitersdk_cpp.Core.State.{
  State, Contracts, Consensus, not_invalid, validate_transaction_internal,
}
use orbitersdk_cpp.Core.State.Blocks.{
  refresh_mempool, process_rdpos, process_transactions, validate_transactions, validate_next_block,
  validated, process_valid_block, process_decided, process_next_block,
}
use orbitersdk_cpp.Core.State.Blocks.Frames.{
  chain_of, chain_of-process_transactions, chain_of-process_rdpos, chain_of-refresh_mempool,
}

-- The blocks that the storage holds, the latest first, each follow the next in height, hash and time.
abbrev pub IsLinked : Block → List Block → Type 0
IsLinked block [] = Unit
IsLinked block (before ∷ rest) =
    (block.n_height ≡ (before.n_height + 1) % 2 ^ 64)
    × (block.prev_block_hash ≡ before.hash)
    × (before.timestamp ≤ block.timestamp)
    × IsLinked before rest

module _ {C R : Type 0} (cm : Contracts C) (rdpos : Consensus R) where
  -- The rules of `validateNextBlock` against the latest block, the consensus and the transactions.
  pub record Accepted (s : State C R) (block : Block) : Type 0 where
    pub height : block.n_height ≡ (s.latest.n_height + 1) % 2 ^ 64
    pub previous : block.prev_block_hash ≡ s.latest.hash
    pub time : s.latest.timestamp ≤ block.timestamp
    pub consensus : rdpos.validate_block s.rdpos block ≡ ok true
    pub transactions : All (λ tx. validate_transaction_internal s tx ≡ ok not_invalid) block.txs

  validate_transactions-All :
      (s : State C R) (txs : List TxBlock)
      → validate_transactions s txs ≡ ok true
      → All (λ tx. validate_transaction_internal s tx ≡ ok not_invalid) txs
  unfolding validate_transactions
  validate_transactions-All s [] h = tt
  validate_transactions-All s (tx ∷ txs) h = ground (arith, validate_transactions-All s txs)

  validate_next_block-Accepted :
      (s : State C R) (block : Block)
      → validate_next_block rdpos s block ≡ ok true
      → Accepted s block
  unfolding validate_next_block validated
  validate_next_block-Accepted s block h = ground (arith, validate_transactions-All s block.txs)

  All-validate_transactions :
      (s : State C R) (txs : List TxBlock)
      → All (λ tx. validate_transaction_internal s tx ≡ ok not_invalid) txs
      → validate_transactions s txs ≡ ok true
  unfolding validate_transactions
  All-validate_transactions s [] h = refl
  All-validate_transactions s (tx ∷ txs) h = ground (arith, All-validate_transactions s txs h.1)

  Accepted-validate_next_block :
      (s : State C R) (block : Block)
      → Accepted s block
      → validate_next_block rdpos s block ≡ ok true
  unfolding validate_next_block validated
  Accepted-validate_next_block s block a = ground (
    arith,
    All-validate_transactions s block.txs a.transactions,
    a.height,
    a.previous,
    a.time,
    a.consensus,
  )

  -- `validateNextBlock` returns true exactly for a block that has the next height, the latest block's hash
  -- and no earlier timestamp, that the consensus accepts, and whose transactions are all valid
  -- against the state.
  pub validate_next_block_iff_Accepted :
      (s : State C R) (block : Block)
      → (validate_next_block rdpos s block ≡ ok true) ↔ Accepted s block
  validate_next_block_iff_Accepted s block =
      (validate_next_block-Accepted s block, Accepted-validate_next_block s block)

  -- How a block that passed the rules ends: pushed, or with the chain as it was.
  abbrev Pushed : Block → Block × List Block → Result (Unit {0}) × State C R → Type 0
  Pushed block chain (ok _, s') = chain_of s' ≡ (block, chain.0 ∷ chain.1)
  Pushed block chain (err _, s') = chain_of s' ≡ chain

  continue-Pushed :
      (block : Block) (chain : Block × List Block) (r : Result (Unit {0}))
      (k : Unit {0} → Exec (State C R) (Unit {0})) (s : State C R)
      → chain_of s ≡ chain
      → Pushed block (chain_of s) (k tt s)
      → Pushed block chain (continue r k s)
  continue-Pushed block chain (ok _) k s e h = rw e at h
  continue-Pushed block chain (err _) k s e h = e

  process_valid_block-Pushed :
      (block : Block) (s : State C R)
      → Pushed block (chain_of s) (process_valid_block cm rdpos block s)
  unfolding process_valid_block
  process_valid_block-Pushed block s =
      let s1 = (process_transactions cm rdpos block.txs s).1 in
      let s2 = (process_rdpos rdpos block s1).1 in
      continue-Pushed block (chain_of s) (process_transactions cm rdpos block.txs s).0 _ s1
        (chain_of-process_transactions cm rdpos block.txs s)
        (continue-Pushed block (chain_of s1) (process_rdpos rdpos block s1).0 _ s2
          (chain_of-process_rdpos cm rdpos block s1)
          (continue-Pushed block (chain_of s2) (refresh_mempool block s2).0 _
            (refresh_mempool block s2).1 (chain_of-refresh_mempool cm rdpos block s2) refl))

  -- What `processNextBlock` has done, by how it ended: it returns only for a block that passes every
  -- rule, which is then the latest block before the ones that were there; if it throws, the chain
  -- is as it was.
  abbrev pub Outcome : State C R → Block → Result (Unit {0}) × State C R → Type 0
  Outcome s block (ok _, s') =
      Accepted s block × (s'.latest ≡ block) × (s'.blocks ≡ s.latest ∷ s.blocks)
  Outcome s block (err _, s') = (s'.latest ≡ s.latest) × (s'.blocks ≡ s.blocks)

  Pushed-Outcome :
      (s : State C R) (block : Block) (r : Result (Unit {0})) (s' : State C R)
      → Accepted s block
      → Pushed block (chain_of s) (r, s')
      → Outcome s block (r, s')
  Pushed-Outcome s block (ok _) s' h p = (h, ap (λ c. c.0) p, ap (λ c. c.1) p)
  Pushed-Outcome s block (err _) s' h p = (ap (λ c. c.0) p, ap (λ c. c.1) p)

  decided_Outcome :
      (s : State C R) (block : Block) (verdict : Result Bool)
      → validate_next_block rdpos s block ≡ verdict
      → Outcome s block (process_decided cm rdpos block verdict s)
  unfolding process_decided
  decided_Outcome s block (err e) h = (refl, refl)
  decided_Outcome s block (ok false) h = (refl, refl)
  decided_Outcome s block (ok true) h =
      Pushed-Outcome s block _ _ (validate_next_block-Accepted s block h)
        (process_valid_block-Pushed block s)

  -- `processNextBlock` returns only for a block that has the next height, the latest block's hash and no
  -- earlier timestamp, that the consensus accepts, and whose transactions are all valid against
  -- the state; it is then the latest block, before the ones that were there. If it throws, the
  -- latest block and the ones before it are as they were.
  pub process_next_block-Outcome :
      (s : State C R) (block : Block) → Outcome s block (process_next_block cm rdpos block s)
  unfolding process_next_block
  process_next_block-Outcome s block =
      decided_Outcome s block (validate_next_block rdpos s block) refl

  Outcome-IsLinked :
      (s : State C R) (block : Block) (r : Result (Unit {0})) (s' : State C R)
      → IsLinked s.latest s.blocks
      → Outcome s block (r, s')
      → IsLinked s'.latest s'.blocks
  Outcome-IsLinked s block (ok _) s' linked (rules, latest, blocks) =
      rw (latest, blocks) (rules.height, rules.previous, rules.time, linked)
  Outcome-IsLinked s block (err _) s' linked (latest, blocks) = rw (latest, blocks) linked

  -- Whatever block is offered, and whether it is accepted or not, a chain in which every block has the
  -- next height, the hash and a timestamp not before that of its predecessor stays so.
  pub process_next_block-IsLinked :
      (s : State C R) (block : Block)
      → IsLinked s.latest s.blocks
      → IsLinked
          (process_next_block cm rdpos block s).1.latest
          (process_next_block cm rdpos block s).1.blocks
  process_next_block-IsLinked s block linked =
      Outcome-IsLinked s block (process_next_block cm rdpos block s).0
        (process_next_block cm rdpos block s).1 linked (process_next_block-Outcome s block)
