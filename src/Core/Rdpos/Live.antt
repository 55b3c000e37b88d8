-- ===== src/Core/Rdpos/Live.antt =====
-- `processNextBlock` on blocks of plain transfers, with `rdPoS` as the consensus of `State`.
use orbitersdk_cpp.Prelude.{ℕ, ◌+◌, ◌^◌, ◌<◌, ◌≡◌, ◌∷◌, refl, List, ok}
use orbitersdk_cpp.Core.Chain.{TxBlock, Block}
use orbitersdk_cpp.Core.State.{State, Contracts}
use orbitersdk_cpp.Core.State.Balances.{total}
use orbitersdk_cpp.Core.State.Blocks.{process_next_block}
use orbitersdk_cpp.Core.State.Blocks.Links.{Accepted}
use orbitersdk_cpp.Core.State.Blocks.Refresh.{IsMempool}
use orbitersdk_cpp.Core.State.Blocks.Live.{IsBoundedBy, gains, ArePlain, process_next_block-appends}
use orbitersdk_cpp.Core.Rdpos.{Rdpos}
use orbitersdk_cpp.Core.Rdpos.Blocks.{process_block}
use orbitersdk_cpp.Core.Rdpos.Blocks.Sound.{validate_block-IsSound}
use orbitersdk_cpp.Core.Rdpos.Interface.{rdpos_consensus}

module _ (sha3 : List ℕ → List ℕ) (next_seed : ℕ → ℕ) {C : Type 0} (cm : Contracts C)
    (s : State C Rdpos) (block : Block) where
  processed :
      Accepted cm (rdpos_consensus sha3 next_seed) s block
      → ((rdpos_consensus sha3 next_seed).process_block block s.rdpos).0 ≡ ok tt
  unfolding process_block
  processed a = rw ((validate_block-IsSound sha3 s.rdpos block a.consensus).finalized) refl

  -- With `rdPoS` as its consensus and a well-formed mempool, `processNextBlock` returns for a block that passes the rules, and appends it, if each of its transactions goes from an account that exists to an address that is no contract, and the sum of all balances, of the values in the block, and of what subtractions that throw may add is below 2 ^ 256.
  pub process_next_block-lives :
      (extra : TxBlock → ℕ)
      → IsBoundedBy cm extra
      → Accepted cm (rdpos_consensus sha3 next_seed) s block
      → ArePlain cm s.contracts s.accounts block.txs
      → total s.accounts + gains extra block.txs < 2 ^ 256
      → IsMempool s.mempool
      → ((process_next_block cm (rdpos_consensus sha3 next_seed) block s).0 ≡ ok tt)
        × ((process_next_block cm (rdpos_consensus sha3 next_seed) block s).1.latest ≡ block)
        × ((process_next_block cm (rdpos_consensus sha3 next_seed) block s).1.blocks
            ≡ s.latest ∷ s.blocks)
  process_next_block-lives extra bounded a plain room wf =
      process_next_block-appends cm (rdpos_consensus sha3 next_seed) extra bounded s block a plain
        room (processed a) wf
