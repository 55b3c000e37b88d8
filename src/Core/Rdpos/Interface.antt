-- ===== src/Core/Rdpos/Interface.antt =====
-- `rdPoS` as the consensus that `State` calls (core/state.h), and what that gives the chain.
use orbitersdk_cpp.Prelude.{
  ℕ, ◌≡◌, refl, true, false, List, Result, ok, err, length, Bool-cases, inl, inr,
}
use orbitersdk_cpp.Core.Chain.{Block}
use orbitersdk_cpp.Core.State.{State, Contracts, Consensus}
use orbitersdk_cpp.Core.State.Blocks.{process_next_block}
use orbitersdk_cpp.Core.State.Blocks.Links.{Outcome, process_next_block-Outcome}
use orbitersdk_cpp.Core.Rdpos.{Rdpos}
use orbitersdk_cpp.Core.Rdpos.Shuffle.{shuffle_reorders, count}
use orbitersdk_cpp.Core.Rdpos.Blocks.{validate_block, process_block}
use orbitersdk_cpp.Core.Rdpos.Blocks.Sound.{IsSound, validate_block-IsSound}
use orbitersdk_cpp.Core.Rdpos.Pool.{add_validator_tx, from_sender}
use orbitersdk_cpp.Core.Rdpos.Pool.Round.{IsRound}

-- `processNextBlock` does not use the hash that `processBlock` returns.
abbrev pub without_value : Result ℕ → Result (Unit {0})
without_value (ok _) = ok tt
without_value (err e) = err e

module _ (sha3 : List ℕ → List ℕ) (next_seed : ℕ → ℕ) where
  abbrev pub rdpos_consensus : Consensus Rdpos
  rdpos_consensus = record {
    validate_block = validate_block sha3;
    process_block =
        λ block r. let (result, r') = process_block next_seed block r in (without_value result, r');
    add_validator_tx = add_validator_tx;
  }

  -- What a chain under `rdPoS` has after a block was offered.
  abbrev pub Signed :
      {C : Type 0} → State C Rdpos → Block → Result (Unit {0}) × State C Rdpos → Type 0
  Signed s block (ok _, s') = IsSound sha3 s.rdpos block × (s'.latest ≡ block)
  Signed s block (err _, s') = s'.latest ≡ s.latest

  Outcome-Signed :
      {C : Type 0} (cm : Contracts C) (s : State C Rdpos) (block : Block) (r : Result (Unit {0}))
      (s' : State C Rdpos)
      → Outcome cm rdpos_consensus s block (r, s')
      → Signed s block (r, s')
  Outcome-Signed cm s block (ok _) s' (rules, latest, blocks) =
      (validate_block-IsSound sha3 s.rdpos block rules.consensus, latest)
  Outcome-Signed cm s block (err _) s' (latest, blocks) = latest

  -- With `rdPoS` as its consensus, `processNextBlock` changes the latest block only to a block that is
  -- signed by the first validator of the random list and carries the commitments and
  -- seeds of the next four.
  pub process_next_block-Signed :
      {C : Type 0} (cm : Contracts C) (s : State C Rdpos) (block : Block)
      → Signed s block (process_next_block cm rdpos_consensus block s)
  process_next_block-Signed cm s block =
      Outcome-Signed cm s block ((process_next_block cm rdpos_consensus block s).0)
        ((process_next_block cm rdpos_consensus block s).1)
        (process_next_block-Outcome cm rdpos_consensus s block)

module _ (next_seed : ℕ → ℕ) where
  -- How `processBlock` leaves the consensus, by how it ended.
  abbrev pub Started : Rdpos → Block → Result ℕ × Rdpos → Type 0
  Started r block (err _, r') = (block.finalized ≡ false) × (r' ≡ r)
  Started r block (ok hash, r') =
      (block.finalized ≡ true)
      × (hash ≡ block.block_randomness)
      × ((h : ℕ) → IsRound h r')
      × (length r'.random_list ≡ length r.validators)
      × ((a : ℕ) → count a r'.random_list ≡ count a r.validators)
      × (r'.validators ≡ r.validators)

  -- `processBlock` throws exactly on a block that is not finalized, and then changes nothing; otherwise it
  -- returns the block's randomness and starts a round: no transaction of validators waits, so that the
  -- invariant of the round holds
  -- for every height, the random list has the elements of the validators, each as often, and the
  -- validators stay the same.
  pub process_block-Started :
      (r : Rdpos) (block : Block) → Started r block (process_block next_seed block r)
  unfolding process_block from_sender
  process_block-Started r block = elim (Bool-cases (block.finalized)) [
    | inl e ↦ rw e (
      refl,
      refl,
      λ h. record { belongs = tt; few = λ from. tt },
      (shuffle_reorders next_seed block.block_randomness 0 r.validators).0,
      λ a. (shuffle_reorders next_seed block.block_randomness a r.validators).1,
      refl,
    )
    | inr e ↦ rw e (refl, refl)
  ]
