-- ===== src/Tests/Appended.antt =====
-- The block of the small chain is appended to it.
use orbitersdk_cpp.Prelude.{
  ◌≡◌, ◌<◌, ◌+◌, ◌*◌, ◌^◌, ℕ, ◌∷◌, refl, ok, arith, lookup, contains, insert,
}
use orbitersdk_cpp.Core.Chain.{TxBlock, checked_256, value_with_fees}
use orbitersdk_cpp.Core.State.{validate_transaction_internal, account_verdict, priced_verdict}
use orbitersdk_cpp.Core.State.Balances.{total}
use orbitersdk_cpp.Core.State.Calls.{is_contract_address}
use orbitersdk_cpp.Core.State.Blocks.{process_next_block}
use orbitersdk_cpp.Core.State.Blocks.Links.{Accepted}
use orbitersdk_cpp.Core.State.Blocks.Refresh.{IsMempool}
use orbitersdk_cpp.Core.State.Blocks.Live.{IsBoundedBy, gains, ArePlain}
use orbitersdk_cpp.Core.Rdpos.{get_tx_validator_function, bytes_eq}
use orbitersdk_cpp.Core.Rdpos.Blocks.{
  validate_block, pair_loop, emplace, check_pair, check_pairs, is_invalid_function, is_randomhash,
  is_randomseed,
}
use orbitersdk_cpp.Core.Rdpos.Interface.{rdpos_consensus}
use orbitersdk_cpp.Core.Rdpos.Live.{process_next_block-lives}
use orbitersdk_cpp.Tests.Data.{contracts, sha3, next_seed, next_block, state}

next_block-Accepted : Accepted contracts (rdpos_consensus sha3 next_seed) state next_block
unfolding validate_block pair_loop emplace check_pair check_pairs get_tx_validator_function bytes_eq
    validate_transaction_internal account_verdict priced_verdict value_with_fees checked_256
    contains lookup insert is_invalid_function is_randomhash is_randomseed
next_block-Accepted = record {
  height = refl;
  previous = refl;
  time = omega arith;
  consensus = refl;
  transactions = (refl, tt);
}

next_block-ArePlain : ArePlain contracts state.contracts state.accounts next_block.txs
unfolding ArePlain contains lookup is_contract_address
next_block-ArePlain = (refl, refl, tt)

-- The price of a transaction; what is left of a balance here is less.
abbrev price : TxBlock → ℕ
price tx = tx.value + tx.gas_limit * tx.max_fee_per_gas

contracts-IsBoundedBy : IsBoundedBy contracts price
unfolding IsBoundedBy value_with_fees checked_256
contracts-IsBoundedBy tx cost n priced h = ground (arith, priced)

next_block_room : total state.accounts + gains price next_block.txs < 2 ^ 256
unfolding total gains
next_block_room = omega arith

state_IsMempool : IsMempool state.mempool
unfolding value_with_fees checked_256 lookup
state_IsMempool = ((refl, refl), refl, tt)

process_next_block-lives_example :
    ((process_next_block contracts (rdpos_consensus sha3 next_seed) next_block state).0 ≡ ok tt)
    × ((process_next_block contracts (rdpos_consensus sha3 next_seed) next_block state).1.latest
        ≡ next_block)
    × ((process_next_block contracts (rdpos_consensus sha3 next_seed) next_block state).1.blocks
        ≡ state.latest ∷ state.blocks)
process_next_block-lives_example =
    process_next_block-lives sha3 next_seed contracts state next_block price contracts-IsBoundedBy
      next_block-Accepted next_block-ArePlain next_block_room state_IsMempool
