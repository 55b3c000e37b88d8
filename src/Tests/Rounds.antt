-- ===== src/Tests/Rounds.antt =====
-- Runs of the consensus on the small chain.
use orbitersdk_cpp.Prelude.{◌≡◌, refl, ◌+◌, ◌%◌, ◌^◌, true, ok, contains, lookup, insert}
use orbitersdk_cpp.Core.Rdpos.{bytes_eq, get_tx_validator_function}
use orbitersdk_cpp.Core.Rdpos.Blocks.{
  emplace, pair_loop, is_randomhash, is_randomseed, is_invalid_function, check_pair, check_pairs,
  validate_block, process_block,
}
use orbitersdk_cpp.Core.Rdpos.Blocks.Sound.{IsSound, validate_block-IsSound}
use orbitersdk_cpp.Core.Rdpos.Pool.{add_validator_tx, from_sender}
use orbitersdk_cpp.Core.Rdpos.Pool.Round.{IsRound, add_validator_tx-IsRound}
use orbitersdk_cpp.Core.Rdpos.Interface.{Started, process_block-Started}
use orbitersdk_cpp.Tests.Data.{genesis, sha3, next_seed, commitment, rdpos, next_block}

next_block_valid : validate_block sha3 rdpos next_block ≡ ok true
unfolding validate_block check_pairs check_pair pair_loop emplace is_randomhash is_randomseed
    is_invalid_function get_tx_validator_function bytes_eq contains lookup insert
next_block_valid = refl

rdpos_IsRound : IsRound ((genesis.n_height + 1) % 2 ^ 64) rdpos
unfolding from_sender
rdpos_IsRound = record { belongs = tt; few = λ from. tt }

validate_block-IsSound_example : IsSound sha3 rdpos next_block
validate_block-IsSound_example = validate_block-IsSound sha3 rdpos next_block next_block_valid

add_validator_tx-IsRound_example :
    IsRound ((genesis.n_height + 1) % 2 ^ 64) (add_validator_tx genesis (commitment 11 1) rdpos).1
add_validator_tx-IsRound_example =
    add_validator_tx-IsRound genesis (commitment 11 1) rdpos rdpos_IsRound

process_block-Started_example :
    Started next_seed rdpos next_block (process_block next_seed next_block rdpos)
process_block-Started_example = process_block-Started next_seed rdpos next_block
