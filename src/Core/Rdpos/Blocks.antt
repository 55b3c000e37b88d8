-- ===== src/Core/Rdpos/Blocks.antt =====
-- `rdPoS::validateBlock`, `processBlock` and `parseTxSeedList`. The 8 transactions of validators in a
-- block are 4 commitments, each the hash of a random seed, and then the 4 seeds, in the order of
-- `randomList[1]` to `randomList[4]`.
mod Rounds
pub mod Sound
use orbitersdk_cpp.Prelude.{
  ℕ, zero, suc, ◌+◌, ◌*◌, Bool, true, false, not, ◌&&◌, Option, none, some, List, [], ◌∷◌, ◌++◌,
  Result, ok, err, runtime_error, Assoc, insert, contains, length, take, drop, all, ◌==◌,
  if◌then◌else◌,
}
use orbitersdk_cpp.Prelude.Throw.{◌>>=◌}
use orbitersdk_cpp.Core.Chain.{TxValidator, Block}
use orbitersdk_cpp.Core.Rdpos.{
  Rdpos, min_validators, TxValidatorFunction, invalid, randomhash, randomseed, bytes_eq,
  get_tx_validator_function, at,
}
use orbitersdk_cpp.Core.Rdpos.Shuffle.{shuffle}

-- `txHashToSeedMap`, its pairs filed under the hash of their first transaction.
abbrev pub Pairs : Type 0
Pairs = Assoc (TxValidator × TxValidator)

-- `emplace` keeps an entry that is there
unfoldable pub emplace : TxValidator → TxValidator → Pairs → Pairs
emplace hash_tx seed_tx m =
    if contains hash_tx.hash m then m else insert hash_tx.hash (hash_tx, seed_tx) m

-- The loop over the validators at index `i` with `left` rounds to go; `none` is its `return false`.
unfoldable pub pair_loop : ℕ → ℕ → List ℕ → List TxValidator → Pairs → Result (Option Pairs)
pair_loop zero i random_list txs m = ok (some m)
pair_loop (suc left) i random_list txs m =
    let go_on : TxValidator → TxValidator → Result (Option Pairs) =
      λ hash_tx seed_tx. pair_loop left (i + 1) random_list txs (emplace hash_tx seed_tx m) in
    do
      hash_tx ← at txs i
      validator ← at random_list (i + 1)
      if not (hash_tx.from == validator) then ok none else do
        seed_tx ← at txs (i + min_validators)
        if not (seed_tx.from == validator) then ok none else go_on hash_tx seed_tx

unfoldable pub is_randomhash : TxValidatorFunction → Bool
is_randomhash randomhash = true
is_randomhash _ = false

unfoldable pub is_randomseed : TxValidatorFunction → Bool
is_randomseed randomseed = true
is_randomseed _ = false

unfoldable pub is_invalid_function : TxValidatorFunction → Bool
is_invalid_function invalid = true
is_invalid_function _ = false

module _ (sha3 : List ℕ → List ℕ) where
  -- The body of the loop over the pairs
  unfoldable pub check_pair : TxValidator × TxValidator → Bool
  check_pair (hash_tx, seed_tx) =
      let hash_function = get_tx_validator_function hash_tx in
      let seed_function = get_tx_validator_function seed_tx in
      if is_invalid_function hash_function
      then false
      else if is_invalid_function seed_function
      then false
      else if not (hash_tx.from == seed_tx.from)
      then false
      else if not (is_randomhash hash_function)
      then false
      else if not (is_randomseed seed_function)
      then false
      else bytes_eq (sha3 (drop 4 seed_tx.bytes)) (drop 4 hash_tx.bytes)

  -- What follows the loop over the validators
  unfoldable pub check_pairs : Option Pairs → Bool
  check_pairs none = false
  check_pairs (some m) =
      if not (length m == min_validators)
      then false
      else all (λ (entry : ℕ × (TxValidator × TxValidator)). check_pair entry.1) m

  unfoldable pub validate_block : Rdpos → Block → Result Bool
  validate_block r block = if not block.finalized then ok false else do
    creator ← at r.random_list 0
    if not (block.signer == creator)
        then ok false
        else if not (length block.tx_validators == min_validators * 2)
        then ok false
        else if not (all (λ (tx : TxValidator). tx.n_height == block.n_height) block.tx_validators)
        then ok false
        else do
          pairs ← pair_loop min_validators 0 r.random_list block.tx_validators []
          ok (check_pairs pairs)

  -- The loop of `parseTxSeedList`
  unfoldable pub seed_bytes : List TxValidator → List ℕ
  seed_bytes [] = []
  seed_bytes (tx ∷ txs) =
      if is_randomseed (get_tx_validator_function tx)
      then take 32 (drop 4 tx.bytes) ++ seed_bytes txs
      else seed_bytes txs

  -- `Hash()` is 32 bytes of 0.
  unfoldable pub parse_tx_seed_list : List ℕ → List TxValidator → List ℕ
  parse_tx_seed_list no_hash txs = if length txs == 0 then no_hash else sha3 (seed_bytes txs)

-- `processBlock`; `next_seed` is `sha3` on the hash that is the seed of the generator.
module _ (next_seed : ℕ → ℕ) where
  unfoldable pub process_block : Block → Rdpos → Result ℕ × Rdpos
  process_block block r =
      if not block.finalized
      then (err runtime_error, r)
      else let (seed, random_list) = shuffle next_seed block.block_randomness r.validators in
        (
          ok block.block_randomness,
          record r {
            validator_mempool = [];
            random_list = random_list;
            best_random_seed = block.block_randomness;
            seed = seed;
          },
        )
