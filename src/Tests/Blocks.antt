-- ===== src/Tests/Blocks.antt =====
-- Blocks of plain bytes, Merkle trees and hexadecimal strings to which the theorems are applied.
use orbitersdk_cpp.Prelude.{
  ℕ, ◌≡◌, ◌↔◌, refl, true, false, All, List, [], ◌∷◌, ◌++◌, ok, length, replicate, arith,
}
use orbitersdk_cpp.Utils.Bytes.Fixed.{uint32_to_bytes, reversed}
use orbitersdk_cpp.Utils.Merkle.{tree, get_root, get_proof, verify}
use orbitersdk_cpp.Utils.Merkle.Proofs.{get_proof-power}
use orbitersdk_cpp.Utils.Block as Blocks
use orbitersdk_cpp.Utils.Block.{Content, serialize_entries, serialize_block}
use orbitersdk_cpp.Utils.Block.Parse.{count_entries, read_parallel, read_entries, read_validator_at}
use orbitersdk_cpp.Utils.Block.Entries.{IsEntry}
use orbitersdk_cpp.Utils.Block.Layout.{IsComplete}
use orbitersdk_cpp.Utils.Block.Counting.{count_entries-ends}
use orbitersdk_cpp.Utils.Block.Threads.{read_parallel-eq-read_entries}
use orbitersdk_cpp.Core.Storage.Index.{
  get_tx_from_block_with_index, get_tx_from_block_with_index-serialize_block,
}
use orbitersdk_cpp.Tests.Transactions.{first_bytes, some_key}

-- Transactions that are their own bytes, and validators' transactions with a height of 5
abbrev plain : Content (List ℕ) (List ℕ)
plain = record {
  write_tx = λ tx. tx;
  read_tx = λ bytes. ok bytes;
  write_validator = λ tx. tx;
  read_validator = λ bytes. ok bytes;
  validator_height = λ tx. 5;
  tx_root = λ txs. replicate 32 3;
  validator_root = λ txs. replicate 32 4;
  randomness = λ txs. replicate 32 5;
  sha3 = first_bytes;
  verify_sig = λ sig. true;
  recover = λ sig hash. some_key;
  sign = λ hash key. replicate 65 1;
}

abbrev an_open_block : Blocks.Block (List ℕ) (List ℕ)
an_open_block = record {
  validator_sig = [];
  prev_block_hash = replicate 32 2;
  block_randomness = [];
  validator_merkle_root = [];
  tx_merkle_root = [];
  timestamp = 1656356645000000;
  n_height = 5;
  tx_validators = (8 ∷ (9 ∷ [])) ∷ [];
  txs = (1 ∷ []) ∷ ((2 ∷ (3 ∷ [])) ∷ []);
  validator_pub_key = [];
  finalized = false;
}

abbrev a_sealed_block : Blocks.Block (List ℕ) (List ℕ)
a_sealed_block = record an_open_block {
  validator_sig = replicate 65 1;
  block_randomness = replicate 32 5;
  validator_merkle_root = replicate 32 4;
  tx_merkle_root = replicate 32 3;
  timestamp = 1656356646000000;
  validator_pub_key = some_key;
  finalized = true;
}

txs-IsEntry : All (IsEntry plain.write_tx plain.read_tx) an_open_block.txs
txs-IsEntry =
    (record { back = refl; small = omega arith }, (record { back = refl; small = omega arith }, tt))

validators-IsEntry :
    All (IsEntry plain.write_validator (read_validator_at plain 5)) an_open_block.tx_validators
unfolding read_validator_at
validators-IsEntry = (record { back = refl; small = omega arith }, tt)

a_sealed_block-IsComplete : IsComplete plain a_sealed_block
unfolding serialize_entries uint32_to_bytes reversed
a_sealed_block-IsComplete = record {
  sealed = record {
    sig-length = refl;
    prev-length = refl;
    randomness-length = refl;
    validator_root-length = refl;
    tx_root-length = refl;
    timestamp-small = omega arith;
    n_height-small = omega arith;
    size-small = omega arith;
    tx_root-eq = refl;
    validator_root-eq = refl;
    randomness-eq = refl;
    sig-valid = refl;
    key-eq = refl;
    is_finalized = refl;
  };
  txs-IsEntry = txs-IsEntry;
  validators-IsEntry = validators-IsEntry;
}

get_tx_from_block_with_index-serialize_block_example :
    get_tx_from_block_with_index plain.read_tx (serialize_block plain a_sealed_block) 1
    ≡ ok (2 ∷ (3 ∷ []))
get_tx_from_block_with_index-serialize_block_example =
    get_tx_from_block_with_index-serialize_block plain a_sealed_block 1 (2 ∷ (3 ∷ []))
      a_sealed_block-IsComplete (omega arith, (omega arith, tt)) refl

-- Entries of a size of 1, as bytes
abbrev entry_bytes : List ℕ
entry_bytes = 0 ∷ (0 ∷ (0 ∷ (1 ∷ (7 ∷ (0 ∷ (0 ∷ (0 ∷ (1 ∷ (8 ∷ [])))))))))

read_parallel-eq-read_entries_example :
    (read_parallel (λ bytes. ok bytes) 2 2 entry_bytes 0 ≡ ok ((7 ∷ []) ∷ ((8 ∷ []) ∷ [])))
    ↔ (read_entries (λ bytes. ok bytes) 2 entry_bytes 0 ≡ ok ((7 ∷ []) ∷ ((8 ∷ []) ∷ [])))
read_parallel-eq-read_entries_example =
    read_parallel-eq-read_entries (λ bytes. ok bytes) entry_bytes 2 2 0 ((7 ∷ []) ∷ ((8 ∷ []) ∷ []))
      (omega arith)

count_entries-ends_example :
    count_entries 500 (replicate 217 0 ++ entry_bytes) 227 217 0
    ≡ count_entries
        (length (replicate 217 0 ++ entry_bytes))
        (replicate 217 0 ++ entry_bytes)
        227
        217
        0
count_entries-ends_example =
    count_entries-ends (replicate 217 0 ++ entry_bytes) 227 217 0 500 (omega arith) (omega arith)
      (omega arith)

abbrev leaves : List (List ℕ)
leaves = (1 ∷ []) ∷ ((2 ∷ []) ∷ ((3 ∷ []) ∷ ((4 ∷ []) ∷ [])))

get_proof-power_example :
    (proof : List (List ℕ)) × (get_proof (tree first_bytes leaves) 2 ≡ ok proof)
    × (length proof ≡ 2)
    × (verify first_bytes proof (first_bytes (3 ∷ [])) (get_root (tree first_bytes leaves)) ≡ true)
get_proof-power_example = get_proof-power first_bytes 2 leaves 2 (3 ∷ []) refl refl
