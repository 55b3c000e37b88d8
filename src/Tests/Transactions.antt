-- ===== src/Tests/Transactions.antt =====
-- Transactions and a block of them to which the theorems are applied.
use orbitersdk_cpp.Prelude.{
  ℕ, zero, suc, ◌≤◌, ◌+◌, ◌^◌, ◌≡◌, refl, true, some, List, [], ◌∷◌, ◌++◌, ok, length,
  length-append, take, replicate, arith,
}
use orbitersdk_cpp.Utils.Tx.{Secp256k1}
use orbitersdk_cpp.Utils.Tx.Block
use orbitersdk_cpp.Utils.Tx.Block.RoundTrip as TxEncoding
use orbitersdk_cpp.Utils.Tx.Validator
use orbitersdk_cpp.Utils.Tx.Validator.RoundTrip as ValidatorEncoding
use orbitersdk_cpp.Utils.Bytes.{
  bytes_required, bytes_required_loop, uint_to_bytes, uint_to_bytes_loop,
}
use orbitersdk_cpp.Utils.Bytes.Fixed.{uint32_to_bytes, reversed}
use orbitersdk_cpp.Utils.Rlp.{
  uint_size, data_size, write_uint, write_signature_uint, write_data, write_list_head,
}
use orbitersdk_cpp.Utils.Merkle.{tree, layers_from, get_root}
use orbitersdk_cpp.Utils.Block as Blocks
use orbitersdk_cpp.Utils.Block.{Content, serialize_entries, serialize_block, finalize}
use orbitersdk_cpp.Utils.Block.Parse.{deserialize_block}
use orbitersdk_cpp.Utils.Block.Layout.{IsSealed}
use orbitersdk_cpp.Utils.Block.Concrete.{
  BlockKeys, content, merkle_root, IsSigned, IsSignedAt, deserialize_block-signed,
}
use orbitersdk_cpp.Core.Rdpos.Blocks.{parse_tx_seed_list}

-- A hash that keeps the first 32 bytes
abbrev pub first_bytes : List ℕ → List ℕ
first_bytes bytes = take 32 (bytes ++ replicate 32 0)

abbrev pub some_key : List ℕ
some_key = 1 ∷ (2 ∷ (3 ∷ []))

abbrev pub accepting : Secp256k1
accepting = record {
  verify_sig = λ r s v. true;
  recover = λ r s v hash. some some_key;
  to_address = λ key. take 20 (key ++ replicate 20 0);
}

abbrev a_tx : Block.TxBlock
a_tx = record {
  to = replicate 20 7;
  from = take 20 (some_key ++ replicate 20 0);
  bytes = 1 ∷ (2 ∷ []);
  chain_id = 8080;
  nonce = 3;
  value = 1000000000000000000;
  max_priority_fee_per_gas = 0;
  max_fee_per_gas = 1000000000;
  gas_limit = 21000;
  v = 1;
  r = 2 ^ 200 + 5;
  s = 2 ^ 190 + 9;
}

a_tx-IsEncodable : TxEncoding.IsEncodable a_tx
unfolding uint_size data_size bytes_required bytes_required_loop
a_tx-IsEncodable = record {
  chain_id-small = omega arith;
  nonce-small = omega arith;
  gas_limit-small = omega arith;
  value-small = omega arith;
  priority-small = omega arith;
  fee-small = omega arith;
  to-length = refl;
  bytes-IsReadable = (omega arith, omega arith);
  v-small = omega arith;
  r-small = omega arith;
  s-small = omega arith;
  size-big = omega arith;
  size-small = omega arith;
}

deserialize-rlp_serialize_example :
    Block.deserialize accepting first_bytes (Block.rlp_serialize a_tx true) ≡ ok a_tx
deserialize-rlp_serialize_example =
    TxEncoding.deserialize-rlp_serialize accepting first_bytes a_tx some_key a_tx-IsEncodable refl
      refl refl

abbrev pub a_validator_tx : Validator.TxValidator
a_validator_tx = record {
  from = take 20 (some_key ++ replicate 20 0);
  bytes = replicate 36 9;
  n_height = 5;
  chain_id = 8080;
  v = 16195;
  r = 2 ^ 200 + 5;
  s = 2 ^ 190 + 9;
}

a_validator_tx-IsEncodable : ValidatorEncoding.IsEncodable a_validator_tx 0
unfolding uint_size data_size bytes_required bytes_required_loop
a_validator_tx-IsEncodable = record {
  n_height-small = omega arith;
  chain_id-positive = omega arith;
  chain_id-small = omega arith;
  bytes-IsReadable = (omega arith, omega arith);
  id-small = omega arith;
  v-id = refl;
  r-small = omega arith;
  s-small = omega arith;
  size-big = omega arith;
  size-small = omega arith;
}

pub a_validator_tx_back :
    Validator.deserialize accepting first_bytes (Validator.rlp_serialize a_validator_tx true)
    ≡ ok a_validator_tx
a_validator_tx_back =
    ValidatorEncoding.deserialize_validator-rlp_serialize accepting first_bytes a_validator_tx 0
      some_key a_validator_tx-IsEncodable refl refl refl

abbrev pub keys : BlockKeys
keys = record {
  verify_sig = λ sig. true;
  recover = λ sig hash. some_key;
  sign = λ hash key. replicate 65 1;
}

-- A block with a transaction of each kind
abbrev pub a_block : Blocks.Block Block.TxBlock Validator.TxValidator
a_block =
    let c = content accepting keys first_bytes in
    record {
      validator_sig = replicate 65 1;
      prev_block_hash = replicate 32 2;
      block_randomness = c.randomness (a_validator_tx ∷ []);
      validator_merkle_root = c.validator_root (a_validator_tx ∷ []);
      tx_merkle_root = c.tx_root (a_tx ∷ []);
      timestamp = 1656356646000000;
      n_height = 5;
      tx_validators = a_validator_tx ∷ [];
      txs = a_tx ∷ [];
      validator_pub_key = some_key;
      finalized = true;
    }

length-take_padded : (n k : ℕ) (l : List ℕ) → n ≤ k → length (take n (l ++ replicate k 0)) ≡ n
length-take_padded zero k l h = refl
length-take_padded (suc n) zero [] h = absurd (omega arith)
length-take_padded (suc n) (suc k) [] h = omega (arith, length-take_padded n k [] (omega arith))
length-take_padded (suc n) k (x ∷ l) h = omega (arith, length-take_padded n k l (omega arith))

-- The lengths of what the block holds
randomness-length : length a_block.block_randomness ≡ 32
unfolding content parse_tx_seed_list
randomness-length = length-take_padded 32 32 _ (omega arith)

validator_root-length : length a_block.validator_merkle_root ≡ 32
unfolding content merkle_root tree layers_from get_root
validator_root-length = length-take_padded 32 32 _ (omega arith)

tx_root-length : length a_block.tx_merkle_root ≡ 32
unfolding content merkle_root tree layers_from get_root
tx_root-length = length-take_padded 32 32 _ (omega arith)

tx_size : length (Block.rlp_serialize a_tx true) ≡ 103
unfolding Block.rlp_serialize Block.total_size Block.write_fields Block.write_signature
    Block.write_v uint_size data_size write_uint write_signature_uint write_data write_list_head
    bytes_required bytes_required_loop uint_to_bytes uint_to_bytes_loop
tx_size = refl

pub validator_tx_size : length (Validator.rlp_serialize a_validator_tx true) ≡ 95
unfolding Validator.rlp_serialize Validator.total_size Validator.write_fields
    Validator.write_signature Validator.write_v uint_size data_size write_uint write_signature_uint
    write_data write_list_head bytes_required bytes_required_loop uint_to_bytes uint_to_bytes_loop
validator_tx_size = refl

pub a_block-IsSealed : IsSealed (content accepting keys first_bytes) a_block
unfolding content serialize_entries uint32_to_bytes reversed
a_block-IsSealed = record {
  sig-length = refl;
  prev-length = refl;
  randomness-length = randomness-length;
  validator_root-length = validator_root-length;
  tx_root-length = tx_root-length;
  timestamp-small = omega arith;
  n_height-small = omega arith;
  size-small = omega (
    arith,
    tx_size,
    validator_tx_size,
    length-append (Block.rlp_serialize a_tx true) [],
    length-append (Validator.rlp_serialize a_validator_tx true) [],
  );
  tx_root-eq = refl;
  validator_root-eq = refl;
  randomness-eq = refl;
  sig-valid = refl;
  key-eq = refl;
  is_finalized = refl;
}

pub a_tx-IsSigned : IsSigned accepting keys first_bytes a_tx
a_tx-IsSigned = record {
  key = some_key;
  encodable = a_tx-IsEncodable;
  verified = refl;
  recovered = refl;
  sender = refl;
  small = omega (arith, tx_size);
}

pub a_validator_tx-IsSignedAt : IsSignedAt accepting keys first_bytes 5 a_validator_tx
a_validator_tx-IsSignedAt = record {
  id = 0;
  key = some_key;
  encodable = a_validator_tx-IsEncodable;
  verified = refl;
  recovered = refl;
  sender = refl;
  small = omega (arith, validator_tx_size);
  height = refl;
}

deserialize_block-signed_example :
    deserialize_block
      (content accepting keys first_bytes)
      4
      (serialize_block (content accepting keys first_bytes) a_block)
    ≡ ok a_block
deserialize_block-signed_example =
    deserialize_block-signed accepting keys first_bytes a_block 4 a_block-IsSealed
      (a_tx-IsSigned, tt) (a_validator_tx-IsSignedAt, tt)
