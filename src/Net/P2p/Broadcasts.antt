-- ===== src/Net/P2p/Broadcasts.antt =====
-- `BroadcastEncoder` and `BroadcastDecoder`: the id of a broadcast is the hash of what it says. What is
-- broadcast is written and read by its class, `write` and `read`.
use orbitersdk_cpp.Prelude.{ℕ, true, not, List, Result, runtime_error, ◌==◌}
use orbitersdk_cpp.Prelude.Throw.{◌>>=◌, ◌>>◌, throw_if}
use orbitersdk_cpp.Utils.Bytes.Fixed.{uint64_to_bytes}
use orbitersdk_cpp.Utils.Tx.{Secp256k1}
use orbitersdk_cpp.Utils.Tx.Block
use orbitersdk_cpp.Utils.Tx.Validator
use orbitersdk_cpp.Utils.Block as Blocks
use orbitersdk_cpp.Utils.Block.{Content, serialize_block}
use orbitersdk_cpp.Utils.Block.Parse.{deserialize_block}
use orbitersdk_cpp.Net.P2p.{
  broadcasting, broadcast_validator_tx, broadcast_tx, broadcast_block, compose, type, id, command,
  message, to_uint64, fnv_hash,
}

unfoldable pub encode : ℕ → List ℕ → Result (List ℕ)
unfolding compose
encode command said = compose broadcasting (uint64_to_bytes (fnv_hash said)) command said

-- The checks that the three decoders make, and then the constructor of what was sent
unfoldable pub decode : {A : Type 0} → ℕ → (List ℕ → Result A) → List ℕ → Result A
unfolding type id command message to_uint64
decode expected read raw = do
  t ← type raw
  throw_if (not (t == broadcasting)) runtime_error
  i ← id raw
  n ← to_uint64 i
  throw_if (not (n == fnv_hash (message raw))) runtime_error
  c ← command raw
  throw_if (not (c == expected)) runtime_error
  read (message raw)

unfoldable pub encode_validator_tx : Validator.TxValidator → Result (List ℕ)
unfolding encode
encode_validator_tx tx = encode broadcast_validator_tx (Validator.rlp_serialize tx true)

unfoldable pub encode_tx : Block.TxBlock → Result (List ℕ)
unfolding encode
encode_tx tx = encode broadcast_tx (Block.rlp_serialize tx true)

module _ (secp : Secp256k1) (sha3 : List ℕ → List ℕ) where
  unfoldable pub decode_validator_tx : List ℕ → Result Validator.TxValidator
  unfolding decode
  decode_validator_tx raw = decode broadcast_validator_tx (Validator.deserialize secp sha3) raw

  unfoldable pub decode_tx : List ℕ → Result Block.TxBlock
  unfolding decode
  decode_tx raw = decode broadcast_tx (Block.deserialize secp sha3) raw

module _ {Tx Validator : Type 0} (content : Content Tx Validator) where
  unfoldable pub encode_block : Blocks.Block Tx Validator → Result (List ℕ)
  unfolding encode
  encode_block block = encode broadcast_block (serialize_block content block)

  unfoldable pub decode_block : ℕ → List ℕ → Result (Blocks.Block Tx Validator)
  unfolding decode
  decode_block thr_num raw = decode broadcast_block (deserialize_block content thr_num) raw
