-- ===== src/Net/P2p/Signed.antt =====
-- Broadcasts of signed blocks and transactions reach the nodes that decode them.
use orbitersdk_cpp.Prelude.{ℕ, ◌≡◌, true, All, List, ok, arith}
use orbitersdk_cpp.Prelude.Throw.{◌>>=◌}
use orbitersdk_cpp.Utils.Tx.{Secp256k1}
use orbitersdk_cpp.Utils.Tx.Block
use orbitersdk_cpp.Utils.Tx.Validator
use orbitersdk_cpp.Utils.Tx.Block.RoundTrip.{deserialize-rlp_serialize}
use orbitersdk_cpp.Utils.Block as Blocks
use orbitersdk_cpp.Utils.Block.{serialize_block}
use orbitersdk_cpp.Utils.Block.Layout.{IsSealed}
use orbitersdk_cpp.Utils.Block.Concrete.{
  BlockKeys, content, IsSigned, IsSignedAt, deserialize_block-signed,
}
use orbitersdk_cpp.Utils.Block.Parse.{deserialize_block}
use orbitersdk_cpp.Net.P2p.{broadcast_tx, broadcast_block}
use orbitersdk_cpp.Net.P2p.RoundTrip.{decode-broadcast_bytes}
use orbitersdk_cpp.Net.P2p.Broadcasts.{encode_tx, decode_tx, encode_block, decode_block}

module _ (secp : Secp256k1) (keys : BlockKeys) (sha3 : List ℕ → List ℕ) where
  -- A finalized block of signed transactions, with its fields and checks as they should be, is what a node decodes from the broadcast of it, whatever the number of threads that it reads with.
  pub decode_block-encode_block :
      (b : Blocks.Block Block.TxBlock Validator.TxValidator) (thr_num : ℕ)
      → IsSealed (content secp keys sha3) b
      → All (IsSigned secp keys sha3) b.txs
      → All (IsSignedAt secp keys sha3 b.n_height) b.tx_validators
      → (encode_block (content secp keys sha3) b >>= decode_block (content secp keys sha3) thr_num)
        ≡ ok b
  unfolding encode_block decode_block
  decode_block-encode_block b thr_num sealed txs validators =
      let said : List ℕ = serialize_block (content secp keys sha3) b in
      let (sent, read) =
        decode-broadcast_bytes broadcast_block said
          (deserialize_block (content secp keys sha3) thr_num) (omega arith) in
      rw (sent, read) (deserialize_block-signed secp keys sha3 b thr_num sealed txs validators)

  -- The same for a transaction that is signed by its sender
  decode_tx-encode_tx :
      (tx : Block.TxBlock)
      → IsSigned secp keys sha3 tx
      → (encode_tx tx >>= decode_tx secp sha3) ≡ ok tx
  unfolding encode_tx decode_tx
  decode_tx-encode_tx tx h =
      let (sent, read) =
        decode-broadcast_bytes broadcast_tx (Block.rlp_serialize tx true)
          (Block.deserialize secp sha3) (omega arith) in
      rw (sent, read)
        (deserialize-rlp_serialize secp sha3 tx h.key h.encodable h.verified h.recovered h.sender)
