-- ===== src/Utils/Block/Concrete.antt =====
-- Blocks of the transactions of utils/tx.cpp, with the Merkle trees and the randomness that the program gives them.
use orbitersdk_cpp.Prelude.{
  ℕ, ◌^◌, ◌<◌, ◌≡◌, Bool, true, false, All, some, List, [], ◌∷◌, map, length, ok, arith,
}
use orbitersdk_cpp.Core.Chain
use orbitersdk_cpp.Core.Rdpos.Blocks.{parse_tx_seed_list}
use orbitersdk_cpp.Utils.Bytes.{from_big_endian}
use orbitersdk_cpp.Utils.Merkle.{empty_hash, tree, get_root}
use orbitersdk_cpp.Utils.Tx.{Secp256k1}
use orbitersdk_cpp.Utils.Tx.Block
use orbitersdk_cpp.Utils.Tx.Block.RoundTrip.{deserialize-rlp_serialize}
use orbitersdk_cpp.Utils.Tx.Block.RoundTrip as TxEncoding
use orbitersdk_cpp.Utils.Tx.Validator
use orbitersdk_cpp.Utils.Tx.Validator.RoundTrip.{deserialize_validator-rlp_serialize}
use orbitersdk_cpp.Utils.Tx.Validator.RoundTrip as ValidatorEncoding
use orbitersdk_cpp.Utils.Block as Blocks
use orbitersdk_cpp.Utils.Block.{Content, serialize_block}
use orbitersdk_cpp.Utils.Block.Layout.{IsSealed}
use orbitersdk_cpp.Utils.Block.RoundTrip.{deserialize_block-serialize_block}
use orbitersdk_cpp.Utils.Block.Parse.{read_validator_at, deserialize_block}
use orbitersdk_cpp.Utils.Block.Entries.{IsEntry}

-- What a block asks of secp256k1: `verifySig` and `recover` of a signature's 65 bytes, and `sign`.
pub record BlockKeys : Type 0 where
  pub verify_sig : List ℕ → Bool
  pub recover : List ℕ → List ℕ → List ℕ
  pub sign : List ℕ → List ℕ → List ℕ

module _ (secp : Secp256k1) (keys : BlockKeys) (sha3 : List ℕ → List ℕ) where
  -- `Merkle(txs).getRoot()`, where `hashes` are those of the transactions
  unfoldable pub merkle_root : List (List ℕ) → List ℕ
  merkle_root hashes = get_root (tree sha3 hashes)

  -- What the core sees of a validator's transaction: hashes and addresses are numbers there.
  unfoldable pub core_view : Validator.TxValidator → Chain.TxValidator
  core_view tx = record {
    hash = from_big_endian 256 (sha3 (Validator.rlp_serialize tx true));
    from = from_big_endian 160 tx.from;
    n_height = tx.n_height;
    bytes = tx.bytes;
  }

  unfoldable pub content : Content Block.TxBlock Validator.TxValidator
  content = record {
    write_tx = λ tx. Block.rlp_serialize tx true;
    read_tx = Block.deserialize secp sha3;
    write_validator = λ tx. Validator.rlp_serialize tx true;
    read_validator = Validator.deserialize secp sha3;
    validator_height = λ tx. tx.n_height;
    tx_root = λ txs. merkle_root (map (λ tx. sha3 (Block.rlp_serialize tx true)) txs);
    validator_root = λ txs. merkle_root (map (λ tx. sha3 (Validator.rlp_serialize tx true)) txs);
    randomness = λ txs. parse_tx_seed_list sha3 empty_hash (map core_view txs);
    sha3 = sha3;
    verify_sig = keys.verify_sig;
    recover = keys.recover;
    sign = keys.sign;
  }

  -- A transaction whose signature is valid and gives back its sender, and whose size 4 bytes hold
  pub record IsSigned (tx : Block.TxBlock) : Type 0 where
    pub key : List ℕ
    pub encodable : TxEncoding.IsEncodable tx
    pub verified : secp.verify_sig tx.r tx.s tx.v ≡ true
    pub recovered : secp.recover tx.r tx.s tx.v (sha3 (Block.rlp_serialize tx false)) ≡ some key
    pub sender : secp.to_address key ≡ tx.from
    pub small : length (Block.rlp_serialize tx true) < 2 ^ 32

  -- The same for a validator's transaction with the height of the block; `id` is the recovery id in its `v`.
  pub record IsSignedAt (n_height : ℕ) (tx : Validator.TxValidator) : Type 0 where
    pub id : ℕ
    pub key : List ℕ
    pub encodable : ValidatorEncoding.IsEncodable tx id
    pub verified : secp.verify_sig tx.r tx.s id ≡ true
    pub recovered : secp.recover tx.r tx.s id (sha3 (Validator.rlp_serialize tx false)) ≡ some key
    pub sender : secp.to_address key ≡ tx.from
    pub small : length (Validator.rlp_serialize tx true) < 2 ^ 32
    pub height : tx.n_height ≡ n_height

  signed-IsEntry : (tx : Block.TxBlock) → IsSigned tx → IsEntry content.write_tx content.read_tx tx
  unfolding content
  signed-IsEntry tx h = record {
    back = deserialize-rlp_serialize secp sha3 tx h.key h.encodable h.verified h.recovered h.sender;
    small = h.small;
  }

  signed_at-IsEntry :
      (n_height : ℕ) (tx : Validator.TxValidator)
      → IsSignedAt n_height tx
      → IsEntry content.write_validator (read_validator_at content n_height) tx
  unfolding content read_validator_at
  signed_at-IsEntry n_height tx h = record {
    back =
        let read =
          deserialize_validator-rlp_serialize secp sha3 tx h.id h.key h.encodable h.verified
            h.recovered h.sender in
        rw read (ground (arith, h.height));
    small = h.small;
  }

  pub txs-IsEntry :
      (txs : List Block.TxBlock)
      → All IsSigned txs
      → All (IsEntry content.write_tx content.read_tx) txs
  txs-IsEntry [] h = tt
  txs-IsEntry (tx ∷ txs) h = (signed-IsEntry tx h.0, txs-IsEntry txs h.1)

  pub validators-IsEntry :
      (n_height : ℕ) (txs : List Validator.TxValidator)
      → All (IsSignedAt n_height) txs
      → All (IsEntry content.write_validator (read_validator_at content n_height)) txs
  validators-IsEntry n_height [] h = tt
  validators-IsEntry n_height (tx ∷ txs) h =
      (signed_at-IsEntry n_height tx h.0, validators-IsEntry n_height txs h.1)

  -- A finalized block of signed transactions, with its fields and checks as they should be, is what the constructor makes of its own serialization, whatever the number of threads.
  pub deserialize_block-signed :
      (b : Blocks.Block Block.TxBlock Validator.TxValidator) (thr_num : ℕ)
      → IsSealed content b
      → All IsSigned b.txs
      → All (IsSignedAt b.n_height) b.tx_validators
      → deserialize_block content thr_num (serialize_block content b) ≡ ok b
  deserialize_block-signed b thr_num sealed txs validators =
      deserialize_block-serialize_block content b thr_num (record {
        sealed = sealed;
        txs-IsEntry = txs-IsEntry b.txs txs;
        validators-IsEntry = validators-IsEntry b.n_height b.tx_validators validators;
      })
