-- ===== src/Utils/Block.antt =====
-- `Block` of utils/block.h and utils/block.cpp: what a block does with the bytes of its transactions, whose
-- types and operations are those of a record.
pub mod Parse
pub mod Entries
pub mod Threads
pub mod Counting
pub mod Concrete
pub mod Finalize
pub mod Layout
pub mod Fields
pub mod RoundTrip
use orbitersdk_cpp.Prelude.{
  ℕ, ◌+◌, Bool, true, false, not, List, [], ◌∷◌, ◌++◌, length, take, drop, replicate, ltb, Result,
  if◌then◌else◌,
}
use orbitersdk_cpp.Utils.Bytes.Fixed.{uint64_to_bytes, uint32_to_bytes}

-- The transactions' `rlpSerialize` and constructors, the roots and the randomness of their lists, and secp256k1.
pub record Content (Tx Validator : Type 0) : Type 0 where
  pub write_tx : Tx → List ℕ
  pub read_tx : List ℕ → Result Tx
  pub write_validator : Validator → List ℕ
  pub read_validator : List ℕ → Result Validator
  pub validator_height : Validator → ℕ
  pub tx_root : List Tx → List ℕ
  pub validator_root : List Validator → List ℕ
  pub randomness : List Validator → List ℕ
  pub sha3 : List ℕ → List ℕ
  pub verify_sig : List ℕ → Bool
  pub recover : List ℕ → List ℕ → List ℕ
  pub sign : List ℕ → List ℕ → List ℕ

pub record Block (Tx Validator : Type 0) : Type 0 where
  pub validator_sig : List ℕ
  pub prev_block_hash : List ℕ
  pub block_randomness : List ℕ
  pub validator_merkle_root : List ℕ
  pub tx_merkle_root : List ℕ
  pub timestamp : ℕ
  pub n_height : ℕ
  pub tx_validators : List Validator
  pub txs : List Tx
  pub validator_pub_key : List ℕ
  pub finalized : Bool

-- `std::memcpy` of `xs` to `&bytes[loc]`
abbrev pub overwrite : List ℕ → ℕ → List ℕ → List ℕ
overwrite bytes loc xs = take loc bytes ++ (xs ++ drop (loc + length xs) bytes)

module _ {A : Type 0} (write : A → List ℕ) where
  -- The loops of `serializeBlock`: 4 bytes of size, and the bytes of the transaction
  unfoldable pub serialize_entries : List A → List ℕ
  serialize_entries [] = []
  serialize_entries (tx ∷ txs) =
      uint32_to_bytes (length (write tx)) ++ (write tx ++ serialize_entries txs)

module _ {Tx Validator : Type 0} where
  unfoldable pub serialize_header : Block Tx Validator → List ℕ
  serialize_header b =
      b.prev_block_hash
      ++ (b.block_randomness
          ++ (b.validator_merkle_root
              ++ (b.tx_merkle_root ++ (uint64_to_bytes b.timestamp ++ uint64_to_bytes b.n_height))))

module _ {Tx Validator : Type 0} (content : Content Tx Validator) where
  unfoldable pub serialize_block : Block Tx Validator → List ℕ
  serialize_block b =
      let front = b.validator_sig ++ serialize_header b in
      let ret = front ++ (uint64_to_bytes 0 ++ serialize_entries content.write_tx b.txs) in
      overwrite ret (length front) (uint64_to_bytes (length ret))
      ++ serialize_entries content.write_validator b.tx_validators

  -- `hash`
  abbrev pub hash : Block Tx Validator → List ℕ
  hash b = content.sha3 (serialize_header b)

  -- The operations that change a block return whether they did.
  unfoldable pub append_tx : Block Tx Validator → Tx → Bool × Block Tx Validator
  append_tx b tx = if b.finalized then (false, b) else (true, record b { txs = b.txs ++ (tx ∷ []) })

  unfoldable pub append_tx_validator : Block Tx Validator → Validator → Bool × Block Tx Validator
  append_tx_validator b tx =
      if b.finalized
      then (false, b)
      else (true, record b { tx_validators = b.tx_validators ++ (tx ∷ []) })

  -- The roots, the randomness and the time that the signature covers
  abbrev pub sealed : Block Tx Validator → ℕ → Block Tx Validator
  sealed b new_timestamp = record b {
    timestamp = new_timestamp;
    tx_merkle_root = content.tx_root b.txs;
    validator_merkle_root = content.validator_root b.tx_validators;
    block_randomness = content.randomness b.tx_validators;
  }

  abbrev pub signed : Block Tx Validator → List ℕ → Block Tx Validator
  signed b priv_key =
      let sig = content.sign (hash b) priv_key in
      record b {
        validator_sig = sig;
        validator_pub_key = content.recover sig (hash b);
        finalized = true;
      }

  unfoldable pub finalize : Block Tx Validator → List ℕ → ℕ → Bool × Block Tx Validator
  finalize b validator_priv_key new_timestamp =
      if b.finalized
      then (false, b)
      else if ltb new_timestamp b.timestamp
      then (false, b)
      else (true, signed (sealed b new_timestamp) validator_priv_key)
