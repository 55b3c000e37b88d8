-- ===== src/Utils/Block/Fields.antt =====
-- The fields of the bytes of a finalized block, as the constructor reads them.
use mathlib.Core.List.{append_assoc, append-nil}
use orbitersdk_cpp.Prelude.{
  ℕ, ◌+◌, ◌≡◌, refl, sym, List, [], ◌++◌, length, length-append, ok, arith,
}
use orbitersdk_cpp.Utils.Bytes.{substr}
use orbitersdk_cpp.Utils.Bytes.Fixed.{uint64_to_bytes, length-uint64_to_bytes}
use orbitersdk_cpp.Utils.Block.{Content, Block, serialize_header}
use orbitersdk_cpp.Utils.Block.Parse.{uint64_at, read_validator_at}
use orbitersdk_cpp.Utils.Block.Entries.{substr_lem, uint64_at_lem, Around}
use orbitersdk_cpp.Utils.Block.Layout.{
  IsComplete, txs_bytes, validators_bytes, after_start, after_height, after_timestamp,
  after_tx_root, after_validator_root, after_randomness, after_prev, after_sig, start, layout,
  front, length-front,
}

module _ {Tx Validator : Type 0} (content : Content Tx Validator) (b : Block Tx Validator) where
  abbrev before_randomness : List ℕ
  before_randomness = b.validator_sig ++ b.prev_block_hash

  abbrev before_validator_root : List ℕ
  before_validator_root = before_randomness ++ b.block_randomness

  abbrev before_tx_root : List ℕ
  before_tx_root = before_validator_root ++ b.validator_merkle_root

  abbrev before_timestamp : List ℕ
  before_timestamp = before_tx_root ++ b.tx_merkle_root

  pub field-sig : IsComplete content b → substr (layout content b) 0 65 ≡ ok b.validator_sig
  unfolding layout
  field-sig h = substr_lem [] b.validator_sig (after_sig content b) 0 65 refl h.sealed.sig-length

  pub field-prev : IsComplete content b → substr (layout content b) 65 32 ≡ ok b.prev_block_hash
  unfolding layout
  field-prev h =
      substr_lem b.validator_sig b.prev_block_hash (after_prev content b) 65 32 h.sealed.sig-length
        h.sealed.prev-length

  pub field-randomness :
      IsComplete content b → substr (layout content b) 97 32 ≡ ok b.block_randomness
  unfolding layout
  field-randomness h = simp append_assoc at (
      substr_lem before_randomness b.block_randomness (after_randomness content b) 97 32
        (simp (length-append, h.sealed.sig-length, h.sealed.prev-length) refl)
        h.sealed.randomness-length)

  pub field-validator_root :
      IsComplete content b → substr (layout content b) 129 32 ≡ ok b.validator_merkle_root
  unfolding layout
  field-validator_root h = simp append_assoc at (
      substr_lem before_validator_root b.validator_merkle_root (after_validator_root content b) 129
        32
        (simp (length-append, h.sealed.sig-length, h.sealed.prev-length, h.sealed.randomness-length)
          refl)
        h.sealed.validator_root-length)

  pub field-tx_root : IsComplete content b → substr (layout content b) 161 32 ≡ ok b.tx_merkle_root
  unfolding layout
  field-tx_root h = simp append_assoc at (
      substr_lem before_tx_root b.tx_merkle_root (after_tx_root content b) 161 32
        (simp
          (
            length-append, h.sealed.sig-length, h.sealed.prev-length, h.sealed.randomness-length,
            h.sealed.validator_root-length,
          )
          refl)
        h.sealed.tx_root-length)

  length-before_timestamp : IsComplete content b → length before_timestamp ≡ 193
  length-before_timestamp h =
      simp
        (
          length-append, h.sealed.sig-length, h.sealed.prev-length, h.sealed.randomness-length,
          h.sealed.validator_root-length, h.sealed.tx_root-length,
        )
        refl

  pub field-timestamp : IsComplete content b → uint64_at (layout content b) 193 ≡ ok b.timestamp
  unfolding layout
  field-timestamp h = simp append_assoc at (
      uint64_at_lem before_timestamp (after_timestamp content b) 193 b.timestamp
        (length-before_timestamp h) h.sealed.timestamp-small)

  pub field-height : IsComplete content b → uint64_at (layout content b) 201 ≡ ok b.n_height
  unfolding layout
  field-height h = simp append_assoc at (
      uint64_at_lem (before_timestamp ++ uint64_to_bytes b.timestamp) (after_height content b) 201
        b.n_height
        (omega (
          arith,
          length-append before_timestamp (uint64_to_bytes b.timestamp),
          length-before_timestamp h,
          length-uint64_to_bytes b.timestamp,
        ))
        h.sealed.n_height-small)

  pub field-start : IsComplete content b → uint64_at (layout content b) 209 ≡ ok (start content b)
  unfolding layout start serialize_header
  field-start h = simp append_assoc at (
      uint64_at_lem (front content b) (after_start content b) 209 (start content b)
        (length-front content b h) (omega (arith, h.sealed.size-small)))

  pub Around-txs :
      IsComplete content b
      → Around content.write_tx content.read_tx
          ((front content b) ++ uint64_to_bytes (start content b))
          b.txs
          (validators_bytes content b)
          (layout content b)
          217
  unfolding layout start serialize_header
  Around-txs h =
      let size : length ((front content b) ++ uint64_to_bytes (start content b)) ≡ 217 = omega (
        arith,
        length-front content b h,
        length-append (front content b) (uint64_to_bytes (start content b)),
        length-uint64_to_bytes (start content b),
      ) in
      record {
        split = simp append_assoc refl;
        start = sym size;
        small = omega (arith, size, h.sealed.size-small);
        entries = h.txs-IsEntry;
      }

  pub Around-validators :
      IsComplete content b
      → Around content.write_validator
          (read_validator_at content b.n_height)
          ((front content b) ++ (uint64_to_bytes (start content b) ++ (txs_bytes content b)))
          b.tx_validators
          []
          (layout content b)
          (start content b)
  unfolding layout start serialize_header
  Around-validators h =
      let size : length
            ((front content b) ++ (uint64_to_bytes (start content b) ++ (txs_bytes content b)))
          ≡ (start content b) =
        omega (
          arith,
          length-front content b h,
          length-append (front content b)
              (uint64_to_bytes (start content b) ++ (txs_bytes content b)),
          length-append (uint64_to_bytes (start content b)) (txs_bytes content b),
          length-uint64_to_bytes (start content b),
        ) in
      record {
        split = simp (append_assoc, append-nil) refl;
        start = sym size;
        small = omega (arith, size, h.sealed.size-small);
        entries = h.validators-IsEntry;
      }

  pub length-layout :
      IsComplete content b
      → length (layout content b) ≡ (start content b) + length (validators_bytes content b)
  unfolding layout start
  length-layout h =
      simp
        (
          length-append, h.sealed.sig-length, h.sealed.prev-length, h.sealed.randomness-length,
          h.sealed.validator_root-length, h.sealed.tx_root-length, length-uint64_to_bytes,
        )
        (omega arith)
