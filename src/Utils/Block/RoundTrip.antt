-- ===== src/Utils/Block/RoundTrip.antt =====
-- A finalized block that was serialized is read back.
use orbitersdk_cpp.Prelude.{
  ℕ, ◌+◌, ◌≡◌, refl, ap, sym, ◌∙◌, Bool, false, List, [], ◌++◌, length, ltb, ok, arith,
}
use orbitersdk_cpp.Utils.Bytes.Fixed.{uint64_to_bytes}
use orbitersdk_cpp.Utils.Merkle.Layers.{same_bytes_refl}
use orbitersdk_cpp.Utils.Block.{Content, Block, serialize_header, serialize_block}
use orbitersdk_cpp.Utils.Block.Parse.{
  count_entries, read_entries, read_txs, rethrow, read_validator_at, check_block, parse_block,
  deserialize_block,
}
use orbitersdk_cpp.Utils.Block.Entries.{count_entries_lem, read_entries_lem}
use orbitersdk_cpp.Utils.Block.Layout.{
  length-serialize_entries, IsComplete, start, layout, txs_bytes, validators_bytes, front,
  serialize_block-layout,
}
use orbitersdk_cpp.Utils.Block.Fields.{
  field-sig, field-prev, field-randomness, field-validator_root, field-tx_root, field-timestamp,
  field-height, field-start, Around-txs, Around-validators, length-layout,
}
use orbitersdk_cpp.Utils.Block.Threads.{read_txs-eq-read_entries}

module _ {Tx Validator : Type 0} (content : Content Tx Validator) (b : Block Tx Validator) where
  check_block_lem :
      (key : List ℕ) (finalized : Bool)
      → IsComplete content b
      → check_block content (record b { validator_pub_key = key; finalized = finalized }) ≡ ok b
  unfolding check_block serialize_header
  check_block_lem key finalized h =
      simp
        (
          h.sealed.tx_root-eq, h.sealed.validator_root-eq, h.sealed.randomness-eq, same_bytes_refl,
          h.sealed.sig-valid, h.sealed.key-eq,
        )
        (ap (λ f. ok (record b { finalized = f })) (sym h.sealed.is_finalized))

  count_txs :
      IsComplete content b
      → count_entries (length (layout content b)) (layout content b) (start content b) 217 0
        ≡ ok (length b.txs)
  unfolding start
  count_txs h =
      let around = Around-txs content b h in
      count_entries_lem content.write_tx content.read_tx b.txs
        ((front content b) ++ uint64_to_bytes (start content b)) (validators_bytes content b)
        (layout content b) 217 (start content b) (length (layout content b)) 0 around
        (ap (λ n. n + length (txs_bytes content b)) around.start)
        (omega (arith, length-layout content b h, length-serialize_entries content.write_tx b.txs))
      ∙ ap ok (omega arith)

  count_validators :
      IsComplete content b
      → count_entries
          (length (layout content b))
          (layout content b)
          (length (layout content b))
          (start content b)
          0
        ≡ ok (length b.tx_validators)
  count_validators h =
      let around = Around-validators content b h in
      count_entries_lem content.write_validator (read_validator_at content b.n_height)
        b.tx_validators
        ((front content b) ++ (uint64_to_bytes (start content b) ++ (txs_bytes content b))) []
        (layout content b) (start content b) (length (layout content b)) (length (layout content b))
        0 around
        (length-layout content b h ∙ ap (λ n. n + length (validators_bytes content b)) around.start)
        (omega (
          arith,
          length-layout content b h,
          length-serialize_entries content.write_validator b.tx_validators,
        ))
      ∙ ap ok (omega arith)

  parsed_txs :
      (thr_num : ℕ)
      → IsComplete content b
      → read_txs content.read_tx thr_num (length b.txs) (layout content b) 217 ≡ ok b.txs
  parsed_txs thr_num h =
      (read_txs-eq-read_entries content.read_tx (layout content b) thr_num (length b.txs) 217
          b.txs).1
        (read_entries_lem content.write_tx content.read_tx b.txs
          ((front content b) ++ uint64_to_bytes (start content b)) (validators_bytes content b)
          (layout content b) 217 (Around-txs content b h))

  parsed_validators :
      IsComplete content b
      → read_entries
          (read_validator_at content b.n_height)
          (length b.tx_validators)
          (layout content b)
          (start content b)
        ≡ ok b.tx_validators
  parsed_validators h =
      read_entries_lem content.write_validator (read_validator_at content b.n_height)
        b.tx_validators
        ((front content b) ++ (uint64_to_bytes (start content b) ++ (txs_bytes content b))) []
        (layout content b) (start content b) (Around-validators content b h)

  is_long : IsComplete content b → ltb (length (layout content b)) 217 ≡ false
  unfolding start
  is_long h = ground (arith, length-layout content b h)

  parse_block_lem :
      (thr_num : ℕ) → IsComplete content b → parse_block content thr_num (layout content b) ≡ ok b
  unfolding parse_block
  parse_block_lem thr_num h =
      rw
        (
          is_long h,
          field-sig content b h,
          field-prev content b h,
          field-randomness content b h,
          field-validator_root content b h,
          field-tx_root content b h,
          field-timestamp content b h,
          field-height content b h,
          field-start content b h,
          count_txs h,
          count_validators h,
          parsed_txs thr_num h,
          parsed_validators h,
        )
        (check_block_lem [] false h)

-- The constructor makes of the bytes of a complete block that block, whatever the number of threads.
pub deserialize_block-serialize_block :
    {Tx Validator : Type 0} (content : Content Tx Validator) (b : Block Tx Validator) (thr_num : ℕ)
    → IsComplete content b
    → deserialize_block content thr_num (serialize_block content b) ≡ ok b
unfolding deserialize_block rethrow
deserialize_block-serialize_block content b thr_num h =
    rw (serialize_block-layout content b h, parse_block_lem content b thr_num h) refl
