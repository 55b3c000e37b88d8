-- ===== src/Utils/Block/Layout.antt =====
-- The bytes of a finalized block, field by field.
use mathlib.Core.List.{append_assoc}
use orbitersdk_cpp.Prelude.{
  ℕ, ◌+◌, ◌^◌, ◌≤◌, ◌<◌, ◌≡◌, refl, ap, sym, ◌∙◌, true, All, List, [], ◌∷◌, ◌++◌, length,
  length-append, take-append, drop-append, arith,
}
use orbitersdk_cpp.Utils.Bytes.Fixed.{
  uint32_to_bytes, uint64_to_bytes, length-uint32_to_bytes, length-uint64_to_bytes,
}
use orbitersdk_cpp.Utils.Block.{
  Content, Block, overwrite, serialize_entries, serialize_header, serialize_block, hash,
}
use orbitersdk_cpp.Utils.Block.Parse.{read_validator_at}
use orbitersdk_cpp.Utils.Block.Entries.{IsEntry}

-- Bytes written over bytes of the same number
overwrite_lem :
    (front old rest new : List ℕ)
    → length old ≡ length new
    → overwrite (front ++ (old ++ rest)) (length front) new ≡ front ++ (new ++ rest)
overwrite_lem front old rest new h =
    let joined : length front + length new ≡ length (front ++ old) =
      omega (arith, h, length-append front old) in
    rw
      (
        take-append front (old ++ rest),
        joined,
        ← append_assoc front old rest,
        drop-append (front ++ old) rest,
      )
      refl

pub length-serialize_entries :
    {A : Type 0} (write : A → List ℕ) (txs : List A)
    → length txs ≤ length (serialize_entries write txs)
unfolding serialize_entries
length-serialize_entries write [] = omega arith
length-serialize_entries write (tx ∷ txs) =
    let n = length (write tx) in
    let more = serialize_entries write txs in
    omega (
      arith,
      length-append (uint32_to_bytes n) (write tx ++ more),
      length-append (write tx) more,
      length-uint32_to_bytes n,
      length-serialize_entries write txs,
    )

module _ {Tx Validator : Type 0} (content : Content Tx Validator) (b : Block Tx Validator) where
  -- A finalized block whose fixed fields have their sizes and whose checks hold
  pub record IsSealed : Type 0 where
    pub sig-length : length b.validator_sig ≡ 65
    pub prev-length : length b.prev_block_hash ≡ 32
    pub randomness-length : length b.block_randomness ≡ 32
    pub validator_root-length : length b.validator_merkle_root ≡ 32
    pub tx_root-length : length b.tx_merkle_root ≡ 32
    pub timestamp-small : b.timestamp < 2 ^ 64
    pub n_height-small : b.n_height < 2 ^ 64
    pub size-small :
        217
          + length (serialize_entries content.write_tx b.txs)
          + length (serialize_entries content.write_validator b.tx_validators)
        < 2 ^ 64
    pub tx_root-eq : content.tx_root b.txs ≡ b.tx_merkle_root
    pub validator_root-eq : content.validator_root b.tx_validators ≡ b.validator_merkle_root
    pub randomness-eq : content.randomness b.tx_validators ≡ b.block_randomness
    pub sig-valid : content.verify_sig b.validator_sig ≡ true
    pub key-eq : content.recover b.validator_sig (hash content b) ≡ b.validator_pub_key
    pub is_finalized : b.finalized ≡ true

  -- Its transactions are read back too.
  pub record IsComplete : Type 0 where
    pub sealed : IsSealed
    pub txs-IsEntry : All (IsEntry content.write_tx content.read_tx) b.txs
    pub validators-IsEntry :
        All (IsEntry content.write_validator (read_validator_at content b.n_height)) b.tx_validators

  unfoldable pub start : ℕ
  start = 217 + length (serialize_entries content.write_tx b.txs)

  abbrev pub txs_bytes : List ℕ
  txs_bytes = serialize_entries content.write_tx b.txs

  abbrev pub validators_bytes : List ℕ
  validators_bytes = serialize_entries content.write_validator b.tx_validators

  -- The bytes after each field
  abbrev pub after_start : List ℕ
  after_start = txs_bytes ++ validators_bytes

  abbrev pub after_height : List ℕ
  after_height = uint64_to_bytes start ++ after_start

  abbrev pub after_timestamp : List ℕ
  after_timestamp = uint64_to_bytes b.n_height ++ after_height

  abbrev pub after_tx_root : List ℕ
  after_tx_root = uint64_to_bytes b.timestamp ++ after_timestamp

  abbrev pub after_validator_root : List ℕ
  after_validator_root = b.tx_merkle_root ++ after_tx_root

  abbrev pub after_randomness : List ℕ
  after_randomness = b.validator_merkle_root ++ after_validator_root

  abbrev pub after_prev : List ℕ
  after_prev = b.block_randomness ++ after_randomness

  abbrev pub after_sig : List ℕ
  after_sig = b.prev_block_hash ++ after_prev

  unfoldable pub layout : List ℕ
  layout = b.validator_sig ++ after_sig

  -- The bytes before each field
  abbrev pub front : List ℕ
  front = b.validator_sig ++ serialize_header b

  pub length-front : IsComplete → length front ≡ 209
  unfolding serialize_header
  length-front h =
      simp
        (
          length-append, h.sealed.sig-length, h.sealed.prev-length, h.sealed.randomness-length,
          h.sealed.validator_root-length, h.sealed.tx_root-length, length-uint64_to_bytes,
        )
        refl

  serialize_block-front :
      IsComplete
      → serialize_block content b
        ≡ (front ++ (uint64_to_bytes start ++ txs_bytes)) ++ validators_bytes
  unfolding serialize_block start
  serialize_block-front h =
      let size : length (front ++ (uint64_to_bytes 0 ++ txs_bytes)) ≡ start = omega (
        arith,
        length-front h,
        length-append front (uint64_to_bytes 0 ++ txs_bytes),
        length-append (uint64_to_bytes 0) txs_bytes,
        length-uint64_to_bytes 0,
      ) in
      let same_size =
        length-uint64_to_bytes 0
        ∙ sym (length-uint64_to_bytes (length (front ++ (uint64_to_bytes 0 ++ txs_bytes)))) in
      ap (λ l. l ++ validators_bytes)
        (overwrite_lem front (uint64_to_bytes 0) txs_bytes _ same_size
          ∙ ap (λ n. front ++ (uint64_to_bytes n ++ txs_bytes)) size)

  pub serialize_block-layout : IsComplete → serialize_block content b ≡ layout
  unfolding layout serialize_header
  serialize_block-layout h = serialize_block-front h ∙ simp append_assoc refl
