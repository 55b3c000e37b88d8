-- ===== src/Utils/Block/Finalize.antt =====
-- What `finalize` makes of a block.
use orbitersdk_cpp.Prelude.{ℕ, ◌+◌, ◌^◌, ◌≤◌, ◌<◌, ◌≡◌, true, false, List, length}
use orbitersdk_cpp.Utils.Block.{Content, Block, serialize_entries}

module _ {Tx Validator : Type 0} (content : Content Tx Validator) (b : Block Tx Validator)
    (priv_key : List ℕ) (t : ℕ) where
  -- A block that is not finalized, at a time that is not before its own, whose roots and randomness are hashes, and
  -- for which `sign` gives a signature that `verifySig` accepts
  pub record CanSeal : Type 0 where
    pub not_finalized : b.finalized ≡ false
    pub later : b.timestamp ≤ t
    pub t-small : t < 2 ^ 64
    pub n_height-small : b.n_height < 2 ^ 64
    pub prev-length : length b.prev_block_hash ≡ 32
    pub tx_root-length : length (content.tx_root b.txs) ≡ 32
    pub validator_root-length : length (content.validator_root b.tx_validators) ≡ 32
    pub randomness-length : length (content.randomness b.tx_validators) ≡ 32
    pub sig-length : (message : List ℕ) → length (content.sign message priv_key) ≡ 65
    pub sig-valid : (message : List ℕ) → content.verify_sig (content.sign message priv_key) ≡ true
    pub size-small :
        217
          + length (serialize_entries content.write_tx b.txs)
          + length (serialize_entries content.write_validator b.tx_validators)
        < 2 ^ 64
