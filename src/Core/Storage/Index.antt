-- ===== src/Core/Storage/Index.antt =====
-- `Storage::getTxFromBlockWithIndex`: the transaction at an index of a serialized block.
use orbitersdk_cpp.Prelude.{
  ℕ, zero, suc, ◌+◌, ◌%◌, ◌^◌, ◌<◌, ◌≡◌, All, List, [], ◌∷◌, ◌++◌, length, get_elem?, some, Result,
  ok, arith,
}
use orbitersdk_cpp.Prelude.Throw.{◌>>=◌}
use orbitersdk_cpp.Utils.Bytes.{substr}
use orbitersdk_cpp.Utils.Bytes.Fixed.{uint64_to_bytes}
use orbitersdk_cpp.Utils.Block.{Content, Block, serialize_block}
use orbitersdk_cpp.Utils.Block.Parse.{entry_size}
use orbitersdk_cpp.Utils.Block.Entries.{Around, Around-cons, up_to}
use orbitersdk_cpp.Utils.Block.Layout.{
  IsComplete, start, front, layout, serialize_block-layout, validators_bytes,
}
use orbitersdk_cpp.Utils.Block.Fields.{Around-txs}

-- `while (currentTx < txIndex)`: here `txSize` is a `uint32_t`, and `txSize + 4` wraps.
unfoldable pub skip_to : ℕ → List ℕ → ℕ → Result ℕ
skip_to zero bytes index = ok index
skip_to (suc n) bytes index = do
  tx_size ← entry_size bytes index
  skip_to n bytes ((index + (tx_size + 4) % 2 ^ 32) % 2 ^ 64)

module _ {Tx : Type 0} (read : List ℕ → Result Tx) where
  -- The entry that starts at this index
  unfoldable pub tx_from : List ℕ → ℕ → Result Tx
  tx_from bytes index = do
    tx_size ← entry_size bytes index
    tx_bytes ← substr bytes ((index + 4) % 2 ^ 64) tx_size
    read tx_bytes

  unfoldable pub get_tx_from_block_with_index : List ℕ → ℕ → Result Tx
  unfolding skip_to tx_from
  get_tx_from_block_with_index block_data tx_index = do
    index ← skip_to tx_index block_data 217
    tx_from block_data index

module _ {A : Type 0} (write : A → List ℕ) (read : List ℕ → Result A) where
  tx_from-Around :
      (i : ℕ) (txs : List A) (tx : A) (p rest bytes : List ℕ) (index : ℕ)
      → Around write read p txs rest bytes index
      → All (λ t. length (write t) + 4 < 2 ^ 32) txs
      → get_elem? txs i ≡ some tx
      → (skip_to i bytes index >>= tx_from read bytes) ≡ ok tx
  unfolding skip_to tx_from
  tx_from-Around zero [] tx p rest bytes index a small h = absurd (ground (arith, h))
  tx_from-Around zero (t ∷ txs) tx p rest bytes index a small h =
      let (here, more, sizes) = Around-cons write read p t txs rest bytes index a in
      rw (here.size, here.content, a.entries.0.back) (ground (arith, h))
  tx_from-Around (suc i) [] tx p rest bytes index a small h = absurd (ground (arith, h))
  tx_from-Around (suc i) (t ∷ txs) tx p rest bytes index a small h =
      let (here, more, sizes) = Around-cons write read p t txs rest bytes index a in
      let narrow : (length (write t) + 4) % 2 ^ 32 ≡ length (write t) + 4 =
        omega (arith, small.0) in
      rw (here.size, narrow, here.skipped)
        (tx_from-Around i txs tx (up_to write read p t) rest bytes (length (up_to write read p t))
          more small.1 h)

-- The transaction that is read from a serialized block at an index is the one of the block at that index, if the block is one that the constructor reads back, and no transaction is as large as 2 ^ 32 - 4 bytes.
pub get_tx_from_block_with_index-serialize_block :
    {Tx Validator : Type 0} (content : Content Tx Validator) (b : Block Tx Validator) (i : ℕ)
    (tx : Tx)
    → IsComplete content b
    → All (λ t. length (content.write_tx t) + 4 < 2 ^ 32) b.txs
    → get_elem? b.txs i ≡ some tx
    → get_tx_from_block_with_index content.read_tx (serialize_block content b) i ≡ ok tx
unfolding get_tx_from_block_with_index
get_tx_from_block_with_index-serialize_block content b i tx h small found =
    rw (serialize_block-layout content b h) (
      tx_from-Around content.write_tx content.read_tx i b.txs tx
        (front content b ++ uint64_to_bytes (start content b)) (validators_bytes content b)
        (layout content b) 217 (Around-txs content b h) small found)
