-- ===== src/Utils/Block/Parse.antt =====
-- The constructor of `Block` from bytes.
use orbitersdk_cpp.Prelude.{
  ℕ, zero, suc, ◌+◌, ◌-◌, ◌/◌, ◌%◌, ◌^◌, true, false, not, List, [], ◌∷◌, ◌++◌, length, replicate,
  ltb, leb, ◌==◌, Result, ok, err, runtime_error, undefined, if◌then◌else◌,
}
use orbitersdk_cpp.Prelude.Throw.{◌>>=◌, ◌>>◌, throw_if}
use orbitersdk_cpp.Utils.Bytes.{substr}
use orbitersdk_cpp.Utils.Bytes.Fixed.{bytes_to_uint64, bytes_to_uint32}
use orbitersdk_cpp.Utils.Merkle.{same_bytes}
use orbitersdk_cpp.Utils.Block.{Content, Block, hash}

-- `Utils::bytesToUint32(bytes.substr(index, 4))`
unfoldable pub entry_size : List ℕ → ℕ → Result ℕ
entry_size bytes index = do size ← substr bytes index 4; bytes_to_uint32 size

-- `Utils::bytesToUint64(bytes.substr(index, 8))`
unfoldable pub uint64_at : List ℕ → ℕ → Result ℕ
uint64_at bytes index = do field ← substr bytes index 8; bytes_to_uint64 field

-- `while (index < stop) …`: the number of entries that are counted. Each round needs a unit of fuel.
unfoldable pub count_entries : ℕ → List ℕ → ℕ → ℕ → ℕ → Result ℕ
count_entries zero bytes stop index count = ok count
count_entries (suc f) bytes stop index count = if not (ltb index stop) then ok count else do
  tx_size ← entry_size bytes index
  count_entries f bytes stop ((index + (tx_size + 4)) % 2 ^ 64) (count + 1)

-- `thrOff += len + 4`, for the entries of a thread
unfoldable pub skip_entries : ℕ → List ℕ → ℕ → Result ℕ
skip_entries zero bytes index = ok index
skip_entries (suc n) bytes index = do
  len ← entry_size bytes index
  skip_entries n bytes ((index + (len + 4)) % 2 ^ 64)

module _ {A : Type 0} (read : List ℕ → Result A) where
  -- `n` entries from `index` on, one after the other
  unfoldable pub read_entries : ℕ → List ℕ → ℕ → Result (List A)
  read_entries zero bytes index = ok []
  read_entries (suc n) bytes index = do
    tx_size ← entry_size bytes index
    tx_bytes ← substr bytes ((index + 4) % 2 ^ 64) tx_size
    tx ← read tx_bytes
    txs ← read_entries n bytes (((index + 4) % 2 ^ 64 + tx_size) % 2 ^ 64)
    ok (tx ∷ txs)

  -- Where each thread starts, and its number of entries: those of the last thread are not skipped.
  unfoldable pub thread_starts : List ℕ → List ℕ → ℕ → Result (List (ℕ × ℕ))
  thread_starts [] bytes index = ok []
  thread_starts (n ∷ []) bytes index = ok ((index, n) ∷ [])
  thread_starts (n ∷ (m ∷ sizes)) bytes index = do
    next ← skip_entries n bytes index
    starts ← thread_starts (m ∷ sizes) bytes next
    ok ((index, n) ∷ starts)

  -- What the threads read, in their order
  unfoldable pub collect : List (ℕ × ℕ) → List ℕ → Result (List A)
  unfolding read_entries
  collect [] bytes = ok []
  collect ((index, n) ∷ starts) bytes = do
    xs ← read_entries n bytes index
    ys ← collect starts bytes
    ok (xs ++ ys)

  -- The sizes: the remainder goes to the last thread.
  abbrev pub txs_per_thread : ℕ → ℕ → List ℕ
  txs_per_thread thr_num count =
      replicate (thr_num - 1) (count / thr_num) ++ ((count / thr_num + count % thr_num) ∷ [])

  unfoldable pub read_parallel : ℕ → ℕ → List ℕ → ℕ → Result (List A)
  unfolding thread_starts collect
  read_parallel thr_num count bytes index = do
    starts ← thread_starts (txs_per_thread thr_num count) bytes index
    collect starts bytes

  -- `thrNum <= 1 || txCount <= 2000`
  unfoldable pub read_txs : ℕ → ℕ → List ℕ → ℕ → Result (List A)
  unfolding read_entries read_parallel
  read_txs thr_num count bytes index =
      if (if leb thr_num 1 then true else leb count 2000)
      then read_entries count bytes index
      else read_parallel thr_num count bytes index

-- `catch (std::exception &e)`: what C++ leaves undefined is no exception.
unfoldable pub rethrow : {A : Type 0} → Result A → Result A
rethrow (ok a) = ok a
rethrow (err e) = elim e [ undefined ↦ err undefined | _ ↦ err runtime_error ]

module _ {Tx Validator : Type 0} (content : Content Tx Validator) where
  -- A validator's transaction, whose height is that of the block
  unfoldable pub read_validator_at : ℕ → List ℕ → Result Validator
  read_validator_at n_height bytes = do
    tx ← content.read_validator bytes
    throw_if (not (content.validator_height tx == n_height)) runtime_error
    ok tx

  -- The roots, the randomness and the signature
  unfoldable pub check_block : Block Tx Validator → Result (Block Tx Validator)
  check_block b = do
    throw_if (not (same_bytes (content.tx_root b.txs) b.tx_merkle_root)) runtime_error
    throw_if (not (same_bytes (content.validator_root b.tx_validators) b.validator_merkle_root))
        runtime_error
    throw_if (not (same_bytes (content.randomness b.tx_validators) b.block_randomness))
        runtime_error
    throw_if (not (content.verify_sig b.validator_sig)) runtime_error
    ok (record b {
      validator_pub_key = content.recover b.validator_sig (hash content b);
      finalized = true;
    })

  -- The body of `try`, where `thr_num` is `std::thread::hardware_concurrency()`
  unfoldable pub parse_block : ℕ → List ℕ → Result (Block Tx Validator)
  parse_block thr_num bytes = do
    throw_if (ltb (length bytes) 217) runtime_error
    validator_sig ← substr bytes 0 65
    prev_block_hash ← substr bytes 65 32
    block_randomness ← substr bytes 97 32
    validator_merkle_root ← substr bytes 129 32
    tx_merkle_root ← substr bytes 161 32
    timestamp ← uint64_at bytes 193
    n_height ← uint64_at bytes 201
    tx_validator_start ← uint64_at bytes 209
    tx_count ← count_entries (length bytes) bytes tx_validator_start 217 0
    val_tx_count ← count_entries (length bytes) bytes (length bytes) tx_validator_start 0
    txs ← read_txs content.read_tx thr_num tx_count bytes 217
    tx_validators ← read_entries (read_validator_at n_height) val_tx_count bytes tx_validator_start
    check_block (record {
      validator_sig = validator_sig;
      prev_block_hash = prev_block_hash;
      block_randomness = block_randomness;
      validator_merkle_root = validator_merkle_root;
      tx_merkle_root = tx_merkle_root;
      timestamp = timestamp;
      n_height = n_height;
      tx_validators = tx_validators;
      txs = txs;
      validator_pub_key = [];
      finalized = false;
    })

  -- `Block(bytes, requiredChainId)`
  unfoldable pub deserialize_block : ℕ → List ℕ → Result (Block Tx Validator)
  unfolding rethrow
  deserialize_block thr_num bytes = rethrow (parse_block thr_num bytes)
