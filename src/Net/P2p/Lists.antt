-- ===== src/Net/P2p/Lists.antt =====
-- The answer that lists the transactions of validators.
use orbitersdk_cpp.Prelude.{
  ℕ, zero, suc, ◌+◌, ◌≤◌, ◌<◌, ◌≡◌, refl, All, List, [], ◌∷◌, ◌++◌, length, length-append, Result,
  ok, lt→ltb, le→ltb_false, arith,
}
use orbitersdk_cpp.Utils.Bytes.Fixed.{
  uint32_to_bytes, length-uint32_to_bytes, bytes_to_uint32-uint32_to_bytes,
}
use orbitersdk_cpp.Utils.Bytes.Windows.{Holds, Holds-all, Holds-left, Holds-right, substr-Holds}
use orbitersdk_cpp.Utils.Block.Entries.{IsEntry}
use orbitersdk_cpp.Net.P2p.{answering, id, request_validator_txs}
use orbitersdk_cpp.Net.P2p.Composed.{
  composed, compose_lem, type-composed, command-composed, message-composed, length-composed,
}
use orbitersdk_cpp.Net.P2p.Answers.{
  is_answer, txs_bytes, encode_validator_txs, read_txs, decode_validator_txs,
}

pub is_answer-composed :
    (i : List ℕ) (c : ℕ) (said : List ℕ)
    → length i ≡ 8
    → c < 7
    → is_answer c (composed answering i c said) ≡ ok tt
unfolding is_answer
is_answer-composed i c said width small =
    rw
      (
        type-composed answering i c said (omega arith),
        command-composed answering i c said width small,
      )
      (ground arith)

module _ {Tx : Type 0} (write : Tx → List ℕ) (read : List ℕ → Result Tx) where
  length-txs_bytes : (txs : List Tx) → length txs ≤ length (txs_bytes write txs)
  unfolding txs_bytes
  length-txs_bytes [] = omega arith
  length-txs_bytes (tx ∷ txs) =
      let more : List ℕ = txs_bytes write txs in
      omega (
        arith,
        length-append (uint32_to_bytes (length (write tx))) (write tx ++ more),
        length-append (write tx) more,
        length-uint32_to_bytes (length (write tx)),
        length-txs_bytes txs,
      )

  read_txs-txs_bytes :
      (txs : List Tx) (fuel : ℕ) (said : List ℕ) (at : ℕ)
      → All (IsEntry write read) txs
      → Holds said at (txs_bytes write txs)
      → at + length (txs_bytes write txs) ≡ length said
      → length txs ≤ fuel
      → read_txs read fuel said at ≡ ok txs
  unfolding read_txs txs_bytes
  read_txs-txs_bytes [] zero said at h here whole enough = refl
  read_txs-txs_bytes [] (suc fuel) said at h here whole enough =
      rw (read_txs, le→ltb_false at (length said) (omega (arith, whole))) refl
  read_txs-txs_bytes (tx ∷ txs) zero said at h here whole enough = absurd (omega (arith, enough))
  read_txs-txs_bytes (tx ∷ txs) (suc fuel) said at (entry, h) here whole enough =
      let n : ℕ = length (write tx) in
      let more : List ℕ = txs_bytes write txs in
      let size = length-uint32_to_bytes n in
      let total : at + (4 + (n + length more)) ≡ length said = omega (
        arith,
        whole,
        size,
        length-append (uint32_to_bytes n) (write tx ++ more),
        length-append (write tx) more,
      ) in
      let after = Holds-right (uint32_to_bytes n) here in
      let next : at + length (uint32_to_bytes n) + n ≡ at + 4 + n = omega (arith, size) in
      rw
        (
          read_txs,
          lt→ltb at (length said) (omega (arith, total)),
          le→ltb_false (length said) 4 (omega (arith, total)),
          substr-Holds at 4 (Holds-left (write tx ++ more) here) refl size,
          bytes_to_uint32-uint32_to_bytes n entry.small,
          le→ltb_false (length said) n (omega (arith, total)),
          substr-Holds (at + 4) n (Holds-left more after) (omega (arith, size)) refl,
          entry.back,
          read_txs-txs_bytes txs fuel said (at + 4 + n) h
              (rw next at (Holds-right (write tx) after)) (omega (arith, total))
              (omega (arith, enough)),
        )
        refl

  -- The answer to a request for the transactions of validators is decoded as the transactions that it was made of, in their order, if each is read back from what is written of it, in less than 2 ^ 32 bytes, and the id of the request has 8 bytes.
  decode_validator_txs-encode_validator_txs :
      (request i : List ℕ) (txs : List Tx)
      → All (IsEntry write read) txs
      → id request ≡ ok i
      → length i ≡ 8
      → let answer = composed answering i request_validator_txs (txs_bytes write txs) in
        (encode_validator_txs write request txs ≡ ok answer)
        × (decode_validator_txs read answer ≡ ok txs)
  unfolding encode_validator_txs decode_validator_txs
  decode_validator_txs-encode_validator_txs request i txs h asked width =
      let said : List ℕ = txs_bytes write txs in
      let enough : length txs ≤ length (composed answering i request_validator_txs said) = omega (
        arith,
        length-composed answering i request_validator_txs said width,
        length-txs_bytes txs,
      ) in
      (
        rw asked (compose_lem answering i request_validator_txs said width),
        rw
            (
              is_answer-composed i request_validator_txs said width (omega arith),
              message-composed answering i request_validator_txs said width,
            )
            (read_txs-txs_bytes txs (length (composed answering i request_validator_txs said)) said
              0 h (Holds-all said) (omega arith) enough),
      )
