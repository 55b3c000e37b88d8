-- ===== src/Utils/Tx/Validator.antt =====
-- `TxValidator`: `rlpSerialize` and the constructor from bytes.
pub mod RoundTrip
use orbitersdk_cpp.Prelude.{
  ℕ, ◌+◌, ◌*◌, ◌-◌, ◌/◌, ◌%◌, ◌^◌, Bool, true, false, not, Option, none, some, List, [], ◌∷◌, ◌++◌,
  Result, ok, err, runtime_error, range_error, undefined, ◌==◌, ltb, leb, if◌then◌else◌,
}
use orbitersdk_cpp.Utils.Bytes.{bytes_required, uint_to_bytes, from_big_endian_256}
use orbitersdk_cpp.Utils.Rlp.{
  char, write_uint, uint_size, write_signature_uint, write_data, data_size, write_list_head, Reader,
  pure, lift, ◌>>=◌, ◌>>◌, read_uint, read_signature_uint, read_data, read_list_head,
}
use orbitersdk_cpp.Utils.Tx.{Secp256k1}
use orbitersdk_cpp.Utils.Tx.Block.{to_uint64}

-- `bytes` is `data`.
pub record TxValidator : Type 0 where
  pub from : List ℕ
  pub bytes : List ℕ
  pub n_height : ℕ
  pub chain_id : ℕ
  pub v : ℕ
  pub r : ℕ
  pub s : ℕ

-- `v` with the signature, and the chain's id without
abbrev pub v_field : TxValidator → Bool → ℕ
v_field tx include_sig = if include_sig then tx.v else tx.chain_id

-- `total_size` before it wraps
abbrev pub payload_size : TxValidator → Bool → ℕ
payload_size tx include_sig =
    data_size tx.bytes
    + uint_size tx.n_height
    + uint_size (v_field tx include_sig)
    + (if include_sig then 1 + bytes_required tx.r else 1)
    + (if include_sig then 1 + bytes_required tx.s else 1)

unfoldable pub total_size : TxValidator → Bool → ℕ
total_size tx include_sig = payload_size tx include_sig % 2 ^ 64

-- Unlike the other integers, a zero is the byte zero.
unfoldable pub write_v : ℕ → List ℕ
write_v n = if ltb n 0x80 then char n ∷ [] else char (bytes_required n + 0x80) ∷ uint_to_bytes n

unfoldable pub write_signature : TxValidator → Bool → List ℕ
write_signature tx include_sig =
    if include_sig
    then write_signature_uint tx.r ++ write_signature_uint tx.s
    else 0x80 ∷ (0x80 ∷ [])

-- The fields of the list
unfoldable pub write_fields : TxValidator → Bool → List ℕ
unfolding write_v
write_fields tx include_sig =
    write_data tx.bytes
    ++ (write_uint tx.n_height
        ++ (write_v (v_field tx include_sig) ++ write_signature tx include_sig))

unfoldable pub rlp_serialize : TxValidator → Bool → List ℕ
rlp_serialize tx include_sig =
    write_list_head (total_size tx include_sig) ++ write_fields tx include_sig

-- The chain's id that `v` gives: for 27 and 28 none is stored, and the constructor reads it all the same.
unfoldable pub chain_id_of : ℕ → Result ℕ
chain_id_of v =
    if ltb 36 v
    then (if ltb ((v - 35) / 2) (2 ^ 64) then ok ((v - 35) / 2) else err range_error)
    else if v == 27
    then err undefined
    else if v == 28
    then err undefined
    else err runtime_error

-- `v - (chainId * 2 + 35)` in checked arithmetic, and its conversion to a byte
unfoldable pub recovery_id : ℕ → ℕ → Result ℕ
recovery_id v chain_id =
    if ltb v (chain_id * 2 + 35)
    then err range_error
    else if ltb (v - (chain_id * 2 + 35)) 256
    then ok (v - (chain_id * 2 + 35))
    else err range_error

-- The fields after the head of the list; `from` is set later.
unfoldable pub read_fields : Reader TxValidator
read_fields = do
  bytes ← read_data 256
  n_height ← read_uint to_uint64 false
  v ← read_uint from_big_endian_256 true
  r ← read_signature_uint 0x37
  s ← read_signature_uint 0x37
  chain_id ← lift (chain_id_of v)
  pure (record {
    from = [];
    bytes = bytes;
    n_height = n_height;
    chain_id = chain_id;
    v = v;
    r = r;
    s = s;
  })

module _ (secp : Secp256k1) (sha3 : List ℕ → List ℕ) where
  -- The check of the signature with this recovery id, which gives the sender.
  unfoldable pub set_from : TxValidator → Result ℕ → Result TxValidator
  set_from tx (err e) = err e
  set_from tx (ok id) =
      if not (secp.verify_sig tx.r tx.s id)
      then err runtime_error
      else elim (secp.recover tx.r tx.s id (sha3 (rlp_serialize tx false))) [
        | none ↦ err runtime_error
        | some key ↦ ok (record tx { from = secp.to_address key })
      ]

  -- What follows the reading
  unfoldable pub finish : Result (TxValidator × List ℕ) → Result TxValidator
  unfolding set_from
  finish (err e) = err e
  finish (ok (tx, rest)) = set_from tx (recovery_id tx.v tx.chain_id)

  -- `TxValidator(bytes, requiredChainId)`, which does not look at `requiredChainId`
  unfoldable pub deserialize : List ℕ → Result TxValidator
  unfolding finish
  deserialize bytes = finish ((read_list_head >> read_fields) bytes)
