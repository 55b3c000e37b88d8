-- ===== src/Utils/Tx/Block.antt =====
-- `TxBlock`: `rlpSerialize` and the constructor from bytes.
pub mod RoundTrip
use orbitersdk_cpp.Prelude.{
  ℕ, ◌+◌, ◌%◌, ◌^◌, Bool, true, false, not, Option, none, some, List, [], ◌∷◌, ◌++◌, Result, ok,
  err, runtime_error, out_of_range, ◌==◌, ltb, if◌then◌else◌,
}
use orbitersdk_cpp.Utils.Bytes.{from_big_endian, from_big_endian_256}
use orbitersdk_cpp.Utils.Rlp.{
  char, write_uint, uint_size, write_signature_uint, write_data, data_size, write_list_head, Reader,
  pure, throw_if, ◌>>=◌, ◌>>◌, read_byte, read_view, read_uint, read_signature_uint, read_data,
  read_list_head,
}
use orbitersdk_cpp.Utils.Bytes.{bytes_required}
use orbitersdk_cpp.Utils.Tx.{Secp256k1}

-- `bytes` is `data`.
pub record TxBlock : Type 0 where
  pub to : List ℕ
  pub from : List ℕ
  pub bytes : List ℕ
  pub chain_id : ℕ
  pub nonce : ℕ
  pub value : ℕ
  pub max_priority_fee_per_gas : ℕ
  pub max_fee_per_gas : ℕ
  pub gas_limit : ℕ
  pub v : ℕ
  pub r : ℕ
  pub s : ℕ

-- `total_size` before it wraps
abbrev pub payload_size : TxBlock → Bool → ℕ
payload_size tx include_sig =
    uint_size tx.chain_id
    + uint_size tx.nonce
    + uint_size tx.max_priority_fee_per_gas
    + uint_size tx.max_fee_per_gas
    + uint_size tx.gas_limit
    + (1 + 20)
    + uint_size tx.value
    + 1
    + data_size tx.bytes
    + (if include_sig then 1 + (1 + bytes_required tx.r) + (1 + bytes_required tx.s) else 0)

unfoldable pub total_size : TxBlock → Bool → ℕ
total_size tx include_sig = payload_size tx include_sig % 2 ^ 64

unfoldable pub write_v : ℕ → List ℕ
write_v v = (if v == 0 then 0x80 else char v) ∷ []

-- The signature, if it is included
unfoldable pub write_signature : TxBlock → Bool → List ℕ
unfolding write_v
write_signature tx include_sig =
    if include_sig
    then write_v tx.v ++ (write_signature_uint tx.r ++ write_signature_uint tx.s)
    else []

-- The fields of the list
unfoldable pub write_fields : TxBlock → Bool → List ℕ
write_fields tx include_sig =
    write_uint tx.chain_id
    ++ (write_uint tx.nonce
        ++ (write_uint tx.max_priority_fee_per_gas
            ++ (write_uint tx.max_fee_per_gas
                ++ (write_uint tx.gas_limit
                    ++ ((0x94 ∷ tx.to)
                        ++ (write_uint tx.value
                            ++ (write_data tx.bytes
                                ++ ((0xc0 ∷ []) ++ write_signature tx include_sig))))))))

unfoldable pub rlp_serialize : TxBlock → Bool → List ℕ
rlp_serialize tx include_sig =
    0x02 ∷ (write_list_head (total_size tx include_sig) ++ write_fields tx include_sig)

-- `Utils::fromBigEndian<uint64_t>`
abbrev pub to_uint64 : List ℕ → Result ℕ
to_uint64 bytes = ok (from_big_endian 64 bytes)

unfoldable pub read_to : Reader (List ℕ)
unfolding read_byte read_view
read_to = do b ← read_byte; throw_if (not (b == 0x94)) runtime_error; read_view 20

unfoldable pub read_access_list : Reader (Unit {0})
unfolding read_byte
read_access_list = do b ← read_byte; throw_if (not (b == 0xc0)) runtime_error

unfoldable pub read_v : Reader ℕ
unfolding read_byte
read_v = do
  b ← read_byte
  throw_if (if b == 0x80 then false else ltb 0x01 b) runtime_error
  pure (if b == 0x80 then 0 else b)

-- The fields after the head of the list; `from` is set later.
unfoldable pub read_fields : Reader TxBlock
read_fields = do
  chain_id ← read_uint to_uint64 true
  nonce ← read_uint to_uint64 true
  max_priority_fee_per_gas ← read_uint from_big_endian_256 true
  max_fee_per_gas ← read_uint from_big_endian_256 true
  gas_limit ← read_uint to_uint64 true
  to ← read_to
  value ← read_uint from_big_endian_256 true
  bytes ← read_data 0xc0
  read_access_list
  v ← read_v
  r ← read_signature_uint 0x20
  s ← read_signature_uint 0x20
  pure (record {
    to = to;
    from = [];
    bytes = bytes;
    chain_id = chain_id;
    nonce = nonce;
    value = value;
    max_priority_fee_per_gas = max_priority_fee_per_gas;
    max_fee_per_gas = max_fee_per_gas;
    gas_limit = gas_limit;
    v = v;
    r = r;
    s = s;
  })

module _ (secp : Secp256k1) (sha3 : List ℕ → List ℕ) where
  -- The check of the signature, which gives the sender.
  unfoldable pub set_from : TxBlock → Result TxBlock
  set_from tx =
      if not (secp.verify_sig tx.r tx.s tx.v)
      then err runtime_error
      else elim (secp.recover tx.r tx.s tx.v (sha3 (rlp_serialize tx false))) [
        | none ↦ err runtime_error
        | some key ↦ ok (record tx { from = secp.to_address key })
      ]

  -- What follows the reading
  unfoldable pub finish : Result (TxBlock × List ℕ) → Result TxBlock
  unfolding set_from
  finish (err e) = err e
  finish (ok (tx, rest)) = set_from tx

  -- `TxBlock(bytes, requiredChainId)`, which does not look at `requiredChainId`
  unfoldable pub deserialize : List ℕ → Result TxBlock
  deserialize [] = err out_of_range
  deserialize (b ∷ tx_data) =
      if not (b == 0x02)
      then err runtime_error
      else finish ((read_list_head >> read_fields) tx_data)
