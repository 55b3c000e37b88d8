-- ===== src/Utils/Tx/Block/RoundTrip.antt =====
-- A TxBlock that was serialized is read back.
use mathlib.Core.List.{append_assoc, append-nil}
use orbitersdk_cpp.Prelude.{
  ℕ, ◌^◌, ◌≤◌, ◌<◌, ◌≡◌, refl, true, false, some, List, [], ◌∷◌, ◌++◌, ok, length, length-append,
  arith,
}
use orbitersdk_cpp.Utils.Bytes.{from_big_endian_256}
use orbitersdk_cpp.Utils.Rlp.{◌>>◌, write_list_head, read_byte, read_list_head}
use orbitersdk_cpp.Utils.Rlp.Reading.{
  Reads, read_view_lem, Converts-64, Converts-256, read_uint-write_uint,
  read_signature_uint-write_signature_uint, IsReadable, read_data-write_data,
  read_list_head-write_list_head, length-write_uint, length-write_data, length-write_signature_uint,
}
use orbitersdk_cpp.Utils.Tx.{Secp256k1}
use orbitersdk_cpp.Utils.Tx.Block.{
  TxBlock, payload_size, total_size, write_v, write_signature, write_fields, rlp_serialize,
  to_uint64, read_to, read_access_list, read_v, read_fields, set_from, finish, deserialize,
}

-- What the constructor reads without loss
pub record IsEncodable (tx : TxBlock) : Type 0 where
  pub chain_id-small : tx.chain_id < 2 ^ 64
  pub nonce-small : tx.nonce < 2 ^ 64
  pub gas_limit-small : tx.gas_limit < 2 ^ 64
  pub value-small : tx.value < 2 ^ 256
  pub priority-small : tx.max_priority_fee_per_gas < 2 ^ 256
  pub fee-small : tx.max_fee_per_gas < 2 ^ 256
  pub to-length : length tx.to ≡ 20
  pub bytes-IsReadable : IsReadable tx.bytes
  pub v-small : tx.v ≤ 1
  pub r-small : tx.r < 2 ^ 256
  pub s-small : tx.s < 2 ^ 256
  pub size-big : 55 < payload_size tx true
  pub size-small : payload_size tx true < 2 ^ 64

read_to_lem : (to : List ℕ) → length to ≡ 20 → Reads read_to (0x94 ∷ to) to
unfolding read_to read_byte
read_to_lem to h rest = read_view_lem 20 to h rest

read_access_list_lem : Reads read_access_list (0xc0 ∷ []) tt
unfolding read_access_list read_byte
read_access_list_lem rest = refl

read_v-write_v : (v : ℕ) → v ≤ 1 → Reads read_v (write_v v) v
unfolding read_v write_v read_byte
read_v-write_v v h rest = ground arith

read_fields_lem :
    (tx : TxBlock)
    → IsEncodable tx
    → Reads read_fields (write_fields tx true) (record tx { from = [] })
unfolding read_fields write_fields write_signature
read_fields_lem tx h rest =
    simp
      (
        append_assoc,
        read_uint-write_uint to_uint64 true tx.chain_id (Converts-64 tx.chain_id h.chain_id-small),
        read_uint-write_uint to_uint64 true tx.nonce (Converts-64 tx.nonce h.nonce-small),
        read_uint-write_uint from_big_endian_256 true tx.max_priority_fee_per_gas
            (Converts-256 tx.max_priority_fee_per_gas h.priority-small),
        read_uint-write_uint from_big_endian_256 true tx.max_fee_per_gas
            (Converts-256 tx.max_fee_per_gas h.fee-small),
        read_uint-write_uint to_uint64 true tx.gas_limit
            (Converts-64 tx.gas_limit h.gas_limit-small),
        read_to_lem tx.to h.to-length,
        read_uint-write_uint from_big_endian_256 true tx.value
            (Converts-256 tx.value h.value-small),
        read_data-write_data 0xc0 tx.bytes (omega arith) h.bytes-IsReadable,
        read_access_list_lem,
        read_v-write_v tx.v h.v-small,
        read_signature_uint-write_signature_uint 0x20 tx.r h.r-small (omega arith),
        read_signature_uint-write_signature_uint 0x20 tx.s h.s-small (omega arith),
      )
      refl

length-write_fields :
    (tx : TxBlock) → length tx.to ≡ 20 → length (write_fields tx true) ≡ payload_size tx true
unfolding write_fields write_signature write_v
length-write_fields tx h =
    simp (length-append, length-write_uint, length-write_data, length-write_signature_uint)
      (omega arith)

-- The head and the fields are read to the end.
read_payload :
    (tx : TxBlock)
    → IsEncodable tx
    → (read_list_head >> read_fields) (write_list_head (total_size tx true) ++ write_fields tx true)
      ≡ ok (record tx { from = [] }, [])
unfolding total_size
read_payload tx h =
    let size : total_size tx true ≡ length (write_fields tx true) =
      ground (arith, length-write_fields tx h.to-length, h.size-small) in
    rw
      (
        size,
        read_list_head-write_list_head (write_fields tx true)
            (rw (length-write_fields tx h.to-length) h.size-big)
            (rw (length-write_fields tx h.to-length) h.size-small),
        ← append-nil (write_fields tx true),
      )
      (read_fields_lem tx h [])

-- An encodable TxBlock with a signature that is valid and gives back its sender is what the constructor makes of its own serialization.
pub deserialize-rlp_serialize :
    (secp : Secp256k1) (sha3 : List ℕ → List ℕ) (tx : TxBlock) (key : List ℕ)
    → IsEncodable tx
    → secp.verify_sig tx.r tx.s tx.v ≡ true
    → secp.recover tx.r tx.s tx.v (sha3 (rlp_serialize tx false)) ≡ some key
    → secp.to_address key ≡ tx.from
    → deserialize secp sha3 (rlp_serialize tx true) ≡ ok tx
unfolding deserialize rlp_serialize write_fields write_signature finish set_from write_list_head
    total_size
deserialize-rlp_serialize secp sha3 tx key h verified recovered sender =
    rw (read_payload tx h, verified, recovered, sender) refl
