-- ===== src/Utils/Tx/Validator/RoundTrip.antt =====
-- A TxValidator that was serialized is read back.
use mathlib.Core.List.{append_assoc, append-nil}
use orbitersdk_cpp.Prelude.{
  ℕ, ◌+◌, ◌*◌, ◌^◌, ◌≤◌, ◌<◌, ◌≡◌, ◌≢◌, refl, true, false, some, List, [], ◌++◌, ok, length,
  length-append, arith,
}
use orbitersdk_cpp.Utils.Bytes.{from_big_endian_256}
use orbitersdk_cpp.Utils.Rlp.{◌>>◌, write_uint, write_list_head, read_list_head}
use orbitersdk_cpp.Utils.Rlp.Reading.{
  Reads, Converts-64, Converts-256, read_uint-write_uint, read_signature_uint-write_signature_uint,
  IsReadable, read_data-write_data, read_list_head-write_list_head, length-write_uint,
  length-write_data, length-write_signature_uint,
}
use orbitersdk_cpp.Utils.Tx.{Secp256k1}
use orbitersdk_cpp.Utils.Tx.Block.{to_uint64}
use orbitersdk_cpp.Utils.Tx.Validator.{
  TxValidator, payload_size, total_size, write_v, write_signature, write_fields, rlp_serialize,
  chain_id_of, recovery_id, read_fields, set_from, finish, deserialize,
}

-- What the constructor reads without loss: `v` is that of EIP-155 for this recovery id.
pub record IsEncodable (tx : TxValidator) (id : ℕ) : Type 0 where
  pub n_height-small : tx.n_height < 2 ^ 64
  pub chain_id-positive : 1 ≤ tx.chain_id
  pub chain_id-small : tx.chain_id < 2 ^ 64
  pub bytes-IsReadable : IsReadable tx.bytes
  pub id-small : id ≤ 1
  pub v-id : tx.v ≡ id + (tx.chain_id * 2 + 35)
  pub r-small : tx.r < 2 ^ 256
  pub s-small : tx.s < 2 ^ 256
  pub size-big : 55 < payload_size tx true
  pub size-small : payload_size tx true < 2 ^ 64

write_v-write_uint : (n : ℕ) → n ≢ 0 → write_v n ≡ write_uint n
unfolding write_v write_uint
write_v-write_uint n h = ground arith

chain_id_of_lem :
    (tx : TxValidator) (id : ℕ) → IsEncodable tx id → chain_id_of tx.v ≡ ok tx.chain_id
unfolding chain_id_of
chain_id_of_lem tx id h = ground (arith, h.v-id, h.id-small, h.chain_id-positive, h.chain_id-small)

recovery_id_lem :
    (tx : TxValidator) (id : ℕ) → IsEncodable tx id → recovery_id tx.v tx.chain_id ≡ ok id
unfolding recovery_id
recovery_id_lem tx id h = ground (arith, h.v-id, h.id-small)

v-small : (tx : TxValidator) (id : ℕ) → IsEncodable tx id → tx.v < 2 ^ 256
v-small tx id h = rw (h.v-id) (omega (arith, h.id-small, h.chain_id-small))

v-positive : (tx : TxValidator) (id : ℕ) → IsEncodable tx id → tx.v ≢ 0
v-positive tx id h = λ e. omega (arith, h.v-id, e)

read_fields_lem :
    (tx : TxValidator) (id : ℕ)
    → IsEncodable tx id
    → Reads read_fields (write_fields tx true) (record tx { from = [] })
unfolding read_fields write_fields write_signature
read_fields_lem tx id h rest =
    simp
      (
        append_assoc,
        write_v-write_uint tx.v (v-positive tx id h),
        read_data-write_data 256 tx.bytes (omega arith) h.bytes-IsReadable,
        read_uint-write_uint to_uint64 false tx.n_height (Converts-64 tx.n_height h.n_height-small),
        read_uint-write_uint from_big_endian_256 true tx.v (Converts-256 tx.v (v-small tx id h)),
        read_signature_uint-write_signature_uint 0x37 tx.r h.r-small (omega arith),
        read_signature_uint-write_signature_uint 0x37 tx.s h.s-small (omega arith),
        chain_id_of_lem tx id h,
      )
      refl

length-write_fields :
    (tx : TxValidator) (id : ℕ)
    → IsEncodable tx id
    → length (write_fields tx true) ≡ payload_size tx true
unfolding write_fields write_signature
length-write_fields tx id h =
    simp
      (
        write_v-write_uint tx.v (v-positive tx id h),
        length-append,
        length-write_uint,
        length-write_data,
        length-write_signature_uint,
      )
      (omega arith)

-- The head and the fields are read to the end.
read_payload :
    (tx : TxValidator) (id : ℕ)
    → IsEncodable tx id
    → (read_list_head >> read_fields) (write_list_head (total_size tx true) ++ write_fields tx true)
      ≡ ok (record tx { from = [] }, [])
unfolding total_size
read_payload tx id h =
    let length-fields = length-write_fields tx id h in
    let size : total_size tx true ≡ length (write_fields tx true) =
      ground (arith, length-fields, h.size-small) in
    rw
      (
        size,
        read_list_head-write_list_head (write_fields tx true) (rw length-fields h.size-big)
            (rw length-fields h.size-small),
        ← append-nil (write_fields tx true),
      )
      (read_fields_lem tx id h [])

-- An encodable TxValidator, whose `v` is that of EIP-155 and whose signature is valid and gives back its sender, is what the constructor makes of its own serialization.
pub deserialize_validator-rlp_serialize :
    (secp : Secp256k1) (sha3 : List ℕ → List ℕ) (tx : TxValidator) (id : ℕ) (key : List ℕ)
    → IsEncodable tx id
    → secp.verify_sig tx.r tx.s id ≡ true
    → secp.recover tx.r tx.s id (sha3 (rlp_serialize tx false)) ≡ some key
    → secp.to_address key ≡ tx.from
    → deserialize secp sha3 (rlp_serialize tx true) ≡ ok tx
unfolding deserialize rlp_serialize write_fields write_signature finish set_from write_list_head
    total_size
deserialize_validator-rlp_serialize secp sha3 tx id key h verified recovered sender =
    rw (read_payload tx id h, recovery_id_lem tx id h, verified, recovered, sender) refl
