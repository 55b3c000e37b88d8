-- ===== src/Utils/Rlp/Reading.antt =====
-- What the readers of the RLP encoding make of what the writers wrote.
use mathlib.Core.List.{append_assoc}
use orbitersdk_cpp.Prelude.{
  ℕ, ◌+◌, ◌^◌, ◌≤◌, ◌<◌, ◌≡◌, ◌≢◌, refl, ap, Bool, List, [], ◌∷◌, ◌++◌, Result, ok, length,
  length-append, take-append, drop-append, arith,
}
use orbitersdk_cpp.Utils.Bytes.{bytes_required, uint_to_bytes, from_big_endian, from_big_endian_256}
use orbitersdk_cpp.Utils.Bytes.Digits.{length-uint_to_bytes, bytes_required_least}
use orbitersdk_cpp.Utils.Bytes.RoundTrip.{
  from_big_endian-uint_to_bytes, from_big_endian_256-uint_to_bytes,
}
use orbitersdk_cpp.Utils.Rlp.{
  Reader, ◌>>=◌, write_uint, uint_size, write_signature_uint, write_data, data_size,
  write_list_head, read_byte, read_view, read_substr, read_uint_bytes, read_uint,
  read_signature_uint, read_long_data, read_data, read_list_head,
}

-- Whatever follows, the reader takes these bytes and gives this value.
abbrev pub Reads : {A : Type 0} → Reader A → List ℕ → A → Type 0
Reads read bytes a = (rest : List ℕ) → read (bytes ++ rest) ≡ ok (a, rest)

pub Reads-bind :
    {A B : Type 0} (read : Reader A) (next : A → Reader B) (xs ys : List ℕ) (a : A) (b : B)
    → Reads read xs a
    → Reads (next a) ys b
    → Reads (read >>= next) (xs ++ ys) b
Reads-bind read next xs ys a b first second rest =
    rw (append_assoc, first (ys ++ rest)) (second rest)

pub read_view_lem : (n : ℕ) (bytes : List ℕ) → length bytes ≡ n → Reads (read_view n) bytes bytes
unfolding read_view
read_view_lem n bytes h rest =
    ground (arith, h, length-append bytes rest, take-append bytes rest, drop-append bytes rest)

read_substr_lem : (n : ℕ) (bytes : List ℕ) → length bytes ≡ n → Reads (read_substr n) bytes bytes
unfolding read_substr
read_substr_lem n bytes h rest =
    rw (← h) (ground (arith, take-append bytes rest, drop-append bytes rest))

-- `convert` reads back an integer, and a single byte below 128.
pub record Converts (convert : List ℕ → Result ℕ) (n : ℕ) : Type 0 where
  pub back : convert (uint_to_bytes n) ≡ ok n
  pub single : n < 0x80 → convert (n ∷ []) ≡ ok n
  pub small : n < 2 ^ 256

module _ (convert : List ℕ → Result ℕ) (limit : Bool) where
  read_uint_bytes_lem :
      (n : ℕ)
      → Converts convert n
      → Reads (read_uint_bytes convert limit (bytes_required n)) (uint_to_bytes n) n
  unfolding read_uint_bytes
  read_uint_bytes_lem n c rest = ground (
    arith,
    c.back,
    bytes_required_least n 32,
    read_view_lem (bytes_required n) (uint_to_bytes n) (length-uint_to_bytes n) rest,
  )

  pub read_uint-write_uint :
      (n : ℕ) → Converts convert n → Reads (read_uint convert limit) (write_uint n) n
  unfolding read_uint read_byte write_uint
  read_uint-write_uint n c rest = ground (
    arith,
    c.single,
    bytes_required_least n 32,
    bytes_required_least n 0,
    read_uint_bytes_lem n c rest,
  )

pub Converts-64 : (n : ℕ) → n < 2 ^ 64 → Converts (λ bytes. ok (from_big_endian 64 bytes)) n
unfolding from_big_endian
Converts-64 n h = record {
  back = ap ok (from_big_endian-uint_to_bytes 64 n h);
  single = λ p. ap ok (omega arith);
  small = omega arith;
}

pub Converts-256 : (n : ℕ) → n < 2 ^ 256 → Converts from_big_endian_256 n
unfolding from_big_endian_256
Converts-256 n h = record {
  back = from_big_endian_256-uint_to_bytes n h;
  single = λ p. ground arith;
  small = h;
}

pub read_signature_uint-write_signature_uint :
    (most n : ℕ)
    → n < 2 ^ 256
    → 32 ≤ most
    → Reads (read_signature_uint most) (write_signature_uint n) n
unfolding read_signature_uint write_signature_uint read_byte
read_signature_uint-write_signature_uint most n h k rest = ground (
  arith,
  from_big_endian_256-uint_to_bytes n h,
  bytes_required_least n 32,
  read_view_lem (bytes_required n) (uint_to_bytes n) (length-uint_to_bytes n) rest,
)

-- Data of 55 bytes is written with a head that is read as that of longer data.
abbrev pub IsReadable : List ℕ → Type 0
IsReadable bytes = (length bytes ≢ 55) × (length bytes < 2 ^ 64)

read_long_data_lem :
    (bytes : List ℕ)
    → length bytes < 2 ^ 64
    → Reads
        (read_long_data (bytes_required (length bytes)))
        (uint_to_bytes (length bytes) ++ bytes)
        bytes
unfolding read_long_data
read_long_data_lem bytes h =
    let n = length bytes in
    Reads-bind (read_view (bytes_required n)) (λ size. read_substr (from_big_endian 64 size))
      (uint_to_bytes n) bytes (uint_to_bytes n) bytes
      (read_view_lem (bytes_required n) (uint_to_bytes n) (length-uint_to_bytes n))
      (rw (from_big_endian-uint_to_bytes 64 n h) (read_substr_lem n bytes refl))

pub read_data-write_data :
    (most : ℕ) (bytes : List ℕ)
    → 0xc0 ≤ most
    → IsReadable bytes
    → Reads (read_data most) (write_data bytes) bytes
unfolding read_data write_data read_byte
read_data-write_data most bytes k (odd, h) rest =
    let n = length bytes in
    let (few, many) = bytes_required_least n 8 in
    let more = bytes_required_least n 0 in
    ground (
      arith,
      few,
      more,
      take-append bytes rest,
      drop-append bytes rest,
      read_long_data_lem bytes h rest,
    )

pub read_list_head-write_list_head :
    (bytes : List ℕ)
    → 55 < length bytes
    → length bytes < 2 ^ 64
    → read_list_head (write_list_head (length bytes) ++ bytes) ≡ ok (tt, bytes)
unfolding read_list_head write_list_head read_byte
read_list_head-write_list_head bytes big small =
    let n = length bytes in
    ground (
      arith,
      bytes_required_least n 8,
      bytes_required_least n 0,
      from_big_endian-uint_to_bytes 64 n small,
      length-uint_to_bytes n,
      length-append (uint_to_bytes n) bytes,
      read_view_lem (bytes_required n) (uint_to_bytes n) (length-uint_to_bytes n) bytes,
    )

pub length-write_uint : (n : ℕ) → length (write_uint n) ≡ uint_size n
unfolding write_uint uint_size
length-write_uint n = ground (arith, length-uint_to_bytes n)

pub length-write_data : (bytes : List ℕ) → length (write_data bytes) ≡ data_size bytes
unfolding write_data data_size
length-write_data bytes =
    let n = length bytes in
    ground (arith, length-append (uint_to_bytes n) bytes, length-uint_to_bytes n)

pub length-write_signature_uint : (n : ℕ) → length (write_signature_uint n) ≡ 1 + bytes_required n
unfolding write_signature_uint
length-write_signature_uint n = ground (arith, length-uint_to_bytes n)
