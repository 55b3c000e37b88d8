-- ===== src/Utils/Bytes/RoundTrip.antt =====
-- What `fromBigEndian` reads back from the bytes that `uintToBytes` writes.
use orbitersdk_cpp.Prelude.{ℕ, suc, ◌^◌, ◌<◌, leb, ltb, ◌≡◌, [], arith, ok, length}
use orbitersdk_cpp.Utils.Bytes.{uint_to_bytes, from_big_endian, from_big_endian_256}
use orbitersdk_cpp.Utils.Bytes.Digits.{
  from_big_endian_loop-digits, from_big_endian_256_loop-digits, uint_to_bytes-eq-digits,
  length-uint_to_bytes, bytes_required_least,
}

-- For an integer of at most `w` bits, `fromBigEndian` at a builtin type of `w` bits gives back what
-- `uintToBytes` wrote.
pub from_big_endian-uint_to_bytes : (w i : ℕ) → i < 2 ^ w → from_big_endian w (uint_to_bytes i) ≡ i
unfolding from_big_endian
from_big_endian-uint_to_bytes w i h =
    rw uint_to_bytes-eq-digits (from_big_endian_loop-digits w (suc i) i [] (omega arith) h)

-- For an integer of at most 256 bits, `fromBigEndian<uint256_t>` gives back what `uintToBytes` wrote
-- and does not throw.
pub from_big_endian_256-uint_to_bytes :
    (i : ℕ) → i < 2 ^ 256 → from_big_endian_256 (uint_to_bytes i) ≡ ok i
unfolding from_big_endian_256
from_big_endian_256-uint_to_bytes i h =
    rw uint_to_bytes-eq-digits (from_big_endian_256_loop-digits (suc i) i [] (omega arith) h)

-- `uintToBytes` writes the least number of bytes that can hold the integer: `k` bytes are enough exactly
-- if the integer is below 256 ^ k.
length-uint_to_bytes_least : (i k : ℕ) → leb (length (uint_to_bytes i)) k ≡ ltb i (256 ^ k)
length-uint_to_bytes_least i k =
    let (few, many) = bytes_required_least i k in
    rw length-uint_to_bytes (ground (arith, few, many))
