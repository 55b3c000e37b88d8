-- ===== src/Utils/Bytes.antt =====
-- Byte strings of unsigned integers: the templates `bytesRequired`, `uintToBytes` and `fromBigEndian`
-- of utils/utils.h. A byte string is a list of numbers below 256.
pub mod Digits
pub mod RoundTrip
pub mod Fixed
pub mod Pad
pub mod Wide
pub mod Windows
use orbitersdk_cpp.Prelude.{
  ℕ, zero, suc, ◌+◌, ◌-◌, ◌*◌, ◌/◌, ◌%◌, ◌^◌, ◌≤◌, List, [], ◌∷◌, Result, ok, err, range_error,
  out_of_range, length, set, take, drop, replicate, ◌==◌, ltb, leb, if◌then◌else◌,
}

-- `for (; i != 0; ++ic, i >>= 8) {}`; the fuel `i + 1` of the callers is more than the rounds.
unfoldable pub bytes_required_loop : ℕ → ℕ → ℕ → ℕ
bytes_required_loop zero i ic = ic
bytes_required_loop (suc f) i ic =
    let rest = bytes_required_loop f (i / 256) (ic + 1) in if i == 0 then ic else rest

unfoldable pub bytes_required : ℕ → ℕ
unfolding bytes_required_loop
bytes_required i = bytes_required_loop (suc i) i 0

-- `for (; i; i >>= 8) *(b--) = (uint8_t)(i & 0xff)`: `b` is the index in `ret` that is written.
unfoldable pub uint_to_bytes_loop : ℕ → ℕ → ℕ → List ℕ → List ℕ
uint_to_bytes_loop zero i b ret = ret
uint_to_bytes_loop (suc f) i b ret =
    let rest = uint_to_bytes_loop f (i / 256) (b - 1) (set ret b (i % 256)) in
    if i == 0 then ret else rest

unfoldable pub uint_to_bytes : ℕ → List ℕ
unfolding bytes_required uint_to_bytes_loop
uint_to_bytes i = let n = bytes_required i in uint_to_bytes_loop (suc i) i (n - 1) (replicate n 0)

-- `ret = (T)((ret << 8) | byte)` at a builtin type of `w` bits. The low 8 bits of `ret << 8` are 0,
-- so that `|` is `+`, and the cast drops what is beyond `w` bits.
unfoldable pub from_big_endian_loop : ℕ → ℕ → List ℕ → ℕ
from_big_endian_loop w ret [] = ret
from_big_endian_loop w ret (byte ∷ bytes) =
    from_big_endian_loop w ((ret * 256 + byte) % 2 ^ w) bytes

unfoldable pub from_big_endian : ℕ → List ℕ → ℕ
unfolding from_big_endian_loop
from_big_endian w bytes = from_big_endian_loop w 0 bytes

-- The same at `uint256_t`, a checked integer: a shift that loses bits throws.
unfoldable pub from_big_endian_256_loop : ℕ → List ℕ → Result ℕ
from_big_endian_256_loop ret [] = ok ret
from_big_endian_256_loop ret (byte ∷ bytes) =
    let rest = from_big_endian_256_loop (ret * 256 + byte) bytes in
    if ltb (ret * 256 + byte) (2 ^ 256) then rest else err range_error

unfoldable pub from_big_endian_256 : List ℕ → Result ℕ
unfolding from_big_endian_256_loop
from_big_endian_256 bytes = from_big_endian_256_loop 0 bytes

-- `std::string_view::substr(pos, n)`.
unfoldable pub substr : List ℕ → ℕ → ℕ → Result (List ℕ)
substr bytes pos n =
    if leb pos (length bytes) then ok (take n (drop pos bytes)) else err out_of_range
