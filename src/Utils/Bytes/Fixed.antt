-- ===== src/Utils/Bytes/Fixed.antt =====
-- `uint64ToBytes`, `uint32ToBytes` and their inverses, of utils/utils.cpp, on a little-endian machine.
use mathlib.Core.List.{append-nil}
use native.Mathlib.Nat.{mod-eq_of_lt, pow-zero, pow-suc}
use orbitersdk_cpp.Prelude.{
  ℕ, zero, suc, ◌+◌, ◌*◌, ◌/◌, ◌%◌, ◌^◌, ◌<◌, ◌≤◌, ◌≡◌, refl, ap, ◌∙◌, not, List, [], ◌∷◌, ◌++◌,
  All, Result, ok, err, runtime_error, length, ◌==◌, if◌then◌else◌, arith,
}
use orbitersdk_cpp.Utils.Bytes.Digits.{pow_pos}
use orbitersdk_cpp.Utils.Bytes.{from_big_endian_loop, from_big_endian}

-- The lowest `n` bytes of `i` in memory, reversed, before `tail`
unfoldable pub reversed : ℕ → ℕ → List ℕ → List ℕ
reversed zero i tail = tail
reversed (suc n) i tail = reversed n (i / 256) ((i % 256) ∷ tail)

unfoldable pub uint64_to_bytes : ℕ → List ℕ
unfolding reversed
uint64_to_bytes i = reversed 8 i []

unfoldable pub uint32_to_bytes : ℕ → List ℕ
unfolding reversed
uint32_to_bytes i = reversed 4 i []

unfoldable pub bytes_to_uint64 : List ℕ → Result ℕ
bytes_to_uint64 b = if not (length b == 8) then err runtime_error else ok (from_big_endian 64 b)

unfoldable pub bytes_to_uint32 : List ℕ → Result ℕ
bytes_to_uint32 b = if not (length b == 4) then err runtime_error else ok (from_big_endian 32 b)

length-reversed : (n i : ℕ) (tail : List ℕ) → length (reversed n i tail) ≡ n + length tail
unfolding reversed
length-reversed zero i tail = omega arith
length-reversed (suc n) i tail = omega (arith, length-reversed n (i / 256) ((i % 256) ∷ tail))

-- Reading the lowest `n` bytes of `i` leaves `i` in the accumulator, if `i` has no more.
from_big_endian_loop-reversed :
    (w n i : ℕ) (tail : List ℕ)
    → i < 256 ^ n
    → i < 2 ^ w
    → from_big_endian_loop w 0 (reversed n i tail) ≡ from_big_endian_loop w i tail
unfolding reversed from_big_endian_loop
from_big_endian_loop-reversed w zero i tail h k =
    ap (λ j. from_big_endian_loop w j tail) (omega (arith, pow-zero 256))
from_big_endian_loop-reversed w (suc n) i tail h k =
    from_big_endian_loop-reversed w n (i / 256) ((i % 256) ∷ tail) (omega (arith, pow-suc 256 n))
      (omega arith)
    ∙ ap (λ j. from_big_endian_loop w j tail) (ap (λ j. j % 2 ^ w) (omega arith) ∙ mod-eq_of_lt k)

pub length-uint64_to_bytes : (i : ℕ) → length (uint64_to_bytes i) ≡ 8
unfolding uint64_to_bytes
length-uint64_to_bytes i = length-reversed 8 i []

pub length-uint32_to_bytes : (i : ℕ) → length (uint32_to_bytes i) ≡ 4
unfolding uint32_to_bytes
length-uint32_to_bytes i = length-reversed 4 i []

pub bytes_to_uint64-uint64_to_bytes :
    (i : ℕ) → i < 2 ^ 64 → bytes_to_uint64 (uint64_to_bytes i) ≡ ok i
unfolding bytes_to_uint64 uint64_to_bytes from_big_endian reversed
bytes_to_uint64-uint64_to_bytes i h = ap ok (from_big_endian_loop-reversed 64 8 i [] h h)

pub bytes_to_uint32-uint32_to_bytes :
    (i : ℕ) → i < 2 ^ 32 → bytes_to_uint32 (uint32_to_bytes i) ≡ ok i
unfolding bytes_to_uint32 uint32_to_bytes from_big_endian reversed
bytes_to_uint32-uint32_to_bytes i h = ap ok (from_big_endian_loop-reversed 32 4 i [] h h)

-- Writing what was read into the accumulator gives the bytes, if nothing of them was lost.
reversed-from_big_endian_loop :
    (r k : ℕ) (bytes tail : List ℕ)
    → All (λ b. b < 256) bytes
    → (r + 1) * 256 ^ length bytes ≤ 2 ^ 64
    → reversed (length bytes + k) (from_big_endian_loop 64 r bytes) tail
      ≡ reversed k r (bytes ++ tail)
unfolding reversed from_big_endian_loop
reversed-from_big_endian_loop r k [] tail small fits =
    let none_left : 0 + k ≡ k = omega arith in ap (λ n. reversed n r tail) none_left
reversed-from_big_endian_loop r k (b ∷ bytes) tail small fits =
    let p : ℕ = 256 ^ length bytes in
    let positive : 0 < p = pow_pos (length bytes) in
    let next : (r * 256 + b + 1) * p ≤ (r + 1) * (256 * p) = grind (arith, small.0) in
    let fits' : (r * 256 + b + 1) * p ≤ 2 ^ 64 =
      grind (arith, fits, next, pow-suc 256 (length bytes)) in
    let kept : (r * 256 + b) % 2 ^ 64 ≡ r * 256 + b =
      mod-eq_of_lt (grind (arith, fits', positive)) in
    let low : (r * 256 + b) % 256 ≡ b = omega (arith, small.0) in
    let high : (r * 256 + b) / 256 ≡ r = omega (arith, small.0) in
    let count : length (b ∷ bytes) + k ≡ length bytes + suc k = omega arith in
    rw (kept, count)
      (reversed-from_big_endian_loop (r * 256 + b) (suc k) bytes tail small.1 fits'
        ∙ rw (low, high) refl)

-- Eight bytes are those that their number is written with.
pub uint64_to_bytes-from_big_endian :
    (bytes : List ℕ)
    → All (λ b. b < 256) bytes
    → length bytes ≡ 8
    → uint64_to_bytes (from_big_endian 64 bytes) ≡ bytes
unfolding uint64_to_bytes from_big_endian
uint64_to_bytes-from_big_endian bytes small eight =
    let count : 8 ≡ length bytes + 0 = omega (arith, eight) in
    ap (λ n. reversed n (from_big_endian_loop 64 0 bytes) []) count
    ∙ reversed-from_big_endian_loop 0 0 bytes [] small (rw eight (omega arith))
    ∙ append-nil bytes
