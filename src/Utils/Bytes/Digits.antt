-- ===== src/Utils/Bytes/Digits.antt =====
-- The loops of `bytesRequired`, `uintToBytes` and `fromBigEndian` against the base-256 digits.
use orbitersdk_cpp.Prelude.{
  ℕ, zero, suc, ◌+◌, ◌-◌, ◌*◌, ◌/◌, ◌%◌, ◌^◌, ◌≤◌, ◌<◌, ◌≡◌, refl, List, [], ◌∷◌, ◌++◌, ap, arith,
  inl, inr, length, set, replicate, ◌==◌, if◌then◌else◌, Bool-cases, lt→ltb, ◌∙◌,
}
use mathlib.Core.List.{append-nil}
use native.Mathlib.Nat.{mod-eq_of_lt, pow-zero, pow-suc}
use orbitersdk_cpp.Utils.Bytes.{
  bytes_required, bytes_required_loop, uint_to_bytes, uint_to_bytes_loop, from_big_endian_loop,
  from_big_endian_256_loop,
}

-- The big-endian digits of `i` in base 256 before `tail`; the fuel is more than `i`.
pub digits : ℕ → ℕ → List ℕ → List ℕ
digits zero i tail = tail
digits (suc f) i tail =
    let rest = digits f (i / 256) ((i % 256) ∷ tail) in if i == 0 then tail else rest

pub digit_count : ℕ → ℕ → ℕ
digit_count zero i = 0
digit_count (suc f) i = let rest = digit_count f (i / 256) in if i == 0 then 0 else suc rest

bytes_required_loop_count : (f i ic : ℕ) → bytes_required_loop f i ic ≡ ic + digit_count f i
unfolding bytes_required_loop digit_count
bytes_required_loop_count zero i ic = omega arith
bytes_required_loop_count (suc f) i ic =
    ground (arith, bytes_required_loop_count f (i / 256) (ic + 1))

length-digits : (f i : ℕ) (tail : List ℕ) → length (digits f i tail) ≡ digit_count f i + length tail
unfolding digits digit_count
length-digits zero i tail = omega arith
length-digits (suc f) i tail = ground (arith, length-digits f (i / 256) ((i % 256) ∷ tail))

set-replicate :
    (n v : ℕ) (tail : List ℕ) → set (replicate (suc n) 0 ++ tail) n v ≡ replicate n 0 ++ (v ∷ tail)
set-replicate zero v tail = refl
set-replicate (suc n) v tail = ap (λ l. 0 ∷ l) (set-replicate n v tail)

suc-sub-one : (n : ℕ) → suc n - 1 ≡ n
suc-sub-one n = omega arith

-- Writing from the back fills exactly the bytes that were made room for.
uint_to_bytes_loop-digits :
    (f i : ℕ) (tail : List ℕ)
    → i < f
    → uint_to_bytes_loop f i (digit_count f i - 1) (replicate (digit_count f i) 0 ++ tail)
      ≡ digits f i tail
unfolding uint_to_bytes_loop digits digit_count
uint_to_bytes_loop-digits zero i tail h = elim h [ ]
uint_to_bytes_loop-digits (suc f) i tail h = elim (Bool-cases (i == 0)) [
  | inl e ↦ rw e
  | inr e ↦
      rw (e, suc-sub-one, set-replicate)
        (uint_to_bytes_loop-digits f (i / 256) ((i % 256) ∷ tail) (ground arith))
]

digits-append : (f i : ℕ) (xs ys : List ℕ) → digits f i xs ++ ys ≡ digits f i (xs ++ ys)
unfolding digits
digits-append zero i xs ys = refl
digits-append (suc f) i xs ys = ground (arith, digits-append f (i / 256) ((i % 256) ∷ xs) ys)

byte_shifted_in : (w i : ℕ) → i < 2 ^ w → (i / 256 * 256 + i % 256) % 2 ^ w ≡ i
byte_shifted_in w i h = ap (λ n. n % 2 ^ w) (omega arith) ∙ mod-eq_of_lt h

-- Reading the digits of `i` leaves `i` in the accumulator.
pub from_big_endian_loop-digits :
    (w f i : ℕ) (tail : List ℕ)
    → i < f
    → i < 2 ^ w
    → from_big_endian_loop w 0 (digits f i tail) ≡ from_big_endian_loop w i tail
unfolding digits from_big_endian_loop
from_big_endian_loop-digits w zero i tail h k = elim h [ ]
from_big_endian_loop-digits w (suc f) i tail h k = elim (Bool-cases (i == 0)) [
  | inl e ↦ rw e (ap (λ k. from_big_endian_loop w k tail) (ground arith))
  | inr e ↦ rw e (
      from_big_endian_loop-digits w f (i / 256) ((i % 256) ∷ tail) (ground arith) (omega arith)
      ∙ ap (λ k. from_big_endian_loop w k tail) (byte_shifted_in w i k))
]

from_big_endian_256_step :
    (i : ℕ) (tail : List ℕ)
    → i < 2 ^ 256
    → from_big_endian_256_loop (i / 256) ((i % 256) ∷ tail) ≡ from_big_endian_256_loop i tail
unfolding from_big_endian_256_loop
from_big_endian_256_step i tail h =
    let regroup : i / 256 * 256 + i % 256 ≡ i = omega arith in rw (regroup, lt→ltb _ _ h)

-- The same at `uint256_t`: no shift throws.
pub from_big_endian_256_loop-digits :
    (f i : ℕ) (tail : List ℕ)
    → i < f
    → i < 2 ^ 256
    → from_big_endian_256_loop 0 (digits f i tail) ≡ from_big_endian_256_loop i tail
unfolding digits from_big_endian_256_loop
from_big_endian_256_loop-digits zero i tail h k = elim h [ ]
from_big_endian_256_loop-digits (suc f) i tail h k = elim (Bool-cases (i == 0)) [
  | inl e ↦ rw e (ap (λ k. from_big_endian_256_loop k tail) (ground arith))
  | inr e ↦ rw e (
      from_big_endian_256_loop-digits f (i / 256) ((i % 256) ∷ tail) (ground arith) (omega arith)
      ∙ from_big_endian_256_step i tail k)
]

pub bytes_required-eq-digit_count : (i : ℕ) → bytes_required i ≡ digit_count (suc i) i
unfolding bytes_required
bytes_required-eq-digit_count i = omega (arith, bytes_required_loop_count (suc i) i 0)

written_digits :
    (i n : ℕ)
    → n ≡ digit_count (suc i) i
    → uint_to_bytes_loop (suc i) i (n - 1) (replicate n 0) ≡ digits (suc i) i []
written_digits i n h =
    rw (h, ← append-nil (replicate {A = ℕ} (digit_count (suc i) i) 0))
      (uint_to_bytes_loop-digits (suc i) i [] (omega arith))

-- `uintToBytes` gives the base-256 digits, the most significant first.
pub uint_to_bytes-eq-digits : (i : ℕ) → uint_to_bytes i ≡ digits (suc i) i []
unfolding uint_to_bytes
uint_to_bytes-eq-digits i = written_digits i (bytes_required i) (bytes_required-eq-digit_count i)

pub length-uint_to_bytes : (i : ℕ) → length (uint_to_bytes i) ≡ bytes_required i
length-uint_to_bytes i =
    rw (uint_to_bytes-eq-digits, bytes_required-eq-digit_count)
      (omega (arith, length-digits (suc i) i []))

digit_count-le : (k f i : ℕ) → i < 256 ^ k → digit_count f i ≤ k
unfolding digit_count
digit_count-le k zero i h = omega arith
digit_count-le zero (suc f) i h = ground (arith, pow-zero 256)
digit_count-le (suc k) (suc f) i h = ground (arith, pow-suc 256 k, digit_count-le k f (i / 256))

pub pow_pos : (k : ℕ) → 0 < 256 ^ k
pow_pos zero = omega arith
pow_pos (suc k) = omega (arith, pow-suc 256 k, pow_pos k)

digit_count-gt : (k f i : ℕ) → i < f → 256 ^ k ≤ i → k < digit_count f i
unfolding digit_count
digit_count-gt k zero i h p = elim h [ ]
digit_count-gt zero (suc f) i h p = ground arith
digit_count-gt (suc k) (suc f) i h p =
    ground (arith, pow-suc 256 k, pow_pos k, digit_count-gt k f (i / 256))

-- `bytesRequired` is the least number of bytes that hold the integer.
pub bytes_required_least :
    (i k : ℕ) → (i < 256 ^ k → bytes_required i ≤ k) × (256 ^ k ≤ i → k < bytes_required i)
bytes_required_least i k = (
  λ h. rw bytes_required-eq-digit_count (digit_count-le k (suc i) i h),
  λ h. rw bytes_required-eq-digit_count (digit_count-gt k (suc i) i (omega arith) h),
)

pub uint_to_bytes_single : (k : ℕ) → 0 < k → k < 256 → uint_to_bytes k ≡ k ∷ []
unfolding digits
uint_to_bytes_single zero p h = elim p [ ]
uint_to_bytes_single (suc j) p h = rw uint_to_bytes-eq-digits (ground arith)
