-- ===== src/Utils/Bytes/Wide.antt =====
-- `uint256ToBytes`, `uint160ToBytes`, `uint16ToBytes`, `uint8ToBytes` and their inverses, of
-- utils/utils.cpp. What boost does with the bits of its integers is a parameter.
use mathlib.Core.List.{reverse, reverse_aux, reverse-reverse, append-nil}
use native.Mathlib.Nat.{zero-mod}
use orbitersdk_cpp.Prelude.{
  ℕ, zero, suc, ◌+◌, ◌-◌, ◌^◌, ◌≤◌, ◌<◌, ◌≡◌, refl, ap, sym, ◌∙◌, not, List, [], ◌∷◌, ◌++◌, Result,
  ok, err, runtime_error, length, length-append, length-replicate, replicate, set, ◌==◌,
  if◌then◌else◌, arith,
}
use orbitersdk_cpp.Utils.Bytes.{from_big_endian, from_big_endian_loop}
use orbitersdk_cpp.Utils.Bytes.Fixed.{reversed}

-- `boost::multiprecision::export_bits` and `import_bits` in chunks of 8 bits, the most significant
-- first, and `boost::lexical_cast<uint64_t>` of a 256-bit integer.
pub record Boost : Type 0 where
  pub export_bits : ℕ → List ℕ
  pub import_bits : List ℕ → ℕ
  pub lexical_cast : ℕ → Result ℕ

-- What boost documents of them: an integer is exported as its bytes with no superfluous zero in front,
-- bytes are imported as the integer that they write, and the cast succeeds where the value fits.
pub record IsBoost (boost : Boost) : Type 0 where
  pub export-length : (i k : ℕ) → 0 < k → i < 256 ^ k → length (boost.export_bits i) ≤ k
  pub export-value : (i : ℕ) → i < 2 ^ 256 → from_big_endian 256 (boost.export_bits i) ≡ i
  pub import-value : (b : List ℕ) → length b ≤ 32 → boost.import_bits b ≡ from_big_endian 256 b
  pub lexical_cast-small : (i : ℕ) → i < 2 ^ 64 → boost.lexical_cast i ≡ ok i

-- `for (unsigned i = 0; i < tmp.size(); i++) ret[n - 1 - i] = tmp[tmp.size() - i - 1]`, on `tmp`
-- backwards; `room` is `n - i`. There are never more than `n` bytes.
unfoldable pub fill_back : List ℕ → ℕ → List ℕ → List ℕ
fill_back [] room ret = ret
fill_back (byte ∷ more) zero ret = ret
fill_back (byte ∷ more) (suc room) ret = fill_back more room (set ret room byte)

module _ (boost : Boost) where
  unfoldable pub uint256_to_bytes : ℕ → List ℕ
  unfolding fill_back
  uint256_to_bytes i = fill_back (reverse (boost.export_bits i)) 32 (replicate 32 0)

  unfoldable pub bytes_to_uint256 : List ℕ → Result ℕ
  bytes_to_uint256 b = if not (length b == 32) then err runtime_error else ok (boost.import_bits b)

  unfoldable pub uint160_to_bytes : ℕ → List ℕ
  unfolding fill_back
  uint160_to_bytes i = fill_back (reverse (boost.export_bits i)) 20 (replicate 20 0)

  unfoldable pub bytes_to_uint160 : List ℕ → Result ℕ
  bytes_to_uint160 b = if not (length b == 20) then err runtime_error else ok (boost.import_bits b)

unfoldable pub uint16_to_bytes : ℕ → List ℕ
unfolding reversed
uint16_to_bytes i = reversed 2 i []

unfoldable pub bytes_to_uint16 : List ℕ → Result ℕ
bytes_to_uint16 b = if not (length b == 2) then err runtime_error else ok (from_big_endian 16 b)

unfoldable pub uint8_to_bytes : ℕ → List ℕ
unfolding reversed
uint8_to_bytes i = reversed 1 i []

unfoldable pub bytes_to_uint8 : List ℕ → Result ℕ
bytes_to_uint8 b = if not (length b == 1) then err runtime_error else ok (from_big_endian 8 b)

set-replicate :
    (n v : ℕ) (tail : List ℕ) → set (replicate (suc n) 0 ++ tail) n v ≡ replicate n 0 ++ (v ∷ tail)
set-replicate zero v tail = refl
set-replicate (suc n) v tail = ap (λ l. 0 ∷ l) (set-replicate n v tail)

-- Bytes written backwards into zeros end up in order behind the zeros that are left.
fill_back_lem :
    (more : List ℕ) (room left : ℕ) (tail : List ℕ)
    → room ≡ left + length more
    → fill_back more room (replicate room 0 ++ tail) ≡ replicate left 0 ++ reverse_aux more tail
unfolding fill_back
fill_back_lem [] room left tail h = ap (λ n. replicate n 0 ++ tail) (omega (arith, h))
fill_back_lem (byte ∷ more) zero left tail h = absurd (omega arith)
fill_back_lem (byte ∷ more) (suc room) left tail h =
    rw (set-replicate room byte tail) (fill_back_lem more room left (byte ∷ tail) (omega arith))

length-reverse_aux : (xs ys : List ℕ) → length (reverse_aux xs ys) ≡ length xs + length ys
length-reverse_aux [] ys = omega arith
length-reverse_aux (x ∷ xs) ys = omega (arith, length-reverse_aux xs (x ∷ ys))

fill_back-reverse :
    (bytes : List ℕ) (width left : ℕ)
    → width ≡ left + length bytes
    → fill_back (reverse bytes) width (replicate width 0) ≡ replicate left 0 ++ bytes
fill_back-reverse bytes width left h =
    ap (fill_back (reverse bytes) width) (sym (append-nil (replicate {A = ℕ} width 0)))
    ∙ fill_back_lem (reverse bytes) width left [] (h ∙ omega (arith, length-reverse_aux bytes []))
    ∙ ap (λ l. replicate left 0 ++ l) (reverse-reverse bytes)

pub from_big_endian_zeros :
    (w n : ℕ) (b : List ℕ) → from_big_endian w (replicate n 0 ++ b) ≡ from_big_endian w b
unfolding from_big_endian from_big_endian_loop
from_big_endian_zeros w zero b = refl
from_big_endian_zeros w (suc n) b =
    ap (λ x. from_big_endian_loop w x (replicate n 0 ++ b)) (zero-mod (2 ^ w))
    ∙ from_big_endian_zeros w n b

module _ (boost : Boost) (laws : IsBoost boost) (i : ℕ) (small : i < 2 ^ 256) where
  uint256_to_bytes_lem :
      uint256_to_bytes boost i
      ≡ replicate (32 - length (boost.export_bits i)) 0 ++ boost.export_bits i
  unfolding uint256_to_bytes
  uint256_to_bytes_lem =
      fill_back-reverse (boost.export_bits i) 32 (32 - length (boost.export_bits i))
        (omega (arith, laws.export-length i 32 (omega arith) small))

  pub length-uint256_to_bytes : length (uint256_to_bytes boost i) ≡ 32
  length-uint256_to_bytes = rw uint256_to_bytes_lem (
      omega (
        arith,
        laws.export-length i 32 (omega arith) small,
        length-append (replicate (32 - length (boost.export_bits i)) 0) (boost.export_bits i),
        length-replicate {A = ℕ} (32 - length (boost.export_bits i)) 0,
      ))

  -- The 32 bytes of a 256-bit integer are read back as that integer.
  pub bytes_to_uint256-uint256_to_bytes : bytes_to_uint256 boost (uint256_to_bytes boost i) ≡ ok i
  unfolding bytes_to_uint256
  bytes_to_uint256-uint256_to_bytes =
      let zeros : ℕ = 32 - length (boost.export_bits i) in
      rw length-uint256_to_bytes (
        ap ok (
          laws.import-value (uint256_to_bytes boost i) (omega (arith, length-uint256_to_bytes))
          ∙ ap (from_big_endian 256) uint256_to_bytes_lem
          ∙ from_big_endian_zeros 256 zeros (boost.export_bits i)
          ∙ laws.export-value i small))
