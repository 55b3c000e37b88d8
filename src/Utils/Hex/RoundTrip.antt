-- ===== src/Utils/Hex/RoundTrip.antt =====
-- Bytes as hexadecimal digits, and back.
use orbitersdk_cpp.Prelude.{
  ℕ, suc, ◌/◌, ◌%◌, ◌<◌, ◌≡◌, ◌≢◌, refl, ap, Bool, true, false, List, [], ◌∷◌, all, All, length, ok,
  err, runtime_error, ◌==◌, arith,
}
use orbitersdk_cpp.Prelude.Throw.{◌>>=◌}
use orbitersdk_cpp.Utils.Hex.{
  char_0, char_x, char_X, in_filter, to_int, has_prefix, is_valid, normalized, make_hex, digit,
  hex_digits, filled, from_bytes, parse_pairs, parse_digits, to_bytes, bytes_of,
}

in_filter-digit : (n : ℕ) → n < 16 → in_filter (digit n) ≡ true
unfolding in_filter digit
in_filter-digit n h = ground arith

to_int-digit : (n : ℕ) → n < 16 → to_int (digit n) ≡ n
unfolding to_int digit
to_int-digit n h = ground arith

all-hex_digits : (bytes : List ℕ) → all in_filter (hex_digits bytes) ≡ true
unfolding hex_digits
all-hex_digits [] = refl
all-hex_digits (b ∷ bytes) =
    rw (in_filter-digit (b / 16 % 16) (omega arith), in_filter-digit (b % 16) (omega arith))
      (all-hex_digits bytes)

length-hex_digits : (bytes : List ℕ) → length (hex_digits bytes) % 2 ≡ 0
unfolding hex_digits
length-hex_digits [] = refl
length-hex_digits (b ∷ bytes) = omega (arith, length-hex_digits bytes)

parse_pairs-hex_digits :
    (bytes : List ℕ) → All (λ b. b < 256) bytes → parse_pairs (hex_digits bytes) ≡ ok bytes
unfolding parse_pairs hex_digits
parse_pairs-hex_digits [] h = refl
parse_pairs-hex_digits (b ∷ bytes) h =
    rw
      (
        parse_pairs-hex_digits bytes h.1,
        to_int-digit (b / 16 % 16) (omega arith),
        to_int-digit (b % 16) (omega arith),
      )
      (ap (λ n. ok (n ∷ bytes)) (omega (arith, h.0)))

parse_digits-hex_digits :
    (bytes : List ℕ) → All (λ b. b < 256) bytes → parse_digits false (hex_digits bytes) ≡ ok bytes
unfolding parse_digits hex_digits
parse_digits-hex_digits [] h = refl
parse_digits-hex_digits (b ∷ bytes) h = parse_pairs-hex_digits (b ∷ bytes) h

even_digits : (bytes : List ℕ) → (length (hex_digits bytes) % 2 == 1) ≡ false
even_digits bytes = ground (arith, length-hex_digits bytes)

even_prefixed : (bytes : List ℕ) → (suc (suc (length (hex_digits bytes))) % 2 == 1) ≡ false
even_prefixed bytes = ground (arith, length-hex_digits bytes)

-- The digits of a byte are no prefix.
has_prefix-hex_digits : (b : ℕ) (bytes : List ℕ) → has_prefix (hex_digits (b ∷ bytes)) ≡ false
unfolding has_prefix hex_digits digit
has_prefix-hex_digits b bytes = ground arith

from_bytes-strict :
    (bytes : List ℕ) → from_bytes bytes true ≡ ok (char_0 ∷ (char_x ∷ hex_digits bytes))
unfolding from_bytes make_hex filled normalized is_valid has_prefix hex_digits
from_bytes-strict [] = refl
from_bytes-strict (b ∷ bytes) = rw (all-hex_digits (b ∷ bytes)) (ground arith)

from_bytes-plain :
    (b : ℕ) (bytes : List ℕ) → from_bytes (b ∷ bytes) false ≡ ok (hex_digits (b ∷ bytes))
unfolding from_bytes make_hex filled normalized is_valid
from_bytes-plain b bytes = rw (has_prefix-hex_digits b bytes, all-hex_digits (b ∷ bytes)) refl

-- Bytes that `fromBytes` wrote, of which there is at least one, are what `toBytes` and `bytes` read back, with the prefix and without.
to_bytes-from_bytes :
    (bytes : List ℕ) (strict : Bool)
    → All (λ b. b < 256) bytes
    → length bytes ≢ 0
    → ((from_bytes bytes strict >>= to_bytes) ≡ ok bytes)
      × ((from_bytes bytes strict >>= λ hex. bytes_of hex strict) ≡ ok bytes)
unfolding to_bytes bytes_of has_prefix hex_digits
to_bytes-from_bytes [] strict h k = absurd (k refl)
to_bytes-from_bytes (b ∷ bytes) true h k =
    rw (from_bytes-strict (b ∷ bytes), all-hex_digits (b ∷ bytes), even_prefixed (b ∷ bytes))
      (parse_digits-hex_digits (b ∷ bytes) h, parse_digits-hex_digits (b ∷ bytes) h)
to_bytes-from_bytes (b ∷ bytes) false h k =
    rw
      (
        from_bytes-plain b bytes,
        has_prefix-hex_digits b bytes,
        all-hex_digits (b ∷ bytes),
        even_digits (b ∷ bytes),
      )
      (parse_digits-hex_digits (b ∷ bytes) h, parse_digits-hex_digits (b ∷ bytes) h)

-- In strict mode a string that starts with '0' and has no 'x' after it gets no prefix, and is refused, though all of its characters be hexadecimal digits.
pub make_hex_leading_zero :
    (c : ℕ) (hex : List ℕ)
    → c ≢ char_x
    → c ≢ char_X
    → make_hex (char_0 ∷ (c ∷ hex)) true ≡ err runtime_error
unfolding make_hex normalized is_valid has_prefix
make_hex_leading_zero c hex h k = ground (arith, h, k)
