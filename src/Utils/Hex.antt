-- ===== src/Utils/Hex.antt =====
-- `Hex` of utils/hex.h and utils/hex.cpp. A string is the list of its characters' codes.
pub mod RoundTrip
use orbitersdk_cpp.Prelude.{
  ℕ, zero, suc, ◌+◌, ◌-◌, ◌*◌, ◌/◌, ◌%◌, ◌≤◌, Bool, true, false, not, ◌&&◌, ◌||◌, List, [], ◌∷◌,
  ◌++◌, all, length, drop, Result, ok, err, runtime_error, undefined, ◌==◌, ltb, leb, if◌then◌else◌,
}

-- '0', 'x' and 'X'
abbrev pub char_0 : ℕ
char_0 = 48

abbrev pub char_x : ℕ
char_x = 120

abbrev pub char_X : ℕ
char_X = 88

-- From the first of the two characters to the second
abbrev pub within : ℕ → ℕ → ℕ → Bool
within low high c = leb low c && leb c high

-- What `filter` holds: the digits, 'a' to 'f', and 'A' to 'F'
unfoldable pub in_filter : ℕ → Bool
in_filter c = within 48 57 c || (within 97 102 c || within 65 70 c)

-- `toInt`, modulo 256, which is all that its callers keep: -1 is 255.
unfoldable pub to_int : ℕ → ℕ
to_int c =
    if within 48 57 c
    then c - 48
    else if within 97 102 c
    then c - 97 + 10
    else if within 65 70 c
    then c - 65 + 10
    else 255

-- The string starts with "0x" or "0X".
unfoldable pub has_prefix : List ℕ → Bool
has_prefix [] = false
has_prefix (a ∷ []) = false
has_prefix (a ∷ (b ∷ hex)) = (a == char_0) && ((b == char_x) || (b == char_X))

unfoldable pub is_valid : List ℕ → Bool → Bool
unfolding has_prefix in_filter
is_valid hex strict =
    if strict
    then (if not (has_prefix hex) then false else all in_filter (drop 2 hex))
    else all in_filter hex

-- The string starts with '0'.
abbrev pub starts_with_0 : List ℕ → Bool
starts_with_0 [] = false
starts_with_0 (a ∷ hex) = a == char_0

-- What the constructor makes of the string before the check. Every character differs from 'x' or from 'X', so that
-- in strict mode only the first one matters.
unfoldable pub normalized : List ℕ → Bool → List ℕ
unfolding has_prefix
normalized hex strict =
    if strict
    then (if not (starts_with_0 hex) then char_0 ∷ (char_x ∷ hex) else hex)
    else if has_prefix hex
    then drop 2 hex
    else hex

-- The constructors: the string that is kept. In strict mode the second character of an empty string is read.
unfoldable pub make_hex : List ℕ → Bool → Result (List ℕ)
unfolding normalized is_valid
make_hex v strict =
    if strict && (length v == 0)
    then err undefined
    else if not (is_valid (normalized v strict) strict)
    then err runtime_error
    else ok (normalized v strict)

-- `digits[n]` of "0123456789abcdef"
unfoldable pub digit : ℕ → ℕ
digit n = if ltb n 10 then 48 + n else 87 + n

unfoldable pub hex_digits : List ℕ → List ℕ
unfolding digit
hex_digits [] = []
hex_digits (byte ∷ bytes) = digit (byte / 16 % 16) ∷ (digit (byte % 16) ∷ hex_digits bytes)

-- The string that `fromBytes` fills; without bytes it is "0x" in both modes.
unfoldable pub filled : List ℕ → Bool → List ℕ
unfolding hex_digits
filled [] strict = char_0 ∷ (char_x ∷ [])
filled (byte ∷ bytes) strict =
    if strict then char_0 ∷ (char_x ∷ hex_digits (byte ∷ bytes)) else hex_digits (byte ∷ bytes)

unfoldable pub from_bytes : List ℕ → Bool → Result (List ℕ)
unfolding make_hex filled
from_bytes bytes strict = make_hex (filled bytes strict) strict

-- The loop that takes two characters at a time; of a last one alone it would read past the end.
unfoldable pub parse_pairs : List ℕ → Result (List ℕ)
unfolding to_int
parse_pairs [] = ok []
parse_pairs (h ∷ []) = err undefined
parse_pairs (h ∷ (l ∷ hex)) = elim (parse_pairs hex) [
  | err e ↦ err e
  | ok bytes ↦ ok (((to_int h * 16 + to_int l) % 256) ∷ bytes)
]

-- For an odd size the first character is a byte of its own.
unfoldable pub parse_digits : Bool → List ℕ → Result (List ℕ)
unfolding to_int parse_pairs
parse_digits odd [] = if odd then err undefined else ok []
parse_digits odd (h ∷ hex) =
    if odd
    then elim (parse_pairs hex) [ err e ↦ err e | ok bytes ↦ ok ((to_int h % 256) ∷ bytes) ]
    else parse_pairs (h ∷ hex)

-- `toBytes`, which reads `hex[0]` of an empty string too
unfoldable pub to_bytes : List ℕ → Result (List ℕ)
unfolding has_prefix in_filter parse_digits
to_bytes [] = err undefined
to_bytes (c ∷ hex) =
    let digits = if has_prefix (c ∷ hex) then drop 2 (c ∷ hex) else c ∷ hex in
    if not (all in_filter digits)
    then err runtime_error
    else parse_digits (length (c ∷ hex) % 2 == 1) digits

-- `bytes`
unfoldable pub bytes_of : List ℕ → Bool → Result (List ℕ)
unfolding parse_digits
bytes_of hex strict = parse_digits (length hex % 2 == 1) (if strict then drop 2 hex else hex)
