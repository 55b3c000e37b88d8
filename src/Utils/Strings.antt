-- ===== src/Utils/Strings.antt =====
-- The fixed strings of utils/strings.h and utils/strings.cpp: `FixedStr`, `Hash`, `Signature` and
-- `Address`. A string is the list of its bytes.
use mathlib.Core.List.{append-nil}
use orbitersdk_cpp.Prelude.{
  ℕ, ◌-◌, ◌≡◌, take-length, arith, Bool, true, false, not, ◌&&◌, ◌||◌, List, [], ◌∷◌, ◌++◌, all,
  length, take, drop, replicate, Result, ok, err, invalid_argument, undefined, ◌==◌, ltb,
  if◌then◌else◌,
}
use orbitersdk_cpp.Prelude.Throw.{◌>>=◌, ◌>>◌, throw_if}
use orbitersdk_cpp.Utils.Bytes.{substr}
use orbitersdk_cpp.Utils.Bytes.Wide.{Boost, uint256_to_bytes, bytes_to_uint256, bytes_to_uint8}
use orbitersdk_cpp.Utils.Hex.{has_prefix, in_filter, to_bytes}

-- `resize(n, 0x00)`
unfoldable pub resize : ℕ → List ℕ → List ℕ
resize n str = take n (str ++ replicate (n - length str) 0)

-- A string of the right size stays as it is.
pub resize_lem : (n : ℕ) (str : List ℕ) → length str ≡ n → resize n str ≡ str
unfolding resize
resize_lem n str h =
    let none_missing : n - length str ≡ 0 = omega (arith, h) in
    rw (none_missing, append-nil str, ← h) (take-length str)

-- `operator bool()`
unfoldable pub is_set : List ℕ → Bool
is_set [] = false
is_set (b ∷ str) = not (b == 0) || is_set str

-- The constructor of `Hash` from a view: it is copied over 32 zeros, and past their end if it is longer.
unfoldable pub hash_of_view : List ℕ → Result (List ℕ)
hash_of_view sv =
    if ltb 32 (length sv) then err undefined else ok (sv ++ drop (length sv) (replicate 32 0))

module _ (boost : Boost) where
  -- The constructor of `Hash` from an integer
  unfoldable pub hash_of_uint256 : ℕ → List ℕ
  unfolding resize
  hash_of_uint256 n = resize 32 (uint256_to_bytes boost n)

  -- `toUint256`
  unfoldable pub to_uint256 : List ℕ → Result ℕ
  to_uint256 hash = bytes_to_uint256 boost hash

  unfoldable pub r : List ℕ → Result ℕ
  r signature = do half ← substr signature 0 32; bytes_to_uint256 boost half

  unfoldable pub s : List ℕ → Result ℕ
  s signature = do half ← substr signature 32 32; bytes_to_uint256 boost half

unfoldable pub v : List ℕ → Result ℕ
v signature = do byte ← substr signature 64 1; bytes_to_uint8 byte

-- `Address::isValid`; the first characters are read whatever the length.
unfoldable pub is_valid : List ℕ → Bool → Result Bool
unfolding has_prefix in_filter
is_valid add true = ok (length add == 20)
is_valid [] false = err undefined
is_valid (c ∷ []) false = if c == b'0' then err undefined else ok false
is_valid (c ∷ d ∷ add) false =
    if has_prefix (c ∷ d ∷ add)
    then ok (length (c ∷ d ∷ add) == 42 && all in_filter add)
    else ok (length (c ∷ d ∷ add) == 40 && all in_filter (c ∷ d ∷ add))

-- The constructor of `Address`
unfoldable pub address : List ℕ → Bool → Result (List ℕ)
unfolding is_valid
address add true = if not (length add == 20) then err invalid_argument else ok add
address add false = do
  valid ← is_valid add false
  throw_if (not valid) invalid_argument
  to_bytes add
