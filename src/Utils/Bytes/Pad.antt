-- ===== src/Utils/Bytes/Pad.antt =====
-- `padLeft`, `padRight`, `padLeftBytes` and `padRightBytes` of utils/utils.cpp.
use mathlib.Core.List.{append-nil}
use orbitersdk_cpp.Utils.Hex.{has_prefix}
use orbitersdk_cpp.Prelude.{
  ℕ, ◌-◌, ◌≤◌, ◌≡◌, List, [], ◌∷◌, ◌++◌, length, length-append, length-replicate, drop, replicate,
  ltb, le→ltb_false, if◌then◌else◌, arith,
}

abbrev pub padding : List ℕ → ℕ → ℕ
padding str amount = if ltb (length str) amount then amount - length str else 0

unfoldable pub pad_left_bytes : List ℕ → ℕ → List ℕ
pad_left_bytes str amount = replicate (padding str amount) 0 ++ str

unfoldable pub pad_right_bytes : List ℕ → ℕ → List ℕ
pad_right_bytes str amount = str ++ replicate (padding str amount) 0

unfoldable pub pad_left : List ℕ → ℕ → ℕ → List ℕ
unfolding has_prefix
pad_left str amount sign =
    let s = if has_prefix str then drop 2 str else str in
    (if has_prefix str then b'0' ∷ b'x' ∷ [] else []) ++ (replicate (padding s amount) sign ++ s)

unfoldable pub pad_right : List ℕ → ℕ → ℕ → List ℕ
unfolding has_prefix
pad_right str amount sign =
    let s = if has_prefix str then drop 2 str else str in
    (if has_prefix str then b'0' ∷ b'x' ∷ [] else []) ++ (s ++ replicate (padding s amount) sign)

pub length-pad_left_bytes :
    (str : List ℕ) (n : ℕ) → length str ≤ n → length (pad_left_bytes str n) ≡ n
unfolding pad_left_bytes
length-pad_left_bytes str n h = ground (
  arith,
  length-append (replicate (padding str n) 0) str,
  length-replicate {A = ℕ} (padding str n) 0,
)

pub length-ge-pad_left_bytes : (str : List ℕ) (n : ℕ) → n ≤ length (pad_left_bytes str n)
unfolding pad_left_bytes
length-ge-pad_left_bytes str n = ground (
  arith,
  length-append (replicate (padding str n) 0) str,
  length-replicate {A = ℕ} (padding str n) 0,
)

pub length-pad_right_bytes :
    (str : List ℕ) (n : ℕ) → length str ≤ n → length (pad_right_bytes str n) ≡ n
unfolding pad_right_bytes
length-pad_right_bytes str n h = ground (
  arith,
  length-append str (replicate (padding str n) 0),
  length-replicate {A = ℕ} (padding str n) 0,
)

pub pad_right_bytes_long : (str : List ℕ) (n : ℕ) → n ≤ length str → pad_right_bytes str n ≡ str
unfolding pad_right_bytes
pad_right_bytes_long str n h = rw (le→ltb_false (length str) n h) (append-nil str)
