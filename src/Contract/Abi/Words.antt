-- ===== src/Contract/Abi/Words.antt =====
-- The words of 32 bytes that the encoder writes, as the decoder reads them.
use orbitersdk_cpp.Prelude.{
  ℕ, zero, suc, ◌+◌, ◌%◌, ◌^◌, ◌≤◌, ◌<◌, ◌≡◌, refl, ap, ◌∙◌, List, length, ok, le→leb, Bool-cases,
  inl, inr, ltb, arith,
}
use orbitersdk_cpp.Utils.Bytes.{uint_to_bytes}
use orbitersdk_cpp.Utils.Bytes.Digits.{length-uint_to_bytes, bytes_required_least}
use orbitersdk_cpp.Utils.Bytes.RoundTrip.{from_big_endian-uint_to_bytes}
use orbitersdk_cpp.Utils.Bytes.Pad.{
  padding, pad_left_bytes, length-pad_left_bytes, length-ge-pad_left_bytes,
}
use orbitersdk_cpp.Utils.Bytes.Wide.{Boost, IsBoost, bytes_to_uint256, from_big_endian_zeros}
use orbitersdk_cpp.Utils.Bytes.Windows.{Holds, Holds-bound, take-drop-Holds}
use orbitersdk_cpp.Contract.Abi.Encoder.{word, pad_loop, pad_size}
use orbitersdk_cpp.Contract.Abi.Decoder.{copy, word_at, offset_at}

uint_to_bytes_short : (n : ℕ) → n < 2 ^ 256 → length (uint_to_bytes n) ≤ 32
uint_to_bytes_short n h = rw length-uint_to_bytes ((bytes_required_least n 32).0 (omega arith))

pub length-word : (n : ℕ) → n < 2 ^ 256 → length (word n) ≡ 32
unfolding word
length-word n h = length-pad_left_bytes (uint_to_bytes n) 32 (uint_to_bytes_short n h)

pub length-ge-word : (n : ℕ) → 32 ≤ length (word n)
unfolding word
length-ge-word n = length-ge-pad_left_bytes (uint_to_bytes n) 32

pub copy-Holds :
    {text here : List ℕ} {at : ℕ} (n : ℕ)
    → Holds text at here
    → length here ≡ n
    → copy text at n ≡ ok here
unfolding copy
copy-Holds {text} {here} {at} n h same =
    rw
      (
        le→leb (at + n) (length text) (omega (arith, Holds-bound h, same)),
        ← same,
        take-drop-Holds h,
      )
      refl

module _ (boost : Boost) (laws : IsBoost boost) where
  bytes_to_uint256-word : (n : ℕ) → n < 2 ^ 256 → bytes_to_uint256 boost (word n) ≡ ok n
  unfolding bytes_to_uint256 word pad_left_bytes
  bytes_to_uint256-word n h = rw (length-word n h) (
      ap ok (
        laws.import-value (word n) (omega (arith, length-word n h))
        ∙ from_big_endian_zeros 256 (padding (uint_to_bytes n) 32) (uint_to_bytes n)
        ∙ from_big_endian-uint_to_bytes 256 n h))

  pub word_at-word :
      {text : List ℕ} {at : ℕ} (n : ℕ)
      → Holds text at (word n)
      → n < 2 ^ 256
      → word_at boost text at ≡ ok n
  unfolding word_at
  word_at-word n h small =
      rw (copy-Holds 32 h (length-word n small)) (bytes_to_uint256-word n small)

  -- An offset or a length below 2 ^ 64 is read back.
  pub offset_at-word :
      {text : List ℕ} {at : ℕ} (n : ℕ)
      → Holds text at (word n)
      → n < 2 ^ 64
      → offset_at boost text at ≡ ok n
  unfolding offset_at
  offset_at-word n h small = rw (word_at-word n h (omega arith)) (laws.lexical_cast-small n small)

-- A text is padded to a positive multiple of 32 bytes that holds it.
pub record IsPadSize (n size : ℕ) : Type 0 where
  pub holds : n ≤ size
  pub positive : 32 ≤ size
  pub whole : size % 32 ≡ 0

pad_loop-IsPadSize :
    (fuel pad n : ℕ) → n < pad + fuel → pad % 32 ≡ 0 → 0 < fuel → IsPadSize n (pad_loop fuel pad n)
unfolding pad_loop
pad_loop-IsPadSize zero pad n h k p = absurd (omega arith)
pad_loop-IsPadSize (suc fuel) pad n h k p = elim (Bool-cases (ltb (pad + 32) n)) [
  | inl more ↦
      rw more (pad_loop-IsPadSize fuel (pad + 32) n (ground arith) (omega arith) (ground arith))
  | inr done ↦
      rw done (record { holds = ground arith; positive = omega arith; whole = omega arith })
]

pub pad_size-IsPadSize : (n : ℕ) → IsPadSize n (pad_size n)
unfolding pad_size
pad_size-IsPadSize n = pad_loop-IsPadSize (suc n) 0 n (omega arith) refl (omega arith)
