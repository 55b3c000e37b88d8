-- ===== src/Contract/Abi/Items.antt =====
-- Texts and arrays of words, as the decoder finds them in what the encoder wrote.
use orbitersdk_cpp.Prelude.{
  ℕ, ◌+◌, ◌*◌, ◌%◌, ◌^◌, ◌≤◌, ◌<◌, ◌≡◌, refl, All, List, [], ◌∷◌, ◌++◌, length, length-append,
  replicate, Result, ok, le→ltb_false, arith,
}
use orbitersdk_cpp.Utils.Bytes.Pad.{padding, pad_right_bytes, length-pad_right_bytes}
use orbitersdk_cpp.Utils.Bytes.Wide.{Boost, IsBoost}
use orbitersdk_cpp.Utils.Bytes.Windows.{Holds, Holds-bound, Holds-left, Holds-right}
use orbitersdk_cpp.Contract.Abi.Encoder.{word, pad_size, encode_bytes, concat}
use orbitersdk_cpp.Contract.Abi.Decoder.{read_items, decode_bytes, decode_arr}
use orbitersdk_cpp.Contract.Abi.Words.{length-word, copy-Holds, offset_at-word, pad_size-IsPadSize}

-- A text behind its length and with its padding
module _ (text : List ℕ) (at : ℕ) (b : List ℕ) (size : ℕ) where
  pub record Sized : Type 0 where
    pub whole : Holds text at (word (length b) ++ pad_right_bytes b size)
    pub enough : length b ≤ size
    pub small : length text < 2 ^ 64

  pub Sized-bound : Sized → at + length b < 2 ^ 64
  Sized-bound h = omega (
    arith,
    h.small,
    Holds-bound h.whole,
    length-append (word (length b)) (pad_right_bytes b size),
    length-pad_right_bytes b size h.enough,
    h.enough,
  )

  pub Sized-size : Sized → Holds text at (word (length b))
  Sized-size h = Holds-left (pad_right_bytes b size) h.whole

  pub Sized-end : Sized → at + 32 + size ≤ length text
  Sized-end h = omega (
    arith,
    Holds-bound h.whole,
    length-append (word (length b)) (pad_right_bytes b size),
    length-pad_right_bytes b size h.enough,
    length-word (length b) (omega (arith, Sized-bound h)),
  )

  pub Sized-text : Sized → Holds text (at + 32) b
  unfolding pad_right_bytes
  Sized-text h =
      let here = Holds-right (word (length b)) h.whole in
      Holds-left (replicate (padding b size) 0)
        (rw (length-word (length b) (omega (arith, Sized-bound h))) at here)

pub length-concat {ℓ} :
    {A : Type ℓ} (encode : A → List ℕ) (xs : List A)
    → All (λ x. length (encode x) ≡ 32) xs
    → length (concat encode xs) ≡ length xs * 32
unfolding concat
length-concat encode [] h = refl
length-concat encode (x ∷ xs) (h, hs) =
    omega (arith, length-append (encode x) (concat encode xs), h, length-concat encode xs hs)

-- The items of an array of words
module _ {ℓ} {A : Type ℓ} (encode : A → List ℕ) (item : ℕ → Result A) (text : List ℕ) where
  -- The item at an index is read where its 32 bytes stand.
  pub record Reads (x : A) : Type ℓ where
    pub width : length (encode x) ≡ 32
    pub reads : (at : ℕ) → Holds text at (encode x) → item at ≡ ok x

  widths : (xs : List A) → All Reads xs → All (λ x. length (encode x) ≡ 32) xs
  widths [] h = tt
  widths (x ∷ xs) (h, hs) = (h.width, widths xs hs)

  read_items-concat :
      (base i : ℕ) (xs : List A)
      → All Reads xs
      → Holds text (base + i * 32) (concat encode xs)
      → read_items (λ j. item (base + j * 32)) (length xs) i ≡ ok xs
  unfolding read_items concat
  read_items-concat base i [] h k = refl
  read_items-concat base i (x ∷ xs) (h, hs) k =
      let next : base + i * 32 + length (encode x) ≡ base + (i + 1) * 32 = omega (arith, h.width) in
      rw
        (
          h.reads (base + i * 32) (Holds-left (concat encode xs) k),
          read_items-concat base (i + 1) xs hs (rw next at (Holds-right (encode x) k)),
        )
        refl

  module _ (boost : Boost) (laws : IsBoost boost) (small : length text < 2 ^ 64) where
    -- An array is read through the offset at `start`, if the number of items and the items stand there.
    pub decode_arr-concat :
        (start off : ℕ) (xs : List A)
        → All Reads xs
        → Holds text start (word off)
        → Holds text off (word (length xs) ++ concat encode xs)
        → decode_arr boost item text start ≡ ok xs
    unfolding decode_arr
    decode_arr-concat start off xs h at_start at_off =
        let n : ℕ = length xs in
        let bound : off + length (word n) + n * 32 ≤ length text = omega (
          arith,
          Holds-bound at_off,
          length-append (word n) (concat encode xs),
          length-concat encode xs (widths xs h),
        ) in
        let width : length (word n) ≡ 32 = length-word n (omega (arith, small, bound)) in
        let fits : (off + 32 + n * 32) % 2 ^ 64 ≤ length text = omega (arith, bound, width) in
        let place : off + length (word n) ≡ off + 32 + 0 * 32 = omega (arith, width) in
        rw
          (
            offset_at-word boost laws off at_start (omega (arith, small, bound)),
            offset_at-word boost laws n (Holds-left (concat encode xs) at_off)
                (omega (arith, small, bound)),
            le→ltb_false (length text) ((off + 32 + n * 32) % 2 ^ 64) fits,
          )
          (read_items-concat (off + 32) 0 xs h (rw place at (Holds-right (word n) at_off)))

module _ (boost : Boost) (laws : IsBoost boost) (text : List ℕ) (small : length text < 2 ^ 64) where
  -- A text is read through the offset at `start`, which lies before it.
  pub decode_bytes-encode_bytes :
      (start off : ℕ) (b : List ℕ)
      → Holds text start (word off)
      → Holds text off (encode_bytes b)
      → start + 32 ≤ off
      → decode_bytes boost text start ≡ ok b
  unfolding decode_bytes encode_bytes
  decode_bytes-encode_bytes start off b at_start at_off before =
      let padded = pad_size-IsPadSize (length b) in
      let size : ℕ = pad_size (length b) in
      let sized : Sized text off b size = record {
        whole = at_off;
        enough = padded.holds;
        small = small;
      } in
      let fits : (start + 32 + 32 + length b) % 2 ^ 64 ≤ length text =
        omega (arith, Sized-end text off b size sized, padded.holds, before) in
      rw
        (
          offset_at-word boost laws off at_start (omega (arith, Sized-bound text off b size sized)),
          offset_at-word boost laws (length b) (Sized-size text off b size sized)
              (omega (arith, Sized-bound text off b size sized)),
          le→ltb_false (length text) ((start + 32 + 32 + length b) % 2 ^ 64) fits,
        )
        (copy-Holds (length b) (Sized-text text off b size sized) refl)
