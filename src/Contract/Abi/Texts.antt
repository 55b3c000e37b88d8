-- ===== src/Contract/Abi/Texts.antt =====
-- An array of texts, as the decoder finds it in what the encoder wrote.
use native.Mathlib.Nat.{mod-eq_of_lt}
use orbitersdk_cpp.Prelude.{
  ℕ, ◌+◌, ◌*◌, ◌/◌, ◌%◌, ◌^◌, ◌≤◌, ◌<◌, ◌≡◌, refl, ap, List, [], ◌∷◌, ◌++◌, length, length-append,
  ok, le→ltb_false, ◌==◌, Bool-cases, inl, inr, arith,
}
use orbitersdk_cpp.Utils.Bytes.Pad.{pad_right_bytes, length-pad_right_bytes, pad_right_bytes_long}
use orbitersdk_cpp.Utils.Bytes.Wide.{Boost, IsBoost}
use orbitersdk_cpp.Utils.Bytes.Windows.{Holds, Holds-bound, Holds-left, Holds-right}
use orbitersdk_cpp.Contract.Abi.Encoder.{
  word, pad_size, completed, concat, bytes_off, bytes_len_data,
}
use orbitersdk_cpp.Contract.Abi.Decoder.{read_items, bytes_at, decode_bytes_arr}
use orbitersdk_cpp.Contract.Abi.Words.{
  length-word, length-ge-word, copy-Holds, offset_at-word, pad_size-IsPadSize,
}
use orbitersdk_cpp.Contract.Abi.Items.{Sized, Sized-bound, Sized-size, Sized-end, Sized-text}

completed_lem : (b : List ℕ) → completed b ≡ b
completed_lem b = elim (Bool-cases (length b % 2 == 0)) [ inl e ↦ rw e | inr e ↦ rw e ]

-- The second padding adds nothing.
padded_once :
    (b : List ℕ) (size : ℕ)
    → length b ≤ size
    → 32 ≤ size
    → pad_right_bytes (pad_right_bytes b size) 32 ≡ pad_right_bytes b size
padded_once b size h k =
    pad_right_bytes_long (pad_right_bytes b size) 32
      (omega (arith, length-pad_right_bytes b size h))

bytes_len_data_lem :
    (b : List ℕ) → bytes_len_data b ≡ word (length b) ++ pad_right_bytes b (pad_size (length b))
unfolding bytes_len_data
bytes_len_data_lem b =
    let size = pad_size-IsPadSize (length b) in
    rw (completed_lem b, padded_once b (pad_size (length b)) size.holds size.positive) refl

length-bytes_len_data :
    (b : List ℕ)
    → length b < 2 ^ 64
    → length (bytes_len_data b) ≡ 32 + 32 * (pad_size (length b) / 32)
length-bytes_len_data b small =
    let size = pad_size-IsPadSize (length b) in
    rw bytes_len_data_lem (
      omega (
        arith,
        length-append (word (length b)) (pad_right_bytes b (pad_size (length b))),
        length-word (length b) (omega (arith, small)),
        length-pad_right_bytes b (pad_size (length b)) size.holds,
        size.whole,
      ))

length-le-bytes_len_data : (b : List ℕ) → length b ≤ length (bytes_len_data b)
length-le-bytes_len_data b =
    let size = pad_size-IsPadSize (length b) in
    rw bytes_len_data_lem (
      omega (
        arith,
        length-append (word (length b)) (pad_right_bytes b (pad_size (length b))),
        length-pad_right_bytes b (pad_size (length b)) size.holds,
        size.holds,
      ))

pub length-ge-bytes_off :
    (n i pads : ℕ) (bs : List (List ℕ)) → length bs * 32 ≤ length (bytes_off n i pads bs)
unfolding bytes_off
length-ge-bytes_off n i pads [] = omega arith
length-ge-bytes_off n i pads (b ∷ more) =
    let off : ℕ = 32 * n + 32 * i + 32 * pads in
    let pads' : ℕ = pads + pad_size (length (completed b)) / 32 in
    omega (
      arith,
      length-append (word off) (bytes_off n (i + 1) pads' more),
      length-ge-word off,
      length-ge-bytes_off n (i + 1) pads' more,
    )

-- The offsets take 32 bytes each, if they lie within a text of less than 2 ^ 64 bytes.
pub length-bytes_off :
    (n i pads : ℕ) (bs : List (List ℕ))
    → 32 * n + 32 * i + 32 * pads + length (concat bytes_len_data bs) < 2 ^ 64
    → length (bytes_off n i pads bs) ≡ length bs * 32
unfolding bytes_off concat
length-bytes_off n i pads [] h = refl
length-bytes_off n i pads (b ∷ more) h =
    let off : ℕ = 32 * n + 32 * i + 32 * pads in
    let pads' : ℕ = pads + pad_size (length (completed b)) / 32 in
    let same : pad_size (length (completed b)) ≡ pad_size (length b) =
      ap (λ t. pad_size (length t)) (completed_lem b) in
    let total = length-append (bytes_len_data b) (concat bytes_len_data more) in
    let entry = length-bytes_len_data b (omega (arith, h, total, length-le-bytes_len_data b)) in
    omega (
      arith,
      length-append (word off) (bytes_off n (i + 1) pads' more),
      length-word off (omega (arith, h)),
      length-bytes_off n (i + 1) pads' more (omega (arith, h, total, entry, same)),
    )

-- The texts with their lengths fill whole words.
pub length-concat-bytes_len_data :
    (bs : List (List ℕ))
    → length (concat bytes_len_data bs) < 2 ^ 64
    → length (concat bytes_len_data bs) % 32 ≡ 0
unfolding concat
length-concat-bytes_len_data [] small = refl
length-concat-bytes_len_data (b ∷ more) small =
    let total = length-append (bytes_len_data b) (concat bytes_len_data more) in
    let entry = length-bytes_len_data b (omega (arith, small, total, length-le-bytes_len_data b)) in
    omega (arith, total, entry, length-concat-bytes_len_data more (omega (arith, small, total)))

module _ (boost : Boost) (laws : IsBoost boost) (text : List ℕ) (small : length text < 2 ^ 64) where
  -- One text, at the place that its offset gives
  bytes_at-bytes_len_data :
      (array_start i off : ℕ) (b : List ℕ)
      → Holds text (array_start + 32 + i * 32) (word off)
      → Holds text (off + array_start + 32) (bytes_len_data b)
      → bytes_at boost text array_start i ≡ ok b
  unfolding bytes_at
  bytes_at-bytes_len_data array_start i off b at_off at_data =
      let size = pad_size-IsPadSize (length b) in
      let at : ℕ = off + array_start + 32 in
      let sized : Sized text at b (pad_size (length b)) = record {
        whole = rw bytes_len_data_lem at at_data;
        enough = size.holds;
        small = small;
      } in
      let bound = Sized-bound text at b (pad_size (length b)) sized in
      let end = Sized-end text at b (pad_size (length b)) sized in
      let fits : (at + 32 + length b) % 2 ^ 64 ≤ length text = omega (arith, end, size.holds) in
      rw
        (
          offset_at-word boost laws off at_off (omega (arith, bound)),
          mod-eq_of_lt {n = at} {m = 2 ^ 64} (omega (arith, bound)),
          offset_at-word boost laws (length b) (Sized-size text at b (pad_size (length b)) sized)
              (omega (arith, bound)),
          le→ltb_false (length text) ((at + 32 + length b) % 2 ^ 64) fits,
        )
        (copy-Holds (length b) (Sized-text text at b (pad_size (length b)) sized) refl)

  text_bounds :
      (off array_start : ℕ) (b : List ℕ)
      → Holds text (off + array_start + 32) (bytes_len_data b)
      → off + array_start + length b < 2 ^ 64
  text_bounds off array_start b h =
      let size = pad_size-IsPadSize (length b) in
      let sized : Sized text (off + array_start + 32) b (pad_size (length b)) = record {
        whole = rw bytes_len_data_lem at h;
        enough = size.holds;
        small = small;
      } in
      omega (arith, Sized-bound text (off + array_start + 32) b (pad_size (length b)) sized)

  read_items-texts :
      (array_start n i pads : ℕ) (more : List (List ℕ))
      → Holds text (array_start + 32 + i * 32) (bytes_off n i pads more)
      → Holds text (32 * n + 32 * i + 32 * pads + array_start + 32) (concat bytes_len_data more)
      → read_items (bytes_at boost text array_start) (length more) i ≡ ok more
  unfolding read_items bytes_off concat
  read_items-texts array_start n i pads [] offs at_data = refl
  read_items-texts array_start n i pads (b ∷ more) offs at_data =
      let off : ℕ = 32 * n + 32 * i + 32 * pads in
      let pads' : ℕ = pads + pad_size (length (completed b)) / 32 in
      let data' = Holds-left (concat bytes_len_data more) at_data in
      let bounds = text_bounds off array_start b data' in
      let same : pad_size (length (completed b)) ≡ pad_size (length b) =
        ap (λ t. pad_size (length t)) (completed_lem b) in
      let here : array_start + 32 + i * 32 + length (word off) ≡ array_start + 32 + (i + 1) * 32 =
        omega (arith, length-word off (omega (arith, bounds))) in
      let there : off + array_start + 32 + length (bytes_len_data b)
          ≡ 32 * n + 32 * (i + 1) + 32 * pads' + array_start + 32 =
        omega (arith, length-bytes_len_data b (omega (arith, bounds)), same) in
      rw
        (
          bytes_at-bytes_len_data array_start i off b
              (Holds-left (bytes_off n (i + 1) pads' more) offs) data',
          read_items-texts array_start n (i + 1) pads' more
              (rw here at (Holds-right (word off) offs))
              (rw there at (Holds-right (bytes_len_data b) at_data)),
        )
        refl

  -- An array of texts is read through the offset at `start`.
  pub decode_bytes_arr-encode_bytes_arr :
      (start off : ℕ) (bs : List (List ℕ))
      → Holds text start (word off)
      → Holds text off
          (word (length bs) ++ (bytes_off (length bs) 0 0 bs ++ concat bytes_len_data bs))
      → decode_bytes_arr boost text start ≡ ok bs
  unfolding decode_bytes_arr
  decode_bytes_arr-encode_bytes_arr start off bs at_start at_off =
      let n : ℕ = length bs in
      let offs : List ℕ = bytes_off n 0 0 bs in
      let entries : List ℕ = concat bytes_len_data bs in
      let bound : off + (length (word n) + (length offs + length entries)) ≤ length text = omega (
        arith,
        Holds-bound at_off,
        length-append (word n) (offs ++ entries),
        length-append offs entries,
      ) in
      let enough = length-ge-bytes_off n 0 0 bs in
      let width : length (word n) ≡ 32 = length-word n (omega (arith, small, bound, enough)) in
      let table : length offs ≡ n * 32 =
        length-bytes_off n 0 0 bs (omega (arith, small, bound, enough)) in
      let after = Holds-right (word n) at_off in
      let first : off + length (word n) ≡ off + 32 + 0 * 32 = omega (arith, width) in
      let second : off + length (word n) + length offs ≡ 32 * n + 32 * 0 + 32 * 0 + off + 32 =
        omega (arith, width, table) in
      rw
        (
          offset_at-word boost laws off at_start (omega (arith, small, bound, width)),
          offset_at-word boost laws n (Holds-left (offs ++ entries) at_off)
              (omega (arith, small, bound, enough)),
        )
        (read_items-texts off n 0 0 bs (rw first at (Holds-left entries after))
          (rw second at (Holds-right offs after)))
