-- ===== src/Contract/Abi/Unchecked.antt =====
-- What the checks of the encoder and the decoder let pass.
use mathlib.Core.List.{append_assoc}
use native.Mathlib.Omega.{arith}
use orbitersdk_cpp.Prelude.{
  ℕ, zero, suc, ◌+◌, ◌-◌, ◌*◌, ◌%◌, ◌^◌, ◌≤◌, ◌<◌, ◌≡◌, refl, sym, ap, ◌∙◌, All, false, some, none,
  List, [], ◌∷◌, ◌++◌, length, length-append, take, drop, drop-append, take-append, ok, err,
  undefined, leb, le→leb, le→ltb_false, ◌⊎◌, ◌==◌, Bool-cases, inl, inr,
}
use orbitersdk_cpp.Utils.Bytes.Wide.{Boost, IsBoost, bytes_to_uint256}
use orbitersdk_cpp.Utils.Bytes.Windows.{Holds, Holds-bound}
use orbitersdk_cpp.Contract.Abi.{Var}
use orbitersdk_cpp.Contract.Abi.Encoder.{word}
use orbitersdk_cpp.Contract.Abi.Decoder.{read_items, word_at, decode_arr, decode_uint256_arr}
use orbitersdk_cpp.Contract.Abi.Header.{find, arguments, check_types, check_header}
use orbitersdk_cpp.Contract.Abi.Words.{offset_at-word, length-ge-word}

find_absent : (c i : ℕ) (xs : List ℕ) → All (λ x. (x == c) ≡ false) xs → find c i xs ≡ none
unfolding find
find_absent c i [] h = refl
find_absent c i (x ∷ xs) (h, hs) = rw h (find_absent c (i + 1) xs hs)

find_first :
    (c i : ℕ) (xs ys : List ℕ)
    → All (λ x. (x == c) ≡ false) xs
    → find c i (xs ++ c ∷ ys) ≡ some (i + length xs)
unfolding find
find_first c i [] ys h = ground arith
find_first c i (x ∷ xs) ys (h, hs) = rw (h, find_first c (i + 1) xs ys hs) (ap some (omega arith))

find_present : (c i : ℕ) (xs ys : List ℕ) → (j : ℕ) × (find c i (xs ++ c ∷ ys) ≡ some j)
unfolding find
find_present c i [] ys = (i, ground arith)
find_present c i (x ∷ xs) ys = elim (Bool-cases (x == c)) [
  | inl e ↦ (i, rw e)
  | inr e ↦ rw e (find_present c (i + 1) xs ys)
]

module _ (name t : List ℕ) where
  abbrev pub header : List ℕ
  header = name ++ (b'(' ∷ (t ++ (b')' ∷ [])))

  arguments_lem : arguments header (length name) ≡ ok t
  unfolding arguments
  arguments_lem =
      let open_front : List ℕ = name ++ (b'(' ∷ []) in
      let regroup : header ≡ open_front ++ (t ++ (b')' ∷ [])) =
        sym (append_assoc name (b'(' ∷ []) (t ++ (b')' ∷ []))) in
      let front : length open_front ≡ length name + 1 =
        omega (arith, length-append name (b'(' ∷ [])) in
      let total : length header ≡ length name + length t + 2 =
        omega
          (arith, length-append name (b'(' ∷ (t ++ (b')' ∷ []))), length-append t (b')' ∷ [])) in
      let size : length name + length t + 2 - (length name + 2) ≡ length t = omega arith in
      let rest : drop (length name + 1) header ≡ t ++ (b')' ∷ []) =
        rw (regroup, ← front) (drop-append open_front (t ++ (b')' ∷ []))) in
      rw
        (
          rest,
          total,
          le→ltb_false (length name + length t + 2) (length name + 2) (omega arith),
          size,
          take-append t (b')' ∷ []),
        )
        refl

  -- The header of a function of one argument passes whatever type it names, and whatever the arguments are, if the function's name has no parenthesis that opens, and the type is not empty and has no comma: the last type of a header is never compared.
  check_header_single :
      (vs : List Var)
      → All (λ x. (x == b'(') ≡ false) name
      → All (λ x. (x == b',') ≡ false) t
      → 0 < length t
      → check_header header vs ≡ ok tt
  unfolding check_header check_types
  check_header_single vs h m long =
      let regroup : header ≡ (name ++ (b'(' ∷ t)) ++ (b')' ∷ []) =
        sym (append_assoc name (b'(' ∷ t) (b')' ∷ [])) in
      let opened : find b'(' 0 header ≡ some (length name) =
        find_first b'(' 0 name (t ++ (b')' ∷ [])) h ∙ ap some (omega arith) in
      let (j, closed) = find_present b')' 0 (name ++ (b'(' ∷ t)) [] in
      rw
        (
          check_header,
          opened,
          ap (find b')' 0) regroup ∙ closed,
          arguments_lem,
          check_types,
          find_absent b',' 0 t m,
        )
        (ground (arith, long))

length-drop : (n : ℕ) (xs : List ℕ) → n ≤ length xs → n + length (drop n xs) ≡ length xs
length-drop zero xs h = omega arith
length-drop (suc n) [] h = absurd (omega arith)
length-drop (suc n) (x ∷ xs) h = omega (arith, length-drop n xs (omega (arith, h)))

length-take : (n : ℕ) (xs : List ℕ) → n ≤ length xs → length (take n xs) ≡ n
length-take zero xs h = refl
length-take (suc n) [] h = absurd (omega arith)
length-take (suc n) (x ∷ xs) h = ap suc (length-take n xs (omega (arith, h)))

lt→leb_false : (a b : ℕ) → a < b → leb b a ≡ false
lt→leb_false a b h = ground arith

module _ (boost : Boost) (laws : IsBoost boost) where
  le_or_lt : (a b : ℕ) → (a ≤ b) ⊎ (b < a)
  le_or_lt a b = ground arith

  word_at-cases :
      (text : List ℕ) (at : ℕ)
      → (at + 32 ≤ length text → (n : ℕ) × (word_at boost text at ≡ ok n))
        × (length text < at + 32 → word_at boost text at ≡ err undefined)
  unfolding word_at bytes_to_uint256
  word_at-cases text at = (
    λ h.
        let width : length (take 32 (drop at text)) ≡ 32 =
          length-take 32 (drop at text) (omega (arith, length-drop at text, h)) in
        (
          boost.import_bits (take 32 (drop at text)),
          rw (le→leb (at + 32) (length text) h, bytes_to_uint256, width) refl,
        ),
    λ h. rw (lt→leb_false (length text) (at + 32) h) refl,
  )

  read_items_past :
      (text : List ℕ) (base n i : ℕ)
      → length text < base + (i + n) * 32 + 32
      → read_items (λ j. word_at boost text (base + j * 32)) (suc n) i ≡ err undefined
  unfolding read_items
  read_items_past text base zero i h =
      rw ((word_at-cases text (base + i * 32)).1 (omega (arith, h))) refl
  read_items_past text base (suc n) i h = elim (le_or_lt (base + i * 32 + 32) (length text)) [
    | inl within ↦
        let (v, reads) = (word_at-cases text (base + i * 32)).0 within in
        rw (reads, read_items_past text base n (i + 1) (omega (arith, h))) refl
    | inr past ↦ rw ((word_at-cases text (base + i * 32)).1 past) refl
  ]

  past_items :
      (text : List ℕ) (base n : ℕ)
      → length text < base + n * 32
      → base ≤ length text
      → read_items (λ j. word_at boost text (base + j * 32)) n 0 ≡ err undefined
  past_items text base zero h k = absurd (omega (arith, h, k))
  past_items text base (suc n) h k = read_items_past text base n 0 (omega (arith, h))

  -- If the product of the number of items and 32 is so large that the end of the array wraps around 2 ^ 64 to a place within the text, the check of the size passes and the decoder reads past the end of the text.
  pub decode_uint256_arr_wraps :
      (text : List ℕ) (start off n : ℕ)
      → Holds text start (word off)
      → Holds text off (word n)
      → off < 2 ^ 64
      → n < 2 ^ 64
      → length text < off + 32 + n * 32
      → (off + 32 + n * 32) % 2 ^ 64 ≤ length text
      → decode_uint256_arr boost text start ≡ err undefined
  unfolding decode_uint256_arr decode_arr
  decode_uint256_arr_wraps text start off n at_start at_off off_small n_small long passes =
      rw
        (
          offset_at-word boost laws off at_start off_small,
          offset_at-word boost laws n at_off n_small,
          le→ltb_false (length text) ((off + 32 + n * 32) % 2 ^ 64) passes,
        )
        (past_items text (off + 32) n long (omega (arith, Holds-bound at_off, length-ge-word n)))
