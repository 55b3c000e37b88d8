-- ===== src/Contract/Abi/Arguments.antt =====
-- One argument: its part in `data` and its part in `dynamicStr`, as the decoder finds them.
use orbitersdk_cpp.Prelude.{
  ℕ, ◌+◌, ◌*◌, ◌/◌, ◌%◌, ◌^◌, ◌≤◌, ◌<◌, ◌≡◌, refl, All, Bool, List, [], ◌∷◌, ◌++◌, length,
  length-append, ok, le→ltb_false, arith,
}
use orbitersdk_cpp.Utils.Bytes.Pad.{pad_left_bytes, pad_right_bytes, length-pad_right_bytes}
use orbitersdk_cpp.Utils.Bytes.Wide.{Boost, IsBoost}
use orbitersdk_cpp.Utils.Bytes.Windows.{Holds, Holds-bound}
use orbitersdk_cpp.Contract.Abi.{
  Var, uint256_var, uint256_arr_var, address_var, address_arr_var, bool_var, bool_arr_var,
  string_var, string_arr_var, Types, uint256, uint256_arr, address, address_arr, boolean,
  boolean_arr, bytes, bytes_arr, string, string_arr,
}
use orbitersdk_cpp.Contract.Abi.Encoder.{
  word, pad_size, concat, bytes_off, bytes_len_data, encode_bytes, encode_address, encode_bool,
  encode_uint256, static_part, dynamic_part, offset_part,
}
use orbitersdk_cpp.Contract.Abi.Decoder.{is_one, word_at, decode_var}
use orbitersdk_cpp.Contract.Abi.Words.{length-word, length-ge-word, pad_size-IsPadSize}
use orbitersdk_cpp.Contract.Abi.Items.{length-concat, decode_arr-concat, decode_bytes-encode_bytes}
use orbitersdk_cpp.Contract.Abi.Texts.{
  length-ge-bytes_off, length-bytes_off, length-concat-bytes_len_data,
  decode_bytes_arr-encode_bytes_arr,
}
use orbitersdk_cpp.Contract.Abi.Values.{
  length-encode_address, length-encode_bool, length-encode_uint256, address_at,
  address_at-encode_address, is_one-encode_bool, word_at-encode_uint256, uint256_Reads,
  address_Reads, bool_Reads, All-map, All-always,
}

-- A value of a type: integers have 256 bits, and addresses 20 bytes.
pub data IsOfType : Types → Var → Type 0 where
  is_uint256 : (n : ℕ) → n < 2 ^ 256 → IsOfType uint256 (uint256_var n)
  is_uint256_arr :
      (ns : List ℕ) → All (λ n. n < 2 ^ 256) ns → IsOfType uint256_arr (uint256_arr_var ns)
  is_address : (a : List ℕ) → length a ≡ 20 → IsOfType address (address_var a)
  is_address_arr :
      (v : List (List ℕ)) → All (λ a. length a ≡ 20) v → IsOfType address_arr (address_arr_var v)
  is_boolean : (b : Bool) → IsOfType boolean (bool_var b)
  is_boolean_arr : (v : List Bool) → IsOfType boolean_arr (bool_arr_var v)
  is_bytes : (s : List ℕ) → IsOfType bytes (string_var s)
  is_bytes_arr : (v : List (List ℕ)) → IsOfType bytes_arr (string_arr_var v)
  is_string : (s : List ℕ) → IsOfType string (string_var s)
  is_string_arr : (v : List (List ℕ)) → IsOfType string_arr (string_arr_var v)

pub data AreOfTypes : List Types → List Var → Type 0 where
  none_left : AreOfTypes [] []
  one_more :
      {t : Types} {v : Var} {ts : List Types} {vs : List Var}
      → IsOfType t v
      → AreOfTypes ts vs
      → AreOfTypes (t ∷ ts) (v ∷ vs)

arr_length {ℓ} :
    {A : Type ℓ} (encode : A → List ℕ) (xs : List A)
    → All (λ x. length (encode x) ≡ 32) xs
    → length (word (length xs) ++ concat encode xs) < 2 ^ 64
    → 32 + 32 * length xs ≡ length (word (length xs) ++ concat encode xs)
arr_length encode xs h small =
    let total = length-append (word (length xs)) (concat encode xs) in
    let items = length-concat encode xs h in
    omega (arith, total, items, length-word (length xs) (omega (arith, total, items, small)))

text_length :
    (s : List ℕ)
    → length (encode_bytes s) < 2 ^ 64
    → 32 * (length (encode_bytes s) / 32) ≡ length (encode_bytes s)
unfolding encode_bytes
text_length s small =
    let size = pad_size-IsPadSize (length s) in
    let padded = length-pad_right_bytes s (pad_size (length s)) size.holds in
    let total = length-append (word (length s)) (pad_right_bytes s (pad_size (length s))) in
    omega (
      arith,
      total,
      padded,
      size.whole,
      length-word (length s) (omega (arith, total, padded, size.holds, small)),
    )

texts_length :
    (v : List (List ℕ))
    → let tail = word (length v) ++ (bytes_off (length v) 0 0 v ++ concat bytes_len_data v) in
      length tail < 2 ^ 64 → 32 * (length tail / 32) ≡ length tail
texts_length v small =
    let n : ℕ = length v in
    let offs : List ℕ = bytes_off n 0 0 v in
    let entries : List ℕ = concat bytes_len_data v in
    let total = length-append (word n) (offs ++ entries) in
    let parts = length-append offs entries in
    let enough = length-ge-bytes_off n 0 0 v in
    let table = length-bytes_off n 0 0 v (omega (arith, small, total, parts, enough)) in
    omega (
      arith,
      total,
      parts,
      table,
      length-word n (omega (arith, small, total, parts, enough)),
      length-concat-bytes_len_data v (omega (arith, small, total, parts)),
    )

module _ (boost : Boost) (laws : IsBoost boost) where
  module _ (text : List ℕ) (small : length text < 2 ^ 64) (start off : ℕ)
      (before : start + 32 ≤ off) where
    -- One argument is read back, if its parts stand where they belong.
    pub decode_var_lem :
        {t : Types} {v : Var}
        → IsOfType t v
        → Holds text start (static_part boost off v)
        → Holds text off (dynamic_part boost v)
        → decode_var boost t text start ≡ ok v
    unfolding decode_var static_part dynamic_part pad_left_bytes
    decode_var_lem (is_uint256 n h) p q =
        rw
          (
            le→ltb_false (length text) ((start + 32) % 2 ^ 64)
                (omega (arith, small, Holds-bound p, length-encode_uint256 boost laws n h)),
            word_at-encode_uint256 boost laws text start n h p,
          )
          refl
    decode_var_lem (is_uint256_arr ns h) p q =
        rw
          (decode_arr-concat (encode_uint256 boost) (word_at boost text) text boost laws small start
            off ns (All-map (uint256_Reads boost laws text) ns h) p q)
          refl
    decode_var_lem (is_address a h) p q =
        rw
          (
            le→ltb_false (length text) ((start + 32) % 2 ^ 64)
                (omega (arith, small, Holds-bound p, length-encode_address a h)),
            address_at-encode_address text start a h p,
          )
          refl
    decode_var_lem (is_address_arr v h) p q =
        rw
          (decode_arr-concat encode_address (address_at text) text boost laws small start off v
            (All-map (address_Reads text) v h) p q)
          refl
    decode_var_lem (is_boolean b) p q =
        rw
          (
            le→ltb_false (length text) ((start + 32) % 2 ^ 64)
                (omega (arith, small, Holds-bound p, length-encode_bool b)),
            is_one-encode_bool text start b p,
          )
          refl
    decode_var_lem (is_boolean_arr v) p q =
        rw
          (decode_arr-concat encode_bool (λ at. is_one text (at + 31)) text boost laws small start
            off v (All-always (bool_Reads text) v) p q)
          refl
    decode_var_lem (is_bytes s) p q =
        rw (decode_bytes-encode_bytes boost laws text small start off s p q before) refl
    decode_var_lem (is_bytes_arr v) p q =
        rw (decode_bytes_arr-encode_bytes_arr boost laws text small start off v p q) refl
    decode_var_lem (is_string s) p q =
        rw (decode_bytes-encode_bytes boost laws text small start off s p q before) refl
    decode_var_lem (is_string_arr v) p q =
        rw (decode_bytes_arr-encode_bytes_arr boost laws text small start off v p q) refl

  -- `nextOffset` grows by as many bytes as `dynamicStr`.
  pub offset_part_lem :
      {t : Types} {v : Var}
      → IsOfType t v
      → length (dynamic_part boost v) < 2 ^ 64
      → offset_part boost v ≡ length (dynamic_part boost v)
  unfolding offset_part dynamic_part pad_left_bytes
  offset_part_lem (is_uint256 n h) small = refl
  offset_part_lem (is_uint256_arr ns h) small =
      arr_length (encode_uint256 boost) ns (All-map (length-encode_uint256 boost laws) ns h) small
  offset_part_lem (is_address a h) small = refl
  offset_part_lem (is_address_arr v h) small =
      arr_length encode_address v (All-map length-encode_address v h) small
  offset_part_lem (is_boolean b) small = refl
  offset_part_lem (is_boolean_arr v) small =
      arr_length encode_bool v (All-always length-encode_bool v) small
  offset_part_lem (is_bytes s) small = text_length s small
  offset_part_lem (is_bytes_arr v) small = texts_length v small
  offset_part_lem (is_string s) small = text_length s small
  offset_part_lem (is_string_arr v) small = texts_length v small

  pub length-static_part :
      {t : Types} {v : Var} (off : ℕ)
      → IsOfType t v
      → off < 2 ^ 256
      → length (static_part boost off v) ≡ 32
  unfolding static_part
  length-static_part off (is_uint256 n h) small = length-encode_uint256 boost laws n h
  length-static_part off (is_uint256_arr ns h) small = length-word off small
  length-static_part off (is_address a h) small = length-encode_address a h
  length-static_part off (is_address_arr v h) small = length-word off small
  length-static_part off (is_boolean b) small = length-encode_bool b
  length-static_part off (is_boolean_arr v) small = length-word off small
  length-static_part off (is_bytes s) small = length-word off small
  length-static_part off (is_bytes_arr v) small = length-word off small
  length-static_part off (is_string s) small = length-word off small
  length-static_part off (is_string_arr v) small = length-word off small

  pub length-ge-static_part :
      {t : Types} {v : Var} (off : ℕ) → IsOfType t v → 32 ≤ length (static_part boost off v)
  unfolding static_part
  length-ge-static_part off (is_uint256 n h) = omega (arith, length-encode_uint256 boost laws n h)
  length-ge-static_part off (is_address a h) = omega (arith, length-encode_address a h)
  length-ge-static_part off (is_boolean b) = omega (arith, length-encode_bool b)
  length-ge-static_part off _ = length-ge-word off
