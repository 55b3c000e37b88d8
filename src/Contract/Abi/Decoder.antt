-- ===== src/Contract/Abi/Decoder.antt =====
-- `ABI::Decoder`. `std::copy` and `operator[]` do not check their ranges: what lies past the end is
-- undefined. The offsets of the source are of 64 bits; a product `i * 32` in a loop is read before it
-- could wrap.
use orbitersdk_cpp.Prelude.{
  ℕ, zero, suc, ◌+◌, ◌*◌, ◌%◌, ◌^◌, Bool, true, Option, none, some, List, [], ◌∷◌, length, take,
  drop, get_elem?, Result, ok, err, runtime_error, out_of_range, undefined, ◌==◌, ltb, leb,
  if◌then◌else◌,
}
use orbitersdk_cpp.Prelude.Throw.{◌>>=◌, ◌>>◌, throw_if}
use orbitersdk_cpp.Utils.Bytes.Wide.{Boost, bytes_to_uint256}
use orbitersdk_cpp.Utils.Strings
use orbitersdk_cpp.Contract.Abi.{
  Var, uint256_var, uint256_arr_var, address_var, address_arr_var, bool_var, bool_arr_var,
  string_var, string_arr_var, Types, uint256, uint256_arr, address, address_arr, boolean,
  boolean_arr, bytes, bytes_arr, string, string_arr,
}

-- `std::copy(data.begin() + from, data.begin() + from + n, std::back_inserter(tmp))`
unfoldable pub copy : List ℕ → ℕ → ℕ → Result (List ℕ)
copy text from n =
    if leb (from + n) (length text) then ok (take n (drop from text)) else err undefined

-- `data[i] == 0x01`
unfoldable pub is_one : List ℕ → ℕ → Result Bool
is_one text i = elim (get_elem? text i) [ none ↦ err undefined | some b ↦ ok (b == 1) ]

-- A loop that reads the items `i`, `i + 1` and so on
unfoldable pub read_items {ℓ} : {A : Type ℓ} → (ℕ → Result A) → ℕ → ℕ → Result (List A)
read_items item zero i = ok []
read_items item (suc n) i = do v ← item i; more ← read_items item n (i + 1); ok (v ∷ more)

unfoldable pub decode_bool : List ℕ → ℕ → Result Bool
unfolding is_one
decode_bool text start = do
  throw_if (ltb (length text) ((start + 32) % 2 ^ 64)) runtime_error
  is_one text (start + 31)

unfoldable pub decode_address : List ℕ → ℕ → Result (List ℕ)
unfolding copy
decode_address text start = do
  throw_if (ltb (length text) ((start + 32) % 2 ^ 64)) runtime_error
  tmp ← copy text (start + 12) 20
  Strings.address tmp true

module _ (boost : Boost) where
  -- `Utils::bytesToUint256` of the 32 bytes at `from`
  unfoldable pub word_at : List ℕ → ℕ → Result ℕ
  unfolding copy
  word_at text from = do tmp ← copy text from 32; bytes_to_uint256 boost tmp

  -- The same, cast to 64 bits: an offset or a length
  unfoldable pub offset_at : List ℕ → ℕ → Result ℕ
  unfolding word_at
  offset_at text from = do n ← word_at text from; boost.lexical_cast n

  unfoldable pub decode_uint256 : List ℕ → ℕ → Result ℕ
  unfolding word_at
  decode_uint256 text start = do
    throw_if (ltb (length text) ((start + 32) % 2 ^ 64)) runtime_error
    word_at text start

  unfoldable pub decode_bytes : List ℕ → ℕ → Result (List ℕ)
  unfolding offset_at copy
  decode_bytes text start = do
    bytes_start ← offset_at text start
    bytes_length ← offset_at text bytes_start
    throw_if (ltb (length text) ((start + 32 + 32 + bytes_length) % 2 ^ 64)) runtime_error
    copy text (bytes_start + 32) bytes_length

  -- The decoders of arrays of words, which differ in how they read the item at an index.
  unfoldable pub decode_arr {ℓ} : {A : Type ℓ} → (ℕ → Result A) → List ℕ → ℕ → Result (List A)
  unfolding offset_at read_items
  decode_arr item text start = do
    array_start ← offset_at text start
    array_length ← offset_at text array_start
    throw_if (ltb (length text) ((array_start + 32 + array_length * 32) % 2 ^ 64)) runtime_error
    read_items (λ i. item (array_start + 32 + i * 32)) array_length 0

  unfoldable pub decode_uint256_arr : List ℕ → ℕ → Result (List ℕ)
  unfolding decode_arr word_at
  decode_uint256_arr text start = decode_arr (word_at text) text start

  unfoldable pub decode_address_arr : List ℕ → ℕ → Result (List (List ℕ))
  unfolding decode_arr copy
  decode_address_arr text start =
      decode_arr (λ at. copy text (at + 12) 20 >>= λ tmp. Strings.address tmp true) text start

  unfoldable pub decode_bool_arr : List ℕ → ℕ → Result (List Bool)
  unfolding decode_arr is_one
  decode_bool_arr text start = decode_arr (λ at. is_one text (at + 31)) text start

  -- The text at the index `i` of an array
  unfoldable pub bytes_at : List ℕ → ℕ → ℕ → Result (List ℕ)
  unfolding offset_at copy
  bytes_at text array_start i = do
    offset ← offset_at text (array_start + 32 + i * 32)
    let bytes_start = (offset + array_start + 32) % 2 ^ 64
    bytes_length ← offset_at text bytes_start
    throw_if (ltb (length text) ((bytes_start + 32 + bytes_length) % 2 ^ 64)) runtime_error
    copy text (bytes_start + 32) bytes_length

  unfoldable pub decode_bytes_arr : List ℕ → ℕ → Result (List (List ℕ))
  unfolding offset_at read_items bytes_at
  decode_bytes_arr text start = do
    array_start ← offset_at text start
    array_length ← offset_at text array_start
    read_items (bytes_at text array_start) array_length 0

  unfoldable pub decode_var : Types → List ℕ → ℕ → Result Var
  unfolding decode_uint256 decode_uint256_arr decode_address decode_address_arr decode_bool
      decode_bool_arr decode_bytes decode_bytes_arr
  decode_var uint256 text start = do n ← decode_uint256 text start; ok (uint256_var n)
  decode_var uint256_arr text start = do ns ← decode_uint256_arr text start; ok (uint256_arr_var ns)
  decode_var address text start = do a ← decode_address text start; ok (address_var a)
  decode_var address_arr text start = do v ← decode_address_arr text start; ok (address_arr_var v)
  decode_var boolean text start = do b ← decode_bool text start; ok (bool_var b)
  decode_var boolean_arr text start = do v ← decode_bool_arr text start; ok (bool_arr_var v)
  decode_var bytes text start = do b ← decode_bytes text start; ok (string_var b)
  decode_var string text start = do b ← decode_bytes text start; ok (string_var b)
  decode_var bytes_arr text start = do v ← decode_bytes_arr text start; ok (string_arr_var v)
  decode_var string_arr text start = do v ← decode_bytes_arr text start; ok (string_arr_var v)

  -- The loop of the constructor, from `dataIdx`
  unfoldable pub decode_loop : List Types → List ℕ → ℕ → Result (List Var)
  unfolding decode_var
  decode_loop [] text start = ok []
  decode_loop (type ∷ types) text start = do
    v ← decode_var type text start
    more ← decode_loop types text ((start + 32) % 2 ^ 64)
    ok (v ∷ more)

  unfoldable pub decode : List Types → List ℕ → Result (List Var)
  unfolding decode_loop
  decode types text = decode_loop types text 0

-- `getData<T>`: `alternative` says whether the value is of type `T`, and gets it.
unfoldable pub get_data {ℓ} : {A : Type ℓ} → (Var → Option A) → List Var → ℕ → Result A
get_data alternative values index = elim (get_elem? values index) [
  | none ↦ err out_of_range
  | some v ↦ elim (alternative v) [ none ↦ err runtime_error | some a ↦ ok a ]
]
