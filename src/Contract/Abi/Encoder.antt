-- ===== src/Contract/Abi/Encoder.antt =====
-- `ABI::Encoder`: the encodings of single values, and the loop of the constructor. The `int`s of the
-- source are numbers: texts of 2 ^ 31 bytes or more are beyond this model.
use orbitersdk_cpp.Prelude.{
  ℕ, zero, suc, ◌+◌, ◌*◌, ◌/◌, ◌%◌, ◌^◌, Bool, List, [], ◌∷◌, ◌++◌, length, drop, ◌==◌, ltb,
  if◌then◌else◌,
}
use orbitersdk_cpp.Utils.Bytes.{uint_to_bytes}
use orbitersdk_cpp.Utils.Bytes.Pad.{pad_left_bytes, pad_right_bytes}
use orbitersdk_cpp.Utils.Bytes.Wide.{Boost}
use orbitersdk_cpp.Utils.Strings.{hash_of_uint256}
use orbitersdk_cpp.Contract.Abi.{
  Var, uint256_var, uint256_arr_var, address_var, address_arr_var, bool_var, bool_arr_var,
  string_var, string_arr_var,
}

-- `Utils::padLeftBytes(Utils::uintToBytes(n), 32)`
unfoldable pub word : ℕ → List ℕ
word n = pad_left_bytes (uint_to_bytes n) 32

unfoldable pub encode_address : List ℕ → List ℕ
encode_address add = pad_left_bytes add 32

-- The C string "\x00" is empty.
unfoldable pub encode_bool : Bool → List ℕ
encode_bool b = pad_left_bytes (if b then 1 ∷ [] else []) 32

-- `do { pad += 32; } while (pad < length)`; the fuel is more than the rounds.
unfoldable pub pad_loop : ℕ → ℕ → ℕ → ℕ
pad_loop zero pad n = pad
pad_loop (suc fuel) pad n =
    let more = pad_loop fuel (pad + 32) n in if ltb (pad + 32) n then more else pad + 32

unfoldable pub pad_size : ℕ → ℕ
unfolding pad_loop
pad_size n = pad_loop (suc n) 0 n

unfoldable pub encode_bytes : List ℕ → List ℕ
unfolding word pad_size
encode_bytes bytes = word (length bytes) ++ pad_right_bytes bytes (pad_size (length bytes))

unfoldable pub concat {ℓ} : {A : Type ℓ} → (A → List ℕ) → List A → List ℕ
concat encode [] = []
concat encode (x ∷ xs) = encode x ++ concat encode xs

-- The offset 32, the number of items, and the items
unfoldable pub encode_arr {ℓ} : {A : Type ℓ} → (A → List ℕ) → List A → List ℕ
unfolding word concat
encode_arr encode items =
    pad_left_bytes (0x20 ∷ []) 32 ++ (word (length items) ++ concat encode items)

unfoldable pub encode_address_arr : List (List ℕ) → List ℕ
unfolding encode_arr encode_address
encode_address_arr add_v = encode_arr encode_address add_v

unfoldable pub encode_bool_arr : List Bool → List ℕ
unfolding encode_arr encode_bool
encode_bool_arr b_v = encode_arr encode_bool b_v

-- `bS.insert(0, "\x00")` inserts the empty C string.
abbrev pub completed : List ℕ → List ℕ
completed b_s = if length b_s % 2 == 0 then b_s else [] ++ b_s

-- `bytesOff` in order: `n` is `bytesV.size()`.
unfoldable pub bytes_off : ℕ → ℕ → ℕ → List (List ℕ) → List ℕ
unfolding word pad_size
bytes_off n i pads [] = []
bytes_off n i pads (b_s ∷ more) =
    word (32 * n + 32 * i + 32 * pads)
    ++ bytes_off n (i + 1) (pads + pad_size (length (completed b_s)) / 32) more

-- `bytesLen[i] + bytesData[i]`
unfoldable pub bytes_len_data : List ℕ → List ℕ
unfolding word pad_size
bytes_len_data b_s =
    let stripped = completed b_s in
    word (length stripped)
    ++ pad_right_bytes (pad_right_bytes stripped (pad_size (length stripped))) 32

unfoldable pub encode_bytes_arr : List (List ℕ) → List ℕ
unfolding word bytes_off bytes_len_data concat
encode_bytes_arr bytes_v =
    pad_left_bytes (0x20 ∷ []) 32
    ++ (word (length bytes_v)
        ++ (bytes_off (length bytes_v) 0 0 bytes_v ++ concat bytes_len_data bytes_v))

module _ (boost : Boost) where
  unfoldable pub encode_uint256 : ℕ → List ℕ
  encode_uint256 num = hash_of_uint256 boost num

  unfoldable pub encode_uint256_arr : List ℕ → List ℕ
  unfolding encode_arr encode_uint256
  encode_uint256_arr num_v = encode_arr encode_uint256 num_v

  -- What an argument adds to `data`, given `nextOffset`
  unfoldable pub static_part : ℕ → Var → List ℕ
  unfolding encode_uint256 encode_address encode_bool word
  static_part next_offset (uint256_var n) = encode_uint256 n
  static_part next_offset (address_var a) = encode_address a
  static_part next_offset (bool_var b) = encode_bool b
  static_part next_offset _ = word next_offset

  -- What it adds to `dynamicStr`
  unfoldable pub dynamic_part : Var → List ℕ
  unfolding encode_bytes encode_uint256_arr encode_address_arr encode_bool_arr encode_bytes_arr
  dynamic_part (string_var s) = encode_bytes s
  dynamic_part (uint256_arr_var arg) = drop 32 (encode_uint256_arr arg)
  dynamic_part (address_arr_var arg) = drop 32 (encode_address_arr arg)
  dynamic_part (bool_arr_var arg) = drop 32 (encode_bool_arr arg)
  dynamic_part (string_arr_var arg) = drop 32 (encode_bytes_arr arg)
  dynamic_part _ = []

  -- What it adds to `nextOffset`
  unfoldable pub offset_part : Var → ℕ
  unfolding dynamic_part
  offset_part (string_var s) = 32 * (length (encode_bytes s) / 32)
  offset_part (uint256_arr_var arg) = 32 + 32 * length arg
  offset_part (address_arr_var arg) = 32 + 32 * length arg
  offset_part (bool_arr_var arg) = 32 + 32 * length arg
  offset_part (string_arr_var arg) = 32 * (length (drop 32 (encode_bytes_arr arg)) / 32)
  offset_part _ = 0

  -- The loop over the arguments, from `data`, `nextOffset` and `dynamicStr`
  unfoldable pub encode_loop : List ℕ → ℕ → List ℕ → List Var → List ℕ
  unfolding static_part dynamic_part offset_part
  encode_loop out next_offset dynamic_str [] = out ++ dynamic_str
  encode_loop out next_offset dynamic_str (arg ∷ more) =
      encode_loop (out ++ static_part next_offset arg) ((next_offset + offset_part arg) % 2 ^ 64)
        (dynamic_str ++ dynamic_part arg) more
