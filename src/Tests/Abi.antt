-- ===== src/Tests/Abi.antt =====
-- Runs of the ABI encoder and decoder, with a boost that exports the least number of bytes.
use orbitersdk_cpp.Prelude.{
  ℕ, ◌<◌, ◌≡◌, ◌^◌, refl, true, List, [], ◌∷◌, ◌++◌, length, ok, err, undefined, bad_lexical_cast,
  ltb, if◌then◌else◌, replicate, arith,
}
use orbitersdk_cpp.Utils.Bytes.{uint_to_bytes, from_big_endian}
use orbitersdk_cpp.Utils.Bytes.Digits.{length-uint_to_bytes, bytes_required_least}
use orbitersdk_cpp.Utils.Bytes.RoundTrip.{from_big_endian-uint_to_bytes}
use orbitersdk_cpp.Utils.Bytes.Wide.{Boost, IsBoost, uint256_to_bytes}
use orbitersdk_cpp.Contract.Abi.{
  Var, uint256_var, uint256_arr_var, address_var, bool_var, string_var, string_arr_var, Types,
  uint256, uint256_arr, address, boolean, bytes, string_arr,
}
use orbitersdk_cpp.Contract.Abi.Encoder.{word, encode_loop}
use orbitersdk_cpp.Utils.Bytes.Pad.{pad_left_bytes, pad_right_bytes}
use orbitersdk_cpp.Utils.Strings.{hash_of_uint256, resize}
use orbitersdk_cpp.Contract.Abi.Header.{encode, codes}
use orbitersdk_cpp.Contract.Abi.Decoder.{decode, decode_uint256_arr}
use orbitersdk_cpp.Contract.Abi.Arguments.{
  AreOfTypes, none_left, one_more, is_uint256, is_uint256_arr, is_address, is_boolean, is_bytes,
  is_string_arr,
}
use orbitersdk_cpp.Contract.Abi.RoundTrip.{body, decode-encode}
use orbitersdk_cpp.Contract.Abi.Unchecked.{decode_uint256_arr_wraps}

abbrev boost : Boost
boost = record {
  export_bits = uint_to_bytes;
  import_bits = from_big_endian 256;
  lexical_cast = λ n. if ltb n (2 ^ 64) then ok n else err bad_lexical_cast;
}

boost-IsBoost : IsBoost boost
boost-IsBoost = record {
  export-length = λ i k p h. rw (length-uint_to_bytes i) ((bytes_required_least i k).0 h);
  export-value = from_big_endian-uint_to_bytes 256;
  import-value = λ b h. refl;
  lexical_cast-small = λ i h. ground arith;
}

abbrev no_hash : List ℕ → List ℕ
no_hash s = replicate 32 0

-- Of each kind one: a number, a text, an address, an array of numbers, an array of texts, and a boolean
abbrev arguments : List Var
arguments =
    uint256_var 300
    ∷ (string_var (codes "orbiter")
        ∷ (address_var (replicate 20 7)
            ∷ (uint256_arr_var (1 ∷ (2 ^ 255 ∷ []))
                ∷ (string_arr_var (codes "a" ∷ ([] ∷ [])) ∷ (bool_var true ∷ [])))))

abbrev types : List Types
types = uint256 ∷ (bytes ∷ (address ∷ (uint256_arr ∷ (string_arr ∷ (boolean ∷ [])))))

arguments-AreOfTypes : AreOfTypes types arguments
arguments-AreOfTypes = one_more (is_uint256 300 (omega arith)) (
    one_more (is_bytes (codes "orbiter")) (
      one_more (is_address (replicate 20 7) refl) (
        one_more (is_uint256_arr (1 ∷ (2 ^ 255 ∷ [])) (omega arith)) (
          one_more (is_string_arr (codes "a" ∷ ([] ∷ [])))
            (one_more (is_boolean true) none_left)))))

arguments_short : length (body boost arguments) < 2 ^ 31
unfolding encode_loop hash_of_uint256 uint256_to_bytes resize pad_left_bytes pad_right_bytes
    uint_to_bytes
arguments_short = omega arith

decode-encode_example :
    (encode boost no_hash arguments [] ≡ ok (body boost arguments))
    × (decode boost types (body boost arguments) ≡ ok arguments)
decode-encode_example =
    decode-encode boost no_hash boost-IsBoost arguments-AreOfTypes arguments_short

-- An array of 2 ^ 59 numbers, none of which is there
abbrev huge : List ℕ
huge = word 32 ++ word (2 ^ 59)

decode_uint256_arr_wraps_example : decode_uint256_arr boost huge 0 ≡ err undefined
unfolding word pad_left_bytes uint_to_bytes
decode_uint256_arr_wraps_example =
    decode_uint256_arr_wraps boost boost-IsBoost huge 0 32 (2 ^ 59)
      (record { front = []; rest = word (2 ^ 59); split = refl; length-front = refl })
      (record { front = word 32; rest = []; split = refl; length-front = refl }) (omega arith)
      (omega arith) (omega arith) (omega arith)
