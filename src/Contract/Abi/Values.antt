-- ===== src/Contract/Abi/Values.antt =====
-- Each kind of value, as the decoder finds it in what the encoder wrote.
use orbitersdk_cpp.Prelude.{
  ℕ, ◌+◌, ◌^◌, ◌<◌, ◌≡◌, refl, All, Bool, true, false, List, [], ◌∷◌, length, length-replicate,
  replicate, Result, ok, take-length, arith,
}
use mathlib.Core.List.{append-nil}
use orbitersdk_cpp.Prelude.Throw.{◌>>=◌}
use orbitersdk_cpp.Utils.Bytes.Pad.{pad_left_bytes, length-pad_left_bytes, padding}
use orbitersdk_cpp.Utils.Bytes.Wide.{
  Boost, IsBoost, uint256_to_bytes, length-uint256_to_bytes, bytes_to_uint256-uint256_to_bytes,
}
use orbitersdk_cpp.Utils.Bytes.Windows.{Holds, Holds-right, get_elem?-Holds}
use orbitersdk_cpp.Utils.Strings
use orbitersdk_cpp.Contract.Abi.Encoder.{encode_address, encode_bool, encode_uint256}
use orbitersdk_cpp.Contract.Abi.Decoder.{copy, is_one, word_at}
use orbitersdk_cpp.Contract.Abi.Words.{copy-Holds}
use orbitersdk_cpp.Contract.Abi.Items.{Reads}

pub length-encode_address : (a : List ℕ) → length a ≡ 20 → length (encode_address a) ≡ 32
unfolding encode_address
length-encode_address a h = length-pad_left_bytes a 32 (omega (arith, h))

pub length-encode_bool : (b : Bool) → length (encode_bool b) ≡ 32
unfolding encode_bool pad_left_bytes
length-encode_bool true = refl
length-encode_bool false = refl

-- The abstract readers of a word: what stands at an index, as an item of an array
abbrev pub address_at : List ℕ → ℕ → Result (List ℕ)
address_at text at = copy text (at + 12) 20 >>= λ tmp. Strings.address tmp true

module _ (text : List ℕ) (at : ℕ) where
  -- An address stands in the last 20 bytes of its word.
  pub address_at-encode_address :
      (a : List ℕ) → length a ≡ 20 → Holds text at (encode_address a) → address_at text at ≡ ok a
  unfolding encode_address pad_left_bytes Strings.address
  address_at-encode_address a h k =
      let zeros : List ℕ = replicate (padding a 32) 0 in
      let twelve : at + length zeros ≡ at + 12 =
        ground (arith, length-replicate {A = ℕ} (padding a 32) 0, h) in
      rw (copy-Holds 20 (rw twelve at (Holds-right zeros k)) h, h) refl

  -- A boolean is the last byte of its word.
  pub is_one-encode_bool : (b : Bool) → Holds text at (encode_bool b) → is_one text (at + 31) ≡ ok b
  unfolding encode_bool pad_left_bytes is_one
  is_one-encode_bool true h = rw (get_elem?-Holds 31 h (omega arith), is_one) refl
  is_one-encode_bool false h = rw (get_elem?-Holds 31 h (omega arith), is_one) refl

module _ (boost : Boost) (laws : IsBoost boost) where
  encode_uint256_lem : (n : ℕ) → n < 2 ^ 256 → encode_uint256 boost n ≡ uint256_to_bytes boost n
  unfolding encode_uint256 Strings.hash_of_uint256 Strings.resize
  encode_uint256_lem n h =
      let bytes : List ℕ = uint256_to_bytes boost n in
      let width : length bytes ≡ 32 = length-uint256_to_bytes boost laws n h in
      rw (width, append-nil bytes, ← width) (take-length bytes)

  pub length-encode_uint256 : (n : ℕ) → n < 2 ^ 256 → length (encode_uint256 boost n) ≡ 32
  length-encode_uint256 n h = rw (encode_uint256_lem n h) (length-uint256_to_bytes boost laws n h)

  pub word_at-encode_uint256 :
      (text : List ℕ) (at n : ℕ)
      → n < 2 ^ 256
      → Holds text at (encode_uint256 boost n)
      → word_at boost text at ≡ ok n
  unfolding word_at
  word_at-encode_uint256 text at n h k =
      rw (copy-Holds 32 k (length-encode_uint256 n h), encode_uint256_lem n h)
        (bytes_to_uint256-uint256_to_bytes boost laws n h)

  pub uint256_Reads :
      (text : List ℕ) (n : ℕ)
      → n < 2 ^ 256
      → Reads (encode_uint256 boost) (word_at boost text) text n
  uint256_Reads text n h = record {
    width = length-encode_uint256 n h;
    reads = λ at. word_at-encode_uint256 text at n h;
  }

pub address_Reads :
    (text a : List ℕ) → length a ≡ 20 → Reads encode_address (address_at text) text a
address_Reads text a h = record {
  width = length-encode_address a h;
  reads = λ at. address_at-encode_address text at a h;
}

pub bool_Reads : (text : List ℕ) (b : Bool) → Reads encode_bool (λ at. is_one text (at + 31)) text b
bool_Reads text b = record {
  width = length-encode_bool b;
  reads = λ at. is_one-encode_bool text at b;
}

-- What holds of every item carries over to another property.
pub All-map {ℓ κ μ} :
    {A : Type ℓ} {P : A → Type κ} {Q : A → Type μ} (f : (x : A) → P x → Q x) (xs : List A)
    → All P xs
    → All Q xs
All-map f [] h = tt
All-map f (x ∷ xs) (h, hs) = (f x h, All-map f xs hs)

pub All-always {ℓ κ} : {A : Type ℓ} {P : A → Type κ} → ((x : A) → P x) → (xs : List A) → All P xs
All-always f [] = tt
All-always f (x ∷ xs) = (f x, All-always f xs)
