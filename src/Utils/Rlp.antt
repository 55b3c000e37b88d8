-- ===== src/Utils/Rlp.antt =====
-- The parts of the RLP encoding of transactions in utils/tx.cpp, which the code repeats for each field.
-- A reader keeps, in place of `index`, the bytes from `index` on; a `std::string_view` past
-- the end of the bytes, which C++ leaves undefined, is the error `undefined`.
pub mod Reading
use orbitersdk_cpp.Prelude.{
  ℕ, ◌+◌, ◌-◌, ◌%◌, ◌^◌, Bool, true, false, not, List, [], ◌∷◌, ◌++◌, Result, ok, err,
  runtime_error, undefined, length, take, drop, ◌==◌, ltb, leb, if◌then◌else◌,
}
use orbitersdk_cpp.Prelude.Throw.{Error}
use orbitersdk_cpp.Utils.Bytes.{bytes_required, uint_to_bytes, from_big_endian, from_big_endian_256}

-- `char(n)`
abbrev pub char : ℕ → ℕ
char n = n % 256

-- `if (n == 0) … else if (n < 0x80) … else …`
unfoldable pub write_uint : ℕ → List ℕ
write_uint n =
    if n == 0
    then 0x80 ∷ []
    else if ltb n 0x80
    then char n ∷ []
    else char (bytes_required n + 0x80) ∷ uint_to_bytes n

-- The size that is counted for such a field
unfoldable pub uint_size : ℕ → ℕ
uint_size n = if ltb n 0x80 then 1 else 1 + bytes_required n

-- `r` and `s`
unfoldable pub write_signature_uint : ℕ → List ℕ
write_signature_uint n = char (bytes_required n + 0x80) ∷ uint_to_bytes n

unfoldable pub write_data : List ℕ → List ℕ
write_data bytes =
    if length bytes == 0
    then 0x80 ∷ []
    else if leb (length bytes) 55
    then char (length bytes + 0x80) ∷ bytes
    else char (bytes_required (length bytes) + 0xb7) ∷ (uint_to_bytes (length bytes) ++ bytes)

unfoldable pub data_size : List ℕ → ℕ
data_size bytes =
    if length bytes == 0
    then 1
    else if leb (length bytes) 55
    then 1 + length bytes
    else 1 + bytes_required (length bytes) + length bytes

-- The head of the list, from its size
unfoldable pub write_list_head : ℕ → List ℕ
write_list_head total_size =
    if leb total_size 55
    then char (total_size + 0xc0) ∷ []
    else char (bytes_required total_size + 0xf7) ∷ uint_to_bytes total_size

-- A step of reading: a value and the bytes that are left.
abbrev pub Reader : Type 0 → Type 0
Reader A = List ℕ → Result (A × List ℕ)

module _ {A : Type 0} where
  abbrev pub pure : A → Reader A
  pure a bytes = ok (a, bytes)

  abbrev pub throw : Error → Reader A
  throw e bytes = err e

  abbrev pub lift : Result A → Reader A
  lift (ok a) bytes = ok (a, bytes)
  lift (err e) bytes = err e

module _ {A B : Type 0} where
  abbrev pub continue : Result (A × List ℕ) → (A → Reader B) → Result (B × List ℕ)
  continue (err e) rest = err e
  continue (ok (a, bytes)) rest = rest a bytes

  infixl 5 ◌>>=◌ ◌>>◌
  abbrev pub ◌>>=◌ : Reader A → (A → Reader B) → Reader B
  ◌>>=◌ read rest bytes = continue (read bytes) rest

  abbrev pub ◌>>◌ : Reader A → Reader B → Reader B
  ◌>>◌ read rest = read >>= λ _. rest

abbrev pub throw_if : Bool → Error → Reader (Unit {0})
throw_if true e bytes = err e
throw_if false e bytes = ok (tt, bytes)

-- `bytes[index]`, and then `index++`
unfoldable pub read_byte : Reader ℕ
read_byte [] = err undefined
read_byte (b ∷ bytes) = ok (b, bytes)

-- `std::string_view(&bytes[index], n)`, and then `index += n`
unfoldable pub read_view : ℕ → Reader (List ℕ)
read_view n bytes = if leb n (length bytes) then ok (take n bytes, drop n bytes) else err undefined

-- `bytes.substr(index, n)`, and then `index += n`: it stops at the end of the bytes.
unfoldable pub read_substr : ℕ → Reader (List ℕ)
read_substr n bytes = ok (take n bytes, drop n bytes)

-- A field of an unsigned integer: `convert` is `Utils::fromBigEndian`, and `limit` the check of the length.
module _ (convert : List ℕ → Result ℕ) where
  unfoldable pub read_uint_bytes : Bool → ℕ → Reader ℕ
  unfolding read_view
  read_uint_bytes limit n = do
    throw_if (if limit then ltb 0x37 n else false) runtime_error
    bytes ← read_view n
    lift (convert bytes)

  unfoldable pub read_uint : Bool → Reader ℕ
  unfolding read_byte
  read_uint limit = do
    b ← read_byte
    let n = if leb 0x80 b then b - 0x80 else 0
    if not (n == 0)
        then read_uint_bytes limit n
        else lift (if b == 0x80 then ok 0 else convert (b ∷ []))

-- `r` and `s`; `most` is the greatest length that is accepted.
unfoldable pub read_signature_uint : ℕ → Reader ℕ
unfolding read_byte read_view
read_signature_uint most = do
  b ← read_byte
  let n = (b + 256 - 0x80) % 256
  throw_if (ltb most n) runtime_error
  bytes ← read_view n
  lift (from_big_endian_256 bytes)

-- `bytes.substr` of the length that the next `n` bytes give
unfoldable pub read_long_data : ℕ → Reader (List ℕ)
unfolding read_view read_substr
read_long_data n = do size ← read_view n; read_substr (from_big_endian 64 size)

-- `most` is the first byte that is no data: it is tested for in a TxBlock only.
unfoldable pub read_data : ℕ → Reader (List ℕ)
unfolding read_byte read_substr
read_data most = do
  b ← read_byte
  if ltb b 0x80
      then pure (b ∷ [])
      else if ltb b 0xb7
      then read_substr (b - 0x80)
      else if ltb b most
      then read_long_data (b - 0xb7)
      else throw runtime_error

-- The head of the list: at least 0xf7, and the size that it gives is that of the bytes that follow.
unfoldable pub read_list_head : Reader (Unit {0})
unfolding read_byte read_view
read_list_head bytes =
    (do
      b ← read_byte
      throw_if (ltb b 0xf7) runtime_error
      let list_length_size = b - 0xf7
      size ← read_view list_length_size
      let list_length = from_big_endian 64 size
      throw_if (ltb list_length (length bytes - list_length_size - 1)) runtime_error
      throw_if (ltb (length bytes - list_length_size - 1) list_length) runtime_error)
      bytes
