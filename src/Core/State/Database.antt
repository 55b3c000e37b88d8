-- ===== src/Core/State/Database.antt =====
-- How `State` keeps its accounts in the database: the destructor `~State` writes each account as a
-- byte string, and the constructor reads it back.
pub mod RoundTrip
use orbitersdk_cpp.Prelude.{
  ℕ, ◌+◌, ◌*◌, ◌%◌, ◌^◌, ◌<◌, ◌≤◌, ◌≡◌, refl, not, Bool, true, false, List, [], ◌∷◌, ◌++◌, Result,
  ok, err, runtime_error, length, ◌==◌, ltb, if◌then◌else◌, Assoc, arith,
}
use orbitersdk_cpp.Prelude.Throw.{◌>>=◌, ◌>>◌, throw_if}
use orbitersdk_cpp.Utils.Bytes.{
  bytes_required, uint_to_bytes, from_big_endian, from_big_endian_256, substr,
}
use orbitersdk_cpp.Core.Chain.{Account}

-- One byte 0, or the number of bytes and the bytes.
unfoldable pub sized : ℕ → List ℕ
sized n = if n == 0 then 0 ∷ [] else uint_to_bytes (bytes_required n) ++ uint_to_bytes n

-- The value that `~State` writes for an account
unfoldable pub serialize_account : Account → List ℕ
serialize_account account = sized account.balance ++ sized account.nonce

-- The body of the constructor's loop over the values; the sum of sizes is an `int`.
unfoldable pub load_account : List ℕ → Result Account
load_account bytes = do
  size_byte ← substr bytes 0 1
  let balance_size = from_big_endian 8 size_byte
  throw_if (ltb ((length bytes + 1) % 2 ^ 64) (length bytes)) runtime_error
  balance_bytes ← substr bytes 1 balance_size
  balance ← from_big_endian_256 balance_bytes
  nonce_byte ← substr bytes (1 + balance_size) 1
  let nonce_size = from_big_endian 8 nonce_byte
  throw_if (not (2 + balance_size + nonce_size == length bytes)) runtime_error
  nonce_bytes ← substr bytes (2 + balance_size) nonce_size
  ok (record { balance = balance; nonce = from_big_endian 64 nonce_bytes })
