-- ===== src/Core/State/Database/RoundTrip.antt =====
-- An account that is written to the database is read back as it was.
use orbitersdk_cpp.Prelude.{
  ℕ, ◌+◌, ◌^◌, ◌<◌, ◌≡◌, refl, List, [], ◌∷◌, ◌++◌, ok, length, length-append, take-append,
  drop-append, arith,
}
use mathlib.Core.List.{append_assoc, append-nil}
use orbitersdk_cpp.Prelude.Throw.{◌>>=◌}
use orbitersdk_cpp.Utils.Bytes.{
  bytes_required, uint_to_bytes, from_big_endian, from_big_endian_256, substr,
}
use orbitersdk_cpp.Utils.Bytes.Digits.{
  uint_to_bytes_single, length-uint_to_bytes, bytes_required_least,
}
use orbitersdk_cpp.Utils.Bytes.RoundTrip.{
  from_big_endian-uint_to_bytes, from_big_endian_256-uint_to_bytes,
}
use orbitersdk_cpp.Core.Chain.{Account}
use orbitersdk_cpp.Core.State.Database.{sized, serialize_account, load_account}

one_byte : (k : ℕ) → k < 256 → from_big_endian 8 (k ∷ []) ≡ k
unfolding from_big_endian
one_byte k h = omega arith

substr_at :
    (pos n : ℕ) (before bytes after : List ℕ)
    → length before ≡ pos
    → length bytes ≡ n
    → substr (before ++ (bytes ++ after)) pos n ≡ ok bytes
unfolding substr
substr_at pos n before bytes after p q = ground (
  arith,
  p,
  q,
  length-append before (bytes ++ after),
  drop-append before (bytes ++ after),
  take-append bytes after,
)

substr_last :
    (balance nonce : List ℕ)
    → substr
        ((length balance ∷ balance) ++ (length nonce ∷ nonce))
        (2 + length balance)
        (length nonce)
      ≡ ok nonce
substr_last balance nonce =
    let lb = length balance in
    let ln = length nonce in
    simp (append_assoc, append-nil) at
      (substr_at (2 + lb) ln ((lb ∷ balance) ++ (ln ∷ [])) nonce []
        (omega (arith, length-append balance (ln ∷ []))) refl)

load_lem :
    (balance nonce : List ℕ)
    → length balance < 256
    → length nonce < 256
    → load_account ((length balance ∷ balance) ++ (length nonce ∷ nonce)) ≡ (
        from_big_endian_256 balance >>= λ b.
        ok (record { balance = b; nonce = from_big_endian 64 nonce }))
unfolding load_account
load_lem balance nonce hb hn =
    let lb = length balance in
    let ln = length nonce in
    ground (
      arith,
      substr_at 0 1 [] (lb ∷ []) (balance ++ (ln ∷ nonce)) refl refl,
      substr_at 1 lb (lb ∷ []) balance (ln ∷ nonce) refl refl,
      substr_at (1 + lb) 1 (lb ∷ balance) (ln ∷ []) nonce (omega arith) refl,
      substr_last balance nonce,
      one_byte lb hb,
      one_byte ln hn,
      length-append balance (ln ∷ nonce),
    )

sized_lem : (n : ℕ) → n < 2 ^ 256 → sized n ≡ length (uint_to_bytes n) ∷ uint_to_bytes n
unfolding sized
sized_lem n h = ground (
  arith,
  length-uint_to_bytes n,
  bytes_required_least n 32,
  bytes_required_least n 0,
  uint_to_bytes_single (bytes_required n),
)

sized_bytes : (n : ℕ) → n < 2 ^ 256 → length (uint_to_bytes n) < 256
sized_bytes n h = omega (arith, length-uint_to_bytes n, (bytes_required_least n 32).0 h)

-- What `~State` writes for an account with a balance of at most 256 bits and a nonce of at most 64
-- bits, the constructor reads back as the same account, and does not throw.
pub load_account-serialize_account :
    (account : Account)
    → account.balance < 2 ^ 256
    → account.nonce < 2 ^ 64
    → load_account (serialize_account account) ≡ ok account
unfolding serialize_account
load_account-serialize_account account hb hn = rw (
  sized_lem account.balance hb,
  sized_lem account.nonce (omega arith),
  load_lem (uint_to_bytes account.balance) (uint_to_bytes account.nonce)
      (sized_bytes account.balance hb) (sized_bytes account.nonce (omega arith)),
  from_big_endian_256-uint_to_bytes account.balance hb,
  from_big_endian-uint_to_bytes 64 account.nonce hn,
)
