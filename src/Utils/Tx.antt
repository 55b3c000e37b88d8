-- ===== src/Utils/Tx.antt =====
-- Transactions of utils/tx.h and utils/tx.cpp as bytes. What the library secp256k1 does with a signature
-- and the hash `sha3` are parameters. Byte strings of a fixed length are lists of bytes.
pub mod Block
pub mod Validator
use orbitersdk_cpp.Prelude.{ℕ, Bool, List, Option}

-- `verifySig`; `recover` of the signature that `makeSig` gives, `none` for a key of zeros; `toAddress`.
pub record Secp256k1 : Type 0 where
  pub verify_sig : ℕ → ℕ → ℕ → Bool
  pub recover : ℕ → ℕ → ℕ → List ℕ → Option (List ℕ)
  pub to_address : List ℕ → List ℕ
