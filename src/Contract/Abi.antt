-- ===== src/Contract/Abi.antt =====
-- The ABI of Solidity, contract/abi.h and contract/abi.cpp: the values that the encoder takes and the
-- types that the decoder is given.
pub mod Encoder
pub mod Header
pub mod Decoder
pub mod Words
pub mod Items
pub mod Texts
pub mod Values
pub mod Arguments
pub mod RoundTrip
pub mod Unchecked
use orbitersdk_cpp.Prelude.{ℕ, Bool, List}

-- An alternative of `EncVar`: addresses and strings are lists of bytes.
pub data Var : Type 0 where
  uint256_var : ℕ → Var
  uint256_arr_var : List ℕ → Var
  address_var : List ℕ → Var
  address_arr_var : List (List ℕ) → Var
  bool_var : Bool → Var
  bool_arr_var : List Bool → Var
  string_var : List ℕ → Var
  string_arr_var : List (List ℕ) → Var

pub data Types : Type 0 where
  uint256 uint256_arr address address_arr boolean boolean_arr bytes bytes_arr string string_arr :
      Types
