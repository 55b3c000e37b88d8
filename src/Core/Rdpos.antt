-- ===== src/Core/Rdpos.antt =====
-- The consensus of core/rdpos.h and core/rdpos.cpp: who may sign the next block and take part in its
-- randomness, and what a block must hold. `sha3` (Keccak, of the ethash library) is a parameter.
pub mod Shuffle
pub mod Blocks
pub mod Pool
pub mod Interface
pub mod Live
use orbitersdk_cpp.Prelude.{
  ℕ, zero, suc, ◌+◌, ◌*◌, ◌%◌, ◌^◌, Bool, true, false, not, ◌&&◌, ◌||◌, Option, none, some, List,
  [], ◌∷◌, Result, ok, err, runtime_error, undefined, Assoc, insert, contains, length, get_elem?,
  take, drop, all, ◌==◌, if◌then◌else◌,
}
use orbitersdk_cpp.Core.Chain.{TxValidator, Block}

-- `minValidators`
abbrev pub min_validators : ℕ
min_validators = 4

pub record Rdpos : Type 0 where
  pub validators : List ℕ
  pub random_list : List ℕ
  pub validator_mempool : Assoc TxValidator
  pub best_random_seed : ℕ
  pub seed : ℕ

-- `enum TxValidatorFunction`
pub data TxValidatorFunction : Type 0 where
  invalid randomhash randomseed : TxValidatorFunction

-- `==` of two byte strings
unfoldable pub bytes_eq : List ℕ → List ℕ → Bool
bytes_eq [] [] = true
bytes_eq (x ∷ xs) (y ∷ ys) = x == y && bytes_eq xs ys
bytes_eq _ _ = false

abbrev pub random_hash_functor : List ℕ
random_hash_functor = 0xcf ∷ 0xff ∷ 0xe7 ∷ 0x46 ∷ []

abbrev pub random_seed_functor : List ℕ
random_seed_functor = 0x6f ∷ 0xc5 ∷ 0xa2 ∷ 0xd6 ∷ []

unfoldable pub get_tx_validator_function : TxValidator → TxValidatorFunction
unfolding bytes_eq
get_tx_validator_function tx =
    if not (length tx.bytes == 36)
    then invalid
    else if bytes_eq (take 4 tx.bytes) random_hash_functor
    then randomhash
    else if bytes_eq (take 4 tx.bytes) random_seed_functor
    then randomseed
    else invalid

-- `v[i]`
abbrev pub at {ℓ} : {A : Type ℓ} → List A → ℕ → Result A
at xs i = elim (get_elem? xs i) [ none ↦ err undefined | some x ↦ ok x ]
