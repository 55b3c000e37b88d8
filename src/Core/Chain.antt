-- ===== src/Core/Chain.antt =====
-- What the core reads of transactions and blocks: the values that the getters of utils/tx.h and
-- utils/block.h return, and the entry of an account (utils/utils.h). Addresses, hashes and the other
-- fixed byte strings are only compared there, and are numbers; signatures are checked and
-- hashes computed before these records are made.
use orbitersdk_cpp.Prelude.{
  ℕ, ◌*◌, ◌+◌, ◌^◌, Bool, List, Result, ok, err, overflow_error, ltb, if◌then◌else◌,
}
use orbitersdk_cpp.Prelude.Throw.{◌>>=◌}

-- `Account`
pub record Account : Type 0 where
  pub balance : ℕ
  pub nonce : ℕ

abbrev pub no_account : Account
no_account = record { balance = 0; nonce = 0 }

-- `TxBlock`
pub record TxBlock : Type 0 where
  pub hash : ℕ
  pub from : ℕ
  pub to : ℕ
  pub value : ℕ
  pub nonce : ℕ
  pub gas_limit : ℕ
  pub max_fee_per_gas : ℕ
  pub functor : List ℕ

-- `TxValidator`; `bytes` is `getData()`
pub record TxValidator : Type 0 where
  pub hash : ℕ
  pub from : ℕ
  pub n_height : ℕ
  pub bytes : List ℕ

-- `Block`; `signer` is `Secp256k1::toAddress(getValidatorPubKey())`
pub record Block : Type 0 where
  pub hash : ℕ
  pub prev_block_hash : ℕ
  pub n_height : ℕ
  pub timestamp : ℕ
  pub finalized : Bool
  pub signer : ℕ
  pub block_randomness : ℕ
  pub txs : List TxBlock
  pub tx_validators : List TxValidator

-- A result of checked `uint256_t` arithmetic: it throws where 256 bits do not hold it.
unfoldable pub checked_256 : ℕ → Result ℕ
checked_256 n = if ltb n (2 ^ 256) then ok n else err overflow_error

-- `tx.getValue() + (tx.getGasLimit() * tx.getMaxFeePerGas())`
unfoldable pub value_with_fees : TxBlock → Result ℕ
unfolding checked_256
value_with_fees tx = do
  fees ← checked_256 (tx.gas_limit * tx.max_fee_per_gas)
  checked_256 (tx.value + fees)
