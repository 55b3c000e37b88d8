-- ===== src/Contract/NativeWrapper.antt =====
-- `NativeWrapper` of contract/nativewrapper.cpp: a token that is bought with native tokens and sold for
-- them. Its transfers, approvals, balances and allowances have the text of `ERC20`, and are as those after
-- the arguments are decoded; the state is that token and the native balances of the transaction. `here` is
-- the contract's own address.
pub mod Covered
pub mod Backed
pub mod Withdrawals
use orbitersdk_cpp.Prelude.{ℕ, Assoc}
use orbitersdk_cpp.Prelude.Exec.{Exec, ◌>>=◌, ◌>>◌}
use orbitersdk_cpp.Core.Chain.{Account}
use orbitersdk_cpp.Contract.Erc20 as Token
use orbitersdk_cpp.Contract.Erc20.{Erc20, on_balances, add_balance, sub_balance}
use orbitersdk_cpp.Contract.Interface.{send_tokens}

pub record NativeWrapper : Type 0 where
  pub token : Erc20
  pub native_balances : Assoc ℕ

abbrev pub on_token : {A : Type 0} → Exec Erc20 A → Exec NativeWrapper A
on_token f w = let (r, t) = f w.token in (r, record w { token = t })

abbrev pub on_native : {A : Type 0} → Exec (Assoc ℕ) A → Exec NativeWrapper A
on_native f w = let (r, b) = f w.native_balances in (r, record w { native_balances = b })

unfoldable pub deposit : ℕ → ℕ → Exec NativeWrapper (Unit {0})
deposit caller value = on_token (on_balances (add_balance caller value))

unfoldable pub transfer : ℕ → ℕ → ℕ → Exec NativeWrapper (Unit {0})
transfer caller to value = on_token (Token.transfer caller to value)

unfoldable pub approve : ℕ → ℕ → ℕ → Exec NativeWrapper (Unit {0})
approve caller spender value = on_token (Token.approve caller spender value)

unfoldable pub transfer_from : ℕ → ℕ → ℕ → ℕ → Exec NativeWrapper (Unit {0})
transfer_from caller from to value = on_token (Token.transfer_from caller from to value)

unfoldable pub balance_of : ℕ → NativeWrapper → ℕ
balance_of owner w = Token.balance_of owner w.token

unfoldable pub allowance : ℕ → ℕ → NativeWrapper → ℕ
allowance owner spender w = Token.allowance owner spender w.token

-- The functions of the contract that change something; `value` is that of the call.
pub data Call : Type 0 where
  call_transfer : (to value : ℕ) → Call
  call_approve : (spender value : ℕ) → Call
  call_transfer_from : (from to value : ℕ) → Call
  call_deposit : (value : ℕ) → Call
  call_withdraw : (value : ℕ) → Call

module _ (accounts : Assoc Account) (here : ℕ) where
  unfoldable pub withdraw : ℕ → ℕ → Exec NativeWrapper (Unit {0})
  withdraw caller value = do
    on_token (on_balances (sub_balance caller value))
    on_native (send_tokens accounts here caller value)

  unfoldable pub run : ℕ → Call → Exec NativeWrapper (Unit {0})
  unfolding transfer approve transfer_from deposit withdraw
  run caller (call_transfer to value) = transfer caller to value
  run caller (call_approve spender value) = approve caller spender value
  run caller (call_transfer_from from to value) = transfer_from caller from to value
  run caller (call_deposit value) = deposit caller value
  run caller (call_withdraw value) = withdraw caller value
