-- ===== src/Core/State/Calls.antt =====
-- How a transaction reaches a contract: `isContractCall`, `isPayable` and `callContract` of
-- contract/contractmanager.cpp. What a contract does is the parameter `eth_call`.
use orbitersdk_cpp.Prelude.{
  ℕ, Bool, false, ◌||◌, ok, err, runtime_error, Assoc, ◌==◌, if◌then◌else◌,
}
use orbitersdk_cpp.Prelude.Exec.{Exec, pure, lift, gets, ◌>>=◌, ◌>>◌}
use orbitersdk_cpp.Core.Chain.{TxBlock}
use orbitersdk_cpp.Core.State.{State, Contracts, process_contract_payable}

module _ {C : Type 0} (cm : Contracts C) where
  -- `ContractManager::isContractCall` and `isContractAddress`
  unfoldable pub is_contract_address : C → ℕ → Bool
  is_contract_address c to =
      to == cm.contract_manager_address || to == cm.rdpos_address || cm.exists c to

  -- `ContractManager::isPayable`
  unfoldable pub is_payable : C → TxBlock → Bool
  is_payable c tx = if cm.exists c tx.to then cm.is_payable_function c tx else false

module _ {C R : Type 0} (cm : Contracts C) where
  -- `ContractManager::callContract`: every exception is thrown again as a `runtime_error`
  unfoldable pub eth_call_rethrown : TxBlock → Exec (State C R) (Assoc ℕ)
  eth_call_rethrown tx s =
      let (r, c) = cm.eth_call tx s.accounts s.contracts in
      (elim r [ ok balances ↦ ok balances | err e ↦ err runtime_error ], record s { contracts = c })

  unfoldable pub call_contract : TxBlock → Exec (State C R) (Unit {0})
  unfolding eth_call_rethrown process_contract_payable
  call_contract tx = do
    c ← gets (λ s. s.contracts)
    if tx.to == cm.contract_manager_address || tx.to == cm.rdpos_address
        then (do eth_call_rethrown tx; pure tt)
        else if cm.exists c tx.to
        then (do
          balances ← eth_call_rethrown tx
          c' ← gets (λ s. s.contracts)
          if cm.is_payable_function c' tx then process_contract_payable balances else pure tt)
        else lift (err runtime_error)
