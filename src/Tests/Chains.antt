-- ===== src/Tests/Chains.antt =====
-- Runs of the state on the small chain.
use orbitersdk_cpp.Prelude.{
  ◌≡◌, ◌≢◌, ◌%◌, ℕ, ◌↔◌, refl, ◌<◌, ◌≤◌, ◌+◌, ◌^◌, true, false, ok, runtime_error, some, none,
  arith, lookup, if◌then◌else◌, ◌&&◌, ◌||◌, ◌==◌,
}
use orbitersdk_cpp.Core.Chain.{checked_256, value_with_fees}
use orbitersdk_cpp.Core.State.Transactions.{process_transaction}
use orbitersdk_cpp.Core.State.Transactions.Outcomes.{balance_of}
use orbitersdk_cpp.Core.State.Transactions.Effects.{
  Transferred, process_transaction-Transferred, process_transaction_overdrawn,
}
use orbitersdk_cpp.Core.State.Transactions.Failures.{process_transaction_failed_call}
use orbitersdk_cpp.Core.State.Validation.{Verdict, validate_transaction_internal-Verdict}
use orbitersdk_cpp.Core.State.Blocks.Links.{
  Accepted, validate_next_block_iff_Accepted, Outcome, process_next_block-Outcome,
  process_next_block-IsLinked, IsLinked,
}
use orbitersdk_cpp.Core.State.Blocks.Refresh.{IsMempool, includes, kept, refresh_mempool-survivors}
use orbitersdk_cpp.Core.State.Blocks.Mempool.{accepts, add_tx-admits}
use orbitersdk_cpp.Core.State.Blocks.{
  validate_next_block, process_next_block, refresh_mempool, add_tx, is_tx_in_mempool,
}
use orbitersdk_cpp.Core.State.{validate_transaction_internal, account_at}
use orbitersdk_cpp.Core.State.Calls.{is_contract_address, is_payable}
use orbitersdk_cpp.Core.Rdpos.Interface.{rdpos_consensus, Signed, process_next_block-Signed}
use orbitersdk_cpp.Tests.Data.{
  payment, overdraft, call, accounts, contracts, sha3, next_seed, next_block, state,
}

payment_priced : value_with_fees payment ≡ ok 6
unfolding value_with_fees checked_256
payment_priced = refl

overdraft_priced : value_with_fees overdraft ≡ ok 51
unfolding value_with_fees checked_256
overdraft_priced = refl

call_priced : value_with_fees call ≡ ok 6
unfolding value_with_fees checked_256
call_priced = refl

payer_known : lookup 1 accounts ≡ some (record { balance = 10; nonce = 0 })
unfolding lookup
payer_known = refl

payer_balance : balance_of 1 accounts ≡ 10
unfolding lookup account_at
payer_balance = refl

payer_pays : 6 ≤ balance_of 1 accounts
payer_pays = rw payer_balance (omega arith)

payer_lacks : balance_of 1 accounts < 51
payer_lacks = rw payer_balance (omega arith)

receiver_fits : balance_of 2 accounts + 5 < 2 ^ 256
unfolding lookup account_at
receiver_fits = omega arith

state_IsMempool : IsMempool state.mempool
unfolding lookup value_with_fees checked_256
state_IsMempool = ((refl, refl), refl, tt)

genesis_IsLinked : IsLinked state.latest state.blocks
genesis_IsLinked = tt

plain_receiver : is_contract_address contracts tt 2 ≡ false
unfolding is_contract_address
plain_receiver = refl

process_transaction-Transferred_example :
    ((process_transaction contracts payment state).0 ≡ ok tt)
    × Transferred payment 6 accounts (process_transaction contracts payment state).1.accounts
    × ((process_transaction contracts payment state).1.mempool ≡ state.mempool)
process_transaction-Transferred_example =
    process_transaction-Transferred contracts payment state payer_known payment_priced payer_pays
      receiver_fits (ground arith) plain_receiver

-- What the subtraction leaves of 10 if it throws at 51
overdraft_fits : contracts.after_underflow (balance_of 1 accounts) 51 + 50 < 2 ^ 256
overdraft_fits = rw payer_balance (omega arith)

process_transaction_overdrawn_example :
    let after = (process_transaction contracts overdraft state).1 in
    ((process_transaction contracts overdraft state).0 ≡ ok tt)
    × (account_at 1 after.accounts ≡ (record {
      balance = contracts.after_underflow (balance_of 1 accounts) 51 + 50;
      nonce = ((account_at 1 accounts).nonce + 1) % 2 ^ 64;
    }))
    × ((j : ℕ) → j ≢ 1 → account_at j after.accounts ≡ account_at j accounts)
    × (after.contracts ≡ state.contracts)
    × (after.mempool ≡ state.mempool)
process_transaction_overdrawn_example =
    process_transaction_overdrawn contracts overdraft state payer_known overdraft_priced payer_lacks
      overdraft_fits

validate_transaction_internal-Verdict_example :
    Verdict state payment (validate_transaction_internal state payment)
validate_transaction_internal-Verdict_example = validate_transaction_internal-Verdict state payment

process_next_block-Outcome_example :
    Outcome contracts
      (rdpos_consensus sha3 next_seed)
      state
      next_block
      (process_next_block contracts (rdpos_consensus sha3 next_seed) next_block state)
process_next_block-Outcome_example =
    process_next_block-Outcome contracts (rdpos_consensus sha3 next_seed) state next_block

process_next_block-IsLinked_example :
    let s = (process_next_block contracts (rdpos_consensus sha3 next_seed) next_block state).1 in
    IsLinked s.latest s.blocks
process_next_block-IsLinked_example =
    process_next_block-IsLinked contracts (rdpos_consensus sha3 next_seed) state next_block
      genesis_IsLinked

process_next_block-Signed_example :
    Signed sha3 next_seed state next_block
      (process_next_block contracts (rdpos_consensus sha3 next_seed) next_block state)
process_next_block-Signed_example =
    process_next_block-Signed sha3 next_seed contracts state next_block

refresh_mempool-survivors_example :
    ((refresh_mempool next_block state).0 ≡ ok tt)
    × (lookup 7 (refresh_mempool next_block state).1.mempool
        ≡ (if includes next_block.txs 7 then none else kept accounts (lookup 7 state.mempool)))
refresh_mempool-survivors_example = refresh_mempool-survivors state next_block 7 state_IsMempool

add_tx-admits_example :
    ((add_tx overdraft state).0 ≡ validate_transaction_internal state overdraft)
    × IsMempool (add_tx overdraft state).1.mempool
    × (is_tx_in_mempool (add_tx overdraft state).1 8 ≡ (
        accepts (validate_transaction_internal state overdraft) && 8 == 8
        || is_tx_in_mempool state 8))
    × ((add_tx overdraft state).1.accounts ≡ state.accounts)
add_tx-admits_example = add_tx-admits state overdraft 8 state_IsMempool

payer_small : balance_of 1 accounts < 2 ^ 256
payer_small = rw payer_balance (omega arith)

contract_fits : balance_of 9 accounts + 5 < 2 ^ 256
unfolding lookup account_at
contract_fits = omega arith

contract_receiver : is_contract_address contracts tt 9 ≡ true
unfolding is_contract_address
contract_receiver = refl

process_transaction_failed_call_example :
    let after = (process_transaction contracts call state).1 in
    ((process_transaction contracts call state).0 ≡ ok tt)
    × (balance_of 9 after.accounts ≡ balance_of 9 accounts + 5)
    × (balance_of 1 after.accounts + 6 ≡ balance_of 1 accounts + 5)
    × ((account_at 1 after.accounts).nonce ≡ ((account_at 1 accounts).nonce + 1) % 2 ^ 64)
    × ((j : ℕ) → j ≢ 1 → j ≢ 9 → account_at j after.accounts ≡ account_at j accounts)
    × (after.processing_payable ≡ (if is_payable contracts tt call then true else false))
process_transaction_failed_call_example =
    process_transaction_failed_call contracts call state {e = runtime_error} payer_known call_priced
      payer_pays payer_small contract_fits (ground arith) contract_receiver refl

validate_next_block_iff_Accepted_example :
    (validate_next_block (rdpos_consensus sha3 next_seed) state next_block ≡ ok true)
    ↔ Accepted contracts (rdpos_consensus sha3 next_seed) state next_block
validate_next_block_iff_Accepted_example =
    validate_next_block_iff_Accepted contracts (rdpos_consensus sha3 next_seed) state next_block
