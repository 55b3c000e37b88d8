-- ===== src/Core/Rdpos/Pool.antt =====
-- `rdPoS::addValidatorTx`: the transactions of validators that wait for the next block.
pub mod Round
use orbitersdk_cpp.Prelude.{
  ℕ, zero, suc, ◌+◌, ◌%◌, ◌^◌, Bool, true, false, not, List, [], ◌∷◌, Result, ok, err, Assoc,
  insert, contains, length, take, ◌==◌, if◌then◌else◌,
}
use orbitersdk_cpp.Core.Chain.{TxValidator, Block}
use orbitersdk_cpp.Core.Rdpos.{Rdpos, min_validators, bytes_eq, at}

-- The search of `randomList[i]` up to `randomList[minValidators]`, with `left` places to go.
unfoldable pub participates : ℕ → ℕ → List ℕ → ℕ → Result Bool
participates zero i random_list from = ok false
participates (suc left) i random_list from =
    let rest = participates left (i + 1) random_list from in
    elim (at random_list i) [
      | err e ↦ err e
      | ok validator ↦ if from == validator then ok true else rest
    ]

-- The transactions of the mempool that one sender has sent
unfoldable pub from_sender : ℕ → Assoc TxValidator → List TxValidator
from_sender from [] = []
from_sender from ((hash, tx) ∷ m) =
    if tx.from == from then tx ∷ from_sender from m else from_sender from m

-- By how many transactions the sender has, and whether the one it has is for the same function.
unfoldable pub admits : TxValidator → List TxValidator → Bool
unfolding bytes_eq
admits tx [] = true
admits tx (other ∷ []) = not (bytes_eq (take 4 other.bytes) (take 4 tx.bytes))
admits tx (_ ∷ _ ∷ _) = false

-- The result for a sender that was looked up in the random list
unfoldable pub add_from : TxValidator → Result Bool → Rdpos → Result Bool × Rdpos
unfolding admits from_sender
add_from tx (err e) r = (err e, r)
add_from tx (ok false) r = (ok false, r)
add_from tx (ok true) r =
    if admits tx (from_sender tx.from r.validator_mempool)
    then (ok true, record r { validator_mempool = insert tx.hash tx r.validator_mempool })
    else (ok false, r)

unfoldable pub add_validator_tx : Block → TxValidator → Rdpos → Result Bool × Rdpos
unfolding add_from participates
add_validator_tx latest tx r =
    if contains tx.hash r.validator_mempool
    then (ok true, r)
    else if not (tx.n_height == (latest.n_height + 1) % 2 ^ 64)
    then (ok false, r)
    else add_from tx (participates min_validators 1 r.random_list tx.from) r
