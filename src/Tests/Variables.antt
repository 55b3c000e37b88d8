-- ===== src/Tests/Variables.antt =====
-- Runs of the variables of contracts.
use orbitersdk_cpp.Prelude.{
  Bool-cases, inl, inr, ==_iff, ℕ, ◌≡◌, ◌^◌, refl, true, false, ok, err, runtime_error,
  underflow_error, overflow_error, none, [], ◌∷◌, lookup, is_ok, ◌&&◌, ◌==◌, ltb, if◌then◌else◌,
  arith,
}
use orbitersdk_cpp.Contract.SafeBase.{Scope}
use orbitersdk_cpp.Contract.SafeUint.{SafeUint}
use orbitersdk_cpp.Contract.SafeUint.Assign.{
  add_assign, sub_assign, mul_assign, div_assign, mod_assign, increment, decrement, commit, revert,
}
use orbitersdk_cpp.Contract.SafeUint.Exact.{
  visible, shown, assigned, sum_of, difference_of, product_of, quotient_of, remainder_of,
  assignments_exact,
}
use orbitersdk_cpp.Contract.SafeUint.Journal.{plus, up, changes, revert-commit-changes}
use orbitersdk_cpp.Contract.SafeAddress.{SafeAddress, get}
use orbitersdk_cpp.Contract.SafeAddress.Calls.{writes, update_state, update_state-writes}
use orbitersdk_cpp.Contract.Dynamic.{
  Contract, Function, returns, does, reads, run_function, eth_call,
}
use orbitersdk_cpp.Contract.Dynamic.Tracks.{AtRest, RestsIn}
use orbitersdk_cpp.Contract.Dynamic.Atomic.{Ends, eth_call-atomic}

-- A variable of 8 bits that holds 200, at the address 5 of a contract.
abbrev counter : SafeUint
counter = record {
  base = record { owner = true; registered = false; address = 5 };
  value = 200;
  value_ptr = none;
}

abbrev counter_scope : Scope SafeUint
counter_scope = record { self = counter; used_variables = [] }

abbrev contract : Contract
contract = record { variables = (5, counter) ∷ []; used_variables = [] }

-- It adds 50, and once more if the variable is then above 100, which throws.
abbrev body : Function
body = does 5 (plus 50) (reads 5 (λ n. if ltb 100 n then does 5 (plus 50) returns else returns))

abbrev widths : ℕ → ℕ
widths a = 8

counter_RestsIn : (a : ℕ) → RestsIn a (lookup a contract.variables)
unfolding lookup
counter_RestsIn a = elim (Bool-cases (5 == a)) [
  | inl e ↦
      rw e
        (record { owned = refl; address = (==_iff 5 a).0 e; unregistered = refl; settled = refl })
  | inr e ↦ rw e tt
]

contract-AtRest : AtRest contract
contract-AtRest = record { unused = refl; rests = counter_RestsIn }

assignments_exact_example :
    (shown (add_assign 8 100 counter_scope) ≡ assigned 200 (sum_of 8 200 100))
    × (shown (sub_assign 8 100 counter_scope) ≡ assigned 200 (difference_of 8 200 100))
    × (shown (mul_assign 8 100 counter_scope) ≡ assigned 200 (product_of 8 200 100))
    × (shown (div_assign 8 100 counter_scope) ≡ assigned 200 (quotient_of 8 200 100))
    × (shown (mod_assign 8 100 counter_scope) ≡ assigned 200 (remainder_of 8 200 100))
    × (shown (increment 8 counter_scope)
        ≡ assigned 200 (if ltb 201 (2 ^ 8) then ok 201 else err overflow_error))
    × (shown (decrement 8 counter_scope)
        ≡ assigned 200 (if 200 == 0 then err underflow_error else ok 199))
assignments_exact_example = assignments_exact 8 counter_scope 100 (omega arith) (omega arith)

revert-commit-changes_example :
    let s' = (changes 8 (plus 50 ∷ up ∷ plus 50 ∷ []) counter_scope).1 in
    (visible (revert s').1.self ≡ 200)
    × (visible (commit s').1.self ≡ visible s'.self)
    × ((commit s').1.self.value ≡ visible s'.self)
    × ((revert s').1.self.base.registered ≡ false)
    × ((commit s').1.self.base.registered ≡ false)
revert-commit-changes_example = revert-commit-changes 8 (plus 50 ∷ up ∷ plus 50 ∷ []) counter_scope

eth_call-atomic_example :
    let (r, inside) = run_function widths body contract in
    let (r', after) = eth_call widths true body contract in
    (r' ≡ (if is_ok r then ok tt else err runtime_error))
    × (after.used_variables ≡ [])
    × Ends
        (λ v0 v. if is_ok r && true then visible v else v0.value)
        5
        (lookup 5 contract.variables)
        (lookup 5 inside.variables)
        (lookup 5 after.variables)
eth_call-atomic_example = eth_call-atomic widths true body contract 5 contract-AtRest

-- The variable of an address, at 7 of a contract, that holds 11.
abbrev owner_scope : Scope SafeAddress
owner_scope = record {
  self = record {
    base = record { owner = true; registered = false; address = 7 };
    address = 11;
    address_ptr = none;
  };
  used_variables = [];
}

update_state-writes_example :
    let s' = update_state true (writes (12 ∷ []) owner_scope) in
    (update_state false (writes (13 ∷ []) s') ≡ writes (13 ∷ []) s')
    × ((get (update_state false (writes (13 ∷ []) s'))).0 ≡ ok 13)
update_state-writes_example = update_state-writes owner_scope 12 13 [] [] true false refl
