-- ===== src/Contract/Dynamic.antt =====
-- `DynamicContract` of contract/dynamiccontract.h: a call of a function of a contract, which ends by
-- committing or reverting the variables that it used (`ethCall`, `updateState`). A contract's
-- variables are filed under their addresses; those of the
-- SafeUint classes, of any widths, are modelled.
pub mod Tracks
pub mod Finish
pub mod Atomic
use orbitersdk_cpp.Prelude.{
  ℕ, Bool, true, false, Option, none, some, List, [], ◌∷◌, Error, Result, ok, err, runtime_error,
  undefined, Assoc, lookup, insert, if◌then◌else◌,
}
use orbitersdk_cpp.Prelude.Exec.{continue}
use orbitersdk_cpp.Contract.SafeBase.{SafeBase, Scope}
use orbitersdk_cpp.Contract.SafeUint.{SafeUint, get}
use orbitersdk_cpp.Contract.SafeUint.Assign.{commit, revert}
use orbitersdk_cpp.Contract.SafeUint.Journal.{Change, change}

pub record Contract : Type 0 where
  pub variables : Assoc SafeUint
  pub used_variables : List ℕ

-- `variable.get().commit()` or `variable.get().revert()`
unfoldable pub finish : Bool → SafeUint → SafeUint
finish commit_to_state v =
    let s : Scope SafeUint = record { self = v; used_variables = [] } in
    if commit_to_state then (commit s).1.self else (revert s).1.self

unfoldable pub finish_at : Bool → ℕ → Assoc SafeUint → Assoc SafeUint
finish_at commit_to_state a m = elim (lookup a m) [
  | none ↦ m
  | some v ↦ insert a (finish commit_to_state v) m
]

-- The loops of `updateState`
unfoldable pub finish_all : Bool → List ℕ → Assoc SafeUint → Assoc SafeUint
unfolding finish_at
finish_all commit_to_state [] m = m
finish_all commit_to_state (a ∷ used) m =
    finish_all commit_to_state used (finish_at commit_to_state a m)

unfoldable pub update_state : Bool → Contract → Contract
unfolding finish_all
update_state commit_to_state c = record {
  variables = finish_all commit_to_state c.used_variables c.variables;
  used_variables = [];
}

-- What a function of the contract does: operators on its variables, reads of them, on which it may
-- branch, and its end, by an exception or without.
pub data Function : Type 0 where
  returns : Function
  throws : Error → Function
  does : ℕ → Change → Function → Function
  reads : ℕ → (ℕ → Function) → Function

-- `width` is the width of the variable at an address; there is no variable at another address.
module _ (width : ℕ → ℕ) where
  -- One operator on one variable of the contract
  unfoldable pub apply_change : ℕ → Change → Contract → Result (Unit {0}) × Contract
  apply_change a op c = elim (lookup a c.variables) [
    | none ↦ (err undefined, c)
    | some v ↦
        let (r, s) = change (width a) op (record { self = v; used_variables = c.used_variables }) in
        (r, record { variables = insert a s.self c.variables; used_variables = s.used_variables })
  ]

  -- `get()` of one variable
  unfoldable pub read_variable : ℕ → Contract → Result ℕ × Contract
  read_variable a c = elim (lookup a c.variables) [
    | none ↦ (err undefined, c)
    | some v ↦
        let (r, s) = get (record { self = v; used_variables = c.used_variables }) in
        (r, record { variables = insert a s.self c.variables; used_variables = s.used_variables })
  ]

  -- The function that is called, until it ends or an operator throws
  unfoldable pub run_function : Function → Contract → Result (Unit {0}) × Contract
  run_function returns c = (ok tt, c)
  run_function (throws e) c = (err e, c)
  run_function (does a op rest) c =
      let (r, c') = apply_change a op c in continue r (λ _. run_function rest) c'
  run_function (reads a rest) c =
      let (r, c') = read_variable a c in continue r (λ n. run_function (rest n)) c'

  -- `ethCall` once the function is found; `commit` is `getCommit()`. Every exception is thrown again
  -- as a `runtime_error`, after the variables have been reverted.
  unfoldable pub eth_call : Bool → Function → Contract → Result (Unit {0}) × Contract
  eth_call commit_flag body c =
      let (r, c') = run_function body c in
      elim r [
        | ok _ ↦ (ok tt, update_state commit_flag c')
        | err e ↦ (err runtime_error, update_state false c')
      ]
