-- ===== src/Contract/Erc20.antt =====
-- `ERC20` of contract/erc20.cpp: the token of a contract, after the arguments of a call are decoded
-- and before its answer is encoded. `caller` is `getCaller()`.
pub mod Transfers
pub mod Allowances
use orbitersdk_cpp.Prelude.{
  ℕ, ◌+◌, ◌-◌, ◌^◌, Bool, true, false, Option, none, some, List, [], ◌∷◌, Result, ok, err,
  range_error, undefined, Assoc, lookup, insert, ltb, if◌then◌else◌,
}
use orbitersdk_cpp.Prelude.Exec.{Exec, lift, ◌>>=◌, ◌>>◌}
use orbitersdk_cpp.Core.Chain.{checked_256}
use orbitersdk_cpp.Contract.SafeBase.{SafeBase, Scope}
use orbitersdk_cpp.Contract.SafeUnorderedMap.{SafeUnorderedMap, index, write, find_const}

-- The variables of the contract that hold balances and allowances.
pub record Erc20 : Type 0 where
  pub balances : SafeUnorderedMap ℕ
  pub allowed : SafeUnorderedMap (Assoc ℕ)
  pub used_variables : List ℕ

abbrev pub Balances : Type 0
Balances = Scope (SafeUnorderedMap ℕ)

-- `_balances[address] -= value` at a checked integer
unfoldable pub sub_balance : ℕ → ℕ → Exec Balances (Unit {0})
sub_balance address value s =
    let (entry, s') = index 0 address s in
    elim entry [
      | none ↦ (err undefined, s')
      | some b ↦
          if ltb b value then (err range_error, s') else (ok tt, write address (b - value) s')
    ]

-- `_balances[address] += value`
unfoldable pub add_balance : ℕ → ℕ → Exec Balances (Unit {0})
unfolding checked_256
add_balance address value s =
    let (entry, s') = index 0 address s in
    elim entry [
      | none ↦ (err undefined, s')
      | some b ↦ elim (checked_256 (b + value)) [
        | err e ↦ (err e, s')
        | ok sum ↦ (ok tt, write address sum s')
      ]
    ]

-- The two statements that `transfer` and `transferFrom` share.
unfoldable pub move : ℕ → ℕ → ℕ → Exec Balances (Unit {0})
move from to value = do sub_balance from value; add_balance to value

abbrev pub on_balances : {A : Type 0} → Exec Balances A → Exec Erc20 A
on_balances f t =
    let (r, s) = f (record { self = t.balances; used_variables = t.used_variables }) in
    (r, record t { balances = s.self; used_variables = s.used_variables })

-- `_allowed[owner]`: the map that the reference leads to, made if there is none.
abbrev pub allowed_of : ℕ → Exec Erc20 (Option (Assoc ℕ))
allowed_of owner t =
    let (o, s) = index [] owner (record { self = t.allowed; used_variables = t.used_variables }) in
    (ok o, record t { allowed = s.self; used_variables = s.used_variables })

-- A write to the map at `_allowed[owner]`.
abbrev pub write_allowed : ℕ → Assoc ℕ → Erc20 → Erc20
write_allowed owner inner t =
    let s = write owner inner (record { self = t.allowed; used_variables = t.used_variables }) in
    record t { allowed = s.self }

abbrev pub value_of : Option ℕ → ℕ
value_of none = 0
value_of (some b) = b

-- `_allowed[owner][spender] -= value`: `operator[]` of the inner map makes the entry 0 before the
-- subtraction can throw.
unfoldable pub sub_allowed : ℕ → ℕ → ℕ → Exec Erc20 (Unit {0})
sub_allowed owner spender value t =
    let (r, t') = allowed_of owner t in
    elim r [
      | err e ↦ (err e, t')
      | ok none ↦ (err undefined, t')
      | ok (some inner) ↦
          let a = value_of (lookup spender inner) in
          if ltb a value
          then (err range_error, write_allowed owner (insert spender a inner) t')
          else (ok tt, write_allowed owner (insert spender (a - value) inner) t')
    ]

unfoldable pub transfer : ℕ → ℕ → ℕ → Exec Erc20 (Unit {0})
transfer caller to value = on_balances (move caller to value)

unfoldable pub approve : ℕ → ℕ → ℕ → Exec Erc20 (Unit {0})
approve caller spender value t =
    let (r, t') = allowed_of caller t in
    elim r [
      | err e ↦ (err e, t')
      | ok none ↦ (err undefined, t')
      | ok (some inner) ↦ (ok tt, write_allowed caller (insert spender value inner) t')
    ]

unfoldable pub transfer_from : ℕ → ℕ → ℕ → ℕ → Exec Erc20 (Unit {0})
transfer_from caller from to value = do
  sub_allowed from caller value
  on_balances (move from to value)

-- What `balanceOf` encodes.
unfoldable pub balance_of : ℕ → Erc20 → ℕ
balance_of owner t =
    value_of
      ((find_const owner (record { self = t.balances; used_variables = t.used_variables })).0)

-- What `allowance` encodes.
unfoldable pub allowance : ℕ → ℕ → Erc20 → ℕ
allowance owner spender t =
    elim ((find_const owner (record { self = t.allowed; used_variables = t.used_variables })).0) [
      | none ↦ 0
      | some inner ↦ value_of (lookup spender inner)
    ]
