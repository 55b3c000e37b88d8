-- ===== src/Contract/SafeBase.antt =====
-- `SafeBase` of contract/variables/safebase.h, the base of all variables of a contract.
use orbitersdk_cpp.Prelude.{ℕ, Bool, true, not, List, [], ◌∷◌, ◌++◌, if◌then◌else◌}

-- `owner` says whether there is an owner (`owner != nullptr`); `address` stands for `this`.
pub record SafeBase : Type 0 where
  pub owner : Bool
  pub registered : Bool
  pub address : ℕ

-- A variable of type `V` and the `usedVariables` of its owner.
pub record Scope (V : Type 0) : Type 0 where
  pub self : V
  pub used_variables : List ℕ

-- `markAsUsed()`: the base after it, and the owner's list, to which `registerVariableUse` appends.
unfoldable pub mark_as_used : SafeBase → List ℕ → SafeBase × List ℕ
mark_as_used base used =
    if base.owner
    then if not base.registered
      then (record base { registered = true }, used ++ base.address ∷ [])
      else (base, used)
    else (base, used)
