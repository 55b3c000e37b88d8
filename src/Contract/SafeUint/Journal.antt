-- ===== src/Contract/SafeUint/Journal.antt =====
-- The scratch copy of the SafeUint classes: whatever is done to a variable between two ends of calls,
-- `revert` brings back what was committed, and `commit` keeps what it shows.
use orbitersdk_cpp.Prelude.{
  ℕ, ◌≡◌, refl, true, false, List, [], ◌∷◌, ◌++◌, Result, ok, if◌then◌else◌, arith,
}
use orbitersdk_cpp.Prelude.Exec.{continue}
use orbitersdk_cpp.Contract.SafeBase.{Scope}
use orbitersdk_cpp.Contract.SafeUint.{SafeUint, Action, make_owned}
use orbitersdk_cpp.Contract.SafeUint.Assign.{
  assign, add_assign, sub_assign, mul_assign, div_assign, mod_assign, and_assign, or_assign,
  xor_assign, shl_assign, shr_assign, increment, decrement, commit, revert,
}
use orbitersdk_cpp.Contract.SafeUint.Exact.{visible}

-- The operators that change a variable.
pub data Change : Type 0 where
  set_to plus minus times divided remainder and or xor left right : ℕ → Change
  up down : Change

unfoldable pub change : ℕ → Change → Action (Unit {0})
change w (set_to n) = assign w n
change w (plus n) = add_assign w n
change w (minus n) = sub_assign w n
change w (times n) = mul_assign w n
change w (divided n) = div_assign w n
change w (remainder n) = mod_assign w n
change w (and n) = and_assign w n
change w (or n) = or_assign w n
change w (xor n) = xor_assign w n
change w (left n) = shl_assign w n
change w (right n) = shr_assign w n
change w up = increment w
change w down = decrement w

-- The changes of one call, one after the other; one that throws ends it.
unfoldable pub changes : ℕ → List Change → Scope SafeUint → Result (Unit {0}) × Scope SafeUint
changes w [] s = (ok tt, s)
changes w (c ∷ cs) s = let (r, s') = change w c s in continue r (λ _. changes w cs) s'

-- What every change keeps.
pub record Kept (w : ℕ) (before after : Scope SafeUint) : Type 0 where
  pub value : after.self.value ≡ before.self.value
  pub owner : after.self.base.owner ≡ before.self.base.owner
  pub address : after.self.base.address ≡ before.self.base.address

pub change-Kept : (w : ℕ) (c : Change) (s : Scope SafeUint) → Kept w s (change w c s).1
unfolding change assign add_assign sub_assign mul_assign div_assign mod_assign and_assign or_assign
    xor_assign shl_assign shr_assign increment decrement
change-Kept w (set_to n) s = ground arith
change-Kept w c s = ground arith

-- A change of an owned variable registers it, also if it throws.
pub change_registers :
    (w : ℕ) (c : Change) (s : Scope SafeUint)
    → s.self.base.owner ≡ true
    → ((change w c s).1.self.base.registered ≡ true)
      × ((change w c s).1.used_variables ≡ (
          if s.self.base.registered
          then s.used_variables
          else s.used_variables ++ s.self.base.address ∷ []))
unfolding change assign add_assign sub_assign mul_assign div_assign mod_assign and_assign or_assign
    xor_assign shl_assign shr_assign increment decrement
change_registers w (set_to n) s owned = ground arith
change_registers w c s owned = ground arith

changes-Kept : (w : ℕ) (cs : List Change) (s : Scope SafeUint) → Kept w s (changes w cs s).1
unfolding changes
changes-Kept w [] s = record { value = refl; owner = refl; address = refl }
changes-Kept w (c ∷ cs) s = grind (arith, change-Kept w c s, changes-Kept w cs (change w c s).1)

-- Whatever changes a call makes, and whether it throws or not, `revert` brings back the committed
-- value; `commit` makes what the variable shows its committed value, and it goes on
-- showing that. Both leave the variable unregistered and with no scratch copy.
pub revert-commit-changes :
    (w : ℕ) (cs : List Change) (s : Scope SafeUint)
    → let s' = (changes w cs s).1 in
      (visible (revert s').1.self ≡ s.self.value)
      × (visible (commit s').1.self ≡ visible s'.self)
      × ((commit s').1.self.value ≡ visible s'.self)
      × ((revert s').1.self.base.registered ≡ false)
      × ((commit s').1.self.base.registered ≡ false)
unfolding revert commit
revert-commit-changes w cs s =
    let kept = changes-Kept w cs s in (kept.value, ground arith, ground arith, refl, ground arith)

-- A variable that is constructed with an initial value has it in the scratch copy only: after any
-- changes, a `revert` leaves the value 0.
make_owned-revert :
    (w address v : ℕ) (cs : List Change) (used : List ℕ)
    → visible
        (revert
          (changes w cs (record { self = make_owned w address v; used_variables = used })).1).1.self
      ≡ 0
unfolding make_owned
make_owned-revert w address v cs used =
    (revert-commit-changes w cs (record { self = make_owned w address v; used_variables = used })).0
