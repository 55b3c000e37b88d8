-- ===== src/Contract/SafeBool.antt =====
-- `SafeBool` of contract/variables/safebool.h. An operand `other` is the value that the other variable
-- shows, or the plain Boolean, of the two overloads of `operator=`.
pub mod Calls
use orbitersdk_cpp.Prelude.{
  ℕ, Bool, true, false, Option, none, some, List, Result, ok, err, undefined,
}
use orbitersdk_cpp.Prelude.Exec.{Exec, pure, gets, modify, ◌>>=◌, ◌>>◌}
use orbitersdk_cpp.Contract.SafeBase.{SafeBase, Scope, mark_as_used}

pub record SafeBool : Type 0 where
  pub base : SafeBase
  pub value : Bool
  pub value_ptr : Option Bool

abbrev pub Action : Type 0 → Type 0
Action A = Exec (Scope SafeBool) A

abbrev set_value_ptr : Option Bool → Action (Unit {0})
set_value_ptr p = modify (λ s. record s { self = record (s.self) { value_ptr = p } })

-- `check()`
unfoldable pub check : Action (Unit {0})
check s = elim (s.self.value_ptr) [
  | none ↦ set_value_ptr (some s.self.value) s
  | some _ ↦ (ok tt, s)
]

-- `*valuePtr`
abbrev pub deref : Action Bool
deref s = elim (s.self.value_ptr) [ none ↦ (err undefined, s) | some b ↦ (ok b, s) ]

-- `get()`, and the conversion `operator bool()`
unfoldable pub get : Action Bool
unfolding check
get = do check; deref

unfoldable pub mark_used : Action (Unit {0})
unfolding mark_as_used
mark_used = modify (λ s.
    let (base, used) = mark_as_used s.self.base s.used_variables in
    record { self = record (s.self) { base = base }; used_variables = used })

abbrev no_owner : SafeBase
no_owner = record { owner = false; registered = false; address = 0 }

-- The constructor with an owner: the initial value stands in the scratch copy, `value` is false.
unfoldable pub make_owned : ℕ → Bool → SafeBool
make_owned this b = record {
  base = record { owner = true; registered = false; address = this };
  value = false;
  value_ptr = some b;
}

-- The constructor without an owner
unfoldable pub make : Bool → SafeBool
make b = record { base = no_owner; value = false; value_ptr = some b }

-- The copy constructor, as a method of `other`, which it checks.
unfoldable pub copy : Action SafeBool
unfolding check
copy = do
  check
  b ← deref
  value ← gets (λ s. s.self.value)
  pure (record { base = no_owner; value = value; value_ptr = some b })

unfoldable pub assign : Bool → Action (Unit {0})
unfolding check mark_used
assign other = do check; mark_used; set_value_ptr (some other)

abbrev unregistered : SafeBool → SafeBool
unregistered v = record v { base = record (v.base) { registered = false } }

unfoldable pub commit : Action (Unit {0})
unfolding check
commit = do
  check
  b ← deref
  modify (λ s. record s { self = unregistered (record (s.self) { value = b; value_ptr = none }) })

unfoldable pub revert : Action (Unit {0})
revert = modify (λ s. record s { self = unregistered (record (s.self) { value_ptr = none }) })
