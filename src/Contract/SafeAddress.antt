-- ===== src/Contract/SafeAddress.antt =====
-- `SafeAddress` of contract/variables/safeaddress.h. An operand `other` is the address that the other
-- variable shows, or the plain address, of the two overloads of each operator.
pub mod Calls
use orbitersdk_cpp.Prelude.{
  ℕ, Bool, true, false, not, Option, none, some, List, Result, ok, err, undefined, ◌==◌,
}
use orbitersdk_cpp.Prelude.Exec.{Exec, pure, modify, ◌>>=◌, ◌>>◌}
use orbitersdk_cpp.Contract.SafeBase.{SafeBase, Scope, mark_as_used}

pub record SafeAddress : Type 0 where
  pub base : SafeBase
  pub address : ℕ
  pub address_ptr : Option ℕ

abbrev pub Action : Type 0 → Type 0
Action A = Exec (Scope SafeAddress) A

abbrev set_address_ptr : Option ℕ → Action (Unit {0})
set_address_ptr p = modify (λ s. record s { self = record (s.self) { address_ptr = p } })

-- `check()`
unfoldable pub check : Action (Unit {0})
check s = elim (s.self.address_ptr) [
  | none ↦ set_address_ptr (some s.self.address) s
  | some _ ↦ (ok tt, s)
]

-- `*addressPtr`
abbrev pub deref : Action ℕ
deref s = elim (s.self.address_ptr) [ none ↦ (err undefined, s) | some a ↦ (ok a, s) ]

-- `get()`
unfoldable pub get : Action ℕ
unfolding check
get = do check; deref

unfoldable pub mark_used : Action (Unit {0})
unfolding mark_as_used
mark_used = modify (λ s.
    let (base, used) = mark_as_used s.self.base s.used_variables in
    record { self = record (s.self) { base = base }; used_variables = used })

abbrev no_owner : SafeBase
no_owner = record { owner = false; registered = false; address = 0 }

-- The constructor with an owner
unfoldable pub make_owned : ℕ → ℕ → SafeAddress
make_owned this a = record {
  base = record { owner = true; registered = false; address = this };
  address = a;
  address_ptr = some a;
}

-- The constructor without an owner: `Address()` is 0.
unfoldable pub make : ℕ → SafeAddress
make a = record { base = no_owner; address = 0; address_ptr = some a }

-- The copy constructor: it checks the new variable, not `other`, whose pointer it follows.
unfoldable pub copy : SafeAddress → Result SafeAddress
copy other = elim (other.address_ptr) [
  | none ↦ err undefined
  | some a ↦ ok (record { base = no_owner; address = other.address; address_ptr = some a })
]

unfoldable pub assign : ℕ → Action ℕ
unfolding check mark_used
assign other = do check; mark_used; set_address_ptr (some other); deref

unfoldable pub equals : ℕ → Action Bool
unfolding check
equals other = do check; a ← deref; pure (a == other)

unfoldable pub differs : ℕ → Action Bool
unfolding check
differs other = do check; a ← deref; pure (not (a == other))

-- Unlike the other variables, a SafeAddress stays registered.
unfoldable pub commit : Action (Unit {0})
unfolding check
commit = do
  check
  a ← deref
  modify (λ s. record s { self = record (s.self) { address = a; address_ptr = none } })

unfoldable pub revert : Action (Unit {0})
revert = set_address_ptr none
