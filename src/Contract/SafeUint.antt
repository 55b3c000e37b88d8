-- ===== src/Contract/SafeUint.antt =====
-- `SafeUint8_t` of contract/variables/safeuint8_t.h, at any width: the classes for 16, 32 and 64 bits
-- have the same text. An operand `other` is the value of the other variable, or the plain
-- integer, of the two overloads of each operator.
pub mod Assign
pub mod Exact
pub mod Journal
use orbitersdk_cpp.Prelude.{
  ℕ, ◌+◌, ◌-◌, ◌*◌, ◌/◌, ◌%◌, ◌^◌, bit_and, bit_or, bit_xor, Bool, true, false, not, ◌&&◌, ◌||◌,
  Option, none, some, Result, ok, err, overflow_error, underflow_error, domain_error, undefined,
  ◌==◌, ltb, leb, if◌then◌else◌,
}
use orbitersdk_cpp.Prelude.Exec.{Exec, pure, lift, gets, modify, throw_if, ◌>>=◌, ◌>>◌}
use orbitersdk_cpp.Contract.SafeBase.{SafeBase, Scope, mark_as_used}

pub record SafeUint : Type 0 where
  pub base : SafeBase
  pub value : ℕ
  pub value_ptr : Option ℕ

abbrev pub Action : Type 0 → Type 0
Action A = Exec (Scope SafeUint) A

abbrev pub set_value_ptr : Option ℕ → Action (Unit {0})
set_value_ptr p = modify (λ s. record s { self = record (s.self) { value_ptr = p } })

-- `check()`
unfoldable pub check : Action (Unit {0})
check s = elim (s.self.value_ptr) [
  | none ↦ set_value_ptr (some s.self.value) s
  | some _ ↦ (ok tt, s)
]

-- `*valuePtr`
abbrev pub deref : Action ℕ
deref s = elim (s.self.value_ptr) [ none ↦ (err undefined, s) | some v ↦ (ok v, s) ]

-- `get()`
unfoldable pub get : Action ℕ
unfolding check
get = do check; deref

unfoldable pub mark_used : Action (Unit {0})
unfolding mark_as_used
mark_used = modify (λ s.
    let (base, used) = mark_as_used s.self.base s.used_variables in
    record { self = record (s.self) { base = base }; used_variables = used })

abbrev no_owner : SafeBase
no_owner = record { owner = false; registered = false; address = 0 }

module _ (w : ℕ) where
  -- `std::numeric_limits<uint8_t>::max()`
  abbrev pub max_value : ℕ
  max_value = 2 ^ w - 1

  -- A shift by the width of the promoted operand or more is undefined.
  abbrev pub promoted : ℕ
  promoted = if ltb w 32 then 32 else w

  -- The constructor with an owner: the initial value stands in the scratch copy, `value` is 0.
  unfoldable pub make_owned : ℕ → ℕ → SafeUint
  make_owned address v = record {
    base = record { owner = true; registered = false; address = address };
    value = 0;
    value_ptr = some (v % 2 ^ w);
  }

  -- The constructor without an owner
  unfoldable pub make : ℕ → SafeUint
  make v = record { base = no_owner; value = 0; value_ptr = some (v % 2 ^ w) }

  unfoldable pub add : ℕ → Action SafeUint
  unfolding make check
  add other = do
    check
    v ← deref
    throw_if (ltb (max_value - other) v) overflow_error
    pure (make (v + other))

  unfoldable pub sub : ℕ → Action SafeUint
  unfolding make check
  sub other = do check; v ← deref; throw_if (ltb v other) underflow_error; pure (make (v - other))

  unfoldable pub mul : ℕ → Action SafeUint
  unfolding make check
  mul other = do
    check
    v ← deref
    throw_if (other == 0 || v == 0) domain_error
    throw_if (ltb (max_value / other) v) overflow_error
    pure (make (v * other))

  unfoldable pub div : ℕ → Action SafeUint
  unfolding make check
  div other = do
    check
    v ← deref
    throw_if (v == 0 || other == 0) domain_error
    pure (make (v / other))

  unfoldable pub mod_op : ℕ → Action SafeUint
  unfolding make check
  mod_op other = do
    check
    v ← deref
    throw_if (v == 0 || other == 0) domain_error
    pure (make (v % other))

  unfoldable pub and_op : ℕ → Action SafeUint
  unfolding make check
  and_op other = do check; v ← deref; pure (make (bit_and v other))

  unfoldable pub or_op : ℕ → Action SafeUint
  unfolding make check
  or_op other = do check; v ← deref; pure (make (bit_or v other))

  unfoldable pub xor_op : ℕ → Action SafeUint
  unfolding make check
  xor_op other = do check; v ← deref; pure (make (bit_xor v other))

  unfoldable pub shl : ℕ → Action SafeUint
  unfolding make check
  shl other = do
    check
    v ← deref
    throw_if (leb promoted other) undefined
    pure (make (v * 2 ^ other))

  unfoldable pub shr : ℕ → Action SafeUint
  unfolding make check
  shr other = do
    check
    v ← deref
    throw_if (leb promoted other) undefined
    pure (make (v / 2 ^ other))

unfoldable pub is_zero : Action Bool
unfolding check
is_zero = do check; v ← deref; pure (v == 0)

unfoldable pub logical_and : ℕ → Action Bool
unfolding check
logical_and other = do check; v ← deref; pure (not (v == 0) && not (other == 0))

unfoldable pub logical_or : ℕ → Action Bool
unfolding check
logical_or other = do check; v ← deref; pure (not (v == 0) || not (other == 0))

unfoldable pub equals : ℕ → Action Bool
unfolding check
equals other = do check; v ← deref; pure (v == other)

unfoldable pub differs : ℕ → Action Bool
unfolding check
differs other = do check; v ← deref; pure (not (v == other))

unfoldable pub less : ℕ → Action Bool
unfolding check
less other = do check; v ← deref; pure (ltb v other)

unfoldable pub less_or_equal : ℕ → Action Bool
unfolding check
less_or_equal other = do check; v ← deref; pure (leb v other)

unfoldable pub greater : ℕ → Action Bool
unfolding check
greater other = do check; v ← deref; pure (ltb other v)

unfoldable pub greater_or_equal : ℕ → Action Bool
unfolding check
greater_or_equal other = do check; v ← deref; pure (leb other v)
