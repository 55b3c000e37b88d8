-- ===== src/Contract/SafeUint/Assign.antt =====
-- The operators of the SafeUint classes that change the variable, and `commit` and `revert`.
use orbitersdk_cpp.Prelude.{
  ℕ, ◌+◌, ◌-◌, ◌*◌, ◌/◌, ◌%◌, ◌^◌, bit_and, bit_or, bit_xor, false, ◌||◌, none, some,
  overflow_error, underflow_error, domain_error, undefined, ◌==◌, ltb, leb,
}
use orbitersdk_cpp.Prelude.Exec.{modify, throw_if, ◌>>=◌, ◌>>◌}
use orbitersdk_cpp.Contract.SafeUint.{
  SafeUint, Action, set_value_ptr, check, deref, mark_used, max_value, promoted,
}

module _ (w : ℕ) where
  -- `*valuePtr = n`, cut to the width
  abbrev store : ℕ → Action (Unit {0})
  store n = set_value_ptr (some (n % 2 ^ w))

  unfoldable pub assign : ℕ → Action (Unit {0})
  unfolding check mark_used
  assign other = do check; mark_used; store other

  unfoldable pub add_assign : ℕ → Action (Unit {0})
  unfolding check mark_used
  add_assign other = do
    check
    mark_used
    v ← deref
    throw_if (ltb (max_value w - other) v) overflow_error
    store (v + other)

  unfoldable pub sub_assign : ℕ → Action (Unit {0})
  unfolding check mark_used
  sub_assign other = do
    check
    mark_used
    v ← deref
    throw_if (ltb v other) underflow_error
    store (v - other)

  unfoldable pub mul_assign : ℕ → Action (Unit {0})
  unfolding check mark_used
  mul_assign other = do
    check
    mark_used
    v ← deref
    throw_if (other == 0 || v == 0) domain_error
    throw_if (ltb (max_value w / other) v) overflow_error
    store (v * other)

  unfoldable pub div_assign : ℕ → Action (Unit {0})
  unfolding check mark_used
  div_assign other = do
    check
    mark_used
    v ← deref
    throw_if (v == 0 || other == 0) domain_error
    store (v / other)

  unfoldable pub mod_assign : ℕ → Action (Unit {0})
  unfolding check mark_used
  mod_assign other = do
    check
    mark_used
    v ← deref
    throw_if (v == 0 || other == 0) domain_error
    store (v % other)

  unfoldable pub and_assign : ℕ → Action (Unit {0})
  unfolding check mark_used
  and_assign other = do check; mark_used; v ← deref; store (bit_and v other)

  unfoldable pub or_assign : ℕ → Action (Unit {0})
  unfolding check mark_used
  or_assign other = do check; mark_used; v ← deref; store (bit_or v other)

  unfoldable pub xor_assign : ℕ → Action (Unit {0})
  unfolding check mark_used
  xor_assign other = do check; mark_used; v ← deref; store (bit_xor v other)

  unfoldable pub shl_assign : ℕ → Action (Unit {0})
  unfolding check mark_used
  shl_assign other = do
    check
    mark_used
    v ← deref
    throw_if (leb (promoted w) other) undefined
    store (v * 2 ^ other)

  unfoldable pub shr_assign : ℕ → Action (Unit {0})
  unfolding check mark_used
  shr_assign other = do
    check
    mark_used
    v ← deref
    throw_if (leb (promoted w) other) undefined
    store (v / 2 ^ other)

  -- `operator++`
  unfoldable pub increment : Action (Unit {0})
  unfolding check mark_used
  increment = do
    check
    mark_used
    v ← deref
    throw_if (v == max_value w) overflow_error
    store (v + 1)

  -- `operator--`
  unfoldable pub decrement : Action (Unit {0})
  unfolding check mark_used
  decrement = do check; mark_used; v ← deref; throw_if (v == 0) underflow_error; store (v - 1)

abbrev unregistered : SafeUint → SafeUint
unregistered v = record v { base = record (v.base) { registered = false } }

unfoldable pub commit : Action (Unit {0})
unfolding check
commit = do
  check
  v ← deref
  modify (λ s. record s { self = unregistered (record (s.self) { value = v; value_ptr = none }) })

unfoldable pub revert : Action (Unit {0})
revert = modify (λ s. record s { self = unregistered (record (s.self) { value_ptr = none }) })
