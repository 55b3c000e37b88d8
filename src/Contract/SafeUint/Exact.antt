-- ===== src/Contract/SafeUint/Exact.antt =====
-- The checked arithmetic of the SafeUint classes is that of the natural numbers: an operator throws
-- exactly where the width cannot hold the result, and never wraps.
use orbitersdk_cpp.Prelude.{
  ℕ, zero, suc, ◌+◌, ◌-◌, ◌*◌, ◌/◌, ◌%◌, ◌^◌, ◌≤◌, ◌<◌, ◌≡◌, not, ◌||◌, none, some, Result, ok, err,
  overflow_error, underflow_error, domain_error, ◌==◌, ltb, if◌then◌else◌, arith, Bool-cases, inl,
  inr, ltb→lt, lt→ltb, ltb_false→le, le→ltb_false,
}
use native.Mathlib.Nat.{mod-eq_of_lt, div-le_self, le-div_iff_mul-le, div-lt_iff_lt-mul, pow-suc}
use orbitersdk_cpp.Contract.SafeBase.{Scope}
use orbitersdk_cpp.Contract.SafeUint.{SafeUint, no_owner, add, sub, mul, div, mod_op}
use orbitersdk_cpp.Contract.SafeUint.Assign.{
  add_assign, sub_assign, mul_assign, div_assign, mod_assign, increment, decrement,
}

-- What `get()` returns.
abbrev pub visible : SafeUint → ℕ
visible v = elim (v.value_ptr) [ none ↦ v.value | some n ↦ n ]

-- How an assignment ended, and the value that the variable then shows.
abbrev pub shown : Result (Unit {0}) × Scope SafeUint → Result (Unit {0}) × ℕ
shown (r, s) = (r, visible s.self)

-- What a variable of width `w` and value `v` should do with an operand: the result that the
-- natural numbers give, or the exception.
module _ (w v other : ℕ) where
  abbrev pub sum_of : Result ℕ
  sum_of = if ltb (v + other) (2 ^ w) then ok (v + other) else err overflow_error

  abbrev pub difference_of : Result ℕ
  difference_of = if ltb v other then err underflow_error else ok (v - other)

  -- A factor 0 is refused.
  abbrev pub product_of : Result ℕ
  product_of =
      if v * other == 0
      then err domain_error
      else if ltb (v * other) (2 ^ w)
      then ok (v * other)
      else err overflow_error

  -- A dividend 0 is refused like a divisor 0.
  abbrev pub quotient_of : Result ℕ
  quotient_of = if v * other == 0 then err domain_error else ok (v / other)

  abbrev pub remainder_of : Result ℕ
  remainder_of = if v * other == 0 then err domain_error else ok (v % other)

-- An assignment that is meant to have the result `r` on a variable with the value `v`.
abbrev pub assigned : ℕ → Result ℕ → Result (Unit {0}) × ℕ
assigned v (ok n) = (ok tt, n)
assigned v (err e) = (err e, v)

-- The variable that a binary operator returns.
abbrev pub returned : Result ℕ → Result SafeUint
returned (ok n) = ok (record { base = no_owner; value = 0; value_ptr = some n })
returned (err e) = err e

mod_le : (a b : ℕ) → a % b ≤ a
mod_le a b = omega arith

product_pos : (a b : ℕ) → 0 < a → 0 < b → 0 < a * b
product_pos a b p q = grind arith

two_pow_pos : (w : ℕ) → 0 < 2 ^ w
two_pow_pos zero = omega arith
two_pow_pos (suc w) = omega (arith, pow-suc 2 w, two_pow_pos w)

product_zero : (a b : ℕ) → (a * b == 0) ≡ (b == 0 || a == 0)
product_zero zero b = ground arith
product_zero (suc a) zero = ground arith
product_zero (suc a) (suc b) =
    ground (arith, product_pos (suc a) (suc b) (omega arith) (omega arith))

-- The test of `*` by a division decides whether the product fits.
product_fits :
    (w v other : ℕ) → 0 < other → ltb ((2 ^ w - 1) / other) v ≡ not (ltb (v * other) (2 ^ w))
product_fits w v other p = elim (Bool-cases (ltb (v * other) (2 ^ w))) [
  | inl fits ↦ rw fits (le→ltb_false _ _ ((le-div_iff_mul-le p).1 (below (ltb→lt _ _ fits))))
  | inr wraps ↦ rw wraps (lt→ltb _ _ ((div-lt_iff_lt-mul p).1 (above (ltb_false→le _ _ wraps))))
]
  where
    below : v * other < 2 ^ w → v * other ≤ 2 ^ w - 1
    below h = omega arith

    above : 2 ^ w ≤ v * other → 2 ^ w - 1 < v * other
    above h = omega (arith, two_pow_pos w)

module _ (w : ℕ) (s : Scope SafeUint) (other : ℕ) (v_fits : visible s.self < 2 ^ w)
    (other_fits : other < 2 ^ w) where
  abbrev v : ℕ
  v = visible s.self

  add_assign_exact : shown (add_assign w other s) ≡ assigned v (sum_of w v other)
  unfolding add_assign
  add_assign_exact = ground (arith, mod-eq_of_lt {n = visible s.self + other} {m = 2 ^ w})

  sub_assign_exact : shown (sub_assign w other s) ≡ assigned v (difference_of w v other)
  unfolding sub_assign
  sub_assign_exact = ground (arith, mod-eq_of_lt {n = visible s.self - other} {m = 2 ^ w})

  mul_assign_exact : shown (mul_assign w other s) ≡ assigned v (product_of w v other)
  unfolding mul_assign
  mul_assign_exact = ground (
    arith,
    product_zero v other,
    product_fits w v other,
    mod-eq_of_lt {n = visible s.self * other} {m = 2 ^ w},
  )

  div_assign_exact : shown (div_assign w other s) ≡ assigned v (quotient_of w v other)
  unfolding div_assign
  div_assign_exact = ground (
    arith,
    product_zero v other,
    div-le_self v other,
    mod-eq_of_lt {n = visible s.self / other} {m = 2 ^ w},
  )

  mod_assign_exact : shown (mod_assign w other s) ≡ assigned v (remainder_of w v other)
  unfolding mod_assign
  mod_assign_exact = ground (
    arith,
    product_zero v other,
    mod_le v other,
    mod-eq_of_lt {n = visible s.self % other} {m = 2 ^ w},
  )

  increment_exact :
      shown (increment w s)
      ≡ assigned v (if ltb (v + 1) (2 ^ w) then ok (v + 1) else err overflow_error)
  unfolding increment
  increment_exact = ground (arith, mod-eq_of_lt {n = visible s.self + 1} {m = 2 ^ w})

  decrement_exact :
      shown (decrement w s) ≡ assigned v (if v == 0 then err underflow_error else ok (v - 1))
  unfolding decrement
  decrement_exact = ground (arith, mod-eq_of_lt {n = visible s.self - 1} {m = 2 ^ w})

  -- For a variable and an operand that fit the width: `+=`, `-=`, `*=`, `/=`, `%=`, `++` and `--` give
  -- the variable the result of the natural numbers where the width holds it, and otherwise
  -- throw and leave the value that it shows; a factor, dividend or divisor 0 throws too.
  pub assignments_exact :
      (shown (add_assign w other s) ≡ assigned v (sum_of w v other))
      × (shown (sub_assign w other s) ≡ assigned v (difference_of w v other))
      × (shown (mul_assign w other s) ≡ assigned v (product_of w v other))
      × (shown (div_assign w other s) ≡ assigned v (quotient_of w v other))
      × (shown (mod_assign w other s) ≡ assigned v (remainder_of w v other))
      × (shown (increment w s)
          ≡ assigned v (if ltb (v + 1) (2 ^ w) then ok (v + 1) else err overflow_error))
      × (shown (decrement w s) ≡ assigned v (if v == 0 then err underflow_error else ok (v - 1)))
  assignments_exact = (
    add_assign_exact, sub_assign_exact, mul_assign_exact, div_assign_exact, mod_assign_exact,
    increment_exact, decrement_exact,
  )

  -- The binary operators return a variable without an owner that shows the same result, or throw in
  -- the same cases.
  operators_exact :
      ((add w other s).0 ≡ returned (sum_of w v other))
      × ((sub w other s).0 ≡ returned (difference_of w v other))
      × ((mul w other s).0 ≡ returned (product_of w v other))
      × ((div w other s).0 ≡ returned (quotient_of w v other))
      × ((mod_op w other s).0 ≡ returned (remainder_of w v other))
  unfolding add sub mul div mod_op
  operators_exact = (
    ground (arith, mod-eq_of_lt {n = visible s.self + other} {m = 2 ^ w}),
    ground (arith, mod-eq_of_lt {n = visible s.self - other} {m = 2 ^ w}),
    ground (
      arith,
      product_zero v other,
      product_fits w v other,
      mod-eq_of_lt {n = visible s.self * other} {m = 2 ^ w},
    ),
    ground (
      arith,
      product_zero v other,
      div-le_self v other,
      mod-eq_of_lt {n = visible s.self / other} {m = 2 ^ w},
    ),
    ground (
      arith,
      product_zero v other,
      mod_le v other,
      mod-eq_of_lt {n = visible s.self % other} {m = 2 ^ w},
    ),
  )
