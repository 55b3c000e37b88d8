-- ===== src/Contract/SafeBool/Calls.antt =====
-- Calls of a contract whose variable is a SafeBool.
use orbitersdk_cpp.Prelude.{
  ℕ, ◌≡◌, refl, sym, ap, ◌∙◌, Bool, true, false, List, [], ◌∷◌, none, some, if◌then◌else◌, arith,
}
use mathlib.Core.Path.{subst}
use orbitersdk_cpp.Contract.SafeBase.{Scope}
use orbitersdk_cpp.Contract.SafeBool.{SafeBool, assign, commit, revert}

-- What the function that is called writes
unfoldable writes : List Bool → Scope SafeBool → Scope SafeBool
writes [] s = s
writes (b ∷ written) s = writes written (assign b s).1

-- The loops of `updateState` for a contract with this one variable
unfoldable finish_all : Bool → List ℕ → Scope SafeBool → Scope SafeBool
finish_all commit_to_state [] s = s
finish_all commit_to_state (a ∷ used) s =
    finish_all commit_to_state used (if commit_to_state then (commit s).1 else (revert s).1)

unfoldable update_state : Bool → Scope SafeBool → Scope SafeBool
unfolding finish_all
update_state commit_to_state s = record (finish_all commit_to_state s.used_variables s) {
  used_variables = [];
}

-- Between two calls: an owned variable without a scratch copy, which no list names
record AtRest (s : Scope SafeBool) : Type 0 where
  owned : s.self.base.owner ≡ true
  unregistered : s.self.base.registered ≡ false
  unused : s.used_variables ≡ []
  plain : s.self.value_ptr ≡ none

-- In a call that has written `b` last
record Wrote (before : Bool) (b : Bool) (s : Scope SafeBool) : Type 0 where
  owned : s.self.base.owner ≡ true
  registered : s.self.base.registered ≡ true
  used : s.used_variables ≡ s.self.base.address ∷ []
  scratch : s.self.value_ptr ≡ some b
  value : s.self.value ≡ before

first-Wrote : (b : Bool) (s : Scope SafeBool) → AtRest s → Wrote s.self.value b (assign b s).1
unfolding assign
first-Wrote b s h = record {
  owned = ground (arith, h.owned);
  registered = ground (arith, h.owned, h.unregistered);
  used = ground (arith, h.owned, h.unregistered, h.unused);
  scratch = ground arith;
  value = ground arith;
}

next-Wrote :
    (before b b' : Bool) (s : Scope SafeBool) → Wrote before b s → Wrote before b' (assign b' s).1
unfolding assign
next-Wrote before b b' s h = record {
  owned = ground (arith, h.owned);
  registered = ground (arith, h.owned, h.registered);
  used = ground (arith, h.owned, h.registered, h.used);
  scratch = ground arith;
  value = ground (arith, h.value);
}

-- The last of the values that a call writes after `b`
unfoldable last : Bool → List Bool → Bool
last b [] = b
last b (b' ∷ more) = last b' more

writes-Wrote :
    (before b : Bool) (more : List Bool) (s : Scope SafeBool)
    → Wrote before b s
    → Wrote before (last b more) (writes more s)
unfolding writes last
writes-Wrote before b [] s h = h
writes-Wrote before b (b' ∷ more) s h =
    writes-Wrote before b' more (assign b' s).1 (next-Wrote before b b' s h)

-- A call that ended: the variable is at rest with this value
record Ended (b : Bool) (s : Scope SafeBool) : Type 0 where
  rest : AtRest s
  value : s.self.value ≡ b

finished_once :
    (flag before b : Bool) (s : Scope SafeBool)
    → Wrote before b s
    → record (if flag then (commit s).1 else (revert s).1) { used_variables = [] }
      ≡ update_state flag s
unfolding update_state finish_all
finished_once flag before b s h =
    ap (λ used. record (finish_all flag used s) { used_variables = [] }) (sym h.used)

update_state-Wrote :
    (flag before b : Bool) (s : Scope SafeBool)
    → Wrote before b s
    → Ended (if flag then b else before) (update_state flag s)
unfolding commit revert
update_state-Wrote flag before b s h =
    subst (Ended (if flag then b else before)) (finished_once flag before b s h) (record {
      rest = record {
        owned = ground (arith, h.owned);
        unregistered = ground arith;
        unused = refl;
        plain = ground arith;
      };
      value = ground (arith, h.scratch, h.value);
    })

-- A call: whether it commits, the first value that it writes, and what it writes after that
unfoldable calls : List (Bool × Bool × List Bool) → Scope SafeBool → Scope SafeBool
unfolding update_state writes
calls [] s = s
calls ((flag, b, more) ∷ later) s = calls later (update_state flag (writes (b ∷ more) s))

-- The value after the calls, without a scratch copy or a list
unfoldable committed : List (Bool × Bool × List Bool) → Bool → Bool
committed [] b = b
committed ((flag, b', more) ∷ later) b = committed later (if flag then last b' more else b)

-- After any calls, each of which writes an owned SafeBool that was at rest, the variable is at rest, and its value is what the last call that committed wrote last, or the old one if none committed.
calls-committed :
    (cs : List (Bool × Bool × List Bool)) (s : Scope SafeBool)
    → AtRest s
    → AtRest (calls cs s) × ((calls cs s).self.value ≡ committed cs s.self.value)
unfolding calls committed writes
calls-committed [] s h = (h, refl)
calls-committed ((flag, b, more) ∷ later) s h =
    let ended =
      update_state-Wrote flag s.self.value (last b more) (writes (b ∷ more) s)
        (writes-Wrote s.self.value b more (assign b s).1 (first-Wrote b s h)) in
    let (rest, value) =
      calls-committed later (update_state flag (writes (b ∷ more) s)) ended.rest in
    (rest, value ∙ ap (committed later) ended.value)
