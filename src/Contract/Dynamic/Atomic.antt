-- ===== src/Contract/Dynamic/Atomic.antt =====
-- A call of a contract with SafeUint variables is atomic: it keeps all that it did to them, or nothing.
use orbitersdk_cpp.Contract.Dynamic.Tracks.{
  AtRest, RestsIn, Tracks, Tracking, run_function-Tracking, AtRest-Tracking,
}
use orbitersdk_cpp.Contract.Dynamic.Finish.{RestsWith, finish_all-none, finish_all-Follows}
use orbitersdk_cpp.Prelude.{
  ℕ, ◌≡◌, refl, Bool, Option, none, some, List, [], Result, ok, err, runtime_error, Assoc, lookup,
  if◌then◌else◌, arith, ◌&&◌, is_ok,
}
use orbitersdk_cpp.Contract.SafeUint.{SafeUint}
use orbitersdk_cpp.Contract.SafeUint.Exact.{visible}
use orbitersdk_cpp.Contract.Dynamic.{
  Contract, Function, finish_all, update_state, run_function, eth_call,
}

-- What a call leaves at an address: a variable that was there before the call rests after it, and its
-- value is `n` of the variable before the call and at the end of the function; and there is
-- no variable where there was none.
abbrev pub Ends :
    (SafeUint → SafeUint → ℕ) → ℕ → Option SafeUint → Option SafeUint → Option SafeUint → Type 0
Ends n a none none none = Unit
Ends n a (some v0) (some v) (some v') = RestsWith a (n v0 v) v'
Ends n a _ _ _ = ⊥

finish_all-Ends :
    (flag : Bool) (used : List ℕ) (a : ℕ) (m : Assoc SafeUint) (o0 o : Option SafeUint)
    → lookup a m ≡ o
    → Tracks used a o0 o
    → Ends (λ v0 v. if flag then visible v else v0.value) a o0 o (lookup a (finish_all flag used m))
finish_all-Ends flag used a m none none e t = rw (finish_all-none flag used a m e) tt
finish_all-Ends flag used a m (some v0) (some v) e t =
    let (v', e', r) = finish_all-Follows flag used a m v0 v e t in rw e' r
finish_all-Ends flag used a m none (some v) e t = elim t [ ]
finish_all-Ends flag used a m (some v0) none e t = elim t [ ]

update_state_used : (flag : Bool) (c : Contract) → (update_state flag c).used_variables ≡ []
unfolding update_state
update_state_used flag c = refl

eth_call-Ends :
    (commit_flag : Bool) (c inside : Contract) (r : Result (Unit {0})) (a : ℕ)
    → Tracking c inside
    → let after = update_state (is_ok r && commit_flag) inside in
      Ends
        (λ v0 v. if is_ok r && commit_flag then visible v else v0.value)
        a
        (lookup a c.variables)
        (lookup a inside.variables)
        (lookup a after.variables)
unfolding update_state
eth_call-Ends commit_flag c inside r a t =
    finish_all-Ends (is_ok r && commit_flag) inside.used_variables a inside.variables
      (lookup a c.variables) (lookup a inside.variables) refl (t a)

eth_call_result :
    (w : ℕ → ℕ) (commit_flag : Bool) (body : Function) (c : Contract)
    → let (r, inside) = run_function w body c in
      eth_call w commit_flag body c
      ≡ (if is_ok r then ok tt else err runtime_error, update_state (is_ok r && commit_flag) inside)
unfolding eth_call
eth_call_result w commit_flag body c = ground arith

-- A call of a contract at rest, all of whose variables are of the SafeUint classes, keeps all that its function did to them, or none of it: operators on them, and reads on which the function may branch. The call throws a `runtime_error` where the function throws, and ends well otherwise. If it ends well and commits, a variable's value is what it showed at the end of the function; if the function throws or the call does not commit, it is the value before the call. Every variable is at rest afterwards, shows its value, and no variable is left in the list of those in use.
pub eth_call-atomic :
    (w : ℕ → ℕ) (commit_flag : Bool) (body : Function) (c : Contract) (a : ℕ)
    → AtRest c
    → let (r, inside) = run_function w body c in
      let (r', after) = eth_call w commit_flag body c in
      (r' ≡ (if is_ok r then ok tt else err runtime_error))
      × (after.used_variables ≡ [])
      × Ends
          (λ v0 v. if is_ok r && commit_flag then visible v else v0.value)
          a
          (lookup a c.variables)
          (lookup a inside.variables)
          (lookup a after.variables)
eth_call-atomic w commit_flag body c a at_rest =
    let (r, inside) = run_function w body c in
    let t = run_function-Tracking w body c c (AtRest-Tracking c at_rest) in
    rw (eth_call_result w commit_flag body c) (
      refl,
      update_state_used (is_ok r && commit_flag) inside,
      eth_call-Ends commit_flag c inside r a t,
    )

Ends-RestsIn :
    (n : SafeUint → SafeUint → ℕ) (a : ℕ) (o0 o o' : Option SafeUint)
    → Ends n a o0 o o'
    → RestsIn a o'
Ends-RestsIn n a none none none t = tt
Ends-RestsIn n a (some v0) (some v) (some u) t = t.0
Ends-RestsIn n a none none (some u) t = elim t [ ]
Ends-RestsIn n a none (some v) none t = tt
Ends-RestsIn n a none (some v) (some u) t = elim t [ ]
Ends-RestsIn n a (some v0) none none t = tt
Ends-RestsIn n a (some v0) none (some u) t = elim t [ ]
Ends-RestsIn n a (some v0) (some v) none t = tt

-- A call leaves the contract at rest, for the next call.
eth_call-AtRest :
    (w : ℕ → ℕ) (commit_flag : Bool) (body : Function) (c : Contract)
    → AtRest c
    → AtRest ((eth_call w commit_flag body c).1)
eth_call-AtRest w commit_flag body c at_rest =
    let after = (eth_call w commit_flag body c).1 in
    let atomic = λ (a : ℕ). eth_call-atomic w commit_flag body c a at_rest in
    record {
      unused = (atomic 0).1;
      rests = λ a.
          Ends-RestsIn
            (λ v0 v.
              if is_ok ((run_function w body c).0) && commit_flag then visible v else v0.value)
            a (lookup a c.variables) (lookup a ((run_function w body c).1.variables))
            (lookup a after.variables) ((atomic a).2);
    }
