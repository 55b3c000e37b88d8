-- ===== src/Contract/SafeAddress/Calls.antt =====
-- Calls of a contract whose variable is a SafeAddress.
use orbitersdk_cpp.Prelude.{
  ℕ, ◌≡◌, refl, sym, ap, ◌∙◌, ok, Bool, true, List, [], ◌∷◌, ◌++◌, if◌then◌else◌, arith,
}
use orbitersdk_cpp.Contract.SafeBase.{Scope}
use orbitersdk_cpp.Contract.SafeAddress.{SafeAddress, assign, commit, revert, get}

-- What the function that is called writes, one address after the other
unfoldable pub writes : List ℕ → Scope SafeAddress → Scope SafeAddress
writes [] s = s
writes (a ∷ written) s = writes written (assign a s).1

-- The loops of `updateState` for a contract with this one variable: it ends written often written it stands in
-- the list.
unfoldable finish_all : Bool → List ℕ → Scope SafeAddress → Scope SafeAddress
finish_all commit_to_state [] s = s
finish_all commit_to_state (a ∷ used) s =
    finish_all commit_to_state used (if commit_to_state then (commit s).1 else (revert s).1)

unfoldable pub update_state : Bool → Scope SafeAddress → Scope SafeAddress
unfolding finish_all
update_state commit_to_state s = record (finish_all commit_to_state s.used_variables s) {
  used_variables = [];
}

-- An owned variable that is registered, with nothing for its owner to finish
record IsForgotten (s : Scope SafeAddress) : Type 0 where
  owned : s.self.base.owner ≡ true
  registered : s.self.base.registered ≡ true
  unused : s.used_variables ≡ []

assign-IsForgotten : (a : ℕ) (s : Scope SafeAddress) → IsForgotten s → IsForgotten (assign a s).1
unfolding assign
assign-IsForgotten a s h = record {
  owned = ground (arith, h.owned);
  registered = ground (arith, h.owned, h.registered);
  unused = ground (arith, h.registered, h.unused);
}

writes-IsForgotten :
    (written : List ℕ) (s : Scope SafeAddress) → IsForgotten s → IsForgotten (writes written s)
unfolding writes
writes-IsForgotten [] s h = h
writes-IsForgotten (a ∷ written) s h =
    writes-IsForgotten written (assign a s).1 (assign-IsForgotten a s h)

update_state_forgotten :
    (commit_to_state : Bool) (s : Scope SafeAddress)
    → IsForgotten s
    → update_state commit_to_state s ≡ s
unfolding update_state
update_state_forgotten commit_to_state s h =
    ap (λ used. record (finish_all commit_to_state used s) { used_variables = [] }) h.unused
    ∙ ap (λ used. record s { used_variables = used }) (sym h.unused)

-- An owned variable that is registered
record IsRegistered (s : Scope SafeAddress) : Type 0 where
  owned : s.self.base.owner ≡ true
  registered : s.self.base.registered ≡ true

assign-IsRegistered :
    (a : ℕ) (s : Scope SafeAddress) → s.self.base.owner ≡ true → IsRegistered (assign a s).1
unfolding assign
assign-IsRegistered a s owned = record { owned = ground arith; registered = ground arith }

writes-IsRegistered :
    (written : List ℕ) (s : Scope SafeAddress) → IsRegistered s → IsRegistered (writes written s)
unfolding writes
writes-IsRegistered [] s h = h
writes-IsRegistered (a ∷ written) s h =
    writes-IsRegistered written (assign a s).1 (assign-IsRegistered a s h.owned)

finish-base :
    (flag : Bool) (s : Scope SafeAddress)
    → (if flag then (commit s).1 else (revert s).1).self.base ≡ s.self.base
unfolding commit revert
finish-base flag s = ground arith

finish_all-base :
    (flag : Bool) (used : List ℕ) (s : Scope SafeAddress)
    → (finish_all flag used s).self.base ≡ s.self.base
unfolding finish_all
finish_all-base flag [] s = refl
finish_all-base flag (a ∷ used) s =
    finish_all-base flag used (if flag then (commit s).1 else (revert s).1) ∙ finish-base flag s

update_state-IsForgotten :
    (flag : Bool) (s : Scope SafeAddress) → IsRegistered s → IsForgotten (update_state flag s)
unfolding update_state
update_state-IsForgotten flag s h =
    let same = finish_all-base flag s.used_variables s in
    record {
      owned = ap (λ b. b.owner) same ∙ h.owned;
      registered = ap (λ b. b.registered) same ∙ h.registered;
      unused = refl;
    }

-- The last address that is written is shown.
shown :
    (written : List ℕ) (a : ℕ) (s : Scope SafeAddress)
    → (get (writes (written ++ a ∷ []) s)).0 ≡ ok a
unfolding writes assign get
shown [] a s = ground arith
shown (b ∷ written) a s = shown written a (assign b s).1

-- If the only variable of a contract is a SafeAddress, then after a call that wrote it, however that call ended, the end of the next call neither commits nor reverts it: it stays as the next call left it, and shows the last address that was written, also if that call failed.
pub update_state-writes :
    (s : Scope SafeAddress) (first a : ℕ) (more written : List ℕ) (first_ends ends : Bool)
    → s.self.base.owner ≡ true
    → let s' = update_state first_ends (writes (first ∷ more) s) in
      (update_state ends (writes (written ++ a ∷ []) s') ≡ writes (written ++ a ∷ []) s')
      × ((get (update_state ends (writes (written ++ a ∷ []) s'))).0 ≡ ok a)
unfolding writes
update_state-writes s first a more written first_ends ends owned =
    let start = writes-IsRegistered more (assign first s).1 (assign-IsRegistered first s owned) in
    let s' = update_state first_ends (writes (first ∷ more) s) in
    let later = update_state_forgotten ends (writes (written ++ a ∷ []) s') (
      writes-IsForgotten (written ++ a ∷ []) s'
        (update_state-IsForgotten first_ends (writes (first ∷ more) s) start)) in
    (later, ap (λ t. (get t).0) later ∙ shown written a s')
