-- ===== src/Contract/Dynamic/Tracks.antt =====
-- What a function keeps of the variables of a contract, whatever operators it applies to them.
use orbitersdk_cpp.Prelude.{
  ℕ, ◌≡◌, refl, ◌∙◌, sym, ap, Bool, true, false, Option, none, some, List, [], ◌∷◌, ◌++◌, Result,
  ok, err, lookup, insert, lookup-insert, ◌==◌, ==_iff, if◌then◌else◌, arith, Option-cases,
  Bool-cases, undefined, inl, inr,
}
use mathlib.Core.Path.{subst}
use orbitersdk_cpp.Prelude.Exec.{continue}
use orbitersdk_cpp.Contract.SafeBase.{Scope}
use orbitersdk_cpp.Contract.SafeUint.{SafeUint, get, check}
use orbitersdk_cpp.Contract.SafeUint.Exact.{visible}
use orbitersdk_cpp.Contract.SafeUint.Journal.{Change, change, change-Kept, change_registers}
use orbitersdk_cpp.Contract.Dynamic.{
  Contract, Function, returns, throws, does, reads, apply_change, read_variable, run_function,
}

abbrev pub member : ℕ → List ℕ → Bool
member a [] = false
member a (x ∷ xs) = if x == a then true else member a xs

-- A variable between calls: owned by the contract, unregistered, and showing its committed value.
pub record Rests (a : ℕ) (v : SafeUint) : Type 0 where
  pub owned : v.base.owner ≡ true
  pub address : v.base.address ≡ a
  pub unregistered : v.base.registered ≡ false
  pub settled : visible v ≡ v.value

abbrev pub RestsIn : ℕ → Option SafeUint → Type 0
RestsIn a none = Unit
RestsIn a (some v) = Rests a v

-- A contract between calls.
pub record AtRest (c : Contract) : Type 0 where
  pub unused : c.used_variables ≡ []
  pub rests : (a : ℕ) → RestsIn a (lookup a c.variables)

-- A variable within a call, with the list of those in use: one that is not registered still shows
-- its committed value, and one that is stands in the list.
pub record Follows (used : List ℕ) (a : ℕ) (v0 v : SafeUint) : Type 0 where
  pub same_value : v.value ≡ v0.value
  pub owned : v.base.owner ≡ true
  pub address : v.base.address ≡ a
  pub listed : v.base.registered ≡ true → member a used ≡ true
  pub settled : v.base.registered ≡ false → visible v ≡ v.value

-- What the address `a` held before the call and holds now.
abbrev pub Tracks : List ℕ → ℕ → Option SafeUint → Option SafeUint → Type 0
Tracks used a none none = Unit
Tracks used a (some v0) (some v) = Follows used a v0 v
Tracks used a _ _ = ⊥

member-snoc : (a b : ℕ) (xs : List ℕ) → member a xs ≡ true → member a (xs ++ b ∷ []) ≡ true
member-snoc a b [] h = cc
member-snoc a b (x ∷ xs) h = ground (arith, member-snoc a b xs)

member-snoc_self : (a : ℕ) (xs : List ℕ) → member a (xs ++ a ∷ []) ≡ true
member-snoc_self a [] = ground arith
member-snoc_self a (x ∷ xs) = ground (arith, member-snoc_self a xs)

Follows-snoc :
    (used : List ℕ) (a b : ℕ) (v0 v : SafeUint)
    → Follows used a v0 v
    → Follows (used ++ b ∷ []) a v0 v
Follows-snoc used a b v0 v f = record {
  same_value = f.same_value;
  owned = f.owned;
  address = f.address;
  listed = λ h. member-snoc a b used (f.listed h);
  settled = f.settled;
}

now_listed :
    {a : ℕ} {v0 : SafeUint} (v : SafeUint) (used : List ℕ)
    → Follows used a v0 v
    → member a (if v.base.registered then used else used ++ v.base.address ∷ []) ≡ true
now_listed {a} v used f = elim (Bool-cases (v.base.registered)) [
  | inl e ↦ rw e (f.listed e)
  | inr e ↦ rw (e, f.address) (member-snoc_self a used)
]

Follows-change :
    (w : ℕ) (op : Change) (used : List ℕ) (a : ℕ) (v0 v : SafeUint)
    → Follows used a v0 v
    → let s = (change w op (record { self = v; used_variables = used })).1 in
      Follows s.used_variables a v0 s.self
Follows-change w op used a v0 v f =
    let s0 : Scope SafeUint = record { self = v; used_variables = used } in
    let marks = change_registers w op s0 f.owned in
    let kept = change-Kept w op s0 in
    record {
      same_value = kept.value ∙ f.same_value;
      owned = kept.owner ∙ f.owned;
      address = kept.address ∙ f.address;
      listed = λ _. rw marks.1 (now_listed v used f);
      settled = λ h. cc;
    }

Tracks-snoc :
    (used : List ℕ) (a b : ℕ) (o0 o : Option SafeUint)
    → Tracks used a o0 o
    → Tracks (used ++ b ∷ []) a o0 o
Tracks-snoc used a b none none t = t
Tracks-snoc used a b none (some v) t = elim t [ ]
Tracks-snoc used a b (some v0) none t = elim t [ ]
Tracks-snoc used a b (some v0) (some v) t = Follows-snoc used a b v0 v t

Tracks-owner :
    (used : List ℕ) (a : ℕ) (o0 : Option SafeUint) (v : SafeUint)
    → Tracks used a o0 (some v)
    → v.base.owner ≡ true
Tracks-owner used a none v t = elim t [ ]
Tracks-owner used a (some v0) v t = t.owned

Tracks-change :
    (w : ℕ) (op : Change) (used : List ℕ) (a : ℕ) (o0 : Option SafeUint) (v : SafeUint)
    → Tracks used a o0 (some v)
    → let s = (change w op (record { self = v; used_variables = used })).1 in
      Tracks s.used_variables a o0 (some s.self)
Tracks-change w op used a none v t = elim t [ ]
Tracks-change w op used a (some v0) v t = Follows-change w op used a v0 v t

abbrev pub Tracking : Contract → Contract → Type 0
Tracking c0 c = (a : ℕ) → Tracks c.used_variables a (lookup a c0.variables) (lookup a c.variables)

-- The variable at `b` and the list of those in use after an operator on it.
abbrev changed : ℕ → Change → SafeUint → Contract → Scope SafeUint
changed w op v c = (change w op (record { self = v; used_variables = c.used_variables })).1

apply_change_missing :
    (w : ℕ → ℕ) (b : ℕ) (op : Change) (c : Contract)
    → lookup b c.variables ≡ none
    → apply_change w b op c ≡ (err undefined, c)
unfolding apply_change
apply_change_missing w b op c h = ground arith

apply_change_found :
    (w : ℕ → ℕ) (b : ℕ) (op : Change) (c : Contract) (v : SafeUint)
    → lookup b c.variables ≡ some v
    → (apply_change w b op c).1 ≡ (record {
      variables = insert b ((changed (w b) op v c).self) c.variables;
      used_variables = (changed (w b) op v c).used_variables;
    })
unfolding apply_change
apply_change_found w b op c v h = ground arith

Tracks-registers :
    (w : ℕ → ℕ) (b a : ℕ) (op : Change) (c : Contract) (v : SafeUint) (o0 o : Option SafeUint)
    → v.base.owner ≡ true
    → Tracks c.used_variables a o0 o
    → Tracks ((changed (w b) op v c).used_variables) a o0 o
Tracks-registers w b a op c v o0 o owned t =
    let s : Scope SafeUint = record { self = v; used_variables = c.used_variables } in
    rw ((change_registers (w b) op s owned).1) (elim (Bool-cases (v.base.registered)) [
      | inl e ↦ rw e t
      | inr e ↦ rw e (Tracks-snoc c.used_variables a v.base.address o0 o t)
    ])

module _ (w : ℕ → ℕ) (b : ℕ) (op : Change) (c0 c : Contract) (t : Tracking c0 c) where
  apply_change-Tracking : Tracking c0 ((apply_change w b op c).1)
  apply_change-Tracking a = elim (Option-cases (lookup b c.variables)) [
    | inl e ↦ rw (apply_change_missing w b op c e) (t a)
    | inr (v, e) ↦
        rw
          (
            apply_change_found w b op c v e,
            lookup-insert b a ((changed (w b) op v c).self) c.variables,
          )
          (at_address v e)
  ]
    where
      at_address :
          (v : SafeUint)
          → lookup b c.variables ≡ some v
          → Tracks
              ((changed (w b) op v c).used_variables)
              a
              (lookup a c0.variables)
              (if b == a then some ((changed (w b) op v c).self) else lookup a c.variables)
      at_address v e = elim (Bool-cases (b == a)) [
        | inl same ↦ rw same (
            Tracks-change (w b) op c.used_variables a (lookup a c0.variables) v (
              subst (Tracks c.used_variables a (lookup a c0.variables))
                (ap (λ x. lookup x c.variables) (sym ((==_iff b a).0 same)) ∙ e) (t a)))
        | inr other ↦ rw other (
            Tracks-registers w b a op c v (lookup a c0.variables) (lookup a c.variables)
              (Tracks-owner c.used_variables b (lookup b c0.variables) v
                (subst (Tracks c.used_variables b (lookup b c0.variables)) e (t b)))
              (t a))
      ]

-- The variable at `b` and the list of those in use after it is read
abbrev got : SafeUint → Contract → Scope SafeUint
got v c = (get (record { self = v; used_variables = c.used_variables })).1

-- Reading makes the scratch copy, and shows nothing else.
got_lem :
    (v : SafeUint) (c : Contract)
    → ((got v c).self.base ≡ v.base)
      × ((got v c).self.value ≡ v.value)
      × (visible ((got v c).self) ≡ visible v)
      × ((got v c).used_variables ≡ c.used_variables)
unfolding get check
got_lem v c = (ground arith, ground arith, ground arith, ground arith)

Tracks-got :
    (a : ℕ) (o0 : Option SafeUint) (v : SafeUint) (c : Contract)
    → Tracks c.used_variables a o0 (some v)
    → Tracks c.used_variables a o0 (some ((got v c).self))
Tracks-got a none v c t = elim t [ ]
Tracks-got a (some v0) v c f =
    let (base, value, shows, _) = got_lem v c in
    record {
      same_value = value ∙ f.same_value;
      owned = ap (λ b. b.owner) base ∙ f.owned;
      address = ap (λ b. b.address) base ∙ f.address;
      listed = λ h. f.listed (sym (ap (λ b. b.registered) base) ∙ h);
      settled = λ h. shows ∙ f.settled (sym (ap (λ b. b.registered) base) ∙ h) ∙ sym value;
    }

module _ (w : ℕ → ℕ) (b : ℕ) (c0 c : Contract) (t : Tracking c0 c) where
  read_variable_missing : lookup b c.variables ≡ none → read_variable w b c ≡ (err undefined, c)
  unfolding read_variable
  read_variable_missing h = ground arith

  read_variable_found :
      (v : SafeUint)
      → lookup b c.variables ≡ some v
      → (read_variable w b c).1 ≡ (record {
        variables = insert b ((got v c).self) c.variables;
        used_variables = c.used_variables;
      })
  unfolding read_variable
  read_variable_found v h = ground (arith, (got_lem v c).3)

  read_variable-Tracking : Tracking c0 ((read_variable w b c).1)
  read_variable-Tracking a = elim (Option-cases (lookup b c.variables)) [
    | inl e ↦ rw (read_variable_missing e) (t a)
    | inr (v, e) ↦
        rw (read_variable_found v e, lookup-insert b a ((got v c).self) c.variables)
          (elim (Bool-cases (b == a)) [
            | inl same ↦
                let here = ap (λ x. lookup x c.variables) (sym ((==_iff b a).0 same)) ∙ e in
                rw same (
                  Tracks-got a (lookup a c0.variables) v c
                    (subst (Tracks c.used_variables a (lookup a c0.variables)) here (t a)))
            | inr other ↦ rw other (t a)
          ])
  ]

continue-Tracking :
    {A : Type 0} (c0 c : Contract) (r : Result A) (k : A → Contract → Result (Unit {0}) × Contract)
    → Tracking c0 c
    → ((x : A) → Tracking c0 ((k x c).1))
    → Tracking c0 ((continue r k c).1)
continue-Tracking c0 c (ok x) k t t' = t' x
continue-Tracking c0 c (err e) k t t' = t

pub run_function-Tracking :
    (w : ℕ → ℕ) (body : Function) (c0 c : Contract)
    → Tracking c0 c
    → Tracking c0 ((run_function w body c).1)
unfolding run_function
run_function-Tracking w returns c0 c t = t
run_function-Tracking w (throws e) c0 c t = t
run_function-Tracking w (does a op rest) c0 c t =
    let (r, c') = apply_change w a op c in
    let t' : Tracking c0 c' = apply_change-Tracking w a op c0 c t in
    continue-Tracking c0 c' r (λ _. run_function w rest) t'
      (λ _. run_function-Tracking w rest c0 c' t')
run_function-Tracking w (reads a rest) c0 c t =
    let (r, c') = read_variable w a c in
    let t' : Tracking c0 c' = read_variable-Tracking w a c0 c t in
    continue-Tracking c0 c' r (λ n. run_function w (rest n)) t'
      (λ n. run_function-Tracking w (rest n) c0 c' t')

Rests-Follows : (used : List ℕ) (a : ℕ) (v : SafeUint) → Rests a v → Follows used a v v
Rests-Follows used a v r = record {
  same_value = refl;
  owned = r.owned;
  address = r.address;
  listed = λ h. grind (arith, r.unregistered);
  settled = λ _. r.settled;
}

pub AtRest-Tracking : (c : Contract) → AtRest c → Tracking c c
AtRest-Tracking c at_rest a = elim (Option-cases (lookup a c.variables)) [
  | inl e ↦ rw e tt
  | inr (v, e) ↦ rw e (Rests-Follows c.used_variables a v (subst (RestsIn a) e (at_rest.rests a)))
]
