-- ===== src/Contract/Dynamic/Finish.antt =====
-- `updateState` brings every variable of a contract to rest.
use orbitersdk_cpp.Contract.Dynamic.Tracks.{member, Rests, Follows}
use orbitersdk_cpp.Prelude.{
  ℕ, ◌≡◌, refl, ◌∙◌, sym, Bool, true, false, none, some, List, [], ◌∷◌, Assoc, lookup,
  lookup-insert, ◌==◌, ==_iff, if◌then◌else◌, arith, Option-cases, Bool-cases, inl, inr,
}
use orbitersdk_cpp.Contract.SafeUint.{SafeUint}
use orbitersdk_cpp.Contract.SafeUint.Assign.{commit, revert}
use orbitersdk_cpp.Contract.SafeUint.Exact.{visible}
use orbitersdk_cpp.Contract.Dynamic.{finish, finish_at, finish_all}

-- A variable that rests at `a`, showing `n`.
abbrev pub RestsWith : ℕ → ℕ → SafeUint → Type 0
RestsWith a n v = Rests a v × (v.value ≡ n)

-- What the end of a call makes of a variable.
finish_fields :
    (flag : Bool) (v : SafeUint)
    → let v' = finish flag v in
      (v'.base.owner ≡ v.base.owner)
      × (v'.base.address ≡ v.base.address)
      × (v'.base.registered ≡ false)
      × (visible v' ≡ v'.value)
      × (v'.value ≡ (if flag then visible v else v.value))
unfolding finish commit revert
finish_fields true v = (ground arith, ground arith, ground arith, ground arith, ground arith)
finish_fields false v = (refl, refl, refl, refl, refl)

RestsWith-finish :
    (flag : Bool) (a n : ℕ) (v : SafeUint) → RestsWith a n v → RestsWith a n (finish flag v)
RestsWith-finish flag a n v (r, h) =
    let (o, ad, reg, vis, val) = finish_fields flag v in
    (
      record { owned = o ∙ r.owned; address = ad ∙ r.address; unregistered = reg; settled = vis },
      val ∙ (elim (Bool-cases flag) [ inl e ↦ rw e (r.settled ∙ h) | inr e ↦ rw e h ]),
    )

Follows-finish :
    (flag : Bool) (used : List ℕ) (a : ℕ) (v0 v : SafeUint)
    → Follows used a v0 v
    → RestsWith a (if flag then visible v else v0.value) (finish flag v)
Follows-finish flag used a v0 v f =
    let (o, ad, reg, vis, val) = finish_fields flag v in
    (
      record { owned = o ∙ f.owned; address = ad ∙ f.address; unregistered = reg; settled = vis },
      val ∙ (elim (Bool-cases flag) [ inl e ↦ rw e refl | inr e ↦ rw e f.same_value ]),
    )

-- A variable that is not registered shows its committed value already.
Follows-idle :
    (flag : Bool) (used : List ℕ) (a : ℕ) (v0 v : SafeUint)
    → Follows used a v0 v
    → member a used ≡ false
    → RestsWith a (if flag then visible v else v0.value) v
Follows-idle flag used a v0 v f unlisted = (
  record { owned = f.owned; address = f.address; unregistered = idle; settled = f.settled idle },
  elim (Bool-cases flag) [ inl e ↦ rw e (sym (f.settled idle)) | inr e ↦ rw e f.same_value ],
)
  where
    idle : v.base.registered ≡ false
    idle = grind (arith, f.listed)

finish_at-lookup :
    (flag : Bool) (b a : ℕ) (m : Assoc SafeUint) (v : SafeUint)
    → lookup a m ≡ some v
    → lookup a (finish_at flag b m) ≡ some (if b == a then finish flag v else v)
unfolding finish_at
finish_at-lookup flag b a m v e = elim (Option-cases (lookup b m)) [
  | inl eb ↦ grind (arith, (==_iff b a).0)
  | inr (u, eb) ↦ grind (arith, lookup-insert b a (finish flag u) m)
]

finish_at-none :
    (flag : Bool) (b a : ℕ) (m : Assoc SafeUint)
    → lookup a m ≡ none
    → lookup a (finish_at flag b m) ≡ none
unfolding finish_at
finish_at-none flag b a m e = elim (Option-cases (lookup b m)) [
  | inl eb ↦ ground arith
  | inr (u, eb) ↦ grind (arith, lookup-insert b a (finish flag u) m)
]

pub finish_all-none :
    (flag : Bool) (used : List ℕ) (a : ℕ) (m : Assoc SafeUint)
    → lookup a m ≡ none
    → lookup a (finish_all flag used m) ≡ none
unfolding finish_all
finish_all-none flag [] a m e = e
finish_all-none flag (b ∷ used) a m e =
    finish_all-none flag used a (finish_at flag b m) (finish_at-none flag b a m e)

-- `finish_all` leaves alone what rests already.
finish_all-rested :
    (flag : Bool) (used : List ℕ) (a n : ℕ) (m : Assoc SafeUint) (v : SafeUint)
    → lookup a m ≡ some v
    → RestsWith a n v
    → (v' : SafeUint) × (lookup a (finish_all flag used m) ≡ some v') × RestsWith a n v'
unfolding finish_all
finish_all-rested flag [] a n m v e r = (v, e, r)
finish_all-rested flag (b ∷ used) a n m v e r =
    finish_all-rested flag used a n (finish_at flag b m) (if b == a then finish flag v else v)
      (finish_at-lookup flag b a m v e)
      (elim (Bool-cases (b == a)) [
        | inl same ↦ rw same (RestsWith-finish flag a n v r)
        | inr other ↦ rw other r
      ])

-- `finish_all` brings to rest every variable in its list, however often it is there.
finish_all-member :
    (flag : Bool) (used : List ℕ) (a n : ℕ) (m : Assoc SafeUint) (v : SafeUint)
    → lookup a m ≡ some v
    → RestsWith a n (finish flag v)
    → member a used ≡ true
    → (v' : SafeUint) × (lookup a (finish_all flag used m) ≡ some v') × RestsWith a n v'
unfolding finish_all
finish_all-member flag [] a n m v e r listed = grind arith
finish_all-member flag (b ∷ used) a n m v e r listed = elim (Bool-cases (b == a)) [
  | inl same ↦
      finish_all-rested flag used a n (finish_at flag b m) (finish flag v)
        (finish_at-lookup flag b a m v e ∙ rw same refl) r
  | inr other ↦
      finish_all-member flag used a n (finish_at flag b m) v
        (finish_at-lookup flag b a m v e ∙ rw other refl) r (grind arith)
]

pub finish_all-Follows :
    (flag : Bool) (used : List ℕ) (a : ℕ) (m : Assoc SafeUint) (v0 v : SafeUint)
    → lookup a m ≡ some v
    → Follows used a v0 v
    → (v' : SafeUint) × (lookup a (finish_all flag used m) ≡ some v')
      × RestsWith a (if flag then visible v else v0.value) v'
finish_all-Follows flag used a m v0 v e f = elim (Bool-cases (member a used)) [
  | inl listed ↦
      finish_all-member flag used a (if flag then visible v else v0.value) m v e
        (Follows-finish flag used a v0 v f) listed
  | inr unlisted ↦
      finish_all-rested flag used a (if flag then visible v else v0.value) m v e
        (Follows-idle flag used a v0 v f unlisted)
]
