-- ===== src/Contract/SafeUnorderedMap/Laws.antt =====
-- Between the ends of calls a SafeUnorderedMap answers as the map that it shows.
use orbitersdk_cpp.Prelude.{
  ℕ, ◌≡◌, refl, ◌∙◌, Bool, true, false, Option, none, some, ok, err, runtime_error, lookup,
  contains, lookup-insert, lookup-erase, ◌==◌, is_ok, ap, sym, if◌then◌else◌, arith, Option-cases,
  inl, inr, ==_iff,
}
use orbitersdk_cpp.Contract.SafeBase.{Scope}
use orbitersdk_cpp.Contract.SafeUnorderedMap.{
  SafeUnorderedMap, pointed, member, check_key_and_copy, check_key_and_create, check_key_and_throw,
  find, find_const, has, index, at, write, insert_or_assign, insert_value, erase_key, put, check,
}

-- What a function of a contract does with a map; `assigned` is `m[key] = value`.
pub data Op (T : Type 0) : Type 0 where
  found held indexed gotten erased : ℕ → Op T
  assigned put_in inserted : ℕ → T → Op T

-- What it gets.
pub data Answer (T : Type 0) : Type 0 where
  entry : Option T → Answer T
  truth : Bool → Answer T
  number : ℕ → Answer T
  thrown : Answer T
  done : Answer T

module _ {T : Type 0} where
  -- The entry that the object shows at a key: the scratch one, or else the committed one unless the key
  -- is erased.
  unfoldable pub shown : SafeUnorderedMap T → ℕ → Option T
  shown m k = elim (lookup k (pointed m.map_ptr)) [
    | some v ↦ some v
    | none ↦ if member k (pointed m.erased_keys) then none else lookup k m.map
  ]

  -- The entry of the scratch map
  unfoldable pub scratch : SafeUnorderedMap T → ℕ → Option T
  scratch m k = lookup k (pointed m.map_ptr)

  shown_copy : (k j : ℕ) (m : SafeUnorderedMap T) → shown (check_key_and_copy k m) j ≡ shown m j
  unfolding shown check_key_and_copy
  shown_copy k j m = elim (Option-cases (lookup k m.map)) [
    | inl e ↦ ground arith
    | inr (v, e) ↦ ground (arith, lookup-insert k j v (pointed m.map_ptr), ==_iff k j)
  ]

  copy_finds :
      (k : ℕ) (m : SafeUnorderedMap T)
      → lookup k (pointed ((check_key_and_copy k m).map_ptr)) ≡ shown m k
  unfolding shown check_key_and_copy
  copy_finds k m = elim (Option-cases (lookup k m.map)) [
    | inl e ↦ ground arith
    | inr (v, e) ↦ ground (arith, lookup-insert k k v (pointed m.map_ptr))
  ]

  shown_create :
      (zero : T) (k j : ℕ) (m : SafeUnorderedMap T)
      → shown (check_key_and_create zero k m) j
        ≡ (if k == j then elim (shown m k) [ none ↦ some zero | some v ↦ some v ] else shown m j)
  unfolding shown check_key_and_create
  shown_create zero k j m = elim (Option-cases (lookup k m.map)) [
    | inl e ↦ ground (arith, lookup-insert k j zero (pointed m.map_ptr))
    | inr (v, e) ↦
        ground (
          arith,
          lookup-insert k j v (pointed m.map_ptr),
          lookup-insert k j zero (pointed m.map_ptr),
        )
  ]

  create_finds :
      (zero : T) (k : ℕ) (m : SafeUnorderedMap T)
      → lookup k (pointed ((check_key_and_create zero k m).map_ptr))
        ≡ elim (shown m k) [ none ↦ some zero | some v ↦ some v ]
  unfolding shown check_key_and_create
  create_finds zero k m = elim (Option-cases (lookup k m.map)) [
    | inl e ↦ ground (arith, lookup-insert k k zero (pointed m.map_ptr))
    | inr (v, e) ↦
        ground (
          arith,
          lookup-insert k k v (pointed m.map_ptr),
          lookup-insert k k zero (pointed m.map_ptr),
        )
  ]

  shown_throw :
      (k j : ℕ) (m : SafeUnorderedMap T) → shown ((check_key_and_throw k m).1) j ≡ shown m j
  unfolding shown check_key_and_throw
  shown_throw k j m = elim (Option-cases (lookup k m.map)) [
    | inl e ↦ ground arith
    | inr (v, e) ↦ ground (arith, lookup-insert k j v (pointed m.map_ptr))
  ]

  -- `operator[]`, `find`, `contains`, `at`, `erase`, a write, `insert_or_assign` and `insert` on the object.
  abbrev pub run : T → Op T → Scope (SafeUnorderedMap T) → Answer T × Scope (SafeUnorderedMap T)
  run zero (found k) s = let (o, s') = find k s in (entry o, s')
  run zero (held k) s = let (b, s') = has k s in (truth b, s')
  run zero (indexed k) s = let (o, s') = index zero k s in (entry o, s')
  run zero (gotten k) s = let (r, s') = at k s in (elim r [ ok o ↦ entry o | err e ↦ thrown ], s')
  run zero (erased k) s = let (n, s') = erase_key k s in (number n, s')
  run zero (assigned k v) s = (done, write k v ((index zero k s).1))
  run zero (put_in k v) s = let (b, s') = insert_or_assign k v s in (truth b, s')
  run zero (inserted k v) s = let (b, s') = insert_value k v s in (truth b, s')

  -- The same on the map shown, `f`, a map from keys to entries. What `erase`, `insert_or_assign` and
  -- `insert` answer, and whether `insert` puts its entry in, is a matter of the scratch map `g`.
  abbrev pub updated : ℕ → Option T → (ℕ → Option T) → ℕ → Option T
  updated k o f j = if k == j then o else f j

  abbrev pub or_zero : T → Option T → Option T
  or_zero zero none = some zero
  or_zero zero (some v) = some v

  or_zero_lem :
      (zero : T) (o : Option T) → (elim o [ none ↦ some zero | some v ↦ some v ]) ≡ or_zero zero o
  or_zero_lem zero none = refl
  or_zero_lem zero (some v) = refl

  abbrev pub answer : T → Op T → (ℕ → Option T) → (ℕ → Option T) → Answer T
  answer zero (found k) f g = entry (f k)
  answer zero (held k) f g = truth (elim (f k) [ none ↦ false | some _ ↦ true ])
  answer zero (indexed k) f g = entry (or_zero zero (f k))
  answer zero (gotten k) f g = elim (f k) [ none ↦ thrown | some v ↦ entry (some v) ]
  answer zero (erased k) f g = number (elim (g k) [ none ↦ 0 | some _ ↦ 1 ])
  answer zero (assigned k v) f g = done
  answer zero (put_in k v) f g = truth (elim (g k) [ none ↦ true | some _ ↦ false ])
  answer zero (inserted k v) f g = truth (elim (g k) [ none ↦ true | some _ ↦ false ])

  abbrev pub after : T → Op T → (ℕ → Option T) → (ℕ → Option T) → ℕ → Option T
  after zero (found k) f g j = f j
  after zero (held k) f g j = f j
  after zero (gotten k) f g j = f j
  after zero (indexed k) f g j = updated k (or_zero zero (f k)) f j
  after zero (erased k) f g j = updated k none f j
  after zero (assigned k v) f g j = updated k (some v) f j
  after zero (put_in k v) f g j = updated k (some v) f j
  after zero (inserted k v) f g j = updated k (or_zero v (g k)) f j

  -- The scratch map holds what was found, and is what `at` reads.
  throw_finds :
      (k : ℕ) (m : SafeUnorderedMap T)
      → let (r, m') = check_key_and_throw k m in
        (r ≡ elim (shown m k) [ none ↦ err runtime_error | some _ ↦ ok tt ])
        × (is_ok r ≡ true → lookup k (pointed m'.map_ptr) ≡ shown m k)
  unfolding shown check_key_and_throw
  throw_finds k m = elim (Option-cases (lookup k m.map)) [
    | inl e ↦ (ground arith, ground arith)
    | inr (v, e) ↦ (ground arith, ground (arith, lookup-insert k k v (pointed m.map_ptr)))
  ]

  answers :
      (zero : T) (op : Op T) (s : Scope (SafeUnorderedMap T))
      → (run zero op s).0 ≡ answer zero op (shown s.self) (scratch s.self)
  unfolding find has index at contains scratch insert_or_assign insert_value erase_key check
  answers zero (found k) s = ap entry (copy_finds k s.self)
  answers zero (held k) s = ground (arith, copy_finds k s.self)
  answers zero (indexed k) s =
      ap entry (create_finds zero k s.self ∙ or_zero_lem zero (shown s.self k))
  answers zero (gotten k) s = let (r, reads) = throw_finds k s.self in ground (arith, r, reads)
  answers zero (erased k) s = ground arith
  answers zero (assigned k v) s = refl
  answers zero (put_in k v) s = ground arith
  answers zero (inserted k v) s = ground arith

  pub find_const-shown :
      (k j : ℕ) (s : Scope (SafeUnorderedMap T))
      → let (o, s') = find_const k s in (o ≡ shown s.self k) × (shown s'.self j ≡ shown s.self j)
  unfolding find_const
  find_const-shown k j s = (copy_finds k s.self, shown_copy k j s.self)

  shown-put :
      (k j : ℕ) (v : T) (m : SafeUnorderedMap T)
      → shown (put k v m) j ≡ (if k == j then some v else shown m j)
  unfolding shown put
  shown-put k j v m = ground (arith, lookup-insert k j v (pointed m.map_ptr))

  pub index-shown :
      (zero : T) (k j : ℕ) (s : Scope (SafeUnorderedMap T))
      → let (o, s') = index zero k s in
        (o ≡ or_zero zero (shown s.self k))
        × (shown s'.self j ≡ updated k (or_zero zero (shown s.self k)) (shown s.self) j)
  unfolding index shown
  index-shown zero k j s = (
    create_finds zero k s.self ∙ or_zero_lem zero (shown s.self k),
    rw (sym (or_zero_lem zero (shown s.self k))) (shown_create zero k j s.self),
  )

  pub shown-write :
      (k j : ℕ) (v : T) (s : Scope (SafeUnorderedMap T))
      → shown ((write k v s).self) j ≡ updated k (some v) (shown s.self) j
  unfolding write
  shown-write k j v s = shown-put k j v s.self

  elim_at : (k j : ℕ) (s : Scope (SafeUnorderedMap T)) → shown ((at k s).1.self) j ≡ shown s.self j
  unfolding shown at
  elim_at k j s = ground (arith, shown_throw k j s.self)

  shown_erase :
      (k j : ℕ) (s : Scope (SafeUnorderedMap T))
      → shown ((erase_key k s).1.self) j ≡ (if k == j then none else shown s.self j)
  unfolding shown erase_key member check
  shown_erase k j s = ground (arith, lookup-erase k j (pointed s.self.map_ptr))

  shown-after :
      (zero : T) (op : Op T) (s : Scope (SafeUnorderedMap T)) (j : ℕ)
      → shown (((run zero op s).1).self) j ≡ after zero op (shown s.self) (scratch s.self) j
  unfolding shown find has index at write insert_or_assign insert_value erase_key put check scratch
  shown-after zero (found k) s j = shown_copy k j s.self
  shown-after zero (held k) s j = shown_copy k j s.self
  shown-after zero (indexed k) s j =
      rw (sym (or_zero_lem zero (shown s.self k))) (shown_create zero k j s.self)
  shown-after zero (gotten k) s j = elim_at k j s
  shown-after zero (erased k) s j = shown_erase k j s
  shown-after zero (assigned k v) s j =
      shown-put k j v (check_key_and_create zero k s.self)
      ∙ (ground (arith, shown_create zero k j s.self))
  shown-after zero (put_in k v) s j = shown-put k j v (check s.self)
  shown-after zero (inserted k v) s j =
      ground (arith, lookup-insert k j v (pointed s.self.map_ptr), (==_iff k j).0)

  -- `find`, `contains`, `at` and `operator[]` of a key give the answer that the map shown has: `at` throws where there is no entry, and `operator[]` makes an entry `T()` there. After a write and `insert_or_assign` the map shown has the entry, and after `erase` it has none. The number that `erase` returns, and whether `insert_or_assign` and `insert` say that they inserted, depend on the scratch map only, and so does `insert`: an entry that is committed and not in the scratch map is not counted, and `insert` replaces it. All other entries that are shown stay.
  pub run-shown :
      (zero : T) (op : Op T) (s : Scope (SafeUnorderedMap T)) (j : ℕ)
      → let (r, s') = run zero op s in
        (r ≡ answer zero op (shown s.self) (scratch s.self))
        × (shown s'.self j ≡ after zero op (shown s.self) (scratch s.self) j)
  run-shown zero op s j = (answers zero op s, shown-after zero op s j)
