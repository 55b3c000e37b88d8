-- ===== src/Contract/SafeUnorderedMap/Ends.antt =====
-- What `commit` and `revert` make of a SafeUnorderedMap.
use orbitersdk_cpp.Prelude.{
  ℕ, ◌≡◌, refl, ◌∙◌, true, none, some, List, [], ◌∷◌, Assoc, lookup, erase, lookup-insert,
  lookup-erase, if◌then◌else◌, arith,
}
use orbitersdk_cpp.Contract.SafeBase.{Scope}
use orbitersdk_cpp.Contract.SafeUnorderedMap.{
  SafeUnorderedMap, pointed, member, index, write, erase_key, put, check, merge, erase_all, commit,
  revert, check_key_and_create,
}
use orbitersdk_cpp.Contract.SafeUnorderedMap.Laws.{shown, erased, assigned, run, run-shown}

module _ {T : Type 0} where
  merge-lookup :
      (k : ℕ) (p m : Assoc T)
      → lookup k (merge p m) ≡ elim (lookup k p) [ some v ↦ some v | none ↦ lookup k m ]
  unfolding merge lookup
  merge-lookup k [] m = refl
  merge-lookup k ((j, v) ∷ p) m =
      ground (arith, lookup-insert j k v (merge p m), merge-lookup k p m)

  erase_all-lookup :
      (k : ℕ) (ks : List ℕ) (m : Assoc T)
      → lookup k (erase_all ks m) ≡ (if member k ks then none else lookup k m)
  unfolding erase_all member
  erase_all-lookup k [] m = refl
  erase_all-lookup k (j ∷ ks) m =
      ground (arith, erase_all-lookup k ks (erase j m), lookup-erase j k m)

  -- `commit` makes the map shown its map, but without every key in `erasedKeys`, also one that was
  -- written after it was erased; those keys stay there. `revert` shows the
  -- committed map.
  pub commit-revert :
      (m : SafeUnorderedMap T) (k : ℕ)
      → let gone = member k (pointed m.erased_keys) in
        (lookup k ((commit m).map) ≡ (if gone then none else shown m k))
        × (shown (commit m) k ≡ (if gone then none else shown m k))
        × (member k (pointed ((commit m).erased_keys)) ≡ gone)
        × (shown (revert m) k ≡ lookup k m.map)
  unfolding commit revert shown check lookup member
  commit-revert m k =
      let merged = merge (pointed m.map_ptr) m.map in
      let removed = erase_all-lookup k (pointed m.erased_keys) merged in
      let found = merge-lookup k (pointed m.map_ptr) m.map in
      (ground (arith, removed, found), ground (arith, removed, found), refl, refl)

  erased_stays :
      (zero v : T) (k : ℕ) (s : Scope (SafeUnorderedMap T))
      → let m = (write k v ((index zero k ((erase_key k s).1)).1)).self in
        member k (pointed m.erased_keys) ≡ true
  unfolding write index erase_key put check check_key_and_create member
  erased_stays zero v k s = ground arith

  -- An entry that a call erases and then writes is shown until the end of the call, and `commit`
  -- loses it.
  erase_key-write-commit :
      (zero v : T) (k : ℕ) (s : Scope (SafeUnorderedMap T))
      → let m = (run zero (assigned k v) ((run zero (erased k) s).1)).1.self in
        (shown m k ≡ some v) × (lookup k ((commit m).map) ≡ none)
  erase_key-write-commit zero v k s =
      let s' = (run zero (erased k) s).1 in
      let m = (run zero (assigned k v) s').1.self in
      (
        (run-shown zero (assigned k v) s' k).1 ∙ ground arith,
        (commit-revert m k).0 ∙ rw (erased_stays zero v k s) refl,
      )
