-- ===== src/Contract/SafeUnorderedMap.antt =====
-- `SafeUnorderedMap` of contract/variables/safeunorderedmap.h, for any type of values. `none` in place
-- of a pointer is `nullptr`. A reference or an iterator that an operation returns is the value
-- that it leads to, and a write through it is `write`.
pub mod Laws
pub mod Ends
use orbitersdk_cpp.Prelude.{
  ℕ, not, Bool, true, false, Option, none, some, List, [], ◌∷◌, Result, ok, err, runtime_error,
  Assoc, lookup, insert, erase, contains, ◌==◌, if◌then◌else◌,
}
use orbitersdk_cpp.Contract.SafeBase.{SafeBase, Scope, mark_as_used}

pub record SafeUnorderedMap (T : Type 0) : Type 0 where
  pub base : SafeBase
  pub map : Assoc T
  pub map_ptr : Option (Assoc T)
  pub erased_keys : Option (List ℕ)

abbrev pub pointed : {A : Type 0} → Option (List A) → List A
pointed none = []
pointed (some xs) = xs

unfoldable pub member : ℕ → List ℕ → Bool
member k [] = false
member k (j ∷ js) = let rest = member k js in if j == k then true else rest

module _ {T : Type 0} where
  -- `(*mapPtr)[key] = value`, with `mapPtr` set
  unfoldable pub put : ℕ → T → SafeUnorderedMap T → SafeUnorderedMap T
  put k v m = record m { map_ptr = some (insert k v (pointed m.map_ptr)) }

  unfoldable pub check : SafeUnorderedMap T → SafeUnorderedMap T
  check m = record m {
    map_ptr = some (pointed m.map_ptr);
    erased_keys = some (pointed m.erased_keys);
  }

  unfoldable pub check_key_and_copy : ℕ → SafeUnorderedMap T → SafeUnorderedMap T
  unfolding check put
  check_key_and_copy key m =
      let c = check m in
      elim (lookup key (pointed c.map_ptr)) [
        | some _ ↦ c
        | none ↦ elim (lookup key c.map) [
          | none ↦ c
          | some v ↦ if member key (pointed c.erased_keys) then c else put key v c
        ]
      ]

  -- `zero` is `T()`.
  unfoldable pub check_key_and_create : T → ℕ → SafeUnorderedMap T → SafeUnorderedMap T
  unfolding check put
  check_key_and_create zero key m =
      let c = check m in
      elim (lookup key (pointed c.map_ptr)) [
        | some _ ↦ c
        | none ↦ elim (lookup key c.map) [
          | none ↦ put key zero c
          | some v ↦ if member key (pointed c.erased_keys) then put key zero c else put key v c
        ]
      ]

  unfoldable pub check_key_and_throw :
      ℕ → SafeUnorderedMap T → Result (Unit {0}) × SafeUnorderedMap T
  unfolding check put
  check_key_and_throw key m =
      let c = check m in
      elim (lookup key (pointed c.map_ptr)) [
        | some _ ↦ (ok tt, c)
        | none ↦ elim (lookup key c.map) [
          | none ↦ (err runtime_error, c)
          | some v ↦
              if member key (pointed c.erased_keys)
              then (err runtime_error, c)
              else (ok tt, put key v c)
        ]
      ]

  -- `markAsUsed()`, on the object and the owner's list
  abbrev pub mark_used : Scope (SafeUnorderedMap T) → Scope (SafeUnorderedMap T)
  mark_used s =
      let (b, used) = mark_as_used s.self.base s.used_variables in
      record { self = record (s.self) { base = b }; used_variables = used }

  abbrev pub on_self :
      (SafeUnorderedMap T → SafeUnorderedMap T)
      → Scope (SafeUnorderedMap T)
      → Scope (SafeUnorderedMap T)
  on_self f s = record s { self = f s.self }

  -- `find(key)`; `none` is `end()`
  unfoldable pub find : ℕ → Scope (SafeUnorderedMap T) → Option T × Scope (SafeUnorderedMap T)
  find key s =
      let s' = mark_used (on_self (check_key_and_copy key) s) in
      (lookup key (pointed s'.self.map_ptr), s')

  -- `find(key) const`
  unfoldable pub find_const : ℕ → Scope (SafeUnorderedMap T) → Option T × Scope (SafeUnorderedMap T)
  find_const key s =
      let s' = on_self (check_key_and_copy key) s in (lookup key (pointed s'.self.map_ptr), s')

  -- `contains(key)`
  unfoldable pub has : ℕ → Scope (SafeUnorderedMap T) → Bool × Scope (SafeUnorderedMap T)
  has key s =
      let s' = on_self (check_key_and_copy key) s in (contains key (pointed s'.self.map_ptr), s')

  -- `operator[](key)`, and the value that its reference leads to
  unfoldable pub index : T → ℕ → Scope (SafeUnorderedMap T) → Option T × Scope (SafeUnorderedMap T)
  index zero key s =
      let s' = mark_used (on_self (check_key_and_create zero key) s) in
      (lookup key (pointed s'.self.map_ptr), s')

  -- `at(key)`
  unfoldable pub at :
      ℕ → Scope (SafeUnorderedMap T) → Result (Option T) × Scope (SafeUnorderedMap T)
  at key s =
      let (r, m) = check_key_and_throw key s.self in
      let s' = record s { self = m } in
      elim r [ ok _ ↦ (ok (lookup key (pointed m.map_ptr)), mark_used s') | err e ↦ (err e, s') ]

  -- A write through the reference that `operator[]`, `at` or `find` gave.
  unfoldable pub write : ℕ → T → Scope (SafeUnorderedMap T) → Scope (SafeUnorderedMap T)
  write key v = on_self (put key v)

  -- `insert_or_assign(k, obj)`, with whether it inserted
  unfoldable pub insert_or_assign :
      ℕ → T → Scope (SafeUnorderedMap T) → Bool × Scope (SafeUnorderedMap T)
  insert_or_assign k obj s =
      let s' = mark_used (on_self check s) in
      (not (contains k (pointed s'.self.map_ptr)), on_self (put k obj) s')

  -- `insert(value)`: `mapPtr->insert`, which keeps the entry that is there.
  unfoldable pub insert_value :
      ℕ → T → Scope (SafeUnorderedMap T) → Bool × Scope (SafeUnorderedMap T)
  insert_value k v s =
      let s' = mark_used (on_self check s) in
      elim (lookup k (pointed s'.self.map_ptr)) [
        | none ↦ (true, on_self (put k v) s')
        | some _ ↦ (false, s')
      ]

  -- `erase(key)`, with the number of entries erased from `*mapPtr`
  unfoldable pub erase_key : ℕ → Scope (SafeUnorderedMap T) → ℕ × Scope (SafeUnorderedMap T)
  erase_key key s =
      let s' = mark_used (on_self check s) in
      (
        if contains key (pointed s'.self.map_ptr) then 1 else 0,
        on_self
            (λ m. record m {
              erased_keys = some (key ∷ pointed m.erased_keys);
              map_ptr = some (erase key (pointed m.map_ptr));
            })
            s',
      )

  -- `map.merge(*mapPtr)` moves the entries with new keys and the loop assigns the others: together every
  -- entry of `*mapPtr` is in `map`.
  unfoldable pub merge : Assoc T → Assoc T → Assoc T
  merge [] m = m
  merge ((k, v) ∷ p) m = let rest = merge p m in insert k v rest

  unfoldable pub erase_all : List ℕ → Assoc T → Assoc T
  erase_all [] m = m
  erase_all (k ∷ ks) m = erase_all ks (erase k m)

  unfoldable pub commit : SafeUnorderedMap T → SafeUnorderedMap T
  unfolding check merge erase_all
  commit m =
      let c = check m in
      record c {
        map = erase_all (pointed c.erased_keys) (merge (pointed c.map_ptr) c.map);
        map_ptr = none;
        base = record (c.base) { registered = false };
      }

  unfoldable pub revert : SafeUnorderedMap T → SafeUnorderedMap T
  revert m = record m {
    map_ptr = none;
    erased_keys = none;
    base = record (m.base) { registered = false };
  }
