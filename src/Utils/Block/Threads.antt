-- ===== src/Utils/Block/Threads.antt =====
-- Reading the transactions of a block by several threads.
use native.Mathlib.Nat.{div-add-mod, suc-mul}
use mathlib.Core.List.{append-nil}
use orbitersdk_cpp.Prelude.{
  ℕ, zero, suc, ◌+◌, ◌*◌, ◌-◌, ◌/◌, ◌%◌, ◌^◌, ◌≤◌, ◌≡◌, ◌↔◌, inl, inr, refl, ap, sym, ◌∙◌, List, [],
  ◌∷◌, ◌++◌, replicate, Result, ok, arith,
}
use orbitersdk_cpp.Prelude.Throw.{◌>>=◌, Result-cases, >>=-ok}
use orbitersdk_cpp.Utils.Block.Parse.{
  entry_size, skip_entries, read_entries, thread_starts, collect, read_parallel, read_txs,
}

ok-injective : {A : Type 0} (a b : A) → ok a ≡ ok b → a ≡ b
ok-injective a b h = ground (arith, h)

next_index :
    (index size : ℕ) → ((index + 4) % 2 ^ 64 + size) % 2 ^ 64 ≡ (index + (size + 4)) % 2 ^ 64
next_index index size = omega arith

module _ {A : Type 0} (read : List ℕ → Result A) (bytes : List ℕ) where
  -- Reading in two parts
  abbrev in_two : ℕ → ℕ → ℕ → Result (List A)
  in_two n m index = do
    xs ← read_entries read n bytes index
    next ← skip_entries n bytes index
    ys ← read_entries read m bytes next
    ok (xs ++ ys)

  read_entries-in_two :
      (k n m index : ℕ) → k ≡ n + m → read_entries read k bytes index ≡ in_two n m index
  unfolding read_entries skip_entries
  read_entries-in_two k zero m index h = ground (arith, h)
  read_entries-in_two zero (suc n) m index h = absurd (omega arith)
  read_entries-in_two (suc k) (suc n) m index h = elim (Result-cases (entry_size bytes index)) [
    | inl (e, thrown) ↦ rw thrown refl
    | inr (size, found) ↦
        rw (found, next_index index size)
          (ground (arith, read_entries-in_two k n m ((index + (size + 4)) % 2 ^ 64) (omega arith)))
  ]

  -- The threads start, and together they give these entries.
  abbrev Threaded : List ℕ → ℕ → List A → Type 0
  Threaded sizes index xs =
      (starts : List (ℕ × ℕ)) × (thread_starts read sizes bytes index ≡ ok starts)
      × (collect read starts bytes ≡ ok xs)

  total : List ℕ → ℕ
  total [] = 0
  total (n ∷ sizes) = n + total sizes

  in_two-ok :
      (n m index next : ℕ) (own others : List A)
      → read_entries read n bytes index ≡ ok own
      → skip_entries n bytes index ≡ ok next
      → read_entries read m bytes next ≡ ok others
      → in_two n m index ≡ ok (own ++ others)
  in_two-ok n m index next own others a b c = rw (a, b, c) refl

  thread_starts-cons :
      (n m index next : ℕ) (sizes : List ℕ) (starts : List (ℕ × ℕ))
      → skip_entries n bytes index ≡ ok next
      → thread_starts read (m ∷ sizes) bytes next ≡ ok starts
      → thread_starts read (n ∷ (m ∷ sizes)) bytes index ≡ ok ((index, n) ∷ starts)
  unfolding thread_starts
  thread_starts-cons n m index next sizes starts a b = rw (a, b) refl

  collect-cons :
      (n index : ℕ) (starts : List (ℕ × ℕ)) (own others : List A)
      → read_entries read n bytes index ≡ ok own
      → collect read starts bytes ≡ ok others
      → collect read ((index, n) ∷ starts) bytes ≡ ok (own ++ others)
  unfolding collect
  collect-cons n index starts own others a b = rw (a, b) refl

  threaded :
      (n : ℕ) (sizes : List ℕ) (k index : ℕ) (xs : List A)
      → k ≡ n + total sizes
      → read_entries read k bytes index ≡ ok xs
      → Threaded (n ∷ sizes) index xs
  unfolding thread_starts collect total
  threaded n [] k index xs h r =
      let same : n ≡ k = omega (arith, h) in
      let own = ap (λ i. read_entries read i bytes index) same ∙ r in
      ((index, n) ∷ [], refl, collect-cons n index [] xs [] own refl ∙ ap ok (append-nil xs))
  threaded n (m ∷ sizes) k index xs h r =
      let parts = sym (read_entries-in_two k n (total (m ∷ sizes)) index h) ∙ r in
      let (own, first, two) = >>=-ok (read_entries read n bytes index) _ xs parts in
      let (next, skipped, three) = >>=-ok (skip_entries n bytes index) _ xs two in
      let (others, second, joined) =
        >>=-ok (read_entries read (total (m ∷ sizes)) bytes next) _ xs three in
      let (starts, started, collected) =
        threaded m sizes (total (m ∷ sizes)) next others refl second in
      (
        (index, n) ∷ starts,
        thread_starts-cons n m index next sizes starts skipped started,
        collect-cons n index starts own others first collected ∙ joined,
      )

  from_threads :
      (n : ℕ) (sizes : List ℕ) (k index : ℕ) (xs : List A) (starts : List (ℕ × ℕ))
      → k ≡ n + total sizes
      → thread_starts read (n ∷ sizes) bytes index ≡ ok starts
      → collect read starts bytes ≡ ok xs
      → read_entries read k bytes index ≡ ok xs
  unfolding thread_starts collect total
  from_threads n [] k index xs starts h s c =
      let same : k ≡ n = omega (arith, h) in
      let single = ap (λ l. collect read l bytes) (ok-injective _ starts s) ∙ c in
      let (own, first, joined) = >>=-ok (read_entries read n bytes index) _ xs single in
      ap (λ i. read_entries read i bytes index) same ∙ first ∙ ap ok (sym (append-nil own)) ∙ joined
  from_threads n (m ∷ sizes) k index xs starts h s c =
      let (next, skipped, s2) = >>=-ok (skip_entries n bytes index) _ starts s in
      let (later, started, s3) = >>=-ok (thread_starts read (m ∷ sizes) bytes next) _ starts s2 in
      let all = ap (λ l. collect read l bytes) (ok-injective _ starts s3) ∙ c in
      let (own, first, c2) = >>=-ok (read_entries read n bytes index) _ xs all in
      let (others, collected, joined) = >>=-ok (collect read later bytes) _ xs c2 in
      let second =
        from_threads m sizes (total (m ∷ sizes)) next others later refl started collected in
      read_entries-in_two k n (total (m ∷ sizes)) index h
      ∙ in_two-ok n (total (m ∷ sizes)) index next own others first skipped second
      ∙ joined

  total-replicate : (j n last : ℕ) → total (replicate j n ++ (last ∷ [])) ≡ j * n + last
  unfolding total
  total-replicate zero n last = omega arith
  total-replicate (suc j) n last = omega (arith, total-replicate j n last)

  start_and_collect : List ℕ → ℕ → Result (List A)
  start_and_collect sizes index = do
    starts ← thread_starts read sizes bytes index
    collect read starts bytes

  start_and_collect-eq :
      (n : ℕ) (sizes : List ℕ) (k index : ℕ) (xs : List A)
      → k ≡ n + total sizes
      → (start_and_collect (n ∷ sizes) index ≡ ok xs) ↔ (read_entries read k bytes index ≡ ok xs)
  unfolding start_and_collect
  start_and_collect-eq n sizes k index xs h = (
    λ whole.
        let (starts, started, collected) =
          >>=-ok (thread_starts read (n ∷ sizes) bytes index) _ xs whole in
        from_threads n sizes k index xs starts h started collected,
    λ entries.
        let (starts, started, collected) = threaded n sizes k index xs h entries in
        ap (λ r. r >>= λ l. collect read l bytes) started ∙ collected,
  )

  start_and_collect-replicate :
      (j n last k index : ℕ) (xs : List A)
      → k ≡ j * n + last
      → (start_and_collect (replicate j n ++ (last ∷ [])) index ≡ ok xs)
        ↔ (read_entries read k bytes index ≡ ok xs)
  unfolding total
  start_and_collect-replicate zero n last k index xs h =
      start_and_collect-eq last [] k index xs (omega (arith, h))
  start_and_collect-replicate (suc j) n last k index xs h =
      start_and_collect-eq n (replicate j n ++ (last ∷ [])) k index xs
        (omega (arith, h, total-replicate j n last))

  -- Reading by several threads gives a list of transactions exactly where reading one after the other gives it.
  pub read_parallel-eq-read_entries :
      (thr_num count index : ℕ) (xs : List A)
      → 1 ≤ thr_num
      → (read_parallel read thr_num count bytes index ≡ ok xs)
        ↔ (read_entries read count bytes index ≡ ok xs)
  unfolding read_parallel start_and_collect
  read_parallel-eq-read_entries thr_num count index xs h =
      let n = count / thr_num in
      let one_less : thr_num ≡ suc (thr_num - 1) = omega (arith, h) in
      let product : thr_num * n ≡ (thr_num - 1) * n + n =
        ap (λ t. t * n) one_less ∙ suc-mul (thr_num - 1) n in
      start_and_collect-replicate (thr_num - 1) n (n + count % thr_num) count index xs
        (omega (arith, div-add-mod count thr_num, product))

  -- So does the constructor's choice between the two.
  pub read_txs-eq-read_entries :
      (thr_num count index : ℕ) (xs : List A)
      → (read_txs read thr_num count bytes index ≡ ok xs)
        ↔ (read_entries read count bytes index ≡ ok xs)
  unfolding read_txs
  read_txs-eq-read_entries thr_num count index xs =
      ground (arith, read_parallel-eq-read_entries thr_num count index xs)
