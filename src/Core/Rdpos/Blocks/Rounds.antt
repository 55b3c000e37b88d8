-- ===== src/Core/Rdpos/Blocks/Rounds.antt =====
-- The loop of `validateBlock` over the chosen validators: what each of its rounds has read, compared
-- and filed in the map of pairs.
use orbitersdk_cpp.Prelude.{
  ℕ, zero, suc, ◌+◌, ◌≤◌, ◌<◌, ◌≡◌, false, Option, some, List, [], ◌∷◌, Result, ok, lookup, insert,
  contains, lookup-insert, length, get_elem?, ◌==◌, ==_iff, if◌then◌else◌, arith, inl, inr,
  Bool-cases, Option-cases,
}
use orbitersdk_cpp.Core.Chain.{TxValidator}
use orbitersdk_cpp.Core.Rdpos.{min_validators}
use orbitersdk_cpp.Core.Rdpos.Blocks.{Pairs, emplace, pair_loop}

length-insert :
    (k : ℕ) (v : TxValidator × TxValidator) (m : Pairs)
    → contains k m ≡ false
    → length (insert k v m) ≡ length m + 1
unfolding insert contains lookup
length-insert k v [] new = omega arith
length-insert k v ((j, w) ∷ m) new = ground (arith, length-insert k v m)

length-emplace :
    (h s : TxValidator) (m : Pairs)
    → length (emplace h s m) ≡ (if contains h.hash m then length m else length m + 1)
unfolding emplace
length-emplace h s m = ground (arith, length-insert h.hash (h, s) m)

-- What one round of the loop has checked.
pub record Round (random_list : List ℕ) (txs : List TxValidator) (m' : Pairs) (i : ℕ) : Type 0 where
  pub validator : ℕ
  pub hash_tx : TxValidator
  pub seed_tx : TxValidator
  pub chosen : get_elem? random_list (i + 1) ≡ some validator
  pub hash_at : get_elem? txs i ≡ some hash_tx
  pub seed_at : get_elem? txs (i + min_validators) ≡ some seed_tx
  pub hash_from : hash_tx.from ≡ validator
  pub seed_from : seed_tx.from ≡ validator
  pub filed : lookup hash_tx.hash m' ≡ some (hash_tx, seed_tx)

module _ (random_list : List ℕ) (txs : List TxValidator) where
  -- What a round that goes on has read and compared.
  record Step (left i : ℕ) (m : Pairs) (r : Result (Option Pairs)) : Type 0 where
    validator : ℕ
    hash_tx : TxValidator
    seed_tx : TxValidator
    chosen : get_elem? random_list (i + 1) ≡ some validator
    hash_at : get_elem? txs i ≡ some hash_tx
    seed_at : get_elem? txs (i + min_validators) ≡ some seed_tx
    hash_from : hash_tx.from ≡ validator
    seed_from : seed_tx.from ≡ validator
    rest : pair_loop left (i + 1) random_list txs (emplace hash_tx seed_tx m) ≡ r

  pair_loop-Step :
      (left i : ℕ) (m m' : Pairs)
      → pair_loop (suc left) i random_list txs m ≡ ok (some m')
      → Step left i m (ok (some m'))
  unfolding pair_loop
  pair_loop-Step left i m m' h = elim (Option-cases (get_elem? txs i)) [
    | inl e ↦ absurd (ground arith)
    | inr (hash_tx, eh) ↦ elim (Option-cases (get_elem? random_list (i + 1))) [
      | inl e ↦ absurd (ground arith)
      | inr (validator, ev) ↦ elim (Option-cases (get_elem? txs (i + min_validators))) [
        | inl e ↦ absurd (ground arith)
        | inr (seed_tx, es) ↦ record {
          validator = validator;
          hash_tx = hash_tx;
          seed_tx = seed_tx;
          chosen = ev;
          hash_at = eh;
          seed_at = es;
          hash_from = ground arith;
          seed_from = ground arith;
          rest = ground arith;
        }
      ]
    ]
  ]

  lookup-emplace :
      (k : ℕ) (v : TxValidator × TxValidator) (h s : TxValidator) (m : Pairs)
      → lookup k m ≡ some v
      → lookup k (emplace h s m) ≡ some v
  unfolding emplace contains
  lookup-emplace k v h s m e = ground (arith, lookup-insert h.hash k (h, s) m)

  pair_loop_keeps :
      (left i k : ℕ) (v : TxValidator × TxValidator) (m m' : Pairs)
      → lookup k m ≡ some v
      → pair_loop left i random_list txs m ≡ ok (some m')
      → lookup k m' ≡ some v
  pair_loop_keeps zero i k v m m' e h = unfold pair_loop in ground arith
  pair_loop_keeps (suc left) i k v m m' e h =
      let st = pair_loop-Step left i m m' h in
      pair_loop_keeps left (i + 1) k v (emplace st.hash_tx st.seed_tx m) m'
        (lookup-emplace k v st.hash_tx st.seed_tx m e) st.rest

  pair_loop-length :
      (left i : ℕ) (m m' : Pairs)
      → pair_loop left i random_list txs m ≡ ok (some m')
      → length m' ≤ length m + left
  pair_loop-length zero i m m' h = unfold pair_loop in ground arith
  pair_loop-length (suc left) i m m' h =
      let st = pair_loop-Step left i m m' h in
      ground (
        arith,
        pair_loop-length left (i + 1) (emplace st.hash_tx st.seed_tx m) m' st.rest,
        length-emplace st.hash_tx st.seed_tx m,
      )

  emplace_filed :
      (h s : TxValidator) (m : Pairs)
      → contains h.hash m ≡ false
      → lookup h.hash (emplace h s m) ≡ some (h, s)
  unfolding emplace
  emplace_filed h s m new = ground (arith, lookup-insert h.hash h.hash (h, s) m)

  -- If the map has grown by every round, then every round has filed its pair.
  pub pair_loop_rounds :
      (left i j : ℕ) (m m' : Pairs)
      → i ≤ j
      → j < i + left
      → pair_loop left i random_list txs m ≡ ok (some m')
      → length m' ≡ length m + left
      → Round random_list txs m' j
  pair_loop_rounds zero i j m m' p q h full = absurd (omega arith)
  pair_loop_rounds (suc left) i j m m' p q h full =
      let st = pair_loop-Step left i m m' h in
      let m1 : Pairs = emplace st.hash_tx st.seed_tx m in
      let fits : length m' ≤ length m1 + left = pair_loop-length left (i + 1) m1 m' st.rest in
      let new : contains st.hash_tx.hash m ≡ false =
        ground (arith, fits, length-emplace st.hash_tx st.seed_tx m) in
      elim (Bool-cases (j == i)) [
        | inl here ↦ rw ((==_iff j i).0 here) (record {
          validator = st.validator;
          hash_tx = st.hash_tx;
          seed_tx = st.seed_tx;
          chosen = st.chosen;
          hash_at = st.hash_at;
          seed_at = st.seed_at;
          hash_from = st.hash_from;
          seed_from = st.seed_from;
          filed =
              pair_loop_keeps left (i + 1) st.hash_tx.hash (st.hash_tx, st.seed_tx) m1 m'
                (emplace_filed st.hash_tx st.seed_tx m new) st.rest;
        })
        | inr later ↦
            pair_loop_rounds left (i + 1) j m1 m' (ground arith) (omega arith) st.rest
              (ground (arith, new, length-emplace st.hash_tx st.seed_tx m))
      ]
