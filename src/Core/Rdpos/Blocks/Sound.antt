-- ===== src/Core/Rdpos/Blocks/Sound.antt =====
-- A block that `validateBlock` accepts is by the chosen creator and has, for each of the four chosen
-- validators, a commitment and the seed that opens it.
use orbitersdk_cpp.Prelude.{
  ℕ, ◌+◌, ◌<◌, ◌≡◌, refl, Bool, true, Option, none, some, List, [], ◌∷◌, Result, ok, err, lookup,
  length, get_elem?, drop, all, All, ◌==◌, arith, inl, inr, Option-cases,
}
use orbitersdk_cpp.Prelude.Throw.{◌>>=◌}
use orbitersdk_cpp.Core.Chain.{TxValidator, Block}
use orbitersdk_cpp.Core.Rdpos.{
  Rdpos, min_validators, randomhash, randomseed, bytes_eq, get_tx_validator_function,
}
use orbitersdk_cpp.Core.Rdpos.Blocks.Rounds.{Round, pair_loop_rounds}
use orbitersdk_cpp.Core.Rdpos.Blocks.{
  Pairs, pair_loop, is_randomhash, is_randomseed, is_invalid_function, check_pair, check_pairs,
  validate_block,
}

bytes_eq-eq : (xs ys : List ℕ) → bytes_eq xs ys ≡ true → xs ≡ ys
unfolding bytes_eq
bytes_eq-eq [] [] h = refl
bytes_eq-eq [] (y ∷ ys) h = cc
bytes_eq-eq (x ∷ xs) [] h = cc
bytes_eq-eq (x ∷ xs) (y ∷ ys) h = ground (arith, bytes_eq-eq xs ys)

-- The validator at `i + 1` of the random list has a commitment and a seed in the block.
pub record HasPair (sha3 : List ℕ → List ℕ) (random_list : List ℕ) (txs : List TxValidator) (i : ℕ)
    : Type 0 where
  pub validator : ℕ
  pub hash_tx : TxValidator
  pub seed_tx : TxValidator
  pub chosen : get_elem? random_list (i + 1) ≡ some validator
  pub hash_at : get_elem? txs i ≡ some hash_tx
  pub seed_at : get_elem? txs (i + min_validators) ≡ some seed_tx
  pub hash_from : hash_tx.from ≡ validator
  pub seed_from : seed_tx.from ≡ validator
  pub commits : get_tx_validator_function hash_tx ≡ randomhash
  pub reveals : get_tx_validator_function seed_tx ≡ randomseed
  pub opens : sha3 (drop 4 seed_tx.bytes) ≡ drop 4 hash_tx.bytes

check_pair_lem :
    (sha3 : List ℕ → List ℕ) (h s : TxValidator)
    → check_pair sha3 (h, s) ≡ true
    → (get_tx_validator_function h ≡ randomhash)
      × (get_tx_validator_function s ≡ randomseed)
      × (sha3 (drop 4 s.bytes) ≡ drop 4 h.bytes)
unfolding check_pair is_randomhash is_randomseed is_invalid_function
check_pair_lem sha3 h s p = ground (arith, bytes_eq-eq (sha3 (drop 4 s.bytes)) (drop 4 h.bytes))

all-lookup :
    (p : TxValidator × TxValidator → Bool) (k : ℕ) (v : TxValidator × TxValidator) (m : Pairs)
    → all (λ (entry : ℕ × (TxValidator × TxValidator)). p entry.1) m ≡ true
    → lookup k m ≡ some v
    → p v ≡ true
unfolding lookup
all-lookup p k v [] h e = cc
all-lookup p k v ((j, w) ∷ m) h e = ground (arith, all-lookup p k v m)

-- What an accepted block has shown.
pub record IsSound (sha3 : List ℕ → List ℕ) (r : Rdpos) (block : Block) : Type 0 where
  pub finalized : block.finalized ≡ true
  pub creator : get_elem? r.random_list 0 ≡ some block.signer
  pub eight : length block.tx_validators ≡ 8
  pub heights : All (λ tx. tx.n_height ≡ block.n_height) block.tx_validators
  pub pairs :
      HasPair sha3 r.random_list block.tx_validators 0
      × HasPair sha3 r.random_list block.tx_validators 1
      × HasPair sha3 r.random_list block.tx_validators 2
      × HasPair sha3 r.random_list block.tx_validators 3

all-heights :
    (n : ℕ) (txs : List TxValidator)
    → all (λ (tx : TxValidator). tx.n_height == n) txs ≡ true
    → All (λ tx. tx.n_height ≡ n) txs
all-heights n [] h = tt
all-heights n (t ∷ txs) h = ground (arith, all-heights n txs)

module _ (sha3 : List ℕ → List ℕ) where
  paired :
      (random_list : List ℕ) (txs : List TxValidator) (m : Pairs) (i : ℕ)
      → check_pairs sha3 (some m) ≡ true
      → Round random_list txs m i
      → HasPair sha3 random_list txs i
  unfolding check_pairs
  paired random_list txs m i checked round =
      let all_checked =
        all-lookup (check_pair sha3) round.hash_tx.hash (round.hash_tx, round.seed_tx) m
          (ground arith) round.filed in
      let pair = check_pair_lem sha3 round.hash_tx round.seed_tx all_checked in
      record {
        validator = round.validator;
        hash_tx = round.hash_tx;
        seed_tx = round.seed_tx;
        chosen = round.chosen;
        hash_at = round.hash_at;
        seed_at = round.seed_at;
        hash_from = round.hash_from;
        seed_from = round.seed_from;
        commits = pair.0;
        reveals = pair.1;
        opens = pair.2;
      }

  checked_size : (m : Pairs) → check_pairs sha3 (some m) ≡ true → length m ≡ min_validators
  unfolding check_pairs
  checked_size m h = ground arith

  no_pairs : ok (check_pairs sha3 none) ≡ ok true → ⊥
  unfolding check_pairs
  no_pairs h = cc

  checked_pairs :
      (random_list : List ℕ) (txs : List TxValidator) (found : Result (Option Pairs)) (i : ℕ)
      → pair_loop min_validators 0 random_list txs [] ≡ found
      → (found >>= λ pairs. ok (check_pairs sha3 pairs)) ≡ ok true
      → i < min_validators
      → HasPair sha3 random_list txs i
  checked_pairs random_list txs (err e) i loop h lt = cc
  checked_pairs random_list txs (ok none) i loop h lt = absurd (no_pairs h)
  checked_pairs random_list txs (ok (some m)) i loop h lt =
      let checked : check_pairs sha3 (some m) ≡ true = cc in
      paired random_list txs m i checked (
        pair_loop_rounds random_list txs min_validators 0 i [] m (omega arith) lt loop
          (checked_size m checked))

  -- A block that `validateBlock` accepts is finalized and signed by the first validator of the random
  -- list, and holds 8 transactions of validators, all of its own height; for each of the next four
  -- validators of the list it holds a commitment and, four places on, a seed, both sent by
  -- that validator, and the hash of the seed is what was committed to.
  pub validate_block-IsSound :
      (r : Rdpos) (block : Block) → validate_block sha3 r block ≡ ok true → IsSound sha3 r block
  unfolding validate_block
  validate_block-IsSound r block h = elim (Option-cases (get_elem? r.random_list 0)) [
    | inl e ↦ absurd (ground arith)
    | inr (creator, e) ↦ record {
      finalized = ground arith;
      creator = ground arith;
      eight = ground arith;
      heights = all-heights block.n_height block.tx_validators (ground arith);
      pairs =
          (pair 0 (omega arith), pair 1 (omega arith), pair 2 (omega arith), pair 3 (omega arith));
    }
  ]
    where
      pair : (i : ℕ) → i < min_validators → HasPair sha3 r.random_list block.tx_validators i
      pair i lt =
          checked_pairs r.random_list block.tx_validators
            (pair_loop min_validators 0 r.random_list block.tx_validators []) i refl (ground arith)
            lt
