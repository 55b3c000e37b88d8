-- ===== src/Utils/Merkle/Proofs.antt =====
-- `getProof` and `verify`.
use native.Mathlib.Nat.{pow-zero, pow-suc}
use orbitersdk_cpp.Prelude.{
  ℕ, zero, suc, ◌*◌, ◌/◌, ◌^◌, ◌≤◌, ◌<◌, ◌≡◌, refl, sym, ◌∙◌, inl, inr, true, Bool-cases, Option,
  none, some, List, [], ◌∷◌, map, Result, ok, err, length, get_elem?, get_elem?-lt, ltb, arith,
}
use orbitersdk_cpp.Utils.Merkle.{
  get_root, parent, new_layer, layers_from, tree, computed_hash, verify, sibling_index,
  push_sibling, proof_from, get_proof,
}
use orbitersdk_cpp.Utils.Merkle.Layers.{
  length-map, same_bytes_refl, length-new_layer, new_layer-siblings, back-layers_from,
}

push_sibling-ok :
    (sibling : Option (List ℕ)) (rest : Result (List (List ℕ))) (proof : List (List ℕ))
    → push_sibling sibling rest ≡ ok proof
    → (hash : List ℕ) × (others : List (List ℕ)) × (sibling ≡ some hash)
      × (rest ≡ ok others)
      × (proof ≡ hash ∷ others)
unfolding push_sibling
push_sibling-ok none rest proof h = absurd (ground (arith, h))
push_sibling-ok (some hash) (err e) proof h = absurd (ground (arith, h))
push_sibling-ok (some hash) (ok others) proof h = (hash, others, refl, refl, ground (arith, h))

get_elem?-map :
    (f : List ℕ → List ℕ) (xs : List (List ℕ)) (i : ℕ) (x : List ℕ)
    → get_elem? xs i ≡ some x
    → get_elem? (map f xs) i ≡ some (f x)
get_elem?-map f [] i x h = absurd (ground (arith, h))
get_elem?-map f (y ∷ xs) zero x h = ground (arith, h)
get_elem?-map f (y ∷ xs) (suc i) x h = get_elem?-map f xs i x h

get_elem?-some :
    {A : Type 0} (xs : List A) (i : ℕ) (x : A) → get_elem? xs i ≡ some x → i < length xs
get_elem?-some [] i x h = absurd (ground (arith, h))
get_elem?-some (y ∷ xs) zero x h = omega arith
get_elem?-some (y ∷ xs) (suc i) x h = omega (arith, get_elem?-some xs i x h)

pow_pos : (k : ℕ) → 0 < 2 ^ k
pow_pos zero = omega arith
pow_pos (suc k) = omega (arith, pow-suc 2 k, pow_pos k)

module _ (sha3 : List ℕ → List ℕ) where
  get_root-layers_from :
      (f : ℕ) (first layer : List (List ℕ))
      → get_root (first ∷ layers_from sha3 f layer) ≡ get_root (layers_from sha3 f layer)
  unfolding get_root
  get_root-layers_from f first layer = rw (get_root, back-layers_from sha3 f first layer) refl

  get_root_single :
      (layer : List (List ℕ)) (pos : ℕ) (hash : List ℕ)
      → length layer ≤ 1
      → get_elem? layer pos ≡ some hash
      → get_root (layer ∷ []) ≡ hash
  unfolding get_root
  get_root_single [] pos hash h k = absurd (ground (arith, k))
  get_root_single (a ∷ []) zero hash h k = ground (arith, k)
  get_root_single (a ∷ []) (suc pos) hash h k = absurd (ground (arith, k))
  get_root_single (a ∷ (b ∷ layer)) pos hash h k = absurd (omega arith)

  computed_hash-proof_from :
      (f : ℕ) (layer : List (List ℕ)) (pos : ℕ) (hash : List ℕ) (proof : List (List ℕ))
      → length layer ≤ suc f
      → get_elem? layer pos ≡ some hash
      → proof_from (layers_from sha3 f layer) pos ≡ ok proof
      → computed_hash sha3 hash proof ≡ get_root (layers_from sha3 f layer)
  unfolding layers_from proof_from computed_hash
  computed_hash-proof_from zero layer pos hash proof h k p =
      let single : length layer ≡ 1 = omega (arith, get_elem?-some layer pos hash k) in
      let empty : proof ≡ [] = ground (arith, single, p) in
      rw empty (sym (get_root_single layer pos hash h k))
  computed_hash-proof_from (suc f) layer pos hash proof h k p =
      elim (Bool-cases (ltb 1 (length layer))) [
        | inl e ↦
            let next = layers_from sha3 f (new_layer sha3 layer) in
            let pushed : push_sibling (get_elem? layer (sibling_index pos))
                  (proof_from next (sibling_index pos / 2))
                ≡ ok proof =
              ground (arith, e, p) in
            let (sibling, others, found, rest, split) = push_sibling-ok _ _ proof pushed in
            rw (e, split, get_root-layers_from f layer (new_layer sha3 layer))
              (computed_hash-proof_from f (new_layer sha3 layer) (sibling_index pos / 2)
                (parent sha3 hash sibling) others (rw (length-new_layer sha3 layer) (ground arith))
                (new_layer-siblings sha3 layer pos hash sibling k found) rest)
        | inr e ↦
            let single : length layer ≡ 1 = ground (arith, e, get_elem?-some layer pos hash k) in
            let empty : proof ≡ [] = ground (arith, single, p) in
            rw (e, empty) (sym (get_root_single layer pos hash (omega arith) k))
      ]

  -- For 2 ^ k nodes no sibling is missing.
  proof_from_power :
      (k f : ℕ) (layer : List (List ℕ)) (pos : ℕ)
      → length layer ≤ suc f
      → length layer ≡ 2 ^ k
      → pos < length layer
      → (proof : List (List ℕ)) × (proof_from (layers_from sha3 f layer) pos ≡ ok proof)
        × (length proof ≡ k)
  unfolding layers_from proof_from push_sibling
  proof_from_power zero zero layer pos h n p = ([], ground (arith, n, pow-zero 2), refl)
  proof_from_power zero (suc f) layer pos h n p = ([], ground (arith, n, pow-zero 2), refl)
  proof_from_power (suc k) zero layer pos h n p =
      absurd (omega (arith, n, h, pow-suc 2 k, pow_pos k))
  proof_from_power (suc k) (suc f) layer pos h n p =
      let twice : length layer ≡ 2 * 2 ^ k = omega (arith, n, pow-suc 2 k) in
      let several : ltb 1 (length layer) ≡ true = ground (arith, twice, pow_pos k) in
      let half : length (new_layer sha3 layer) ≡ 2 ^ k =
        omega (arith, twice, length-new_layer sha3 layer) in
      let (sibling, found) = get_elem?-lt layer (sibling_index pos) (ground (arith, twice, p)) in
      let (proof, rest, size) =
        proof_from_power k f (new_layer sha3 layer) (sibling_index pos / 2)
          (omega (arith, half, twice, h, pow_pos k)) half (ground (arith, twice, half, p)) in
      (sibling ∷ proof, ground (arith, several, found, rest), omega (arith, size))

  get_proof_lem :
      (f : ℕ) (layer : List (List ℕ)) (i : ℕ)
      → i < length layer
      → get_proof (layers_from sha3 f layer) i ≡ proof_from (layers_from sha3 f layer) i
  unfolding get_proof layers_from
  get_proof_lem zero layer i h = ground (arith, h)
  get_proof_lem (suc f) layer i h = ground (arith, h)

  -- A proof that `getProof` gives for a leaf of the tree leads `verify` from that leaf to the root.
  pub verify-get_proof :
      (leaves : List (List ℕ)) (i : ℕ) (leaf : List ℕ) (proof : List (List ℕ))
      → get_elem? leaves i ≡ some leaf
      → get_proof (tree sha3 leaves) i ≡ ok proof
      → verify sha3 proof (sha3 leaf) (get_root (tree sha3 leaves)) ≡ true
  unfolding tree verify
  verify-get_proof leaves i leaf proof h p =
      let hashes = map sha3 leaves in
      let size = length-map sha3 leaves in
      let found = get_elem?-map sha3 leaves i leaf h in
      let bound : i < length hashes = get_elem?-some hashes i (sha3 leaf) found in
      let reached =
        computed_hash-proof_from (length leaves) hashes i (sha3 leaf) proof (omega (arith, size))
          found (sym (get_proof_lem (length leaves) hashes i bound) ∙ p) in
      rw reached (same_bytes_refl (get_root (layers_from sha3 (length leaves) hashes)))

  -- For 2 ^ k leaves `getProof` gives a proof of k hashes for each of them, and `verify` accepts it.
  pub get_proof-power :
      (k : ℕ) (leaves : List (List ℕ)) (i : ℕ) (leaf : List ℕ)
      → length leaves ≡ 2 ^ k
      → get_elem? leaves i ≡ some leaf
      → (proof : List (List ℕ)) × (get_proof (tree sha3 leaves) i ≡ ok proof)
        × (length proof ≡ k)
        × (verify sha3 proof (sha3 leaf) (get_root (tree sha3 leaves)) ≡ true)
  unfolding tree
  get_proof-power k leaves i leaf n h =
      let hashes = map sha3 leaves in
      let size = length-map sha3 leaves in
      let bound : i < length hashes = omega (arith, size, get_elem?-some leaves i leaf h) in
      let (proof, found, count) =
        proof_from_power k (length leaves) hashes i (omega (arith, size)) (size ∙ n) bound in
      let given = get_proof_lem (length leaves) hashes i bound ∙ found in
      (proof, given, count, verify-get_proof leaves i leaf proof h given)
