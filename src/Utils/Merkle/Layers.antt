-- ===== src/Utils/Merkle/Layers.antt =====
-- The layers that the constructor of a Merkle tree makes.
use orbitersdk_cpp.Prelude.{
  ℕ, zero, suc, ◌+◌, ◌/◌, ◌≤◌, ◌≡◌, refl, ap, inl, inr, true, false, Bool-cases, some, List, [],
  ◌∷◌, map, length, get_elem?, ltb, arith,
}
use orbitersdk_cpp.Utils.Merkle.{
  less, min_bytes, max_bytes, same_bytes, back, parent, new_layer, layers_from, tree, sibling_index,
}

pub length-map : (f : List ℕ → List ℕ) (xs : List (List ℕ)) → length (map f xs) ≡ length xs
length-map f [] = refl
length-map f (x ∷ xs) = ap suc (length-map f xs)

-- Of two byte strings at most one is less; neither is only if they are the same.
less_asymmetric : (a b : List ℕ) → less a b ≡ true → less b a ≡ false
unfolding less
less_asymmetric [] [] h = ground (arith, h)
less_asymmetric [] (y ∷ b) h = refl
less_asymmetric (x ∷ a) [] h = ground (arith, h)
less_asymmetric (x ∷ a) (y ∷ b) h = ground (arith, less_asymmetric a b)

less_total : (a b : List ℕ) → less a b ≡ false → less b a ≡ false → a ≡ b
unfolding less
less_total [] [] h k = refl
less_total [] (y ∷ b) h k = ground (arith, h)
less_total (x ∷ a) [] h k = ground (arith, k)
less_total (x ∷ a) (y ∷ b) h k = ground (arith, less_total a b)

-- The hash of two siblings does not depend on their order.
pub parent_comm : (sha3 : List ℕ → List ℕ) (a b : List ℕ) → parent sha3 a b ≡ parent sha3 b a
unfolding parent min_bytes max_bytes
parent_comm sha3 a b = ground (arith, less_asymmetric a b, less_asymmetric b a, less_total a b)

pub same_bytes_refl : (a : List ℕ) → same_bytes a a ≡ true
unfolding same_bytes
same_bytes_refl [] = refl
same_bytes_refl (x ∷ a) = ground (arith, same_bytes_refl a)

module _ (sha3 : List ℕ → List ℕ) where
  pub length-new_layer :
      (layer : List (List ℕ)) → length (new_layer sha3 layer) ≡ (length layer + 1) / 2
  unfolding new_layer
  length-new_layer [] = refl
  length-new_layer (a ∷ []) = refl
  length-new_layer (a ∷ (b ∷ layer)) = omega (arith, length-new_layer layer)

  -- A node of the next layer is the hash of its two children.
  pub new_layer-siblings :
      (layer : List (List ℕ)) (pos : ℕ) (hash sibling : List ℕ)
      → get_elem? layer pos ≡ some hash
      → get_elem? layer (sibling_index pos) ≡ some sibling
      → get_elem? (new_layer sha3 layer) (sibling_index pos / 2) ≡ some (parent sha3 hash sibling)
  unfolding new_layer
  new_layer-siblings [] pos hash sibling h k = absurd (ground (arith, h))
  new_layer-siblings (a ∷ []) zero hash sibling h k = absurd (ground (arith, k))
  new_layer-siblings (a ∷ []) (suc pos) hash sibling h k = absurd (ground (arith, h))
  new_layer-siblings (a ∷ (b ∷ layer)) zero hash sibling h k = ground (arith, h, k)
  new_layer-siblings (a ∷ (b ∷ layer)) (suc zero) hash sibling h k =
      ground (arith, h, k, parent_comm sha3 a b)
  new_layer-siblings (a ∷ (b ∷ layer)) (suc (suc pos)) hash sibling h k =
      let shifted : sibling_index (suc (suc pos)) ≡ suc (suc (sibling_index pos)) = ground arith in
      let halved : suc (suc (sibling_index pos)) / 2 ≡ suc (sibling_index pos / 2) = omega arith in
      rw (shifted, halved) (new_layer-siblings layer pos hash sibling h (rw shifted at k))

  pub back-layers_from :
      (f : ℕ) (first layer : List (List ℕ))
      → back (first ∷ layers_from sha3 f layer) ≡ back (layers_from sha3 f layer)
  unfolding layers_from
  back-layers_from zero first layer = refl
  back-layers_from (suc f) first layer = ground arith

  layers_from-ends :
      (f fuel : ℕ) (layer : List (List ℕ))
      → length layer ≤ suc f
      → f ≤ fuel
      → (layers_from sha3 fuel layer ≡ layers_from sha3 f layer)
        × (length (back (layers_from sha3 f layer)) ≤ 1)
  unfolding layers_from
  layers_from-ends zero zero layer h k = (refl, h)
  layers_from-ends zero (suc fuel) layer h k = ground arith
  layers_from-ends (suc f) zero layer h k = absurd (omega arith)
  layers_from-ends (suc f) (suc fuel) layer h k = elim (Bool-cases (ltb 1 (length layer))) [
    | inl e ↦
        let shorter : length (new_layer sha3 layer) ≤ suc f =
          rw (length-new_layer layer) (ground arith) in
        let (same, ended) = layers_from-ends f fuel (new_layer sha3 layer) shorter (omega arith) in
        rw e (ap (λ l. layer ∷ l) same, rw (back-layers_from f layer (new_layer sha3 layer)) ended)
    | inr e ↦ rw e (refl, ground arith)
  ]

  -- The constructor ends: more rounds than it has leaves change nothing, and the last layer that it makes has one node at most.
  tree-ends :
      (leaves : List (List ℕ)) (fuel : ℕ)
      → length leaves ≤ fuel
      → (layers_from sha3 fuel (map sha3 leaves) ≡ tree sha3 leaves)
        × (length (back (tree sha3 leaves)) ≤ 1)
  unfolding tree
  tree-ends leaves fuel h =
      layers_from-ends (length leaves) fuel (map sha3 leaves)
        (omega (arith, length-map sha3 leaves)) h
