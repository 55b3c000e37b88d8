-- ===== src/Utils/Merkle.antt =====
-- The Merkle trees of utils/merkle.cpp and utils/merkle.h. A hash is its list of bytes; `sha3` is a parameter.
pub mod Layers
pub mod Proofs
use orbitersdk_cpp.Prelude.{
  ℕ, zero, suc, ◌+◌, ◌-◌, ◌/◌, ◌%◌, Bool, true, false, Option, none, some, List, [], ◌∷◌, ◌++◌, map,
  Result, ok, err, undefined, length, get_elem?, replicate, ◌==◌, ltb, if◌then◌else◌,
}

-- `operator<` of `std::string`, on the bytes
unfoldable pub less : List ℕ → List ℕ → Bool
less [] [] = false
less [] (y ∷ ys) = true
less (x ∷ xs) [] = false
less (x ∷ xs) (y ∷ ys) =
    let rest = less xs ys in if ltb x y then true else if ltb y x then false else rest

-- `std::min` and `std::max`
unfoldable pub min_bytes : List ℕ → List ℕ → List ℕ
min_bytes a b = if less b a then b else a

unfoldable pub max_bytes : List ℕ → List ℕ → List ℕ
max_bytes a b = if less a b then b else a

-- `operator==` of `std::string`
unfoldable pub same_bytes : List ℕ → List ℕ → Bool
same_bytes [] [] = true
same_bytes [] (y ∷ ys) = false
same_bytes (x ∷ xs) [] = false
same_bytes (x ∷ xs) (y ∷ ys) = let rest = same_bytes xs ys in if x == y then rest else false

-- `Hash()`
abbrev pub empty_hash : List ℕ
empty_hash = replicate 32 0

-- A tree is its layers, the leaves first: `this->tree.back()`.
abbrev pub back : List (List (List ℕ)) → List (List ℕ)
back [] = []
back (layer ∷ []) = layer
back (layer ∷ (next ∷ layers)) = back (next ∷ layers)

-- `getRoot`
unfoldable pub get_root : List (List (List ℕ)) → List ℕ
get_root layers = elim (back layers) [ [] ↦ empty_hash | root ∷ others ↦ root ]

module _ (sha3 : List ℕ → List ℕ) where
  -- The hash of two siblings
  unfoldable pub parent : List ℕ → List ℕ → List ℕ
  unfolding min_bytes max_bytes
  parent a b = sha3 (min_bytes a b ++ max_bytes a b)

  unfoldable pub new_layer : List (List ℕ) → List (List ℕ)
  new_layer [] = []
  new_layer (a ∷ []) = a ∷ []
  new_layer (a ∷ (b ∷ layer)) = parent a b ∷ new_layer layer

  -- `while (this->tree.back().size() > 1) …`: the layers from this one on. Each round needs a unit of fuel.
  unfoldable pub layers_from : ℕ → List (List ℕ) → List (List (List ℕ))
  layers_from zero layer = layer ∷ []
  layers_from (suc f) layer =
      let rest = layers_from f (new_layer layer) in
      if ltb 1 (length layer) then layer ∷ rest else layer ∷ []

  -- The constructor: a layer is at most as long as it has fuel.
  unfoldable pub tree : List (List ℕ) → List (List (List ℕ))
  unfolding layers_from
  tree leaves = layers_from (length leaves) (map sha3 leaves)

  -- `verify`: the hash that the proof leads to
  unfoldable pub computed_hash : List ℕ → List (List ℕ) → List ℕ
  computed_hash hash [] = hash
  computed_hash hash (sibling ∷ proof) = computed_hash (parent hash sibling) proof

  unfoldable pub verify : List (List ℕ) → List ℕ → List ℕ → Bool
  verify proof leaf root = same_bytes (computed_hash leaf proof) root

abbrev pub sibling_index : ℕ → ℕ
sibling_index pos = if pos % 2 == 0 then pos + 1 else pos - 1

-- What is pushed for a layer, before what the layers above it give
unfoldable pub push_sibling : Option (List ℕ) → Result (List (List ℕ)) → Result (List (List ℕ))
push_sibling none rest = err undefined
push_sibling (some hash) (err e) = err e
push_sibling (some hash) (ok proof) = ok (hash ∷ proof)

-- The loop of `getProof`: `layer[pos]` out of range is undefined.
unfoldable pub proof_from : List (List (List ℕ)) → ℕ → Result (List (List ℕ))
unfolding push_sibling
proof_from [] pos = ok []
proof_from (layer ∷ layers) pos =
    let rest = proof_from layers (sibling_index pos / 2) in
    if length layer == 1 then ok [] else push_sibling (get_elem? layer (sibling_index pos)) rest

-- `getProof`. For an empty first layer `size() - 1` is the greatest `uint64_t`, which no index exceeds.
unfoldable pub get_proof : List (List (List ℕ)) → ℕ → Result (List (List ℕ))
get_proof [] leaf_index = err undefined
get_proof (leaves ∷ layers) leaf_index =
    let proof = proof_from (leaves ∷ layers) leaf_index in
    if (if length leaves == 0 then false else ltb (length leaves - 1) leaf_index)
    then ok []
    else proof
