-- ===== src/Core/Storage/Linked.antt =====
-- The chain of a storage as a list: what links its blocks, and what a block more or less at an end changes.
use orbitersdk_cpp.Prelude.{
  ℕ, ◌+◌, ◌%◌, ◌^◌, ◌<◌, ◌≡◌, refl, ap, Option, none, some, List, [], ◌∷◌, ◌++◌, ◌==◌,
  if◌then◌else◌, arith,
}
use orbitersdk_cpp.Core.Chain.{Block}
use orbitersdk_cpp.Core.Storage.{back, without_back}

-- The first block of the chain with this hash
unfoldable pub find_block : ℕ → List Block → Option Block
find_block hash [] = none
find_block hash (b ∷ blocks) = if b.hash == hash then some b else find_block hash blocks

-- Each block names the hash and the height of the one before it.
unfoldable pub Follows : Block → Block → Type 0
Follows b c = (c.prev_block_hash ≡ b.hash) × (c.n_height ≡ (b.n_height + 1) % 2 ^ 64)

unfoldable pub IsLinked : List Block → Type 0
IsLinked [] = Unit
IsLinked (b ∷ []) = Unit
IsLinked (b ∷ (c ∷ blocks)) = Follows b c × IsLinked (c ∷ blocks)

-- No hash occurs twice.
unfoldable pub IsDistinct : List Block → Type 0
IsDistinct [] = Unit
IsDistinct (b ∷ blocks) = (find_block b.hash blocks ≡ none) × IsDistinct blocks

-- The heights are `uint64_t`.
unfoldable pub IsBounded : List Block → Type 0
IsBounded [] = Unit
IsBounded (b ∷ blocks) = (b.n_height < 2 ^ 64) × IsBounded blocks

pub find_block-append :
    (hash : ℕ) (blocks : List Block) (b : Block)
    → find_block hash (blocks ++ (b ∷ [])) ≡ elim (find_block hash blocks) [
      | none ↦ if b.hash == hash then some b else none
      | some c ↦ some c
    ]
unfolding find_block
find_block-append hash [] b = refl
find_block-append hash (c ∷ blocks) b = ground (arith, find_block-append hash blocks b)

pub back_none : (blocks : List Block) → back blocks ≡ none → blocks ≡ []
unfolding back
back_none [] h = refl
back_none (b ∷ []) h = absurd (ground (arith, h))
back_none (b ∷ (c ∷ blocks)) h = absurd (ground (arith, back_none (c ∷ blocks) h))

pub back_some :
    (blocks : List Block) (b : Block)
    → back blocks ≡ some b
    → blocks ≡ without_back blocks ++ (b ∷ [])
unfolding back without_back
back_some [] b h = absurd (ground (arith, h))
back_some (c ∷ []) b h = ap (λ x. x ∷ []) (ground (arith, h))
back_some (c ∷ (d ∷ blocks)) b h = ap (λ l. c ∷ l) (back_some (d ∷ blocks) b h)

pub IsLinked-append :
    (blocks : List Block) (b : Block)
    → ((last : Block) → back blocks ≡ some last → Follows last b)
    → IsLinked blocks
    → IsLinked (blocks ++ (b ∷ []))
unfolding IsLinked back
IsLinked-append [] b f h = tt
IsLinked-append (c ∷ []) b f h = (f c refl, tt)
IsLinked-append (c ∷ (d ∷ blocks)) b f h = (h.0, IsLinked-append (d ∷ blocks) b f h.1)

pub IsLinked-front :
    (blocks : List Block) (b : Block) → IsLinked (blocks ++ (b ∷ [])) → IsLinked blocks
unfolding IsLinked
IsLinked-front [] b h = tt
IsLinked-front (c ∷ []) b h = tt
IsLinked-front (c ∷ (d ∷ blocks)) b h = (h.0, IsLinked-front (d ∷ blocks) b h.1)

pub IsLinked-tail : (b : Block) (blocks : List Block) → IsLinked (b ∷ blocks) → IsLinked blocks
unfolding IsLinked
IsLinked-tail b [] h = tt
IsLinked-tail b (c ∷ blocks) h = h.1

pub IsDistinct-append :
    (blocks : List Block) (b : Block)
    → find_block b.hash blocks ≡ none
    → IsDistinct blocks
    → IsDistinct (blocks ++ (b ∷ []))
unfolding IsDistinct find_block
IsDistinct-append [] b f h = (refl, tt)
IsDistinct-append (c ∷ blocks) b f h = (
  ground (arith, f, h.0, find_block-append c.hash blocks b),
  IsDistinct-append blocks b (ground (arith, f)) h.1,
)

pub IsDistinct-front :
    (blocks : List Block) (b : Block)
    → IsDistinct (blocks ++ (b ∷ []))
    → IsDistinct blocks × (find_block b.hash blocks ≡ none)
unfolding IsDistinct find_block
IsDistinct-front [] b h = (tt, refl)
IsDistinct-front (c ∷ blocks) b h =
    let (front, absent) = IsDistinct-front blocks b h.1 in
    let earlier = find_block-append c.hash blocks b in
    ((ground (arith, h.0, earlier), front), ground (arith, h.0, absent, earlier))

pub IsBounded-append :
    (blocks : List Block) (b : Block)
    → b.n_height < 2 ^ 64
    → IsBounded blocks
    → IsBounded (blocks ++ (b ∷ []))
unfolding IsBounded
IsBounded-append [] b f h = (f, tt)
IsBounded-append (c ∷ blocks) b f h = (h.0, IsBounded-append blocks b f h.1)

pub IsBounded-front :
    (blocks : List Block) (b : Block) → IsBounded (blocks ++ (b ∷ [])) → IsBounded blocks
unfolding IsBounded
IsBounded-front [] b h = tt
IsBounded-front (c ∷ blocks) b h = (h.0, IsBounded-front blocks b h.1)
