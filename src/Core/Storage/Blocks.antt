-- ===== src/Core/Storage/Blocks.antt =====
-- What holds of the blocks in memory however the chain is pushed to and popped from.
use mathlib.Core.Path.{subst}
use orbitersdk_cpp.Prelude.{
  ℕ, ◌+◌, ◌-◌, ◌%◌, ◌^◌, ◌<◌, ◌≡◌, refl, ap, sym, ◌∙◌, inl, inr, none, some, Option-cases, List, [],
  ◌∷◌, ◌++◌, Assoc, lookup, contains, lookup-insert, lookup-erase, ok, ◌==◌, if◌then◌else◌, arith,
}
use orbitersdk_cpp.Core.Chain.{Block}
use orbitersdk_cpp.Core.Storage.{
  Storage, try_insert, back, without_back, add_block, push_back, push_front, remove_block, pop_back,
  pop_front,
}
use orbitersdk_cpp.Core.Storage.Linked.{
  find_block, Follows, IsLinked, IsDistinct, IsBounded, find_block-append, back_some,
  IsLinked-append, IsLinked-front, IsLinked-tail, IsDistinct-append, IsDistinct-front,
  IsBounded-append, IsBounded-front,
}

-- `blockByHash` holds the blocks of the chain, which are linked and have different hashes.
pub record IsConsistent (s : Storage) : Type 0 where
  pub linked : IsLinked s.chain
  pub distinct : IsDistinct s.chain
  pub bounded : IsBounded s.chain
  pub agrees : (hash : ℕ) → lookup hash s.block_by_hash ≡ find_block hash s.chain

-- A call of the storage that returns; a block that is pushed has a hash that the chain does not have.
pub data Step (s : Storage) : Storage → Type 0 where
  pushed_back :
      (b : Block) (s' : Storage)
      → find_block b.hash s.chain ≡ none
      → b.n_height < 2 ^ 64
      → push_back s b ≡ ok s'
      → Step s s'
  pushed_front :
      (b : Block) (s' : Storage)
      → find_block b.hash s.chain ≡ none
      → b.n_height < 2 ^ 64
      → push_front s b ≡ ok s'
      → Step s s'
  popped_back : (s' : Storage) → pop_back s ≡ ok s' → Step s s'
  popped_front : (s' : Storage) → pop_front s ≡ ok s' → Step s s'

-- The hashes of the chain are those of the mapping, with a block more or less.
lookup-try_insert :
    (hash key : ℕ) (b : Block) (m : Assoc Block)
    → lookup key m ≡ none
    → lookup hash (try_insert key b m) ≡ (if key == hash then some b else lookup hash m)
unfolding contains
lookup-try_insert hash key b m h = ground (arith, h, lookup-insert key hash b m)

pub push_back-ok :
    (s : Storage) (b : Block) (s' : Storage)
    → push_back s b ≡ ok s'
    → (s' ≡ add_block (s.chain ++ (b ∷ [])) b s)
      × ((last : Block) → back s.chain ≡ some last → Follows last b)
unfolding push_back Follows
push_back-ok s b s' h = (ground (arith, h), λ last e. ground (arith, h, e))

push_back-IsConsistent :
    (s : Storage) (b : Block) (s' : Storage)
    → IsConsistent s
    → find_block b.hash s.chain ≡ none
    → b.n_height < 2 ^ 64
    → push_back s b ≡ ok s'
    → IsConsistent s'
unfolding add_block
push_back-IsConsistent s b s' c fresh small h =
    let (made, follows) = push_back-ok s b s' h in
    rw made (record {
      linked = IsLinked-append s.chain b follows c.linked;
      distinct = IsDistinct-append s.chain b fresh c.distinct;
      bounded = IsBounded-append s.chain b small c.bounded;
      agrees = λ hash. ground (
        arith,
        fresh,
        c.agrees hash,
        lookup-try_insert hash b.hash b s.block_by_hash (c.agrees b.hash ∙ fresh),
        find_block-append hash s.chain b,
      );
    })

-- What a push to the front needs of the chain
Precedes : Block → List Block → Type 0
Precedes b [] = Unit
Precedes b (first ∷ blocks) =
    (first.prev_block_hash ≡ b.hash) × (b.n_height ≡ (first.n_height + (2 ^ 64 - 1)) % 2 ^ 64)

push_front-ok :
    (chain : List Block) (s : Storage) (b : Block) (s' : Storage)
    → s.chain ≡ chain
    → push_front s b ≡ ok s'
    → (s' ≡ add_block (b ∷ chain) b s) × Precedes b chain
unfolding push_front Precedes
push_front-ok [] s b s' e h = (ground (arith, e, h), tt)
push_front-ok (first ∷ blocks) s b s' e h = (ground (arith, e, h), ground (arith, e, h))

IsLinked-cons :
    (b : Block) (blocks : List Block)
    → Precedes b blocks
    → b.n_height < 2 ^ 64
    → IsBounded blocks
    → IsLinked blocks
    → IsLinked (b ∷ blocks)
unfolding IsLinked Precedes IsBounded Follows
IsLinked-cons b [] p small bounded h = tt
IsLinked-cons b (first ∷ blocks) p small bounded h = ((p.0, omega (arith, p.1, bounded.0)), h)

push_front-IsConsistent :
    (s : Storage) (b : Block) (s' : Storage)
    → IsConsistent s
    → find_block b.hash s.chain ≡ none
    → b.n_height < 2 ^ 64
    → push_front s b ≡ ok s'
    → IsConsistent s'
unfolding add_block find_block IsDistinct IsBounded
push_front-IsConsistent s b s' c fresh small h =
    let (made, precedes) = push_front-ok s.chain s b s' refl h in
    rw made (record {
      linked = IsLinked-cons b s.chain precedes small c.bounded c.linked;
      distinct = (fresh, c.distinct);
      bounded = (small, c.bounded);
      agrees = λ hash.
          lookup-try_insert hash b.hash b s.block_by_hash (c.agrees b.hash ∙ fresh)
          ∙ ap (λ o. if b.hash == hash then some b else o) (c.agrees hash);
    })

pop_back-ok :
    (s s' : Storage)
    → pop_back s ≡ ok s'
    → (b : Block) × (s.chain ≡ without_back s.chain ++ (b ∷ []))
      × (s' ≡ remove_block (without_back s.chain) b s)
unfolding pop_back
pop_back-ok s s' h = elim (Option-cases (back s.chain)) [
  | inl none_left ↦ absurd (ground (arith, h, none_left))
  | inr (b, last) ↦ (b, back_some s.chain b last, ground (arith, h, last))
]

without_last-IsConsistent :
    (s : Storage) (rest : List Block) (b : Block)
    → s.chain ≡ rest ++ (b ∷ [])
    → IsConsistent s
    → IsConsistent (remove_block rest b s)
unfolding remove_block
without_last-IsConsistent s rest b split c =
    let (distinct, absent) = IsDistinct-front rest b (rw split at c.distinct) in
    record {
      linked = IsLinked-front rest b (rw split at c.linked);
      distinct = distinct;
      bounded = IsBounded-front rest b (rw split at c.bounded);
      agrees = λ hash. ground (
        arith,
        absent,
        lookup-erase b.hash hash s.block_by_hash,
        c.agrees hash ∙ ap (find_block hash) split ∙ find_block-append hash rest b,
      );
    }

pop_back-IsConsistent : (s s' : Storage) → IsConsistent s → pop_back s ≡ ok s' → IsConsistent s'
pop_back-IsConsistent s s' c h =
    let (b, split, made) = pop_back-ok s s' h in
    subst IsConsistent (sym made) (without_last-IsConsistent s (without_back s.chain) b split c)

without_first-IsConsistent :
    (s : Storage) (b : Block) (rest : List Block)
    → s.chain ≡ b ∷ rest
    → IsConsistent s
    → IsConsistent (remove_block rest b s)
unfolding remove_block IsDistinct IsBounded find_block
without_first-IsConsistent s b rest split c =
    let (absent, distinct) = (rw split at c.distinct) in
    record {
      linked = IsLinked-tail b rest (rw split at c.linked);
      distinct = distinct;
      bounded = (rw split at c.bounded).1;
      agrees = λ hash. ground (
        arith,
        absent,
        lookup-erase b.hash hash s.block_by_hash,
        c.agrees hash ∙ ap (find_block hash) split,
      );
    }

pop_front-ok :
    (chain : List Block) (s s' : Storage)
    → s.chain ≡ chain
    → pop_front s ≡ ok s'
    → (b : Block) × (rest : List Block) × (s.chain ≡ b ∷ rest) × (s' ≡ remove_block rest b s)
unfolding pop_front
pop_front-ok [] s s' e h = absurd (ground (arith, e, h))
pop_front-ok (b ∷ rest) s s' e h = (b, rest, e, ground (arith, e, h))

pop_front-IsConsistent : (s s' : Storage) → IsConsistent s → pop_front s ≡ ok s' → IsConsistent s'
pop_front-IsConsistent s s' c h =
    let (b, rest, split, made) = pop_front-ok s.chain s s' refl h in
    subst IsConsistent (sym made) (without_first-IsConsistent s b rest split c)

Step-IsConsistent : (s s' : Storage) → Step s s' → IsConsistent s → IsConsistent s'
Step-IsConsistent s s' (pushed_back b t fresh small h) c =
    push_back-IsConsistent s b t c fresh small h
Step-IsConsistent s s' (pushed_front b t fresh small h) c =
    push_front-IsConsistent s b t c fresh small h
Step-IsConsistent s s' (popped_back t h) c = pop_back-IsConsistent s t c h
Step-IsConsistent s s' (popped_front t h) c = pop_front-IsConsistent s t c h

-- The storages that calls make of one whose chain and `blockByHash` are empty
pub data Reachable : Storage → Type 0 where
  empty : (s : Storage) → s.chain ≡ [] → s.block_by_hash ≡ [] → Reachable s
  stepped : (s s' : Storage) → Reachable s → Step s s' → Reachable s'

-- A storage that pushes of blocks with new hashes and pops reach from the empty one is consistent: its chain is linked by hash and height, no hash occurs twice in it, and `blockByHash` holds exactly its blocks.
pub Reachable-IsConsistent : (s : Storage) → Reachable s → IsConsistent s
unfolding IsLinked IsDistinct IsBounded find_block lookup
Reachable-IsConsistent s (empty t h k) = record {
  linked = rw h tt;
  distinct = rw h tt;
  bounded = rw h tt;
  agrees = λ hash. rw (h, k) refl;
}
Reachable-IsConsistent s (stepped r t reached step) =
    Step-IsConsistent r t step (Reachable-IsConsistent r reached)
