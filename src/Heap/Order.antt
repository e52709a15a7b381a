-- ===== src/Heap/Order.antt =====
-- The order of the free list of Kernel/utils/MemoryManagerADT.c by size, and the search in it.
use bit_shell_os.Base.{
  ℕ, ◌%◌, ◌≤◌, ◌<◌, ◌≡◌, subst, none, some, List, [], ◌∷◌, ltb, if◌then◌else◌, ltb→lt, ltb→le,
  arith, Option-cases, Bool-cases, inl, inr, ◌⊎◌, All,
}
use bit_shell_os.Heap.{Block, insert_block_into_free_list, take_block, take_live, total_heap_size}

-- Every block is at least as large as `lo` and as those before it.
abbrev pub Ascending : ℕ → List Block → Type 0
Ascending lo [] = Unit {0}
Ascending lo (b ∷ bs) = (lo ≤ b.size) × Ascending b.size bs

-- A header stands at a multiple of 8, and so does the next; nothing is larger than the heap.
abbrev pub IsBlock : Block → Type 0
IsBlock b = (b.addr % 8 ≡ 0) × (b.size % 8 ≡ 0) × (b.size ≤ total_heap_size)

-- The insertion loop stops at the latest before `end`.
pub insert_total :
    (b : Block) (bs : List Block)
    → b.size ≤ total_heap_size
    → (r : List Block) × (insert_block_into_free_list b bs ≡ some r)
unfolding insert_block_into_free_list
insert_total b [] h = (b ∷ [], ground arith)
insert_total b (c ∷ cs) h =
    let (r, e) = insert_total b cs h in
    (if ltb c.size b.size then c ∷ r else b ∷ c ∷ cs, ground arith)

pub insert-Ascending :
    (lo : ℕ) (b : Block) (bs r : List Block)
    → insert_block_into_free_list b bs ≡ some r
    → lo ≤ b.size
    → Ascending lo bs
    → Ascending lo r
unfolding insert_block_into_free_list
insert-Ascending lo b [] r h l s = ground arith
insert-Ascending lo b (c ∷ cs) r h l s = elim (Option-cases (insert_block_into_free_list b cs)) [
  | inl e ↦ ground arith
  | inr (r', e) ↦ ground (arith, insert-Ascending c.size b cs r' e)
]

pub insert-All :
    (P : Block → Type 0) (b : Block) (bs r : List Block)
    → insert_block_into_free_list b bs ≡ some r
    → P b
    → All P bs
    → All P r
unfolding insert_block_into_free_list
insert-All P b [] r h p s = ground arith
insert-All P b (c ∷ cs) r h p s = elim (Option-cases (insert_block_into_free_list b cs)) [
  | inl e ↦ ground arith
  | inr (r', e) ↦ ground (arith, insert-All P b cs r' e p s.1)
]

Ascending-mono : (lo hi : ℕ) (bs : List Block) → lo ≤ hi → Ascending hi bs → Ascending lo bs
Ascending-mono lo hi [] h s = tt
Ascending-mono lo hi (b ∷ bs) h s = (omega arith, s.1)

pub take_block-Ascending :
    (lo want : ℕ) (bs cs : List Block) (c : Block)
    → take_block want bs ≡ some (c, cs)
    → Ascending lo bs
    → Ascending lo cs
unfolding take_block
take_block-Ascending lo want [] cs c h s = ground arith
take_block-Ascending lo want (b ∷ bs) cs c h s = elim (Option-cases (take_block want bs)) [
  | inl e ↦ ground (arith, Ascending-mono lo b.size bs)
  | inr ((d, ds), e) ↦
      ground (arith, Ascending-mono lo b.size bs, take_block-Ascending b.size want bs ds d e)
]

pub take_block-All :
    (P : Block → Type 0) (want : ℕ) (bs cs : List Block) (c : Block)
    → take_block want bs ≡ some (c, cs)
    → All P bs
    → P c × All P cs
unfolding take_block
take_block-All P want [] cs c h s = ground arith
take_block-All P want (b ∷ bs) cs c h s = elim (Option-cases (take_block want bs)) [
  | inl e ↦ ground arith
  | inr ((d, ds), e) ↦ ground (arith, take_block-All P want bs ds d e s.1)
]

pub take_live-All :
    (P : Block → Type 0) (p : ℕ) (bs cs : List Block) (c : Block)
    → take_live p bs ≡ some (c, cs)
    → All P bs
    → P c × All P cs
unfolding take_live
take_live-All P p [] cs c h s = ground arith
take_live-All P p (b ∷ bs) cs c h s = elim (Option-cases (take_live p bs)) [
  | inl e ↦ ground arith
  | inr ((d, ds), e) ↦ ground (arith, take_live-All P p bs ds d e s.1)
]

Ascending-fits :
    (lo want : ℕ) (bs : List Block)
    → Ascending lo bs
    → All (λ b. (b.size < want) ⊎ (lo ≤ b.size)) bs
Ascending-fits lo want [] s = tt
Ascending-fits lo want (b ∷ bs) s =
    (inr s.0, Ascending-fits lo want bs (Ascending-mono lo b.size bs s.0 s.1))

-- The block is large enough, and every block of the list is too small or no smaller than it.
abbrev pub Fits : ℕ → List Block → Block → Type 0
Fits want bs c = (want ≤ c.size) × All (λ b. (b.size < want) ⊎ (c.size ≤ b.size)) bs

-- What the search finds is large enough, and no smaller block would be.
pub take_block_large :
    (lo want : ℕ) (bs cs : List Block) (c : Block)
    → take_block want bs ≡ some (c, cs)
    → Ascending lo bs
    → Fits want bs c
unfolding take_block
take_block_large lo want [] cs c h s = ground arith
take_block_large lo want (b ∷ bs) cs c h s = elim (Bool-cases (ltb b.size want)) [
  | inl small ↦ elim (Option-cases (take_block want bs)) [
    | inl e ↦ ground arith
    | inr ((d, ds), e) ↦
        let (fits, least) = take_block_large b.size want bs ds d e s.1 in
        let same : d ≡ c = ground arith in
        subst (Fits want (b ∷ bs)) same (fits, (inl (ltb→lt b.size want small), least))
  ]
  | inr large ↦
      let same : b ≡ c = ground arith in
      subst (Fits want (b ∷ bs)) same
        (ltb→le b.size want large, (inr (omega arith), Ascending-fits b.size want bs s.1))
]

-- It fails only if every block is too small.
pub take_block-none :
    (want : ℕ) (bs : List Block) → take_block want bs ≡ none → All (λ b. b.size < want) bs
unfolding take_block
take_block-none want [] h = tt
take_block-none want (b ∷ bs) h = elim (Option-cases (take_block want bs)) [
  | inl e ↦ ground (arith, take_block-none want bs e)
  | inr ((d, ds), e) ↦ ground arith
]
