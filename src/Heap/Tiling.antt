-- ===== src/Heap/Tiling.antt =====
-- Which bytes the blocks of a list cover, and how the list operations of the free-list manager
-- (Kernel/utils/MemoryManagerADT.c) change that.
use bit_shell_os.Base.{
  ℕ, ◌+◌, ◌≡◌, some, List, [], ◌∷◌, ltb, leb, ◌&&◌, if◌then◌else◌, arith, Option-cases, inl, inr,
}
use bit_shell_os.Heap.{Block, insert_block_into_free_list, take_block, take_live}

-- 1 if the byte at `a` lies in the block, and else 0.
unfoldable pub covers : ℕ → Block → ℕ
covers a b = if leb b.addr a && ltb a (b.addr + b.size) then 1 else 0

-- How many blocks of the list the byte lies in.
unfoldable pub covered : ℕ → List Block → ℕ
unfolding covers
covered a [] = 0
covered a (b ∷ bs) = covers a b + covered a bs

-- The bytes of all blocks together.
unfoldable pub bytes : List Block → ℕ
bytes [] = 0
bytes (b ∷ bs) = b.size + bytes bs

-- `whole` has the blocks of `rest` and `b`, as far as bytes are concerned.
abbrev pub Extends : Block → List Block → List Block → Type 0
Extends b rest whole =
    ((a : ℕ) → covered a whole ≡ covers a b + covered a rest) × (bytes whole ≡ b.size + bytes rest)

pub insert-Extends :
    (b : Block) (bs r : List Block) → insert_block_into_free_list b bs ≡ some r → Extends b bs r
unfolding insert_block_into_free_list covered bytes
insert-Extends b [] r h = ((λ a. ground arith), ground arith)
insert-Extends b (c ∷ cs) r h = elim (Option-cases (insert_block_into_free_list b cs)) [
  | inl e ↦ ((λ a. ground arith), ground arith)
  | inr (r', e) ↦ (
    (λ a. ground (arith, (insert-Extends b cs r' e).0 a)),
    ground (arith, (insert-Extends b cs r' e).1),
  )
]

pub take_block-Extends :
    (want : ℕ) (bs cs : List Block) (c : Block)
    → take_block want bs ≡ some (c, cs)
    → Extends c cs bs
unfolding take_block covered bytes
take_block-Extends want [] cs c h = ((λ a. ground arith), ground arith)
take_block-Extends want (b ∷ bs) cs c h = elim (Option-cases (take_block want bs)) [
  | inl e ↦ ((λ a. ground arith), ground arith)
  | inr ((d, ds), e) ↦ (
    (λ a. ground (arith, (take_block-Extends want bs ds d e).0 a)),
    ground (arith, (take_block-Extends want bs ds d e).1),
  )
]

pub take_live-Extends :
    (p : ℕ) (bs cs : List Block) (c : Block) → take_live p bs ≡ some (c, cs) → Extends c cs bs
unfolding take_live covered bytes
take_live-Extends p [] cs c h = ((λ a. ground arith), ground arith)
take_live-Extends p (b ∷ bs) cs c h = elim (Option-cases (take_live p bs)) [
  | inl e ↦ ((λ a. ground arith), ground arith)
  | inr ((d, ds), e) ↦ (
    (λ a. ground (arith, (take_live-Extends p bs ds d e).0 a)),
    ground (arith, (take_live-Extends p bs ds d e).1),
  )
]
