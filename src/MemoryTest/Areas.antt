-- ===== src/MemoryTest/Areas.antt =====
-- The bytes of the blocks that Userland/SampleCodeModule/tests/test_mm.c fills and looks at.
use bit_shell_os.Base.{
  ℕ, zero, suc, ◌+◌, ◌%◌, ◌≤◌, ◌<◌, ◌≡◌, refl, true, none, some, List, [], ◌∷◌, ltb, leb, ◌&&◌,
  if◌then◌else◌, arith, ap, ◌∙◌, ◌⊎◌, inl, inr, Option-cases, eq→==,
}
use bit_shell_os.Memory.Copy.{memset_lem}
use bit_shell_os.MemoryTest.{MmRq, fill_block, fill_blocks, memcheck, check_block, check_blocks}

-- 1 for the bytes of a block, and else 0.
abbrev pub in_range : ℕ → ℕ → ℕ → ℕ
in_range p size a = if leb p a && ltb a (p + size) then 1 else 0

unfoldable pub area : ℕ → MmRq → ℕ
area a r = elim r.address [ none ↦ 0 | some p ↦ in_range p r.size a ]

unfoldable pub areas : ℕ → List MmRq → ℕ
unfolding area
areas a [] = 0
areas a (r ∷ rs) = area a r + areas a rs

pub area_none : (r : MmRq) (a : ℕ) → r.address ≡ none → area a r ≡ 0
unfolding area
area_none r a e = rw e refl

pub area_some : (r : MmRq) (p a : ℕ) → r.address ≡ some p → area a r ≡ in_range p r.size a
unfolding area
area_some r p a e = rw e refl

-- A byte of a block, and one of no block.
in_area : (p size k : ℕ) → k < size → in_range p size (p + k) ≡ 1
in_area p size k h = ground arith

out_of_range : (p size a : ℕ) → in_range p size a ≡ 0 → (a < p) ⊎ (p + size ≤ a)
out_of_range p size a h = ground arith

fill_block_outside :
    (i : ℕ) (r : MmRq) (memory : ℕ → ℕ) (a : ℕ) → area a r ≡ 0 → fill_block i r memory a ≡ memory a
unfolding fill_block area
fill_block_outside i r memory a out = elim (Option-cases r.address) [
  | inl e ↦ rw e refl
  | inr (p, e) ↦ rw e ((memset_lem p i r.size memory).1 a (out_of_range p r.size a (rw e at out)))
]

fill_blocks_outside :
    (i : ℕ) (rs : List MmRq) (memory : ℕ → ℕ) (a : ℕ)
    → areas a rs ≡ 0
    → fill_blocks i rs memory a ≡ memory a
unfolding fill_blocks areas
fill_blocks_outside i [] memory a out = refl
fill_blocks_outside i (r ∷ rs) memory a out =
    fill_blocks_outside (i + 1) rs (fill_block i r memory) a (omega arith)
    ∙ fill_block_outside i r memory a (omega arith)

memcheck_holds :
    (start value n : ℕ) (memory : ℕ → ℕ)
    → ((k : ℕ) → k < n → memory (start + k) ≡ value)
    → memcheck start value n memory ≡ true
unfolding memcheck
memcheck_holds start value zero memory h = refl
memcheck_holds start value (suc n) memory h =
    rw (eq→== (memory start) value (ap memory (omega arith) ∙ h 0 (omega arith))) (
      memcheck_holds (start + 1) value n memory
        (λ k small. ap memory (omega arith) ∙ h (suc k) (omega arith)))

fill_block_at :
    (i : ℕ) (r : MmRq) (memory : ℕ → ℕ) (p k : ℕ)
    → r.address ≡ some p
    → k < r.size
    → fill_block i r memory (p + k) ≡ i % 256
unfolding fill_block
fill_block_at i r memory p k e small = rw e ((memset_lem p i r.size memory).0 k small)

check_block-some :
    (i : ℕ) (r : MmRq) (memory : ℕ → ℕ) (p : ℕ)
    → r.address ≡ some p
    → memcheck p (i % 256) r.size memory ≡ true
    → check_block i r memory ≡ []
unfolding check_block
check_block-some i r memory p e ok = rw (e, ok) refl

check_block-none :
    (i : ℕ) (r : MmRq) (memory : ℕ → ℕ) → r.address ≡ none → check_block i r memory ≡ []
unfolding check_block
check_block-none i r memory e = rw e refl

-- The block that is filled keeps its number while the blocks behind it are filled.
check_block_passes :
    (i : ℕ) (r : MmRq) (rs : List MmRq) (memory : ℕ → ℕ)
    → ((a : ℕ) → area a r + areas a rs ≤ 1)
    → check_block i r (fill_blocks (i + 1) rs (fill_block i r memory)) ≡ []
check_block_passes i r rs memory apart =
    let m = fill_block i r memory in
    let m' = fill_blocks (i + 1) rs m in
    elim (Option-cases r.address) [
      | inl e ↦ check_block-none i r m' e
      | inr (p, e) ↦ check_block-some i r m' p e (
          memcheck_holds p (i % 256) r.size m' (λ k small.
            fill_blocks_outside (i + 1) rs m (p + k)
              (omega (arith, apart (p + k), area_some r p (p + k) e, in_area p r.size k small))
            ∙ fill_block_at i r memory p k e small))
    ]

-- Blocks that do not overlap all pass.
pub check_blocks_pass :
    (i : ℕ) (rs : List MmRq) (memory : ℕ → ℕ)
    → ((a : ℕ) → areas a rs ≤ 1)
    → check_blocks i rs (fill_blocks i rs memory) ≡ []
unfolding check_blocks fill_blocks areas
check_blocks_pass i [] memory apart = refl
check_blocks_pass i (r ∷ rs) memory apart =
    rw (check_block_passes i r rs memory apart)
      (check_blocks_pass (i + 1) rs (fill_block i r memory) (λ a. omega (arith, apart a)))
