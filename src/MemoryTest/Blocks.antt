-- ===== src/MemoryTest/Blocks.antt =====
-- The blocks that Userland/SampleCodeModule/tests/test_mm.c holds, among the live ones of the memory
-- manager.
use bit_shell_os.Base.{
  ℕ, ◌+◌, ◌-◌, ◌≤◌, ◌≡◌, ◌≢◌, refl, sym, none, some, List, [], ◌∷◌, arith, ap, subst, ◌∙◌, inl, inr,
  Option-cases,
}
use bit_shell_os.Heap.{Block, take_live, struct_size}
use bit_shell_os.Heap.Tiling.{covers, covered, take_live-Extends}
use bit_shell_os.Heap.Live.{take_live_front, take_live_addr, take_live_swap}
use bit_shell_os.MemoryTest.{MmRq}
use bit_shell_os.MemoryTest.Areas.{areas, in_range, area_some, area_none}

-- The block of a pointer is live and has room behind its header.
abbrev pub HoldsAt : ℕ → ℕ → List Block → (List Block → Type 0) → Type 0
HoldsAt p size live rest =
    (b : Block) × (others : List Block) × (take_live (p - struct_size) live ≡ some (b, others))
    × (struct_size ≤ p)
    × (size + struct_size ≤ b.size)
    × rest others

-- The pointers stand for different blocks of the first list, and the others are the second one.
unfoldable pub Holds : List MmRq → List Block → List Block → Type 0
Holds [] live left = live ≡ left
Holds (r ∷ rs) live left = elim r.address [
  | none ↦ Holds rs live left
  | some p ↦ HoldsAt p r.size live (λ others. Holds rs others left)
]

pub Holds-none :
    (r : MmRq) (rs : List MmRq) (live left : List Block)
    → r.address ≡ none
    → Holds (r ∷ rs) live left ≡ Holds rs live left
unfolding Holds
Holds-none r rs live left e = rw e refl

pub Holds-some :
    (r : MmRq) (rs : List MmRq) (live left : List Block) (p : ℕ)
    → r.address ≡ some p
    → Holds (r ∷ rs) live left ≡ HoldsAt p r.size live (λ others. Holds rs others left)
unfolding Holds
Holds-some r rs live left p e = rw e refl

covers_start : (b : Block) → 1 ≤ b.size → covers b.addr b ≡ 1
unfolding covers
covers_start b h = ground arith

area_inside :
    (p size a : ℕ) (b : Block)
    → b.addr ≡ p - struct_size
    → struct_size ≤ p
    → size + struct_size ≤ b.size
    → in_range p size a ≤ covers a b
unfolding covers
area_inside p size a b e h h' = ground arith

-- A block below the ones that are held comes out from under them.
pub Holds-under :
    (rs : List MmRq) (b : Block) (live left : List Block)
    → ((a : ℕ) → covered a live ≤ 1)
    → 1 ≤ b.size
    → Holds rs live (b ∷ left)
    → (live' : List Block) × (take_live b.addr live ≡ some (b, live')) × Holds rs live' left
unfolding Holds
Holds-under [] b live left apart room h = (
  left,
  subst (λ l. take_live b.addr l ≡ some (b, left)) (sym h) (take_live_front b.addr b left refl),
  refl,
)
Holds-under (r ∷ rs) b live left apart room h = elim (Option-cases r.address) [
  | inl e ↦
      let (live', x, y) =
        Holds-under rs b live left apart room
          (subst (λ T. T) (Holds-none r rs live (b ∷ left) e) h) in
      (live', x, subst (λ T. T) (sym (Holds-none r rs live' left e)) y)
  | inr (p, e) ↦
      let (c, others, found, past, fits, more) =
        subst (λ T. T) (Holds-some r rs live (b ∷ left) p e) h in
      let ext = (take_live-Extends (p - struct_size) live others c found).0 in
      let (l₂, x, y) =
        Holds-under rs b others left (λ a. omega (arith, apart a, ext a)) room more in
      let ext' = (take_live-Extends b.addr others l₂ b x).0 in
      let ne : b.addr ≢ p - struct_size = λ same. omega (
        arith,
        apart b.addr,
        ext b.addr,
        ext' b.addr,
        covers_start b room,
        subst (λ a. covers a c ≡ 1) (take_live_addr _ live others c found ∙ sym same)
            (covers_start c (omega arith)),
      ) in
      let (live', u, v) = take_live_swap b.addr (p - struct_size) live others l₂ b c ne found x in
      (live', u, subst (λ T. T) (sym (Holds-some r rs live' left p e)) (c, l₂, v, past, fits, y))
]

-- The blocks lie apart from each other and from the others.
pub Holds-areas :
    (rs : List MmRq) (live left : List Block) (a : ℕ)
    → Holds rs live left
    → areas a rs + covered a left ≤ covered a live
unfolding Holds areas
Holds-areas [] live left a h = omega (arith, ap (covered a) h)
Holds-areas (r ∷ rs) live left a h = elim (Option-cases r.address) [
  | inl e ↦ omega (
    arith,
    area_none r a e,
    Holds-areas rs live left a (subst (λ T. T) (Holds-none r rs live left e) h),
  )
  | inr (p, e) ↦
      let (b, others, found, past, fits, more) = subst (λ T. T) (Holds-some r rs live left p e) h in
      omega (
        arith,
        area_some r p a e,
        area_inside p r.size a b (take_live_addr _ live others b found) past fits,
        (take_live-Extends (p - struct_size) live others b found).0 a,
        Holds-areas rs others left a more,
      )
]
