-- ===== src/Heap/Owned.antt =====
-- Blocks of the memory manager (Kernel/utils/MemoryManagerADT.c) that somebody holds a pointer to.
use bit_shell_os.Base.{
  ℕ, ◌+◌, ◌-◌, ◌≤◌, ◌≡◌, ◌≢◌, sym, ◌^◌, inl, inr, some, List, [], ◌∷◌, arith, ap, subst, ◌∙◌,
}
use bit_shell_os.Heap.{Block, Manager, take_live, struct_size, alloc_mem, free_mem}
use bit_shell_os.Heap.Tiling.{covers, covered, take_live-Extends}
use bit_shell_os.Heap.Alloc.{IsValid, in_heap, alloc_mem_lem}
use bit_shell_os.Heap.Release.{free_mem_lem}
use bit_shell_os.Heap.Live.{take_live_front, take_live_addr, take_live_swap}

-- The pointers, each with the size that was asked for, stand for different live blocks, and the
-- others are `left`.
unfoldable pub Owned : List (ℕ × ℕ) → List Block → List Block → Type 0
Owned [] live left = live ≡ left
Owned ((p, size) ∷ more) live left =
    (b : Block) × (others : List Block) × (take_live (p - struct_size) live ≡ some (b, others))
    × (struct_size ≤ p)
    × (size + struct_size ≤ b.size)
    × Owned more others left

-- No byte lies in two blocks.
abbrev pub IsApart : List Block → Type 0
IsApart live = (a : ℕ) → covered a live ≤ 1

pub live-IsApart : (base : ℕ) (m : Manager) → IsValid base m → IsApart m.live
unfolding in_heap
live-IsApart base m v a = ground (arith, v.tiled a)

covers_start : (b : Block) → 1 ≤ b.size → covers b.addr b ≡ 1
unfolding covers
covers_start b h = ground arith

take_live-IsApart :
    (p : ℕ) (live others : List Block) (b : Block)
    → take_live p live ≡ some (b, others)
    → IsApart live
    → IsApart others
take_live-IsApart p live others b e apart a =
    omega (arith, apart a, (take_live-Extends p live others b e).0 a)

-- Two blocks that are taken one after the other have different addresses.
taken_apart :
    (p q : ℕ) (l l₁ l₂ : List Block) (b c : Block)
    → IsApart l
    → take_live p l ≡ some (b, l₁)
    → take_live q l₁ ≡ some (c, l₂)
    → 1 ≤ b.size
    → 1 ≤ c.size
    → q ≢ p
taken_apart p q l l₁ l₂ b c apart e f hb hc same =
    let at_b = take_live_addr p l l₁ b e in
    let at_c = take_live_addr q l₁ l₂ c f in
    omega (
      arith,
      apart b.addr,
      (take_live-Extends p l l₁ b e).0 b.addr,
      (take_live-Extends q l₁ l₂ c f).0 b.addr,
      covers_start b hb,
      subst (λ a. covers a c ≡ 1) (at_c ∙ same ∙ sym at_b) (covers_start c hc),
    )

-- The first two change places.
pub Owned-swap :
    (r s : ℕ × ℕ) (more : List (ℕ × ℕ)) (live left : List Block)
    → IsApart live
    → Owned (r ∷ s ∷ more) live left
    → Owned (s ∷ r ∷ more) live left
unfolding Owned
Owned-swap (p, m) (q, n) more live left apart
      (b, l₁, e, past, fits, (c, l₂, f, past', fits', rest)) =
    let ne =
      taken_apart (p - struct_size) (q - struct_size) live l₁ l₂ b c apart e f (omega arith)
        (omega arith) in
    let (l', x, y) = take_live_swap (q - struct_size) (p - struct_size) live l₁ l₂ c b ne e f in
    (c, l', x, past', fits', (b, l₂, y, past, fits, rest))

-- A change behind the first.
pub Owned-behind :
    (r : ℕ × ℕ) (more more' : List (ℕ × ℕ)) (live left : List Block)
    → IsApart live
    → ((l : List Block) → IsApart l → Owned more l left → Owned more' l left)
    → Owned (r ∷ more) live left
    → Owned (r ∷ more') live left
unfolding Owned
Owned-behind (p, n) more more' live left apart change (b, others, e, past, fits, rest) = (
  b,
  others,
  e,
  past,
  fits,
  change others (take_live-IsApart (p - struct_size) live others b e apart) rest,
)

-- The release of the first.
pub free_mem-Owned :
    (base p n : ℕ) (more : List (ℕ × ℕ)) (m : Manager) (left : List Block)
    → IsValid base m
    → Owned ((p, n) ∷ more) m.live left
    → (m' : Manager) × (free_mem m (some p) ≡ some m') × IsValid base m' × Owned more m'.live left
unfolding Owned
free_mem-Owned base p n more m left v (b, others, e, past, fits, rest) =
    let (m', f, v', live, count) = free_mem_lem base p m b others v past e in
    (m', f, v', subst (λ l. Owned more l left) (sym live) rest)

-- A request that got a pointer.
pub alloc_mem-Owned :
    (base n p : ℕ) (more : List (ℕ × ℕ)) (m m' : Manager) (left : List Block)
    → n ≢ 0
    → n + 24 ≤ 2 ^ 32
    → IsValid base m
    → alloc_mem m n ≡ some (some p, m')
    → Owned more m.live left
    → IsValid base m' × Owned ((p, n) ∷ more) m'.live left
unfolding Owned
alloc_mem-Owned base n p more m m' left positive room v given h =
    let (r, m₁, e, v₁, answers) = alloc_mem_lem base n m positive room v in
    let same : m₁ ≡ m' = ground arith in
    let pointer : r ≡ some p = ground arith in
    (
      subst (IsValid base) same v₁,
      elim answers [
        | inl nothing ↦ absurd (cc)
        | inr (b, size, at, fits, live, small, least) ↦
            let here : p ≡ b.addr + struct_size = ground arith in
            let front : m'.live ≡ b ∷ m.live = ap (λ x. x.live) (sym same) ∙ live in
            (
              b,
              m.live,
              subst (λ l. take_live (p - struct_size) l ≡ some (b, m.live)) (sym front)
                  (take_live_front (p - struct_size) b m.live (omega arith)),
              omega arith,
              fits,
              h,
            )
      ],
    )
