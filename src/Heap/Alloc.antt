-- ===== src/Heap/Alloc.antt =====
-- `allocMem` of Kernel/utils/MemoryManagerADT.c: the invariant of the manager, and what a request
-- returns.
use bit_shell_os.Base.{
  ℕ, ◌+◌, ◌-◌, ◌%◌, ◌^◌, ◌≤◌, ◌<◌, ◌≡◌, ◌≢◌, refl, Option, none, some, true, List, ◌∷◌, ltb, leb,
  ◌&&◌, if◌then◌else◌, ◌>>=◌, arith, Option-cases, Bool-cases, inl, inr, ◌⊎◌, All, ltb→le, ne→==,
}
use bit_shell_os.Heap.{
  Block, Manager, create_memory_manager, take_block, total_heap_size, round_request, rest_size,
  serve, alloc_mem, struct_size, minimum_block_size,
}
use bit_shell_os.Heap.Tiling.{covers, covered, bytes, insert-Extends, take_block-Extends}
use bit_shell_os.Heap.Order.{
  Ascending, IsBlock, insert_total, insert-Ascending, insert-All, take_block-Ascending,
  take_block-All, take_block_large, take_block-none,
}

-- 1 for the bytes of the managed memory, and else 0.
unfoldable pub in_heap : ℕ → ℕ → ℕ
in_heap base a = if leb base a && ltb a (base + total_heap_size) then 1 else 0

-- Each byte of the heap lies in exactly one block, free or live, and no other byte does; headers
-- are aligned, the free list ascends, and the count of free bytes is exact.
pub record IsValid (base : ℕ) (m : Manager) : Type 0 where
  pub tiled : (a : ℕ) → covered a m.free_list + covered a m.live ≡ in_heap base a
  pub total : bytes m.free_list + bytes m.live ≡ total_heap_size
  pub counted : m.free_bytes_remaining ≡ bytes m.free_list
  pub sorted : Ascending 0 m.free_list
  pub free_blocks : All IsBlock m.free_list
  pub live_blocks : All IsBlock m.live

pub create-IsValid : (base : ℕ) → base % 8 ≡ 0 → IsValid base (create_memory_manager base)
unfolding create_memory_manager covered covers bytes in_heap
create-IsValid base h = record {
  tiled = λ a. ground arith;
  total = refl;
  counted = refl;
  sorted = omega arith;
  free_blocks = ((h, refl, omega arith), tt);
  live_blocks = tt;
}

-- A request that leaves room for its header is rounded up, by less than a header and a word.
pub round_request_bounds :
    (n : ℕ)
    → n + 24 ≤ 2 ^ 32
    → (n + struct_size ≤ round_request n)
      × (round_request n < n + struct_size + 8)
      × (round_request n % 8 ≡ 0)
unfolding round_request
round_request_bounds n h = ground arith

-- What a request that is not for 0 bytes may come to: NULL and nothing changed, if every free block
-- is too small or the rounded request is not below the heap's size; else a pointer past the header
-- of a block with room for the request, newly handed out, which was cut from the front of a
-- smallest free block that is large enough.
abbrev pub Answers : Manager → ℕ → Option ℕ → Manager → Type 0
Answers m n r m' =
    ((r ≡ none)
      × (m' ≡ m)
      × (All (λ b. b.size < round_request n) m.free_list ⊎ (total_heap_size ≤ round_request n)))
    ⊎ ((given : Block) × (size : ℕ) × (r ≡ some (given.addr + struct_size))
        × (n + struct_size ≤ given.size)
        × (m'.live ≡ given ∷ m.live)
        × (given.size ≤ size)
        × All (λ b. (b.size < round_request n) ⊎ (size ≤ b.size)) m.free_list)

module _ (base n : ℕ) (m : Manager) (b : Block) (others : List Block) (room : n + 24 ≤ 2 ^ 32)
    (valid : IsValid base m)
    (found : take_block (round_request n) m.free_list ≡ some (b, others)) where
  abbrev want : ℕ
  want = round_request n

  -- The invariant after the block, or its front part `given`, has been handed out.
  handed :
      (fs : List Block) (given : Block) (left : ℕ)
      → ((a : ℕ) → covered a fs + covers a given ≡ covered a m.free_list)
      → bytes fs + given.size ≡ bytes m.free_list
      → Ascending 0 fs
      → All IsBlock fs
      → IsBlock given
      → left ≡ (m.free_bytes_remaining + 2 ^ 32 - given.size) % 2 ^ 32
      → IsValid base (record { free_list = fs; live = given ∷ m.live; free_bytes_remaining = left })
  unfolding covered bytes
  handed fs given left cover sum asc blocks block l = record {
    tiled = λ a. omega (arith, cover a, valid.tiled a);
    total = omega (arith, valid.total);
    counted = omega (arith, valid.total, valid.counted);
    sorted = asc;
    free_blocks = blocks;
    live_blocks = (block, valid.live_blocks);
  }

  cut_off : Block
  cut_off = record { addr = b.addr + want; size = rest_size want b }

  cut_off-size : cut_off.size ≡ b.size - want
  unfolding cut_off rest_size
  cut_off-size = ground (arith, round_request_bounds n room)

  front : Block
  front = record b { size = want }

  cut_off-covers : (a : ℕ) → want ≤ b.size → covers a cut_off + covers a front ≡ covers a b
  unfolding cut_off front covers rest_size
  cut_off-covers a h = ground (arith, round_request_bounds n room)

  cut_off-IsBlock : IsBlock b → want ≤ b.size → IsBlock cut_off × IsBlock front
  unfolding cut_off front rest_size
  cut_off-IsBlock h fit = ground (arith, round_request_bounds n room)

  -- When the rest is worth a block of its own.
  serve_cut :
      ltb minimum_block_size (b.size - want) ≡ true
      → (r : Option ℕ) × (m' : Manager) × (serve m want b others ≡ some (r, m'))
        × IsValid base m'
        × Answers m n r m'
  unfolding serve cut_off front
  serve_cut cut =
      let ext = take_block-Extends want m.free_list others b found in
      let asc = take_block-Ascending 0 want m.free_list others b found valid.sorted in
      let blocks = take_block-All IsBlock want m.free_list others b found valid.free_blocks in
      let fits = take_block_large 0 want m.free_list others b found valid.sorted in
      let bounds = round_request_bounds n room in
      let parts = cut_off-IsBlock blocks.0 fits.0 in
      let (fs, e) = insert_total cut_off others parts.0.2 in
      let ext' = insert-Extends cut_off others fs e in
      (
        some (b.addr + struct_size),
        record m {
          free_list = fs;
          live = front ∷ m.live;
          free_bytes_remaining = (m.free_bytes_remaining + 2 ^ 32 - want) % 2 ^ 32;
        },
        rw (cut, e, ◌>>=◌),
        handed fs front _ (λ a. omega (arith, ext.0 a, ext'.0 a, cut_off-covers a fits.0))
            (omega (arith, ext.1, ext'.1, cut_off-size))
            (insert-Ascending 0 cut_off others fs e (omega arith) asc)
            (insert-All IsBlock cut_off others fs e parts.0 blocks.1) parts.1 refl,
        inr (front, b.size, refl, bounds.0, refl, fits.0, fits.1),
      )

  serve_lem :
      (r : Option ℕ) × (m' : Manager) × (serve m want b others ≡ some (r, m'))
      × IsValid base m'
      × Answers m n r m'
  unfolding serve rest_size
  serve_lem =
      let ext = take_block-Extends want m.free_list others b found in
      let asc = take_block-Ascending 0 want m.free_list others b found valid.sorted in
      let blocks = take_block-All IsBlock want m.free_list others b found valid.free_blocks in
      let fits = take_block_large 0 want m.free_list others b found valid.sorted in
      let bounds = round_request_bounds n room in
      elim (Bool-cases (ltb minimum_block_size (b.size - want))) [
        | inl cut ↦ serve_cut cut
        | inr whole ↦ (
          some (b.addr + struct_size),
          record m {
            free_list = others;
            live = b ∷ m.live;
            free_bytes_remaining = (m.free_bytes_remaining + 2 ^ 32 - b.size) % 2 ^ 32;
          },
          rw (whole, ◌>>=◌),
          handed others b _ (λ a. omega (arith, ext.0 a)) (omega (arith, ext.1)) asc blocks.1
              blocks.0 refl,
          inr (b, b.size, refl, omega arith, refl, omega arith, fits.1),
        )
      ]

-- In a valid manager a request that leaves room for its header neither faults nor runs past the
-- list, keeps the manager valid, and gets one of the two answers.
pub alloc_mem_lem :
    (base n : ℕ) (m : Manager)
    → n ≢ 0
    → n + 24 ≤ 2 ^ 32
    → IsValid base m
    → (r : Option ℕ) × (m' : Manager) × (alloc_mem m n ≡ some (r, m'))
      × IsValid base m'
      × Answers m n r m'
unfolding alloc_mem
alloc_mem_lem base n m positive room valid =
    elim (Bool-cases (ltb (round_request n) total_heap_size)) [
      | inr large ↦
          (none, m, rw (ne→== n 0 positive, large), valid, inl (refl, refl, inr (ltb→le _ _ large)))
      | inl small ↦ elim (Option-cases (take_block (round_request n) m.free_list)) [
        | inl e ↦ (
          none,
          m,
          rw (ne→== n 0 positive, small, e),
          valid,
          inl (refl, refl, inl (take_block-none _ _ e)),
        )
        | inr ((b, others), e) ↦
            let (r, m', eq, valid', answers) = serve_lem base n m b others room valid e in
            (r, m', rw (ne→== n 0 positive, small, e) eq, valid', answers)
      ]
    ]
