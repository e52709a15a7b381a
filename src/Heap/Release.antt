-- ===== src/Heap/Release.antt =====
-- `freeMem` and the counters of Kernel/utils/MemoryManagerADT.c, and requests near the top of
-- unsigned int.
use bit_shell_os.Base.{
  ℕ, ◌+◌, ◌-◌, ◌%◌, ◌^◌, ◌≤◌, ◌<◌, ◌≡◌, ◌≢◌, refl, sym, ap, subst, ◌∙◌, some, List, ◌∷◌, ltb, ◌>>=◌,
  arith, Option-cases, Bool-cases, inl, inr, le→ltb, ltb→le, eq→==,
}
use bit_shell_os.Heap.{
  Block, Manager, insert_block_into_free_list, take_block, take_live, round_request, rest_size,
  serve, alloc_mem, free_mem, struct_size, minimum_block_size, heap_left, used_heap, heap_size,
}
use bit_shell_os.Heap.Tiling.{covered, bytes, insert-Extends, take_live-Extends}
use bit_shell_os.Heap.Order.{IsBlock, insert_total, insert-Ascending, insert-All, take_live-All}
use bit_shell_os.Heap.Alloc.{IsValid, alloc_mem_lem}

-- Freeing the pointer of a live block of a valid manager does not fault, takes just that block from
-- the live ones, adds its size to the free bytes, and keeps the manager valid.
pub free_mem_lem :
    (base p : ℕ) (m : Manager) (b : Block) (others : List Block)
    → IsValid base m
    → struct_size ≤ p
    → take_live (p - struct_size) m.live ≡ some (b, others)
    → (m' : Manager) × (free_mem m (some p) ≡ some m')
      × IsValid base m'
      × (m'.live ≡ others)
      × (m'.free_bytes_remaining ≡ m.free_bytes_remaining + b.size)
unfolding free_mem covered bytes
free_mem_lem base p m b others valid past found =
    let ext = take_live-Extends (p - struct_size) m.live others b found in
    let blocks = take_live-All IsBlock (p - struct_size) m.live others b found valid.live_blocks in
    let (fs, e) = insert_total b m.free_list blocks.0.2 in
    let ext' = insert-Extends b m.free_list fs e in
    (
      record {
        free_list = fs;
        live = others;
        free_bytes_remaining = (m.free_bytes_remaining + b.size) % 2 ^ 32;
      },
      rw (le→ltb p struct_size past, found, e, ◌>>=◌),
      record {
        tiled = λ a. omega (arith, ext.0 a, ext'.0 a, valid.tiled a);
        total = omega (arith, ext.1, ext'.1, valid.total);
        counted = omega (arith, ext.1, ext'.1, valid.total, valid.counted);
        sorted = insert-Ascending 0 b m.free_list fs e (omega arith) valid.sorted;
        free_blocks = insert-All IsBlock b m.free_list fs e blocks.0 valid.free_blocks;
        live_blocks = blocks.1;
      },
      refl,
      omega (arith, ext.1, valid.total, valid.counted),
    )

take_live_head :
    (b : Block) (bs : List Block)
    → take_live (b.addr + struct_size - struct_size) (b ∷ bs) ≡ some (b, bs)
unfolding take_live
take_live_head b bs = rw (eq→== b.addr (b.addr + struct_size - struct_size) (omega arith))

bytes-cons : (b : Block) (bs : List Block) → bytes (b ∷ bs) ≡ b.size + bytes bs
unfolding bytes
bytes-cons b bs = refl

-- What a request that got a pointer has done.
served :
    (base n p : ℕ) (m m' : Manager)
    → n ≢ 0
    → n + 24 ≤ 2 ^ 32
    → IsValid base m
    → alloc_mem m n ≡ some (some p, m')
    → IsValid base m' × ((b : Block) × (p ≡ b.addr + struct_size) × (m'.live ≡ b ∷ m.live))
served base n p m m' positive room valid given =
    let (r, m₁, e, valid₁, answers) = alloc_mem_lem base n m positive room valid in
    let same : m₁ ≡ m' = ground arith in
    let pointer : r ≡ some p = ground arith in
    (
      subst (IsValid base) same valid₁,
      elim answers [
        | inl nothing ↦ absurd (cc)
        | inr (b, size, at, fits, live, smaller, least) ↦
            (b, ground arith, sym (ap (λ x. x.live) same) ∙ live)
      ],
    )

-- A request of a valid manager that gets a pointer, followed by the release of that pointer: the
-- release does not fault, and the live blocks and the count of free bytes are as before.
pub free_mem-alloc_mem :
    (base n p : ℕ) (m m' : Manager)
    → n ≢ 0
    → n + 24 ≤ 2 ^ 32
    → IsValid base m
    → alloc_mem m n ≡ some (some p, m')
    → (m'' : Manager) × (free_mem m' (some p) ≡ some m'')
      × IsValid base m''
      × (m''.live ≡ m.live)
      × (heap_left m'' ≡ heap_left m)
unfolding heap_left
free_mem-alloc_mem base n p m m' positive room valid given =
    let (valid', (b, at, live)) = served base n p m m' positive room valid given in
    let (m'', e, valid'', live', left) =
      free_mem_lem base p m' b m.live valid' (omega arith)
        (rw (at, live) (take_live_head b m.live)) in
    (
      m'',
      e,
      valid'',
      live',
      omega (
        arith,
        left,
        valid.total,
        valid'.total,
        valid.counted,
        valid'.counted,
        ap bytes live,
        bytes-cons b m.live,
      ),
    )

-- The heap's size is what is left and what is used.
pub heap_left-used_heap :
    (base : ℕ) (m : Manager) → IsValid base m → heap_left m + used_heap m ≡ heap_size
unfolding heap_left used_heap
heap_left-used_heap base m valid = omega (arith, valid.total, valid.counted)

round_request_wraps : (n : ℕ) → 2 ^ 32 < n + 24 → n < 2 ^ 32 → round_request n ≤ 16
unfolding round_request
round_request_wraps n high word = ground arith

-- A request of more than 2^32 - 24 bytes wraps round when its header is added: where it gets a
-- pointer, the block behind it has at most 48 bytes.
pub alloc_mem_wraps :
    (n p : ℕ) (m m' : Manager)
    → 2 ^ 32 < n + 24
    → n < 2 ^ 32
    → alloc_mem m n ≡ some (some p, m')
    → (given : Block) × (m'.live ≡ given ∷ m.live)
      × (p ≡ given.addr + struct_size)
      × (given.size ≤ 48)
unfolding alloc_mem serve
alloc_mem_wraps n p m m' high word h =
    elim (Option-cases (take_block (round_request n) m.free_list)) [
      | inl e ↦ absurd (ground arith)
      | inr ((b, others), e) ↦
          elim (Option-cases (
            insert_block_into_free_list
              (record { addr = b.addr + round_request n; size = rest_size (round_request n) b })
              others)) [
                | inl stuck ↦ (
                  b,
                  ground (arith, round_request_wraps n),
                  ground arith,
                  ground (arith, round_request_wraps n),
                )
                | inr (fs, found) ↦
                    elim (Bool-cases (ltb minimum_block_size (b.size - round_request n))) [
                      | inl cut ↦ (
                        record b { size = round_request n },
                        ground arith,
                        ground arith,
                        omega (arith, round_request_wraps n),
                      )
                      | inr whole ↦ (
                        b,
                        ground arith,
                        ground arith,
                        omega (arith, round_request_wraps n, ltb→le minimum_block_size _ whole),
                      )
                    ]
              ]
    ]
