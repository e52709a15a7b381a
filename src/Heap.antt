-- ===== src/Heap.antt =====
-- The memory manager of the default build (HEAP2), Kernel/utils/MemoryManagerADT.c, and the
-- front end Kernel/utils/mm.c.
--
-- `free_list` is the chain of `nextFreeBlock` pointers from `start` up to (without) `end`: the
-- address of each block's header with the `blockSize` in it. `live` holds the headers of the
-- blocks that are handed out. Bytes of the heap other than the headers are not modelled, and
-- programs are assumed not to write into headers.
pub mod Tiling
pub mod Order
pub mod Alloc
pub mod Release
pub mod Live
pub mod Owned
mod Tests
use bit_shell_os.Base.{
  ℕ, ◌+◌, ◌-◌, ◌%◌, ◌^◌, Bool, true, false, ◌&&◌, Option, none, some, List, [], ◌∷◌, ltb, leb, ◌==◌,
  if◌then◌else◌, ◌>>=◌,
}

-- TOTAL_HEAP_SIZE and BYTE_ALIGNMENT of memoryManagerADT.h.
abbrev pub total_heap_size : ℕ
total_heap_size = 134_217_728

abbrev pub byte_alignment : ℕ
byte_alignment = 8

-- STRUCT_SIZE: a pointer and an unsigned int take 16 bytes; `& ~7` clears the low three bits.
abbrev pub struct_size : ℕ
struct_size = 16 + (byte_alignment - 1) - (16 + (byte_alignment - 1)) % 8

abbrev pub minimum_block_size : ℕ
minimum_block_size = (struct_size + struct_size) % 2 ^ 32

pub record Block : Type 0 where
  pub addr : ℕ
  pub size : ℕ

pub record Manager : Type 0 where
  pub free_list : List Block
  pub live : List Block
  pub free_bytes_remaining : ℕ

-- `managed` is the address of the managed memory.
unfoldable pub create_memory_manager : ℕ → Manager
create_memory_manager managed = record {
  free_list = record { addr = managed; size = total_heap_size } ∷ [];
  live = [];
  free_bytes_remaining = total_heap_size;
}

-- The last comparison is with `end`, whose size is TOTAL_HEAP_SIZE and which has no successor: a
-- larger block would be compared with what stands at the null pointer.
unfoldable pub insert_block_into_free_list : Block → List Block → Option (List Block)
insert_block_into_free_list b [] = if ltb total_heap_size b.size then none else some (b ∷ [])
insert_block_into_free_list b (c ∷ cs) =
    let rest = insert_block_into_free_list b cs in
    if ltb c.size b.size then (rest >>= λ r. some (c ∷ r)) else some (b ∷ c ∷ cs)

-- The request with its header, rounded up to the alignment, in unsigned int.
pub round_request : ℕ → ℕ
round_request n =
    let m = (n + struct_size) % 2 ^ 32 in
    if m % 8 == 0 then m else (m + (byte_alignment - m % 8)) % 2 ^ 32

-- The search loop: the first block that is large enough, and the list without it.
unfoldable pub take_block : ℕ → List Block → Option (Block × List Block)
take_block want [] = none
take_block want (b ∷ bs) =
    let rest = take_block want bs in
    if ltb b.size want then (rest >>= λ (c, cs). some (c, b ∷ cs)) else some (b, bs)

-- The size that the split leaves to the new block. Where `want` is 0 the new header is the old
-- one, and the store of 0 into the old one comes last.
-- A `want` of 8, which only a request that wraps has, is not modelled as the code does it: there the
-- link of the new header is stored over the old one's size.
unfoldable pub rest_size : ℕ → Block → ℕ
rest_size want b = if want == 0 then 0 else b.size - want

pub serve : Manager → ℕ → Block → List Block → Option (Option ℕ × Manager)
serve m want b others =
    if ltb minimum_block_size (b.size - want)
    then (insert_block_into_free_list (record { addr = b.addr + want; size = rest_size want b })
          others
        >>= λ fs. some (
          some (b.addr + struct_size),
          record m {
            free_list = fs;
            live = record b { size = want } ∷ m.live;
            free_bytes_remaining = (m.free_bytes_remaining + 2 ^ 32 - want) % 2 ^ 32;
          },
        ))
    else some (
      some (b.addr + struct_size),
      record m {
        free_list = others;
        live = b ∷ m.live;
        free_bytes_remaining = (m.free_bytes_remaining + 2 ^ 32 - b.size) % 2 ^ 32;
      },
    )

-- `none` is a fault; otherwise the pointer (`none` is NULL) and the new manager.
unfoldable pub alloc_mem : Manager → ℕ → Option (Option ℕ × Manager)
unfolding take_block serve round_request
alloc_mem m n =
    if n == 0
    then some (none, m)
    else (let want = round_request n in
        if ltb want total_heap_size
        then (elim (take_block want m.free_list) [
          | none ↦ some (none, m)
          | some (b, others) ↦ serve m want b others
        ])
        else some (none, m))

-- The header that stands at an address, if the block there is handed out, and the others.
unfoldable pub take_live : ℕ → List Block → Option (Block × List Block)
take_live a [] = none
take_live a (b ∷ bs) =
    let rest = take_live a bs in
    if b.addr == a then some (b, bs) else (rest >>= λ (c, cs). some (c, b ∷ cs))

-- `none` as the pointer is NULL. A pointer that was not handed out has no header before it: that is
-- a fault.
unfoldable pub free_mem : Manager → Option ℕ → Option Manager
free_mem m none = some m
free_mem m (some p) =
    if ltb p struct_size
    then none
    else (take_live (p - struct_size) m.live >>= λ (b, others).
        insert_block_into_free_list b m.free_list >>= λ fs. some (record m {
          free_list = fs;
          live = others;
          free_bytes_remaining = (m.free_bytes_remaining + b.size) % 2 ^ 32;
        }))

pub heap_size : ℕ
heap_size = total_heap_size

unfoldable pub heap_left : Manager → ℕ
heap_left m = m.free_bytes_remaining

pub used_heap : Manager → ℕ
unfolding heap_size heap_left
used_heap m = (heap_size + 2 ^ 32 - heap_left m) % 2 ^ 32

-- `memStatus` of mm.c: the three words that it stores.
pub mem_status : Manager → List ℕ
mem_status m = heap_size ∷ heap_left m ∷ used_heap m ∷ []
