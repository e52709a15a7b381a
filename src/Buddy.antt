-- ===== src/Buddy.antt =====
-- The memory manager of the BUDDY build, Kernel/utils/MemManBuddy.c.
--
-- `headers` is the header at every address. The chain of `nextFreeBlock` pointers is the list
-- `free_list` of the addresses from `start` up to (without) `end`, whose size is the heap's and
-- which has no successor. `none` is a read or a write through a null pointer, or the end of fuel.
pub mod Count
pub mod Halves
mod Tests
use bit_shell_os.Base.{
  ℕ, zero, suc, ◌+◌, ◌-◌, ◌*◌, ◌/◌, ◌%◌, ◌^◌, Bool, true, false, ◌&&◌, Option, none, some, List, [],
  ◌∷◌, ◌||◌, ltb, leb, ◌==◌, if◌then◌else◌, ◌>>=◌,
}

abbrev pub total_heap_size : ℕ
total_heap_size = 134_217_728

-- STRUCT_SIZE: 1 byte and 3 of padding, two unsigned ints, 4 of padding and a pointer.
abbrev pub struct_size : ℕ
struct_size = 24

abbrev pub minimum_block_size : ℕ
minimum_block_size = 512

pub record Header : Type 0 where
  pub is_free : ℕ
  pub history : ℕ
  pub block_size : ℕ

pub record Manager : Type 0 where
  pub headers : ℕ → Header
  pub free_list : List ℕ
  pub free_bytes_remaining : ℕ

abbrev pub put : ℕ → Header → (ℕ → Header) → ℕ → Header
put a h headers b = if b == a then h else headers b

pub create_memory_manager : ℕ → (ℕ → Header) → Manager
create_memory_manager managed headers = record {
  headers = put managed (record { is_free = 1; history = 0; block_size = total_heap_size }) headers;
  free_list = managed ∷ [];
  free_bytes_remaining = total_heap_size;
}

-- Past the end the loop meets NULL and nothing is removed.
pub remove_block_from_free_list : ℕ → List ℕ → List ℕ
remove_block_from_free_list a [] = []
remove_block_from_free_list a (b ∷ bs) = if b == a then bs else b ∷ remove_block_from_free_list a bs

-- The loop for the place, and the link.
pub insert_by_size : (ℕ → Header) → ℕ → List ℕ → Option (List ℕ)
insert_by_size headers a [] =
    if ltb total_heap_size (headers a).block_size then none else some (a ∷ [])
insert_by_size headers a (b ∷ bs) =
    let rest = insert_by_size headers a bs in
    if ltb (headers b).block_size (headers a).block_size
    then (rest >>= λ r. some (b ∷ r))
    else some (a ∷ b ∷ bs)

-- The last lines of `insertBlockIntoFreeList`: a block that stays as it is.
pub insert_unmerged : ℕ → Manager → Option (Manager × ℕ)
unfolding insert_by_size
insert_unmerged a m = insert_by_size m.headers a m.free_list >>= λ fs. some (
  record m { headers = put a (record (m.headers a) { is_free = 1 }) m.headers; free_list = fs },
  (m.headers a).block_size,
)

-- The buddy of a block: below it if the lowest bit of its history is set, else above it.
pub buddy_of : ℕ → Header → ℕ
buddy_of a h = if h.history % 2 == 1 then (a + 2 ^ 64 - h.block_size) % 2 ^ 64 else a + h.block_size

-- The first address of the block with its buddy.
pub merged_address : ℕ → Header → ℕ
unfolding buddy_of
merged_address a h = if h.history % 2 == 1 then buddy_of a h else a

-- The block of twice the size, its history one step shorter, with the buddy off the list.
pub merge : ℕ → Manager → Manager
unfolding buddy_of merged_address remove_block_from_free_list
merge a m =
    let h = m.headers a in
    let low = merged_address a h in
    record m {
      headers =
          put low
            (record (m.headers low) {
              block_size = (2 * h.block_size) % 2 ^ 32;
              history = (m.headers low).history / 2;
            })
            m.headers;
      free_list = remove_block_from_free_list (buddy_of a h) m.free_list;
    }

-- Where the size is the heap's, the block becomes the whole list.
pub insert_whole : ℕ → Manager → Manager
insert_whole a m = record m {
  headers = put a (record (m.headers a) { is_free = 1 }) m.headers;
  free_list = a ∷ [];
}

-- Whether the buddy is free and of the same size.
pub is_mergeable : ℕ → Manager → Bool
unfolding buddy_of
is_mergeable a m =
    let h = m.headers a in
    let b = m.headers (buddy_of a h) in ltb 0 b.is_free && b.block_size == h.block_size

-- `insertBlockIntoFreeList`; the second component is the size that it returns. The fuel is one
-- more than the number of merges.
pub insert_block_into_free_list : ℕ → ℕ → Bool → Manager → Option (Manager × ℕ)
unfolding insert_unmerged insert_whole merge is_mergeable merged_address
insert_block_into_free_list zero a check_merge m = none
insert_block_into_free_list (suc fuel) a check_merge m =
    let merged =
      insert_block_into_free_list fuel (merged_address a (m.headers a)) true (merge a m) in
    if (m.headers a).block_size == total_heap_size
    then some (insert_whole a m, total_heap_size)
    else (if check_merge && is_mergeable a m then merged else insert_unmerged a m)

-- The request with its header, rounded up to the alignment, in unsigned int.
pub round_request : ℕ → ℕ
round_request n =
    let m = (n + struct_size) % 2 ^ 32 in if m % 8 == 0 then m else (m + (8 - m % 8)) % 2 ^ 32

-- The search loop: the first block that is large enough, and the list without it.
pub take_block : ℕ → (ℕ → Header) → List ℕ → Option (ℕ × List ℕ)
take_block want headers [] = none
take_block want headers (a ∷ rest) =
    let later = take_block want headers rest in
    if ltb (headers a).block_size want
    then (later >>= λ (b, others). some (b, a ∷ others))
    else some (a, rest)

-- The headers of the two halves of a block.
pub halved : ℕ → Manager → Manager
halved a m =
    let h = m.headers a in
    let half = h.block_size / 2 in
    let history = (2 * h.history) % 2 ^ 32 in
    let lower = put a (record h { block_size = half; history = history }) m.headers in
    record m {
      headers =
          put (a + half) (record { block_size = half; is_free = 1; history = history + 1 }) lower;
    }

-- One turn of the loop that halves the block: the upper half becomes a block of the free list.
pub halve : ℕ → Manager → Option Manager
unfolding halved insert_block_into_free_list
halve a m =
    insert_block_into_free_list 1 (a + (m.headers a).block_size / 2) false (halved a m)
    >>= λ (m', size). some m'

pub halve_loop : ℕ → ℕ → ℕ → Manager → Option Manager
unfolding halve
halve_loop zero want a m = none
halve_loop (suc fuel) want a m =
    let half = (m.headers a).block_size / 2 in
    let more = halve a m >>= halve_loop fuel want a in
    if leb minimum_block_size half && leb want half then more else some m

-- The block at an address is handed out; 20 turns are enough, for the heap is 2 ^ 27 bytes.
pub serve : ℕ → ℕ → Manager → Option (Option ℕ × Manager)
unfolding halve_loop
serve want a m = halve_loop 20 want a m >>= λ m'. some (
  some (a + struct_size),
  record m' {
    headers = put a (record (m'.headers a) { is_free = 0 }) m'.headers;
    free_bytes_remaining = (m'.free_bytes_remaining + 2 ^ 32 - (m'.headers a).block_size) % 2 ^ 32;
  },
)

pub alloc_mem : Manager → ℕ → Option (Option ℕ × Manager)
unfolding round_request take_block serve
alloc_mem m n =
    let want = round_request n in
    if n == 0 || ltb total_heap_size want
    then some (none, m)
    else elim (take_block want m.headers m.free_list) [
      | none ↦ some (none, m)
      | some (a, others) ↦ serve want a (record m { free_list = others })
    ]

-- Blocks have 512 bytes or more, so that 18 merges reach the heap's size.
pub free_mem : Manager → Option ℕ → Option Manager
unfolding insert_block_into_free_list
free_mem m none = some m
free_mem m (some p) = insert_block_into_free_list 20 (p - struct_size) true m >>= λ (m', size).
    some (record m' { free_bytes_remaining = (m'.free_bytes_remaining + size) % 2 ^ 32 })
