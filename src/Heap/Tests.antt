-- ===== src/Heap/Tests.antt =====
-- The memory manager at concrete inputs.
use bit_shell_os.Base.{ℕ, ◌-◌, ◌≡◌, refl, Option, some, [], ◌∷◌, arith}
use bit_shell_os.Heap.{
  Manager, create_memory_manager, total_heap_size, alloc_mem, free_mem, heap_left, take_block,
  insert_block_into_free_list, rest_size,
}
use bit_shell_os.Heap.Alloc.{IsValid, create-IsValid, Answers, alloc_mem_lem}
use bit_shell_os.Heap.Release.{free_mem-alloc_mem}

abbrev fresh : Manager
fresh = create_memory_manager 4096

fresh-IsValid : IsValid 4096 fresh
fresh-IsValid = create-IsValid 4096 refl

abbrev after_100 : Manager
after_100 = record {
  free_list = record { addr = 4216; size = total_heap_size - 120 } ∷ [];
  live = record { addr = 4096; size = 120 } ∷ [];
  free_bytes_remaining = total_heap_size - 120;
}

alloc_100 : alloc_mem fresh 100 ≡ some (some 4112, after_100)
unfolding alloc_mem create_memory_manager take_block insert_block_into_free_list rest_size
alloc_100 = refl

alloc_mem_lem_example :
    (r : Option ℕ) × (m' : Manager) × (alloc_mem fresh 100 ≡ some (r, m'))
    × IsValid 4096 m'
    × Answers fresh 100 r m'
alloc_mem_lem_example = alloc_mem_lem 4096 100 fresh (omega arith) (omega arith) fresh-IsValid

free_mem-alloc_mem_example :
    (m'' : Manager) × (free_mem after_100 (some 4112) ≡ some m'')
    × IsValid 4096 m''
    × (m''.live ≡ fresh.live)
    × (heap_left m'' ≡ heap_left fresh)
free_mem-alloc_mem_example =
    free_mem-alloc_mem 4096 100 4112 fresh after_100 (omega arith) (omega arith) fresh-IsValid
      alloc_100

-- 2 ^ 32 - 8 bytes are asked for, and 8 are taken.
abbrev after_wrap : Manager
after_wrap = record {
  free_list = record { addr = 4104; size = total_heap_size - 8 } ∷ [];
  live = record { addr = 4096; size = 8 } ∷ [];
  free_bytes_remaining = total_heap_size - 8;
}

alloc_wrap : alloc_mem fresh 4294967288 ≡ some (some 4112, after_wrap)
unfolding alloc_mem create_memory_manager take_block insert_block_into_free_list rest_size
alloc_wrap = refl
