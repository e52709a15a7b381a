-- ===== src/Buddy/Tests.antt =====
-- The memory manager of the BUDDY build at concrete inputs.
use bit_shell_os.Base.{
  ℕ, ◌≡◌, refl, true, none, some, [], ◌∷◌, All, ◌⊎◌, arith, ◌==◌, if◌then◌else◌,
}
use bit_shell_os.Buddy.{Manager, create_memory_manager, alloc_mem}
use bit_shell_os.Buddy.Count.{Inserts, doubled, insert_block_into_free_list_total}
use bit_shell_os.Buddy.Halves.{TooSmall, Gets, alloc_mem_answers}

-- Two blocks of half the heap, the lower one in use.
abbrev two_halves : Manager
two_halves = record {
  headers = λ a.
      if a == 0
      then record { is_free = 0; history = 0; block_size = 67108864 }
      else record { is_free = 1; history = 1; block_size = 67108864 };
  free_list = 67108864 ∷ [];
  free_bytes_remaining = 67108864;
}

abbrev fresh : Manager
fresh = create_memory_manager 0 (λ a. record { is_free = 0; history = 0; block_size = 0 })

insert_block_into_free_list_total_example : Inserts 20 true 0 two_halves 67108864
unfolding doubled
insert_block_into_free_list_total_example =
    insert_block_into_free_list_total 20 1 0 true two_halves (omega arith) refl

alloc_mem_answers_example :
    ((alloc_mem fresh 100 ≡ some (none, fresh)) × All (TooSmall 132 fresh.headers) fresh.free_list)
    ⊎ ((a : ℕ) × Gets 100 a fresh (alloc_mem fresh 100))
unfolding create_memory_manager
alloc_mem_answers_example =
    alloc_mem_answers fresh 100 (omega arith) (omega arith) (omega arith, tt)
