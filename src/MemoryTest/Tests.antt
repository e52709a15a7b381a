-- ===== src/MemoryTest/Tests.antt =====
-- Runs of Userland/SampleCodeModule/tests/test_mm.c and test_util.c at concrete inputs.
use bit_shell_os.Base.{◌≡◌, refl, ◌==◌, if◌then◌else◌, some, [], ◌∷◌}
use bit_shell_os.Heap.{create_memory_manager}
use bit_shell_os.Heap.Alloc.{create-IsValid}
use bit_shell_os.MemoryTest.{
  size_of, memcheck, check_blocks, error_text, test_mm, get_uint, first_generator,
}
use bit_shell_os.MemoryTest.Rounds.{Passes, successes, test_mm-Passes}

test_mm-Passes_example :
    Passes 4096
      (create_memory_manager 4096)
      (successes 19)
      (test_mm (create_memory_manager 4096) (λ a. 7))
test_mm-Passes_example =
    test_mm-Passes 4096 (create_memory_manager 4096) (λ a. 7) (create-IsValid 4096 refl)

last_size : size_of 127 19 ≡ 1_104_128
unfolding size_of
last_size = refl

-- A block that holds something else is reported.
spoiled :
    check_blocks 3 (record { address = some 100; size = 2 } ∷ []) (λ a. if a == 100 then 3 else 4)
    ≡ error_text
unfolding check_blocks memcheck
spoiled = refl

first_number : (get_uint first_generator).0 ≡ 820_856_226
unfolding get_uint
first_number = refl
