-- ===== src/Boot.antt =====
-- Kernel/kernel.c: what stands in memory before `main`, and the first process.
--
-- The symbols of the linker and the addresses that `alloc` returns are arguments. The titles that are
-- printed, and cleared again, are left out.
pub mod Image
pub mod Start
mod Tests
use bit_shell_os.Base.{ℕ, ◌+◌, ◌-◌, ◌*◌, ◌%◌, ◌^◌, Option, none, some, List, [], ◌∷◌, ◌>>=◌}
use bit_shell_os.Memory.{memset, load_modules}
use bit_shell_os.Process.{Pcb}
use bit_shell_os.Scheduler.{Scheduler, init_scheduler, create_process}
use bit_shell_os.Text.{split_args}

-- PageSize, and the fixed addresses of the modules.
abbrev pub page_size : ℕ
page_size = 0x1000

abbrev pub sample_code_module_address : ℕ
sample_code_module_address = 0x400000

abbrev pub sample_data_module_address : ℕ
sample_data_module_address = 0x500000

-- The symbols `endOfKernelBinary`, `bss` and `endOfKernel`.
pub record Sections : Type 0 where
  pub end_of_kernel_binary : ℕ
  pub bss : ℕ
  pub end_of_kernel : ℕ

pub clear_bss : ℕ → ℕ → (ℕ → ℕ) → ℕ → ℕ
clear_bss address size m = memset address 0 size m

pub get_stack_base : Sections → ℕ
get_stack_base s = (s.end_of_kernel + page_size * 8 - 8) % 2 ^ 64

-- `moduleAddresses`.
abbrev pub module_addresses : List ℕ
module_addresses = sample_code_module_address ∷ sample_data_module_address ∷ []

-- The memory, and the stack pointer to go on with.
pub initialize_kernel_binary : Sections → (ℕ → ℕ) → (ℕ → ℕ) × ℕ
unfolding clear_bss get_stack_base
initialize_kernel_binary s m = (
  clear_bss s.bss (s.end_of_kernel - s.bss)
      (load_modules s.end_of_kernel_binary module_addresses m),
  get_stack_base s,
)

-- `createProcessWrapper`, for the area of the arguments; the result is the pid.
pub create_process_wrapper :
    Scheduler → ℕ → ℕ → List ℕ → Option ℕ → Option ℕ → ℕ → List Pcb → Option (Scheduler × ℕ)
create_process_wrapper s priority argc area input output memory behind =
    split_args argc area >>= λ args.
    some (create_process s priority args input output memory behind)

abbrev pub shell_name : List ℕ
shell_name = b'S' ∷ b'h' ∷ b'e' ∷ b'l' ∷ b'l' ∷ []

-- What `main` leaves in the scheduler: `more` is what stands behind the text "Shell" and its 0, and
-- `behind` is what the memory of the shell's node leads to as its `next`.
pub start_shell : ℕ → ℕ → List ℕ → List Pcb → Option (Scheduler × ℕ)
unfolding create_process_wrapper
start_shell dummy_memory memory more behind =
    create_process_wrapper (init_scheduler dummy_memory) 1 1
      (b'S' ∷ b'h' ∷ b'e' ∷ b'l' ∷ b'l' ∷ 0 ∷ more) none none memory behind
