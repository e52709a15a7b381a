-- ===== src/Boot/Tests.antt =====
-- A kernel's binary of 300 bytes with two small modules behind it.
use bit_shell_os.Base.{
  ℕ, ◌+◌, ◌-◌, ◌<◌, ◌≡◌, refl, ap, inl, inr, some, List, [], ◌∷◌, All, get_or, zero, suc, arith,
}
use bit_shell_os.Process.{default_program_size, init_process}
use bit_shell_os.Memory.Copy.{IsBytes}
use bit_shell_os.Packer.{word_bytes}
use bit_shell_os.Packer.Layout.{Holds, payload, Loaded}
use bit_shell_os.Scheduler.{Scheduler, running, switch_process}
use bit_shell_os.Scheduler.Invariant.{IsValid}
use bit_shell_os.Boot.{Sections, module_addresses, initialize_kernel_binary, start_shell}
use bit_shell_os.Boot.Image.{initialize_kernel_binary_lem}
use bit_shell_os.Boot.Start.{shell, start_shell_runs}

-- The BSS lies over the payload.
abbrev sections : Sections
sections = record { end_of_kernel_binary = 300; bss = 300; end_of_kernel = 400 }

abbrev modules : List (List ℕ)
modules = (5 ∷ 6 ∷ 7 ∷ []) ∷ (8 ∷ 9 ∷ []) ∷ []

abbrev stored : List ℕ
stored = 2 ∷ 0 ∷ 0 ∷ 0 ∷ 3 ∷ 0 ∷ 0 ∷ 0 ∷ 5 ∷ 6 ∷ 7 ∷ 2 ∷ 0 ∷ 0 ∷ 0 ∷ 8 ∷ 9 ∷ []

abbrev memory : ℕ → ℕ
memory a = get_or stored (a - 300) 0

small_bytes : (i : ℕ) (xs : List ℕ) → All (λ x. x < 256) xs → get_or xs i 0 < 256
small_bytes i [] h = omega arith
small_bytes zero (x ∷ xs) h = h.0
small_bytes (suc i) (x ∷ xs) h = small_bytes i xs h.1

memory-IsBytes : IsBytes memory
memory-IsBytes a = small_bytes (a - 300) stored (omega arith)

memory-Holds : Holds memory 300 (payload modules)
unfolding word_bytes
memory-Holds i small =
    let here : 300 + i - 300 ≡ i = omega arith in ap (λ k. get_or stored k 0) here

initialize_kernel_binary_lem_example :
    Loaded (initialize_kernel_binary sections memory).0 module_addresses modules
    × ((i : ℕ) → i < 100 → (initialize_kernel_binary sections memory).0 (300 + i) ≡ 0)
unfolding word_bytes
initialize_kernel_binary_lem_example =
    initialize_kernel_binary_lem sections modules memory memory-IsBytes (omega arith) (omega arith)
      memory-Holds (inr (omega arith), (inl (omega arith), tt), (inr (omega arith), tt, tt))
      (inl (omega arith), (inl (omega arith), tt))

start_shell_runs_example :
    (s : Scheduler) × (start_shell 4096 8192 (9 ∷ []) [] ≡ some (s, 1))
    × IsValid s
    × (s.processes ≡ shell 8192 ∷ [])
    × ((s' : Scheduler) × (switch_process s 77
          ≡ some (s', init_process (8192 + default_program_size)))
        × (s'.current ≡ running 1)
        × IsValid s')
start_shell_runs_example = start_shell_runs 4096 8192 77 (9 ∷ []) [] refl
