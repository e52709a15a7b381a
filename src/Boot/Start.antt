-- ===== src/Boot/Start.antt =====
-- The first process: `main` of Kernel/kernel.c and the first `switchProcess`.
use bit_shell_os.Base.{ℕ, ◌+◌, ◌≡◌, refl, ap, ◌∙◌, none, some, List, [], ◌∷◌, ◌>>=◌, arith}
use bit_shell_os.Process.{Pcb, default_program_size, init_process, new_process, load_process}
use bit_shell_os.Scheduler.{Scheduler, running, init_scheduler, create_process, switch_process}
use bit_shell_os.Scheduler.Invariant.{IsValid, init-IsValid, create_process-IsValid}
use bit_shell_os.Scheduler.Switch.{first_switch, switch_process_keeps}
use bit_shell_os.Text.{join_args}
use bit_shell_os.Text.Compare.{split_args-join_args}
use bit_shell_os.Boot.{create_process_wrapper, shell_name, start_shell}

abbrev pub shell : ℕ → Pcb
shell memory = new_process 1 1 (shell_name ∷ []) none none memory

abbrev with_shell : ℕ → ℕ → Scheduler
with_shell dummy_memory memory =
    (create_process (init_scheduler dummy_memory) 1 (shell_name ∷ []) none none memory []).0

start_shell-with_shell :
    (dummy_memory memory : ℕ) (more : List ℕ)
    → start_shell dummy_memory memory more [] ≡ some (with_shell dummy_memory memory, 1)
unfolding start_shell create_process_wrapper join_args create_process init_scheduler
start_shell-with_shell dummy_memory memory more =
    ap
      (λ o. o >>= λ args.
        some (create_process (init_scheduler dummy_memory) 1 args none none memory []))
      (split_args-join_args (shell_name ∷ []) more
        ((omega arith, (omega arith, (omega arith, (omega arith, (omega arith, tt))))), tt))

-- `main` creates the shell as process 1, ready and of priority 1, with its name as the only argument,
-- and leaves the scheduler valid; and whatever the stack pointer is, the first switch goes on with the
-- shell, on the stack at the top of its memory, and leaves the scheduler valid. This is so where the
-- memory of the shell's node is null at `next`, which the code leaves unset.
pub start_shell_runs :
    (dummy_memory memory sp : ℕ) (more : List ℕ) (behind : List Pcb)
    → behind ≡ []
    → (s : Scheduler) × (start_shell dummy_memory memory more behind ≡ some (s, 1))
      × IsValid s
      × (s.processes ≡ shell memory ∷ [])
      × ((s' : Scheduler) × (switch_process s sp
            ≡ some (s', init_process (memory + default_program_size)))
          × (s'.current ≡ running 1)
          × IsValid s')
unfolding create_process init_scheduler load_process new_process
start_shell_runs dummy_memory memory sp more behind null =
    let s = with_shell dummy_memory memory in
    let v =
      (create_process-IsValid (init_scheduler dummy_memory) 1 (shell_name ∷ []) none none memory []
        (λ e. refl) (omega arith) (omega arith) (init-IsValid dummy_memory)).0 in
    let s' : Scheduler = record s { first_process = 0; current = running 1 } in
    let switched = first_switch s sp (shell memory) [] refl refl in
    (
      s,
      ap (start_shell dummy_memory memory more) null
          ∙ start_shell-with_shell dummy_memory memory more,
      v,
      refl,
      (
        s',
        switched,
        refl,
        switch_process_keeps s s' sp (init_process (memory + default_program_size)) v switched,
      ),
    )
