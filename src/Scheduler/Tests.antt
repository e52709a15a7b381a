-- ===== src/Scheduler/Tests.antt =====
-- The shell, a worker and their switches.
use bit_shell_os.Base.{
  ℕ, ◌+◌, ◌*◌, ◌≤◌, ◌<◌, ◌≡◌, ◌≢◌, refl, none, some, true, false, [], ◌∷◌, All, ◌⊎◌, arith,
}
use bit_shell_os.Process.{Pcb, is_ready, new_process, get_pcb, tail}
use bit_shell_os.Scheduler.{
  idle, running, Scheduler, create_process, current_process, after_current, pick, switch_process,
  kill_pid, change_process_priority,
}
use bit_shell_os.Scheduler.Lists.{Absent}
use bit_shell_os.Scheduler.Invariant.{IsValid, create_process-IsValid}
use bit_shell_os.Scheduler.Choice.{Yields, pick_serves, pick_faults}
use bit_shell_os.Scheduler.Switch.{Resumes, switch_process-IsValid}
use bit_shell_os.Scheduler.Removal.{kill_pid-IsValid}
use bit_shell_os.Scheduler.Priority.{change_process_priority-IsValid}

abbrev process : ℕ → ℕ → ℕ → Pcb
process pid priority pstate = record {
  args = [];
  pid = pid;
  pstate = pstate;
  priority = priority;
  aux_priority = priority;
  sp = 1000 * pid;
  bp = 1000 * pid + 96;
  process_memory = 500 * pid;
  custom_stdin = none;
  custom_stdout = none;
}

abbrev shell : Pcb
shell = process 1 1 1

abbrev worker : Pcb
worker = process 2 3 1

-- The worker runs in the background of the shell.
abbrev busy : Scheduler
busy = record {
  quantum = 0;
  priority_quantum = 5;
  fg_taken = 0;
  current = running 2;
  processes = shell ∷ worker ∷ [];
  dummy = process 0 1 1;
  first_process = 0;
  next_pid = 3;
}

busy-IsValid : IsValid busy
unfolding get_pcb tail
busy-IsValid = record {
  processes_ok = ground arith;
  distinct = ground arith;
  sorted = ground arith;
  points = (worker, refl);
  dummy_pid = refl;
  no_quantum = refl;
  counter = omega arith;
}

create_process-IsValid_example :
    IsValid (create_process busy 4 [] none none 9000 []).0
    × Absent 3 busy.processes
    × (get_pcb 3 (create_process busy 4 [] none none 9000 []).0.processes
        ≡ some (new_process 3 4 [] none none 9000))
unfolding create_process
create_process-IsValid_example =
    create_process-IsValid busy 4 [] none none 9000 [] (λ e. refl) (omega arith) (omega arith)
      busy-IsValid

shell_picked : pick busy worker ≡ some (some shell)
unfolding pick
shell_picked = refl

pick_serves_example :
    ((some shell ≡ none) × All (λ q. is_ready q ≡ false) (after_current busy))
    ⊎ ((p : Pcb) × (some shell ≡ some p)
        × (is_ready p ≡ true)
        × All (Yields p) (after_current busy))
pick_serves_example = pick_serves busy worker (some shell) shell_picked

-- The worker has been stopped at 7000, and the shell runs.
abbrev switched : Scheduler
switched = record busy {
  priority_quantum = 4;
  current = running 1;
  processes = shell ∷ record worker { sp = 7000 } ∷ [];
}

switch_busy : switch_process busy 7000 ≡ some (switched, 1000)
unfolding switch_process
switch_busy = refl

switch_process-IsValid_example : IsValid switched × Resumes switched 1000
switch_process-IsValid_example =
    switch_process-IsValid busy switched 7000 1000 refl busy-IsValid switch_busy

kill_pid-IsValid_example :
    IsValid (kill_pid 2 busy).0
    × (((2 ≤ 1) × ((kill_pid 2 busy).0 ≡ busy) × ((kill_pid 2 busy).1 ≡ none))
        ⊎ ((1 < 2)
            × (get_pcb 2 (kill_pid 2 busy).0.processes ≡ none)
            × ((kill_pid 2 busy).1 ≡ get_pcb 2 busy.processes)))
    × ((k : ℕ) → k ≢ 2 → get_pcb k (kill_pid 2 busy).0.processes ≡ get_pcb k busy.processes)
    × ((kill_pid 2 busy).0.fg_taken ≡ 0)
kill_pid-IsValid_example = kill_pid-IsValid 2 busy busy-IsValid

busy_current : current_process busy ≡ some worker
unfolding current_process
busy_current = refl

get_worker : get_pcb 2 (worker ∷ []) ≡ some worker
unfolding get_pcb
get_worker = refl

change_process_priority-IsValid_example :
    (s' : Scheduler) × (change_process_priority 2 7 busy ≡ some s')
    × IsValid s'
    × (get_pcb 2 s'.processes ≡ some (record worker { priority = 7; aux_priority = 7 }))
    × ((k : ℕ) → k ≢ 2 → get_pcb k s'.processes ≡ get_pcb k busy.processes)
change_process_priority-IsValid_example =
    change_process_priority-IsValid 2 7 busy shell worker (worker ∷ []) busy-IsValid (omega arith)
      (omega arith) (omega arith) refl (omega arith) get_worker

-- The shell is alone and a foreground process is recorded.
abbrev alone : Scheduler
alone = record busy { fg_taken = 1; current = idle; processes = shell ∷ [] }

pick_faults_example : pick alone (process 0 1 1) ≡ none
pick_faults_example = pick_faults alone (process 0 1 1) shell (omega arith) refl refl (omega arith)
