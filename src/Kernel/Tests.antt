-- ===== src/Kernel/Tests.antt =====
-- A shell that waits at a semaphore while a worker posts to it.
use bit_shell_os.Base.{
  ℕ, ◌+◌, ◌*◌, ◌≡◌, ◌≢◌, refl, none, some, List, [], ◌∷◌, ◌++◌, ◌⊎◌, replicate, length-replicate,
  arith, true, false,
}
use bit_shell_os.Process.{Pcb, get_pcb, set_state, tail}
use bit_shell_os.Scheduler.{Scheduler, running, init_scheduler, create_process}
use bit_shell_os.Scheduler.Invariant.{IsValid, Stands}
use bit_shell_os.Scheduler.States.{state_of}
use bit_shell_os.Semaphores.{Semaphore, done}
use bit_shell_os.Semaphores.Queue
use bit_shell_os.Semaphores.Queue.{waiters}
use bit_shell_os.Pipes
use bit_shell_os.Timer.{timer_handler, sweep_queue}
use bit_shell_os.Keyboard.{init_waiting, keyboard_handler}
use bit_shell_os.Kernel.{Kernel, timer_interrupt, keyboard_interrupt, kill_process}
use bit_shell_os.Kernel.Calls.{find_at, sem_wait_call, sem_post_call}
use bit_shell_os.Kernel.Events.{step, key_event, create_call, kill_call}
use bit_shell_os.Kernel.Processes.{IsSound, wake_any-Stands}
use bit_shell_os.Kernel.Events.Invariant.{Reach, boots, after, Reach-IsSound}
use bit_shell_os.Kernel.Calls.Handover.{sem_wait_call_hands_over, sem_post_call_wakes}

abbrev process : ℕ → ℕ → Pcb
process pid pstate = record {
  args = [];
  pid = pid;
  pstate = pstate;
  priority = pid;
  aux_priority = pid;
  sp = 1000 * pid;
  bp = 1000 * pid + 96;
  process_memory = 500 * pid;
  custom_stdin = none;
  custom_stdout = none;
}

abbrev no_pipe : Pipes.Pipe
no_pipe = record {
  id = 0;
  content = [];
  read_pos = 0;
  write_pos = 0;
  read_open = 0;
  write_open = 0;
  bytes_to_read = 0;
  waiting_process = none;
}

abbrev kernel_with : Scheduler → List Semaphore → Kernel
kernel_with s sems = record {
  scheduler = s;
  semaphores = record { entries = sems; mutex_sem = 0 };
  pipes = record {
    table = [];
    store = λ a. no_pipe;
    fds = λ a. record { readable = 0; writable = 0; pipe = 0 };
    pipe_ids = 0;
  };
  timer = record { ticks = 5; start = [] };
  keyboard = record { actual_key = 0; waiting = init_waiting };
  console = record { cells = []; offset = 0; cursor = 0 };
}

abbrev booted : Kernel
booted = kernel_with (init_scheduler 4096) []

abbrev with_shell : Kernel
with_shell = record booted {
  scheduler = (create_process booted.scheduler 1 [] none none 8192 []).0;
}

start-Reach : Reach 0 4096 with_shell
unfolding step init_scheduler
start-Reach =
    after booted (create_call 1 [] none none 8192 [])
      (record { kernel = with_shell; yields = false }) (boots booted refl)
      (tt, (λ e. refl), omega arith, omega arith) refl

shell-Stands : Stands with_shell.scheduler.current
unfolding create_process init_scheduler
shell-Stands = tt

key-Stands : Stands (keyboard_interrupt 30 with_shell).scheduler.current
unfolding keyboard_interrupt
key-Stands =
    wake_any-Stands (keyboard_handler 30 with_shell.keyboard).1 with_shell.scheduler shell-Stands

-- The shell is created, a key comes, and a kill of the shell is turned away.
later-Reach : Reach 0 4096 (kill_process 0 1 (keyboard_interrupt 30 with_shell))
unfolding step
later-Reach =
    after (keyboard_interrupt 30 with_shell) (kill_call 1)
      (record { kernel = kill_process 0 1 (keyboard_interrupt 30 with_shell); yields = false })
      (after with_shell (key_event 30)
        (record { kernel = keyboard_interrupt 30 with_shell; yields = false }) start-Reach
        shell-Stands refl)
      key-Stands refl

Reach-IsSound_example : IsSound (kill_process 0 1 (keyboard_interrupt 30 with_shell))
Reach-IsSound_example =
    Reach-IsSound 0 4096 (kill_process 0 1 (keyboard_interrupt 30 with_shell)) later-Reach

abbrev two : ℕ → Scheduler
two shell_state = record {
  quantum = 0;
  priority_quantum = 5;
  fg_taken = 0;
  current = running 1;
  processes = process 1 shell_state ∷ process 2 1 ∷ [];
  dummy = process 0 1;
  first_process = 0;
  next_pid = 3;
}

two-IsValid : (st : ℕ) → IsValid (two st)
unfolding get_pcb tail
two-IsValid st = record {
  processes_ok = ground arith;
  distinct = ground arith;
  sorted = ground arith;
  points = (process 1 st, refl);
  dummy_pid = refl;
  no_quantum = refl;
  counter = omega arith;
}

abbrev sem_of : List ℕ → ℕ → Semaphore
sem_of q n = record { address = 700; id = 1; value = 0; queue = q; waiting = n; lock = 0 }

abbrev idle_sem : Semaphore
idle_sem = sem_of (replicate 10 0) 0

idle_sem-IsValid : Queue.IsValid idle_sem
idle_sem-IsValid = record { places = length-replicate {A = ℕ} 10 0; fits = omega arith }

abbrev used_sem : Semaphore
used_sem = sem_of (1 ∷ replicate 9 0) 1

used_sem-IsValid : Queue.IsValid used_sem
used_sem-IsValid = record { places = refl; fits = omega arith }

find_idle : find_at 700 (idle_sem ∷ []) ≡ some idle_sem
unfolding find_at
find_idle = refl

find_used : find_at 700 (used_sem ∷ []) ≡ some used_sem
unfolding find_at
find_used = refl

shell_at : (st : ℕ) → get_pcb 1 (two st).processes ≡ some (process 1 st)
unfolding get_pcb
shell_at st = refl

abbrev waits_now : Kernel
waits_now = kernel_with (two 1) (idle_sem ∷ [])

nobody_due : (timer_handler waits_now.timer).1 ≡ []
unfolding timer_handler sweep_queue
nobody_due = refl

sem_wait_call_hands_over_example :
    (k' : Kernel) × (sem_wait_call 700 waits_now ≡ done (record { kernel = k'; yields = true }))
    × ((s' : Semaphore) × (find_at 700 k'.semaphores.entries ≡ some s')
        × (waiters s' ≡ waiters idle_sem ++ 1 ∷ []))
    × ((timer_interrupt 5000 k' ≡ none)
        ⊎ ((k'' : Kernel) × (next : ℕ) × (timer_interrupt 5000 k' ≡ some (k'', next))
            × (k''.scheduler.current ≢ running 1)
            × (state_of 1 k''.scheduler.processes ≡ some 0)))
sem_wait_call_hands_over_example =
    sem_wait_call_hands_over 700 5000 waits_now (process 1 1) idle_sem (two-IsValid 1) refl refl
      (shell_at 1) find_idle idle_sem-IsValid refl refl (omega arith) (rw nobody_due tt)

abbrev posts_now : Kernel
posts_now = kernel_with (two 0) (used_sem ∷ [])

sem_post_call_wakes_example :
    (k' : Kernel) × (sem_post_call 700 posts_now ≡ done (record { kernel = k'; yields = false }))
    × ((s' : Semaphore) × (find_at 700 k'.semaphores.entries ≡ some s')
        × (s'.value ≡ 0 + 1)
        × (waiters s' ≡ []))
    × (get_pcb 1 k'.scheduler.processes ≡ some (set_state 1 (process 1 0)))
    × ((other : ℕ)
        → other ≢ 1
        → get_pcb other k'.scheduler.processes ≡ get_pcb other posts_now.scheduler.processes)
sem_post_call_wakes_example =
    sem_post_call_wakes 700 1 posts_now used_sem (process 1 0) [] find_used used_sem-IsValid refl
      (omega arith) refl (shell_at 0)
