-- ===== src/Kernel/Calls.antt =====
-- The system calls on semaphores (Kernel/utils/semaphore.c), pipes (Kernel/utils/pipes.c) and the
-- screen (`write` of Kernel/interruptions/syscalls.c) over the state of the whole kernel.
pub mod Serves
pub mod Handover
use bit_shell_os.Base.{
  ℕ, Bool, true, false, Option, none, some, List, [], ◌∷◌, ◌==◌, if◌then◌else◌, ◌>>=◌, take,
}
use bit_shell_os.Process.{Pcb}
use bit_shell_os.Scheduler.{
  Scheduler, create_process, current_process, switch_process, exit_current_process, kill_pid,
  change_process_priority, change_process_state, block_current_process, wake, get_current_stdin,
  get_current_stdout,
}
use bit_shell_os.Semaphores.{
  sem_open, sem_close, Semaphore, Semaphores, Outcome, spins, faults, done, WaitResult, spinning,
  refused, blocked, acquired, wait_turn, sem_wait, PostResult, post_spins, nobody, woke, sem_post,
  delete_process_from_semaphores,
}
use bit_shell_os.Pipes.{pipe_write, pipe_read, finish_read}
use bit_shell_os.Pipes
use bit_shell_os.PipeTable.{
  Closed, create_pipe, open_pipe_id, update, close_fd_pipe, delete_process_from_pipes,
}
use bit_shell_os.PipeTable
use bit_shell_os.Console.{Console, print_text}
use bit_shell_os.Timer.{Timer, add_to_queue, timer_handler}
use bit_shell_os.Keyboard.{Keyboard, wait_for_keyboard, keyboard_handler}
use bit_shell_os.Kernel.{
  Kernel, Served, served, with_scheduler, wake_each, wake_any, timer_interrupt, keyboard_interrupt,
  forget_gone, kill_process, close_fd, exit, sleep, wait_key,
}

-- The semaphore at an address, and a change of it in its place.
unfoldable pub find_at : ℕ → List Semaphore → Option Semaphore
find_at a [] = none
find_at a (s ∷ ss) = if s.address == a then some s else find_at a ss

pub put_at : ℕ → Semaphore → List Semaphore → List Semaphore
put_at a s [] = []
put_at a s (r ∷ rs) = if r.address == a then s ∷ rs else r ∷ put_at a s rs

abbrev pub with_semaphore : ℕ → Semaphore → Kernel → Kernel
unfolding put_at
with_semaphore a s k = record k {
  semaphores = record k.semaphores { entries = put_at a s k.semaphores.entries };
}

-- What the wait of a process does to the others.
pub waited : Kernel → WaitResult → Outcome Served
unfolding served
waited k spinning = spins
waited k refused = served false (some k)
waited k acquired = served false (some k)
waited k blocked =
    served true (block_current_process k.scheduler >>= λ (s, pid). some (with_scheduler k s))

-- A turn of `sem_wait` of the current process at the semaphore of an address.
pub wait_by : (ℕ → Semaphore → Semaphore × WaitResult) → ℕ → Kernel → Outcome Served
unfolding find_at waited put_at
wait_by turn a k = elim (current_process k.scheduler) [
  | none ↦ faults
  | some c ↦ (elim (find_at a k.semaphores.entries) [
    | none ↦ faults
    | some s ↦ (let (s', r) = turn c.pid s in waited (with_semaphore a s' k) r)
  ])
]

pub sem_wait_call : ℕ → Kernel → Outcome Served
unfolding wait_by
sem_wait_call = wait_by sem_wait

-- What a resumed waiter goes on with.
pub sem_wait_resumed : ℕ → Kernel → Outcome Served
unfolding wait_by
sem_wait_resumed = wait_by wait_turn

pub posted : Kernel → PostResult → Outcome Served
unfolding served
posted k post_spins = spins
posted k nobody = served false (some k)
posted k (woke pid) = served false (some (with_scheduler k (wake pid k.scheduler)))

pub sem_post_call : ℕ → Kernel → Outcome Served
unfolding find_at posted put_at
sem_post_call a k = elim (find_at a k.semaphores.entries) [
  | none ↦ faults
  | some s ↦ (let (s', r) = sem_post s in posted (with_semaphore a s' k) r)
]

-- The pipe of a descriptor is changed, and the outcome wakes a process or blocks the current one.
pub transferred : Kernel → Pipes.Outcome → Outcome Served
unfolding served wake_any
transferred k (Pipes.wrote n woken) =
    served false (some (with_scheduler k (wake_any woken k.scheduler)))
transferred k (Pipes.got cs woken) =
    served false (some (with_scheduler k (wake_any woken k.scheduler)))
transferred k (Pipes.got_one c woken) =
    served false (some (with_scheduler k (wake_any woken k.scheduler)))
transferred k (Pipes.write_blocks cs) =
    served true (block_current_process k.scheduler >>= λ (s, pid). some (with_scheduler k s))
transferred k Pipes.read_blocks =
    served true (block_current_process k.scheduler >>= λ (s, pid). some (with_scheduler k s))
transferred k Pipes.refused = served false (some k)
transferred k Pipes.nothing = served false (some k)

-- A call on the pipe of a descriptor by the current process.
pub pipe_by :
    (ℕ → Pipes.FdPipe → Pipes.Pipe → Pipes.Pipe × Pipes.Outcome) → ℕ → Kernel → Outcome Served
unfolding transferred
pipe_by call fd k = elim (current_process k.scheduler) [
  | none ↦ faults
  | some c ↦
      (let d = k.pipes.fds fd in
        let (p, o) = call c.pid d (k.pipes.store d.pipe) in
        transferred (record k { pipes = record k.pipes { store = update k.pipes.store d.pipe p } })
          o)
]

-- The characters of an area before the first 0.
pub before_zero : List ℕ → List ℕ
before_zero [] = []
before_zero (c ∷ cs) = if c == 0 then [] else c ∷ before_zero cs

-- `write`: to the screen, `count` characters; to a pipe, those before the 0.
pub write : List ℕ → ℕ → Kernel → Outcome Served
unfolding pipe_by before_zero served
write buf count k = elim (get_current_stdout k.scheduler) [
  | none ↦ faults
  | some none ↦ served false (some (record k { console = print_text (take count buf) k.console }))
  | some (some fd) ↦ pipe_by (λ cur d p. pipe_write cur d (before_zero buf) p) fd k
]

-- The calls that make and drop semaphores and pipes.
pub settled : {A : Type 0} → Kernel → Outcome (Semaphores × A) → Outcome Served
unfolding served
settled k spins = spins
settled k faults = faults
settled k (done (t, r)) = served false (some (record k { semaphores = t }))

pub sem_open_call : ℕ → ℕ → Option ℕ → List ℕ → Kernel → Outcome Served
unfolding settled
sem_open_call id value allocated garbage k =
    settled k (sem_open k.semaphores id value allocated garbage)

pub sem_close_call : ℕ → Kernel → Outcome Served
unfolding settled find_at
sem_close_call a k = elim (find_at a k.semaphores.entries) [
  | none ↦ faults
  | some s ↦ settled k (sem_close k.semaphores s)
]

pub create_pipe_call : ℕ → ℕ → Option ℕ → Kernel → Outcome Served
unfolding served
create_pipe_call f0 f1 allocated k =
    served false
      (create_pipe k.pipes f0 f1 allocated >>= λ (t, made). some (record k { pipes = t }))

pub open_pipe_call : ℕ → ℕ → Bool → Option ℕ → Kernel → Outcome Served
unfolding served
open_pipe_call fd id reader allocated k =
    served false
      (open_pipe_id k.pipes fd id reader allocated >>= λ (t, r). some (record k { pipes = t }))
