-- ===== src/Kernel/Events.antt =====
-- What happens to the kernel: its interrupts and system calls as events, and one step for each.
pub mod Invariant
use bit_shell_os.Base.{
  ℕ, Bool, true, false, Option, none, some, List, [], ◌∷◌, ◌==◌, if◌then◌else◌, ◌>>=◌, take,
}
use bit_shell_os.Process.{Pcb}
use bit_shell_os.Scheduler.{
  Scheduler, create_process, current_process, switch_process, exit_current_process, kill_pid,
  change_process_priority, change_process_state, block_current_process, wake, get_current_stdin,
  get_current_stdout,
}
use bit_shell_os.Semaphores.{
  sem_open, sem_close, Semaphore, Semaphores, Outcome, spins, faults, done, WaitResult, spinning,
  refused, blocked, acquired, wait_turn, sem_wait, PostResult, post_spins, nobody, woke, sem_post,
  delete_process_from_semaphores,
}
use bit_shell_os.Pipes.{pipe_write, pipe_read, finish_read, resume_write}
use bit_shell_os.Pipes
use bit_shell_os.PipeTable.{
  Closed, create_pipe, open_pipe_id, update, close_fd_pipe, delete_process_from_pipes,
}
use bit_shell_os.PipeTable
use bit_shell_os.Console.{Console, print_text}
use bit_shell_os.Timer.{Timer, add_to_queue, timer_handler}
use bit_shell_os.Keyboard.{Keyboard, wait_for_keyboard, keyboard_handler}
use bit_shell_os.Kernel.{
  Kernel, Served, served, with_scheduler, wake_each, wake_any, timer_interrupt, keyboard_interrupt,
  forget_gone, kill_process, close_fd, exit, sleep, wait_key,
}
use bit_shell_os.Kernel.Calls.{
  find_at, put_at, with_semaphore, waited, wait_by, sem_wait_call, sem_wait_resumed, posted,
  sem_post_call, transferred, pipe_by, before_zero, write, settled, sem_open_call, sem_close_call,
  create_pipe_call, open_pipe_call,
}

pub data Event : Type 0 where
  timer_tick : ℕ → Event
  key_event : ℕ → Event
  create_call : ℕ → List (List ℕ) → Option ℕ → Option ℕ → ℕ → List Pcb → Event
  exit_call : Event
  kill_call : ℕ → Event
  priority_call : ℕ → ℕ → Event
  state_call : ℕ → Event
  sleep_call : ℕ → Event
  wait_key_call : Event
  wait_call : ℕ → Event
  wait_resumed : ℕ → Event
  post_call : ℕ → Event
  close_fd_call : ℕ → Event
  pipe_write_call : ℕ → List ℕ → Event
  pipe_read_call : ℕ → Bool → Event
  pipe_read_resumed : ℕ → Bool → Event
  pipe_write_resumed : ℕ → ℕ → List ℕ → Event
  write_event : List ℕ → ℕ → Event
  sem_open_event : ℕ → ℕ → Option ℕ → List ℕ → Event
  sem_close_event : ℕ → Event
  create_pipe_event : ℕ → ℕ → Option ℕ → Event
  open_pipe_event : ℕ → ℕ → Bool → Option ℕ → Event

-- `runScheduler` follows where `yields` is true.
unfoldable pub step : ℕ → Event → Kernel → Outcome Served
unfolding served timer_interrupt keyboard_interrupt exit kill_process sleep wait_key close_fd
step at_null (timer_tick sp) k = served false (timer_interrupt sp k >>= λ (k', next). some k')
step at_null (key_event key) k = served false (some (keyboard_interrupt key k))
step at_null (create_call priority args input output memory behind) k = served false (
    some (with_scheduler k (create_process k.scheduler priority args input output memory behind).0))
step at_null exit_call k = served true (exit at_null k)
step at_null (kill_call pid) k = served false (some (kill_process at_null pid k))
step at_null (priority_call pid new) k =
    served false (change_process_priority pid new k.scheduler >>= λ s. some (with_scheduler k s))
step at_null (state_call pid) k = elim (change_process_state pid k.scheduler) [
  | none ↦ faults
  | some (s, y) ↦ served y (some (with_scheduler k s))
]
step at_null (sleep_call seconds) k = served true (sleep seconds k)
step at_null wait_key_call k = served true (wait_key k)
step at_null (wait_call a) k = sem_wait_call a k
step at_null (wait_resumed a) k = sem_wait_resumed a k
step at_null (post_call a) k = sem_post_call a k
step at_null (close_fd_call fd) k = served false (some (close_fd (some fd) k))
step at_null (pipe_write_call fd cs) k = pipe_by (λ cur d p. pipe_write cur d cs p) fd k
step at_null (pipe_read_call fd one) k = pipe_by (λ cur d p. pipe_read cur d one p) fd k
step at_null (pipe_read_resumed fd one) k = pipe_by (λ cur d p. finish_read one p) fd k
step at_null (pipe_write_resumed fd total cs) k =
    pipe_by (λ cur d p. resume_write cur total cs p) fd k
step at_null (write_event buf count) k = write buf count k
step at_null (sem_open_event id value allocated garbage) k =
    sem_open_call id value allocated garbage k
step at_null (sem_close_event a) k = sem_close_call a k
step at_null (create_pipe_event f0 f1 allocated) k = create_pipe_call f0 f1 allocated k
step at_null (open_pipe_event fd id reader allocated) k = open_pipe_call fd id reader allocated k
