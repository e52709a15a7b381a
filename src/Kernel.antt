-- ===== src/Kernel.antt =====
-- The kernel as a whole: the interrupts of Kernel/interruptions/irqDispatcher.c and the system calls
-- of Kernel/interruptions/syscalls.c and time.c over the state of scheduler, semaphores, pipes,
-- timer, keyboard and screen together.
--
-- A call that gives up the processor (`runScheduler`) ends there with `yields`; the interrupt that
-- `runScheduler` raises is the event `timer_tick`, and what the call goes on with is a function of
-- its own. `at_null` is the word that stands where a null process pointer has its pid.
pub mod Processes
pub mod Calls
pub mod Events
mod Tests
use bit_shell_os.Base.{
  ℕ, Bool, true, false, Option, none, some, List, [], ◌∷◌, ◌==◌, if◌then◌else◌, ◌>>=◌, take,
}
use bit_shell_os.Process.{Pcb}
use bit_shell_os.Scheduler.{
  Scheduler, create_process, current_process, switch_process, exit_current_process, kill_pid,
  change_process_priority, change_process_state, block_current_process, wake, get_current_stdin,
  get_current_stdout,
}
use bit_shell_os.Semaphores.{
  sem_open, sem_close, Semaphore, Semaphores, Outcome, spins, faults, done, WaitResult, spinning,
  refused, blocked, acquired, wait_turn, sem_wait, PostResult, post_spins, nobody, woke, sem_post,
  delete_process_from_semaphores,
}
use bit_shell_os.Pipes.{pipe_write, pipe_read, finish_read}
use bit_shell_os.Pipes
use bit_shell_os.PipeTable.{
  Closed, create_pipe, open_pipe_id, update, close_fd_pipe, delete_process_from_pipes,
}
use bit_shell_os.PipeTable
use bit_shell_os.Console.{Console, print_text}
use bit_shell_os.Timer.{Timer, add_to_queue, timer_handler}
use bit_shell_os.Keyboard.{Keyboard, wait_for_keyboard, keyboard_handler}

pub record Kernel : Type 0 where
  pub scheduler : Scheduler
  pub semaphores : Semaphores
  pub pipes : PipeTable.Pipes
  pub timer : Timer
  pub keyboard : Keyboard
  pub console : Console

-- The state after a call, and whether the call now waits in `runScheduler`.
pub record Served : Type 0 where
  pub kernel : Kernel
  pub yields : Bool

-- A state, or a null pointer.
pub served : Bool → Option Kernel → Outcome Served
served y none = faults
served y (some k) = done (record { kernel = k; yields = y })

abbrev pub with_scheduler : Kernel → Scheduler → Kernel
with_scheduler k s = record k { scheduler = s }

pub wake_each : List ℕ → Scheduler → Scheduler
wake_each [] s = s
wake_each (pid ∷ pids) s = wake_each pids (wake pid s)

pub wake_any : Option ℕ → Scheduler → Scheduler
wake_any none s = s
wake_any (some pid) s = wake pid s

-- The interrupt of the timer: `timer_handler`, then `switchProcess` with the stack pointer.
pub timer_interrupt : ℕ → Kernel → Option (Kernel × ℕ)
unfolding wake_each
timer_interrupt sp k =
    let (t, woken) = timer_handler k.timer in
    switch_process (wake_each woken k.scheduler) sp >>= λ (s, next).
    some (record k { timer = t; scheduler = s }, next)

pub keyboard_interrupt : ℕ → Kernel → Kernel
unfolding wake_any
keyboard_interrupt key k =
    let (b, woken) = keyboard_handler key k.keyboard in
    record k { keyboard = b; scheduler = wake_any woken k.scheduler }

-- What `deleteProcess` does besides for the process that goes.
pub forget_gone : ℕ → Option Pcb → Kernel → Kernel
forget_gone at_null none k = k
forget_gone at_null (some p) k = record k {
  semaphores = record k.semaphores {
    entries = delete_process_from_semaphores p.pid k.semaphores.entries;
  };
  pipes = record k.pipes {
    store = delete_process_from_pipes at_null p.pid k.pipes.table k.pipes.store;
  };
}

pub kill_process : ℕ → ℕ → Kernel → Kernel
unfolding forget_gone
kill_process at_null pid k =
    let (s, gone) = kill_pid pid k.scheduler in forget_gone at_null gone (with_scheduler k s)

-- `closeFdPipe`, with the wake-up in it.
pub close_fd : Option ℕ → Kernel → Kernel
unfolding wake_any
close_fd fd k =
    let (t, closed) = close_fd_pipe k.pipes fd in
    record k { pipes = t; scheduler = wake_any closed.woken k.scheduler }

pub exit : ℕ → Kernel → Option Kernel
unfolding close_fd forget_gone
exit at_null k = get_current_stdin k.scheduler >>= λ input.
    let k₁ = close_fd input k in
    get_current_stdout k₁.scheduler >>= λ output.
    let k₂ = close_fd output k₁ in
    exit_current_process k₂.scheduler >>= λ (s, gone).
    some (forget_gone at_null gone (with_scheduler k₂ s))

pub sleep : ℕ → Kernel → Option Kernel
sleep seconds k = current_process k.scheduler >>= λ c.
    let t = add_to_queue c.pid seconds k.timer in
    block_current_process k.scheduler >>= λ (s, pid). some (record k { timer = t; scheduler = s })

-- `waitForKeyboard`.
pub wait_key : Kernel → Option Kernel
wait_key k = block_current_process k.scheduler >>= λ (s, pid). some (record k {
  scheduler = s;
  keyboard = record k.keyboard { waiting = wait_for_keyboard pid k.keyboard.waiting };
})
