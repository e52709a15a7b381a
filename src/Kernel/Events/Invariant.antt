-- ===== src/Kernel/Events/Invariant.antt =====
-- The invariant of the scheduler under everything that the kernel does (Kernel/interruptions and
-- Kernel/utils).
use bit_shell_os.Base.{
  ℕ, ◌+◌, ◌^◌, ◌≤◌, ◌<◌, ◌≡◌, sym, subst, true, false, some, Option-cases, inl, inr, All, [],
}
use bit_shell_os.Scheduler.{init_scheduler, change_process_priority, change_process_state}
use bit_shell_os.Scheduler.Invariant.{
  IsValid, init-IsValid, create_process-IsValid, change_process_state-IsValid, Stands, Spares,
}
use bit_shell_os.Scheduler.Priority.{change_process_priority-valid}
use bit_shell_os.Semaphores.{done}
use bit_shell_os.Timer.{timer_handler}
use bit_shell_os.Pipes
use bit_shell_os.Kernel.{Kernel, Served, served}
use bit_shell_os.Kernel.Events.{
  Event, step, timer_tick, key_event, create_call, exit_call, kill_call, priority_call, state_call,
  sleep_call, wait_key_call, wait_call, wait_resumed, post_call, close_fd_call, pipe_write_call,
  pipe_read_call, pipe_read_resumed, pipe_write_resumed, write_event, sem_open_event,
  sem_close_event, create_pipe_event, open_pipe_event,
}
use bit_shell_os.Kernel.Processes.{
  IsSound, Serves, served-Serves, timer_interrupt-Sound, kill_process-IsSound, close_fd-IsSound,
  exit-Sound, sleep-Sound, wait_key-Sound, keyboard_interrupt-IsSound,
}
use bit_shell_os.Kernel.Calls.Serves.{
  sem_wait_call-Serves, sem_post_call-Serves, pipe_by-Serves, write-Serves, sem_close_call-Serves,
  create_pipe_call-Serves, open_pipe_call-Serves, sem_open_call-Serves, sem_wait_resumed-Serves,
}

-- What is asked of an event. A process is created with a priority from 1 on, while the pid counter
-- does not wrap; the memory of the first one's node is null where its `next` stands. A current process
-- that is gone, but for its freed node, makes no call, and of the interrupts only the timer's comes
-- then, which does not find the end of a sleep of that process.
abbrev pub IsLegal : Event → Kernel → Type 0
IsLegal (timer_tick sp) k = All (Spares k.scheduler.current) (timer_handler k.timer).1
IsLegal (create_call priority args input output memory behind) k =
    Stands k.scheduler.current
    × (k.scheduler.processes ≡ [] → behind ≡ [])
    × (1 ≤ priority)
    × (k.scheduler.next_pid + 1 < 2 ^ 32)
IsLegal e k = Stands k.scheduler.current

step-Serves :
    (at_null : ℕ) (e : Event) (k : Kernel) → IsLegal e k → IsSound k → Serves (step at_null e k)
unfolding step served
step-Serves at_null (timer_tick sp) k l v = served-Serves false _ (timer_interrupt-Sound sp k l v)
step-Serves at_null (key_event key) k l v = keyboard_interrupt-IsSound key k l v
step-Serves at_null (create_call priority args input output memory behind) k l v =
    (create_process-IsValid k.scheduler priority args input output memory behind l.1 l.2 l.3 v).0
step-Serves at_null exit_call k l v = served-Serves true _ (exit-Sound at_null k l v)
step-Serves at_null (kill_call pid) k l v = kill_process-IsSound at_null pid k v
step-Serves at_null (priority_call pid new) k l v =
    served-Serves false _ (elim (Option-cases (change_process_priority pid new k.scheduler)) [
      | inl fault ↦ rw fault tt
      | inr (s, e) ↦ rw e (change_process_priority-valid pid new k.scheduler s v e)
    ])
step-Serves at_null (state_call pid) k l v =
    elim (Option-cases (change_process_state pid k.scheduler)) [
      | inl fault ↦ rw (fault, step) tt
      | inr ((s, y), e) ↦ rw (e, step) (change_process_state-IsValid pid k.scheduler s y v e)
    ]
step-Serves at_null (sleep_call seconds) k l v = served-Serves true _ (sleep-Sound seconds k v)
step-Serves at_null wait_key_call k l v = served-Serves true _ (wait_key-Sound k v)
step-Serves at_null (wait_call a) k l v = sem_wait_call-Serves a k v
step-Serves at_null (wait_resumed a) k l v = sem_wait_resumed-Serves a k v
step-Serves at_null (post_call a) k l v = sem_post_call-Serves a k l v
step-Serves at_null (close_fd_call fd) k l v = close_fd-IsSound (some fd) k l v
step-Serves at_null (pipe_write_call fd cs) k l v =
    pipe_by-Serves (λ cur d p. Pipes.pipe_write cur d cs p) fd k l v
step-Serves at_null (pipe_read_call fd one) k l v =
    pipe_by-Serves (λ cur d p. Pipes.pipe_read cur d one p) fd k l v
step-Serves at_null (pipe_read_resumed fd one) k l v =
    pipe_by-Serves (λ cur d p. Pipes.finish_read one p) fd k l v
step-Serves at_null (pipe_write_resumed fd total cs) k l v =
    pipe_by-Serves (λ cur d p. Pipes.resume_write cur total cs p) fd k l v
step-Serves at_null (write_event buf count) k l v = write-Serves buf count k l v
step-Serves at_null (sem_open_event id value allocated garbage) k l v =
    sem_open_call-Serves id value allocated garbage k v
step-Serves at_null (sem_close_event a) k l v = sem_close_call-Serves a k v
step-Serves at_null (create_pipe_event f0 f1 allocated) k l v =
    create_pipe_call-Serves f0 f1 allocated k v
step-Serves at_null (open_pipe_event fd id reader allocated) k l v =
    open_pipe_call-Serves fd id reader allocated k v

-- The states that the kernel comes to from its start by legal events.
pub data Reach (at_null memory : ℕ) : Kernel → Type 0 where
  boots : (k : Kernel) → k.scheduler ≡ init_scheduler memory → Reach at_null memory k
  after :
      (k : Kernel) (e : Event) (r : Served)
      → Reach at_null memory k
      → IsLegal e k
      → step at_null e k ≡ done r
      → Reach at_null memory r.kernel

-- From the state that `initScheduler` leaves, the interrupts and system calls keep the scheduler
-- valid, under these conditions on them: processes are created with a priority from 1 on and while the
-- pid counter does not wrap; a first process finds null in its node's memory where `next` stands; and
-- while the current process is gone, only a timer interrupt comes, which wakes no sleep of that
-- process. The node of a process that is gone is taken not to be given away again by alloc while a
-- pointer to it is left. Valid means that the pids are distinct and were given out, the list behind its head is
-- sorted by priority, each level is between 1 and the priority, and the current process is in the list
-- unless it is gone and not ready.
pub Reach-IsSound : (at_null memory : ℕ) (k : Kernel) → Reach at_null memory k → IsSound k
Reach-IsSound at_null memory _ (boots k e) = subst IsValid (sym e) (init-IsValid memory)
Reach-IsSound at_null memory _ (after k₀ e r before legal result) =
    subst Serves result (step-Serves at_null e k₀ legal (Reach-IsSound at_null memory k₀ before))
