-- ===== src/Kernel/Calls/Serves.antt =====
-- The scheduler behind the system calls on semaphores, pipes and the screen (Kernel/utils/semaphore.c
-- and pipes.c).
use bit_shell_os.Base.{ℕ, refl, Bool, true, false, Option, none, some, List, Option-cases, inl, inr}
use bit_shell_os.Scheduler.{current_process, get_current_stdout}
use bit_shell_os.Scheduler.Invariant.{wake-IsValid, Stands, Stands-Spares}
use bit_shell_os.Semaphores.{
  Semaphores, sem_open, sem_close, Semaphore, Outcome, spins, faults, done, WaitResult, spinning,
  refused, blocked, acquired, wait_turn, sem_wait, PostResult, post_spins, nobody, woke, sem_post,
}
use bit_shell_os.Pipes
use bit_shell_os.PipeTable.{create_pipe, open_pipe_id}
use bit_shell_os.Kernel.{Kernel, served}
use bit_shell_os.Kernel.Calls.{
  find_at, waited, wait_by, sem_wait_call, sem_wait_resumed, posted, sem_post_call, transferred,
  pipe_by, before_zero, write, settled, sem_open_call, sem_close_call, create_pipe_call,
  open_pipe_call,
}
use bit_shell_os.Kernel.Processes.{IsSound, Serves, block-Sound, served-Serves, wake_any-IsValid}

pub waited-Serves : (k : Kernel) (r : WaitResult) → IsSound k → Serves (waited k r)
unfolding waited
waited-Serves k spinning v = tt
waited-Serves k refused v = v
waited-Serves k acquired v = v
waited-Serves k blocked v = served-Serves true _ (block-Sound k _ (λ s pid. refl) v)

pub wait_by-Serves :
    (turn : ℕ → Semaphore → Semaphore × WaitResult) (a : ℕ) (k : Kernel)
    → IsSound k
    → Serves (wait_by turn a k)
unfolding wait_by
wait_by-Serves turn a k v = elim (Option-cases (current_process k.scheduler)) [
  | inl fault ↦ rw (fault, wait_by) tt
  | inr (c, e) ↦ elim (Option-cases (find_at a k.semaphores.entries)) [
    | inl unknown ↦ rw (e, unknown, wait_by) tt
    | inr (s, found) ↦ rw (e, found, wait_by) (waited-Serves _ (turn c.pid s).1 v)
  ]
]

pub sem_wait_call-Serves : (a : ℕ) (k : Kernel) → IsSound k → Serves (sem_wait_call a k)
unfolding sem_wait_call
sem_wait_call-Serves a k v = wait_by-Serves sem_wait a k v

pub posted-Serves :
    (k : Kernel) (r : PostResult) → Stands k.scheduler.current → IsSound k → Serves (posted k r)
unfolding posted
posted-Serves k post_spins h v = tt
posted-Serves k nobody h v = v
posted-Serves k (woke pid) h v =
    wake-IsValid pid k.scheduler (Stands-Spares k.scheduler.current pid h) v

pub sem_post_call-Serves :
    (a : ℕ) (k : Kernel) → Stands k.scheduler.current → IsSound k → Serves (sem_post_call a k)
unfolding sem_post_call
sem_post_call-Serves a k h v = elim (Option-cases (find_at a k.semaphores.entries)) [
  | inl unknown ↦ rw (unknown, sem_post_call) tt
  | inr (s, found) ↦ rw (found, sem_post_call) (posted-Serves _ (sem_post s).1 h v)
]

pub transferred-Serves :
    (k : Kernel) (o : Pipes.Outcome)
    → Stands k.scheduler.current
    → IsSound k
    → Serves (transferred k o)
unfolding transferred
transferred-Serves k (Pipes.wrote n w) h v = wake_any-IsValid w k.scheduler h v
transferred-Serves k (Pipes.got cs w) h v = wake_any-IsValid w k.scheduler h v
transferred-Serves k (Pipes.got_one c w) h v = wake_any-IsValid w k.scheduler h v
transferred-Serves k (Pipes.write_blocks cs) h v =
    served-Serves true _ (block-Sound k _ (λ s pid. refl) v)
transferred-Serves k Pipes.read_blocks h v =
    served-Serves true _ (block-Sound k _ (λ s pid. refl) v)
transferred-Serves k Pipes.refused h v = v
transferred-Serves k Pipes.nothing h v = v

pub pipe_by-Serves :
    (call : ℕ → Pipes.FdPipe → Pipes.Pipe → Pipes.Pipe × Pipes.Outcome) (fd : ℕ) (k : Kernel)
    → Stands k.scheduler.current
    → IsSound k
    → Serves (pipe_by call fd k)
unfolding pipe_by
pipe_by-Serves call fd k h v = elim (Option-cases (current_process k.scheduler)) [
  | inl fault ↦ rw (fault, pipe_by) tt
  | inr (c, e) ↦
      let d = k.pipes.fds fd in
      rw (e, pipe_by) (transferred-Serves _ (call c.pid d (k.pipes.store d.pipe)).1 h v)
]

pub write-Serves :
    (buf : List ℕ) (count : ℕ) (k : Kernel)
    → Stands k.scheduler.current
    → IsSound k
    → Serves (write buf count k)
unfolding write
write-Serves buf count k h v = elim (Option-cases (get_current_stdout k.scheduler)) [
  | inl fault ↦ rw (fault, write) tt
  | inr (none, e) ↦ rw (e, write) v
  | inr (some fd, e) ↦
      rw (e, write)
        (pipe_by-Serves (λ cur d p. Pipes.pipe_write cur d (before_zero buf) p) fd k h v)
]

pub settled-Serves :
    {A : Type 0} (k : Kernel) (o : Outcome (Semaphores × A)) → IsSound k → Serves (settled k o)
unfolding settled
settled-Serves k spins v = tt
settled-Serves k faults v = tt
settled-Serves k (done (t, r)) v = v

pub sem_close_call-Serves : (a : ℕ) (k : Kernel) → IsSound k → Serves (sem_close_call a k)
unfolding sem_close_call served
sem_close_call-Serves a k v = elim (Option-cases (find_at a k.semaphores.entries)) [
  | inl unknown ↦ rw (unknown, sem_close_call) tt
  | inr (s, found) ↦ rw (found, sem_close_call) (settled-Serves k (sem_close k.semaphores s) v)
]

pub create_pipe_call-Serves :
    (f0 f1 : ℕ) (allocated : Option ℕ) (k : Kernel)
    → IsSound k
    → Serves (create_pipe_call f0 f1 allocated k)
unfolding create_pipe_call served
create_pipe_call-Serves f0 f1 allocated k v =
    served-Serves false _ (elim (Option-cases (create_pipe k.pipes f0 f1 allocated)) [
      | inl fault ↦ rw fault tt
      | inr ((t, made), e) ↦ rw e v
    ])

pub open_pipe_call-Serves :
    (fd id : ℕ) (reader : Bool) (allocated : Option ℕ) (k : Kernel)
    → IsSound k
    → Serves (open_pipe_call fd id reader allocated k)
unfolding open_pipe_call served
open_pipe_call-Serves fd id reader allocated k v =
    served-Serves false _ (elim (Option-cases (open_pipe_id k.pipes fd id reader allocated)) [
      | inl fault ↦ rw fault tt
      | inr ((t, r), e) ↦ rw e v
    ])

pub sem_open_call-Serves :
    (id value : ℕ) (allocated : Option ℕ) (garbage : List ℕ) (k : Kernel)
    → IsSound k
    → Serves (sem_open_call id value allocated garbage k)
unfolding sem_open_call
sem_open_call-Serves id value allocated garbage k v =
    settled-Serves k (sem_open k.semaphores id value allocated garbage) v

pub sem_wait_resumed-Serves : (a : ℕ) (k : Kernel) → IsSound k → Serves (sem_wait_resumed a k)
unfolding sem_wait_resumed
sem_wait_resumed-Serves a k v = wait_by-Serves wait_turn a k v
