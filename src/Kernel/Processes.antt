-- ===== src/Kernel/Processes.antt =====
-- The interrupts and the system calls on processes, and the scheduler behind them
-- (Kernel/interruptions and Kernel/utils/scheduler.c).
use bit_shell_os.Base.{
  ℕ, ◌≡◌, refl, sym, subst, Bool, Option, none, some, List, [], ◌∷◌, ◌>>=◌, Option-cases, inl, inr,
  All,
}
use bit_shell_os.Process.{Pcb}
use bit_shell_os.Scheduler.{
  Scheduler, Cursor, current_process, switch_process, exit_current_process, kill_pid,
  block_current_process, wake, get_current_stdin, get_current_stdout,
}
use bit_shell_os.Scheduler.Invariant.{
  IsValid, wake-IsValid, Stands, Spares, Stands-Spares, wake-current,
}
use bit_shell_os.Scheduler.Removal.{
  kill_pid-IsValid, exit_current_process-IsValid, exit_current_process-none,
  block_current_process-IsValid,
}
use bit_shell_os.Scheduler.Switch.{switch_process_keeps}
use bit_shell_os.Semaphores.{Outcome, spins, faults, done}
use bit_shell_os.PipeTable.{close_fd_pipe}
use bit_shell_os.Timer.{timer_handler}
use bit_shell_os.Keyboard.{keyboard_handler}
use bit_shell_os.Kernel.{
  Kernel, Served, served, wake_each, wake_any, timer_interrupt, keyboard_interrupt, forget_gone,
  kill_process, close_fd, exit, sleep, wait_key,
}

abbrev pub IsSound : Kernel → Type 0
IsSound k = IsValid k.scheduler

-- The same of a result that is there.
abbrev pub Sound? : Option Kernel → Type 0
Sound? none = Unit {0}
Sound? (some k) = IsSound k

abbrev pub Serves : Outcome Served → Type 0
Serves spins = Unit {0}
Serves faults = Unit {0}
Serves (done r) = IsSound r.kernel

pub served-Serves : (y : Bool) (o : Option Kernel) → Sound? o → Serves (served y o)
unfolding served
served-Serves y none h = tt
served-Serves y (some k) h = h

pub Stands-All : (c : Cursor) (pids : List ℕ) → Stands c → All (Spares c) pids
Stands-All c [] h = tt
Stands-All c (pid ∷ pids) h = (Stands-Spares c pid h, Stands-All c pids h)

pub wake_each-IsValid :
    (pids : List ℕ) (s : Scheduler)
    → All (Spares s.current) pids
    → IsValid s
    → IsValid (wake_each pids s)
unfolding wake_each
wake_each-IsValid [] s h v = v
wake_each-IsValid (pid ∷ pids) s h v =
    wake_each-IsValid pids (wake pid s)
      (subst (λ c. All (Spares c) pids) (sym (wake-current pid s h.0)) h.1)
      (wake-IsValid pid s h.0 v)

pub wake_any-IsValid :
    (w : Option ℕ) (s : Scheduler) → Stands s.current → IsValid s → IsValid (wake_any w s)
unfolding wake_any
wake_any-IsValid none s h v = v
wake_any-IsValid (some pid) s h v = wake-IsValid pid s (Stands-Spares s.current pid h) v

pub wake_any-Stands :
    (w : Option ℕ) (s : Scheduler) → Stands s.current → Stands (wake_any w s).current
unfolding wake_any
wake_any-Stands none s h = h
wake_any-Stands (some pid) s h =
    subst Stands (sym (wake-current pid s (Stands-Spares s.current pid h))) h

pub timer_interrupt-Sound :
    (sp : ℕ) (k : Kernel)
    → All (Spares k.scheduler.current) (timer_handler k.timer).1
    → IsSound k
    → Sound? (timer_interrupt sp k >>= λ (k', next). some k')
unfolding timer_interrupt
timer_interrupt-Sound sp k spared v =
    let s = wake_each (timer_handler k.timer).1 k.scheduler in
    elim (Option-cases (switch_process s sp)) [
      | inl fault ↦ rw fault tt
      | inr ((s', next), e) ↦ rw e (
          switch_process_keeps s s' sp next
            (wake_each-IsValid (timer_handler k.timer).1 k.scheduler spared v) e)
    ]

-- A block of the current process, in a state with another part changed.
module _ (k : Kernel) (f : Scheduler → ℕ → Kernel)
    (same : (s : Scheduler) (pid : ℕ) → (f s pid).scheduler ≡ s) where
  pub block-Sound :
      IsSound k → Sound? (block_current_process k.scheduler >>= λ (s, pid). some (f s pid))
  block-Sound v = elim (Option-cases (block_current_process k.scheduler)) [
    | inl fault ↦ rw fault tt
    | inr ((s, pid), e) ↦
        rw e
          (subst IsValid (sym (same s pid)) (block_current_process-IsValid k.scheduler s pid v e))
  ]

pub forget_gone_scheduler :
    (at_null : ℕ) (gone : Option Pcb) (k : Kernel)
    → (forget_gone at_null gone k).scheduler ≡ k.scheduler
unfolding forget_gone
forget_gone_scheduler at_null none k = refl
forget_gone_scheduler at_null (some p) k = refl

pub kill_process-IsSound :
    (at_null pid : ℕ) (k : Kernel) → IsSound k → IsSound (kill_process at_null pid k)
unfolding kill_process
kill_process-IsSound at_null pid k v =
    let (s, gone) = kill_pid pid k.scheduler in
    subst IsValid (sym (forget_gone_scheduler at_null gone (record k { scheduler = s })))
      (kill_pid-IsValid pid k.scheduler v).0

pub close_fd-IsSound :
    (fd : Option ℕ) (k : Kernel) → Stands k.scheduler.current → IsSound k → IsSound (close_fd fd k)
unfolding close_fd
close_fd-IsSound fd k h v = wake_any-IsValid (close_fd_pipe k.pipes fd).1.woken k.scheduler h v

close_fd-Stands :
    (fd : Option ℕ) (k : Kernel)
    → Stands k.scheduler.current
    → Stands (close_fd fd k).scheduler.current
unfolding close_fd
close_fd-Stands fd k h = wake_any-Stands (close_fd_pipe k.pipes fd).1.woken k.scheduler h

pub exit_rest-Sound :
    (at_null : ℕ) (k : Kernel)
    → IsSound k
    → Sound? (
        exit_current_process k.scheduler >>= λ (s, gone).
        some (forget_gone at_null gone (record k { scheduler = s })))
exit_rest-Sound at_null k v = elim (Option-cases (current_process k.scheduler)) [
  | inl fault ↦ rw (exit_current_process-none k.scheduler fault) tt
  | inr (c, at) ↦
      let (s, gone, e, w, away, fg) = exit_current_process-IsValid k.scheduler c v at in
      rw e (subst IsValid (sym (forget_gone_scheduler at_null gone (record k { scheduler = s }))) w)
]

pub exit-Sound :
    (at_null : ℕ) (k : Kernel) → Stands k.scheduler.current → IsSound k → Sound? (exit at_null k)
unfolding exit
exit-Sound at_null k h v = elim (Option-cases (get_current_stdin k.scheduler)) [
  | inl fault ↦ rw fault tt
  | inr (input, e) ↦
      let k₁ = close_fd input k in
      elim (Option-cases (get_current_stdout k₁.scheduler)) [
        | inl fault ↦ rw (e, fault) tt
        | inr (output, e₁) ↦
            rw (e, e₁)
              (exit_rest-Sound at_null (close_fd output k₁) (
                close_fd-IsSound output k₁ (close_fd-Stands input k h)
                  (close_fd-IsSound input k h v)))
      ]
]

pub sleep-Sound : (seconds : ℕ) (k : Kernel) → IsSound k → Sound? (sleep seconds k)
unfolding sleep
sleep-Sound seconds k v = elim (Option-cases (current_process k.scheduler)) [
  | inl fault ↦ rw fault tt
  | inr (c, e) ↦ rw e (block-Sound k _ (λ s pid. refl) v)
]

pub wait_key-Sound : (k : Kernel) → IsSound k → Sound? (wait_key k)
unfolding wait_key
wait_key-Sound k v = block-Sound k _ (λ s pid. refl) v

pub keyboard_interrupt-IsSound :
    (key : ℕ) (k : Kernel)
    → Stands k.scheduler.current
    → IsSound k
    → IsSound (keyboard_interrupt key k)
unfolding keyboard_interrupt
keyboard_interrupt-IsSound key k h v =
    wake_any-IsValid (keyboard_handler key k.keyboard).1 k.scheduler h v
