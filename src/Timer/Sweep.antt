-- ===== src/Timer/Sweep.antt =====
-- Which sleepers the timer of Kernel/interruptions/time.c wakes.
use bit_shell_os.Base.{
  ℕ, ◌≡◌, ◌≢◌, refl, ap, ◌∙◌, true, none, List, [], ◌∷◌, if◌then◌else◌, All, eq→==,
}
use bit_shell_os.Timer.{
  TimerNode, Timer, is_due, sweep, sweep_queue, timer_handler, ticks_elapsed, queue_of,
}

-- The nodes whose time has come or not, in order.
pub due_nodes : ℕ → List TimerNode → List ℕ
due_nodes now [] = []
due_nodes now (n ∷ ns) =
    let rest = due_nodes now ns in if is_due now n then n.process ∷ rest else rest

pub other_nodes : ℕ → List TimerNode → List TimerNode
other_nodes now [] = []
other_nodes now (n ∷ ns) = let rest = other_nodes now ns in if is_due now n then rest else n ∷ rest

abbrev pub NotOf : ℕ → List TimerNode → Type 0
NotOf p = All (λ n. n.process ≢ p)

-- No process has two nodes in the queue.
abbrev pub DistinctSleepers : List TimerNode → Type 0
DistinctSleepers [] = Unit {0}
DistinctSleepers (n ∷ ns) = NotOf n.process ns × DistinctSleepers ns

sweep_queue_due :
    (now : ℕ) (n : TimerNode) (ns : List TimerNode)
    → is_due now n ≡ true
    → sweep_queue now (n ∷ ns) ≡ record { woken = n.process ∷ []; left = none }
unfolding sweep_queue sweep
sweep_queue_due now n ns due = rw (due, eq→== n.process n.process refl)

-- When the newest sleeper's time comes, every other sleeper is forgotten: the queue is left empty,
-- and only the newest is woken.
pub timer_handler_forgets :
    (t : Timer) (n : TimerNode) (ns : List TimerNode)
    → t.start ≡ n ∷ ns
    → is_due (ticks_elapsed (timer_handler t).0) n ≡ true
    → ((timer_handler t).1 ≡ n.process ∷ []) × ((timer_handler t).0.start ≡ [])
unfolding timer_handler
timer_handler_forgets t n ns e due =
    let now = ticks_elapsed (timer_handler t).0 in
    let all = ap (sweep_queue now) e ∙ sweep_queue_due now n ns due in
    (ap (λ s. s.woken) all, ap (λ s. queue_of s.left) all)
