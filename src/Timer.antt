-- ===== src/Timer.antt =====
-- Kernel/interruptions/time.c: the tick counter and the processes that sleep. A process pointer is
-- a pid.
pub mod Sweep
mod Tests
use bit_shell_os.Base.{
  ℕ, ◌+◌, ◌-◌, ◌/◌, ◌%◌, ◌^◌, Bool, true, false, Option, none, some, List, [], ◌∷◌, leb, ◌==◌,
  if◌then◌else◌,
}

pub record TimerNode : Type 0 where
  pub process : ℕ
  pub seconds : ℕ
  pub initial_ticks : ℕ

-- `start` is the queue, the newest node first.
pub record Timer : Type 0 where
  pub ticks : ℕ
  pub start : List TimerNode

-- As the bit pattern of an int.
unfoldable pub ticks_elapsed : Timer → ℕ
ticks_elapsed t = t.ticks % 2 ^ 32

pub seconds_elapsed : Timer → ℕ
seconds_elapsed t = (t.ticks / 18) % 2 ^ 32

-- `current` is the calling process.
pub add_to_queue : ℕ → ℕ → Timer → Timer
unfolding ticks_elapsed
add_to_queue current seconds t = record t {
  start =
      record { process = current; seconds = seconds; initial_ticks = ticks_elapsed t } ∷ t.start;
}

-- Whether a node's time has come, in unsigned int.
pub is_due : ℕ → TimerNode → Bool
is_due now n = leb n.seconds ((now + 2 ^ 32 - n.initial_ticks) % 2 ^ 32 / 18)

-- The processes that are woken, and the queue that is left; `none` if `start` was set to NULL.
pub record Swept : Type 0 where
  pub woken : List ℕ
  pub left : Option (List TimerNode)

abbrev keep : TimerNode → Swept → Swept
keep n s = record s { left = (elim s.left [ none ↦ none | some ns ↦ some (n ∷ ns) ]) }

abbrev wake : ℕ → Swept → Swept
wake p s = record s { woken = p ∷ s.woken }

-- The loop of `timer_handler` from a node on; `prev` is the process of the node under `prev`.
pub sweep : ℕ → ℕ → List TimerNode → Swept
unfolding is_due
sweep now prev [] = record { woken = []; left = some [] }
sweep now prev (n ∷ ns) =
    let due = is_due now n in
    let rest = sweep now (if due then prev else n.process) ns in
    if due
    then (if n.process == prev
        then record { woken = n.process ∷ []; left = none }
        else wake n.process rest)
    else keep n rest

abbrev queue_of : Option (List TimerNode) → List TimerNode
queue_of none = []
queue_of (some ns) = ns

-- Both pointers start at the head.
unfoldable pub sweep_queue : ℕ → List TimerNode → Swept
unfolding sweep
sweep_queue now [] = record { woken = []; left = some [] }
sweep_queue now (n ∷ ns) = sweep now n.process (n ∷ ns)

-- The processes that are woken go with the new state.
unfoldable pub timer_handler : Timer → Timer × List ℕ
unfolding sweep_queue ticks_elapsed
timer_handler t =
    let t' = record t { ticks = (t.ticks + 1) % 2 ^ 64 } in
    let s = sweep_queue (ticks_elapsed t') t'.start in
    (record t' { start = queue_of s.left }, s.woken)
