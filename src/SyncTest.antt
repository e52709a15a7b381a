-- ===== src/SyncTest.antt =====
-- Userland/SampleCodeModule/tests/test_sync.c: processes that all add to one shared number, under a
-- semaphore (`inc`) or without one (`ninc`).
--
-- A worker is one process, a shared access at a time; the delay of `slowInc` touches nothing. The
-- semaphore is the one that `inc` has opened and that stays open, and the calls on it are those of
-- the module of the semaphores. The numbers are bit patterns of int64_t.
pub mod Exclusion
pub mod Sum
pub mod Total
pub mod Waiting
pub mod Progress
pub mod Finish
mod Tests
use bit_shell_os.Base.{
  ℕ, zero, suc, ◌+◌, ◌-◌, ◌%◌, ◌^◌, Bool, true, false, Option, none, some, List, [], ◌∷◌, ◌++◌, ◌≡◌,
  ◌==◌, if◌then◌else◌,
}
use bit_shell_os.Semaphores.{
  Semaphore, WaitResult, spinning, refused, blocked, acquired, wait_turn, sem_wait, PostResult,
  post_spins, nobody, woke, sem_post,
}

-- TOTAL_PAIR_PROCESSES, SEM and N.
abbrev pub total_pair_processes : ℕ
total_pair_processes = 2

abbrev pub sem_id : ℕ
sem_id = 50

abbrev pub n : ℕ
n = 100

-- Where a worker stands: before a turn of its loop, in the queue of the semaphore, woken, before the
-- read, with the value that it has read, and behind the write.
pub data At : Type 0 where
  ready queued woken entered stored : At
  loaded : ℕ → At

-- `left` counts the turns of the loop behind the current one.
pub record Worker : Type 0 where
  pub pid : ℕ
  pub left : ℕ
  pub at : At

pub record Shared : Type 0 where
  pub sem : Semaphore
  pub global : ℕ

-- getPid() % 2 ? 1 : -1
pub value_of : ℕ → ℕ
value_of pid = if pid % 2 == 0 then 2 ^ 64 - 1 else 1

-- A worker and the shared state after a step, and the process that it wakes.
pub record Moved : Type 0 where
  pub worker : Worker
  pub shared : Shared
  pub wakes : Option ℕ

-- Behind a wait: the result of `sem_wait` is not looked at, so that a refused wait goes on. The first
-- worker is the one that still spins.
pub waited : Worker → Worker → Semaphore × WaitResult → Shared → Moved
waited still w (s, spinning) k = record {
  worker = still;
  shared = record k { sem = s };
  wakes = none;
}
waited still w (s, blocked) k = record {
  worker = record w { at = queued };
  shared = record k { sem = s };
  wakes = none;
}
waited still w (s, refused) k = record {
  worker = record w { at = entered };
  shared = record k { sem = s };
  wakes = none;
}
waited still w (s, acquired) k = record {
  worker = record w { at = entered };
  shared = record k { sem = s };
  wakes = none;
}

pub posted : Worker → Semaphore × PostResult → Shared → Moved
posted w (s, post_spins) k = record { worker = w; shared = record k { sem = s }; wakes = none }
posted w (s, nobody) k = record {
  worker = record w { at = ready };
  shared = record k { sem = s };
  wakes = none;
}
posted w (s, woke p) k = record {
  worker = record w { at = ready };
  shared = record k { sem = s };
  wakes = some p;
}

-- The next step of `inc` by where it stands. A worker in the queue is not scheduled, and one without
-- turns has left the loop.
pub inc_at : Worker → At → ℕ → Shared → Moved
unfolding value_of waited posted
inc_at w ready zero k = record { worker = w; shared = k; wakes = none }
inc_at w ready (suc m) k = waited w (record w { left = m }) (sem_wait w.pid k.sem) k
inc_at w queued m k = record { worker = w; shared = k; wakes = none }
inc_at w woken m k = waited w w (wait_turn w.pid k.sem) k
inc_at w entered m k = record {
  worker = record w { at = loaded k.global };
  shared = k;
  wakes = none;
}
inc_at w (loaded aux) m k = record {
  worker = record w { at = stored };
  shared = record k { global = (aux + value_of w.pid) % 2 ^ 64 };
  wakes = none;
}
inc_at w stored m k = posted w (sem_post k.sem) k

pub inc : Worker → Shared → Moved
unfolding inc_at
inc w k = inc_at w w.at w.left k

-- `ninc`: the same without the calls on the semaphore.
pub ninc_at : Worker → At → ℕ → Shared → Moved
unfolding value_of
ninc_at w ready zero k = record { worker = w; shared = k; wakes = none }
ninc_at w ready (suc m) k = record {
  worker = record w { left = m; at = loaded k.global };
  shared = k;
  wakes = none;
}
ninc_at w (loaded aux) m k = record {
  worker = record w { at = ready };
  shared = record k { global = (aux + value_of w.pid) % 2 ^ 64 };
  wakes = none;
}
ninc_at w queued m k = record { worker = w; shared = k; wakes = none }
ninc_at w woken m k = record { worker = w; shared = k; wakes = none }
ninc_at w entered m k = record { worker = w; shared = k; wakes = none }
ninc_at w stored m k = record { worker = w; shared = k; wakes = none }

pub ninc : Worker → Shared → Moved
unfolding ninc_at
ninc w k = ninc_at w w.at w.left k

-- The first worker of a pid is woken.
pub awake : At → At
awake queued = woken
awake ready = ready
awake woken = woken
awake entered = entered
awake stored = stored
awake (loaded a) = loaded a

pub wake_worker : ℕ → List Worker → List Worker
unfolding awake
wake_worker pid [] = []
wake_worker pid (w ∷ ws) =
    if w.pid == pid then record w { at = awake w.at } ∷ ws else w ∷ wake_worker pid ws

pub wake_workers : Option ℕ → List Worker → List Worker
unfolding wake_worker
wake_workers none ws = ws
wake_workers (some pid) ws = wake_worker pid ws

pub record World : Type 0 where
  pub shared : Shared
  pub workers : List Worker

-- One worker takes a step of its program between the others.
pub moved : (Worker → Shared → Moved) → Shared → List Worker → Worker → List Worker → World
unfolding wake_workers
moved program k before w behind =
    let m = program w k in
    record { shared = m.shared; workers = wake_workers m.wakes (before ++ m.worker ∷ behind) }

-- The scheduler lets any of them go next.
pub data Step (program : Worker → Shared → Moved) (k : World) : World → Type 0 where
  runs :
      (before : List Worker) (w : Worker) (behind : List Worker)
      → k.workers ≡ before ++ w ∷ behind
      → Step program k (moved program k.shared before w behind)

pub data Reach (program : Worker → Shared → Moved) (k : World) : World → Type 0 where
  here : Reach program k k
  next : {l m : World} → Reach program k l → Step program l m → Reach program k m

-- The processes that the test creates, with the pids that they get.
pub start_workers : List ℕ → List Worker
start_workers [] = []
start_workers (pid ∷ pids) = record { pid = pid; left = n; at = ready } ∷ start_workers pids
