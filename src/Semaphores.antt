-- ===== src/Semaphores.antt =====
-- Kernel/utils/semaphore.c: counting semaphores with a queue of blocked processes.
--
-- A semaphore is known by the address that `alloc` gave it; `semaphores[0 .. size)` is `entries`.
-- `_xchg` on a lock that is taken spins; with interrupts off in a system call nothing can release
-- the lock, so that is the outcome `spins`. `runScheduler` gives up the processor: the code behind
-- it is a function of its own, which runs when the process is resumed.
pub mod Queue
pub mod Wakeups
pub mod Table
mod Tests
use bit_shell_os.Base.{
  ℕ, zero, suc, ◌+◌, ◌-◌, ◌%◌, ◌^◌, Bool, true, false, not, ◌||◌, Option, none, some, List, [], ◌∷◌,
  ◌++◌, ltb, leb, ◌==◌, if◌then◌else◌, get_or, set, take, length, replicate,
}

-- PROCESS_LIMIT and MAX_SEM.
abbrev pub process_limit : ℕ
process_limit = 10

abbrev pub max_sem : ℕ
max_sem = 20

-- `value` is the bit pattern of an int.
pub record Semaphore : Type 0 where
  pub address : ℕ
  pub id : ℕ
  pub value : ℕ
  pub queue : List ℕ
  pub waiting : ℕ
  pub lock : ℕ

pub record Semaphores : Type 0 where
  pub entries : List Semaphore
  pub mutex_sem : ℕ

pub data Outcome (A : Type 0) : Type 0 where
  spins : Outcome A
  faults : Outcome A
  done : A → Outcome A

pub find_id : ℕ → List Semaphore → Option Semaphore
find_id id [] = none
find_id id (s ∷ ss) = if s.id == id then some s else find_id id ss

-- The fields that `sem_open` sets; the queue is what `alloc` left there.
unfoldable pub new_semaphore : ℕ → ℕ → ℕ → List ℕ → Semaphore
new_semaphore address id value garbage = record {
  address = address;
  id = id;
  value = value;
  queue = garbage;
  waiting = 0;
  lock = 0;
}

-- `allocated` is what `alloc` returns if it is called, and `garbage` the ten words of the queue in
-- it. The result is the address, `none` for NULL.
pub sem_open : Semaphores → ℕ → ℕ → Option ℕ → List ℕ → Outcome (Semaphores × Option ℕ)
unfolding find_id new_semaphore
sem_open t id value allocated garbage =
    if not (t.mutex_sem == 0)
    then spins
    else (if length t.entries == max_sem || leb (2 ^ 31) value
        then done (record t { mutex_sem = 1 }, none)
        else (elim (find_id id t.entries) [
          | some s ↦ done (record t { mutex_sem = 0 }, some s.address)
          | none ↦ (elim allocated [
            | none ↦ faults
            | some address ↦ done (
              record t {
                entries = t.entries ++ new_semaphore address id value garbage ∷ [];
                mutex_sem = 0;
              },
              some address,
            )
          ])
        ]))

-- The entries with the first one of an id taken out and those behind it moved up.
pub remove_id : ℕ → List Semaphore → List Semaphore
remove_id id [] = []
remove_id id (s ∷ ss) = if s.id == id then ss else s ∷ remove_id id ss

-- The results: 0, and the memory is freed, or -1.
pub data CloseResult : Type 0 where
  closed in_use unknown : CloseResult

pub sem_close : Semaphores → Semaphore → Outcome (Semaphores × CloseResult)
unfolding find_id remove_id
sem_close t s =
    if ltb 0 s.waiting
    then done (t, in_use)
    else (if not (t.mutex_sem == 0) then spins else (elim (find_id s.id t.entries) [
      | none ↦ done (record t { mutex_sem = 0 }, unknown)
      | some other ↦ done (record t { entries = remove_id s.id t.entries; mutex_sem = 0 }, closed)
    ]))

pub data WaitResult : Type 0 where
  spinning refused blocked acquired : WaitResult

-- The loop of `sem_wait` up to its next `runScheduler` or its end; it is also what a resumed process
-- goes on with. `refused` is the return of -1, which leaves the lock alone.
unfoldable pub wait_turn : ℕ → Semaphore → Semaphore × WaitResult
wait_turn cur s =
    if s.value == 0
    then (if s.waiting == process_limit then (s, refused) else (
      record s { queue = set s.queue s.waiting cur; waiting = s.waiting + 1; lock = 0 },
      blocked,
    ))
    else (record s { value = s.value - 1; lock = 0 }, acquired)

unfoldable pub sem_wait : ℕ → Semaphore → Semaphore × WaitResult
unfolding wait_turn
sem_wait cur s = if not (s.lock == 0) then (s, spinning) else wait_turn cur (record s { lock = 1 })

-- for (i = 0; i < n; i++) queue[i] = queue[i + 1];
pub shift : ℕ → List ℕ → List ℕ
shift zero q = q
shift (suc n) [] = []
shift (suc n) (x ∷ []) = x ∷ []
shift (suc n) (x ∷ y ∷ q) = y ∷ shift n (y ∷ q)

pub data PostResult : Type 0 where
  post_spins : PostResult
  nobody : PostResult
  woke : ℕ → PostResult

unfoldable pub sem_post : Semaphore → Semaphore × PostResult
unfolding shift
sem_post s =
    if not (s.lock == 0)
    then (s, post_spins)
    else (let value = (s.value + 1) % 2 ^ 32 in
        if s.waiting == 0 then (record s { value = value; lock = 0 }, nobody) else (
          record s {
            value = value;
            queue = shift (s.waiting - 1) s.queue;
            waiting = s.waiting - 1;
            lock = 0;
          },
          woke (get_or s.queue 0 0),
        ))

-- Whether one of the first `n` entries of the queue is the process.
pub queued : ℕ → ℕ → List ℕ → Bool
queued pid zero q = false
queued pid (suc n) [] = false
queued pid (suc n) (x ∷ q) = x == pid || queued pid n q

-- `deleteProcessFromSemaphores`: only the first semaphore with the process in its queue changes.
pub delete_process_from_semaphores : ℕ → List Semaphore → List Semaphore
unfolding queued shift
delete_process_from_semaphores pid [] = []
delete_process_from_semaphores pid (s ∷ ss) =
    if queued pid s.waiting s.queue
    then record s { queue = shift (s.waiting - 1) s.queue; waiting = s.waiting - 1 } ∷ ss
    else s ∷ delete_process_from_semaphores pid ss
