-- ===== src/ProcessMemory.antt =====
-- The memory of the processes: the two blocks that `loadProcess` of Kernel/utils/scheduler.c asks the
-- memory manager for, and that `deleteProcess` gives back.
--
-- `node` is the address of the list node of each pid. `none` is a fault: the code writes through the
-- pointers without a look, so that NULL from `alloc` is one.
pub mod Owners
pub mod Leaks
mod Tests
use bit_shell_os.Base.{ℕ, ◌≡◌, Option, none, some, List, [], ◌∷◌, ◌==◌, if◌then◌else◌, ◌>>=◌}
use bit_shell_os.Heap.{Manager, alloc_mem, free_mem}
use bit_shell_os.Process.{Pcb, default_program_size}
use bit_shell_os.Scheduler.{Scheduler, Cursor, create_process, kill_pid, exit_current_process}
use bit_shell_os.Scheduler.Invariant.{Stands}

-- sizeof(ListNode), with the alignment of x86-64.
abbrev pub list_node_size : ℕ
list_node_size = 184

pub record Machine : Type 0 where
  pub scheduler : Scheduler
  pub heap : Manager
  pub node : ℕ → ℕ

abbrev pub set_node : (ℕ → ℕ) → ℕ → ℕ → ℕ → ℕ
set_node f pid a k = if pid == k then a else f k

-- `createProcess`: the result is the pid.
pub create_in_memory :
    ℕ → List (List ℕ) → Option ℕ → Option ℕ → List Pcb → Machine → Option (Machine × ℕ)
create_in_memory priority args input output behind m = alloc_mem m.heap list_node_size >>= λ (n, h).
    n >>= λ node. alloc_mem h default_program_size >>= λ (p, h'). p >>= λ memory.
    let (s, pid) = create_process m.scheduler priority args input output memory behind in
    some (record { scheduler = s; heap = h'; node = set_node m.node pid node }, pid)

-- The releases of `deleteProcess` for the process that goes.
pub free_process : Option Pcb → Machine → Option Machine
free_process none m = some m
free_process (some p) m = free_mem m.heap (some p.process_memory) >>= λ h.
    free_mem h (some (m.node p.pid)) >>= λ h'. some (record m { heap = h' })

pub kill_in_memory : ℕ → Machine → Option Machine
unfolding free_process
kill_in_memory pid m =
    let (s, gone) = kill_pid pid m.scheduler in free_process gone (record m { scheduler = s })

pub exit_in_memory : Machine → Option Machine
unfolding free_process
exit_in_memory m =
    exit_current_process m.scheduler >>= λ (s, gone). free_process gone (record m { scheduler = s })

-- What happens to the processes: one is created, one is killed, the current one ends, and whichever
-- becomes the current one. The first three are calls of a process that is not gone itself; and where
-- there is no process, the memory of the new one's node is null at `next`.
pub data Step (m : Machine) : Machine → Type 0 where
  creates :
      (priority : ℕ) (args : List (List ℕ)) (input output : Option ℕ) (behind : List Pcb) (pid : ℕ)
      (m' : Machine)
      → Stands m.scheduler.current
      → (m.scheduler.processes ≡ [] → behind ≡ [])
      → create_in_memory priority args input output behind m ≡ some (m', pid)
      → Step m m'
  kills :
      (pid : ℕ) (m' : Machine)
      → Stands m.scheduler.current
      → kill_in_memory pid m ≡ some m'
      → Step m m'
  exits : (m' : Machine) → Stands m.scheduler.current → exit_in_memory m ≡ some m' → Step m m'
  turns : (c : Cursor) → Step m (record m { scheduler = record m.scheduler { current = c } })

pub data Reach (m : Machine) : Machine → Type 0 where
  here : Reach m m
  next : {l k : Machine} → Reach m l → Step l k → Reach m k
