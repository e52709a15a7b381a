-- ===== src/Scheduler.antt =====
-- Kernel/utils/scheduler.c: the state of the scheduler, the switch, and the operations on processes.
--
-- The linked list of `ListNode` is the list `processes`, from `start` on. A process is known by its
-- pid, which the kernel never gives twice before its 32-bit counter wraps; so a `pcb *` is a pid.
-- A write through a pointer to a process that is gone changes its node where that is still the
-- current one, and no process else: that a later `alloc` gives freed memory away again is not
-- modelled. Addresses that `alloc` returns are arguments. `none` is a read or a write through the null pointer.
pub mod Lists
pub mod Invariant
pub mod Choice
pub mod Switch
pub mod Removal
pub mod Priority
pub mod States
mod Tests
use bit_shell_os.Base.{
  ℕ, ◌+◌, ◌-◌, ◌%◌, ◌^◌, Bool, true, false, not, ◌&&◌, ◌||◌, Option, none, some, List, [], ◌∷◌, map,
  ltb, leb, ◌==◌, if◌then◌else◌, ◌>>=◌,
}
use bit_shell_os.Process.{
  Pcb, default_program_size, delete_process, from_pid, get_pcb, head_pid, init_process,
  insert_after, is_ready, load_process, modify, move_process, new_process, raise_priorities,
  raise_priority, reset_aux, set_state, tail,
}
use bit_shell_os.Candidates.{
  better_first, better_next, choose, next_process, scan_first, scan_next, settle_first,
}

-- What `currentProcess` points to: nothing, the dummy, a node of the list, or a node that has been
-- freed, with what is still in it: its process and the pid of the node that its `next` points to.
pub data Cursor : Type 0 where
  unset : Cursor
  idle : Cursor
  running : ℕ → Cursor
  freed : Pcb → Option ℕ → Cursor

pub record Scheduler : Type 0 where
  pub quantum : ℕ
  pub priority_quantum : ℕ
  pub fg_taken : ℕ
  pub current : Cursor
  pub processes : List Pcb
  pub dummy : Pcb
  pub first_process : ℕ
  pub next_pid : ℕ

-- QUANTUM, PRIORITY_QUANTUM and DEFAULT_PROGRAM_SIZE.
abbrev pub full_quantum : ℕ
full_quantum = 1

abbrev pub full_priority_quantum : ℕ
full_priority_quantum = 5

-- The dummy's fields that the code leaves unset are 0, empty or null here; none of them is read.
unfoldable pub init_scheduler : ℕ → Scheduler
unfolding init_process
init_scheduler dummy_memory = record {
  quantum = full_quantum - 1;
  priority_quantum = full_priority_quantum;
  fg_taken = 0;
  current = unset;
  processes = [];
  dummy = record {
    args = [];
    pid = 0;
    pstate = 1;
    priority = 1;
    aux_priority = 0;
    sp = init_process (dummy_memory + 2048);
    bp = 0;
    process_memory = dummy_memory;
    custom_stdin = none;
    custom_stdout = none;
  };
  first_process = 1;
  next_pid = 1;
}

-- The result is the new process's pid. `behind` is what the memory of the new node leads to as its
-- `next`, which counts for the first process only.
unfoldable pub create_process :
    Scheduler → ℕ → List (List ℕ) → Option ℕ → Option ℕ → ℕ → List Pcb → Scheduler × ℕ
unfolding new_process load_process
create_process s priority args input output memory behind = (
  record s {
    fg_taken = if priority == 1 && ltb 1 s.next_pid then 1 else s.fg_taken;
    processes =
        load_process behind (new_process s.next_pid priority args input output memory) s.processes;
    next_pid = (s.next_pid + 1) % 2 ^ 32;
  },
  s.next_pid,
)

-- The process that a cursor points to.
pub pointed : Cursor → Scheduler → Option Pcb
unfolding get_pcb
pointed unset s = none
pointed idle s = some s.dummy
pointed (running pid) s = get_pcb pid s.processes
pointed (freed p next) s = some p

pub current_process : Scheduler → Option Pcb
unfolding pointed
current_process s = pointed s.current s

-- Changes the process that a cursor points to, wherever it stands.
pub modify_pointed : Cursor → (Pcb → Pcb) → Scheduler → Scheduler
unfolding modify
modify_pointed unset f s = s
modify_pointed idle f s = record s { dummy = f s.dummy }
modify_pointed (running pid) f s = record s { processes = modify pid f s.processes }
modify_pointed (freed p next) f s = record s { current = freed (f p) next }

pub modify_current : (Pcb → Pcb) → Scheduler → Scheduler
unfolding modify_pointed
modify_current f s = modify_pointed s.current f s

-- The nodes from `next` of the node under the cursor on. The dummy's `next` was set when the list
-- was empty.
pub nodes_after : Cursor → List Pcb → List Pcb
unfolding from_pid tail
nodes_after unset ps = []
nodes_after idle ps = []
nodes_after (running pid) ps = tail (from_pid pid ps)
nodes_after (freed p none) ps = []
nodes_after (freed p (some n)) ps = from_pid n ps

pub after_current : Scheduler → List Pcb
unfolding nodes_after
after_current s = nodes_after s.current s.processes

-- The part of `switchProcess` that picks the process, for the list and the current process as they
-- are then.
pub pick : Scheduler → Pcb → Option (Option Pcb)
unfolding next_process after_current scan_first settle_first choose
pick s cur =
    let fg = not (s.fg_taken == 0) in
    scan_first fg cur.pid s.processes s.processes >>= λ first.
    settle_first fg cur first >>= λ f. some (choose (next_process (after_current s)) f)

-- `priorityQuantum` runs down; at 0 the priorities rise.
pub spend_priority_quantum : Scheduler → ℕ → Scheduler
unfolding raise_priorities
spend_priority_quantum s cur =
    if s.priority_quantum == 0
    then record s {
      processes = raise_priorities cur s.processes;
      priority_quantum = full_priority_quantum;
    }
    else record s { priority_quantum = s.priority_quantum - 1 }

-- The cursor to the process that was chosen: a freed node of the current process that was woken is
-- ready, and can be chosen itself.
pub go_to : Cursor → Pcb → Cursor
go_to (freed q next) p =
    if q.pid == p.pid && is_ready q then freed (reset_aux q) next else running p.pid
go_to c p = running p.pid

-- Makes the choice the current process.
pub dispatch : Scheduler → Option Pcb → Scheduler × ℕ
unfolding modify go_to
dispatch s none = (record s { current = idle }, s.dummy.sp)
dispatch s (some p) =
    (record s { current = go_to s.current p; processes = modify p.pid reset_aux s.processes }, p.sp)

-- The stack pointer to go on with, 0 for no change.
pub switch_process : Scheduler → ℕ → Option (Scheduler × ℕ)
unfolding spend_priority_quantum modify_current current_process pick dispatch
switch_process s sp =
    if not (s.first_process == 0)
    then (elim s.processes [
      | [] ↦ none
      | p ∷ ps ↦ some (record s { first_process = 0; current = running p.pid }, p.sp)
    ])
    else (if ltb 0 s.quantum
        then some (record s { quantum = s.quantum - 1 }, 0)
        else (current_process s >>= λ c.
            let s' =
              modify_current (λ p. record p { sp = sp })
                (spend_priority_quantum (record s { quantum = full_quantum - 1 }) c.pid) in
            current_process s' >>= λ cur. pick s' cur >>= λ choice. some (dispatch s' choice)))

-- The cursor after the node of `p` is freed with `pstate` 2 in it.
-- Where it is the one behind a freed current node, the way goes on behind it: a freed node itself is
-- not ready.
pub forget : Pcb → Option ℕ → Cursor → Cursor
forget p next (running pid) =
    if p.pid == pid then freed (record p { pstate = 2 }) next else running pid
forget p next (freed q (some n)) = freed q (if p.pid == n then next else some n)
forget p next c = c

-- The process that went, for the release of what it holds.
unfoldable pub remove_process : ℕ → Scheduler → Scheduler × Option Pcb
unfolding delete_process forget from_pid tail
remove_process pid s = elim (delete_process pid s.processes) [
  | none ↦ (s, none)
  | some (p, ps) ↦ (
    record s {
      processes = ps;
      current = forget p (head_pid (tail (from_pid pid s.processes))) s.current;
    },
    some p,
  )
]

unfoldable pub exit_current_process : Scheduler → Option (Scheduler × Option Pcb)
unfolding current_process remove_process
exit_current_process s = current_process s >>= λ c.
    some (remove_process c.pid (if c.priority == 1 then record s { fg_taken = 0 } else s))

unfoldable pub kill_pid : ℕ → Scheduler → Scheduler × Option Pcb
unfolding remove_process
kill_pid pid s = if ltb 1 pid then remove_process pid s else (s, none)

pub change_process_priority : ℕ → ℕ → Scheduler → Option Scheduler
unfolding get_pcb move_process
change_process_priority pid new s =
    if leb pid 1
    then some s
    else (if leb new 1 || ltb 10 new then some s else (elim (get_pcb pid s.processes) [
      | none ↦ some s
      | some p ↦
          (move_process (record p { priority = new; aux_priority = new }) s.processes >>= λ ps.
          some (record s { processes = ps }))
    ]))

-- The flag says that the caller must give up the processor (`runScheduler`).
pub change_process_state : ℕ → Scheduler → Option (Scheduler × Bool)
unfolding get_pcb modify current_process
change_process_state pid s =
    if leb pid 1 then some (s, false) else (elim (get_pcb pid s.processes) [
      | none ↦ some (s, false)
      | some p ↦
          if p.pstate == 1
          then (current_process s >>= λ c.
              some (record s { processes = modify pid (set_state 0) s.processes }, pid == c.pid))
          else (if p.pstate == 0
              then some (record s { processes = modify pid (set_state 1) s.processes }, false)
              else some (s, false))
    ])

-- `blockCurrentProcess`: the pid stands for the pointer.
pub block_current_process : Scheduler → Option (Scheduler × ℕ)
unfolding current_process modify_current
block_current_process s = current_process s >>= λ c. some (modify_current (set_state 0) s, c.pid)

-- The same write where the node is freed and under the cursor.
pub wake_freed : ℕ → Cursor → Cursor
wake_freed pid (freed p next) = if p.pid == pid then freed (set_state 1 p) next else freed p next
wake_freed pid c = c

-- A write of 1 to `pstate` through a pointer to a process.
pub wake : ℕ → Scheduler → Scheduler
unfolding modify wake_freed
wake pid s = record s {
  processes = modify pid (set_state 1) s.processes;
  current = wake_freed pid s.current;
}

pub get_current_pid : Scheduler → Option ℕ
unfolding current_process
get_current_pid s = current_process s >>= λ c. some c.pid

pub get_current_stdin : Scheduler → Option (Option ℕ)
unfolding current_process
get_current_stdin s = current_process s >>= λ c. some c.custom_stdin

pub get_current_stdout : Scheduler → Option (Option ℕ)
unfolding current_process
get_current_stdout s = current_process s >>= λ c. some c.custom_stdout
