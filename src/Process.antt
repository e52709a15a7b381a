-- ===== src/Process.antt =====
-- Kernel/include/scheduler.h and Kernel/utils/scheduler.c: a process, and the loops over the list of
-- processes.
--
-- The linked list of `ListNode` is a list, from `start` on. `none` is a read or a write through the
-- null pointer.
use bit_shell_os.Base.{
  ℕ, ◌+◌, ◌-◌, ◌%◌, ◌^◌, Bool, not, ◌&&◌, Option, none, some, List, [], ◌∷◌, ltb, leb, ◌==◌,
  if◌then◌else◌, ◌>>=◌,
}

pub record Pcb : Type 0 where
  pub args : List (List ℕ)
  pub pid : ℕ
  pub pstate : ℕ
  pub priority : ℕ
  pub aux_priority : ℕ
  pub sp : ℕ
  pub bp : ℕ
  pub process_memory : ℕ
  pub custom_stdin : Option ℕ
  pub custom_stdout : Option ℕ

-- `pstate`: 0 blocked, 1 ready, 2 deleted.
abbrev pub is_ready : Pcb → Bool
is_ready p = p.pstate == 1

abbrev pub default_program_size : ℕ
default_program_size = 4096

-- `initProcess` of asm/libasm.asm: twenty words stay between the new stack pointer and the top.
unfoldable pub init_process : ℕ → ℕ
init_process top = (top + 2 ^ 64 - 160) % 2 ^ 64

-- The PCB that `loadProcess` fills in.
unfoldable pub new_process : ℕ → ℕ → List (List ℕ) → Option ℕ → Option ℕ → ℕ → Pcb
unfolding init_process
new_process pid priority args input output memory = record {
  args = args;
  pid = pid;
  pstate = 1;
  priority = priority;
  aux_priority = priority;
  sp = init_process (memory + default_program_size);
  bp = memory + default_program_size - 1;
  process_memory = memory;
  custom_stdin = input;
  custom_stdout = output;
}

-- The loop that looks for the place behind a node: past every process of a priority that is no
-- larger a number.
unfoldable pub insert_after : Pcb → List Pcb → List Pcb
insert_after p [] = p ∷ []
insert_after p (q ∷ qs) = if leb q.priority p.priority then q ∷ insert_after p qs else p ∷ q ∷ qs

-- The first node of all is left without a `next`: it goes on with whatever stands in its memory,
-- `behind`, which is [] where that is null.
unfoldable pub load_process : List Pcb → Pcb → List Pcb → List Pcb
unfolding insert_after
load_process behind p [] = p ∷ behind
load_process behind p (q ∷ qs) = q ∷ insert_after p qs

-- `getPCB`.
unfoldable pub get_pcb : ℕ → List Pcb → Option Pcb
get_pcb pid [] = none
get_pcb pid (p ∷ ps) = if p.pid == pid then some p else get_pcb pid ps

-- Changes the process with the given pid in place.
unfoldable pub modify : ℕ → (Pcb → Pcb) → List Pcb → List Pcb
modify pid f [] = []
modify pid f (p ∷ ps) = if p.pid == pid then f p ∷ ps else p ∷ modify pid f ps

-- The nodes from the one with the given pid on.
unfoldable pub from_pid : ℕ → List Pcb → List Pcb
from_pid pid [] = []
from_pid pid (p ∷ ps) = if p.pid == pid then p ∷ ps else from_pid pid ps

unfoldable pub tail : List Pcb → List Pcb
tail [] = []
tail (p ∷ ps) = ps

-- The round in which every ready process but the current one gains a level.
unfoldable pub raise_priority : ℕ → Pcb → Pcb
raise_priority cur p =
    if ltb 1 p.aux_priority && not (p.pid == cur) && is_ready p
    then record p { aux_priority = p.aux_priority - 1 }
    else p

unfoldable pub raise_priorities : ℕ → List Pcb → List Pcb
unfolding raise_priority
raise_priorities cur [] = []
raise_priorities cur (p ∷ ps) = raise_priority cur p ∷ raise_priorities cur ps

abbrev pub reset_aux : Pcb → Pcb
reset_aux p = record p { aux_priority = p.priority }

-- `deleteProcess` on the list: the process that goes and the list without it.
unfoldable pub delete_process : ℕ → List Pcb → Option (Pcb × List Pcb)
delete_process pid [] = none
delete_process pid (p ∷ ps) =
    let rest = delete_process pid ps in
    if p.pid == pid then some (p, ps) else (rest >>= λ (q, qs). some (q, p ∷ qs))

abbrev pub head_pid : List Pcb → Option ℕ
head_pid [] = none
head_pid (p ∷ ps) = some p.pid

-- The two loops that move a node: the first looks behind the head only, and runs off the list if
-- the head is the one.
unfoldable pub move_process : Pcb → List Pcb → Option (List Pcb)
unfolding delete_process insert_after
move_process p [] = none
move_process p (h ∷ t) =
    if h.pid == p.pid
    then none
    else (delete_process p.pid t >>= λ (q, rest). some (h ∷ insert_after p rest))

abbrev pub set_state : ℕ → Pcb → Pcb
set_state st p = record p { pstate = st }
