-- ===== src/Scheduler/Invariant.antt =====
-- The invariant of the scheduler's state (Kernel/utils/scheduler.c), and the operations that create
-- a process or change one in its place.
use bit_shell_os.Base.{
  ℕ, ◌+◌, ◌^◌, ◌≤◌, ◌<◌, ◌≡◌, ◌≢◌, refl, sym, subst, ◌∙◌, some, false, List, ap, ltb, ◌&&◌,
  if◌then◌else◌, ne→==, ◌%◌, [], ◌∷◌, ◌==◌, leb, arith, All, Option-cases, Bool-cases, inl, inr,
  ◌⊎◌, Bool, Option, ==→ne, ==→eq,
}
use bit_shell_os.Process.{
  Pcb, is_ready, new_process, insert_after, load_process, get_pcb, modify, tail, set_state,
}
use bit_shell_os.Scheduler.{
  Scheduler, Cursor, unset, idle, running, freed, create_process, change_process_state, wake,
  wake_freed, init_scheduler,
}
use bit_shell_os.Scheduler.Lists.{
  Absent, Distinct, IsSorted, insert_after-All, insert_after-Distinct, insert_after-Ascending,
  modify-All, modify-Distinct, modify-IsSorted, get_pcb-modify_self, get_pcb-modify_ne, get_pcb-pid,
  get_pcb-All,
}

-- A process of the list: its pid was given out, and its level lies between 1 and its priority.
abbrev pub IsProcess : ℕ → Pcb → Type 0
IsProcess next p =
    (0 < p.pid) × (p.pid < next) × (1 ≤ p.aux_priority) × (p.aux_priority ≤ p.priority)

-- A cursor into the list finds its process; one to a freed node finds it not ready.
abbrev pub Points : Cursor → List Pcb → Type 0
Points unset ps = Unit {0}
Points idle ps = Unit {0}
Points (running pid) ps = (p : Pcb) × (get_pcb pid ps ≡ some p)
Points (freed p next) ps = is_ready p ≡ false

-- Pids are distinct, the list behind its head is sorted by priority, the quantum is always used
-- up, and the current process is there.
pub record IsValid (s : Scheduler) : Type 0 where
  pub processes_ok : All (IsProcess s.next_pid) s.processes
  pub distinct : Distinct s.processes
  pub sorted : IsSorted s.processes
  pub points : Points s.current s.processes
  pub dummy_pid : s.dummy.pid ≡ 0
  pub no_quantum : s.quantum ≡ 0
  pub counter : 0 < s.next_pid

pub init-IsValid : (memory : ℕ) → IsValid (init_scheduler memory)
unfolding init_scheduler tail
init-IsValid memory = record {
  processes_ok = tt;
  distinct = tt;
  sorted = tt;
  points = tt;
  dummy_pid = refl;
  no_quantum = refl;
  counter = omega arith;
}

IsProcess-All-mono : (m n : ℕ) (ps : List Pcb) → m ≤ n → All (IsProcess m) ps → All (IsProcess n) ps
IsProcess-All-mono m n [] le h = tt
IsProcess-All-mono m n (p ∷ ps) le h = (omega arith, IsProcess-All-mono m n ps le h.1)

below-Absent : (n : ℕ) (ps : List Pcb) → All (IsProcess n) ps → Absent n ps
below-Absent n [] h = tt
below-Absent n (p ∷ ps) h = (omega arith, below-Absent n ps h.1)

-- A new process at its place in the list.
module _ (p : Pcb) where
  pub load_process-All :
      (P : Pcb → Type 0) (ps : List Pcb) → P p → All P ps → All P (load_process [] p ps)
  unfolding load_process
  load_process-All P [] h hs = (h, tt)
  load_process-All P (q ∷ qs) h hs = (hs.0, insert_after-All P p qs h hs.1)

  load_process-Distinct :
      (ps : List Pcb) → Absent p.pid ps → Distinct ps → Distinct (load_process [] p ps)
  unfolding load_process
  load_process-Distinct [] a d = (tt, tt)
  load_process-Distinct (q ∷ qs) a d =
      (insert_after-All _ p qs (λ e. a.0 (sym e)) d.0, insert_after-Distinct p qs a.1 d.1)

  load_process-IsSorted : (ps : List Pcb) → IsSorted ps → IsSorted (load_process [] p ps)
  unfolding load_process tail
  load_process-IsSorted [] s = tt
  load_process-IsSorted (q ∷ qs) s = insert_after-Ascending 0 p qs (omega arith) s

  get_pcb-insert_after :
      (k : ℕ) (ps : List Pcb) (q : Pcb)
      → k ≢ p.pid
      → get_pcb k ps ≡ some q
      → get_pcb k (insert_after p ps) ≡ some q
  unfolding get_pcb insert_after
  get_pcb-insert_after k [] q ne e = ground arith
  get_pcb-insert_after k (r ∷ rs) q ne e = ground (arith, get_pcb-insert_after k rs q ne)

  get_pcb-load_process :
      (k : ℕ) (ps : List Pcb) (q : Pcb)
      → k ≢ p.pid
      → get_pcb k ps ≡ some q
      → get_pcb k (load_process [] p ps) ≡ some q
  unfolding get_pcb load_process
  get_pcb-load_process k [] q ne e = ground arith
  get_pcb-load_process k (r ∷ rs) q ne e = ground (arith, get_pcb-insert_after k rs q ne)

pub Points-mono :
    (c : Cursor) (ps qs : List Pcb)
    → ((k : ℕ) (q : Pcb) → get_pcb k ps ≡ some q → (r : Pcb) × (get_pcb k qs ≡ some r))
    → Points c ps
    → Points c qs
Points-mono unset ps qs keep h = tt
Points-mono idle ps qs keep h = tt
Points-mono (running pid) ps qs keep h = keep pid h.0 h.1
Points-mono (freed p next) ps qs keep h = h

-- A new process is found under its pid.
pub get_pcb-insert_after_self :
    (p : Pcb) (ps : List Pcb) → Absent p.pid ps → get_pcb p.pid (insert_after p ps) ≡ some p
unfolding get_pcb insert_after
get_pcb-insert_after_self p [] a = ground arith
get_pcb-insert_after_self p (q ∷ qs) a = ground (arith, get_pcb-insert_after_self p qs)

get_pcb-load_process_self :
    (p : Pcb) (ps : List Pcb) → Absent p.pid ps → get_pcb p.pid (load_process [] p ps) ≡ some p
unfolding get_pcb load_process
get_pcb-load_process_self p [] a = ground arith
get_pcb-load_process_self p (q ∷ qs) a = ground (arith, get_pcb-insert_after_self p qs)

Points-load_process :
    (p : Pcb) (c : Cursor) (ps : List Pcb)
    → Absent p.pid ps
    → Points c ps
    → Points c (load_process [] p ps)
Points-load_process p c ps a h =
    Points-mono c ps (load_process [] p ps)
      (λ k q e. (
        q,
        get_pcb-load_process p k ps q
            (λ same. get_pcb-All (λ r. r.pid ≢ p.pid) k ps q e a (get_pcb-pid k ps q e ∙ same)) e,
      ))
      h

create_after_null-IsValid :
    (s : Scheduler) (priority : ℕ) (args : List (List ℕ)) (input output : Option ℕ) (memory : ℕ)
    → 1 ≤ priority
    → s.next_pid + 1 < 2 ^ 32
    → IsValid s
    → let (s', pid) = create_process s priority args input output memory [] in
      IsValid s'
      × Absent pid s.processes
      × (get_pcb pid s'.processes ≡ some (new_process pid priority args input output memory))
unfolding create_process new_process
create_after_null-IsValid s priority args input output memory h small v =
    let p = new_process s.next_pid priority args input output memory in
    let a = below-Absent s.next_pid s.processes v.processes_ok in
    (
      record {
        processes_ok =
            load_process-All p _ s.processes (omega (arith, v.counter))
              (IsProcess-All-mono s.next_pid _ s.processes (omega arith) v.processes_ok);
        distinct = load_process-Distinct p s.processes a v.distinct;
        sorted = load_process-IsSorted p s.processes v.sorted;
        points = Points-load_process p s.current s.processes a v.points;
        dummy_pid = v.dummy_pid;
        no_quantum = v.no_quantum;
        counter = omega arith;
      },
      a,
      get_pcb-load_process_self p s.processes a,
    )

pub load_process_null :
    (behind : List Pcb) (p : Pcb) (ps : List Pcb)
    → (ps ≡ [] → behind ≡ [])
    → load_process [] p ps ≡ load_process behind p ps
unfolding load_process
load_process_null behind p [] null = ap (λ b. p ∷ b) (sym (null refl))
load_process_null behind p (q ∷ qs) null = refl

-- Where the memory of the first process's node is null at `next`, the new node ends the list.
pub create_process_null :
    (s : Scheduler) (priority : ℕ) (args : List (List ℕ)) (input output : Option ℕ) (memory : ℕ)
    (behind : List Pcb)
    → (s.processes ≡ [] → behind ≡ [])
    → create_process s priority args input output memory []
      ≡ create_process s priority args input output memory behind
unfolding create_process
create_process_null s priority args input output memory behind null =
    ap
      (λ ps. (
        record s {
          fg_taken = if priority == 1 && ltb 1 s.next_pid then 1 else s.fg_taken;
          processes = ps;
          next_pid = (s.next_pid + 1) % 2 ^ 32;
        },
        s.next_pid,
      ))
      (load_process_null behind (new_process s.next_pid priority args input output memory)
        s.processes null)

-- For a priority from 1 on, `createProcess` keeps the invariant while the pid counter does not wrap,
-- if the memory of the first process's node is null where its `next` stands, which the code leaves
-- unset. It returns a pid that no process had, under which the new process is found: ready, at its
-- priority, with its arguments and descriptors.
pub create_process-IsValid :
    (s : Scheduler) (priority : ℕ) (args : List (List ℕ)) (input output : Option ℕ) (memory : ℕ)
    (behind : List Pcb)
    → (s.processes ≡ [] → behind ≡ [])
    → 1 ≤ priority
    → s.next_pid + 1 < 2 ^ 32
    → IsValid s
    → let (s', pid) = create_process s priority args input output memory behind in
      IsValid s'
      × Absent pid s.processes
      × (get_pcb pid s'.processes ≡ some (new_process pid priority args input output memory))
create_process-IsValid s priority args input output memory behind null h small v =
    subst
      (λ (s', pid).
        IsValid s'
        × Absent pid s.processes
        × (get_pcb pid s'.processes ≡ some (new_process pid priority args input output memory)))
      (create_process_null s priority args input output memory behind null)
      (create_after_null-IsValid s priority args input output memory h small v)

-- A change of one process that keeps its pid and priority, and its level between bounds.
module _ (pid : ℕ) (f : Pcb → Pcb) (same_pid : (p : Pcb) → (f p).pid ≡ p.pid)
    (same_priority : (p : Pcb) → (f p).priority ≡ p.priority)
    (level : (p : Pcb)
      → 1 ≤ p.aux_priority
      → p.aux_priority ≤ p.priority
      → (1 ≤ (f p).aux_priority) × ((f p).aux_priority ≤ p.priority)) where
  pub Points-modify : (c : Cursor) (ps : List Pcb) → Points c ps → Points c (modify pid f ps)
  Points-modify c ps = Points-mono c ps (modify pid f ps) λ k q e. elim (Bool-cases (k == pid)) [
    | inl same ↦
        let here : k ≡ pid = ==→eq k pid same in
        (f q, rw here (get_pcb-modify_self pid f ps q same_pid (rw here at e)))
    | inr other ↦ (q, get_pcb-modify_ne pid f k ps (==→ne k pid other) same_pid ∙ e)
  ]

  pub modify-IsValid :
      (s : Scheduler) → IsValid s → IsValid (record s { processes = modify pid f s.processes })
  modify-IsValid s v = record {
    processes_ok =
        modify-All pid f (IsProcess s.next_pid) s.processes
          (λ p h. omega (arith, same_pid p, same_priority p, level p h.2 h.3)) v.processes_ok;
    distinct = modify-Distinct pid f s.processes same_pid v.distinct;
    sorted = modify-IsSorted pid f s.processes same_priority v.sorted;
    points = Points-modify s.current s.processes v.points;
    dummy_pid = v.dummy_pid;
    no_quantum = v.no_quantum;
    counter = v.counter;
  }

pub set_state-IsValid :
    (st pid : ℕ) (s : Scheduler)
    → IsValid s
    → IsValid (record s { processes = modify pid (set_state st) s.processes })
set_state-IsValid st pid s =
    modify-IsValid pid (set_state st) (λ p. refl) (λ p. refl) (λ p h k. (h, k)) s

-- The current process is not a freed one; or at least not the one with a pid.
abbrev pub Stands : Cursor → Type 0
Stands (freed p next) = ⊥
Stands c = Unit {0}

abbrev pub Spares : Cursor → ℕ → Type 0
Spares (freed p next) pid = p.pid ≢ pid
Spares c pid = Unit {0}

pub Stands-Spares : (c : Cursor) (pid : ℕ) → Stands c → Spares c pid
Stands-Spares unset pid h = tt
Stands-Spares idle pid h = tt
Stands-Spares (running k) pid h = tt
Stands-Spares (freed p next) pid h = absurd h

pub wake_freed-Spares : (pid : ℕ) (c : Cursor) → Spares c pid → wake_freed pid c ≡ c
unfolding wake_freed
wake_freed-Spares pid unset h = refl
wake_freed-Spares pid idle h = refl
wake_freed-Spares pid (running k) h = refl
wake_freed-Spares pid (freed p next) h = rw (ne→== p.pid pid h) refl

pub wake-current :
    (pid : ℕ) (s : Scheduler) → Spares s.current pid → (wake pid s).current ≡ s.current
unfolding wake
wake-current pid s h = wake_freed-Spares pid s.current h

-- A wake-up through a process pointer keeps the invariant, unless the process is gone and its node
-- is the current one.
pub wake-IsValid :
    (pid : ℕ) (s : Scheduler) → Spares s.current pid → IsValid s → IsValid (wake pid s)
unfolding wake
wake-IsValid pid s h v =
    subst
      (λ c. IsValid (record s { processes = modify pid (set_state 1) s.processes; current = c }))
      (sym (wake_freed-Spares pid s.current h)) (set_state-IsValid 1 pid s v)

change_process_state_cases :
    (pid : ℕ) (s s' : Scheduler) (yield : Bool)
    → change_process_state pid s ≡ some (s', yield)
    → (s' ≡ s) ⊎ ((st : ℕ) × (s' ≡ record s { processes = modify pid (set_state st) s.processes }))
unfolding change_process_state
change_process_state_cases pid s s' yield e = elim (Bool-cases (leb pid 1)) [
  | inl shell ↦ inl (ground arith)
  | inr other ↦ elim (Option-cases (get_pcb pid s.processes)) [
    | inl missing ↦ inl (ground arith)
    | inr (p, found) ↦ elim (Bool-cases (p.pstate == 1)) [
      | inl ready ↦ inr (0, ground arith)
      | inr blocked ↦ elim (Bool-cases (p.pstate == 0)) [
        | inl b ↦ inr (1, ground arith)
        | inr b ↦ inl (ground arith)
      ]
    ]
  ]
]

-- So does `changeProcessState`.
pub change_process_state-IsValid :
    (pid : ℕ) (s s' : Scheduler) (yield : Bool)
    → IsValid s
    → change_process_state pid s ≡ some (s', yield)
    → IsValid s'
unfolding change_process_state
change_process_state-IsValid pid s s' yield v e =
    elim (change_process_state_cases pid s s' yield e) [
      | inl same ↦ subst IsValid (sym same) v
      | inr (st, same) ↦ subst IsValid (sym same) (set_state-IsValid st pid s v)
    ]
