-- ===== src/Scheduler/Removal.antt =====
-- `exitCurrentProcess`, `killPid` and `blockCurrentProcess` of Kernel/utils/scheduler.c.
use bit_shell_os.Base.{
  ℕ, ◌≤◌, ◌<◌, ◌≡◌, ◌≢◌, refl, sym, subst, ◌∙◌, none, some, List, [], ◌∷◌, ◌==◌, ltb, ◌>>=◌, arith,
  Option-cases, Bool-cases, inl, inr, ◌⊎◌, Option, ne→==, ==→ne, ltb→lt, ltb→le,
}
use bit_shell_os.Process.{Pcb, get_pcb, tail, delete_process, set_state}
use bit_shell_os.Scheduler.{
  Scheduler, Cursor, unset, idle, running, freed, current_process, modify_pointed, modify_current,
  forget, remove_process, exit_current_process, kill_pid, block_current_process,
}
use bit_shell_os.Scheduler.Lists.{
  Absent, IsSorted, Ascending-mono, delete_process-All, delete_process-Ascending,
  delete_process-Distinct,
}
use bit_shell_os.Scheduler.Invariant.{IsValid, Points, set_state-IsValid}

pub delete_process-IsSorted :
    (pid : ℕ) (ps qs : List Pcb) (q : Pcb)
    → delete_process pid ps ≡ some (q, qs)
    → IsSorted ps
    → IsSorted qs
unfolding delete_process tail
delete_process-IsSorted pid [] qs q e s = ground arith
delete_process-IsSorted pid (p ∷ []) qs q e s = ground arith
delete_process-IsSorted pid (p ∷ r ∷ rs) qs q e s = elim (Bool-cases (p.pid == pid)) [
  | inl here ↦
      let same : r ∷ rs ≡ qs = ground arith in
      subst IsSorted same (Ascending-mono 0 r.priority rs (omega arith) s.1)
  | inr away ↦ elim (Option-cases (delete_process pid (r ∷ rs))) [
    | inl missing ↦ ground arith
    | inr ((d, ds), found) ↦
        let same : p ∷ ds ≡ qs = ground arith in
        subst IsSorted same (delete_process-Ascending 0 pid (r ∷ rs) ds d found s)
  ]
]

-- Another process is found as before.
pub get_pcb-delete_process :
    (k pid : ℕ) (ps qs : List Pcb) (q : Pcb)
    → delete_process pid ps ≡ some (q, qs)
    → k ≢ pid
    → get_pcb k qs ≡ get_pcb k ps
unfolding get_pcb delete_process
get_pcb-delete_process k pid [] qs q e ne = ground arith
get_pcb-delete_process k pid (p ∷ ps) qs q e ne = elim (Option-cases (delete_process pid ps)) [
  | inl missing ↦ ground arith
  | inr ((d, ds), found) ↦ ground (arith, get_pcb-delete_process k pid ps ds d found)
]

Points-forget :
    (p : Pcb) (next : Option ℕ) (c : Cursor) (ps qs : List Pcb)
    → ((k : ℕ) → k ≢ p.pid → get_pcb k qs ≡ get_pcb k ps)
    → Points c ps
    → Points (forget p next c) qs
unfolding forget
Points-forget p next unset ps qs keep h = tt
Points-forget p next idle ps qs keep h = tt
Points-forget p next (freed q none) ps qs keep h = h
Points-forget p next (freed q (some n)) ps qs keep h = h
Points-forget p next (running pid) ps qs keep h = elim (Bool-cases (p.pid == pid)) [
  | inl here ↦ rw here refl
  | inr away ↦ rw away (h.0, keep pid (λ e. ==→ne p.pid pid away (sym e)) ∙ h.1)
]

delete_process-none :
    (pid : ℕ) (ps : List Pcb) → delete_process pid ps ≡ none → get_pcb pid ps ≡ none
unfolding get_pcb delete_process
delete_process-none pid [] e = refl
delete_process-none pid (p ∷ ps) e = elim (Option-cases (delete_process pid ps)) [
  | inl missing ↦ ground (arith, delete_process-none pid ps missing)
  | inr ((d, ds), found) ↦ ground arith
]

pub delete_process-found :
    (pid : ℕ) (ps qs : List Pcb) (q : Pcb)
    → delete_process pid ps ≡ some (q, qs)
    → get_pcb pid ps ≡ some q
unfolding get_pcb delete_process
delete_process-found pid [] qs q e = ground arith
delete_process-found pid (p ∷ ps) qs q e = elim (Option-cases (delete_process pid ps)) [
  | inl missing ↦ ground arith
  | inr ((d, ds), found) ↦ ground (arith, delete_process-found pid ps ds d found)
]

Absent-get_pcb : (pid : ℕ) (ps : List Pcb) → Absent pid ps → get_pcb pid ps ≡ none
unfolding get_pcb
Absent-get_pcb pid [] a = refl
Absent-get_pcb pid (p ∷ ps) a = rw (ne→== p.pid pid a.0) (Absent-get_pcb pid ps a.1)

-- Taking a process out of the list keeps the invariant. Its pid is then free, and every other
-- process is found as before.
pub remove_process-IsValid :
    (pid : ℕ) (s : Scheduler)
    → IsValid s
    → let (s', gone) = remove_process pid s in
      IsValid s'
      × (get_pcb pid s'.processes ≡ none)
      × (gone ≡ get_pcb pid s.processes)
      × ((k : ℕ) → k ≢ pid → get_pcb k s'.processes ≡ get_pcb k s.processes)
unfolding remove_process
remove_process-IsValid pid s v = elim (Option-cases (delete_process pid s.processes)) [
  | inl missing ↦
      let absent = delete_process-none pid s.processes missing in
      rw (missing, remove_process) (v, absent, sym absent, λ k ne. refl)
  | inr ((p, ps), found) ↦
      let gone = delete_process-Distinct pid s.processes ps p found v.distinct in
      let others =
        λ (k : ℕ) (ne : k ≢ pid). get_pcb-delete_process k pid s.processes ps p found ne in
      rw (found, remove_process)
        (
          record {
            processes_ok = (delete_process-All _ pid s.processes ps p found v.processes_ok).1;
            distinct = gone.2;
            sorted = delete_process-IsSorted pid s.processes ps p found v.sorted;
            points =
                Points-forget p _ s.current s.processes ps (λ k ne. others k (rw gone.0 at ne))
                  v.points;
            dummy_pid = v.dummy_pid;
            no_quantum = v.no_quantum;
            counter = v.counter;
          },
          Absent-get_pcb pid ps gone.1,
          sym (delete_process-found pid s.processes ps p found),
          others,
        )
]

remove_process-fg_taken : (pid : ℕ) (s : Scheduler) → (remove_process pid s).0.fg_taken ≡ s.fg_taken
unfolding remove_process
remove_process-fg_taken pid s = ground arith

-- `killPid` keeps the invariant, never touches the shell or the dummy, and takes any other process
-- out of the list and no other with it. The process that had the foreground may be the one: the
-- record of a foreground process stays as it was.
pub kill_pid-IsValid :
    (pid : ℕ) (s : Scheduler)
    → IsValid s
    → let (s', gone) = kill_pid pid s in
      IsValid s'
      × (((pid ≤ 1) × (s' ≡ s) × (gone ≡ none))
          ⊎ ((1 < pid) × (get_pcb pid s'.processes ≡ none) × (gone ≡ get_pcb pid s.processes)))
      × ((k : ℕ) → k ≢ pid → get_pcb k s'.processes ≡ get_pcb k s.processes)
      × (s'.fg_taken ≡ s.fg_taken)
unfolding kill_pid
kill_pid-IsValid pid s v = elim (Bool-cases (ltb 1 pid)) [
  | inl other ↦
      let r = remove_process-IsValid pid s v in
      rw other (r.0, inr (ltb→lt 1 pid other, r.1, r.2), r.3, remove_process-fg_taken pid s)
  | inr shell ↦ rw shell (v, inl (ltb→le 1 pid shell, refl, refl), (λ k ne. refl), refl)
]

-- `exitCurrentProcess` keeps the invariant, releases the foreground if the process had it, and takes
-- the process out of the list.
pub exit_current_process-IsValid :
    (s : Scheduler) (c : Pcb)
    → IsValid s
    → current_process s ≡ some c
    → (s' : Scheduler) × (gone : Option Pcb) × (exit_current_process s ≡ some (s', gone))
      × IsValid s'
      × (get_pcb c.pid s'.processes ≡ none)
      × ((c.priority ≢ 1) ⊎ (s'.fg_taken ≡ 0))
unfolding exit_current_process
exit_current_process-IsValid s c v at = elim (Bool-cases (c.priority == 1)) [
  | inl fore ↦
      let s₀ = record s { fg_taken = 0 } in
      let v₀ : IsValid s₀ = record {
        processes_ok = v.processes_ok;
        distinct = v.distinct;
        sorted = v.sorted;
        points = v.points;
        dummy_pid = v.dummy_pid;
        no_quantum = v.no_quantum;
        counter = v.counter;
      } in
      let r = remove_process-IsValid c.pid s₀ v₀ in
      (
        (remove_process c.pid s₀).0,
        (remove_process c.pid s₀).1,
        rw (at, ◌>>=◌, fore),
        r.0,
        r.1,
        inr (remove_process-fg_taken c.pid s₀),
      )
  | inr back ↦
      let r = remove_process-IsValid c.pid s v in
      (
        (remove_process c.pid s).0,
        (remove_process c.pid s).1,
        rw (at, ◌>>=◌, back),
        r.0,
        r.1,
        inl (==→ne c.priority 1 back),
      )
]

-- A block of whatever a cursor points to.
modify_pointed-IsValid :
    (c : Cursor) (s : Scheduler)
    → c ≡ s.current
    → IsValid s
    → IsValid (modify_pointed c (set_state 0) s)
unfolding modify_pointed
modify_pointed-IsValid unset s e v = v
modify_pointed-IsValid idle s e v = record {
  processes_ok = v.processes_ok;
  distinct = v.distinct;
  sorted = v.sorted;
  points = v.points;
  dummy_pid = v.dummy_pid;
  no_quantum = v.no_quantum;
  counter = v.counter;
}
modify_pointed-IsValid (running pid) s e v = set_state-IsValid 0 pid s v
modify_pointed-IsValid (freed p next) s e v = record {
  processes_ok = v.processes_ok;
  distinct = v.distinct;
  sorted = v.sorted;
  points = refl;
  dummy_pid = v.dummy_pid;
  no_quantum = v.no_quantum;
  counter = v.counter;
}

-- `blockCurrentProcess` keeps the invariant.
pub block_current_process-IsValid :
    (s s' : Scheduler) (pid : ℕ) → IsValid s → block_current_process s ≡ some (s', pid) → IsValid s'
unfolding block_current_process modify_current
block_current_process-IsValid s s' pid v e = elim (Option-cases (current_process s)) [
  | inl fault ↦ absurd (ground arith)
  | inr (c, at) ↦
      let same : modify_pointed s.current (set_state 0) s ≡ s' = ground arith in
      subst IsValid same (modify_pointed-IsValid s.current s refl v)
]

pub exit_current_process-none :
    (s : Scheduler) → current_process s ≡ none → exit_current_process s ≡ none
unfolding exit_current_process
exit_current_process-none s e = rw e
