-- ===== src/Scheduler/Priority.antt =====
-- `changeProcessPriority` of Kernel/utils/scheduler.c.
use bit_shell_os.Base.{
  ℕ, ◌≤◌, ◌<◌, ◌≡◌, ◌≢◌, refl, leb, ltb, ◌||◌, Option-cases, sym, ap, subst, ◌∙◌, none, some, List,
  [], ◌∷◌, ◌==◌, ◌>>=◌, arith, All, Bool-cases, inl, inr, ne→==, ==→ne, ==→eq, if◌then◌else◌,
}
use bit_shell_os.Process.{Pcb, get_pcb, tail, insert_after, delete_process, move_process}
use bit_shell_os.Scheduler.{Scheduler, change_process_priority}
use bit_shell_os.Scheduler.Lists.{
  Distinct, IsSorted, insert_after-All, insert_after-Distinct, insert_after-Ascending,
  delete_process-All, delete_process-Ascending, delete_process-Distinct, get_pcb-pid, get_pcb-All,
}
use bit_shell_os.Scheduler.Invariant.{IsValid, IsProcess, Points-mono, get_pcb-insert_after_self}
use bit_shell_os.Scheduler.Removal.{get_pcb-delete_process}

get_pcb-insert_after_ne :
    (p : Pcb) (k : ℕ) (ps : List Pcb) → k ≢ p.pid → get_pcb k (insert_after p ps) ≡ get_pcb k ps
unfolding get_pcb insert_after
get_pcb-insert_after_ne p k [] ne = rw (ne→== p.pid k (λ e. ne (sym e)))
get_pcb-insert_after_ne p k (r ∷ rs) ne = ground (arith, get_pcb-insert_after_ne p k rs ne)

get_pcb-delete_some :
    (pid : ℕ) (ps : List Pcb) (p : Pcb)
    → get_pcb pid ps ≡ some p
    → (rest : List Pcb) × (delete_process pid ps ≡ some (p, rest))
unfolding get_pcb delete_process
get_pcb-delete_some pid [] p e = absurd (cc)
get_pcb-delete_some pid (q ∷ qs) p e = elim (Bool-cases (q.pid == pid)) [
  | inl here ↦ (qs, ground arith)
  | inr away ↦
      let (rest, found) = get_pcb-delete_some pid qs p (rw away at e) in
      (q ∷ rest, rw (away, found, ◌>>=◌))
]

-- Moving a process, with another priority and level in it, to its place behind the head.
pub move_process_lem :
    (p h q : Pcb) (t : List Pcb)
    → h.pid ≢ p.pid
    → get_pcb p.pid t ≡ some q
    → Distinct (h ∷ t)
    → IsSorted (h ∷ t)
    → (ps : List Pcb) × (move_process p (h ∷ t) ≡ some ps)
      × Distinct ps
      × IsSorted ps
      × (get_pcb p.pid ps ≡ some p)
      × ((k : ℕ) → k ≢ p.pid → get_pcb k ps ≡ get_pcb k (h ∷ t))
      × ((P : Pcb → Type 0) → P p → All P (h ∷ t) → All P ps)
unfolding move_process get_pcb tail
move_process_lem p h q t head at d s =
    let (rest, found) = get_pcb-delete_some p.pid t q at in
    let gone = delete_process-Distinct p.pid t rest q found d.1 in
    (
      h ∷ insert_after p rest,
      rw (ne→== h.pid p.pid head, found, ◌>>=◌),
      (
        insert_after-All (λ r. r.pid ≢ h.pid) p rest (λ e. head (sym e))
            (delete_process-All _ p.pid t rest q found d.0).1,
        insert_after-Distinct p rest gone.1 gone.2,
      ),
      insert_after-Ascending 0 p rest (omega arith)
          (delete_process-Ascending 0 p.pid t rest q found s),
      ap (λ x. if x then some h else get_pcb p.pid (insert_after p rest)) (ne→== h.pid p.pid head)
          ∙ get_pcb-insert_after_self p rest gone.1,
      (λ k ne.
          ap (λ x. if h.pid == k then some h else x)
            (get_pcb-insert_after_ne p k rest ne
              ∙ get_pcb-delete_process k p.pid t rest q found ne)),
      (λ P hp hs.
          (hs.0, insert_after-All P p rest hp (delete_process-All P p.pid t rest q found hs.1).1)),
    )

cons_found :
    (pid : ℕ) (h p : Pcb) (t : List Pcb)
    → h.pid ≢ pid
    → get_pcb pid t ≡ some p
    → get_pcb pid (h ∷ t) ≡ some p
unfolding get_pcb
cons_found pid h p t ne at = rw (ne→== h.pid pid ne) at

run :
    (pid new : ℕ) (s : Scheduler) (q p : Pcb) (ps : List Pcb)
    → 1 < pid
    → 1 < new
    → new ≤ 10
    → get_pcb pid s.processes ≡ some p
    → move_process (record p { priority = new; aux_priority = new }) s.processes ≡ some ps
    → change_process_priority pid new s ≡ some (record s { processes = ps })
unfolding change_process_priority
run pid new s q p ps other low high at moved = ground arith

-- A legal change of the priority of a process behind the head does not fault and keeps the
-- invariant, the order of the list included: the process is found with the new priority and level
-- and all else of it unchanged, and every other process as before.
pub change_process_priority-IsValid :
    (pid new : ℕ) (s : Scheduler) (h p : Pcb) (t : List Pcb)
    → IsValid s
    → 1 < pid
    → 1 < new
    → new ≤ 10
    → s.processes ≡ h ∷ t
    → h.pid ≢ pid
    → get_pcb pid t ≡ some p
    → (s' : Scheduler) × (change_process_priority pid new s ≡ some s')
      × IsValid s'
      × (get_pcb pid s'.processes ≡ some (record p { priority = new; aux_priority = new }))
      × ((k : ℕ) → k ≢ pid → get_pcb k s'.processes ≡ get_pcb k s.processes)
unfolding change_process_priority
change_process_priority-IsValid pid new s h p t v other low high list head at =
    let q = record p { priority = new; aux_priority = new } in
    let same : p.pid ≡ pid = get_pcb-pid pid t p at in
    let whole : get_pcb pid (h ∷ t) ≡ some p = cons_found pid h p t head at in
    let ok : All (IsProcess s.next_pid) (h ∷ t) = rw list at v.processes_ok in
    let (ps, moved, d, sorted, self, others, all) =
      move_process_lem q h p t (λ e. head (e ∙ same))
        (subst (λ k. get_pcb k t ≡ some p) (sym same) at) (rw list at v.distinct)
        (rw list at v.sorted) in
    let found = subst (λ k. get_pcb k ps ≡ some q) same self in
    let kept =
      λ (k : ℕ) (ne : k ≢ pid). others k (λ e. ne (e ∙ same)) ∙ sym (ap (get_pcb k) list) in
    let mine = get_pcb-All (IsProcess s.next_pid) pid (h ∷ t) p whole ok in
    (
      record s { processes = ps },
      run pid new s q p ps other low high (ap (get_pcb pid) list ∙ whole)
          (ap (move_process q) list ∙ moved),
      record {
        processes_ok = all (IsProcess s.next_pid) (omega arith) ok;
        distinct = d;
        sorted = sorted;
        points =
            Points-mono s.current s.processes ps
              (λ k r e. elim (Bool-cases (k == pid)) [
                | inl here ↦ (q, ap (λ j. get_pcb j ps) (==→eq k pid here) ∙ found)
                | inr away ↦ (r, kept k (==→ne k pid away) ∙ e)
              ])
              v.points;
        dummy_pid = v.dummy_pid;
        no_quantum = v.no_quantum;
        counter = v.counter;
      },
      found,
      kept,
    )

-- Where the process is the head of the list, the loop that looks for the node before it runs off
-- the list.
pub change_process_priority_faults :
    (pid new : ℕ) (s : Scheduler) (h : Pcb) (t : List Pcb)
    → 1 < pid
    → 1 < new
    → new ≤ 10
    → s.processes ≡ h ∷ t
    → h.pid ≡ pid
    → change_process_priority pid new s ≡ none
unfolding change_process_priority move_process get_pcb
change_process_priority_faults pid new s h t other low high list head = rw list (ground arith)

tail_found :
    (pid : ℕ) (h p : Pcb) (t : List Pcb)
    → h.pid ≢ pid
    → get_pcb pid (h ∷ t) ≡ some p
    → get_pcb pid t ≡ some p
unfolding get_pcb
tail_found pid h p t ne at = rw (ne→== h.pid pid ne) at at

legal_change-valid :
    (pid new : ℕ) (s s' : Scheduler) (p : Pcb) (ps : List Pcb)
    → IsValid s
    → 1 < pid
    → 1 < new
    → new ≤ 10
    → s.processes ≡ ps
    → get_pcb pid ps ≡ some p
    → change_process_priority pid new s ≡ some s'
    → IsValid s'
unfolding get_pcb
legal_change-valid pid new s s' p [] v other low high list at e = absurd (cc)
legal_change-valid pid new s s' p (h ∷ t) v other low high list at e =
    elim (Bool-cases (h.pid == pid)) [
      | inl head ↦
          let fault =
            change_process_priority_faults pid new s h t other low high list
              (==→eq h.pid pid head) in
          absurd (cc)
      | inr behind ↦
          let ne = ==→ne h.pid pid behind in
          let (s'', e'', w, self, rest) =
            change_process_priority-IsValid pid new s h p t v other low high list ne
              (tail_found pid h p t ne at) in
          let same : some s'' ≡ some s' = sym e'' ∙ e in subst IsValid (cc) w
    ]

-- Whatever `changeProcessPriority` returns with is valid.
pub change_process_priority-valid :
    (pid new : ℕ) (s s' : Scheduler)
    → IsValid s
    → change_process_priority pid new s ≡ some s'
    → IsValid s'
unfolding change_process_priority
change_process_priority-valid pid new s s' v e = elim (Bool-cases (leb pid 1)) [
  | inl shell ↦ (let same : s ≡ s' = ground arith in subst IsValid same v)
  | inr other ↦ elim (Bool-cases (leb new 1 || ltb 10 new)) [
    | inl illegal ↦ (let same : s ≡ s' = ground arith in subst IsValid same v)
    | inr legal ↦ elim (Option-cases (get_pcb pid s.processes)) [
      | inl missing ↦ (let same : s ≡ s' = ground arith in subst IsValid same v)
      | inr (p, found) ↦
          legal_change-valid pid new s s' p s.processes v (ground arith) (ground arith)
            (ground arith) refl found e
    ]
  ]
]
