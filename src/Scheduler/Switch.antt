-- ===== src/Scheduler/Switch.antt =====
-- `switchProcess` of Kernel/utils/scheduler.c as a whole: the invariant, and who runs next.
use bit_shell_os.Base.{
  ℕ, ◌-◌, ◌≡◌, refl, sym, ap, subst, ◌∙◌, none, some, true, false, ◌==◌, arith, Option-cases,
  Bool-cases, inl, inr, ◌⊎◌, Option, List, [], ◌∷◌, ==→eq, eq→==,
}
use bit_shell_os.Process.{Pcb, is_ready, get_pcb, raise_priority, reset_aux}
use bit_shell_os.Scheduler.{
  Scheduler, Cursor, unset, idle, running, freed, pointed, current_process, modify_pointed,
  modify_current, spend_priority_quantum, pick, dispatch, switch_process, full_quantum, go_to,
}
use bit_shell_os.Scheduler.Lists.{
  IsFound, Distinct-IsFound, get_pcb-modify_self, get_pcb-pid, raise_priorities-All,
  raise_priorities-Distinct, raise_priorities-IsSorted, get_pcb-raise_priorities,
}
use bit_shell_os.Scheduler.Invariant.{IsValid, IsProcess, Points, Points-mono, modify-IsValid}
use bit_shell_os.Scheduler.Choice.{pick_lem}

raise_priority-IsProcess :
    (next cur : ℕ) (p : Pcb) → IsProcess next p → IsProcess next (raise_priority cur p)
unfolding raise_priority
raise_priority-IsProcess next cur p h = ground arith

spend_priority_quantum-IsValid :
    (s : Scheduler) (cur : ℕ) → IsValid s → IsValid (spend_priority_quantum s cur)
unfolding spend_priority_quantum
spend_priority_quantum-IsValid s cur v = elim (Bool-cases (s.priority_quantum == 0)) [
  | inl spent ↦ rw spent (record {
    processes_ok =
        raise_priorities-All cur _ _ s.processes (raise_priority-IsProcess s.next_pid cur)
          v.processes_ok;
    distinct = raise_priorities-Distinct cur s.processes v.distinct;
    sorted = raise_priorities-IsSorted cur s.processes v.sorted;
    points =
        Points-mono s.current s.processes _
          (λ k q e. (raise_priority cur q, get_pcb-raise_priorities cur k s.processes q e))
          v.points;
    dummy_pid = v.dummy_pid;
    no_quantum = v.no_quantum;
    counter = v.counter;
  })
  | inr left ↦ rw left (record {
    processes_ok = v.processes_ok;
    distinct = v.distinct;
    sorted = v.sorted;
    points = v.points;
    dummy_pid = v.dummy_pid;
    no_quantum = v.no_quantum;
    counter = v.counter;
  })
]

abbrev set_sp : ℕ → Pcb → Pcb
set_sp sp p = record p { sp = sp }

save_sp-IsValid :
    (c : Cursor) (sp : ℕ) (s : Scheduler)
    → c ≡ s.current
    → IsValid s
    → IsValid (modify_pointed c (set_sp sp) s)
unfolding modify_pointed
save_sp-IsValid unset sp s e v = v
save_sp-IsValid idle sp s e v = record {
  processes_ok = v.processes_ok;
  distinct = v.distinct;
  sorted = v.sorted;
  points = v.points;
  dummy_pid = v.dummy_pid;
  no_quantum = v.no_quantum;
  counter = v.counter;
}
save_sp-IsValid (running pid) sp s e v =
    modify-IsValid pid (set_sp sp) (λ p. refl) (λ p. refl) (λ p h k. (h, k)) s v
save_sp-IsValid (freed p next) sp s e v = record {
  processes_ok = v.processes_ok;
  distinct = v.distinct;
  sorted = v.sorted;
  points = freed_unready p next s e v.points;
  dummy_pid = v.dummy_pid;
  no_quantum = v.no_quantum;
  counter = v.counter;
}
  where
    freed_unready :
        (p : Pcb) (next : Option ℕ) (s : Scheduler)
        → freed p next ≡ s.current
        → Points s.current s.processes
        → is_ready p ≡ false
    freed_unready p next s e h = subst (λ c. Points c s.processes) (sym e) h

-- Who has the processor after a switch: the dummy at its stack pointer, or a ready process of the
-- list at its stack pointer, with its level back at its priority.
abbrev pub Resumes : Scheduler → ℕ → Type 0
Resumes s sp =
    ((s.current ≡ idle) × (sp ≡ s.dummy.sp))
    ⊎ ((p : Pcb) × (s.current ≡ running p.pid)
        × (get_pcb p.pid s.processes ≡ some p)
        × (is_ready p ≡ true)
        × (p.aux_priority ≡ p.priority)
        × (sp ≡ p.sp))

-- The choice of a valid scheduler is a node of the list.
go_to-Points : (c : Cursor) (ps : List Pcb) (p : Pcb) → Points c ps → go_to c p ≡ running p.pid
unfolding go_to
go_to-Points unset ps p h = refl
go_to-Points idle ps p h = refl
go_to-Points (running pid) ps p h = refl
go_to-Points (freed q next) ps p h = elim (Bool-cases (q.pid == p.pid)) [
  | inl same ↦ rw (same, h) refl
  | inr other ↦ rw other refl
]

dispatch-IsValid :
    (s : Scheduler) (r : Option Pcb)
    → IsValid s
    → (r ≡ none) ⊎ ((p : Pcb) × (r ≡ some p) × (is_ready p ≡ true) × IsFound s.processes p)
    → let (s', sp) = dispatch s r in IsValid s' × Resumes s' sp
unfolding dispatch
dispatch-IsValid s r v (inl e) =
    rw (e, dispatch)
      (
        record {
          processes_ok = v.processes_ok;
          distinct = v.distinct;
          sorted = v.sorted;
          points = tt;
          dummy_pid = v.dummy_pid;
          no_quantum = v.no_quantum;
          counter = v.counter;
        },
        inl (refl, refl),
      )
dispatch-IsValid s r v (inr (p, e, ready, found)) =
    rw (e, dispatch, go_to-Points s.current s.processes p v.points)
      (let w = modify-IsValid p.pid reset_aux (λ p. refl) (λ p. refl) (λ p h k. omega arith) s v in
        let at = get_pcb-modify_self p.pid reset_aux s.processes p (λ q. refl) found in
        (
          record {
            processes_ok = w.processes_ok;
            distinct = w.distinct;
            sorted = w.sorted;
            points = (reset_aux p, at);
            dummy_pid = w.dummy_pid;
            no_quantum = w.no_quantum;
            counter = w.counter;
          },
          inr (reset_aux p, refl, at, ready, refl, refl),
        ))

pointed_cases :
    (c : Cursor) (s : Scheduler) (cur : Pcb)
    → c ≡ s.current
    → IsValid s
    → pointed c s ≡ some cur
    → ((cur.pid ≡ 0) ⊎ (is_ready cur ≡ false)) ⊎ IsFound s.processes cur
unfolding pointed
pointed_cases unset s cur e v at = absurd (cc)
pointed_cases idle s cur e v at = inl (inl (ground (arith, v.dummy_pid)))
pointed_cases (running pid) s cur e v at =
    inr (ap (λ k. get_pcb k s.processes) (get_pcb-pid pid s.processes cur at) ∙ at)
pointed_cases (freed p next) s cur e v at =
    let same : p ≡ cur = ground arith in
    inl (
      inr
        (subst (λ q. is_ready q ≡ false) same (subst (λ c. Points c s.processes) (sym e) v.points)))

-- The part of the switch after the priorities have been seen to.
chosen-IsValid :
    (s s' : Scheduler) (cur : Pcb) (choice : Option Pcb) (r : ℕ)
    → IsValid s
    → current_process s ≡ some cur
    → pick s cur ≡ some choice
    → dispatch s choice ≡ (s', r)
    → IsValid s' × Resumes s' r
unfolding current_process
chosen-IsValid s s' cur choice r v at picked e =
    let cases = pointed_cases s.current s cur refl v at in
    let found = Distinct-IsFound s.processes v.distinct in
    let result = dispatch-IsValid s choice v (elim (Option-cases choice) [
      | inl n ↦ inl n
      | inr (p, n) ↦
          let (ready, mine) =
            pick_lem (IsFound s.processes) s cur p (picked ∙ ap some n) found cases in
          inr (p, n, ready, mine)
    ]) in
    subst (λ x. IsValid x.0 × Resumes x.0 x.1) e result

-- A switch after the first that meets no null pointer keeps the invariant, and gives the processor
-- to a ready process of the list, with its level reset to its priority, or to the dummy.
pub switch_process-IsValid :
    (s s' : Scheduler) (sp r : ℕ)
    → s.first_process ≡ 0
    → IsValid s
    → switch_process s sp ≡ some (s', r)
    → IsValid s' × Resumes s' r
unfolding switch_process modify_current
switch_process-IsValid s s' sp r started v e = elim (Option-cases (current_process s)) [
  | inl fault ↦ absurd (ground (arith, v.no_quantum))
  | inr (c, at) ↦
      let s₁ = record s { quantum = full_quantum - 1 } in
      let v₁ : IsValid s₁ = record {
        processes_ok = v.processes_ok;
        distinct = v.distinct;
        sorted = v.sorted;
        points = v.points;
        dummy_pid = v.dummy_pid;
        no_quantum = refl;
        counter = v.counter;
      } in
      let s₂ = spend_priority_quantum s₁ c.pid in
      let v₂ = spend_priority_quantum-IsValid s₁ c.pid v₁ in
      let s₃ = modify_pointed s₂.current (set_sp sp) s₂ in
      let v₃ = save_sp-IsValid s₂.current sp s₂ refl v₂ in
      elim (Option-cases (current_process s₃)) [
        | inl fault ↦ absurd (ground (arith, v.no_quantum))
        | inr (cur, at₃) ↦ elim (Option-cases (pick s₃ cur)) [
          | inl fault ↦ absurd (ground (arith, v.no_quantum))
          | inr (choice, picked) ↦
              chosen-IsValid s₃ s' cur choice r v₃ at₃ picked (ground (arith, v.no_quantum))
        ]
      ]
]

get_pcb_head : (p : Pcb) (ps : List Pcb) → get_pcb p.pid (p ∷ ps) ≡ some p
unfolding get_pcb
get_pcb_head p ps = rw (eq→== p.pid p.pid refl)

-- The first switch starts the head of the list.
first_switch-IsValid :
    (s s' : Scheduler) (sp r : ℕ) (ps : List Pcb)
    → (s.first_process == 0) ≡ false
    → s.processes ≡ ps
    → IsValid s
    → switch_process s sp ≡ some (s', r)
    → IsValid s'
unfolding switch_process
first_switch-IsValid s s' sp r [] first list v e = absurd (ground arith)
first_switch-IsValid s s' sp r (p ∷ ps) first list v e =
    let same : record s { first_process = 0; current = running p.pid } ≡ s' = ground arith in
    subst IsValid same (record {
      processes_ok = v.processes_ok;
      distinct = v.distinct;
      sorted = v.sorted;
      points = (p, ap (get_pcb p.pid) list ∙ get_pcb_head p ps);
      dummy_pid = v.dummy_pid;
      no_quantum = v.no_quantum;
      counter = v.counter;
    })

pub first_switch :
    (s : Scheduler) (sp : ℕ) (p : Pcb) (ps : List Pcb)
    → (s.first_process == 0) ≡ false
    → s.processes ≡ p ∷ ps
    → switch_process s sp ≡ some (record s { first_process = 0; current = running p.pid }, p.sp)
unfolding switch_process
first_switch s sp p ps first list = ground arith

-- Every switch that meets no null pointer keeps the invariant.
pub switch_process_keeps :
    (s s' : Scheduler) (sp r : ℕ) → IsValid s → switch_process s sp ≡ some (s', r) → IsValid s'
switch_process_keeps s s' sp r v e = elim (Bool-cases (s.first_process == 0)) [
  | inl started ↦ (switch_process-IsValid s s' sp r (==→eq s.first_process 0 started) v e).0
  | inr first ↦ first_switch-IsValid s s' sp r s.processes first refl v e
]
