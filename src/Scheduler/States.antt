-- ===== src/Scheduler/States.antt =====
-- The states of the processes under `switchProcess`, blocks and wake-ups (Kernel/utils/scheduler.c).
use bit_shell_os.Base.{
  ℕ, ◌-◌, ◌≡◌, ◌≢◌, refl, sym, ap, subst, ◌∙◌, none, some, true, ◌==◌, arith, Option-cases,
  Bool-cases, inl, inr, Option, List, [], ◌∷◌,
}
use bit_shell_os.Process.{
  Pcb, is_ready, get_pcb, modify, raise_priority, raise_priorities, reset_aux, set_state,
}
use bit_shell_os.Scheduler.{
  Scheduler, Cursor, unset, idle, running, freed, current_process, pointed, modify_pointed,
  modify_current, spend_priority_quantum, pick, dispatch, switch_process, full_quantum,
  block_current_process, wake,
}
use bit_shell_os.Scheduler.Lists.{get_pcb-modify_self, get_pcb-modify_ne}
use bit_shell_os.Scheduler.Invariant.{IsValid}
use bit_shell_os.Scheduler.Switch.{switch_process-IsValid}

abbrev pub state : Option Pcb → Option ℕ
state none = none
state (some p) = some p.pstate

-- The state of the process with a pid, if there is one.
abbrev pub state_of : ℕ → List Pcb → Option ℕ
state_of k ps = state (get_pcb k ps)

-- A change that keeps pids and states keeps the state under every pid.
module _ (pid : ℕ) (f : Pcb → Pcb) (same_pid : (p : Pcb) → (f p).pid ≡ p.pid)
    (same_state : (p : Pcb) → (f p).pstate ≡ p.pstate) where
  state_of-modify : (k : ℕ) (ps : List Pcb) → state_of k (modify pid f ps) ≡ state_of k ps
  unfolding get_pcb modify
  state_of-modify k [] = refl
  state_of-modify k (p ∷ ps) = ground (arith, same_pid p, same_state p, state_of-modify k ps)

state_of-raise_priorities :
    (cur k : ℕ) (ps : List Pcb) → state_of k (raise_priorities cur ps) ≡ state_of k ps
unfolding get_pcb raise_priorities raise_priority
state_of-raise_priorities cur k [] = refl
state_of-raise_priorities cur k (p ∷ ps) = ground (arith, state_of-raise_priorities cur k ps)

state_of-spend_priority_quantum :
    (s : Scheduler) (cur k : ℕ)
    → state_of k (spend_priority_quantum s cur).processes ≡ state_of k s.processes
unfolding spend_priority_quantum
state_of-spend_priority_quantum s cur k = elim (Bool-cases (s.priority_quantum == 0)) [
  | inl spent ↦ rw spent (state_of-raise_priorities cur k s.processes)
  | inr left ↦ rw left refl
]

state_of-save_sp :
    (c : Cursor) (sp : ℕ) (s : Scheduler) (k : ℕ)
    → state_of k (modify_pointed c (λ p. record p { sp = sp }) s).processes ≡ state_of k s.processes
unfolding modify_pointed
state_of-save_sp unset sp s k = refl
state_of-save_sp idle sp s k = refl
state_of-save_sp (running pid) sp s k =
    state_of-modify pid (λ p. record p { sp = sp }) (λ p. refl) (λ p. refl) k s.processes
state_of-save_sp (freed p next) sp s k = refl

state_of-dispatch :
    (s : Scheduler) (r : Option Pcb) (k : ℕ)
    → state_of k (dispatch s r).0.processes ≡ state_of k s.processes
unfolding dispatch
state_of-dispatch s none k = refl
state_of-dispatch s (some p) k =
    state_of-modify p.pid reset_aux (λ q. refl) (λ q. refl) k s.processes

-- A switch changes the state of no process.
pub state_of-switch_process :
    (s s' : Scheduler) (sp r k : ℕ)
    → s.first_process ≡ 0
    → IsValid s
    → switch_process s sp ≡ some (s', r)
    → state_of k s'.processes ≡ state_of k s.processes
unfolding switch_process modify_current
state_of-switch_process s s' sp r k started v e = elim (Option-cases (current_process s)) [
  | inl fault ↦ absurd (ground (arith, v.no_quantum))
  | inr (c, at) ↦
      let s₁ = record s { quantum = full_quantum - 1 } in
      let s₂ = spend_priority_quantum s₁ c.pid in
      let s₃ = modify_pointed s₂.current (λ p. record p { sp = sp }) s₂ in
      elim (Option-cases (current_process s₃)) [
        | inl fault ↦ absurd (ground (arith, v.no_quantum))
        | inr (cur, at₃) ↦ elim (Option-cases (pick s₃ cur)) [
          | inl fault ↦ absurd (ground (arith, v.no_quantum))
          | inr (choice, picked) ↦
              let same : dispatch s₃ choice ≡ (s', r) = ground (arith, v.no_quantum) in
              ap (λ x. state_of k x.0.processes) (sym same)
              ∙ state_of-dispatch s₃ choice k
              ∙ state_of-save_sp s₂.current sp s₂ k
              ∙ state_of-spend_priority_quantum s₁ c.pid k
        ]
      ]
]

resumed_ready :
    (s : Scheduler) (r k : ℕ) (p : Pcb)
    → s.current ≡ running p.pid
    → get_pcb p.pid s.processes ≡ some p
    → is_ready p ≡ true
    → s.current ≡ running k
    → state_of k s.processes ≡ some 1
resumed_ready s r k p at found ready now =
    let same : p.pid ≡ k = (let both : running p.pid ≡ running k = sym at ∙ now in cc) in
    subst (λ j. state_of j s.processes ≡ some 1) same (ap state found ∙ ap some (ground arith))

-- A process whose state is not 1 is not the one that a switch goes on with.
pub switch_process_skips :
    (s s' : Scheduler) (sp r k : ℕ)
    → s.first_process ≡ 0
    → IsValid s
    → switch_process s sp ≡ some (s', r)
    → state_of k s.processes ≢ some 1
    → s'.current ≢ running k
switch_process_skips s s' sp r k started v e asleep now =
    elim (switch_process-IsValid s s' sp r started v e).1 [
      | inl (rests, at) ↦ (let both : idle ≡ running k = sym rests ∙ now in absurd (cc))
      | inr (p, at, found, ready, level, there) ↦ asleep (
          sym (state_of-switch_process s s' sp r k started v e)
          ∙ resumed_ready s' r k p at found ready now)
    ]

-- `blockCurrentProcess` of a process of the list.
pub block_current_process_running :
    (s : Scheduler) (c : Pcb)
    → s.current ≡ running c.pid
    → get_pcb c.pid s.processes ≡ some c
    → block_current_process s
      ≡ some (record s { processes = modify c.pid (set_state 0) s.processes }, c.pid)
unfolding block_current_process modify_current modify_pointed current_process pointed
block_current_process_running s c at found = rw (at, pointed, found) refl

pub current_process_running :
    (s : Scheduler) (c : Pcb)
    → s.current ≡ running c.pid
    → get_pcb c.pid s.processes ≡ some c
    → current_process s ≡ some c
unfolding current_process pointed
current_process_running s c at found = rw (at, pointed) found

pub state_of-block :
    (s : Scheduler) (c : Pcb)
    → get_pcb c.pid s.processes ≡ some c
    → state_of c.pid (modify c.pid (set_state 0) s.processes) ≡ some 0
state_of-block s c found =
    ap state (get_pcb-modify_self c.pid (set_state 0) s.processes c (λ q. refl) found)

-- A wake-up of another process.
pub get_pcb-wake_ne :
    (pid k : ℕ) (s : Scheduler) → k ≢ pid → get_pcb k (wake pid s).processes ≡ get_pcb k s.processes
unfolding wake
get_pcb-wake_ne pid k s ne = get_pcb-modify_ne pid (set_state 1) k s.processes ne (λ q. refl)

pub get_pcb-wake_self :
    (s : Scheduler) (p : Pcb) (pid : ℕ)
    → get_pcb pid s.processes ≡ some p
    → get_pcb pid (wake pid s).processes ≡ some (set_state 1 p)
unfolding wake
get_pcb-wake_self s p pid found =
    get_pcb-modify_self pid (set_state 1) s.processes p (λ q. refl) found

pub wake-first_process : (pid : ℕ) (s : Scheduler) → (wake pid s).first_process ≡ s.first_process
unfolding wake
wake-first_process pid s = refl
