-- ===== src/Scheduler/Lists.antt =====
-- The loops over the process list of Kernel/utils/scheduler.c: what they keep.
use bit_shell_os.Base.{
  ℕ, ◌≤◌, ◌≡◌, ◌≢◌, refl, some, List, [], ◌∷◌, ◌==◌, leb, arith, All, Option-cases, Bool-cases, inl,
  inr, sym, ne→==, eq→==,
}
use bit_shell_os.Process.{
  Pcb, insert_after, delete_process, modify, raise_priority, raise_priorities, get_pcb, from_pid,
  tail,
}

-- No process has the pid.
abbrev pub Absent : ℕ → List Pcb → Type 0
Absent pid = All (λ p. p.pid ≢ pid)

abbrev pub Distinct : List Pcb → Type 0
Distinct [] = Unit {0}
Distinct (p ∷ ps) = Absent p.pid ps × Distinct ps

-- The priorities rise from `lo` on.
abbrev pub Ascending : ℕ → List Pcb → Type 0
Ascending lo [] = Unit {0}
Ascending lo (p ∷ ps) = (lo ≤ p.priority) × Ascending p.priority ps

abbrev pub IsSorted : List Pcb → Type 0
IsSorted ps = Ascending 0 (tail ps)

-- A lookup of the process's own pid finds it.
abbrev pub IsFound : List Pcb → Pcb → Type 0
IsFound ps p = get_pcb p.pid ps ≡ some p

pub insert_after-All :
    (P : Pcb → Type 0) (p : Pcb) (ps : List Pcb) → P p → All P ps → All P (insert_after p ps)
unfolding insert_after
insert_after-All P p [] h hs = (h, tt)
insert_after-All P p (q ∷ qs) h hs = elim (Bool-cases (leb q.priority p.priority)) [
  | inl e ↦ rw e (hs.0, insert_after-All P p qs h hs.1)
  | inr e ↦ rw e (h, hs)
]

pub insert_after-Distinct :
    (p : Pcb) (ps : List Pcb) → Absent p.pid ps → Distinct ps → Distinct (insert_after p ps)
unfolding insert_after
insert_after-Distinct p [] h d = (tt, tt)
insert_after-Distinct p (q ∷ qs) h d = elim (Bool-cases (leb q.priority p.priority)) [
  | inl e ↦ rw e (
    insert_after-All (λ r. r.pid ≢ q.pid) p qs (λ c. h.0 (ground arith)) d.0,
    insert_after-Distinct p qs h.1 d.1,
  )
  | inr e ↦ rw e (h, d)
]

pub insert_after-Ascending :
    (lo : ℕ) (p : Pcb) (ps : List Pcb)
    → lo ≤ p.priority
    → Ascending lo ps
    → Ascending lo (insert_after p ps)
unfolding insert_after
insert_after-Ascending lo p [] h s = (h, tt)
insert_after-Ascending lo p (q ∷ qs) h s = ground (arith, insert_after-Ascending q.priority p qs)

pub Ascending-mono : (lo hi : ℕ) (ps : List Pcb) → lo ≤ hi → Ascending hi ps → Ascending lo ps
Ascending-mono lo hi [] h s = tt
Ascending-mono lo hi (p ∷ ps) h s = (omega arith, s.1)

pub delete_process-All :
    (P : Pcb → Type 0) (pid : ℕ) (ps qs : List Pcb) (q : Pcb)
    → delete_process pid ps ≡ some (q, qs)
    → All P ps
    → P q × All P qs
unfolding delete_process
delete_process-All P pid [] qs q e h = ground arith
delete_process-All P pid (p ∷ ps) qs q e h = elim (Option-cases (delete_process pid ps)) [
  | inl none_left ↦ ground arith
  | inr ((r, rs), found) ↦ ground (arith, delete_process-All P pid ps rs r found h.1)
]

pub delete_process-Ascending :
    (lo pid : ℕ) (ps qs : List Pcb) (q : Pcb)
    → delete_process pid ps ≡ some (q, qs)
    → Ascending lo ps
    → Ascending lo qs
unfolding delete_process
delete_process-Ascending lo pid [] qs q e h = ground arith
delete_process-Ascending lo pid (p ∷ ps) qs q e h = elim (Option-cases (delete_process pid ps)) [
  | inl none_left ↦ ground (arith, Ascending-mono lo p.priority ps)
  | inr ((r, rs), found) ↦ ground (
    arith,
    Ascending-mono lo p.priority ps,
    delete_process-Ascending p.priority pid ps rs r found,
  )
]

-- What is deleted has the pid, and nothing that stays has it.
pub delete_process-Distinct :
    (pid : ℕ) (ps qs : List Pcb) (q : Pcb)
    → delete_process pid ps ≡ some (q, qs)
    → Distinct ps
    → (q.pid ≡ pid) × Absent pid qs × Distinct qs
unfolding delete_process
delete_process-Distinct pid [] qs q e d = ground arith
delete_process-Distinct pid (p ∷ ps) qs q e d = elim (Bool-cases (p.pid == pid)) [
  | inl here ↦ ground (arith)
  | inr away ↦ elim (Option-cases (delete_process pid ps)) [
    | inl none_left ↦ ground arith
    | inr ((r, rs), found) ↦ ground (
      arith,
      delete_process-All (λ (x : Pcb). x.pid ≢ p.pid) pid ps rs r found d.0,
      delete_process-Distinct pid ps rs r found d.1,
    )
  ]
]

module _ (pid : ℕ) (f : Pcb → Pcb) where
  pub modify-All :
      (P : Pcb → Type 0) (ps : List Pcb)
      → ((p : Pcb) → P p → P (f p))
      → All P ps
      → All P (modify pid f ps)
  unfolding modify
  modify-All P [] keep h = tt
  modify-All P (p ∷ ps) keep h = elim (Bool-cases (p.pid == pid)) [
    | inl e ↦ rw e (keep p h.0, h.1)
    | inr e ↦ rw e (h.0, modify-All P ps keep h.1)
  ]

  pub modify-Distinct :
      (ps : List Pcb) → ((p : Pcb) → (f p).pid ≡ p.pid) → Distinct ps → Distinct (modify pid f ps)
  unfolding modify
  modify-Distinct [] same d = tt
  modify-Distinct (p ∷ ps) same d = elim (Bool-cases (p.pid == pid)) [
    | inl e ↦ rw (e, same p) d
    | inr e ↦
        rw e (
          modify-All (λ r. r.pid ≢ p.pid) ps (λ r h. rw (same r) h) d.0,
          modify-Distinct ps same d.1,
        )
  ]

  pub modify-Ascending :
      (lo : ℕ) (ps : List Pcb)
      → ((p : Pcb) → (f p).priority ≡ p.priority)
      → Ascending lo ps
      → Ascending lo (modify pid f ps)
  unfolding modify
  modify-Ascending lo [] same s = tt
  modify-Ascending lo (p ∷ ps) same s = ground (arith, same p, modify-Ascending p.priority ps same)

  pub modify-IsSorted :
      (ps : List Pcb)
      → ((p : Pcb) → (f p).priority ≡ p.priority)
      → IsSorted ps
      → IsSorted (modify pid f ps)
  unfolding modify tail
  modify-IsSorted [] same s = tt
  modify-IsSorted (p ∷ ps) same s = ground (arith, modify-Ascending 0 ps same)

  -- A lookup after a change.
  pub get_pcb-modify_self :
      (ps : List Pcb) (p : Pcb)
      → ((q : Pcb) → (f q).pid ≡ q.pid)
      → get_pcb pid ps ≡ some p
      → get_pcb pid (modify pid f ps) ≡ some (f p)
  unfolding get_pcb modify
  get_pcb-modify_self [] p same h = ground arith
  get_pcb-modify_self (q ∷ qs) p same h = ground (arith, same q, get_pcb-modify_self qs p same)

  pub get_pcb-modify_ne :
      (k : ℕ) (ps : List Pcb)
      → k ≢ pid
      → ((q : Pcb) → (f q).pid ≡ q.pid)
      → get_pcb k (modify pid f ps) ≡ get_pcb k ps
  unfolding get_pcb modify
  get_pcb-modify_ne k [] ne same = refl
  get_pcb-modify_ne k (q ∷ qs) ne same = ground (arith, same q, get_pcb-modify_ne k qs ne same)

pub get_pcb-pid : (pid : ℕ) (ps : List Pcb) (p : Pcb) → get_pcb pid ps ≡ some p → p.pid ≡ pid
unfolding get_pcb
get_pcb-pid pid [] p h = ground arith
get_pcb-pid pid (q ∷ qs) p h = ground (arith, get_pcb-pid pid qs p)

pub get_pcb-All :
    (P : Pcb → Type 0) (pid : ℕ) (ps : List Pcb) (p : Pcb)
    → get_pcb pid ps ≡ some p
    → All P ps
    → P p
unfolding get_pcb
get_pcb-All P pid [] p h a = ground arith
get_pcb-All P pid (q ∷ qs) p h a = elim (Bool-cases (q.pid == pid)) [
  | inl e ↦ ground arith
  | inr e ↦ get_pcb-All P pid qs p (rw e at h) a.1
]

IsFound-cons :
    (q : Pcb) (ps whole : List Pcb)
    → Absent q.pid ps
    → All (IsFound ps) whole
    → All (λ p. p.pid ≢ q.pid) whole
    → All (IsFound (q ∷ ps)) whole
unfolding get_pcb
IsFound-cons q ps [] a h d = tt
IsFound-cons q ps (p ∷ whole) a h d =
    (rw (ne→== q.pid p.pid (λ e. d.0 (sym e))) h.0, IsFound-cons q ps whole a h.1 d.1)

-- In a list of distinct pids every process is found.
pub Distinct-IsFound : (ps : List Pcb) → Distinct ps → All (IsFound ps) ps
unfolding get_pcb
Distinct-IsFound [] d = tt
Distinct-IsFound (p ∷ ps) d =
    (rw (eq→== p.pid p.pid refl), IsFound-cons p ps ps d.0 (Distinct-IsFound ps d.1) d.0)

pub from_pid-All : (P : Pcb → Type 0) (pid : ℕ) (ps : List Pcb) → All P ps → All P (from_pid pid ps)
unfolding from_pid
from_pid-All P pid [] h = tt
from_pid-All P pid (p ∷ ps) h = ground (arith, from_pid-All P pid ps h.1)

pub tail-All : (P : Pcb → Type 0) (ps : List Pcb) → All P ps → All P (tail ps)
unfolding tail
tail-All P [] h = tt
tail-All P (p ∷ ps) h = h.1

-- The round of rising priorities.
module _ (cur : ℕ) where
  pub raise_priorities-All :
      (P Q : Pcb → Type 0) (ps : List Pcb)
      → ((p : Pcb) → P p → Q (raise_priority cur p))
      → All P ps
      → All Q (raise_priorities cur ps)
  unfolding raise_priorities
  raise_priorities-All P Q [] keep h = tt
  raise_priorities-All P Q (p ∷ ps) keep h = (keep p h.0, raise_priorities-All P Q ps keep h.1)

  pub raise_priority_keeps :
      (p : Pcb)
      → ((raise_priority cur p).pid ≡ p.pid) × ((raise_priority cur p).priority ≡ p.priority)
  unfolding raise_priority
  raise_priority_keeps p = ground arith

  pub raise_priorities-Distinct : (ps : List Pcb) → Distinct ps → Distinct (raise_priorities cur ps)
  unfolding raise_priorities
  raise_priorities-Distinct [] d = tt
  raise_priorities-Distinct (p ∷ ps) d = (
    raise_priorities-All _ _ ps
        (λ q h. rw ((raise_priority_keeps p).0, (raise_priority_keeps q).0) h) d.0,
    raise_priorities-Distinct ps d.1,
  )

  pub raise_priorities-Ascending :
      (lo : ℕ) (ps : List Pcb) → Ascending lo ps → Ascending lo (raise_priorities cur ps)
  unfolding raise_priorities
  raise_priorities-Ascending lo [] s = tt
  raise_priorities-Ascending lo (p ∷ ps) s =
      ground (arith, raise_priority_keeps p, raise_priorities-Ascending p.priority ps)

  pub raise_priorities-IsSorted : (ps : List Pcb) → IsSorted ps → IsSorted (raise_priorities cur ps)
  unfolding raise_priorities tail
  raise_priorities-IsSorted [] s = tt
  raise_priorities-IsSorted (p ∷ ps) s = raise_priorities-Ascending 0 ps s

  -- The current process is the same.
  pub get_pcb-raise_priorities :
      (k : ℕ) (ps : List Pcb) (p : Pcb)
      → get_pcb k ps ≡ some p
      → get_pcb k (raise_priorities cur ps) ≡ some (raise_priority cur p)
  unfolding get_pcb raise_priorities
  get_pcb-raise_priorities k [] p h = ground arith
  get_pcb-raise_priorities k (q ∷ qs) p h =
      ground (arith, raise_priority_keeps q, get_pcb-raise_priorities k qs p)
