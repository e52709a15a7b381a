-- ===== src/Scheduler/Choice.antt =====
-- Which process `switchProcess` of Kernel/utils/scheduler.c picks.
use bit_shell_os.Base.{
  ℕ, ◌≤◌, ◌<◌, ◌≡◌, ◌≢◌, refl, sym, ap, subst, ◌∙◌, none, some, true, false, not, List, [], ◌∷◌,
  ◌==◌, ltb, ◌>>=◌, arith, All, Option-cases, Bool-cases, inl, inr, ◌⊎◌, Bool, ◌&&◌, Option, ne→==,
}
use bit_shell_os.Process.{Pcb, is_ready, from_pid, tail}
use bit_shell_os.Candidates.{
  better_next, scan_next, next_process, better_first, scan_first, settle_first, choose,
}
use bit_shell_os.Scheduler.{
  Scheduler, Cursor, pick, after_current, nodes_after, unset, idle, running, freed,
}
use bit_shell_os.Scheduler.Lists.{from_pid-All, tail-All}

-- Not ready, or at a level that is no better than the one of `p`.
abbrev pub Yields : Pcb → Pcb → Type 0
Yields p q = (is_ready q ≡ false) ⊎ (p.aux_priority ≤ q.aux_priority)

-- `p` is not ready and nothing in the list is, or it is ready and at the best level of the ready
-- ones.
abbrev pub IsBest : Pcb → List Pcb → Type 0
IsBest p ps =
    ((is_ready p ≡ false) × All (λ q. is_ready q ≡ false) ps)
    ⊎ ((is_ready p ≡ true) × All (Yields p) ps)

better_next_lem : (P : Pcb → Type 0) (next a : Pcb) → P next → P a → P (better_next next a)
unfolding better_next
better_next_lem P next a h k = elim (Bool-cases (is_ready next)) [
  | inl e ↦ elim (Bool-cases (ltb a.aux_priority next.aux_priority && is_ready a)) [
    | inl w ↦ rw (e, w) k
    | inr w ↦ rw (e, w) h
  ]
  | inr e ↦ elim (Bool-cases (ltb a.aux_priority a.aux_priority && is_ready a)) [
    | inl w ↦ rw (e, w) k
    | inr w ↦ rw (e, w) k
  ]
]

pub scan_next-All :
    (P : Pcb → Type 0) (next : Pcb) (ps : List Pcb) → P next → All P ps → P (scan_next next ps)
unfolding scan_next
scan_next-All P next [] h hs = h
scan_next-All P next (a ∷ more) h hs =
    scan_next-All P (better_next next a) more (better_next_lem P next a h hs.0) hs.1

pub scan_next-IsBest : (next : Pcb) (ps : List Pcb) → IsBest (scan_next next ps) (next ∷ ps)
unfolding scan_next better_next
scan_next-IsBest next [] = ground arith
scan_next-IsBest next (a ∷ more) = ground (arith, scan_next-IsBest (better_next next a) more)

-- The loop over the nodes before the current one ends at a node of the list, or past it.
better_first-All :
    (P : Pcb → Type 0) (fg : Bool) (first : List Pcb) (a : Pcb) (more r : List Pcb)
    → better_first fg first a more ≡ some r
    → All P first
    → All P (a ∷ more)
    → All P r
unfolding better_first
better_first-All P fg [] a more r e h hs = ground arith
better_first-All P fg (f ∷ fs) a more r e h hs = ground arith

scan_first-All :
    (P : Pcb → Type 0) (fg : Bool) (cur : ℕ) (first ps r : List Pcb)
    → scan_first fg cur first ps ≡ some r
    → All P first
    → All P ps
    → All P r
unfolding scan_first
scan_first-All P fg cur first [] r e h hs = ground arith
scan_first-All P fg cur first (a ∷ more) r e h hs = elim (Bool-cases (a.pid == cur)) [
  | inl here ↦ ground arith
  | inr away ↦ elim (Option-cases (better_first fg first a more)) [
    | inl fault ↦ ground arith
    | inr (f, found) ↦
        scan_first-All P fg cur f more r (ground arith)
          (better_first-All P fg first a more f found h hs) hs.1
  ]
]

-- With no foreground process a turn keeps the node or takes the one that it looks at.
better_first_cases :
    (f : Pcb) (fs : List Pcb) (a : Pcb) (more : List Pcb)
    → (better_first false (f ∷ fs) a more ≡ some (f ∷ fs))
      ⊎ (better_first false (f ∷ fs) a more ≡ some (a ∷ more))
unfolding better_first
better_first_cases f fs a more = ground arith

-- With no foreground process the loop meets no null pointer.
scan_first_total :
    (cur : ℕ) (f : Pcb) (fs ps : List Pcb)
    → (g : Pcb) × (gs : List Pcb) × (scan_first false cur (f ∷ fs) ps ≡ some (g ∷ gs))
unfolding scan_first
scan_first_total cur f fs [] = (f, fs, refl)
scan_first_total cur f fs (a ∷ more) = elim (Bool-cases (a.pid == cur)) [
  | inl here ↦ (f, fs, rw here)
  | inr away ↦ elim (better_first_cases f fs a more) [
    | inl e ↦ rw (away, e, ◌>>=◌) (scan_first_total cur f fs more)
    | inr e ↦ rw (away, e, ◌>>=◌) (scan_first_total cur a more more)
  ]
]

settle_first_lem :
    (P : Pcb → Type 0) (fg : Bool) (cur : Pcb) (fs : List Pcb) (p : Pcb)
    → settle_first fg cur fs ≡ some (some p)
    → All P fs
    → ((cur.pid ≡ 0) ⊎ (is_ready cur ≡ false)) ⊎ P cur
    → P p
unfolding settle_first
settle_first_lem P fg cur [] p e h c = ground arith
settle_first_lem P fg cur (f ∷ fs) p e h c = ground arith

nodes_after-All :
    (P : Pcb → Type 0) (c : Cursor) (ps : List Pcb) → All P ps → All P (nodes_after c ps)
unfolding nodes_after
nodes_after-All P unset ps h = tt
nodes_after-All P idle ps h = tt
nodes_after-All P (running pid) ps h = tail-All P (from_pid pid ps) (from_pid-All P pid ps h)
nodes_after-All P (freed p none) ps h = tt
nodes_after-All P (freed p (some n)) ps h = from_pid-All P n ps h

next_process-All :
    (P : Pcb → Type 0) (ps : List Pcb) (p : Pcb) → next_process ps ≡ some p → All P ps → P p
unfolding next_process
next_process-All P [] p e h = ground arith
next_process-All P (q ∷ qs) p e h =
    let same : scan_next q (q ∷ qs) ≡ p = ground arith in
    subst P same (scan_next-All P q (q ∷ qs) h.0 h)

choose_ready : (n f : Option Pcb) (p : Pcb) → choose n f ≡ some p → is_ready p ≡ true
unfolding choose
choose_ready none none p e = ground arith
choose_ready none (some f) p e = ground arith
choose_ready (some n) none p e = ground arith
choose_ready (some n) (some f) p e = ground arith

choose_cases : (n f : Option Pcb) (p : Pcb) → choose n f ≡ some p → (n ≡ some p) ⊎ (f ≡ some p)
unfolding choose
choose_cases none none p e = ground arith
choose_cases none (some f) p e = ground arith
choose_cases (some n) none p e = ground arith
choose_cases (some n) (some f) p e = ground arith

-- The parts of a choice that met no null pointer.
pick_parts :
    (s : Scheduler) (cur : Pcb) (r : Option Pcb)
    → pick s cur ≡ some r
    → (fs : List Pcb) × (f : Option Pcb) × (scan_first
          (not (s.fg_taken == 0))
          cur.pid
          s.processes
          s.processes
        ≡ some fs)
      × (settle_first (not (s.fg_taken == 0)) cur fs ≡ some f)
      × (r ≡ choose (next_process (after_current s)) f)
unfolding pick
pick_parts s cur r e =
    elim (Option-cases (scan_first (not (s.fg_taken == 0)) cur.pid s.processes s.processes)) [
      | inl fault ↦ absurd (ground arith)
      | inr (fs, e₁) ↦ elim (Option-cases (settle_first (not (s.fg_taken == 0)) cur fs)) [
        | inl fault ↦ absurd (ground arith)
        | inr (f, e₂) ↦ (fs, f, e₁, e₂, ground arith)
      ]
    ]

-- A process that is picked is ready, and has every property that all processes of the list and the
-- current one, if it is ready and not the dummy, have.
pub pick_lem :
    (P : Pcb → Type 0) (s : Scheduler) (cur p : Pcb)
    → pick s cur ≡ some (some p)
    → All P s.processes
    → ((cur.pid ≡ 0) ⊎ (is_ready cur ≡ false)) ⊎ P cur
    → (is_ready p ≡ true) × P p
unfolding after_current
pick_lem P s cur p e h c =
    let (fs, f, e₁, e₂, e₃) = pick_parts s cur (some p) e in
    (
      choose_ready _ f p (sym e₃),
      elim (choose_cases _ f p (sym e₃)) [
        | inl n ↦ next_process-All P _ p n (nodes_after-All P s.current s.processes h)
        | inr g ↦
            settle_first_lem P _ cur fs p (e₂ ∙ ap some g)
              (scan_first-All P _ cur.pid s.processes s.processes fs e₁ h h) c
      ],
    )

unready-Yields : (p : Pcb) (ps : List Pcb) → All (λ q. is_ready q ≡ false) ps → All (Yields p) ps
unready-Yields p [] h = tt
unready-Yields p (q ∷ qs) h = (inl h.0, unready-Yields p qs h.1)

Yields-mono :
    (p n : Pcb) (ps : List Pcb)
    → p.aux_priority ≤ n.aux_priority
    → All (Yields n) ps
    → All (Yields p) ps
Yields-mono p n [] le h = tt
Yields-mono p n (q ∷ qs) le h =
    (elim h.0 [ inl a ↦ inl a | inr b ↦ inr (omega arith) ], Yields-mono p n qs le h.1)

-- The result of `choose` is at no worse a level than a ready candidate.
choose_level :
    (n p : Pcb) (f : Option Pcb)
    → is_ready n ≡ true
    → choose (some n) f ≡ some p
    → p.aux_priority ≤ n.aux_priority
unfolding choose
choose_level n p none r e = ground arith
choose_level n p (some f) r e = ground arith

choose-some : (n : Pcb) (f : Option Pcb) → is_ready n ≡ true → choose (some n) f ≢ none
unfolding choose
choose-some n none r e = ground arith
choose-some n (some f) r e = ground arith

choose_best :
    (ps : List Pcb) (f : Option Pcb) (p : Pcb)
    → choose (next_process ps) f ≡ some p
    → All (Yields p) ps
unfolding next_process
choose_best [] f p e = tt
choose_best (q ∷ qs) f p e = elim (scan_next-IsBest q (q ∷ qs)) [
  | inl (r, h) ↦ unready-Yields p (q ∷ qs) h.1
  | inr (r, h) ↦ Yields-mono p (scan_next q (q ∷ qs)) (q ∷ qs) (choose_level _ p f r e) h.1
]

choose_idle :
    (ps : List Pcb) (f : Option Pcb)
    → choose (next_process ps) f ≡ none
    → All (λ q. is_ready q ≡ false) ps
unfolding next_process
choose_idle [] f e = tt
choose_idle (q ∷ qs) f e = elim (scan_next-IsBest q (q ∷ qs)) [
  | inl (r, h) ↦ h.1
  | inr (r, h) ↦ absurd (choose-some _ f r e)
]

-- A pick that meets no null pointer serves the nodes behind the current one: what it picks is ready
-- and at no worse a level than any ready one of them, and the dummy is picked only if none of them
-- is ready.
pub pick_serves :
    (s : Scheduler) (cur : Pcb) (r : Option Pcb)
    → pick s cur ≡ some r
    → ((r ≡ none) × All (λ q. is_ready q ≡ false) (after_current s))
      ⊎ ((p : Pcb) × (r ≡ some p) × (is_ready p ≡ true) × All (Yields p) (after_current s))
pick_serves s cur r e =
    let (fs, f, e₁, e₂, e₃) = pick_parts s cur r e in
    elim (Option-cases r) [
      | inl n ↦ inl (n, choose_idle (after_current s) f (sym e₃ ∙ n))
      | inr (p, n) ↦
          inr
            (p, n, choose_ready _ f p (sym e₃ ∙ n), choose_best (after_current s) f p (sym e₃ ∙ n))
    ]

settle_first_total :
    (cur f : Pcb) (fs : List Pcb) → (r : Option Pcb) × (settle_first false cur (f ∷ fs) ≡ some r)
unfolding settle_first
settle_first_total cur f fs = (_, refl)

-- With no foreground process a choice is made whenever there is a process: no null pointer is met.
pub pick_total :
    (s : Scheduler) (cur p : Pcb) (ps : List Pcb)
    → s.fg_taken ≡ 0
    → s.processes ≡ p ∷ ps
    → (r : Option Pcb) × (pick s cur ≡ some r)
unfolding pick
pick_total s cur p ps fg some_process =
    let (f, fs, e) = scan_first_total cur.pid p ps (p ∷ ps) in
    let (r, e') = settle_first_total cur f fs in
    (choose (next_process (after_current s)) r, ground arith)

-- While a foreground process is recorded and the shell is alone in the list, a process other than
-- the shell that gives up the processor makes the choice read through the null pointer.
pub pick_faults :
    (s : Scheduler) (cur shell : Pcb)
    → s.fg_taken ≢ 0
    → s.processes ≡ shell ∷ []
    → shell.pid ≡ 1
    → cur.pid ≢ 1
    → pick s cur ≡ none
unfolding pick scan_first better_first settle_first
pick_faults s cur shell fg alone pid other = rw alone (ground (arith, ne→== s.fg_taken 0 fg))

-- A blocked process at a better level hides the ready one before it: with the current process
-- blocked behind them and no foreground process the dummy runs.
pub pick_misses :
    (s : Scheduler) (a b cur : Pcb)
    → s.fg_taken ≡ 0
    → s.current ≡ running cur.pid
    → s.processes ≡ a ∷ b ∷ cur ∷ []
    → (a.pid ≢ cur.pid) × (b.pid ≢ cur.pid)
    → is_ready a ≡ true
    → is_ready b ≡ false
    → is_ready cur ≡ false
    → b.aux_priority < a.aux_priority
    → pick s cur ≡ some none
unfolding pick scan_first better_first settle_first after_current nodes_after next_process from_pid
    tail choose
pick_misses s a b cur fg at list ne ra rb rc lt = rw (list, at, fg) (ground arith)
