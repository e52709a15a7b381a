-- ===== src/ProcessMemory/Leaks.antt =====
-- The heap over the lives of the processes of Kernel/utils/scheduler.c.
use bit_shell_os.Base.{
  ℕ, suc, ◌+◌, ◌^◌, ◌≤◌, ◌<◌, ◌≡◌, ◌≢◌, refl, sym, ap, ap₂, eq→==, subst, ◌∙◌, Option, some, none,
  List, [], ◌∷◌, ◌>>=◌, Bool-cases, Option-cases, inl, inr, ◌⊎◌, arith, All, ltb, ◌==◌,
}
use bit_shell_os.Heap.{Block, Manager, alloc_mem, heap_left}
use bit_shell_os.Heap.Tiling.{bytes}
use bit_shell_os.Heap.Alloc.{IsValid}
use bit_shell_os.Heap.Owned.{Owned, live-IsApart, alloc_mem-Owned, free_mem-Owned}
use bit_shell_os.Process.{Pcb, default_program_size, delete_process, new_process}
use bit_shell_os.Scheduler.{
  Scheduler, create_process, remove_process, kill_pid, exit_current_process, current_process,
}
use bit_shell_os.Scheduler.Lists.{delete_process-All}
use bit_shell_os.Scheduler.Invariant.{load_process-All, create_process_null}
use bit_shell_os.ProcessMemory.{
  list_node_size, Machine, set_node, create_in_memory, free_process, kill_in_memory, exit_in_memory,
  Step, creates, kills, exits, turns, Reach, here, next,
}
use bit_shell_os.ProcessMemory.Owners.{
  blocks, load_process-Owned, delete_process-Owned, blocks-set_node,
}

-- Each process holds its two blocks, all of them different, and `left` are the other live ones; the
-- next pid is `n`.
pub record IsOwned (base : ℕ) (left : List Block) (n : ℕ) (m : Machine) : Type 0 where
  pub heap_ok : IsValid base m.heap
  pub held : Owned (blocks m.node m.scheduler.processes) m.heap.live left
  pub counter : m.scheduler.next_pid ≡ n
  pub older : All (λ p. p.pid < n) m.scheduler.processes

-- The same of a result, which is there.
abbrev pub IsOwned? : ℕ → List Block → ℕ → Option Machine → Type 0
IsOwned? base left n o = (m : Machine) × (o ≡ some m) × IsOwned base left n m

-- What `remove_process` does to the list.
remove_process_cases :
    (pid : ℕ) (s : Scheduler)
    → (((remove_process pid s).1 ≡ none) × ((remove_process pid s).0.processes ≡ s.processes))
      ⊎ ((p : Pcb) × ((remove_process pid s).1 ≡ some p)
          × (delete_process pid s.processes ≡ some (p, (remove_process pid s).0.processes)))
unfolding remove_process
remove_process_cases pid s = elim (Option-cases (delete_process pid s.processes)) [
  | inl missing ↦ inl (rw (missing, remove_process) refl, rw (missing, remove_process) refl)
  | inr ((p, ps), found) ↦
      inr (p, rw (found, remove_process) refl, found ∙ rw (found, remove_process) refl)
]

remove_process-next_pid : (pid : ℕ) (s : Scheduler) → (remove_process pid s).0.next_pid ≡ s.next_pid
unfolding remove_process
remove_process-next_pid pid s = ground arith

-- The release of the process that is in front.
free_front :
    (base n : ℕ) (left : List Block) (m : Machine) (s : Scheduler) (p : Pcb)
    → IsValid base m.heap
    → Owned (blocks m.node (p ∷ s.processes)) m.heap.live left
    → s.next_pid ≡ n
    → All (λ q. q.pid < n) s.processes
    → IsOwned? base left n (free_process (some p) (record m { scheduler = s }))
unfolding free_process blocks
free_front base n left m s p v h counter older =
    let (h₁, e₁, v₁, o₁) =
      free_mem-Owned base p.process_memory default_program_size _ m.heap left v h in
    let (h₂, e₂, v₂, o₂) = free_mem-Owned base (m.node p.pid) list_node_size _ h₁ left v₁ o₁ in
    (
      record m { scheduler = s; heap = h₂ },
      rw (e₁, e₂, ◌>>=◌) refl,
      record { heap_ok = v₂; held = o₂; counter = counter; older = older },
    )

remove_frees :
    (base n : ℕ) (left : List Block) (m : Machine) (s : Scheduler) (pid : ℕ)
    → IsOwned base left n m
    → s.processes ≡ m.scheduler.processes
    → s.next_pid ≡ m.scheduler.next_pid
    → IsOwned? base left n
        (free_process (remove_process pid s).1 (record m { scheduler = (remove_process pid s).0 }))
unfolding free_process
remove_frees base n left m s pid o same counter =
    let s' = (remove_process pid s).0 in
    let held : Owned (blocks m.node s.processes) m.heap.live left =
      subst (λ ps. Owned (blocks m.node ps) m.heap.live left) (sym same) o.held in
    let older : All (λ p. p.pid < n) s.processes =
      subst (λ ps. All (λ p. p.pid < n) ps) (sym same) o.older in
    let now : s'.next_pid ≡ n = remove_process-next_pid pid s ∙ counter ∙ o.counter in
    elim (remove_process_cases pid s) [
      | inl (nobody, kept) ↦ (
        record m { scheduler = s' },
        rw nobody refl,
        record {
          heap_ok = o.heap_ok;
          held = subst (λ ps. Owned (blocks m.node ps) m.heap.live left) (sym kept) held;
          counter = now;
          older = subst (λ ps. All (λ p. p.pid < n) ps) (sym kept) older;
        },
      )
      | inr (p, gone, found) ↦
          subst (λ g. IsOwned? base left n (free_process g (record m { scheduler = s' })))
            (sym gone)
            (free_front base n left m s' p o.heap_ok
              (delete_process-Owned m.node pid p s.processes s'.processes m.heap.live left found
                (live-IsApart base m.heap o.heap_ok) held)
              now
              (delete_process-All (λ q. q.pid < n) pid s.processes s'.processes p found older).1)
    ]

-- A kill always goes through.
pub kill_in_memory-IsOwned :
    (base n : ℕ) (left : List Block) (m : Machine) (pid : ℕ)
    → IsOwned base left n m
    → IsOwned? base left n (kill_in_memory pid m)
unfolding kill_in_memory kill_pid free_process
kill_in_memory-IsOwned base n left m pid o = elim (Bool-cases (ltb 1 pid)) [
  | inl other ↦ rw other (remove_frees base n left m m.scheduler pid o refl refl)
  | inr shell ↦ rw shell (m, refl, o)
]

exit_in_memory-none : (m : Machine) → current_process m.scheduler ≡ none → exit_in_memory m ≡ none
unfolding exit_in_memory exit_current_process
exit_in_memory-none m e = rw (e, ◌>>=◌) refl

-- So does the end of the current process, if there is one.
pub exit_in_memory-IsOwned :
    (base n : ℕ) (left : List Block) (m : Machine) (c : Pcb)
    → current_process m.scheduler ≡ some c
    → IsOwned base left n m
    → IsOwned? base left n (exit_in_memory m)
unfolding exit_in_memory exit_current_process
exit_in_memory-IsOwned base n left m c at o = elim (Bool-cases (c.priority == 1)) [
  | inl fore ↦
      rw (at, fore, ◌>>=◌)
        (remove_frees base n left m (record m.scheduler { fg_taken = 0 }) c.pid o refl refl)
  | inr back ↦ rw (at, back, ◌>>=◌) (remove_frees base n left m m.scheduler c.pid o refl refl)
]

-- The pids stay below the counter.
older-later : (k n : ℕ) (ps : List Pcb) → k ≤ n → All (λ p. p.pid < k) ps → All (λ p. p.pid < n) ps
older-later k n [] le h = tt
older-later k n (p ∷ ps) le h = (omega arith, older-later k n ps le h.1)

older-away : (n : ℕ) (ps : List Pcb) → All (λ p. p.pid < n) ps → All (λ p. p.pid ≢ n) ps
older-away n [] h = tt
older-away n (p ∷ ps) h = ((λ e. omega arith), older-away n ps h.1)

-- A creation that gets its two blocks.
module _ (base n : ℕ) (left : List Block) (m : Machine) (priority : ℕ) (args : List (List ℕ))
    (input output : Option ℕ) where
  created-IsOwned :
      (node memory : ℕ) (h h' : Manager)
      → n + 1 < 2 ^ 32
      → alloc_mem m.heap list_node_size ≡ some (some node, h)
      → alloc_mem h default_program_size ≡ some (some memory, h')
      → IsOwned base left n m
      → let (s, pid) = create_process m.scheduler priority args input output memory [] in
        IsOwned base left
          (n + 1)
          (record { scheduler = s; heap = h'; node = set_node m.node pid node })
  unfolding create_process new_process blocks
  created-IsOwned node memory h h' small first second o =
      let k = m.scheduler.next_pid in
      let ps = m.scheduler.processes in
      let p = new_process k priority args input output memory in
      let node' = set_node m.node k node in
      let (v₁, o₁) =
        alloc_mem-Owned base list_node_size node _ m.heap h left (λ e. omega arith) (omega arith)
          o.heap_ok first o.held in
      let (v₂, o₂) =
        alloc_mem-Owned base default_program_size memory _ h h' left (λ e. omega arith)
          (omega arith) v₁ second o₁ in
      let mine : node' k ≡ node = rw (eq→== k k refl) refl in
      let pairs : blocks node' (p ∷ ps)
          ≡ (memory, default_program_size) ∷ (node, list_node_size) ∷ blocks m.node ps =
        ap₂ (λ n l. (memory, default_program_size) ∷ (n, list_node_size) ∷ l) mine
          (blocks-set_node m.node k node ps
            (older-away k ps (subst (λ j. All (λ q. q.pid < j) ps) (sym o.counter) o.older))) in
      record {
        heap_ok = v₂;
        held =
            load_process-Owned node' p ps h'.live left (live-IsApart base h' v₂)
              (subst (λ l. Owned l h'.live left) (sym pairs) o₂);
        counter = omega (arith, o.counter);
        older =
            load_process-All p (λ q. q.pid < n + 1) ps (omega (arith, o.counter))
              (older-later n (n + 1) ps (omega arith) o.older);
      }

  create_cases :
      (behind : List Pcb) (pid : ℕ) (m' : Machine)
      → (m.scheduler.processes ≡ [] → behind ≡ [])
      → create_in_memory priority args input output behind m ≡ some (m', pid)
      → (node memory : ℕ) × (h h' : Manager) × (alloc_mem m.heap list_node_size
          ≡ some (some node, h))
        × (alloc_mem h default_program_size ≡ some (some memory, h'))
        × (let (s, pid) = create_process m.scheduler priority args input output memory [] in
            m' ≡ record { scheduler = s; heap = h'; node = set_node m.node pid node })
  unfolding create_in_memory
  create_cases behind pid m' null e = elim (Option-cases (alloc_mem m.heap list_node_size)) [
    | inl fault ↦ absurd (ground arith)
    | inr ((none, h), e₁) ↦ absurd (ground arith)
    | inr ((some node, h), e₁) ↦ elim (Option-cases (alloc_mem h default_program_size)) [
      | inl fault ↦ absurd (ground arith)
      | inr ((none, h'), e₂) ↦ absurd (ground arith)
      | inr ((some memory, h'), e₂) ↦ (
        node,
        memory,
        h,
        h',
        e₁,
        e₂,
        subst (λ x. m' ≡ record { scheduler = x.0; heap = h'; node = set_node m.node x.1 node })
            (sym (create_process_null m.scheduler priority args input output memory behind null))
            (ground arith),
      )
    ]
  ]

-- How many processes are created on the way.
unfoldable pub creations : {m l : Machine} → Reach m l → ℕ
creations here = 0
creations (next steps (creates priority args input output behind pid m' h null e)) =
    suc (creations steps)
creations (next steps (kills pid m' h e)) = creations steps
creations (next steps (exits m' h e)) = creations steps
creations (next steps (turns c)) = creations steps

-- What a step leaves, and how it counts.
Step-IsOwned :
    (base n : ℕ) (left : List Block) {m l : Machine} (steps : Reach m l) {k : Machine}
    (step : Step l k)
    → n + creations (next steps step) < 2 ^ 32
    → IsOwned base left (n + creations steps) l
    → IsOwned base left (n + creations (next steps step)) k
unfolding creations
Step-IsOwned base n left {l} steps (creates priority args input output behind pid k h null e) small
      o =
    let (node, memory, h₀, h', first, second, same) =
      create_cases base n left l priority args input output behind pid k null e in
    subst (IsOwned base left (n + suc (creations steps))) (sym same) (
      subst
        (λ j.
          (let (s, pid) = create_process l.scheduler priority args input output memory [] in
            IsOwned base left j
              (record { scheduler = s; heap = h'; node = set_node l.node pid node })))
        (omega arith)
        (created-IsOwned base (n + creations steps) left l priority args input output node memory h₀
          h' (omega arith) first second o))
Step-IsOwned base n left {l} steps (kills pid k h e) small o =
    let (k', f, o') = kill_in_memory-IsOwned base (n + creations steps) left l pid o in
    subst (IsOwned base left (n + creations steps)) (let both : some k' ≡ some k = sym f ∙ e in cc)
      o'
Step-IsOwned base n left {l} steps (exits k h e) small o =
    elim (Option-cases (current_process l.scheduler)) [
      | inl nobody ↦ absurd (ground (arith, exit_in_memory-none l nobody))
      | inr (c, at) ↦
          let (k', f, o') = exit_in_memory-IsOwned base (n + creations steps) left l c at o in
          subst (IsOwned base left (n + creations steps))
            (let both : some k' ≡ some k = sym f ∙ e in cc) o'
    ]
Step-IsOwned base n left {l} steps (turns c) small o = record {
  heap_ok = o.heap_ok;
  held = o.held;
  counter = o.counter;
  older = o.older;
}

creations_grow :
    {m l k : Machine} (steps : Reach m l) (step : Step l k)
    → creations steps ≤ creations (next steps step)
unfolding creations
creations_grow steps (creates priority args input output behind pid k h null e) = omega arith
creations_grow steps (kills pid k h e) = omega arith
creations_grow steps (exits k h e) = omega arith
creations_grow steps (turns c) = omega arith

pub Reach-IsOwned :
    (base n : ℕ) (left : List Block) {m l : Machine} (steps : Reach m l)
    → n + creations steps < 2 ^ 32
    → IsOwned base left n m
    → IsOwned base left (n + creations steps) l
unfolding creations
Reach-IsOwned base n left {m} here small o = subst (λ j. IsOwned base left j m) (omega arith) o
Reach-IsOwned base n left (next steps step) small o =
    Step-IsOwned base n left steps step small
      (Reach-IsOwned base n left steps (omega (arith, small, creations_grow steps step)) o)

-- No memory is lost on processes: from a scheduler without processes and a valid heap, every sequence
-- of creations, kills, ends and turns of the processor that leads to a scheduler without processes
-- again leaves the heap valid, with the live blocks and the count of free bytes of the start. The
-- conditions are that the pids do not wrap, that a process that is gone does nothing, and that the
-- memory of the node of a process that is created where there is none is null at `next`.
pub heap_is_restored :
    (base : ℕ) (m l : Machine) (steps : Reach m l)
    → IsValid base m.heap
    → m.scheduler.processes ≡ []
    → m.scheduler.next_pid + creations steps < 2 ^ 32
    → l.scheduler.processes ≡ []
    → IsValid base l.heap × (l.heap.live ≡ m.heap.live) × (heap_left l.heap ≡ heap_left m.heap)
unfolding blocks heap_left Owned
heap_is_restored base m l steps v nobody small gone =
    let o = Reach-IsOwned base m.scheduler.next_pid m.heap.live steps small (record {
      heap_ok = v;
      held = subst (λ ps. Owned (blocks m.node ps) m.heap.live m.heap.live) (sym nobody) refl;
      counter = refl;
      older = subst (λ ps. All (λ p. p.pid < m.scheduler.next_pid) ps) (sym nobody) tt;
    }) in
    let same : l.heap.live ≡ m.heap.live =
      subst (λ ps. Owned (blocks l.node ps) l.heap.live m.heap.live) gone o.held in
    let w = o.heap_ok in
    (w, same, omega (arith, w.counted, v.counted, w.total, v.total, ap bytes same))
