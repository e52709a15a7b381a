-- ===== src/ProcessMemory/Owners.antt =====
-- Which blocks of the heap the processes of Kernel/utils/scheduler.c hold.
use bit_shell_os.Base.{
  ℕ, ◌≡◌, ◌≢◌, refl, sym, ap₂, subst, some, List, [], ◌∷◌, leb, ◌==◌, Bool-cases, Option-cases, inl,
  inr, arith, All, ne→==,
}
use bit_shell_os.Heap.{Block}
use bit_shell_os.Heap.Owned.{Owned, IsApart, Owned-swap, Owned-behind}
use bit_shell_os.Process.{Pcb, default_program_size, insert_after, load_process, delete_process}
use bit_shell_os.ProcessMemory.{list_node_size, set_node}

-- The pointers of a process and of all in the list, with the sizes that were asked for.
unfoldable pub blocks : (ℕ → ℕ) → List Pcb → List (ℕ × ℕ)
blocks node [] = []
blocks node (p ∷ ps) =
    (p.process_memory, default_program_size) ∷ (node p.pid, list_node_size) ∷ blocks node ps

-- The pairs of two processes change places.
swap_pairs :
    (node : ℕ → ℕ) (p q : Pcb) (ps : List Pcb) (live left : List Block)
    → IsApart live
    → Owned (blocks node (p ∷ q ∷ ps)) live left
    → Owned (blocks node (q ∷ p ∷ ps)) live left
unfolding blocks
swap_pairs node p q ps live left apart h =
    let a : ℕ × ℕ = (p.process_memory, default_program_size) in
    let b : ℕ × ℕ = (node p.pid, list_node_size) in
    let c : ℕ × ℕ = (q.process_memory, default_program_size) in
    let d : ℕ × ℕ = (node q.pid, list_node_size) in
    let rest = blocks node ps in
    let h₁ : Owned (a ∷ c ∷ b ∷ d ∷ rest) live left =
      Owned-behind a (b ∷ c ∷ d ∷ rest) (c ∷ b ∷ d ∷ rest) live left apart
        (λ l i. Owned-swap b c (d ∷ rest) l left i) h in
    let h₂ : Owned (c ∷ a ∷ b ∷ d ∷ rest) live left =
      Owned-swap a c (b ∷ d ∷ rest) live left apart h₁ in
    Owned-behind c (a ∷ b ∷ d ∷ rest) (d ∷ a ∷ b ∷ rest) live left apart
      (λ l i g. Owned-swap a d (b ∷ rest) l left i (
        Owned-behind a (b ∷ d ∷ rest) (d ∷ b ∷ rest) l left i
          (λ l' i'. Owned-swap b d rest l' left i') g))
      h₂

behind_pair :
    (node : ℕ → ℕ) (p : Pcb) (ps qs : List Pcb) (live left : List Block)
    → IsApart live
    → ((l : List Block) → IsApart l → Owned (blocks node ps) l left → Owned (blocks node qs) l left)
    → Owned (blocks node (p ∷ ps)) live left
    → Owned (blocks node (p ∷ qs)) live left
unfolding blocks
behind_pair node p ps qs live left apart change h =
    Owned-behind (p.process_memory, default_program_size) _ _ live left apart
      (λ l i. Owned-behind (node p.pid, list_node_size) _ _ l left i change) h

-- A new process goes to its place in the list.
insert_after-Owned :
    (node : ℕ → ℕ) (p : Pcb) (ps : List Pcb) (live left : List Block)
    → IsApart live
    → Owned (blocks node (p ∷ ps)) live left
    → Owned (blocks node (insert_after p ps)) live left
unfolding insert_after
insert_after-Owned node p [] live left apart h = h
insert_after-Owned node p (q ∷ qs) live left apart h =
    elim (Bool-cases (leb q.priority p.priority)) [
      | inl behind ↦ rw behind (
          behind_pair node q (p ∷ qs) (insert_after p qs) live left apart
            (λ l i. insert_after-Owned node p qs l left i)
            (swap_pairs node p q qs live left apart h))
      | inr front ↦ rw front h
    ]

pub load_process-Owned :
    (node : ℕ → ℕ) (p : Pcb) (ps : List Pcb) (live left : List Block)
    → IsApart live
    → Owned (blocks node (p ∷ ps)) live left
    → Owned (blocks node (load_process [] p ps)) live left
unfolding load_process
load_process-Owned node p [] live left apart h = h
load_process-Owned node p (q ∷ qs) live left apart h =
    behind_pair node q (p ∷ qs) (insert_after p qs) live left apart
      (λ l i. insert_after-Owned node p qs l left i) (swap_pairs node p q qs live left apart h)

-- A process that is taken out of the list comes to the front.
pub delete_process-Owned :
    (node : ℕ → ℕ) (pid : ℕ) (p : Pcb) (ps qs : List Pcb) (live left : List Block)
    → delete_process pid ps ≡ some (p, qs)
    → IsApart live
    → Owned (blocks node ps) live left
    → Owned (blocks node (p ∷ qs)) live left
unfolding delete_process
delete_process-Owned node pid p [] qs live left e apart h = absurd cc
delete_process-Owned node pid p (q ∷ rs) qs live left e apart h = elim (Bool-cases (q.pid == pid)) [
  | inl here ↦
      subst (λ x. Owned (blocks node x) live left) (ap₂ ◌∷◌ (ground arith) (ground arith)) h
  | inr away ↦ elim (Option-cases (delete_process pid rs)) [
    | inl missing ↦ absurd (ground arith)
    | inr ((r, ts), found) ↦
        subst (λ x. Owned (blocks node x) live left)
          (ap₂ (λ x y. x ∷ y) (ground arith) (ground arith))
          (swap_pairs node q r ts live left apart (
            behind_pair node q rs (r ∷ ts) live left apart
              (λ l i. delete_process-Owned node pid r rs ts l left found i) h))
  ]
]

-- A node for a pid that no process has.
pub blocks-set_node :
    (node : ℕ → ℕ) (pid a : ℕ) (ps : List Pcb)
    → All (λ p. p.pid ≢ pid) ps
    → blocks (set_node node pid a) ps ≡ blocks node ps
unfolding blocks
blocks-set_node node pid a [] away = refl
blocks-set_node node pid a (p ∷ ps) away =
    ap₂ (λ n l. (p.process_memory, default_program_size) ∷ (n, list_node_size) ∷ l)
      (rw (ne→== pid p.pid (λ e. away.0 (sym e))) refl) (blocks-set_node node pid a ps away.1)
