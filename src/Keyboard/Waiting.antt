-- ===== src/Keyboard/Waiting.antt =====
-- Bounds and order of the processes that wait for a key (Kernel/interruptions/keyboard.c and the
-- ring in Kernel/utils/scheduler.c).
use bit_shell_os.Base.{
  ℕ, zero, suc, ◌+◌, ◌-◌, ◌%◌, ◌≤◌, ◌<◌, ◌≡◌, ◌≢◌, refl, ap, ap₂, ◌∙◌, none, some, List, [], ◌∷◌,
  ◌++◌, get_or, set, length, length-set, get_or-set_self, get_or-set_ne, arith, Bool-cases, inl,
  inr, ◌⊎◌, ◌==◌, ==→eq, ==→ne,
}
use bit_shell_os.Keyboard.{
  WaitingList, ring_size, ascii_table, wait_for_keyboard, awake_keyboard_queue,
}

-- The `n` processes from a place of the ring on.
abbrev pub queue_from : List ℕ → ℕ → ℕ → List ℕ
queue_from slots at zero = []
queue_from slots at (suc n) = get_or slots at 0 ∷ queue_from slots ((at + 1) % ring_size) n

abbrev pub queue : WaitingList → List ℕ
queue w = queue_from w.slots w.current w.size

pub record IsValid (w : WaitingList) : Type 0 where
  pub nodes : length w.slots ≡ ring_size
  pub amount : w.size ≤ ring_size
  pub in_ring : w.current < ring_size
  pub meets : w.tail ≡ (w.current + w.size) % ring_size

queue_from-set :
    (slots : List ℕ) (pid n at i : ℕ)
    → length slots ≡ ring_size
    → at < ring_size
    → n < ring_size
    → i ≡ (at + n) % ring_size
    → queue_from (set slots i pid) at (suc n) ≡ queue_from slots at n ++ pid ∷ []
queue_from-set slots pid zero at i l h hn e =
    ap (λ v. v ∷ [])
      (ap (get_or (set slots i pid) at) refl
        ∙ ap (λ k. get_or (set slots i pid) k 0) (omega arith)
        ∙ get_or-set_self slots i pid 0 (omega arith))
queue_from-set slots pid (suc n) at i l h hn e =
    ap₂ ◌∷◌ (get_or-set_ne slots i at pid 0 (omega arith)) (
      queue_from-set slots pid n ((at + 1) % ring_size) i l (omega arith) (omega arith)
        (omega arith))

-- While fewer than eleven processes wait, another one joins the end of the queue.
pub wait_for_keyboard_lem :
    (pid : ℕ) (w : WaitingList)
    → IsValid w
    → w.size < ring_size
    → IsValid (wait_for_keyboard pid w) × (queue (wait_for_keyboard pid w) ≡ queue w ++ pid ∷ [])
unfolding wait_for_keyboard
wait_for_keyboard_lem pid w v room = (
  record {
    nodes = length-set w.slots w.tail pid ∙ v.nodes;
    amount = omega arith;
    in_ring = v.in_ring;
    meets = omega (arith, v.meets);
  },
  ap (queue_from (set w.slots w.tail pid) w.current) {y = suc w.size} (omega arith)
      ∙ queue_from-set w.slots pid w.size w.current w.tail v.nodes v.in_ring room v.meets,
)

queue_from_pos :
    (slots : List ℕ) (at n : ℕ)
    → n ≢ 0
    → queue_from slots at n ≡ get_or slots at 0 ∷ queue_from slots ((at + 1) % ring_size) (n - 1)
queue_from_pos slots at zero ne = absurd (ne refl)
queue_from_pos slots at (suc n) ne =
    ap (λ k. get_or slots at 0 ∷ queue_from slots ((at + 1) % ring_size) k) (omega arith)

-- A key wakes the process that has waited longest, and no other; with nobody waiting, nobody.
pub awake_keyboard_queue_lem :
    (w : WaitingList)
    → IsValid w
    → let (w', r) = awake_keyboard_queue w in
      IsValid w'
      × (((queue w ≡ []) × (r ≡ none) × (w' ≡ w))
          ⊎ ((p : ℕ) × (queue w ≡ p ∷ queue w') × (r ≡ some p)))
unfolding awake_keyboard_queue
awake_keyboard_queue_lem w v = elim (Bool-cases (w.size == 0)) [
  | inl nobody ↦
      rw (nobody, awake_keyboard_queue)
        (v, inl (ap (queue_from w.slots w.current) (==→eq w.size 0 nobody), refl, refl))
  | inr some_wait ↦
      let ne = ==→ne w.size 0 some_wait in
      rw (some_wait, awake_keyboard_queue)
        (
          record {
            nodes = v.nodes;
            amount = omega (arith, v.amount);
            in_ring = omega arith;
            meets = omega (arith, v.meets, v.in_ring);
          },
          inr (get_or w.slots w.current 0, queue_from_pos w.slots w.current w.size ne, refl),
        )
]

-- Every scan code that the handler looks up is a place of the table.
pub ascii_table_bounds : (key : ℕ) → key < 183 → key < length ascii_table
ascii_table_bounds key h = omega arith
