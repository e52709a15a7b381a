-- ===== src/Semaphores/Queue.antt =====
-- The queue of a semaphore (Kernel/utils/semaphore.c) as a first-in, first-out list.
use bit_shell_os.Base.{
  ℕ, zero, suc, ◌+◌, ◌-◌, ◌%◌, ◌^◌, ◌≤◌, ◌<◌, ◌≡◌, ◌≢◌, refl, sym, ap, subst, ◌∙◌, true, List, [],
  ◌∷◌, ◌++◌, ◌==◌, get_or, set, take, length, arith, Bool-cases, inl, inr, ◌⊎◌, length-set, ==→ne,
  ==→eq,
}
use bit_shell_os.Semaphores.{
  Semaphore, process_limit, WaitResult, refused, blocked, acquired, wait_turn, sem_wait, shift,
  PostResult, nobody, woke, sem_post, queued, delete_process_from_semaphores,
}

-- The blocked processes, longest first.
abbrev pub waiters : Semaphore → List ℕ
waiters s = take s.waiting s.queue

-- The queue has its ten places, and no more of them are in use.
pub record IsValid (s : Semaphore) : Type 0 where
  pub places : length s.queue ≡ process_limit
  pub fits : s.waiting ≤ process_limit

pub length-shift : (n : ℕ) (q : List ℕ) → length (shift n q) ≡ length q
unfolding shift
length-shift zero q = refl
length-shift (suc n) [] = refl
length-shift (suc n) (x ∷ []) = refl
length-shift (suc n) (x ∷ y ∷ q) = ap suc (length-shift n (y ∷ q))

-- The loop moves the queue up by one place.
pub take-shift :
    (n : ℕ) (q : List ℕ) → suc n ≤ length q → take (suc n) q ≡ get_or q 0 0 ∷ take n (shift n q)
unfolding shift
take-shift n [] h = absurd (omega arith)
take-shift zero (x ∷ q) h = refl
take-shift (suc n) (x ∷ []) h = absurd (omega arith)
take-shift (suc n) (x ∷ y ∷ q) h = ap (λ l. x ∷ l) (take-shift n (y ∷ q) (omega arith))

-- A write behind the entries in use adds one.
pub take-set :
    (n : ℕ) (q : List ℕ) (v : ℕ) → n < length q → take (n + 1) (set q n v) ≡ take n q ++ v ∷ []
take-set n [] v h = absurd (omega arith)
take-set zero (x ∷ q) v h = refl
take-set (suc n) (x ∷ q) v h = ground (arith, take-set n q v)

pub wait_turn-IsValid : (cur : ℕ) (s : Semaphore) → IsValid s → IsValid (wait_turn cur s).0
unfolding wait_turn
wait_turn-IsValid cur s v = ground (arith, length-set s.queue s.waiting cur)

pub sem_wait-IsValid : (cur : ℕ) (s : Semaphore) → IsValid s → IsValid (sem_wait cur s).0
unfolding sem_wait
sem_wait-IsValid cur s v = ground (
  arith,
  wait_turn-IsValid cur (record s { lock = 1 }) (record { places = v.places; fits = v.fits }),
)

pub sem_post-IsValid : (s : Semaphore) → IsValid s → IsValid (sem_post s).0
unfolding sem_post
sem_post-IsValid s v = ground (arith, length-shift (s.waiting - 1) s.queue)

pub take-shift_pos :
    (n : ℕ) (q : List ℕ)
    → n ≢ 0
    → n ≤ length q
    → take n q ≡ get_or q 0 0 ∷ take (n - 1) (shift (n - 1) q)
take-shift_pos zero q ne h = absurd (ne refl)
take-shift_pos (suc n) q ne h =
    take-shift n q h ∙ ap (λ k. get_or q 0 0 ∷ take k (shift k q)) (omega arith)

-- What a process that comes to `sem_wait` on a free lock meets, and what it leaves.
abbrev pub Waits : ℕ → Semaphore → Semaphore × WaitResult → Type 0
Waits cur s (s', r) =
    ((0 < s.value)
      × (r ≡ acquired)
      × (s'.value + 1 ≡ s.value)
      × (waiters s' ≡ waiters s)
      × (s'.lock ≡ 0))
    ⊎ ((s.value ≡ 0)
        × (s.waiting < process_limit)
        × (r ≡ blocked)
        × (s'.value ≡ 0)
        × (waiters s' ≡ waiters s ++ cur ∷ [])
        × (s'.lock ≡ 0))
    ⊎ ((s.value ≡ 0) × (s.waiting ≡ process_limit) × (r ≡ refused) × (s' ≡ record s { lock = 1 }))

pub sem_wait-acquired :
    (cur : ℕ) (s : Semaphore)
    → s.lock ≡ 0
    → s.value ≢ 0
    → sem_wait cur s ≡ (record s { value = s.value - 1; lock = 0 }, acquired)
unfolding sem_wait wait_turn
sem_wait-acquired cur s free more = ground arith

pub sem_wait-blocked :
    (cur : ℕ) (s : Semaphore)
    → s.lock ≡ 0
    → s.value ≡ 0
    → s.waiting ≢ process_limit
    → sem_wait cur s
      ≡ (record s { queue = set s.queue s.waiting cur; waiting = s.waiting + 1; lock = 0 }, blocked)
unfolding sem_wait wait_turn
sem_wait-blocked cur s free empty room = ground arith

sem_wait-refused :
    (cur : ℕ) (s : Semaphore)
    → s.lock ≡ 0
    → s.value ≡ 0
    → s.waiting ≡ process_limit
    → sem_wait cur s ≡ (record s { lock = 1 }, refused)
unfolding sem_wait wait_turn
sem_wait-refused cur s free empty full = ground arith

-- `sem_wait` on a free lock: a positive value is counted down and the queue stays; at value 0 the
-- process joins the end of the queue, or, with ten in it, is refused and nothing changes but the
-- lock, which stays taken.
pub sem_wait_lem : (cur : ℕ) (s : Semaphore) → IsValid s → s.lock ≡ 0 → Waits cur s (sem_wait cur s)
sem_wait_lem cur s v free = elim (Bool-cases (s.value == 0)) [
  | inr more ↦
      subst (Waits cur s) (sym (sem_wait-acquired cur s free (==→ne s.value 0 more)))
        (inl (ground arith, refl, ground arith, refl, refl))
  | inl empty ↦ elim (Bool-cases (s.waiting == process_limit)) [
    | inl full ↦
        subst (Waits cur s)
          (sym (
            sem_wait-refused cur s free (==→eq s.value 0 empty)
              (==→eq s.waiting process_limit full)))
          (inr (inr (==→eq s.value 0 empty, ==→eq s.waiting process_limit full, refl, refl)))
    | inr room ↦
        let ne = ==→ne s.waiting process_limit room in
        subst (Waits cur s) (sym (sem_wait-blocked cur s free (==→eq s.value 0 empty) ne)) (
          inr (
            inl (
              ==→eq s.value 0 empty,
              omega (arith, v.fits),
              refl,
              ==→eq s.value 0 empty,
              take-set s.waiting s.queue cur (omega (arith, v.places, v.fits)),
              refl,
            )))
  ]
]

-- What `sem_post` on a free lock leaves.
abbrev pub Posts : Semaphore → Semaphore × PostResult → Type 0
Posts s (s', r) =
    (s'.value ≡ s.value + 1)
    × (s'.lock ≡ 0)
    × (((waiters s ≡ []) × (r ≡ nobody) × (waiters s' ≡ []))
        ⊎ ((p : ℕ) × (waiters s ≡ p ∷ waiters s') × (r ≡ woke p)))

pub sem_post-nobody :
    (s : Semaphore)
    → s.lock ≡ 0
    → s.waiting ≡ 0
    → sem_post s ≡ (record s { value = (s.value + 1) % 2 ^ 32; lock = 0 }, nobody)
unfolding sem_post
sem_post-nobody s free none_waits = ground arith

pub sem_post-woke :
    (s : Semaphore)
    → s.lock ≡ 0
    → s.waiting ≢ 0
    → sem_post s ≡ (
      record s {
        value = (s.value + 1) % 2 ^ 32;
        queue = shift (s.waiting - 1) s.queue;
        waiting = s.waiting - 1;
        lock = 0;
      },
      woke (get_or s.queue 0 0),
    )
unfolding sem_post
sem_post-woke s free some_wait = ground arith

-- `sem_post` on a free lock counts up, wakes the process that has waited longest, if there is one,
-- and takes just that one from the queue.
pub sem_post_lem :
    (s : Semaphore) → IsValid s → s.lock ≡ 0 → s.value + 1 < 2 ^ 32 → Posts s (sem_post s)
sem_post_lem s v free small = elim (Bool-cases (s.waiting == 0)) [
  | inl none_waits ↦
      let e = ==→eq s.waiting 0 none_waits in
      subst (Posts s) (sym (sem_post-nobody s free e))
        (omega arith, refl, inl (ap (λ n. take n s.queue) e, refl, ap (λ n. take n s.queue) e))
  | inr some_wait ↦
      let ne = ==→ne s.waiting 0 some_wait in
      subst (Posts s) (sym (sem_post-woke s free ne)) (
        omega arith,
        refl,
        inr (
          get_or s.queue 0 0,
          take-shift_pos s.waiting s.queue ne (omega (arith, v.places, v.fits)),
          refl,
        ),
      )
]

queued_pos : (pid n : ℕ) (q : List ℕ) → queued pid n q ≡ true → n ≢ 0
unfolding queued
queued_pos pid zero q h = absurd (cc)
queued_pos pid (suc n) q h = λ e. omega arith

-- A process that is killed while it waits takes the head of the queue out, whoever that is: a killed
-- process behind another stays in the queue, and the one in front of it is dropped.
pub delete_process_from_semaphores_lem :
    (pid : ℕ) (s : Semaphore) (ss : List Semaphore)
    → IsValid s
    → queued pid s.waiting s.queue ≡ true
    → (t : Semaphore) × (delete_process_from_semaphores pid (s ∷ ss) ≡ t ∷ ss)
      × (waiters s ≡ get_or s.queue 0 0 ∷ waiters t)
      × (t.value ≡ s.value)
unfolding delete_process_from_semaphores
delete_process_from_semaphores_lem pid s ss v found = (
  record s { queue = shift (s.waiting - 1) s.queue; waiting = s.waiting - 1 },
  rw found,
  take-shift_pos s.waiting s.queue (queued_pos pid s.waiting s.queue found)
      (omega (arith, v.places, v.fits)),
  refl,
)

pub sem_post-address : (s : Semaphore) → (sem_post s).0.address ≡ s.address
unfolding sem_post
sem_post-address s = ground arith
