-- ===== src/Semaphores/Table.antt =====
-- `sem_open` and `sem_close` of Kernel/utils/semaphore.c: the table of open semaphores and its lock.
use bit_shell_os.Base.{
  ℕ, ◌^◌, ◌≤◌, ◌<◌, ◌≡◌, ◌≢◌, refl, sym, subst, Option, none, some, List, [], ◌∷◌, ◌++◌, ltb, ◌==◌,
  length, length-append, All, All-append, arith, Bool-cases, Option-cases, inl, inr, ◌⊎◌, ==→ne,
  ==→eq, ltb→lt,
}
use bit_shell_os.Semaphores.{
  Semaphore, Semaphores, spins, done, max_sem, find_id, new_semaphore, sem_open, remove_id,
  CloseResult, closed, in_use, unknown, sem_close, sem_wait, wait_turn, spinning, process_limit,
  sem_post, post_spins,
}

abbrev pub AbsentId : ℕ → List Semaphore → Type 0
AbsentId id = All (λ s. s.id ≢ id)

abbrev pub DistinctIds : List Semaphore → Type 0
DistinctIds [] = Unit {0}
DistinctIds (s ∷ ss) = AbsentId s.id ss × DistinctIds ss

-- The lock of the table is free, the table fits its array, and no two entries have one id.
pub record IsValid (t : Semaphores) : Type 0 where
  pub free : t.mutex_sem ≡ 0
  pub fits : length t.entries ≤ max_sem
  pub distinct : DistinctIds t.entries

find_id-none : (id : ℕ) (ss : List Semaphore) → find_id id ss ≡ none → AbsentId id ss
unfolding find_id
find_id-none id [] e = tt
find_id-none id (s ∷ ss) e = elim (Bool-cases (s.id == id)) [
  | inl here ↦ absurd (ground arith)
  | inr away ↦ (==→ne s.id id away, find_id-none id ss (ground arith))
]

append-DistinctIds :
    (s : Semaphore) (ss : List Semaphore)
    → AbsentId s.id ss
    → DistinctIds ss
    → DistinctIds (ss ++ s ∷ [])
append-DistinctIds s [] a d = (tt, tt)
append-DistinctIds s (x ∷ xs) a d = (
  All-append (λ y. y.id ≢ x.id) xs (s ∷ []) d.0 ((λ e. a.0 (sym e)), tt),
  append-DistinctIds s xs a.1 d.1,
)

remove_id-AbsentId : (id k : ℕ) (ss : List Semaphore) → AbsentId k ss → AbsentId k (remove_id id ss)
unfolding remove_id
remove_id-AbsentId id k [] a = tt
remove_id-AbsentId id k (s ∷ ss) a = elim (Bool-cases (s.id == id)) [
  | inl here ↦ rw here a.1
  | inr away ↦ rw away (a.0, remove_id-AbsentId id k ss a.1)
]

remove_id-DistinctIds :
    (id : ℕ) (ss : List Semaphore)
    → DistinctIds ss
    → DistinctIds (remove_id id ss)
      × AbsentId id (remove_id id ss)
      × (length (remove_id id ss) ≤ length ss)
unfolding remove_id
remove_id-DistinctIds id [] d = (tt, tt, omega arith)
remove_id-DistinctIds id (s ∷ ss) d = elim (Bool-cases (s.id == id)) [
  | inl here ↦ rw here (d.1, subst (λ k. AbsentId k ss) (==→eq s.id id here) d.0, omega arith)
  | inr away ↦
      let r = remove_id-DistinctIds id ss d.1 in
      rw away
        ((remove_id-AbsentId id s.id ss d.0, r.0), (==→ne s.id id away, r.1), omega (arith, r.2))
]

-- On a free table with room, a non-negative value and an allocation that succeeds, `sem_open`
-- returns the address of the one semaphore of that id, new at the end of the table with that value
-- if there was none, and keeps the table valid.
pub sem_open-IsValid :
    (t : Semaphores) (id value address : ℕ) (garbage : List ℕ)
    → IsValid t
    → length t.entries ≢ max_sem
    → value < 2 ^ 31
    → (t' : Semaphores) × (result : ℕ) × (sem_open t id value (some address) garbage
        ≡ done (t', some result))
      × IsValid t'
      × (((s : Semaphore) × (find_id id t.entries ≡ some s)
            × (result ≡ s.address)
            × (t'.entries ≡ t.entries))
          ⊎ ((find_id id t.entries ≡ none)
              × (result ≡ address)
              × (t'.entries ≡ t.entries ++ new_semaphore address id value garbage ∷ [])))
unfolding sem_open new_semaphore
sem_open-IsValid t id value address garbage v room small =
    elim (Option-cases (find_id id t.entries)) [
      | inr (s, found) ↦ (
        record t { mutex_sem = 0 },
        s.address,
        ground (arith, v.free),
        record { free = refl; fits = v.fits; distinct = v.distinct },
        inl (s, found, refl, refl),
      )
      | inl missing ↦
          let s = new_semaphore address id value garbage in
          (
            record { entries = t.entries ++ s ∷ []; mutex_sem = 0 },
            address,
            ground (arith, v.free),
            record {
              free = refl;
              fits = omega (arith, v.fits, length-append t.entries (s ∷ []));
              distinct =
                  append-DistinctIds s t.entries (find_id-none id t.entries missing) v.distinct;
            },
            inr (missing, refl, refl),
          )
    ]

-- With the table full or a negative value, `sem_open` returns NULL and keeps the lock of the table:
-- every later `sem_open`, and every `sem_close` of a semaphore that nobody waits for, spins for ever.
pub sem_open_locks :
    (t : Semaphores) (id value : ℕ) (allocated : Option ℕ) (garbage : List ℕ) (id' value' : ℕ)
    (allocated' : Option ℕ) (garbage' : List ℕ) (s : Semaphore)
    → t.mutex_sem ≡ 0
    → (length t.entries ≡ max_sem) ⊎ (2 ^ 31 ≤ value)
    → s.waiting ≡ 0
    → (t' : Semaphores) × (sem_open t id value allocated garbage ≡ done (t', none))
      × (sem_open t' id' value' allocated' garbage' ≡ spins)
      × (sem_close t' s ≡ spins)
unfolding sem_open sem_close
sem_open_locks t id value allocated garbage id' value' allocated' garbage' s free bad idle =
    (record t { mutex_sem = 1 }, ground arith, ground arith, ground arith)

-- `sem_close` of a semaphore that nobody waits for, on a free table: if the table has its id, that
-- entry goes and no other, and the id can be opened anew; else nothing changes. The table stays
-- valid. With a process waiting nothing is done.
pub sem_close-IsValid :
    (t : Semaphores) (s : Semaphore)
    → IsValid t
    → (t' : Semaphores) × (r : CloseResult) × (sem_close t s ≡ done (t', r))
      × IsValid t'
      × (((0 < s.waiting) × (r ≡ in_use) × (t' ≡ t))
          ⊎ ((s.waiting ≡ 0)
              × (r ≡ closed)
              × AbsentId s.id t'.entries
              × (t'.entries ≡ remove_id s.id t.entries))
          ⊎ ((s.waiting ≡ 0) × (r ≡ unknown) × AbsentId s.id t.entries × (t'.entries ≡ t.entries)))
unfolding sem_close
sem_close-IsValid t s v = elim (Bool-cases (ltb 0 s.waiting)) [
  | inl busy ↦ (t, in_use, rw busy, v, inl (ltb→lt 0 s.waiting busy, refl, refl))
  | inr idle ↦ elim (Option-cases (find_id s.id t.entries)) [
    | inl missing ↦ (
      record t { mutex_sem = 0 },
      unknown,
      ground (arith, v.free),
      record { free = refl; fits = v.fits; distinct = v.distinct },
      inr (inr (ground arith, refl, find_id-none s.id t.entries missing, refl)),
    )
    | inr (other, found) ↦
        let r = remove_id-DistinctIds s.id t.entries v.distinct in
        (
          record t { entries = remove_id s.id t.entries; mutex_sem = 0 },
          closed,
          ground (arith, v.free),
          record { free = refl; fits = omega (arith, r.2, v.fits); distinct = r.0 },
          inr (inl (ground arith, refl, r.1, refl)),
        )
  ]
]

-- A process that is refused at a semaphore with ten waiting keeps the semaphore's lock: every later
-- `sem_wait` and `sem_post` on it spins for ever.
pub sem_wait_locks :
    (cur other : ℕ) (s : Semaphore)
    → s.lock ≡ 0
    → s.value ≡ 0
    → s.waiting ≡ process_limit
    → let s' = (sem_wait cur s).0 in
      (sem_wait other s' ≡ (s', spinning)) × (sem_post s' ≡ (s', post_spins))
unfolding sem_wait sem_post wait_turn
sem_wait_locks cur other s free empty full = ground arith
