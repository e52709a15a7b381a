-- ===== src/SyncTest/Finish.antt =====
-- How the runs of the processes of Userland/SampleCodeModule/tests/test_sync.c end.
use bit_shell_os.Base.{
  ℕ, zero, suc, ◌+◌, ◌*◌, ◌≤◌, ◌<◌, ◌≡◌, refl, sym, Bool, true, false, Option, none, some, List, [],
  ◌∷◌, ◌++◌, length, arith, All, ap, subst, ◌⊎◌, inl, inr, Bool-cases,
}
use bit_shell_os.Semaphores.{Semaphore, wait_turn, sem_wait, sem_post, process_limit, new_semaphore}
use bit_shell_os.SyncTest.{
  At, ready, queued, woken, entered, stored, loaded, Worker, Shared, World, waited, posted, inc_at,
  inc, awake, wake_worker, wake_workers, moved, Step, runs, Reach, here, next, start_workers,
}
use bit_shell_os.SyncTest.Exclusion.{
  total, total_around, inside, waits, IsGuarded, Reach-IsGuarded, moved-IsGuarded, woken_count,
}
use bit_shell_os.SyncTest.Total.{IsDone, start_world, start-IsGuarded}
use bit_shell_os.SyncTest.Waiting.{count, is_pid, waits_as, on_its_way, IsQueued}
use bit_shell_os.SyncTest.Progress.{moved-IsQueued, Reach-IsQueued}

-- Whether a worker has a step to take: it is not in the queue, and not through with its loop.
abbrev is_active_at : At → ℕ → Bool
is_active_at ready zero = false
is_active_at ready (suc left) = true
is_active_at queued left = false
is_active_at woken left = true
is_active_at entered left = true
is_active_at stored left = true
is_active_at (loaded aux) left = true

abbrev pub is_active : Worker → Bool
is_active w = is_active_at w.at w.left

-- However the scheduler picks among the workers that can run, all are through after finitely many
-- steps: as long as they are not, there is one to pick, and after each of its steps the same holds.
pub data Finishes : World → Type 0 where
  finished : (k : World) → All IsDone k.workers → Finishes k
  continues :
      (k : World) (before : List Worker) (w : Worker) (behind : List Worker)
      → k.workers ≡ before ++ w ∷ behind
      → is_active w ≡ true
      → ((before : List Worker) (w : Worker) (behind : List Worker)
          → k.workers ≡ before ++ w ∷ behind
          → is_active w ≡ true
          → Finishes (moved inc k.shared before w behind))
      → Finishes k

-- What a worker has before it.
abbrev weight_at : At → ℕ → ℕ
weight_at ready left = 10 * left
weight_at queued left = 10 * left + 6
weight_at woken left = 10 * left + 7
weight_at entered left = 10 * left + 5
weight_at stored left = 10 * left + 3
weight_at (loaded aux) left = 10 * left + 4

abbrev weight : Worker → ℕ
weight w = weight_at w.at w.left

weight-wake_worker :
    (pid : ℕ) (ws : List Worker) → total weight (wake_worker pid ws) ≤ total weight ws + 1
unfolding total wake_worker awake
weight-wake_worker pid [] = omega arith
weight-wake_worker pid (w ∷ ws) = ground (arith, weight-wake_worker pid ws)

weight-wake_workers :
    (o : Option ℕ) (ws : List Worker)
    → total weight (wake_workers o ws) ≤ total weight ws + woken_count o
unfolding wake_workers
weight-wake_workers none ws = omega arith
weight-wake_workers (some pid) ws = weight-wake_worker pid ws

-- A step of a worker that can run takes from that.
inc_at-weight :
    (w : Worker) (a : At) (left : ℕ) (k : Shared)
    → w.at ≡ a
    → w.left ≡ left
    → is_active_at a left ≡ true
    → k.sem.lock ≡ 0
    → let m = inc_at w a left k in weight m.worker + woken_count m.wakes < weight_at a left
unfolding inc_at waited posted sem_wait wait_turn sem_post
inc_at-weight w ready zero k e e' act free = absurd cc
inc_at-weight w ready (suc left) k e e' act free = ground arith
inc_at-weight w queued left k e e' act free = absurd cc
inc_at-weight w woken left k e e' act free = ground arith
inc_at-weight w entered left k e e' act free = ground arith
inc_at-weight w (loaded aux) left k e e' act free = ground arith
inc_at-weight w stored left k e e' act free = ground arith

moved-weight :
    (k : Shared) (before : List Worker) (w : Worker) (behind : List Worker)
    → is_active w ≡ true
    → k.sem.lock ≡ 0
    → total weight (moved inc k before w behind).workers < total weight (before ++ w ∷ behind)
unfolding moved inc
moved-weight k before w behind act free =
    let m = inc_at w w.at w.left k in
    omega (
      arith,
      inc_at-weight w w.at w.left k refl refl act free,
      weight-wake_workers m.wakes (before ++ m.worker ∷ behind),
      total_around weight before m.worker behind,
      total_around weight before w behind,
    )

-- One of the workers can run, or none.
abbrev Active : List Worker → Type 0
Active ws =
    (before : List Worker) × (w : Worker) × (behind : List Worker) × (ws ≡ before ++ w ∷ behind)
    × (is_active w ≡ true)

Active-cases : (ws : List Worker) → Active ws ⊎ All (λ w. is_active w ≡ false) ws
Active-cases [] = inr tt
Active-cases (w ∷ ws) = elim (Bool-cases (is_active w)) [
  | inl act ↦ inl ([], w, ws, refl, act)
  | inr idle ↦ elim (Active-cases ws) [
    | inl (before, v, behind, e, act) ↦ inl (w ∷ before, v, behind, ap (λ l. w ∷ l) e, act)
    | inr rest ↦ inr (idle, rest)
  ]
]

idle_worker :
    (a : At) (left : ℕ) → is_active_at a left ≡ false → ((a ≡ ready) × (left ≡ 0)) ⊎ (a ≡ queued)
idle_worker ready zero h = inl (refl, refl)
idle_worker ready (suc left) h = absurd cc
idle_worker queued left h = inr refl
idle_worker woken left h = absurd cc
idle_worker entered left h = absurd cc
idle_worker stored left h = absurd cc
idle_worker (loaded aux) left h = absurd cc

idle_totals :
    (ws : List Worker)
    → All (λ w. is_active w ≡ false) ws
    → (total inside ws ≡ 0) × (total on_its_way ws ≡ 0)
unfolding total
idle_totals [] h = (refl, refl)
idle_totals (w ∷ ws) h =
    let (none_inside, none_coming) = idle_totals ws h.1 in
    elim (idle_worker w.at w.left h.0) [
      | inl (at, left) ↦ ground (arith, at)
      | inr at ↦ ground (arith, at)
    ]

-- Where nobody waits, a worker without a step is through.
idle-IsDone :
    (ws : List Worker) → All (λ w. is_active w ≡ false) ws → total waits ws ≡ 0 → All IsDone ws
unfolding total
idle-IsDone [] h none_waits = tt
idle-IsDone (w ∷ ws) h none_waits = (
  elim (idle_worker w.at w.left h.0) [ inl d ↦ d | inr at ↦ absurd (ground (arith, at)) ],
  idle-IsDone ws h.1 (omega arith),
)

-- Who is there when nobody can run.
stuck-IsDone :
    (sem : Semaphore) (ws : List Worker)
    → IsGuarded sem ws
    → IsQueued sem ws
    → All (λ w. is_active w ≡ false) ws
    → All IsDone ws
stuck-IsDone sem ws g h idle =
    let (none_inside, none_coming) = idle_totals ws idle in
    idle-IsDone ws idle (ground (arith, g.one, h.exact, h.served))

finish :
    (fuel : ℕ) (k : World)
    → IsGuarded k.shared.sem k.workers
    → IsQueued k.shared.sem k.workers
    → total weight k.workers < fuel
    → Finishes k
finish zero k g h enough = absurd (omega arith)
finish (suc fuel) k g h enough = elim (Active-cases k.workers) [
  | inr idle ↦ finished k (stuck-IsDone k.shared.sem k.workers g h idle)
  | inl (before, w, behind, e, act) ↦ continues k before w behind e act (λ before w behind e act.
      let g' = subst (IsGuarded k.shared.sem) e g in
      finish fuel (moved inc k.shared before w behind) (moved-IsGuarded k.shared before w behind g')
        (moved-IsQueued k.shared before w behind g' (subst (IsQueued k.shared.sem) e h))
        (omega (
          arith,
          enough,
          ap (total weight) e,
          moved-weight k.shared before w behind act g'.unlocked,
        )))
]

start-IsQueued :
    (address : ℕ) (garbage : List ℕ) (global : ℕ) (pids : List ℕ)
    → length garbage ≡ process_limit
    → ((pid : ℕ) → count pid pids ≤ 1)
    → IsQueued (start_world address garbage global pids).shared.sem (start_workers pids)
unfolding new_semaphore start_workers total count is_pid waits_as
start-IsQueued address garbage global pids places distinct = record {
  valid = record { places = places; fits = omega arith };
  named = λ x. sym (none_waits_as x pids);
  unique = λ x. omega (arith, pids_of x pids, distinct x);
  exact = sym (none_waits pids);
  served = inl refl;
}
  where
    none_waits : (ps : List ℕ) → total waits (start_workers ps) ≡ 0
    none_waits [] = refl
    none_waits (p ∷ ps) = omega (arith, none_waits ps)

    none_waits_as : (x : ℕ) (ps : List ℕ) → total (waits_as x) (start_workers ps) ≡ 0
    none_waits_as x [] = refl
    none_waits_as x (p ∷ ps) = ground (arith, none_waits_as x ps)

    pids_of : (x : ℕ) (ps : List ℕ) → total (is_pid x) (start_workers ps) ≡ count x ps
    pids_of x [] = refl
    pids_of x (p ∷ ps) = omega (arith, pids_of x ps)

-- No process starves for good: up to ten processes with different pids run `inc` on a semaphore that
-- was opened with 1. From wherever they get, under every choice of who runs next, all are through
-- with their loops after finitely many steps.
pub inc_finishes :
    (address : ℕ) (garbage : List ℕ) (global : ℕ) (pids : List ℕ) (l : World)
    → length garbage ≡ process_limit
    → length pids ≤ process_limit
    → ((pid : ℕ) → count pid pids ≤ 1)
    → Reach inc (start_world address garbage global pids) l
    → Finishes l
inc_finishes address garbage global pids l places few distinct steps =
    let g = start-IsGuarded address garbage global pids few in
    finish (suc (total weight l.workers)) l (Reach-IsGuarded g steps)
      (Reach-IsQueued g (start-IsQueued address garbage global pids places distinct) steps)
      (omega arith)

after : {k l m : World} → Step inc k l → Reach inc l m → Reach inc k m
after step here = next here step
after step (next steps last) = next (after step steps) last

-- One of the runs to the end.
pub run_out : {k : World} → Finishes k → (l : World) × Reach inc k l × All IsDone l.workers
run_out (finished k d) = (k, here, d)
run_out (continues k before w behind e act go) =
    let (l, steps, d) = run_out (go before w behind e act) in
    (l, after (runs before w behind e) steps, d)
