-- ===== src/SyncTest/Exclusion.antt =====
-- Who is between the wait and the post of `inc` (Userland/SampleCodeModule/tests/test_sync.c).
use bit_shell_os.Base.{
  ℕ, zero, suc, ◌+◌, ◌≤◌, ◌<◌, ◌≡◌, refl, Option, none, some, List, [], ◌∷◌, ◌++◌, length, arith,
  length-append, ap, subst,
}
use bit_shell_os.Semaphores.{Semaphore, wait_turn, sem_wait, sem_post, process_limit}
use bit_shell_os.SyncTest.{
  At, ready, queued, woken, entered, stored, loaded, Worker, Shared, Moved, World, waited, posted,
  inc_at, inc, awake, wake_worker, wake_workers, moved, runs, Reach, here, next,
}

-- A sum over the workers.
unfoldable pub total : (Worker → ℕ) → List Worker → ℕ
total f [] = 0
total f (w ∷ ws) = f w + total f ws

pub total-append :
    (f : Worker → ℕ) (xs ys : List Worker) → total f (xs ++ ys) ≡ total f xs + total f ys
unfolding total
total-append f [] ys = omega arith
total-append f (x ∷ xs) ys = omega (arith, total-append f xs ys)

abbrev pub inside_at : At → ℕ
inside_at ready = 0
inside_at queued = 0
inside_at woken = 0
inside_at entered = 1
inside_at stored = 1
inside_at (loaded a) = 1

abbrev pub inside : Worker → ℕ
inside w = inside_at w.at

abbrev pub waits_at : At → ℕ
waits_at ready = 0
waits_at queued = 1
waits_at woken = 0
waits_at entered = 0
waits_at stored = 0
waits_at (loaded a) = 0

abbrev pub waits : Worker → ℕ
waits w = waits_at w.at

-- The semaphore is free or one worker is behind it; and its queue has room.
pub record IsGuarded (sem : Semaphore) (ws : List Worker) : Type 0 where
  pub one : sem.value + total inside ws ≡ 1
  pub unlocked : sem.lock ≡ 0
  pub room : sem.waiting ≤ total waits ws
  pub few : length ws ≤ process_limit

pub total-wake_worker :
    (f : Worker → ℕ) (pid : ℕ)
    → ((w : Worker) → f (record w { at = awake w.at }) ≡ f w)
    → (ws : List Worker) → total f (wake_worker pid ws) ≡ total f ws
unfolding total wake_worker
total-wake_worker f pid same [] = refl
total-wake_worker f pid same (w ∷ ws) = ground (arith, same w, total-wake_worker f pid same ws)

inside-awake : (a : At) → inside_at (awake a) ≡ inside_at a
unfolding awake
inside-awake ready = refl
inside-awake queued = refl
inside-awake woken = refl
inside-awake entered = refl
inside-awake stored = refl
inside-awake (loaded a) = refl

waits-awake : (a : At) → waits_at a ≤ waits_at (awake a) + 1
unfolding awake
waits-awake ready = omega arith
waits-awake queued = omega arith
waits-awake woken = omega arith
waits-awake entered = omega arith
waits-awake stored = omega arith
waits-awake (loaded a) = omega arith

waits-wake_worker :
    (pid : ℕ) (ws : List Worker) → total waits ws ≤ total waits (wake_worker pid ws) + 1
unfolding total wake_worker
waits-wake_worker pid [] = omega arith
waits-wake_worker pid (w ∷ ws) = ground (arith, waits-awake w.at, waits-wake_worker pid ws)

length-wake_worker : (pid : ℕ) (ws : List Worker) → length (wake_worker pid ws) ≡ length ws
unfolding wake_worker
length-wake_worker pid [] = refl
length-wake_worker pid (w ∷ ws) = ground (arith, length-wake_worker pid ws)

waits_le : (w : Worker) → waits w ≤ 1
waits_le w = ground arith

pub total_le : (ws : List Worker) → total waits ws ≤ length ws
unfolding total
total_le [] = omega arith
total_le (w ∷ ws) = omega (arith, waits_le w, total_le ws)

-- The same seen from one worker, beside others of whom `i` are inside and `q` wait.
record Guards (i q : ℕ) (sem : Semaphore) (w : Worker) (slack : ℕ) : Type 0 where
  one : sem.value + (inside w + i) ≡ 1
  unlocked : sem.lock ≡ 0
  room : sem.waiting + slack ≤ waits w + q

-- How many places in the queue a wake-up frees.
abbrev pub woken_count : Option ℕ → ℕ
woken_count none = 0
woken_count (some pid) = 1

module _ (i q : ℕ) (k : Shared) (few : q < process_limit) where
  sem_wait-Guards :
      (still w : Worker)
      → inside w ≡ 0
      → waits w ≡ 0
      → Guards i q k.sem w 0
      → let m = waited still w (sem_wait w.pid k.sem) k in
        Guards i q m.shared.sem m.worker (woken_count m.wakes)
  unfolding waited sem_wait wait_turn
  sem_wait-Guards still w out free g = ground (arith, g.one, g.unlocked, g.room)

  wait_turn-Guards :
      (still w : Worker)
      → inside w ≡ 0
      → waits w ≡ 0
      → Guards i q k.sem w 0
      → let m = waited still w (wait_turn w.pid k.sem) k in
        Guards i q m.shared.sem m.worker (woken_count m.wakes)
  unfolding waited wait_turn
  wait_turn-Guards still w out free g = ground (arith, g.one, g.unlocked, g.room)

  sem_post-Guards :
      (w : Worker)
      → inside w ≡ 1
      → waits w ≡ 0
      → Guards i q k.sem w 0
      → let m = posted w (sem_post k.sem) k in
        Guards i q m.shared.sem m.worker (woken_count m.wakes)
  unfolding posted sem_post
  sem_post-Guards w in_it free g = ground (arith, g.one, g.unlocked, g.room)

  inc_at-Guards :
      (w : Worker) (a : At) (left : ℕ)
      → w.at ≡ a
      → Guards i q k.sem w 0
      → let m = inc_at w a left k in Guards i q m.shared.sem m.worker (woken_count m.wakes)
  unfolding inc_at
  inc_at-Guards w ready zero e g = g
  inc_at-Guards w ready (suc left) e g =
      sem_wait-Guards w (record w { left = left }) (ap inside_at e) (ap waits_at e)
        (record { one = g.one; unlocked = g.unlocked; room = g.room })
  inc_at-Guards w queued left e g = g
  inc_at-Guards w woken left e g = wait_turn-Guards w w (ap inside_at e) (ap waits_at e) g
  inc_at-Guards w entered left e g = record {
    one = omega (arith, g.one, ap inside_at e);
    unlocked = g.unlocked;
    room = omega (arith, g.room, ap waits_at e);
  }
  inc_at-Guards w (loaded aux) left e g = record {
    one = omega (arith, g.one, ap inside_at e);
    unlocked = g.unlocked;
    room = omega (arith, g.room, ap waits_at e);
  }
  inc_at-Guards w stored left e g = sem_post-Guards w (ap inside_at e) (ap waits_at e) g

-- The sums over the workers round one of them.
pub total_around :
    (f : Worker → ℕ) (before : List Worker) (w : Worker) (behind : List Worker)
    → total f (before ++ w ∷ behind) ≡ f w + (total f before + total f behind)
unfolding total
total_around f before w behind = omega (arith, total-append f before (w ∷ behind))

pub length_around :
    (before : List Worker) (w : Worker) (behind : List Worker)
    → length (before ++ w ∷ behind) ≡ suc (length before + length behind)
length_around before w behind = omega (arith, length-append before (w ∷ behind))

inside-wake_workers :
    (woke? : Option ℕ) (ws : List Worker) → total inside (wake_workers woke? ws) ≡ total inside ws
unfolding wake_workers
inside-wake_workers none ws = refl
inside-wake_workers (some pid) ws = total-wake_worker inside pid (λ w. inside-awake w.at) ws

waits-wake_workers :
    (woke? : Option ℕ) (ws : List Worker)
    → total waits ws ≤ total waits (wake_workers woke? ws) + woken_count woke?
unfolding wake_workers
waits-wake_workers none ws = omega arith
waits-wake_workers (some pid) ws = waits-wake_worker pid ws

pub length-wake_workers :
    (woke? : Option ℕ) (ws : List Worker) → length (wake_workers woke? ws) ≡ length ws
unfolding wake_workers
length-wake_workers none ws = refl
length-wake_workers (some pid) ws = length-wake_worker pid ws

pub moved-IsGuarded :
    (k : Shared) (before : List Worker) (w : Worker) (behind : List Worker)
    → IsGuarded k.sem (before ++ w ∷ behind)
    → let l = moved inc k before w behind in IsGuarded l.shared.sem l.workers
unfolding moved inc
moved-IsGuarded k before w behind g = record {
  one =
      omega
        (arith, h.one, inside-wake_workers m.wakes ws, total_around inside before m.worker behind);
  unlocked = h.unlocked;
  room =
      omega
        (arith, h.room, waits-wake_workers m.wakes ws, total_around waits before m.worker behind);
  few = omega (
    arith,
    g.few,
    length-wake_workers m.wakes ws,
    length_around before m.worker behind,
    length_around before w behind,
  );
}
  where
    m : Moved
    m = inc w k

    ws : List Worker
    ws = before ++ m.worker ∷ behind

    h :
        Guards
          (total inside before + total inside behind)
          (total waits before + total waits behind)
          m.shared.sem
          m.worker
          (woken_count m.wakes)
    h =
        inc_at-Guards (total inside before + total inside behind)
          (total waits before + total waits behind) k
          (omega (arith, g.few, length_around before w behind, total_le before, total_le behind)) w
          w.at w.left refl
          (record {
            one = omega (arith, g.one, total_around inside before w behind);
            unlocked = g.unlocked;
            room = omega (arith, g.room, total_around waits before w behind);
          })

pub Reach-IsGuarded :
    {k l : World}
    → IsGuarded k.shared.sem k.workers
    → Reach inc k l
    → IsGuarded l.shared.sem l.workers
Reach-IsGuarded g here = g
Reach-IsGuarded g (next {l} steps (runs before w behind e)) =
    moved-IsGuarded l.shared before w behind
      (subst (IsGuarded l.shared.sem) e (Reach-IsGuarded g steps))
