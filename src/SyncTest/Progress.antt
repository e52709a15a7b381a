-- ===== src/SyncTest/Progress.antt =====
-- Who waits for whom among the processes of Userland/SampleCodeModule/tests/test_sync.c.
use bit_shell_os.Base.{
  ℕ, ◌+◌, ◌≤◌, ◌≡◌, refl, sym, Option, none, some, List, [], ◌∷◌, ◌++◌, arith, ap, subst, ◌∙◌, inl,
  inr, ◌==◌, Bool-cases, ==→eq,
}
use bit_shell_os.Semaphores.{Semaphore}
use bit_shell_os.SyncTest.{
  At, Worker, Shared, World, inc_at, inc, awake, wake_worker, wake_workers, moved, runs, Reach,
  here, next,
}
use bit_shell_os.SyncTest.Exclusion.{
  total, total_around, length_around, inside, waits, waits_at, IsGuarded, Reach-IsGuarded,
  total-wake_worker, total_le,
}
use bit_shell_os.SyncTest.Waiting.{
  one_of, is_pid, waits_as, woken_as, on_its_way, woken_at, IsQueued, Queues, inc_at-Queues,
  inc_at-pid,
}

one_of_self : (x : ℕ) → one_of x x ≡ 1
unfolding one_of
one_of_self x = ground arith

waits_as_le : (x : ℕ) (ws : List Worker) → total (waits_as x) ws ≤ total (is_pid x) ws
unfolding total waits_as is_pid one_of
waits_as_le x [] = omega arith
waits_as_le x (w ∷ ws) = ground (arith, waits_as_le x ws)

is_pid-wake_worker :
    (x pid : ℕ) (ws : List Worker) → total (is_pid x) (wake_worker pid ws) ≡ total (is_pid x) ws
unfolding is_pid
is_pid-wake_worker x pid ws = total-wake_worker (is_pid x) pid (λ w. refl) ws

-- A wake-up of a worker that waits: it leaves the ones that wait for those on their way.
record Wakes (pid : ℕ) (ws vs : List Worker) : Type 0 where
  fewer : total waits vs + 1 ≡ total waits ws
  more : total on_its_way vs ≡ total on_its_way ws + 1
  named : (x : ℕ) → total (waits_as x) vs + one_of x pid ≡ total (waits_as x) ws

waits-awake :
    (a : At)
    → 1 ≤ waits_at a
    → (waits_at a ≡ 1) × (waits_at (awake a) ≡ 0) × (woken_at (awake a) ≡ 1) × (woken_at a ≡ 0)
unfolding awake
waits-awake a h = ground arith

-- The first worker of the pid is the one that waits.
first_waits :
    (pid : ℕ) (w : Worker) (ws : List Worker)
    → w.pid ≡ pid
    → total (is_pid pid) (w ∷ ws) ≤ 1
    → 1 ≤ total (waits_as pid) (w ∷ ws)
    → 1 ≤ waits w
unfolding total is_pid waits_as one_of
first_waits pid w ws e unique some_wait = ground (arith, waits_as_le pid ws)

first-Wakes :
    (pid : ℕ) (w : Worker) (ws : List Worker)
    → w.pid ≡ pid
    → 1 ≤ waits w
    → Wakes pid (w ∷ ws) (record w { at = awake w.at } ∷ ws)
unfolding total waits_as one_of
first-Wakes pid w ws e h =
    let (waited, away, coming, not_coming) = waits-awake w.at h in
    record {
      fewer = omega (arith, waited, away);
      more = omega (arith, coming, not_coming);
      named = λ x. ground (arith, waited, away);
    }

later-Wakes :
    (pid : ℕ) (w : Worker) (ws vs : List Worker) → Wakes pid ws vs → Wakes pid (w ∷ ws) (w ∷ vs)
unfolding total
later-Wakes pid w ws vs h = record {
  fewer = omega (arith, h.fewer);
  more = omega (arith, h.more);
  named = λ x. omega (arith, h.named x);
}

wake_worker-Wakes :
    (pid : ℕ) (ws : List Worker)
    → total (is_pid pid) ws ≤ 1
    → 1 ≤ total (waits_as pid) ws
    → Wakes pid ws (wake_worker pid ws)
unfolding total wake_worker is_pid waits_as one_of
wake_worker-Wakes pid [] unique some_wait = absurd (omega arith)
wake_worker-Wakes pid (w ∷ ws) unique some_wait = elim (Bool-cases (w.pid == pid)) [
  | inl it ↦ rw it (
      first-Wakes pid w ws (==→eq w.pid pid it)
        (first_waits pid w ws (==→eq w.pid pid it) unique some_wait))
  | inr other ↦ rw other (
      later-Wakes pid w ws (wake_worker pid ws)
        (wake_worker-Wakes pid ws (ground arith) (ground arith)))
]

-- The whole of the workers, from what one of them leaves behind.
wake_workers-IsQueued :
    (sem : Semaphore) (o : Option ℕ) (before : List Worker) (v : Worker) (behind : List Worker)
    → ((x : ℕ) → total (is_pid x) (before ++ v ∷ behind) ≤ 1)
    → Queues
        (total waits before + total waits behind)
        (total on_its_way before + total on_its_way behind)
        (λ x. total (waits_as x) before + total (waits_as x) behind)
        sem
        v
        o
    → IsQueued sem (wake_workers o (before ++ v ∷ behind))
unfolding wake_workers woken_as
wake_workers-IsQueued sem none before v behind unique h = record {
  valid = h.valid;
  named = λ x. omega (arith, h.named x, total_around (waits_as x) before v behind);
  unique = unique;
  exact = omega (arith, h.exact, total_around waits before v behind);
  served = ground (arith, h.served, total_around on_its_way before v behind);
}
wake_workers-IsQueued sem (some p) before v behind unique h = record {
  valid = h.valid;
  named =
      λ x. omega (arith, h.named x, total_around (waits_as x) before v behind, woken_up.named x);
  unique = λ x. omega (arith, is_pid-wake_worker x p ws, unique x);
  exact = omega (arith, h.exact, total_around waits before v behind, woken_up.fewer);
  served = ground (arith, h.served, total_around on_its_way before v behind, woken_up.more);
}
  where
    ws : List Worker
    ws = before ++ v ∷ behind

    woken_up : Wakes p ws (wake_worker p ws)
    woken_up =
        wake_worker-Wakes p ws (unique p)
          (omega (arith, h.named p, total_around (waits_as p) before v behind, one_of_self p))

same_pids :
    (x : ℕ) (before : List Worker) (w v : Worker) (behind : List Worker)
    → v.pid ≡ w.pid
    → total (is_pid x) (before ++ v ∷ behind) ≡ total (is_pid x) (before ++ w ∷ behind)
unfolding is_pid
same_pids x before w v behind e =
    total_around (is_pid x) before v behind
    ∙ ap (λ p. one_of x p + (total (is_pid x) before + total (is_pid x) behind)) e
    ∙ sym (total_around (is_pid x) before w behind)

pub moved-IsQueued :
    (k : Shared) (before : List Worker) (w : Worker) (behind : List Worker)
    → IsGuarded k.sem (before ++ w ∷ behind)
    → IsQueued k.sem (before ++ w ∷ behind)
    → let l = moved inc k before w behind in IsQueued l.shared.sem l.workers
unfolding moved inc woken_as
moved-IsQueued k before w behind g h =
    let m = inc_at w w.at w.left k in
    wake_workers-IsQueued m.shared.sem m.wakes before m.worker behind
      (λ x.
        subst (λ t. t ≤ 1) (sym (same_pids x before w m.worker behind (inc_at-pid w w.at w.left k)))
          (h.unique x))
      (inc_at-Queues (total waits before + total waits behind)
        (total on_its_way before + total on_its_way behind)
        (λ x. total (waits_as x) before + total (waits_as x) behind) k
        (omega (arith, g.few, length_around before w behind, total_le before, total_le behind)) w
        w.at w.left refl g.unlocked
        (λ in_it. omega (arith, g.one, total_around inside before w behind))
        (record {
          valid = h.valid;
          named = λ x. omega (arith, h.named x, total_around (waits_as x) before w behind);
          exact = omega (arith, h.exact, total_around waits before w behind);
          served = ground (arith, h.served, total_around on_its_way before w behind);
        }))

pub Reach-IsQueued :
    {k l : World}
    → IsGuarded k.shared.sem k.workers
    → IsQueued k.shared.sem k.workers
    → Reach inc k l
    → IsQueued l.shared.sem l.workers
Reach-IsQueued g h here = h
Reach-IsQueued g h (next {l} steps (runs before w behind e)) =
    moved-IsQueued l.shared before w behind
      (subst (IsGuarded l.shared.sem) e (Reach-IsGuarded g steps))
      (subst (IsQueued l.shared.sem) e (Reach-IsQueued g h steps))
