-- ===== src/SyncTest/Total.antt =====
-- What the additions of `inc` come to (Userland/SampleCodeModule/tests/test_sync.c).
use native.Mathlib.Nat.{zero-mul, mod-eq_of_lt}
use bit_shell_os.Base.{
  ℕ, suc, ◌+◌, ◌*◌, ◌%◌, ◌^◌, ◌≤◌, ◌<◌, ◌≡◌, refl, sym, List, [], ◌∷◌, length, arith, All, ap, ap₂,
  ◌∙◌,
}
use bit_shell_os.Semaphores.{process_limit, new_semaphore}
use bit_shell_os.SyncTest.{ready, Worker, World, inc, Reach, value_of, start_workers, n, sem_id}
use bit_shell_os.SyncTest.Exclusion.{total, inside, IsGuarded}
use bit_shell_os.SyncTest.Sum.{writes_at, owed, IsFresh, IsSum, Reach-IsSum}

-- The processes of the test behind a semaphore that was just opened with the value 1.
abbrev pub start_world : ℕ → List ℕ → ℕ → List ℕ → World
start_world address garbage global pids = record {
  shared = record { sem = new_semaphore address sem_id 1 garbage; global = global };
  workers = start_workers pids;
}

-- A worker that is through with its loop.
abbrev pub IsDone : Worker → Type 0
IsDone w = (w.at ≡ ready) × (w.left ≡ 0)

-- What the processes add in all.
unfoldable pub added : List ℕ → ℕ
unfolding value_of
added [] = 0
added (pid ∷ pids) = n * value_of pid + added pids

pub start-IsGuarded :
    (address : ℕ) (garbage : List ℕ) (global : ℕ) (pids : List ℕ)
    → length pids ≤ process_limit
    → IsGuarded (start_world address garbage global pids).shared.sem (start_workers pids)
unfolding new_semaphore start_workers total
start-IsGuarded address garbage global pids few = record {
  one = omega (arith, (start_totals pids).0);
  unlocked = refl;
  room = omega arith;
  few = omega (arith, (start_totals pids).1);
}
  where
    start_totals :
        (ps : List ℕ)
        → (total inside (start_workers ps) ≡ 0) × (length (start_workers ps) ≡ length ps)
    start_totals [] = (refl, refl)
    start_totals (p ∷ ps) = (omega (arith, (start_totals ps).0), ap suc (start_totals ps).1)

start-IsSum :
    (global : ℕ) (pids : List ℕ)
    → global < 2 ^ 64
    → IsSum ((global + added pids) % 2 ^ 64) global (start_workers pids)
unfolding start_workers total added
start-IsSum global pids small = record {
  sum = ap (λ t. (global + t) % 2 ^ 64) (start_owed pids);
  fresh = start_fresh pids;
  bound = small;
}
  where
    start_owed : (ps : List ℕ) → total owed (start_workers ps) ≡ added ps
    start_owed [] = refl
    start_owed (p ∷ ps) = ap (λ t. n * value_of p + t) (start_owed ps)

    start_fresh : (ps : List ℕ) → All (IsFresh global) (start_workers ps)
    start_fresh [] = tt
    start_fresh (p ∷ ps) = (tt, start_fresh ps)

done_owed : (ws : List Worker) → All IsDone ws → total owed ws ≡ 0
unfolding total
done_owed [] d = refl
done_owed (w ∷ ws) d = omega (
  arith,
  done_owed ws d.1,
  ap₂ (λ a l. writes_at a l * value_of w.pid) d.0.0 d.0.1 ∙ zero-mul (value_of w.pid),
)

-- No addition is lost: up to ten processes run `inc` on a semaphore that was opened with 1, and in
-- whatever order their steps come, once all are through with their loops the shared number is what
-- it was and all that they add, modulo 2^64.
pub inc_sums :
    (address : ℕ) (garbage : List ℕ) (global : ℕ) (pids : List ℕ) (l : World)
    → length pids ≤ process_limit
    → global < 2 ^ 64
    → Reach inc (start_world address garbage global pids) l
    → All IsDone l.workers
    → l.shared.global ≡ (global + added pids) % 2 ^ 64
inc_sums address garbage global pids l few small steps d =
    sym (mod-eq_of_lt h.bound) ∙ ap (λ t. t % 2 ^ 64) (omega (arith, done_owed l.workers d)) ∙ h.sum
  where
    h : IsSum ((global + added pids) % 2 ^ 64) l.shared.global l.workers
    h =
        Reach-IsSum _ (start-IsGuarded address garbage global pids few)
          (start-IsSum global pids small) steps

-- The four processes of `test_sync` have pids one behind the other: two add 1 and two add -1.
pub test_sync_balances :
    (address : ℕ) (garbage : List ℕ) (p : ℕ) (l : World)
    → Reach inc (start_world address garbage 0 (p ∷ (p + 1) ∷ (p + 2) ∷ (p + 3) ∷ [])) l
    → All IsDone l.workers
    → l.shared.global ≡ 0
unfolding added value_of
test_sync_balances address garbage p l steps d =
    inc_sums address garbage 0 (p ∷ (p + 1) ∷ (p + 2) ∷ (p + 3) ∷ []) l (omega arith) (omega arith)
      steps d
    ∙ ground arith
