-- ===== src/SyncTest/Sum.antt =====
-- The sum that the steps of `inc` keep (Userland/SampleCodeModule/tests/test_sync.c): what stands in
-- the shared number and what the workers still owe.
use native.Mathlib.Nat.{mod-add-mod, suc-mul}
use bit_shell_os.Base.{
  ℕ, zero, suc, ◌+◌, ◌*◌, ◌%◌, ◌^◌, ◌<◌, ◌≡◌, ◌≢◌, refl, sym, Option, none, some, List, [], ◌∷◌,
  ◌++◌, arith, All, All-append, ap, ap₂, subst, ◌∙◌, ◌⊎◌, inl, inr,
}
use bit_shell_os.Semaphores.{
  Semaphore, WaitResult, spinning, refused, blocked, acquired, wait_turn, sem_wait, PostResult,
  post_spins, nobody, woke, sem_post,
}
use bit_shell_os.SyncTest.{
  At, ready, queued, woken, entered, stored, loaded, Worker, Shared, Moved, World, waited, posted,
  inc_at, inc, awake, wake_worker, wake_workers, moved, runs, Reach, here, next, value_of,
}
use bit_shell_os.SyncTest.Exclusion.{
  total, total_around, inside, IsGuarded, total-wake_worker, Reach-IsGuarded,
}

-- The writes that a worker has still to make.
abbrev pub writes_at : At → ℕ → ℕ
writes_at ready left = left
writes_at queued left = suc left
writes_at woken left = suc left
writes_at entered left = suc left
writes_at stored left = left
writes_at (loaded a) left = suc left

abbrev pub writes : Worker → ℕ
writes w = writes_at w.at w.left

-- What they add.
abbrev pub owed : Worker → ℕ
owed w = writes w * value_of w.pid

-- What a worker has read is what stands there.
abbrev pub FreshAt : ℕ → At → Type 0
FreshAt g ready = Unit
FreshAt g queued = Unit
FreshAt g woken = Unit
FreshAt g entered = Unit
FreshAt g stored = Unit
FreshAt g (loaded a) = a ≡ g

abbrev pub IsFresh : ℕ → Worker → Type 0
IsFresh g w = FreshAt g w.at

-- What stands there and what the workers have still to add make up the goal.
pub record IsSum (goal : ℕ) (g : ℕ) (ws : List Worker) : Type 0 where
  pub sum : (g + total owed ws) % 2 ^ 64 ≡ goal
  pub fresh : All (IsFresh g) ws
  pub bound : g < 2 ^ 64

-- A worker is as it was for the sum.
record Keeps (g : ℕ) (old : Worker) (m : Moved) : Type 0 where
  same : owed m.worker ≡ owed old
  global : m.shared.global ≡ g
  fresh : IsFresh g m.worker

waited-Keeps :
    (g : ℕ) (old still w : Worker) (p : Semaphore × WaitResult) (k : Shared)
    → k.global ≡ g
    → owed still ≡ owed old
    → IsFresh g still
    → suc w.left * value_of w.pid ≡ owed old
    → Keeps g old (waited still w p k)
unfolding waited
waited-Keeps g old still w (s, spinning) k e h f h' = record { same = h; global = e; fresh = f }
waited-Keeps g old still w (s, blocked) k e h f h' = record { same = h'; global = e; fresh = tt }
waited-Keeps g old still w (s, refused) k e h f h' = record { same = h'; global = e; fresh = tt }
waited-Keeps g old still w (s, acquired) k e h f h' = record { same = h'; global = e; fresh = tt }

posted-Keeps :
    (w : Worker) (p : Semaphore × PostResult) (k : Shared)
    → w.at ≡ stored
    → Keeps k.global w (posted w p k)
unfolding posted
posted-Keeps w (s, post_spins) k e = record {
  same = refl;
  global = refl;
  fresh = subst (FreshAt k.global) (sym e) tt;
}
posted-Keeps w (s, nobody) k e = record {
  same = ap (λ a. writes_at a w.left * value_of w.pid) (sym e);
  global = refl;
  fresh = tt;
}
posted-Keeps w (s, woke p) k e = record {
  same = ap (λ a. writes_at a w.left * value_of w.pid) (sym e);
  global = refl;
  fresh = tt;
}

inc_at-Keeps :
    (w : Worker) (a : At) (left : ℕ) (k : Shared)
    → w.at ≡ a
    → w.left ≡ left
    → ((aux : ℕ) → a ≢ loaded aux)
    → IsFresh k.global w
    → Keeps k.global w (inc_at w a left k)
unfolding inc_at
inc_at-Keeps w ready zero k e e' not_read f = record { same = refl; global = refl; fresh = f }
inc_at-Keeps w ready (suc left) k e e' not_read f =
    waited-Keeps k.global w w (record w { left = left }) (sem_wait w.pid k.sem) k refl refl f
      (ap₂ (λ a l. writes_at a l * value_of w.pid) (sym e) (sym e'))
inc_at-Keeps w queued left k e e' not_read f = record { same = refl; global = refl; fresh = f }
inc_at-Keeps w woken left k e e' not_read f =
    waited-Keeps k.global w w w (wait_turn w.pid k.sem) k refl refl f
      (ap (λ a. writes_at a w.left * value_of w.pid) (sym e))
inc_at-Keeps w entered left k e e' not_read f = record {
  same = ap (λ a. writes_at a w.left * value_of w.pid) (sym e);
  global = refl;
  fresh = refl;
}
inc_at-Keeps w (loaded aux) left k e e' not_read f = absurd (not_read aux refl)
inc_at-Keeps w stored left k e e' not_read f = posted-Keeps w (sem_post k.sem) k e

-- Nobody inside has read anything.
fresh_outside : (g : ℕ) (w : Worker) → inside w ≡ 0 → IsFresh g w
fresh_outside g w h = ground arith

All-fresh_outside : (g : ℕ) (ws : List Worker) → total inside ws ≡ 0 → All (IsFresh g) ws
unfolding total
All-fresh_outside g [] h = tt
All-fresh_outside g (w ∷ ws) h =
    (fresh_outside g w (omega arith), All-fresh_outside g ws (omega arith))

FreshAt-awake : (g : ℕ) (a : At) → FreshAt g a → FreshAt g (awake a)
unfolding awake
FreshAt-awake g ready f = tt
FreshAt-awake g queued f = tt
FreshAt-awake g woken f = tt
FreshAt-awake g entered f = tt
FreshAt-awake g stored f = tt
FreshAt-awake g (loaded a) f = f

writes-awake : (a : At) (left : ℕ) → writes_at (awake a) left ≡ writes_at a left
unfolding awake
writes-awake ready left = refl
writes-awake queued left = refl
writes-awake woken left = refl
writes-awake entered left = refl
writes-awake stored left = refl
writes-awake (loaded a) left = refl

All-wake_worker :
    (g pid : ℕ) (ws : List Worker) → All (IsFresh g) ws → All (IsFresh g) (wake_worker pid ws)
unfolding wake_worker
All-wake_worker g pid [] h = tt
All-wake_worker g pid (w ∷ ws) h =
    ground (arith, FreshAt-awake g w.at h.0, All-wake_worker g pid ws h.1)

IsSum-wake_workers :
    (goal g : ℕ) (o : Option ℕ) (ws : List Worker)
    → IsSum goal g ws
    → IsSum goal g (wake_workers o ws)
unfolding wake_workers
IsSum-wake_workers goal g none ws h = h
IsSum-wake_workers goal g (some pid) ws h = record {
  sum =
      ap (λ t. (g + t) % 2 ^ 64)
        (total-wake_worker owed pid (λ w. ap (λ c. c * value_of w.pid) (writes-awake w.at w.left))
          ws)
      ∙ h.sum;
  fresh = All-wake_worker g pid ws h.fresh;
  bound = h.bound;
}

All_around :
    (g : ℕ) (before : List Worker) (w : Worker) (behind : List Worker)
    → All (IsFresh g) (before ++ w ∷ behind)
    → All (IsFresh g) before × IsFresh g w × All (IsFresh g) behind
All_around g [] w behind h = (tt, h.0, h.1)
All_around g (v ∷ vs) w behind h =
    let (hs, f, r) = All_around g vs w behind h.1 in ((h.0, hs), f, r)

module _ (goal : ℕ) (k : Shared) (before : List Worker) (w : Worker) (behind : List Worker) where
  Keeps-IsSum :
      IsSum goal k.global (before ++ w ∷ behind)
      → (m : Moved) → Keeps k.global w m
      → IsSum goal m.shared.global (before ++ m.worker ∷ behind)
  Keeps-IsSum h m s =
      let (fb, fw, fl) = All_around k.global before w behind h.fresh in
      subst (λ g. IsSum goal g (before ++ m.worker ∷ behind)) (sym s.global)
        (record {
          sum =
              ap (λ t. (k.global + t) % 2 ^ 64)
                (total_around owed before m.worker behind
                  ∙ ap (λ o. o + (total owed before + total owed behind)) s.same
                  ∙ sym (total_around owed before w behind))
              ∙ h.sum;
          fresh = All-append (IsFresh k.global) before (m.worker ∷ behind) fb (s.fresh, fl);
          bound = h.bound;
        })

  -- The write of what was read, changed by the worker's value.
  write-IsSum :
      (aux : ℕ)
      → w.at ≡ loaded aux
      → IsGuarded k.sem (before ++ w ∷ behind)
      → IsSum goal k.global (before ++ w ∷ behind)
      → IsSum goal ((aux + value_of w.pid) % 2 ^ 64) (before ++ record w { at = stored } ∷ behind)
  write-IsSum aux e g h = record {
    sum =
        mod-add-mod (aux + v) (2 ^ 64) _
        ∙ ap (λ t. t % 2 ^ 64)
            (omega (
              arith,
              total_around owed before (record w { at = stored }) behind,
              total_around owed before w behind,
              read,
              owed_now,
            ))
        ∙ h.sum;
    fresh =
        All-append (IsFresh g') before _
          (All-fresh_outside g' before
            (omega (arith, g.one, inside_now, total_around inside before w behind)))
          (
            tt,
            All-fresh_outside g' behind
                (omega (arith, g.one, inside_now, total_around inside before w behind)),
          );
    bound = omega arith;
  }
    where
      v : ℕ
      v = value_of w.pid

      g' : ℕ
      g' = (aux + v) % 2 ^ 64

      inside_now : inside w ≡ 1
      inside_now = ground arith

      read : aux ≡ k.global
      read = subst (FreshAt k.global) e (All_around k.global before w behind h.fresh).1

      owed_now : owed w ≡ w.left * v + v
      owed_now = ap (λ a. writes_at a w.left * v) e ∙ suc-mul w.left v

loaded_cases : (a : At) → ((aux : ℕ) × (a ≡ loaded aux)) ⊎ ((aux : ℕ) → a ≢ loaded aux)
loaded_cases ready = inr (λ aux q. cc)
loaded_cases queued = inr (λ aux q. cc)
loaded_cases woken = inr (λ aux q. cc)
loaded_cases entered = inr (λ aux q. cc)
loaded_cases stored = inr (λ aux q. cc)
loaded_cases (loaded a) = inl (a, refl)

moved-IsSum :
    (goal : ℕ) (k : Shared) (before : List Worker) (w : Worker) (behind : List Worker)
    → IsGuarded k.sem (before ++ w ∷ behind)
    → IsSum goal k.global (before ++ w ∷ behind)
    → let l = moved inc k before w behind in IsSum goal l.shared.global l.workers
unfolding moved inc
moved-IsSum goal k before w behind g h =
    IsSum-wake_workers goal (inc w k).shared.global (inc w k).wakes
      (before ++ (inc w k).worker ∷ behind) (by_place w.at refl)
  where
    by_place :
        (a : At)
        → w.at ≡ a
        → let m = inc_at w a w.left k in IsSum goal m.shared.global (before ++ m.worker ∷ behind)
    by_place a e = elim (loaded_cases a) [
      | inl (aux, q) ↦
          subst
            (λ b.
              let m = inc_at w b w.left k in
              IsSum goal m.shared.global (before ++ m.worker ∷ behind))
            (sym q) (write-IsSum goal k before w behind aux (e ∙ q) g h)
      | inr other ↦
          Keeps-IsSum goal k before w behind h (inc_at w a w.left k)
            (inc_at-Keeps w a w.left k e refl other (All_around k.global before w behind h.fresh).1)
    ]

pub Reach-IsSum :
    (goal : ℕ) {k l : World}
    → IsGuarded k.shared.sem k.workers
    → IsSum goal k.shared.global k.workers
    → Reach inc k l
    → IsSum goal l.shared.global l.workers
Reach-IsSum goal g h here = h
Reach-IsSum goal g h (next {l} steps (runs before w behind e)) =
    moved-IsSum goal l.shared before w behind
      (subst (IsGuarded l.shared.sem) e (Reach-IsGuarded g steps))
      (subst (IsSum goal l.shared.global) e (Reach-IsSum goal g h steps))
