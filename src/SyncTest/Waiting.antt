-- ===== src/SyncTest/Waiting.antt =====
-- The queue of the semaphore seen from one of the processes of
-- Userland/SampleCodeModule/tests/test_sync.c.
use bit_shell_os.Base.{
  ℕ, zero, suc, ◌+◌, ◌%◌, ◌^◌, ◌-◌, ◌≤◌, ◌<◌, ◌≡◌, ◌≢◌, refl, sym, Option, none, some, List, [],
  ◌∷◌, ◌++◌, arith, ap, subst, ◌∙◌, ◌⊎◌, inl, inr, ◌==◌, if◌then◌else◌, get_or, set, length-set,
  Bool-cases, ==→ne, ==→eq,
}
use bit_shell_os.Semaphores.{
  Semaphore, WaitResult, spinning, refused, blocked, acquired, wait_turn, sem_wait, PostResult,
  post_spins, nobody, woke, sem_post, process_limit, shift,
}
use bit_shell_os.Semaphores.Queue.{
  waiters, IsValid, take-set, length-shift, take-shift_pos, sem_wait-acquired, sem_wait-blocked,
  sem_post-nobody, sem_post-woke,
}
use bit_shell_os.SyncTest.{
  At, ready, queued, woken, entered, stored, loaded, Worker, Shared, waited, posted, inc_at,
}
use bit_shell_os.SyncTest.Exclusion.{total, inside, inside_at, waits, waits_at, woken_count}

unfoldable pub one_of : ℕ → ℕ → ℕ
one_of x y = if y == x then 1 else 0

-- How often a process stands in a queue.
unfoldable pub count : ℕ → List ℕ → ℕ
unfolding one_of
count x [] = 0
count x (y ∷ ys) = one_of x y + count x ys

count-append : (x : ℕ) (ys zs : List ℕ) → count x (ys ++ zs) ≡ count x ys + count x zs
unfolding count
count-append x [] zs = omega arith
count-append x (y ∷ ys) zs = omega (arith, count-append x ys zs)

-- One for a worker of a pid, and for one of them that waits.
unfoldable pub is_pid : ℕ → Worker → ℕ
unfolding one_of
is_pid x w = one_of x w.pid

unfoldable pub waits_as : ℕ → Worker → ℕ
waits_as x w = if w.pid == x then waits w else 0

abbrev pub woken_at : At → ℕ
woken_at ready = 0
woken_at queued = 0
woken_at woken = 1
woken_at entered = 0
woken_at stored = 0
woken_at (loaded a) = 0

abbrev pub on_its_way : Worker → ℕ
on_its_way w = woken_at w.at

-- The queue holds the workers that wait, each once, and none of them is left over while the
-- semaphore is free and nobody is on the way to it.
pub record IsQueued (sem : Semaphore) (ws : List Worker) : Type 0 where
  pub valid : IsValid sem
  pub named : (x : ℕ) → count x (waiters sem) ≡ total (waits_as x) ws
  pub unique : (x : ℕ) → total (is_pid x) ws ≤ 1
  pub exact : sem.waiting ≡ total waits ws
  pub served : (sem.waiting ≡ 0) ⊎ (sem.value ≤ total on_its_way ws)

unfoldable pub woken_as : ℕ → Option ℕ → ℕ
unfolding one_of
woken_as x none = 0
woken_as x (some p) = one_of x p

-- The same seen from one worker, beside others.
pub record Queues (q u : ℕ) (c : ℕ → ℕ) (sem : Semaphore) (w : Worker) (o : Option ℕ) : Type 0 where
  pub valid : IsValid sem
  pub named : (x : ℕ) → count x (waiters sem) + woken_as x o ≡ waits_as x w + c x
  pub exact : sem.waiting + woken_count o ≡ waits w + q
  pub served : (sem.waiting ≡ 0) ⊎ (sem.value ≤ on_its_way w + u + woken_count o)

module _ (q u : ℕ) (c : ℕ → ℕ) (k : Shared) where
  -- A worker that leaves the semaphore alone and does not come from its queue or its wake-up.
  quiet-Queues :
      (w v : Worker)
      → v.pid ≡ w.pid
      → waits v ≡ waits w
      → on_its_way v ≡ on_its_way w
      → Queues q u c k.sem w none
      → Queues q u c k.sem v none
  unfolding waits_as
  quiet-Queues w v e e' e'' g = record {
    valid = g.valid;
    named = λ x. ground (arith, g.named x);
    exact = omega (arith, g.exact);
    served = ground (arith, g.served);
  }

  acquired-Queues :
      (w v : Worker)
      → v.pid ≡ w.pid
      → waits w ≡ 0
      → waits v ≡ 0
      → on_its_way w ≤ 1
      → k.sem.value ≢ 0
      → Queues q u c k.sem w none
      → Queues q u c (record k.sem { value = k.sem.value - 1; lock = 0 }) v none
  unfolding waits_as
  acquired-Queues w v e e' e'' small more g = record {
    valid = record { places = g.valid.places; fits = g.valid.fits };
    named = λ x. ground (arith, g.named x);
    exact = omega (arith, g.exact);
    served = ground (arith, g.served);
  }

  blocked-Queues :
      (w v : Worker)
      → v.pid ≡ w.pid
      → waits w ≡ 0
      → waits v ≡ 1
      → k.sem.value ≡ 0
      → k.sem.waiting < process_limit
      → Queues q u c k.sem w none
      → Queues q u c
          (record k.sem {
            queue = set k.sem.queue k.sem.waiting w.pid;
            waiting = k.sem.waiting + 1;
            lock = 0;
          })
          v
          none
  unfolding waits_as count one_of woken_as
  blocked-Queues w v e e' e'' none_left room g = record {
    valid = record {
      places = length-set k.sem.queue k.sem.waiting w.pid ∙ g.valid.places;
      fits = omega arith;
    };
    named = λ x. ground (
      arith,
      g.named x,
      ap (count x) (take-set k.sem.waiting k.sem.queue w.pid (omega (arith, g.valid.places, room))),
      count-append x (waiters k.sem) (w.pid ∷ []),
    );
    exact = omega (arith, g.exact);
    served = inr (omega arith);
  }

  posted-Queues :
      (w v : Worker)
      → v.pid ≡ w.pid
      → waits w ≡ 0
      → waits v ≡ 0
      → on_its_way w ≡ 0
      → on_its_way v ≡ 0
      → k.sem.value ≡ 0
      → k.sem.waiting ≢ 0
      → Queues q u c k.sem w none
      → Queues q u c
          (record k.sem {
            value = (k.sem.value + 1) % 2 ^ 32;
            queue = shift (k.sem.waiting - 1) k.sem.queue;
            waiting = k.sem.waiting - 1;
            lock = 0;
          })
          v
          (some (get_or k.sem.queue 0 0))
  unfolding waits_as count one_of woken_as
  posted-Queues w v e e' e'' f f' empty some_wait g = record {
    valid = record {
      places = length-shift (k.sem.waiting - 1) k.sem.queue ∙ g.valid.places;
      fits = omega (arith, g.valid.fits);
    };
    named = λ x. ground (
      arith,
      g.named x,
      ap (count x) (
          take-shift_pos k.sem.waiting k.sem.queue some_wait
            (omega (arith, g.valid.places, g.valid.fits))),
    );
    exact = omega (arith, g.exact);
    served = inr (omega arith);
  }

  nobody-Queues :
      (w v : Worker)
      → v.pid ≡ w.pid
      → waits w ≡ 0
      → waits v ≡ 0
      → k.sem.waiting ≡ 0
      → Queues q u c k.sem w none
      → Queues q u c (record k.sem { value = (k.sem.value + 1) % 2 ^ 32; lock = 0 }) v none
  unfolding waits_as
  nobody-Queues w v e e' e'' none_waits g = record {
    valid = record { places = g.valid.places; fits = g.valid.fits };
    named = λ x. ground (arith, g.named x);
    exact = omega (arith, g.exact);
    served = inl none_waits;
  }

wait_turn-acquired :
    (cur : ℕ) (s : Semaphore)
    → s.value ≢ 0
    → wait_turn cur s ≡ (record s { value = s.value - 1; lock = 0 }, acquired)
unfolding wait_turn
wait_turn-acquired cur s more = ground arith

wait_turn-blocked :
    (cur : ℕ) (s : Semaphore)
    → s.value ≡ 0
    → s.waiting ≢ process_limit
    → wait_turn cur s
      ≡ (record s { queue = set s.queue s.waiting cur; waiting = s.waiting + 1; lock = 0 }, blocked)
unfolding wait_turn
wait_turn-blocked cur s empty room = ground arith

module _ (q u : ℕ) (c : ℕ → ℕ) (k : Shared) (few : q < process_limit) where
  -- A wait that ends as `wait_turn` does, from a worker that is not in the queue.
  waited-Queues :
      (w still v : Worker) (p : Semaphore × WaitResult)
      → v.pid ≡ w.pid
      → waits w ≡ 0
      → on_its_way w ≤ 1
      → (k.sem.value ≢ 0 → p ≡ (record k.sem { value = k.sem.value - 1; lock = 0 }, acquired))
      → (k.sem.value ≡ 0
          → k.sem.waiting ≢ process_limit
          → p ≡ (
            record k.sem {
              queue = set k.sem.queue k.sem.waiting w.pid;
              waiting = k.sem.waiting + 1;
              lock = 0;
            },
            blocked,
          ))
      → Queues q u c k.sem w none
      → let m = waited still v p k in Queues q u c m.shared.sem m.worker m.wakes
  unfolding waited
  waited-Queues w still v p e out small wins blocks g = elim (Bool-cases (k.sem.value == 0)) [
    | inr more ↦
        let ne = ==→ne k.sem.value 0 more in
        subst (λ r. let m = waited still v r k in Queues q u c m.shared.sem m.worker m.wakes)
          (sym (wins ne))
          (acquired-Queues q u c k w (record v { at = entered }) e out refl small ne g)
    | inl empty ↦
        let z = ==→eq k.sem.value 0 empty in
        let room : k.sem.waiting < process_limit = omega (arith, g.exact, few) in
        subst (λ r. let m = waited still v r k in Queues q u c m.shared.sem m.worker m.wakes)
          (sym (blocks z (λ full. omega arith)))
          (blocked-Queues q u c k w (record v { at = queued }) e out refl z room g)
  ]

  post-Queues :
      (w : Worker)
      → w.at ≡ stored
      → k.sem.lock ≡ 0
      → k.sem.value ≡ 0
      → Queues q u c k.sem w none
      → let m = posted w (sem_post k.sem) k in Queues q u c m.shared.sem m.worker m.wakes
  unfolding posted
  post-Queues w at free empty g = elim (Bool-cases (k.sem.waiting == 0)) [
    | inl none_waits ↦
        let z = ==→eq k.sem.waiting 0 none_waits in
        subst (λ r. let m = posted w r k in Queues q u c m.shared.sem m.worker m.wakes)
          (sym (sem_post-nobody k.sem free z))
          (nobody-Queues q u c k w (record w { at = ready }) refl (ap waits_at at) refl z g)
    | inr some_wait ↦
        let ne = ==→ne k.sem.waiting 0 some_wait in
        subst (λ r. let m = posted w r k in Queues q u c m.shared.sem m.worker m.wakes)
          (sym (sem_post-woke k.sem free ne))
          (posted-Queues q u c k w (record w { at = ready }) refl (ap waits_at at) refl
            (ap woken_at at) refl empty ne g)
  ]

  pub inc_at-Queues :
      (w : Worker) (a : At) (left : ℕ)
      → w.at ≡ a
      → k.sem.lock ≡ 0
      → (inside w ≡ 1 → k.sem.value ≡ 0)
      → Queues q u c k.sem w none
      → let m = inc_at w a left k in Queues q u c m.shared.sem m.worker m.wakes
  unfolding inc_at
  inc_at-Queues w ready zero e free full g = g
  inc_at-Queues w ready (suc left) e free full g =
      waited-Queues w w (record w { left = left }) (sem_wait w.pid k.sem) refl (ap waits_at e)
        (omega (arith, ap woken_at e)) (sem_wait-acquired w.pid k.sem free)
        (sem_wait-blocked w.pid k.sem free) g
  inc_at-Queues w queued left e free full g = g
  inc_at-Queues w woken left e free full g =
      waited-Queues w w w (wait_turn w.pid k.sem) refl (ap waits_at e)
        (omega (arith, ap woken_at e)) (wait_turn-acquired w.pid k.sem)
        (wait_turn-blocked w.pid k.sem) g
  inc_at-Queues w entered left e free full g =
      quiet-Queues q u c k w (record w { at = loaded k.global }) refl (sym (ap waits_at e))
        (sym (ap woken_at e)) g
  inc_at-Queues w (loaded aux) left e free full g =
      quiet-Queues q u c k w (record w { at = stored }) refl (sym (ap waits_at e))
        (sym (ap woken_at e)) g
  inc_at-Queues w stored left e free full g = post-Queues w e free (full (ap inside_at e)) g

waited-pid :
    (still w : Worker) (p : Semaphore × WaitResult) (k : Shared)
    → w.pid ≡ still.pid
    → (waited still w p k).worker.pid ≡ still.pid
unfolding waited
waited-pid still w (s, spinning) k e = refl
waited-pid still w (s, blocked) k e = e
waited-pid still w (s, refused) k e = e
waited-pid still w (s, acquired) k e = e

posted-pid :
    (w : Worker) (p : Semaphore × PostResult) (k : Shared) → (posted w p k).worker.pid ≡ w.pid
unfolding posted
posted-pid w (s, post_spins) k = refl
posted-pid w (s, nobody) k = refl
posted-pid w (s, woke p) k = refl

pub inc_at-pid :
    (w : Worker) (a : At) (left : ℕ) (k : Shared) → (inc_at w a left k).worker.pid ≡ w.pid
unfolding inc_at
inc_at-pid w ready zero k = refl
inc_at-pid w ready (suc left) k =
    waited-pid w (record w { left = left }) (sem_wait w.pid k.sem) k refl
inc_at-pid w queued left k = refl
inc_at-pid w woken left k = waited-pid w w (wait_turn w.pid k.sem) k refl
inc_at-pid w entered left k = refl
inc_at-pid w (loaded aux) left k = refl
inc_at-pid w stored left k = posted-pid w (sem_post k.sem) k
