-- ===== src/Semaphores/Wakeups.antt =====
-- The processes round one semaphore (Kernel/utils/semaphore.c) as a step relation.
use bit_shell_os.Base.{
  ℕ, ◌+◌, ◌^◌, ◌≤◌, ◌<◌, ◌≡◌, ap, List, [], ◌∷◌, ◌++◌, length, length-append, get_or, arith, ◌⊎◌,
}
use bit_shell_os.Semaphores.{
  Semaphore, WaitResult, spinning, refused, blocked, acquired, wait_turn, sem_wait, PostResult,
  post_spins, nobody, woke, sem_post,
}

-- The semaphore, the processes that were woken and have not run again, and how many got past it and
-- how many posted.
pub record Room : Type 0 where
  pub sem : Semaphore
  pub woken : List ℕ
  pub passed : ℕ
  pub posted : ℕ

-- The room after a process has called `sem_wait` or has gone on with it.
unfoldable pub after_wait : Room → Semaphore × WaitResult → Room
after_wait r (s, acquired) = record r { sem = s; passed = r.passed + 1 }
after_wait r (s, blocked) = record r { sem = s }
after_wait r (s, refused) = record r { sem = s }
after_wait r (s, spinning) = record r { sem = s }

unfoldable pub after_post : Room → Semaphore × PostResult → Room
after_post r (s, post_spins) = record r { sem = s }
after_post r (s, nobody) = record r { sem = s; posted = r.posted + 1 }
after_post r (s, woke p) = record r { sem = s; posted = r.posted + 1; woken = r.woken ++ p ∷ [] }

-- The scheduler decides who comes next: a process that calls `sem_wait` or `sem_post`, or any of
-- those that were woken.
pub data Step : Room → Room → Type 0 where
  waits : (r : Room) (p : ℕ) → Step r (after_wait r (sem_wait p r.sem))
  posts : (r : Room) → Step r (after_post r (sem_post r.sem))
  resumes :
      (r : Room) (before : List ℕ) (p : ℕ) (behind : List ℕ)
      → r.woken ≡ before ++ p ∷ behind
      → Step r (after_wait (record r { woken = before ++ behind }) (wait_turn p r.sem))

pub data Reach (r : Room) : Room → Type 0 where
  here : Reach r r
  next : {s t : Room} → Reach r s → Step s t → Reach r t

-- Nobody waits, or there are woken processes for all of the count.
abbrev pub IsServed : Room → Type 0
IsServed r = (r.sem.waiting ≡ 0) ⊎ (r.sem.value ≤ length r.woken)

after_wait-IsServed : (r : Room) (p : ℕ) → IsServed r → IsServed (after_wait r (sem_wait p r.sem))
unfolding after_wait sem_wait wait_turn
after_wait-IsServed r p h = ground arith

after_post-IsServed : (r : Room) → IsServed r → IsServed (after_post r (sem_post r.sem))
unfolding after_post sem_post
after_post-IsServed r h = ground (arith, length-append r.woken (get_or r.sem.queue 0 0 ∷ []))

-- A woken process that runs again takes one away from the woken ones, and one of the count if there
-- is any.
after_turn-IsServed :
    (r : Room) (before behind : List ℕ) (p : ℕ)
    → r.woken ≡ before ++ p ∷ behind
    → IsServed r
    → IsServed (after_wait (record r { woken = before ++ behind }) (wait_turn p r.sem))
unfolding after_wait wait_turn
after_turn-IsServed r before behind p e h =
    ground (arith, ap length e, length-append before (p ∷ behind), length-append before behind)

Step-IsServed : {r s : Room} → Step r s → IsServed r → IsServed s
Step-IsServed (waits r p) h = after_wait-IsServed r p h
Step-IsServed (posts r) h = after_post-IsServed r h
Step-IsServed (resumes r before p behind e) h = after_turn-IsServed r before behind p e h

-- No wake-up is lost: from a room where this holds on, in every order of calls, wakings and
-- resumptions, nobody waits or at least as many woken processes are on their way as the value counts.
pub Reach-IsServed : {r s : Room} → IsServed r → Reach r s → IsServed s
Reach-IsServed h here = h
Reach-IsServed h (next steps step) = Step-IsServed step (Reach-IsServed h steps)

-- What the value has lost went to processes that got past the semaphore.
abbrev pub IsConserved : ℕ → Room → Type 0
IsConserved initial r = r.sem.value + r.passed ≡ initial + r.posted

after_wait-IsConserved :
    (initial : ℕ) (r : Room) (p : ℕ)
    → IsConserved initial r
    → IsConserved initial (after_wait r (wait_turn p r.sem))
      × IsConserved initial (after_wait r (sem_wait p r.sem))
      × ((after_wait r (wait_turn p r.sem)).posted ≡ r.posted)
      × ((after_wait r (sem_wait p r.sem)).posted ≡ r.posted)
unfolding after_wait sem_wait wait_turn
after_wait-IsConserved initial r p h = ground arith

after_post-IsConserved :
    (initial : ℕ) (r : Room)
    → initial + (after_post r (sem_post r.sem)).posted < 2 ^ 32
    → IsConserved initial r
    → IsConserved initial (after_post r (sem_post r.sem))
unfolding after_post sem_post
after_post-IsConserved initial r small h = ground arith

Step-posted : {r s : Room} → Step r s → r.posted ≤ s.posted
unfolding after_wait after_post sem_wait wait_turn sem_post
Step-posted (waits r p) = ground arith
Step-posted (posts r) = ground arith
Step-posted (resumes r before p behind e) = ground arith

Step-IsConserved :
    (initial : ℕ) {r s : Room}
    → Step r s
    → initial + s.posted < 2 ^ 32
    → IsConserved initial r
    → IsConserved initial s
Step-IsConserved initial (waits r p) small h = (after_wait-IsConserved initial r p h).1
Step-IsConserved initial (posts r) small h = after_post-IsConserved initial r small h
Step-IsConserved initial (resumes r before p behind e) small h =
    (after_wait-IsConserved initial (record r { woken = before ++ behind }) p h).0

-- From a room where this holds on, while the count does not wrap, the value and the processes that
-- got past the semaphore make up the initial value and the posts: nobody gets past without a count.
pub Reach-IsConserved :
    (initial : ℕ) {r s : Room}
    → IsConserved initial r
    → initial + s.posted < 2 ^ 32
    → Reach r s
    → IsConserved initial s
Reach-IsConserved initial h small here = h
Reach-IsConserved initial h small (next steps step) =
    Step-IsConserved initial step small
      (Reach-IsConserved initial h (omega (arith, Step-posted step)) steps)
