-- ===== src/Kernel/Calls/Handover.antt =====
-- `sem_wait` and `sem_post` of Kernel/utils/semaphore.c together with the scheduler: who has the
-- processor while a process waits, and who can have it again.
use bit_shell_os.Base.{
  ℕ, ◌+◌, ◌^◌, ◌<◌, ◌≡◌, ◌≢◌, refl, sym, subst, ap, ◌∙◌, true, false, none, some, List, [], ◌∷◌,
  ◌++◌, ◌==◌, ◌>>=◌, arith, Option-cases, Bool-cases, inl, inr, ◌⊎◌, set, ==→eq, eq→==, All,
}
use bit_shell_os.Process.{Pcb, get_pcb, modify, set_state}
use bit_shell_os.Scheduler.{Scheduler, running, switch_process, current_process, wake}
use bit_shell_os.Scheduler.States.{
  state, state_of, switch_process_skips, state_of-switch_process, block_current_process_running,
  current_process_running, state_of-block, get_pcb-wake_ne, get_pcb-wake_self, wake-first_process,
}
use bit_shell_os.Semaphores.{
  Semaphore, done, process_limit, blocked, woke, sem_wait, sem_post, PostResult, WaitResult,
}
use bit_shell_os.Semaphores.Queue
use bit_shell_os.Semaphores.Queue.{waiters, sem_wait_lem, sem_post_lem, sem_post-address}
use bit_shell_os.Timer.{timer_handler}
use bit_shell_os.Kernel.{Kernel, served, wake_each, timer_interrupt}
use bit_shell_os.Kernel.Calls.{
  find_at, put_at, with_semaphore, waited, wait_by, sem_wait_call, posted, sem_post_call,
}
use bit_shell_os.Kernel.Processes.{IsSound, Serves, wake_each-IsValid, Stands-All}
use bit_shell_os.Scheduler.Invariant.{Stands}
use bit_shell_os.Kernel.Calls.Serves.{sem_wait_call-Serves}

find_at-put_at :
    (a : ℕ) (s s' : Semaphore) (ss : List Semaphore)
    → find_at a ss ≡ some s
    → s'.address ≡ a
    → find_at a (put_at a s' ss) ≡ some s'
unfolding find_at put_at
find_at-put_at a s s' [] found same = absurd (cc)
find_at-put_at a s s' (r ∷ rs) found same = elim (Bool-cases (r.address == a)) [
  | inl here ↦ rw (here, put_at, eq→== s'.address a same, find_at) refl
  | inr away ↦ rw (away, put_at, away, find_at) (find_at-put_at a s s' rs (rw away at found) same)
]

find_at-address :
    (a : ℕ) (s : Semaphore) (ss : List Semaphore) → find_at a ss ≡ some s → s.address ≡ a
unfolding find_at
find_at-address a s [] found = absurd (cc)
find_at-address a s (r ∷ rs) found = elim (Bool-cases (r.address == a)) [
  | inl here ↦
      (let same : r ≡ s = ground arith in subst (λ x. x.address ≡ a) same (==→eq r.address a here))
  | inr away ↦ find_at-address a s rs (rw away at found)
]

wake_each-state_of :
    (pids : List ℕ) (s : Scheduler) (k : ℕ)
    → All (λ pid. k ≢ pid) pids
    → state_of k (wake_each pids s).processes ≡ state_of k s.processes
unfolding wake_each
wake_each-state_of [] s k away = refl
wake_each-state_of (pid ∷ pids) s k away =
    wake_each-state_of pids (wake pid s) k away.1 ∙ ap state (get_pcb-wake_ne pid k s away.0)

wake_each-first_process :
    (pids : List ℕ) (s : Scheduler) → (wake_each pids s).first_process ≡ s.first_process
unfolding wake_each
wake_each-first_process [] s = refl
wake_each-first_process (pid ∷ pids) s =
    wake_each-first_process pids (wake pid s) ∙ wake-first_process pid s

-- A timer interrupt that does not wake a blocked process leaves it blocked and does not go on with
-- it.
pub timer_interrupt_skips :
    (k k' : Kernel) (sp next pid : ℕ)
    → IsSound k
    → Stands k.scheduler.current
    → k.scheduler.first_process ≡ 0
    → state_of pid k.scheduler.processes ≡ some 0
    → All (λ due. pid ≢ due) (timer_handler k.timer).1
    → timer_interrupt sp k ≡ some (k', next)
    → (k'.scheduler.current ≢ running pid) × (state_of pid k'.scheduler.processes ≡ some 0)
unfolding timer_interrupt
timer_interrupt_skips k k' sp next pid v stands started asleep away e =
    let woken = (timer_handler k.timer).1 in
    let s = wake_each woken k.scheduler in
    let w = wake_each-IsValid woken k.scheduler (Stands-All k.scheduler.current woken stands) v in
    let begun = wake_each-first_process woken k.scheduler ∙ started in
    let still = wake_each-state_of woken k.scheduler pid away ∙ asleep in
    elim (Option-cases (switch_process s sp)) [
      | inl fault ↦ absurd (ground arith)
      | inr ((s', n), switched) ↦
          let same : s' ≡ k'.scheduler = ground arith in
          subst (λ x. (x.current ≢ running pid) × (state_of pid x.processes ≡ some 0)) same
            (
              switch_process_skips s s' sp n pid begun w switched
                  (λ ready. absurd (let no : some 0 ≡ some 1 = sym still ∙ ready in cc)),
              state_of-switch_process s s' sp n pid begun w switched ∙ still,
            )
    ]

-- What a wait that blocks leaves: the process at the end of the queue, and blocked.
record Waiting (k : Kernel) (a : ℕ) (s : Semaphore) (pid : ℕ) (k' : Kernel) : Type 0 where
  pub semaphore : Semaphore
  pub found : find_at a k'.semaphores.entries ≡ some semaphore
  pub queue : waiters semaphore ≡ waiters s ++ pid ∷ []
  pub asleep : state_of pid k'.scheduler.processes ≡ some 0
  pub same_timer : k'.timer ≡ k.timer
  pub same_start : k'.scheduler.first_process ≡ k.scheduler.first_process
  pub sound : IsSound k'
  pub stands : Stands k'.scheduler.current

sem_wait_queue :
    (cur : ℕ) (s s' : Semaphore)
    → Queue.IsValid s
    → s.lock ≡ 0
    → s.value ≡ 0
    → sem_wait cur s ≡ (s', blocked)
    → waiters s' ≡ waiters s ++ cur ∷ []
sem_wait_queue cur s s' v free empty e =
    elim (subst (Queue.Waits cur s) e (sem_wait_lem cur s v free)) [
      | inl (more, r, value, queue, lock) ↦ absurd (cc)
      | inr (inl (none_left, room, r, value, queue, lock)) ↦ queue
      | inr (inr (none_left, full, r, same)) ↦ absurd (cc)
    ]

wait_by_result :
    (turn : ℕ → Semaphore → Semaphore × WaitResult) (a : ℕ) (k : Kernel) (c : Pcb)
    (s s' : Semaphore) (r : WaitResult)
    → current_process k.scheduler ≡ some c
    → find_at a k.semaphores.entries ≡ some s
    → turn c.pid s ≡ (s', r)
    → wait_by turn a k ≡ waited (with_semaphore a s' k) r
unfolding wait_by
wait_by_result turn a k c s s' r here found e =
    rw (here, wait_by, found) (ap (λ x. waited (with_semaphore a x.0 k) x.1) e)

-- A process that comes to a semaphore at value 0, with its lock free and a place in its queue, gives
-- up the processor: it is then the last in the queue and blocked.
sem_wait_call_blocks :
    (a : ℕ) (k : Kernel) (c : Pcb) (s : Semaphore)
    → IsSound k
    → k.scheduler.current ≡ running c.pid
    → get_pcb c.pid k.scheduler.processes ≡ some c
    → find_at a k.semaphores.entries ≡ some s
    → Queue.IsValid s
    → s.lock ≡ 0
    → s.value ≡ 0
    → s.waiting ≢ process_limit
    → (k' : Kernel) × (sem_wait_call a k ≡ done (record { kernel = k'; yields = true }))
      × Waiting k a s c.pid k'
unfolding sem_wait_call wait_by waited served
sem_wait_call_blocks a k c s v at here found queue free empty room =
    let s' : Semaphore = record s {
      queue = set s.queue s.waiting c.pid;
      waiting = s.waiting + 1;
      lock = 0;
    } in
    let blocks : sem_wait c.pid s ≡ (s', blocked) =
      Queue.sem_wait-blocked c.pid s free empty room in
    let k' : Kernel = record k {
      scheduler = record k.scheduler {
        processes = modify c.pid (set_state 0) k.scheduler.processes;
      };
      semaphores = record k.semaphores { entries = put_at a s' k.semaphores.entries };
    } in
    let result : sem_wait_call a k ≡ done (record { kernel = k'; yields = true }) =
      wait_by_result sem_wait a k c s s' blocked (current_process_running k.scheduler c at here)
        found blocks
      ∙ ap
          (λ o. served true (
            o >>= λ (t, pid). some (record k {
              scheduler = t;
              semaphores = record k.semaphores { entries = put_at a s' k.semaphores.entries };
            })))
          (block_current_process_running k.scheduler c at here) in
    (
      k',
      result,
      record {
        semaphore = s';
        found =
            find_at-put_at a s s' k.semaphores.entries found
              (find_at-address a s k.semaphores.entries found);
        queue = sem_wait_queue c.pid s s' queue free empty blocks;
        asleep = state_of-block k.scheduler c here;
        same_timer = refl;
        same_start = refl;
        sound = subst Serves result (sem_wait_call-Serves a k v);
        stands = subst Stands (sym at) tt;
      },
    )

-- A running process that waits at a semaphore of value 0, with its lock free and a place in its
-- queue, joins the end of the queue and gives up the processor. The timer interrupt behind it, if it
-- does not find the process's sleep over, meets a null pointer, or goes on with another process or
-- the dummy and leaves the process blocked.
pub sem_wait_call_hands_over :
    (a sp : ℕ) (k : Kernel) (c : Pcb) (s : Semaphore)
    → IsSound k
    → k.scheduler.first_process ≡ 0
    → k.scheduler.current ≡ running c.pid
    → get_pcb c.pid k.scheduler.processes ≡ some c
    → find_at a k.semaphores.entries ≡ some s
    → Queue.IsValid s
    → s.lock ≡ 0
    → s.value ≡ 0
    → s.waiting ≢ process_limit
    → All (λ due. c.pid ≢ due) (timer_handler k.timer).1
    → (k' : Kernel) × (sem_wait_call a k ≡ done (record { kernel = k'; yields = true }))
      × ((s' : Semaphore) × (find_at a k'.semaphores.entries ≡ some s')
          × (waiters s' ≡ waiters s ++ c.pid ∷ []))
      × ((timer_interrupt sp k' ≡ none)
          ⊎ ((k'' : Kernel) × (next : ℕ) × (timer_interrupt sp k' ≡ some (k'', next))
              × (k''.scheduler.current ≢ running c.pid)
              × (state_of c.pid k''.scheduler.processes ≡ some 0)))
sem_wait_call_hands_over a sp k c s v started at here found queue free empty room away =
    let (k', result, w) = sem_wait_call_blocks a k c s v at here found queue free empty room in
    (
      k',
      result,
      (w.semaphore, w.found, w.queue),
      elim (Option-cases (timer_interrupt sp k')) [
        | inl fault ↦ inl fault
        | inr ((k'', next), e) ↦
            let (other, asleep) =
              timer_interrupt_skips k' k'' sp next c.pid w.sound w.stands (w.same_start ∙ started)
                w.asleep
                (subst (λ t. All (λ due. c.pid ≢ due) (timer_handler t).1) (sym w.same_timer) away)
                e in
            inr (k'', next, e, other, asleep)
      ],
    )

post_result :
    (a : ℕ) (k : Kernel) (s s' : Semaphore) (r : PostResult)
    → find_at a k.semaphores.entries ≡ some s
    → sem_post s ≡ (s', r)
    → sem_post_call a k ≡ posted (with_semaphore a s' k) r
unfolding sem_post_call
post_result a k s s' r found e =
    rw (found, sem_post_call) (ap (λ x. posted (with_semaphore a x.0 k) x.1) e)

-- A post at a semaphore that processes wait at, with its lock free, counts up, takes the process that
-- has waited longest from the queue and makes it ready, and changes no other process.
pub sem_post_call_wakes :
    (a pid : ℕ) (k : Kernel) (s : Semaphore) (p : Pcb) (rest : List ℕ)
    → find_at a k.semaphores.entries ≡ some s
    → Queue.IsValid s
    → s.lock ≡ 0
    → s.value + 1 < 2 ^ 32
    → waiters s ≡ pid ∷ rest
    → get_pcb pid k.scheduler.processes ≡ some p
    → (k' : Kernel) × (sem_post_call a k ≡ done (record { kernel = k'; yields = false }))
      × ((s' : Semaphore) × (find_at a k'.semaphores.entries ≡ some s')
          × (s'.value ≡ s.value + 1)
          × (waiters s' ≡ rest))
      × (get_pcb pid k'.scheduler.processes ≡ some (set_state 1 p))
      × ((other : ℕ)
          → other ≢ pid
          → get_pcb other k'.scheduler.processes ≡ get_pcb other k.scheduler.processes)
unfolding posted served with_semaphore
sem_post_call_wakes a pid k s p rest found v free small queue here =
    let s' = (sem_post s).0 in
    let (value, lock, cases) = sem_post_lem s v free small in
    elim cases [
      | inl (none_left, silent, still) ↦
          absurd (let clash : [] ≡ pid ∷ rest = sym none_left ∙ queue in cc)
      | inr (q, was, wakes) ↦
          let lists : q ∷ waiters s' ≡ pid ∷ rest = sym was ∙ queue in
          let head : q ≡ pid = cc in
          let left : waiters s' ≡ rest = cc in
          let k' : Kernel = record k {
            scheduler = wake pid k.scheduler;
            semaphores = record k.semaphores { entries = put_at a s' k.semaphores.entries };
          } in
          (
            k',
            post_result a k s s' (woke pid) found (ap (λ r. (s', r)) (wakes ∙ ap woke head)),
            (
              s',
              find_at-put_at a s s' k.semaphores.entries found
                  (sem_post-address s ∙ find_at-address a s k.semaphores.entries found),
              value,
              left,
            ),
            get_pcb-wake_self k.scheduler p pid here,
            λ other ne. get_pcb-wake_ne pid other k.scheduler ne,
          )
    ]
