-- ===== src/SyncTest/Tests.antt =====
-- Runs of Userland/SampleCodeModule/tests/test_sync.c on concrete processes.
use bit_shell_os.Base.{
  ℕ, ◌+◌, ◌≡◌, ◌≤◌, refl, List, [], ◌∷◌, replicate, All, arith, get_or, drop, take,
}
use bit_shell_os.Semaphores.{sem_wait, new_semaphore, sem_post}
use bit_shell_os.SyncTest.{
  ready, Worker, Shared, Moved, World, inc, ninc, moved, Reach, here, value_of, start_workers,
}
use bit_shell_os.SyncTest.Total.{start_world, added, inc_sums, IsDone}
use bit_shell_os.SyncTest.Waiting.{count, one_of}
use bit_shell_os.SyncTest.Finish.{inc_finishes, Finishes, run_out}

abbrev no_queue : List ℕ
no_queue = replicate 10 0

abbrev start : World
start = start_world 64 no_queue 5 (3 ∷ 4 ∷ 9 ∷ [])

distinct : (pid : ℕ) → count pid (3 ∷ 4 ∷ 9 ∷ []) ≤ 1
unfolding count one_of
distinct pid = ground arith

inc_finishes_example : Finishes start
inc_finishes_example =
    inc_finishes 64 no_queue 5 (3 ∷ 4 ∷ 9 ∷ []) start refl (omega arith) distinct here

ended : (l : World) × Reach inc start l × All IsDone l.workers
ended = run_out (inc_finishes 64 no_queue 5 (3 ∷ 4 ∷ 9 ∷ []) start refl (omega arith) distinct here)

inc_sums_example : ended.0.shared.global ≡ 105
unfolding added value_of
inc_sums_example =
    inc_sums 64 no_queue 5 (3 ∷ 4 ∷ 9 ∷ []) ended.0 (omega arith) (omega arith) ended.1 ended.2

-- The workers with the places `schedule` take their steps one after the other.
run_in_order : (Worker → Shared → Moved) → List ℕ → World → World
run_in_order program [] k = k
run_in_order program (i ∷ is) k = run_in_order program is (
    moved program k.shared (take i k.workers)
      (get_or k.workers i (record { pid = 0; left = 0; at = ready })) (drop (i + 1) k.workers))

-- Two workers that add 1 read before either has written: one of the additions is lost.
lost_update :
    (run_in_order ninc (0 ∷ 1 ∷ 0 ∷ 1 ∷ []) (start_world 64 no_queue 5 (3 ∷ 5 ∷ []))).shared.global
    ≡ 6
unfolding run_in_order moved ninc start_workers
lost_update = refl

-- With the semaphore the second one waits in the queue, and goes on when the first has posted.
second_waits :
    (run_in_order inc
      (0 ∷ 1 ∷ 0 ∷ 0 ∷ 0 ∷ 1 ∷ 1 ∷ 1 ∷ 1 ∷ [])
      (start_world 64 no_queue 5 (3 ∷ 5 ∷ []))).shared.global
    ≡ 7
unfolding run_in_order moved inc start_workers sem_wait new_semaphore sem_post
second_waits = refl
