-- ===== src/Semaphores/Tests.antt =====
-- Semaphores with and without processes that wait.
use bit_shell_os.Base.{◌≡◌, refl, [], ◌∷◌, inr, true, arith}
use bit_shell_os.Semaphores.{Semaphore, Semaphores, sem_wait, wait_turn, sem_post, queued}
use bit_shell_os.Semaphores.Queue.{IsValid, Waits, Posts, sem_wait_lem, sem_post_lem}
use bit_shell_os.Semaphores.Wakeups.{
  Room, after_wait, after_post, waits, posts, Reach, here, next, IsServed, IsConserved,
  Reach-IsServed, Reach-IsConserved,
}
use bit_shell_os.Semaphores.Table
use bit_shell_os.Semaphores.Table.{
  AbsentId, sem_open-IsValid, sem_open_locks, sem_close-IsValid, sem_wait_locks,
}

-- Processes 7, 8 and 9 wait.
abbrev three_wait : Semaphore
three_wait = record {
  address = 4096;
  id = 1;
  value = 0;
  queue = 7 ∷ 8 ∷ 9 ∷ 0 ∷ 0 ∷ 0 ∷ 0 ∷ 0 ∷ 0 ∷ 0 ∷ [];
  waiting = 3;
  lock = 0;
}

three_wait-IsValid : IsValid three_wait
three_wait-IsValid = record { places = refl; fits = omega arith }

sem_wait_lem_example : Waits 5 three_wait (sem_wait 5 three_wait)
sem_wait_lem_example = sem_wait_lem 5 three_wait three_wait-IsValid refl

sem_post_lem_example : Posts three_wait (sem_post three_wait)
sem_post_lem_example = sem_post_lem three_wait three_wait-IsValid refl (omega arith)

eight_queued : queued 8 3 three_wait.queue ≡ true
unfolding queued
eight_queued = refl

-- Nobody is on its way, nobody has passed.
abbrev room : Room
room = record { sem = three_wait; woken = []; passed = 0; posted = 0 }

abbrev posted_room : Room
posted_room = after_post room (sem_post three_wait)

abbrev waited_room : Room
waited_room = after_wait posted_room (sem_wait 5 posted_room.sem)

post_then_wait : Reach room waited_room
post_then_wait = next (next here (posts room)) (waits posted_room 5)

Reach-IsServed_example : IsServed waited_room
Reach-IsServed_example = Reach-IsServed (inr (omega arith)) post_then_wait

waited_once : waited_room.posted ≡ 1
unfolding after_post after_wait sem_post sem_wait wait_turn
waited_once = refl

Reach-IsConserved_example : IsConserved 0 waited_room
Reach-IsConserved_example =
    Reach-IsConserved 0 {r = room} refl (omega (arith, waited_once)) post_then_wait

abbrev table : Semaphores
table = record { entries = three_wait ∷ []; mutex_sem = 0 }

table-IsValid : Table.IsValid table
table-IsValid = record { free = refl; fits = omega arith; distinct = (tt, tt) }

abbrev idle_semaphore : Semaphore
idle_semaphore = record three_wait { waiting = 0 }
