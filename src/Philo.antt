-- ===== src/Philo.antt =====
-- Userland/SampleCodeModule/philo.c: the dining philosophers, up to ten of them round a table that
-- grows and shrinks.
--
-- The section that `mutex` guards is one step, which starts with the mutex free; `held` says that
-- it is still held after the step. A semaphore of a philosopher is its value, and a wait at it passes
-- or stays; opening and closing semaphores and the processes are system calls, of which only the
-- results stand here.
pub mod Dining
pub mod Session
mod Tests
use bit_shell_os.Base.{
  ℕ, zero, suc, ◌+◌, ◌-◌, Bool, true, false, not, ◌&&◌, ◌||◌, Option, none, some, ltb, leb, ◌==◌,
  if◌then◌else◌, List, [], ◌∷◌, ◌++◌, ◌>>=◌,
}

-- MAX_PH.
abbrev pub max_ph : ℕ
max_ph = 10

-- `enum state`.
abbrev pub thinking : ℕ
thinking = 0

abbrev pub eating : ℕ
eating = 1

abbrev pub hungry : ℕ
hungry = 2

pub record Table : Type 0 where
  pub state : ℕ → ℕ
  pub pid : ℕ → ℕ
  pub amount : ℕ
  pub philo_sem : ℕ → ℕ
  pub held : Bool

abbrev pub put : (ℕ → ℕ) → ℕ → ℕ → ℕ → ℕ
put f i v j = if j == i then v else f j

pub left : ℕ → ℕ → ℕ
left amount index = if index == 0 then amount - 1 else index - 1

pub right : ℕ → ℕ → ℕ
right amount index = if index + 1 == amount then 0 else index + 1

-- `checkAvailability`, for the index of a philosopher.
pub check_availability : ℕ → Table → Table
unfolding left right
check_availability index t =
    if t.state index == hungry
      && not (t.state (left t.amount index) == eating)
      && not (t.state (right t.amount index) == eating)
    then record t {
      state = put t.state index eating;
      philo_sem = put t.philo_sem index (t.philo_sem index + 1);
    }
    else t

-- A turn of `sys_semWait` at the philosopher's own semaphore: whether it passes. One that does not
-- stands in the queue, and takes another turn when a post wakes it.
pub wait_philo_sem : ℕ → Table → Table × Bool
wait_philo_sem index t =
    if t.philo_sem index == 0
    then (t, false)
    else (record t { philo_sem = put t.philo_sem index (t.philo_sem index - 1) }, true)

-- The section under the mutex, and the wait behind it.
pub take_chopsticks : ℕ → Table → Table × Bool
unfolding check_availability wait_philo_sem
take_chopsticks index t =
    wait_philo_sem index (check_availability index (record t { state = put t.state index hungry }))

pub put_chopsticks : ℕ → Table → Table
unfolding check_availability
put_chopsticks index t =
    check_availability (right t.amount index)
      (check_availability (left t.amount index) (record t { state = put t.state index thinking }))

-- `addPh(amountPh)`. `opened` says whether the semaphore's opening gave one, and `pid` is the new
-- process; the flag is false for the result -1.
pub add_ph : Bool → ℕ → Table → Table × Bool
add_ph opened pid t =
    if leb max_ph t.amount
    then (t, false)
    else (let seated = record t { state = put t.state t.amount thinking } in
        if opened
        then (
          record seated {
            philo_sem = put t.philo_sem t.amount 1;
            pid = put t.pid t.amount pid;
            amount = t.amount + 1;
          },
          true,
        )
        else (record seated { held = true }, false))

-- `deletePh(amountPh - 1)`. `closed` says whether closing the semaphore succeeds. Where the last
-- philosopher of all leaves an eating seat, the code reads before the array: that is `none`.
pub delete_ph : Bool → Table → Option (Table × Bool)
unfolding check_availability
delete_ph closed t =
    if t.amount == 0
    then some (t, false)
    else (let index = t.amount - 1 in
        let fewer = record t { amount = index } in
        if not closed
        then some (record t { held = true }, false)
        else (if t.state index == eating
            then (if index == 0
                then none
                else some (check_availability 0 (check_availability (index - 1) fewer), true))
            else some (fewer, true)))

-- What `printTable` prints, from a seat on.
pub print_table : ℕ → ℕ → (ℕ → ℕ) → List ℕ
print_table zero i state = b'\n' ∷ []
print_table (suc n) i state =
    (if state i == eating then b' ' ∷ b'E' ∷ b' ' ∷ [] else b' ' ∷ b'.' ∷ b' ' ∷ [])
    ++ print_table n (i + 1) state

-- The loop of `endDining`: the seats whose semaphores are closed and the processes that are killed, in
-- order.
pub end_dining : (ℕ → ℕ) → ℕ → List (ℕ × ℕ)
end_dining pid zero = []
end_dining pid (suc n) = (n, pid n) ∷ end_dining pid n

-- The keys of the menu.
pub data Choice : Type 0 where
  add remove quit ignore : Choice

pub choice_of : ℕ → Choice
choice_of c =
    if c == b'a' || c == b'A'
    then add
    else (if c == b'r' || c == b'R'
        then remove
        else (if c == b'q' || c == b'Q' then quit else ignore))

-- What the system calls give that a choice of the menu makes: whether the semaphore is opened, the pid
-- of the new process, and whether the semaphore is closed.
pub record Answers : Type 0 where
  pub opened : Bool
  pub new_pid : ℕ
  pub closed : Bool

-- One turn of the loop of `philo`; `quit` leaves it.
pub menu : Choice → Answers → Table → Option Table
unfolding add_ph delete_ph
menu add a t = some (add_ph a.opened a.new_pid t).0
menu remove a t = delete_ph a.closed t >>= λ (t', ok). some t'
menu quit a t = some t
menu ignore a t = some t
