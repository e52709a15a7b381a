-- ===== src/Philo/Tests.antt =====
-- The philosophers at tables of three and four.
use bit_shell_os.Base.{ℕ, ◌≤◌, true, ◌+◌, ◌≡◌, refl, false, ◌==◌, if◌then◌else◌, arith}
use bit_shell_os.Philo.{Table, Answers, add_ph, take_chopsticks, max_ph, thinking, eating, hungry}
use bit_shell_os.Philo.Session.{Session, opens, adds, takes, Session-IsApart}
use bit_shell_os.Philo.Dining.{IsApart}

-- Philosopher 1 eats, and 0 is hungry.
abbrev three : Table
three = record {
  state = λ i. if i == 1 then eating else (if i == 0 then hungry else thinking);
  pid = λ i. i + 5;
  amount = 3;
  philo_sem = λ i. 0;
  held = false;
}

abbrev empty_table : Table
empty_table = record {
  state = λ i. thinking;
  pid = λ i. 0;
  amount = 0;
  philo_sem = λ i. 0;
  held = false;
}

abbrev answers : ℕ → Answers
answers pid = record { opened = true; new_pid = pid; closed = true }

abbrev two_seated : Table
two_seated = (add_ph true 6 (add_ph true 5 empty_table).0).0

two_amount : two_seated.amount ≡ 2
unfolding add_ph
two_amount = refl

-- Two sit down, and the second asks for the chopsticks.
abbrev second_eats : Table
second_eats = (take_chopsticks 1 two_seated).0

second_eats-Session : Session second_eats
second_eats-Session =
    takes two_seated 1
      (adds (add_ph true 5 empty_table).0 (answers 6)
        (adds empty_table (answers 5) (opens empty_table refl)))
      (omega (arith, two_amount))

Session-IsApart_example : (second_eats.amount ≤ max_ph) × IsApart second_eats
Session-IsApart_example = Session-IsApart second_eats second_eats-Session
