-- ===== src/Philo/Session.antt =====
-- A session of the philosophers (Userland/SampleCodeModule/philo.c): the menu and the philosophers
-- themselves, in any order, each under the mutex.
use bit_shell_os.Base.{
  ℕ, suc, ◌-◌, ◌≤◌, ◌<◌, ◌≡◌, ◌≢◌, sym, subst, ◌∙◌, Bool, true, false, ◌==◌, ==→ne, arith, Option,
  some, Bool-cases, inl, inr,
}
use bit_shell_os.Philo.{
  Table, max_ph, thinking, eating, hungry, put, left, right, check_availability, take_chopsticks,
  put_chopsticks, add_ph, delete_ph, Answers, wait_philo_sem,
}
use bit_shell_os.Philo.Dining.{
  IsApart, check-IsApart, check-amount, take_chopsticks-IsApart, put_chopsticks-IsApart,
  add_ph-IsApart, wait_philo_sem-IsApart, wait_philo_sem-amount,
}

-- The tables that a session comes to from an empty one, if no philosopher is removed but one that
-- eats.
pub data Session : Table → Type 0 where
  opens : (t : Table) → t.amount ≡ 0 → Session t
  adds : (t : Table) (a : Answers) → Session t → Session (add_ph a.opened a.new_pid t).0
  takes : (t : Table) (i : ℕ) → Session t → i < t.amount → Session (take_chopsticks i t).0
  resumes : (t : Table) (i : ℕ) → Session t → Session (wait_philo_sem i t).0
  puts : (t : Table) (i : ℕ) → Session t → i < t.amount → Session (put_chopsticks i t)
  removes :
      (t t' : Table)
      → Session t
      → t.state (t.amount - 1) ≡ eating
      → delete_ph true t ≡ some (t', true)
      → Session t'

put_chopsticks-amount : (i : ℕ) (t : Table) → (put_chopsticks i t).amount ≡ t.amount
unfolding put_chopsticks
put_chopsticks-amount i t =
    let t₁ : Table = record t { state = put t.state i thinking } in
    check-amount (right t.amount i) (check_availability (left t.amount i) t₁)
    ∙ check-amount (left t.amount i) t₁

take_chopsticks-amount : (i : ℕ) (t : Table) → (take_chopsticks i t).0.amount ≡ t.amount
unfolding take_chopsticks
take_chopsticks-amount i t =
    wait_philo_sem-amount i (check_availability i (record t { state = put t.state i hungry }))
    ∙ check-amount i (record t { state = put t.state i hungry })

add_ph-amount :
    (opened : Bool) (pid : ℕ) (t : Table)
    → t.amount ≤ max_ph
    → (add_ph opened pid t).0.amount ≤ max_ph
unfolding add_ph
add_ph-amount true pid t h = ground arith
add_ph-amount false pid t h = ground arith

-- The table without its last seat, if the one there eats.
fewer-IsApart :
    (n : ℕ) (t : Table)
    → t.amount ≡ suc n
    → t.state n ≡ eating
    → IsApart t
    → IsApart (record t { amount = n })
unfolding right
fewer-IsApart n t e eats h j below apart now = let hj = h j in ground (arith, e)

delete_ph_at_meal :
    (t : Table)
    → t.amount ≢ 0
    → t.amount - 1 ≢ 0
    → t.state (t.amount - 1) ≡ eating
    → delete_ph true t
      ≡ some (
        check_availability 0
            (check_availability (t.amount - 1 - 1) (record t { amount = t.amount - 1 })),
        true,
      )
unfolding delete_ph
delete_ph_at_meal t some_left more eats = ground arith

same_table :
    (a b : Table) → ◌≡◌ {A = Option (Table × Bool)} (some (a, true)) (some (b, true)) → a ≡ b
same_table a b e = cc

-- Removing the last philosopher while it eats, which ends well for any but the only one, leaves no two
-- neighbours that eat.
delete_ph-IsApart :
    (t t' : Table)
    → t.state (t.amount - 1) ≡ eating
    → delete_ph true t ≡ some (t', true)
    → IsApart t
    → (t'.amount ≤ t.amount) × IsApart t'
unfolding delete_ph
delete_ph-IsApart t t' eats e h = elim (Bool-cases (t.amount == 0)) [
  | inl nobody ↦ absurd (ground arith)
  | inr some_left ↦ elim (Bool-cases (t.amount - 1 == 0)) [
    | inl alone ↦ absurd (ground arith)
    | inr more ↦
        let index = t.amount - 1 in
        let big = ==→ne (t.amount - 1) 0 more in
        let t₁ : Table = record t { amount = index } in
        let t₂ = check_availability (index - 1) t₁ in
        let t₃ = check_availability 0 t₂ in
        let same : t₃ ≡ t' =
          same_table t₃ t' (sym (delete_ph_at_meal t (==→ne t.amount 0 some_left) big eats) ∙ e) in
        let size₂ = check-amount (index - 1) t₁ in
        let size₃ = check-amount 0 t₂ in
        subst (λ x. (x.amount ≤ t.amount) × IsApart x) same
          (
            omega (arith, size₂, size₃),
            check-IsApart 0 t₂ (omega (arith, size₂, big)) (
                check-IsApart (index - 1) t₁ (omega (arith, big))
                  (fewer-IsApart index t (omega (arith, big)) eats h)),
          )
  ]
]

-- In a session in which philosophers sit down, take chopsticks, go on at their semaphores and put
-- chopsticks back in any order, and none is removed but one in the state EATING, there are never more
-- philosophers than seats, and no philosopher has the state EATING while the one at its right, if there
-- is another, has it. Who has passed its semaphore is not said: it opens at 1, so that a philosopher
-- passes it once in the state HUNGRY as well.
pub Session-IsApart : (t : Table) → Session t → (t.amount ≤ max_ph) × IsApart t
Session-IsApart _ (opens t e) = (omega (arith, e), λ i below apart eats. absurd (omega (arith, e)))
Session-IsApart _ (adds t a s) =
    let (few, apart) = Session-IsApart t s in
    (add_ph-amount a.opened a.new_pid t few, add_ph-IsApart a.opened a.new_pid t apart)
Session-IsApart _ (takes t i s below) =
    let (few, apart) = Session-IsApart t s in
    (omega (arith, few, take_chopsticks-amount i t), take_chopsticks-IsApart i t below apart)
Session-IsApart _ (resumes t i s) =
    let (few, apart) = Session-IsApart t s in
    (omega (arith, few, wait_philo_sem-amount i t), wait_philo_sem-IsApart i t apart)
Session-IsApart _ (puts t i s below) =
    let (few, apart) = Session-IsApart t s in
    (omega (arith, few, put_chopsticks-amount i t), put_chopsticks-IsApart i t below apart)
Session-IsApart _ (removes t t' s eats e) =
    let (few, apart) = Session-IsApart t s in
    let (fewer, still) = delete_ph-IsApart t t' eats e apart in (omega (arith, few, fewer), still)
