-- ===== src/Philo/Dining.antt =====
-- The table of Userland/SampleCodeModule/philo.c: who sits beside whom, and who eats.
use bit_shell_os.Base.{
  ℕ, ◌+◌, ◌-◌, ◌<◌, ◌≡◌, ◌≢◌, refl, sym, ap, subst, ◌∙◌, ◌⊎◌, Bool, true, false, ◌==◌, ==→eq, eq→==,
  ne→==, arith, some, Bool-cases, inl, inr,
}
use bit_shell_os.Philo.{
  Table, thinking, eating, hungry, put, left, right, check_availability, take_chopsticks,
  put_chopsticks, add_ph, delete_ph, wait_philo_sem,
}

-- No philosopher of the table has the state EATING while the one at its right, if there is another,
-- has it.
abbrev pub IsApart : Table → Type 0
IsApart t =
    (i : ℕ)
    → i < t.amount
    → right t.amount i ≢ i
    → t.state i ≡ eating
    → t.state (right t.amount i) ≢ eating

right-left : (n i : ℕ) → i < n → right n (left n i) ≡ i
unfolding left right
right-left n i h = ground arith

left-right : (n i : ℕ) → i < n → left n (right n i) ≡ i
unfolding left right
left-right n i h = ground arith

-- A philosopher that starts to eat has no neighbour that eats.
pub check-IsApart :
    (i : ℕ) (t : Table) → i < t.amount → IsApart t → IsApart (check_availability i t)
unfolding check_availability left right
check-IsApart i t small h j below apart eats =
    let hj = h j in let hi = h i in let hl = h (left t.amount i) in ground arith

pub check-amount : (i : ℕ) (t : Table) → (check_availability i t).amount ≡ t.amount
unfolding check_availability
check-amount i t = ground arith

put-IsApart :
    (i v : ℕ) (t : Table) → v ≢ eating → IsApart t → IsApart (record t { state = put t.state i v })
put-IsApart i v t other h j below apart eats = let hj = h j in ground arith

-- The wait at a philosopher's own semaphore changes no state.
pub wait_philo_sem-IsApart : (i : ℕ) (t : Table) → IsApart t → IsApart (wait_philo_sem i t).0
unfolding wait_philo_sem
wait_philo_sem-IsApart i t h = elim (Bool-cases (t.philo_sem i == 0)) [
  | inl stays ↦ rw (stays, wait_philo_sem) h
  | inr passes ↦ rw (passes, wait_philo_sem) h
]

pub wait_philo_sem-amount : (i : ℕ) (t : Table) → (wait_philo_sem i t).0.amount ≡ t.amount
unfolding wait_philo_sem
wait_philo_sem-amount i t = ground arith

-- Whoever asks for the chopsticks: afterwards still no two neighbours eat.
pub take_chopsticks-IsApart :
    (i : ℕ) (t : Table) → i < t.amount → IsApart t → IsApart (take_chopsticks i t).0
unfolding take_chopsticks
take_chopsticks-IsApart i t small h =
    wait_philo_sem-IsApart i (check_availability i (record t { state = put t.state i hungry })) (
      check-IsApart i (record t { state = put t.state i hungry }) small
        (put-IsApart i hungry t (omega arith) h))

-- A philosopher whose semaphore is above 0, as `addPh` opens it, passes whoever has the chopsticks.
pub take_chopsticks_passes :
    (i : ℕ) (t : Table) → t.philo_sem i ≢ 0 → (take_chopsticks i t).1 ≡ true
unfolding take_chopsticks check_availability wait_philo_sem
take_chopsticks_passes i t some_left = ground arith

left-below : (n i : ℕ) → i < n → left n i < n
unfolding left
left-below n i h = ground arith

left-ne : (n i : ℕ) → i < n → 1 < n → left n i ≢ i
unfolding left
left-ne n i h two = ground arith

right-below : (n i : ℕ) → i < n → right n i < n
unfolding right
right-below n i h = ground arith

-- Whoever puts the chopsticks back: afterwards still no two neighbours eat.
pub put_chopsticks-IsApart :
    (i : ℕ) (t : Table) → i < t.amount → IsApart t → IsApart (put_chopsticks i t)
unfolding put_chopsticks
put_chopsticks-IsApart i t small h =
    let t₁ = record t { state = put t.state i thinking } in
    let t₂ = check_availability (left t.amount i) t₁ in
    let below : right t.amount i < t₂.amount =
      subst (λ n. right t.amount i < n) (sym (check-amount (left t.amount i) t₁))
        (right-below t.amount i small) in
    check-IsApart (right t.amount i) t₂ below (
      check-IsApart (left t.amount i) t₁ (left-below t.amount i small)
        (put-IsApart i thinking t (omega arith) h))

-- A new philosopher sits down between the last and the first: still no two neighbours eat.
pub add_ph-IsApart :
    (opened : Bool) (pid : ℕ) (t : Table) → IsApart t → IsApart (add_ph opened pid t).0
unfolding add_ph right
add_ph-IsApart opened pid t h j below apart eats =
    let hj = h j in let hr = ==→eq (t.amount) (t.amount) in ground arith

check_serves :
    (i : ℕ) (t : Table)
    → t.state i ≡ hungry
    → t.state (left t.amount i) ≢ eating
    → t.state (right t.amount i) ≢ eating
    → ((check_availability i t).state i ≡ eating)
      × ((check_availability i t).philo_sem i ≡ t.philo_sem i + 1)
unfolding check_availability
check_serves i t wants a b =
    rw
      (
        eq→== (t.state i) hungry wants,
        ne→== (t.state (left t.amount i)) eating a,
        ne→== (t.state (right t.amount i)) eating b,
      )
      (ground arith, ground arith)

check_keeps :
    (i j : ℕ) (t : Table)
    → t.state i ≡ eating
    → ((check_availability j t).state i ≡ eating)
      × ((check_availability j t).philo_sem i ≡ t.philo_sem i)
unfolding check_availability
check_keeps i j t eats = (ground arith, ground arith)

-- A hungry philosopher whose right neighbour puts the chopsticks back, at a table of two or more,
-- eats afterwards and its semaphore has been posted once, if its left neighbour does not eat or is
-- the one that puts them back.
pub put_chopsticks_serves :
    (i : ℕ) (t : Table)
    → i < t.amount
    → 1 < t.amount
    → t.state (left t.amount i) ≡ hungry
    → (t.state (left t.amount (left t.amount i)) ≢ eating) ⊎ (left t.amount (left t.amount i) ≡ i)
    → ((put_chopsticks i t).state (left t.amount i) ≡ eating)
      × ((put_chopsticks i t).philo_sem (left t.amount i) ≡ t.philo_sem (left t.amount i) + 1)
unfolding put_chopsticks
put_chopsticks_serves i t small two wants free =
    let t₁ = record t { state = put t.state i thinking } in
    let l = left t.amount i in
    let other : l ≢ i = left-ne t.amount i small two in
    let back = right-left t.amount i small in
    let (eats, posted) = check_serves l t₁ (ground arith) (ground arith) (ground arith) in
    let (still, once) = check_keeps l (right t.amount i) (check_availability l t₁) eats in
    (still, once ∙ posted)

-- Deleting the last philosopher of three or more when it thinks, while its two neighbours eat: they
-- sit beside each other afterwards, and both eat.
pub delete_ph_joins :
    (t : Table)
    → 2 < t.amount
    → t.state (t.amount - 1) ≡ thinking
    → t.state (t.amount - 2) ≡ eating
    → t.state 0 ≡ eating
    → (t' : Table) × (delete_ph true t ≡ some (t', true))
      × (t'.state (t'.amount - 1) ≡ eating)
      × (right t'.amount (t'.amount - 1) ≡ 0)
      × (t'.state 0 ≡ eating)
unfolding delete_ph right
delete_ph_joins t three out first last =
    let some_left : (t.amount == 0) ≡ false = ne→== t.amount 0 (omega arith) in
    let no_meal : (t.state (t.amount - 1) == eating) ≡ false =
      ne→== (t.state (t.amount - 1)) eating (omega (arith, out)) in
    let before : t.amount - 1 - 1 ≡ t.amount - 2 = omega arith in
    (
      record t { amount = t.amount - 1 },
      rw (some_left, no_meal) refl,
      ap t.state before ∙ first,
      rw (eq→== (t.amount - 1 - 1 + 1) (t.amount - 1) (omega arith)) refl,
      last,
    )
