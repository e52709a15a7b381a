-- ===== src/MemoryTest/Rounds.antt =====
-- The turns of `test_mm` (Userland/SampleCodeModule/tests/test_mm.c) on the memory manager.
use native.Mathlib.Nat.{mul-le-mul, mul-pos, mod-eq_of_lt}
use bit_shell_os.Base.{
  ℕ, zero, suc, ◌+◌, ◌*◌, ◌%◌, ◌^◌, ◌≤◌, ◌<◌, ◌≡◌, ◌≢◌, refl, sym, ap₂, Option, some, List, [], ◌∷◌,
  ◌++◌, arith, ap, subst, ◌∙◌, inl, inr, Option-cases, Bool-cases, ◌>>=◌, leb,
}
use bit_shell_os.Heap.{Block, Manager, take_live, struct_size, heap_left}
use bit_shell_os.Heap.Tiling.{covered, bytes}
use bit_shell_os.Heap.Alloc.{IsValid, in_heap, Answers, alloc_mem_lem}
use bit_shell_os.Heap.Release.{free_mem_lem}
use bit_shell_os.MemoryTest.{
  MmRq, size_of, add_size, request_blocks, fill_blocks, check_blocks, free_block, free_blocks,
  Outcome, test_round, test_rounds, test_mm, succeed_text, max_blocks,
}
use bit_shell_os.MemoryTest.Areas.{check_blocks_pass}
use bit_shell_os.MemoryTest.Blocks.{Holds, Holds-none, Holds-some, Holds-under, Holds-areas}

size_of_bounds :
    (rq j : ℕ)
    → rq < max_blocks
    → 1 ≤ j
    → j < 20
    → (size_of rq j ≢ 0) × (size_of rq j + 24 ≤ 2 ^ 32)
unfolding size_of
size_of_bounds rq j small first last =
    (λ e. omega (arith, positive, whole, e), omega (arith, bound, whole))
  where
    bound : (rq + 100) * (rq + 1) * j * 2 ≤ 227 * 128 * 19 * 2
    bound =
        mul-le-mul {m₁ = 2} {m₂ = 2}
          (mul-le-mul {m₁ = j} {m₂ = 19}
            (mul-le-mul {n₁ = rq + 100} {m₁ = rq + 1} {n₂ = 227} {m₂ = 128} (omega arith)
              (omega arith))
            (omega arith))
          (omega arith)

    positive : 0 < (rq + 100) * (rq + 1) * j * 2
    positive = mul-pos (mul-pos (mul-pos (omega arith) (omega arith)) first) (omega arith)

    whole : (rq + 100) * (rq + 1) * j * 2 % 2 ^ 32 ≡ (rq + 100) * (rq + 1) * j * 2
    whole = mod-eq_of_lt (omega (arith, bound))

covered_le : (base a : ℕ) (m : Manager) → IsValid base m → covered a m.live ≤ 1
unfolding in_heap
covered_le base a m v = ground (arith, v.tiled a)

-- The answer to a request, when those to the ones behind it are known.
request-Holds :
    (base n : ℕ) (m m₁ m₂ : Manager) (p : Option ℕ) (rs : List MmRq)
    → IsValid base m₂
    → Answers m n p m₁
    → Holds rs m₂.live m₁.live
    → Holds (record { address = p; size = n } ∷ rs) m₂.live m.live
request-Holds base n m m₁ m₂ p rs v (inl (nothing, same, why)) h =
    subst (λ T. T) (sym (Holds-none (record { address = p; size = n }) rs m₂.live m.live nothing))
      (subst (λ l. Holds rs m₂.live l) (ap (λ x. x.live) same) h)
request-Holds base n m m₁ m₂ p rs v (inr (b, size, given, fits, live, small, least)) h =
    let (live', x, y) =
      Holds-under rs b m₂.live m.live (λ a. covered_le base a m₂ v) (omega (arith, fits))
        (subst (λ l. Holds rs m₂.live l) live h) in
    subst (λ T. T)
      (sym (
        Holds-some (record { address = p; size = n }) rs m₂.live m.live (b.addr + struct_size)
          given))
      (
        b,
        live',
        subst (λ a. take_live a m₂.live ≡ some (b, live')) (omega arith) x,
        omega arith,
        fits,
        y,
      )

-- The requests of a turn: none faults, and the pointers stand for blocks of their own.
requests_hold :
    (base places j rq total : ℕ) (m : Manager)
    → rq + places ≤ max_blocks
    → 1 ≤ j
    → j < 20
    → IsValid base m
    → (rs : List MmRq) × (m' : Manager) × (request_blocks places j rq total m ≡ some (rs, m'))
      × IsValid base m'
      × Holds rs m'.live m.live
unfolding request_blocks Holds
requests_hold base zero j rq total m fit first last v = ([], m, refl, v, refl)
requests_hold base (suc places) j rq total m fit first last v =
    elim (Bool-cases (leb total 107_374_182)) [
      | inr full ↦ ([], m, rw full refl, v, refl)
      | inl more ↦
          let n = size_of rq j in
          let (positive, room) = size_of_bounds rq j (omega arith) first last in
          let (p, m₁, e, v₁, answers) = alloc_mem_lem base n m positive room v in
          let r : MmRq = record { address = p; size = n } in
          let (rs, m₂, e₂, v₂, h) =
            requests_hold base places j (rq + 1) (add_size total r) m₁ (omega arith) first last
              v₁ in
          (
            r ∷ rs,
            m₂,
            rw (more, e, e₂, ◌>>=◌) refl,
            v₂,
            request-Holds base n m m₁ m₂ p rs v₂ answers h,
          )
    ]

-- The pointers that are held are released one after the other.
free_blocks_lem :
    (base : ℕ) (rs : List MmRq) (m : Manager) (left : List Block)
    → IsValid base m
    → Holds rs m.live left
    → (m' : Manager) × (free_blocks rs m ≡ some m') × IsValid base m' × (m'.live ≡ left)
unfolding free_blocks free_block Holds
free_blocks_lem base [] m left v h = (m, refl, v, h)
free_blocks_lem base (r ∷ rs) m left v h = elim (Option-cases r.address) [
  | inl e ↦
      let (m', x, y, z) =
        free_blocks_lem base rs m left v (subst (λ T. T) (Holds-none r rs m.live left e) h) in
      (m', rw (e, x, ◌>>=◌) refl, y, z)
  | inr (p, e) ↦
      let (b, others, found, past, fits, more) =
        subst (λ T. T) (Holds-some r rs m.live left p e) h in
      let (m₁, f, v₁, live₁, count) = free_mem_lem base p m b others v past found in
      let (m', x, y, z) =
        free_blocks_lem base rs m₁ left v₁ (subst (λ l. Holds rs l left) (sym live₁) more) in
      (m', rw (e, f, x, ◌>>=◌) refl, y, z)
]

same_left :
    (base : ℕ) (m m' : Manager)
    → IsValid base m
    → IsValid base m'
    → m'.live ≡ m.live
    → heap_left m' ≡ heap_left m
unfolding heap_left
same_left base m m' v v' e = omega (arith, v.counted, v'.counted, v.total, v'.total, ap bytes e)

-- What a turn or the whole test leaves: the text, and the heap as it was.
pub record Passes (base : ℕ) (m : Manager) (text : List ℕ) (result : Option Outcome) : Type 0 where
  pub outcome : Outcome
  pub runs : result ≡ some outcome
  pub printed : outcome.output ≡ text
  pub valid : IsValid base outcome.manager
  pub live : outcome.manager.live ≡ m.live
  pub left : heap_left outcome.manager ≡ heap_left m

round-Passes :
    (base j : ℕ) (m : Manager) (memory : ℕ → ℕ)
    → 1 ≤ j
    → j < 20
    → IsValid base m
    → Passes base m succeed_text (test_round j m memory)
unfolding test_round
round-Passes base j m memory first last v =
    let (rs, m₁, e, v₁, h) = requests_hold base max_blocks j 0 0 m (omega arith) first last v in
    let (m₂, f, v₂, live) = free_blocks_lem base rs m₁ m.live v₁ h in
    let filled = fill_blocks 0 rs memory in
    record {
      outcome = record {
        manager = m₂;
        memory = filled;
        output = check_blocks 0 rs filled ++ succeed_text;
      };
      runs = rw (e, f, ◌>>=◌) refl;
      printed =
          ap (λ t. t ++ succeed_text)
            (check_blocks_pass 0 rs memory
              (λ a. omega (arith, Holds-areas rs m₁.live m.live a h, covered_le base a m₁ v₁)));
      valid = v₂;
      live = live;
      left = same_left base m m₂ v v₂ live;
    }

-- The text of `n` turns.
abbrev pub successes : ℕ → List ℕ
successes zero = []
successes (suc n) = succeed_text ++ successes n

rounds_pass :
    (base n j : ℕ) (m : Manager) (memory : ℕ → ℕ)
    → 1 ≤ j
    → j + n ≤ 20
    → IsValid base m
    → Passes base m (successes n) (test_rounds n j m memory)
unfolding test_rounds
rounds_pass base zero j m memory first last v = record {
  outcome = record { manager = m; memory = memory; output = [] };
  runs = refl;
  printed = refl;
  valid = v;
  live = refl;
  left = refl;
}
rounds_pass base (suc n) j m memory first last v =
    let o = round-Passes base j m memory first (omega arith) v in
    let o' =
      rounds_pass base n (j + 1) o.outcome.manager o.outcome.memory (omega arith) (omega arith)
        o.valid in
    record {
      outcome = record o'.outcome { output = o.outcome.output ++ o'.outcome.output };
      runs = rw (o.runs, o'.runs, ◌>>=◌) refl;
      printed = ap₂ ◌++◌ o.printed o'.printed;
      valid = o'.valid;
      live = o'.live ∙ o.live;
      left = o'.left ∙ o.left;
    }

-- The memory test passes on every valid heap, however full: no call faults, it prints its 19 lines of
-- success and no error, and the heap is valid after it, with the live blocks and the count of free
-- bytes that it had.
pub test_mm-Passes :
    (base : ℕ) (m : Manager) (memory : ℕ → ℕ)
    → IsValid base m
    → Passes base m (successes 19) (test_mm m memory)
unfolding test_mm
test_mm-Passes base m memory v = rounds_pass base 19 1 m memory (omega arith) (omega arith) v
