-- ===== src/MemoryTest.antt =====
-- `test_mm` of Userland/SampleCodeModule/tests/test_mm.c and `memcheck` of test_util.c, on the memory
-- manager of the default build: blocks are asked for, filled, looked at and released.
--
-- The system calls are those of the module of that manager. `memory` is the bytes of the blocks as
-- the program sees them; the headers stand in the manager. The random numbers of test_util.c, which
-- other tests draw, are here too. The output is the text that goes to the screen. `none` is a fault.
pub mod Areas
pub mod Blocks
pub mod Rounds
mod Tests
use bit_shell_os.Base.{
  ℕ, zero, suc, ◌+◌, ◌-◌, ◌*◌, ◌/◌, ◌%◌, ◌^◌, Bool, true, false, ◌&&◌, Option, none, some, List, [],
  ◌∷◌, ◌++◌, ltb, leb, ◌==◌, if◌then◌else◌, ◌>>=◌,
}
use bit_shell_os.Memory.{memset}
use bit_shell_os.Heap.{Manager, alloc_mem, free_mem}

-- MAX_BLOCKS, and the largest whole number below MAX_MEMORY, which is 134217728 * 0.8.
abbrev pub max_blocks : ℕ
max_blocks = 128

abbrev pub below_max_memory : ℕ
below_max_memory = 107_374_182

-- `mm_rq`; `none` is NULL.
pub record MmRq : Type 0 where
  pub address : Option ℕ
  pub size : ℕ

pub size_of : ℕ → ℕ → ℕ
size_of rq j = (rq + 100) * (rq + 1) * j * 2 % 2 ^ 32

pub add_size : ℕ → MmRq → ℕ
add_size total r = elim r.address [ none ↦ total | some p ↦ (total + r.size) % 2 ^ 32 ]

-- The loop of requests, with `places` of the array left.
pub request_blocks : (places j rq total : ℕ) → Manager → Option (List MmRq × Manager)
unfolding size_of add_size
request_blocks zero j rq total m = some ([], m)
request_blocks (suc places) j rq total m =
    if leb total below_max_memory
    then (alloc_mem m (size_of rq j) >>= λ (p, m').
        let r : MmRq = record { address = p; size = size_of rq j } in
        request_blocks places j (rq + 1) (add_size total r) m' >>= λ (rs, m''). some (r ∷ rs, m''))
    else some ([], m)

pub fill_block : ℕ → MmRq → (ℕ → ℕ) → ℕ → ℕ
fill_block i r memory = elim r.address [ none ↦ memory | some p ↦ memset p i r.size memory ]

-- The loop that fills each block with its number.
pub fill_blocks : ℕ → List MmRq → (ℕ → ℕ) → ℕ → ℕ
unfolding fill_block
fill_blocks i [] memory = memory
fill_blocks i (r ∷ rs) memory = fill_blocks (i + 1) rs (fill_block i r memory)

pub memcheck : ℕ → ℕ → ℕ → (ℕ → ℕ) → Bool
memcheck start value zero memory = true
memcheck start value (suc n) memory = memory start == value && memcheck (start + 1) value n memory

abbrev pub error_text : List ℕ
error_text = b'E' ∷ b'R' ∷ b'R' ∷ b'O' ∷ b'R' ∷ b'!' ∷ b'\n' ∷ []

abbrev pub succeed_text : List ℕ
succeed_text = b'S' ∷ b'u' ∷ b'c' ∷ b'c' ∷ b'e' ∷ b'e' ∷ b'd' ∷ b'\n' ∷ []

pub check_block : ℕ → MmRq → (ℕ → ℕ) → List ℕ
unfolding memcheck
check_block i r memory = elim r.address [
  | none ↦ []
  | some p ↦ if memcheck p (i % 256) r.size memory then [] else error_text
]

-- What the loop that looks at the blocks prints.
pub check_blocks : ℕ → List MmRq → (ℕ → ℕ) → List ℕ
unfolding check_block
check_blocks i [] memory = []
check_blocks i (r ∷ rs) memory = check_block i r memory ++ check_blocks (i + 1) rs memory

pub free_block : MmRq → Manager → Option Manager
free_block r m = elim r.address [ none ↦ some m | some p ↦ free_mem m (some p) ]

pub free_blocks : List MmRq → Manager → Option Manager
unfolding free_block
free_blocks [] m = some m
free_blocks (r ∷ rs) m = free_block r m >>= λ m'. free_blocks rs m'

-- The heap, the bytes in it, and what was printed.
pub record Outcome : Type 0 where
  pub manager : Manager
  pub memory : ℕ → ℕ
  pub output : List ℕ

-- One turn of the outer loop.
pub test_round : ℕ → Manager → (ℕ → ℕ) → Option Outcome
unfolding request_blocks fill_blocks check_blocks free_blocks
test_round j m memory = request_blocks max_blocks j 0 0 m >>= λ (rqs, m').
    let filled = fill_blocks 0 rqs memory in
    let errors = check_blocks 0 rqs filled in
    free_blocks rqs m' >>= λ m''.
    some (record { manager = m''; memory = filled; output = errors ++ succeed_text })

-- The outer loop, with `n` turns left.
pub test_rounds : (n j : ℕ) → Manager → (ℕ → ℕ) → Option Outcome
unfolding test_round
test_rounds zero j m memory = some (record { manager = m; memory = memory; output = [] })
test_rounds (suc n) j m memory = test_round j m memory >>= λ o.
    test_rounds n (j + 1) o.manager o.memory >>= λ o'.
    some (record o' { output = o.output ++ o'.output })

pub test_mm : Manager → (ℕ → ℕ) → Option Outcome
unfolding test_rounds
test_mm m memory = test_rounds 19 1 m memory

-- `m_z` and `m_w` of test_util.c, and the next number of `GetUint`.
pub record Generator : Type 0 where
  pub m_z : ℕ
  pub m_w : ℕ

abbrev pub first_generator : Generator
first_generator = record { m_z = 362_436_069; m_w = 521_288_629 }

pub get_uint : Generator → ℕ × Generator
get_uint g =
    let z = (36969 * (g.m_z % 65536) + g.m_z / 65536) % 2 ^ 32 in
    let w = (18000 * (g.m_w % 65536) + g.m_w / 65536) % 2 ^ 32 in
    ((z * 65536 + w) % 2 ^ 32, record { m_z = z; m_w = w })
