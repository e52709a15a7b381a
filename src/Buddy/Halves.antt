-- ===== src/Buddy/Halves.antt =====
-- The blocks that `allocMem` of Kernel/utils/MemManBuddy.c halves and hands out.
use bit_shell_os.Base.{
  ℕ, zero, suc, ◌+◌, ◌-◌, ◌*◌, ◌/◌, ◌%◌, ◌^◌, ◌≤◌, ◌<◌, ◌≡◌, ◌≢◌, refl, sym, ap, subst, ◌∙◌, ◌⊎◌,
  inl, inr, true, false, ◌&&◌, ◌==◌, ltb, leb, arith, Bool-cases, ==→eq, ne→==, eq→==, Option, some,
  none, List, [], ◌∷◌, ltb→lt, ltb→le, ap₂, All, le→ltb, ◌>>=◌,
}
use bit_shell_os.Buddy.{
  Header, Manager, put, total_heap_size, minimum_block_size, insert_unmerged,
  insert_block_into_free_list, take_block, serve, alloc_mem, round_request, halve, halved,
  halve_loop, struct_size,
}
use bit_shell_os.Buddy.Count.{doubled, insert_by_size_total}

put-size :
    (headers : ℕ → Header) (a b : ℕ)
    → (put a (record (headers a) { is_free = 1 }) headers b).block_size ≡ (headers b).block_size
put-size headers a b = elim (Bool-cases (b == a)) [
  | inl here ↦ rw here (ap (λ c. (headers c).block_size) (sym (==→eq b a here)))
  | inr away ↦ rw away refl
]

halved-count : (a : ℕ) (m : Manager) → (halved a m).free_bytes_remaining ≡ m.free_bytes_remaining
unfolding halved
halved-count a m = refl

insert_new_lem :
    (a : ℕ) (m : Manager)
    → (m.headers a).block_size < total_heap_size
    → (m' : Manager) × (insert_block_into_free_list 1 a false m
        ≡ some (m', (m.headers a).block_size))
      × ((b : ℕ) → (m'.headers b).block_size ≡ (m.headers b).block_size)
      × (m'.free_bytes_remaining ≡ m.free_bytes_remaining)
unfolding insert_block_into_free_list insert_unmerged
insert_new_lem a m small =
    let (r, e) = insert_by_size_total m.headers a m.free_list (omega arith) in
    (
      record m { headers = put a (record (m.headers a) { is_free = 1 }) m.headers; free_list = r },
      rw (ne→== (m.headers a).block_size total_heap_size (omega arith), e, ◌>>=◌) refl,
      put-size m.headers a,
      refl,
    )

halved-upper :
    (a : ℕ) (m : Manager)
    → ((halved a m).headers (a + (m.headers a).block_size / 2)).block_size
      ≡ (m.headers a).block_size / 2
unfolding halved
halved-upper a m = let upper = a + (m.headers a).block_size / 2 in rw (eq→== upper upper refl) refl

halved-lower :
    (a : ℕ) (m : Manager)
    → 1 < (m.headers a).block_size
    → ((halved a m).headers a).block_size ≡ (m.headers a).block_size / 2
unfolding halved
halved-lower a m two =
    let upper = a + (m.headers a).block_size / 2 in
    rw (ne→== a upper (omega (arith, two)), eq→== a a refl) refl

halve_lem :
    (a : ℕ) (m : Manager)
    → (m.headers a).block_size ≤ total_heap_size
    → 1 < (m.headers a).block_size
    → (m' : Manager) × (halve a m ≡ some m')
      × ((m'.headers a).block_size ≡ (m.headers a).block_size / 2)
      × (m'.free_bytes_remaining ≡ m.free_bytes_remaining)
unfolding halve
halve_lem a m small two =
    let up = halved-upper a m in
    let (m', e, sizes, same) =
      insert_new_lem (a + (m.headers a).block_size / 2) (halved a m)
        (omega (arith, up, small, two)) in
    (
      m',
      ap (λ o. o >>= λ (m₁, size). some m₁) e,
      sizes a ∙ halved-lower a m two,
      same ∙ halved-count a m,
    )

doubled_twice : (k n : ℕ) → doubled k (2 * n) ≡ 2 * doubled k n
unfolding doubled
doubled_twice zero n = refl
doubled_twice (suc k) n = doubled_twice k (2 * n)

abbrev pub Halves : ℕ → ℕ → ℕ → Manager → Type 0
Halves fuel want a m =
    (m' : Manager) × (halve_loop fuel want a m ≡ some m')
    × (want ≤ (m'.headers a).block_size)
    × (((m'.headers a).block_size < 2 * minimum_block_size)
        ⊎ ((m'.headers a).block_size < 2 * want))
    × (m'.free_bytes_remaining ≡ m.free_bytes_remaining)

Halves-next :
    (fuel want a : ℕ) (m m₁ : Manager)
    → (leb minimum_block_size ((m.headers a).block_size / 2)
        && leb want ((m.headers a).block_size / 2))
      ≡ true
    → halve a m ≡ some m₁
    → m₁.free_bytes_remaining ≡ m.free_bytes_remaining
    → Halves fuel want a m₁
    → Halves (suc fuel) want a m
unfolding halve_loop
Halves-next fuel want a m m₁ go e same (m', e', fits, bound, same') =
    (m', rw go (ap (λ o. o >>= halve_loop fuel want a) e ∙ e'), fits, bound, same' ∙ same)

doubled_needs : (k n s : ℕ) → n ≤ s → s < doubled k n → 0 < k
unfolding doubled
doubled_needs zero n s h below = absurd (omega arith)
doubled_needs (suc k) n s h below = omega arith

-- A block of at most the heap's size that is large enough for the request, with fuel for the
-- halves: the loop returns; the block is still large enough, it is smaller than two smallest blocks
-- or than twice the request, and the count of free bytes is what it was.
pub halve_loop_lem :
    (fuel want a : ℕ) (m : Manager)
    → 0 < fuel
    → (m.headers a).block_size ≤ total_heap_size
    → want ≤ (m.headers a).block_size
    → (m.headers a).block_size < doubled fuel minimum_block_size
    → Halves fuel want a m
unfolding halve_loop doubled
halve_loop_lem zero want a m some_fuel small fits enough = absurd (omega arith)
halve_loop_lem (suc fuel) want a m some_fuel small fits enough =
    let half = (m.headers a).block_size / 2 in
    elim (Bool-cases (leb minimum_block_size half && leb want half)) [
      | inr last ↦ (m, rw last refl, fits, ground (arith, last), refl)
      | inl go ↦
          let deep : minimum_block_size ≤ half = ground (arith, go) in
          let wanted : want ≤ half = ground (arith, go) in
          let (m₁, e, size, same) = halve_lem a m small (omega (arith, deep)) in
          let twice = doubled_twice fuel minimum_block_size in
          let fewer : (m₁.headers a).block_size < doubled fuel minimum_block_size =
            omega (arith, size, enough, twice) in
          let left =
            doubled_needs fuel minimum_block_size ((m₁.headers a).block_size)
              (omega (arith, size, deep)) fewer in
          Halves-next fuel want a m m₁ go e same (
            halve_loop_lem fuel want a m₁ left (omega (arith, size, small))
              (omega (arith, size, wanted)) fewer)
    ]

abbrev pub FitsHeap : (ℕ → Header) → ℕ → Type 0
FitsHeap headers a = (headers a).block_size ≤ total_heap_size

abbrev pub TooSmall : ℕ → (ℕ → Header) → ℕ → Type 0
TooSmall want headers a = (headers a).block_size < want

-- The search loop finds a block that is large enough, or there is none.
abbrev pub Searched : ℕ → (ℕ → Header) → List ℕ → Type 0
Searched want headers fs =
    ((take_block want headers fs ≡ none) × All (TooSmall want headers) fs)
    ⊎ ((a : ℕ) × (others : List ℕ) × (take_block want headers fs ≡ some (a, others))
        × (want ≤ (headers a).block_size)
        × FitsHeap headers a)

take_block_lem :
    (want : ℕ) (headers : ℕ → Header) (fs : List ℕ)
    → All (FitsHeap headers) fs
    → Searched want headers fs
unfolding take_block
take_block_lem want headers [] h = inl (refl, tt)
take_block_lem want headers (b ∷ bs) (small, h) =
    elim (Bool-cases (ltb (headers b).block_size want)) [
      | inr enough ↦ inr (b, bs, rw enough refl, ltb→le (headers b).block_size want enough, small)
      | inl low ↦ elim (take_block_lem want headers bs h) [
        | inl (e, all) ↦
            inl (rw (low, e, ◌>>=◌) refl, (ltb→lt (headers b).block_size want low, all))
        | inr (a, others, e, fits, fits') ↦
            inr (a, b ∷ others, rw (low, e, ◌>>=◌) refl, fits, fits')
      ]
    ]

-- What `serve` makes of a block: it is large enough, not much too large, and leaves the count.
abbrev pub Serves : ℕ → ℕ → Manager → Option (Option ℕ × Manager) → Type 0
Serves want a m answer =
    (m' : Manager) × (answer ≡ some (some (a + struct_size), m'))
    × (want ≤ (m'.headers a).block_size)
    × (((m'.headers a).block_size < 2 * minimum_block_size)
        ⊎ ((m'.headers a).block_size < 2 * want))
    × (m'.free_bytes_remaining
        ≡ (m.free_bytes_remaining + 2 ^ 32 - (m'.headers a).block_size) % 2 ^ 32)

taken-size :
    (headers : ℕ → Header) (a : ℕ)
    → (put a (record (headers a) { is_free = 0 }) headers a).block_size ≡ (headers a).block_size
taken-size headers a = rw (eq→== a a refl) refl

serve_lem :
    (want a : ℕ) (m : Manager)
    → FitsHeap m.headers a
    → want ≤ (m.headers a).block_size
    → Serves want a m (serve want a m)
unfolding serve doubled
serve_lem want a m small fits =
    let (m', e, fits', bound, same) =
      halve_loop_lem 20 want a m (omega arith) small fits (omega (arith, small)) in
    let size = taken-size m'.headers a in
    (
      record m' {
        headers = put a (record (m'.headers a) { is_free = 0 }) m'.headers;
        free_bytes_remaining =
            (m'.free_bytes_remaining + 2 ^ 32 - (m'.headers a).block_size) % 2 ^ 32;
      },
      ap
          (λ o. o >>= λ m₁. some (
            some (a + struct_size),
            record m₁ {
              headers = put a (record (m₁.headers a) { is_free = 0 }) m₁.headers;
              free_bytes_remaining =
                  (m₁.free_bytes_remaining + 2 ^ 32 - (m₁.headers a).block_size) % 2 ^ 32;
            },
          ))
          e,
      omega (arith, size, fits'),
      subst (λ s. (s < 2 * minimum_block_size) ⊎ (s < 2 * want)) (sym size) bound,
      ap₂ (λ r s. (r + 2 ^ 32 - s) % 2 ^ 32) same (sym size),
    )

-- The request with its header, rounded up, where that does not wrap.
round_request_lem :
    (n : ℕ)
    → n + struct_size ≤ total_heap_size
    → (n + struct_size ≤ round_request n)
      × (round_request n < n + struct_size + 8)
      × (round_request n ≤ total_heap_size)
unfolding round_request
round_request_lem n room = ground arith

-- What a request of `n` bytes gets of a block: the place behind a header in it, with room for the
-- request behind the header, and not much more; the count of free bytes falls by the block's size.
abbrev pub Gets : ℕ → ℕ → Manager → Option (Option ℕ × Manager) → Type 0
Gets n a m answer =
    (m' : Manager) × (answer ≡ some (some (a + struct_size), m'))
    × (n + struct_size ≤ (m'.headers a).block_size)
    × (((m'.headers a).block_size < 2 * minimum_block_size)
        ⊎ ((m'.headers a).block_size < 2 * (n + struct_size + 8)))
    × (m'.free_bytes_remaining
        ≡ (m.free_bytes_remaining + 2 ^ 32 - (m'.headers a).block_size) % 2 ^ 32)

TooSmall-mono :
    (want more : ℕ) (headers : ℕ → Header) (bs : List ℕ)
    → want ≤ more
    → All (TooSmall want headers) bs
    → All (TooSmall more headers) bs
TooSmall-mono want more headers [] le h = tt
TooSmall-mono want more headers (b ∷ bs) le h =
    (omega (arith, h.0), TooSmall-mono want more headers bs le h.1)

-- A request that is not 0 and fits the heap with its header, where no block of the free list is
-- larger than the heap: the allocation returns. Either every free block is smaller than the request
-- with its header and the rounding, and the answer is NULL and nothing changes; or the answer is the
-- place behind the header of a block that has room for the header and the request, and that is smaller
-- than two smallest blocks or than twice the request with its header and the rounding, and the count
-- of free bytes falls by the size of that block.
pub alloc_mem_answers :
    (m : Manager) (n : ℕ)
    → n ≢ 0
    → n + struct_size ≤ total_heap_size
    → All (FitsHeap m.headers) m.free_list
    → ((alloc_mem m n ≡ some (none, m))
        × All (TooSmall (n + struct_size + 8) m.headers) m.free_list)
      ⊎ ((a : ℕ) × Gets n a m (alloc_mem m n))
unfolding alloc_mem
alloc_mem_answers m n some_bytes room small =
    let want = round_request n in
    let (over, close, whole_heap) = round_request_lem n room in
    let asked = ne→== n 0 some_bytes in
    let fits = le→ltb total_heap_size want whole_heap in
    elim (take_block_lem want m.headers m.free_list small) [
      | inl (e, all) ↦ inl (
        rw (asked, fits, e) refl,
        TooSmall-mono want (n + struct_size + 8) m.headers m.free_list (omega arith) all,
      )
      | inr (a, others, e, large, whole) ↦
          let (m', e', fits', bound, counted) =
            serve_lem want a (record m { free_list = others }) whole large in
          inr (
            a,
            (
              m',
              rw (asked, fits, e) e',
              omega arith,
              elim bound [ inl low ↦ inl low | inr near ↦ inr (omega arith) ],
              counted,
            ),
          )
    ]
