-- ===== src/Buddy/Count.antt =====
-- The merges of Kernel/utils/MemManBuddy.c, and the free bytes that `freeMem` counts.
use bit_shell_os.Base.{
  ℕ, zero, suc, ◌+◌, ◌-◌, ◌*◌, ◌%◌, ◌^◌, ◌≤◌, ◌<◌, ◌≡◌, refl, ap, subst, ◌∙◌, inl, inr, Bool, true,
  false, ◌&&◌, ◌==◌, ltb, arith, Bool-cases, ne→==, eq→==, some, List, [], ◌∷◌, le→ltb, ◌>>=◌,
}
use bit_shell_os.Buddy.{
  Header, Manager, put, total_heap_size, insert_by_size, insert_unmerged, merged_address, merge,
  insert_whole, is_mergeable, insert_block_into_free_list, free_mem, struct_size,
}

-- A block that is no larger than the heap finds its place.
pub insert_by_size_total :
    (headers : ℕ → Header) (a : ℕ) (fs : List ℕ)
    → (headers a).block_size ≤ total_heap_size
    → (r : List ℕ) × (insert_by_size headers a fs ≡ some r)
unfolding insert_by_size
insert_by_size_total headers a [] h =
    (a ∷ [], rw (le→ltb total_heap_size (headers a).block_size h) refl)
insert_by_size_total headers a (b ∷ bs) h =
    let (r, e) = insert_by_size_total headers a bs h in
    elim (Bool-cases (ltb (headers b).block_size (headers a).block_size)) [
      | inl below ↦ (b ∷ r, rw (below, e, ◌>>=◌) refl)
      | inr above ↦ (a ∷ b ∷ bs, rw above refl)
    ]

abbrev pub Inserts : ℕ → Bool → ℕ → Manager → ℕ → Type 0
Inserts fuel check a m size =
    (m' : Manager) × (returned : ℕ) × (insert_block_into_free_list fuel a check m
      ≡ some (m', returned))
    × (size ≤ returned)
    × (returned ≤ total_heap_size)
    × (m'.free_bytes_remaining ≡ m.free_bytes_remaining)

insert_unmerged_lem :
    (a : ℕ) (m : Manager)
    → (m.headers a).block_size ≤ total_heap_size
    → (m' : Manager) × (insert_unmerged a m ≡ some (m', (m.headers a).block_size))
      × (m'.free_bytes_remaining ≡ m.free_bytes_remaining)
unfolding insert_unmerged
insert_unmerged_lem a m h =
    let (r, e) = insert_by_size_total m.headers a m.free_list h in
    (
      record m { headers = put a (record (m.headers a) { is_free = 1 }) m.headers; free_list = r },
      rw (e, ◌>>=◌) refl,
      refl,
    )

merge-size :
    (a : ℕ) (m : Manager)
    → ((merge a m).headers (merged_address a (m.headers a))).block_size
      ≡ (2 * (m.headers a).block_size) % 2 ^ 32
unfolding merge
merge-size a m = let low = merged_address a (m.headers a) in rw (eq→== low low refl) refl

-- A number doubled `k` times.
unfoldable pub doubled : ℕ → ℕ → ℕ
doubled zero n = n
doubled (suc k) n = doubled k (2 * n)

doubled_grows : (k n : ℕ) → n ≤ doubled k n
unfolding doubled
doubled_grows zero n = omega arith
doubled_grows (suc k) n = let h = doubled_grows k (2 * n) in omega (arith, h)

-- The two ways without a merge.
insert_plain :
    (fuel a : ℕ) (check : Bool) (m : Manager)
    → (m.headers a).block_size ≤ total_heap_size
    → (check && is_mergeable a m) ≡ false
    → Inserts (suc fuel) check a m (m.headers a).block_size
unfolding insert_block_into_free_list insert_whole
insert_plain fuel a check m small alone =
    let (m', e, same) = insert_unmerged_lem a m small in
    elim (Bool-cases ((m.headers a).block_size == total_heap_size)) [
      | inl whole ↦ (insert_whole a m, total_heap_size, rw whole refl, small, omega arith, refl)
      | inr part ↦ (m', (m.headers a).block_size, rw (part, alone) e, omega arith, small, same)
    ]

-- The step of a merge.
insert_merged :
    (fuel a : ℕ) (check : Bool) (m : Manager)
    → (m.headers a).block_size * 2 ≤ total_heap_size
    → (check && is_mergeable a m) ≡ true
    → Inserts fuel true (merged_address a (m.headers a)) (merge a m) (2 * (m.headers a).block_size)
    → Inserts (suc fuel) check a m (2 * (m.headers a).block_size)
unfolding insert_block_into_free_list merge
insert_merged fuel a check m small merges (m', n, e, above, below, same) =
    rw (ne→== (m.headers a).block_size total_heap_size (omega (arith, small)), merges)
      (m', n, e, above, below, same)

-- The size of the block that a merge makes.
merge_exact :
    (a : ℕ) (m : Manager)
    → (m.headers a).block_size * 2 ≤ total_heap_size
    → ((merge a m).headers (merged_address a (m.headers a))).block_size
      ≡ 2 * (m.headers a).block_size
merge_exact a m small = merge-size a m ∙ omega (arith, small)

-- A block whose size, doubled `k` times, is the heap's: with fuel for more than `k` steps the
-- insertion returns, no smaller a size than the block's and none larger than the heap, and does not
-- touch the count of free bytes.
pub insert_block_into_free_list_total :
    (fuel k a : ℕ) (check : Bool) (m : Manager)
    → k < fuel
    → doubled k (m.headers a).block_size ≡ total_heap_size
    → Inserts fuel check a m (m.headers a).block_size
unfolding insert_block_into_free_list insert_whole doubled
insert_block_into_free_list_total zero k a check m enough part = absurd (omega arith)
insert_block_into_free_list_total (suc fuel) zero a check m enough whole = (
  insert_whole a m,
  total_heap_size,
  rw (eq→== (m.headers a).block_size total_heap_size whole) refl,
  omega (arith, whole),
  omega arith,
  refl,
)
insert_block_into_free_list_total (suc fuel) (suc k) a check m enough part =
    let small = doubled_grows k (2 * (m.headers a).block_size) in
    let fits : (m.headers a).block_size * 2 ≤ total_heap_size = omega (arith, small, part) in
    elim (Bool-cases (check && is_mergeable a m)) [
      | inr alone ↦ insert_plain fuel a check m (omega (arith, fits)) alone
      | inl merges ↦
          let exact = merge_exact a m fits in
          let rest =
            insert_block_into_free_list_total fuel k (merged_address a (m.headers a)) true
              (merge a m) (omega arith) (ap (doubled k) exact ∙ part) in
          let (m', n, e, above, below, same) = insert_merged fuel a check m fits merges (
            subst (λ s. Inserts fuel true (merged_address a (m.headers a)) (merge a m) s) exact
              rest) in
          (m', n, e, omega (arith, above), below, same)
    ]

-- Freeing a block counts bytes that were free before: where its buddy is free and of its size, and
-- the block, doubled less than twenty times, is the heap, the release does not fault and the count
-- grows, in 32 bits, by at least twice the size of the block.
pub free_mem_overcounts :
    (k p : ℕ) (m : Manager)
    → k < 19
    → doubled k (2 * (m.headers (p - struct_size)).block_size) ≡ total_heap_size
    → is_mergeable (p - struct_size) m ≡ true
    → (m' : Manager) × (n : ℕ) × (free_mem m (some p) ≡ some m')
      × (2 * (m.headers (p - struct_size)).block_size ≤ n)
      × (m'.free_bytes_remaining ≡ (m.free_bytes_remaining + n) % 2 ^ 32)
unfolding free_mem
free_mem_overcounts k p m enough part merges =
    let a = p - struct_size in
    let small = doubled_grows k (2 * (m.headers a).block_size) in
    let fits : (m.headers a).block_size * 2 ≤ total_heap_size = omega (arith, small, part) in
    let exact = merge_exact a m fits in
    let rest =
      insert_block_into_free_list_total 19 k (merged_address a (m.headers a)) true (merge a m)
        enough (ap (doubled k) exact ∙ part) in
    let (m', n, e, above, below, same) =
      insert_merged 19 a true m fits merges
        (subst (λ s. Inserts 19 true (merged_address a (m.headers a)) (merge a m) s) exact rest) in
    (
      record m' { free_bytes_remaining = (m'.free_bytes_remaining + n) % 2 ^ 32 },
      n,
      ap
          (λ o. o >>= λ (m₁, size).
            some (record m₁ { free_bytes_remaining = (m₁.free_bytes_remaining + size) % 2 ^ 32 }))
          e,
      above,
      ap (λ r. (r + n) % 2 ^ 32) same,
    )
