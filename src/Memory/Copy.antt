-- ===== src/Memory/Copy.antt =====
-- `memset` and `memcpy` of Kernel/lib.c.
use bit_shell_os.Base.{
  ℕ, zero, suc, ◌+◌, ◌*◌, ◌/◌, ◌%◌, ◌≤◌, ◌<◌, ◌≡◌, refl, sym, ap, ◌∙◌, ◌⊎◌, inl, inr, ◌&&◌, ◌==◌,
  arith, fun_ext, subst, Bool-cases,
}
use bit_shell_os.Memory.{store_byte, memset, load_word, store_word, copy_words, copy_bytes, memcpy}

abbrev pub IsBytes : (ℕ → ℕ) → Type 0
IsBytes m = (a : ℕ) → m a < 256

store_byte-IsBytes : (a v : ℕ) (m : ℕ → ℕ) → v < 256 → IsBytes m → IsBytes (store_byte a v m)
store_byte-IsBytes a v m small h b = let hb = h b in ground arith

-- The four steps of the byte loop that one step of the word loop stands for.
abbrev four : ℕ → ℕ → (ℕ → ℕ) → ℕ → ℕ
four dst src m = copy_bytes 4 dst src m

abbrev word : ℕ → ℕ → ℕ → ℕ → ℕ
word b₀ b₁ b₂ b₃ = b₀ + 256 * b₁ + 65536 * b₂ + 16777216 * b₃

word-digits :
    (b₀ b₁ b₂ b₃ : ℕ)
    → b₀ < 256
    → b₁ < 256
    → b₂ < 256
    → b₃ < 256
    → (word b₀ b₁ b₂ b₃ % 256 ≡ b₀)
      × (word b₀ b₁ b₂ b₃ / 256 % 256 ≡ b₁)
      × (word b₀ b₁ b₂ b₃ / 65536 % 256 ≡ b₂)
      × (word b₀ b₁ b₂ b₃ / 16777216 % 256 ≡ b₃)
word-digits b₀ b₁ b₂ b₃ h₀ h₁ h₂ h₃ = (omega arith, omega arith, omega arith, omega arith)

abbrev bytes_at : ℕ → ℕ → ℕ → ℕ → ℕ → (ℕ → ℕ) → ℕ → ℕ
bytes_at a b₀ b₁ b₂ b₃ m =
    store_byte (a + 3) b₃ (store_byte (a + 2) b₂ (store_byte (a + 1) b₁ (store_byte a b₀ m)))

store_word-digits :
    (dst src : ℕ) (m : ℕ → ℕ)
    → IsBytes m
    → store_word dst (load_word src m) m
      ≡ bytes_at dst (m src) (m (src + 1)) (m (src + 2)) (m (src + 3)) m
unfolding store_word load_word
store_word-digits dst src m h =
    let (e₀, e₁, e₂, e₃) =
      word-digits (m src) (m (src + 1)) (m (src + 2)) (m (src + 3)) (h src) (h (src + 1))
        (h (src + 2)) (h (src + 3)) in
    rw (e₀, e₁, e₂, e₃) refl

word-step :
    (dst src : ℕ) (m : ℕ → ℕ)
    → dst % 4 ≡ 0
    → src % 4 ≡ 0
    → (a : ℕ)
    → bytes_at dst (m src) (m (src + 1)) (m (src + 2)) (m (src + 3)) m a ≡ four dst src m a
unfolding copy_bytes
word-step dst src m d s a = ground arith

four-IsBytes : (dst src : ℕ) (m : ℕ → ℕ) → IsBytes m → IsBytes (four dst src m)
unfolding copy_bytes
four-IsBytes dst src m h =
    let m₁ = store_byte dst (m src) m in
    let h₁ = store_byte-IsBytes dst (m src) m (h src) h in
    let m₂ = store_byte (dst + 1) (m₁ (src + 1)) m₁ in
    let h₂ = store_byte-IsBytes (dst + 1) (m₁ (src + 1)) m₁ (h₁ (src + 1)) h₁ in
    let m₃ = store_byte (dst + 1 + 1) (m₂ (src + 1 + 1)) m₂ in
    let h₃ = store_byte-IsBytes (dst + 1 + 1) (m₂ (src + 1 + 1)) m₂ (h₂ (src + 1 + 1)) h₂ in
    store_byte-IsBytes (dst + 1 + 1 + 1) (m₃ (src + 1 + 1 + 1)) m₃ (h₃ (src + 1 + 1 + 1)) h₃

copy_bytes-four :
    (n dst src : ℕ) (m : ℕ → ℕ)
    → copy_bytes (suc (suc (suc (suc n)))) dst src m
      ≡ copy_bytes n (dst + 4) (src + 4) (four dst src m)
unfolding copy_bytes
copy_bytes-four n dst src m =
    let d : dst + 1 + 1 + 1 + 1 ≡ dst + 4 = omega arith in
    let s : src + 1 + 1 + 1 + 1 ≡ src + 4 = omega arith in
    ap (λ x. copy_bytes n x (src + 1 + 1 + 1 + 1) (four dst src m)) d
    ∙ ap (λ x. copy_bytes n (dst + 4) x (four dst src m)) s

-- The word loop does what the byte loop does, on any two aligned ranges: they may overlap.
pub copy_words-copy_bytes :
    (n dst src : ℕ) (m : ℕ → ℕ)
    → dst % 4 ≡ 0
    → src % 4 ≡ 0
    → IsBytes m
    → copy_words n dst src m ≡ copy_bytes (4 * n) dst src m
unfolding copy_words copy_bytes
copy_words-copy_bytes zero dst src m d s h = refl
copy_words-copy_bytes (suc n) dst src m d s h =
    let step : store_word dst (load_word src m) m ≡ four dst src m =
      store_word-digits dst src m h ∙ fun_ext (word-step dst src m d s) in
    let size : suc (suc (suc (suc (4 * n)))) ≡ 4 * suc n = omega arith in
    ap (copy_words n (dst + 4) (src + 4)) step
    ∙ copy_words-copy_bytes n (dst + 4) (src + 4) (four dst src m) (omega (arith, d))
        (omega (arith, s)) (four-IsBytes dst src m h)
    ∙ sym (copy_bytes-four (4 * n) dst src m)
    ∙ ap (λ k. copy_bytes k dst src m) size

-- Whatever the alignment, `memcpy` leaves the memory as the copy byte by byte does.
pub memcpy-copy_bytes :
    (dst src length : ℕ) (m : ℕ → ℕ)
    → IsBytes m
    → memcpy dst src length m ≡ copy_bytes length dst src m
unfolding memcpy
memcpy-copy_bytes dst src length m h =
    elim (Bool-cases (dst % 4 == 0 && src % 4 == 0 && length % 4 == 0)) [
      | inl aligned ↦
          let d : dst % 4 ≡ 0 = ground (arith, aligned) in
          let s : src % 4 ≡ 0 = ground (arith, aligned) in
          let l : length % 4 ≡ 0 = ground (arith, aligned) in
          let size : 4 * (length / 4) ≡ length = omega (arith, l) in
          rw aligned (
            copy_words-copy_bytes (length / 4) dst src m d s h
            ∙ ap (λ k. copy_bytes k dst src m) size)
      | inr odd ↦ rw odd refl
    ]

copy_bytes_outside :
    (n dst src : ℕ) (m : ℕ → ℕ) (a : ℕ) → (a < dst) ⊎ (dst + n ≤ a) → copy_bytes n dst src m a ≡ m a
unfolding copy_bytes
copy_bytes_outside zero dst src m a out = refl
copy_bytes_outside (suc n) dst src m a out =
    copy_bytes_outside n (dst + 1) (src + 1) (store_byte dst (m src) m) a (ground arith)
    ∙ ground arith

copy_bytes_inside :
    (n dst src : ℕ) (m : ℕ → ℕ) (i : ℕ)
    → (dst ≤ src) ⊎ (src + n ≤ dst)
    → i < n
    → copy_bytes n dst src m (dst + i) ≡ m (src + i)
unfolding copy_bytes
copy_bytes_inside zero dst src m i apart small = absurd (omega arith)
copy_bytes_inside (suc n) dst src m zero apart small =
    copy_bytes_outside n (dst + 1) (src + 1) (store_byte dst (m src) m) (dst + 0)
      (inl (omega arith))
    ∙ ground arith
copy_bytes_inside (suc n) dst src m (suc i) apart small =
    let d : dst + suc i ≡ dst + 1 + i = omega arith in
    let s : src + 1 + i ≡ src + suc i = omega arith in
    ap (copy_bytes n (dst + 1) (src + 1) (store_byte dst (m src) m)) d
    ∙ copy_bytes_inside n (dst + 1) (src + 1) (store_byte dst (m src) m) i (ground arith)
        (omega arith)
    ∙ ap (store_byte dst (m src) m) s
    ∙ ground arith

-- After `memcpy` to a range that starts at or below the source or lies past it, the range holds
-- what the source held, and every other byte of the memory is what it was.
pub memcpy_lem :
    (dst src length : ℕ) (m : ℕ → ℕ)
    → IsBytes m
    → (dst ≤ src) ⊎ (src + length ≤ dst)
    → ((i : ℕ) → i < length → memcpy dst src length m (dst + i) ≡ m (src + i))
      × ((a : ℕ) → (a < dst) ⊎ (dst + length ≤ a) → memcpy dst src length m a ≡ m a)
memcpy_lem dst src length m h apart =
    let same = memcpy-copy_bytes dst src length m h in
    (
      λ i small. ap (λ f. f (dst + i)) same ∙ copy_bytes_inside length dst src m i apart small,
      λ a out. ap (λ f. f a) same ∙ copy_bytes_outside length dst src m a out,
    )

split_at : (i n : ℕ) → (i < n) ⊎ (n ≤ i)
split_at i n = ground arith

-- After `memset` every byte of the range is the low byte of the value, and no other byte has
-- changed.
pub memset_lem :
    (dst c length : ℕ) (m : ℕ → ℕ)
    → ((i : ℕ) → i < length → memset dst c length m (dst + i) ≡ c % 256)
      × ((a : ℕ) → (a < dst) ⊎ (dst + length ≤ a) → memset dst c length m a ≡ m a)
unfolding memset
memset_lem dst c zero m = (λ i small. absurd (omega arith), λ a out. refl)
memset_lem dst c (suc n) m =
    let (inside, outside) = memset_lem dst c n (store_byte (dst + n) (c % 256) m) in
    (
      λ i small. elim (split_at i n) [
        | inl low ↦ inside i low
        | inr high ↦ outside (dst + i) (inr (omega arith)) ∙ ground arith
      ],
      λ a out. outside a (ground arith) ∙ ground arith,
    )

copy_bytes-IsBytes : (n dst src : ℕ) (m : ℕ → ℕ) → IsBytes m → IsBytes (copy_bytes n dst src m)
unfolding copy_bytes
copy_bytes-IsBytes zero dst src m h = h
copy_bytes-IsBytes (suc n) dst src m h =
    copy_bytes-IsBytes n (dst + 1) (src + 1) (store_byte dst (m src) m)
      (store_byte-IsBytes dst (m src) m (h src) h)

pub memcpy-IsBytes :
    (dst src length : ℕ) (m : ℕ → ℕ) → IsBytes m → IsBytes (memcpy dst src length m)
memcpy-IsBytes dst src length m h =
    subst IsBytes (sym (memcpy-copy_bytes dst src length m h))
      (copy_bytes-IsBytes length dst src m h)
