-- ===== src/Text/Decimal.antt =====
-- Printing a number and reading it back: `uintToBase` with `atoi` and with `hex2int`.
use mathlib.Core.List.{reverse, reverse-cons}
use native.Mathlib.Nat.{pow-suc}
use bit_shell_os.Base.{
  ℕ, zero, suc, ◌+◌, ◌*◌, ◌/◌, ◌%◌, ◌^◌, ◌≤◌, ◌<◌, ◌≡◌, ◌≢◌, refl, ap, ◌∙◌, Option, some, List, [],
  ◌∷◌, ◌++◌, ◌==◌, ◌>>=◌, leb, true, false, length, if◌then◌else◌, arith, Bool-cases, Option-cases,
  inl, inr, ==→eq, ==→ne, ne→==, eq→==,
}
use bit_shell_os.Text.{
  digit_char, digits, uint_to_base, fold_text, atoi_step, atoi, hex_step, hex2int,
}

pub fold_text-append :
    (step : ℕ → ℕ → Option ℕ) (acc : ℕ) (xs ys : List ℕ)
    → fold_text step acc (xs ++ ys) ≡ (fold_text step acc xs >>= λ a. fold_text step a ys)
unfolding fold_text
fold_text-append step acc [] ys = refl
fold_text-append step acc (x ∷ xs) ys = elim (Option-cases (step acc x)) [
  | inl e ↦ rw (e, ◌>>=◌)
  | inr (a, e) ↦ rw (e, ◌>>=◌) (fold_text-append step a xs ys)
]

half_quotient : (v base p : ℕ) → 2 ≤ base → v < p * 2 → v / base < p
half_quotient v base p two h = grind arith

quotient_remainder :
    (v base : ℕ) → 2 ≤ base → ((v / base) * base + v % base ≡ v) × (v % base < base)
quotient_remainder v base two = omega arith

fuel_left : (fuel v : ℕ) → v ≢ 0 → v < 2 ^ fuel → 0 < fuel
fuel_left zero v ne h = absurd (omega arith)
fuel_left (suc fuel) v ne h = omega arith

digits-cons :
    (fuel base v : ℕ)
    → v / base ≢ 0
    → digits (suc fuel) base v ≡ digit_char (v % base) ∷ digits fuel base (v / base)
unfolding digits
digits-cons fuel base v more = rw (ne→== (v / base) 0 more)

digits-last :
    (fuel base v : ℕ) → v / base ≡ 0 → digits (suc fuel) base v ≡ digit_char (v % base) ∷ []
unfolding digits
digits-last fuel base v last = rw (eq→== (v / base) 0 last)

fold_text-one : (step : ℕ → ℕ → Option ℕ) (acc c : ℕ) → fold_text step acc (c ∷ []) ≡ step acc c
unfolding fold_text
fold_text-one step acc c = ground arith

-- A step that takes in one digit of a base reads back what was printed in that base.
fold_text-digits :
    (step : ℕ → ℕ → Option ℕ) (base : ℕ)
    → 2 ≤ base
    → ((a d : ℕ) → d < base → a * base + d < 2 ^ 64 → step a (digit_char d) ≡ some (a * base + d))
    → (fuel v : ℕ) → v < 2 ^ fuel
    → v < 2 ^ 64
    → 0 < fuel
    → fold_text step 0 (reverse (digits fuel base v)) ≡ some v
fold_text-digits step base two reads zero v fits word pos = absurd (omega arith)
fold_text-digits step base two reads (suc fuel) v fits word pos =
    let (whole, below) = quotient_remainder v base two in
    let small = half_quotient v base (2 ^ fuel) two (omega (arith, pow-suc 2 fuel)) in
    elim (Bool-cases (v / base == 0)) [
      | inl last ↦
          let e = ==→eq (v / base) 0 last in
          ap (λ l. fold_text step 0 (reverse l)) (digits-last fuel base v e)
          ∙ fold_text-one step 0 (digit_char (v % base))
          ∙ reads 0 (v % base) below (omega (arith, ap (λ (q : ℕ). q * base) e))
          ∙ ap some (omega (arith, ap (λ (q : ℕ). q * base) e))
      | inr more ↦
          let ne = ==→ne (v / base) 0 more in
          let before = reverse (digits fuel base (v / base)) in
          let c = digit_char (v % base) in
          let ih =
            fold_text-digits step base two reads fuel (v / base) small (omega arith)
              (fuel_left fuel (v / base) ne small) in
          ap (λ l. fold_text step 0 (reverse l)) (digits-cons fuel base v ne)
          ∙ ap (fold_text step 0) (reverse-cons c (digits fuel base (v / base)))
          ∙ fold_text-append step 0 before (c ∷ [])
          ∙ ap (λ r. r >>= λ a. fold_text step a (c ∷ [])) ih
          ∙ fold_text-one step (v / base) c
          ∙ reads (v / base) (v % base) below (omega arith)
          ∙ ap some whole
    ]

atoi_step-digit_char :
    (a d : ℕ) → d < 10 → a * 10 + d < 2 ^ 64 → atoi_step a (digit_char d) ≡ some (a * 10 + d)
unfolding atoi_step digit_char
atoi_step-digit_char a d h fits = ground arith

hex_step-digit_char :
    (a d : ℕ) → d < 16 → a * 16 + d < 2 ^ 64 → hex_step a (digit_char d) ≡ some (a * 16 + d)
unfolding hex_step digit_char
hex_step-digit_char a d h fits = ground arith

-- A 64-bit number that is printed in base 10 is read back by `atoi`.
pub atoi-uint_to_base : (v : ℕ) → v < 2 ^ 64 → atoi (uint_to_base v 10) ≡ some v
unfolding atoi uint_to_base
atoi-uint_to_base v word =
    fold_text-digits atoi_step 10 (omega arith) atoi_step-digit_char 64 v word word (omega arith)

-- A 64-bit number that is printed in base 16 is read back by `hex2int`.
pub hex2int-uint_to_base : (v : ℕ) → v < 2 ^ 64 → hex2int (uint_to_base v 16) ≡ some v
unfolding hex2int uint_to_base
hex2int-uint_to_base v word =
    fold_text-digits hex_step 16 (omega arith) hex_step-digit_char 64 v word word (omega arith)

-- One hexadecimal digit for a value up to 15, and two for any other byte.
pub length-uint_to_base :
    (b : ℕ) → b < 256 → length (uint_to_base b 16) ≡ (if leb b 15 then 1 else 2)
unfolding uint_to_base digits
length-uint_to_base b small = elim (Bool-cases (b / 16 == 0)) [
  | inl low ↦
      let below : b ≤ 15 = omega (arith, ==→eq (b / 16) 0 low) in
      let test : leb b 15 ≡ true = ground arith in rw (low, test) refl
  | inr high ↦
      let top : (b / 16 / 16 == 0) ≡ true = eq→== (b / 16 / 16) 0 (omega arith) in
      let above : 15 < b = omega (arith, ==→ne (b / 16) 0 high) in
      let test : leb b 15 ≡ false = ground arith in rw (high, top, test) refl
]
