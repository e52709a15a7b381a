-- ===== src/Heap/Live.antt =====
-- The search for the header of a live block (Kernel/utils/MemoryManagerADT.c).
use bit_shell_os.Base.{
  ℕ, ◌≡◌, ◌≢◌, refl, sym, some, List, [], ◌∷◌, arith, ap, subst, ◌∙◌, ◌⊎◌, inl, inr, Option-cases,
  Bool-cases, ◌==◌, ==→eq, ==→ne, eq→==, ne→==, ◌>>=◌,
}
use bit_shell_os.Heap.{Block, take_live}

-- The block stands in front, or behind a block with another address.
take_live_cases :
    (p : ℕ) (d b : Block) (ds bs : List Block)
    → take_live p (d ∷ ds) ≡ some (b, bs)
    → ((d.addr ≡ p) × (d ≡ b) × (ds ≡ bs))
      ⊎ ((d.addr ≢ p) × ((rest : List Block) × (take_live p ds ≡ some (b, rest)) × (bs ≡ d ∷ rest)))
unfolding take_live
take_live_cases p d b ds bs h = elim (Bool-cases (d.addr == p)) [
  | inl it ↦ inl (==→eq d.addr p it, ground arith, ground arith)
  | inr other ↦ elim (Option-cases (take_live p ds)) [
    | inl e ↦ absurd (ground arith)
    | inr ((c, rest), e) ↦ inr (==→ne d.addr p other, (rest, ground arith, ground arith))
  ]
]

pub take_live_front :
    (p : ℕ) (d : Block) (ds : List Block) → d.addr ≡ p → take_live p (d ∷ ds) ≡ some (d, ds)
unfolding take_live
take_live_front p d ds e = rw (eq→== d.addr p e) refl

take_live_behind :
    (p : ℕ) (d b : Block) (ds bs : List Block)
    → d.addr ≢ p
    → take_live p ds ≡ some (b, bs)
    → take_live p (d ∷ ds) ≡ some (b, d ∷ bs)
unfolding take_live
take_live_behind p d b ds bs ne e = rw (ne→== d.addr p ne, e, ◌>>=◌) refl

pub take_live_addr :
    (p : ℕ) (bs cs : List Block) (b : Block) → take_live p bs ≡ some (b, cs) → b.addr ≡ p
unfolding take_live
take_live_addr p [] cs b h = absurd (cc)
take_live_addr p (d ∷ ds) cs b h = elim (take_live_cases p d b ds cs h) [
  | inl (e, same, rest) ↦ ap (λ x. x.addr) (sym same) ∙ e
  | inr (ne, (rest, e, more)) ↦ take_live_addr p ds rest b e
]

-- Two blocks come out of a list in either order.
pub take_live_swap :
    (p q : ℕ) (l l₁ l₂ : List Block) (b c : Block)
    → p ≢ q
    → take_live q l ≡ some (c, l₁)
    → take_live p l₁ ≡ some (b, l₂)
    → (l' : List Block) × (take_live p l ≡ some (b, l')) × (take_live q l' ≡ some (c, l₂))
unfolding take_live
take_live_swap p q [] l₁ l₂ b c ne h h' = absurd (cc)
take_live_swap p q (d ∷ ds) l₁ l₂ b c ne h h' = elim (take_live_cases q d c ds l₁ h) [
  | inl (at, same, rest) ↦ (
    d ∷ l₂,
    take_live_behind p d b ds l₂ (λ e. ne (sym e ∙ at))
        (subst (λ l. take_live p l ≡ some (b, l₂)) (sym rest) h'),
    take_live_front q d l₂ at ∙ ap (λ x. some (x, l₂)) same,
  )
  | inr (away, (es, e, l₁-is)) ↦
      elim (take_live_cases p d b es l₂ (subst (λ l. take_live p l ≡ some (b, l₂)) l₁-is h')) [
        | inl (at, same, rest) ↦ (
          ds,
          take_live_front p d ds at ∙ ap (λ x. some (x, ds)) same,
          e ∙ ap (λ l. some (c, l)) rest,
        )
        | inr (away', (fs, f, l₂-is)) ↦
            let (l', x, y) = take_live_swap p q ds es fs b c ne e f in
            (
              d ∷ l',
              take_live_behind p d b ds l' away' x,
              take_live_behind q d c l' fs away y ∙ ap (λ l. some (c, l)) (sym l₂-is),
            )
      ]
]
