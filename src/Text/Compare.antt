-- ===== src/Text/Compare.antt =====
-- Texts compared, and arguments joined by a program and split by the kernel.
use bit_shell_os.Base.{
  ℕ, ◌≡◌, ◌≢◌, refl, ap, subst, ◌∙◌, some, List, [], ◌∷◌, ◌++◌, ◌>>=◌, ◌↔◌, All, length, arith,
}
use mathlib.Core.List.{append_assoc}
use bit_shell_os.Text.{compare_strings, join_args, next_arg, split_args}

compare_strings_sound : (xs ys : List ℕ) → compare_strings xs ys ≡ 1 → xs ≡ ys
unfolding compare_strings
compare_strings_sound [] [] h = refl
compare_strings_sound [] (y ∷ ys) h = absurd (omega arith)
compare_strings_sound (x ∷ xs) [] h = absurd (omega arith)
compare_strings_sound (x ∷ xs) (y ∷ ys) h = ground (arith, compare_strings_sound xs ys)

compare_strings_self : (xs : List ℕ) → compare_strings xs xs ≡ 1
unfolding compare_strings
compare_strings_self [] = refl
compare_strings_self (x ∷ xs) = ground (arith, compare_strings_self xs)

-- `compareStrings` returns 1 exactly for equal texts.
pub compare_strings_iff : (xs ys : List ℕ) → (compare_strings xs ys ≡ 1) ↔ (xs ≡ ys)
compare_strings_iff xs ys = (
  compare_strings_sound xs ys,
  λ e. subst (λ zs. compare_strings xs zs ≡ 1) e (compare_strings_self xs),
)

-- No character of the text is 0.
abbrev pub IsText : List ℕ → Type 0
IsText = All (λ c. c ≢ 0)

next_arg-append : (a more : List ℕ) → IsText a → next_arg (a ++ 0 ∷ more) ≡ some (a, more)
unfolding next_arg
next_arg-append [] more h = refl
next_arg-append (c ∷ cs) more h = ground (arith, next_arg-append cs more h.1)

-- The arguments that a program joins into one area are the ones that the kernel splits off it,
-- whatever stands behind them.
pub split_args-join_args :
    (args : List (List ℕ)) (more : List ℕ)
    → All IsText args
    → split_args (length args) (join_args args ++ more) ≡ some args
unfolding split_args join_args
split_args-join_args [] more h = refl
split_args-join_args (a ∷ args) more h =
    let step =
      ap next_arg (
        append_assoc (a ++ 0 ∷ []) (join_args args) more
        ∙ append_assoc a (0 ∷ []) (join_args args ++ more))
      ∙ next_arg-append a (join_args args ++ more) h.0 in
    rw (step, ◌>>=◌, split_args-join_args args more h.1)
