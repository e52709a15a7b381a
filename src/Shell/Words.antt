-- ===== src/Shell/Words.antt =====
-- The arguments of a command line (`executeCommand` of Userland/SampleCodeModule/apps.c).
use bit_shell_os.Base.{
  ℕ, zero, suc, ◌+◌, ◌≤◌, ◌<◌, ◌≡◌, ◌≢◌, refl, ap, subst, ◌∙◌, inl, inr, ◌&&◌, none, some, List, [],
  ◌∷◌, ◌++◌, ◌==◌, if◌then◌else◌, length, All, arith, Bool-cases, ==→ne, ne→==,
}
use bit_shell_os.Shell.{
  max_arg_amt, max_arg_command_len, take_word, skip_word, skip_spaces, parse_args, no_space,
  parse_line,
}

-- A text without a space.
abbrev pub Solid : List ℕ → Type 0
Solid = All (λ c. c ≢ b' ')

-- A word that fits an argument: not empty, without a space, and of at most 20 characters.
abbrev pub IsWord : List ℕ → Type 0
IsWord [] = ⊥
IsWord (c ∷ cs) = Solid (c ∷ cs) × (length (c ∷ cs) ≤ max_arg_command_len)

-- Words with one space in front of each, and between them.
abbrev pub tail_words : List (List ℕ) → List ℕ
tail_words [] = []
tail_words (w ∷ ws) = b' ' ∷ w ++ tail_words ws

abbrev pub unwords : List (List ℕ) → List ℕ
unwords [] = []
unwords (w ∷ ws) = w ++ tail_words ws

take_word_fits : (n : ℕ) (text : List ℕ) → let w = (take_word n text).0 in Solid w × (length w ≤ n)
unfolding take_word
take_word_fits zero text = (tt, omega arith)
take_word_fits (suc n) [] = (tt, omega arith)
take_word_fits (suc n) (c ∷ cs) = elim (Bool-cases (c == b' ')) [
  | inl space ↦ rw space (tt, omega arith)
  | inr other ↦
      let (solid, short) = take_word_fits n cs in
      rw other ((==→ne c b' ' other, solid), omega (arith, short))
]

parse_args_fits :
    (n : ℕ) (text : List ℕ)
    → let args = parse_args n text in
      (length args ≤ n) × All (λ a. Solid a × (length a ≤ max_arg_command_len)) args
unfolding parse_args
parse_args_fits zero text = (omega arith, tt)
parse_args_fits (suc n) [] = (omega arith, tt)
parse_args_fits (suc n) (c ∷ cs) =
    let (few, all) =
      parse_args_fits n (skip_spaces (skip_word (take_word max_arg_command_len (c ∷ cs)).1)) in
    (omega (arith, few), (take_word_fits max_arg_command_len (c ∷ cs), all))

-- Whatever the line is, its arguments fit the array of six places of 21 characters: there are one to
-- six, of at most 20 characters each, and none has a space in it.
pub parse_line_fits :
    (text : List ℕ) (args : List (List ℕ))
    → parse_line text ≡ some args
    → (1 ≤ length args)
      × (length args ≤ max_arg_amt + 1)
      × All (λ a. Solid a × (length a ≤ max_arg_command_len)) args
unfolding parse_line
parse_line_fits text args e =
    let (w, rest) = take_word max_arg_command_len text in
    elim (Bool-cases (length w == max_arg_command_len && no_space rest)) [
      | inl long ↦ absurd (ground arith)
      | inr fits ↦
          let same : w ∷ parse_args max_arg_amt (skip_spaces rest) ≡ args = ground arith in
          let (few, all) = parse_args_fits max_arg_amt (skip_spaces rest) in
          subst
            (λ l.
              (1 ≤ length l)
              × (length l ≤ max_arg_amt + 1)
              × All (λ a. Solid a × (length a ≤ max_arg_command_len)) l)
            same (omega arith, omega (arith, few), (take_word_fits max_arg_command_len text, all))
    ]

take_word-append :
    (n : ℕ) (w : List ℕ) (ws : List (List ℕ))
    → Solid w
    → length w ≤ n
    → take_word n (w ++ tail_words ws) ≡ (w, tail_words ws)
unfolding take_word
take_word-append zero [] ws solid short = refl
take_word-append zero (c ∷ cs) ws solid short = absurd (omega arith)
take_word-append (suc n) [] [] solid short = refl
take_word-append (suc n) [] (v ∷ vs) solid short = refl
take_word-append (suc n) (c ∷ cs) ws solid short =
    rw (ne→== c b' ' solid.0)
      (ap (λ x. (c ∷ x.0, x.1)) (take_word-append n cs ws solid.1 (omega arith)))

skip_spaces-tail_words :
    (ws : List (List ℕ)) → All IsWord ws → skip_spaces (skip_word (tail_words ws)) ≡ unwords ws
unfolding skip_spaces skip_word
skip_spaces-tail_words [] h = refl
skip_spaces-tail_words ([] ∷ ws) h = absurd h.0
skip_spaces-tail_words ((c ∷ cs) ∷ ws) h = rw (ne→== c b' ' h.0.0.0) refl

parse_args-unwords :
    (n : ℕ) (ws : List (List ℕ)) → All IsWord ws → length ws ≤ n → parse_args n (unwords ws) ≡ ws
unfolding parse_args
parse_args-unwords zero [] h few = refl
parse_args-unwords zero (w ∷ ws) h few = absurd (omega arith)
parse_args-unwords (suc n) [] h few = refl
parse_args-unwords (suc n) ([] ∷ ws) h few = absurd h.0
parse_args-unwords (suc n) ((c ∷ cs) ∷ ws) h few =
    ap (λ x. x.0 ∷ parse_args n (skip_spaces (skip_word x.1)))
      (take_word-append max_arg_command_len (c ∷ cs) ws h.0.0 h.0.1)
    ∙ ap (λ t. (c ∷ cs) ∷ parse_args n t) (skip_spaces-tail_words ws h.1)
    ∙ ap (λ l. (c ∷ cs) ∷ l) (parse_args-unwords n ws h.1 (omega arith))

skip_spaces-first : (ws : List (List ℕ)) → All IsWord ws → skip_spaces (tail_words ws) ≡ unwords ws
unfolding skip_spaces
skip_spaces-first [] h = refl
skip_spaces-first ([] ∷ ws) h = absurd h.0
skip_spaces-first ((c ∷ cs) ∷ ws) h = rw (ne→== c b' ' h.0.0.0) refl

-- A line of at most six words of at most 20 characters, the first of less than 20, with a space between
-- each two of them, is taken apart into just those words.
pub parse_line-unwords :
    (w : List ℕ) (ws : List (List ℕ))
    → All IsWord (w ∷ ws)
    → length w < max_arg_command_len
    → length ws ≤ max_arg_amt
    → parse_line (unwords (w ∷ ws)) ≡ some (w ∷ ws)
unfolding parse_line
parse_line-unwords [] ws h short few = absurd h.0
parse_line-unwords (c ∷ cs) ws h short few =
    ap
      (λ x.
        if length x.0 == max_arg_command_len && no_space x.1
        then none
        else some (x.0 ∷ parse_args max_arg_amt (skip_spaces x.1)))
      (take_word-append max_arg_command_len (c ∷ cs) ws h.0.0 h.0.1)
    ∙ ap
        (λ b.
          if b && no_space (tail_words ws)
          then none
          else some ((c ∷ cs) ∷ parse_args max_arg_amt (skip_spaces (tail_words ws))))
        (ne→== (length (c ∷ cs)) max_arg_command_len (omega arith))
    ∙ ap (λ t. some ((c ∷ cs) ∷ parse_args max_arg_amt t)) (skip_spaces-first ws h.1)
    ∙ ap (λ l. some ((c ∷ cs) ∷ l)) (parse_args-unwords max_arg_amt ws h.1 few)
