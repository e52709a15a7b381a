-- ===== src/Shell/Tests.antt =====
-- Command lines.
use bit_shell_os.Base.{
  ℕ, ◌+◌, ◌≤◌, ◌≡◌, refl, ◌⊎◌, true, false, some, List, [], ◌∷◌, ◌++◌, length, All, arith,
}
use bit_shell_os.Text.{split_args}
use bit_shell_os.Shell.{
  parse_line, take_word, parse_args, skip_word, skip_spaces, max_arg_amt, max_arg_command_len,
  Launch, create_process, init,
}
use bit_shell_os.Shell.Words.{Solid, parse_line_fits}
use bit_shell_os.Shell.Commands.{visible, split_args-create_process}

abbrev cat_name : List ℕ
cat_name = b'c' ∷ b'a' ∷ b't' ∷ []

abbrev wc_name : List ℕ
wc_name = b'w' ∷ b'c' ∷ []

abbrev five : List ℕ
five = b'5' ∷ []

-- Two spaces between the words, and one behind them.
abbrev loose_line : List ℕ
loose_line = b'w' ∷ b'c' ∷ b' ' ∷ b' ' ∷ b'5' ∷ b' ' ∷ []

parse_loose : parse_line loose_line ≡ some (wc_name ∷ five ∷ [])
unfolding parse_line take_word parse_args skip_word skip_spaces
parse_loose = refl

parse_line_fits_example :
    (1 ≤ length (wc_name ∷ five ∷ []))
    × (length (wc_name ∷ five ∷ []) ≤ max_arg_amt + 1)
    × All (λ a. Solid a × (length a ≤ max_arg_command_len)) (wc_name ∷ five ∷ [])
parse_line_fits_example = parse_line_fits loose_line (wc_name ∷ five ∷ []) parse_loose

abbrev background : Launch
background = record {
  program = 7;
  args = wc_name ∷ (b'&' ∷ []) ∷ [];
  reads_pipe = false;
  writes_pipe = false;
}

split_args-create_process_example :
    (split_args (create_process background).argc ((create_process background).area ++ 9 ∷ [])
      ≡ some (visible background))
    × ((((create_process background).priority ≡ 1)
          × (background.reads_pipe ≡ false)
          × (visible background ≡ background.args))
        ⊎ (((create_process background).priority ≡ 3)
            × ((background.reads_pipe ≡ true) ⊎ (visible background ≡ init background.args))))
split_args-create_process_example =
    split_args-create_process background (9 ∷ [])
      ((omega arith, (omega arith, tt)), ((omega arith, tt), tt))
