-- ===== src/Shell.antt =====
-- Userland/SampleCodeModule/apps.c and builtin.c: the command line of the shell, and the programs that
-- read text; and `createProcess` of Userland/SampleCodeModule/libc.c.
--
-- A line is the characters before its 0. `garbage` is what stands in an argument that the line does
-- not give.
pub mod Words
pub mod Commands
mod Tests
use bit_shell_os.Base.{
  ℕ, zero, suc, ◌+◌, ◌-◌, ◌%◌, ◌^◌, Bool, true, false, not, ◌&&◌, ◌||◌, Option, none, some, List,
  [], ◌∷◌, ◌++◌, ltb, leb, ◌==◌, if◌then◌else◌, length, take, drop, get_or, ◌>>=◌,
}
use bit_shell_os.Text.{compare_strings, atoi, join_args}

-- MAX_ARG_AMT and MAX_ARG_COMMAND_LEN of libc.h.
abbrev pub max_arg_amt : ℕ
max_arg_amt = 5

abbrev pub max_arg_command_len : ℕ
max_arg_command_len = 20

-- `processList` and `builtinList`.
abbrev pub process_list : List (List ℕ)
process_list =
    (b'p' ∷ b'1' ∷ [])
    ∷ (b'p' ∷ b'2' ∷ [])
    ∷ (b'p' ∷ b'3' ∷ [])
    ∷ (b'p' ∷ b'4' ∷ [])
    ∷ (b'p' ∷ b'5' ∷ [])
    ∷ (b'l' ∷ b'o' ∷ b'o' ∷ b'p' ∷ [])
    ∷ (b'c' ∷ b'a' ∷ b't' ∷ [])
    ∷ (b'w' ∷ b'c' ∷ [])
    ∷ (b'f' ∷ b'i' ∷ b'l' ∷ b't' ∷ b'e' ∷ b'r' ∷ [])
    ∷ (b'p' ∷ b'h' ∷ b'y' ∷ b'l' ∷ b'o' ∷ [])
    ∷ []

abbrev pub builtin_list : List (List ℕ)
builtin_list =
    (b'h' ∷ b'e' ∷ b'l' ∷ b'p' ∷ [])
    ∷ (b'c' ∷ b'l' ∷ b'e' ∷ b'a' ∷ b'r' ∷ [])
    ∷ (b'm' ∷ b'e' ∷ b'm' ∷ [])
    ∷ (b's' ∷ b'e' ∷ b'm' ∷ [])
    ∷ (b'k' ∷ b'i' ∷ b'l' ∷ b'l' ∷ [])
    ∷ (b'n' ∷ b'i' ∷ b'c' ∷ b'e' ∷ [])
    ∷ (b'b' ∷ b'l' ∷ b'o' ∷ b'c' ∷ b'k' ∷ [])
    ∷ (b'p' ∷ b'i' ∷ b'p' ∷ b'e' ∷ [])
    ∷ (b'p' ∷ b's' ∷ [])
    ∷ (b't' ∷ b'e' ∷ b's' ∷ b't' ∷ b'm' ∷ b'm' ∷ [])
    ∷ (b't' ∷ b'e' ∷ b's' ∷ b't' ∷ b'p' ∷ b'r' ∷ b'i' ∷ b'o' ∷ [])
    ∷ (b't' ∷ b'e' ∷ b's' ∷ b't' ∷ b'p' ∷ b'r' ∷ b'o' ∷ b'c' ∷ [])
    ∷ (b't' ∷ b'e' ∷ b's' ∷ b't' ∷ b's' ∷ b'y' ∷ b'n' ∷ b'c' ∷ [])
    ∷ (b't' ∷ b'e' ∷ b's' ∷ b't' ∷ b'n' ∷ b'o' ∷ b's' ∷ b'y' ∷ b'n' ∷ b'c' ∷ [])
    ∷ []

-- At most `n` characters up to a space or the end, and the text behind them.
pub take_word : ℕ → List ℕ → List ℕ × List ℕ
take_word zero text = ([], text)
take_word (suc n) [] = ([], [])
take_word (suc n) (c ∷ cs) =
    let (w, rest) = take_word n cs in if c == b' ' then ([], c ∷ cs) else (c ∷ w, rest)

-- The rest of a word that is too long, and spaces.
pub skip_word : List ℕ → List ℕ
skip_word [] = []
skip_word (c ∷ cs) = if c == b' ' then c ∷ cs else skip_word cs

pub skip_spaces : List ℕ → List ℕ
skip_spaces [] = []
skip_spaces (c ∷ cs) = if c == b' ' then skip_spaces cs else c ∷ cs

-- The loop over the arguments, for `n` places that are left.
pub parse_args : ℕ → List ℕ → List (List ℕ)
unfolding take_word skip_word skip_spaces
parse_args zero text = []
parse_args (suc n) [] = []
parse_args (suc n) (c ∷ cs) =
    let (w, rest) = take_word max_arg_command_len (c ∷ cs) in
    w ∷ parse_args n (skip_spaces (skip_word rest))

-- Whether a text does not begin with a space.
abbrev no_space : List ℕ → Bool
no_space [] = true
no_space (c ∷ cs) = not (c == b' ')

-- The arguments of a line, the name first; `none` for a name that is too long.
pub parse_line : List ℕ → Option (List (List ℕ))
unfolding take_word skip_spaces parse_args
parse_line text =
    let (w, rest) = take_word max_arg_command_len text in
    if length w == max_arg_command_len && no_space rest
    then none
    else some (w ∷ parse_args max_arg_amt (skip_spaces rest))

-- The last place of a name in a list, counted from `i`; `found` is the one so far.
pub find_name : List ℕ → ℕ → Option ℕ → List (List ℕ) → Option ℕ
find_name name i found [] = found
find_name name i found (x ∷ xs) =
    find_name name (i + 1) (if compare_strings name x == 0 then found else some i) xs

-- The first "|" that is neither the first nor the last argument, from place `i` on.
pub find_bar : ℕ → List (List ℕ) → Option ℕ
find_bar i [] = none
find_bar i (x ∷ []) = none
find_bar i (x ∷ y ∷ ys) =
    let later = find_bar (i + 1) (y ∷ ys) in
    if compare_strings x (b'|' ∷ []) == 0 then later else some i

-- A process that is created: its program, and whether it reads from or writes to the pipe.
pub record Launch : Type 0 where
  pub program : ℕ
  pub args : List (List ℕ)
  pub reads_pipe : Bool
  pub writes_pipe : Bool

-- What a line does: a message, one process, a builtin, or a new pipe with the processes at its ends.
pub data Action : Type 0 where
  not_found : Action
  run_process : Launch → Action
  run_builtin : ℕ → List (List ℕ) → Action
  new_pipe : Option (Launch × Launch) → Action

-- `managePipe`: the pipe is made before the names are looked up.
pub manage_pipe : List (List ℕ) → ℕ → Action
unfolding find_name
manage_pipe args index =
    let args1 = take index args in
    let args2 = drop (index + 1) args in
    new_pipe (
      find_name (get_or args 0 []) 0 none process_list >>= λ p1.
      find_name (get_or args (index + 1) []) 0 none process_list >>= λ p2. some (
        record { program = p1; args = args1; reads_pipe = false; writes_pipe = true },
        record { program = p2; args = args2; reads_pipe = true; writes_pipe = false },
      ))

-- The end of `executeCommand`: a process, else a builtin.
pub run_named : List (List ℕ) → Action
unfolding find_name
run_named args = elim (find_name (get_or args 0 []) 0 none process_list) [
  | some p ↦
      run_process (record { program = p; args = args; reads_pipe = false; writes_pipe = false })
  | none ↦ (elim (find_name (get_or args 0 []) 0 none builtin_list) [
    | some b ↦ run_builtin b args
    | none ↦ not_found
  ])
]

pub execute_command : List ℕ → Action
unfolding parse_line find_bar manage_pipe run_named
execute_command text = elim (parse_line text) [
  | none ↦ not_found
  | some args ↦ (elim (find_bar 1 (drop 1 args)) [
    | some index ↦ manage_pipe args index
    | none ↦ run_named args
  ])
]

-- Without the last element, and the last element.
abbrev pub init : List (List ℕ) → List (List ℕ)
init [] = []
init (x ∷ []) = []
init (x ∷ y ∷ ys) = x ∷ init (y ∷ ys)

abbrev pub last : List (List ℕ) → List ℕ
last [] = []
last (x ∷ []) = x
last (x ∷ y ∷ ys) = last (y ∷ ys)

-- `createProcess` of libc.c: the priority, the number of arguments and the area with them that the
-- system call takes.
pub record Request : Type 0 where
  pub priority : ℕ
  pub argc : ℕ
  pub area : List ℕ

abbrev request : ℕ → List (List ℕ) → Request
request priority args = record { priority = priority; argc = length args; area = join_args args }

pub create_process : Launch → Request
create_process l =
    if l.reads_pipe
    then request 3 l.args
    else (if compare_strings (b'&' ∷ []) (last l.args) == 0
        then request 1 l.args
        else request 3 (init l.args))

-- What the builtins with numbers call: the numbers, cut to the parameter's type, and whether the
-- message follows. A text that is no number is 0.
pub number : List ℕ → ℕ × Bool
number text = elim (atoi text) [ none ↦ (0, false) | some n ↦ (n, true) ]

pub kill : List (List ℕ) → List ℕ → ℕ × Bool
unfolding number
kill args garbage = let (pid, ok) = number (get_or args 1 garbage) in (pid % 2 ^ 32, not ok)

pub block : List (List ℕ) → List ℕ → ℕ × Bool
unfolding number
block args garbage = let (pid, ok) = number (get_or args 1 garbage) in (pid % 2 ^ 32, not ok)

pub nice : List (List ℕ) → List ℕ → (ℕ × ℕ) × Bool
unfolding number
nice args garbage =
    let (pid, ok) = number (get_or args 1 garbage) in
    let (priority, ok') = number (get_or args 2 garbage) in
    ((pid % 2 ^ 32, priority % 256), not (ok && ok'))

-- The programs over the lines that `scanf` reads; an empty line, for which it returns 0, ends them.
pub cat : List (List ℕ) → List ℕ
cat [] = []
cat ([] ∷ lines) = []
cat ((c ∷ cs) ∷ lines) = (c ∷ cs) ++ b'\n' ∷ cat lines

pub wc : List (List ℕ) → ℕ
wc [] = 0
wc ([] ∷ lines) = 0
wc ((c ∷ cs) ∷ lines) = (wc lines + 1) % 2 ^ 32

-- The `switch` of `filter`.
pub is_vowel : ℕ → Bool
is_vowel c =
    c == b'a'
    || c == b'e'
    || c == b'i'
    || c == b'o'
    || c == b'u'
    || c == b'A'
    || c == b'E'
    || c == b'I'
    || c == b'O'
    || c == b'U'

pub filter_line : List ℕ → List ℕ
unfolding is_vowel
filter_line [] = []
filter_line (c ∷ cs) = if is_vowel c then filter_line cs else c ∷ filter_line cs

pub filter : List (List ℕ) → List ℕ
unfolding filter_line
filter [] = []
filter ([] ∷ lines) = []
filter ((c ∷ cs) ∷ lines) = filter_line (c ∷ cs) ++ b'\n' ∷ filter lines
