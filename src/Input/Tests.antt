-- ===== src/Input/Tests.antt =====
-- A line typed at the keyboard.
use bit_shell_os.Base.{refl, true, false, none, [], ◌∷◌, ◌++◌, replicate, arith}
use bit_shell_os.Input.{Reader, read_loop, is_shift}
use bit_shell_os.Input.Lines.{Line, IsPlain, read_loop-Line}

abbrev reader : Reader
reader = record {
  buffer = λ i. 0;
  count = 0;
  mayus = false;
  console = record { cells = replicate 4000 0; offset = 0; cursor = 0 };
  backup_registers = [];
  aux_registers = [];
}

a-IsPlain : IsPlain b'a'
unfolding is_shift
a-IsPlain = (
  omega arith,
  omega arith,
  omega arith,
  omega arith,
  omega arith,
  omega arith,
  omega arith,
  refl,
)

read_loop-Line_example :
    Line (b'a' ∷ b'a' ∷ []) reader (read_loop true none ((b'a' ∷ b'a' ∷ []) ++ 10 ∷ []) reader)
read_loop-Line_example =
    read_loop-Line true (b'a' ∷ b'a' ∷ []) reader (a-IsPlain, (a-IsPlain, tt)) refl
