-- ===== src/Reports.antt =====
-- The reports that the kernel prints: printProcessList of Kernel/utils/scheduler.c, printSemaphores of
-- semaphore.c, printPipes of pipes.c, printmem of Kernel/interruptions/syscalls.c and ncPrintReg of
-- Kernel/naiveConsole.c, as the text that goes to the screen.
--
-- `none` is a read through the null pointer: a process without a first argument.
pub mod Lines
use bit_shell_os.Base.{
  ℕ, zero, suc, ◌+◌, ◌-◌, Bool, true, false, Option, none, some, List, [], ◌∷◌, ◌++◌, ltb, leb,
  ◌==◌, if◌then◌else◌, ◌>>=◌, length, replicate, take,
}
use bit_shell_os.Text.{uint_to_base, print_dec}
use bit_shell_os.Process.{Pcb}
use bit_shell_os.Semaphores.{Semaphore}
use bit_shell_os.Pipes.{Pipe}

abbrev spaces : ℕ → List ℕ
spaces n = replicate n b' '

pub print_hex : ℕ → List ℕ
print_hex v = uint_to_base v 16

-- The line of a process. The loop behind the name runs from its length to 8.
pub process_line : Pcb → Option (List ℕ)
unfolding print_hex
process_line p = elim p.args [
  | [] ↦ none
  | name ∷ more ↦ some (
      name
      ++ spaces (9 - length name)
      ++ print_dec p.pid
      ++ spaces 8
      ++ print_dec p.priority
      ++ spaces 8
      ++ print_hex p.sp
      ++ spaces 5
      ++ print_hex p.bp
      ++ spaces 5
      ++ (if p.priority == 1
          then b'F' ∷ b'o' ∷ b'r' ∷ b'e' ∷ b'g' ∷ b'r' ∷ b'o' ∷ b'u' ∷ b'n' ∷ b'd' ∷ []
          else b'B' ∷ b'a' ∷ b'c' ∷ b'k' ∷ b'g' ∷ b'r' ∷ b'o' ∷ b'u' ∷ b'n' ∷ b'd' ∷ [])
      ++ spaces 5
      ++ (if p.pstate == 0
          then b'B' ∷ b'l' ∷ b'o' ∷ b'c' ∷ b'k' ∷ b'e' ∷ b'd' ∷ []
          else b'R' ∷ b'e' ∷ b'a' ∷ b'd' ∷ b'y' ∷ [])
      ++ b'\n' ∷ [])
]

-- The lines below the title.
pub process_lines : List Pcb → Option (List ℕ)
unfolding process_line
process_lines [] = some []
process_lines (p ∷ ps) = process_line p >>= λ l. process_lines ps >>= λ ls. some (l ++ ls)

abbrev no_one : List ℕ
no_one = b'N' ∷ b'o' ∷ b'n' ∷ b'e' ∷ []

-- The waiting processes behind the first one of a semaphore, each on a line of its own.
pub waiter_lines : List ℕ → List ℕ
waiter_lines [] = []
waiter_lines (pid ∷ pids) = spaces 26 ++ print_dec pid ++ b'\n' ∷ waiter_lines pids

pub waiters_text : List ℕ → List ℕ
unfolding waiter_lines
waiters_text [] = no_one ++ b'\n' ∷ []
waiters_text (pid ∷ pids) = print_dec pid ++ b'\n' ∷ waiter_lines pids

-- The text of a semaphore below its title.
pub semaphore_lines : Semaphore → List ℕ
unfolding waiters_text
semaphore_lines s =
    print_dec s.id
    ++ spaces 9
    ++ print_dec s.value
    ++ spaces 15
    ++ waiters_text (take s.waiting s.queue)

-- The line of a pipe.
pub pipe_line : Pipe → List ℕ
pipe_line p =
    print_dec p.id
    ++ spaces 12
    ++ print_dec p.bytes_to_read
    ++ spaces 19
    ++ (elim p.waiting_process [ none ↦ no_one | some pid ↦ print_dec pid ])
    ++ b'\n' ∷ []

-- A byte of `printmem`.
pub byte_text : ℕ → List ℕ
unfolding print_hex
byte_text b = (if leb b 15 then b'0' ∷ [] else []) ++ print_hex b ++ b' ' ∷ []

-- Its loop, with `n` bytes left.
pub bytes_text : ℕ → ℕ → (ℕ → ℕ) → List ℕ
unfolding byte_text
bytes_text zero a m = b'\n' ∷ []
bytes_text (suc n) a m = byte_text (m a) ++ bytes_text n (a + 1) m

pub print_mem : ℕ → (ℕ → ℕ) → List ℕ
unfolding bytes_text
print_mem pointer m = bytes_text 32 pointer m

-- `ncPrintReg`, and `printReg` of libc.c: the loop from 1 puts one 0 less than would make 16 digits.
pub print_reg : List ℕ → ℕ → List ℕ
print_reg name value =
    let digits = uint_to_base value 16 in
    name ++ b':' ∷ b' ' ∷ replicate (15 - length digits) b'0' ++ digits ++ b'\n' ∷ []
