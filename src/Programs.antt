-- ===== src/Programs.antt =====
-- The programs of the shell as the system calls that they make: p1 to p5 and `loop` of
-- Userland/SampleCodeModule/apps.c, the builtins of builtin.c, and the output functions of libc.c.
--
-- A program is what it calls next and how it goes on with each answer, or its end: `sys_exit`, or a
-- return to whoever called it. The calls are those of syscalls.h from sys_semOpen on, and the
-- ones before it that show something.
pub mod Ends
mod Tests
use bit_shell_os.Base.{
  ℕ, zero, suc, ◌+◌, ◌-◌, ◌%◌, ◌^◌, Bool, true, false, Option, none, some, List, [], ◌∷◌, ltb, ◌==◌,
  if◌then◌else◌, get_or, length,
}
use bit_shell_os.Text.{uint_to_base, atoi}

pub data Syscall : Type 0 where
  sys_write : List ℕ → Syscall
  sys_clear_screen sys_print_process sys_print_semaphores sys_print_pipes sys_mem_status : Syscall
  sys_sem_open : ℕ → ℕ → Syscall
  sys_sem_close : ℕ → Syscall
  sys_sem_wait : ℕ → Syscall
  sys_sem_post : ℕ → Syscall
  sys_create_pipe : ℕ → ℕ → Syscall
  sys_create_fd_pipe : Syscall
  sys_close_fd_pipe : ℕ → Syscall
  sys_pipe_write : ℕ → List ℕ → Syscall
  sys_pipe_read : ℕ → Syscall
  sys_open_pipe_id : ℕ → ℕ → ℕ → Syscall
  sys_yield : Syscall
  sys_get_pid : Syscall
  sys_sleep : ℕ → Syscall

-- What a call returns, and what stands then in the memory that it was given: the text before the
-- first 0, or the words.
pub record Answer : Type 0 where
  pub result : ℕ
  pub memory : List ℕ

pub data Program : Type 0 where
  exits : Program
  returns : Program
  call : Syscall → (Answer → Program) → Program

-- `printf`, `putChar` and `printInt`, with what follows.
pub printf : List ℕ → Program → Program
printf text next = call (sys_write text) (λ a. next)

pub put_char : ℕ → Program → Program
put_char c next = call (sys_write (c ∷ [])) (λ a. next)

pub print_int : ℕ → Program → Program
print_int n next = call (sys_write (uint_to_base (n % 2 ^ 32) 10)) (λ a. next)

abbrev arguments_text : List ℕ
arguments_text =
    b'C' ∷ b'a' ∷ b'n' ∷ b't' ∷ b'i' ∷ b'd' ∷ b'a' ∷ b'd' ∷ b' ' ∷ b'd' ∷ b'e' ∷ b' ' ∷ b'a' ∷ b'r'
    ∷ b'g' ∷ b'u' ∷ b'm' ∷ b'e' ∷ b'n' ∷ b't' ∷ b'o' ∷ b's' ∷ b':' ∷ b' ' ∷ []

abbrev newline_text : List ℕ
newline_text = b'\n' ∷ []

abbrev space_text : List ℕ
space_text = b' ' ∷ []

abbrev p2_text : List ℕ
p2_text = b'S' ∷ b'o' ∷ b'y' ∷ b' ' ∷ b'p' ∷ b'2' ∷ b'!' ∷ []

abbrev message_text : List ℕ
message_text =
    b'M' ∷ b'e' ∷ b'n' ∷ b's' ∷ b'a' ∷ b'j' ∷ b'e' ∷ b' ' ∷ b'd' ∷ b'e' ∷ b' ' ∷ b'P' ∷ b'2' ∷ b':'
    ∷ b' ' ∷ []

abbrev p4_waits_text : List ℕ
p4_waits_text =
    b'S' ∷ b'o' ∷ b'y' ∷ b' ' ∷ b'p' ∷ b'4' ∷ b' ' ∷ b'y' ∷ b' ' ∷ b'h' ∷ b'o' ∷ b'r' ∷ b'a' ∷ b' '
    ∷ b'd' ∷ b'e' ∷ b' ' ∷ b'e' ∷ b's' ∷ b'p' ∷ b'e' ∷ b'r' ∷ b'a' ∷ b'r' ∷ b'!' ∷ b'\n' ∷ []

abbrev p4_awake_text : List ℕ
p4_awake_text =
    b'S' ∷ b'o' ∷ b'y' ∷ b' ' ∷ b'p' ∷ b'4' ∷ b' ' ∷ b'y' ∷ b' ' ∷ b'm' ∷ b'e' ∷ b' ' ∷ b'd' ∷ b'e'
    ∷ b's' ∷ b'p' ∷ b'e' ∷ b'r' ∷ b't' ∷ b'e' ∷ b'!' ∷ b'\n' ∷ []

abbrev p5_text : List ℕ
p5_text =
    b'V' ∷ b'o' ∷ b'y' ∷ b' ' ∷ b'a' ∷ b' ' ∷ b'd' ∷ b'e' ∷ b's' ∷ b'p' ∷ b'e' ∷ b'r' ∷ b't' ∷ b'a'
    ∷ b'r' ∷ b' ' ∷ b'a' ∷ b' ' ∷ b'p' ∷ b'4' ∷ b'!' ∷ b'\n' ∷ []

abbrev delay_text : List ℕ
delay_text =
    b'P' ∷ b'l' ∷ b'e' ∷ b'a' ∷ b's' ∷ b'e' ∷ b' ' ∷ b'e' ∷ b'n' ∷ b't' ∷ b'e' ∷ b'r' ∷ b' ' ∷ b'a'
    ∷ b' ' ∷ b'v' ∷ b'a' ∷ b'l' ∷ b'i' ∷ b'd' ∷ b' ' ∷ b'd' ∷ b'e' ∷ b'l' ∷ b'a' ∷ b'y' ∷ b'\n' ∷ []

abbrev hi_text : List ℕ
hi_text = b'H' ∷ b'i' ∷ b' ' ∷ b'f' ∷ b'r' ∷ b'o' ∷ b'm' ∷ b':' ∷ b' ' ∷ []

abbrev heap_size_text : List ℕ
heap_size_text = b'H' ∷ b'e' ∷ b'a' ∷ b'p' ∷ b' ' ∷ b's' ∷ b'i' ∷ b'z' ∷ b'e' ∷ b':' ∷ b' ' ∷ []

abbrev heap_left_text : List ℕ
heap_left_text = b'H' ∷ b'e' ∷ b'a' ∷ b'p' ∷ b' ' ∷ b'l' ∷ b'e' ∷ b'f' ∷ b't' ∷ b':' ∷ b' ' ∷ []

abbrev heap_used_text : List ℕ
heap_used_text = b'H' ∷ b'e' ∷ b'a' ∷ b'p' ∷ b' ' ∷ b'u' ∷ b's' ∷ b'e' ∷ b'd' ∷ b':' ∷ b' ' ∷ []

abbrev bytes_text : List ℕ
bytes_text = b' ' ∷ b'b' ∷ b'y' ∷ b't' ∷ b'e' ∷ b's' ∷ b'\n' ∷ []

pub print_args : List (List ℕ) → Program → Program
unfolding printf
print_args [] next = next
print_args (a ∷ more) next = printf a (printf space_text (print_args more next))

-- `argc` is the number of the arguments.
pub p1 : List (List ℕ) → Program
unfolding printf print_int print_args
p1 argv =
    printf arguments_text
      (print_int (length argv) (printf newline_text (print_args argv (printf newline_text exits))))

pub p2 : Program
p2 = call sys_create_fd_pipe λ fd.
    call (sys_open_pipe_id fd.result 1 0) λ a.
      call (sys_pipe_write fd.result p2_text) λ a. call (sys_close_fd_pipe fd.result) λ a. exits

-- -1 as the bit pattern of an int, and n > 0 of one.
abbrev minus_one : ℕ
minus_one = 2 ^ 32 - 1

abbrev positive : ℕ → Bool
positive n = if ltb 0 n then ltb n (2 ^ 31) else false

pub p3 : Program
unfolding printf
p3 = call sys_create_fd_pipe λ fd. call (sys_open_pipe_id fd.result 1 1) λ opened.
    if opened.result == minus_one
    then call (sys_close_fd_pipe fd.result) (λ a. exits)
    else (call (sys_sleep 5) λ a. call (sys_pipe_read fd.result) λ read.
        call (sys_close_fd_pipe fd.result) λ a.
          if positive read.result
          then printf message_text (printf read.memory (printf newline_text exits))
          else exits)

pub p4 : Program
unfolding printf
p4 =
    call (sys_sem_open 1 0)
      λ sem. printf p4_waits_text (call (sys_sem_wait sem.result) λ a. printf p4_awake_text exits)

pub p5 : Program
unfolding printf
p5 = call (sys_sem_open 1 0) λ sem. printf p5_text (call (sys_sem_post sem.result) λ a. exits)

-- The first `turns` turns of `loop`, and then `rest`.
pub loop_turns : ℕ → ℕ → Program → Program
unfolding printf print_int put_char
loop_turns delay zero rest = rest
loop_turns delay (suc turns) rest = printf hi_text (
    call sys_get_pid λ pid.
      print_int pid.result (put_char 10 (call (sys_sleep delay) λ a. loop_turns delay turns rest)))

-- `argument` is argv[1].
pub loop : List ℕ → ℕ → Program → Program
unfolding printf loop_turns
loop argument turns rest = elim (atoi argument) [
  | none ↦ printf delay_text exits
  | some delay ↦ loop_turns (delay % 2 ^ 32) turns rest
]

pub print_lines : List (List ℕ) → Program → Program
unfolding printf
print_lines [] next = next
print_lines (l ∷ ls) next = printf l (print_lines ls next)

abbrev pub help_lines : List (List ℕ)
help_lines =
    (b'-' ∷ b'-' ∷ b'-' ∷ b'-' ∷ b'-' ∷ b'-' ∷ b'-' ∷ b'B' ∷ b'U' ∷ b'I' ∷ b'L' ∷ b'T' ∷ b'I' ∷ b'N'
      ∷ b'-' ∷ b'-' ∷ b'-' ∷ b'-' ∷ b'-' ∷ b'-' ∷ b'\n' ∷ [])
    ∷ (b'1' ∷ b':' ∷ b' ' ∷ b'b' ∷ b'l' ∷ b'o' ∷ b'c' ∷ b'k' ∷ b'\n' ∷ [])
    ∷ (b'2' ∷ b':' ∷ b' ' ∷ b'c' ∷ b'l' ∷ b'e' ∷ b'a' ∷ b'r' ∷ b'\n' ∷ [])
    ∷ (b'3' ∷ b':' ∷ b' ' ∷ b'h' ∷ b'e' ∷ b'l' ∷ b'p' ∷ b'\n' ∷ [])
    ∷ (b'4' ∷ b':' ∷ b' ' ∷ b'k' ∷ b'i' ∷ b'l' ∷ b'l' ∷ b'\n' ∷ [])
    ∷ (b'5' ∷ b':' ∷ b' ' ∷ b'm' ∷ b'e' ∷ b'm' ∷ b'\n' ∷ [])
    ∷ (b'6' ∷ b':' ∷ b' ' ∷ b'n' ∷ b'i' ∷ b'c' ∷ b'e' ∷ b'\n' ∷ [])
    ∷ (b'7' ∷ b':' ∷ b' ' ∷ b'p' ∷ b'i' ∷ b'p' ∷ b'e' ∷ b'\n' ∷ [])
    ∷ (b'8' ∷ b':' ∷ b' ' ∷ b'p' ∷ b's' ∷ b'\n' ∷ [])
    ∷ (b'9' ∷ b':' ∷ b' ' ∷ b's' ∷ b'e' ∷ b'm' ∷ b'\n' ∷ [])
    ∷ (b'-' ∷ b'-' ∷ b'-' ∷ b'-' ∷ b'-' ∷ b'-' ∷ b'-' ∷ b'P' ∷ b'R' ∷ b'O' ∷ b'C' ∷ b'E' ∷ b'S'
        ∷ b'S' ∷ b'E' ∷ b'S' ∷ b'-' ∷ b'-' ∷ b'-' ∷ b'-' ∷ b'-' ∷ b'-' ∷ b'\n' ∷ [])
    ∷ (b'1' ∷ b':' ∷ b' ' ∷ b'c' ∷ b'a' ∷ b't' ∷ b'\n' ∷ [])
    ∷ (b'2' ∷ b':' ∷ b' ' ∷ b'f' ∷ b'i' ∷ b'l' ∷ b't' ∷ b'e' ∷ b'r' ∷ b'\n' ∷ [])
    ∷ (b'3' ∷ b':' ∷ b' ' ∷ b'l' ∷ b'o' ∷ b'o' ∷ b'p' ∷ b'\n' ∷ [])
    ∷ (b'4' ∷ b':' ∷ b' ' ∷ b'p' ∷ b'h' ∷ b'y' ∷ b'l' ∷ b'o' ∷ b'\n' ∷ [])
    ∷ (b'5' ∷ b':' ∷ b' ' ∷ b'w' ∷ b'c' ∷ b'\n' ∷ [])
    ∷ (b'-' ∷ b'-' ∷ b'-' ∷ b'-' ∷ b'-' ∷ b'-' ∷ b'-' ∷ b'T' ∷ b'E' ∷ b'S' ∷ b'T' ∷ b'S' ∷ b'-'
        ∷ b'-' ∷ b'-' ∷ b'-' ∷ b'-' ∷ b'-' ∷ b'\n' ∷ [])
    ∷ (b'1' ∷ b':' ∷ b' ' ∷ b't' ∷ b'e' ∷ b's' ∷ b't' ∷ b'm' ∷ b'm' ∷ b'\n' ∷ [])
    ∷ (b'2' ∷ b':' ∷ b' ' ∷ b't' ∷ b'e' ∷ b's' ∷ b't' ∷ b'p' ∷ b'r' ∷ b'i' ∷ b'o' ∷ b'\n' ∷ [])
    ∷ (b'3' ∷ b':' ∷ b' ' ∷ b't' ∷ b'e' ∷ b's' ∷ b't' ∷ b'p' ∷ b'r' ∷ b'o' ∷ b'c' ∷ b'\n' ∷ [])
    ∷ (b'4' ∷ b':' ∷ b' ' ∷ b't' ∷ b'e' ∷ b's' ∷ b't' ∷ b's' ∷ b'y' ∷ b'n' ∷ b'c' ∷ b'\n' ∷ [])
    ∷ (b'5' ∷ b':' ∷ b' ' ∷ b't' ∷ b'e' ∷ b's' ∷ b't' ∷ b'n' ∷ b'o' ∷ b's' ∷ b'y' ∷ b'n' ∷ b'c'
        ∷ b'\n' ∷ [])
    ∷ []

pub help : Program
unfolding print_lines
help = print_lines help_lines returns

pub clear : Program
clear = call sys_clear_screen (λ a. returns)

pub ps : Program
ps = call sys_print_process (λ a. returns)

pub sem : Program
sem = call sys_print_semaphores (λ a. returns)

pub pipe : Program
pipe = call sys_print_pipes (λ a. returns)

-- The status is three words.
pub mem : Program
unfolding printf print_int
mem = call sys_mem_status λ status. printf heap_size_text (
    print_int (get_or status.memory 0 0) (
      printf bytes_text (
        printf heap_left_text (
          print_int (get_or status.memory 1 0) (
            printf bytes_text (
              printf heap_used_text
                (print_int (get_or status.memory 2 0) (printf bytes_text returns))))))))
