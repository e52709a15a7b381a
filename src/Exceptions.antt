-- ===== src/Exceptions.antt =====
-- Kernel/interruptions/exceptions.c: the messages of the exceptions, and the wait for a key after
-- which the shell starts again.
--
-- A turn of the wait is the number of ticks at it and the key that `getInput` gives, 0 for none.
pub mod Reboot
mod Tests
use bit_shell_os.Base.{ℕ, ◌%◌, Option, none, some, List, [], ◌∷◌, ◌==◌, if◌then◌else◌, ◌>>=◌}
use bit_shell_os.Console.{Console, print_text, newline, clear, display_cursor}

-- ZERO_EXCEPTION_ID and OPCODE_EXCEPTION_ID.
abbrev pub zero_exception_id : ℕ
zero_exception_id = 0

abbrev pub opcode_exception_id : ℕ
opcode_exception_id = 6

pub zero_division : Console → Console
zero_division = print_text (
    b'E' ∷ b'x' ∷ b'c' ∷ b'e' ∷ b'p' ∷ b't' ∷ b'i' ∷ b'o' ∷ b'n' ∷ b' ' ∷ b'0' ∷ b':' ∷ b' ' ∷ b'D'
    ∷ b'i' ∷ b'v' ∷ b'i' ∷ b's' ∷ b'i' ∷ b'o' ∷ b'n' ∷ b' ' ∷ b'b' ∷ b'y' ∷ b' ' ∷ b'z' ∷ b'e'
    ∷ b'r' ∷ b'o' ∷ b'.' ∷ b'\n' ∷ [])

pub opcode_exception : Console → Console
opcode_exception = print_text (
    b'E' ∷ b'x' ∷ b'c' ∷ b'e' ∷ b'p' ∷ b't' ∷ b'i' ∷ b'o' ∷ b'n' ∷ b' ' ∷ b'6' ∷ b':' ∷ b' ' ∷ b'I'
    ∷ b'n' ∷ b'v' ∷ b'a' ∷ b'l' ∷ b'i' ∷ b'd' ∷ b' ' ∷ b'o' ∷ b'p' ∷ b'c' ∷ b'o' ∷ b'd' ∷ b'e'
    ∷ b'.' ∷ b'\n' ∷ [])

pub exception_dispatcher : ℕ → Console → Console
unfolding zero_division opcode_exception
exception_dispatcher exception c =
    if exception == zero_exception_id
    then zero_division c
    else (if exception == opcode_exception_id then opcode_exception c else c)

-- The loop of `rebootConsole`; `none` is a wait that goes on.
pub wait_for_key : List (ℕ × ℕ) → Console → Option Console
wait_for_key [] c = none
wait_for_key ((ticks, key) ∷ turns) c =
    let blinked = if ticks % 9 == 0 then display_cursor c else c in
    let later = wait_for_key turns blinked in if key == 0 then later else some blinked

abbrev pub reboot_text : List ℕ
reboot_text =
    b'P' ∷ b'r' ∷ b'e' ∷ b's' ∷ b's' ∷ b' ' ∷ b'a' ∷ b'n' ∷ b'y' ∷ b' ' ∷ b'k' ∷ b'e' ∷ b'y' ∷ b' '
    ∷ b't' ∷ b'o' ∷ b' ' ∷ b'r' ∷ b'e' ∷ b'b' ∷ b'o' ∷ b'o' ∷ b't' ∷ b' ' ∷ b't' ∷ b'h' ∷ b'i'
    ∷ b's' ∷ b' ' ∷ b's' ∷ b'h' ∷ b'e' ∷ b'l' ∷ b'l' ∷ []

abbrev pub prompt : List ℕ
prompt = b'>' ∷ b' ' ∷ []

pub reboot_console : List (ℕ × ℕ) → Console → Option Console
unfolding wait_for_key
reboot_console turns c = wait_for_key turns (newline (print_text reboot_text c)) >>= λ d.
    some (print_text prompt (clear d))
