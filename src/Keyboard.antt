-- ===== src/Keyboard.antt =====
-- Kernel/interruptions/keyboard.c, and the ring of processes that wait for a key in
-- Kernel/utils/scheduler.c. A process pointer is a pid.
pub mod Waiting
use bit_shell_os.Base.{
  ℕ, ◌+◌, ◌-◌, ◌%◌, ◌^◌, Bool, true, false, Option, none, some, List, [], ◌∷◌, ◌++◌, ltb, ◌==◌,
  if◌then◌else◌, get_or, set, replicate,
}

-- `ASCIITable`.
abbrev pub ascii_table : List ℕ
ascii_table =
    (0 ∷ 27 ∷ b'1' ∷ b'2' ∷ b'3' ∷ b'4' ∷ b'5' ∷ b'6' ∷ b'7' ∷ b'8' ∷ b'9' ∷ b'0' ∷ 39 ∷ 0 ∷ 8 ∷ [])
    ++ (9 ∷ b'q' ∷ b'w' ∷ b'e' ∷ b'r' ∷ b't' ∷ b'y' ∷ b'u' ∷ b'i' ∷ b'o' ∷ b'p' ∷ 0 ∷ b'+' ∷ 10 ∷ 0
        ∷ [])
    ++ (b'a' ∷ b's' ∷ b'd' ∷ b'f' ∷ b'g' ∷ b'h' ∷ b'j' ∷ b'k' ∷ b'l' ∷ b';' ∷ b'{' ∷ b'|' ∷ 14
        ∷ b'}' ∷ [])
    ++ (b'z' ∷ b'x' ∷ b'c' ∷ b'v' ∷ b'b' ∷ b'n' ∷ b'm' ∷ b',' ∷ b'.' ∷ b'-' ∷ 15 ∷ b'*' ∷ 0 ∷ b' '
        ∷ 11 ∷ 17 ∷ [])
    ++ (18 ∷ 19 ∷ [])
    ++ replicate 108 0
    ++ (0xAA ∷ [])
    ++ replicate 11 0
    ++ (0xB6 ∷ [])

-- MAX_WAITING_KEYBOARD; `initScheduler` makes one node more.
abbrev pub max_waiting_keyboard : ℕ
max_waiting_keyboard = 10

abbrev pub ring_size : ℕ
ring_size = max_waiting_keyboard + 1

-- The circle of nodes as an array; `current` and `tail` are places in it.
pub record WaitingList : Type 0 where
  pub slots : List ℕ
  pub current : ℕ
  pub tail : ℕ
  pub size : ℕ

pub record Keyboard : Type 0 where
  pub actual_key : ℕ
  pub waiting : WaitingList

-- `initScheduler`, as far as the ring goes; 0 stands for the null pointer in a node.
pub init_waiting : WaitingList
init_waiting = record { slots = replicate ring_size 0; current = 0; tail = 0; size = 0 }

-- `waitForKeyboard`, but for the block of the process and `runScheduler`.
pub wait_for_keyboard : ℕ → WaitingList → WaitingList
wait_for_keyboard pid w = record w {
  slots = set w.slots w.tail pid;
  tail = (w.tail + 1) % ring_size;
  size = (w.size + 1) % 256;
}

-- `awakeKeyboardQueue`: the process that is woken.
pub awake_keyboard_queue : WaitingList → WaitingList × Option ℕ
awake_keyboard_queue w = if w.size == 0 then (w, none) else (
  record w { size = w.size - 1; current = (w.current + 1) % ring_size },
  some (get_or w.slots w.current 0),
)

-- `keyboard_handler`, for the scan code that `getKey` returns.
pub keyboard_handler : ℕ → Keyboard → Keyboard × Option ℕ
unfolding awake_keyboard_queue
keyboard_handler key k =
    if ltb key 183
    then (let (w, woken) = awake_keyboard_queue k.waiting in
        (record { actual_key = get_or ascii_table key 0; waiting = w }, woken))
    else (k, none)

-- `getInput`.
pub get_input : Keyboard → Keyboard × ℕ
get_input k = if k.actual_key == 0 then (k, 0) else (record k { actual_key = 0 }, k.actual_key)
