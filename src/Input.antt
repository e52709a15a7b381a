-- ===== src/Input.antt =====
-- `read` of Kernel/interruptions/syscalls.c: keys from the keyboard or bytes from a pipe become a
-- line in the caller's buffer.
--
-- The keys are a list: each turn of the loop takes the next one, after the wait for the keyboard or
-- the read from the pipe that the other modules model. `buffer` is the memory from the buffer's
-- address on.
pub mod Lines
mod Tests
use bit_shell_os.Base.{
  ℕ, ◌+◌, ◌-◌, ◌^◌, Bool, true, false, not, ◌&&◌, ◌||◌, Option, none, some, List, [], ◌∷◌, ltb, leb,
  ◌==◌, if◌then◌else◌,
}
use bit_shell_os.Console.{Console, newline, print_char, backspace}

-- What `read` works on: `mayus` and the saved registers are the kernel's, the rest is the call's.
pub record Reader : Type 0 where
  pub buffer : ℕ → ℕ
  pub count : ℕ
  pub mayus : Bool
  pub console : Console
  pub backup_registers : List ℕ
  pub aux_registers : List ℕ

-- The next turn, a return with the int's bit pattern, or the end of the process.
pub data Turn : Type 0 where
  next : Reader → Turn
  returns : Reader → ℕ → Turn
  exits : Reader → Turn

abbrev pub minus_one : ℕ
minus_one = 2 ^ 32 - 1

abbrev pub store : (ℕ → ℕ) → ℕ → ℕ → ℕ → ℕ
store b i v j = if i == j then v else b j

-- buf[count] = 0, and the number of characters.
pub end_line : Reader → Turn
end_line r = returns (record r { buffer = store r.buffer r.count 0 }) r.count

-- Upper case, and the one sign that Shift changes.
pub shifted : Bool → ℕ → ℕ
shifted mayus key =
    let upper = if mayus && leb b'a' key && leb key b'z' then key - 32 else key in
    if mayus && upper == b'6' then b'&' else upper

pub take_key : Bool → ℕ → Reader → Turn
unfolding shifted
take_key keyboard key r =
    let k = shifted r.mayus key in
    next (record r {
      buffer = if ltb r.count 100 then store r.buffer r.count k else r.buffer;
      count = r.count + 1;
      console = if keyboard then print_char k r.console else r.console;
    })

pub take_back : Reader → Turn
take_back r =
    if ltb 0 r.count
    then (let (c, done) = backspace r.console in
        next (record r { console = c; count = if done then r.count - 1 else r.count }))
    else next r

-- The keys that only toggle `mayus`: both shifts, pressed and released, and the lock.
pub is_shift : ℕ → Bool
is_shift key = key == 11 || key == 14 || key == 15 || key == 0xAA || key == 0xB6

-- The `switch`. `keyboard` says that the process has no pipe as its input.
pub handle_key : Bool → ℕ → Reader → Turn
unfolding end_line take_key take_back is_shift
handle_key keyboard key r =
    if key == 255
    then returns r minus_one
    else (if key == 0
        then (if keyboard then next r else end_line r)
        else (if key == 10
            then end_line (if keyboard then record r { console = newline r.console } else r)
            else (if key == 8
                then take_back r
                else (if key == 17
                    then next (record r { backup_registers = r.aux_registers })
                    else (if key == 18
                        then exits r
                        else (if key == 19
                            then returns r minus_one
                            else (if is_shift key
                                then next (record r { mayus = not r.mayus })
                                else take_key keyboard key r)))))))

-- Whether the loop goes on; `none` is the limit -1.
pub below_limit : Option ℕ → ℕ → Bool
below_limit none count = true
below_limit (some limit) count = ltb count limit

-- After the loop.
pub end_at_limit : Reader → Turn
end_at_limit r =
    returns (record r { buffer = store r.buffer r.count 0 })
      (if leb 100 r.count then 100 else r.count)

abbrev pub continue : (Reader → Turn) → Turn → Turn
continue go (next r) = go r
continue go (returns r n) = returns r n
continue go (exits r) = exits r

-- The loop over the keys that come; `next` means that it still waits for one.
pub read_loop : Bool → Option ℕ → List ℕ → Reader → Turn
unfolding below_limit end_at_limit handle_key
read_loop keyboard limit [] r = if below_limit limit r.count then next r else end_at_limit r
read_loop keyboard limit (key ∷ keys) r =
    let turn = continue (read_loop keyboard limit keys) (handle_key keyboard key r) in
    if below_limit limit r.count then turn else end_at_limit r

-- `read` on an input that it may read; a background process without a pipe gets an empty line.
pub read : ℕ → Option ℕ → Option ℕ → List ℕ → Reader → Turn
unfolding read_loop
read priority input limit keys r =
    let start = record r { count = 0 } in
    elim input [
      | none ↦
          if not (priority == 1)
          then returns (record r { buffer = store r.buffer 0 0 }) 0
          else read_loop true limit keys start
      | some fd ↦ read_loop false limit keys start
    ]
