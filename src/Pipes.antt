-- ===== src/Pipes.antt =====
-- Kernel/utils/pipes.c: a pipe of 512 bytes, and what writes and reads do to it.
--
-- A process pointer is a pid. A call that blocks ends in `runScheduler`; what runs when the process is
-- resumed is a function of its own.
pub mod Ring
pub mod Transfer
pub mod Channel
pub mod Refine
pub mod Whole
mod Tests
use bit_shell_os.Base.{
  ℕ, zero, suc, ◌+◌, ◌-◌, ◌%◌, ◌^◌, Bool, true, false, not, ◌&&◌, ◌||◌, Option, none, some, List,
  [], ◌∷◌, ◌++◌, ltb, leb, ◌==◌, if◌then◌else◌, get_or, set, length,
}

-- MAX_PIPES and PIPE_SIZE.
abbrev pub max_pipes : ℕ
max_pipes = 20

abbrev pub pipe_size : ℕ
pipe_size = 512

pub record Pipe : Type 0 where
  pub id : ℕ
  pub content : List ℕ
  pub read_pos : ℕ
  pub write_pos : ℕ
  pub read_open : ℕ
  pub write_open : ℕ
  pub bytes_to_read : ℕ
  pub waiting_process : Option ℕ

-- `fdPipe` of scheduler.h.
pub record FdPipe : Type 0 where
  pub readable : ℕ
  pub writable : ℕ
  pub pipe : ℕ

-- data[writePos++] = c, and what goes with it.
pub put_byte : ℕ → Pipe → Pipe
put_byte c p = record p {
  content = set p.content p.write_pos c;
  write_pos = if p.write_pos + 1 == pipe_size then 0 else p.write_pos + 1;
  bytes_to_read = (p.bytes_to_read + 1) % 2 ^ 32;
}

-- The loop of `pipeWrite` up to its end or to its next `runScheduler`, with the bytes that are left.
-- In the second case the writer has left its pid.
pub write_loop : ℕ → List ℕ → Pipe → Pipe × List ℕ
unfolding put_byte
write_loop cur [] p = (p, [])
write_loop cur (c ∷ cs) p =
    let rest = write_loop cur cs (put_byte c p) in
    if p.bytes_to_read == pipe_size then (record p { waiting_process = some cur }, c ∷ cs) else rest

-- A writer that is resumed writes its next byte without another look.
pub write_resumed : ℕ → List ℕ → Pipe → Pipe × List ℕ
unfolding write_loop put_byte
write_resumed cur [] p = (p, [])
write_resumed cur (c ∷ cs) p = write_loop cur cs (put_byte c p)

-- The end of a write and of a read: whoever waits is woken.
pub release_waiting : Pipe → Pipe × Option ℕ
release_waiting p = (record p { waiting_process = none }, p.waiting_process)

-- Whether `pipeWrite` returns -1 at once.
pub write_refused : FdPipe → Pipe → Bool
write_refused d p = d.writable == 0 || (p.read_open == 0 && p.bytes_to_read == pipe_size)

-- One turn of the loop of `pipeRead`.
pub take_byte : Pipe → Pipe × ℕ
take_byte p =
    let pos = (if p.read_pos == pipe_size then 0 else p.read_pos) in
    (record p { bytes_to_read = p.bytes_to_read - 1; read_pos = pos + 1 }, get_or p.content pos 0)

-- The whole loop with a limit other than 1, where `n` bytes are there: what goes into the buffer.
pub drain : ℕ → Pipe → Pipe × List ℕ
unfolding take_byte
drain zero p = (p, [])
drain (suc n) p = let (p', c) = take_byte p in let (q, cs) = drain n p' in (q, c ∷ cs)

-- (int) of a char, as a bit pattern.
abbrev pub int_of_char : ℕ → ℕ
int_of_char c = if leb 128 c then c + 2 ^ 32 - 256 else c

-- The loop with the limit 1: the result is the byte.
pub read_one : Pipe → Pipe × ℕ
unfolding take_byte
read_one p =
    if p.bytes_to_read == 0 then (p, 0) else (let (p', c) = take_byte p in (p', int_of_char c))

-- What `pipeRead` does before its loop: return -1, return 0, block, or go on.
pub data ReadStart : Type 0 where
  not_readable at_end blocks goes_on : ReadStart

pub read_start : FdPipe → Pipe → ReadStart
read_start d p =
    if d.readable == 0
    then not_readable
    else (if p.bytes_to_read == 0 then (if p.write_open == 0 then at_end else blocks) else goes_on)

-- `pipeRead` as a whole for a process that finds bytes, or is resumed: the buffer, and who is woken.
pub read_all : Pipe → (Pipe × Option ℕ) × List ℕ
unfolding drain release_waiting
read_all p = let (q, cs) = drain p.bytes_to_read p in (release_waiting q, cs)

-- What a write or a read returns or ends in: -1, 0 or a number of bytes, and the process that it
-- wakes; or the call blocks, a writer with the bytes that are left.
pub data Outcome : Type 0 where
  refused : Outcome
  wrote : ℕ → Option ℕ → Outcome
  write_blocks : List ℕ → Outcome
  nothing : Outcome
  read_blocks : Outcome
  got : List ℕ → Option ℕ → Outcome
  got_one : ℕ → Option ℕ → Outcome

-- Behind the loop of `pipeWrite`, for the number of all bytes.
pub write_end : ℕ → Pipe → List ℕ → Pipe × Outcome
unfolding release_waiting
write_end total p [] = let (q, woken) = release_waiting p in (q, wrote total woken)
write_end total p (c ∷ cs) = (p, write_blocks (c ∷ cs))

-- `pipeWrite` up to its end or its first `runScheduler`.
pub pipe_write : ℕ → FdPipe → List ℕ → Pipe → Pipe × Outcome
unfolding write_refused write_loop write_end
pipe_write cur d cs p =
    if write_refused d p
    then (p, refused)
    else (let (q, rest) = write_loop cur cs p in write_end (length cs) q rest)

-- What a blocked writer goes on with, for the number of all bytes and those that are left.
pub resume_write : ℕ → ℕ → List ℕ → Pipe → Pipe × Outcome
unfolding write_resumed write_end
resume_write cur total cs p = let (q, rest) = write_resumed cur cs p in write_end total q rest

-- `pipeRead` from its loop on, also for a reader that is resumed.
pub finish_read : Bool → Pipe → Pipe × Outcome
unfolding read_all read_one release_waiting
finish_read one p =
    if one
    then (let (q, c) = read_one p in let (r, woken) = release_waiting q in (r, got_one c woken))
    else (let ((r, woken), cs) = read_all p in (r, got cs woken))

-- `pipeRead` by what stands before its loop.
pub read_by : ℕ → Bool → Pipe → ReadStart → Pipe × Outcome
unfolding finish_read
read_by cur one p not_readable = (p, refused)
read_by cur one p at_end = (p, nothing)
read_by cur one p blocks = (record p { waiting_process = some cur }, read_blocks)
read_by cur one p goes_on = finish_read one p

pub pipe_read : ℕ → FdPipe → Bool → Pipe → Pipe × Outcome
unfolding read_start read_by
pipe_read cur d one p = read_by cur one p (read_start d p)
