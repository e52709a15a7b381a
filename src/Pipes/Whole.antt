-- ===== src/Pipes/Whole.antt =====
-- `pipeWrite` and `pipeRead` of Kernel/utils/pipes.c as whole calls on a pipe that is empty, or whose
-- writer is gone.
use bit_shell_os.Base.{
  ℕ, zero, suc, ◌≤◌, ◌≡◌, ◌≢◌, refl, ap, ◌∙◌, false, none, List, [], ◌∷◌, ◌++◌, ◌==◌, length, arith,
  Bool-cases, inl, inr, ne→==,
}
use bit_shell_os.Pipes.{
  Pipe, FdPipe, wrote, got, pipe_size, put_byte, take_byte, write_loop, drain, read_all,
  release_waiting, pipe_write, pipe_read, write_refused, write_end, read_start, read_by,
  finish_read,
}
use bit_shell_os.Pipes.Ring.{IsValid, unread, segment, first_place}
use bit_shell_os.Pipes.Transfer.{write_loop_all, write_loop_lem, drain_lem}

-- What a transfer leaves alone.
abbrev pub SamePipe : Pipe → Pipe → Type 0
SamePipe p q = (p.id ≡ q.id) × (p.read_open ≡ q.read_open) × (p.write_open ≡ q.write_open)

write_loop_same : (cur : ℕ) (cs : List ℕ) (p : Pipe) → SamePipe (write_loop cur cs p).0 p
unfolding write_loop put_byte
write_loop_same cur [] p = (refl, refl, refl)
write_loop_same cur (c ∷ cs) p = elim (Bool-cases (p.bytes_to_read == pipe_size)) [
  | inl full ↦ rw full (refl, refl, refl)
  | inr room ↦ rw room (write_loop_same cur cs (put_byte c p))
]

drain_same : (n : ℕ) (p : Pipe) → SamePipe (drain n p).0 p
unfolding drain take_byte
drain_same zero p = (refl, refl, refl)
drain_same (suc n) p = drain_same n (take_byte p).0

-- A write that fits into an empty pipe with its read end open.
pub pipe_write_all :
    (cur : ℕ) (d : FdPipe) (cs : List ℕ) (p : Pipe)
    → d.writable ≢ 0
    → IsValid p
    → p.bytes_to_read ≡ 0
    → p.read_open ≢ 0
    → length cs ≤ pipe_size
    → (q : Pipe) × (pipe_write cur d cs p
        ≡ (record q { waiting_process = none }, wrote (length cs) q.waiting_process))
      × IsValid q
      × (unread q ≡ cs)
      × SamePipe q p
      × (q.waiting_process ≡ p.waiting_process)
unfolding pipe_write write_refused write_end release_waiting
pipe_write_all cur d cs p able v empty reads fits =
    let (rest, u, same) = write_loop_all cur cs p v (omega arith) in
    (
      (write_loop cur cs p).0,
      rw (ne→== d.writable 0 able, ne→== p.read_open 0 reads, rest) refl,
      (write_loop_lem cur cs p v).0,
      u ∙ ap (λ n. segment p.content (first_place p) n ++ cs) empty,
      write_loop_same cur cs p,
      same,
    )

-- A read of all that stands in a pipe.
pub pipe_read_all :
    (cur : ℕ) (d : FdPipe) (p : Pipe)
    → d.readable ≢ 0
    → IsValid p
    → p.bytes_to_read ≢ 0
    → (q : Pipe) × (pipe_read cur d false p
        ≡ (record q { waiting_process = none }, got (unread p) p.waiting_process))
      × SamePipe q p
unfolding pipe_read read_start read_by finish_read read_all release_waiting
pipe_read_all cur d p able v some_bytes =
    let (w, done, all, kept) = drain_lem p.bytes_to_read p v refl in
    (
      (drain p.bytes_to_read p).0,
      rw (ne→== d.readable 0 able, ne→== p.bytes_to_read 0 some_bytes, all, kept) refl,
      drain_same p.bytes_to_read p,
    )
