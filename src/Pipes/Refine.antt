-- ===== src/Pipes/Refine.antt =====
-- No sequence of calls tells a valid open pipe of Kernel/utils/pipes.c from the channel that it stands
-- for.
use bit_shell_os.Base.{
  ℕ, zero, suc, ◌≡◌, ◌≢◌, refl, sym, ap, ap₂, subst, ◌∙◌, inl, inr, Bool, true, false, Option, none,
  some, List, [], ◌∷◌, ◌==◌, if◌then◌else◌, length, Bool-cases, ==→eq, ==→ne, ne→==,
}
use bit_shell_os.Pipes.{
  Pipe, FdPipe, write_loop, take_byte, drain, Outcome, read_blocks, got, write_refused, write_end,
  pipe_write, finish_read, read_one, read_all, release_waiting, read_start, pipe_read, ReadStart,
  blocks, read_by,
}
use bit_shell_os.Pipes.Ring.{IsValid, unread, segment, first_place, take_byte_lem}
use bit_shell_os.Pipes.Transfer.{write_loop_lem, drain_lem, length-unread}
use bit_shell_os.Pipes.Channel
use bit_shell_os.Pipes.Channel.{
  Channel, view, view_result, IsOpen, pipe_write_refines, write_loop-IsOpen, take_one,
}

unread_empty : (p : Pipe) → p.bytes_to_read ≡ 0 → unread p ≡ []
unread_empty p e = ap (segment p.content (first_place p)) e

waiting-IsValid : (p : Pipe) (w : Option ℕ) → IsValid p → IsValid (record p { waiting_process = w })
waiting-IsValid p w v = record {
  places = v.places;
  read_in = v.read_in;
  write_in = v.write_in;
  amount = v.amount;
  meets = v.meets;
}

drain-IsOpen : (n : ℕ) (p : Pipe) → IsOpen p → IsOpen (drain n p).0
unfolding drain take_byte
drain-IsOpen zero p h = h
drain-IsOpen (suc n) p h = drain-IsOpen n (take_byte p).0 h

read_one_refines :
    (p : Pipe) → IsValid p → view_result (finish_read true p) ≡ Channel.finish true (view p)
unfolding finish_read read_one release_waiting Channel.finish take_one
read_one_refines p v = elim (Bool-cases (p.bytes_to_read == 0)) [
  | inl empty ↦ rw (empty, unread_empty p (==→eq p.bytes_to_read 0 empty)) refl
  | inr some_left ↦
      let (w, u) = take_byte_lem p v (==→ne p.bytes_to_read 0 some_left) in
      rw some_left (sym (ap (λ l. take_one l p.waiting_process) u))
]

read_all_refines :
    (p : Pipe) → IsValid p → view_result (finish_read false p) ≡ Channel.finish false (view p)
unfolding finish_read read_all release_waiting Channel.finish
read_all_refines p v =
    let (w, empty, all, same) = drain_lem p.bytes_to_read p v refl in
    let q = (drain p.bytes_to_read p).0 in
    ap₂ (λ l o. (let ch : Channel = record { queue = l; waiting = none } in ch, o))
      (unread_empty q empty) (ap₂ got all same)

finish_read_refines :
    (one : Bool) (p : Pipe)
    → IsValid p
    → view_result (finish_read one p) ≡ Channel.finish one (view p)
finish_read_refines true p v = read_one_refines p v
finish_read_refines false p v = read_all_refines p v

finish_read-IsValid :
    (one : Bool) (p : Pipe)
    → IsValid p
    → IsOpen p
    → IsValid (finish_read one p).0 × IsOpen (finish_read one p).0
unfolding finish_read read_one read_all release_waiting take_byte
finish_read-IsValid true p v h = elim (Bool-cases (p.bytes_to_read == 0)) [
  | inl empty ↦ rw empty (waiting-IsValid p none v, h)
  | inr some_left ↦
      let w = (take_byte_lem p v (==→ne p.bytes_to_read 0 some_left)).0 in
      rw some_left (waiting-IsValid (take_byte p).0 none w, h)
]
finish_read-IsValid false p v h = (
  waiting-IsValid (drain p.bytes_to_read p).0 none (drain_lem p.bytes_to_read p v refl).0,
  drain-IsOpen p.bytes_to_read p h,
)

read_goes_on :
    (d : FdPipe) (p : Pipe)
    → d.readable ≢ 0
    → p.write_open ≢ 0
    → (cur : ℕ) (one : Bool)
    → pipe_read cur d one p ≡ (
        if p.bytes_to_read == 0
        then (record p { waiting_process = some cur }, read_blocks)
        else finish_read one p)
unfolding pipe_read read_start read_by
read_goes_on d p able writes cur one = elim (Bool-cases (p.bytes_to_read == 0)) [
  | inl empty ↦
      let start : read_start d p ≡ blocks =
        rw (ne→== d.readable 0 able, empty, ne→== p.write_open 0 writes) refl in
      ap (read_by cur one p) start ∙ rw empty refl
  | inr some_left ↦
      let start : read_start d p ≡ ReadStart.goes_on =
        rw (ne→== d.readable 0 able, some_left) refl in
      ap (read_by cur one p) start ∙ rw some_left refl
]

pipe_read_refines :
    (cur : ℕ) (d : FdPipe) (one : Bool) (p : Pipe)
    → IsValid p
    → IsOpen p
    → d.readable ≢ 0
    → view_result (pipe_read cur d one p) ≡ Channel.read cur one (view p)
unfolding Channel.read
pipe_read_refines cur d one p v h able =
    ap view_result (read_goes_on d p able h.1 cur one) ∙ elim (Bool-cases (p.bytes_to_read == 0)) [
      | inl empty ↦ rw (length-unread p, empty) refl
      | inr some_left ↦ rw (length-unread p, some_left) (finish_read_refines one p v)
    ]

pipe_read-IsValid :
    (cur : ℕ) (d : FdPipe) (one : Bool) (p : Pipe)
    → IsValid p
    → IsOpen p
    → d.readable ≢ 0
    → IsValid (pipe_read cur d one p).0 × IsOpen (pipe_read cur d one p).0
pipe_read-IsValid cur d one p v h able =
    subst (λ r. IsValid r.0 × IsOpen r.0) (sym (read_goes_on d p able h.1 cur one))
      (elim (Bool-cases (p.bytes_to_read == 0)) [
        | inl empty ↦ rw empty (waiting-IsValid p (some cur) v, h)
        | inr some_left ↦ rw some_left (finish_read-IsValid one p v h)
      ])

write_end-IsValid :
    (n : ℕ) (q : Pipe) (rest : List ℕ)
    → IsValid q
    → IsOpen q
    → IsValid (write_end n q rest).0 × IsOpen (write_end n q rest).0
unfolding write_end release_waiting
write_end-IsValid n q [] v h = (waiting-IsValid q none v, h)
write_end-IsValid n q (c ∷ cs) v h = (v, h)

pipe_write-IsValid :
    (cur : ℕ) (d : FdPipe) (cs : List ℕ) (p : Pipe)
    → IsValid p
    → IsOpen p
    → IsValid (pipe_write cur d cs p).0 × IsOpen (pipe_write cur d cs p).0
unfolding pipe_write
pipe_write-IsValid cur d cs p v h = elim (Bool-cases (write_refused d p)) [
  | inl no_way ↦ rw no_way (v, h)
  | inr go ↦ rw go (
      write_end-IsValid (length cs) (write_loop cur cs p).0 (write_loop cur cs p).1
        (write_loop_lem cur cs p v).0 (write_loop-IsOpen cur cs p h))
]

-- Calls on one pipe, each by the process with a pid: a write, a read of one or of all bytes, and a
-- blocked reader that goes on.
pub data Call : Type 0 where
  write : ℕ → List ℕ → Call
  read : ℕ → Bool → Call
  resume_read : Bool → Call

-- The outcomes of the calls, through a writing and a reading descriptor.
pub run : FdPipe → FdPipe → List Call → Pipe → List Outcome
run dw dr [] p = []
run dw dr (write cur cs ∷ calls) p = let (q, o) = pipe_write cur dw cs p in o ∷ run dw dr calls q
run dw dr (read cur one ∷ calls) p = let (q, o) = pipe_read cur dr one p in o ∷ run dw dr calls q
run dw dr (resume_read one ∷ calls) p = let (q, o) = finish_read one p in o ∷ run dw dr calls q

pub run_channel : List Call → Channel → List Outcome
run_channel [] ch = []
run_channel (write cur cs ∷ calls) ch =
    let (ch', o) = Channel.write cur cs ch in o ∷ run_channel calls ch'
run_channel (read cur one ∷ calls) ch =
    let (ch', o) = Channel.read cur one ch in o ∷ run_channel calls ch'
run_channel (resume_read one ∷ calls) ch =
    let (ch', o) = Channel.finish one ch in o ∷ run_channel calls ch'

abbrev goes_on : List Call → Channel × Outcome → List Outcome
goes_on calls (ch, o) = o ∷ run_channel calls ch

-- On a valid pipe with both ends open, through a descriptor that can write and one that can read,
-- every sequence of writes, reads and resumed reads has the outcomes that the bounded queue of bytes
-- has: the numbers and the bytes that are returned, the processes that are woken, and the calls that
-- block.
pub run_refines :
    (dw dr : FdPipe) (calls : List Call) (p : Pipe)
    → IsValid p
    → IsOpen p
    → dw.writable ≢ 0
    → dr.readable ≢ 0
    → run dw dr calls p ≡ run_channel calls (view p)
unfolding run run_channel
run_refines dw dr [] p v h able readable = refl
run_refines dw dr (write cur cs ∷ calls) p v h able readable =
    let (v', h') = pipe_write-IsValid cur dw cs p v h in
    ap (λ l. (pipe_write cur dw cs p).1 ∷ l)
      (run_refines dw dr calls (pipe_write cur dw cs p).0 v' h' able readable)
    ∙ ap (goes_on calls) (pipe_write_refines cur dw cs p v h able)
run_refines dw dr (read cur one ∷ calls) p v h able readable =
    let (v', h') = pipe_read-IsValid cur dr one p v h readable in
    ap (λ l. (pipe_read cur dr one p).1 ∷ l)
      (run_refines dw dr calls (pipe_read cur dr one p).0 v' h' able readable)
    ∙ ap (goes_on calls) (pipe_read_refines cur dr one p v h readable)
run_refines dw dr (resume_read one ∷ calls) p v h able readable =
    let (v', h') = finish_read-IsValid one p v h in
    ap (λ l. (finish_read one p).1 ∷ l)
      (run_refines dw dr calls (finish_read one p).0 v' h' able readable)
    ∙ ap (goes_on calls) (finish_read_refines one p v)
