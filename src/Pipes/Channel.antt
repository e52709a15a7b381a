-- ===== src/Pipes/Channel.antt =====
-- What a pipe of Kernel/utils/pipes.c promises, without its array and positions: a bounded queue of
-- bytes, and at most one process that waits at it.
use bit_shell_os.Base.{
  take-append, ℕ, ◌-◌, ◌≤◌, ◌<◌, ◌≡◌, ◌≢◌, refl, sym, ap, ap₂, ◌∙◌, ◌⊎◌, inl, inr, Bool, true,
  false, Option, none, some, List, [], ◌∷◌, ◌++◌, ◌&&◌, ◌||◌, leb, ◌==◌, if◌then◌else◌, length,
  take, drop, length-append, arith, Bool-cases, ne→==,
}
use mathlib.Core.List.{append-nil}
use bit_shell_os.Pipes.{
  Pipe, FdPipe, pipe_size, write_loop, put_byte, int_of_char, Outcome, wrote, write_blocks,
  read_blocks, got, got_one, write_refused, write_end, pipe_write,
}
use bit_shell_os.Pipes.Ring.{IsValid, unread}
use bit_shell_os.Pipes.Transfer.{write_loop_lem, length-unread}

pub record Channel : Type 0 where
  pub queue : List ℕ
  pub waiting : Option ℕ

-- As many bytes as there is room for join the queue; if some are left the writer waits.
unfoldable pub write : ℕ → List ℕ → Channel → Channel × Outcome
write cur cs ch =
    let room = pipe_size - length ch.queue in
    if leb (length cs) room
    then (record { queue = ch.queue ++ cs; waiting = none }, wrote (length cs) ch.waiting)
    else (
      record { queue = ch.queue ++ take room cs; waiting = some cur },
      write_blocks (drop room cs),
    )

-- A read of one byte, or of all bytes, by a process that does not wait for any.
unfoldable pub take_one : List ℕ → Option ℕ → Channel × Outcome
take_one [] waiting = (record { queue = []; waiting = none }, got_one 0 waiting)
take_one (c ∷ cs) waiting = (record { queue = cs; waiting = none }, got_one (int_of_char c) waiting)

unfoldable pub finish : Bool → Channel → Channel × Outcome
unfolding take_one
finish one ch =
    if one
    then take_one ch.queue ch.waiting
    else (record { queue = []; waiting = none }, got ch.queue ch.waiting)

unfoldable pub read : ℕ → Bool → Channel → Channel × Outcome
unfolding finish
read cur one ch =
    if length ch.queue == 0 then (record ch { waiting = some cur }, read_blocks) else finish one ch

-- The channel that a pipe stands for.
abbrev pub view : Pipe → Channel
view p = record { queue = unread p; waiting = p.waiting_process }

abbrev pub IsOpen : Pipe → Type 0
IsOpen p = (p.read_open ≢ 0) × (p.write_open ≢ 0)

drop-append : (xs ys : List ℕ) → drop (length xs) (xs ++ ys) ≡ ys
drop-append [] ys = refl
drop-append (x ∷ xs) ys = drop-append xs ys

pub write_loop-IsOpen :
    (cur : ℕ) (cs : List ℕ) (p : Pipe) → IsOpen p → IsOpen (write_loop cur cs p).0
unfolding write_loop put_byte
write_loop-IsOpen cur [] p h = h
write_loop-IsOpen cur (c ∷ cs) p h = elim (Bool-cases (p.bytes_to_read == pipe_size)) [
  | inl full ↦ rw full h
  | inr room ↦ rw room (write_loop-IsOpen cur cs (put_byte c p) h)
]

length_pos : (xs : List ℕ) → xs ≢ [] → 0 < length xs
length_pos [] ne = absurd (ne refl)
length_pos (x ∷ xs) ne = omega arith

-- The loop of a write against the room in the queue.
write_loop_fills :
    (cur : ℕ) (cs : List ℕ) (p : Pipe)
    → IsValid p
    → let room = pipe_size - length (unread p) in
      let (q, rest) = write_loop cur cs p in
      ((length cs ≤ room)
        × (rest ≡ [])
        × (unread q ≡ unread p ++ cs)
        × (q.waiting_process ≡ p.waiting_process))
      ⊎ ((room < length cs)
          × (rest ≢ [])
          × (rest ≡ drop room cs)
          × (unread q ≡ unread p ++ take room cs)
          × (q.waiting_process ≡ some cur))
write_loop_fills cur cs p v =
    let (w, (done, parts, u), ends) = write_loop_lem cur cs p v in
    let q = (write_loop cur cs p).0 in
    let n = length-unread p in
    let k = length-unread q in
    let l = length-append (unread p) done in
    elim ends [
      | inl (e, same) ↦
          let whole : cs ≡ done = parts ∙ ap (λ r. done ++ r) e ∙ append-nil done in
          inl (
            omega (arith, ap length whole, ap length u, l, k, w.amount),
            e,
            u ∙ ap (λ r. unread p ++ r) (sym whole),
            same,
          )
      | inr (ne, full, left) ↦
          let rest = (write_loop cur cs p).1 in
          let size : pipe_size - length (unread p) ≡ length done =
            omega (arith, ap length u, l, k, full) in
          inr (
            omega (arith, size, ap length parts, length-append done rest, length_pos rest ne),
            ne,
            sym (ap (λ m. drop m cs) size ∙ ap (drop (length done)) parts ∙ drop-append done rest),
            u
                ∙ ap (λ r. unread p ++ r)
                    (sym (
                      ap (λ m. take m cs) size
                      ∙ ap (take (length done)) parts
                      ∙ take-append done rest)),
            left,
          )
    ]

le→leb : (a b : ℕ) → a ≤ b → leb a b ≡ true
le→leb a b h = ground arith

lt→leb : (a b : ℕ) → b < a → leb a b ≡ false
lt→leb a b h = ground arith

write_end_all :
    (n : ℕ) (q : Pipe) (rest : List ℕ)
    → rest ≡ []
    → write_end n q rest ≡ (record q { waiting_process = none }, wrote n q.waiting_process)
unfolding write_end
write_end_all n q [] e = refl
write_end_all n q (c ∷ cs) e = absurd (omega (arith, ap length e))

write_end_some :
    (n : ℕ) (q : Pipe) (rest : List ℕ) → rest ≢ [] → write_end n q rest ≡ (q, write_blocks rest)
unfolding write_end
write_end_some n q [] ne = absurd (ne refl)
write_end_some n q (c ∷ cs) ne = refl

-- The pipe and the outcome of a call as the channel sees them.
abbrev pub view_result : Pipe × Outcome → Channel × Outcome
view_result (p, o) = (view p, o)

pub pipe_write_refines :
    (cur : ℕ) (d : FdPipe) (cs : List ℕ) (p : Pipe)
    → IsValid p
    → IsOpen p
    → d.writable ≢ 0
    → view_result (pipe_write cur d cs p) ≡ write cur cs (view p)
unfolding pipe_write write_refused write
pipe_write_refines cur d cs p v (reads, writes) able =
    let go : (d.writable == 0 || (p.read_open == 0 && p.bytes_to_read == pipe_size)) ≡ false =
      rw (ne→== d.writable 0 able, ne→== p.read_open 0 reads) refl in
    let q = (write_loop cur cs p).0 in
    let rest = (write_loop cur cs p).1 in
    rw go (elim (write_loop_fills cur cs p v) [
      | inl (fits, done, u, same) ↦ rw (le→leb (length cs) (pipe_size - length (unread p)) fits) (
          ap view_result (write_end_all (length cs) q rest done)
          ∙ ap₂
              (λ l w. (
                let ch : Channel = record { queue = l; waiting = none } in ch,
                wrote (length cs) w,
              ))
              u same)
      | inr (more, ne, left, u, mine) ↦
          rw (lt→leb (length cs) (pipe_size - length (unread p)) more) (
            ap view_result (write_end_some (length cs) q rest ne)
            ∙ ap₂
                (λ l w.
                  (let ch : Channel = record { queue = l; waiting = w } in ch, write_blocks rest))
                u mine
            ∙ ap
                (λ r. (
                  let ch : Channel = record {
                    queue = unread p ++ take (pipe_size - length (unread p)) cs;
                    waiting = some cur;
                  } in
                      ch,
                  write_blocks r,
                ))
                left)
    ])
