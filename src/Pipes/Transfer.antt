-- ===== src/Pipes/Transfer.antt =====
-- Whole writes and reads of Kernel/utils/pipes.c.
use bit_shell_os.Base.{
  ℕ, zero, suc, ◌+◌, ◌≤◌, ◌≡◌, ◌≢◌, refl, sym, ap, subst, ◌∙◌, some, List, [], ◌∷◌, ◌++◌, ◌==◌,
  length, length-append, length-set, arith, Bool-cases, inl, inr, ◌⊎◌, ==→ne, ==→eq,
}
use mathlib.Core.List.{append-nil, append_assoc}
use bit_shell_os.Pipes.{Pipe, pipe_size, put_byte, take_byte, write_loop, write_resumed, drain}
use bit_shell_os.Pipes.Ring.{
  IsValid, segment, first_place, unread, put_byte_lem, take_byte_lem, length-segment,
}

-- How the loop of a write ends: all is written, or the pipe is full, bytes are left and the writer
-- has left its pid.
abbrev pub Written : ℕ → List ℕ → Pipe → Pipe × List ℕ → Type 0
Written cur cs p (q, rest) =
    IsValid q
    × ((done : List ℕ) × (cs ≡ done ++ rest) × (unread q ≡ unread p ++ done))
    × (((rest ≡ []) × (q.waiting_process ≡ p.waiting_process))
        ⊎ ((rest ≢ []) × (q.bytes_to_read ≡ pipe_size) × (q.waiting_process ≡ some cur)))

put_byte_ends :
    (cur c : ℕ) (p : Pipe) (r : Pipe × List ℕ)
    → (((r.1 ≡ []) × (r.0.waiting_process ≡ (put_byte c p).waiting_process))
        ⊎ ((r.1 ≢ []) × (r.0.bytes_to_read ≡ pipe_size) × (r.0.waiting_process ≡ some cur)))
    → (((r.1 ≡ []) × (r.0.waiting_process ≡ p.waiting_process))
        ⊎ ((r.1 ≢ []) × (r.0.bytes_to_read ≡ pipe_size) × (r.0.waiting_process ≡ some cur)))
unfolding put_byte
put_byte_ends cur c p r h = h

pub length-unread : (p : Pipe) → length (unread p) ≡ p.bytes_to_read
length-unread p = length-segment p.content (first_place p) p.bytes_to_read

no_rest : (cs done rest : List ℕ) → cs ≡ done ++ rest → length cs ≤ length done → rest ≡ []
no_rest cs done [] e h = refl
no_rest cs done (x ∷ rest) e h = absurd (omega (arith, ap length e, length-append done (x ∷ rest)))

take_byte-left : (n : ℕ) (p : Pipe) → p.bytes_to_read ≡ suc n → (take_byte p).0.bytes_to_read ≡ n
unfolding take_byte
take_byte-left n p e = omega arith

take_byte-waiting : (p : Pipe) → (take_byte p).0.waiting_process ≡ p.waiting_process
unfolding take_byte
take_byte-waiting p = refl

-- A write to a valid pipe puts the bytes behind the unread ones, in order, as many as fit: either
-- all, or up to a full pipe, with the rest kept and the writer waiting.
pub write_loop_lem :
    (cur : ℕ) (cs : List ℕ) (p : Pipe) → IsValid p → Written cur cs p (write_loop cur cs p)
unfolding write_loop
write_loop_lem cur [] p v = (v, ([], refl, sym (append-nil (unread p))), inl (refl, refl))
write_loop_lem cur (c ∷ cs) p v = elim (Bool-cases (p.bytes_to_read == pipe_size)) [
  | inl full ↦
      rw (full, write_loop)
        (
          record {
            places = v.places;
            read_in = v.read_in;
            write_in = v.write_in;
            amount = v.amount;
            meets = v.meets;
          },
          ([], refl, sym (append-nil (unread p))),
          inr ((λ e. cc), ==→eq p.bytes_to_read pipe_size full, refl),
        )
  | inr room ↦
      let (v', u) =
        put_byte_lem c p v (omega (arith, v.amount, ==→ne p.bytes_to_read pipe_size room)) in
      let (w, (done, parts, unread'), ends) = write_loop_lem cur cs (put_byte c p) v' in
      let step : write_loop cur (c ∷ cs) p ≡ write_loop cur cs (put_byte c p) = rw room in
      subst (Written cur (c ∷ cs) p) (sym step) (
        w,
        (
          c ∷ done,
          ap (λ l. c ∷ l) parts,
          unread' ∙ ap (λ l. l ++ done) u ∙ append_assoc (unread p) (c ∷ []) done,
        ),
        put_byte_ends cur c p (write_loop cur cs (put_byte c p)) ends,
      )
]

-- A write that fits is a write of all.
pub write_loop_all :
    (cur : ℕ) (cs : List ℕ) (p : Pipe)
    → IsValid p
    → p.bytes_to_read + length cs ≤ pipe_size
    → ((write_loop cur cs p).1 ≡ [])
      × (unread (write_loop cur cs p).0 ≡ unread p ++ cs)
      × ((write_loop cur cs p).0.waiting_process ≡ p.waiting_process)
write_loop_all cur cs p v fits =
    let (w, (done, parts, u), ends) = write_loop_lem cur cs p v in
    elim ends [
      | inl (e, same) ↦ (
        e,
        u
            ∙ ap (λ l. unread p ++ l)
                (sym (append-nil done) ∙ ap (λ l. done ++ l) (sym e) ∙ sym parts),
        same,
      )
      | inr (ne, full, left) ↦ absurd (
          ne (
            no_rest cs done (write_loop cur cs p).1 parts (
              omega (
                arith,
                ap length u,
                length-append (unread p) done,
                length-unread p,
                length-unread (write_loop cur cs p).0,
                full,
                fits,
              ))))
    ]

-- The loop of a read takes all unread bytes, in order, and leaves a valid empty pipe.
pub drain_lem :
    (n : ℕ) (p : Pipe)
    → IsValid p
    → p.bytes_to_read ≡ n
    → let (q, cs) = drain n p in
      IsValid q × (q.bytes_to_read ≡ 0) × (cs ≡ unread p) × (q.waiting_process ≡ p.waiting_process)
unfolding drain
drain_lem zero p v e = (v, e, ap (segment p.content (first_place p)) (sym e), refl)
drain_lem (suc n) p v e =
    let (v', u) = take_byte_lem p v (omega arith) in
    let (v'', empty, all, same) = drain_lem n (take_byte p).0 v' (take_byte-left n p e) in
    (v'', empty, ap (λ l. (take_byte p).1 ∷ l) all ∙ sym u, same ∙ take_byte-waiting p)

-- A writer that is resumed with one byte left on a valid pipe that is still full, as when its reader
-- closes, writes it: the pipe then counts one byte more than it has places, and is not valid.
pub write_resumed_overfills :
    (cur c : ℕ) (p : Pipe)
    → IsValid p
    → p.bytes_to_read ≡ pipe_size
    → let q = (write_resumed cur (c ∷ []) p).0 in
      (q.bytes_to_read ≡ pipe_size + 1) × (length q.content ≡ pipe_size) × ¬ IsValid q
unfolding write_resumed write_loop put_byte
write_resumed_overfills cur c p v full =
    (omega arith, length-set p.content p.write_pos c ∙ v.places, λ w. omega (arith, w.amount))
