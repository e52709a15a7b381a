-- ===== src/PipeTable/Joining.antt =====
-- `openPipeId` of Kernel/utils/pipes.c for one pipe that a reader makes and a writer joins, and the
-- closes of its two ends.
use bit_shell_os.Base.{
  ℕ, ◌≡◌, ◌≢◌, ◌<◌, refl, sym, ap, subst, true, false, none, some, List, [], ◌∷◌, ◌++◌, length, All,
  eq→==, ne→==, leb, ◌==◌, arith, Bool-cases, inl, inr, ==→eq,
}
use bit_shell_os.Pipes.{Pipe, max_pipes, pipe_size}
use bit_shell_os.PipeTable.{
  Pipes, update, fresh_pipe, find_pipe, open_pipe_id, created, joined, join_pipe,
  delete_pipe_from_array, close_end, close_fd_pipe,
}
use bit_shell_os.Pipes.Ring.{IsValid}
use bit_shell_os.PipeTable.Ends.{reading, writing, no_reader, no_writer, nobody_waits}

-- No pipe of the table stands at an address or has an id.
abbrev pub IsAbsent : (ℕ → Pipe) → ℕ → ℕ → List ℕ → Type 0
IsAbsent store a id table = All (λ b. (a ≢ b) × ((store b).id ≢ id)) table

pub IsAbsent-keep :
    (s s' : ℕ → Pipe) (a id : ℕ) (table : List ℕ)
    → ((b : ℕ) → a ≢ b → (s' b).id ≡ (s b).id)
    → IsAbsent s a id table
    → IsAbsent s' a id table
IsAbsent-keep s s' a id [] same h = tt
IsAbsent-keep s s' a id (b ∷ bs) same h =
    ((h.0.0, subst (λ i. i ≢ id) (sym (same b h.0.0)) h.0.1), IsAbsent-keep s s' a id bs same h.1)

pub find_pipe-none :
    (s : ℕ → Pipe) (a id : ℕ) (table : List ℕ) → IsAbsent s a id table → find_pipe s id table ≡ none
unfolding find_pipe
find_pipe-none s a id [] h = refl
find_pipe-none s a id (b ∷ bs) h = rw (ne→== (s b).id id h.0.1) (find_pipe-none s a id bs h.1)

pub find_pipe-append :
    (s : ℕ → Pipe) (a id : ℕ) (table : List ℕ)
    → IsAbsent s a id table
    → (s a).id ≡ id
    → find_pipe s id (table ++ a ∷ []) ≡ some a
unfolding find_pipe
find_pipe-append s a id [] h mine = rw (eq→== (s a).id id mine) refl
find_pipe-append s a id (b ∷ bs) h mine =
    rw (ne→== (s b).id id h.0.1) (find_pipe-append s a id bs h.1 mine)

pub delete_pipe_from_array-absent :
    (s : ℕ → Pipe) (a id : ℕ) (table : List ℕ)
    → IsAbsent s a id table
    → (s a).id ≡ id
    → delete_pipe_from_array s id (table ++ a ∷ []) ≡ table
unfolding delete_pipe_from_array
delete_pipe_from_array-absent s a id [] h mine = rw (eq→== (s a).id id mine) refl
delete_pipe_from_array-absent s a id (b ∷ bs) h mine =
    rw (ne→== (s b).id id h.0.1)
      (ap (λ l. b ∷ l) (delete_pipe_from_array-absent s a id bs h.1 mine))

pub lt→leb : (a b : ℕ) → b < a → leb a b ≡ false
lt→leb a b h = ground arith

-- The pipe that a reader makes under a number that is free, and the table with it.
abbrev pub read_pipe : Pipes → ℕ → ℕ → Pipe
read_pipe t a id = fresh_pipe id 1 0 (t.store a)

abbrev pub with_reader : Pipes → ℕ → ℕ → ℕ → Pipes
with_reader t r a id = record t {
  table = t.table ++ a ∷ [];
  store = update t.store a (read_pipe t a id);
  fds = update t.fds r (reading a);
}

pub open_creates :
    (t : Pipes) (r a id : ℕ)
    → length t.table < max_pipes
    → id < max_pipes
    → IsAbsent t.store a id t.table
    → open_pipe_id t r id true (some a) ≡ some (with_reader t r a id, created)
unfolding open_pipe_id
open_creates t r a id room small absent =
    rw
      (
        lt→leb max_pipes id small,
        find_pipe-none t.store a id t.table absent,
        ne→== (length t.table) pipe_size (λ e. omega arith),
        lt→leb max_pipes (length t.table) room,
      )
      refl

pub open_joins :
    (t : Pipes) (w a id : ℕ)
    → id < max_pipes
    → find_pipe t.store id t.table ≡ some a
    → (t.store a).write_open ≡ 0
    → open_pipe_id t w id false none ≡ some (join_pipe t w false a, joined)
unfolding open_pipe_id
open_joins t w a id small found free = rw (lt→leb max_pipes id small, found, free) refl

-- A pipe changed in its place.
abbrev pub with_pipe_at : Pipes → ℕ → Pipe → Pipes
with_pipe_at t a p = record t { store = update t.store a p }

-- What matters of a pipe behind the close of its writer.
abbrev pub as_left : Pipe → Pipe
as_left p = nobody_waits (no_writer p)

-- A writer that joins sets a flag of the pipe that its descriptor pointed to before; the new pipe is
-- the same but for that flag, and no id changes.
pub join_store :
    (t : Pipes) (w a b : ℕ) → (no_writer ((join_pipe t w false a).store b) ≡ no_writer (t.store b))
unfolding join_pipe
join_store t w a b = elim (Bool-cases ((t.fds w).pipe == b)) [
  | inl it ↦ rw it (ap (λ x. no_writer (t.store x)) (==→eq (t.fds w).pipe b it))
  | inr other ↦ rw other refl
]

pub close_writer :
    (t : Pipes) (f a : ℕ)
    → t.fds f ≡ writing a
    → (t.store a).read_open ≡ 1
    → close_fd_pipe t (some f) ≡ (
      record t { store = update t.store a (as_left (t.store a)) },
      record { woken = (t.store a).waiting_process; freed = f ∷ [] },
    )
unfolding close_fd_pipe close_end
close_writer t f a here other = rw (here, other) refl

pub close_last_reader :
    (t : Pipes) (f a : ℕ)
    → t.fds f ≡ reading a
    → (t.store a).write_open ≡ 0
    → let store = update t.store a (no_reader (t.store a)) in
      close_fd_pipe t (some f) ≡ (
        record t { table = delete_pipe_from_array store (t.store a).id t.table; store = store },
        record { woken = none; freed = a ∷ f ∷ [] },
      )
unfolding close_fd_pipe close_end
close_last_reader t f a here shut = rw (here, shut) refl

-- A pipe is the same for what follows but for its write flag.
module _ (p q : Pipe) (e : no_writer p ≡ no_writer q) where
  pub alike-IsValid : IsValid q → IsValid p
  alike-IsValid v = bare (
      subst IsValid (sym e) (record {
        places = v.places;
        read_in = v.read_in;
        write_in = v.write_in;
        amount = v.amount;
        meets = v.meets;
      }))
    where
      bare : IsValid (no_writer p) → IsValid p
      bare v = record {
        places = v.places;
        read_in = v.read_in;
        write_in = v.write_in;
        amount = v.amount;
        meets = v.meets;
      }

pub read_pipe-IsValid :
    (t : Pipes) (a id : ℕ) → length (t.store a).content ≡ pipe_size → IsValid (read_pipe t a id)
unfolding fresh_pipe
read_pipe-IsValid t a id places = record {
  places = places;
  read_in = omega arith;
  write_in = omega arith;
  amount = omega arith;
  meets = refl;
}
