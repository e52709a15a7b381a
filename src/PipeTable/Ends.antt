-- ===== src/PipeTable/Ends.antt =====
-- `createPipe` and `closeFdPipe` of Kernel/utils/pipes.c: the life of a pipe from its creation to the
-- close of its last end.
use bit_shell_os.Base.{
  ℕ, ◌+◌, ◌%◌, ◌≡◌, ◌≢◌, refl, sym, ap, subst, ◌∙◌, true, none, some, List, [], ◌∷◌, ◌++◌, length,
  All, eq→==, ne→==,
}
use bit_shell_os.Pipes.{Pipe, FdPipe, max_pipes}
use bit_shell_os.PipeTable.{
  Pipes, update, fresh_pipe, create_pipe, delete_pipe_from_array, Closed, close_end, close_fd_pipe,
}

pub update_self : {A : Type 0} (f : ℕ → A) (a : ℕ) (v : A) → update f a v a ≡ v
update_self f a v = rw (eq→== a a refl)

pub update_ne : {A : Type 0} (f : ℕ → A) (a b : ℕ) (v : A) → a ≢ b → update f a v b ≡ f b
update_ne f a b v ne = rw (ne→== a b ne)

-- The entry behind all those of other ids goes.
delete_pipe_from_array-append :
    (old new : ℕ → Pipe) (a id : ℕ) (table : List ℕ)
    → All (λ b. (a ≢ b) × ((old b).id ≢ id)) table
    → ((b : ℕ) → a ≢ b → new b ≡ old b)
    → (new a).id ≡ id
    → delete_pipe_from_array new id (table ++ a ∷ []) ≡ table
unfolding delete_pipe_from_array
delete_pipe_from_array-append old new a id [] others keep mine = rw (eq→== (new a).id id mine) refl
delete_pipe_from_array-append old new a id (b ∷ bs) others keep mine =
    let ne : (new b).id ≢ id = subst (λ p. p.id ≢ id) (sym (keep b others.0.0)) others.0.1 in
    rw (ne→== (new b).id id ne)
      (ap (λ l. b ∷ l) (delete_pipe_from_array-append old new a id bs others.1 keep mine))

abbrev pub reading : ℕ → FdPipe
reading a = record { readable = 1; writable = 0; pipe = a }

abbrev pub writing : ℕ → FdPipe
writing a = record { readable = 0; writable = 1; pipe = a }

abbrev pub no_reader : Pipe → Pipe
no_reader p = record p { read_open = 0 }

abbrev pub no_writer : Pipe → Pipe
no_writer p = record p { write_open = 0 }

abbrev pub nobody_waits : Pipe → Pipe
nobody_waits p = record p { waiting_process = none }

-- The read end is closed while the write end is open.
close_reader :
    (t : Pipes) (f a : ℕ)
    → t.fds f ≡ reading a
    → (t.store a).write_open ≡ 1
    → close_fd_pipe t (some f) ≡ (
      record t { store = update t.store a (nobody_waits (no_reader (t.store a))) },
      record { woken = (t.store a).waiting_process; freed = f ∷ [] },
    )
unfolding close_fd_pipe close_end
close_reader t f a here other = rw (here, other) refl

-- The write end is closed behind the read end.
close_last_writer :
    (t : Pipes) (f a : ℕ)
    → t.fds f ≡ writing a
    → (t.store a).read_open ≡ 0
    → let store = update t.store a (no_writer (t.store a)) in
      close_fd_pipe t (some f) ≡ (
        record t { table = delete_pipe_from_array store (t.store a).id t.table; store = store },
        record { woken = none; freed = a ∷ f ∷ [] },
      )
unfolding close_fd_pipe close_end
close_last_writer t f a here shut = rw (here, shut) refl

-- The pipe that `createPipe` sets up, and the table behind it.
abbrev new_pipe : Pipes → ℕ → Pipe
unfolding fresh_pipe
new_pipe t a = record (fresh_pipe (max_pipes + t.pipe_ids) 1 1 (t.store a)) {
  waiting_process = none;
}

abbrev with_pipe : Pipes → ℕ → ℕ → ℕ → Pipes
with_pipe t f0 f1 a = record t {
  table = t.table ++ a ∷ [];
  store = update t.store a (new_pipe t a);
  fds = update (update t.fds f0 (reading a)) f1 (writing a);
  pipe_ids = (t.pipe_ids + 1) % 256;
}

create_pipe-with_pipe :
    (t : Pipes) (f0 f1 a : ℕ)
    → length t.table ≢ max_pipes
    → create_pipe t f0 f1 (some a) ≡ some (with_pipe t f0 f1 a, true)
unfolding create_pipe new_pipe
create_pipe-with_pipe t f0 f1 a room = rw (ne→== (length t.table) max_pipes room) refl

-- The whole life of a pipe: with room in the table, two different descriptors, and an address and an
-- id that no pipe of the table has, `createPipe` succeeds. Closing its read end then frees that
-- descriptor only; closing its write end behind that frees the pipe, once, and the other
-- descriptor, and leaves the table as it was before. Nobody is woken.
pub close_fd_pipe-create_pipe :
    (t : Pipes) (f0 f1 a : ℕ)
    → length t.table ≢ max_pipes
    → f1 ≢ f0
    → All (λ b. (a ≢ b) × ((t.store b).id ≢ max_pipes + t.pipe_ids)) t.table
    → (t' : Pipes) × (create_pipe t f0 f1 (some a) ≡ some (t', true))
      × (let (t₁, first) = close_fd_pipe t' (some f0) in
          let (t₂, last) = close_fd_pipe t₁ (some f1) in
          (t₂.table ≡ t.table)
          × (first ≡ record { woken = none; freed = f0 ∷ [] })
          × (last ≡ record { woken = none; freed = a ∷ f1 ∷ [] }))
unfolding new_pipe fresh_pipe
close_fd_pipe-create_pipe t f0 f1 a room apart others =
    let t' = with_pipe t f0 f1 a in
    let p = new_pipe t a in
    let mine : t'.store a ≡ p = update_self t.store a p in
    let e₁ =
      close_reader t' f0 a
        (update_ne (update t.fds f0 (reading a)) f1 f0 (writing a) apart
          ∙ update_self t.fds f0 (reading a))
        (ap (λ x. x.write_open) mine) in
    let q = nobody_waits (no_reader (t'.store a)) in
    let t₁ : Pipes = record t' { store = update t'.store a q } in
    let mine₁ : t₁.store a ≡ q = update_self t'.store a q in
    let e₂ =
      close_last_writer t₁ f1 a (update_self (update t.fds f0 (reading a)) f1 (writing a))
        (ap (λ x. x.read_open) mine₁) in
    let store = update t₁.store a (no_writer (t₁.store a)) in
    let id : (t₁.store a).id ≡ max_pipes + t.pipe_ids =
      ap (λ x. x.id) mine₁ ∙ ap (λ x. x.id) mine in
    let gone : delete_pipe_from_array store (t₁.store a).id (t.table ++ a ∷ []) ≡ t.table =
      ap (λ i. delete_pipe_from_array store i (t.table ++ a ∷ [])) id
      ∙ delete_pipe_from_array-append t.store store a (max_pipes + t.pipe_ids) t.table others
          (λ b ne.
            update_ne t₁.store a b (no_writer (t₁.store a)) ne
            ∙ update_ne t'.store a b q ne
            ∙ update_ne t.store a b p ne)
          (ap (λ x. x.id) (update_self t₁.store a (no_writer (t₁.store a))) ∙ id) in
    (
      t',
      create_pipe-with_pipe t f0 f1 a room,
      subst
          (λ x.
            (let (t₂, last) = close_fd_pipe x.0 (some f1) in
              (t₂.table ≡ t.table)
              × (x.1 ≡ record { woken = none; freed = f0 ∷ [] })
              × (last ≡ record { woken = none; freed = a ∷ f1 ∷ [] })))
          (sym e₁)
          (
            ap (λ x. x.0.table) e₂ ∙ gone,
            ap (λ w. (let c : Closed = record { woken = w; freed = f0 ∷ [] } in c))
                (ap (λ x. x.waiting_process) mine),
            ap (λ x. x.1) e₂,
          ),
    )
