-- ===== src/PipeTable.antt =====
-- Kernel/utils/pipes.c: the table of pipes, and the descriptors of their two ends.
--
-- A pipe and a descriptor are known by their addresses; `store` and `fds` are what stands there, also
-- before it is set. A process pointer is a pid. `none` is a fault.
pub mod Ends
pub mod Joining
pub mod Named
mod Tests
use bit_shell_os.Base.{
  ℕ, zero, suc, ◌+◌, ◌-◌, ◌%◌, ◌^◌, Bool, true, false, not, ◌&&◌, ◌||◌, Option, none, some, List,
  [], ◌∷◌, ◌++◌, ltb, leb, ◌==◌, if◌then◌else◌, get_or, set, length,
}
use bit_shell_os.Pipes.{Pipe, FdPipe, max_pipes, pipe_size}

pub record Pipes : Type 0 where
  pub table : List ℕ
  pub store : ℕ → Pipe
  pub fds : ℕ → FdPipe
  pub pipe_ids : ℕ

abbrev pub update : {A : Type 0} → (ℕ → A) → ℕ → A → ℕ → A
update f a v b = if a == b then v else f b

-- What `alloc` left in the new pipe's other fields stays.
pub fresh_pipe : ℕ → ℕ → ℕ → Pipe → Pipe
fresh_pipe id read_open write_open old = record old {
  id = id;
  read_pos = 0;
  write_pos = 0;
  read_open = read_open;
  write_open = write_open;
  bytes_to_read = 0;
}

-- `allocated` is what `alloc` returns if it is called. The flag is false for the result -1.
pub create_pipe : Pipes → ℕ → ℕ → Option ℕ → Option (Pipes × Bool)
unfolding fresh_pipe
create_pipe t f0 f1 allocated =
    if length t.table == max_pipes then some (t, false) else (elim allocated [
      | none ↦ none
      | some a ↦ some (
        record t {
          table = t.table ++ a ∷ [];
          store = update t.store a (record (fresh_pipe (max_pipes + t.pipe_ids) 1 1 (t.store a)) {
            waiting_process = none;
          });
          fds =
              update (update t.fds f0 (record { readable = 1; writable = 0; pipe = a })) f1
                (record { readable = 0; writable = 1; pipe = a });
          pipe_ids = (t.pipe_ids + 1) % 256;
        },
        true,
      )
    ])

-- The first pipe of the table with an id.
pub find_pipe : (ℕ → Pipe) → ℕ → List ℕ → Option ℕ
find_pipe store id [] = none
find_pipe store id (a ∷ more) = if (store a).id == id then some a else find_pipe store id more

pub data OpenResult : Type 0 where
  failed created joined : OpenResult

abbrev flag : Bool → ℕ
flag b = if b then 1 else 0

-- A reader or a writer joins a pipe: the flag is set through the pointer that the descriptor still
-- holds, and only then is the pointer replaced.
pub join_pipe : Pipes → ℕ → Bool → ℕ → Pipes
join_pipe t fd reader a =
    let old = (t.fds fd).pipe in
    let p = t.store old in
    record t {
      store =
          update t.store old
            (if reader then record p { read_open = 1 } else record p { write_open = 1 });
      fds =
          update t.fds fd
            (record { readable = flag reader; writable = flag (not reader); pipe = a });
    }

pub open_pipe_id : Pipes → ℕ → ℕ → Bool → Option ℕ → Option (Pipes × OpenResult)
unfolding find_pipe fresh_pipe join_pipe
open_pipe_id t fd id reader allocated =
    if leb max_pipes id
    then some (t, failed)
    else (let ends : FdPipe = record (t.fds fd) {
      readable = flag reader;
      writable = flag (not reader);
    } in
        let t' = record t { fds = update t.fds fd ends } in
        elim (find_pipe t.store id t.table) [
          | none ↦
              if length t.table == pipe_size
              then some (t', failed)
              else (if leb max_pipes (length t.table) then none else (elim allocated [
                | none ↦ none
                | some a ↦ some (
                  record t' {
                    table = t.table ++ a ∷ [];
                    store =
                        update t.store a
                          (fresh_pipe id (flag reader) (flag (not reader)) (t.store a));
                    fds = update t.fds fd (record ends { pipe = a });
                  },
                  created,
                )
              ]))
          | some a ↦
              let busy =
                reader && not ((t.store a).read_open == 0)
                || (not reader && not ((t.store a).write_open == 0)) in
              if busy then some (t', failed) else some (join_pipe t fd reader a, joined)
        ])

-- `deletePipeFromArray`: the first entry of that id goes, those behind it move up.
pub delete_pipe_from_array : (ℕ → Pipe) → ℕ → List ℕ → List ℕ
delete_pipe_from_array store id [] = []
delete_pipe_from_array store id (a ∷ more) =
    if (store a).id == id then more else a ∷ delete_pipe_from_array store id more

-- What a close does besides: the process that it wakes, and the memory that it frees.
pub record Closed : Type 0 where
  pub woken : Option ℕ
  pub freed : List ℕ

-- One end is closed: with the other end closed too the pipe goes, else whoever waits is woken.
pub close_end : Pipes → ℕ → Pipe → ℕ → Pipes × Closed
unfolding delete_pipe_from_array
close_end t a p other_open =
    let store = update t.store a p in
    if other_open == 0
    then (
      record t { table = delete_pipe_from_array store p.id t.table; store = store },
      record { woken = none; freed = a ∷ [] },
    )
    else (
      record t { store = update t.store a (record p { waiting_process = none }) },
      record { woken = p.waiting_process; freed = [] },
    )

pub close_fd_pipe : Pipes → Option ℕ → Pipes × Closed
unfolding close_end
close_fd_pipe t none = (t, record { woken = none; freed = [] })
close_fd_pipe t (some fd) =
    let d = t.fds fd in
    let p = t.store d.pipe in
    let (t', c) =
      (if not (d.readable == 0)
        then close_end t d.pipe (record p { read_open = 0 }) p.write_open
        else (if not (d.writable == 0)
            then close_end t d.pipe (record p { write_open = 0 }) p.read_open
            else (t, record { woken = none; freed = [] }))) in
    (t', record c { freed = c.freed ++ fd ∷ [] })

-- `deleteProcessFromPipes`. A pipe that nobody waits for has the null pointer there, and the pid is
-- read through it: `at_null` is the word that stands there.
pub forget_process : ℕ → ℕ → Pipe → Pipe
forget_process at_null pid p = elim p.waiting_process [
  | none ↦ if at_null == pid then record p { waiting_process = none } else p
  | some w ↦ if w == pid then record p { waiting_process = none } else p
]

pub delete_process_from_pipes : ℕ → ℕ → List ℕ → (ℕ → Pipe) → ℕ → Pipe
unfolding forget_process
delete_process_from_pipes at_null pid [] store = store
delete_process_from_pipes at_null pid (a ∷ more) store =
    delete_process_from_pipes at_null pid more
      (update store a (forget_process at_null pid (store a)))
