-- ===== src/PipeTable/Named.antt =====
-- `openPipeId` of Kernel/utils/pipes.c: two processes that meet at a pipe by its number, as p2 and p3
-- of Userland/SampleCodeModule/apps.c do.
use bit_shell_os.Base.{ℕ, ◌≡◌, true, false, none, some, List, [], ◌∷◌, length}
use bit_shell_os.Pipes.{Pipe, pipe_write, pipe_read, wrote, got}
use bit_shell_os.PipeTable.{Pipes, open_pipe_id, created, joined, close_fd_pipe}
use bit_shell_os.PipeTable.Joining.{with_pipe_at}

-- The calls of a reader and a writer that meet, with what each returns: the reader makes the pipe, the
-- writer joins it, writes and closes, and the reader reads and closes.
abbrev pub Meets : Pipes → (r w a id reader writer : ℕ) → List ℕ → Type 0
Meets t r w a id reader writer cs =
    (t₁ t₂ t₃ t₄ : Pipes) × (p q : Pipe) × (open_pipe_id t r id true (some a) ≡ some (t₁, created))
    × (open_pipe_id t₁ w id false none ≡ some (t₂, joined))
    × (pipe_write writer (t₂.fds w) cs (t₂.store a)
        ≡ (p, wrote (length cs) (t.store a).waiting_process))
    × (close_fd_pipe (with_pipe_at t₂ a p) (some w) ≡ (t₃, record { woken = none; freed = w ∷ [] }))
    × (pipe_read reader (t₃.fds r) false (t₃.store a) ≡ (q, got cs none))
    × (close_fd_pipe (with_pipe_at t₃ a q) (some r)
        ≡ (t₄, record { woken = none; freed = a ∷ r ∷ [] }))
    × (t₄.table ≡ t.table)
