-- ===== src/PipeTable/Tests.antt =====
-- A table with one pipe, and a second one.
use bit_shell_os.Base.{◌≡◌, List, ℕ, none, some, [], ◌∷◌, true, arith, replicate}
use bit_shell_os.Pipes.{Pipe}
use bit_shell_os.PipeTable.{Pipes, create_pipe, close_fd_pipe}
use bit_shell_os.PipeTable.Ends.{close_fd_pipe-create_pipe}

abbrev old_pipe : Pipe
old_pipe = record {
  id = 20;
  content = replicate 512 0;
  read_pos = 0;
  write_pos = 0;
  read_open = 1;
  write_open = 1;
  bytes_to_read = 0;
  waiting_process = none;
}

abbrev one_pipe : Pipes
one_pipe = record {
  table = 900 ∷ [];
  store = λ a. old_pipe;
  fds = λ a. record { readable = 0; writable = 0; pipe = 0 };
  pipe_ids = 1;
}

close_fd_pipe-create_pipe_example :
    (t' : Pipes) × (create_pipe one_pipe 50 60 (some 800) ≡ some (t', true))
    × (let (t₁, first) = close_fd_pipe t' (some 50) in
        let (t₂, last) = close_fd_pipe t₁ (some 60) in
        (t₂.table ≡ 900 ∷ [])
        × (first ≡ record { woken = none; freed = 50 ∷ [] })
        × (last ≡ record { woken = none; freed = 800 ∷ 60 ∷ [] }))
close_fd_pipe-create_pipe_example =
    close_fd_pipe-create_pipe one_pipe 50 60 800 (omega arith) (omega arith)
      ((omega arith, omega arith), tt)

-- The text that p2 of Userland/SampleCodeModule/apps.c leaves for p3.
abbrev p2_text : List ℕ
p2_text = b'S' ∷ b'o' ∷ b'y' ∷ b' ' ∷ b'p' ∷ b'2' ∷ b'!' ∷ []
