-- ===== src/Pipes/Tests.antt =====
-- Calls on an empty pipe.
use bit_shell_os.Base.{
  ℕ, ◌≡◌, refl, true, false, none, List, [], ◌∷◌, replicate, length-replicate, arith,
}
use bit_shell_os.Pipes.{Pipe, FdPipe}
use bit_shell_os.Pipes.Ring.{IsValid}
use bit_shell_os.Pipes.Channel.{view}
use bit_shell_os.Pipes.Refine.{Call, run, run_channel, run_refines}

-- Both places stand two before the end of the array.
abbrev empty_pipe : Pipe
empty_pipe = record {
  id = 20;
  content = replicate 512 0;
  read_pos = 510;
  write_pos = 510;
  read_open = 1;
  write_open = 1;
  bytes_to_read = 0;
  waiting_process = none;
}

empty_pipe-IsValid : IsValid empty_pipe
empty_pipe-IsValid = record {
  places = length-replicate {A = ℕ} 512 0;
  read_in = omega arith;
  write_in = omega arith;
  amount = omega arith;
  meets = refl;
}

abbrev writer : FdPipe
writer = record { readable = 0; writable = 1; pipe = 0 }

abbrev reader : FdPipe
reader = record { readable = 1; writable = 0; pipe = 0 }

-- A reader waits, is woken by a write, and goes on; then a single byte is read.
abbrev some_calls : List Call
some_calls =
    Call.read 3 false
    ∷ Call.write 4 (b'a' ∷ b'b' ∷ b'c' ∷ [])
    ∷ Call.resume_read true
    ∷ Call.read 3 false
    ∷ []

run_refines_example :
    run writer reader some_calls empty_pipe ≡ run_channel some_calls (view empty_pipe)
run_refines_example =
    run_refines writer reader some_calls empty_pipe empty_pipe-IsValid (omega arith, omega arith)
      (omega arith) (omega arith)
