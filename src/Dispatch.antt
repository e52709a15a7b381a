-- ===== src/Dispatch.antt =====
-- `syscallDispatcher` of Kernel/interruptions/syscallDispatcher.c: which function a system call
-- number stands for, and how the six 64-bit argument registers become its arguments. The functions
-- themselves are those of the other modules.
mod Tests
use bit_shell_os.Base.{ℕ, ◌%◌, ◌^◌, ◌==◌, Option, none, some, List, [], ◌∷◌, if◌then◌else◌}

pub record Registers : Type 0 where
  pub arg0 : ℕ
  pub arg1 : ℕ
  pub arg2 : ℕ
  pub arg3 : ℕ
  pub arg4 : ℕ
  pub arg5 : ℕ

-- The function that is called, with its arguments; pointers and numbers are numbers.
pub data Call : Type 0 where
  read : ℕ → ℕ → Call
  write : ℕ → ℕ → Call
  inforeg : ℕ → Call
  printmem : ℕ → Call
  get_date_time : ℕ → Call
  clear_screen : Call
  alloc : ℕ → Call
  free : ℕ → Call
  mem_status : ℕ → Call
  create_process_wrapper : ℕ → ℕ → ℕ → ℕ → ℕ → ℕ → Call
  exit : Call
  print_process : Call
  kill_process : ℕ → Call
  change_priority : ℕ → ℕ → Call
  change_state : ℕ → Call
  sem_open : ℕ → ℕ → Call
  sem_close : ℕ → Call
  sem_wait : ℕ → Call
  sem_post : ℕ → Call
  print_semaphores : Call
  create_pipe : ℕ → ℕ → Call
  create_fd_pipe : Call
  close_fd_pipe : ℕ → Call
  pipe_write : ℕ → ℕ → Call
  pipe_read : ℕ → ℕ → ℕ → Call
  open_pipe_id : ℕ → ℕ → ℕ → Call
  print_pipes : Call
  run_scheduler : Call
  get_current_pid : Call
  sleep : ℕ → Call

-- `loadSysNum`: the number is an int.
pub load_sys_num : ℕ → ℕ
load_sys_num rax = rax % 2 ^ 32

-- The cases of the `switch`, in order.
pub cases : Registers → List (ℕ × Call)
cases r =
    (0, read r.arg0 (r.arg1 % 2 ^ 32))
    ∷ (1, write r.arg0 r.arg1)
    ∷ (10, inforeg r.arg0)
    ∷ (11, printmem r.arg0)
    ∷ (12, get_date_time r.arg0)
    ∷ (13, clear_screen)
    ∷ (14, alloc (r.arg0 % 2 ^ 32))
    ∷ (15, free r.arg0)
    ∷ (16, mem_status r.arg0)
    ∷ (17, create_process_wrapper r.arg0 (r.arg1 % 256) (r.arg2 % 2 ^ 32) r.arg3 r.arg4 r.arg5)
    ∷ (18, exit)
    ∷ (19, print_process)
    ∷ (20, kill_process (r.arg0 % 2 ^ 32))
    ∷ (21, change_priority (r.arg0 % 2 ^ 32) (r.arg1 % 256))
    ∷ (22, change_state (r.arg0 % 2 ^ 32))
    ∷ (23, sem_open (r.arg0 % 2 ^ 32) (r.arg1 % 2 ^ 32))
    ∷ (24, sem_close r.arg0)
    ∷ (25, sem_wait r.arg0)
    ∷ (26, sem_post r.arg0)
    ∷ (27, print_semaphores)
    ∷ (28, create_pipe r.arg0 r.arg1)
    ∷ (29, create_fd_pipe)
    ∷ (30, close_fd_pipe r.arg0)
    ∷ (31, pipe_write r.arg0 r.arg1)
    ∷ (32, pipe_read r.arg0 r.arg2 0)
    ∷ (33, open_pipe_id r.arg0 (r.arg1 % 2 ^ 32) (r.arg2 % 256))
    ∷ (34, print_pipes)
    ∷ (35, run_scheduler)
    ∷ (36, get_current_pid)
    ∷ (37, sleep (r.arg0 % 2 ^ 32))
    ∷ []

-- The case of a number; `none` is the default, which returns -1.
pub find_case : ℕ → List (ℕ × Call) → Option Call
find_case n [] = none
find_case n ((k, call) ∷ more) = if k == n then some call else find_case n more

pub syscall_dispatcher : ℕ → Registers → Option Call
unfolding cases find_case
syscall_dispatcher sys_num r = find_case sys_num (cases r)
