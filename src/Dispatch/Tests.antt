-- ===== src/Dispatch/Tests.antt =====
-- System calls at concrete registers.
use bit_shell_os.Base.{◌+◌, ◌-◌, ◌^◌, ◌≡◌, refl, none, some}
use bit_shell_os.Dispatch.{Registers, Call, cases, find_case, syscall_dispatcher}
use bit_shell_os.Dispatch

-- A program that asks for 6 as a priority, in a register whose upper part is not 0.
abbrev registers : Registers
registers = record {
  arg0 = 2 ^ 32 + 7;
  arg1 = 1030;
  arg2 = 2 ^ 64 - 1;
  arg3 = 0;
  arg4 = 0;
  arg5 = 0;
}

change_priority_call : syscall_dispatcher 21 registers ≡ some (Dispatch.change_priority 7 6)
unfolding syscall_dispatcher cases find_case
change_priority_call = refl

no_call : syscall_dispatcher 9 registers ≡ none
unfolding syscall_dispatcher cases find_case
no_call = refl
