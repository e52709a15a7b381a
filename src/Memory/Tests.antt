-- ===== src/Memory/Tests.antt =====
-- Copies at concrete inputs.
use bit_shell_os.Base.{ℕ, ◌≡◌, arith}
use bit_shell_os.Memory.{memcpy, copy_bytes}
use bit_shell_os.Memory.Copy.{IsBytes, memcpy-copy_bytes}

abbrev sevens : ℕ → ℕ
sevens a = 7

sevens-IsBytes : IsBytes sevens
sevens-IsBytes a = omega arith

memcpy-copy_bytes_example : memcpy 96 32 19 sevens ≡ copy_bytes 19 96 32 sevens
memcpy-copy_bytes_example = memcpy-copy_bytes 96 32 19 sevens sevens-IsBytes
