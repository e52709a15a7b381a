-- ===== src/Text/Tests.antt =====
-- Numbers and arguments as text.
use bit_shell_os.Base.{◌≡◌, some, arith}
use bit_shell_os.Text.{uint_to_base, atoi}
use bit_shell_os.Text.Decimal.{atoi-uint_to_base}

atoi-uint_to_base_example : atoi (uint_to_base 1024 10) ≡ some 1024
atoi-uint_to_base_example = atoi-uint_to_base 1024 (omega arith)
