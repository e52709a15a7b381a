-- ===== src/Reports/Lines.antt =====
-- The size of what printmem of Kernel/interruptions/syscalls.c prints.
use bit_shell_os.Base.{
  ℕ, zero, suc, ◌+◌, ◌*◌, ◌<◌, ◌≡◌, refl, [], ◌∷◌, leb, length, length-append, arith, Bool-cases,
  inl, inr,
}
use bit_shell_os.Memory.Copy.{IsBytes}
use bit_shell_os.Text.{uint_to_base}
use bit_shell_os.Text.Decimal.{length-uint_to_base}
use bit_shell_os.Reports.{print_hex, byte_text, bytes_text, print_mem}

length-byte_text : (b : ℕ) → b < 256 → length (byte_text b) ≡ 3
unfolding byte_text print_hex
length-byte_text b small =
    let digits = length-uint_to_base b small in
    let end = length-append (uint_to_base b 16) (b' ' ∷ []) in
    elim (Bool-cases (leb b 15)) [
      | inl low ↦ rw low (omega (arith, end, (rw low at digits)))
      | inr high ↦ rw high (omega (arith, end, (rw high at digits)))
    ]

length-bytes_text : (n a : ℕ) (m : ℕ → ℕ) → IsBytes m → length (bytes_text n a m) ≡ 3 * n + 1
unfolding bytes_text
length-bytes_text zero a m bytes = refl
length-bytes_text (suc n) a m bytes = omega (
  arith,
  length-append (byte_text (m a)) (bytes_text n (a + 1) m),
  length-byte_text (m a) (bytes a),
  length-bytes_text n (a + 1) m bytes,
)

-- Of a memory of bytes `printmem` prints 97 characters: two digits and a space for each of 32 bytes,
-- and the end of the line.
pub length-print_mem : (pointer : ℕ) (m : ℕ → ℕ) → IsBytes m → length (print_mem pointer m) ≡ 97
unfolding print_mem
length-print_mem pointer m bytes = length-bytes_text 32 pointer m bytes
