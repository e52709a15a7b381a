-- ===== src/Console/Tests.antt =====
-- Output on an empty screen, with 200 bytes behind it.
use bit_shell_os.Base.{ℕ, refl, [], ◌∷◌, replicate, arith, length-replicate}
use bit_shell_os.Console.{Console, print_text}
use bit_shell_os.Console.Bounds.{IsValid, Keeps, print_text-IsValid}

abbrev blank_screen : Console
blank_screen = record { cells = replicate 4200 7; offset = 0; cursor = 0 }

blank_screen-IsValid : IsValid blank_screen
blank_screen-IsValid = record {
  screen = omega (arith, length-replicate {A = ℕ} 4200 7);
  even = refl;
  inside = omega arith;
}

print_text-IsValid_example :
    IsValid (print_text (b'h' ∷ b'i' ∷ 10 ∷ []) blank_screen)
    × Keeps blank_screen.cells (print_text (b'h' ∷ b'i' ∷ 10 ∷ []) blank_screen).cells
print_text-IsValid_example =
    print_text-IsValid (b'h' ∷ b'i' ∷ 10 ∷ []) blank_screen blank_screen-IsValid
