-- ===== src/Exceptions/Tests.antt =====
-- Exceptions on a blank screen.
use bit_shell_os.Base.{ℕ, ◌≡◌, refl, some, none, List, [], ◌∷◌, replicate, arith, length-replicate}
use bit_shell_os.Console.{Console}
use bit_shell_os.Console.Bounds.{IsValid}
use bit_shell_os.Exceptions.{reboot_console}
use bit_shell_os.Exceptions.Reboot.{IsPrompt, reboot_console_lem}

abbrev blank_screen : Console
blank_screen = record { cells = replicate 4000 0; offset = 0; cursor = 0 }

blank_screen-IsValid : IsValid blank_screen
blank_screen-IsValid = record {
  screen = omega (arith, length-replicate {A = ℕ} 4000 0);
  even = refl;
  inside = omega arith;
}

-- Two turns without a key, at the first of which the cursor blinks, and then a space.
reboot_console_lem_example :
    (reboot_console ((18, 0) ∷ (19, 0) ∷ []) blank_screen ≡ none)
    × ((d : Console) × IsPrompt d
        × ((after : List (ℕ × ℕ))
            → reboot_console ((18, 0) ∷ (19, 0) ∷ (20, 32) ∷ after) blank_screen ≡ some d))
reboot_console_lem_example =
    reboot_console_lem ((18, 0) ∷ (19, 0) ∷ []) 20 32 blank_screen (refl, (refl, tt))
      (λ e. omega arith) blank_screen-IsValid
