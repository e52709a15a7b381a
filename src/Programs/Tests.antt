-- ===== src/Programs/Tests.antt =====
-- The programs of Userland/SampleCodeModule/apps.c on concrete arguments.
use bit_shell_os.Base.{ℕ, ◌≡◌, refl, List, [], ◌∷◌, ◌++◌}
use bit_shell_os.Programs.{Program, exits, returns, call, sys_write, Answer, printf, p3}

-- What a program writes to its output, with the same answer to every call.
written : Answer → Program → List ℕ
written a exits = []
written a returns = []
written a (call (sys_write text) next) = text ++ written a (next a)
written a (call c next) = written a (next a)

p3_writes :
    written (record { result = 7; memory = b'S' ∷ b'o' ∷ b'y' ∷ [] }) p3
    ≡ b'M' ∷ b'e' ∷ b'n' ∷ b's' ∷ b'a' ∷ b'j' ∷ b'e' ∷ b' ' ∷ b'd' ∷ b'e' ∷ b' ' ∷ b'P' ∷ b'2'
      ∷ b':' ∷ b' ' ∷ b'S' ∷ b'o' ∷ b'y' ∷ b'\n' ∷ []
unfolding written p3 printf
p3_writes = refl
