-- ===== src/Packer/Tests.antt =====
-- A kernel of three bytes and two modules.
use bit_shell_os.Base.{
  ℕ, zero, suc, ◌+◌, ◌-◌, ◌<◌, ◌≡◌, refl, ap, get_or, All, ◌++◌, true, List, [], ◌∷◌, ◌==◌,
  if◌then◌else◌, inl, inr, arith,
}
use bit_shell_os.Memory.{load_modules}
use bit_shell_os.Memory.Copy.{IsBytes}
use bit_shell_os.Packer.{Files, word_bytes, build_image, image}
use bit_shell_os.Packer.Layout.{payload, Holds, Loaded, Outside}
use bit_shell_os.Packer.Loading.{load_modules-build_image}

abbrev files : Files
files = record {
  can_read = λ name. true;
  content =
      λ name. if name == 0 then 1 ∷ 2 ∷ 3 ∷ [] else (if name == 1 then 7 ∷ 8 ∷ [] else 9 ∷ []);
  size = λ name. if name == 0 then 3 else (if name == 1 then 2 else 1);
  can_write = λ name. true;
}

abbrev modules : List (List ℕ)
modules = (7 ∷ 8 ∷ []) ∷ (9 ∷ []) ∷ []

-- The kernel at 100, and the payload at 103.
abbrev stored : List ℕ
stored = 1 ∷ 2 ∷ 3 ∷ 2 ∷ 0 ∷ 0 ∷ 0 ∷ 2 ∷ 0 ∷ 0 ∷ 0 ∷ 7 ∷ 8 ∷ 1 ∷ 0 ∷ 0 ∷ 0 ∷ 9 ∷ []

abbrev memory : ℕ → ℕ
memory a = get_or stored (a - 100) 0

small_bytes : (i : ℕ) (xs : List ℕ) → All (λ x. x < 256) xs → get_or xs i 0 < 256
small_bytes i [] h = omega arith
small_bytes zero (x ∷ xs) h = h.0
small_bytes (suc i) (x ∷ xs) h = small_bytes i xs h.1

memory-IsBytes : IsBytes memory
memory-IsBytes a = small_bytes (a - 100) stored (omega arith)

memory-Holds : Holds memory 100 ((1 ∷ 2 ∷ 3 ∷ []) ++ payload modules)
unfolding word_bytes
memory-Holds i small =
    let here : 100 + i - 100 ≡ i = omega arith in ap (λ k. get_or stored k 0) here

load_modules-build_image_example :
    (build_image files (0 ∷ 1 ∷ 2 ∷ []) 3 ≡ image ((1 ∷ 2 ∷ 3 ∷ []) ++ payload modules))
    × Loaded (load_modules 103 (400 ∷ 500 ∷ []) memory) (400 ∷ 500 ∷ []) modules
    × ((x : ℕ)
        → Outside x (400 ∷ 500 ∷ []) modules
        → load_modules 103 (400 ∷ 500 ∷ []) memory x ≡ memory x)
unfolding word_bytes
load_modules-build_image_example =
    load_modules-build_image files 0 (1 ∷ 2 ∷ []) 3 (400 ∷ 500 ∷ []) 103 memory refl (omega arith)
      (omega arith) memory-IsBytes (omega arith) memory-Holds
      (inr (omega arith), (inl (omega arith), tt), (inr (omega arith), tt, tt))
