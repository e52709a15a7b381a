-- ===== src/Packer/Layout.antt =====
-- The layout that Toolchain/ModulePacker/main.c writes and Kernel/moduleLoader.c reads, and memory
-- that holds it.
use bit_shell_os.Base.{
  ℕ, zero, suc, ◌+◌, ◌^◌, ◌≤◌, ◌<◌, ◌≡◌, refl, ap, ◌∙◌, ◌⊎◌, List, [], ◌∷◌, ◌++◌, length, get_or,
  length-append, arith,
}
use bit_shell_os.Memory.{load_word}
use bit_shell_os.Packer.{word_bytes}

-- Each module behind its size.
abbrev pub modules_bytes : List (List ℕ) → List ℕ
modules_bytes [] = []
modules_bytes (c ∷ cs) = word_bytes (length c) ++ (c ++ modules_bytes cs)

-- The number of modules, and the modules.
abbrev pub payload : List (List ℕ) → List ℕ
payload cs = word_bytes (length cs) ++ modules_bytes cs

-- The memory holds these bytes from an address on.
abbrev pub Holds : (ℕ → ℕ) → ℕ → List ℕ → Type 0
Holds m a xs = (i : ℕ) → i < length xs → m (a + i) ≡ get_or xs i 0

get_or-append_left :
    (xs ys : List ℕ) (i : ℕ) → i < length xs → get_or (xs ++ ys) i 0 ≡ get_or xs i 0
get_or-append_left [] ys i h = absurd (omega arith)
get_or-append_left (x ∷ xs) ys zero h = refl
get_or-append_left (x ∷ xs) ys (suc i) h = get_or-append_left xs ys i (omega arith)

get_or-append_right : (xs ys : List ℕ) (i : ℕ) → get_or (xs ++ ys) (length xs + i) 0 ≡ get_or ys i 0
get_or-append_right [] ys i = ap (λ k. get_or ys k 0) (omega arith)
get_or-append_right (x ∷ xs) ys i =
    let next : suc (length xs) + i ≡ suc (length xs + i) = omega arith in
    ap (λ k. get_or (x ∷ (xs ++ ys)) k 0) next ∙ get_or-append_right xs ys i

pub Holds-append :
    (m : ℕ → ℕ) (a : ℕ) (xs ys : List ℕ)
    → Holds m a (xs ++ ys)
    → Holds m a xs × Holds m (a + length xs) ys
Holds-append m a xs ys h = (
  λ i small. h i (omega (arith, length-append xs ys)) ∙ get_or-append_left xs ys i small,
  λ i small.
      let there : a + length xs + i ≡ a + (length xs + i) = omega arith in
      ap m there
      ∙ h (length xs + i) (omega (arith, length-append xs ys))
      ∙ get_or-append_right xs ys i,
)

-- A word that was stored is read back.
pub load_word-Holds :
    (m : ℕ → ℕ) (a n : ℕ) → n < 2 ^ 32 → Holds m a (word_bytes n) → load_word a m ≡ n
unfolding load_word word_bytes
load_word-Holds m a n small h =
    let here : m (a + 0) ≡ m a = ap m (omega arith) in
    omega (arith, here, h 0 (omega arith), h 1 (omega arith), h 2 (omega arith), h 3 (omega arith))

-- `n` bytes from `t` on lie outside the range from `lo` to `hi`.
abbrev pub Away : ℕ → ℕ → ℕ → ℕ → Type 0
Away t n lo hi = (t + n ≤ lo) ⊎ (hi ≤ t)

-- An address lies outside every target.
abbrev pub Outside : ℕ → List ℕ → List (List ℕ) → Type 0
Outside x ts [] = Unit {0}
Outside x [] (c ∷ cs) = Unit {0}
Outside x (t ∷ ts) (c ∷ cs) = ((x < t) ⊎ (t + length c ≤ x)) × Outside x ts cs

-- A range lies outside every target.
abbrev pub AwayFrom : ℕ → ℕ → List ℕ → List (List ℕ) → Type 0
AwayFrom t n ts [] = Unit {0}
AwayFrom t n [] (c ∷ cs) = Unit {0}
AwayFrom t n (u ∷ ts) (c ∷ cs) = Away t n u (u + length c) × AwayFrom t n ts cs

-- There is a target for each module, outside the range that the payload takes and outside the other
-- targets.
abbrev pub Placed : ℕ → ℕ → List ℕ → List (List ℕ) → Type 0
Placed lo hi ts [] = Unit {0}
Placed lo hi [] (c ∷ cs) = ⊥
Placed lo hi (t ∷ ts) (c ∷ cs) =
    Away t (length c) lo hi × AwayFrom t (length c) ts cs × Placed lo hi ts cs

-- Each module stands at its target.
abbrev pub Loaded : (ℕ → ℕ) → List ℕ → List (List ℕ) → Type 0
Loaded m ts [] = Unit {0}
Loaded m [] (c ∷ cs) = ⊥
Loaded m (t ∷ ts) (c ∷ cs) = Holds m t c × Loaded m ts cs

pub AwayFrom-Outside :
    (t n i : ℕ) (ts : List ℕ) (cs : List (List ℕ))
    → i < n
    → AwayFrom t n ts cs
    → Outside (t + i) ts cs
AwayFrom-Outside t n i ts [] small h = tt
AwayFrom-Outside t n i [] (c ∷ cs) small h = tt
AwayFrom-Outside t n i (u ∷ ts) (c ∷ cs) small (here, rest) =
    (ground arith, AwayFrom-Outside t n i ts cs small rest)
