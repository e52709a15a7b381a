-- ===== src/Exceptions/Reboot.antt =====
-- The screen after an exception (Kernel/interruptions/exceptions.c).
use bit_shell_os.Base.{
  ℕ, zero, suc, ◌+◌, ◌*◌, ◌%◌, ◌≤◌, ◌<◌, ◌≡◌, ◌≢◌, refl, sym, subst, ap, ◌∙◌, some, none, All,
  eq→==, List, [], ◌∷◌, ◌==◌, get_or, set, length, length-set, get_or-set_self, get_or-set_ne,
  arith, ne→==, ◌++◌, Bool-cases, inl, inr, ==→eq, ==→ne, ◌>>=◌, if◌then◌else◌,
}
use bit_shell_os.Console.{
  Console, print_text, print_char, print_plain, scroll_down, newline, clear, clear_cells,
  display_cursor, width, height,
}
use bit_shell_os.Console.Bounds.{IsValid, print_text-IsValid, newline_lem, display_cursor-IsValid}
use bit_shell_os.Exceptions.{wait_for_key, reboot_console, reboot_text, prompt}

length-clear_cells : (n i : ℕ) (cells : List ℕ) → length (clear_cells n i cells) ≡ length cells
unfolding clear_cells
length-clear_cells zero i cells = refl
length-clear_cells (suc n) i cells =
    length-clear_cells n (i + 1) (set cells (i * 2) b' ') ∙ length-set cells (i * 2) b' '

clear_cells_before :
    (n i k : ℕ) (cells : List ℕ)
    → k < i
    → get_or (clear_cells n i cells) (k * 2) 0 ≡ get_or cells (k * 2) 0
unfolding clear_cells
clear_cells_before zero i k cells h = refl
clear_cells_before (suc n) i k cells h =
    clear_cells_before n (i + 1) k (set cells (i * 2) b' ') (omega arith)
    ∙ get_or-set_ne cells (i * 2) (k * 2) b' ' 0 (λ e. omega arith)

-- Every character from place `i` on is blank.
clear_cells_lem :
    (n i k : ℕ) (cells : List ℕ)
    → 2 * (i + n) ≤ length cells
    → i ≤ k
    → k < i + n
    → get_or (clear_cells n i cells) (k * 2) 0 ≡ b' '
unfolding clear_cells
clear_cells_lem zero i k cells l h h' = absurd (omega arith)
clear_cells_lem (suc n) i k cells l h h' =
    let rest = set cells (i * 2) b' ' in
    elim (Bool-cases (i == k)) [
      | inl it ↦
          clear_cells_before n (i + 1) k rest (omega (arith, ==→eq i k it))
          ∙ subst (λ j. get_or rest (j * 2) 0 ≡ b' ') (==→eq i k it)
              (get_or-set_self cells (i * 2) b' ' 0 (omega arith))
      | inr other ↦
          clear_cells_lem n (i + 1) k rest (omega (arith, length-set cells (i * 2) b' '))
            (omega (arith, ==→ne i k other)) (omega arith)
    ]

blink-IsValid :
    (ticks : ℕ) (c : Console) → IsValid c → IsValid (if ticks % 9 == 0 then display_cursor c else c)
blink-IsValid ticks c v = elim (Bool-cases (ticks % 9 == 0)) [
  | inl due ↦ rw due (display_cursor-IsValid c v)
  | inr early ↦ rw early v
]

-- No turn has a key.
abbrev pub IsSilent : List (ℕ × ℕ) → Type 0
IsSilent turns = All (λ turn. turn.1 ≡ 0) turns

wait_for_key-silent :
    (turns : List (ℕ × ℕ)) (c : Console) → IsSilent turns → wait_for_key turns c ≡ none
unfolding wait_for_key
wait_for_key-silent [] c silent = refl
wait_for_key-silent ((ticks, key) ∷ turns) c silent =
    rw (eq→== key 0 silent.0) (wait_for_key-silent turns _ silent.1)

-- The turns before the first key blink only, and those behind it are not read.
wait_for_key_ends :
    (before : List (ℕ × ℕ)) (ticks key : ℕ) (c : Console)
    → IsSilent before
    → key ≢ 0
    → IsValid c
    → (d : Console) × IsValid d
      × ((after : List (ℕ × ℕ)) → wait_for_key (before ++ (ticks, key) ∷ after) c ≡ some d)
unfolding wait_for_key
wait_for_key_ends [] ticks key c silent pressed v =
    (_, blink-IsValid ticks c v, λ after. rw (ne→== key 0 pressed) refl)
wait_for_key_ends ((t, k) ∷ turns) ticks key c silent pressed v =
    let (d, w, e) = wait_for_key_ends turns ticks key _ silent.1 pressed (blink-IsValid t c v) in
    (d, w, λ after. rw (eq→== k 0 silent.0) (e after))

-- A screen that shows the prompt and nothing else, and goes on behind it.
pub record IsPrompt (c : Console) : Type 0 where
  pub behind : c.offset ≡ 4
  pub first : get_or c.cells 0 0 ≡ b'>'
  pub blank : (k : ℕ) → 1 ≤ k → k < width * height → get_or c.cells (k * 2) 0 ≡ b' '

prompt-IsPrompt : (c : Console) → IsValid c → IsPrompt (print_text prompt (clear c))
unfolding print_text print_char print_plain scroll_down clear
prompt-IsPrompt c v = record {
  behind = refl;
  first =
      get_or-set_ne (set cleared 0 b'>') 2 0 b' ' 0 (λ e. omega arith)
      ∙ get_or-set_self cleared 0 b'>' 0 (omega (arith, same, v.screen));
  blank = λ k low high. elim (Bool-cases (k == 1)) [
    | inl one ↦
        subst (λ j. get_or (set (set cleared 0 b'>') 2 b' ') (j * 2) 0 ≡ b' ') (sym (==→eq k 1 one))
          (get_or-set_self (set cleared 0 b'>') 2 b' ' 0
            (omega (arith, same, v.screen, length-set cleared 0 b'>')))
    | inr more ↦
        get_or-set_ne (set cleared 0 b'>') 2 (k * 2) b' ' 0 (λ e. omega (arith, ==→ne k 1 more))
        ∙ get_or-set_ne cleared 0 (k * 2) b'>' 0 (λ e. omega arith)
        ∙ clear_cells_lem 2000 0 k c.cells (omega (arith, v.screen)) (omega arith) (omega arith)
  ];
}
  where
    cleared : List ℕ
    cleared = clear_cells 2000 0 c.cells

    same : length cleared ≡ length c.cells
    same = length-clear_cells 2000 0 c.cells

-- After an exception the wait goes on while no turn has a key, and ends at the first one with a key,
-- whatever stood on the screen and whatever comes behind: then the screen shows the prompt at its
-- start and nothing else, and output goes on behind the prompt.
pub reboot_console_lem :
    (before : List (ℕ × ℕ)) (ticks key : ℕ) (c : Console)
    → IsSilent before
    → key ≢ 0
    → IsValid c
    → (reboot_console before c ≡ none)
      × ((d : Console) × IsPrompt d
          × ((after : List (ℕ × ℕ)) → reboot_console (before ++ (ticks, key) ∷ after) c ≡ some d))
unfolding reboot_console
reboot_console_lem before ticks key c silent pressed v =
    let d₀ = newline (print_text reboot_text c) in
    let start = newline_lem (print_text reboot_text c) (print_text-IsValid reboot_text c v).0 in
    let (d, w, e) = wait_for_key_ends before ticks key d₀ silent pressed start.0 in
    (
      rw (wait_for_key-silent before d₀ silent, ◌>>=◌) refl,
      (
        print_text prompt (clear d),
        prompt-IsPrompt d w,
        λ after. ap (λ o. o >>= λ x. some (print_text prompt (clear x))) (e after),
      ),
    )
