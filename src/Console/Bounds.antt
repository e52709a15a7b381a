-- ===== src/Console/Bounds.antt =====
-- The 4000 bytes of the screen of Kernel/naiveConsole.c and the place of the next character.
use bit_shell_os.Base.{
  ℕ, zero, suc, ◌+◌, ◌-◌, ◌*◌, ◌/◌, ◌%◌, ◌≤◌, ◌<◌, ◌≡◌, refl, ap, ◌∙◌, true, false, List, [], ◌∷◌,
  ltb, leb, ◌==◌, get_or, set, length, length-set, get_or-set_self, get_or-set_ne, arith,
  Bool-cases, inl, inr, ◌⊎◌, ltb→lt, ltb→le, ==→eq, ==→ne,
}
use bit_shell_os.Console.{
  Console, width, height, display_cursor, delete_cursor, move_cell, move_up, blank, scroll,
  scroll_down, print_plain, newline_loop, newline, print_char, print_text, backspace,
}

-- The screen is the first 4000 bytes; the next cell is one of its cells, or the first one past its
-- last but one line.
pub record IsValid (c : Console) : Type 0 where
  pub screen : 4000 ≤ length c.cells
  pub even : c.offset % 2 ≡ 0
  pub inside : c.offset ≤ 3840

length-move_up : (n from : ℕ) (cells : List ℕ) → length (move_up n from cells) ≡ length cells
unfolding move_up move_cell
length-move_up zero from cells = refl
length-move_up (suc n) from cells =
    length-move_up n (from + 1) _
    ∙ length-set (set cells (2 * from) _) (2 * from + 1) _
    ∙ length-set cells (2 * from) _

length-blank : (n from : ℕ) (cells : List ℕ) → length (blank n from cells) ≡ length cells
unfolding blank
length-blank zero from cells = refl
length-blank (suc n) from cells =
    length-blank n (from + 1) _
    ∙ length-set (set cells (2 * from) _) (2 * from + 1) _
    ∙ length-set cells (2 * from) _

scroll_lem :
    (c : Console)
    → IsValid c
    → 24 ≤ c.offset / 160
    → IsValid (scroll c) × ((scroll c).offset < 3840) × ((scroll c).offset % 160 ≡ c.offset % 160)
unfolding scroll
scroll_lem c v last = (
  record {
    screen = omega (
      arith,
      v.screen,
      length-blank width (width * (height - 1)) (move_up (width * (height - 1)) 0 c.cells),
      length-move_up (width * (height - 1)) 0 c.cells,
    );
    even = omega (arith, v.even, v.inside);
    inside = omega (arith, v.inside);
  },
  omega (arith, v.inside),
  omega (arith, v.inside),
)

-- After a scroll the next cell is above the last line, so that the write that follows stays on the
-- screen; the column stays.
pub scroll_down_lem :
    (c : Console)
    → IsValid c
    → IsValid (scroll_down c)
      × ((scroll_down c).offset < 3840)
      × ((scroll_down c).offset % 160 ≡ c.offset % 160)
unfolding scroll_down
scroll_down_lem c v = elim (Bool-cases (ltb (c.offset / (width * 2)) (height - 1))) [
  | inl above ↦
      rw (above, scroll_down) (v, omega (arith, v.inside, ltb→lt (c.offset / 160) 24 above), refl)
  | inr last ↦ rw (last, scroll_down) (scroll_lem c v (ltb→le (c.offset / 160) 24 last))
]

-- A plain character is stored on the screen at an even place, and the next cell is the one behind
-- it, in the column after the one before.
pub print_plain_lem :
    (ch : ℕ) (c : Console)
    → IsValid c
    → IsValid (print_plain ch c)
      × (get_or (print_plain ch c).cells ((print_plain ch c).offset - 2) 0 ≡ ch)
      × ((print_plain ch c).offset % 160 ≡ (c.offset + 2) % 160)
      × (2 ≤ (print_plain ch c).offset)
unfolding print_plain
print_plain_lem ch c v =
    let d = scroll_down c in
    let (w, room, column) = scroll_down_lem c v in
    (
      record {
        screen = omega (arith, length-set d.cells d.offset ch, w.screen);
        even = omega (arith, w.even);
        inside = omega (arith, w.even);
      },
      ap (λ i. get_or (set d.cells d.offset ch) i 0) (omega arith)
          ∙ get_or-set_self d.cells d.offset ch 0 (omega (arith, w.screen)),
      omega arith,
      omega arith,
    )

-- With as many rounds as cells are left in the line the loop ends at the start of a line.
newline_loop_lem :
    (fuel : ℕ) (c : Console)
    → IsValid c
    → 80 ≤ fuel + (c.offset % 160) / 2
    → 0 < fuel
    → IsValid (newline_loop fuel c) × ((newline_loop fuel c).offset % 160 ≡ 0)
unfolding newline_loop
newline_loop_lem zero c v h pos = absurd (omega arith)
newline_loop_lem (suc fuel) c v h pos =
    let (w, shown, column, moved) = print_plain_lem b' ' c v in
    elim (Bool-cases ((print_plain b' ' c).offset % (width * 2) == 0)) [
      | inl start ↦ rw (start, newline_loop) (w, ==→eq _ 0 start)
      | inr further ↦
          rw (further, newline_loop)
            (newline_loop_lem fuel (print_plain b' ' c) w
              (omega (arith, v.even, ==→ne ((print_plain b' ' c).offset % 160) 0 further))
              (omega (arith, v.even, ==→ne ((print_plain b' ' c).offset % 160) 0 further)))
    ]

-- A change of the screen that leaves every byte behind it as it was.
abbrev pub Keeps : List ℕ → List ℕ → Type 0
Keeps cells cells' = (i : ℕ) → 4000 ≤ i → get_or cells' i 0 ≡ get_or cells i 0

set-Keeps : (cells : List ℕ) (k v : ℕ) → k < 4000 → Keeps cells (set cells k v)
set-Keeps cells k v low i high = get_or-set_ne cells k i v 0 (λ e. omega arith)

move_up-Keeps : (n from : ℕ) (cells : List ℕ) → from + n ≤ 2000 → Keeps cells (move_up n from cells)
unfolding move_up move_cell
move_up-Keeps zero from cells h i high = refl
move_up-Keeps (suc n) from cells h i high =
    move_up-Keeps n (from + 1) _ (omega arith) i high
    ∙ set-Keeps (set cells (2 * from) _) (2 * from + 1) _ (omega arith) i high
    ∙ set-Keeps cells (2 * from) _ (omega arith) i high

blank-Keeps : (n from : ℕ) (cells : List ℕ) → from + n ≤ 2000 → Keeps cells (blank n from cells)
unfolding blank
blank-Keeps zero from cells h i high = refl
blank-Keeps (suc n) from cells h i high =
    blank-Keeps n (from + 1) _ (omega arith) i high
    ∙ set-Keeps (set cells (2 * from) _) (2 * from + 1) _ (omega arith) i high
    ∙ set-Keeps cells (2 * from) _ (omega arith) i high

scroll_down-Keeps : (c : Console) → Keeps c.cells (scroll_down c).cells
unfolding scroll_down scroll
scroll_down-Keeps c i high = elim (Bool-cases (ltb (c.offset / (width * 2)) (height - 1))) [
  | inl above ↦ rw (above, scroll_down) refl
  | inr last ↦
      rw (last, scroll_down)
        (blank-Keeps width (width * (height - 1)) _ (omega arith) i high
          ∙ move_up-Keeps (width * (height - 1)) 0 c.cells (omega arith) i high)
]

print_plain-Keeps : (ch : ℕ) (c : Console) → IsValid c → Keeps c.cells (print_plain ch c).cells
unfolding print_plain
print_plain-Keeps ch c v i high =
    let d = scroll_down c in
    set-Keeps d.cells d.offset ch (omega (arith, (scroll_down_lem c v).1)) i high
    ∙ scroll_down-Keeps c i high

newline_loop-Keeps :
    (fuel : ℕ) (c : Console) → IsValid c → Keeps c.cells (newline_loop fuel c).cells
unfolding newline_loop
newline_loop-Keeps zero c v i high = refl
newline_loop-Keeps (suc fuel) c v i high =
    let d = print_plain b' ' c in
    let here = print_plain-Keeps b' ' c v i high in
    elim (Bool-cases (d.offset % (width * 2) == 0)) [
      | inl start ↦ rw (start, newline_loop) here
      | inr further ↦
          rw (further, newline_loop)
            (newline_loop-Keeps fuel d (print_plain_lem b' ' c v).0 i high ∙ here)
    ]

print_char-Keeps : (ch : ℕ) (c : Console) → IsValid c → Keeps c.cells (print_char ch c).cells
unfolding print_char newline
print_char-Keeps ch c v i high = elim (Bool-cases (ch == 10)) [
  | inl line ↦ rw line (
      newline_loop-Keeps width (scroll_down c) (scroll_down_lem c v).0 i high
      ∙ scroll_down-Keeps c i high)
  | inr plain ↦ rw plain (print_plain-Keeps ch c v i high)
]

-- `ncNewline` needs no more than 80 rounds, and ends at the start of a line, on the screen.
pub newline_lem : (c : Console) → IsValid c → IsValid (newline c) × ((newline c).offset % 160 ≡ 0)
unfolding newline
newline_lem c v = newline_loop_lem width c v (omega arith) (omega arith)

print_char-IsValid : (ch : ℕ) (c : Console) → IsValid c → IsValid (print_char ch c)
unfolding print_char
print_char-IsValid ch c v = elim (Bool-cases (ch == 10)) [
  | inl line ↦ rw line (newline_lem (scroll_down c) (scroll_down_lem c v).0).0
  | inr plain ↦ rw plain (print_plain_lem ch c v).0
]

-- Any text whatever is printed on the screen: no byte behind the 4000 bytes of the screen is changed,
-- however much memory is there, and the place of the next character stays one that can be written
-- after a scroll.
pub print_text-IsValid :
    (text : List ℕ) (c : Console)
    → IsValid c
    → IsValid (print_text text c) × Keeps c.cells (print_text text c).cells
unfolding print_text
print_text-IsValid [] c v = (v, λ i high. refl)
print_text-IsValid (ch ∷ text) c v =
    let (w, kept) = print_text-IsValid text (print_char ch c) (print_char-IsValid ch c v) in
    (w, λ i high. kept i high ∙ print_char-Keeps ch c v i high)

-- `ncBackspace` takes back exactly when there is a character before the next cell, and then the
-- character printed last is gone from the screen.
pub backspace_lem :
    (c : Console)
    → IsValid c
    → let (d, back) = backspace c in
      IsValid d
      × (((c.offset ≡ 0) × (back ≡ false) × (d ≡ c))
          ⊎ ((d.offset + 2 ≡ c.offset) × (back ≡ true) × (get_or d.cells d.offset 1 ≡ 0)))
unfolding backspace delete_cursor
backspace_lem c v = elim (Bool-cases (leb 2 c.offset)) [
  | inl some_left ↦
      let cells = set c.cells c.offset b' ' in
      let low : 2 ≤ c.offset = ground arith in
      let size = length-set cells (c.offset - 1) 0x07 ∙ length-set c.cells c.offset b' ' in
      rw some_left (
        record {
          screen =
              omega (
                arith,
                length-set (set cells (c.offset - 1) 0x07) (c.offset - 2) 0,
                size,
                v.screen,
              );
          even = omega (arith, v.even);
          inside = omega (arith, v.inside);
        },
        inr (
          omega arith,
          refl,
          get_or-set_self (set cells (c.offset - 1) 0x07) (c.offset - 2) 0 1
              (omega (arith, size, v.inside, v.screen)),
        ),
      )
  | inr start ↦ rw start (v, inl (ground (arith, v.even), refl, refl))
]

pub display_cursor-IsValid : (c : Console) → IsValid c → IsValid (display_cursor c)
unfolding display_cursor delete_cursor
display_cursor-IsValid c v = ground (
  arith,
  v.screen,
  v.even,
  v.inside,
  length-set c.cells c.offset b'_',
  length-set c.cells c.offset b' ',
)
