-- ===== src/Console.antt =====
-- Kernel/naiveConsole.c: the text screen. `offset` is `currentVideo - video` in bytes; `cells` is
-- the memory from `video` on. The first 4000 bytes are the screen, characters at the even and
-- attributes at the odd ones; whatever else is given stands behind it.
pub mod Bounds
mod Tests
use bit_shell_os.Base.{
  ℕ, zero, suc, ◌+◌, ◌-◌, ◌*◌, ◌/◌, ◌%◌, ◌^◌, Bool, true, false, List, [], ◌∷◌, ltb, leb, ◌==◌,
  if◌then◌else◌, get_or, set,
}

abbrev pub width : ℕ
width = 80

abbrev pub height : ℕ
height = 25

pub record Console : Type 0 where
  pub cells : List ℕ
  pub offset : ℕ
  pub cursor : ℕ

pub delete_cursor : Console → Console
delete_cursor c = record c { cells = set c.cells c.offset b' '; cursor = 0 }

pub display_cursor : Console → Console
unfolding delete_cursor
display_cursor c =
    if c.cursor == 0
    then record c { cells = set c.cells c.offset b'_'; cursor = 1 }
    else delete_cursor c

-- `videoChars[to] = videoChars[from]`: a character with its attribute.
pub move_cell : ℕ → ℕ → List ℕ → List ℕ
move_cell to from cells =
    set (set cells (2 * to) (get_or cells (2 * from) 0)) (2 * to + 1)
      (get_or cells (2 * from + 1) 0)

-- The first loop of `scrollDown`: `n` cells are left, from `from` on.
pub move_up : ℕ → ℕ → List ℕ → List ℕ
unfolding move_cell
move_up zero from cells = cells
move_up (suc n) from cells = move_up n (from + 1) (move_cell from (from + width) cells)

-- The second one, which stores 0x0720.
pub blank : ℕ → ℕ → List ℕ → List ℕ
blank zero from cells = cells
blank (suc n) from cells = blank n (from + 1) (set (set cells (2 * from) 0x20) (2 * from + 1) 0x07)

-- Every line moves up by one, and the last one is blank.
pub scroll : Console → Console
scroll c = record c {
  cells = blank width (width * (height - 1)) (move_up (width * (height - 1)) 0 c.cells);
  offset = c.offset - width * 2;
}

unfoldable pub scroll_down : Console → Console
scroll_down c = if ltb (c.offset / (width * 2)) (height - 1) then c else scroll c

-- `ncPrintChar` of a character other than the newline.
unfoldable pub print_plain : ℕ → Console → Console
print_plain ch c =
    let d = scroll_down c in record d { cells = set d.cells d.offset ch; offset = d.offset + 2 }

-- The loop of `ncNewline`, on fuel.
pub newline_loop : ℕ → Console → Console
newline_loop zero c = c
newline_loop (suc fuel) c =
    let d = print_plain b' ' c in
    let rest = newline_loop fuel d in if d.offset % (width * 2) == 0 then d else rest

-- A line has 80 cells, so 80 rounds are enough.
pub newline : Console → Console
newline c = newline_loop width c

-- `ncPrintChar`; it scrolls before it looks at the character.
unfoldable pub print_char : ℕ → Console → Console
unfolding newline
print_char ch c = if ch == 10 then newline (scroll_down c) else print_plain ch c

-- `ncPrint`, of a text without its 0.
unfoldable pub print_text : List ℕ → Console → Console
unfolding print_char
print_text [] c = c
print_text (ch ∷ text) c = print_text text (print_char ch c)

-- The characters of the whole screen, one by one; the attributes stay.
unfoldable pub clear_cells : ℕ → ℕ → List ℕ → List ℕ
clear_cells zero i cells = cells
clear_cells (suc n) i cells = clear_cells n (i + 1) (set cells (i * 2) b' ')

unfoldable pub clear : Console → Console
clear c = record c { cells = clear_cells (height * width) 0 c.cells; offset = 0 }

-- `ncBackspace`: whether there was something to take back.
pub backspace : Console → Console × Bool
unfolding delete_cursor
backspace c =
    if leb 2 c.offset
    then (let d = delete_cursor c in
        (
          record d {
            cells = set (set d.cells (d.offset - 1) 0x07) (d.offset - 2) 0;
            offset = d.offset - 2;
          },
          true,
        ))
    else (c, false)
