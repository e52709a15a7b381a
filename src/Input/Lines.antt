-- ===== src/Input/Lines.antt =====
-- Lines that are typed or piped to `read` of Kernel/interruptions/syscalls.c.
use bit_shell_os.Base.{
  ℕ, zero, suc, ◌+◌, ◌<◌, ◌≡◌, ◌≢◌, refl, sym, ap, subst, ◌∙◌, Bool, true, false, none, List, [],
  ◌∷◌, ◌++◌, ltb, if◌then◌else◌, All, length, get_or, arith,
}
use bit_shell_os.Console.{print_char, newline}
use bit_shell_os.Input.{
  Reader, Turn, next, returns, store, shifted, take_key, is_shift, handle_key, end_line,
  below_limit, read_loop, continue,
}

-- A key with no meaning of its own.
abbrev pub IsPlain : ℕ → Type 0
IsPlain k =
    (k ≢ 255) × (k ≢ 0) × (k ≢ 10) × (k ≢ 8) × (k ≢ 17) × (k ≢ 18) × (k ≢ 19) × (is_shift k ≡ false)

handle_key-plain :
    (keyboard : Bool) (k : ℕ) (r : Reader)
    → IsPlain k
    → handle_key keyboard k r ≡ take_key keyboard k r
unfolding handle_key
handle_key-plain keyboard k r h = ground arith

-- The buffer after the characters of a text from a place on: those from the hundredth on are dropped.
pub store_text : (ℕ → ℕ) → ℕ → List ℕ → ℕ → ℕ
store_text b at [] = b
store_text b at (c ∷ cs) = store_text (if ltb at 100 then store b at c else b) (at + 1) cs

store_text_before : (b : ℕ → ℕ) (at : ℕ) (cs : List ℕ) (j : ℕ) → j < at → store_text b at cs j ≡ b j
unfolding store_text
store_text_before b at [] j h = refl
store_text_before b at (c ∷ cs) j h =
    store_text_before (if ltb at 100 then store b at c else b) (at + 1) cs j (omega arith)
    ∙ ground arith

pub store_text-get :
    (b : ℕ → ℕ) (at : ℕ) (cs : List ℕ) (i : ℕ)
    → i < length cs
    → at + i < 100
    → store_text b at cs (at + i) ≡ get_or cs i 0
unfolding store_text
store_text-get b at [] i h small = absurd (omega arith)
store_text-get b at (c ∷ cs) zero h small =
    let here : at + 0 ≡ at = omega arith in
    ap (store_text (if ltb at 100 then store b at c else b) (at + 1) cs) here
    ∙ store_text_before (if ltb at 100 then store b at c else b) (at + 1) cs at (omega arith)
    ∙ ground arith
store_text-get b at (c ∷ cs) (suc i) h small =
    let there : at + suc i ≡ at + 1 + i = omega arith in
    ap (store_text (if ltb at 100 then store b at c else b) (at + 1) cs) there
    ∙ store_text-get (if ltb at 100 then store b at c else b) (at + 1) cs i (omega arith)
        (omega arith)

-- How a line ends: its number of characters is returned, and a 0 stands behind the text.
abbrev pub Line : List ℕ → Reader → Turn → Type 0
Line text r t =
    (r' : Reader) × (t ≡ returns r' (r.count + length text))
    × (r'.buffer ≡ store (store_text r.buffer r.count text) (r.count + length text) 0)

Line-cons :
    (k : ℕ) (text : List ℕ) (r r₁ : Reader) (t : Turn)
    → r₁.count ≡ r.count + 1
    → r₁.buffer ≡ (if ltb r.count 100 then store r.buffer r.count k else r.buffer)
    → Line text r₁ t
    → Line (k ∷ text) r t
unfolding store_text
Line-cons k text r r₁ t counted stored (r', e, b) =
    let at : r.count + 1 + length text ≡ r.count + suc (length text) = omega arith in
    (
      r',
      e ∙ ap (returns r') (ap (λ n. n + length text) counted ∙ at),
      b
          ∙ ap (λ bf. store (store_text bf r₁.count text) (r₁.count + length text) 0) stored
          ∙ ap
              (λ n.
                store
                  (store_text (if ltb r.count 100 then store r.buffer r.count k else r.buffer) n
                    text)
                  (n + length text) 0)
              counted
          ∙ ap
              (λ n.
                store
                  (store_text (if ltb r.count 100 then store r.buffer r.count k else r.buffer)
                    (r.count + 1) text)
                  n 0)
              at,
    )

-- The reader after a plain key.
abbrev taken : Bool → ℕ → Reader → Reader
taken keyboard k r = record r {
  buffer = if ltb r.count 100 then store r.buffer r.count k else r.buffer;
  count = r.count + 1;
  console = if keyboard then print_char k r.console else r.console;
}

shifted-low : (k : ℕ) → shifted false k ≡ k
unfolding shifted
shifted-low k = refl

take_key-plain :
    (keyboard : Bool) (k : ℕ) (r : Reader)
    → r.mayus ≡ false
    → take_key keyboard k r ≡ next (taken keyboard k r)
unfolding take_key
take_key-plain keyboard k r low =
    ap
      (λ c. next (record r {
        buffer = if ltb r.count 100 then store r.buffer r.count c else r.buffer;
        count = r.count + 1;
        console = if keyboard then print_char c r.console else r.console;
      }))
      (ap (λ m. shifted m k) low ∙ shifted-low k)

-- With no limit and no shift down, a text of plain keys that Enter ends goes into the buffer from the
-- current place on, but for the characters from place 100 on, which are dropped; the number of all of
-- them is returned, and a 0 stored at it.
pub read_loop-Line :
    (keyboard : Bool) (text : List ℕ) (r : Reader)
    → All IsPlain text
    → r.mayus ≡ false
    → Line text r (read_loop keyboard none (text ++ 10 ∷ []) r)
unfolding read_loop below_limit handle_key end_line store_text
read_loop-Line true [] r h low =
    let at : r.count ≡ r.count + 0 = omega arith in
    (
      record r { console = newline r.console; buffer = store r.buffer r.count 0 },
      ap (returns (record r { console = newline r.console; buffer = store r.buffer r.count 0 })) at,
      ap (λ n. store r.buffer n 0) at,
    )
read_loop-Line false [] r h low =
    let at : r.count ≡ r.count + 0 = omega arith in
    (
      record r { buffer = store r.buffer r.count 0 },
      ap (returns (record r { buffer = store r.buffer r.count 0 })) at,
      ap (λ n. store r.buffer n 0) at,
    )
read_loop-Line keyboard (k ∷ text) r (p, h) low =
    let go = read_loop keyboard none (text ++ 10 ∷ []) in
    let r₁ = taken keyboard k r in
    let taken_up : handle_key keyboard k r ≡ next r₁ =
      handle_key-plain keyboard k r p ∙ take_key-plain keyboard k r low in
    subst (Line (k ∷ text) r) (sym (ap (continue go) taken_up))
      (Line-cons k text r r₁ (go r₁) refl refl (read_loop-Line keyboard text r₁ h low))
