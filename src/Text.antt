-- ===== src/Text.antt =====
-- Numbers and texts: `uintToBase` and `itos` of Kernel/naiveConsole.c, which are also in
-- Userland/SampleCodeModule/libc.c, and the text functions of that file.
--
-- A C string is the list of its characters before the 0. Storing it beyond the end of an array is
-- not modelled; where the length matters it is stated.
pub mod Decimal
pub mod Compare
use mathlib.Core.List.{reverse}
mod Tests
use bit_shell_os.Base.{
  ℕ, zero, suc, ◌+◌, ◌-◌, ◌*◌, ◌/◌, ◌%◌, ◌^◌, Bool, true, false, ◌&&◌, ◌||◌, Option, none, some,
  List, [], ◌∷◌, ◌++◌, ltb, leb, ◌==◌, if◌then◌else◌, ◌>>=◌, length,
}

-- The character of a digit.
pub digit_char : ℕ → ℕ
digit_char d = if ltb d 10 then d + 48 else d + 65 - 10

-- The first loop of `uintToBase`, which stores the digits from the last one on.
pub digits : ℕ → ℕ → ℕ → List ℕ
unfolding digit_char
digits zero base v = []
digits (suc fuel) base v =
    let rest = digits fuel base (v / base) in
    digit_char (v % base) ∷ (if v / base == 0 then [] else rest)

-- The second loop swaps the digits end for end. A 64-bit number has at most 64 digits.
pub uint_to_base : ℕ → ℕ → List ℕ
unfolding digits
uint_to_base v base = reverse (digits 64 base v)

-- `itos`, of the bit pattern of an int. The least int stays negative when it is negated, and gives
-- one digit below '0'.
pub itos : ℕ → List ℕ
unfolding uint_to_base
itos v =
    if ltb v (2 ^ 31)
    then uint_to_base v 10
    else (if v == 2 ^ 31 then b'-' ∷ b'(' ∷ [] else b'-' ∷ uint_to_base (2 ^ 32 - v) 10)

-- What `ncPrintDec` prints: the value is cut to an int.
pub print_dec : ℕ → List ℕ
unfolding itos
print_dec v = itos (v % 2 ^ 32)

-- A loop over a text that may stop with an error.
pub fold_text : (ℕ → ℕ → Option ℕ) → ℕ → List ℕ → Option ℕ
fold_text step acc [] = some acc
fold_text step acc (c ∷ cs) = step acc c >>= λ a. fold_text step a cs

-- One turn of `atoi`, in uint64_t.
pub atoi_step : ℕ → ℕ → Option ℕ
atoi_step num c = if ltb c b'0' || ltb b'9' c then none else some ((num * 10 + c - 48) % 2 ^ 64)

-- `none` is `*ok = 0` and the result 0.
pub atoi : List ℕ → Option ℕ
unfolding fold_text atoi_step
atoi text = fold_text atoi_step 0 text

abbrev pub is_hex_digit : ℕ → Bool
is_hex_digit c =
    (leb b'0' c && leb c b'9') || (leb b'a' c && leb c b'f') || (leb b'A' c && leb c b'F')

-- One turn of `hex2int`: four bits are shifted in.
pub hex_step : ℕ → ℕ → Option ℕ
hex_step val c =
    if is_hex_digit c
    then (let d =
          (if leb c b'9' then c - 48 else (if leb b'a' c then c - 97 + 10 else c - 65 + 10)) in
        some ((val * 16) % 2 ^ 64 + d % 16))
    else none

pub hex2int : List ℕ → Option ℕ
unfolding fold_text hex_step
hex2int text = fold_text hex_step 0 text

-- `compareStrings`: 1 for equal texts.
unfoldable pub compare_strings : List ℕ → List ℕ → ℕ
compare_strings [] [] = 1
compare_strings [] (y ∷ ys) = 0
compare_strings (x ∷ xs) [] = 0
compare_strings (x ∷ xs) (y ∷ ys) = let rest = compare_strings xs ys in if x == y then rest else 0

-- The number of characters before the first 0 of a memory area (`strlen`, `ncStrlen`); `none` if
-- there is no 0 in it.
pub str_len : List ℕ → Option ℕ
str_len [] = none
str_len (c ∷ cs) = let rest = str_len cs in if c == 0 then some 0 else (rest >>= λ n. some (n + 1))

-- `strcpy` and `copyString`: the characters up to the 0, which is stored too, over the front of
-- the destination; `none` if either area ends before.
pub strcpy : List ℕ → List ℕ → Option (List ℕ)
strcpy [] source = none
strcpy (d ∷ ds) [] = none
strcpy (d ∷ ds) (c ∷ cs) =
    let rest = strcpy ds cs in if c == 0 then some (0 ∷ ds) else (rest >>= λ r. some (c ∷ r))

-- The loop of `createProcess` of libc.c that joins the arguments, each with a 0 behind it.
unfoldable pub join_args : List (List ℕ) → List ℕ
join_args [] = []
join_args (a ∷ more) = (a ++ 0 ∷ []) ++ join_args more

-- The inner loop of `createProcessWrapper` of scheduler.c: the characters up to a 0, and what is
-- behind it.
pub next_arg : List ℕ → Option (List ℕ × List ℕ)
next_arg [] = none
next_arg (c ∷ cs) =
    let rest = next_arg cs in
    if c == 0 then some ([], cs) else (rest >>= λ (a, more). some (c ∷ a, more))

-- The outer loop: `argc` arguments; `none` if the memory area ends before.
pub split_args : ℕ → List ℕ → Option (List (List ℕ))
unfolding next_arg
split_args zero text = some []
split_args (suc argc) text =
    next_arg text >>= λ (a, more). split_args argc more >>= λ args. some (a ∷ args)
