-- ===== src/Pipes/Ring.antt =====
-- The bytes in a pipe of Kernel/utils/pipes.c as a first-in, first-out list: one byte in, one out.
use bit_shell_os.Base.{
  ℕ, zero, suc, ◌+◌, ◌-◌, ◌%◌, ◌≤◌, ◌<◌, ◌≡◌, ◌≢◌, refl, ap, ap₂, ◌∙◌, List, [], ◌∷◌, ◌++◌, get_or,
  set, length, arith, length-set, get_or-set_self, get_or-set_ne,
}
use bit_shell_os.Pipes.{Pipe, pipe_size, put_byte, take_byte}

-- The `n` bytes from place `h` on, round the end of the array.
abbrev pub segment : List ℕ → ℕ → ℕ → List ℕ
segment xs h zero = []
segment xs h (suc n) = get_or xs h 0 ∷ segment xs ((h + 1) % 512) n

-- `readPos` may stand one past the end until the next byte is read.
abbrev pub first_place : Pipe → ℕ
first_place p = p.read_pos % 512

abbrev pub unread : Pipe → List ℕ
unread p = segment p.content (first_place p) p.bytes_to_read

pub record IsValid (p : Pipe) : Type 0 where
  pub places : length p.content ≡ pipe_size
  pub read_in : p.read_pos ≤ pipe_size
  pub write_in : p.write_pos < pipe_size
  pub amount : p.bytes_to_read ≤ pipe_size
  pub meets : (p.read_pos + p.bytes_to_read) % 512 ≡ p.write_pos

pub length-segment : (xs : List ℕ) (h n : ℕ) → length (segment xs h n) ≡ n
length-segment xs h zero = refl
length-segment xs h (suc n) = ap suc (length-segment xs ((h + 1) % 512) n)

-- A byte stored at the place where a segment ends makes it longer, and spoils none of it.
segment-set :
    (xs : List ℕ) (c n h i : ℕ)
    → length xs ≡ pipe_size
    → h < 512
    → n < 512
    → i ≡ (h + n) % 512
    → segment (set xs i c) h (suc n) ≡ segment xs h n ++ c ∷ []
segment-set xs c zero h i l hh hn e =
    let here : i ≡ h = omega arith in
    rw here (ap (λ v. v ∷ []) (get_or-set_self xs h c 0 (omega arith)))
segment-set xs c (suc n) h i l hh hn e =
    ap₂ ◌∷◌ (get_or-set_ne xs i h c 0 (omega arith))
      (segment-set xs c n ((h + 1) % 512) i l (omega arith) (omega arith) (omega arith))

-- A byte written to a pipe that is not full joins the end of the unread bytes, and the pipe stays
-- valid.
pub put_byte_lem :
    (c : ℕ) (p : Pipe)
    → IsValid p
    → p.bytes_to_read < pipe_size
    → IsValid (put_byte c p) × (unread (put_byte c p) ≡ unread p ++ c ∷ [])
unfolding put_byte
put_byte_lem c p v room = (
  record {
    places = length-set p.content p.write_pos c ∙ v.places;
    read_in = v.read_in;
    write_in = ground (arith, v.write_in);
    amount = omega arith;
    meets = ground (arith, v.meets, v.write_in);
  },
  ap (segment (set p.content p.write_pos c) (first_place p)) {y = suc p.bytes_to_read} (omega arith)
      ∙ segment-set p.content c p.bytes_to_read (first_place p) p.write_pos v.places (omega arith)
          (omega arith) (omega (arith, v.meets)),
)

segment_pos :
    (xs : List ℕ) (h n : ℕ)
    → n ≢ 0
    → segment xs h n ≡ get_or xs h 0 ∷ segment xs ((h + 1) % 512) (n - 1)
segment_pos xs h zero ne = absurd (ne refl)
segment_pos xs h (suc n) ne = ap (λ k. get_or xs h 0 ∷ segment xs ((h + 1) % 512) k) (omega arith)

-- A byte read from a pipe that is not empty is the first of the unread ones, the others stay, and
-- the pipe stays valid.
pub take_byte_lem :
    (p : Pipe)
    → IsValid p
    → p.bytes_to_read ≢ 0
    → let (q, c) = take_byte p in IsValid q × (unread p ≡ c ∷ unread q)
unfolding take_byte
take_byte_lem p v some_left = (
  ground (arith, v.places, v.read_in, v.write_in, v.amount, v.meets),
  segment_pos p.content (first_place p) p.bytes_to_read some_left
      ∙ ap (λ k. get_or p.content k 0 ∷ segment p.content ((k + 1) % 512) (p.bytes_to_read - 1))
          (ground (arith, v.read_in)),
)
