-- ===== src/Packer.antt =====
-- Toolchain/ModulePacker/main.c: the tool that appends the user modules to the kernel's binary, in
-- the layout that Kernel/moduleLoader.c reads.
--
-- The file system is a parameter: which names can be read, what they hold, and what `stat` says of
-- their size. A written file is the list of its bytes. Numbers are stored little-endian.
pub mod Layout
pub mod Loading
mod Tests
use bit_shell_os.Base.{
  ℕ, zero, suc, ◌+◌, ◌-◌, ◌/◌, ◌%◌, ◌^◌, Bool, true, false, Option, none, some, List, [], ◌∷◌, ◌++◌,
  ltb, length, take, drop, set, ◌>>=◌, if◌then◌else◌,
}

-- BUFFER_SIZE and MAX_FILES.
abbrev pub buffer_size : ℕ
buffer_size = 128

abbrev pub max_files : ℕ
max_files = 128

pub record Files : Type 0 where
  pub can_read : ℕ → Bool
  pub content : ℕ → List ℕ
  pub size : ℕ → ℕ
  pub can_write : ℕ → Bool

-- `checkFiles`: whether all can be read.
pub check_files : Files → List ℕ → Bool
check_files fs [] = true
check_files fs (name ∷ names) =
    let rest = check_files fs names in if fs.can_read name then rest else false

-- `fwrite` of an int or a uint32_t.
unfoldable pub word_bytes : ℕ → List ℕ
word_bytes n = n % 256 ∷ n / 256 % 256 ∷ n / 65536 % 256 ∷ n / 16777216 % 256 ∷ []

-- The loop of `write_file`, for what is left to read: a full buffer does not meet the end of the
-- file yet.
pub write_chunks : ℕ → List ℕ → List ℕ → Option (List ℕ)
write_chunks zero rest target = none
write_chunks (suc fuel) rest target =
    let written = target ++ take buffer_size rest in
    let more = write_chunks fuel (drop buffer_size rest) written in
    if ltb (length rest) buffer_size then some written else more

pub write_file : List ℕ → List ℕ → Option (List ℕ)
unfolding write_chunks
write_file target source = write_chunks (length source / buffer_size + 1) source target

-- `write_size`, where `st_size` is cut to 32 bits.
pub write_size : Files → ℕ → List ℕ → List ℕ
unfolding word_bytes
write_size fs name target = target ++ word_bytes (fs.size name % 2 ^ 32)

-- The loop of `buildImage` over the modules.
pub write_modules : Files → List ℕ → List ℕ → Option (List ℕ)
unfolding write_file write_size
write_modules fs [] target = some target
write_modules fs (name ∷ names) target =
    write_file (write_size fs name target) (fs.content name) >>= write_modules fs names

-- The outcome of `buildImage`: FALSE, a fault, or the file that was written.
pub data Built : Type 0 where
  not_created : Built
  faulted : Built
  image : List ℕ → Built

pub built : Option (List ℕ) → Built
built none = faulted
built (some bytes) = image bytes

-- With no file at all `fileArray.array[0]` is no name.
pub build_image : Files → List ℕ → ℕ → Built
unfolding write_file write_modules word_bytes built
build_image fs names output =
    if fs.can_write output
    then (elim names [
      | [] ↦ faulted
      | kernel ∷ modules ↦ built (
          write_file [] (fs.content kernel) >>= λ start.
          write_modules fs modules (start ++ word_bytes (length modules % 2 ^ 32)))
    ])
    else not_created

-- `struct arguments`, and what `argp_parse` hands to `parse_opt`.
pub record Arguments : Type 0 where
  pub args : List ℕ
  pub output_file : ℕ
  pub count : ℕ

pub data Key : Type 0 where
  output : ℕ → Key
  argument : ℕ → ℕ → Key
  end : ℕ → Key
  other : Key

pub data Parsed : Type 0 where
  accepted : Arguments → Parsed
  usage : Parsed
  unknown : Parsed
  overflow : Parsed

-- `overflow` is a write past `args`; the number is `state->arg_num`.
pub parse_opt : Key → Arguments → Parsed
parse_opt (output name) a = accepted (record a { output_file = name })
parse_opt (argument number name) a =
    if ltb number max_files then accepted (record a { args = set a.args number name }) else overflow
parse_opt (end number) a = if ltb number 1 then usage else accepted (record a { count = number })
parse_opt other a = unknown

-- The exit status of `main` after the options are parsed.
pub run : Files → Arguments → Option (ℕ × Option (List ℕ))
unfolding check_files build_image
run fs a =
    let names = take a.count a.args in
    if check_files fs names
    then (elim (build_image fs names a.output_file) [
      | not_created ↦ some (1, none)
      | faulted ↦ none
      | image bytes ↦ some (0, some bytes)
    ])
    else some (1, none)
