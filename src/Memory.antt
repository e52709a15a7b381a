-- ===== src/Memory.antt =====
-- Kernel/lib.c and Kernel/moduleLoader.c: memory as bytes, and the copies of the modules that the
-- boot payload holds.
pub mod Copy
mod Tests
use bit_shell_os.Base.{
  ℕ, zero, suc, ◌+◌, ◌*◌, ◌/◌, ◌%◌, ◌^◌, Bool, true, false, ◌&&◌, List, [], ◌∷◌, ◌==◌,
  if◌then◌else◌,
}

abbrev pub store_byte : ℕ → ℕ → (ℕ → ℕ) → ℕ → ℕ
store_byte a v m b = if b == a then v else m b

-- The loop counts down.
pub memset : ℕ → ℕ → ℕ → (ℕ → ℕ) → ℕ → ℕ
memset dst c zero m = m
memset dst c (suc n) m = memset dst c n (store_byte (dst + n) (c % 256) m)

unfoldable pub load_word : ℕ → (ℕ → ℕ) → ℕ
load_word a m = m a + 256 * m (a + 1) + 65536 * m (a + 2) + 16777216 * m (a + 3)

pub store_word : ℕ → ℕ → (ℕ → ℕ) → ℕ → ℕ
store_word a v m = store_byte (a + 3) (v / 16777216 % 256) (
    store_byte (a + 2) (v / 65536 % 256)
      (store_byte (a + 1) (v / 256 % 256) (store_byte a (v % 256) m)))

pub copy_words : ℕ → ℕ → ℕ → (ℕ → ℕ) → ℕ → ℕ
unfolding load_word store_word
copy_words zero dst src m = m
copy_words (suc n) dst src m = copy_words n (dst + 4) (src + 4) (store_word dst (load_word src m) m)

pub copy_bytes : ℕ → ℕ → ℕ → (ℕ → ℕ) → ℕ → ℕ
copy_bytes zero dst src m = m
copy_bytes (suc n) dst src m = copy_bytes n (dst + 1) (src + 1) (store_byte dst (m src) m)

pub memcpy : ℕ → ℕ → ℕ → (ℕ → ℕ) → ℕ → ℕ
memcpy dst src length m =
    if dst % 4 == 0 && src % 4 == 0 && length % 4 == 0
    then copy_words (length / 4) dst src m
    else copy_bytes length dst src m

-- `readUint32`: the word, and the pointer behind it.
unfoldable pub read_uint32 : ℕ → (ℕ → ℕ) → ℕ × ℕ
unfolding load_word
read_uint32 a m = (load_word a m, a + 4)

-- `loadModule`: the pointer behind the module, and the memory.
unfoldable pub load_module : ℕ → ℕ → (ℕ → ℕ) → ℕ × (ℕ → ℕ)
unfolding read_uint32 memcpy
load_module a target m =
    let (size, start) = read_uint32 a m in (start + size, memcpy target start size m)

-- The loop of `loadModules`, with `n` modules left.
unfoldable pub load_each : ℕ → ℕ → List ℕ → (ℕ → ℕ) → ℕ → ℕ
unfolding load_module
load_each zero a targets m = m
load_each (suc n) a [] m = m
load_each (suc n) a (t ∷ ts) m = let (next, m') = load_module a t m in load_each n next ts m'

-- `targets` are the addresses of the array, of which there are enough.
unfoldable pub load_modules : ℕ → List ℕ → (ℕ → ℕ) → ℕ → ℕ
unfolding read_uint32 load_each
load_modules payload targets m =
    let (count, start) = read_uint32 payload m in load_each count start targets m
