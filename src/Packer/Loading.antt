-- ===== src/Packer/Loading.antt =====
-- What Toolchain/ModulePacker/main.c writes is what Kernel/moduleLoader.c loads.
use bit_shell_os.Base.{
  ℕ, zero, suc, ◌+◌, ◌-◌, ◌*◌, ◌/◌, ◌%◌, ◌^◌, ◌≤◌, ◌<◌, ◌≡◌, refl, sym, ap, subst, ◌∙◌, inl, inr,
  true, some, List, [], ◌∷◌, ◌++◌, ltb, length, take, drop, length-append, All, arith, Bool-cases,
  ltb→le, ltb→lt, map, ◌>>=◌,
}
use mathlib.Core.List.{append_assoc, append-nil}
use bit_shell_os.Memory.{memcpy, load_each, load_modules}
use bit_shell_os.Memory.Copy.{IsBytes, memcpy_lem, memcpy-IsBytes}
use bit_shell_os.Packer.{
  Files, word_bytes, write_chunks, write_file, write_size, write_modules, image, built, build_image,
}
use bit_shell_os.Packer.Layout.{
  modules_bytes, payload, Holds, Holds-append, load_word-Holds, Outside, Placed, Loaded,
  AwayFrom-Outside,
}

take-drop : (n : ℕ) (xs : List ℕ) → take n xs ++ drop n xs ≡ xs
take-drop zero xs = refl
take-drop (suc n) [] = refl
take-drop (suc n) (x ∷ xs) = ap (λ ys. x ∷ ys) (take-drop n xs)

take_all : (n : ℕ) (xs : List ℕ) → length xs ≤ n → take n xs ≡ xs
take_all zero [] h = refl
take_all zero (x ∷ xs) h = absurd (omega arith)
take_all (suc n) [] h = refl
take_all (suc n) (x ∷ xs) h = ap (λ ys. x ∷ ys) (take_all n xs (omega arith))

length-drop : (n : ℕ) (xs : List ℕ) → length (drop n xs) ≡ length xs - n
length-drop zero xs = omega arith
length-drop (suc n) [] = omega arith
length-drop (suc n) (x ∷ xs) = length-drop n xs ∙ omega arith

length-map : (f : ℕ → List ℕ) (xs : List ℕ) → length (map f xs) ≡ length xs
length-map f [] = refl
length-map f (x ∷ xs) = ap suc (length-map f xs)

write_chunks_total :
    (fuel : ℕ) (rest target : List ℕ)
    → length rest < 128 * fuel
    → write_chunks fuel rest target ≡ some (target ++ rest)
unfolding write_chunks
write_chunks_total zero rest target h = absurd (omega arith)
write_chunks_total (suc fuel) rest target h = elim (Bool-cases (ltb (length rest) 128)) [
  | inl last ↦ rw (last, take_all 128 rest (omega (arith, ltb→lt (length rest) 128 last))) refl
  | inr full ↦ rw full (
      write_chunks_total fuel (drop 128 rest) (target ++ take 128 rest)
        (omega (arith, length-drop 128 rest, ltb→le (length rest) 128 full))
      ∙ ap some (
          append_assoc target (take 128 rest) (drop 128 rest)
          ∙ ap (λ ys. target ++ ys) (take-drop 128 rest)))
]

write_file_lem : (target source : List ℕ) → write_file target source ≡ some (target ++ source)
unfolding write_file
write_file_lem target source =
    write_chunks_total (length source / 128 + 1) source target (omega arith)

-- `stat` tells the size of the file that is read, which fits 32 bits.
abbrev pub IsSized : Files → ℕ → Type 0
IsSized fs name = (fs.size name ≡ length (fs.content name)) × (length (fs.content name) < 2 ^ 32)

write_modules_lem :
    (fs : Files) (names : List ℕ) (target : List ℕ)
    → All (IsSized fs) names
    → write_modules fs names target ≡ some (target ++ modules_bytes (map fs.content names))
unfolding write_modules write_size
write_modules_lem fs [] target h = ap some (sym (append-nil target))
write_modules_lem fs (name ∷ names) target ((exact, small), h) =
    let cut : fs.size name % 2 ^ 32 ≡ length (fs.content name) = omega (arith, exact, small) in
    let bytes = word_bytes (length (fs.content name)) in
    ap (λ n. write_file (target ++ word_bytes n) (fs.content name) >>= write_modules fs names) cut
    ∙ ap (λ o. o >>= write_modules fs names) (write_file_lem (target ++ bytes) (fs.content name))
    ∙ write_modules_lem fs names ((target ++ bytes) ++ fs.content name) h
    ∙ ap some (
        append_assoc (target ++ bytes) (fs.content name) (modules_bytes (map fs.content names))
        ∙ append_assoc target bytes (fs.content name ++ modules_bytes (map fs.content names)))

-- Where the files have the sizes that `stat` tells, fewer than 2^32 of them and each below 2^32
-- bytes, and the output can be written, the image is the kernel's binary followed by the payload.
pub build_image_lem :
    (fs : Files) (kernel : ℕ) (modules : List ℕ) (output : ℕ)
    → fs.can_write output ≡ true
    → length modules < 2 ^ 32
    → All (IsSized fs) modules
    → build_image fs (kernel ∷ modules) output
      ≡ image (fs.content kernel ++ payload (map fs.content modules))
unfolding build_image built
build_image_lem fs kernel modules output writable few h =
    let cut : length modules % 2 ^ 32 ≡ length (map fs.content modules) =
      omega (arith, few, length-map fs.content modules) in
    let start = fs.content kernel in
    rw writable (
      ap
        (λ o.
          built (o >>= λ w. write_modules fs modules (w ++ word_bytes (length modules % 2 ^ 32))))
        (write_file_lem [] start)
      ∙ ap (λ n. built (write_modules fs modules (start ++ word_bytes n))) cut
      ∙ ap built
          (write_modules_lem fs modules (start ++ word_bytes (length (map fs.content modules))) h)
      ∙ ap image (
          append_assoc start (word_bytes (length (map fs.content modules)))
            (modules_bytes (map fs.content modules))))

sizes_fit :
    (fs : Files) (names : List ℕ)
    → All (IsSized fs) names
    → All (λ c. length c < 2 ^ 32) (map fs.content names)
sizes_fit fs [] h = tt
sizes_fit fs (name ∷ names) (s, h) = (s.1, sizes_fit fs names h)

-- The loader's loop over a payload that the memory holds.
load_each_lem :
    (cs : List (List ℕ)) (ts : List ℕ) (lo hi a : ℕ) (m : ℕ → ℕ)
    → IsBytes m
    → All (λ c. length c < 2 ^ 32) cs
    → Holds m a (modules_bytes cs)
    → lo ≤ a
    → a + length (modules_bytes cs) ≤ hi
    → Placed lo hi ts cs
    → let m' = load_each (length cs) a ts m in
      Loaded m' ts cs × ((x : ℕ) → Outside x ts cs → m' x ≡ m x)
unfolding load_each word_bytes
load_each_lem [] ts lo hi a m bytes small holds above below placed = (tt, λ x out. refl)
load_each_lem (c ∷ cs) [] lo hi a m bytes small holds above below placed = absurd placed
load_each_lem (c ∷ cs) (t ∷ ts) lo hi a m bytes (fits, small) holds above below
      (away, apart, placed) =
    let (size_holds, rest_holds) =
      Holds-append m a (word_bytes (length c)) (c ++ modules_bytes cs) holds in
    let (c_holds, cs_hold) = Holds-append m (a + 4) c (modules_bytes cs) rest_holds in
    let size = load_word-Holds m a (length c) fits size_holds in
    let l = length-append c (modules_bytes cs) in
    let (inside, outside) = memcpy_lem t (a + 4) (length c) m bytes (ground (arith, l)) in
    let m₁ = memcpy t (a + 4) (length c) m in
    let kept : Holds m₁ (a + 4 + length c) (modules_bytes cs) =
      λ i s. outside (a + 4 + length c + i) (ground (arith, l)) ∙ cs_hold i s in
    let (loaded, same) =
      load_each_lem cs ts lo hi (a + 4 + length c) m₁ (memcpy-IsBytes t (a + 4) (length c) m bytes)
        small kept (omega arith) (omega (arith, l)) placed in
    subst
      (λ n.
        let m' = load_each (length cs) (a + 4 + n) ts (memcpy t (a + 4) n m) in
        Loaded m' (t ∷ ts) (c ∷ cs) × ((x : ℕ) → Outside x (t ∷ ts) (c ∷ cs) → m' x ≡ m x))
      (sym size)
      (
        (
          λ i s.
              same (t + i) (AwayFrom-Outside t (length c) i ts cs s apart)
              ∙ inside i s
              ∙ c_holds i s,
          loaded,
        ),
        λ x (out, outs). same x outs ∙ outside x out,
      )

-- A memory of bytes that holds a payload of fewer than 2^32 modules of fewer than 2^32 bytes each,
-- and targets outside it and outside each other: the loader puts every module at its target, and
-- changes no byte outside the targets.
pub load_modules-payload :
    (cs : List (List ℕ)) (ts : List ℕ) (a : ℕ) (m : ℕ → ℕ)
    → IsBytes m
    → length cs < 2 ^ 32
    → All (λ c. length c < 2 ^ 32) cs
    → Holds m a (payload cs)
    → Placed a (a + length (payload cs)) ts cs
    → Loaded (load_modules a ts m) ts cs × ((x : ℕ) → Outside x ts cs → load_modules a ts m x ≡ m x)
unfolding load_modules word_bytes
load_modules-payload cs ts a m bytes few small holds placed =
    let (count_holds, rest) = Holds-append m a (word_bytes (length cs)) (modules_bytes cs) holds in
    let count = load_word-Holds m a (length cs) few count_holds in
    let end : a + 4 + length (modules_bytes cs) ≤ a + length (payload cs) = omega arith in
    subst
      (λ n.
        Loaded (load_each n (a + 4) ts m) ts cs
        × ((x : ℕ) → Outside x ts cs → load_each n (a + 4) ts m x ≡ m x))
      (sym count)
      (load_each_lem cs ts a (a + length (payload cs)) (a + 4) m bytes small rest (omega arith) end
        placed)

-- Where the sizes that `stat` tells are those of the files, below 2^32, as is their number, the
-- packer writes the kernel's binary followed by the payload of the modules. In a memory that holds
-- these bytes, with targets outside the payload and outside each other, the kernel's loader, started
-- behind the kernel's binary, puts every module at its target, and changes no byte outside the
-- targets.
pub load_modules-build_image :
    (fs : Files) (kernel : ℕ) (modules : List ℕ) (output : ℕ) (ts : List ℕ) (start : ℕ) (m : ℕ → ℕ)
    → fs.can_write output ≡ true
    → length modules < 2 ^ 32
    → All (IsSized fs) modules
    → IsBytes m
    → length (fs.content kernel) ≤ start
    → Holds m
        (start - length (fs.content kernel))
        (fs.content kernel ++ payload (map fs.content modules))
    → Placed start (start + length (payload (map fs.content modules))) ts (map fs.content modules)
    → (build_image fs (kernel ∷ modules) output
        ≡ image (fs.content kernel ++ payload (map fs.content modules)))
      × Loaded (load_modules start ts m) ts (map fs.content modules)
      × ((x : ℕ) → Outside x ts (map fs.content modules) → load_modules start ts m x ≡ m x)
load_modules-build_image fs kernel modules output ts start m writable few sized bytes room holds
      placed =
    let cs = map fs.content modules in
    let behind : start - length (fs.content kernel) + length (fs.content kernel) ≡ start =
      omega arith in
    let payload_holds =
      (Holds-append m (start - length (fs.content kernel)) (fs.content kernel) (payload cs)
        holds).1 in
    let (loaded, same) =
      load_modules-payload cs ts start m bytes (omega (arith, few, length-map fs.content modules))
        (sizes_fit fs modules sized) (subst (λ a. Holds m a (payload cs)) behind payload_holds)
        placed in
    (build_image_lem fs kernel modules output writable few sized, loaded, same)
