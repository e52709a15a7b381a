-- ===== src/Boot/Image.antt =====
-- `initializeKernelBinary` of Kernel/kernel.c: the modules at their addresses, and the cleared BSS.
use bit_shell_os.Base.{ℕ, ◌+◌, ◌-◌, ◌^◌, ◌≤◌, ◌<◌, ◌≡◌, ◌∙◌, ◌⊎◌, List, [], ◌∷◌, length, All, arith}
use bit_shell_os.Memory.{memset, load_modules}
use bit_shell_os.Memory.Copy.{IsBytes, memset_lem}
use bit_shell_os.Packer.Layout.{Holds, payload, AwayFrom, Placed, Loaded}
use bit_shell_os.Packer.Loading.{load_modules-payload}
use bit_shell_os.Boot.{Sections, module_addresses, clear_bss, initialize_kernel_binary}

-- A change outside the targets leaves the modules there.
Loaded-outside :
    (m m' : ℕ → ℕ) (lo n : ℕ) (ts : List ℕ) (cs : List (List ℕ))
    → ((x : ℕ) → (x < lo) ⊎ (lo + n ≤ x) → m' x ≡ m x)
    → AwayFrom lo n ts cs
    → Loaded m ts cs
    → Loaded m' ts cs
Loaded-outside m m' lo n ts [] same away h = tt
Loaded-outside m m' lo n [] (c ∷ cs) same away h = absurd h
Loaded-outside m m' lo n (t ∷ ts) (c ∷ cs) same away h = (
  λ i small. same (t + i) (ground (arith, away.0)) ∙ h.0 i small,
  Loaded-outside m m' lo n ts cs same away.1 h.1,
)

-- In a memory of bytes with the payload of the modules behind the kernel's binary, whose modules have
-- less than 2^32 bytes each, whose targets lie outside the payload, outside each other and outside the
-- BSS: every module ends up at its fixed address, and the whole BSS is 0. The BSS may lie over the
-- payload.
pub initialize_kernel_binary_lem :
    (s : Sections) (cs : List (List ℕ)) (m : ℕ → ℕ)
    → IsBytes m
    → length cs < 2 ^ 32
    → All (λ c. length c < 2 ^ 32) cs
    → Holds m s.end_of_kernel_binary (payload cs)
    → Placed s.end_of_kernel_binary
        (s.end_of_kernel_binary + length (payload cs))
        module_addresses
        cs
    → AwayFrom s.bss (s.end_of_kernel - s.bss) module_addresses cs
    → let m' = (initialize_kernel_binary s m).0 in
      Loaded m' module_addresses cs × ((i : ℕ) → i < s.end_of_kernel - s.bss → m' (s.bss + i) ≡ 0)
unfolding initialize_kernel_binary clear_bss
initialize_kernel_binary_lem s cs m bytes few small holds placed away =
    let size = s.end_of_kernel - s.bss in
    let loaded = load_modules s.end_of_kernel_binary module_addresses m in
    let there =
      load_modules-payload cs module_addresses s.end_of_kernel_binary m bytes few small holds
        placed in
    let (zeros, same) = memset_lem s.bss 0 size loaded in
    (
      Loaded-outside loaded (memset s.bss 0 size loaded) s.bss size module_addresses cs same away
          there.0,
      zeros,
    )
