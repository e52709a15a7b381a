-- ===== src/Interrupts.antt =====
-- Kernel/interruptions/idtLoader.c: the interrupt table.
use bit_shell_os.Base.{
  ℕ, ◌+◌, ◌*◌, ◌/◌, ◌%◌, ◌^◌, ◌<◌, ◌≡◌, ◌≢◌, refl, ◌==◌, if◌then◌else◌, arith, eq→==, ne→==,
}

-- `DESCR_INT`; the bits of an address that each offset holds are numbers.
pub record Descriptor : Type 0 where
  pub offset_l : ℕ
  pub selector : ℕ
  pub cero : ℕ
  pub access : ℕ
  pub offset_m : ℕ
  pub offset_h : ℕ
  pub other_cero : ℕ

-- ACS_INT of defs.h: present, and an interrupt gate.
abbrev pub acs_int : ℕ
acs_int = 0x8E

pub setup_idt_entry : ℕ → ℕ → (ℕ → Descriptor) → ℕ → Descriptor
setup_idt_entry index offset idt i =
    if i == index
    then record {
      selector = 0x08;
      offset_l = offset % 2 ^ 16;
      offset_m = offset / 2 ^ 16 % 2 ^ 16;
      offset_h = offset / 2 ^ 32 % 2 ^ 32;
      access = acs_int;
      cero = 0;
      other_cero = 0;
    }
    else idt i

-- The addresses of the five handlers of asm/interrupts.asm.
pub record Handlers : Type 0 where
  pub irq00 : ℕ
  pub irq01 : ℕ
  pub syscall : ℕ
  pub exception0 : ℕ
  pub exception6 : ℕ

-- The masks that the two interrupt controllers get go with the table.
pub load_idt : Handlers → (ℕ → Descriptor) → (ℕ → Descriptor) × (ℕ × ℕ)
unfolding setup_idt_entry
load_idt h idt = (
  setup_idt_entry 0x06 h.exception6 (
      setup_idt_entry 0x00 h.exception0 (
        setup_idt_entry 0x80 h.syscall
          (setup_idt_entry 0x21 h.irq01 (setup_idt_entry 0x20 h.irq00 idt)))),
  (0xFC, 0xFF),
)

-- The address that the processor reads from a gate.
pub target : Descriptor → ℕ
target d = d.offset_l + 2 ^ 16 * d.offset_m + 2 ^ 32 * d.offset_h

split_address :
    (offset : ℕ)
    → offset < 2 ^ 64
    → offset % 2 ^ 16 + 2 ^ 16 * (offset / 2 ^ 16 % 2 ^ 16) + 2 ^ 32 * (offset / 2 ^ 32 % 2 ^ 32)
      ≡ offset
split_address offset h = omega arith

target-setup_idt_entry :
    (index offset : ℕ) (idt : ℕ → Descriptor)
    → offset < 2 ^ 64
    → target (setup_idt_entry index offset idt index) ≡ offset
unfolding target setup_idt_entry
target-setup_idt_entry index offset idt h = rw (eq→== index index refl) (split_address offset h)

-- Where the handlers are 64-bit addresses, the gates 0x20, 0x21, 0x80, 0x00 and 0x06 lead to the
-- two interrupts, the system calls and the two exceptions; every other gate is what it was.
pub load_idt_lem :
    (h : Handlers) (idt : ℕ → Descriptor)
    → h.irq00 < 2 ^ 64
    → h.irq01 < 2 ^ 64
    → h.syscall < 2 ^ 64
    → h.exception0 < 2 ^ 64
    → h.exception6 < 2 ^ 64
    → (target ((load_idt h idt).0 0x20) ≡ h.irq00)
      × (target ((load_idt h idt).0 0x21) ≡ h.irq01)
      × (target ((load_idt h idt).0 0x80) ≡ h.syscall)
      × (target ((load_idt h idt).0 0x00) ≡ h.exception0)
      × (target ((load_idt h idt).0 0x06) ≡ h.exception6)
      × ((i : ℕ)
          → i ≢ 0x20
          → i ≢ 0x21
          → i ≢ 0x80
          → i ≢ 0x00
          → i ≢ 0x06
          → (load_idt h idt).0 i ≡ idt i)
unfolding load_idt target setup_idt_entry
load_idt_lem h idt a b c d e = (
  split_address h.irq00 a,
  split_address h.irq01 b,
  split_address h.syscall c,
  split_address h.exception0 d,
  split_address h.exception6 e,
  λ i n₁ n₂ n₃ n₄ n₅.
      rw (ne→== i 0x06 n₅, ne→== i 0x00 n₄, ne→== i 0x80 n₃, ne→== i 0x21 n₂, ne→== i 0x20 n₁) refl,
)
