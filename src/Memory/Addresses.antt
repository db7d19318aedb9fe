-- ===== src/Memory/Addresses.antt =====
-- kernel_core/src/memory/mod.rs: physical and virtual pointers, and the conversions between them, raw
-- pointers and numbers. A raw pointer is its address. Additions are checked for overflow: `none` is
-- the panic. `VirtualPointer` stands for `VirtualPointerMut` too, as one macro makes both.
pub mod Physical
pub mod Virtual
pub mod Translate
mod Examples
use endless_hole.Base.{ℕ, ◌+◌, ◌-◌, ◌*◌, ◌/◌, ◌%◌, ◌^◌, bit_and, bit_or, Bool}
use endless_hole.Base.{Option, none, some, ltb, ◌==◌, if◌then◌else◌}
use endless_hole.Memory.PageTable.{PageSize, bytes}

pub record PhysicalPointer (T : Type 0) : Type 0 where
  pub address : ℕ

pub record VirtualPointer (T : Type 0) : Type 0 where
  pub address : ℕ

abbrev pub PhysicalAddress : Type 0
PhysicalAddress = PhysicalPointer (Unit {0})

-- What `TryFrom` gives, or the panic of a conversion inside of it.
pub data Conversion (A : Type 0) : Type 0 where
  converted : A → Conversion A
  not_in_kernel_address_space : Conversion A
  panicked : Conversion A

infixl 5 ◌>>=◌
abbrev pub ◌>>=◌ {ℓ κ} : {A : Type ℓ} {B : Type κ} → Option A → (A → Option B) → Option B
none >>= f = none
some a >>= f = f a

-- Sums and products of a `usize`
unfoldable pub checked : ℕ → Option ℕ
checked n = if ltb n (2 ^ 64) then some n else none

-- `0x0000_ffff_ffff_ffff`
abbrev pub low_bits : ℕ
low_bits = 2 ^ 48 - 1

-- `0xffff_0000_0000_0000`
abbrev pub kernel_tag : ℕ
kernel_tag = 0xffff * 2 ^ 48

unfoldable pub page_size_from : ℕ → Option PageSize
page_size_from value =
    if value == 0x1000
    then some PageSize.four_kib
    else if value == 0x4000
    then some PageSize.sixteen_kib
    else none

unfoldable pub page_size_mul : PageSize → ℕ → Option ℕ
page_size_mul size rhs = checked (bytes size * rhs)

unfoldable pub page_size_div : ℕ → PageSize → ℕ
page_size_div lhs size = lhs / bytes size
