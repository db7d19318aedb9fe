-- ===== src/Memory/Addresses/Virtual.antt =====
-- The methods of `VirtualPointer` and `VirtualPointerMut` in kernel_core/src/memory/mod.rs.
use endless_hole.Base.{ℕ, ◌+◌, ◌*◌, ◌%◌, bit_and, bit_or, Bool}
use endless_hole.Base.{Option, none, some, ◌==◌, if◌then◌else◌}
use endless_hole.Memory.Addresses.{
  PhysicalPointer, VirtualPointer, Conversion, checked, ◌>>=◌, low_bits, kernel_tag,
}
use endless_hole.Memory.Addresses.Physical

unfoldable pub is_in_kernel_space : {T : Type 0} → VirtualPointer T → Bool
is_in_kernel_space pointer = bit_and pointer.address kernel_tag == kernel_tag

unfoldable pub byte_add : {T : Type 0} → VirtualPointer T → ℕ → Option (VirtualPointer T)
byte_add pointer count = do
  address ← checked (pointer.address + count)
  some (record { address = address })

unfoldable pub add : {T : Type 0} → (size_of : ℕ) → VirtualPointer T → ℕ → Option (VirtualPointer T)
add size_of pointer count = do offset ← checked (count * size_of); byte_add pointer offset

unfoldable pub cast : {T : Type 0} → (U : Type 0) → VirtualPointer T → VirtualPointer U
cast U pointer = record { address = pointer.address }

-- For an alignment that is not 0
unfoldable pub is_aligned_to : {T : Type 0} → VirtualPointer T → ℕ → Bool
is_aligned_to pointer alignment = pointer.address % alignment == 0

unfoldable pub null : (T : Type 0) → VirtualPointer T
null T = record { address = 0 }

-- `From<usize>`, `From<*const T>` and `From<*mut T>`
unfoldable pub from_usize : (T : Type 0) → ℕ → VirtualPointer T
from_usize T value = record { address = value }

unfoldable pub into_usize : {T : Type 0} → VirtualPointer T → ℕ
into_usize pointer = pointer.address

-- `TryFrom` for `*const T` and `*mut T`
unfoldable pub try_into_raw : {T : Type 0} → VirtualPointer T → Conversion ℕ
try_into_raw pointer =
    if is_in_kernel_space pointer
    then Conversion.converted pointer.address
    else Conversion.not_in_kernel_address_space

unfoldable pub from_physical : {T : Type 0} → PhysicalPointer T → VirtualPointer T
from_physical pointer = record { address = bit_or pointer.address kernel_tag }

-- The argument of `then_some` is computed whether it is used or not.
unfoldable pub converts :
    {T : Type 0} → Bool → Option (PhysicalPointer T) → Conversion (PhysicalPointer T)
converts in_kernel none = Conversion.panicked
converts in_kernel (some physical) =
    if in_kernel then Conversion.converted physical else Conversion.not_in_kernel_address_space

-- `TryFrom` for `PhysicalPointer<T>`
unfoldable pub try_into_physical : {T : Type 0} → VirtualPointer T → Conversion (PhysicalPointer T)
try_into_physical {T} pointer =
    converts (is_in_kernel_space pointer) (Physical.from_usize T (bit_and pointer.address low_bits))
