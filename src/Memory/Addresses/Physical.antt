-- ===== src/Memory/Addresses/Physical.antt =====
-- The methods of `PhysicalPointer` in kernel_core/src/memory/mod.rs.
use endless_hole.Base.{ℕ, ◌+◌, ◌*◌, ◌%◌, bit_and, bit_or, Bool}
use endless_hole.Base.{Option, none, some, ltb, ◌==◌, if◌then◌else◌}
use endless_hole.Memory.Addresses.{PhysicalPointer, checked, ◌>>=◌, low_bits, kernel_tag}

unfoldable pub byte_add : {T : Type 0} → PhysicalPointer T → ℕ → Option (PhysicalPointer T)
byte_add pointer count = do
  address ← checked (pointer.address + count)
  some (record { address = address })

unfoldable pub add :
    {T : Type 0} → (size_of : ℕ) → PhysicalPointer T → ℕ → Option (PhysicalPointer T)
add size_of pointer count = do offset ← checked (count * size_of); byte_add pointer offset

unfoldable pub cast : {T : Type 0} → (U : Type 0) → PhysicalPointer T → PhysicalPointer U
cast U pointer = record { address = pointer.address }

unfoldable pub null : (T : Type 0) → PhysicalPointer T
null T = record { address = 0 }

unfoldable pub is_null : {T : Type 0} → PhysicalPointer T → Bool
is_null pointer = pointer.address == 0

-- For an alignment that is not 0
unfoldable pub is_aligned_to : {T : Type 0} → PhysicalPointer T → ℕ → Bool
is_aligned_to pointer alignment = pointer.address % alignment == 0

unfoldable pub from_usize : (T : Type 0) → ℕ → Option (PhysicalPointer T)
from_usize T value = if ltb value kernel_tag then some (record { address = value }) else none

unfoldable pub into_usize : {T : Type 0} → PhysicalPointer T → ℕ
into_usize pointer = pointer.address

-- `PhysicalAddress::from_ptr`, which keeps the tag of the pointer
unfoldable pub from_ptr : ℕ → PhysicalPointer (Unit {0})
from_ptr ptr = record { address = ptr }

-- `From<*const T>` and `From<*mut T>`
unfoldable pub from_raw : (T : Type 0) → ℕ → PhysicalPointer T
from_raw T value = record { address = bit_and value low_bits }

-- `From<PhysicalPointer<T>>` for `*const T`, and for `*mut T` outside of the tests
unfoldable pub into_raw : {T : Type 0} → PhysicalPointer T → ℕ
into_raw pointer = bit_or pointer.address kernel_tag
