-- ===== src/Memory/Addresses/Examples.antt =====
-- Pointers that are converted, and the theorems about them at concrete inputs.
use endless_hole.Base.{ℕ, ◌+◌, ◌^◌, arith, ◌≡◌, refl, some, none, ◌-◌}
use endless_hole.Memory.Addresses.{PhysicalPointer, VirtualPointer, Conversion, kernel_tag}
use endless_hole.Memory.Addresses as Addresses
use endless_hole.Memory.Addresses.Physical
use endless_hole.Memory.Addresses.Virtual
use endless_hole.Memory.Addresses.Translate.{
  Translates, try_into_physical-Translates, IsMapped, from_physical-IsMapped, add-from_physical,
}

-- The registers of a UART, and where the kernel sees them
abbrev uart : PhysicalPointer ℕ
uart = record { address = 0x9000000 }

abbrev mapped_uart : VirtualPointer ℕ
mapped_uart = record { address = 0xffff000009000000 }

seen : Virtual.from_physical uart ≡ mapped_uart
unfolding Virtual.from_physical
seen = refl

found : Virtual.try_into_physical mapped_uart ≡ Conversion.converted uart
unfolding Virtual.try_into_physical Virtual.converts Virtual.is_in_kernel_space Physical.from_usize
found = refl

in_user_space :
    Virtual.try_into_physical (Virtual.from_usize ℕ 0x9000000)
    ≡ Conversion.not_in_kernel_address_space
unfolding Virtual.try_into_physical Virtual.converts Virtual.is_in_kernel_space Physical.from_usize
    Virtual.from_usize
in_user_space = refl

-- An address that is too large for 48 bits is accepted, and is another one in the kernel space.
too_large : Physical.from_usize ℕ (2 ^ 48 + 8) ≡ some (record { address = 2 ^ 48 + 8 })
unfolding Physical.from_usize
too_large = refl

past_the_end : Virtual.byte_add (Virtual.from_usize ℕ (2 ^ 64 - 8)) 8 ≡ none
unfolding Virtual.byte_add Virtual.from_usize Addresses.checked
past_the_end = refl

try_into_physical-Translates_example : Translates mapped_uart
try_into_physical-Translates_example = try_into_physical-Translates mapped_uart (omega arith)

from_physical-IsMapped_example : IsMapped uart 0x9000000
from_physical-IsMapped_example = from_physical-IsMapped uart (omega arith)

third_register : Physical.add 4 uart 3 ≡ some (record { address = 0x900000c })
unfolding Physical.add Physical.byte_add Addresses.checked
third_register = refl

add-from_physical_example :
    Virtual.add 4 (Virtual.from_physical uart) 3
    ≡ some (Virtual.from_physical (record { address = 0x900000c }))
add-from_physical_example =
    add-from_physical 4 3 uart (record { address = 0x900000c }) third_register (omega arith)
