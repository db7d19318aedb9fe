-- ===== src/Platform/Cpu/Examples.antt =====
-- Runs of `boot_all_cores`, and its theorem at a concrete input.
use endless_hole.Base.{
  ℕ, ◌+◌, arith, ◌≡◌, refl, ap, ◌==◌, if◌then◌else◌, true, some, List, [], ◌∷◌, ◌++◌,
}
use endless_hole.Memory.Addresses.{PhysicalPointer, kernel_tag}
use endless_hole.Memory.Addresses as Addresses
use endless_hole.Memory.Addresses.Physical
use endless_hole.Memory.Addresses.Virtual
use endless_hole.Memory.PageTable.{PageSize}
use endless_hole.Platform.DeviceTree.Bytes.{returned, panics, text, same_bytes}
use endless_hole.Platform.Cpu.{
  Result, ok, err, PowerManagerError, PhysicalAddress, Call, allocates, starts, PowerManager,
  PageAllocator, BootAllCoresError, CoreInfo,
}
use endless_hole.Platform.Cpu.Boot as Boot
use endless_hole.Platform.Cpu.Boot.{boot_all_cores}
use endless_hole.Platform.Cpu.Boots.{IsInMemory, Boots, boot_all_cores-Boots}

-- An allocator that hands out a stack at 1 GiB again and again
abbrev page_allocator : PageAllocator
page_allocator = record {
  allocate = λ calls n. ok (record { address = 0x40000000 });
  page_size = PageSize.four_kib;
}

-- It starts every core but core 3.
abbrev manager : PowerManager
manager = record {
  start_core =
      λ calls core entry arg. if core == 3 then err PowerManagerError.invalid_core_id else ok tt;
  enable_method_name = text "psci";
}

abbrev entry : PhysicalAddress
entry = record { address = 0x40080000 }

abbrev core : ℕ → CoreInfo
core id = record { id = id; enable_method = text "psci" }

in_memory : IsInMemory page_allocator
in_memory calls n pages h =
    let same : record { address = 0x40000000 } ≡ pages = cc in
    let at_pages : 0x40000000 ≡ pages.address = ap (λ (p : PhysicalAddress). p.address) same in
    omega arith

two_of_three :
    boot_all_cores manager page_allocator some true
      (core 0 ∷ core 1 ∷ core 3 ∷ core 2 ∷ [])
      entry
      []
    ≡ returned (
      err (BootAllCoresError.power PowerManagerError.invalid_core_id),
      allocates 1024 (ok (record { address = 0x40000000 }))
          ∷ starts 1 entry (0x40400000 + kernel_tag) (ok tt)
          ∷ allocates 1024 (ok (record { address = 0x40000000 }))
          ∷ starts 3 entry (0x40400000 + kernel_tag) (err PowerManagerError.invalid_core_id)
          ∷ [],
    )
unfolding boot_all_cores Boot.boot_from Boot.boot_core Boot.counted Boot.report Boot.start_secondary
    Boot.allocated Boot.start_on Boot.powered Physical.byte_add Addresses.checked Virtual.into_usize
    Virtual.from_physical same_bytes
two_of_three = refl

-- Without any core, the number of the secondary cores in the last message overflows.
no_cores : boot_all_cores manager page_allocator some true [] entry [] ≡ panics
unfolding boot_all_cores Boot.boot_from Boot.report
no_cores = refl

boot_all_cores-Boots_example :
    (es : List Call) × (r : Result (Unit {0}) BootAllCoresError) × (boot_all_cores manager
        page_allocator some true
        (core 0 ∷ core 1 ∷ core 3 ∷ [])
        entry
        []
      ≡ returned (r, [] ++ es))
    × Boots manager page_allocator some entry (core 0 ∷ core 1 ∷ core 3 ∷ []) es r
boot_all_cores-Boots_example =
    boot_all_cores-Boots manager page_allocator some true in_memory entry
      (core 0 ∷ core 1 ∷ core 3 ∷ []) [] refl
