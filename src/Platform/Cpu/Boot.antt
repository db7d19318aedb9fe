-- ===== src/Platform/Cpu/Boot.antt =====
-- `boot_all_cores` of kernel_core/src/platform/cpu.rs. The state is the list of the calls that were made
-- so far, in order.
use endless_hole.Base.{
  ℕ, suc, ◌/◌, ◌==◌, Bool, true, false, not, length, ◌&&◌, Option, none, some, List, [], ◌∷◌, ◌++◌,
  if◌then◌else◌,
}
use endless_hole.Memory.Addresses.Physical
use endless_hole.Memory.Addresses.Virtual
use endless_hole.Memory.Buddy as Memory
use endless_hole.Memory.PageTable.{bytes}
use endless_hole.Platform.DeviceTree.Bytes.{
  Run, returned, panics, ◌>>=◌, or_panic, same_bytes, text,
}
use endless_hole.Platform.Cpu.{
  Result, ok, err, PowerManagerError, PhysicalAddress, Call, allocates, starts, PowerManager,
  PageAllocator, BootAllCoresError, unsupported_enable_method, CoreInfo, stack_size,
}

-- `from_utf8(enable_method).unwrap_or("unknown")`
abbrev pub method_name : (List ℕ → Option (List ℕ)) → List ℕ → List ℕ
method_name from_utf8 enable_method = elim (from_utf8 enable_method) [
  | none ↦ text "unknown"
  | some name ↦ name
]

-- `from_utf8` of the core library, and whether the level of `info!` is enabled
module _ (manager : PowerManager) (page_allocator : PageAllocator)
    (from_utf8 : List ℕ → Option (List ℕ)) (info_enabled : Bool) where
  -- Whether a core was started, or the error, and the calls
  abbrev pub CoreBooted : Type 0
  CoreBooted = Result Bool BootAllCoresError × List Call

  unfoldable pub powered :
      List Call
      → (Result (Unit {0}) PowerManagerError → Call)
      → Result (Unit {0}) PowerManagerError
      → CoreBooted
  powered calls call (err source) =
      (err (BootAllCoresError.power source), calls ++ (call (err source) ∷ []))
  powered calls call (ok done) = (ok true, calls ++ (call (ok done) ∷ []))

  -- `start_core`, with the address of the top of the stack in the kernel space
  unfoldable pub start_on : List Call → ℕ → PhysicalAddress → PhysicalAddress → CoreBooted
  unfolding powered
  start_on calls id entry_point_address top =
      let stack : ℕ = Virtual.into_usize (Virtual.from_physical top) in
      powered calls (starts id entry_point_address stack)
        (manager.start_core calls id entry_point_address stack)

  unfoldable pub allocated :
      List Call → ℕ → PhysicalAddress → Result PhysicalAddress Memory.Error → Run CoreBooted
  unfolding start_on
  allocated calls id entry_point_address (err source) =
      returned (err (BootAllCoresError.memory source), calls)
  allocated calls id entry_point_address (ok pages) =
      or_panic (Physical.byte_add pages stack_size) >>= λ top.
      returned (start_on calls id entry_point_address top)

  abbrev pub num_pages : ℕ
  num_pages = stack_size / bytes page_allocator.page_size

  unfoldable pub start_secondary : List Call → ℕ → PhysicalAddress → Run CoreBooted
  unfolding allocated
  start_secondary calls id entry_point_address =
      let pages : Result PhysicalAddress Memory.Error = page_allocator.allocate calls num_pages in
      allocated (calls ++ (allocates num_pages pages ∷ [])) id entry_point_address pages

  -- The body of the loop over the cores
  unfoldable pub boot_core : PhysicalAddress → CoreInfo → List Call → Run CoreBooted
  unfolding start_secondary
  boot_core entry_point_address core calls =
      if not (same_bytes core.enable_method manager.enable_method_name)
      then returned
          (err (unsupported_enable_method (method_name from_utf8 core.enable_method)), calls)
      else if core.id == 0
      then returned (ok false, calls)
      else start_secondary calls core.id entry_point_address

  abbrev pub Counted : Type 0
  Counted = Result ℕ BootAllCoresError × List Call

  -- What follows a core: the error, or the other cores
  unfoldable pub counted : ℕ → (ℕ → List Call → Run Counted) → CoreBooted → Run Counted
  counted successful rest (err e, calls) = returned (err e, calls)
  counted successful rest (ok started, calls) =
      rest (if started then suc successful else successful) calls

  -- The loop, with the number of the cores that were started so far
  unfoldable pub boot_from : PhysicalAddress → List CoreInfo → ℕ → List Call → Run Counted
  unfolding boot_core counted
  boot_from entry_point_address [] successful calls = returned (ok successful, calls)
  boot_from entry_point_address (core ∷ cores) successful calls =
      boot_core entry_point_address core calls
      >>= counted successful (boot_from entry_point_address cores)

  -- The last message prints the number of the cores less one.
  unfoldable pub report :
      List CoreInfo → Counted → Run (Result (Unit {0}) BootAllCoresError × List Call)
  report cores (err e, calls) = returned (err e, calls)
  report cores (ok successful, calls) =
      if info_enabled && length cores == 0 then panics else returned (ok tt, calls)

  unfoldable pub boot_all_cores :
      List CoreInfo
      → PhysicalAddress
      → List Call
      → Run (Result (Unit {0}) BootAllCoresError × List Call)
  unfolding boot_from report
  boot_all_cores cores entry_point_address calls =
      boot_from entry_point_address cores 0 calls >>= report cores
