-- ===== src/Platform/Cpu.antt =====
-- kernel_core/src/platform/cpu.rs: the errors of the bring-up of cores, and what it asks of the power
-- management and of the page allocator. Those two are parameters: what a call of them gives is a
-- function of the calls before it, so that they may keep any state.
pub mod Boot
pub mod Boots
pub mod Cores
mod Examples
use endless_hole.Base.{ℕ, ◌*◌, List}
pub use endless_hole.Memory.Addresses.{PhysicalAddress}
use endless_hole.Memory.Buddy as Memory
use endless_hole.Memory.PageTable.{PageSize}

pub data Result (A E : Type 0) : Type 0 where
  ok : A → Result A E
  err : E → Result A E

pub data PowerManagerError : Type 0 where
  invalid_core_id invalid_address already_on pending internal : PowerManagerError

-- A call of the page allocator or of the power manager, and what it gave
pub data Call : Type 0 where
  allocates : (num_pages : ℕ) → Result PhysicalAddress Memory.Error → Call
  starts :
      (target_core : ℕ) (entry_point_address : PhysicalAddress) (arg : ℕ)
      → Result (Unit {0}) PowerManagerError
      → Call

pub record PowerManager : Type 0 where
  pub start_core : List Call → ℕ → PhysicalAddress → ℕ → Result (Unit {0}) PowerManagerError
  pub enable_method_name : List ℕ

pub record PageAllocator : Type 0 where
  pub allocate : List Call → ℕ → Result PhysicalAddress Memory.Error
  pub page_size : PageSize

pub data BootAllCoresError : Type 0 where
  unsupported_enable_method : (method : List ℕ) → BootAllCoresError
  power : PowerManagerError → BootAllCoresError
  memory : Memory.Error → BootAllCoresError

pub record CoreInfo : Type 0 where
  pub id : ℕ
  pub enable_method : List ℕ

abbrev pub stack_size : ℕ
stack_size = 4 * 1024 * 1024
