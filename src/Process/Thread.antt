-- ===== src/Process/Thread.antt =====
-- kernel_core/src/process/thread/mod.rs: a thread, its execution state, and how it gets its id.
pub mod Create
mod Examples
use mathlib.Core.Option
use endless_hole.Base.{ℕ, zero, suc, ◌%◌, ◌^◌, Option, none, some, ◌==◌, if◌then◌else◌}
use endless_hole.Process.Scheduler.{State, running, blocked}
use endless_hole.Collections.HandleMap.Map.{
  HandleMap, Inserted, exhausted, panicked, inserted, insert_self_referential,
}

unfoldable pub into_integer : State → ℕ
into_integer running = 0
into_integer blocked = 1

-- `none` is a panic.
unfoldable pub from_integer : ℕ → Option State
from_integer value = if value == 0 then some running else if value == 1 then some blocked else none

-- `P` is the processor state, which stands for the mutex that holds it.
pub record Thread (P : Type 0) : Type 0 where
  pub id : ℕ
  pub properties : ℕ
  pub processor_state : P

-- What the macro of the crate `bitfield` makes of the field `state: 8, 0`: the bits of a number from
-- one bit to another, and the number with these bits replaced.
module _ (bit_range : (x msb lsb : ℕ) → ℕ) (set_bit_range : (x msb lsb value : ℕ) → ℕ) where
  unfoldable pub new_properties : State → ℕ
  unfolding into_integer
  new_properties state = set_bit_range 0 8 0 (into_integer state)

  unfoldable pub state : {P : Type 0} → Thread P → Option State
  unfolding from_integer
  state t = from_integer (bit_range t.properties 8 0 % 2 ^ 8)

  -- The thread that is made for an id.
  unfoldable pub make_thread : {P : Type 0} → State → P → ℕ → Thread P
  unfolding new_properties
  make_thread initial_state initial_processor_state id = record {
    id = id;
    properties = new_properties initial_state;
    processor_state = initial_processor_state;
  }

  abbrev pub created : {P : Type 0} → Inserted (Thread P) → Option (Thread P × HandleMap (Thread P))
  created exhausted = none
  created panicked = none
  created (inserted handle val map) = some (val, map)

  -- The thread, and the store with it; `none` is a panic.
  unfoldable pub new :
      {P : Type 0} → HandleMap (Thread P) → State → P → Option (Thread P × HandleMap (Thread P))
  unfolding make_thread insert_self_referential
  new {P} store initial_state initial_processor_state =
      created (
        insert_self_referential (Thread P) store
          (make_thread initial_state initial_processor_state))
