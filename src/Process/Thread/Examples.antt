-- ===== src/Process/Thread/Examples.antt =====
-- Threads made in a new store.
use endless_hole.Base.{ℕ, ◌+◌, ◌-◌, ◌*◌, ◌/◌, ◌%◌, ◌^◌, ◌≤◌, ◌≡◌, arith}
use native.Mathlib.Nat.{mul-div_left, one-le-pow, mod-mod}
use endless_hole.Process.Scheduler.{blocked}
use endless_hole.Process.Thread as Thread
use endless_hole.Process.Thread.Create.{Creates, new-Creates}
use endless_hole.Collections.HandleMap.Map as Map
use endless_hole.Collections.HandleMap.Map.{HandleMap}
use endless_hole.Collections.HandleMap.Laws.{IsValid, the_map, the_map-IsValid, new-IsEmpty}

-- The largest thread id is 0xffff.
abbrev store : HandleMap (Thread.Thread ℕ)
store =
    the_map (Thread.Thread ℕ) (Map.new (Thread.Thread ℕ) 0xffff)
      (new-IsEmpty (Thread.Thread ℕ) 0xffff (omega arith) (omega arith))

store-IsValid : IsValid (Thread.Thread ℕ) store
store-IsValid =
    the_map-IsValid (Thread.Thread ℕ) (Map.new (Thread.Thread ℕ) 0xffff)
      (new-IsEmpty (Thread.Thread ℕ) 0xffff (omega arith) (omega arith))

abbrev range : ℕ → ℕ → ℕ → ℕ
range x msb lsb = x / 2 ^ lsb % 2 ^ (msb + 1 - lsb)

-- Bits from 0 on, which is how the state is stored
abbrev set_range : ℕ → ℕ → ℕ → ℕ → ℕ
set_range x msb lsb value = value % 2 ^ (msb + 1 - lsb) * 2 ^ lsb

range-set_range :
    (x msb lsb value : ℕ)
    → lsb ≤ msb
    → range (set_range x msb lsb value) msb lsb ≡ value % 2 ^ (msb + 1 - lsb)
range-set_range x msb lsb value h =
    rw (mul-div_left (value % 2 ^ (msb + 1 - lsb)) (one-le-pow lsb 2 (omega arith)))
      (mod-mod value (2 ^ (msb + 1 - lsb)))

new-Creates_example :
    Creates range set_range range-set_range store blocked 5
      (Thread.new range set_range store blocked 5)
new-Creates_example = new-Creates range set_range range-set_range store blocked 5 store-IsValid
