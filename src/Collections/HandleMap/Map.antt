-- ===== src/Collections/HandleMap/Map.antt =====
-- `HandleMap` of kernel_core/src/collections/handle_map.rs.
use endless_hole.Base.{ℕ, zero, suc, ◌-◌, ◌*◌, ◌%◌, ◌^◌, bit_and}
use endless_hole.Base.{Option, none, some, ltb, if◌then◌else◌}
use endless_hole.Collections.HandleAllocator as Allocator
use endless_hole.Collections.HandleAllocator.{
  HandleAllocator, div_ceil, next_handle, Freed, ok, err, free_handle,
}
use endless_hole.Collections.HandleMap.Table.{
  Table, rotate_left_8, default, get_from, take_from, put_from,
}

-- `lower_levels` is the source's `depth - 1`, which is all that its loops use: a map has at least one
-- level.
pub record HandleMap {ℓ} (T : Type ℓ) : Type ℓ where
  pub allocator : HandleAllocator
  pub handle_zeros_prefix_bit_length : ℕ
  pub lower_levels : ℕ
  pub table : Table T lower_levels

-- `leading_zeros` of an integer of `w` bits
unfoldable pub leading_zeros : ℕ → ℕ → ℕ
leading_zeros zero x = 0
leading_zeros (suc w) x = let rest = leading_zeros w x in if ltb x (2 ^ w) then suc rest else 0

-- `max_handle.leading_zeros() & !7`
unfoldable pub extra_bits : ℕ → ℕ
extra_bits max_handle = bit_and (leading_zeros 32 max_handle) (2 ^ 32 - 1 - 7)

-- `(handle << self.handle_zeros_prefix_bit_length).rotate_left(8)`
unfoldable pub first_index : ℕ → ℕ → ℕ
first_index prefix handle = rotate_left_8 (handle * 2 ^ prefix % 2 ^ 32)

-- A call that panics, by the assertion that the place for a new handle is empty, is `panicked`.
pub data Inserted {ℓ} (T : Type ℓ) : Type ℓ where
  exhausted panicked : Inserted T
  inserted : (handle : ℕ) (val : T) (map : HandleMap T) → Inserted T

-- What `insert` returns: a value that finds no handle is handed back.
pub data Insertion {ℓ} (T : Type ℓ) : Type ℓ where
  panicked : Insertion T
  refused : (value : T) → Insertion T
  accepted : (handle : ℕ) (map : HandleMap T) → Insertion T

module _ {ℓ} (T : Type ℓ) where
  unfoldable pub of_depth : (max_handle depth : ℕ) → Option (HandleMap T)
  of_depth max_handle zero = none
  of_depth max_handle (suc lower_levels) = some (record {
    allocator = Allocator.new max_handle;
    handle_zeros_prefix_bit_length = extra_bits max_handle;
    lower_levels = lower_levels;
    table = default T lower_levels;
  })

  -- `none` is a map of depth 0, which is for no handles: its walks underflow in `depth - 1`.
  unfoldable pub new : ℕ → Option (HandleMap T)
  unfolding of_depth
  new max_handle = of_depth max_handle (div_ceil (32 - extra_bits max_handle) 8)

  unfoldable pub insert_self_referential : HandleMap T → (ℕ → T) → Inserted T
  insert_self_referential m make_value = elim (next_handle m.allocator) [
    | none ↦ exhausted
    | some (handle, allocator) ↦
        let put =
          put_from T m.lower_levels m.table (first_index m.handle_zeros_prefix_bit_length handle)
            make_value in
        elim (put.old) [
          | some _ ↦ panicked
          | none ↦
              inserted put.handle put.val (record m { allocator = allocator; table = put.table })
        ]
  ]

  unfoldable pub finish_insert : T → Inserted T → Insertion T
  finish_insert value exhausted = refused value
  finish_insert value panicked = panicked
  finish_insert value (inserted handle _ map) = accepted handle map

  unfoldable pub insert : HandleMap T → T → Insertion T
  unfolding finish_insert insert_self_referential
  insert m value = finish_insert value (insert_self_referential m (λ _. value))

  unfoldable pub get : HandleMap T → ℕ → Option T
  get m handle =
      get_from T m.lower_levels m.table (first_index m.handle_zeros_prefix_bit_length handle)

  -- `free_handle(handle).ok()?; val`, after the value was taken out.
  unfoldable pub finish_remove : HandleMap T → Option T → Freed → Option T × HandleMap T
  finish_remove m val (err e) = (none, m)
  finish_remove m val (ok allocator) = (val, record m { allocator = allocator })

  unfoldable pub remove : HandleMap T → ℕ → Option T × HandleMap T
  unfolding finish_remove
  remove m handle =
      elim (take_from T m.lower_levels m.table
        (first_index m.handle_zeros_prefix_bit_length handle)) [
          | none ↦ (none, m)
          | some (val, table) ↦
              finish_remove (record m { table = table }) val (free_handle m.allocator handle)
        ]
