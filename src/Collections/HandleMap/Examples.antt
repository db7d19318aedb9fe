-- ===== src/Collections/HandleMap/Examples.antt =====
-- Runs of the map, and the theorems about it at concrete maps.
use endless_hole.Base.{ℕ, ◌+◌, ◌%◌, ◌≡◌, refl, none, some, arith}
use endless_hole.Base.Bits
use endless_hole.Collections.HandleMap.Table
use endless_hole.Collections.HandleAllocator as Allocator
use endless_hole.Collections.HandleAllocator.{next_handle}
use endless_hole.Collections.HandleMap.Map as Map
use endless_hole.Collections.HandleMap.Map.{
  HandleMap, Inserted, exhausted, panicked, inserted, get, insert, insert_self_referential, remove,
}
use endless_hole.Collections.HandleMap.Laws.{
  span, IsValid, IsEmpty, the_map, the_map-IsValid, new-IsEmpty,
}
use endless_hole.Collections.HandleMap.Insert.{Inserts, insert_self_referential-Inserts}
use endless_hole.Collections.HandleMap.Remove.{RemovesValue, remove-RemovesValue}
use endless_hole.Collections.HandleMap.Alias.{remove-not-IsValid}

-- Two levels of tables
abbrev empty : HandleMap ℕ
empty = the_map ℕ (Map.new ℕ 1000) (new-IsEmpty ℕ 1000 (omega arith) (omega arith))

abbrev map_of : Inserted ℕ → HandleMap ℕ
map_of (inserted handle val map) = map
map_of _ = empty

-- Holds 10 at handle 0.
abbrev one : HandleMap ℕ
one = map_of (insert_self_referential ℕ empty (λ handle. handle + 10))

levels : one.lower_levels ≡ 1
unfolding Map.new Map.of_depth Map.extra_bits Map.leading_zeros Map.first_index Table.default
    Table.put_from Table.get_from Allocator.new next_handle Allocator.next_from Allocator.propose
    Bits.trailing_zeros insert_self_referential
levels = refl

get_0 : get ℕ one 0 ≡ some 10
unfolding Map.new Map.of_depth Map.extra_bits Map.leading_zeros Map.first_index Table.default
    Table.put_from Table.get_from Allocator.new next_handle Allocator.next_from Allocator.propose
    Bits.trailing_zeros insert_self_referential get
get_0 = refl

get_65536 : get ℕ one 65536 ≡ some 10
unfolding Map.new Map.of_depth Map.extra_bits Map.leading_zeros Map.first_index Table.default
    Table.put_from Table.get_from Allocator.new next_handle Allocator.next_from Allocator.propose
    Bits.trailing_zeros insert_self_referential get
get_65536 = refl

get_1 : get ℕ one 1 ≡ none
unfolding Map.new Map.of_depth Map.extra_bits Map.leading_zeros Map.first_index Table.default
    Table.put_from Table.get_from Allocator.new next_handle Allocator.next_from Allocator.propose
    Bits.trailing_zeros insert_self_referential get
get_1 = refl

empty-IsValid : IsValid ℕ empty
empty-IsValid = the_map-IsValid ℕ (Map.new ℕ 1000) (new-IsEmpty ℕ 1000 (omega arith) (omega arith))

one-IsValid : IsValid ℕ one
one-IsValid =
    go (insert_self_referential ℕ empty (λ handle. handle + 10))
      (insert_self_referential-Inserts ℕ empty empty-IsValid (λ handle. handle + 10))
  where
    go :
        (r : Inserted ℕ)
        → Inserts ℕ empty empty-IsValid (λ handle. handle + 10) r
        → IsValid ℕ (map_of r)
    go exhausted i = empty-IsValid
    go Inserted.panicked i = absurd i
    go (inserted handle val map) i = i.5

new-IsEmpty_example : IsEmpty ℕ (Map.new ℕ 70000)
new-IsEmpty_example = new-IsEmpty ℕ 70000 (omega arith) (omega arith)

-- No handles at all
new_0 : Map.new ℕ 0 ≡ none
unfolding Map.new Map.of_depth Map.extra_bits Map.leading_zeros
new_0 = refl

insert_self_referential-Inserts_example :
    Inserts ℕ one one-IsValid
      (λ handle. handle + 20)
      (insert_self_referential ℕ one (λ handle. handle + 20))
insert_self_referential-Inserts_example =
    insert_self_referential-Inserts ℕ one one-IsValid (λ handle. handle + 20)

remove-RemovesValue_example : RemovesValue ℕ one one-IsValid 0 (remove ℕ one 0).0 (remove ℕ one 0).1
unfolding Map.new Map.of_depth Map.extra_bits Map.leading_zeros Map.first_index Table.default
    Table.put_from Table.get_from Allocator.new next_handle Allocator.next_from Allocator.propose
    Bits.trailing_zeros insert_self_referential
remove-RemovesValue_example = remove-RemovesValue ℕ one one-IsValid 0 (omega arith)

remove-not-IsValid_example :
    ((remove ℕ one 65536).0 ≡ none)
    × (get ℕ (remove ℕ one 65536).1 (65536 % span one) ≡ none)
    × ((remove ℕ one 65536).1.allocator ≡ one.allocator)
    × (¬ IsValid ℕ (remove ℕ one 65536).1)
unfolding Map.new Map.of_depth Map.extra_bits Map.leading_zeros Map.first_index Table.default
    Table.put_from Table.get_from Allocator.new next_handle Allocator.next_from Allocator.propose
    Bits.trailing_zeros insert_self_referential get
remove-not-IsValid_example = remove-not-IsValid ℕ one one-IsValid 65536 10 (omega arith) refl
