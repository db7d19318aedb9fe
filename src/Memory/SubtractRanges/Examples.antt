-- ===== src/Memory/SubtractRanges/Examples.antt =====
-- Runs of the iterator, and the theorems about it at concrete blocks.
use endless_hole.Base.{ℕ, ◌≡◌, refl, not, ◌&&◌, arith, List, [], ◌∷◌, some}
use endless_hole.Base.{ltb, leb, saturating_add}
use endless_hole.Memory.SubtractRanges.{
  SubtractRanges, subtract_ranges, next, next_loop, round, find_map, clip, collect,
}
use endless_hole.Memory.SubtractRanges.Cover.{covered, IsSpacedFrom, collect-covered}

-- The reserved ranges overlap, and the last one reaches out of the block.
abbrev reserved : List (ℕ × ℕ)
reserved = (10, 10) ∷ (15, 10) ∷ (40, 100) ∷ []

collect-reserved : collect 5 (subtract_ranges (0, 50) reserved) ≡ some ((0, 10) ∷ (25, 15) ∷ [])
unfolding collect next subtract_ranges next_loop round find_map clip
collect-reserved = refl

collect_none : collect 2 (subtract_ranges (3, 4) []) ≡ some ((3, 4) ∷ [])
unfolding collect next subtract_ranges next_loop round find_map clip
collect_none = refl

-- In the middle of an iteration, with a sub-range at hand.
abbrev halfway : SubtractRanges
halfway = record {
  whole_start = 0;
  whole_end = 50;
  current_pos = 10;
  ranges = (15, 10) ∷ (40, 100) ∷ [];
  current_subrange = some (10, 20);
}

collect-covered_example :
    (items : List (ℕ × ℕ)) × (collect 5 (subtract_ranges (0, 50) reserved) ≡ some items)
    × IsSpacedFrom 0 items
    × ((a : ℕ)
        → covered items a ≡ (leb 0 a && ltb a (saturating_add 0 50) && not (covered reserved a)))
collect-covered_example = collect-covered 0 50 reserved omega arith
