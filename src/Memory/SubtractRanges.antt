-- ===== src/Memory/SubtractRanges.antt =====
-- kernel_core/src/memory/subtract_ranges.rs: the iterator over what is left of a block of memory
-- when reserved ranges are taken out. An address is a `usize`, a range its start and length.
pub mod Gaps
pub mod Refine
pub mod Cover
mod Examples
use endless_hole.Base.{ℕ, zero, suc, ◌+◌, ◌-◌, min, max, Bool, List, [], ◌∷◌, Option, none, some}
use mathlib.Core.Option
use endless_hole.Base.{ltb, leb, if◌then◌else◌, saturating_add, length}

-- The caller's iterator `ranges` is the list of what it has still to yield.
pub record SubtractRanges : Type 0 where
  pub whole_start : ℕ
  pub whole_end : ℕ
  pub current_pos : ℕ
  pub ranges : List (ℕ × ℕ)
  pub current_subrange : Option (ℕ × ℕ)

pub subtract_ranges : ℕ × ℕ → List (ℕ × ℕ) → SubtractRanges
subtract_ranges (whole_start, whole_len) ranges = record {
  whole_start = whole_start;
  whole_end = saturating_add whole_start whole_len;
  current_pos = whole_start;
  ranges = ranges;
  current_subrange = none;
}

-- The closure that `next` hands to `find_map`.
pub clip : SubtractRanges → ℕ × ℕ → Option (ℕ × ℕ)
clip s (start, len) =
    let sub_start = max start s.whole_start in
    let sub_end = min (saturating_add start len) s.whole_end in
    if leb sub_end sub_start
    then none
    else if leb sub_end s.current_pos
    then none
    else some (sub_start, sub_end)

-- `Iterator::find_map`: the first range that the closure accepts, and what the iterator has left.
pub find_map : (ℕ × ℕ → Option (ℕ × ℕ)) → List (ℕ × ℕ) → Option (ℕ × ℕ) × List (ℕ × ℕ)
find_map f [] = (none, [])
find_map f (r ∷ rs) = let rest = find_map f rs in elim (f r) [ none ↦ rest | some q ↦ (some q, rs) ]

-- Loads the next sub-range if none is current.
pub load : SubtractRanges → SubtractRanges
load s =
    let (found, rest) = find_map (clip s) s.ranges in
    elim s.current_subrange [
      | none ↦ record s { ranges = rest; current_subrange = found }
      | some _ ↦ s
    ]

-- What one call of `next` does: it yields an item, or ends, with the state left behind.
abbrev pub Yield : Type 0
Yield = Option (ℕ × ℕ) × SubtractRanges

-- A round of the `while` loop returns from `next`, or goes on.
pub data Round : Type 0 where
  return : Yield → Round
  continue : SubtractRanges → Round

-- The rest of a round, once the next sub-range is loaded.
pub serve : SubtractRanges → Option (ℕ × ℕ) → Round
serve t (some (sub_start, sub_end)) =
    if ltb t.current_pos sub_start
    then return
        (some (t.current_pos, sub_start - t.current_pos), record t { current_pos = sub_start })
    else continue (record t { current_pos = sub_end; current_subrange = none })
serve t none =
    let len = t.whole_end - t.current_pos in
    return (
      (if ltb 0 len then some (t.current_pos, len) else none),
      record t { current_pos = t.whole_end },
    )

pub round : SubtractRanges → Round
unfolding load serve
round s =
    let t = load s in
    if ltb s.current_pos s.whole_end then serve t t.current_subrange else return (none, s)

-- The `while` loop of `next`; `none` is fuel run out.
pub next_loop : ℕ → SubtractRanges → Option Yield
next_loop zero s = none
next_loop (suc fuel) s = elim (round s) [ return y ↦ some y | continue t ↦ next_loop fuel t ]

-- Each round but the last gives up a sub-range, so two rounds more than there are ranges suffice.
pub next : SubtractRanges → Option Yield
next s = next_loop (length s.ranges + 2) s

-- What a `for` loop has seen after a call of `next`, given what it sees from there on.
pub gather : (SubtractRanges → Option (List (ℕ × ℕ))) → Option Yield → Option (List (ℕ × ℕ))
gather rest none = none
gather rest (some (none, _)) = some []
gather rest (some (some item, t)) = Option.map (λ items. item ∷ items) (rest t)

-- All that a `for` loop over the iterator sees, with a bound on the number of items.
pub collect : ℕ → SubtractRanges → Option (List (ℕ × ℕ))
unfolding gather
collect zero s = none
collect (suc bound) s = gather (collect bound) (next s)
