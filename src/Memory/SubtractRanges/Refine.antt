-- ===== src/Memory/SubtractRanges/Refine.antt =====
-- The iterator, call by call, against the recursion over the sub-ranges.
use endless_hole.Base.{ℕ, zero, suc, ◌+◌, ◌-◌, ◌≤◌, ◌<◌, ◌≡◌, refl, arith}
use endless_hole.Base.{List, [], ◌∷◌, Option, none, some, ltb, if◌then◌else◌, length}
use endless_hole.Base.{inl, inr, sym, ap, ◌∙◌, Option-cases, saturating_add}
use endless_hole.Memory.SubtractRanges.{
  SubtractRanges, subtract_ranges, Yield, Round, return, continue, round, clip, find_map, next_loop,
  next, gather, collect,
}
use endless_hole.Memory.SubtractRanges.Gaps.{gaps, gaps-end, length-gaps}

-- A current sub-range is not empty, lies in the block and reaches past the position.
abbrev pub IsCurrent : SubtractRanges → Option (ℕ × ℕ) → Type 0
IsCurrent s none = Unit
IsCurrent s (some (a, b)) = (a < b) × (s.current_pos < b) × (b ≤ s.whole_end)

abbrev pub IsValid : SubtractRanges → Type 0
IsValid s = IsCurrent s s.current_subrange

-- What is to come while a sub-range is current, or has just been looked for.
abbrev resume : SubtractRanges → Option (ℕ × ℕ) × List (ℕ × ℕ) → List (ℕ × ℕ)
resume s (none, rs) = (s.current_pos, s.whole_end - s.current_pos) ∷ []
resume s (some (a, b), rs) =
    if ltb s.current_pos a
    then (s.current_pos, a - s.current_pos) ∷ gaps s.whole_start s.whole_end b rs
    else gaps s.whole_start s.whole_end b rs

abbrev pub pending : SubtractRanges → List (ℕ × ℕ)
pending s = elim s.current_subrange [
  | none ↦ gaps s.whole_start s.whole_end s.current_pos s.ranges
  | some q ↦ resume s (some q, s.ranges)
]

-- The sequence that one call leaves: its item, if any, before what is still to come.
abbrev pub emitted : Yield → List (ℕ × ℕ)
emitted (none, s) = []
emitted (some item, s) = item ∷ pending s

gaps-find_map :
    (s : SubtractRanges) (rs : List (ℕ × ℕ))
    → s.current_pos < s.whole_end
    → gaps s.whole_start s.whole_end s.current_pos rs ≡ resume s (find_map (clip s) rs)
unfolding gaps find_map clip
gaps-find_map s [] h = ground arith
gaps-find_map s ((start, len) ∷ rs) h = ground (arith, gaps-find_map s rs h)

-- A sub-range that `find_map` finds is current, and is taken off the iterator.
abbrev IsFound : SubtractRanges → List (ℕ × ℕ) → Option (ℕ × ℕ) × List (ℕ × ℕ) → Type 0
IsFound s rs (none, rest) = Unit
IsFound s rs (some q, rest) = IsCurrent s (some q) × (length rest < length rs)

find_map-IsFound : (s : SubtractRanges) (rs : List (ℕ × ℕ)) → IsFound s rs (find_map (clip s) rs)
unfolding find_map clip
find_map-IsFound s [] = tt
find_map-IsFound s ((start, len) ∷ rs) = ground (arith, find_map-IsFound s rs)

abbrev rounds : SubtractRanges → ℕ
rounds s = elim s.current_subrange [ none ↦ length s.ranges | some _ ↦ length s.ranges + 1 ]

-- The call returns, and yields the head of what was pending.
abbrev pub Yields : SubtractRanges → Option Yield → Type 0
Yields s none = ⊥
Yields s (some y) = (pending s ≡ emitted y) × IsValid y.1

-- A round returns the head of what was pending, or leaves it as it was and takes a sub-range.
abbrev Advances : SubtractRanges → Round → Type 0
Advances s (return y) = Yields s (some y)
Advances s (continue t) = (pending s ≡ pending t) × IsValid t × (rounds t < rounds s)

round-current :
    (s : SubtractRanges) (q : ℕ × ℕ)
    → s.current_subrange ≡ some q
    → IsCurrent s (some q)
    → Advances s (round s)
unfolding round
round-current s (a, b) e v = ground arith

round-load :
    (s : SubtractRanges) (f : Option (ℕ × ℕ) × List (ℕ × ℕ))
    → s.current_subrange ≡ none
    → find_map (clip s) s.ranges ≡ f
    → (s.current_pos < s.whole_end
        → gaps s.whole_start s.whole_end s.current_pos s.ranges ≡ resume s f)
    → IsFound s s.ranges f
    → Advances s (round s)
unfolding round
round-load s (none, rs) e p g d = ground (
  arith,
  gaps-end s.whole_start s.whole_end s.current_pos s.ranges,
  gaps-end s.whole_start s.whole_end s.whole_end rs,
)
round-load s (some (a, b), rs) e p g d =
    ground (arith, gaps-end s.whole_start s.whole_end s.current_pos s.ranges)

round-Advances : (s : SubtractRanges) → IsValid s → Advances s (round s)
round-Advances s v = elim (Option-cases s.current_subrange) [
  | inl e ↦ round-load s _ e refl (gaps-find_map s s.ranges) (find_map-IsFound s s.ranges)
  | inr (q, e) ↦ round-current s q e (rw e at v)
]

Yields-pending :
    (s t : SubtractRanges) (o : Option Yield) → pending s ≡ pending t → Yields t o → Yields s o
Yields-pending s t none e h = h
Yields-pending s t (some y) e h = (e ∙ h.0, h.1)

next_loop-Yields :
    (fuel : ℕ) (s : SubtractRanges) → IsValid s → rounds s < fuel → Yields s (next_loop fuel s)
unfolding next_loop
next_loop-Yields zero s v h = absurd (omega arith)
next_loop-Yields (suc fuel) s v h = go (round s) (round-Advances s v) (next_loop-Yields fuel)
  where
    go :
        (r : Round)
        → Advances s r
        → ((t : SubtractRanges) → IsValid t → rounds t < fuel → Yields t (next_loop fuel t))
        → Yields s (elim r [ return y ↦ some y | continue t ↦ next_loop fuel t ])
    go (return y) a ih = a
    go (continue t) a ih = Yields-pending s t (next_loop fuel t) a.0 (ih t a.1 (omega arith))

-- `next` returns, its item heads what was pending, and the rest is pending afterwards.
pub next-Yields : (s : SubtractRanges) → IsValid s → Yields s (next s)
unfolding next
next-Yields s v = next_loop-Yields (length s.ranges + 2) s v (ground arith)

collect-pending :
    (bound : ℕ) (s : SubtractRanges)
    → IsValid s
    → length (pending s) < bound
    → collect bound s ≡ some (pending s)
unfolding collect
collect-pending zero s v h = absurd (omega arith)
collect-pending (suc bound) s v h = go (next s) (next-Yields s v) (collect-pending bound)
  where
    go :
        (o : Option Yield)
        → Yields s o
        → ((t : SubtractRanges)
            → IsValid t
            → length (pending t) < bound
            → collect bound t ≡ some (pending t))
        → gather (collect bound) o ≡ some (pending s)
    go none y ih = absurd y
    go (some (none, t)) y ih = ap some (sym y.0)
    go (some (some item, t)) y ih = rw (ih t y.1 (omega (arith, ap length y.0))) (ap some (sym y.0))

-- The iterator yields the items of `gaps`, in order, and then ends.
pub collect-gaps :
    (start len : ℕ) (ranges : List (ℕ × ℕ))
    → collect (length ranges + 2) (subtract_ranges (start, len) ranges)
      ≡ some (gaps start (saturating_add start len) start ranges)
unfolding subtract_ranges
collect-gaps start len ranges =
    collect-pending (length ranges + 2) _ tt
      (omega (arith, length-gaps start (saturating_add start len) start ranges))
