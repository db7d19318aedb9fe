-- ===== src/Memory/SubtractRanges/Cover.antt =====
-- Which addresses the iterator yields.
use endless_hole.Base.{ℕ, ◌+◌, ◌-◌, ◌≤◌, ◌<◌, min, max, ◌≡◌, refl, Bool, false, not, arith}
use endless_hole.Base.{List, [], ◌∷◌, some, ltb, leb, length, ◌&&◌, ◌||◌, usize_max}
use endless_hole.Base.{saturating_add}
use endless_hole.Memory.SubtractRanges.{subtract_ranges, collect}
use endless_hole.Memory.SubtractRanges.Gaps.{gaps, gaps-cons}
use endless_hole.Memory.SubtractRanges.Refine.{collect-gaps}

-- Whether an address lies in one of the ranges.
abbrev pub covered : List (ℕ × ℕ) → ℕ → Bool
covered [] a = false
covered ((start, len) ∷ rs) a = leb start a && ltb a (start + len) || covered rs a

-- Ranges by starting address, from `low` on. They may overlap.
abbrev pub IsSortedFrom : ℕ → List (ℕ × ℕ) → Type 0
IsSortedFrom low [] = Unit
IsSortedFrom low ((start, len) ∷ rs) = (low ≤ start) × IsSortedFrom start rs

-- No range is empty, and each ends before the next begins.
abbrev pub IsSpacedFrom : ℕ → List (ℕ × ℕ) → Type 0
IsSpacedFrom low [] = Unit
IsSpacedFrom low ((start, len) ∷ rs) = (low ≤ start) × (0 < len) × IsSpacedFrom (start + len) rs

covered_below :
    (low : ℕ) (rs : List (ℕ × ℕ)) (a : ℕ) → IsSortedFrom low rs → a < low → covered rs a ≡ false
covered_below low [] a h lt = refl
covered_below low ((start, len) ∷ rs) a h lt = ground (arith, covered_below start rs a)

-- A gap, the sub-range after it, and the later ones, over variables.
covered_gap :
    (pos start len high whole_end a : ℕ) (later : Bool)
    → pos < start
    → start < high
    → high ≤ whole_end
    → (a < high → start + len ≤ a → ⊥)
    → (high ≤ a → a < whole_end → a < start + len → ⊥)
    → (a < start → later ≡ false)
    → (leb pos a && ltb a (pos + (start - pos)) || leb high a && ltb a whole_end && not later)
      ≡ (leb pos a && ltb a whole_end && not (leb start a && ltb a (start + len) || later))
covered_gap pos start len high whole_end a later p q r u v w = ground arith

module _ (whole_start whole_end : ℕ) where
  covered-gaps :
      (low pos : ℕ) (rs : List (ℕ × ℕ)) (a : ℕ)
      → whole_end ≤ usize_max
      → whole_start ≤ pos
      → IsSortedFrom low rs
      → covered (gaps whole_start whole_end pos rs) a
        ≡ (leb pos a && ltb a whole_end && not (covered rs a))
  covered-gaps low pos [] a fits h s = unfold gaps in ground arith
  covered-gaps low pos ((start, len) ∷ rs) a fits h s =
      gaps-cons whole_start whole_end
        (λ gs. covered gs a ≡ (leb pos a && ltb a whole_end && not (covered ((start, len) ∷ rs) a)))
        pos start len rs
        (λ p q.
          rw
            (covered-gaps start (min (saturating_add start len) whole_end) rs a fits (omega arith)
              s.1)
            (let e : max start whole_start ≡ start = omega arith in
              rw e (
                covered_gap pos start len (min (saturating_add start len) whole_end) whole_end a
                  (covered rs a) (omega arith) (omega arith) (omega arith) (λ x y. omega arith)
                  (λ x y z. omega arith) (λ x. covered_below start rs a s.1 x))))
        (λ p q r.
          rw
            (covered-gaps start (min (saturating_add start len) whole_end) rs a fits (omega arith)
              s.1)
            (ground arith))
        (λ p. rw (covered-gaps start pos rs a fits h s.1) (ground arith))

  gaps-IsSpacedFrom :
      (pos low : ℕ) (rs : List (ℕ × ℕ))
      → low ≤ pos
      → IsSpacedFrom low (gaps whole_start whole_end pos rs)
  gaps-IsSpacedFrom pos low [] h = unfold gaps in ground arith
  gaps-IsSpacedFrom pos low ((start, len) ∷ rs) h =
      gaps-cons whole_start whole_end (IsSpacedFrom low) pos start len rs
        (λ p q. (
          h,
          omega arith,
          gaps-IsSpacedFrom (min (saturating_add start len) whole_end) _ rs (omega arith),
        ))
        (λ p q r. gaps-IsSpacedFrom (min (saturating_add start len) whole_end) low rs (omega arith))
        (λ p. gaps-IsSpacedFrom pos low rs h)

-- When the sub-ranges come in order of their starting addresses, the iterator ends after at most one
-- item more than there are sub-ranges. Its items are not empty, lie in order and apart, and cover
-- exactly the addresses of the block that no sub-range covers. Sub-ranges may overlap, be empty,
-- reach out of the block or past the largest address.
pub collect-covered :
    (start len : ℕ) (ranges : List (ℕ × ℕ))
    → IsSortedFrom 0 ranges
    → (items : List (ℕ × ℕ)) × (collect (length ranges + 2) (subtract_ranges (start, len) ranges)
        ≡ some items)
      × IsSpacedFrom start items
      × ((a : ℕ)
          → covered items a
            ≡ (leb start a && ltb a (saturating_add start len) && not (covered ranges a)))
collect-covered start len ranges s = (
  gaps start end start ranges,
  collect-gaps start len ranges,
  gaps-IsSpacedFrom start end start start ranges (omega arith),
  λ a. covered-gaps start end 0 start ranges a (omega arith) (omega arith) s,
)
  where
    end : ℕ
    end = saturating_add start len
