-- ===== src/Memory/SubtractRanges/Gaps.antt =====
-- The loop of the iterator as one recursion over the sub-ranges.
use endless_hole.Base.{ℕ, ◌+◌, ◌-◌, ◌≤◌, ◌<◌, min, max, ◌≡◌, arith}
use endless_hole.Base.{List, [], ◌∷◌, ltb, if◌then◌else◌, length, ◌&&◌}
use endless_hole.Base.{saturating_add, ◌⊎◌, inl, inr, ◌<◌, Bool-cases, le_of_not_ltb, lt_of_ltb}

-- The shape of the tests below, over variables.
choose {ℓ κ} :
    {A : Type ℓ} (P : A → Type κ) (low high pos : ℕ) (x y z : A)
    → (low < high → pos < low → P x)
    → (low < high → low ≤ pos → pos < high → P y)
    → ((high ≤ low) ⊎ (high ≤ pos) → P z)
    → P (if ltb low high && ltb pos high then (if ltb pos low then x else y) else z)
choose P low high pos x y z gap inside skip = elim (Bool-cases (ltb low high)) [
  | inr e ↦ rw e (skip (inl (le_of_not_ltb low high e)))
  | inl e ↦ elim (Bool-cases (ltb pos high)) [
    | inr f ↦ rw (e, f) (skip (inr (le_of_not_ltb pos high f)))
    | inl f ↦ elim (Bool-cases (ltb pos low)) [
      | inl g ↦ rw (e, f, g) (gap (lt_of_ltb low high e) (lt_of_ltb pos low g))
      | inr g ↦
          rw (e, f, g)
            (inside (lt_of_ltb low high e) (le_of_not_ltb pos low g) (lt_of_ltb pos high f))
    ]
  ]
]

module _ (whole_start whole_end : ℕ) where
  -- The gaps from `pos` on, between the sub-ranges that reach past it.
  unfoldable pub gaps : ℕ → List (ℕ × ℕ) → List (ℕ × ℕ)
  gaps pos [] = if ltb pos whole_end then (pos, whole_end - pos) ∷ [] else []
  gaps pos ((start, len) ∷ rs) =
      let low = max start whole_start in
      let high = min (saturating_add start len) whole_end in
      if ltb low high && ltb pos high
      then (if ltb pos low then (pos, low - pos) ∷ gaps high rs else gaps high rs)
      else gaps pos rs

  -- The three ways to deal with a sub-range, each with the test that leads to it.
  pub gaps-cons {ℓ} :
      (P : List (ℕ × ℕ) → Type ℓ) (pos start len : ℕ) (rs : List (ℕ × ℕ))
      → let low = max start whole_start in
        let high = min (saturating_add start len) whole_end in
        (low < high → pos < low → P ((pos, low - pos) ∷ gaps high rs))
        → (low < high → low ≤ pos → pos < high → P (gaps high rs))
        → ((high ≤ low) ⊎ (high ≤ pos) → P (gaps pos rs))
        → P (gaps pos ((start, len) ∷ rs))
  unfolding gaps
  gaps-cons P pos start len rs gap inside skip =
      choose P (max start whole_start) (min (saturating_add start len) whole_end) pos _ _ _ gap
        inside skip

  pub gaps-end : (pos : ℕ) (rs : List (ℕ × ℕ)) → whole_end ≤ pos → gaps pos rs ≡ []
  unfolding gaps
  gaps-end pos [] h = ground arith
  gaps-end pos ((start, len) ∷ rs) h = ground (arith, gaps-end pos rs h)

  pub length-gaps : (pos : ℕ) (rs : List (ℕ × ℕ)) → length (gaps pos rs) ≤ length rs + 1
  unfolding gaps
  length-gaps pos [] = ground arith
  length-gaps pos ((start, len) ∷ rs) =
      ground (arith, length-gaps pos rs, length-gaps (min (saturating_add start len) whole_end) rs)
