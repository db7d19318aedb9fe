-- ===== src/Collections/HandleAllocator/Scan.antt =====
-- The loop of `next_handle` over the words.
use mathlib.Core.Option
use endless_hole.Base.{ℕ, suc, ◌+◌, ◌-◌, ◌*◌, ◌^◌, ◌≤◌, ◌<◌}
use endless_hole.Base.{◌≡◌, refl, ap}
use endless_hole.Base.{List, [], ◌∷◌, Option, none, some, arith, ◌==◌, if◌then◌else◌}
use endless_hole.Base.{length, All}
use endless_hole.Collections.HandleAllocator.{propose, next_from}
use endless_hole.Collections.HandleAllocator.Words.{
  Proposes, propose-Proposes, handle_bit, handle_bit-cons,
}

abbrev pub IsWord : ℕ → Type 0
IsWord x = x < 2 ^ 64

-- What the loop over the words promises, in terms of the handles from the first word on.
abbrev pub Takes : ℕ → ℕ → List ℕ → Option (ℕ × List ℕ) → Type 0
Takes limit index words none =
    (i : ℕ) → i < 64 * length words → index * 64 + i < limit → handle_bit words i ≡ 1
Takes limit index words (some (h, left)) =
    (z : ℕ) × (h ≡ index * 64 + z)
    × (h < limit)
    × (handle_bit words z ≡ 0)
    × ((i : ℕ) → i < z → handle_bit words i ≡ 1)
    × (length left ≡ length words)
    × All IsWord left
    × ((i : ℕ) → handle_bit left i ≡ (if i == z then 1 else handle_bit words i))

-- The handle was found in the first word.
Takes-here :
    (limit index x : ℕ) (xs : List ℕ) (h y : ℕ)
    → All IsWord xs
    → Proposes limit index x (some (h, y))
    → Takes limit index (x ∷ xs) (some (h, y ∷ xs))
Takes-here limit index x xs h y words (z, at, below, within, free, lower, fits, result) = (
  z,
  at,
  within,
  ground (arith, handle_bit-cons x xs z),
  λ i p. ground (arith, handle_bit-cons x xs i, lower i p),
  refl,
  (fits, words),
  λ i. ground (arith, handle_bit-cons y xs i, handle_bit-cons x xs i, result i),
)

-- It was not, and the rest of the words decides.
Takes-later :
    (limit index x : ℕ) (xs : List ℕ) (r : Option (ℕ × List ℕ))
    → IsWord x
    → Proposes limit index x none
    → Takes limit (index + 1) xs r
    → Takes limit index (x ∷ xs) (Option.map (λ r. (r.0, x ∷ r.1)) r)
Takes-later limit index x xs none word full rest =
    λ i p q. ground (arith, handle_bit-cons x xs i, full i, rest (i - 64))
Takes-later limit index x xs (some (h, left)) word full
      (z, at, within, free, lower, len, words, result) =
    (
      z + 64,
      omega arith,
      within,
      ground (arith, handle_bit-cons x xs (z + 64)),
      λ i p. ground (arith, handle_bit-cons x xs i, full i, lower (i - 64)),
      ap suc len,
      (word, words),
      λ i. ground (arith, handle_bit-cons x left i, handle_bit-cons x xs i, result (i - 64)),
    )

pub next_from-Takes :
    (limit index : ℕ) (words : List ℕ)
    → All IsWord words
    → index + length words ≤ 2 ^ 26
    → Takes limit index words (next_from limit index words)
unfolding next_from
next_from-Takes limit index [] w h = λ i p q. absurd (omega arith)
next_from-Takes limit index (x ∷ xs) w h =
    go (propose limit index x) (propose-Proposes limit index x w.0 (omega arith))
      (next_from-Takes limit (index + 1) xs w.1 (omega arith))
  where
    go :
        (p : Option (ℕ × ℕ))
        → Proposes limit index x p
        → Takes limit (index + 1) xs (next_from limit (index + 1) xs)
        → Takes limit index (x ∷ xs) (elim p [
          | some (handle, new_word) ↦ some (handle, new_word ∷ xs)
          | none ↦ Option.map (λ r. (r.0, x ∷ r.1)) (next_from limit (index + 1) xs)
        ])
    go none q ih = Takes-later limit index x xs (next_from limit (index + 1) xs) w.0 q ih
    go (some (handle, y)) q ih = Takes-here limit index x xs handle y w.1 q
