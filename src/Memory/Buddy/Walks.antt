-- ===== src/Memory/Buddy/Walks.antt =====
-- `try_remove_buddy` and `block_in_free_list`: the walks along a free list.
use endless_hole.Base.{ℕ, zero, suc, ◌+◌, ◌≤◌, ◌<◌, arith, ◌≡◌, ◌≢◌, refl, ◌∙◌}
use endless_hole.Base.{
  Bool, true, false, ◌||◌, some, List, [], ◌∷◌, ◌==◌, if◌then◌else◌, write, All, length,
}
use endless_hole.Base.{Bool-cases, inl, inr, eq_of_==, ==_refl, ==_of_ne}
use endless_hole.Memory.Buddy.{
  Allocator, Removal, no_fuel, not_found, removed, remove_from, find_from,
}
use endless_hole.Memory.Buddy.Pool.{inside, inside_self, covers, Chain, Chain-write}

unfoldable pub occurs : ℕ → List ℕ → Bool
occurs y [] = false
occurs y (x ∷ xs) = x == y || occurs y xs

unfoldable pub erase : ℕ → List ℕ → List ℕ
erase y [] = []
erase y (x ∷ xs) = if x == y then xs else x ∷ erase y xs

pub covers-erase :
    (size y : ℕ) (xs : List ℕ) (a : ℕ)
    → occurs y xs ≡ true
    → covers size xs a ≡ inside size y a + covers size (erase y xs) a
unfolding covers occurs erase
covers-erase size y [] a h = cc
covers-erase size y (x ∷ xs) a h = elim (Bool-cases (x == y)) [
  | inl e ↦ rw (e, eq_of_== x y e) refl
  | inr e ↦ rw e (omega (arith, covers-erase size y xs a (rw e at h)))
]

pub All-erase : (P : ℕ → Type 0) (y : ℕ) (xs : List ℕ) → All P xs → All P (erase y xs)
unfolding erase
All-erase P y [] h = h
All-erase P y (x ∷ xs) (p, h) = elim (Bool-cases (x == y)) [
  | inl e ↦ rw e h
  | inr e ↦ rw e (p, All-erase P y xs h)
]

pub covers-occurs :
    (size y : ℕ) (xs : List ℕ) → 0 < size → covers size xs y ≡ 0 → occurs y xs ≡ false
unfolding covers occurs
covers-occurs size y [] p h = refl
covers-occurs size y (x ∷ xs) p h = elim (Bool-cases (x == y)) [
  | inl e ↦
      let one : inside size x y ≡ 1 = rw (eq_of_== x y e) (inside_self size y p) in
      absurd (omega arith)
  | inr e ↦ rw e (covers-occurs size y xs p (omega arith))
]

-- `block_in_free_list` finds the block if and only if it is in the list.
pub find_from-occurs :
    (fuel : ℕ) (s : Allocator) (y cur : ℕ) (xs : List ℕ)
    → Chain s.next_block cur xs
    → length xs < fuel
    → find_from fuel s y cur ≡ some (occurs y xs)
unfolding find_from occurs
find_from-occurs zero s y cur xs c h = absurd (omega arith)
find_from-occurs (suc fuel) s y cur [] c h = rw c refl
find_from-occurs (suc fuel) s y cur (x ∷ xs) (e, ne, c) h =
    rw (e, ==_of_ne x 0 ne, find_from-occurs fuel s y (s.next_block x) xs c (omega arith))
      (elim (Bool-cases (x == y)) [ inl f ↦ rw f refl | inr f ↦ rw f refl ])

-- What the walk past the block `p` comes to: one header of a block that was passed is changed.
abbrev pub RemovesAfter : Allocator → (size y p : ℕ) → List ℕ → Removal → Type 0
RemovesAfter s size y p xs no_fuel = ⊥
RemovesAfter s size y p xs not_found = occurs y xs ≡ false
RemovesAfter s size y p xs (removed t) =
    (q : ℕ) × (val : ℕ) × (t ≡ record s { next_block = write s.next_block q val })
    × (occurs y xs ≡ true)
    × (covers size (p ∷ xs) q ≡ 1)
    × Chain (write s.next_block q val) (write s.next_block q val p) (erase y xs)

RemovesAfter-cons :
    (s : Allocator) (size y p x : ℕ) (xs : List ℕ) (r : Removal)
    → 0 < size
    → s.next_block p ≡ x
    → x ≢ 0
    → (x == y) ≡ false
    → ((a : ℕ) → covers size (p ∷ x ∷ xs) a ≤ 1)
    → RemovesAfter s size y x xs r
    → RemovesAfter s size y p (x ∷ xs) r
unfolding occurs erase covers
RemovesAfter-cons s size y p x xs no_fuel pos e ne other once h = h
RemovesAfter-cons s size y p x xs not_found pos e ne other once h = rw other h
RemovesAfter-cons s size y p x xs (removed t) pos e ne other once
      (q, val, t_is, present, at, chain) =
    let first : inside size p p ≡ 1 = inside_self size p pos in
    let apart : p ≢ q = λ same.
      let f : inside size x p + covers size xs p ≡ 1 = rw same at in omega (arith, once p) in
    let kept : write s.next_block q val p ≡ x = rw (==_of_ne p q apart) e in
    (q, val, t_is, rw other present, omega (arith, once q), rw (kept, other) (refl, ne, chain))

pub remove_from-RemovesAfter :
    (fuel : ℕ) (s : Allocator) (k size y p cur : ℕ) (xs : List ℕ)
    → 0 < size
    → s.next_block p ≡ cur
    → Chain s.next_block cur xs
    → ((a : ℕ) → covers size (p ∷ xs) a ≤ 1)
    → length xs < fuel
    → RemovesAfter s size y p xs (remove_from fuel s k y (some p) cur)
unfolding remove_from occurs erase covers
remove_from-RemovesAfter zero s k size y p cur xs pos e c once h = absurd (omega arith)
remove_from-RemovesAfter (suc fuel) s k size y p cur [] pos e c once h = rw c refl
remove_from-RemovesAfter (suc fuel) s k size y p cur (x ∷ xs) pos e (f, ne, c) once h =
    let first : inside size p p ≡ 1 = inside_self size p pos in
    elim (Bool-cases (x == y)) [
      | inl g ↦
          rw (f, ==_of_ne x 0 ne, g)
            (
              p,
              s.next_block x,
              refl,
              rw g refl,
              omega (arith, once p),
              rw (==_refl p, g)
                  (Chain-write size s.next_block (s.next_block x) xs p (s.next_block x) pos
                    (omega (arith, once p)) c),
            )
      | inr g ↦
          rw (f, ==_of_ne x 0 ne, g)
            (RemovesAfter-cons s size y p x xs _ pos (e ∙ f) ne g once (
              remove_from-RemovesAfter fuel s k size y x (s.next_block x) xs pos refl c
                (λ a. omega (arith, once a)) (omega arith)))
    ]
