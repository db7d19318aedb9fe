-- ===== src/Memory/Buddy/Pool.antt =====
-- The free lists as lists of blocks, and how many free blocks cover an address.
use endless_hole.Base.{ℕ, zero, suc, ◌+◌, ◌*◌, ◌^◌, ◌≤◌, ◌<◌, arith, ◌≡◌, ◌≢◌, refl, ap}
use endless_hole.Base.{◌&&◌, List, [], ◌∷◌, ltb, leb, ◌==◌, if◌then◌else◌, write}
use endless_hole.Base.{Bool-cases, inl, inr, eq_of_==, ne_of_not_==, ==_of_ne}

-- 1 if the address lies in the block, 0 if not
abbrev pub inside : (size block a : ℕ) → ℕ
inside size block a = if leb block a && ltb a (block + size) then 1 else 0

-- The number of blocks of one free list that the address lies in.
unfoldable pub covers : (size : ℕ) → List ℕ → ℕ → ℕ
covers size [] a = 0
covers size (x ∷ xs) a = inside size x a + covers size xs a

abbrev pub block_len : ℕ → ℕ → ℕ
block_len page_size order = 2 ^ order * page_size

-- The number of free blocks of the orders below `n` that the address lies in.
unfoldable pub total : (page_size n : ℕ) → (ℕ → List ℕ) → ℕ → ℕ
total page_size zero lists a = 0
total page_size (suc n) lists a =
    covers (block_len page_size n) (lists n) a + total page_size n lists a

-- The headers from an address on are those of the blocks of a list.
abbrev pub Chain : (ℕ → ℕ) → ℕ → List ℕ → Type 0
Chain next head [] = head ≡ 0
Chain next head (x ∷ xs) = (head ≡ x) × (x ≢ 0) × Chain next (next x) xs

pub inside_self : (size x : ℕ) → 0 < size → inside size x x ≡ 1
inside_self size x p = ground arith

-- A store outside of the blocks of a list leaves the list as it is.
pub Chain-write :
    (size : ℕ) (next : ℕ → ℕ) (head : ℕ) (xs : List ℕ) (b v : ℕ)
    → 0 < size
    → covers size xs b ≡ 0
    → Chain next head xs
    → Chain (write next b v) head xs
unfolding covers
Chain-write size next head [] b v p none c = c
Chain-write size next head (x ∷ xs) b v p none (e, ne, c) =
    let other : x ≢ b =
      λ same. let f : inside size x b ≡ 1 = rw same (inside_self size b p) in omega arith in
    let kept : write next b v x ≡ next x = rw (==_of_ne x b other) in
    (e, ne, rw kept (Chain-write size next (next x) xs b v p (omega arith) c))

module _ (page_size : ℕ) where
  pub covers-le-total :
      (n k : ℕ) (lists : ℕ → List ℕ) (a : ℕ)
      → k < n
      → covers (block_len page_size k) (lists k) a ≤ total page_size n lists a
  unfolding total
  covers-le-total zero k lists a h = absurd (omega arith)
  covers-le-total (suc n) k lists a h = elim (Bool-cases (k == n)) [
    | inl e ↦ rw (eq_of_== k n e) (omega arith)
    | inr e ↦
        let lt : k < n = omega (arith, ne_of_not_== k n e) in
        omega (arith, covers-le-total n k lists a lt)
  ]

  total-above :
      (n k : ℕ) (lists : ℕ → List ℕ) (ys : List ℕ) (a : ℕ)
      → n ≤ k
      → total page_size n (write lists k ys) a ≡ total page_size n lists a
  unfolding total
  total-above zero k lists ys a h = refl
  total-above (suc n) k lists ys a h =
      let ne : n ≢ k = omega arith in
      rw (==_of_ne n k ne) (
        ap (λ t. covers (block_len page_size n) (lists n) a + t)
          (total-above n k lists ys a (omega arith)))

  -- Another list of one order changes the count by the difference of the two lists.
  pub total-write :
      (n k : ℕ) (lists : ℕ → List ℕ) (ys : List ℕ) (a : ℕ)
      → k < n
      → total page_size n (write lists k ys) a + covers (block_len page_size k) (lists k) a
        ≡ total page_size n lists a + covers (block_len page_size k) ys a
  unfolding total
  total-write zero k lists ys a h = absurd (omega arith)
  total-write (suc n) k lists ys a h = elim (Bool-cases (n == k)) [
    | inl e ↦
        let same = eq_of_== n k e in
        rw (e, total-above n k lists ys a (omega arith), same) (omega arith)
    | inr e ↦
        let lt : k < n = omega (arith, ne_of_not_== n k e) in
        rw e (omega (arith, total-write n k lists ys a lt))
  ]
