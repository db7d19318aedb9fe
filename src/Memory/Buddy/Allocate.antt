-- ===== src/Memory/Buddy/Allocate.antt =====
-- `allocate` against the count of the free blocks that an address lies in.
use endless_hole.Base.{ℕ, zero, suc, ◌+◌, ◌-◌, ◌%◌, ◌^◌, ◌≤◌, ◌<◌, arith, ◌≡◌, refl, ◌∙◌}
use endless_hole.Base.{Option, none, some, List, [], leb, ◌==◌}
use endless_hole.Base.{Bool-cases, inl, inr, eq_of_==, ne_of_not_==}
use endless_hole.Memory.Buddy.{
  Allocator, pop_free, split_block_to_size, order_from, order_of, pop_from, allocate,
  PhysicalAddress,
}
use endless_hole.Memory.Buddy.{
  out_of_memory, invalid_size, unknown_ptr, Outcome, ok, err, panic, out_of_fuel,
}
use endless_hole.Base.Bits.{bit_and-low_mask}
use endless_hole.Memory.Addresses.Physical
use endless_hole.Memory.Buddy.Pool.{inside, block_len}
use endless_hole.Memory.Buddy.Links.{Same, free_at, IsValid, Pops, pop_free-Pops}
use endless_hole.Memory.Buddy.Split.{Splits, split_block_to_size-Splits}

-- The least power of two that is not below a number.
abbrev pub Rounds : (n limit : ℕ) → Option ℕ → Type 0
Rounds n limit none = (j : ℕ) → j < limit → 2 ^ j < n
Rounds n limit (some k) = (n ≤ 2 ^ k) × ((j : ℕ) → j < k → 2 ^ j < n)

order_from-Rounds :
    (fuel k n limit : ℕ)
    → fuel + k ≡ limit
    → ((j : ℕ) → j < k → 2 ^ j < n)
    → Rounds n limit (order_from fuel k n)
unfolding order_from
order_from-Rounds zero k n limit e below = λ j h. below j (omega arith)
order_from-Rounds (suc fuel) k n limit e below = elim (Bool-cases (leb n (2 ^ k))) [
  | inl fits ↦ rw fits (ground arith, below)
  | inr more ↦
      let above : 2 ^ k < n = ground arith in
      rw more (
        order_from-Rounds fuel (k + 1) n limit (omega arith) (λ j h. elim (Bool-cases (j == k)) [
          | inl same ↦ rw (eq_of_== j k same) above
          | inr other ↦ below j (omega (arith, ne_of_not_== j k other))
        ]))
]

pub order_of-Rounds : (n : ℕ) → Rounds n 64 (order_of n)
unfolding order_of
order_of-Rounds n = order_from-Rounds 64 0 n 64 refl (λ j h. absurd (omega arith))

-- The first order from one on whose free list has a block.
abbrev PopsFrom :
    (s : Allocator) (lists : ℕ → List ℕ) → IsValid s lists → ℕ → Option (ℕ × ℕ × Allocator) → Type 0
PopsFrom s lists v order none = (k : ℕ) → order ≤ k → k < s.max_order → lists k ≡ []
PopsFrom s lists v order (some (b, k, t)) =
    (order ≤ k) × (k < s.max_order) × Pops s lists v k (some (b, t))

pop_from-PopsFrom :
    (orders : ℕ) (s : Allocator) (lists : ℕ → List ℕ) (v : IsValid s lists) (order : ℕ)
    → orders ≡ s.max_order - order
    → PopsFrom s lists v order (pop_from orders s order)
unfolding pop_from
pop_from-PopsFrom zero s lists v order e = λ k le lt. absurd (omega arith)
pop_from-PopsFrom (suc orders) s lists v order e =
    go (pop_free s order) (pop_free-Pops s lists v order (omega arith))
      (pop_from orders s (order + 1)) (pop_from-PopsFrom orders s lists v (order + 1) (omega arith))
  where
    go :
        (p : Option (ℕ × Allocator))
        → Pops s lists v order p
        → (rest : Option (ℕ × ℕ × Allocator)) → PopsFrom s lists v (order + 1) rest
        → PopsFrom s lists v order
            (elim p [ none ↦ rest | some (block, t) ↦ some (block, order, t) ])
    go (some (b, t)) pops rest ih = (omega arith, omega arith, pops)
    go none empty none ih = λ k le lt. elim (Bool-cases (k == order)) [
      | inl same ↦ rw (eq_of_== k order same) empty
      | inr other ↦ ih k (omega (arith, ne_of_not_== k order other)) lt
    ]
    go none empty (some (b, k, t)) (le, lt, pops) = (omega arith, lt, pops)

pub Same-trans : (s t u : Allocator) → Same s t → Same t u → Same s u
Same-trans s t u (a, b, c, d) (a', b', c', d') = (a' ∙ a, b' ∙ b, c' ∙ c, d' ∙ d)

-- What `allocate` promises of its result.
abbrev pub Allocates : Allocator → (ℕ → List ℕ) → ℕ → Outcome (PhysicalAddress × Allocator) → Type 0
Allocates s lists n (ok (pages, t)) =
    (order : ℕ) × (b : ℕ) × (left : ℕ → List ℕ) × (pages.address ≡ b % 2 ^ 48)
    × (n ≤ 2 ^ order)
    × ((j : ℕ) → j < order → 2 ^ j < n)
    × (b % s.page_size ≡ 0)
    × Same s t
    × IsValid t left
    × ((a : ℕ) → free_at s lists a ≡ inside (block_len s.page_size order) b a + free_at s left a)
Allocates s lists n (err out_of_memory) = (k : ℕ) → n ≤ 2 ^ k → k < s.max_order → lists k ≡ []
Allocates s lists n (err invalid_size) = n ≡ 0
Allocates s lists n (err unknown_ptr) = ⊥
Allocates s lists n panic = ⊥
Allocates s lists n out_of_fuel = ⊥

module _ (s : Allocator) (lists : ℕ → List ℕ) (v : IsValid s lists) (n order : ℕ)
    (fits : n ≤ 2 ^ order) (least : (j : ℕ) → j < order → 2 ^ j < n) where
  split-Allocates :
      (b k : ℕ) (t : Allocator) (left : ℕ → List ℕ)
      → Same s t
      → b % s.page_size ≡ 0
      → ((a : ℕ) → free_at s lists a ≡ inside (block_len s.page_size k) b a + free_at s left a)
      → (r : Option Allocator) → Splits t left b k order r
      → Allocates s lists n
          (elim r [ none ↦ panic | some u ↦ ok (Physical.from_raw (Unit {0}) b, u) ])
  unfolding Physical.from_raw
  split-Allocates b k t left same aligned count none p = absurd p
  split-Allocates b k t left same aligned count (some u) (kept, same', valid, counts) = (
    order,
    b,
    kept,
    bit_and-low_mask 48 b,
    fits,
    least,
    aligned,
    Same-trans s t u same same',
    valid,
    λ a. omega (arith, count a, rw (same.2, same.3) at (counts a)),
  )

  pop-Allocates :
      (r : Option (ℕ × ℕ × Allocator))
      → PopsFrom s lists v order r
      → Allocates s lists n (elim r [
        | none ↦ err out_of_memory
        | some (block, actual_order, t) ↦ elim (split_block_to_size t block actual_order order) [
          | none ↦ panic
          | some u ↦ ok (Physical.from_raw (Unit {0}) block, u)
        ]
      ])
  pop-Allocates none empty = λ k le lt. empty k (ground (arith, least k)) lt
  pop-Allocates (some (b, k, t)) (le, lt, (left, same, valid, ne, aligned, count)) =
      split-Allocates b k t left same aligned count _ (
        split_block_to_size-Splits k t left b order valid le (rw same.3 lt)
          (ne, rw same.2 aligned, λ a. rw (same.2, same.3) (omega (arith, count a, v.apart a))))

-- For an allocator that is well formed: `allocate` refuses no pages as an invalid size, and runs out
-- of memory only if no free list has a block of enough pages; it never panics. Else it takes a page
-- aligned block whose length is the least power of two that is not below the number of pages, and
-- returns its address modulo 2 ^ 48, as a physical address: each address lies in as many free blocks
-- as before, less one in the block, so that the block was free, is not free any more, and no other
-- address changes. The free lists stay well formed.
pub allocate-Allocates :
    (s : Allocator) (lists : ℕ → List ℕ) (n : ℕ)
    → IsValid s lists
    → Allocates s lists n (allocate s n)
unfolding allocate
allocate-Allocates s lists n v = elim (Bool-cases (n == 0)) [
  | inl e ↦ rw e (eq_of_== n 0 e)
  | inr e ↦ rw e (go (order_of n) (order_of-Rounds n))
]
  where
    go :
        (r : Option ℕ)
        → Rounds n 64 r
        → Allocates s lists n (elim r [
          | none ↦ err out_of_memory
          | some order ↦ elim (pop_from (s.max_order - order) s order) [
            | none ↦ err out_of_memory
            | some (block, actual_order, t) ↦
                elim (split_block_to_size t block actual_order order) [
                  | none ↦ panic
                  | some u ↦ ok (Physical.from_raw (Unit {0}) block, u)
                ]
          ]
        ])
    go none above = λ k fits lt. absurd (ground (arith, above k, v.orders))
    go (some order) (fits, least) =
        pop-Allocates s lists v n order fits least _
          (pop_from-PopsFrom (s.max_order - order) s lists v order refl)
