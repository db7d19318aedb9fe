-- ===== src/Memory/Buddy/Start.antt =====
-- `new` of the buddy allocator.
use endless_hole.Base.{ℕ, zero, suc, ◌%◌, ◌≤◌, ◌<◌, arith, ◌≡◌, refl, [], ◌==◌}
use endless_hole.Base.{Bool-cases, inl, inr, eq_of_==, ne_of_not_==}
use endless_hole.Memory.Buddy.{Allocator, Outcome, ok, panic, new}
use endless_hole.Memory.Buddy.Pool.{covers, total}
use endless_hole.Memory.Buddy.Links.{free_at, IsValid}

total_nothing : (page_size n a : ℕ) → total page_size n (λ k. []) a ≡ 0
unfolding total covers
total_nothing page_size zero a = refl
total_nothing page_size (suc n) a = omega (arith, total_nothing page_size n a)

-- What `new` promises of its result.
abbrev pub Starts : (page_size memory_start memory_length : ℕ) → Outcome Allocator → Type 0
Starts page_size memory_start memory_length (ok s) =
    (memory_start % page_size ≡ 0)
    × (memory_length % page_size ≡ 0)
    × IsValid s (λ k. [])
    × ((a : ℕ) → free_at s (λ k. []) a ≡ 0)
Starts page_size memory_start memory_length panic =
    (memory_start % page_size ≡ 0) → (memory_length % page_size ≡ 0) → ⊥
Starts page_size memory_start memory_length _ = ⊥

-- For a page size above 0 and at most 64 orders: `new` panics only if the start or the length of the
-- memory is not a multiple of the page size, and else gives a well formed allocator that has no free
-- block.
pub new-Starts :
    (max_order page_size memory_start memory_length : ℕ) (memory : ℕ → ℕ)
    → 0 < page_size
    → max_order ≤ 64
    → Starts page_size memory_start memory_length
        (new max_order page_size memory_start memory_length memory)
unfolding new
new-Starts max_order page_size start len memory pos orders =
    elim (Bool-cases (start % page_size == 0)) [
      | inr odd ↦ rw odd (λ p q. ne_of_not_== _ _ odd p)
      | inl even ↦ elim (Bool-cases (len % page_size == 0)) [
        | inr odd ↦ rw (even, odd) (λ p q. ne_of_not_== _ _ odd q)
        | inl even' ↦
            rw (even, even')
              (
                eq_of_== _ _ even,
                eq_of_== _ _ even',
                record {
                  positive = pos;
                  orders = orders;
                  chains = λ k lt. refl;
                  aligned = λ k lt. tt;
                  apart = λ a. omega (arith, total_nothing page_size max_order a);
                },
                λ a. total_nothing page_size max_order a,
              )
      ]
    ]
