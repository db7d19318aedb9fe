-- ===== src/Memory/Buddy/Split.antt =====
-- `split_block_to_size` against the count of the free blocks that an address lies in.
use endless_hole.Base.{ℕ, zero, suc, ◌+◌, ◌^◌, ◌≤◌, ◌<◌, arith, ◌≡◌, refl, ◌∙◌}
use endless_hole.Base.{Option, none, some, List, leb}
use endless_hole.Base.{Bool-cases, inl, inr}
use endless_hole.Memory.Buddy.{Allocator, link, split_block_to_size}
use endless_hole.Memory.Buddy.{}
use endless_hole.Memory.Buddy.Pool.{inside, block_len}
use endless_hole.Memory.Buddy.Links.{
  Same, free_at, IsValid, IsDetached, push_free-IsValid, pushed_lists, free_at-link,
}
use native.Mathlib.Nat.{add-mul-mod_self_right}

pub block_len-suc :
    (page_size k : ℕ) → block_len page_size (suc k) ≡ block_len page_size k + block_len page_size k
block_len-suc page_size k = grind arith

pub block_len-add :
    (page_size k : ℕ) → block_len page_size (k + 1) ≡ block_len page_size k + block_len page_size k
block_len-add page_size k = let e : k + 1 ≡ suc k = omega arith in rw e (block_len-suc page_size k)

pub halves :
    (size half b a : ℕ)
    → size ≡ half + half
    → inside size b a ≡ inside half b a + inside half (b + half) a
halves size half b a e = ground arith

-- What splitting the block `b` leaves: pages of it that are not kept become free.
abbrev pub Splits : Allocator → (ℕ → List ℕ) → (b have want : ℕ) → Option Allocator → Type 0
Splits s lists b have want none = ⊥
Splits s lists b have want (some t) =
    (left : ℕ → List ℕ) × Same s t
    × IsValid t left
    × ((a : ℕ)
        → free_at s left a + inside (block_len s.page_size want) b a
          ≡ free_at s lists a + inside (block_len s.page_size have) b a)

pub split_block_to_size-Splits :
    (have : ℕ) (s : Allocator) (lists : ℕ → List ℕ) (b want : ℕ) (v : IsValid s lists)
    → want ≤ have
    → have < s.max_order
    → IsDetached s lists v have b
    → Splits s lists b have want (split_block_to_size s b have want)
unfolding split_block_to_size
split_block_to_size-Splits zero s lists b want v le lt d =
    let e : want ≡ 0 = omega arith in rw e (lists, (refl, refl, refl, refl), v, λ a. refl)
split_block_to_size-Splits (suc have) s lists b want v le lt (ne, aligned, free) =
    elim (Bool-cases (leb (suc have) want)) [
      | inl stop ↦
          let e : want ≡ suc have = ground arith in
          rw (stop, e) (lists, (refl, refl, refl, refl), v, λ a. refl)
      | inr down ↦
          let half = block_len s.page_size have in
          let upper = b + half in
          let both : (a : ℕ)
              → inside (block_len s.page_size (suc have)) b a
                ≡ inside half b a + inside half upper a =
            λ a. halves _ half b a (block_len-suc s.page_size have) in
          let detached : IsDetached s lists v have upper = (
            omega arith,
            add-mul-mod_self_right b (2 ^ have) s.page_size ∙ aligned,
            λ a. omega (arith, free a, both a),
          ) in
          let (pushed, valid) = push_free-IsValid s lists v have upper (omega arith) detached in
          let count : (a : ℕ)
              → free_at s (pushed_lists s lists v have upper) a
                ≡ inside half upper a + free_at s lists a =
            λ a. free_at-link s lists v have upper a (omega arith) in
          rw (down, pushed)
            (go upper (pushed_lists s lists v have upper)
              (split_block_to_size (link s have upper) b have want)
              (split_block_to_size-Splits have (link s have upper)
                (pushed_lists s lists v have upper) b want valid (ground arith) (omega arith)
                (ne, aligned, λ a. omega (arith, count a, both a, free a)))
              (λ a. omega (arith, count a, both a)))
    ]
  where
    go :
        (upper : ℕ) (lower : ℕ → List ℕ) (r : Option Allocator)
        → Splits (link s have upper) lower b have want r
        → ((a : ℕ)
            → free_at s lower a + inside (block_len s.page_size have) b a
              ≡ free_at s lists a + inside (block_len s.page_size (suc have)) b a)
        → Splits s lists b (suc have) want r
    go upper lower none p c = p
    go upper lower (some t) (left, same, valid, count) c =
        (left, same, valid, λ a. omega (arith, count a, c a))
