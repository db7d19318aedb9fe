-- ===== src/Memory/Buddy/Free.antt =====
-- `free` against the count of the free blocks that an address lies in.
use endless_hole.Base.{ℕ, ◌+◌, ◌%◌, ◌≤◌, ◌<◌, arith, ◌≡◌, ◌≢◌, refl, ◌∙◌}
use endless_hole.Base.{
  true, false, not, ◌&&◌, ◌⊎◌, some, List, ltb, leb, ◌==◌, if◌then◌else◌, write, length,
}
use endless_hole.Base.{Bool-cases, inl, inr, ==_of_ne}
use endless_hole.Memory.Buddy.{
  Allocator, push_free, link, order_of, Removal, no_fuel, not_found, removed, try_remove_buddy,
  buddy_of, ensure_not_in, free_block, free, pushed, PhysicalAddress,
}
use endless_hole.Memory.Buddy.{unknown_ptr, Outcome, ok, err, panic, out_of_fuel}
use endless_hole.Memory.Addresses.Physical
use endless_hole.Memory.Buddy.Pool.{inside, block_len}
use endless_hole.Memory.Buddy.Links.{
  Same, free_at, HasLists, IsValid, link-HasLists, block_len-pos, IsDetached, push_free-IsValid,
  push_free-link, pushed_lists, free_at-link, covers-vacant,
}
use endless_hole.Memory.Buddy.Split.{block_len-add, halves}
use endless_hole.Memory.Buddy.Walks.{occurs, erase, covers-occurs, find_from-occurs}
use endless_hole.Memory.Buddy.Unlink.{Removes}

-- More fuel than any free list has blocks.
abbrev pub IsEnough : ℕ → Allocator → (ℕ → List ℕ) → Type 0
IsEnough fuel s lists = (k : ℕ) → k < s.max_order → length (lists k) < fuel

-- What giving back the block `b` of order `k` comes to.
abbrev pub Frees : Allocator → (ℕ → List ℕ) → (k b : ℕ) → Outcome Allocator → Type 0
Frees s lists k b (ok t) =
    let size = block_len s.page_size k in
    let buddy = buddy_of s b k in
    (left : ℕ → List ℕ) × Same s t
    × HasLists t left
    × ((occurs buddy (lists k) ≡ false) ⊎ (b + size ≡ buddy)
        → IsValid t left × ((a : ℕ) → free_at s left a ≡ inside size b a + free_at s lists a))
    × (occurs buddy (lists k) ≡ true
        → (a : ℕ)
        → free_at s left a + inside size buddy a
          ≡ inside (block_len s.page_size (k + 1)) b a + free_at s lists a)
Frees s lists k b (err unknown_ptr) =
    (occurs (buddy_of s b k) (lists k) ≡ false) × (occurs (buddy_of s b k) (lists (k + 1)) ≡ true)
Frees s lists k b (err _) = ⊥
Frees s lists k b panic = ⊥
Frees s lists k b out_of_fuel = ⊥

module _ (s : Allocator) (lists : ℕ → List ℕ) (v : IsValid s lists) (fuel : ℕ)
    (enough : IsEnough fuel s lists) where
  pub ensure_not_in-occurs :
      (k b : ℕ) (rest : Outcome Allocator)
      → k < s.max_order
      → ensure_not_in fuel s k b rest ≡ (if occurs b (lists k) then err unknown_ptr else rest)
  unfolding ensure_not_in
  ensure_not_in-occurs k b rest h =
      let inside_range : leb s.max_order k ≡ false = ground arith in
      rw
        (
          inside_range,
          find_from-occurs fuel s b (s.free_blocks k) (lists k) (v.chains k h) (enough k h),
        )
        (elim (Bool-cases (occurs b (lists k))) [ inl e ↦ rw e refl | inr e ↦ rw e refl ])

  module _ (k b : ℕ) (h : k < s.max_order) (d : IsDetached s lists v k b) where
    abbrev size : ℕ
    size = block_len s.page_size k

    abbrev buddy : ℕ
    buddy = buddy_of s b k

    not_free : (j : ℕ) → j < s.max_order → occurs b (lists j) ≡ false
    not_free j lt =
        let positive : 0 < size = block_len-pos s.page_size k v.positive in
        let vacant : free_at s lists b ≡ 0 = ground (arith, d.2 b) in
        covers-occurs (block_len s.page_size j) b (lists j) (block_len-pos s.page_size j v.positive)
          (covers-vacant s lists v j b lt vacant)

    merge-Frees :
        (t : Allocator)
        → k + 1 < s.max_order
        → Removes s lists k buddy (removed t)
        → Frees s lists k b (pushed (push_free t (k + 1) b))
    merge-Frees t above (present, same, valid, count) =
        let without = write lists k (erase buddy (lists k)) in
        let left = pushed_lists t without valid (k + 1) b in
        let linked : push_free t (k + 1) b ≡ some (link t (k + 1) b) =
          push_free-link t (k + 1) b (rw same.3 above) (rw same.2 d.1) in
        let count' : (a : ℕ)
            → free_at s left a ≡ inside (block_len s.page_size (k + 1)) b a + free_at s without a =
          λ a.
            rw (same.2, same.3) at (free_at-link t without valid (k + 1) b a (rw same.3 above)) in
        let positive : 0 < size = block_len-pos s.page_size k v.positive in
        let unlisted : free_at s lists b ≡ 0 = ground (arith, d.2 b) in
        let vacant : free_at t without b ≡ 0 = rw (same.2, same.3) (omega (arith, count b)) in
        rw linked (
          left,
          same,
          link-HasLists t without valid (k + 1) b (rw same.3 above) d.0 vacant,
          λ c. elim c [
            | inl absent ↦ absurd cc
            | inr lower ↦
                let both : (a : ℕ)
                    → inside (block_len s.page_size (k + 1)) b a
                      ≡ inside size b a + inside size buddy a =
                  λ a. halves _ size b a (block_len-add s.page_size k) ∙ rw lower refl in
                let free : IsDetached t without valid (k + 1) b = (
                  d.0,
                  rw same.2 d.1,
                  λ a. rw (same.2, same.3) (omega (arith, count a, both a, d.2 a)),
                ) in
                (
                  (push_free-IsValid t without valid (k + 1) b (rw same.3 above) free).1,
                  λ a. omega (arith, count a, count' a, both a),
                )
          ],
          λ yes a. omega (arith, count a, count' a),
        )

    pub free_block-Frees :
        (r : Removal)
        → k + 1 < s.max_order
        → Removes s lists k buddy r
        → Frees s lists k b (free_block fuel s k b r)
    unfolding free_block
    free_block-Frees no_fuel above p = p
    free_block-Frees (removed t) above p = merge-Frees t above p
    free_block-Frees not_found above p =
        rw
          (
            ensure_not_in-occurs k b _ h,
            not_free k h,
            ensure_not_in-occurs (k + 1) b _ above,
            not_free (k + 1) above,
            ensure_not_in-occurs (k + 1) buddy _ above,
          )
          (elim (Bool-cases (occurs buddy (lists (k + 1)))) [
            | inl e ↦ rw e (p, e)
            | inr e ↦
                let (linked, valid) = push_free-IsValid s lists v k b h d in
                rw (e, linked)
                  (
                    pushed_lists s lists v k b,
                    (refl, refl, refl, refl),
                    valid.chains,
                    λ c. (valid, λ a. free_at-link s lists v k b a h),
                    λ present. absurd cc,
                  )
          ])

    -- The largest order has no list for what a merge leaves.
    pub free_block-panic :
        (r : Removal)
        → k + 1 ≡ s.max_order
        → Removes s lists k buddy r
        → free_block fuel s k b r ≡ panic
    unfolding free_block
    free_block-panic no_fuel last p = absurd p
    free_block-panic (removed t) last (present, same, valid, count) =
        let out : leb t.max_order (k + 1) ≡ true = ground (arith, same.3) in
        unfold push_free in
        rw out (elim (Bool-cases (b % t.page_size == 0)) [ inl e ↦ rw e refl | inr e ↦ rw e refl ])
    free_block-panic not_found last p =
        rw (ensure_not_in-occurs k b _ h, not_free k h)
          (unfold ensure_not_in in
            let out : leb s.max_order (k + 1) ≡ true = ground arith in rw out refl)

-- What `free` comes to where the arguments pass its first checks.
pub free-checked :
    (s : Allocator) (fuel k : ℕ) (pages : PhysicalAddress) (n : ℕ)
    → k < s.max_order
    → Physical.into_raw pages ≢ 0
    → s.base_addr ≤ Physical.into_raw pages
    → Physical.into_raw pages < s.end_addr
    → n ≢ 0
    → order_of n ≡ some k
    → free fuel s pages n
      ≡ free_block fuel s k
          (Physical.into_raw pages)
          (try_remove_buddy fuel s k (buddy_of s (Physical.into_raw pages) k))
unfolding free
free-checked s fuel k pages n h pos low high ne e =
    let b : ℕ = Physical.into_raw pages in
    let fits : leb s.max_order k ≡ false = ground arith in
    let first : (b == 0) ≡ false = ==_of_ne b 0 pos in
    let second : (n == 0) ≡ false = ==_of_ne n 0 ne in
    let range : (not (leb s.base_addr b && ltb b s.end_addr)) ≡ false = ground arith in
    rw (first, second, range, e, fits) refl
