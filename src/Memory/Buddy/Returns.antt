-- ===== src/Memory/Buddy/Returns.antt =====
-- `free` of a block that was allocated.
use endless_hole.Base.{ℕ, ◌+◌, ◌≤◌, ◌<◌, arith, ◌≡◌, ◌≢◌, ◌∙◌}
use endless_hole.Base.{true, some, List}
use endless_hole.Memory.Buddy.{Allocator, order_of, buddy_of, free, PhysicalAddress}
use endless_hole.Memory.Buddy.{
  out_of_memory, invalid_size, unknown_ptr, Outcome, ok, err, panic, out_of_fuel,
}
use endless_hole.Memory.Addresses.Physical
use endless_hole.Memory.Buddy.Pool.{inside, block_len}
use endless_hole.Memory.Buddy.Links.{Same, free_at, HasLists, IsValid, IsDetached}
use endless_hole.Memory.Buddy.Split.{block_len-add}
use endless_hole.Memory.Buddy.Walks.{occurs}
use endless_hole.Memory.Buddy.Unlink.{try_remove_buddy-Removes}
use endless_hole.Memory.Buddy.Free.{
  IsEnough, Frees, free_block-Frees, free_block-panic, free-checked,
}

-- The arguments of a call of `free` that gives back the block `b`, of which no address is free: its
-- order `k` is that of the number of pages, and it starts in the region of the allocator.
pub record IsCall (s : Allocator) (lists : ℕ → List ℕ) (v : IsValid s lists) (b n k : ℕ)
    : Type 0 where
  pub low : s.base_addr ≤ b
  pub high : b < s.end_addr
  pub pages : n ≢ 0
  pub order : order_of n ≡ some k
  pub detached : IsDetached s lists v k b

-- For an allocator that is well formed, fuel above the lengths of its free lists, a number of pages
-- whose order is below the largest, and a physical address whose block in the kernel space starts in
-- the region, is page aligned, and has no address that is free: `free` returns normally or refuses the
-- block as unknown, the latter only if the block's buddy does not stand in the list of its order and
-- stands in the list of the next order. When it returns, the headers in memory hold free lists, of
-- which the following holds. If no merge takes place, or the block is the lower half of the merged
-- pair, then each address lies in as many free blocks as before, plus one in the block, and the free
-- lists are well formed. If a merge takes place, then the buddy's addresses go, and those of the
-- double block that starts at the freed block come.
pub free-Frees :
    (s : Allocator) (lists : ℕ → List ℕ) (v : IsValid s lists) (fuel : ℕ) (pages : PhysicalAddress)
    (n k : ℕ)
    → IsEnough fuel s lists
    → k + 1 < s.max_order
    → IsCall s lists v (Physical.into_raw pages) n k
    → Frees s lists k (Physical.into_raw pages) (free fuel s pages n)
free-Frees s lists v fuel pages n k enough above call =
    let h : k < s.max_order = omega arith in
    rw (free-checked s fuel k pages n h call.detached.0 call.low call.high call.pages call.order) (
      free_block-Frees s lists v fuel enough k (Physical.into_raw pages) h call.detached _ above (
        try_remove_buddy-Removes s lists v k (buddy_of s (Physical.into_raw pages) k) h fuel
          (enough k h)))

-- For an allocator that is well formed, fuel above the lengths of its free lists, a number of pages of
-- the largest order, and a physical address whose block in the kernel space starts in the region, is
-- page aligned, and has no address that is free: `free` panics, by an index out of the range of the
-- free lists.
pub free-panic :
    (s : Allocator) (lists : ℕ → List ℕ) (v : IsValid s lists) (fuel : ℕ) (pages : PhysicalAddress)
    (n k : ℕ)
    → IsEnough fuel s lists
    → k + 1 ≡ s.max_order
    → IsCall s lists v (Physical.into_raw pages) n k
    → free fuel s pages n ≡ panic
free-panic s lists v fuel pages n k enough last call =
    let h : k < s.max_order = omega arith in
    free-checked s fuel k pages n h call.detached.0 call.low call.high call.pages call.order
    ∙ free_block-panic s lists v fuel enough k (Physical.into_raw pages) h call.detached _ last (
        try_remove_buddy-Removes s lists v k (buddy_of s (Physical.into_raw pages) k) h fuel
          (enough k h))

abbrev pub Misplaces : Allocator → (ℕ → List ℕ) → (k b : ℕ) → Outcome Allocator → Type 0
Misplaces s lists k b (ok t) =
    let size = block_len s.page_size k in
    (left : ℕ → List ℕ) × Same s t
    × HasLists t left
    × ((a : ℕ) → b ≤ a + size → a < b → free_at s left a + 1 ≡ free_at s lists a)
    × ((a : ℕ) → b + size ≤ a → a < b + (size + size) → free_at s left a ≡ free_at s lists a + 1)
Misplaces s lists k b _ = ⊥

below_merged :
    (size double b y a after before : ℕ)
    → double ≡ size + size
    → b ≡ y + size
    → after + inside size y a ≡ inside double b a + before
    → b ≤ a + size
    → a < b
    → after + 1 ≡ before
below_merged size double b y a after before d u e low high = ground arith

above_merged :
    (size double b y a after before : ℕ)
    → double ≡ size + size
    → b ≡ y + size
    → after + inside size y a ≡ inside double b a + before
    → b + size ≤ a
    → a < b + (size + size)
    → after ≡ before + 1
above_merged size double b y a after before d u e low high = ground arith

-- For an allocator that is well formed, fuel above the lengths of its free lists, a number of pages
-- whose order is below the largest, and a physical address whose block in the kernel space starts in
-- the region, is page aligned, and has no address that is free: when the block is the upper half of a
-- pair whose lower half stands in the list of its order, `free` returns normally, and in the free
-- lists that the headers then hold the addresses of the lower half, which were free, are not free any
-- more, and as many addresses above the freed block, which are not part of the pair, become free
-- though nobody gave them back.
pub free-Misplaces :
    (s : Allocator) (lists : ℕ → List ℕ) (v : IsValid s lists) (fuel : ℕ) (pages : PhysicalAddress)
    (n k : ℕ)
    → IsEnough fuel s lists
    → k + 1 < s.max_order
    → IsCall s lists v (Physical.into_raw pages) n k
    → occurs (buddy_of s (Physical.into_raw pages) k) (lists k) ≡ true
    → Physical.into_raw pages ≡ buddy_of s (Physical.into_raw pages) k + block_len s.page_size k
    → Misplaces s lists k (Physical.into_raw pages) (free fuel s pages n)
free-Misplaces s lists v fuel pages n k enough above call present upper =
    go (free fuel s pages n) (free-Frees s lists v fuel pages n k enough above call)
  where
    go :
        (r : Outcome Allocator)
        → Frees s lists k (Physical.into_raw pages) r
        → Misplaces s lists k (Physical.into_raw pages) r
    go (ok t) (left, same, lists_left, kept, merged) = (
      left,
      same,
      lists_left,
      λ a le lt.
          below_merged (block_len s.page_size k) (block_len s.page_size (k + 1))
            (Physical.into_raw pages) (buddy_of s (Physical.into_raw pages) k) a _ _
            (block_len-add s.page_size k) upper (merged present a) le lt,
      λ a le lt.
          above_merged (block_len s.page_size k) (block_len s.page_size (k + 1))
            (Physical.into_raw pages) (buddy_of s (Physical.into_raw pages) k) a _ _
            (block_len-add s.page_size k) upper (merged present a) le lt,
    )
    go (err unknown_ptr) p = absurd cc
    go (err out_of_memory) p = p
    go (err invalid_size) p = p
    go panic p = p
    go out_of_fuel p = p
