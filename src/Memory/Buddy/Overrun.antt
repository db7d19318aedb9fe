-- ===== src/Memory/Buddy/Overrun.antt =====
-- `add_memory_region` of a region that does not start at a page boundary.
use endless_hole.Base.{ℕ, ◌+◌, ◌*◌, ◌/◌, ◌%◌, ◌≤◌, ◌<◌, arith, ◌≡◌}
use endless_hole.Base.{Bool, true, false, List}
use endless_hole.Memory.Buddy.{Allocator, align_offset, add_memory_region}
use endless_hole.Memory.Buddy.{Outcome, ok, err, panic, out_of_fuel}
use endless_hole.Memory.Buddy.Pool.{inside}
use endless_hole.Memory.Buddy.Links.{Same, free_at, IsValid}
use native.Mathlib.Nat.{mod-lt, div-add-mod'}
use endless_hole.Memory.Buddy.Region.{IsRegion, AddsRegion, add_memory_region-AddsRegion}

abbrev pub Overruns : Allocator → (ℕ → List ℕ) → (address : ℕ) → Outcome (Bool × Allocator) → Type 0
Overruns s lists address (ok (true, t)) =
    (left : ℕ → List ℕ) × Same s t
    × IsValid t left
    × (free_at s left address ≡ free_at s lists address + 1)
Overruns s lists address _ = ⊥

overrun :
    (page pad start len after before : ℕ)
    → 0 < page
    → page ≤ len
    → len % page < pad
    → pad < page
    → after ≡ inside (len / page * page) (start + pad) (start + len) + before
    → after ≡ before + 1
overrun page pad start len after before pos some_page more small e =
    let whole = div-add-mod' len page in ground arith

-- For an allocator that is well formed and has at least one order, fuel that is not below the whole
-- pages of the region and the orders together, and a region that is not empty, does not start at null,
-- lies between the bounds of the allocator, and has no free address in as many pages as its length
-- has, from its first page boundary on: when it has a whole page after the padding of the start, and
-- the padding is longer than what the length has over whole pages, `add_memory_region` returns
-- `true`, and the first address after the region becomes free though it is not part of it.
pub add_memory_region-Overruns :
    (s : Allocator) (lists : ℕ → List ℕ) (fuel start len : ℕ)
    → IsValid s lists
    → 0 < s.max_order
    → IsRegion s lists start len
    → len / s.page_size + s.max_order ≤ fuel
    → s.page_size + align_offset start s.page_size ≤ len
    → len % s.page_size < align_offset start s.page_size
    → Overruns s lists (start + len) (add_memory_region fuel s start len)
add_memory_region-Overruns s lists fuel start len v orders region enough page more =
    go (add_memory_region fuel s start len)
      (add_memory_region-AddsRegion s lists fuel start len v orders region enough)
  where
    go :
        (r : Outcome (Bool × Allocator))
        → AddsRegion s lists start len r
        → Overruns s lists (start + len) r
    go (ok (true, t)) (left, same, valid, count) =
        let small : align_offset start s.page_size < s.page_size = mod-lt _ v.positive in
        (
          left,
          same,
          valid,
          overrun s.page_size (align_offset start s.page_size) start len _ _ v.positive
              (omega (arith, page)) more small (count (start + len)),
        )
    go (ok (false, t)) p = absurd (omega (arith, p.1))
    go (err e) p = p
    go panic p = p
    go out_of_fuel p = p
