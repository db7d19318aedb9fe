-- ===== src/Memory/Buddy/Examples.antt =====
-- Runs of the buddy allocator, and the theorems about it at concrete states.
use endless_hole.Base.{ℕ, ◌+◌, ◌%◌, ◌≤◌, arith, ◌≡◌, refl, List, [], ◌∷◌}
use endless_hole.Base.{◌==◌, if◌then◌else◌, write, some, false, Bool-cases, inl, inr}
use endless_hole.Memory.Buddy
use endless_hole.Memory.Buddy.Walks
use endless_hole.Memory.Addresses.{kernel_tag}
use endless_hole.Memory.Addresses.Physical
use endless_hole.Memory.Buddy.{
  PhysicalAddress, Allocator, allocate, free, add_memory_region, order_of, buddy_of, Outcome, ok,
  err, panic,
}
use endless_hole.Memory.Buddy.Pool.{covers, total}
use endless_hole.Memory.Buddy.Links.{IsValid}
use endless_hole.Memory.Buddy.Start.{Starts, new-Starts}
use endless_hole.Memory.Buddy.Allocate.{Allocates, allocate-Allocates}
use endless_hole.Memory.Buddy.Free.{IsEnough, Frees}
use endless_hole.Memory.Buddy.Returns.{IsCall, free-Frees, free-panic, Misplaces, free-Misplaces}
use endless_hole.Memory.Buddy.Reuse.{IsKernelMemory, Restores, free-allocate}
use endless_hole.Memory.Buddy.Region.{IsRegion, AddsRegion, add_memory_region-AddsRegion}
use endless_hole.Memory.Buddy.Overrun.{Overruns, add_memory_region-Overruns}

-- Eight pages of four bytes from address 16 of the kernel space on; the orders are 0, 1 and 2. One page and the upper four
-- pages are free.
-- A physical address
abbrev at : ℕ → PhysicalAddress
at a = record { address = a }

abbrev heads : ℕ → ℕ → ℕ
heads page k = if k == 0 then kernel_tag + page else if k == 2 then kernel_tag + 32 else 0

abbrev pool : ℕ → Allocator
pool page = record {
  base_addr = kernel_tag + 16;
  end_addr = kernel_tag + 48;
  page_size = 4;
  max_order = 3;
  free_blocks = heads page;
  next_block = λ a. 0;
}

abbrev blocks : ℕ → ℕ → List ℕ
blocks page k =
    if k == 0 then (kernel_tag + page) ∷ [] else if k == 2 then (kernel_tag + 32) ∷ [] else []

pool-IsValid : (page : ℕ) → 16 ≤ page → page ≤ 28 → page % 4 ≡ 0 → IsValid (pool page) (blocks page)
unfolding total covers
pool-IsValid page low high aligned =
    let shifted : (kernel_tag + page) % 4 ≡ 0 = omega arith in
    record {
      positive = omega arith;
      orders = omega arith;
      chains = λ k lt. elim (Bool-cases (k == 0)) [
        | inl e ↦ rw e (refl, omega arith, refl)
        | inr e ↦ elim (Bool-cases (k == 2)) [
          | inl f ↦ rw (e, f) (refl, omega arith, refl)
          | inr f ↦ rw (e, f) refl
        ]
      ];
      aligned = λ k lt. elim (Bool-cases (k == 0)) [
        | inl e ↦ rw e (shifted, tt)
        | inr e ↦ elim (Bool-cases (k == 2)) [ inl f ↦ rw (e, f) (refl, tt) | inr f ↦ rw (e, f) tt ]
      ];
      apart = λ a. ground arith;
    }

IsEnough-pool : (page : ℕ) → IsEnough 2 (pool page) (blocks page)
IsEnough-pool page k lt = ground arith

allocate-Allocates_example : Allocates (pool 16) (blocks 16) 2 (allocate (pool 16) 2)
allocate-Allocates_example =
    allocate-Allocates (pool 16) (blocks 16) 2 (pool-IsValid 16 (omega arith) (omega arith) refl)

-- The page at 16 is given back, and merged with the one at 20.
lower-IsCall :
    IsCall
      (pool 20)
      (blocks 20)
      (pool-IsValid 20 (omega arith) (omega arith) refl)
      (Physical.into_raw (at 16))
      1
      0
unfolding Physical.into_raw order_of Buddy.order_from total covers
lower-IsCall = record {
  low = omega arith;
  high = omega arith;
  pages = omega arith;
  order = refl;
  detached = (omega arith, refl, λ a. ground arith);
}

free-Frees_example :
    Frees (pool 20) (blocks 20) 0 (Physical.into_raw (at 16)) (free 2 (pool 20) (at 16) 1)
free-Frees_example =
    free-Frees (pool 20) (blocks 20) (pool-IsValid 20 (omega arith) (omega arith) refl) 2 (at 16) 1
      0 (IsEnough-pool 20) (omega arith) lower-IsCall

-- The page at 20 is given back, and merged with the one at 16.
upper-IsCall :
    IsCall
      (pool 16)
      (blocks 16)
      (pool-IsValid 16 (omega arith) (omega arith) refl)
      (Physical.into_raw (at 20))
      1
      0
unfolding Physical.into_raw order_of Buddy.order_from total covers
upper-IsCall = record {
  low = omega arith;
  high = omega arith;
  pages = omega arith;
  order = refl;
  detached = (omega arith, refl, λ a. ground arith);
}

free-Misplaces_example :
    Misplaces (pool 16) (blocks 16) 0 (Physical.into_raw (at 20)) (free 2 (pool 16) (at 20) 1)
unfolding Physical.into_raw Walks.occurs
free-Misplaces_example =
    free-Misplaces (pool 16) (blocks 16) (pool-IsValid 16 (omega arith) (omega arith) refl) 2
      (at 20) 1 0 (IsEnough-pool 16) (omega arith) upper-IsCall refl refl

-- The upper four pages are free and nothing else is.
abbrev half : Allocator
half = record (pool 16) { free_blocks = λ k. if k == 2 then kernel_tag + 32 else 0 }

abbrev half_blocks : ℕ → List ℕ
half_blocks k = if k == 2 then (kernel_tag + 32) ∷ [] else []

half-IsValid : IsValid half half_blocks
unfolding total covers
half-IsValid = record {
  positive = omega arith;
  orders = omega arith;
  chains = λ k lt. elim (Bool-cases (k == 2)) [
    | inl f ↦ rw f (refl, omega arith, refl)
    | inr f ↦ rw f refl
  ];
  aligned = λ k lt. elim (Bool-cases (k == 2)) [ inl f ↦ rw f (refl, tt) | inr f ↦ rw f tt ];
  apart = λ a. ground arith;
}

-- The lower four pages, a block of the largest order, are given back.
last-IsCall : IsCall half half_blocks half-IsValid (Physical.into_raw (at 16)) 4 2
unfolding Physical.into_raw order_of Buddy.order_from total covers
last-IsCall = record {
  low = omega arith;
  high = omega arith;
  pages = omega arith;
  order = refl;
  detached = (omega arith, refl, λ a. ground arith);
}

IsEnough-half : IsEnough 2 half half_blocks
IsEnough-half k lt = ground arith

free-panic_example : free 2 half (at 16) 4 ≡ panic
free-panic_example =
    free-panic half half_blocks half-IsValid 2 (at 16) 4 2 IsEnough-half refl last-IsCall

-- The page at 16 is taken, and then given back.
abbrev taken : Allocator
taken = record (pool 16) { free_blocks = write (heads 16) 0 0 }

taken-IsValid : IsValid taken half_blocks
unfolding total covers
taken-IsValid = record {
  positive = omega arith;
  orders = omega arith;
  chains = λ k lt. elim (Bool-cases (k == 0)) [
    | inl e ↦ let other : (k == 2) ≡ false = ground arith in rw (e, other) refl
    | inr e ↦ elim (Bool-cases (k == 2)) [
      | inl f ↦ rw (e, f) (refl, omega arith, refl)
      | inr f ↦ rw (e, f) refl
    ]
  ];
  aligned = half-IsValid.aligned;
  apart = half-IsValid.apart;
}

pool-IsKernelMemory : IsKernelMemory (pool 16) (blocks 16)
unfolding total covers
pool-IsKernelMemory = record {
  tagged = omega arith;
  word = omega arith;
  within = λ a free. (ground arith, ground arith);
}

page_taken : allocate (pool 16) 1 ≡ ok (at 16, taken)
unfolding allocate Buddy.pop_from Buddy.pop_free Buddy.split_block_to_size order_of Buddy.order_from
    Physical.from_raw
page_taken = refl

one_page : order_of 1 ≡ some 0
unfolding order_of Buddy.order_from
one_page = refl

free-allocate_example :
    Restores
      (pool 16)
      taken
      (blocks 16)
      half_blocks
      0
      (Physical.into_raw (at 16))
      (free 2 taken (at 16) 1)
free-allocate_example =
    free-allocate (pool 16) taken (blocks 16) half_blocks 2 1 0 (at 16)
      (pool-IsValid 16 (omega arith) (omega arith) refl) pool-IsKernelMemory taken-IsValid
      IsEnough-half one_page (omega arith) page_taken

abbrev empty : Allocator
empty = record (pool 16) { free_blocks = λ k. 0 }

empty-IsValid : IsValid empty (λ k. [])
unfolding total covers
empty-IsValid = record {
  positive = omega arith;
  orders = omega arith;
  chains = λ k lt. refl;
  aligned = λ k lt. tt;
  apart = λ a. omega arith;
}

-- The region starts at 17 of the kernel space and ends before 25; its first page boundary is 20.
region : IsRegion empty (λ k. []) (kernel_tag + 17) 8
unfolding total covers
region = record {
  nonempty = omega arith;
  pos = omega arith;
  low = omega arith;
  high = omega arith;
  apart = λ a. ground arith;
}

add_memory_region-AddsRegion_example :
    AddsRegion empty (λ k. []) (kernel_tag + 17) 8 (add_memory_region 10 empty (kernel_tag + 17) 8)
add_memory_region-AddsRegion_example =
    add_memory_region-AddsRegion empty (λ k. []) 10 (kernel_tag + 17) 8 empty-IsValid (omega arith)
      region (omega arith)

add_memory_region-Overruns_example :
    Overruns empty (λ k. []) (kernel_tag + 17 + 8) (add_memory_region 10 empty (kernel_tag + 17) 8)
add_memory_region-Overruns_example =
    add_memory_region-Overruns empty (λ k. []) 10 (kernel_tag + 17) 8 empty-IsValid (omega arith)
      region (omega arith) (omega arith) (omega arith)

new-Starts_example : Starts 4 16 32 (Buddy.new 3 4 16 32 (λ a. 0))
new-Starts_example = new-Starts 3 4 16 32 (λ a. 0) (omega arith) (omega arith)
