-- ===== src/Memory/Buddy.antt =====
-- kernel_core/src/memory/buddy.rs: the buddy allocator of pages. A free list is threaded through the
-- headers of its blocks, which stand in memory; an address is a number, and null is 0. The operations
-- stand for a caller that no other thread disturbs, so that each compare-exchange succeeds. The
-- addresses of blocks are those of the kernel space; `allocate` and `free` convert them from and to
-- physical addresses.
pub mod Pool
pub mod Links
pub mod Start
pub mod Split
pub mod Allocate
pub mod Walks
pub mod Unlink
pub mod Free
pub mod Returns
pub mod Region
pub mod Overrun
pub mod Reuse
mod Examples
use endless_hole.Base.{
  ℕ, zero, suc, ◌+◌, ◌-◌, ◌*◌, ◌%◌, ◌^◌, bit_xor, Bool, true, false, ◌&&◌, ◌||◌,
}
pub use endless_hole.Memory.Addresses.{PhysicalAddress}
use endless_hole.Memory.Addresses.Physical
use endless_hole.Base.{not, Option, none, some, ltb, leb, ◌==◌, if◌then◌else◌, write}

pub data Error : Type 0 where
  out_of_memory invalid_size unknown_ptr : Error

-- What a call comes to: a value, an error, or a panic; or the model has run out of fuel.
pub data Outcome {ℓ} (A : Type ℓ) : Type ℓ where
  ok : A → Outcome A
  err : Error → Outcome A
  panic : Outcome A
  out_of_fuel : Outcome A

-- `free_blocks` gives the heads of the `max_order` free lists, `next_block` the headers in memory.
pub record Allocator : Type 0 where
  pub base_addr : ℕ
  pub end_addr : ℕ
  pub page_size : ℕ
  pub max_order : ℕ
  pub free_blocks : ℕ → ℕ
  pub next_block : ℕ → ℕ

-- `new`, with the headers that happen to stand in memory
unfoldable pub new :
    (max_order page_size memory_start memory_length : ℕ) (memory : ℕ → ℕ) → Outcome Allocator
new max_order page_size memory_start memory_length memory =
    if not (memory_start % page_size == 0) || not (memory_length % page_size == 0)
    then panic
    else ok (record {
      base_addr = memory_start;
      end_addr = memory_start + memory_length;
      page_size = page_size;
      max_order = max_order;
      free_blocks = λ order. 0;
      next_block = memory;
    })

-- The first block of a free list is unlinked.
unfoldable pub pop_free : Allocator → ℕ → Option (ℕ × Allocator)
pop_free s order =
    let head = s.free_blocks order in
    let new_head = s.next_block head in
    if head == 0
    then none
    else some (head, record s { free_blocks = write s.free_blocks order new_head })

-- A block becomes the first of a free list.
abbrev pub link : Allocator → ℕ → ℕ → Allocator
link s order block = record s {
  next_block = write s.next_block block (s.free_blocks order);
  free_blocks = write s.free_blocks order block;
}

-- `none` is a panic, by the assertion on the alignment or the index of the free list.
unfoldable pub push_free : Allocator → ℕ → ℕ → Option Allocator
push_free s order block =
    if not (block % s.page_size == 0) || leb s.max_order order
    then none
    else some (link s order block)

-- The store that takes a block with the given successor out of a free list.
abbrev pub unlink : Allocator → ℕ → Option ℕ → ℕ → Allocator
unlink s order none next = record s { free_blocks = write s.free_blocks order next }
unlink s order (some prev) next = record s { next_block = write s.next_block prev next }

-- The `while` loop of `add_memory_region`. Each round but the last pushes a block or goes on to the
-- next order, so more fuel than there are pages and orders is enough.
unfoldable pub add_from :
    (fuel : ℕ) → Allocator → (order block_start remaining_bytes : ℕ) → Outcome Allocator
add_from zero s order block_start remaining_bytes = out_of_fuel
add_from (suc fuel) s order block_start remaining_bytes =
    let len = 2 ^ order * s.page_size in
    if remaining_bytes == 0
    then ok s
    else if leb len remaining_bytes
    then elim (push_free s order block_start) [
      | none ↦ panic
      | some t ↦ add_from fuel t order (block_start + len) (remaining_bytes - len)
    ]
    else elim order [
      | zero ↦ ok s
      | suc new_order ↦ add_from fuel s new_order block_start remaining_bytes
    ]

-- `align_offset`
abbrev pub align_offset : ℕ → ℕ → ℕ
align_offset address page_len = (page_len - address % page_len) % page_len

abbrev pub added : Outcome Allocator → Outcome (Bool × Allocator)
added (ok s) = ok (true, s)
added (err e) = err e
added panic = panic
added out_of_fuel = out_of_fuel

unfoldable pub add_memory_region :
    (fuel : ℕ) → Allocator → (region_start region_length : ℕ) → Outcome (Bool × Allocator)
add_memory_region fuel s region_start region_length =
    let padding = align_offset region_start s.page_size in
    if region_length == 0
      || region_start == 0
      || not (leb s.base_addr region_start && ltb region_start s.end_addr)
      || ltb s.end_addr (region_start + region_length)
    then panic
    else if ltb region_length s.page_size || ltb (region_length - padding) s.page_size
    then ok (false, s)
    else added (add_from fuel s (s.max_order - 1) (region_start + padding) region_length)

-- What a search for a block to take out comes to.
pub data Removal : Type 0 where
  no_fuel : Removal
  not_found : Removal
  removed : Allocator → Removal

-- The `while` loop of `try_remove_buddy`
unfoldable pub remove_from :
    (fuel : ℕ) → Allocator → (order buddy : ℕ) (prev : Option ℕ) (current : ℕ) → Removal
remove_from zero s order buddy prev current = no_fuel
remove_from (suc fuel) s order buddy prev current =
    let next = s.next_block current in
    let rest = remove_from fuel s order buddy (some current) next in
    if current == 0
    then not_found
    else if current == buddy
    then removed (unlink s order prev next)
    else rest

unfoldable pub try_remove_buddy : (fuel : ℕ) → Allocator → (order buddy : ℕ) → Removal
try_remove_buddy fuel s order buddy = remove_from fuel s order buddy none (s.free_blocks order)

-- The `while` loop of `block_in_free_list`; `none` is fuel run out.
unfoldable pub find_from : (fuel : ℕ) → Allocator → (block cur : ℕ) → Option Bool
find_from zero s block cur = none
find_from (suc fuel) s block cur =
    let rest = find_from fuel s block (s.next_block cur) in
    if cur == 0 then some false else if cur == block then some true else rest

-- The upper half of what is left becomes free, until the block has the desired order.
unfoldable pub split_block_to_size :
    Allocator → (block current_order desired_order : ℕ) → Option Allocator
split_block_to_size s block zero desired_order = some s
split_block_to_size s block (suc order) desired_order =
    if leb (suc order) desired_order
    then some s
    else elim (push_free s order (block + 2 ^ order * s.page_size)) [
      | none ↦ none
      | some t ↦ split_block_to_size t block order desired_order
    ]

abbrev pub buddy_of : Allocator → ℕ → ℕ → ℕ
buddy_of s block order = s.base_addr + bit_xor (block - s.base_addr) (s.page_size * 2 ^ order)

-- `checked_next_power_of_two` and `ilog2` of a `usize`: the least power of two that is not below.
unfoldable pub order_from : (fuel order num_pages : ℕ) → Option ℕ
order_from zero order num_pages = none
order_from (suc fuel) order num_pages =
    let rest = order_from fuel (order + 1) num_pages in
    if leb num_pages (2 ^ order) then some order else rest

unfoldable pub order_of : ℕ → Option ℕ
order_of num_pages = order_from 64 0 num_pages

-- The `loop` of `allocate`, over the orders from `actual_order` up to the largest.
unfoldable pub pop_from : (orders : ℕ) → Allocator → (actual_order : ℕ) → Option (ℕ × ℕ × Allocator)
pop_from zero s actual_order = none
pop_from (suc orders) s actual_order =
    let rest = pop_from orders s (actual_order + 1) in
    elim (pop_free s actual_order) [ some (block, t) ↦ some (block, actual_order, t) | none ↦ rest ]

unfoldable pub allocate : Allocator → ℕ → Outcome (PhysicalAddress × Allocator)
allocate s num_pages = if num_pages == 0 then err invalid_size else elim (order_of num_pages) [
  | none ↦ err out_of_memory
  | some order ↦ elim (pop_from (s.max_order - order) s order) [
    | none ↦ err out_of_memory
    | some (block, actual_order, t) ↦ elim (split_block_to_size t block actual_order order) [
      | none ↦ panic
      | some u ↦ ok (Physical.from_raw (Unit {0}) block, u)
    ]
  ]
]

-- `ensure!(!self.block_in_free_list(order, block), UnknownPtrSnafu)` before the rest of `free`
unfoldable pub ensure_not_in :
    (fuel : ℕ) → Allocator → (order block : ℕ) → Outcome Allocator → Outcome Allocator
ensure_not_in fuel s order block rest =
    if leb s.max_order order then panic else elim (find_from fuel s block (s.free_blocks order)) [
      | none ↦ out_of_fuel
      | some true ↦ err unknown_ptr
      | some false ↦ rest
    ]

abbrev pub pushed : Option Allocator → Outcome Allocator
pushed none = panic
pushed (some s) = ok s

-- The end of `free`, by what the search for the buddy came to.
unfoldable pub free_block : (fuel : ℕ) → Allocator → (order block : ℕ) → Removal → Outcome Allocator
free_block fuel s order block no_fuel = out_of_fuel
free_block fuel s order block (removed t) = pushed (push_free t (order + 1) block)
free_block fuel s order block not_found = ensure_not_in fuel s order block (
    ensure_not_in fuel s (order + 1) block (
      ensure_not_in fuel s (order + 1) (buddy_of s block order) (pushed (push_free s order block))))

unfoldable pub free :
    (fuel : ℕ) → Allocator → (pages : PhysicalAddress) (num_pages : ℕ) → Outcome Allocator
free fuel s pages num_pages =
    let block = Physical.into_raw pages in
    if block == 0
    then err unknown_ptr
    else if num_pages == 0
    then err invalid_size
    else if not (leb s.base_addr block && ltb block s.end_addr)
    then err unknown_ptr
    else elim (order_of num_pages) [
      | none ↦ err invalid_size
      | some order ↦
          if leb s.max_order order
          then err invalid_size
          else free_block fuel s order block
              (try_remove_buddy fuel s order (buddy_of s block order))
    ]
