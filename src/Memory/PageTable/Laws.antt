-- ===== src/Memory/PageTable/Laws.antt =====
-- Block sizes, and what the indices of an address spell.
use endless_hole.Base.{ℕ, zero, suc, ◌+◌, ◌-◌, ◌*◌, ◌/◌, ◌%◌, ◌^◌, ◌≤◌, ◌<◌, arith, ◌≡◌, refl}
use endless_hole.Base.{some, ◌==◌, if◌then◌else◌}
use endless_hole.Memory.PageTable.{
  PageSize, four_kib, sixteen_kib, bytes, entries_per_page, MapBlockSize, page, small_block,
  large_block, length_in_pages, length_in_bytes, index_bits, index_for_level, pages_per_entry,
}

-- The level of the table whose entries map blocks of a size.
abbrev pub level_of : MapBlockSize → ℕ
level_of page = 3
level_of small_block = 2
level_of large_block = 1

-- A block that is supported for a page size has as many pages as an entry of its level maps, and its
-- length in bytes is a power of two: the weight of the lowest bit that indexes the table of its level.
pub length_in_pages-pages_per_entry :
    (size : MapBlockSize) (page_size : PageSize) (pages : ℕ)
    → length_in_pages size page_size ≡ some pages
    → (pages_per_entry (level_of size) page_size ≡ some pages)
      × ((msb : ℕ) × (lsb : ℕ) × (index_bits (level_of size) page_size ≡ some (msb, lsb))
          × (length_in_bytes size page_size ≡ some (2 ^ lsb)))
unfolding length_in_pages length_in_bytes pages_per_entry index_bits
length_in_pages-pages_per_entry page four_kib pages e = (e, (20, 12, refl, refl))
length_in_pages-pages_per_entry page sixteen_kib pages e = (e, (24, 14, refl, refl))
length_in_pages-pages_per_entry small_block four_kib pages e = (e, (29, 21, refl, refl))
length_in_pages-pages_per_entry small_block sixteen_kib pages e = (e, (35, 25, refl, refl))
length_in_pages-pages_per_entry large_block four_kib pages e = (e, (38, 30, refl, refl))
length_in_pages-pages_per_entry large_block sixteen_kib pages e = absurd cc

-- How many times an entry of a level maps the pages of an entry of the next level. A table of level 0
-- maps as much per entry as a whole table of level 1; for pages of 16 KiB the function says 1024 times
-- less.
pub pages_per_entry-entries :
    (level : ℕ) (page_size : PageSize)
    → level < 3
    → (upper : ℕ) × (lower : ℕ) × (pages_per_entry level page_size ≡ some upper)
      × (pages_per_entry (level + 1) page_size ≡ some lower)
      × (entries_per_page page_size * lower ≡ elim page_size [
        | four_kib ↦ upper
        | sixteen_kib ↦ if level == 0 then 1024 * upper else upper
      ])
unfolding pages_per_entry
pages_per_entry-entries zero four_kib h = (_, _, refl, refl, refl)
pages_per_entry-entries zero sixteen_kib h = (_, _, refl, refl, refl)
pages_per_entry-entries (suc zero) four_kib h = (_, _, refl, refl, refl)
pages_per_entry-entries (suc zero) sixteen_kib h = (_, _, refl, refl, refl)
pages_per_entry-entries (suc (suc zero)) four_kib h = (_, _, refl, refl, refl)
pages_per_entry-entries (suc (suc zero)) sixteen_kib h = (_, _, refl, refl, refl)
pages_per_entry-entries (suc (suc (suc level))) page_size h = absurd (omega arith)

module _ (bit_range : ℕ → ℕ → ℕ → ℕ)
    (bit_range-bits : (x msb lsb : ℕ)
      → lsb ≤ msb
      → bit_range x msb lsb ≡ x / 2 ^ lsb % 2 ^ (msb + 1 - lsb)) where
  -- An address of 48 bits is spelled by its five indices: with the length of what an entry of a level
  -- maps as the weight of the index of that level, and a whole table of level 1 as the weight of the
  -- index of level 0. The indices of levels 1 to 3 are those of entries of a table of one page.
  pub index_for_level-address :
      (address : ℕ) (page_size : PageSize)
      → address < 2 ^ 48
      → (i0 : ℕ) × (i1 : ℕ) × (i2 : ℕ) × (i3 : ℕ) × (offset : ℕ) × (index_for_level bit_range
            address 0 page_size
          ≡ some i0)
        × (index_for_level bit_range address 1 page_size ≡ some i1)
        × (index_for_level bit_range address 2 page_size ≡ some i2)
        × (index_for_level bit_range address 3 page_size ≡ some i3)
        × (index_for_level bit_range address 4 page_size ≡ some offset)
        × (i1 < entries_per_page page_size)
        × (i2 < entries_per_page page_size)
        × (i3 < entries_per_page page_size)
        × (offset < bytes page_size)
        × ((p1 : ℕ) × (p2 : ℕ) × (pages_per_entry 1 page_size ≡ some p1)
            × (pages_per_entry 2 page_size ≡ some p2)
            × (address
                ≡ (i0 * (entries_per_page page_size * p1) + i1 * p1 + i2 * p2 + i3)
                    * bytes page_size
                  + offset))
  unfolding index_for_level index_bits pages_per_entry
  index_for_level-address address four_kib h = (
    bit_range address 47 39,
    bit_range address 38 30,
    bit_range address 29 21,
    bit_range address 20 12,
    bit_range address 11 0,
    refl,
    refl,
    refl,
    refl,
    refl,
    omega (arith, bit_range-bits address 38 30 (omega arith)),
    omega (arith, bit_range-bits address 29 21 (omega arith)),
    omega (arith, bit_range-bits address 20 12 (omega arith)),
    omega (arith, bit_range-bits address 11 0 (omega arith)),
    (
      512 * 512,
      512,
      refl,
      refl,
      omega (
        arith,
        bit_range-bits address 47 39 (omega arith),
        bit_range-bits address 38 30 (omega arith),
        bit_range-bits address 29 21 (omega arith),
        bit_range-bits address 20 12 (omega arith),
        bit_range-bits address 11 0 (omega arith),
      ),
    ),
  )
  index_for_level-address address sixteen_kib h = (
    bit_range address 47 47,
    bit_range address 46 36,
    bit_range address 35 25,
    bit_range address 24 14,
    bit_range address 13 0,
    refl,
    refl,
    refl,
    refl,
    refl,
    omega (arith, bit_range-bits address 46 36 (omega arith)),
    omega (arith, bit_range-bits address 35 25 (omega arith)),
    omega (arith, bit_range-bits address 24 14 (omega arith)),
    omega (arith, bit_range-bits address 13 0 (omega arith)),
    (
      2048 * 2048,
      2048,
      refl,
      refl,
      omega (
        arith,
        bit_range-bits address 47 47 (omega arith),
        bit_range-bits address 46 36 (omega arith),
        bit_range-bits address 35 25 (omega arith),
        bit_range-bits address 24 14 (omega arith),
        bit_range-bits address 13 0 (omega arith),
      ),
    ),
  )
