-- ===== src/Memory/PageTable/Examples.antt =====
-- Runs of the page table functions, and the theorems about them at concrete inputs.
use endless_hole.Base.{
  ℕ, ◌+◌, ◌-◌, ◌*◌, ◌/◌, ◌%◌, ◌^◌, ◌<◌, ◌≤◌, arith, ◌≡◌, refl, true, false, some,
}
use endless_hole.Memory.PageTable.{
  page_at, block, for_page, for_block, for_table, PageSize, four_kib, sixteen_kib, bytes,
  MemoryProperties, encode, decode, entries_per_page, MapBlockSize, small_block, length_in_pages,
  length_in_bytes, index_bits, index_for_level, pages_per_entry,
}
use endless_hole.Memory.PageTable as PageTable
use endless_hole.Memory.PageTable.Entries.{Decodes, for_page-Decodes}
use endless_hole.Memory.PageTable.Laws.{
  length_in_pages-pages_per_entry, pages_per_entry-entries, index_for_level-address,
}

-- Device memory that user space may write and not execute
abbrev mmio : MemoryProperties
mmio = record {
  kind = PageTable.MemoryKind.device;
  user_space_access = true;
  writable = true;
  executable = false;
  shareability = PageTable.Shareability.global;
}

encoded : encode mmio ≡ 2 ^ 54 + 2 ^ 53 + 2 ^ 9 + 2 ^ 6
unfolding encode PageTable.encode_shareability PageTable.encode_kind
encoded = refl

length_in_pages-pages_per_entry_example :
    (pages_per_entry 2 four_kib ≡ some 512)
    × ((msb : ℕ) × (lsb : ℕ) × (index_bits 2 four_kib ≡ some (msb, lsb))
        × (length_in_bytes small_block four_kib ≡ some (2 ^ lsb)))
unfolding length_in_pages
length_in_pages-pages_per_entry_example =
    length_in_pages-pages_per_entry small_block four_kib 512 refl

pages_per_entry-entries_example :
    (upper : ℕ) × (lower : ℕ) × (pages_per_entry 1 four_kib ≡ some upper)
    × (pages_per_entry 2 four_kib ≡ some lower)
    × (512 * lower ≡ upper)
pages_per_entry-entries_example = pages_per_entry-entries 1 four_kib (omega arith)

-- The bits of a number from one bit to another
abbrev range : ℕ → ℕ → ℕ → ℕ
range x msb lsb = x / 2 ^ lsb % 2 ^ (msb + 1 - lsb)

abbrev address : ℕ
address = 2 ^ 47 + 3 * 2 ^ 30 + 5 * 2 ^ 21 + 7 * 2 ^ 12 + 9

index_2 : index_for_level range address 2 four_kib ≡ some 5
unfolding index_for_level index_bits
index_2 = refl

index_for_level-address_example :
    (i0 : ℕ) × (i1 : ℕ) × (i2 : ℕ) × (i3 : ℕ) × (offset : ℕ) × (index_for_level range address 0
        four_kib
      ≡ some i0)
    × (index_for_level range address 1 four_kib ≡ some i1)
    × (index_for_level range address 2 four_kib ≡ some i2)
    × (index_for_level range address 3 four_kib ≡ some i3)
    × (index_for_level range address 4 four_kib ≡ some offset)
    × (i1 < 512)
    × (i2 < 512)
    × (i3 < 512)
    × (offset < 4096)
    × ((p1 : ℕ) × (p2 : ℕ) × (pages_per_entry 1 four_kib ≡ some p1)
        × (pages_per_entry 2 four_kib ≡ some p2)
        × (address ≡ (i0 * (512 * p1) + i1 * p1 + i2 * p2 + i3) * 4096 + offset))
index_for_level-address_example =
    index_for_level-address range (λ x msb lsb h. refl) address four_kib (omega arith)

for_page-Decodes_example :
    Decodes 0x40000000 (omega arith) refl mmio (for_page 0x40000000 mmio) 3 (page_at 0x40000000)
    × ((level : ℕ)
        → level ≤ 2
        → Decodes 0x40000000
            (omega arith)
            refl
            mmio
            (for_block 0x40000000 mmio)
            level
            (block 0x40000000))
for_page-Decodes_example = for_page-Decodes 0x40000000 (omega arith) refl mmio
