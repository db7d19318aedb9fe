-- ===== src/Memory/PageTable.antt =====
-- kernel_core/src/memory/page_table.rs: mapping properties, entries, block sizes, and the indices that
-- an address spells. A panic is `none`.
pub mod Laws
pub mod Entries
mod Examples
use mathlib.Core.Option
use endless_hole.Base.{
  ℕ, zero, suc, ◌+◌, ◌-◌, ◌*◌, ◌/◌, ◌%◌, ◌^◌, bit_and, bit_or, Bool, true, false,
}
use endless_hole.Base.{not, ◌&&◌, leb, Option, none, some, ◌==◌, if◌then◌else◌}

-- `PageSize` of kernel_core/src/memory/mod.rs
pub data PageSize : Type 0 where
  four_kib sixteen_kib : PageSize

abbrev pub bytes : PageSize → ℕ
bytes four_kib = 0x1000
bytes sixteen_kib = 0x4000

pub data Shareability : Type 0 where
  local cluster global : Shareability

pub data MemoryKind : Type 0 where
  normal device : MemoryKind

pub record MemoryProperties : Type 0 where
  pub kind : MemoryKind
  pub user_space_access : Bool
  pub writable : Bool
  pub executable : Bool
  pub shareability : Shareability

unfoldable pub encode_shareability : Shareability → ℕ
encode_shareability local = 0
encode_shareability global = 2
encode_shareability cluster = 3

unfoldable pub decode_shareability : ℕ → Option Shareability
decode_shareability value =
    if value == 0
    then some local
    else if value == 2
    then some global
    else if value == 3
    then some cluster
    else none

unfoldable pub encode_kind : MemoryKind → ℕ
encode_kind device = 0
encode_kind normal = 1

unfoldable pub decode_kind : ℕ → Option MemoryKind
decode_kind value = if value == 0 then some device else if value == 1 then some normal else none

-- `u64::from` of a `bool`
abbrev pub from_bool : Bool → ℕ
from_bool false = 0
from_bool true = 1

unfoldable pub encode : MemoryProperties → ℕ
unfolding encode_shareability encode_kind
encode p =
    bit_or
      (bit_or
        (bit_or
          (bit_or
            (bit_or (from_bool (not p.executable) * 2 ^ 54) (from_bool (not p.executable) * 2 ^ 53))
            (encode_shareability p.shareability * 2 ^ 8))
          (from_bool (not p.writable) * 2 ^ 7))
        (from_bool p.user_space_access * 2 ^ 6))
      (encode_kind p.kind * 2 ^ 2)

-- A field of a raw entry, from a bit on
abbrev pub field : (raw_entry shift mask : ℕ) → ℕ
field raw_entry shift mask = bit_and (raw_entry / 2 ^ shift) mask

-- The properties, from the fields that `decode` reads.
unfoldable pub decode_fields :
    (shareability kind user writable executable : ℕ) → Option MemoryProperties
unfolding decode_shareability decode_kind
decode_fields shareability kind user writable executable = elim (decode_shareability shareability) [
  | none ↦ none
  | some shareability ↦
      Option.map
        (λ kind. record {
          kind = kind;
          user_space_access = user == 1;
          writable = writable == 0;
          executable = executable == 0;
          shareability = shareability;
        })
        (decode_kind kind)
]

unfoldable pub decode : ℕ → Option MemoryProperties
decode raw_entry =
    decode_fields (field raw_entry 8 0b11) (field raw_entry 2 0b111) (field raw_entry 6 0b1)
      (field raw_entry 7 0b1) (field raw_entry 54 0b1)

pub data MapBlockSize : Type 0 where
  page small_block large_block : MapBlockSize

unfoldable pub largest_supported_block_size : PageSize → MapBlockSize
largest_supported_block_size four_kib = large_block
largest_supported_block_size sixteen_kib = small_block

-- An `Entry` has 8 bytes.
abbrev pub entries_per_page : PageSize → ℕ
entries_per_page page_size = bytes page_size / 8

unfoldable pub length_in_pages : MapBlockSize → PageSize → Option ℕ
length_in_pages page page_size = some 1
length_in_pages small_block page_size = some (entries_per_page page_size)
length_in_pages large_block four_kib = some (entries_per_page four_kib * entries_per_page four_kib)
length_in_pages large_block sixteen_kib = none

unfoldable pub length_in_bytes : MapBlockSize → PageSize → Option ℕ
unfolding length_in_pages
length_in_bytes size page_size =
    Option.map (λ s. s * bytes page_size) (length_in_pages size page_size)

-- The bits of an address that index the table of a level, the highest and the lowest one.
unfoldable pub index_bits : ℕ → PageSize → Option (ℕ × ℕ)
index_bits level four_kib =
    if level == 4
    then some (11, 0)
    else if level == 3
    then some (20, 12)
    else if level == 2
    then some (29, 21)
    else if level == 1
    then some (38, 30)
    else if level == 0
    then some (47, 39)
    else none
index_bits level sixteen_kib =
    if level == 4
    then some (13, 0)
    else if level == 3
    then some (24, 14)
    else if level == 2
    then some (35, 25)
    else if level == 1
    then some (46, 36)
    else if level == 0
    then some (47, 47)
    else none

-- `bit_range x msb lsb` is the method of the crate `bitfield`.
unfoldable pub index_for_level :
    (bit_range : ℕ → ℕ → ℕ → ℕ) (address level : ℕ) → PageSize → Option ℕ
unfolding index_bits
index_for_level bit_range address level page_size =
    Option.map (λ bits. bit_range address bits.0 bits.1) (index_bits level page_size)

unfoldable pub pages_per_entry : ℕ → PageSize → Option ℕ
pages_per_entry level four_kib =
    if level == 0
    then some (512 * 512 * 512)
    else if level == 1
    then some (512 * 512)
    else if level == 2
    then some 512
    else if level == 3
    then some 1
    else none
pages_per_entry level sixteen_kib =
    if level == 0
    then some (2 * 2048 * 2048)
    else if level == 1
    then some (2048 * 2048)
    else if level == 2
    then some 2048
    else if level == 3
    then some 1
    else none

pub data DecodedEntry : Type 0 where
  empty : DecodedEntry
  table block page_at : (address : ℕ) → DecodedEntry

-- The address bits of an entry
abbrev pub address_mask : ℕ
address_mask = 0x0000_ffff_ffff_f000

-- The constructors of `Entry` panic if the address is not aligned.
unfoldable pub for_table : (table_address : ℕ) → Option ℕ
for_table address =
    if bit_and address 0xfff == 0 then some (bit_or 0b11 (bit_and address address_mask)) else none

unfoldable pub for_block : (base_address : ℕ) → MemoryProperties → Option ℕ
unfolding encode
for_block address properties =
    if bit_and address 0xfff == 0
    then some (bit_or (bit_or (bit_or 0b01 address) (encode properties)) (2 ^ 10))
    else none

unfoldable pub for_page : (base_address : ℕ) → MemoryProperties → Option ℕ
unfolding encode
for_page address properties =
    if bit_and address 0xfff == 0
    then some (bit_or (bit_or (bit_or 0b11 address) (encode properties)) (2 ^ 10))
    else none

-- `Entry::decode`
unfoldable pub decode_entry : (entry occuring_at_level : ℕ) → Option DecodedEntry
decode_entry entry level =
    let address = bit_and entry address_mask in
    let bits = bit_and entry 0b11 in
    if bits == 0b00
    then some empty
    else if level == 3 && bits == 0b11
    then some (page_at address)
    else if bits == 0b11
    then some (table address)
    else if leb level 2 && bits == 0b01
    then some (block address)
    else none
