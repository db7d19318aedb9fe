-- ===== src/Platform/DeviceTree/Fdt.antt =====
-- kernel_core/src/platform/device_tree/fdt.rs: tokens and the header of a blob; and `DeviceTree` of
-- kernel_core/src/platform/device_tree/mod.rs, with what takes a blob apart.
pub mod Blob
use endless_hole.Base.{ℕ, zero, suc, ◌+◌, ◌*◌, List, [], ◌∷◌, not, length, ◌==◌, if◌then◌else◌}
use endless_hole.Platform.DeviceTree.Bytes.{
  Run, returned, panics, out_of_fuel, ◌>>=◌, ByteOrder, word_at, slice,
}

pub data TokenType : Type 0 where
  begin_node end_node prop nop end : TokenType
  unknown : ℕ → TokenType

unfoldable pub token_type : ℕ → TokenType
token_type value =
    if value == 0x01
    then begin_node
    else if value == 0x02
    then end_node
    else if value == 0x03
    then prop
    else if value == 0x04
    then nop
    else if value == 0x09
    then end
    else unknown value

pub data Token : Type 0 where
  start_node : List ℕ → Token
  close_node : Token
  property : (name bytes : List ℕ) → Token

pub record BlobHeader : Type 0 where
  pub buf : List ℕ

abbrev pub header_size : ℕ
header_size = 10 * 4

abbrev pub header_expected_magic : ℕ
header_expected_magic = 0xd00d_feed

pub record DeviceTree : Type 0 where
  pub header : BlobHeader
  pub strings : List ℕ
  pub structure : List ℕ
  pub mem_map : List ℕ

-- The bytes that stand in memory from an address on
abbrev pub from_raw_parts : (ℕ → ℕ) → ℕ → ℕ → List ℕ
from_raw_parts memory ptr zero = []
from_raw_parts memory ptr (suc n) = memory ptr ∷ from_raw_parts memory (ptr + 1) n

module _ (o : ByteOrder) where
  unfoldable pub magic : BlobHeader → Run ℕ
  magic h = word_at o h.buf 0

  unfoldable pub total_size : BlobHeader → Run ℕ
  total_size h = word_at o h.buf 4

  unfoldable pub off_dt_struct : BlobHeader → Run ℕ
  off_dt_struct h = word_at o h.buf 8

  unfoldable pub off_dt_strings : BlobHeader → Run ℕ
  off_dt_strings h = word_at o h.buf 12

  unfoldable pub off_mem_rsvmap : BlobHeader → Run ℕ
  off_mem_rsvmap h = word_at o h.buf 16

  unfoldable pub version : BlobHeader → Run ℕ
  version h = word_at o h.buf 20

  unfoldable pub last_comp_version : BlobHeader → Run ℕ
  last_comp_version h = word_at o h.buf 24

  unfoldable pub boot_cpuid_phys : BlobHeader → Run ℕ
  boot_cpuid_phys h = word_at o h.buf 28

  unfoldable pub size_dt_strings : BlobHeader → Run ℕ
  size_dt_strings h = word_at o h.buf 32

  unfoldable pub size_dt_structs : BlobHeader → Run ℕ
  size_dt_structs h = word_at o h.buf 36

  -- The three slices of a blob whose header has passed the assertions
  unfoldable pub take_apart : List ℕ → BlobHeader → Run DeviceTree
  take_apart buf header = do
    str_start ← off_dt_strings header
    str_size ← size_dt_strings header
    structs_start ← off_dt_struct header
    structs_size ← size_dt_structs header
    strings ← slice buf str_start (str_start + str_size)
    structure ← slice buf structs_start (structs_start + structs_size)
    map_start ← off_mem_rsvmap header
    map_end ← off_dt_struct header
    mem_map ← slice buf map_start map_end
    returned
        (record { header = header; strings = strings; structure = structure; mem_map = mem_map })

  unfoldable pub from_bytes_and_header : List ℕ → BlobHeader → Run DeviceTree
  unfolding take_apart magic total_size
  from_bytes_and_header buf header = do
    found ← magic header
    size ← total_size header
    if not (found == header_expected_magic)
        then panics
        else if not (size == length buf)
        then panics
        else take_apart buf header

  unfoldable pub from_bytes : List ℕ → Run DeviceTree
  from_bytes buf = from_bytes_and_header buf (record { buf = buf })

  unfoldable pub from_memory : (ℕ → ℕ) → ℕ → Run DeviceTree
  from_memory memory ptr =
      let header : BlobHeader = record { buf = from_raw_parts memory ptr header_size } in
      total_size header >>= λ size. from_bytes_and_header (from_raw_parts memory ptr size) header
