-- ===== src/Platform/DeviceTree/Values.antt =====
-- The values of properties: kernel_core/src/platform/device_tree/mod.rs, `StringList`, `Registers`,
-- `Value` and the errors, and their iterators of kernel_core/src/platform/device_tree/iter.rs, each
-- of which is its offset into the bytes. A C string is the bytes before its zero.
pub mod Typed
pub mod Strings
pub mod Cells
pub mod Regions
use endless_hole.Base.{ℕ, zero, suc, ◌+◌, ◌*◌, ◌%◌, ◌^◌, bit_or, List, [], ◌∷◌, Option, none, some}
use endless_hole.Base.{Bool, true, false, ◌&&◌, ◌||◌, length, leb, ltb, ◌==◌, if◌then◌else◌}
use endless_hole.Platform.DeviceTree.Bytes.{
  Run, returned, panics, out_of_fuel, ◌>>=◌, or_panic, ByteOrder, word_at, long_at, drop, take,
  same_bytes, text,
}
use Prim.Native.String.{String}

-- `CStr::from_bytes_until_nul`
unfoldable pub from_bytes_until_nul : List ℕ → Option (List ℕ)
from_bytes_until_nul [] = none
from_bytes_until_nul (b ∷ bytes) =
    let rest : Option (List ℕ) = elim (from_bytes_until_nul bytes) [
      | none ↦ none
      | some s ↦ some (b ∷ s)
    ] in
    if b == 0 then some [] else rest

pub record StringList : Type 0 where
  pub bytes : List ℕ

pub record Registers : Type 0 where
  pub bytes : List ℕ
  pub address_cells : ℕ
  pub size_cells : ℕ

pub data Value : Type 0 where
  u32 u64 phandle : ℕ → Value
  string : List ℕ → Value
  string_list : StringList → Value
  raw_bytes : List ℕ → Value
  reg : Registers → Value

-- `data.windows(s.len()).any(|w| w == s)`; windows of length 0 panic.
unfoldable pub any_window : List ℕ → List ℕ → Bool
any_window s [] = false
any_window s (b ∷ bytes) =
    (leb (length s) (length (b ∷ bytes)) && same_bytes (take (length s) (b ∷ bytes)) s)
    || any_window s bytes

unfoldable pub contains : StringList → List ℕ → Run Bool
unfolding any_window
contains list s = if length s == 0 then panics else returned (any_window s list.bytes)

-- `StringListIter::next`
unfoldable pub next_string : StringList → ℕ → Option (List ℕ) × ℕ
unfolding from_bytes_until_nul
next_string list current_offset =
    if leb (length list.bytes) current_offset
    then (none, current_offset)
    else elim (from_bytes_until_nul (drop current_offset list.bytes)) [
      | some s ↦ (some s, current_offset + (length s + 1))
      | none ↦ (none, current_offset)
    ]

module _ (o : ByteOrder) where
  -- `read_u32(bytes)`, from the start of the value
  unfoldable pub whole_word : List ℕ → Run ℕ
  whole_word bytes = or_panic (o.read_u32 bytes)

  unfoldable pub string_or_bytes : List ℕ → Value
  string_or_bytes bytes = elim (from_bytes_until_nul bytes) [
    | some s ↦ string s
    | none ↦ raw_bytes bytes
  ]

  unfoldable pub parse : (name bytes : List ℕ) (address_cells size_cells : ℕ) → Run Value
  unfolding whole_word string_or_bytes
  parse name bytes address_cells size_cells =
      if same_bytes name (text "compatible")
      then returned (string_list (record { bytes = bytes }))
      else if same_bytes name (text "model")
          || (same_bytes name (text "status") || same_bytes name (text "device_type"))
      then returned (string_or_bytes bytes)
      else if same_bytes name (text "phandle")
      then (whole_word bytes >>= λ v. returned (phandle v))
      else if same_bytes name (text "#address-cells")
          || (same_bytes name (text "#size-cells") || same_bytes name (text "virtual-reg"))
      then (whole_word bytes >>= λ v. returned (u32 v))
      else if same_bytes name (text "reg")
      then returned
          (reg (record { bytes = bytes; address_cells = address_cells; size_cells = size_cells }))
      else returned (raw_bytes bytes)

  -- A loop of `RegistersIter::next`, over the cells of one number
  unfoldable pub read_cells : ℕ → List ℕ → ℕ → ℕ → Run (Option ℕ × ℕ)
  read_cells zero bytes number offset = returned (some number, offset)
  read_cells (suc cells) bytes number offset = word_at o bytes offset >>= λ word.
      let shifted = number * 2 ^ 32 % 2 ^ 64 in
      let rest = read_cells cells bytes (bit_or shifted word) (offset + 4) in
      if ltb (length bytes) (offset + 4) then returned (none, offset + 4) else rest

  unfoldable pub with_size : ℕ → Option ℕ × ℕ → Run (Option (ℕ × ℕ) × ℕ)
  with_size address (none, offset) = returned (none, offset)
  with_size address (some size, offset) = returned (some (address, size), offset)

  unfoldable pub size_after : Registers → Option ℕ × ℕ → Run (Option (ℕ × ℕ) × ℕ)
  unfolding with_size
  size_after regs (none, offset) = returned (none, offset)
  size_after regs (some address, offset) =
      read_cells regs.size_cells regs.bytes 0 offset >>= with_size address

  -- `RegistersIter::next`
  unfoldable pub next_register : Registers → ℕ → Run (Option (ℕ × ℕ) × ℕ)
  unfolding read_cells size_after
  next_register regs offset =
      if leb (length regs.bytes) offset
      then returned (none, offset)
      else read_cells regs.address_cells regs.bytes 0 offset >>= size_after regs

  -- `MemRegionIter::next`
  unfoldable pub next_region : List ℕ → ℕ → Run (Option (ℕ × ℕ) × ℕ)
  next_region bytes current_offset = do
    address ← long_at o bytes current_offset
    size ← long_at o bytes (current_offset + 8)
    returned (
        if address == 0 && size == 0
        then (none, current_offset + 16)
        else (some (address, size), current_offset + 16))
