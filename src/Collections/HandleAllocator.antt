-- ===== src/Collections/HandleAllocator.antt =====
-- kernel_core/src/collections/handle_allocator.rs: handles as the bits of a vector of words.
-- `next_handle` and `free_handle` stand here for a caller that no other thread disturbs, so that
-- each compare-exchange succeeds; `Threads` interleaves them.
pub mod Words
pub mod Scan
pub mod Laws
pub mod Threads
mod Examples
use mathlib.Core.Option
use endless_hole.Base.{ℕ, ◌+◌, ◌-◌, ◌*◌, ◌/◌, ◌%◌, ◌^◌, bit_and, bit_or, List, [], ◌∷◌}
use endless_hole.Base.{Option, none, some, ltb, leb, ◌==◌, if◌then◌else◌}
use endless_hole.Base.{usize_max, get_or, set, replicate}
use endless_hole.Base.Bits.{trailing_zeros}

-- `usize::BITS`
abbrev pub word_bits : ℕ
word_bits = 64

pub data Error : Type 0 where
  not_allocated out_of_bounds : Error

pub record HandleAllocator : Type 0 where
  pub bits : List ℕ
  pub max_handle : ℕ

abbrev pub div_ceil : ℕ → ℕ → ℕ
div_ceil a b = a / b + (if ltb 0 (a % b) then 1 else 0)

unfoldable pub new : ℕ → HandleAllocator
new max_handle = record {
  bits = replicate (div_ceil max_handle word_bits) 0;
  max_handle = max_handle;
}

-- `!x` of a `usize`
abbrev pub not_usize : ℕ → ℕ
not_usize x = usize_max - x

-- What `next_handle` makes of a word that it has loaded: `none` leads to the next word, and the
-- other case gives the handle and the new word for the compare-exchange.
unfoldable pub propose : ℕ → ℕ → ℕ → Option (ℕ × ℕ)
propose max_handle word_index current =
    let zero_bit = trailing_zeros word_bits (not_usize current) in
    let bit_index = (word_index * word_bits % 2 ^ 32 + zero_bit) % 2 ^ 32 in
    if current == usize_max
    then none
    else if leb max_handle bit_index
    then none
    else some (bit_index, bit_or current (2 ^ zero_bit))

-- The `for` loop of `next_handle` from a word on: the handle, and the words left behind.
unfoldable pub next_from : ℕ → ℕ → List ℕ → Option (ℕ × List ℕ)
next_from max_handle word_index [] = none
next_from max_handle word_index (current ∷ words) =
    let rest = next_from max_handle (word_index + 1) words in
    elim (propose max_handle word_index current) [
      | some (handle, new_word) ↦ some (handle, new_word ∷ words)
      | none ↦ Option.map (λ r. (r.0, current ∷ r.1)) rest
    ]

unfoldable pub next_handle : HandleAllocator → Option (ℕ × HandleAllocator)
next_handle a = Option.map (λ r. (r.0, record a { bits = r.1 })) (next_from a.max_handle 0 a.bits)

-- What `free_handle` makes of the word that it has loaded.
unfoldable pub clear : ℕ → ℕ → Option ℕ
clear current handle =
    let mask = 2 ^ (handle % word_bits) in
    if bit_and current mask == 0 then none else some (bit_and current (not_usize mask))

pub data Freed : Type 0 where
  ok : HandleAllocator → Freed
  err : Error → Freed

unfoldable pub free_handle : HandleAllocator → ℕ → Freed
free_handle a handle =
    if leb a.max_handle handle
    then err out_of_bounds
    else elim (clear (get_or a.bits (handle / word_bits) 0) handle) [
      | none ↦ err not_allocated
      | some new_word ↦ ok (record a { bits = set a.bits (handle / word_bits) new_word })
    ]
