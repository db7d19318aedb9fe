-- ===== src/Platform/DeviceTree/Values/Cells.antt =====
-- `RegistersIter`: the numbers that it reads from the cells, and what it does where cells are missing.
use endless_hole.Base.{ℕ, zero, suc, ◌+◌, ◌*◌, ◌/◌, ◌%◌, ◌^◌, ◌≤◌, ◌<◌, arith, ◌≡◌, ◌≢◌, refl}
use endless_hole.Base.{◌∙◌, List, [], ◌∷◌, ◌++◌, length, All, map, some, none}
use endless_hole.Base.{
  Option, bit_or, leb, ltb, false, leb_of_le, leb_of_lt, ltb_of_le, Bool-cases, inl, inr,
}
use endless_hole.Base.Bits.{zero-bit_or, bit_or-zero}
use endless_hole.Base.Shifts.{bit_or-div, bit_or-mod}
use mathlib.Core.List.{append_assoc}
use endless_hole.Platform.DeviceTree.Bytes.{
  Run, returned, panics, ◌>>=◌, ByteOrder, IsBigEndian, word_at, word_at-le, word_at-ne-out_of_fuel,
  word_bytes, length-from_drop, >>=-eq-returned, >>=-ne-out_of_fuel, returned-snd,
  returned-injective, out_of_fuel, Run-cases,
}
use endless_hole.Platform.DeviceTree.Values.{
  Registers, read_cells, with_size, size_after, next_register,
}
use endless_hole.Platform.DeviceTree.Tokens.Encode.{At, At-word}

-- The words of a number, the highest first, and the number that they stand for
unfoldable pub words_bytes : List ℕ → List ℕ
words_bytes [] = []
words_bytes (w ∷ words) = word_bytes w ++ words_bytes words

unfoldable pub number_from : ℕ → List ℕ → ℕ
number_from high [] = high
number_from high (w ∷ words) = number_from (high * 2 ^ 32 + w) words

-- A shifted number and a word do not share a bit.
bit_or_word : (k w : ℕ) → w < 2 ^ 32 → bit_or (k * 2 ^ 32) w ≡ k * 2 ^ 32 + w
bit_or_word k w h =
    let high_k : k * 2 ^ 32 / 2 ^ 32 ≡ k = omega arith in
    let high_w : w / 2 ^ 32 ≡ 0 = omega arith in
    let low_k : k * 2 ^ 32 % 2 ^ 32 ≡ 0 = omega arith in
    let low_w : w % 2 ^ 32 ≡ w = omega arith in
    let high : bit_or (k * 2 ^ 32) w / 2 ^ 32 ≡ k =
      bit_or-div 32 (k * 2 ^ 32) w ∙ rw (high_k, high_w) (bit_or-zero k) in
    let low : bit_or (k * 2 ^ 32) w % 2 ^ 32 ≡ w =
      bit_or-mod 32 (k * 2 ^ 32) w ∙ rw (low_k, low_w) (zero-bit_or w) in
    omega (arith, high, low)

shift_word :
    (number w : ℕ)
    → w < 2 ^ 32
    → bit_or (number % 2 ^ 64 * 2 ^ 32 % 2 ^ 64) w ≡ (number * 2 ^ 32 + w) % 2 ^ 64
shift_word number w h =
    let e : number % 2 ^ 64 * 2 ^ 32 % 2 ^ 64 ≡ number % 2 ^ 32 * 2 ^ 32 = omega arith in
    rw e (omega (arith, bit_or_word (number % 2 ^ 32) w h))

-- Numbers of at most 32 bits
abbrev pub Words : List ℕ → Type 0
Words words = All (λ w. w < 2 ^ 32) words

module _ (o : ByteOrder) where
  read_cells_lem :
      IsBigEndian o
      → (words : List ℕ) (bytes : List ℕ) (number at : ℕ) (rest : List ℕ) → Words words
      → At bytes at (words_bytes words ++ rest)
      → (read_cells o (length words) bytes (number % 2 ^ 64) at
          ≡ returned (some (number_from number words % 2 ^ 64), at + 4 * length words))
        × At bytes (at + 4 * length words) rest
  unfolding read_cells words_bytes number_from
  read_cells_lem big [] bytes number at rest h stands =
      let e : at + 4 * 0 ≡ at = omega arith in (rw e refl, rw e stands)
  read_cells_lem big (w ∷ words) bytes number at rest (small, h) stands =
      let whole : At bytes at (word_bytes w ++ (words_bytes words ++ rest)) =
        rw (append_assoc (word_bytes w)) at stands in
      let (e, behind) = At-word o big bytes _ at w small whole in
      let inside : ltb (length bytes) (at + 4) ≡ false = ltb_of_le _ _ (behind.0) in
      let (later, end) =
        read_cells_lem big words bytes (number * 2 ^ 32 + w) (at + 4) rest h behind in
      let moved : at + 4 + 4 * length words ≡ at + 4 * suc (length words) = omega arith in
      (rw (e, inside, shift_word number w small) (rw moved at later), rw moved at end)

  -- Without cells the number is left as it is; else the cells lie inside. There is no other answer.
  read_cells-Inside :
      IsBigEndian o
      → (cells : ℕ) (bytes : List ℕ) (number at : ℕ) {r : Option ℕ} {end : ℕ} → at ≤ length bytes
      → read_cells o cells bytes number at ≡ returned (r, end)
      → (r ≢ none) × (end ≡ at + 4 * cells) × (end ≤ length bytes)
  unfolding read_cells
  read_cells-Inside big zero bytes number at le h =
      let same = returned-injective h in
      ((λ e. cc), omega (arith, returned-snd h), omega (arith, returned-snd h))
  read_cells-Inside big (suc cells) bytes number at le h =
      let (w, e, h) = >>=-eq-returned (word_at o bytes at) h in
      let inside = word_at-le o big bytes at e in
      let go : ltb (length bytes) (at + 4) ≡ false = ltb_of_le _ _ inside in
      let (some_number, moved, fits) =
        read_cells-Inside big cells bytes _ (at + 4) inside (rw go at h) in
      (some_number, omega arith, fits)

  read_cells-ne-out_of_fuel :
      (cells : ℕ) (bytes : List ℕ) (number at : ℕ)
      → read_cells o cells bytes number at ≢ out_of_fuel
  unfolding read_cells
  read_cells-ne-out_of_fuel zero bytes number at = λ p. cc
  read_cells-ne-out_of_fuel (suc cells) bytes number at =
      >>=-ne-out_of_fuel (word_at o bytes at) (word_at-ne-out_of_fuel o bytes at) λ w e.
        elim (Bool-cases (ltb (length bytes) (at + 4))) [
          | inl f ↦ rw f (λ p. cc)
          | inr f ↦ rw f (read_cells-ne-out_of_fuel cells bytes _ (at + 4))
        ]

  -- An entry was read, from all its cells.
  abbrev Entry : Registers → ℕ → Option (ℕ × ℕ) → ℕ → Type 0
  Entry regs at r end =
      (r ≢ none)
      × (end ≡ at + 4 * (regs.address_cells + regs.size_cells))
      × (end ≤ length regs.bytes)

  with_size-some :
      (address : ℕ) (size : Option ℕ) (mid : ℕ) {r : Option (ℕ × ℕ)} {end : ℕ}
      → size ≢ none
      → with_size o address (size, mid) ≡ returned (r, end)
      → (r ≢ none) × (end ≡ mid)
  unfolding with_size
  with_size-some address none mid found h = absurd (found refl)
  with_size-some address (some size) mid found h =
      let same = returned-injective h in ((λ e. cc), omega (arith, returned-snd h))

  size_after-Entry :
      IsBigEndian o
      → (regs : Registers) (at mid : ℕ) (address : Option ℕ) {r : Option (ℕ × ℕ)} {end : ℕ}
      → address ≢ none
      → mid ≡ at + 4 * regs.address_cells
      → mid ≤ length regs.bytes
      → size_after o regs (address, mid) ≡ returned (r, end)
      → Entry regs at r end
  unfolding size_after
  size_after-Entry big regs at mid none found moved fits h = absurd (found refl)
  size_after-Entry big regs at mid (some address) found moved fits h =
      let ((size, end), e, h) = >>=-eq-returned (read_cells o regs.size_cells regs.bytes 0 mid) h in
      let (has_size, again, inside) = read_cells-Inside big _ regs.bytes 0 mid fits e in
      let (has_entry, same) = with_size-some address size end has_size h in
      (has_entry, omega arith, omega arith)

  next_register-Entry :
      IsBigEndian o
      → (regs : Registers) (at : ℕ) {r : Option (ℕ × ℕ)} {end : ℕ} → at < length regs.bytes
      → next_register o regs at ≡ returned (r, end)
      → Entry regs at r end
  unfolding next_register
  next_register-Entry big regs at lt h =
      let within : leb (length regs.bytes) at ≡ false = leb_of_lt _ _ lt in
      let ((address, mid), e, h) =
        >>=-eq-returned (read_cells o regs.address_cells regs.bytes 0 at) (rw within at h) in
      let (found, moved, fits) = read_cells-Inside big _ regs.bytes 0 at (omega arith) e in
      size_after-Entry big regs at mid address found moved fits h

  size_after-ne-out_of_fuel :
      (regs : Registers) (address : Option ℕ × ℕ) → size_after o regs address ≢ out_of_fuel
  unfolding size_after with_size
  size_after-ne-out_of_fuel regs (none, mid) = λ p. cc
  size_after-ne-out_of_fuel regs (some address, mid) =
      >>=-ne-out_of_fuel _ (read_cells-ne-out_of_fuel _ _ 0 mid) λ (size, end) e. ends size end
    where
      ends : (size : Option ℕ) (end : ℕ) → with_size o address (size, end) ≢ out_of_fuel
      ends none end = λ p. cc
      ends (some size) end = λ p. cc

  next_register-ne-out_of_fuel : (regs : Registers) (at : ℕ) → next_register o regs at ≢ out_of_fuel
  unfolding next_register
  next_register-ne-out_of_fuel regs at = elim (Bool-cases (leb (length regs.bytes) at)) [
    | inl e ↦ rw e (λ p. cc)
    | inr e ↦ rw e (
        >>=-ne-out_of_fuel _ (read_cells-ne-out_of_fuel _ _ 0 at)
          λ address e. size_after-ne-out_of_fuel regs address)
  ]

next_register_end :
    (o : ByteOrder) (regs : Registers) (at : ℕ)
    → length regs.bytes ≤ at
    → next_register o regs at ≡ returned (none, at)
unfolding next_register
next_register_end o regs at le = rw (leb_of_le _ _ le) refl

-- A call of `RegistersIter::next` in front of some bytes, but fewer than the cells of an entry take,
-- panics: it does not give `none`, though both loops test for that.
pub next_register-panics :
    (o : ByteOrder) (regs : Registers) (at : ℕ)
    → IsBigEndian o
    → at < length regs.bytes
    → length regs.bytes < at + 4 * (regs.address_cells + regs.size_cells)
    → next_register o regs at ≡ panics
next_register-panics o regs at big lt cut = elim (Run-cases (next_register o regs at)) [
  | inl ((r, end), e) ↦
      let (_, moved, fits) = next_register-Entry o big regs at lt e in absurd (omega arith)
  | inr (inl e) ↦ e
  | inr (inr e) ↦ absurd (next_register-ne-out_of_fuel o regs at e)
]

-- The words of an entry's address, and those of its size
abbrev pub IsEntry : Registers → List ℕ × List ℕ → Type 0
IsEntry regs (address, size) =
    (length address ≡ regs.address_cells)
    × (length size ≡ regs.size_cells)
    × Words address
    × Words size

unfoldable pub entries_bytes : List (List ℕ × List ℕ) → List ℕ
entries_bytes [] = []
entries_bytes ((address, size) ∷ entries) =
    words_bytes address ++ (words_bytes size ++ entries_bytes entries)

-- The number that a `usize` holds of the words
abbrev pub number_of : List ℕ → ℕ
number_of words = number_from 0 words % 2 ^ 64

unfoldable pub collect_registers : ByteOrder → ℕ → Registers → ℕ → Run (List (ℕ × ℕ))
collect_registers o zero regs at = out_of_fuel
collect_registers o (suc fuel) regs at =
    next_register o regs at >>= collected (collect_registers o fuel regs)
  where
    collected : (ℕ → Run (List (ℕ × ℕ))) → Option (ℕ × ℕ) × ℕ → Run (List (ℕ × ℕ))
    collected again (none, end) = returned []
    collected again (some entry, end) = again end >>= λ entries. returned (entry ∷ entries)

pub next_register_lem :
    (o : ByteOrder)
    → IsBigEndian o
    → (regs : Registers) (address size : List ℕ) (rest : List ℕ) (at : ℕ)
    → 0 < regs.address_cells + regs.size_cells
    → IsEntry regs (address, size)
    → At regs.bytes at (words_bytes address ++ (words_bytes size ++ rest))
    → (end : ℕ) × (next_register o regs at
        ≡ returned (some (number_of address, number_of size), end))
      × At regs.bytes end rest
unfolding next_register size_after with_size
next_register_lem o big regs address size rest at some_cells (ea, es, wa, ws) stands =
    let (read_address, behind) = read_cells_lem o big address regs.bytes 0 at _ wa stands in
    let (read_size, end) = read_cells_lem o big size regs.bytes 0 _ rest ws behind in
    let fits = end.0 in
    let within : leb (length regs.bytes) at ≡ false = leb_of_lt _ _ (omega (arith, ea, es, fits)) in
    (
      at + 4 * length address + 4 * length size,
      rw (within, ← ea, read_address, ← es, read_size) refl,
      end,
    )

collect_registers_from :
    (o : ByteOrder)
    → IsBigEndian o
    → (entries : List (List ℕ × List ℕ)) (fuel : ℕ) (regs : Registers) (at : ℕ)
    → length entries < fuel
    → 0 < regs.address_cells + regs.size_cells
    → All (IsEntry regs) entries
    → At regs.bytes at (entries_bytes entries)
    → collect_registers o fuel regs at
      ≡ returned
          (map (λ (entry : List ℕ × List ℕ). (number_of (entry.0), number_of (entry.1))) entries)
unfolding collect_registers entries_bytes
collect_registers_from o big entries zero regs at lt some_cells h stands = absurd (omega arith)
collect_registers_from o big [] (suc fuel) regs at lt some_cells h (le, d) =
    let size = length-from_drop regs.bytes [] at le d in
    let over : length regs.bytes ≤ at = omega (arith, size) in
    rw (next_register_end o regs at over) refl
collect_registers_from o big ((address, size) ∷ entries) (suc fuel) regs at lt some_cells (h, hs)
      stands =
    let (end, e, behind) = next_register_lem o big regs address size _ at some_cells h stands in
    rw (e, collect_registers_from o big entries fuel regs end (omega arith) some_cells hs behind)
      refl

-- The iterator over a `reg` value that is a sequence of entries, each with its cells as words of 32
-- bits, yields the address and the size of each in order, modulo 2 ^ 64, and then ends. The
-- cells of an entry are not both zero in number.
pub collect_registers-entries_bytes :
    (o : ByteOrder) (entries : List (List ℕ × List ℕ)) (regs : Registers)
    → IsBigEndian o
    → regs.bytes ≡ entries_bytes entries
    → 0 < regs.address_cells + regs.size_cells
    → All (IsEntry regs) entries
    → collect_registers o (suc (length entries)) regs 0
      ≡ returned
          (map (λ (entry : List ℕ × List ℕ). (number_of (entry.0), number_of (entry.1))) entries)
collect_registers-entries_bytes o entries regs big e some_cells h =
    collect_registers_from o big entries _ regs 0 (omega arith) some_cells h (omega arith, e)
