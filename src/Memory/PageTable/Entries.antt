-- ===== src/Memory/PageTable/Entries.antt =====
-- Round trips of table entries.
use endless_hole.Base.{
  ℕ, ◌-◌, ◌*◌, ◌/◌, ◌%◌, ◌^◌, ◌≤◌, ◌<◌, bit_and, bit_or, arith, ◌≡◌, refl, sym, ap, ◌∙◌, Bool, true,
  false,
}
use endless_hole.Base.{Option, none, some, ◌==◌, leb}
use endless_hole.Base.Bits.{bit_and-low_mask, bit_or-zero, zero-bit_or}
use endless_hole.Base.Shifts.{bit_or-div, bit_or-mod, bit_and-shifted}
use endless_hole.Memory.PageTable.{
  Shareability, MemoryKind, MemoryProperties, encode, decode, decode_fields, encode_shareability,
  decode_shareability, encode_kind, decode_kind, field, DecodedEntry, table, block, page_at,
  address_mask, for_table, for_block, for_page, decode_entry,
}

-- The encoded properties leave the address and the kind of the entry alone.
encoded :
    (p : MemoryProperties)
    → (decode (encode p) ≡ some p) × (encode p / 2 ^ 12 % 2 ^ 36 ≡ 0) × (encode p % 2 ^ 2 ≡ 0)
unfolding decode decode_fields encode encode_shareability decode_shareability encode_kind
    decode_kind
encoded p = go p.kind p.user_space_access p.writable p.executable p.shareability
  where
    go :
        (k : MemoryKind) (u w x : Bool) (s : Shareability)
        → let q : MemoryProperties = record {
          kind = k;
          user_space_access = u;
          writable = w;
          executable = x;
          shareability = s;
        } in
          (decode (encode q) ≡ some q) × (encode q / 2 ^ 12 % 2 ^ 36 ≡ 0) × (encode q % 2 ^ 2 ≡ 0)
    go MemoryKind.normal false false false Shareability.local = (refl, refl, refl)
    go MemoryKind.normal false false false Shareability.cluster = (refl, refl, refl)
    go MemoryKind.normal false false false Shareability.global = (refl, refl, refl)
    go MemoryKind.normal false false true Shareability.local = (refl, refl, refl)
    go MemoryKind.normal false false true Shareability.cluster = (refl, refl, refl)
    go MemoryKind.normal false false true Shareability.global = (refl, refl, refl)
    go MemoryKind.normal false true false Shareability.local = (refl, refl, refl)
    go MemoryKind.normal false true false Shareability.cluster = (refl, refl, refl)
    go MemoryKind.normal false true false Shareability.global = (refl, refl, refl)
    go MemoryKind.normal false true true Shareability.local = (refl, refl, refl)
    go MemoryKind.normal false true true Shareability.cluster = (refl, refl, refl)
    go MemoryKind.normal false true true Shareability.global = (refl, refl, refl)
    go MemoryKind.normal true false false Shareability.local = (refl, refl, refl)
    go MemoryKind.normal true false false Shareability.cluster = (refl, refl, refl)
    go MemoryKind.normal true false false Shareability.global = (refl, refl, refl)
    go MemoryKind.normal true false true Shareability.local = (refl, refl, refl)
    go MemoryKind.normal true false true Shareability.cluster = (refl, refl, refl)
    go MemoryKind.normal true false true Shareability.global = (refl, refl, refl)
    go MemoryKind.normal true true false Shareability.local = (refl, refl, refl)
    go MemoryKind.normal true true false Shareability.cluster = (refl, refl, refl)
    go MemoryKind.normal true true false Shareability.global = (refl, refl, refl)
    go MemoryKind.normal true true true Shareability.local = (refl, refl, refl)
    go MemoryKind.normal true true true Shareability.cluster = (refl, refl, refl)
    go MemoryKind.normal true true true Shareability.global = (refl, refl, refl)
    go MemoryKind.device false false false Shareability.local = (refl, refl, refl)
    go MemoryKind.device false false false Shareability.cluster = (refl, refl, refl)
    go MemoryKind.device false false false Shareability.global = (refl, refl, refl)
    go MemoryKind.device false false true Shareability.local = (refl, refl, refl)
    go MemoryKind.device false false true Shareability.cluster = (refl, refl, refl)
    go MemoryKind.device false false true Shareability.global = (refl, refl, refl)
    go MemoryKind.device false true false Shareability.local = (refl, refl, refl)
    go MemoryKind.device false true false Shareability.cluster = (refl, refl, refl)
    go MemoryKind.device false true false Shareability.global = (refl, refl, refl)
    go MemoryKind.device false true true Shareability.local = (refl, refl, refl)
    go MemoryKind.device false true true Shareability.cluster = (refl, refl, refl)
    go MemoryKind.device false true true Shareability.global = (refl, refl, refl)
    go MemoryKind.device true false false Shareability.local = (refl, refl, refl)
    go MemoryKind.device true false false Shareability.cluster = (refl, refl, refl)
    go MemoryKind.device true false false Shareability.global = (refl, refl, refl)
    go MemoryKind.device true false true Shareability.local = (refl, refl, refl)
    go MemoryKind.device true false true Shareability.cluster = (refl, refl, refl)
    go MemoryKind.device true false true Shareability.global = (refl, refl, refl)
    go MemoryKind.device true true false Shareability.local = (refl, refl, refl)
    go MemoryKind.device true true false Shareability.cluster = (refl, refl, refl)
    go MemoryKind.device true true false Shareability.global = (refl, refl, refl)
    go MemoryKind.device true true true Shareability.local = (refl, refl, refl)
    go MemoryKind.device true true true Shareability.cluster = (refl, refl, refl)
    go MemoryKind.device true true true Shareability.global = (refl, refl, refl)

-- The properties that are encoded into a table entry are decoded from it again.
pub decode-encode : (p : MemoryProperties) → decode (encode p) ≡ some p
decode-encode p = (encoded p).0

part : (k m a b : ℕ) → bit_or a b / 2 ^ k % 2 ^ m ≡ bit_or (a / 2 ^ k % 2 ^ m) (b / 2 ^ k % 2 ^ m)
part k m a b = rw (bit_or-div k a b) (bit_or-mod m (a / 2 ^ k) (b / 2 ^ k))

module _ (address : ℕ) (small : address < 2 ^ 48) (aligned : address % 2 ^ 12 ≡ 0) where
  -- The word that `for_block` and `for_page` make of their tag, the address and the properties.
  abbrev word : ℕ → MemoryProperties → ℕ
  word tag p = bit_or (bit_or (bit_or tag address) (encode p)) (2 ^ 10)

  passes : (bit_and address 0xfff == 0) ≡ true
  passes = let e : bit_and address 0xfff ≡ 0 = bit_and-low_mask 12 address ∙ aligned in rw e refl

  word-address :
      (tag : ℕ) (p : MemoryProperties) → tag < 4 → bit_and (word tag p) address_mask ≡ address
  word-address tag p h =
      let high : word tag p / 2 ^ 12 % 2 ^ 36
          ≡ bit_or
              (bit_or (bit_or (tag / 2 ^ 12 % 2 ^ 36) (address / 2 ^ 12 % 2 ^ 36))
                (encode p / 2 ^ 12 % 2 ^ 36))
              (2 ^ 10 / 2 ^ 12 % 2 ^ 36) =
        part 12 36 (bit_or (bit_or tag address) (encode p)) (2 ^ 10)
        ∙ ap (λ t. bit_or t (2 ^ 10 / 2 ^ 12 % 2 ^ 36)) (part 12 36 (bit_or tag address) (encode p))
        ∙ ap (λ t. bit_or (bit_or t (encode p / 2 ^ 12 % 2 ^ 36)) (2 ^ 10 / 2 ^ 12 % 2 ^ 36))
            (part 12 36 tag address) in
      let no_tag : tag / 2 ^ 12 % 2 ^ 36 ≡ 0 = omega arith in
      let page : address / 2 ^ 12 % 2 ^ 36 ≡ address / 2 ^ 12 = omega arith in
      let q = address / 2 ^ 12 in
      let kept : word tag p / 2 ^ 12 % 2 ^ 36 ≡ q =
        (rw (no_tag, page, (encoded p).1) at high)
        ∙ bit_or-zero (bit_or (bit_or 0 q) 0)
        ∙ bit_or-zero (bit_or 0 q)
        ∙ zero-bit_or q in
      bit_and-shifted 12 (word tag p) (2 ^ 36 - 1)
      ∙ ap (λ t. t * 2 ^ 12) (bit_and-low_mask 36 (word tag p / 2 ^ 12) ∙ kept)
      ∙ omega arith

  word-tag : (tag : ℕ) (p : MemoryProperties) → tag < 4 → bit_and (word tag p) 0b11 ≡ tag
  word-tag tag p h =
      let low : word tag p % 2 ^ 2
          ≡ bit_or (bit_or (bit_or (tag % 2 ^ 2) (address % 2 ^ 2)) (encode p % 2 ^ 2))
              (2 ^ 10 % 2 ^ 2) =
        bit_or-mod 2 (bit_or (bit_or tag address) (encode p)) (2 ^ 10)
        ∙ ap (λ t. bit_or t (2 ^ 10 % 2 ^ 2)) (bit_or-mod 2 (bit_or tag address) (encode p))
        ∙ ap (λ t. bit_or (bit_or t (encode p % 2 ^ 2)) (2 ^ 10 % 2 ^ 2))
            (bit_or-mod 2 tag address) in
      let own : tag % 2 ^ 2 ≡ tag = omega arith in
      let none_of_address : address % 2 ^ 2 ≡ 0 = omega arith in
      bit_and-low_mask 2 (word tag p)
      ∙ (rw (own, none_of_address, (encoded p).2) at low)
      ∙ bit_or-zero (bit_or (bit_or tag 0) 0)
      ∙ bit_or-zero (bit_or tag 0)
      ∙ bit_or-zero tag

  -- A field of the properties is not touched by the rest of the entry.
  field-word :
      (tag : ℕ) (p : MemoryProperties) (s m : ℕ)
      → tag / 2 ^ s % 2 ^ m ≡ 0
      → address / 2 ^ s % 2 ^ m ≡ 0
      → 2 ^ 10 / 2 ^ s % 2 ^ m ≡ 0
      → field (word tag p) s (2 ^ m - 1) ≡ field (encode p) s (2 ^ m - 1)
  field-word tag p s m no_tag no_address no_flag =
      let parts : word tag p / 2 ^ s % 2 ^ m
          ≡ bit_or
              (bit_or (bit_or (tag / 2 ^ s % 2 ^ m) (address / 2 ^ s % 2 ^ m))
                (encode p / 2 ^ s % 2 ^ m))
              (2 ^ 10 / 2 ^ s % 2 ^ m) =
        part s m (bit_or (bit_or tag address) (encode p)) (2 ^ 10)
        ∙ ap (λ t. bit_or t (2 ^ 10 / 2 ^ s % 2 ^ m)) (part s m (bit_or tag address) (encode p))
        ∙ ap (λ t. bit_or (bit_or t (encode p / 2 ^ s % 2 ^ m)) (2 ^ 10 / 2 ^ s % 2 ^ m))
            (part s m tag address) in
      bit_and-low_mask m (word tag p / 2 ^ s)
      ∙ (rw (no_tag, no_address, no_flag) at parts)
      ∙ bit_or-zero (bit_or (bit_or 0 0) (encode p / 2 ^ s % 2 ^ m))
      ∙ zero-bit_or (encode p / 2 ^ s % 2 ^ m)
      ∙ sym (bit_and-low_mask m (encode p / 2 ^ s))

  decode-word : (tag : ℕ) (p : MemoryProperties) → tag < 4 → decode (word tag p) ≡ some p
  unfolding decode
  decode-word tag p h =
      rw
        (
          field-word tag p 8 2 (omega arith) (omega arith) refl,
          field-word tag p 6 1 (omega arith) (omega arith) refl,
          field-word tag p 7 1 (omega arith) (omega arith) refl,
          field-word tag p 54 1 (omega arith) (omega arith) refl,
          field-word tag p 2 3 (omega arith) (omega arith) refl,
        )
        (decode-encode p)

  -- What an entry decodes to, and the properties that stand in it.
  abbrev pub Decodes : MemoryProperties → Option ℕ → (level : ℕ) → DecodedEntry → Type 0
  Decodes p none level d = ⊥
  Decodes p (some entry) level d = (decode_entry entry level ≡ some d) × (decode entry ≡ some p)

  -- An entry for a page at a page aligned address below 2 ^ 48 decodes at level 3 to that page, and
  -- an entry for a block decodes at the levels 0 to 2 to that block; both give back the properties.
  pub for_page-Decodes :
      (p : MemoryProperties)
      → Decodes p (for_page address p) 3 (page_at address)
        × ((level : ℕ) → level ≤ 2 → Decodes p (for_block address p) level (block address))
  unfolding for_page for_block decode_entry
  for_page-Decodes p = (
    rw passes (
      rw (word-address 3 p (omega arith), word-tag 3 p (omega arith)) refl,
      decode-word 3 p (omega arith),
    ),
    λ level h.
        let inside : leb level 2 ≡ true = ground arith in
        let other : (level == 3) ≡ false = ground arith in
        rw passes (
          rw (word-address 1 p (omega arith), word-tag 1 p (omega arith)) (rw (other, inside) refl),
          decode-word 1 p (omega arith),
        ),
  )

  masked : bit_and address address_mask ≡ address
  masked =
      bit_and-shifted 12 address (2 ^ 36 - 1)
      ∙ ap (λ t. t * 2 ^ 12) (bit_and-low_mask 36 (address / 2 ^ 12))
      ∙ omega arith

  table-address : bit_and (bit_or 0b11 address) address_mask ≡ address
  table-address =
      let page : address / 2 ^ 12 % 2 ^ 36 ≡ address / 2 ^ 12 = omega arith in
      let kept : bit_or 0b11 address / 2 ^ 12 % 2 ^ 36 ≡ address / 2 ^ 12 =
        (rw page at (part 12 36 0b11 address)) ∙ zero-bit_or (address / 2 ^ 12) in
      bit_and-shifted 12 (bit_or 0b11 address) (2 ^ 36 - 1)
      ∙ ap (λ t. t * 2 ^ 12) (bit_and-low_mask 36 (bit_or 0b11 address / 2 ^ 12) ∙ kept)
      ∙ omega arith

  table-tag : bit_and (bit_or 0b11 address) 0b11 ≡ 0b11
  table-tag =
      let none_of_address : address % 2 ^ 2 ≡ 0 = omega arith in
      bit_and-low_mask 2 (bit_or 0b11 address)
      ∙ (rw none_of_address at (bit_or-mod 2 0b11 address))
      ∙ bit_or-zero 3

  abbrev pub PointsTo : Option ℕ → (level : ℕ) → Type 0
  PointsTo none level = ⊥
  PointsTo (some entry) level = decode_entry entry level ≡ some (table address)

  -- An entry for a table at a page aligned address below 2 ^ 48 decodes to that table at every level
  -- but 3.
  pub for_table-PointsTo : (level : ℕ) → level ≤ 2 → PointsTo (for_table address) level
  unfolding for_table decode_entry
  for_table-PointsTo level h =
      let other : (level == 3) ≡ false = ground arith in
      rw (passes, masked) (rw (table-address, table-tag) (rw other refl))
