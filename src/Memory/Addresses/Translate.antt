-- ===== src/Memory/Addresses/Translate.antt =====
-- Physical addresses and the addresses of the kernel space that stand for them.
use endless_hole.Base.{
  ℕ, ◌+◌, ◌-◌, ◌*◌, ◌/◌, ◌%◌, ◌^◌, ◌<◌, ◌≤◌, bit_and, bit_or, arith, zero, suc, none, some, ◌≡◌,
  refl, sym, ap, ◌∙◌, true, false, inl, inr, Bool-cases, ◌==◌, ltb, ltb_of_lt, lt_of_ltb,
  le_of_not_ltb, eq_of_==, ne_of_not_==, ◌≢◌,
}
use native.Mathlib.Nat.{pow-suc, one-le-pow, mul-mod_left}
use endless_hole.Base.Bits.{bit_or_lowest, bit_and-low_mask, bit_or-zero, zero-bit_or}
use endless_hole.Base.Shifts.{bit_or-div, bit_or-mod, bit_and-shifted}
use endless_hole.Memory.Addresses.{
  PhysicalPointer, VirtualPointer, Conversion, checked, low_bits, kernel_tag,
}
use endless_hole.Memory.Addresses.Physical
use endless_hole.Memory.Addresses.Virtual

pub tag-mod : (a : ℕ) → bit_or a kernel_tag % 2 ^ 48 ≡ a % 2 ^ 48
tag-mod a = bit_or-mod 48 a kernel_tag ∙ bit_or-zero (a % 2 ^ 48)

pub tag-add : (a : ℕ) → a < 2 ^ 48 → bit_or a kernel_tag ≡ a + kernel_tag
tag-add a h =
    let none_high : a / 2 ^ 48 ≡ 0 = omega arith in
    let high : bit_or a kernel_tag / 2 ^ 48 ≡ 0xffff =
      bit_or-div 48 a kernel_tag ∙ rw none_high (zero-bit_or 0xffff) in
    omega (arith, high, tag-mod a)

-- A number of `k` bits or the mask of all of them
bit_or-low_mask : (k x : ℕ) → x < 2 ^ k → bit_or x (2 ^ k - 1) ≡ 2 ^ k - 1
bit_or-low_mask zero x h = let e : x ≡ 0 = omega arith in rw e refl
bit_or-low_mask (suc k) x h =
    let e : (2 ^ suc k - 1) / 2 ≡ 2 ^ k - 1 = omega (arith, pow-suc 2 k, one-le-pow k 2) in
    omega (
      arith,
      pow-suc 2 k,
      one-le-pow k 2,
      rw e at (bit_or_lowest x (2 ^ suc k - 1)),
      bit_or-low_mask k (x / 2) (omega (arith, pow-suc 2 k)),
    )

-- The tag is set whatever the number is.
tag-high : (a : ℕ) → bit_or a kernel_tag / 2 ^ 48 % 2 ^ 16 ≡ 0xffff
tag-high a =
    ap (λ (t : ℕ). t % 2 ^ 16) (bit_or-div 48 a kernel_tag)
    ∙ bit_or-mod 16 (a / 2 ^ 48) 0xffff
    ∙ bit_or-low_mask 16 (a / 2 ^ 48 % 2 ^ 16) (omega arith)

two_pow_add : (d k : ℕ) → 2 ^ (d + k) ≡ 2 ^ d * 2 ^ k
two_pow_add zero k = let e : 0 + k ≡ k = omega arith in rw e (omega arith)
two_pow_add (suc d) k =
    let swap : (x y : ℕ) → x * y * 2 ≡ x * 2 * y = λ x y. grind arith in
    let next : suc d + k ≡ suc (d + k) = omega arith in
    rw (next, pow-suc 2 (d + k), two_pow_add d k, pow-suc 2 d) (swap (2 ^ d) (2 ^ k))

tag-multiple : (k : ℕ) → k ≤ 48 → kernel_tag % 2 ^ k ≡ 0
tag-multiple k h =
    let whole : 48 - k + k ≡ 48 = omega arith in
    let split : 2 ^ 48 ≡ 2 ^ (48 - k) * 2 ^ k =
      ap (λ (t : ℕ). 2 ^ t) (sym whole) ∙ two_pow_add (48 - k) k in
    let join : (x y : ℕ) → 0xffff * (x * y) ≡ 0xffff * x * y = λ x y. grind arith in
    ap (λ (t : ℕ). t % 2 ^ k) (ap (λ (t : ℕ). 0xffff * t) split ∙ join (2 ^ (48 - k)) (2 ^ k))
    ∙ mul-mod_left (0xffff * 2 ^ (48 - k)) (2 ^ k)

-- The tag is a multiple of each power of two up to 2 ^ 48.
tag-aligned : (k a : ℕ) → k ≤ 48 → bit_or a kernel_tag % 2 ^ k ≡ a % 2 ^ k
tag-aligned k a h = bit_or-mod k a kernel_tag ∙ rw (tag-multiple k h) (bit_or-zero (a % 2 ^ k))

pub tag_of : (a : ℕ) → bit_and a kernel_tag ≡ a / 2 ^ 48 % 2 ^ 16 * 2 ^ 48
tag_of a =
    bit_and-shifted 48 a 0xffff ∙ ap (λ (t : ℕ). t * 2 ^ 48) (bit_and-low_mask 16 (a / 2 ^ 48))

pub no_panic : (a : ℕ) → ltb (bit_and a low_bits) kernel_tag ≡ true
no_panic a = ltb_of_lt (bit_and a low_bits) kernel_tag (omega (arith, bit_and-low_mask 48 a))

-- A number of 64 bits without the whole tag is below the kernel space.
below : (a : ℕ) → a < 2 ^ 64 → bit_and a kernel_tag ≢ kernel_tag → a < kernel_tag
below a h untagged = elim (Bool-cases (ltb a kernel_tag)) [
  | inl under ↦ lt_of_ltb a kernel_tag under
  | inr over ↦
      let le : kernel_tag ≤ a = le_of_not_ltb a kernel_tag over in
      absurd (untagged (omega (arith, tag_of a)))
]

module _ {T : Type 0} where
  -- A pointer below 2 ^ 64
  abbrev pub Fits : VirtualPointer T → Type 0
  Fits pointer = pointer.address < 2 ^ 64

  -- The conversions of a virtual pointer into a physical one and into a raw pointer
  pub data Translates (pointer : VirtualPointer T) : Type 0 where
    kernel :
        (physical : PhysicalPointer T)
        → Virtual.is_in_kernel_space pointer ≡ true
        → pointer.address ≡ physical.address + kernel_tag
        → physical.address < 2 ^ 48
        → Virtual.try_into_physical pointer ≡ Conversion.converted physical
        → Virtual.try_into_raw pointer ≡ Conversion.converted pointer.address
        → Virtual.from_physical physical ≡ pointer
        → Physical.into_raw physical ≡ pointer.address
        → Physical.from_raw T pointer.address ≡ physical
        → Translates pointer
    other :
        Virtual.is_in_kernel_space pointer ≡ false
        → pointer.address < kernel_tag
        → Virtual.try_into_physical pointer ≡ Conversion.not_in_kernel_address_space
        → Virtual.try_into_raw pointer ≡ Conversion.not_in_kernel_address_space
        → Translates pointer

  -- Every virtual pointer below 2 ^ 64 lies in the kernel space or below it. In the kernel space, it
  -- converts to a physical pointer below 2 ^ 48, which lies the tag below it and converts back to it,
  -- and it converts to the raw pointer of its address, which converts to the same physical pointer
  -- and back. Below, both conversions are refused with the error. No conversion panics.
  pub try_into_physical-Translates :
      (pointer : VirtualPointer T) → Fits pointer → Translates pointer
  unfolding Virtual.is_in_kernel_space Virtual.try_into_physical Virtual.converts
      Virtual.try_into_raw Virtual.from_physical Physical.from_usize Physical.into_raw
      Physical.from_raw
  try_into_physical-Translates pointer h =
      let low : bit_and pointer.address low_bits ≡ pointer.address % 2 ^ 48 =
        bit_and-low_mask 48 pointer.address in
      elim (Bool-cases (bit_and pointer.address kernel_tag == kernel_tag)) [
        | inl in_kernel ↦
            let tagged : bit_and pointer.address kernel_tag ≡ kernel_tag =
              eq_of_== (bit_and pointer.address kernel_tag) kernel_tag in_kernel in
            let sum : bit_or (bit_and pointer.address low_bits) kernel_tag ≡ pointer.address =
              tag-add (bit_and pointer.address low_bits) (omega arith)
              ∙ omega (arith, tag_of pointer.address) in
            kernel (record { address = bit_and pointer.address low_bits }) in_kernel
              (omega (arith, tag_of pointer.address)) (omega arith)
              (rw (in_kernel, no_panic pointer.address) refl) (rw in_kernel refl)
              (ap (λ (a : ℕ). record { address = a }) sum) sum refl
        | inr outside ↦
            let untagged : bit_and pointer.address kernel_tag ≢ kernel_tag =
              ne_of_not_== (bit_and pointer.address kernel_tag) kernel_tag outside in
            other outside (below pointer.address h untagged)
              (rw (outside, no_panic pointer.address) refl) (rw outside refl)
      ]

  -- A physical address and the raw pointers and virtual pointers that stand for it
  pub data IsMapped (pointer : PhysicalPointer T) (a : ℕ) : Type 0 where
    mapped :
        Virtual.is_in_kernel_space (Virtual.from_physical pointer) ≡ true
        → Virtual.try_into_physical (Virtual.from_physical pointer)
          ≡ Conversion.converted (record { address = a })
        → Virtual.try_into_raw (Virtual.from_physical pointer)
          ≡ Conversion.converted (Physical.into_raw pointer)
        → Physical.from_raw T (Physical.into_raw pointer) ≡ record { address = a }
        → IsMapped pointer a

  -- The kernel address of a physical address lies in the kernel space, whatever its number of 64 bits
  -- is, and the raw pointer is the same address. Both convert back to the physical address modulo
  -- 2 ^ 48, so to the same one only when it was below 2 ^ 48.
  pub from_physical-IsMapped :
      (pointer : PhysicalPointer T)
      → pointer.address < 2 ^ 64
      → IsMapped pointer (pointer.address % 2 ^ 48)
  unfolding Virtual.is_in_kernel_space Virtual.try_into_physical Virtual.converts
      Virtual.try_into_raw Virtual.from_physical Physical.from_usize Physical.into_raw
      Physical.from_raw
  from_physical-IsMapped pointer h =
      let virtual : ℕ = bit_or pointer.address kernel_tag in
      let in_kernel : (bit_and virtual kernel_tag == kernel_tag) ≡ true =
        rw (tag_of virtual, tag-high pointer.address) refl in
      let low : bit_and virtual low_bits ≡ pointer.address % 2 ^ 48 =
        bit_and-low_mask 48 virtual ∙ tag-mod pointer.address in
      mapped in_kernel (rw (in_kernel, no_panic virtual) (rw low refl)) (rw in_kernel refl)
        (rw low refl)

  -- One step through kernel space is the step through physical memory.
  moves :
      (pointer : PhysicalPointer T) (count : ℕ)
      → pointer.address + count < 2 ^ 48
      → Virtual.byte_add (Virtual.from_physical pointer) count
        ≡ some (Virtual.from_physical (record { address = pointer.address + count }))
  unfolding Virtual.byte_add Virtual.from_physical checked
  moves pointer count h =
      let from : bit_or pointer.address kernel_tag ≡ pointer.address + kernel_tag =
        tag-add pointer.address (omega arith) in
      let to : bit_or (pointer.address + count) kernel_tag ≡ pointer.address + count + kernel_tag =
        tag-add (pointer.address + count) h in
      let fits : ltb (pointer.address + kernel_tag + count) (2 ^ 64) ≡ true =
        ltb_of_lt _ _ (omega arith) in
      let swap : pointer.address + kernel_tag + count ≡ pointer.address + count + kernel_tag =
        omega arith in
      rw (from, to, fits, swap) refl

  -- When `count` elements from a physical pointer on is a physical address below 2 ^ 48, then `count`
  -- elements from its kernel address on, without a panic, is the kernel address of that one.
  pub add-from_physical :
      (size_of count : ℕ) (pointer to : PhysicalPointer T)
      → Physical.add size_of pointer count ≡ some to
      → to.address < 2 ^ 48
      → Virtual.add size_of (Virtual.from_physical pointer) count ≡ some (Virtual.from_physical to)
  unfolding Virtual.add Physical.add Physical.byte_add checked
  add-from_physical size_of count pointer to h lt =
      elim (Bool-cases (ltb (count * size_of) (2 ^ 64))) [
        | inl fits ↦ elim (Bool-cases (ltb (pointer.address + count * size_of) (2 ^ 64))) [
          | inl inside ↦
              let found : some (record { address = pointer.address + count * size_of }) ≡ some to =
                rw (fits, inside) at h in
              let same : record { address = pointer.address + count * size_of } ≡ to = cc in
              let at_to : pointer.address + count * size_of ≡ to.address =
                ap (λ (q : PhysicalPointer T). q.address) same in
              rw (fits, ← same) (moves pointer (count * size_of) (omega arith))
          | inr outside ↦ let lost : none ≡ some to = rw (fits, outside) at h in absurd cc
        ]
        | inr over ↦ let lost : none ≡ some to = rw over at h in absurd cc
      ]

  -- Translation keeps the alignment to every power of two up to 2 ^ 48.
  pub is_aligned_to-from_physical :
      (pointer : PhysicalPointer T) (k : ℕ)
      → k ≤ 48
      → Virtual.is_aligned_to (Virtual.from_physical pointer) (2 ^ k)
        ≡ Physical.is_aligned_to pointer (2 ^ k)
  unfolding Virtual.is_aligned_to Physical.is_aligned_to Virtual.from_physical
  is_aligned_to-from_physical pointer k h = rw (tag-aligned k pointer.address h) refl
