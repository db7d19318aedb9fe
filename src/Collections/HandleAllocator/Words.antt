-- ===== src/Collections/HandleAllocator/Words.antt =====
-- The words of the bit set, read as the set of the handles whose bits are 1.
use endless_hole.Base.{ℕ, suc, ◌+◌, ◌-◌, ◌*◌, ◌/◌, ◌%◌, ◌^◌, ◌<◌, bit_and, bit_or}
use endless_hole.Base.{◌≡◌, refl, sym, ◌≢◌, inl, inr}
use endless_hole.Base.{List, ◌∷◌, Option, none, some, arith, ltb, leb, ◌==◌, if◌then◌else◌}
use endless_hole.Base.{
  usize_max, Bool-cases, lt_of_ltb, le_of_not_ltb, eq_of_==, ne_of_not_==, length, get_or, set,
  get_or-set_self, get_or-set_ne,
}
use endless_hole.Base.Bits
use endless_hole.Base.Bits.{bit, trailing_zeros}
use endless_hole.Collections.HandleAllocator.{word_bits, not_usize, propose, clear}

-- What `propose` promises of the word it is given.
abbrev pub Proposes : ℕ → ℕ → ℕ → Option (ℕ × ℕ) → Type 0
Proposes limit index x none = (i : ℕ) → i < 64 → index * 64 + i < limit → bit x i ≡ 1
Proposes limit index x (some (h, y)) =
    (z : ℕ) × (h ≡ index * 64 + z)
    × (z < 64)
    × (h < limit)
    × (bit x z ≡ 0)
    × ((i : ℕ) → i < z → bit x i ≡ 1)
    × (y < 2 ^ 64)
    × ((i : ℕ) → bit y i ≡ (if i == z then 1 else bit x i))

full_word : (i : ℕ) → i < 64 → bit usize_max i ≡ 1
full_word i h = omega (arith, Bits.bit-complement 64 0 i (omega arith) h, Bits.bit-zero i)

bit-set : (x z i : ℕ) → bit (bit_or x (2 ^ z)) i ≡ (if i == z then 1 else bit x i)
bit-set x z i = elim (Bool-cases (i == z)) [
  | inl same ↦
      let e : i ≡ z = eq_of_== i z same in
      rw same (
        rw e (
          omega (arith, Bits.bit-bit_or x (2 ^ z) z, Bits.bit-two_pow_self z, Bits.bit-le-one x z)))
  | inr other ↦ rw other (
      omega (
        arith,
        Bits.bit-bit_or x (2 ^ z) i,
        Bits.bit-two_pow_ne z i (λ e. ne_of_not_== i z other (sym e)),
      ))
]

module _ (x : ℕ) (fits : x < 2 ^ 64) where
  abbrev lowest : ℕ
  lowest = trailing_zeros 64 (not_usize x)

  lowest_free : x ≢ usize_max → (lowest < 64) × (bit x lowest ≡ 0)
  lowest_free ne =
      let (below, one) = Bits.trailing_zeros_set 64 (not_usize x) (omega arith) (omega arith) in
      (below, omega (arith, one, Bits.bit-complement 64 x lowest fits below))

  below_lowest : (i : ℕ) → i < lowest → bit x i ≡ 1
  below_lowest i h =
      let le = Bits.trailing_zeros-le 64 (not_usize x) in
      omega (
        arith,
        Bits.bit-below_trailing_zeros 64 (not_usize x) i h,
        Bits.bit-complement 64 x i fits (omega (arith, le)),
      )

pub propose-Proposes :
    (limit index x : ℕ)
    → x < 2 ^ 64
    → index < 2 ^ 26
    → Proposes limit index x (propose limit index x)
unfolding propose
propose-Proposes limit index x fits small = elim (Bool-cases (x == usize_max)) [
  | inl full ↦ rw full (λ i p q. rw (eq_of_== x usize_max full) (full_word i p))
  | inr room ↦
      let (below, free) = lowest_free x fits (ne_of_not_== x usize_max room) in
      let e : (index * word_bits % 2 ^ 32 + lowest x fits) % 2 ^ 32 ≡ index * 64 + lowest x fits =
        omega (arith, below) in
      rw (room, e)
        (elim (Bool-cases (leb limit (index * 64 + lowest x fits))) [
          | inl out ↦ rw out (λ i p q. below_lowest x fits i (ground arith))
          | inr inside ↦ rw inside (
            lowest x fits,
            refl,
            below,
            ground arith,
            free,
            below_lowest x fits,
            Bits.bit_or-lt 64 x _ fits (Bits.two_pow-lt _ 64 below),
            bit-set x _,
          )
        ])
]

-- What `clear` promises: the bit was 1, and becomes 0; the others stay.
abbrev pub Clears : ℕ → ℕ → Option ℕ → Type 0
Clears x z none = bit x z ≡ 0
Clears x z (some y) =
    (bit x z ≡ 1) × (y < 2 ^ 64) × ((i : ℕ) → i < 64 → bit y i ≡ (if i == z then 0 else bit x i))

bit-unset :
    (x z i : ℕ)
    → z < 64
    → i < 64
    → bit (bit_and x (not_usize (2 ^ z))) i ≡ (if i == z then 0 else bit x i)
bit-unset x z i hz hi =
    let power = Bits.two_pow-lt z 64 hz in
    let and_bit = Bits.bit-bit_and x (not_usize (2 ^ z)) in
    let mask_bit = Bits.bit-complement 64 (2 ^ z) in
    elim (Bool-cases (i == z)) [
      | inl same ↦
          let e : i ≡ z = eq_of_== i z same in
          rw same (rw e (omega (arith, and_bit z, mask_bit z power hz, Bits.bit-two_pow_self z)))
      | inr other ↦ rw other (
          omega (
            arith,
            and_bit i,
            mask_bit i power hi,
            Bits.bit-two_pow_ne z i (λ e. ne_of_not_== i z other (sym e)),
            Bits.bit-le-one x i,
          ))
    ]

pub clear-Clears : (x h : ℕ) → x < 2 ^ 64 → Clears x (h % 64) (clear x h)
unfolding clear
clear-Clears x h fits = elim (Bool-cases (bit_and x (2 ^ (h % 64)) == 0)) [
  | inl e ↦ rw e (Bits.bit-eq-zero x (h % 64) (eq_of_== _ _ e))
  | inr e ↦ rw e (
    Bits.bit-eq-one x (h % 64) (ne_of_not_== _ _ e),
    Bits.bit_and-lt 64 x _ fits,
    λ i hi. bit-unset x (h % 64) i (omega arith) hi,
  )
]

-- The bit of handle `h`, 1 if the handle is taken.
unfoldable pub handle_bit : List ℕ → ℕ → ℕ
handle_bit words h = bit (get_or words (h / 64) 0) (h % 64)

pub handle_bit-cons :
    (x : ℕ) (xs : List ℕ) (h : ℕ)
    → handle_bit (x ∷ xs) h ≡ (if ltb h 64 then bit x h else handle_bit xs (h - 64))
unfolding handle_bit
handle_bit-cons x xs h = elim (Bool-cases (ltb h 64)) [
  | inl low ↦
      let lt = lt_of_ltb h 64 low in
      let q : h / 64 ≡ 0 = omega arith in let r : h % 64 ≡ h = omega arith in rw (low, q, r)
  | inr high ↦
      let le = le_of_not_ltb h 64 high in
      let q : h / 64 ≡ suc ((h - 64) / 64) = omega arith in
      let r : h % 64 ≡ (h - 64) % 64 = omega arith in rw (high, q, r)
]

pub handle_bit-set :
    (words : List ℕ) (index y h : ℕ)
    → index < length words
    → handle_bit (set words index y) h
      ≡ (if h / 64 == index then bit y (h % 64) else handle_bit words h)
unfolding handle_bit
handle_bit-set words index y h lt =
    ground (arith, get_or-set_self words index y 0, get_or-set_ne words index (h / 64) y 0)
