-- ===== src/Base/Bits.antt =====
-- Machine words as native numbers: single bits, complement and masks.
use Prim.Native.Nat.{
  ℕ, zero, suc, ◌+◌, ◌-◌, ◌*◌, ◌/◌, ◌%◌, ◌^◌, ◌≤◌, ◌<◌, min, max, digits, bit_and, bit_or,
  bit_and-bitwise, bit_or-bitwise,
}
use mathlib.Core.Path.{◌≡◌, refl, sym, ap, ◌∙◌}
use mathlib.Core.Logic.{◌≢◌, inl, inr}
use native.Mathlib.Nat.{
  pow-suc, one-le-pow, div-add-mod', mod-lt, mod-eq_of_lt, mul-add-mod_self_right,
}
use native.Mathlib.Omega.{arith}
use endless_hole.Base.Tests.{◌==◌, if◌then◌else◌, Bool-cases, eq_of_==, ne_of_not_==}

-- Fuel above the first argument is never used up.
fuel_irrelevant :
    (z : ℕ → ℕ) (f : ℕ → ℕ → ℕ) (m n a b : ℕ) → a ≤ m → a ≤ n → digits z f m a b ≡ digits z f n a b
fuel_irrelevant z f m n zero b p q = zero_digits m n
  where
    zero_digits : (i j : ℕ) → digits z f i 0 b ≡ digits z f j 0 b
    zero_digits zero zero = refl
    zero_digits zero (suc j) = refl
    zero_digits (suc i) zero = refl
    zero_digits (suc i) (suc j) = refl
fuel_irrelevant z f zero n (suc a) b p q = absurd (omega arith)
fuel_irrelevant z f (suc m) zero (suc a) b p q = absurd (omega arith)
fuel_irrelevant z f (suc m) (suc n) (suc a) b p q =
    ap (λ (t : ℕ). t * 2 + f (suc a % 2) (b % 2))
      (fuel_irrelevant z f m n (suc a / 2) (b / 2) (omega arith) (omega arith))

-- The lowest digit, and what is left of the others.
digits_lowest :
    (z : ℕ → ℕ) (f : ℕ → ℕ → ℕ) (a b : ℕ)
    → digits z f (suc a) (suc a) b
      ≡ digits z f (suc a / 2) (suc a / 2) (b / 2) * 2 + f (suc a % 2) (b % 2)
digits_lowest z f a b =
    ap (λ (t : ℕ). t * 2 + f (suc a % 2) (b % 2))
      (fuel_irrelevant z f a (suc a / 2) (suc a / 2) (b / 2) (omega arith) (omega arith))

pub bit_or_lowest : (a b : ℕ) → bit_or a b ≡ bit_or (a / 2) (b / 2) * 2 + max (a % 2) (b % 2)
bit_or_lowest zero b = simp bit_or-bitwise (omega arith)
bit_or_lowest (suc a) b =
    bit_or-bitwise (suc a) b
    ∙ digits_lowest (λ y. y) max a b
    ∙ ap (λ (t : ℕ). t * 2 + max (suc a % 2) (b % 2)) (sym (bit_or-bitwise (suc a / 2) (b / 2)))

pub bit_and_lowest : (a b : ℕ) → bit_and a b ≡ bit_and (a / 2) (b / 2) * 2 + min (a % 2) (b % 2)
bit_and_lowest zero b = simp bit_and-bitwise (omega arith)
bit_and_lowest (suc a) b =
    bit_and-bitwise (suc a) b
    ∙ digits_lowest (λ y. 0) min a b
    ∙ ap (λ (t : ℕ). t * 2 + min (suc a % 2) (b % 2)) (sym (bit_and-bitwise (suc a / 2) (b / 2)))

no_digits : (fuel a : ℕ) → digits (λ y. 0) min fuel a 0 ≡ 0
no_digits zero zero = refl
no_digits zero (suc a) = refl
no_digits (suc fuel) zero = refl
no_digits (suc fuel) (suc a) = omega (arith, no_digits fuel (suc a / 2))

pub bit_and-zero : (a : ℕ) → bit_and a 0 ≡ 0
bit_and-zero a = bit_and-bitwise a 0 ∙ no_digits a a

kept_digits : (fuel a : ℕ) → a ≤ fuel → digits (λ y. y) max fuel a 0 ≡ a
kept_digits zero zero h = refl
kept_digits zero (suc a) h = absurd (omega arith)
kept_digits (suc fuel) zero h = refl
kept_digits (suc fuel) (suc a) h = omega (arith, kept_digits fuel (suc a / 2) (omega arith))

pub bit_or-zero : (a : ℕ) → bit_or a 0 ≡ a
bit_or-zero a = bit_or-bitwise a 0 ∙ kept_digits a a (omega arith)

pub zero-bit_or : (b : ℕ) → bit_or 0 b ≡ b
zero-bit_or b = bit_or-bitwise 0 b

-- The bit of weight `2 ^ i`.
pub bit : ℕ → ℕ → ℕ
bit x zero = x % 2
bit x (suc i) = bit (x / 2) i

pub bit-le-one : (x i : ℕ) → bit x i ≤ 1
unfolding bit
bit-le-one x zero = omega arith
bit-le-one x (suc i) = bit-le-one (x / 2) i

pub bit-zero : (i : ℕ) → bit 0 i ≡ 0
unfolding bit
bit-zero zero = refl
bit-zero (suc i) = bit-zero i

pub bit-bit_or : (a b i : ℕ) → bit (bit_or a b) i ≡ max (bit a i) (bit b i)
unfolding bit
bit-bit_or a b zero = omega (arith, bit_or_lowest a b)
bit-bit_or a b (suc i) =
    let e : bit_or a b / 2 ≡ bit_or (a / 2) (b / 2) = omega (arith, bit_or_lowest a b) in
    rw e (bit-bit_or (a / 2) (b / 2) i)

pub bit-bit_and : (a b i : ℕ) → bit (bit_and a b) i ≡ min (bit a i) (bit b i)
unfolding bit
bit-bit_and a b zero = omega (arith, bit_and_lowest a b)
bit-bit_and a b (suc i) =
    let e : bit_and a b / 2 ≡ bit_and (a / 2) (b / 2) = omega (arith, bit_and_lowest a b) in
    rw e (bit-bit_and (a / 2) (b / 2) i)

pub bit-two_pow_self : (k : ℕ) → bit (2 ^ k) k ≡ 1
unfolding bit
bit-two_pow_self zero = refl
bit-two_pow_self (suc k) =
    let e : 2 ^ suc k / 2 ≡ 2 ^ k = omega (arith, pow-suc 2 k) in rw e (bit-two_pow_self k)

pub bit-two_pow_ne : (k i : ℕ) → k ≢ i → bit (2 ^ k) i ≡ 0
unfolding bit
bit-two_pow_ne zero zero h = absurd (h refl)
bit-two_pow_ne zero (suc i) h = bit-zero i
bit-two_pow_ne (suc k) zero h = omega (arith, pow-suc 2 k)
bit-two_pow_ne (suc k) (suc i) h =
    let e : 2 ^ suc k / 2 ≡ 2 ^ k = omega (arith, pow-suc 2 k) in
    rw e (bit-two_pow_ne k i (λ p. h (ap suc p)))

-- Complement in a word of `w` bits.
pub bit-complement : (w x i : ℕ) → x < 2 ^ w → i < w → bit (2 ^ w - 1 - x) i + bit x i ≡ 1
unfolding bit
bit-complement zero x i h lt = absurd (omega arith)
bit-complement (suc w) x zero h lt = omega (arith, pow-suc 2 w)
bit-complement (suc w) x (suc i) h lt =
    let e : (2 ^ suc w - 1 - x) / 2 ≡ 2 ^ w - 1 - x / 2 = omega (arith, pow-suc 2 w) in
    rw e (bit-complement w (x / 2) i (omega (arith, pow-suc 2 w)) (omega arith))

pub bit_or-lt : (w a b : ℕ) → a < 2 ^ w → b < 2 ^ w → bit_or a b < 2 ^ w
bit_or-lt zero a b p q =
    let e : a ≡ 0 = omega arith in let f : b ≡ 0 = omega arith in rw (e, f) (omega arith)
bit_or-lt (suc w) a b p q = omega (
  arith,
  pow-suc 2 w,
  bit_or_lowest a b,
  bit_or-lt w (a / 2) (b / 2) (omega (arith, pow-suc 2 w)) (omega (arith, pow-suc 2 w)),
)

pub bit_and-lt : (w a b : ℕ) → a < 2 ^ w → bit_and a b < 2 ^ w
bit_and-lt zero a b p = let e : a ≡ 0 = omega arith in rw e (omega (arith, bit_and-bitwise 0 b))
bit_and-lt (suc w) a b p = omega (
  arith,
  pow-suc 2 w,
  bit_and_lowest a b,
  bit_and-lt w (a / 2) (b / 2) (omega (arith, pow-suc 2 w)),
)

pub two_pow-lt : (i w : ℕ) → i < w → 2 ^ i < 2 ^ w
two_pow-lt i zero h = absurd (omega arith)
two_pow-lt zero (suc w) h = omega (arith, pow-suc 2 w, one-le-pow w 2)
two_pow-lt (suc i) (suc w) h = omega (arith, pow-suc 2 w, pow-suc 2 i, two_pow-lt i w)

-- A test against a mask of one bit.
pub bit_and-two_pow : (a k : ℕ) → bit_and a (2 ^ k) ≡ bit a k * 2 ^ k
unfolding bit
bit_and-two_pow a zero = omega (arith, bit_and_lowest a 1, bit_and-zero (a / 2))
bit_and-two_pow a (suc k) =
    let e : 2 ^ suc k / 2 ≡ 2 ^ k = omega (arith, pow-suc 2 k) in
    let step : bit_and a (2 ^ suc k) ≡ bit_and (a / 2) (2 ^ k) * 2 =
      (rw e at (bit_and_lowest a (2 ^ suc k))) ∙ omega (arith, pow-suc 2 k) in
    omega (arith, step, bit_and-two_pow (a / 2) k, ap (λ (t : ℕ). bit (a / 2) k * t) (pow-suc 2 k))

pub mod-two_pow-suc : (a k : ℕ) → a % 2 ^ suc k ≡ a / 2 % 2 ^ k * 2 + a % 2
mod-two_pow-suc a k =
    ap (λ (t : ℕ). t % 2 ^ suc k) split
    ∙ mul-add-mod_self_right (a / 2 / 2 ^ k) (2 ^ suc k) (a / 2 % 2 ^ k * 2 + a % 2)
    ∙ mod-eq_of_lt small
  where
    split : a ≡ a / 2 / 2 ^ k * 2 ^ suc k + (a / 2 % 2 ^ k * 2 + a % 2)
    split =
        omega (arith, div-add-mod' (a / 2) (2 ^ k), ap (λ (t : ℕ). a / 2 / 2 ^ k * t) (pow-suc 2 k))

    small : a / 2 % 2 ^ k * 2 + a % 2 < 2 ^ suc k
    small = omega (arith, pow-suc 2 k, mod-lt (a / 2) (one-le-pow k 2 (omega arith)))

-- A mask of the low `k` bits.
pub bit_and-low_mask : (k a : ℕ) → bit_and a (2 ^ k - 1) ≡ a % 2 ^ k
bit_and-low_mask zero a = omega (arith, bit_and-zero a)
bit_and-low_mask (suc k) a =
    let e : (2 ^ suc k - 1) / 2 ≡ 2 ^ k - 1 = omega (arith, pow-suc 2 k, one-le-pow k 2) in
    let step : bit_and a (2 ^ suc k - 1) ≡ bit_and (a / 2) (2 ^ k - 1) * 2 + a % 2 =
      (rw e at (bit_and_lowest a (2 ^ suc k - 1))) ∙ omega (arith, pow-suc 2 k, one-le-pow k 2) in
    omega (arith, step, bit_and-low_mask k (a / 2), mod-two_pow-suc a k)

-- `u64::trailing_zeros`, looking at `w` bits at most.
unfoldable pub trailing_zeros : ℕ → ℕ → ℕ
trailing_zeros zero x = 0
trailing_zeros (suc w) x = if x % 2 == 1 then 0 else suc (trailing_zeros w (x / 2))

pub trailing_zeros-le : (w x : ℕ) → trailing_zeros w x ≤ w
unfolding trailing_zeros
trailing_zeros-le zero x = omega arith
trailing_zeros-le (suc w) x = ground (arith, trailing_zeros-le w (x / 2))

pub bit-below_trailing_zeros : (w x i : ℕ) → i < trailing_zeros w x → bit x i ≡ 0
unfolding trailing_zeros bit
bit-below_trailing_zeros zero x i h = absurd (omega arith)
bit-below_trailing_zeros (suc w) x zero h = ground arith
bit-below_trailing_zeros (suc w) x (suc i) h = bit-below_trailing_zeros w (x / 2) i (ground arith)

pub trailing_zeros_set :
    (w x : ℕ) → 0 < x → x < 2 ^ w → (trailing_zeros w x < w) × (bit x (trailing_zeros w x) ≡ 1)
unfolding trailing_zeros bit
trailing_zeros_set zero x p h = absurd (omega arith)
trailing_zeros_set (suc w) x p h = elim (Bool-cases (x % 2 == 1)) [
  | inl odd ↦ rw odd (omega arith, eq_of_== _ _ odd)
  | inr even ↦
      let ih = trailing_zeros_set w (x / 2) (ground arith) (omega (arith, pow-suc 2 w)) in
      rw even (omega (arith, ih.0), ih.1)
]

pub bit-eq-zero : (a k : ℕ) → bit_and a (2 ^ k) ≡ 0 → bit a k ≡ 0
bit-eq-zero a k h = elim (Bool-cases (bit a k == 0)) [
  | inl e ↦ eq_of_== _ _ e
  | inr e ↦
      let one : bit a k ≡ 1 = omega (arith, ne_of_not_== _ _ e, bit-le-one a k) in
      absurd (omega (arith, rw one at (bit_and-two_pow a k), one-le-pow k 2 (omega arith)))
]

pub bit-eq-one : (a k : ℕ) → bit_and a (2 ^ k) ≢ 0 → bit a k ≡ 1
bit-eq-one a k h = elim (Bool-cases (bit a k == 0)) [
  | inl e ↦ absurd (h (bit_and-two_pow a k ∙ rw (eq_of_== (bit a k) 0 e) (omega arith)))
  | inr e ↦ omega (arith, ne_of_not_== _ _ e, bit-le-one a k)
]
