-- ===== src/Collections/HandleMap/Shape.antt =====
-- The depth that `new` chooses for a largest handle.
use native.Mathlib.Nat.{pow-le-pow_right, le_trans}
use endless_hole.Base.{ℕ, zero, suc, ◌-◌, ◌*◌, ◌/◌, ◌^◌, ◌≤◌, ◌<◌, bit_and, arith}
use endless_hole.Base.{◌≡◌, refl, inl, inr, ◌≢◌, ◌==◌, eq_of_==}
use endless_hole.Base.{ltb, Bool-cases, all_below, all_below_lem, lt_of_ltb}
use endless_hole.Collections.HandleAllocator.{div_ceil}
use endless_hole.Collections.HandleMap.Map.{leading_zeros, extra_bits}

leading_zeros_bound :
    (w x : ℕ) → x < 2 ^ w → (leading_zeros w x ≤ w) × (x < 2 ^ (w - leading_zeros w x))
unfolding leading_zeros
leading_zeros_bound zero x h = (omega arith, h)
leading_zeros_bound (suc w) x h = elim (Bool-cases (ltb x (2 ^ w))) [
  | inl below ↦
      let (le, lt) = leading_zeros_bound w x (lt_of_ltb _ _ below) in
      let e : suc w - suc (leading_zeros w x) ≡ w - leading_zeros w x = omega arith in
      rw (below, e) (omega arith, lt)
  | inr above ↦ let e : suc w - 0 ≡ suc w = omega arith in rw (above, e) (omega arith, h)
]

-- The largest numbers that go by one handle path, for a prefix of `p` zero bits.
pub record IsShape (max_handle p d : ℕ) : Type 0 where
  pub levels : d ≤ 3
  pub prefix : p ≡ 24 - 8 * d
  pub room : max_handle ≤ 256 ^ suc d

masked : (n : ℕ) → n < 33 → bit_and n (2 ^ 32 - 1 - 7) ≡ n / 8 * 8
unfolding all_below
masked n h = eq_of_== _ _ (all_below_lem 33 (λ i. bit_and i (2 ^ 32 - 1 - 7) == i / 8 * 8) n refl h)

-- By the number of bytes that are 0 in every handle.
div_ceil-IsShape :
    (n q : ℕ) → q ≤ 3 → n < 2 ^ (32 - q * 8) → IsShape n (q * 8) (div_ceil (32 - q * 8) 8 - 1)
div_ceil-IsShape n zero h lt = record {
  levels = omega arith;
  prefix = omega arith;
  room = omega arith;
}
div_ceil-IsShape n (suc zero) h lt = record {
  levels = omega arith;
  prefix = omega arith;
  room = omega arith;
}
div_ceil-IsShape n (suc (suc zero)) h lt = record {
  levels = omega arith;
  prefix = omega arith;
  room = omega arith;
}
div_ceil-IsShape n (suc (suc (suc zero))) h lt = record {
  levels = omega arith;
  prefix = omega arith;
  room = omega arith;
}
div_ceil-IsShape n (suc (suc (suc (suc q)))) h lt = absurd (omega arith)

div_ceil-suc : (q : ℕ) → q ≤ 3 → div_ceil (32 - q * 8) 8 ≡ suc (div_ceil (32 - q * 8) 8 - 1)
div_ceil-suc zero h = refl
div_ceil-suc (suc zero) h = refl
div_ceil-suc (suc (suc zero)) h = refl
div_ceil-suc (suc (suc (suc zero))) h = refl
div_ceil-suc (suc (suc (suc (suc q)))) h = absurd (omega arith)

-- The eighths of the leading zeros of a handle that is not 0
few_zeros : (n : ℕ) → 0 < n → n < 2 ^ 32 → leading_zeros 32 n / 8 ≤ 3
few_zeros n p h =
    let (le, lt) = leading_zeros_bound 32 n h in
    let few : leading_zeros 32 n ≢ 32 = λ e. absurd (omega (arith, rw e at lt)) in
    omega (arith, few)

-- A map for some handles has a level.
pub depth-suc :
    (max_handle : ℕ)
    → 0 < max_handle
    → max_handle < 2 ^ 32
    → div_ceil (32 - extra_bits max_handle) 8 ≡ suc (div_ceil (32 - extra_bits max_handle) 8 - 1)
unfolding extra_bits
depth-suc n p h =
    let (le, lt) = leading_zeros_bound 32 n h in
    rw (masked (leading_zeros 32 n) (omega arith))
      (div_ceil-suc (leading_zeros 32 n / 8) (few_zeros n p h))

pub new-IsShape :
    (max_handle : ℕ)
    → 0 < max_handle
    → max_handle < 2 ^ 32
    → IsShape max_handle (extra_bits max_handle) (div_ceil (32 - extra_bits max_handle) 8 - 1)
unfolding extra_bits
new-IsShape n p h =
    let l = leading_zeros 32 n in
    let (le, lt) = leading_zeros_bound 32 n h in
    rw (masked l (omega arith)) (
      div_ceil-IsShape n (l / 8) (few_zeros n p h)
        (le_trans lt (pow-le-pow_right (omega arith) (omega arith))))
