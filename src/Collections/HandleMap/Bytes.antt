-- ===== src/Collections/HandleMap/Bytes.antt =====
-- The bytes of a handle: which handles share a path, and what the loops make of a handle.
use endless_hole.Base.{ℕ, zero, suc, ◌-◌, ◌*◌, ◌/◌, ◌%◌, ◌^◌, ◌≤◌, bit_and, arith}
use endless_hole.Base.{◌≡◌, ◌&&◌, ◌==◌}
use endless_hole.Base.Bits.{bit_and-low_mask}
use endless_hole.Collections.HandleMap.Table.{rotate_left_8}
use endless_hole.Collections.HandleMap.Map.{first_index}
use endless_hole.Collections.HandleMap.Paths.{same_path, rotated}

byte : (x : ℕ) → bit_and x 0xff ≡ x % 256
byte x = bit_and-low_mask 8 x

pub rotated_first : (d h : ℕ) → d ≤ 3 → rotated d (first_index (24 - 8 * d) h) ≡ h % 256 ^ suc d
unfolding rotated first_index
rotated_first zero h q = omega arith
rotated_first (suc zero) h q = omega arith
rotated_first (suc (suc zero)) h q = omega arith
rotated_first (suc (suc (suc zero))) h q = omega arith
rotated_first (suc (suc (suc (suc d)))) h q = absurd (omega arith)

-- The bytes on the path of a handle, the highest first, for each number of levels.
one_byte : (x : ℕ) → bit_and (first_index 24 x) 0xff ≡ x / 2 ^ 0 % 256
unfolding first_index
one_byte x = omega (arith, byte (first_index 24 x))

two_bytes :
    (x : ℕ)
    → (bit_and (first_index 16 x) 0xff ≡ x / 2 ^ 8 % 256)
      × (bit_and (rotate_left_8 (first_index 16 x)) 0xff ≡ x / 2 ^ 0 % 256)
unfolding first_index
two_bytes x =
    (omega (arith, byte (first_index 16 x)), omega (arith, byte (rotate_left_8 (first_index 16 x))))

three_bytes :
    (x : ℕ)
    → (bit_and (first_index 8 x) 0xff ≡ x / 2 ^ 16 % 256)
      × (bit_and (rotate_left_8 (first_index 8 x)) 0xff ≡ x / 2 ^ 8 % 256)
      × (bit_and (rotate_left_8 (rotate_left_8 (first_index 8 x))) 0xff ≡ x / 2 ^ 0 % 256)
unfolding first_index
three_bytes x = (
  omega (arith, byte (first_index 8 x)),
  omega (arith, byte (rotate_left_8 (first_index 8 x))),
  omega (arith, byte (rotate_left_8 (rotate_left_8 (first_index 8 x)))),
)

four_bytes :
    (x : ℕ)
    → (bit_and (first_index 0 x) 0xff ≡ x / 2 ^ 24 % 256)
      × (bit_and (rotate_left_8 (first_index 0 x)) 0xff ≡ x / 2 ^ 16 % 256)
      × (bit_and (rotate_left_8 (rotate_left_8 (first_index 0 x))) 0xff ≡ x / 2 ^ 8 % 256)
      × (bit_and (rotate_left_8 (rotate_left_8 (rotate_left_8 (first_index 0 x)))) 0xff
          ≡ x / 2 ^ 0 % 256)
unfolding first_index
four_bytes x = (
  omega (arith, byte (first_index 0 x)),
  omega (arith, byte (rotate_left_8 (first_index 0 x))),
  omega (arith, byte (rotate_left_8 (rotate_left_8 (first_index 0 x)))),
  omega (arith, byte (rotate_left_8 (rotate_left_8 (rotate_left_8 (first_index 0 x))))),
)

three_equal :
    (x y : ℕ)
    → (x / 2 ^ 16 % 256 == y / 2 ^ 16 % 256
        && (x / 2 ^ 8 % 256 == y / 2 ^ 8 % 256 && x / 2 ^ 0 % 256 == y / 2 ^ 0 % 256))
      ≡ (x % 2 ^ 24 == y % 2 ^ 24)
three_equal x y = ground arith

four_equal :
    (x y : ℕ)
    → (x / 2 ^ 24 % 256 == y / 2 ^ 24 % 256 && x % 2 ^ 24 == y % 2 ^ 24)
      ≡ (x % 2 ^ 32 == y % 2 ^ 32)
four_equal x y = ground arith

pub same_path_first :
    (d x y : ℕ)
    → d ≤ 3
    → same_path d (first_index (24 - 8 * d) x) (first_index (24 - 8 * d) y)
      ≡ (x % 256 ^ suc d == y % 256 ^ suc d)
unfolding same_path
same_path_first zero x y q = rw (one_byte x, one_byte y) (ground arith)
same_path_first (suc zero) x y q =
    let (a, b) = two_bytes x in let (c, d) = two_bytes y in rw (a, b, c, d) (ground arith)
same_path_first (suc (suc zero)) x y q =
    let (a, b, c) = three_bytes x in
    let (d, e, f) = three_bytes y in rw (a, b, c, d, e, f) (three_equal x y)
same_path_first (suc (suc (suc zero))) x y q =
    let (a, b, c, d) = four_bytes x in
    let (e, f, g, h) = four_bytes y in rw (a, b, c, d, e, f, g, h, three_equal x y) (four_equal x y)
same_path_first (suc (suc (suc (suc d)))) x y q = absurd (omega arith)

-- A handle walks as its low bytes do.
pub first_index-mod :
    (d h : ℕ) → d ≤ 3 → first_index (24 - 8 * d) (h % 256 ^ suc d) ≡ first_index (24 - 8 * d) h
unfolding first_index
first_index-mod zero h q = omega arith
first_index-mod (suc zero) h q = omega arith
first_index-mod (suc (suc zero)) h q = omega arith
first_index-mod (suc (suc (suc zero))) h q = omega arith
first_index-mod (suc (suc (suc (suc d)))) h q = absurd (omega arith)
