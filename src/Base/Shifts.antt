-- ===== src/Base/Shifts.antt =====
-- Fields of words: `bit_or` under division and remainder, and masks that are shifted.
use Prim.Native.Nat.{ℕ, zero, suc, ◌*◌, ◌/◌, ◌%◌, ◌^◌, max, bit_and, bit_or}
use mathlib.Core.Path.{◌≡◌, sym}
use native.Mathlib.Nat.{pow-suc, div-div-eq-div-mul}
use native.Mathlib.Omega.{arith}
use endless_hole.Base.Bits.{bit_or_lowest, bit_and_lowest, mod-two_pow-suc}

div-two_pow-suc : (a k : ℕ) → a / 2 ^ suc k ≡ a / 2 / 2 ^ k
div-two_pow-suc a k =
    let e : 2 ^ suc k ≡ 2 * 2 ^ k = omega (arith, pow-suc 2 k) in
    rw e (sym (div-div-eq-div-mul a 2 (2 ^ k)))

by_one : (a : ℕ) → a / 2 ^ 0 ≡ a
by_one a = omega arith

no_rest : (a : ℕ) → a % 2 ^ 0 ≡ 0
no_rest a = omega arith

double : (m k : ℕ) → m * 2 ^ suc k ≡ m * 2 ^ k * 2
double m k = grind arith

pub bit_or-div : (k a b : ℕ) → bit_or a b / 2 ^ k ≡ bit_or (a / 2 ^ k) (b / 2 ^ k)
bit_or-div zero a b = rw (by_one a, by_one b) (by_one (bit_or a b))
bit_or-div (suc k) a b =
    let e : bit_or a b / 2 ≡ bit_or (a / 2) (b / 2) = omega (arith, bit_or_lowest a b) in
    rw (div-two_pow-suc (bit_or a b) k, div-two_pow-suc a k, div-two_pow-suc b k, e)
      (bit_or-div k (a / 2) (b / 2))

pub bit_or-mod : (k a b : ℕ) → bit_or a b % 2 ^ k ≡ bit_or (a % 2 ^ k) (b % 2 ^ k)
bit_or-mod zero a b = rw (no_rest a, no_rest b) (no_rest (bit_or a b))
bit_or-mod (suc k) a b =
    let e : bit_or a b / 2 ≡ bit_or (a / 2) (b / 2) = omega (arith, bit_or_lowest a b) in
    let f : bit_or a b % 2 ≡ max (a % 2) (b % 2) = omega (arith, bit_or_lowest a b) in
    let half_a : a % 2 ^ suc k / 2 ≡ a / 2 % 2 ^ k = omega (arith, mod-two_pow-suc a k) in
    let half_b : b % 2 ^ suc k / 2 ≡ b / 2 % 2 ^ k = omega (arith, mod-two_pow-suc b k) in
    omega (
      arith,
      rw e at (mod-two_pow-suc (bit_or a b) k),
      bit_or-mod k (a / 2) (b / 2),
      rw (half_a, half_b) at (bit_or_lowest (a % 2 ^ suc k) (b % 2 ^ suc k)),
      mod-two_pow-suc a k,
      mod-two_pow-suc b k,
      f,
    )

-- A mask of bits from `k` on
pub bit_and-shifted : (k a m : ℕ) → bit_and a (m * 2 ^ k) ≡ bit_and (a / 2 ^ k) m * 2 ^ k
bit_and-shifted zero a m =
    let one : (x : ℕ) → x * 2 ^ 0 ≡ x = λ x. omega arith in
    rw (by_one a, one m) (sym (one (bit_and a m)))
bit_and-shifted (suc k) a m =
    let e : m * 2 ^ suc k / 2 ≡ m * 2 ^ k = omega (arith, double m k) in
    let f : m * 2 ^ suc k % 2 ≡ 0 = omega (arith, double m k) in
    rw (div-two_pow-suc a k) (
      omega (
        arith,
        rw e at (bit_and_lowest a (m * 2 ^ suc k)),
        f,
        bit_and-shifted k (a / 2) m,
        double (bit_and (a / 2 / 2 ^ k) m) k,
      ))
