-- ===== src/Base/Bits.antt =====
-- `|` of disjoint fields as a sum, and `^` as an involution, at every width. Both rest on one
-- equation for the lowest binary digit.
use Prim.Native.Nat.{ℕ, zero, suc, ◌+◌, ◌*◌, ◌/◌, ◌%◌, ◌^◌, ◌≤◌, ◌<◌, min, max, ◌-◌, bit_and}
use Prim.Native.Nat.{bit_or, bit_xor, digits, differ, bit_and-bitwise, bit_or-bitwise}
use Prim.Native.Nat.{bit_xor-bitwise}
use mathlib.Core.Path.{◌≡◌, refl, ap, ap₂, ◌∙◌}
use native.Mathlib.Nat.{pow-suc, one-le-pow}
use native.Mathlib.Omega.{arith}

infixl 75 ◌<<<◌ ◌>>>◌
abbrev pub ◌<<<◌ : ℕ → ℕ → ℕ
x <<< k = x * 2 ^ k

abbrev pub ◌>>>◌ : ℕ → ℕ → ℕ
x >>> k = x / 2 ^ k

-- The fuel of the digit recursion does not matter, once there is enough.
same_digits :
    (z : ℕ → ℕ) (f : ℕ → ℕ → ℕ) (n m a b : ℕ) → a ≤ n → a ≤ m → digits z f n a b ≡ digits z f m a b
same_digits z f zero zero a b p q = refl
same_digits z f (suc n) (suc m) zero b p q = refl
same_digits z f (suc n) zero zero b p q = refl
same_digits z f zero (suc m) zero b p q = refl
same_digits z f zero (suc m) (suc a) b p q = absurd (omega arith)
same_digits z f (suc n) zero (suc a) b p q = absurd (omega arith)
same_digits z f (suc n) (suc m) (suc a) b p q =
    omega (arith, same_digits z f n m (suc a / 2) (b / 2) (omega arith) (omega arith))

pub bit_or_digit : (a b : ℕ) → bit_or a b ≡ bit_or (a / 2) (b / 2) * 2 + max (a % 2) (b % 2)
bit_or_digit zero b = omega (arith, bit_or-bitwise 0 b, bit_or-bitwise 0 (b / 2))
bit_or_digit (suc a) b = omega (
  arith,
  bit_or-bitwise (suc a) b,
  bit_or-bitwise (suc a / 2) (b / 2),
  same_digits (λ y. y) max a (suc a / 2) (suc a / 2) (b / 2) (omega arith) (omega arith),
)

pub bit_xor_digit : (a b : ℕ) → bit_xor a b ≡ bit_xor (a / 2) (b / 2) * 2 + differ (a % 2) (b % 2)
bit_xor_digit zero b = omega (arith, bit_xor-bitwise 0 b, bit_xor-bitwise 0 (b / 2))
bit_xor_digit (suc a) b = omega (
  arith,
  bit_xor-bitwise (suc a) b,
  bit_xor-bitwise (suc a / 2) (b / 2),
  same_digits (λ y. y) differ a (suc a / 2) (suc a / 2) (b / 2) (omega arith) (omega arith),
)

pub bit_and_digit : (a b : ℕ) → bit_and a b ≡ bit_and (a / 2) (b / 2) * 2 + min (a % 2) (b % 2)
bit_and_digit zero b = omega (arith, bit_and-bitwise 0 b, bit_and-bitwise 0 (b / 2))
bit_and_digit (suc a) b = omega (
  arith,
  bit_and-bitwise (suc a) b,
  bit_and-bitwise (suc a / 2) (b / 2),
  same_digits (λ y. 0) min a (suc a / 2) (suc a / 2) (b / 2) (omega arith) (omega arith),
)

bit_and_nothing : (n a : ℕ) → a ≤ n → bit_and a 0 ≡ 0
bit_and_nothing n zero h = bit_and-bitwise 0 0
bit_and_nothing zero (suc a) h = absurd (omega arith)
bit_and_nothing (suc n) (suc a) h =
    omega (arith, bit_and_digit (suc a) 0, bit_and_nothing n (suc a / 2) (omega arith))

two_pow_suc : (q k : ℕ) → q * 2 ^ suc k ≡ 2 * (q * 2 ^ k)
two_pow_suc q k = omega (arith, ap (λ (t : ℕ). q * t) (pow-suc 2 k))

shorter_mask : (k : ℕ) → (2 ^ suc k - 1) / 2 ≡ 2 ^ k - 1
shorter_mask k = omega (arith, pow-suc 2 k, one-le-pow k 2)

half_field : (k r q : ℕ) → (r + q * 2 ^ suc k) / 2 ≡ r / 2 + q * 2 ^ k
half_field k r q = omega (arith, two_pow_suc q k)

-- A mask of the `k` low bits keeps the field that fits below `2 ^ k`.
bit_and_field : (k r q : ℕ) → r < 2 ^ k → bit_and (r + q * 2 ^ k) (2 ^ k - 1) ≡ r
bit_and_field zero r q h = omega (arith, bit_and_nothing (r + q * 1) (r + q * 1) (omega arith))
bit_and_field (suc k) r q h = omega (
  arith,
  pow-suc 2 k,
  one-le-pow k 2,
  two_pow_suc q k,
  bit_and_digit (r + q * 2 ^ suc k) (2 ^ suc k - 1),
  ap₂ bit_and (half_field k r q) (shorter_mask k),
  bit_and_field k (r / 2) q (omega (arith, pow-suc 2 k)),
)

pub bit_and_255 : (a : ℕ) → bit_and a 0xff ≡ a % 256
bit_and_255 a =
    ap (λ (t : ℕ). bit_and t 0xff) {x = a} {y = a % 256 + a / 256 * 2 ^ 8} (omega arith)
    ∙ bit_and_field 8 (a % 256) (a / 256) (omega arith)

-- `r | (q << k)` is a sum when `r` fits below the shifted field.
pub bit_or_below : (k r q : ℕ) → r < 2 ^ k → bit_or r (q <<< k) ≡ r + q * 2 ^ k
bit_or_below zero zero q h = omega (arith, bit_or-bitwise 0 (q * 1))
bit_or_below zero (suc r) q h = absurd (omega arith)
bit_or_below (suc k) r q h = omega (
  arith,
  bit_or_digit r (q * 2 ^ suc k),
  two_pow_suc q k,
  ap (λ (t : ℕ). bit_or (r / 2) (t / 2)) (two_pow_suc q k),
  ap (λ (t : ℕ). bit_or (r / 2) t) {x = 2 * (q * 2 ^ k) / 2} {y = q * 2 ^ k} (omega arith),
  pow-suc 2 k,
  bit_or_below k (r / 2) q (omega (arith, pow-suc 2 k)),
)

-- A second `^` by the same number takes the first one back.
differ_twice : (x y : ℕ) → x < 2 → y < 2 → (differ (differ x y) y ≡ x) × (differ x y < 2)
differ_twice zero zero p q = (refl, omega arith)
differ_twice zero (suc zero) p q = (refl, omega arith)
differ_twice (suc zero) zero p q = (refl, omega arith)
differ_twice (suc zero) (suc zero) p q = (refl, omega arith)
differ_twice (suc (suc x)) y p q = absurd (omega arith)
differ_twice zero (suc (suc y)) p q = absurd (omega arith)
differ_twice (suc zero) (suc (suc y)) p q = absurd (omega arith)

xor_twice_below : (n a b : ℕ) → a ≤ n → b ≤ n → bit_xor (bit_xor a b) b ≡ a
xor_twice_below zero zero zero p q = refl
xor_twice_below zero (suc a) b p q = absurd (omega arith)
xor_twice_below zero zero (suc b) p q = absurd (omega arith)
xor_twice_below (suc n) a b p q = omega (
  arith,
  bit_xor_digit (bit_xor a b) b,
  ap (λ (t : ℕ). bit_xor t (b / 2)) halves,
  ap (λ (t : ℕ). differ t (b % 2)) lowest,
  (differ_twice (a % 2) (b % 2) (omega arith) (omega arith)).0,
  xor_twice_below n (a / 2) (b / 2) (omega arith) (omega arith),
)
  where
    small : differ (a % 2) (b % 2) < 2
    small = (differ_twice (a % 2) (b % 2) (omega arith) (omega arith)).1

    halves : bit_xor a b / 2 ≡ bit_xor (a / 2) (b / 2)
    halves = omega (arith, bit_xor_digit a b, small)

    lowest : bit_xor a b % 2 ≡ differ (a % 2) (b % 2)
    lowest = omega (arith, bit_xor_digit a b, small)

pub xor_twice : (a b : ℕ) → bit_xor (bit_xor a b) b ≡ a
xor_twice a b = xor_twice_below (max a b) a b (omega arith) (omega arith)

-- `^` of two numbers of `k` bits has `k` bits.
pub bit_xor-lt : (k a b : ℕ) → a < 2 ^ k → b < 2 ^ k → bit_xor a b < 2 ^ k
bit_xor-lt zero zero zero p q = omega arith
bit_xor-lt zero (suc a) b p q = absurd (omega arith)
bit_xor-lt zero zero (suc b) p q = absurd (omega arith)
bit_xor-lt (suc k) a b p q = omega (
  arith,
  pow-suc 2 k,
  bit_xor_digit a b,
  (differ_twice (a % 2) (b % 2) (omega arith) (omega arith)).1,
  bit_xor-lt k (a / 2) (b / 2) (omega (arith, pow-suc 2 k)) (omega (arith, pow-suc 2 k)),
)

or_comm_below : (n a b : ℕ) → a ≤ n → b ≤ n → bit_or a b ≡ bit_or b a
or_comm_below zero zero zero p q = refl
or_comm_below zero (suc a) b p q = absurd (omega arith)
or_comm_below zero zero (suc b) p q = absurd (omega arith)
or_comm_below (suc n) a b p q = omega (
  arith,
  bit_or_digit a b,
  bit_or_digit b a,
  or_comm_below n (a / 2) (b / 2) (omega arith) (omega arith),
)

pub bit_or_comm : (a b : ℕ) → bit_or a b ≡ bit_or b a
bit_or_comm a b = or_comm_below (max a b) a b (omega arith) (omega arith)

-- `(q << k) | r` is a sum when `r` fits below the shifted field.
pub bit_or_above : (k r q : ℕ) → r < 2 ^ k → bit_or (q <<< k) r ≡ r + q * 2 ^ k
bit_or_above k r q h = bit_or_comm (q * 2 ^ k) r ∙ bit_or_below k r q h

pub zero-bit_or : (b : ℕ) → bit_or 0 b ≡ b
zero-bit_or b = bit_or-bitwise 0 b
