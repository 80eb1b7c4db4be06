-- ===== src/Base/Bits.antt =====
-- `&` and `|` of machine words as arithmetic: one digit at a time, then for a mask of low bits, a
-- mask shifted up, and two words with no bit in common.
use Prim.Native.Nat.{ℕ, zero, suc, ◌+◌, ◌-◌, ◌*◌, ◌/◌, ◌%◌, ◌^◌, ◌≤◌, ◌<◌, min, max}
use Prim.Native.Nat.{
  bit_and, bit_or, bit_xor, digits, differ, bit_and-bitwise, bit_or-bitwise, bit_xor-bitwise,
}
use mathlib.Core.Path.{◌≡◌, refl, ap}
use native.Mathlib.Nat.{pow-suc, le_refl, div-add-mod', one-le-pow}
use native.Mathlib.Omega.{arith}

-- The native operations stand for a recursion on digits with fuel; more fuel changes nothing.
module _ (rest : ℕ → ℕ) (op : ℕ → ℕ → ℕ) where
  digits_enough : (f g a b : ℕ) → a ≤ f → a ≤ g → digits rest op f a b ≡ digits rest op g a b
  digits_enough zero zero a b p q = refl
  digits_enough zero (suc g) zero b p q = refl
  digits_enough zero (suc g) (suc a) b p q = absurd (omega arith)
  digits_enough (suc f) zero zero b p q = refl
  digits_enough (suc f) zero (suc a) b p q = absurd (omega arith)
  digits_enough (suc f) (suc g) zero b p q = refl
  digits_enough (suc f) (suc g) (suc a) b p q =
      rw (digits_enough f g (suc a / 2) (b / 2) (omega arith) (omega arith))

pub bit_and_digit : (a b : ℕ) → bit_and a b ≡ bit_and (a / 2) (b / 2) * 2 + min (a % 2) (b % 2)
bit_and_digit zero b = omega (arith, bit_and-bitwise 0 b, bit_and-bitwise 0 (b / 2))
bit_and_digit (suc a) b = omega (
  arith,
  bit_and-bitwise (suc a) b,
  bit_and-bitwise (suc a / 2) (b / 2),
  digits_enough (λ y. 0) min a (suc a / 2) (suc a / 2) (b / 2) (omega arith) (omega arith),
)

pub bit_or_digit : (a b : ℕ) → bit_or a b ≡ bit_or (a / 2) (b / 2) * 2 + max (a % 2) (b % 2)
bit_or_digit zero b = omega (arith, bit_or-bitwise 0 b, bit_or-bitwise 0 (b / 2))
bit_or_digit (suc a) b = omega (
  arith,
  bit_or-bitwise (suc a) b,
  bit_or-bitwise (suc a / 2) (b / 2),
  digits_enough (λ y. y) max a (suc a / 2) (suc a / 2) (b / 2) (omega arith) (omega arith),
)

differ_same : (b : ℕ) → differ 0 b ≡ b
differ_same b = refl

pub bit_xor_digit : (a b : ℕ) → bit_xor a b ≡ bit_xor (a / 2) (b / 2) * 2 + differ (a % 2) (b % 2)
bit_xor_digit zero b =
    omega (arith, bit_xor-bitwise 0 b, bit_xor-bitwise 0 (b / 2), differ_same (b % 2))
bit_xor_digit (suc a) b = omega (
  arith,
  bit_xor-bitwise (suc a) b,
  bit_xor-bitwise (suc a / 2) (b / 2),
  digits_enough (λ y. y) differ a (suc a / 2) (suc a / 2) (b / 2) (omega arith) (omega arith),
)

-- Two digits that differ, or not.
pub differ-below : (x y : ℕ) → x < 2 → y < 2 → differ x y < 2
differ-below zero y hx hy = hy
differ-below (suc zero) zero hx hy = hx
differ-below (suc zero) (suc y) hx hy = omega (arith, differ_same y)
differ-below (suc (suc x)) y hx hy = absurd (omega arith)

pub differ_left : (x y z : ℕ) → x < 2 → y < 2 → z < 2 → differ x z ≡ differ y z → x ≡ y
differ_left zero zero z hx hy hz e = refl
differ_left zero (suc zero) zero hx hy hz e = e
differ_left zero (suc zero) (suc z) hx hy hz e = absurd (omega (arith, e, differ_same z))
differ_left (suc zero) zero zero hx hy hz e = e
differ_left (suc zero) zero (suc z) hx hy hz e = absurd (omega (arith, e, differ_same z))
differ_left (suc zero) (suc zero) z hx hy hz e = refl
differ_left (suc (suc x)) y z hx hy hz e = absurd (omega arith)
differ_left zero (suc (suc y)) z hx hy hz e = absurd (omega arith)
differ_left (suc zero) (suc (suc y)) z hx hy hz e = absurd (omega arith)

pub differ_right : (x y z : ℕ) → x < 2 → y < 2 → z < 2 → differ x y ≡ differ x z → y ≡ z
differ_right zero y z hx hy hz e = e
differ_right (suc zero) zero zero hx hy hz e = refl
differ_right (suc zero) zero (suc z) hx hy hz e = absurd (omega (arith, e, differ_same z))
differ_right (suc zero) (suc y) zero hx hy hz e = absurd (omega (arith, e, differ_same y))
differ_right (suc zero) (suc y) (suc z) hx hy hz e =
    ap suc (omega (arith, e, differ_same y, differ_same z))
differ_right (suc (suc x)) y z hx hy hz e = absurd (omega arith)

bit_and_nothing : (f a : ℕ) → a ≤ f → bit_and a 0 ≡ 0
bit_and_nothing f zero h = refl
bit_and_nothing zero (suc a) h = absurd (omega arith)
bit_and_nothing (suc f) (suc a) h =
    omega (arith, bit_and_digit (suc a) 0, bit_and_nothing f (suc a / 2) (omega arith))

pub bit_and-zero : (a : ℕ) → bit_and a 0 ≡ 0
bit_and-zero a = bit_and_nothing a a (le_refl a)

bit_or_nothing : (f a : ℕ) → a ≤ f → bit_or a 0 ≡ a
bit_or_nothing f zero h = refl
bit_or_nothing zero (suc a) h = absurd (omega arith)
bit_or_nothing (suc f) (suc a) h =
    omega (arith, bit_or_digit (suc a) 0, bit_or_nothing f (suc a / 2) (omega arith))

pub bit_or-zero : (a : ℕ) → bit_or a 0 ≡ a
bit_or-zero a = bit_or_nothing a a (le_refl a)

pub zero-bit_or : (b : ℕ) → bit_or 0 b ≡ b
zero-bit_or b = bit_or-bitwise 0 b

double : (q k : ℕ) → q * 2 ^ suc k ≡ 2 * (q * 2 ^ k)
double q k = omega (arith, ap (λ (t : ℕ). q * t) (pow-suc 2 k))

-- A number is written `q * 2 ^ k + r`, its part above bit `k` and its part below.
pub bit_and_ones : (k q r : ℕ) → r < 2 ^ k → bit_and (q * 2 ^ k + r) (2 ^ k - 1) ≡ r
bit_and_ones zero q r h = rw bit_and-zero (omega arith)
bit_and_ones (suc k) q r h = ground (
  arith,
  double q k,
  pow-suc 2 k,
  bit_and_digit (q * 2 ^ suc k + r) (2 ^ suc k - 1),
  bit_and_ones k q (r / 2) (omega (arith, pow-suc 2 k)),
)

-- A mask whose low `k` bits are clear sees the part above alone.
pub bit_and_above :
    (k q r m : ℕ) → r < 2 ^ k → bit_and (q * 2 ^ k + r) (m * 2 ^ k) ≡ bit_and q m * 2 ^ k
bit_and_above zero q r m h = ground arith
bit_and_above (suc k) q r m h = ground (
  arith,
  double q k,
  double m k,
  double (bit_and q m) k,
  pow-suc 2 k,
  bit_and_digit (q * 2 ^ suc k + r) (m * 2 ^ suc k),
  bit_and_above k q (r / 2) m (omega (arith, pow-suc 2 k)),
)

-- Or-ing bits in above bit `k` leaves the part below alone.
pub bit_or_above :
    (k q r m : ℕ) → r < 2 ^ k → bit_or (q * 2 ^ k + r) (m * 2 ^ k) ≡ bit_or q m * 2 ^ k + r
bit_or_above zero q r m h = ground arith
bit_or_above (suc k) q r m h = ground (
  arith,
  double q k,
  double m k,
  double (bit_or q m) k,
  pow-suc 2 k,
  bit_or_digit (q * 2 ^ suc k + r) (m * 2 ^ suc k),
  bit_or_above k q (r / 2) m (omega (arith, pow-suc 2 k)),
)

-- Words with no bit in common are or-ed by adding them.
pub bit_or_disjoint : (k q r : ℕ) → r < 2 ^ k → bit_or (q * 2 ^ k) r ≡ q * 2 ^ k + r
bit_or_disjoint zero q r h = ground (arith, bit_or-zero q)
bit_or_disjoint (suc k) q r h = ground (
  arith,
  double q k,
  pow-suc 2 k,
  bit_or_digit (q * 2 ^ suc k) r,
  bit_or_disjoint k q (r / 2) (omega (arith, pow-suc 2 k)),
)

-- The same at a word that is not yet taken apart.
pub bit_and_low : (k a : ℕ) → bit_and a (2 ^ k - 1) ≡ a % 2 ^ k
bit_and_low k a =
    ground (arith, div-add-mod' a (2 ^ k), one-le-pow k 2, bit_and_ones k (a / 2 ^ k) (a % 2 ^ k))

pub bit_and_high : (k a m : ℕ) → bit_and a (m * 2 ^ k) ≡ bit_and (a / 2 ^ k) m * 2 ^ k
bit_and_high k a m =
    ground
      (arith, div-add-mod' a (2 ^ k), one-le-pow k 2, bit_and_above k (a / 2 ^ k) (a % 2 ^ k) m)

pub bit_or_high : (k a m : ℕ) → bit_or a (m * 2 ^ k) ≡ bit_or (a / 2 ^ k) m * 2 ^ k + a % 2 ^ k
bit_or_high k a m =
    ground (arith, div-add-mod' a (2 ^ k), one-le-pow k 2, bit_or_above k (a / 2 ^ k) (a % 2 ^ k) m)
