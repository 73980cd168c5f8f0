-- ===== src/Base/Bits.antt =====
-- `|` of two fields that do not overlap and `&` with a mask of low bits, as arithmetic: what the
-- 128-bit halves of src/scval.rs are packed with.
use Prim.Native.Nat.{
  ℕ, zero, suc, ◌+◌, ◌-◌, ◌*◌, ◌/◌, ◌%◌, ◌^◌, ◌≤◌, ◌<◌, min, max, digits, bitwise, bit_and, bit_or,
  bit_and-bitwise, bit_or-bitwise,
}
use mathlib.Core.Path.{◌≡◌, refl, ap}
use native.Mathlib.Nat.{pow-suc, one-le-pow}
use native.Mathlib.Omega.{arith}

-- The native operations stand for a recursion on fuel; any fuel from `a` on gives the same.
module _ (right : ℕ → ℕ) (op : ℕ → ℕ → ℕ) where
  fuel_irrelevant : (a b f g : ℕ) → a ≤ f → a ≤ g → digits right op f a b ≡ digits right op g a b
  fuel_irrelevant zero b zero zero _ _ = refl
  fuel_irrelevant zero b zero (suc g) _ _ = refl
  fuel_irrelevant zero b (suc f) zero _ _ = refl
  fuel_irrelevant zero b (suc f) (suc g) _ _ = refl
  fuel_irrelevant (suc a) b zero g low _ = absurd (omega arith)
  fuel_irrelevant (suc a) b (suc f) zero _ low = absurd (omega arith)
  fuel_irrelevant (suc a) b (suc f) (suc g) low high =
      rw (fuel_irrelevant (suc a / 2) (b / 2) f g (omega arith) (omega arith))

  -- one equation for the lowest digit of `suc a`
  bitwise_low :
      (a b : ℕ)
      → bitwise right op (suc a) b
        ≡ bitwise right op (suc a / 2) (b / 2) * 2 + op (suc a % 2) (b % 2)
  bitwise_low a b =
      ap (λ (d : ℕ). d * 2 + op (suc a % 2) (b % 2))
        (fuel_irrelevant (suc a / 2) (b / 2) a (suc a / 2) (omega arith) (omega arith))

or_low : (a b : ℕ) → bit_or a b ≡ bit_or (a / 2) (b / 2) * 2 + max (a % 2) (b % 2)
or_low zero b = simp bit_or-bitwise (omega arith)
or_low (suc a) b = simp bit_or-bitwise (bitwise_low (λ y. y) max a b)

and_low : (a b : ℕ) → bit_and a b ≡ bit_and (a / 2) (b / 2) * 2 + min (a % 2) (b % 2)
and_low zero b = simp bit_and-bitwise (omega arith)
and_low (suc a) b = simp bit_and-bitwise (bitwise_low (λ y. 0) min a b)

bit_or-zero : (bound a : ℕ) → a ≤ bound → bit_or a 0 ≡ a
bit_or-zero zero a h = ground (arith, or_low 0 0)
bit_or-zero (suc bound) zero h = refl
bit_or-zero (suc bound) (suc a) h =
    omega (arith, or_low (suc a) 0, bit_or-zero bound (suc a / 2) (omega arith))

bit_and-zero : (bound a : ℕ) → a ≤ bound → bit_and a 0 ≡ 0
bit_and-zero zero a h = ground (arith, and_low 0 0)
bit_and-zero (suc bound) zero h = refl
bit_and-zero (suc bound) (suc a) h =
    omega (arith, and_low (suc a) 0, bit_and-zero bound (suc a / 2) (omega arith))

double : (h k : ℕ) → h * 2 ^ suc k ≡ h * 2 ^ k * 2
double h k = omega (arith, ap (λ (t : ℕ). h * t) (pow-suc 2 k))

half_shifted : (h k : ℕ) → h * 2 ^ suc k / 2 ≡ h * 2 ^ k
half_shifted h k = omega (arith, double h k)

-- `(h << k) | l` adds, where `l` has `k` bits.
pub bit_or-shifted : (k h l : ℕ) → l < 2 ^ k → bit_or (h * 2 ^ k) l ≡ h * 2 ^ k + l
bit_or-shifted zero h l fits = ground (arith, bit_or-zero h h)
bit_or-shifted (suc k) h l fits = omega (
  arith,
  or_low (h * 2 ^ suc k) l,
  double h k,
  ap (λ (x : ℕ). bit_or x (l / 2)) (half_shifted h k),
  bit_or-shifted k h (l / 2) (omega (arith, pow-suc 2 k)),
)

halves :
    (k h l : ℕ) → ((h * 2 ^ suc k + l) / 2 ≡ h * 2 ^ k + l / 2) × ((h * 2 ^ suc k + l) % 2 ≡ l % 2)
halves k h l = omega (arith, double h k)

mask_halves : (k : ℕ) → ((2 ^ suc k - 1) / 2 ≡ 2 ^ k - 1) × ((2 ^ suc k - 1) % 2 ≡ 1)
mask_halves k = omega (arith, pow-suc 2 k, one-le-pow k 2)

-- `& (2^k - 1)` keeps the `k` low bits.
pub bit_and-masked : (k h l : ℕ) → l < 2 ^ k → bit_and (h * 2 ^ k + l) (2 ^ k - 1) ≡ l
bit_and-masked zero h l fits = ground (arith, bit_and-zero (h * 1 + l) (h * 1 + l))
bit_and-masked (suc k) h l fits = omega (
  arith,
  and_low (h * 2 ^ suc k + l) (2 ^ suc k - 1),
  halves k h l,
  mask_halves k,
  cong k h l,
  bit_and-masked k h (l / 2) (omega (arith, pow-suc 2 k)),
)
  where
    cong :
        (k h l : ℕ)
        → bit_and ((h * 2 ^ suc k + l) / 2) ((2 ^ suc k - 1) / 2)
          ≡ bit_and (h * 2 ^ k + l / 2) (2 ^ k - 1)
    cong k h l = rw ((halves k h l).0, (mask_halves k).0)
