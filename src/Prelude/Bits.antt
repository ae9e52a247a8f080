-- ===== src/Prelude/Bits.antt =====
-- The binary digits of a number, and what `&`, `|`, `<<` and `2 ^ k` do to them.
use Prim.Native.Nat.{
  ℕ, zero, suc, ◌+◌, ◌-◌, ◌*◌, ◌/◌, ◌%◌, ◌^◌, ◌≤◌, ◌<◌, min, max, bit_and, bit_or, digits,
  bit_and-bitwise, bit_or-bitwise,
}
use mathlib.Core.Path.{◌≡◌, refl, ap, ◌∙◌}
use mathlib.Core.Logic.{◌≢◌}
use native.Mathlib.Nat.{pow-suc, one-le-pow}
use native.Mathlib.Omega.{arith}

-- The digit of weight 2 ^ k, zero or one.
unfoldable pub bit : ℕ → ℕ → ℕ
bit a zero = a % 2
bit a (suc k) = bit (a / 2) k

pub bit-le-one : (a k : ℕ) → bit a k ≤ 1
unfolding bit
bit-le-one a zero = omega arith
bit-le-one a (suc k) = bit-le-one (a / 2) k

-- `digits` with two amounts of fuel that both reach the end of its first number.
module _ (rest : ℕ → ℕ) (digit : ℕ → ℕ → ℕ) where
  same_digits : (f g a b : ℕ) → a ≤ f → a ≤ g → digits rest digit f a b ≡ digits rest digit g a b
  same_digits f g zero b p q = both f g
    where
      both : (f g : ℕ) → digits rest digit f zero b ≡ digits rest digit g zero b
      both zero zero = refl
      both zero (suc g) = refl
      both (suc f) zero = refl
      both (suc f) (suc g) = refl
  same_digits zero g (suc a) b p q = absurd (omega arith)
  same_digits (suc f) zero (suc a) b p q = absurd (omega arith)
  same_digits (suc f) (suc g) (suc a) b p q =
      ap (λ (t : ℕ). t * 2 + digit (suc a % 2) (b % 2))
        (same_digits f g (suc a / 2) (b / 2) (omega arith) (omega arith))

and_low : (a b : ℕ) → bit_and a b ≡ bit_and (a / 2) (b / 2) * 2 + min (a % 2) (b % 2)
and_low zero b = simp bit_and-bitwise (omega arith)
and_low (suc a) b = simp bit_and-bitwise (
    ap (λ (t : ℕ). t * 2 + min (suc a % 2) (b % 2))
      (same_digits (λ y. 0) min a (suc a / 2) (suc a / 2) (b / 2) (omega arith) (omega arith)))

or_low : (a b : ℕ) → bit_or a b ≡ bit_or (a / 2) (b / 2) * 2 + max (a % 2) (b % 2)
or_low zero b = simp bit_or-bitwise (omega arith)
or_low (suc a) b = simp bit_or-bitwise (
    ap (λ (t : ℕ). t * 2 + max (suc a % 2) (b % 2))
      (same_digits (λ y. y) max a (suc a / 2) (suc a / 2) (b / 2) (omega arith) (omega arith)))

bit_and_half : (a b : ℕ) → bit_and a b / 2 ≡ bit_and (a / 2) (b / 2)
bit_and_half a b = omega (arith, and_low a b)

bit_or_half : (a b : ℕ) → bit_or a b / 2 ≡ bit_or (a / 2) (b / 2)
bit_or_half a b = omega (arith, or_low a b)

pub bit-bit_and : (a b k : ℕ) → bit (bit_and a b) k ≡ min (bit a k) (bit b k)
unfolding bit
bit-bit_and a b zero = omega (arith, and_low a b)
bit-bit_and a b (suc k) = rw (bit_and_half a b) (bit-bit_and (a / 2) (b / 2) k)

pub bit-bit_or : (a b k : ℕ) → bit (bit_or a b) k ≡ max (bit a k) (bit b k)
unfolding bit
bit-bit_or a b zero = omega (arith, or_low a b)
bit-bit_or a b (suc k) = rw (bit_or_half a b) (bit-bit_or (a / 2) (b / 2) k)

pub bit-zero : (k : ℕ) → bit 0 k ≡ 0
unfolding bit
bit-zero zero = refl
bit-zero (suc k) = bit-zero k

pub bit-shift_low : (a s k : ℕ) → k < s → bit (a * 2 ^ s) k ≡ 0
unfolding bit
bit-shift_low a zero k h = elim h [ ]
bit-shift_low a (suc s) zero h = omega (arith, ap (λ (t : ℕ). a * t) (pow-suc 2 s))
bit-shift_low a (suc s) (suc k) h =
    let half : a * 2 ^ suc s / 2 ≡ a * 2 ^ s = omega (arith, ap (λ (t : ℕ). a * t) (pow-suc 2 s)) in
    rw half (bit-shift_low a s k (omega arith))

pub bit-shift : (a s k : ℕ) → bit (a * 2 ^ s) (s + k) ≡ bit a k
unfolding bit
bit-shift a zero k = ground arith
bit-shift a (suc s) k =
    let half : a * 2 ^ suc s / 2 ≡ a * 2 ^ s = omega (arith, ap (λ (t : ℕ). a * t) (pow-suc 2 s)) in
    let index : suc s + k ≡ suc (s + k) = omega arith in
    ap (bit (a * 2 ^ suc s)) index ∙ ap (λ (t : ℕ). bit t (s + k)) half ∙ bit-shift a s k

pub bit-one : (k : ℕ) → bit 1 (suc k) ≡ 0
unfolding bit
bit-one k = bit-zero k

pub bit-pow_self : (k : ℕ) → bit (2 ^ k) k ≡ 1
unfolding bit
bit-pow_self zero = refl
bit-pow_self (suc k) =
    let half : 2 ^ suc k / 2 ≡ 2 ^ k = omega (arith, pow-suc 2 k) in rw half (bit-pow_self k)

pub bit-pow_ne : (j k : ℕ) → j ≢ k → bit (2 ^ j) k ≡ 0
unfolding bit
bit-pow_ne zero zero h = absurd (h refl)
bit-pow_ne zero (suc k) h = bit-zero k
bit-pow_ne (suc j) zero h = omega (arith, pow-suc 2 j)
bit-pow_ne (suc j) (suc k) h =
    let half : 2 ^ suc j / 2 ≡ 2 ^ j = omega (arith, pow-suc 2 j) in
    rw half (bit-pow_ne j k (λ e. h (ap suc e)))

-- A mask of `w` ones.
pub bit-mask_low : (w k : ℕ) → k < w → bit (2 ^ w - 1) k ≡ 1
unfolding bit
bit-mask_low zero k h = elim h [ ]
bit-mask_low (suc w) zero h = omega (arith, pow-suc 2 w, one-le-pow w 2)
bit-mask_low (suc w) (suc k) h =
    let half : (2 ^ suc w - 1) / 2 ≡ 2 ^ w - 1 = omega (arith, pow-suc 2 w, one-le-pow w 2) in
    rw half (bit-mask_low w k (omega arith))

pub bit-mask_high : (w k : ℕ) → w ≤ k → bit (2 ^ w - 1) k ≡ 0
unfolding bit
bit-mask_high zero k h = bit-zero k
bit-mask_high (suc w) zero h = absurd (omega arith)
bit-mask_high (suc w) (suc k) h =
    let half : (2 ^ suc w - 1) / 2 ≡ 2 ^ w - 1 = omega (arith, pow-suc 2 w, one-le-pow w 2) in
    rw half (bit-mask_high w k (omega arith))

and-zero_right : (n a : ℕ) → a ≤ n → bit_and a 0 ≡ 0
and-zero_right n zero h = refl
and-zero_right zero (suc a) h = absurd (omega arith)
and-zero_right (suc n) (suc a) h =
    omega (arith, and_low (suc a) 0, and-zero_right n (suc a / 2) (omega arith))

-- The test of one digit, `a & (1 << k)`.
pub bit_and-pow : (a k : ℕ) → bit_and a (2 ^ k) ≡ bit a k * 2 ^ k
unfolding bit
bit_and-pow a zero = omega (arith, and_low a 1, and-zero_right (a / 2) (a / 2) (omega arith))
bit_and-pow a (suc k) =
    let half : 2 ^ suc k / 2 ≡ 2 ^ k = omega (arith, pow-suc 2 k) in
    omega (
      arith,
      and_low a (2 ^ suc k),
      ap (λ (t : ℕ). bit_and (a / 2) t) half,
      bit_and-pow (a / 2) k,
      pow-suc 2 k,
      ap (λ (t : ℕ). bit (a / 2) k * t) (pow-suc 2 k),
    )

-- A mask of `k` ones keeps the low digits.
mask_step : (a k : ℕ) → bit_and a (2 ^ suc k - 1) ≡ bit_and (a / 2) (2 ^ k - 1) * 2 + a % 2
mask_step a k =
    let half : (2 ^ suc k - 1) / 2 ≡ 2 ^ k - 1 = omega (arith, pow-suc 2 k, one-le-pow k 2) in
    omega (
      arith,
      and_low a (2 ^ suc k - 1),
      ap (λ (t : ℕ). bit_and (a / 2) t) half,
      pow-suc 2 k,
      one-le-pow k 2,
    )

pub bit_and-mask_lt : (a k : ℕ) → bit_and a (2 ^ k - 1) < 2 ^ k
bit_and-mask_lt a zero = omega (arith, and-zero_right a a (omega arith))
bit_and-mask_lt a (suc k) = omega (arith, mask_step a k, bit_and-mask_lt (a / 2) k, pow-suc 2 k)

-- Numbers with the same low digits agree in fewer of them.
pub bit_and-mask_shorter :
    (a b k : ℕ)
    → bit_and a (2 ^ suc k - 1) ≡ bit_and b (2 ^ suc k - 1)
    → bit_and a (2 ^ k - 1) ≡ bit_and b (2 ^ k - 1)
bit_and-mask_shorter a b zero h =
    omega (arith, and-zero_right a a (omega arith), and-zero_right b b (omega arith))
bit_and-mask_shorter a b (suc k) h =
    let halves : bit_and (a / 2) (2 ^ suc k - 1) ≡ bit_and (b / 2) (2 ^ suc k - 1) =
      omega (arith, h, mask_step a (suc k), mask_step b (suc k)) in
    omega (
      arith,
      h,
      mask_step a (suc k),
      mask_step b (suc k),
      mask_step a k,
      mask_step b k,
      bit_and-mask_shorter (a / 2) (b / 2) k halves,
    )
