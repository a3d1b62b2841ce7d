-- ===== src/Base/Bits.antt =====
-- Bitwise or and and on words, whose laws the libraries leave open at variables.
use Prim.Native.Nat.{
  ℕ, zero, suc, ◌+◌, ◌*◌, ◌/◌, ◌%◌, ◌^◌, ◌≤◌, ◌<◌, max, bit_or, digits, bit_or-bitwise,
}
use mathlib.Core.Path.{◌≡◌, refl, ◌∙◌, sym, ap}
use mathlib.Core.Bool.{Bool, true, ◌&&◌}
use native.Mathlib.Nat.{pow-suc}
use native.Mathlib.Omega.{arith}

abbrev or_digits : ℕ → ℕ → ℕ → ℕ
or_digits = digits (λ y. y) max

or_digits-zero : (f y : ℕ) → or_digits f 0 y ≡ y
or_digits-zero zero y = refl
or_digits-zero (suc f) y = refl

-- Enough fuel for the first operand is enough.
or_digits_stable : (f g x y : ℕ) → x ≤ f → x ≤ g → or_digits f x y ≡ or_digits g x y
or_digits_stable (suc f) (suc g) (suc x) y p q =
    omega (arith, or_digits_stable f g (suc x / 2) (y / 2) (omega arith) (omega arith))
or_digits_stable zero g (suc x) y p q = absurd (omega arith)
or_digits_stable (suc f) zero (suc x) y p q = absurd (omega arith)
or_digits_stable f g zero y p q = or_digits-zero f y ∙ sym (or_digits-zero g y)

zero-bit_or : (y : ℕ) → bit_or 0 y ≡ y
zero-bit_or y = bit_or-bitwise 0 y

-- The lowest digit, and the others.
pub bit_or_step : (x y : ℕ) → bit_or x y ≡ bit_or (x / 2) (y / 2) * 2 + max (x % 2) (y % 2)
bit_or_step zero y = omega (arith, zero-bit_or y, zero-bit_or (y / 2))
bit_or_step (suc x) y = omega (
  arith,
  bit_or-bitwise (suc x) y,
  bit_or-bitwise (suc x / 2) (y / 2),
  or_digits_stable x (suc x / 2) (suc x / 2) (y / 2) (omega arith) (omega arith),
)

bit_or-zero_below : (f x : ℕ) → x ≤ f → bit_or x 0 ≡ x
bit_or-zero_below f zero h = zero-bit_or 0
bit_or-zero_below zero (suc x) h = absurd (omega arith)
bit_or-zero_below (suc f) (suc x) h =
    omega (arith, bit_or_step (suc x) 0, bit_or-zero_below f (suc x / 2) (omega arith))

pub bit_or-zero : (x : ℕ) → bit_or x 0 ≡ x
bit_or-zero x = bit_or-zero_below x x (omega arith)

-- Setting the low bit of a word.
pub bit_or-one : (x : ℕ) → bit_or x 1 ≡ x / 2 * 2 + 1
bit_or-one x = omega (arith, bit_or_step x 1, bit_or-zero (x / 2))

-- One digit: an even word joined with a word below twice the bound.
bit_or_even : (m y : ℕ) → bit_or (m * 2) y ≡ bit_or m (y / 2) * 2 + y % 2
bit_or_even m y = bit_or_step (m * 2) y ∙ omega (arith, ap (λ k. bit_or k (y / 2)) halved)
  where
    halved : m * 2 / 2 ≡ m
    halved = omega arith

-- A word whose low bits are clear, joined with a word that has only low bits, is their sum.
pub bit_or_low : (k n y : ℕ) → y < 2 ^ k → bit_or (n * 2 ^ k) y ≡ n * 2 ^ k + y
bit_or_low zero n zero h = bit_or-zero (n * 1) ∙ omega arith
bit_or_low zero n (suc y) h = absurd (omega arith)
bit_or_low (suc k) n y h =
    ap (λ t. bit_or t y) (doubled k)
    ∙ bit_or_even (n * 2 ^ k) y
    ∙ omega (arith, bit_or_low k n (y / 2) half, doubled k)
  where
    doubled : (j : ℕ) → n * 2 ^ suc j ≡ n * 2 ^ j * 2
    doubled j = omega (arith, ap (λ t. n * t) (pow-suc 2 j))

    half : y / 2 < 2 ^ k
    half = omega (arith, pow-suc 2 k)

-- A test of the numbers below a bound, for tables that are checked by running them.
unfoldable pub passes_below : (ℕ → Bool) → ℕ → Bool
passes_below test zero = true
passes_below test (suc top) = passes_below test top && test top

pub passes_below_lem :
    (test : ℕ → Bool) (top x : ℕ) → x < top → passes_below test top ≡ true → test x ≡ true
unfolding passes_below
passes_below_lem test zero x below passed = absurd (omega arith)
passes_below_lem test (suc top) x below passed = ground (arith, passes_below_lem test top x)
