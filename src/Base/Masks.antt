-- ===== src/Base/Masks.antt =====
-- `bit_and` with a mask of ones.
use Prim.Native.Nat.{
  ℕ, zero, suc, ◌+◌, ◌-◌, ◌*◌, ◌/◌, ◌%◌, ◌^◌, ◌≤◌, ◌<◌, min, digits, bit_and, bit_and-bitwise,
}
use mathlib.Core.Path.{◌≡◌, refl, ap, ap₂, ◌∙◌, sym}
use native.Mathlib.Nat.{
  pow-succ', pow-le-pow_right, mod-lt, mod-eq_of_lt, mod-add-div, add-mul-mod_self_left, mul_assoc,
}
use native.Mathlib.Omega.{arith}

abbrev and_digits : ℕ → ℕ → ℕ → ℕ
and_digits = digits (λ b. zero) min

-- The count of digits to go may be any bound of the first number.
and_digits_bound : (a b m n : ℕ) → a ≤ m → a ≤ n → and_digits m a b ≡ and_digits n a b
and_digits_bound zero b zero zero p q = refl
and_digits_bound zero b zero (suc n) p q = refl
and_digits_bound zero b (suc m) zero p q = refl
and_digits_bound zero b (suc m) (suc n) p q = refl
and_digits_bound (suc a) b zero n p q = absurd (omega arith)
and_digits_bound (suc a) b (suc m) zero p q = absurd (omega arith)
and_digits_bound (suc a) b (suc m) (suc n) p q =
    ap (λ (t : ℕ). t * 2 + min (suc a % 2) (b % 2))
      (and_digits_bound (suc a / 2) (b / 2) m n (omega arith) (omega arith))

pub bit_and-halves : (a b : ℕ) → bit_and a b ≡ bit_and (a / 2) (b / 2) * 2 + min (a % 2) (b % 2)
bit_and-halves zero b = omega (arith, bit_and-bitwise 0 b, bit_and-bitwise 0 (b / 2))
bit_and-halves (suc a) b = omega (
  arith,
  bit_and-bitwise (suc a) b,
  bit_and-bitwise (suc a / 2) (b / 2),
  and_digits_bound (suc a / 2) (b / 2) a (suc a / 2) (omega arith) (omega arith),
)

bit_and-none : (n a : ℕ) → a ≤ n → bit_and a 0 ≡ 0
bit_and-none n zero h = omega (arith, bit_and-bitwise 0 0)
bit_and-none zero (suc a) h = absurd (omega arith)
bit_and-none (suc n) (suc a) h =
    omega (arith, bit_and-halves (suc a) 0, bit_and-none n (suc a / 2) (omega arith))

pub pow_positive : (k : ℕ) → 1 ≤ 2 ^ k
pow_positive k = pow-le-pow_right {n = 2} (omega arith) {i = 0} {j = k} (omega arith)

half_mask : (k : ℕ) → ((2 ^ suc k - 1) / 2 ≡ 2 ^ k - 1) × ((2 ^ suc k - 1) % 2 ≡ 1)
half_mask k = omega (arith, pow-succ' 2 k, pow_positive k)

-- The lowest digit of a remainder, and the others.
mod_double : (m x : ℕ) → 1 ≤ m → x % (2 * m) ≡ x / 2 % m * 2 + x % 2
mod_double m x h =
    let lt : x / 2 % m < m = mod-lt (x / 2) h in
    ap (λ t. t % (2 * m)) split
    ∙ add-mul-mod_self_left (x / 2 % m * 2 + x % 2) (2 * m) (x / 2 / m)
    ∙ mod-eq_of_lt (omega arith)
  where
    split : x ≡ x / 2 % m * 2 + x % 2 + 2 * m * (x / 2 / m)
    split = omega (arith, mod-add-div (x / 2) m, mul_assoc 2 m (x / 2 / m))

pub bit_and-mask : (k x : ℕ) → bit_and x (2 ^ k - 1) ≡ x % 2 ^ k
bit_and-mask zero x = omega (arith, bit_and-none x x (omega arith))
bit_and-mask (suc k) x =
    bit_and-halves x (2 ^ suc k - 1)
    ∙ ap₂ (λ a b. bit_and (x / 2) a * 2 + min (x % 2) b) (half_mask k).0 (half_mask k).1
    ∙ ap (λ t. t * 2 + min (x % 2) 1) (bit_and-mask k (x / 2))
    ∙ omega arith
    ∙ sym (mod_double (2 ^ k) x (pow_positive k))
    ∙ ap (λ m. x % m) (sym (pow-succ' 2 k))
