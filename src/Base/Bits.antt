-- ===== src/Base/Bits.antt =====
-- `bit_or` digit by digit: the binary digits of a number, and numbers whose digits are all ones.
use Prim.Native.Nat.{
  ℕ, zero, suc, ◌+◌, ◌*◌, ◌/◌, ◌%◌, ◌^◌, ◌≤◌, ◌<◌, max, digits, bit_or, bit_or-bitwise,
}
use mathlib.Core.Path.{◌≡◌, refl, ap, ap₂, ◌∙◌, sym}
use native.Mathlib.Nat.{pow-succ', div-div-eq-div-mul, suc-add}
use mathlib.Core.Logic.{◌⊎◌, inl, inr}
use native.Mathlib.Decide.{dec_lt}
use native.Mathlib.Omega.{arith}

abbrev or_digits : ℕ → ℕ → ℕ → ℕ
or_digits = digits (λ b. b) max

-- The count of digits to go may be any bound of the first number.
or_digits_bound : (a b m n : ℕ) → a ≤ m → a ≤ n → or_digits m a b ≡ or_digits n a b
or_digits_bound zero b zero zero p q = refl
or_digits_bound zero b zero (suc n) p q = refl
or_digits_bound zero b (suc m) zero p q = refl
or_digits_bound zero b (suc m) (suc n) p q = refl
or_digits_bound (suc a) b zero n p q = absurd (omega arith)
or_digits_bound (suc a) b (suc m) zero p q = absurd (omega arith)
or_digits_bound (suc a) b (suc m) (suc n) p q =
    ap (λ (t : ℕ). t * 2 + max (suc a % 2) (b % 2))
      (or_digits_bound (suc a / 2) (b / 2) m n (omega arith) (omega arith))

pub bit_or-halves : (a b : ℕ) → bit_or a b ≡ bit_or (a / 2) (b / 2) * 2 + max (a % 2) (b % 2)
bit_or-halves zero b = omega (arith, bit_or-bitwise 0 b, bit_or-bitwise 0 (b / 2))
bit_or-halves (suc a) b = omega (
  arith,
  bit_or-bitwise (suc a) b,
  bit_or-bitwise (suc a / 2) (b / 2),
  or_digits_bound (suc a / 2) (b / 2) a (suc a / 2) (omega arith) (omega arith),
)

bit_or-none_upto : (n a : ℕ) → a ≤ n → bit_or a 0 ≡ a
bit_or-none_upto n zero h = omega (arith, bit_or-bitwise 0 0)
bit_or-none_upto zero (suc a) h = absurd (omega arith)
bit_or-none_upto (suc n) (suc a) h =
    omega (arith, bit_or-halves (suc a) 0, bit_or-none_upto n (suc a / 2) (omega arith))

pub bit_or-none : (a : ℕ) → bit_or a 0 ≡ a
bit_or-none a = bit_or-none_upto a a (omega arith)

half-bit_or : (a b : ℕ) → bit_or a b / 2 ≡ bit_or (a / 2) (b / 2)
half-bit_or a b = omega (arith, bit_or-halves a b)

-- The i-th binary digit.
abbrev pub bit : ℕ → ℕ → ℕ
bit a zero = a % 2
bit a (suc i) = bit (a / 2) i

pub bit_small : (i a : ℕ) → bit a i ≤ 1
bit_small zero a = omega arith
bit_small (suc i) a = bit_small i (a / 2)

pub bit-bit_or : (i a b : ℕ) → bit (bit_or a b) i ≡ max (bit a i) (bit b i)
bit-bit_or zero a b = omega (arith, bit_or-halves a b)
bit-bit_or (suc i) a b = ap (λ x. bit x i) (half-bit_or a b) ∙ bit-bit_or i (a / 2) (b / 2)

half-pow : (a k : ℕ) → a / 2 ^ suc k ≡ a / 2 / 2 ^ k
half-pow a k = ap (λ m. a / m) (pow-succ' 2 k) ∙ sym (div-div-eq-div-mul a 2 (2 ^ k))

pub bit-shift : (k a i : ℕ) → bit (a / 2 ^ k) i ≡ bit a (k + i)
bit-shift zero a i =
    let p : a / 2 ^ 0 ≡ a = omega arith in let q : i ≡ 0 + i = omega arith in ap₂ bit p q
bit-shift (suc k) a i =
    ap (λ x. bit x i) (half-pow a k) ∙ bit-shift k (a / 2) i ∙ ap (bit a) (sym (suc-add k i))

below_one : (a : ℕ) → a < 1 → a ≡ 0
below_one a h = omega arith

pub bit_or-lt : (n a b : ℕ) → a < 2 ^ n → b < 2 ^ n → bit_or a b < 2 ^ n
bit_or-lt zero a b p q = omega (arith, ap₂ bit_or (below_one a p) (below_one b q))
bit_or-lt (suc n) a b p q =
    omega (arith, pow-succ' 2 n, bit_or-halves a b, bit_or-lt n (a / 2) (b / 2))

-- A number of n digits that are all ones.
pub all_ones : (n w : ℕ) → w < 2 ^ n → ((i : ℕ) → i < n → bit w i ≡ 1) → w + 1 ≡ 2 ^ n
all_ones zero w h ones = omega arith
all_ones (suc n) w h ones = omega (
  arith,
  pow-succ' 2 n,
  ones 0 (omega arith),
  all_ones n (w / 2) (omega (arith, pow-succ' 2 n)) (λ i l. ones (suc i) (omega arith)),
)

pub bit_top : (m x : ℕ) → 2 ^ m ≤ x → x < 2 ^ suc m → bit x m ≡ 1
bit_top zero x p q = omega arith
bit_top (suc m) x p q =
    bit_top m (x / 2) (omega (arith, pow-succ' 2 m))
      (omega (arith, pow-succ' 2 m, pow-succ' 2 (suc m)))

pub bit-le_one : (i a : ℕ) → bit a i ≤ 1
bit-le_one zero a = omega arith
bit-le_one (suc i) a = bit-le_one i (a / 2)

-- The count of binary digits of a number.
abbrev pub IsLength : ℕ → ℕ → Type 0
IsLength x n = ((x ≡ 0) × (n ≡ 0)) ⊎ ((m : ℕ) × (n ≡ suc m) × (2 ^ m ≤ x) × (x < 2 ^ suc m))

pub IsLength-exists : (k x : ℕ) → x < 2 ^ k → (n : ℕ) × (n ≤ k) × IsLength x n
IsLength-exists zero x h = (0, omega arith, inl (omega arith, refl))
IsLength-exists (suc k) x h = elim (dec_lt x (2 ^ k)) [
  | yes below ↦ let (n, l, e) = IsLength-exists k x below in (n, omega arith, e)
  | no above ↦ (suc k, omega arith, inr (k, refl, omega arith, h))
]
