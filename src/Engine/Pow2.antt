-- ===== src/Engine/Pow2.antt =====
-- src/uring_engine.cpp: `next_pow2`, on `uint32_t`.
use native.Mathlib.Decide.{dec_lt}
use native.Mathlib.Nat.{pow-succ', pow-le-pow_right}
use uring_perf.Base.Bits.{
  bit, bit-bit_or, bit-shift, bit_or-lt, bit-le_one, all_ones, bit_top, IsLength, IsLength-exists,
}
use uring_perf.Base.{
  ◌≤◌, ◌<◌, arith, ◌⊎◌, inl, inr, ℕ, ◌+◌, ◌-◌, ◌/◌, ◌*◌, ◌^◌, ◌≡◌, refl, bit_or, u32, ◌==◌,
  if◌then◌else◌,
}

-- v |= v >> k
unfoldable pub smear : ℕ → ℕ → ℕ
smear k v = bit_or v (v / 2 ^ k)

unfoldable pub next_pow2 : ℕ → ℕ
next_pow2 v =
    if v == 0 then 1 else u32 (smear 16 (smear 8 (smear 4 (smear 2 (smear 1 (v - 1))))) + 1)

-- Below 2 ^ n, and the top j of the n digits are ones.
record TopOnes (n j v : ℕ) : Type 0 where
  below : v < 2 ^ n
  ones : (i : ℕ) → i < n → n ≤ i + j → bit v i ≡ 1

smear-TopOnes : (n j v : ℕ) → TopOnes n j v → TopOnes n (j + j) (smear j v)
unfolding smear
smear-TopOnes n j v t = record {
  below = bit_or-lt n v (v / 2 ^ j) t.below (omega (arith, t.below));
  ones = λ i l h. omega (
    arith,
    bit-bit_or i v (v / 2 ^ j),
    bit-shift j v i,
    bit-le_one i v,
    bit-le_one (j + i) v,
    one_of i l h,
  );
}
  where
    one_of : (i : ℕ) → i < n → n ≤ i + (j + j) → (bit v i ≡ 1) ⊎ (bit v (j + i) ≡ 1)
    one_of i l h = elim (dec_lt (i + j) n) [
      | yes p ↦ inr (t.ones (j + i) (omega arith) (omega arith))
      | no p ↦ inl (t.ones i l (omega arith))
    ]

abbrev smeared : ℕ → ℕ
smeared x = smear 16 (smear 8 (smear 4 (smear 2 (smear 1 x))))

smeared-add_one : (n x : ℕ) → n ≤ 32 → TopOnes n 1 x → smeared x + 1 ≡ 2 ^ n
smeared-add_one n x h t = all_ones n (smeared x) final.below (λ i l. final.ones i l (omega arith))
  where
    final : TopOnes n 32 (smeared x)
    final =
        smear-TopOnes n 16 _
          (smear-TopOnes n 8 _ (smear-TopOnes n 4 _ (smear-TopOnes n 2 _ (smear-TopOnes n 1 x t))))

TopOnes-of_IsLength : (x n : ℕ) → IsLength x n → TopOnes n 1 x
TopOnes-of_IsLength x n (inl (e, z)) = record {
  below = rw (e, z) (omega arith);
  ones = λ i l h. absurd (omega arith);
}
TopOnes-of_IsLength x n (inr (m, e, lo, hi)) = record {
  below = rw e hi;
  ones = λ i l h. let i' : i ≡ m = omega arith in rw i' (bit_top m x lo hi);
}

length_bounds : (v n : ℕ) → 1 ≤ v → IsLength (v - 1) n → (v ≤ 2 ^ n) × (2 ^ n < 2 * v)
length_bounds v n lo (inl (e, z)) = rw z (omega arith, omega arith)
length_bounds v n lo (inr (m, e, p, q)) = rw e (omega arith, omega (arith, pow-succ' 2 m))

no_wrap : (v n : ℕ) → n ≤ 31 → IsLength (v - 1) n → u32 (smeared (v - 1) + 1) ≡ 2 ^ n
no_wrap v n l e = omega (
  arith,
  smeared-add_one n (v - 1) (omega arith) (TopOnes-of_IsLength (v - 1) n e),
  pow-le-pow_right {n = 2} (omega arith) l,
)

-- For v from 1 to 2 ^ 31 the result is the least power of two that is not below v, without overflow.
pub next_pow2_least :
    (v : ℕ)
    → 1 ≤ v
    → v ≤ 2 ^ 31
    → (n : ℕ) × (n ≤ 31) × (next_pow2 v ≡ 2 ^ n) × (v ≤ 2 ^ n) × (2 ^ n < 2 * v)
unfolding next_pow2
next_pow2_least v lo hi =
    let (n, l, e) = IsLength-exists 31 (v - 1) (omega arith) in
    let (above, near) = length_bounds v n lo e in
    (n, l, ground (arith, no_wrap v n l e), above, near)

-- Above 2 ^ 31 the power of two does not fit the word, and the result wraps around to 0.
next_pow2_wraps : (v : ℕ) → 2 ^ 31 < v → v < 2 ^ 32 → next_pow2 v ≡ 0
unfolding next_pow2
next_pow2_wraps v lo hi = ground (
  arith,
  smeared-add_one 32 (v - 1) (omega arith)
      (TopOnes-of_IsLength (v - 1) 32 (inr (31, refl, omega arith, omega arith))),
)

next_pow2_runs : (next_pow2 32 ≡ 32) × (next_pow2 33 ≡ 64) × (next_pow2 1 ≡ 1)
unfolding next_pow2 smear
next_pow2_runs = (refl, refl, refl)
