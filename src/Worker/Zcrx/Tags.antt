-- ===== src/Worker/Zcrx/Tags.antt =====
-- src/worker.cpp: the user data of a zero-copy receive holds the address of its connection.
use uring_perf.Base.{ℕ, ◌+◌, ◌-◌, ◌*◌, ◌/◌, ◌%◌, ◌^◌, ◌<◌, ◌≡◌, ap, ◌∙◌, bit_or, arith}
use uring_perf.Base.Masks.{bit_and-mask, bit_and-halves}
use uring_perf.Base.Bits.{bit_or-halves, bit_or-none}
use uring_perf.Worker.Zcrx.{tag_of, pointer_of, rx_data}

-- An address of an object, as the allocator aligns it.
abbrev pub IsAddress : ℕ → Type 0
IsAddress p = (p % 8 ≡ 0) × (p < 2 ^ 64)

rx_data-sum : (p : ℕ) → IsAddress p → rx_data p ≡ p + 2
rx_data-sum p (aligned, small) =
    let low : bit_or p 2 ≡ bit_or (p / 2) 1 * 2 + p % 2 = omega (arith, bit_or-halves p 2) in
    let high : bit_or (p / 2) 1 ≡ bit_or (p / 2 / 2) 0 * 2 + 1 =
      omega (arith, bit_or-halves (p / 2) 1) in
    omega (arith, low, high, bit_or-none (p / 2 / 2))

pub tag_of-rx_data : (p : ℕ) → IsAddress p → tag_of (rx_data p) ≡ 2
tag_of-rx_data p a = omega (arith, bit_and-mask 3 (rx_data p), rx_data-sum p a, a.0)

pub pointer_of-rx_data : (p : ℕ) → IsAddress p → pointer_of (rx_data p) ≡ p
pointer_of-rx_data p a = ap pointer_of (rx_data-sum p a) ∙ cleared
  where
    cleared : pointer_of (p + 2) ≡ p
    cleared = omega (
      arith,
      a.0,
      a.1,
      bit_and-halves (p + 2) (2 ^ 64 - 8),
      bit_and-halves ((p + 2) / 2) (2 ^ 63 - 4),
      bit_and-halves ((p + 2) / 2 / 2) (2 ^ 62 - 2),
      bit_and-mask 61 ((p + 2) / 2 / 2 / 2),
    )
