-- ===== src/Worker/Refill/Pending.antt =====
-- src/worker.cpp: `zcrx_return_buffer` keeps what the kernel has still to read.
use uring_perf.Base.{
  ℕ, zero, suc, ◌+◌, ◌-◌, ◌%◌, ◌^◌, ◌≤◌, ◌<◌, ◌≡◌, refl, ◌≢◌, sym, ap, subst, ◌∙◌, bit_and, ◌==◌, ℤ,
  u32, arith, Bool-cases, ◌⊎◌, inl, inr,
}
use uring_perf.Base.Masks.{bit_and-mask}
use Prim.Native.Nat.{◌∣◌}
use native.Mathlib.Decide.{dec_lt}
use native.Mathlib.Nat.{
  mod-lt, mod-eq_of_lt, mod-add-mod, mod-eq-sub-mod, mod-mod_of_dvd, dvd_refl, dvd-mul_left_of_dvd,
  pow-succ', pow-le-pow_right,
}
use uring_perf.Worker.Refill.{
  RefillQueue, Rqe, zcrx_rq_nr_queued, write, refill, zcrx_return_buffer, pending,
}

-- Two numbers less than m apart have different remainders.
apart : (m r d : ℕ) → r < m → d < m → 1 ≤ d → (r + d) % m ≢ r
apart m r d l k h e = elim (dec_lt (r + d) m) [
  | yes below ↦ omega (arith, mod-eq_of_lt below)
  | no above ↦
      let back : (r + d) % m ≡ (r + d - m) % m = mod-eq-sub-mod (omega arith) in
      omega (arith, back, mod-eq_of_lt {n = r + d - m} {m = m} (omega arith))
]

mod_apart : (m x d : ℕ) → d < m → 1 ≤ d → (x + d) % m ≢ x % m
mod_apart m x d k h e = apart m (x % m) d (mod-lt x (omega arith)) k h (mod-add-mod x m d ∙ e)

pow_dvd : (k n : ℕ) → 2 ^ k ∣ 2 ^ (k + n)
pow_dvd k zero = subst (λ j. 2 ^ k ∣ 2 ^ j) (omega arith) (dvd_refl (2 ^ k))
pow_dvd k (suc n) =
    subst (λ t. 2 ^ k ∣ t) (sym (pow-succ' 2 (k + n)) ∙ ap (λ j. 2 ^ j) (omega arith))
      (dvd-mul_left_of_dvd (2 ^ k) (pow_dvd k n) 2)

-- Wrapping at the word does not move a position in the ring.
slot : (k x : ℕ) → k ≤ 32 → bit_and (u32 x) (2 ^ k - 1) ≡ x % 2 ^ k
slot k x h =
    bit_and-mask k (u32 x)
    ∙ mod-mod_of_dvd (2 ^ k) x
        (subst (λ j. 2 ^ k ∣ 2 ^ j) {y = 32} (omega arith) (pow_dvd k (32 - k)))

-- The slot at the tail is that of the position behind all that is pending, and of no other.
slot_of_tail :
    (k tail khead : ℕ)
    → k ≤ 32
    → tail < 2 ^ 32
    → khead < 2 ^ 32
    → bit_and tail (2 ^ k - 1) ≡ bit_and (u32 (khead + u32 (tail + (2 ^ 32 - khead)))) (2 ^ k - 1)
slot_of_tail k tail khead h l m = ap (λ t. bit_and t (2 ^ k - 1)) (omega arith)

slots_apart :
    (k khead q i : ℕ)
    → k ≤ 32
    → i < q
    → q < 2 ^ k
    → bit_and (u32 (khead + q)) (2 ^ k - 1) ≢ bit_and (u32 (khead + i)) (2 ^ k - 1)
slots_apart k khead q i h l b e =
    mod_apart (2 ^ k) (khead + i) (q - i) (omega arith) (omega arith)
      (ap (λ t. t % 2 ^ k) (omega arith) ∙ sym (slot k (khead + q) h) ∙ e ∙ slot k (khead + i) h)

queued_after :
    (tail khead : ℕ)
    → tail < 2 ^ 32
    → khead < 2 ^ 32
    → u32 (tail + (2 ^ 32 - khead)) < 2 ^ 31
    → u32 (u32 (tail + 1) + (2 ^ 32 - khead)) ≡ u32 (tail + (2 ^ 32 - khead)) + 1
queued_after tail khead l m h = omega arith

write_same : (f : ℕ → Rqe) (i j : ℕ) (v : Rqe) → i ≡ j → write f i v j ≡ v
write_same f i j v e = ground arith

write_other : (f : ℕ → Rqe) (i j : ℕ) (v : Rqe) → i ≢ j → write f i v j ≡ f j
write_other f i j v n = ground arith

-- Where the queue is not full, the call puts the buffer behind all that the kernel has still to read.
append_lem :
    (rq : RefillQueue) (khead off : ℕ) (res : ℤ) (k : ℕ)
    → k ≤ 31
    → rq.ring_entries ≡ 2 ^ k
    → rq.rq_tail < 2 ^ 32
    → khead < 2 ^ 32
    → zcrx_rq_nr_queued rq khead < 2 ^ k
    → let q = zcrx_rq_nr_queued rq khead in
      let tail = bit_and rq.rq_tail (rq.ring_entries - 1) in
      let rqes = write rq.rqes tail (refill rq off res) in
      (rqes (bit_and (u32 (khead + q)) (rq.ring_entries - 1)) ≡ refill rq off res)
      × ((i : ℕ)
          → i < q
          → rqes (bit_and (u32 (khead + i)) (rq.ring_entries - 1)) ≡ pending rq khead i)
unfolding zcrx_rq_nr_queued pending
append_lem rq khead off res k h e l m room = (
  write_same rq.rqes _ _ _ (masked rq.rq_tail ∙ at_tail ∙ sym (masked _)),
  λ i less. write_other rq.rqes _ _ _ (λ p.
      slots_apart k khead _ i (omega arith) less room
        (sym at_tail ∙ sym (masked rq.rq_tail) ∙ p ∙ masked (u32 (khead + i)))),
)
  where
    masked : (t : ℕ) → bit_and t (rq.ring_entries - 1) ≡ bit_and t (2 ^ k - 1)
    masked t = ap (λ x. bit_and t (x - 1)) e

    at_tail :
        bit_and rq.rq_tail (2 ^ k - 1)
        ≡ bit_and (u32 (khead + u32 (rq.rq_tail + (2 ^ 32 - khead)))) (2 ^ k - 1)
    at_tail = slot_of_tail k rq.rq_tail khead (omega arith) l m

-- Let the ring have 2 ^ k entries, k at most 31, and the kernel be no more than that behind.
-- Giving back a buffer to a full queue changes nothing. Else the buffer stands behind all that the
-- kernel has still to read, which is unchanged, the kernel is shown the new tail, and the queue is
-- one longer and still fits the ring, also where the counters wrap.
pub zcrx_return_buffer-pending :
    (rq : RefillQueue) (khead off : ℕ) (res : ℤ) (k : ℕ)
    → k ≤ 31
    → rq.ring_entries ≡ 2 ^ k
    → rq.rq_tail < 2 ^ 32
    → khead < 2 ^ 32
    → zcrx_rq_nr_queued rq khead ≤ 2 ^ k
    → let q = zcrx_rq_nr_queued rq khead in
      let after = zcrx_return_buffer rq khead off res in
      ((q ≡ 2 ^ k) × (after ≡ rq))
      ⊎ ((q < 2 ^ k)
          × (zcrx_rq_nr_queued after khead ≡ q + 1)
          × (after.ktail ≡ after.rq_tail)
          × (pending after khead q ≡ refill rq off res)
          × ((i : ℕ) → i < q → pending after khead i ≡ pending rq khead i))
unfolding zcrx_return_buffer zcrx_rq_nr_queued pending
zcrx_return_buffer-pending rq khead off res k h e l m fits =
    elim (Bool-cases (zcrx_rq_nr_queued rq khead == rq.ring_entries)) [
      | inl full ↦ inl (ground arith, rw full refl)
      | inr free ↦
          let room : zcrx_rq_nr_queued rq khead < 2 ^ k = ground arith in
          let (new, old) = append_lem rq khead off res k h e l m room in
          let small : 2 ^ k ≤ 2 ^ 31 = pow-le-pow_right {n = 2} (omega arith) h in
          rw free (inr (room, queued_after rq.rq_tail khead l m (omega arith), refl, new, old))
    ]
