-- ===== src/Worker/Refill/Queue.antt =====
-- src/worker.cpp: the refill queue is a bounded queue, first in, first out.
use mathlib.Core.Path.{ap₂}
use uring_perf.Base.{
  ℕ, ◌+◌, ◌-◌, ◌^◌, ◌≤◌, ◌<◌, ◌≡◌, refl, sym, ap, ◌∙◌, bit_and, min, Bool, true, false, List, [],
  ◌∷◌, ◌++◌, ◌==◌, if◌then◌else◌, ℤ, u32, arith, inl, inr, length,
}
use uring_perf.Worker.Refill.{RefillQueue, zcrx_rq_nr_queued, refill, zcrx_return_buffer, pending}
use uring_perf.Worker.Refill.Values.{
  values, length-values, values-same, values-at, values-last_of, values-shift, take-values,
  drop-values,
}
use uring_perf.Worker.Refill.Pending.{zcrx_return_buffer-pending}
use uring_perf.Worker.Refill.Fifo.{
  Shared, Use, shown, contents, use_queue, use_all, Fifo, entry, use_fifo, use_fifo_all, fifo_of,
  IsRing, reads, gives,
}

-- What the kernel has read is behind it.
queued-read :
    (tail khead m q : ℕ)
    → tail < 2 ^ 32
    → khead < 2 ^ 32
    → u32 (tail + (2 ^ 32 - khead)) ≡ q
    → m ≤ q
    → u32 (tail + (2 ^ 32 - u32 (khead + m))) ≡ q - m
queued-read tail khead m q a b c d = omega arith

pending-read :
    (rq : RefillQueue) (khead m j : ℕ) → pending rq (u32 (khead + m)) j ≡ pending rq khead (m + j)
unfolding pending
pending-read rq khead m j = ap (λ x. rq.rqes (bit_and x (rq.ring_entries - 1))) (omega arith)

fifo_eq : (q r : Fifo) → q.inside ≡ r.inside → q.out ≡ r.out → q ≡ r
fifo_eq q r e g = ap₂ (λ x y. record { inside = x; out = y }) e g

-- The kernel is shown all that is queued.
shown-queued :
    (rq : RefillQueue) (khead : ℕ)
    → rq.ktail ≡ rq.rq_tail
    → shown rq khead ≡ zcrx_rq_nr_queued rq khead
unfolding zcrx_rq_nr_queued
shown-queued rq khead e = ap (λ t. u32 (t + (2 ^ 32 - khead))) e

contents-shown :
    (rq : RefillQueue) (khead : ℕ)
    → rq.ktail ≡ rq.rq_tail
    → contents rq khead ≡ values (pending rq khead) 0 (zcrx_rq_nr_queued rq khead)
contents-shown rq khead e = values-at (pending rq khead) 0 0 _ _ refl (shown-queued rq khead e)

reads-refines :
    (k token : ℕ) (s : Shared) (n : ℕ)
    → IsRing k token s
    → IsRing k token (use_queue s (reads n))
      × (fifo_of (use_queue s (reads n)) ≡ use_fifo (2 ^ k) token (fifo_of s) (reads n))
unfolding zcrx_rq_nr_queued
reads-refines k token s n v = (
  record {
    small = v.small;
    entries = v.entries;
    tail = v.tail;
    head = omega arith;
    fits = omega (arith, left, v.fits, v.published);
    published = v.published;
    has_token = v.has_token;
  },
  fifo_eq _ _
      (values-at (pending s.rq (u32 (s.khead + m))) 0 0 _ (q - m) refl left
        ∙ values-shift (pending s.rq s.khead) (pending s.rq (u32 (s.khead + m))) m 0 (q - m)
            (pending-read s.rq s.khead m)
        ∙ sym (drop-values (pending s.rq s.khead) 0 n q))
      (ap (λ l. s.read ++ l) (sym (take-values (pending s.rq s.khead) 0 n q))),
)
  where
    q : ℕ
    q = u32 (s.rq.ktail + (2 ^ 32 - s.khead))

    m : ℕ
    m = min n (u32 (s.rq.ktail + (2 ^ 32 - s.khead)))

    left : u32 (s.rq.ktail + (2 ^ 32 - u32 (s.khead + m))) ≡ q - m
    left =
        queued-read s.rq.ktail s.khead m q (omega (arith, v.tail, v.published)) v.head refl
          (omega arith)

-- What a buffer given back leaves as it is.
abbrev Keeps : RefillQueue → RefillQueue → Type 0
Keeps rq after =
    (after.ring_entries ≡ rq.ring_entries)
    × (after.area_token ≡ rq.area_token)
    × (after.rq_tail < 2 ^ 32)
    × (after.ktail ≡ after.rq_tail)

if-Keeps :
    (b : Bool) (rq u v : RefillQueue) → Keeps rq u → Keeps rq v → Keeps rq (if b then u else v)
if-Keeps true rq u v h k = h
if-Keeps false rq u v h k = k

zcrx_return_buffer-Keeps :
    (rq : RefillQueue) (khead off : ℕ) (res : ℤ)
    → rq.rq_tail < 2 ^ 32
    → rq.ktail ≡ rq.rq_tail
    → Keeps rq (zcrx_return_buffer rq khead off res)
unfolding zcrx_return_buffer
zcrx_return_buffer-Keeps rq khead off res h e =
    if-Keeps (zcrx_rq_nr_queued rq khead == rq.ring_entries) rq rq _ (refl, refl, h, e)
      (refl, refl, omega arith, refl)

refill-entry :
    (rq : RefillQueue) (token off : ℕ) (res : ℤ)
    → rq.area_token ≡ token
    → refill rq off res ≡ entry token off res
unfolding refill
refill-entry rq token off res e = ap (λ t. entry t off res) e

-- A queue that is full, and one that is not, in the specification.
full_fifo :
    (size token off : ℕ) (res : ℤ) (q : Fifo)
    → length q.inside ≡ size
    → use_fifo size token q (gives off res) ≡ q
full_fifo size token off res q e = ground arith

roomy_fifo :
    (size token off : ℕ) (res : ℤ) (q : Fifo)
    → length q.inside < size
    → use_fifo size token q (gives off res)
      ≡ record { inside = q.inside ++ (entry token off res ∷ []); out = q.out }
roomy_fifo size token off res q l = ground arith

contents-returned :
    (s : Shared) (k token off : ℕ) (res : ℤ)
    → IsRing k token s
    → (zcrx_rq_nr_queued (zcrx_return_buffer s.rq s.khead off res) s.khead ≤ 2 ^ k)
      × (record {
        inside = contents (zcrx_return_buffer s.rq s.khead off res) s.khead;
        out = s.read;
      }
          ≡ use_fifo (2 ^ k) token (fifo_of s) (gives off res))
contents-returned s k token off res v =
    let (entries, kept, tail, showing) =
      zcrx_return_buffer-Keeps s.rq s.khead off res v.tail v.published in
    elim (zcrx_return_buffer-pending s.rq s.khead off res k v.small v.entries v.tail v.head
      v.fits) [
        | inl (full, same) ↦ (
          rw same v.fits,
          ap (λ r. record { inside = contents r s.khead; out = s.read }) same
              ∙ sym (
                  full_fifo (2 ^ k) token off res (fifo_of s)
                    (length-values _ 0 _ ∙ shown-queued s.rq s.khead v.published ∙ full)),
        )
        | inr (room, queued, told, new, old) ↦ (
          omega (arith, queued, room),
          fifo_eq _ _
                (contents-shown _ s.khead showing
                  ∙ values-at _ 0 0 _ _ refl queued
                  ∙ values-last_of _ _
                  ∙ ap₂ (λ l x. l ++ (x ∷ []))
                      (values-same _ _ 0 _ (λ j l. old j (omega (arith, l))))
                      (new ∙ refill-entry s.rq token off res v.has_token)
                  ∙ ap (λ l. l ++ (entry token off res ∷ []))
                      (sym (contents-shown s.rq s.khead v.published)))
                refl
              ∙ sym (
                  roomy_fifo (2 ^ k) token off res (fifo_of s) (
                    omega (
                      arith,
                      length-values (pending s.rq s.khead) 0 (shown s.rq s.khead),
                      shown-queued s.rq s.khead v.published,
                      room,
                    ))),
        )
      ]

gives-refines :
    (k token : ℕ) (s : Shared) (off : ℕ) (res : ℤ)
    → IsRing k token s
    → IsRing k token (use_queue s (gives off res))
      × (fifo_of (use_queue s (gives off res)) ≡ use_fifo (2 ^ k) token (fifo_of s) (gives off res))
gives-refines k token s off res v =
    let (entries, kept, tail, published) =
      zcrx_return_buffer-Keeps s.rq s.khead off res v.tail v.published in
    let (fits, same) = contents-returned s k token off res v in
    (
      record {
        small = v.small;
        entries = entries ∙ v.entries;
        tail = tail;
        head = v.head;
        fits = fits;
        published = published;
        has_token = kept ∙ v.has_token;
      },
      same,
    )

use-refines :
    (k token : ℕ) (s : Shared) (u : Use)
    → IsRing k token s
    → IsRing k token (use_queue s u)
      × (fifo_of (use_queue s u) ≡ use_fifo (2 ^ k) token (fifo_of s) u)
use-refines k token s (gives off res) v = gives-refines k token s off res v
use-refines k token s (reads n) v = reads-refines k token s n v

-- Let the ring have 2 ^ k entries, k at most 31, the tail be published, and the kernel be no more than
-- that behind, which reads up to the published tail only. Then whatever sequence of buffers the worker gives back and of reads the kernel makes between them, what
-- stands in the ring and what the kernel has read are those of a bounded queue that drops what comes
-- while it is full: the kernel reads the buffers in the order in which they were given back, each
-- once, also where the counters wrap.
pub use_all-refines :
    (k token : ℕ) (s : Shared) (us : List Use)
    → IsRing k token s
    → fifo_of (use_all s us) ≡ use_fifo_all (2 ^ k) token (fifo_of s) us
use_all-refines k token s [] v = refl
use_all-refines k token s (u ∷ us) v =
    let (v2, e) = use-refines k token s u v in
    use_all-refines k token (use_queue s u) us v2 ∙ ap (λ q. use_fifo_all (2 ^ k) token q us) e
