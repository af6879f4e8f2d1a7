-- ===== src/Engine/Provided.antt =====
-- src/uring_engine.cpp: which buffers the kernel is given, and where they lie.
use native.Mathlib.Nat.{add-zero, add-suc, suc-add, zero-add, mod-eq_of_lt}
use native.Mathlib.Numerals.{add-one}
use uring_perf.Base.{
  ℕ, zero, suc, ◌+◌, ◌*◌, ◌^◌, ◌≤◌, ◌<◌, ◌≡◌, refl, ap, ◌∙◌, true, List, [], ◌∷◌, Option, some,
  arith,
}
use uring_perf.Engine.State.{Engine, BufRing, BufAdd}
use uring_perf.Engine.Pow2.{next_pow2, next_pow2_least}
use uring_perf.Engine.BufRing.{provide, setup_multishot_recv, recv_buffer_data, return_recv_buffer}

-- Buffer i of an engine, as the kernel is to see it.
abbrev pub buffer : Engine → ℕ → BufAdd
buffer e i = record {
  addr = recv_buffer_data e i;
  len = e.recv_buf_size;
  bid = i;
  mask = e.lib.buf_ring_mask e.recv_buf_count;
  buf_offset = i;
}

-- The buffers below n, the last one first.
abbrev pub buffers_below : Engine → ℕ → List BufAdd
buffers_below e zero = []
buffers_below e (suc n) = buffer e n ∷ buffers_below e n

provide-buffers_below :
    (e : Engine) (n i : ℕ)
    → i + n ≤ 2 ^ 16
    → provide n i e.recv_buf_mem e.recv_buf_size
        (e.lib.buf_ring_mask e.recv_buf_count)
        (buffers_below e i)
      ≡ buffers_below e (i + n)
unfolding provide recv_buffer_data
provide-buffers_below e zero i h = rw add-zero refl
provide-buffers_below e (suc n) i h =
    rw (add-one, mod-eq_of_lt {n = i} {m = 2 ^ 16} (omega arith), add-suc)
      (provide-buffers_below e n (suc i) (omega arith) ∙ ap (buffers_below e) (suc-add i n))

-- For a count from 1 to 2 ^ 15, where the ring and the memory are to be had, `setup_multishot_recv`
-- gives the kernel each buffer from 0 up to a power of two that is at least that count, each once,
-- under its own number and at the address where `recv_buffer_data` looks for it, and publishes them
-- all.
pub setup_provides :
    (e : Engine) (buf_count buf_size bgid base : ℕ)
    → 1 ≤ buf_count
    → buf_count ≤ 2 ^ 15
    → let (done, e', freed) = setup_multishot_recv e buf_count buf_size bgid true (some base) in
      (n : ℕ) × (done ≡ true)
      × (e'.recv_buf_count ≡ 2 ^ n)
      × (buf_count ≤ 2 ^ n)
      × (e'.recv_buf_ring ≡ some (record { adds = buffers_below e' (2 ^ n); published = 2 ^ n }))
unfolding setup_multishot_recv
setup_provides e buf_count buf_size bgid base lo hi =
    let (n, l, p, above, near) = next_pow2_least buf_count lo (omega arith) in
    (n, refl, p, above, ap filled (provided n p near) ∙ ap published p)
  where
    e' : Engine
    e' = (setup_multishot_recv e buf_count buf_size bgid true (some base)).1

    filled : List BufAdd → Option BufRing
    filled adds = some (record { adds = adds; published = next_pow2 buf_count })

    published : ℕ → Option BufRing
    published k = some (record { adds = buffers_below e' k; published = k })

    provided :
        (n : ℕ)
        → next_pow2 buf_count ≡ 2 ^ n
        → 2 ^ n < 2 * buf_count
        → provide
            (next_pow2 buf_count)
            0
            base
            buf_size
            (e.lib.buf_ring_mask (next_pow2 buf_count))
            []
          ≡ buffers_below e' (next_pow2 buf_count)
    provided n p near =
        rw zero-add at (provide-buffers_below e' (next_pow2 buf_count) 0 (omega arith))

-- A buffer that is returned is given to the kernel as it was at the start: the same region under the
-- same number. No other buffer is touched.
pub return_recv_buffer_lem :
    (e : Engine) (buf_id : ℕ) {r : BufRing}
    → e.recv_buf_ring ≡ some r
    → (return_recv_buffer e buf_id).recv_buf_ring
      ≡ some (record {
        adds = record (buffer e buf_id) { buf_offset = 0 } ∷ r.adds;
        published = r.published + 1;
      })
unfolding return_recv_buffer recv_buffer_data
return_recv_buffer_lem e buf_id h = ground arith
