-- ===== src/Engine/BufRing.antt =====
-- src/uring_engine.cpp: the provided buffer ring of multishot receive.
use uring_perf.Base.{
  ℕ, zero, suc, ◌+◌, ◌*◌, Bool, true, false, List, [], ◌∷◌, Option, none, some, if◌then◌else◌, u16,
}
use uring_perf.Engine.State.{Engine, BufAdd}
use uring_perf.Engine.Setup.{Release, free_buf_ring}
use uring_perf.Engine.Pow2.{next_pow2}

-- The loop over `io_uring_buf_ring_add`, from buffer i, with the rounds left.
unfoldable pub provide : ℕ → ℕ → ℕ → ℕ → ℕ → List BufAdd → List BufAdd
provide zero i base buf_size mask adds = adds
provide (suc n) i base buf_size mask adds = provide n (i + 1) base buf_size mask (add ∷ adds)
  where
    add : BufAdd
    add = record {
      addr = base + i * buf_size;
      len = buf_size;
      bid = u16 i;
      mask = mask;
      buf_offset = i;
    }

-- `ring` says whether `io_uring_setup_buf_ring` gives a ring, `mem` is what `posix_memalign` gives
-- for the size that is asked for (the product of two words of 32 bits fits in `size_t`).
-- Beside the result stand the calls that release something.
unfoldable pub setup_multishot_recv :
    Engine → ℕ → ℕ → ℕ → Bool → Option ℕ → Bool × Engine × List Release
unfolding provide
setup_multishot_recv e buf_count buf_size bgid ring mem =
    let count = next_pow2 buf_count in
    if ring
    then (elim mem [
      | none ↦ (
        false,
        record e { recv_buf_ring = none; recv_buf_asked = count * buf_size },
        free_buf_ring count bgid ∷ [],
      )
      | some base ↦ (
        true,
        record e {
          recv_buf_ring = some (record {
            adds = provide count 0 base buf_size (e.lib.buf_ring_mask count) [];
            published = count;
          });
          recv_buf_mem = base;
          recv_buf_asked = count * buf_size;
          recv_buf_count = count;
          recv_buf_size = buf_size;
          recv_bgid = bgid;
        },
        [],
      )
    ])
    else (false, record e { recv_buf_ring = none }, [])

unfoldable pub recv_buffer_data : Engine → ℕ → ℕ
recv_buffer_data e buf_id = e.recv_buf_mem + buf_id * e.recv_buf_size

-- The code is called only while there is a ring.
unfoldable pub return_recv_buffer : Engine → ℕ → Engine
return_recv_buffer e buf_id = elim e.recv_buf_ring [
  | none ↦ e
  | some r ↦ record e {
    recv_buf_ring = some (record {
      adds =
          record {
            addr = e.recv_buf_mem + buf_id * e.recv_buf_size;
            len = e.recv_buf_size;
            bid = buf_id;
            mask = e.lib.buf_ring_mask e.recv_buf_count;
            buf_offset = 0;
          }
          ∷ r.adds;
      published = r.published + 1;
    });
  }
]
