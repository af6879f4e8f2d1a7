-- ===== src/Engine/Memory.antt =====
-- src/uring_engine.cpp: who frees the memory of the provided buffers.
use uring_perf.Base.{
  ℕ, ◌+◌, ◌≡◌, refl, ◌∙◌, Bool, true, false, List, [], ◌∷◌, ◌++◌, Option, none, some, if◌then◌else◌,
  arith,
}
use uring_perf.Engine.State.{Engine, Sqe, BufRing}
use uring_perf.Engine.Setup.{
  Release, unregister_buffers, unregister_files, queue_exit, free_buf_ring, free_mem, destroy,
}
use uring_perf.Engine.Prep.{fill_sqe, prep_recv, prep_recv_multishot}
use uring_perf.Engine.BufRing.{return_recv_buffer}
use uring_perf.Engine.Reap.{cqe_seen, submit, submit_and_wait}

-- The memory that a ring of buffers holds, if there is one.
abbrev pub held : Option BufRing → ℕ → Option ℕ
held none mem = none
held (some r) mem = some mem

abbrev pub ring_mem : Engine → Option ℕ
ring_mem e = held e.recv_buf_ring e.recv_buf_mem

-- The blocks that calls free.
abbrev pub freed_by : List Release → List ℕ
freed_by [] = []
freed_by (free_mem p ∷ rs) = p ∷ freed_by rs
freed_by (unregister_buffers ∷ rs) = freed_by rs
freed_by (unregister_files ∷ rs) = freed_by rs
freed_by (queue_exit ∷ rs) = freed_by rs
freed_by (free_buf_ring n g ∷ rs) = freed_by rs

abbrev pub one_block : Option ℕ → List ℕ
one_block none = []
one_block (some p) = p ∷ []

with_ring :
    (o : Option BufRing) (n g mem : ℕ)
    → freed_by (
        (elim o as (λ o'. List Release) [
          | none ↦ []
          | some r ↦ free_buf_ring n g ∷ free_mem mem ∷ []
        ])
        ++ (queue_exit ∷ []))
      ≡ one_block (held o mem)
with_ring none n g mem = refl
with_ring (some r) n g mem = refl

-- A registration that is given up frees nothing.
freed_by-if :
    (b : Bool) (r : Release) (rs : List Release)
    → freed_by (r ∷ rs) ≡ freed_by rs
    → freed_by ((if b then r ∷ [] else []) ++ rs) ≡ freed_by rs
freed_by-if true r rs h = h
freed_by-if false r rs h = refl

-- The destructor frees the memory of the ring once, and nothing else.
pub freed_by-destroy : (e : Engine) → freed_by (destroy e) ≡ one_block (ring_mem e)
unfolding destroy
freed_by-destroy e =
    freed_by-if e.buffers_registered unregister_buffers _ refl
    ∙ freed_by-if e.files_registered unregister_files _ refl
    ∙ with_ring e.recv_buf_ring e.recv_buf_count e.recv_bgid e.recv_buf_mem

fill_sqe-ring_mem : (e : Engine) (sqe : Sqe) → ring_mem (fill_sqe e sqe).1 ≡ ring_mem e
unfolding fill_sqe
fill_sqe-ring_mem e sqe = either (e.lib.slots e.gets)
  where
    either :
        (b : Bool)
        → let r : Bool × Engine =
            if b
            then (true, record e { gets = e.gets + 1; sqes = sqe ∷ e.sqes })
            else (false, record e { gets = e.gets + 1 }) in
          ring_mem r.1 ≡ ring_mem e
    either true = refl
    either false = refl

pub prep_recv-ring_mem :
    (e : Engine) (fd buf len idx p : ℕ) (fixed : Bool)
    → ring_mem (prep_recv e fd buf len idx p fixed).1 ≡ ring_mem e
unfolding prep_recv
prep_recv-ring_mem e fd buf len idx p fixed = fill_sqe-ring_mem e _

pub prep_recv_multishot-ring_mem :
    (e : Engine) (fd p : ℕ) (fixed : Bool)
    → ring_mem (prep_recv_multishot e fd p fixed).1 ≡ ring_mem e
unfolding prep_recv_multishot
prep_recv_multishot-ring_mem e fd p fixed = fill_sqe-ring_mem e _

pub return_recv_buffer-ring_mem :
    (e : Engine) (buf_id : ℕ) → ring_mem (return_recv_buffer e buf_id) ≡ ring_mem e
unfolding return_recv_buffer
return_recv_buffer-ring_mem e buf_id = ground arith

pub cqe_seen-ring_mem : (e : Engine) → ring_mem (cqe_seen e) ≡ ring_mem e
unfolding cqe_seen
cqe_seen-ring_mem e = refl

pub submit-ring_mem : (e : Engine) → ring_mem (submit e) ≡ ring_mem e
unfolding submit
submit-ring_mem e = refl

pub submit_and_wait-ring_mem : (e : Engine) → ring_mem (submit_and_wait e) ≡ ring_mem e
unfolding submit_and_wait
submit_and_wait-ring_mem e = refl
