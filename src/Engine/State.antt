-- ===== src/Engine/State.antt =====
-- include/uring_engine.hpp: `IOContext` and the state of `UringEngine`.
-- Addresses are numbers, 0 for null. The calls into liburing are recorded: a submission entry by the
-- prep function that filled it and what the code set in it, a provided buffer by its arguments.
use uring_perf.Base.{ℕ, Bool, List, Option}

pub data CtxType : Type 0 where
  accept send recv timer : CtxType

pub record IoContext : Type 0 where
  pub ctx_type : CtxType
  pub fd : ℕ
  pub buf_idx : ℕ
  pub buf_ptr : ℕ
  pub length : ℕ
  pub stream_id : ℕ

-- Which `io_uring_prep_*` function filled an entry.
pub data Opcode : Type 0 where
  send send_zc send_zc_fixed recv recv_multishot accept : Opcode

pub record Sqe : Type 0 where
  pub opcode : Opcode
  pub fd : ℕ
  pub addr : ℕ
  pub len : ℕ
  pub buf_index : ℕ
  pub buf_group : ℕ
  pub fixed_file : Bool  -- IOSQE_FIXED_FILE
  pub buffer_select : Bool  -- IOSQE_BUFFER_SELECT
  pub user_data : ℕ

-- The answers of liburing: whether the n-th call of `io_uring_get_sqe` on the ring finds a free
-- entry, and `io_uring_buf_ring_mask`.
pub record Liburing : Type 0 where
  pub slots : ℕ → Bool
  pub buf_ring_mask : ℕ → ℕ

pub record Iovec : Type 0 where
  pub iov_base : ℕ
  pub iov_len : ℕ

-- The arguments of `io_uring_buf_ring_add`.
pub record BufAdd : Type 0 where
  pub addr : ℕ
  pub len : ℕ
  pub bid : ℕ
  pub mask : ℕ
  pub buf_offset : ℕ

-- The calls on a provided buffer ring: the buffers added, newest first, and how many of them
-- `io_uring_buf_ring_advance` has published.
pub record BufRing : Type 0 where
  pub adds : List BufAdd
  pub published : ℕ

pub record Engine : Type 0 where
  pub lib : Liburing
  pub gets : ℕ  -- calls of io_uring_get_sqe
  pub sqes : List Sqe  -- entries filled, newest first
  pub submits : ℕ  -- calls of io_uring_submit
  pub waits : ℕ  -- calls of io_uring_submit_and_wait_timeout
  pub seen : ℕ  -- calls of io_uring_cqe_seen
  pub queue_depth : ℕ
  pub sqpoll_enabled : Bool
  pub buffers_registered : Bool
  pub files_registered : Bool
  pub zc_supported : Bool
  pub iovecs : List Iovec
  pub recv_buf_ring : Option BufRing
  pub recv_buf_mem : ℕ
  pub recv_buf_asked : ℕ  -- the size that its memory was asked for with
  pub recv_buf_count : ℕ
  pub recv_buf_size : ℕ
  pub recv_bgid : ℕ
