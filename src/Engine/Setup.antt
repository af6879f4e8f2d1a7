-- ===== src/Engine/Setup.antt =====
-- src/uring_engine.cpp: the constructor, the registrations and the destructor of `UringEngine`.
-- The setup flags of the kernel headers are taken to be defined.
use uring_perf.Base.{
  ℕ, ◌≡◌, refl, Bool, true, false, not, ◌&&◌, List, [], ◌∷◌, ◌++◌, map, Option, none, some,
  if◌then◌else◌, ℤ, is_negative, arith, Bool-cases, ◌⊎◌, inl, inr,
}
use uring_perf.Engine.State.{Engine, Liburing, Iovec}

-- `struct io_uring_params`, as far as the constructor sets it.
pub record SetupParams : Type 0 where
  pub sqpoll : Bool
  pub sq_thread_idle : ℕ
  pub single_issuer : Bool
  pub coop_taskrun : Bool

unfoldable pub setup_params : Bool → SetupParams
setup_params sqpoll_enabled = record {
  sqpoll = sqpoll_enabled;
  sq_thread_idle = if sqpoll_enabled then 2000 else 0;
  single_issuer = true;
  coop_taskrun = not sqpoll_enabled;
}

-- The members and their initialisers.
fresh_engine : Liburing → ℕ → Bool → Engine
fresh_engine lib depth sqpoll_enabled = record {
  lib = lib;
  gets = 0;
  sqes = [];
  submits = 0;
  waits = 0;
  seen = 0;
  queue_depth = depth;
  sqpoll_enabled = sqpoll_enabled;
  buffers_registered = false;
  files_registered = false;
  zc_supported = true;
  iovecs = [];
  recv_buf_ring = none;
  recv_buf_mem = 0;
  recv_buf_asked = 0;
  recv_buf_count = 0;
  recv_buf_size = 0;
  recv_bgid = 0;
}

-- The constructor. `init_params` and `init` are what `io_uring_queue_init_params` and
-- `io_uring_queue_init` return; `none` is the exception.
unfoldable pub create : Liburing → (SetupParams → ℤ) → ℤ → ℕ → Bool → Option Engine
unfolding fresh_engine
create lib init_params init depth use_sqpoll =
    if is_negative (init_params (setup_params use_sqpoll))
    then (if is_negative init then none else some (fresh_engine lib depth false))
    else some (fresh_engine lib depth use_sqpoll)

-- `ret` is what `io_uring_register_buffers` returns.
unfoldable pub register_buffers : Engine → List ℕ → ℕ → ℤ → Bool × Engine
register_buffers e [] buf_size ret = (false, e)
register_buffers e (b ∷ bs) buf_size ret =
    let iovecs =
      map (λ p. let v : Iovec = record { iov_base = p; iov_len = buf_size } in v) (b ∷ bs) in
    if is_negative ret
    then (false, record e { iovecs = iovecs; buffers_registered = false })
    else (true, record e { iovecs = iovecs; buffers_registered = true })

-- `ret` is what `io_uring_register_files` returns.
unfoldable pub register_files : Engine → List ℕ → ℤ → Bool × Engine
register_files e [] ret = (false, e)
register_files e (fd ∷ fds) ret =
    if is_negative ret
    then (false, record e { files_registered = false })
    else (true, record e { files_registered = true })

pub data Release : Type 0 where
  unregister_buffers unregister_files queue_exit : Release
  free_buf_ring : ℕ → ℕ → Release  -- entries, group
  free_mem : ℕ → Release

-- The calls of the destructor, in order.
unfoldable pub destroy : Engine → List Release
destroy e =
    (if e.buffers_registered then unregister_buffers ∷ [] else [])
    ++ ((if e.files_registered then unregister_files ∷ [] else [])
        ++ ((elim e.recv_buf_ring [
          | none ↦ []
          | some r ↦ free_buf_ring e.recv_buf_count e.recv_bgid ∷ free_mem e.recv_buf_mem ∷ []
        ])
            ++ (queue_exit ∷ [])))

-- A new engine has nothing queued and nothing registered, and supports zero-copy sends.
pub create-fresh :
    (lib : Liburing) (init_params : SetupParams → ℤ) (init : ℤ) (depth : ℕ) (use_sqpoll : Bool)
    {e : Engine}
    → create lib init_params init depth use_sqpoll ≡ some e
    → (e.zc_supported ≡ true) × (e.files_registered ≡ false) × (e.sqes ≡ [])
unfolding create
create-fresh lib init_params init depth use_sqpoll h = ground arith

exclusive : (b : Bool) → (setup_params b).sqpoll && (setup_params b).coop_taskrun ≡ false
unfolding setup_params
exclusive true = refl
exclusive false = refl

-- The constructor throws exactly if both attempts to set up the ring fail. Else the ring polls in
-- the kernel exactly if that was asked for and the first attempt succeeded, and it has nothing to
-- release but itself. The flags of the first attempt never join SQPOLL and COOP_TASKRUN.
pub create_outcome :
    (lib : Liburing) (init_params : SetupParams → ℤ) (init : ℤ) (depth : ℕ) (use_sqpoll : Bool)
    → let first = is_negative (init_params (setup_params use_sqpoll)) in
      ((create lib init_params init depth use_sqpoll ≡ none)
          × (first ≡ true)
          × (is_negative init ≡ true)
        ⊎ ((e : Engine) × (create lib init_params init depth use_sqpoll ≡ some e)
            × ((first && is_negative init) ≡ false)
            × (e.sqpoll_enabled ≡ (use_sqpoll && not first))
            × (destroy e ≡ queue_exit ∷ [])))
      × ((setup_params use_sqpoll).sqpoll && (setup_params use_sqpoll).coop_taskrun ≡ false)
unfolding create destroy setup_params
create_outcome lib init_params init depth use_sqpoll = (
  elim (Bool-cases (is_negative (init_params (setup_params use_sqpoll)))) [
    | inl bad ↦ elim (Bool-cases (is_negative init)) [
      | inl worse ↦ inl (rw (bad, worse) refl, bad, worse)
      | inr ok ↦
          inr
            (fresh_engine lib depth false, rw (bad, ok) refl, rw (bad, ok) refl, ground arith, refl)
    ]
    | inr ok ↦ inr (fresh_engine lib depth use_sqpoll, rw ok refl, rw ok refl, ground arith, refl)
  ],
  exclusive use_sqpoll,
)
