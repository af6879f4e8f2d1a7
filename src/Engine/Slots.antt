-- ===== src/Engine/Slots.antt =====
-- src/uring_engine.cpp: what the prep functions take from the submission queue and put on it.
use uring_perf.Base.{
  ℕ, ◌+◌, ◌≡◌, refl, Bool, true, false, ◌&&◌, List, [], ◌∷◌, Option, some, ◌⊎◌, inl, inr, arith, ℤ,
  Bool-cases, if◌then◌else◌, ◌∙◌,
}
use uring_perf.Engine.State.{Engine, IoContext, Sqe, Liburing}
use uring_perf.Engine.Setup.{SetupParams, create, register_buffers, register_files}
use uring_perf.Engine.Prep.{
  fill_sqe, send_sqe, send_zc_sqe, recv_sqe, accept_sqe, multishot_sqe, prep_send_standard,
  prep_send_zc, prep_recv, prep_accept, prep_recv_multishot,
}
use uring_perf.Engine.BufRing.{setup_multishot_recv, return_recv_buffer}
use uring_perf.Engine.Reap.{submit, submit_and_wait, cqe_seen}

-- A call of a prep function, with its arguments.
pub data Prep : Type 0 where
  send_standard : ℕ → ℕ → ℕ → ℕ → IoContext → Bool → Prep
  send_zc : ℕ → ℕ → ℕ → ℕ → ℕ → IoContext → Bool → Prep
  recv : ℕ → ℕ → ℕ → ℕ → ℕ → Bool → Prep
  accept : ℕ → ℕ → Prep
  recv_multishot : ℕ → ℕ → Bool → Prep

unfoldable pub perform : Engine → Prep → Bool × Engine
perform e (send_standard fd buf len p ctx fixed) = prep_send_standard e fd buf len p ctx fixed
perform e (send_zc fd buf len idx p ctx fixed) = prep_send_zc e fd buf len idx p ctx fixed
perform e (recv fd buf len idx p fixed) = prep_recv e fd buf len idx p fixed
perform e (accept fd p) = prep_accept e fd p
perform e (recv_multishot fd p fixed) = prep_recv_multishot e fd p fixed

-- The entry that the call is to queue.
unfoldable pub sqe_for : Engine → Prep → Sqe
sqe_for e (send_standard fd buf len p ctx fixed) = send_sqe e fd buf len p ctx fixed
sqe_for e (send_zc fd buf len idx p ctx fixed) =
    if e.zc_supported
    then send_zc_sqe e fd buf len idx p fixed
    else send_sqe e fd buf len p ctx false
sqe_for e (recv fd buf len idx p fixed) = recv_sqe e fd buf len idx p fixed
sqe_for e (accept fd p) = accept_sqe fd p
sqe_for e (recv_multishot fd p fixed) = multishot_sqe e fd p fixed

-- The context, the file, and whether the file is to be a registered one.
abbrev pub asked : Prep → ℕ × ℕ × Bool
asked (send_standard fd buf len p ctx fixed) = (p, fd, fixed)
asked (send_zc fd buf len idx p ctx fixed) = (p, fd, fixed)
asked (recv fd buf len idx p fixed) = (p, fd, fixed)
asked (accept fd p) = (p, fd, false)
asked (recv_multishot fd p fixed) = (p, fd, fixed)

pub perform-fill_sqe : (e : Engine) (r : Prep) → perform e r ≡ fill_sqe e (sqe_for e r)
unfolding perform sqe_for prep_send_standard prep_send_zc prep_recv prep_accept prep_recv_multishot
perform-fill_sqe e (send_standard fd buf len p ctx fixed) = refl
perform-fill_sqe e (send_zc fd buf len idx p ctx fixed) = ground arith
perform-fill_sqe e (recv fd buf len idx p fixed) = refl
perform-fill_sqe e (accept fd p) = refl
perform-fill_sqe e (recv_multishot fd p fixed) = refl

pub sqe_for-asked :
    (e : Engine) (r : Prep)
    → ((sqe_for e r).user_data ≡ (asked r).0) × ((sqe_for e r).fd ≡ (asked r).1)
unfolding sqe_for send_sqe send_zc_sqe recv_sqe accept_sqe multishot_sqe
sqe_for-asked e (send_standard fd buf len p ctx fixed) = (refl, refl)
sqe_for-asked e (send_zc fd buf len idx p ctx fixed) = ground arith
sqe_for-asked e (recv fd buf len idx p fixed) = (refl, refl)
sqe_for-asked e (accept fd p) = (refl, refl)
sqe_for-asked e (recv_multishot fd p fixed) = (refl, refl)

-- The memory that an entry names, for the calls that give some.
abbrev pub memory : Prep → ℕ × ℕ
memory (send_standard fd buf len p ctx fixed) = (buf, len)
memory (send_zc fd buf len idx p ctx fixed) = (buf, len)
memory (recv fd buf len idx p fixed) = (buf, len)
memory (accept fd p) = (0, 0)
memory (recv_multishot fd p fixed) = (0, 0)

pub sqe_for-memory :
    (e : Engine) (r : Prep)
    → ((sqe_for e r).addr ≡ (memory r).0) × ((sqe_for e r).len ≡ (memory r).1)
unfolding sqe_for send_sqe send_zc_sqe recv_sqe accept_sqe multishot_sqe
sqe_for-memory e (send_standard fd buf len p ctx fixed) = (refl, refl)
sqe_for-memory e (send_zc fd buf len idx p ctx fixed) = ground arith
sqe_for-memory e (recv fd buf len idx p fixed) = (refl, refl)
sqe_for-memory e (accept fd p) = (refl, refl)
sqe_for-memory e (recv_multishot fd p fixed) = (refl, refl)

-- Each call of a prep function asks for one entry, also where zero-copy falls back. With an entry
-- it returns true and queues exactly one operation, on the file and with the context it was given.
-- Without one it returns false and changes nothing else.
pub perform_one_slot :
    (e : Engine) (r : Prep)
    → ((e.lib.slots e.gets ≡ true)
        × ((sqe : Sqe) × (perform e r ≡ (true, record e { gets = e.gets + 1; sqes = sqe ∷ e.sqes }))
            × (sqe.user_data ≡ (asked r).0)
            × (sqe.fd ≡ (asked r).1)))
      ⊎ ((e.lib.slots e.gets ≡ false) × (perform e r ≡ (false, record e { gets = e.gets + 1 })))
unfolding fill_sqe
perform_one_slot e r = elim (Bool-cases (e.lib.slots e.gets)) [
  | inl free ↦ inl (
    free,
    (
      sqe_for e r,
      rw (perform-fill_sqe e r, free) refl,
      (sqe_for-asked e r).0,
      (sqe_for-asked e r).1,
    ),
  )
  | inr full ↦ inr (full, rw (perform-fill_sqe e r, full) refl)
]

-- The other calls that change an engine, with what the kernel answers.
pub data Call : Type 0 where
  prepare : Prep → Call
  registers_buffers : List ℕ → ℕ → ℤ → Call
  registers_files : List ℕ → ℤ → Call
  sets_up_multishot : ℕ → ℕ → ℕ → Bool → Option ℕ → Call
  returns_buffer : ℕ → Call
  submits waits sees : Call

unfoldable pub call : Engine → Call → Engine
call e (prepare r) = (perform e r).1
call e (registers_buffers bs size ret) = (register_buffers e bs size ret).1
call e (registers_files fds ret) = (register_files e fds ret).1
call e (sets_up_multishot n size bgid ring mem) = (setup_multishot_recv e n size bgid ring mem).1
call e (returns_buffer i) = return_recv_buffer e i
call e submits = submit e
call e waits = submit_and_wait e
call e sees = cqe_seen e

unfoldable pub calls : Engine → List Call → Engine
calls e [] = e
calls e (c ∷ cs) = calls (call e c) cs

call-zc_supported : (e : Engine) (c : Call) → (call e c).zc_supported ≡ e.zc_supported
unfolding call fill_sqe register_buffers register_files setup_multishot_recv return_recv_buffer
    submit submit_and_wait cqe_seen
call-zc_supported e (prepare r) = ground (arith, perform-fill_sqe e r)
call-zc_supported e (registers_buffers [] size ret) = refl
call-zc_supported e (registers_buffers (b ∷ bs) size ret) = ground arith
call-zc_supported e (registers_files [] ret) = refl
call-zc_supported e (registers_files (f ∷ fs) ret) = ground arith
call-zc_supported e (sets_up_multishot n size bgid ring mem) = ground arith
call-zc_supported e (returns_buffer i) = ground arith
call-zc_supported e submits = refl
call-zc_supported e waits = refl
call-zc_supported e sees = refl

calls-zc_supported : (e : Engine) (cs : List Call) → (calls e cs).zc_supported ≡ e.zc_supported
unfolding calls
calls-zc_supported e [] = refl
calls-zc_supported e (c ∷ cs) = calls-zc_supported (call e c) cs ∙ call-zc_supported e c

create-zc_supported :
    (lib : Liburing) (init_params : SetupParams → ℤ) (init : ℤ) (depth : ℕ) (sqpoll : Bool)
    {e : Engine}
    → create lib init_params init depth sqpoll ≡ some e
    → e.zc_supported ≡ true
unfolding create
create-zc_supported lib init_params init depth sqpoll h = ground arith

pub sqe_for-fixed_file :
    (e : Engine) (r : Prep)
    → e.zc_supported ≡ true
    → (sqe_for e r).fixed_file ≡ ((asked r).2 && e.files_registered)
unfolding sqe_for send_sqe send_zc_sqe recv_sqe accept_sqe multishot_sqe
sqe_for-fixed_file e (send_standard fd buf len p ctx fixed) h = refl
sqe_for-fixed_file e (send_zc fd buf len idx p ctx fixed) h = ground arith
sqe_for-fixed_file e (recv fd buf len idx p fixed) h = refl
sqe_for-fixed_file e (accept fd p) h = refl
sqe_for-fixed_file e (recv_multishot fd p fixed) h = refl

-- After any calls on an engine that a constructor made, each prep function fills an entry that
-- carries the flag for a registered file exactly if one was asked for and files are registered.
pub calls-fixed_file :
    (lib : Liburing) (init_params : SetupParams → ℤ) (init : ℤ) (depth : ℕ) (sqpoll : Bool)
    {made : Engine}
    → create lib init_params init depth sqpoll ≡ some made
    → (cs : List Call) (r : Prep)
    → let e = calls made cs in
      (sqe : Sqe) × (perform e r ≡ fill_sqe e sqe)
      × (sqe.fixed_file ≡ ((asked r).2 && e.files_registered))
calls-fixed_file lib init_params init depth sqpoll {made} h cs r =
    let e = calls made cs in
    (
      sqe_for e r,
      perform-fill_sqe e r,
      sqe_for-fixed_file e r
          (calls-zc_supported made cs ∙ create-zc_supported lib init_params init depth sqpoll h),
    )

-- The fallback of `prep_send_zc` loses the request for a registered file: without support for
-- zero-copy it queues a plain send on the file number as given, with no flag.
fallback_drops_fixed_file :
    (e : Engine) (fd buf len buf_idx user_data : ℕ) (ctx : IoContext)
    → e.zc_supported ≡ false
    → e.lib.slots e.gets ≡ true
    → (sqe : Sqe) × ((prep_send_zc e fd buf len buf_idx user_data ctx true).1.sqes ≡ sqe ∷ e.sqes)
      × (sqe.fd ≡ fd)
      × (sqe.fixed_file ≡ false)
unfolding prep_send_zc prep_send_standard fill_sqe send_sqe
fallback_drops_fixed_file e fd buf len buf_idx user_data ctx unsupported free =
    (send_sqe e fd buf len user_data ctx false, rw (unsupported, free) refl, refl, refl)
