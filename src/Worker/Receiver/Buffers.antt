-- ===== src/Worker/Receiver/Buffers.antt =====
-- src/worker.cpp: `run_client_reverse_recv` gives back the buffers that it is given.
use uring_perf.Base.{
  ℕ, ◌+◌, ◌≡◌, refl, ap, subst, ◌∙◌, Bool, true, false, not, ◌&&◌, ◌||◌, List, [], ◌∷◌, Option,
  none, some, ◌==◌, if◌then◌else◌, inl, inr, arith, Bool-cases, has_flag, is_errno,
}
use uring_perf.Base.Errno
use uring_perf.Engine.State.{Engine, BufRing, Sqe}
use uring_perf.Engine.Prep.{fill_sqe, prep_recv_multishot}
use uring_perf.Engine.Provided.{return_recv_buffer_lem}
use uring_perf.Engine.Reap.{Cqe, cqe_seen}
use uring_perf.Worker.Cqe.{cqe_f_more, buffer_id}
use uring_perf.Worker.Client.{Completion}
use uring_perf.Worker.Receiver.{
  Receiver, carries_buffer, take_buffer, peer_closes, multishot_ended, receive_multishot,
  receive_single, receive, receive_all,
}

-- A multishot receiver that has published n buffers so far, and whether its peer has closed.
record IsHolding (n : ℕ) (closed : Bool) (c : Receiver) : Type 0 where
  multishot : c.use_multishot ≡ true
  ring : BufRing
  held : c.engine.recv_buf_ring ≡ some ring
  count : ring.published ≡ n
  peer : c.peer_closed ≡ closed

-- The buffers that a completion brings.
abbrev pub brought : Cqe → ℕ
brought cqe = if cqe.user_data == 0 then 0 else if carries_buffer cqe then 1 else 0

abbrev pub all_brought : List Completion → ℕ
all_brought [] = 0
all_brought (d ∷ ds) = brought d.cqe + all_brought ds

-- The completion is the last of a multishot operation, for another reason than a lack of buffers.
abbrev pub is_end : Cqe → Bool
is_end cqe =
    not (cqe.user_data == 0)
    && (not (has_flag cqe.flags cqe_f_more) && not (is_errno cqe.res Errno.enobufs))

abbrev pub some_end : List Completion → Bool
some_end [] = false
some_end (d ∷ ds) = is_end d.cqe || some_end ds

fill_sqe-ring : (e : Engine) (sqe : Sqe) → (fill_sqe e sqe).1.recv_buf_ring ≡ e.recv_buf_ring
unfolding fill_sqe
fill_sqe-ring e sqe = ground arith

take_buffer-IsHolding :
    (n : ℕ) (b : Bool) (c : Receiver) (cqe : Cqe)
    → IsHolding n b c
    → IsHolding (n + (if carries_buffer cqe then 1 else 0)) b (take_buffer c cqe)
unfolding take_buffer
take_buffer-IsHolding n b c cqe v = elim (Bool-cases (carries_buffer cqe)) [
  | inl e ↦ rw e (record {
    multishot = v.multishot;
    ring = _;
    held = return_recv_buffer_lem c.engine (buffer_id cqe) v.held;
    count = ap (λ x. x + 1) v.count;
    peer = v.peer;
  })
  | inr e ↦ rw e (subst (λ x. IsHolding x b c) (omega arith) v)
]

multishot_ended-IsHolding :
    (n : ℕ) (b : Bool) (c : Receiver) (cqe : Cqe)
    → IsHolding n b c
    → IsHolding n (b || not (is_errno cqe.res Errno.enobufs)) (multishot_ended c cqe)
unfolding multishot_ended peer_closes prep_recv_multishot
multishot_ended-IsHolding n b c cqe v = elim (Bool-cases (is_errno cqe.res Errno.enobufs)) [
  | inl e ↦ rw e (record {
    multishot = v.multishot;
    ring = v.ring;
    held = fill_sqe-ring c.engine _ ∙ v.held;
    count = v.count;
    peer = v.peer ∙ ground arith;
  })
  | inr e ↦ rw e (record {
    multishot = v.multishot;
    ring = v.ring;
    held = v.held;
    count = v.count;
    peer = ground arith;
  })
]

receive_multishot-IsHolding :
    (n : ℕ) (b : Bool) (c : Receiver) (cqe : Cqe)
    → IsHolding n b c
    → IsHolding
        (n + (if carries_buffer cqe then 1 else 0))
        (b || (not (has_flag cqe.flags cqe_f_more) && not (is_errno cqe.res Errno.enobufs)))
        (receive_multishot c cqe)
unfolding receive_multishot
receive_multishot-IsHolding n b c cqe v =
    let t = take_buffer-IsHolding n b c cqe v in
    elim (Bool-cases (has_flag cqe.flags cqe_f_more)) [
      | inl e ↦ rw e (
          subst (λ x. IsHolding (n + (if carries_buffer cqe then 1 else 0)) x (take_buffer c cqe))
            (ground arith) t)
      | inr e ↦ rw e (multishot_ended-IsHolding _ b (take_buffer c cqe) cqe t)
    ]

cqe_seen-IsHolding :
    (n : ℕ) (b : Bool) (c : Receiver)
    → IsHolding n b c
    → IsHolding n b (record c { engine = cqe_seen c.engine })
unfolding cqe_seen
cqe_seen-IsHolding n b c v = record {
  multishot = v.multishot;
  ring = v.ring;
  held = v.held;
  count = v.count;
  peer = v.peer;
}

or_false : (b : Bool) → b ≡ (b || false)
or_false true = refl
or_false false = refl

-- Nothing more was brought, and nothing ended.
same-IsHolding :
    {n : ℕ} {b : Bool} {c : Receiver} → IsHolding n b c → IsHolding (n + 0) (b || false) c
same-IsHolding {n} {b} {c} v =
    subst (λ x. IsHolding x (b || false) c) {x = n} (omega arith)
      (subst (λ x. IsHolding n x c) (or_false b) v)

finish : Option Receiver → Option Receiver
finish none = none
finish (some c) = some (record c { engine = cqe_seen c.engine })

receive-IsHolding :
    (n : ℕ) (b : Bool) (c : Receiver) (d : Completion)
    → IsHolding n b c
    → (c' : Receiver) × (receive c d ≡ some c')
      × IsHolding (n + brought d.cqe) (b || is_end d.cqe) c'
unfolding receive finish
receive-IsHolding n b c d v = elim (Bool-cases (d.cqe.user_data == 0)) [
  | inl null ↦ (
    record c { engine = cqe_seen c.engine },
    rw null refl,
    rw null (same-IsHolding (cqe_seen-IsHolding n b c v)),
  )
  | inr known ↦
      let w = receive_multishot-IsHolding n b c d.cqe v in
      (
        record (receive_multishot c d.cqe) { engine = cqe_seen (receive_multishot c d.cqe).engine },
        rw known (
            ap
              (λ m.
                finish
                  (if m then some (receive_multishot c d.cqe) else receive_single c d.cqe d.stop))
              v.multishot),
        rw known (cqe_seen-IsHolding _ _ _ w),
      )
]

or_assoc : (a b c : Bool) → ((a || b) || c) ≡ (a || (b || c))
or_assoc true b c = refl
or_assoc false b c = refl

receive_all-IsHolding :
    (n : ℕ) (b : Bool) (c : Receiver) (ds : List Completion)
    → IsHolding n b c
    → (c' : Receiver) × (receive_all c ds ≡ some c')
      × IsHolding (n + all_brought ds) (b || some_end ds) c'
unfolding receive_all
receive_all-IsHolding n b c [] v = (c, refl, same-IsHolding v)
receive_all-IsHolding n b c (d ∷ ds) v =
    let (m, e, w) = receive-IsHolding n b c d v in
    let (c', e', w') = receive_all-IsHolding (n + brought d.cqe) (b || is_end d.cqe) m ds w in
    (
      c',
      rw (e, receive_all) e',
      subst (λ x. IsHolding x (b || some_end (d ∷ ds)) c') (omega arith)
          (subst (λ x. IsHolding (n + brought d.cqe + all_brought ds) x c') (or_assoc b _ _) w'),
    )

-- A multishot receiver with a buffer ring handles any completions without a fault. It gives back to
-- the kernel exactly as many buffers as the completions bring, and notes that its peer has closed
-- exactly if one of them ends the operation for another reason than a lack of buffers, or it had.
pub receive_all-returns :
    (c : Receiver) (ds : List Completion) (r : BufRing)
    → c.use_multishot ≡ true
    → c.engine.recv_buf_ring ≡ some r
    → (c' : Receiver) × (r' : BufRing) × (receive_all c ds ≡ some c')
      × (c'.engine.recv_buf_ring ≡ some r')
      × (r'.published ≡ r.published + all_brought ds)
      × (c'.peer_closed ≡ (c.peer_closed || some_end ds))
receive_all-returns c ds r m h =
    let (c', e, w) =
      receive_all-IsHolding r.published c.peer_closed c ds
        (record { multishot = m; ring = r; held = h; count = refl; peer = refl }) in
    (c', w.ring, e, w.held, w.count, w.peer)
