-- ===== src/Worker/Receiver/Counting.antt =====
-- src/worker.cpp: what `run_client_reverse_recv` counts of a completion, and when it ends.
use uring_perf.Base.{
  ℕ, ◌≡◌, refl, ap, ◌∙◌, Bool, true, false, not, ◌&&◌, ◌||◌, Option, none, some, ◌==◌,
  if◌then◌else◌, ◌⊎◌, inl, inr, arith, is_positive, is_negative, is_errno, to_unsigned, has_flag, ℤ,
  pos, negsuc,
}
use uring_perf.Base.Errno
use uring_perf.Engine.State.{Engine, IoContext}
use uring_perf.Engine.Prep.{prep_recv}
use uring_perf.Engine.Reap.{Cqe, cqe_seen}
use uring_perf.Engine.Memory.{
  ring_mem, prep_recv-ring_mem, prep_recv_multishot-ring_mem, return_recv_buffer-ring_mem,
  cqe_seen-ring_mem,
}
use uring_perf.Stats.Counters.{StatsCollector, add_bytes}
use uring_perf.Stats.Interleaving.{count_call, count_calls}
use uring_perf.Worker.Cqe.{cqe_f_more, buffer_id, is_again}
use uring_perf.Worker.Contexts.{find}
use uring_perf.Worker.Client.{Completion}
use uring_perf.Worker.Client.Accounting.{Outcome, ignored, refused, delivered, report}
use uring_perf.Worker.Receiver.{
  Receiver, carries_buffer, take_buffer, peer_closes, multishot_ended, receive_multishot,
  receive_next, receive_single, receive,
}

-- What a completion of an operation is to be counted as, in multishot mode and in the other.
abbrev pub taken : Bool → Cqe → Outcome
taken true c =
    if carries_buffer c
    then delivered (to_unsigned c.res) 1
    else if not (has_flag c.flags cqe_f_more)
        && (not (is_errno c.res Errno.enobufs) && is_negative c.res)
    then refused
    else ignored
taken false c =
    if is_positive c.res
    then delivered (to_unsigned c.res) 1
    else if is_again c
    then ignored
    else if is_negative c.res
    then refused
    else ignored

-- Whether it ends the stream.
abbrev pub closing : Bool → Cqe → Bool
closing true c = not (has_flag c.flags cqe_f_more) && not (is_errno c.res Errno.enobufs)
closing false c = if is_positive c.res then false else if is_again c then false else true

abbrev pub received : Bool → Cqe → Outcome
received m c = if c.user_data == 0 then ignored else taken m c

abbrev pub closes : Bool → Cqe → Bool
closes m c = if c.user_data == 0 then false else closing m c

-- What the handlers leave alone.
pub record Keeps (c c' : Receiver) : Type 0 where
  pub config : c'.config ≡ c.config
  pub thread_id : c'.thread_id ≡ c.thread_id
  pub ctxs : c'.ctxs ≡ c.ctxs
  pub use_multishot : c'.use_multishot ≡ c.use_multishot
  pub sockfd : c'.sockfd ≡ c.sockfd
  pub recv_buffers : c'.recv_buffers ≡ c.recv_buffers
  pub memory : ring_mem c'.engine ≡ ring_mem c.engine

-- The counters and the end of the stream do not matter, nor does the engine while it holds its memory.
pub with_rest-Keeps :
    (c : Receiver) (st : StatsCollector) (e : Engine) (b : Bool)
    → ring_mem e ≡ ring_mem c.engine
    → Keeps c (record c { stats = st; engine = e; peer_closed = b })
with_rest-Keeps c st e b same = record {
  config = refl;
  thread_id = refl;
  ctxs = refl;
  use_multishot = refl;
  sockfd = refl;
  recv_buffers = refl;
  memory = same;
}

pub Keeps-trans : (a b c : Receiver) → Keeps a b → Keeps b c → Keeps a c
Keeps-trans a b c h k = record {
  config = k.config ∙ h.config;
  thread_id = k.thread_id ∙ h.thread_id;
  ctxs = k.ctxs ∙ h.ctxs;
  use_multishot = k.use_multishot ∙ h.use_multishot;
  sockfd = k.sockfd ∙ h.sockfd;
  recv_buffers = k.recv_buffers ∙ h.recv_buffers;
  memory = k.memory ∙ h.memory;
}

-- A step that is no fault, counts an outcome, and notes the end of the stream.
abbrev pub Counts : Receiver → Outcome → Bool → Option Receiver → Type 0
Counts c o b r =
    (c' : Receiver) × (r ≡ some c')
    × Keeps c c'
    × (c'.stats ≡ count_calls c.stats (report c.thread_id o))
    × (c'.peer_closed ≡ (c.peer_closed || b))

no_error : (r : ℤ) → is_positive r ≡ true → is_negative r ≡ false
no_error (pos n) h = refl
no_error (negsuc n) h = cc

if-Keeps : (b : Bool) (c u v : Receiver) → Keeps c u → Keeps c v → Keeps c (if b then u else v)
if-Keeps true c u v h k = h
if-Keeps false c u v h k = k

take_buffer-Keeps : (c : Receiver) (cqe : Cqe) → Keeps c (take_buffer c cqe)
unfolding take_buffer
take_buffer-Keeps c cqe =
    if-Keeps (carries_buffer cqe) c _ c
      (with_rest-Keeps c _ _ c.peer_closed (return_recv_buffer-ring_mem c.engine (buffer_id cqe)))
      (with_rest-Keeps c c.stats c.engine c.peer_closed refl)

multishot_ended-Keeps : (c : Receiver) (cqe : Cqe) → Keeps c (multishot_ended c cqe)
unfolding multishot_ended peer_closes
multishot_ended-Keeps c cqe =
    if-Keeps (is_errno cqe.res Errno.enobufs) c _ _
      (with_rest-Keeps c c.stats _ c.peer_closed
        (prep_recv_multishot-ring_mem c.engine c.sockfd cqe.user_data false))
      (with_rest-Keeps c _ c.engine true refl)

receive_multishot-Counts :
    (c : Receiver) (cqe : Cqe)
    → Counts c (taken true cqe) (closing true cqe) (some (receive_multishot c cqe))
unfolding receive_multishot take_buffer multishot_ended peer_closes count_calls count_call
receive_multishot-Counts c cqe =
    let t = take_buffer c cqe in
    (
      receive_multishot c cqe,
      refl,
      Keeps-trans c t _ (take_buffer-Keeps c cqe) (
          if-Keeps (has_flag cqe.flags cqe_f_more) t _ _
            (with_rest-Keeps t t.stats t.engine t.peer_closed refl) (multishot_ended-Keeps t cqe)),
      ground (arith, no_error cqe.res),
      ground arith,
    )

or_false : (b : Bool) → b ≡ (b || false)
or_false true = refl
or_false false = refl

or_true : (b : Bool) → true ≡ (b || true)
or_true true = refl
or_true false = refl

-- The next receive changes nothing but the engine.
receive_next-Keeps :
    (c : Receiver) (p : ℕ) (stop : Bool) {ctx : IoContext}
    → find p c.ctxs.alive ≡ some ctx
    → (c' : Receiver) × (receive_next c p stop ≡ some c')
      × Keeps c c'
      × (c'.stats ≡ c.stats)
      × (c'.peer_closed ≡ c.peer_closed)
unfolding receive_next
receive_next-Keeps c p true f = (c, refl, with_rest-Keeps c _ _ _ refl, refl, refl)
receive_next-Keeps c p false {ctx} f = (
  record c { engine = (prep_recv c.engine c.sockfd ctx.buf_ptr ctx.length ctx.buf_idx p false).1 },
  rw (f, receive_next) refl,
  with_rest-Keeps c _ _ _
      (prep_recv-ring_mem c.engine c.sockfd ctx.buf_ptr ctx.length ctx.buf_idx p false),
  refl,
  refl,
)

if-Counts :
    (b : Bool) (c : Receiver) (o p : Outcome) (x y : Bool) (r s : Option Receiver)
    → Counts c o x r
    → Counts c p y s
    → Counts c (if b then o else p) (if b then x else y) (if b then r else s)
if-Counts true c o p x y r s h k = h
if-Counts false c o p x y r s h k = k

peer_closes-Counts :
    (c : Receiver) (cqe : Cqe)
    → Counts c (if is_negative cqe.res then refused else ignored) true (some (peer_closes c cqe))
unfolding peer_closes count_calls count_call
peer_closes-Counts c cqe =
    (peer_closes c cqe, refl, with_rest-Keeps c _ _ _ refl, ground arith, or_true c.peer_closed)

receive_single-Counts :
    (c : Receiver) (cqe : Cqe) (stop : Bool) {ctx : IoContext}
    → find cqe.user_data c.ctxs.alive ≡ some ctx
    → Counts c (taken false cqe) (closing false cqe) (receive_single c cqe stop)
unfolding receive_single count_calls count_call
receive_single-Counts c cqe stop f =
    let counted : Receiver = record c {
      stats = add_bytes c.stats c.thread_id (to_unsigned cqe.res) 1;
    } in
    let (m, e, k, s, p) = receive_next-Keeps counted cqe.user_data stop f in
    let (m2, e2, k2, s2, p2) = receive_next-Keeps c cqe.user_data stop f in
    if-Counts (is_positive cqe.res) c (delivered (to_unsigned cqe.res) 1) _ false _ _ _
      (
        m,
        e,
        Keeps-trans c counted m (with_rest-Keeps c counted.stats c.engine c.peer_closed refl) k,
        s,
        p ∙ or_false c.peer_closed,
      )
      (if-Counts (is_again cqe) c ignored _ false true _ _
        (m2, e2, k2, s2, p2 ∙ or_false c.peer_closed) (peer_closes-Counts c cqe))

-- The last line of the body.
finish : Option Receiver → Option Receiver
finish none = none
finish (some c) = some (record c { engine = cqe_seen c.engine })

finish-Counts :
    (c : Receiver) (o : Outcome) (b : Bool) (r : Option Receiver)
    → Counts c o b r
    → Counts c o b (finish r)
unfolding finish
finish-Counts c o b r (c', e, k, s, p) = (
  record c' { engine = cqe_seen c'.engine },
  ap finish e,
  Keeps-trans c c' _ k (
      with_rest-Keeps c' c'.stats (cqe_seen c'.engine) c'.peer_closed
        (cqe_seen-ring_mem c'.engine)),
  s,
  p,
)

-- The kernel gives back the address of a context of the pool, or none.
abbrev pub IsKnown : Receiver → Completion → Type 0
IsKnown c d =
    (d.cqe.user_data ≡ 0) ⊎ ((ctx : IoContext) × (find d.cqe.user_data c.ctxs.alive ≡ some ctx))

either-Counts :
    (m : Bool) (c : Receiver) (d : Completion) {ctx : IoContext}
    → find d.cqe.user_data c.ctxs.alive ≡ some ctx
    → Counts c
        (taken m d.cqe)
        (closing m d.cqe)
        (if m then some (receive_multishot c d.cqe) else receive_single c d.cqe d.stop)
either-Counts true c d f = receive_multishot-Counts c d.cqe
either-Counts false c d f = receive_single-Counts c d.cqe d.stop f

seen-Counts :
    (c : Receiver) → Counts c ignored false (some (record c { engine = cqe_seen c.engine }))
unfolding count_calls
seen-Counts c = (
  record c { engine = cqe_seen c.engine },
  refl,
  with_rest-Keeps c _ _ _ (cqe_seen-ring_mem c.engine),
  refl,
  or_false c.peer_closed,
)

pub receive-Counts :
    (c : Receiver) (d : Completion)
    → IsKnown c d
    → Counts c (received c.use_multishot d.cqe) (closes c.use_multishot d.cqe) (receive c d)
unfolding receive finish
receive-Counts c d (inl null) =
    let e : d.cqe.user_data == 0 ≡ true = ground arith in rw e (seen-Counts c)
receive-Counts c d (inr (ctx, f)) =
    if-Counts (d.cqe.user_data == 0) c ignored _ false _ _ _ (seen-Counts c) (
      finish-Counts c (taken c.use_multishot d.cqe) (closing c.use_multishot d.cqe) _
        (either-Counts c.use_multishot c d f))
