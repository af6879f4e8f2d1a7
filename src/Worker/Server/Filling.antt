-- ===== src/Worker/Server/Filling.antt =====
-- src/worker.cpp: what `run_server` queues for a new session.
use uring_perf.Base.{
  ℕ, zero, suc, ◌+◌, ◌≡◌, refl, sym, ap, ◌∙◌, Bool, true, false, List, [], ◌∷◌, ◌++◌, map, Option,
  none, some, if◌then◌else◌, arith, append_assoc, append-nil,
}
use uring_perf.Engine.State.{IoContext, CtxType}
use uring_perf.Engine.Operations.{
  Kind, sending, receiving, Operation, Queues, Queues-nil, Queues-append, prep_recv-Queues,
  prep_recv_multishot-Queues,
}
use uring_perf.Worker.Contexts.{make, addresses}
use uring_perf.Worker.Sending.{send_buffer-Queues}
use uring_perf.Worker.Server.{
  ClientSession, Server, owned, drop_session, store_session, pool_context, queue, fill_session,
  new_session, open_session,
}

-- Operations of a kind on a file, for some contexts.
abbrev pub operations_for : Kind → ℕ → List ℕ → List Operation
operations_for k fd ps = map (λ p. record { kind = k; file = fd; context = p }) ps

-- What a session does.
abbrev pub kind_for : Bool → Kind
kind_for reverse = if reverse then sending else receiving

-- How many operations a session keeps.
abbrev pub depth_for : Server → Bool → ℕ
depth_for s reverse =
    if reverse then s.config.in_flight else if s.use_multishot then 1 else s.config.in_flight

-- A session that got contexts from the next address on, and an operation of the kind queued for each.
pub record IsFilled (k : Kind) (fd n : ℕ) (before : List ℕ) (s : Server)
    (r : ClientSession × Server) : Type 0 where
  pub contexts : owned r.0 ≡ before ++ addresses s.ctxs.next n
  pub queued : Queues s.engine (operations_for k fd (addresses s.ctxs.next n)) r.1.engine
  pub listens : r.1.listen_fd ≡ s.listen_fd
  pub accepts : r.1.accept_ctx ≡ s.accept_ctx

queue-Queues :
    (s : Server) (p : ℕ) (ctx : IoContext) (receives : Bool)
    → Queues s.engine
        (operations_for (if receives then receiving else sending) ctx.fd (p ∷ []))
        (queue s p ctx receives)
unfolding queue
queue-Queues s p ctx true =
    prep_recv-Queues s.engine ctx.fd ctx.buf_ptr ctx.length ctx.buf_idx p false
queue-Queues s p ctx false = send_buffer-Queues s.config.zero_copy s.engine p ctx false

fill_session-IsFilled :
    (alloc : ℕ → ℕ) (receives : Bool) (n b : ℕ) (x : ClientSession) (s : Server)
    → x.ms_ctx ≡ none
    → IsFilled
        (if receives then receiving else sending)
        x.client_fd
        n
        x.contexts
        s
        (fill_session alloc receives n b x s)
unfolding fill_session make
fill_session-IsFilled alloc receives zero b x s h = record {
  contexts =
      ap (λ (o : Option ℕ). (elim o [ none ↦ [] | some p ↦ p ∷ [] ]) ++ x.contexts) h
      ∙ sym (append-nil x.contexts);
  queued = Queues-nil s.engine s.engine refl refl refl;
  listens = refl;
  accepts = refl;
}
fill_session-IsFilled alloc receives (suc n) b x s h =
    let buf = alloc s.allocs in
    let ctx = pool_context s (if receives then CtxType.recv else CtxType.send) x.client_fd b buf in
    let p = s.ctxs.next in
    let more = record x { buffers = x.buffers ++ (buf ∷ []); contexts = x.contexts ++ (p ∷ []) } in
    let next = record s {
      allocs = s.allocs + 1;
      ctxs = (make s.ctxs ctx).1;
      engine = queue s p ctx receives;
    } in
    let v = fill_session-IsFilled alloc receives n (b + 1) more next h in
    record {
      contexts = v.contexts ∙ append_assoc x.contexts (p ∷ []) (addresses (p + 1) n);
      queued =
          Queues-append s.engine next.engine _
            (operations_for (if receives then receiving else sending) x.client_fd (p ∷ [])) _
            (queue-Queues s p ctx receives) v.queued;
      listens = v.listens;
      accepts = v.accepts;
    }

if-IsFilled :
    (b : Bool) (k : Kind) (fd n m : ℕ) (s : Server) (r q : ClientSession × Server)
    → IsFilled k fd n [] s r
    → IsFilled k fd m [] s q
    → IsFilled k fd (if b then n else m) [] s (if b then r else q)
if-IsFilled true k fd n m s r q h g = h
if-IsFilled false k fd n m s r q h g = g

-- A session that sends has all its sends queued, and one that receives its receives, or the multishot
-- one.
pub open_session-IsFilled :
    (alloc : ℕ → ℕ) (r : Bool) (d now fd : ℕ) (s : Server)
    → IsFilled
        (kind_for r)
        fd
        (depth_for s r)
        []
        s
        (open_session alloc (record { reverse = r; duration_sec = d }) now fd s)
unfolding open_session make
open_session-IsFilled alloc true d now fd s =
    fill_session-IsFilled alloc false s.config.in_flight 0 _ s refl
open_session-IsFilled alloc false d now fd s =
    if-IsFilled s.use_multishot receiving fd 1 s.config.in_flight s _ _
      (record {
        contexts = refl;
        queued = prep_recv_multishot-Queues s.engine fd s.ctxs.next false;
        listens = refl;
        accepts = refl;
      })
      (fill_session-IsFilled alloc true s.config.in_flight 0 (new_session fd) s refl)

-- Storing a session queues nothing.
pub store_session_keeps :
    (fd : ℕ) (x : ClientSession) (s : Server)
    → let t = store_session fd x s in
      (t.engine ≡ s.engine) × (t.listen_fd ≡ s.listen_fd) × (t.accept_ctx ≡ s.accept_ctx)
unfolding store_session drop_session
store_session_keeps fd x s = ground arith
