-- ===== src/Worker/Server/Counting/Serving.antt =====
-- src/worker.cpp: what the body of the loop of `run_server` counts.
use uring_perf.Base.{
  ℕ, zero, suc, ◌+◌, ◌≡◌, refl, ◌∙◌, Bool, true, false, [], ◌∷◌, ◌++◌, ◌==◌, if◌then◌else◌,
  is_negative, to_unsigned, Option-cases, Bool-cases, inl, inr,
}
use uring_perf.Net.Handshake.{Handshake, HandshakeResult, learnt, failed, waiting}
use uring_perf.Engine.State.{IoContext, CtxType, accept, send, recv, timer}
use uring_perf.Engine.Reap.{cqe_seen}
use uring_perf.Stats.Interleaving.{count_calls}
use uring_perf.Worker.Contexts.{find, make}
use uring_perf.Worker.Client.Accounting.{Outcome, ignored}
use uring_perf.Worker.Server.{
  ClientSession, Server, Event, Served, served, faults, hangs, lookup, drop_session, store_session,
  fill_session, open_session, queue, pool_context,
}
use uring_perf.Worker.Server.Handlers.{
  greet, rearm_accept, admit, on_accept, on_multishot, on_recv, dispatch, serve,
}
use uring_perf.Worker.Server.Counting.{
  counted_as, counted_in, Same, Counts, on_send-Counts, on_recv-Counts, on_multishot-Counts,
}

-- What is unchanged by a step that counts nothing.
abbrev pub Unchanged : Server → Server → Type 0
Unchanged s t = Same s t × (t.stats ≡ s.stats)

pub Unchanged-trans : (s t u : Server) → Unchanged s t → Unchanged t u → Unchanged s u
Unchanged-trans s t u ((a, b, c, x), h) ((d, e, f, y), g) = ((d ∙ a, e ∙ b, f ∙ c, y ∙ x), g ∙ h)

fill_session-Unchanged :
    (alloc : ℕ → ℕ) (receives : Bool) (n b : ℕ) (x : ClientSession) (s : Server)
    → Unchanged s (fill_session alloc receives n b x s).1
unfolding fill_session
fill_session-Unchanged alloc receives zero b x s = ((refl, refl, refl, refl), refl)
fill_session-Unchanged alloc receives (suc n) b x s =
    let buf = alloc s.allocs in
    let ctx = pool_context s (if receives then CtxType.recv else CtxType.send) x.client_fd b buf in
    let (p, ctxs) = make s.ctxs ctx in
    fill_session-Unchanged alloc receives n (b + 1)
      (record x { buffers = x.buffers ++ (buf ∷ []); contexts = x.contexts ++ (p ∷ []) })
      (record s { allocs = s.allocs + 1; ctxs = ctxs; engine = queue s p ctx receives })

if-Unchanged :
    (b : Bool) (s : Server) (u v : ClientSession × Server)
    → Unchanged s u.1
    → Unchanged s v.1
    → Unchanged s (if b then u else v).1
if-Unchanged true s u v h k = h
if-Unchanged false s u v h k = k

open_session-Unchanged :
    (alloc : ℕ → ℕ) (h : Handshake) (now fd : ℕ) (s : Server)
    → Unchanged s (open_session alloc h now fd s).1
unfolding open_session
open_session-Unchanged alloc h now fd s =
    if-Unchanged h.reverse s _ _ (fill_session-Unchanged alloc false s.config.in_flight 0 _ s) (
      if-Unchanged s.use_multishot s _ _ ((refl, refl, refl, refl), refl)
        (fill_session-Unchanged alloc true s.config.in_flight 0 _ s))

store_session-Unchanged :
    (fd : ℕ) (x : ClientSession) (s : Server) → Unchanged s (store_session fd x s)
unfolding store_session drop_session
store_session-Unchanged fd x s = elim (Option-cases (lookup fd s.sessions)) [
  | inl e ↦ rw (e, store_session) ((refl, refl, refl, refl), refl)
  | inr (old, e) ↦ rw (e, store_session) ((refl, refl, refl, refl), refl)
]

admit-Unchanged :
    (alloc : ℕ → ℕ) (fd now : ℕ) (h : Handshake) (s : Server) → Unchanged s (admit alloc fd now h s)
unfolding admit
admit-Unchanged alloc fd now h s =
    let r = open_session alloc h now fd s in
    Unchanged-trans s r.1 (store_session fd r.0 r.1) (open_session-Unchanged alloc h now fd s)
      (store_session-Unchanged fd r.0 r.1)

-- What is counted where a step comes to a state.
abbrev pub CountsOn : Server → Outcome → Served → Type 0
CountsOn s o (served t) = Counts s o t
CountsOn s o faults = Unit
CountsOn s o hangs = Unit

if-CountsOn :
    (b : Bool) (s : Server) (o : Outcome) (r q : Served)
    → CountsOn s o r
    → CountsOn s o q
    → CountsOn s o (if b then r else q)
if-CountsOn true s o r q h k = h
if-CountsOn false s o r q h k = k

on_accept-Counts :
    (alloc : ℕ → ℕ) (s : Server) (ev : Event) → CountsOn s ignored (on_accept alloc s ev)
unfolding on_accept rearm_accept count_calls
on_accept-Counts alloc s ev =
    if-CountsOn (is_negative ev.cqe.res) s ignored _ _ ((refl, refl, refl, refl), refl)
      (greeted (greet s ev))
  where
    fd : ℕ
    fd = to_unsigned ev.cqe.res

    after : HandshakeResult → Served
    after (learnt h) = served (rearm_accept (admit alloc fd ev.now h s))
    after failed = served (rearm_accept (record s { closed = fd ∷ s.closed }))
    after waiting = hangs

    greeted : (r : HandshakeResult) → CountsOn s ignored (after r)
    greeted (learnt h) = admit-Unchanged alloc fd ev.now h s
    greeted failed = ((refl, refl, refl, refl), refl)
    greeted waiting = tt

either_recv :
    (m : Bool) (s : Server) (p : ℕ) (ctx : IoContext) (ev : Event)
    → Counts s
        (counted_as m s.config recv ev.cqe)
        (if m then on_multishot s p ctx ev else on_recv s p ctx ev)
either_recv true s p ctx ev = on_multishot-Counts s p ctx ev
either_recv false s p ctx ev = on_recv-Counts s p ctx ev

dispatch-Counts :
    (k : CtxType) (alloc : ℕ → ℕ) (s : Server) (p : ℕ) (ctx : IoContext) (ev : Event)
    → CountsOn s (counted_as s.use_multishot s.config k ev.cqe) (dispatch k alloc s p ctx ev)
unfolding dispatch count_calls
dispatch-Counts accept alloc s p ctx ev = on_accept-Counts alloc s ev
dispatch-Counts send alloc s p ctx ev = on_send-Counts s p ctx ev
dispatch-Counts recv alloc s p ctx ev = either_recv s.use_multishot s p ctx ev
dispatch-Counts timer alloc s p ctx ev = ((refl, refl, refl, refl), refl)

mark_seen : Served → Served
mark_seen faults = faults
mark_seen hangs = hangs
mark_seen (served s) = served (record s { engine = cqe_seen s.engine })

mark_seen-Counts :
    (s : Server) (o : Outcome) (r : Served) → CountsOn s o r → CountsOn s o (mark_seen r)
unfolding mark_seen
mark_seen-Counts s o (served t) h = h
mark_seen-Counts s o faults h = tt
mark_seen-Counts s o hangs h = tt

pub serve-Counts :
    (alloc : ℕ → ℕ) (s : Server) (ev : Event) → CountsOn s (counted_in s ev) (serve alloc s ev)
unfolding serve mark_seen count_calls
serve-Counts alloc s ev = elim (Bool-cases (ev.cqe.user_data == 0)) [
  | inl null ↦ rw null ((refl, refl, refl, refl), refl)
  | inr n ↦ elim (Option-cases (find ev.cqe.user_data s.ctxs.alive)) [
    | inl dead ↦ rw (n, dead) tt
    | inr (ctx, e) ↦
        rw (n, e)
          (mark_seen-Counts s (counted_as s.use_multishot s.config ctx.ctx_type ev.cqe) _
            (dispatch-Counts ctx.ctx_type alloc s ev.cqe.user_data ctx ev))
  ]
]
