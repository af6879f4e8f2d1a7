-- ===== src/Worker/Server/Joining.antt =====
-- src/worker.cpp: the connections that `run_server` accepts with multishot receives.
use uring_perf.Base.{
  ℕ, ◌≡◌, refl, sym, ap, subst, ◌∙◌, false, List, ◌∷◌, none, some, arith, ℤ, pos, negsuc,
  is_negative, to_unsigned,
}
use uring_perf.Net.Handshake.{Handshake, HandshakeResult, learnt, failed, waiting}
use uring_perf.Engine.State.{IoContext}
use uring_perf.Engine.Prep.{prep_recv_multishot}
use uring_perf.Worker.Contexts.{find, make}
use uring_perf.Worker.Server.{
  ClientSession, Server, Event, Served, served, faults, hangs, lookup, store_session, open_session,
  new_session, multishot_context,
}
use uring_perf.Worker.Server.Handlers.{greet, rearm_accept, admit, on_accept}
use uring_perf.Worker.Server.Listening.{find-make_above}
use uring_perf.Worker.Server.Multishot.{IsKept-map}
use uring_perf.Worker.Server.Ending.{awaited-next}
use uring_perf.Worker.Server.Flight.{
  frame, IsMultishot, with-IsMultishot, prep_recv_multishot-submitted, rearm_accept-IsMultishot,
}
use uring_perf.Worker.Server.Receiving.{pick-then, pick-else}

pub store_session-new :
    (fd : ℕ) (x : ClientSession) (s : Server)
    → lookup fd s.sessions ≡ none
    → store_session fd x s ≡ record s { sessions = (fd, x) ∷ s.sessions }
unfolding store_session
store_session-new fd x s e = rw (e, store_session) refl

-- The server with a connection more.
joined : Server → ℕ → Server
joined s fd = record s {
  ctxs = (make s.ctxs (multishot_context s fd)).1;
  engine = (prep_recv_multishot s.engine fd s.ctxs.next false).1;
  sessions = (fd, record (new_session fd) { ms_ctx = some s.ctxs.next }) ∷ s.sessions;
}

find-made : (s : Server) (ctx : IoContext) → find s.ctxs.next (make s.ctxs ctx).1.alive ≡ some ctx
unfolding make find
find-made s ctx = ground arith

joined-IsMultishot :
    (finals : List ℕ) (s : Server) (fd : ℕ)
    → lookup fd s.sessions ≡ none
    → IsMultishot finals s
    → IsMultishot finals (joined s fd)
unfolding joined make
joined-IsMultishot finals s fd fresh v = record {
  multishot = v.multishot;
  tcp = v.tcp;
  listening = find-make_above s.accept_ctx s.ctxs _ v.below ∙ v.listening;
  below = omega (arith, v.below);
  kept = (
    (
      s.ctxs.next,
      refl,
      refl,
      find-made s (multishot_context s fd),
      omega arith,
      (λ e. omega (arith, e, v.below)),
      fresh,
      awaited-next (frame s) s.ctxs.next s.sessions v.kept (omega arith),
    ),
    IsKept-map (frame s) _ s.sessions refl refl (omega arith)
        (λ p more less. find-make_above p s.ctxs (multishot_context s fd) less) v.kept,
  );
  forward = (refl, v.forward);
  flights = λ w.
      ground (arith, v.flights w, prep_recv_multishot-submitted s.engine fd s.ctxs.next false w);
  fresh =
      λ w. ground (arith, v.fresh w, prep_recv_multishot-submitted s.engine fd s.ctxs.next false w);
}

-- A result of the handshake that does not ask for the reverse direction.
abbrev pub IsForward : HandshakeResult → Type 0
IsForward (learnt h) = h.reverse ≡ false
IsForward failed = Unit
IsForward waiting = Unit

admit-IsMultishot :
    (alloc : ℕ → ℕ) (finals : List ℕ) (fd now : ℕ) (h : Handshake) (s : Server)
    → h.reverse ≡ false
    → lookup fd s.sessions ≡ none
    → IsMultishot finals s
    → IsMultishot finals (admit alloc fd now h s)
unfolding admit open_session joined store_session lookup make
admit-IsMultishot alloc finals fd now h s forward fresh v =
    pick-else (λ (r : ClientSession × Server). IsMultishot finals (store_session fd r.0 r.1))
      h.reverse _ _ forward
      (pick-then (λ (r : ClientSession × Server). IsMultishot finals (store_session fd r.0 r.1))
        s.use_multishot _ _ v.multishot
        (subst (IsMultishot finals) (sym (store_session-new fd _ _ fresh))
          (joined-IsMultishot finals s fd fresh v)))

-- No fault, and the state that comes of it.
abbrev pub IsSafe : List ℕ → Served → Type 0
IsSafe finals (served s) = IsMultishot finals s
IsSafe finals hangs = Unit
IsSafe finals faults = ⊥

-- The kernel gives a connection a descriptor that is not in use, and its peer does not ask for the
-- reverse direction.
abbrev pub IsTaken : Server → Event → ℤ → Type 0
IsTaken s ev (negsuc n) = Unit
IsTaken s ev (pos fd) = (lookup fd s.sessions ≡ none) × IsForward (greet s ev)

pub on_accept-IsSafe :
    (alloc : ℕ → ℕ) (finals : List ℕ) (s : Server) (ev : Event) (res : ℤ)
    → ev.cqe.res ≡ res
    → IsTaken s ev res
    → IsMultishot finals s
    → IsSafe finals (on_accept alloc s ev)
unfolding on_accept
on_accept-IsSafe alloc finals s ev (negsuc n) e taken v =
    pick-then (IsSafe finals) (is_negative ev.cqe.res) _ _ (ap is_negative e)
      (rearm_accept-IsMultishot finals s v)
on_accept-IsSafe alloc finals s ev (pos fd) e (fresh, forward) v =
    pick-else (IsSafe finals) (is_negative ev.cqe.res) _ _ (ap is_negative e) (
      subst (λ x. IsSafe finals (after x (greet s ev))) (sym (ap to_unsigned e))
        (greeted (greet s ev) forward))
  where
    after : ℕ → HandshakeResult → Served
    after x (learnt h) = served (rearm_accept (admit alloc x ev.now h s))
    after x failed = served (rearm_accept (record s { closed = x ∷ s.closed }))
    after x waiting = hangs

    greeted : (r : HandshakeResult) → IsForward r → IsSafe finals (after fd r)
    greeted (learnt h) f =
        rearm_accept-IsMultishot finals _ (admit-IsMultishot alloc finals fd ev.now h s f fresh v)
    greeted failed f =
        rearm_accept-IsMultishot finals _
          (with-IsMultishot finals s s.stats s.engine (fd ∷ s.closed) refl v)
    greeted waiting f = tt
