-- ===== src/Worker/Server/Lifetime.antt =====
-- src/worker.cpp: the contexts of a session of `run_server` die with it, and the completions of its
-- operations come later.
use uring_perf.Base.{
  ℕ, ◌≤◌, ◌≡◌, refl, ◌≢◌, sym, ap, subst, ◌∙◌, true, false, List, [], ◌∷◌, none, some, ◌==◌,
  if◌then◌else◌, ◌⊎◌, inl, inr, arith, Bool-cases, is_positive,
}
use uring_perf.Engine.State.{IoContext, recv}
use uring_perf.Engine.Reap.{cqe_seen}
use uring_perf.Worker.Cqe.{is_again}
use uring_perf.Worker.Contexts.{Among, find, find-remove_all, find-remove_all-none}
use uring_perf.Worker.Server.{
  ClientSession, Server, Event, Served, served, faults, hangs, lookup, owned, is_expired,
  drop_session, end_session, sweep_from, sweep,
}
use uring_perf.Worker.Server.Handlers.{note_error, clean_up, on_recv, on_multishot, dispatch, serve}

pub serve_dead :
    (alloc : ℕ → ℕ) (s : Server) (ev : Event)
    → ev.cqe.user_data ≢ 0
    → find ev.cqe.user_data s.ctxs.alive ≡ none
    → serve alloc s ev ≡ faults
unfolding serve
serve_dead alloc s ev known dead = elim (Bool-cases (ev.cqe.user_data == 0)) [
  | inl null ↦ absurd (known (ground arith))
  | inr n ↦ rw (n, dead) refl
]

-- What the handler of the single-shot branch leaves at the end of a connection.
ended : Server → ℕ → ClientSession → Event → Server
ended s fd x ev =
    let t = end_session fd x (note_error s ev) in record t { engine = cqe_seen t.engine }

clean_up_found :
    (fd : ℕ) (s : Server) (x : ClientSession)
    → lookup fd s.sessions ≡ some x
    → clean_up fd s ≡ end_session fd x s
unfolding clean_up
clean_up_found fd s x found = rw (found, clean_up) refl

on_recv_end :
    (s : Server) (p : ℕ) (ctx : IoContext) (ev : Event) (x : ClientSession)
    → lookup ctx.fd s.sessions ≡ some x
    → is_positive ev.cqe.res ≡ false
    → is_again ev.cqe ≡ false
    → on_recv s p ctx ev ≡ end_session ctx.fd x (note_error s ev)
unfolding on_recv note_error
on_recv_end s p ctx ev x found n a = rw (n, a) (clean_up_found ctx.fd (note_error s ev) x found)

serve_recv :
    (alloc : ℕ → ℕ) (s : Server) (ev : Event) (ctx : IoContext) {t : Server}
    → s.use_multishot ≡ false
    → ev.cqe.user_data ≢ 0
    → find ev.cqe.user_data s.ctxs.alive ≡ some ctx
    → ctx.ctx_type ≡ recv
    → on_recv s ev.cqe.user_data ctx ev ≡ t
    → serve alloc s ev ≡ served (record t { engine = cqe_seen t.engine })
unfolding serve dispatch
serve_recv alloc s ev ctx {t} single known alive kind e =
    elim (Bool-cases (ev.cqe.user_data == 0)) [
      | inl null ↦ absurd (known (ground arith))
      | inr n ↦ rw (n, alive) (ap mark dispatched)
    ]
  where
    mark : Served → Served
    mark faults = faults
    mark hangs = hangs
    mark (served r) = served (record r { engine = cqe_seen r.engine })

    dispatched : dispatch ctx.ctx_type alloc s ev.cqe.user_data ctx ev ≡ served t
    dispatched =
        ap (λ k. dispatch k alloc s ev.cqe.user_data ctx ev) kind
        ∙ ap
            (λ b. served (
              if b
              then on_multishot s ev.cqe.user_data ctx ev
              else on_recv s ev.cqe.user_data ctx ev))
            single
        ∙ ap served e

-- In a server without multishot, let a receive of a session complete with a result that is neither
-- positive nor EAGAIN, as at the end of the stream. Its handler frees every context of the
-- session, so the handler of a further completion for any of them reads a context that is dead.
pub end_of_stream_faults :
    (alloc : ℕ → ℕ) (s : Server) (ctx : IoContext) (x : ClientSession) (first second : Event)
    → s.use_multishot ≡ false
    → first.cqe.user_data ≢ 0
    → find first.cqe.user_data s.ctxs.alive ≡ some ctx
    → ctx.ctx_type ≡ recv
    → lookup ctx.fd s.sessions ≡ some x
    → is_positive first.cqe.res ≡ false
    → is_again first.cqe ≡ false
    → second.cqe.user_data ≢ 0
    → Among second.cqe.user_data (owned x)
    → (s' : Server) × (serve alloc s first ≡ served s') × (serve alloc s' second ≡ faults)
unfolding ended end_session drop_session note_error
end_of_stream_faults alloc s ctx x first second single known alive kind found p a other m = (
  ended s ctx.fd x first,
  serve_recv alloc s first ctx single known alive kind (on_recv_end s _ ctx first x found p a),
  serve_dead alloc _ second other (find-remove_all second.cqe.user_data (owned x) s.ctxs.alive m),
)

abbrev pub Holds : ℕ → ClientSession → List (ℕ × ClientSession) → Type 0
Holds fd x [] = ⊥
Holds fd x ((k, y) ∷ rest) = ((k ≡ fd) × (y ≡ x)) ⊎ Holds fd x rest

sweep_from_dead :
    (now p : ℕ) (todo : List (ℕ × ClientSession)) (s : Server)
    → find p s.ctxs.alive ≡ none
    → find p (sweep_from now todo s).ctxs.alive ≡ none
unfolding sweep_from end_session drop_session
sweep_from_dead now p [] s h = h
sweep_from_dead now p ((fd, x) ∷ rest) s h = elim (Bool-cases (is_expired now x)) [
  | inl e ↦ rw e (
      sweep_from_dead now p rest (end_session fd x s)
        (find-remove_all-none p (owned x) s.ctxs.alive h))
  | inr e ↦ rw e (sweep_from_dead now p rest s h)
]

sweep_from-frees :
    (now fd p : ℕ) (x : ClientSession) (todo : List (ℕ × ClientSession)) (s : Server)
    → Holds fd x todo
    → is_expired now x ≡ true
    → Among p (owned x)
    → find p (sweep_from now todo s).ctxs.alive ≡ none
unfolding sweep_from end_session drop_session
sweep_from-frees now fd p x [] s h e m = absurd h
sweep_from-frees now fd p x ((k, y) ∷ rest) s (inl (key, same)) e m =
    let this : is_expired now y ≡ true = ap (is_expired now) same ∙ e in
    rw this (
      sweep_from_dead now p rest (end_session k y s)
        (find-remove_all p (owned y) s.ctxs.alive (subst (λ r. Among p (owned r)) (sym same) m)))
sweep_from-frees now fd p x ((k, y) ∷ rest) s (inr h) e m = elim (Bool-cases (is_expired now y)) [
  | inl t ↦ rw t (sweep_from-frees now fd p x rest (end_session k y s) h e m)
  | inr t ↦ rw t (sweep_from-frees now fd p x rest s h e m)
]

-- The sweep frees the contexts of each reverse session whose deadline has passed: a completion for
-- one of them that comes after it makes its handler read a context that is dead.
pub sweep_faults :
    (alloc : ℕ → ℕ) (s : Server) (now fd : ℕ) (x : ClientSession) (ev : Event)
    → Holds fd x s.sessions
    → x.is_reverse ≡ true
    → x.deadline ≤ now
    → ev.cqe.user_data ≢ 0
    → Among ev.cqe.user_data (owned x)
    → serve alloc (sweep now s) ev ≡ faults
unfolding sweep
sweep_faults alloc s now fd x ev held r late known m =
    serve_dead alloc (sweep now s) ev known
      (sweep_from-frees now fd ev.cqe.user_data x s.sessions s held (ground arith) m)
