-- ===== src/Worker/Server/Safety.antt =====
-- src/worker.cpp: with multishot receives, `run_server` reads no dead context.
pub mod Descriptors
pub mod Harvests
pub mod Starting
pub mod Running
mod Tests
use uring_perf.Base.{
  ℕ, ◌+◌, ◌≤◌, ◌≡◌, refl, ◌≢◌, sym, ap, subst, ◌∙◌, Bool, true, false, List, [], ◌∷◌, some, ◌==◌,
  if◌then◌else◌, ◌⊎◌, inl, inr, arith, Bool-cases, has_flag,
}
use uring_perf.Engine.State.{IoContext}
use uring_perf.Engine.Reap.{cqe_seen}
use uring_perf.Worker.Cqe.{cqe_f_more}
use uring_perf.Worker.Contexts.{find}
use uring_perf.Worker.Server.{Server, Event, Served, served, faults, hangs}
use uring_perf.Worker.Server.Handlers.{dispatch, serve, serve_all}
use uring_perf.Worker.Server.Loop.{accept_context}
use uring_perf.Worker.Server.Multishot.{submitted, awaited, conn_context, awaited-IsSessionOf}
use uring_perf.Worker.Server.Flight.{count, frame, IsMultishot, final-IsMultishot, with-IsMultishot}
use uring_perf.Worker.Server.Receiving.{pick-then, finals_after, on_multishot-IsMultishot}
use uring_perf.Worker.Server.Joining.{IsSafe, IsTaken, on_accept-IsSafe}

-- A completion that the kernel may post: of an operation that was queued more often than it has been
-- completed for good.
abbrev pub IsPosted : List ℕ → Server → Event → Type 0
IsPosted finals s ev =
    (count ev.cqe.user_data finals + 1 ≤ submitted ev.cqe.user_data s.engine.sqes)
    × ((ev.cqe.user_data ≢ s.accept_ctx) ⊎ IsTaken s ev ev.cqe.res)

-- `cqe_seen` at the end of the body.
unfoldable pub seen : Served → Served
seen faults = faults
seen hangs = hangs
seen (served s) = served (record s { engine = cqe_seen s.engine })

seen-IsSafe : (finals : List ℕ) (o : Served) → IsSafe finals o → IsSafe finals (seen o)
unfolding seen cqe_seen
seen-IsSafe finals faults h = h
seen-IsSafe finals hangs h = h
seen-IsSafe finals (served s) v =
    with-IsMultishot finals s s.stats (cqe_seen s.engine) s.closed refl v

pub serve-found :
    (alloc : ℕ → ℕ) (s : Server) (ev : Event) (ctx : IoContext)
    → ev.cqe.user_data == 0 ≡ false
    → find ev.cqe.user_data s.ctxs.alive ≡ some ctx
    → serve alloc s ev ≡ seen (dispatch ctx.ctx_type alloc s ev.cqe.user_data ctx ev)
unfolding serve seen
serve-found alloc s ev ctx other found = rw (other, found) refl

pub serve-nothing :
    (alloc : ℕ → ℕ) (s : Server) (ev : Event)
    → ev.cqe.user_data == 0 ≡ true
    → serve alloc s ev ≡ seen (served s)
unfolding serve seen
serve-nothing alloc s ev e = rw e refl

after-IsSafe :
    (finals : List ℕ) (ev : Event) (o : Served)
    → IsSafe finals o
    → IsSafe (finals_after finals ev) o
after-IsSafe finals ev faults h = h
after-IsSafe finals ev hangs h = h
after-IsSafe finals ev (served s) v = if-finals (has_flag ev.cqe.flags cqe_f_more)
  where
    if-finals : (b : Bool) → IsMultishot (if b then finals else ev.cqe.user_data ∷ finals) s
    if-finals true = v
    if-finals false = final-IsMultishot ev.cqe.user_data finals s v

serve_accept-IsSafe :
    (alloc : ℕ → ℕ) (finals : List ℕ) (s : Server) (ev : Event)
    → IsMultishot finals s
    → IsTaken s ev ev.cqe.res
    → ev.cqe.user_data == 0 ≡ false
    → ev.cqe.user_data ≡ s.accept_ctx
    → IsSafe (finals_after finals ev) (serve alloc s ev)
unfolding dispatch
serve_accept-IsSafe alloc finals s ev v taken other own =
    subst (IsSafe (finals_after finals ev))
      (sym (
        serve-found alloc s ev (accept_context s.listen_fd) other
          (ap (λ i. find i s.ctxs.alive) own ∙ v.listening)))
      (after-IsSafe finals ev _
        (seen-IsSafe finals _ (on_accept-IsSafe alloc finals s ev ev.cqe.res refl taken v)))

serve_recv-IsSafe :
    (alloc : ℕ → ℕ) (finals : List ℕ) (s : Server) (ev : Event)
    → IsMultishot finals s
    → 1 ≤ awaited ev.cqe.user_data s.sessions
    → ev.cqe.user_data == 0 ≡ false
    → IsSafe (finals_after finals ev) (serve alloc s ev)
unfolding dispatch
serve_recv-IsSafe alloc finals s ev v waits other =
    let (fd, x, (own, pool, alive, below, apart, found)) =
      awaited-IsSessionOf (frame s) ev.cqe.user_data s.sessions v.kept waits in
    subst (IsSafe (finals_after finals ev))
      (sym (serve-found alloc s ev (conn_context s.thread_id fd) other alive))
      (seen-IsSafe (finals_after finals ev) _ (
        pick-then (IsMultishot (finals_after finals ev)) s.use_multishot _ _ v.multishot
          (on_multishot-IsMultishot finals s fd x ev (own, pool, alive, below, apart, found) v)))

-- What a completion that may be posted is of: nothing, the accept, or a session's receive.
pub posted_cases :
    (finals : List ℕ) (s : Server) (ev : Event)
    → IsMultishot finals s
    → IsPosted finals s ev
    → (ev.cqe.user_data == 0 ≡ true)
      ⊎ (((ev.cqe.user_data == 0 ≡ false)
            × (ev.cqe.user_data ≡ s.accept_ctx)
            × IsTaken s ev ev.cqe.res)
          ⊎ ((ev.cqe.user_data == 0 ≡ false)
              × (ev.cqe.user_data ≢ s.accept_ctx)
              × (1 ≤ awaited ev.cqe.user_data s.sessions)))
posted_cases finals s ev v (posted, taken) = elim (Bool-cases (ev.cqe.user_data == 0)) [
  | inl zero_data ↦ inl zero_data
  | inr other ↦ elim taken [
    | inl apart ↦ inr (inr (other, apart, waits apart))
    | inr new ↦ elim (Bool-cases (ev.cqe.user_data == s.accept_ctx)) [
      | inl own ↦ inr (inl (other, ground arith, new))
      | inr apart ↦
          let n : ev.cqe.user_data ≢ s.accept_ctx = ground arith in inr (inr (other, n, waits n))
    ]
  ]
]
  where
    waits : ev.cqe.user_data ≢ s.accept_ctx → 1 ≤ awaited ev.cqe.user_data s.sessions
    waits apart = elim (v.flights ev.cqe.user_data) [
      | inl e ↦ absurd (apart e)
      | inr few ↦ omega (arith, few, posted)
    ]

pub serve-IsSafe :
    (alloc : ℕ → ℕ) (finals : List ℕ) (s : Server) (ev : Event)
    → IsMultishot finals s
    → IsPosted finals s ev
    → IsSafe (finals_after finals ev) (serve alloc s ev)
serve-IsSafe alloc finals s ev v posted = elim (posted_cases finals s ev v posted) [
  | inl zero_data ↦
      subst (IsSafe (finals_after finals ev)) (sym (serve-nothing alloc s ev zero_data))
        (after-IsSafe finals ev _ (seen-IsSafe finals (served s) v))
  | inr (inl (other, own, taken)) ↦ serve_accept-IsSafe alloc finals s ev v taken other own
  | inr (inr (other, apart, waits)) ↦ serve_recv-IsSafe alloc finals s ev v waits other
]

-- Each completion may be posted in the state that it is dealt with in.
abbrev pub ArePosted : (ℕ → ℕ) → List ℕ → Served → List Event → Type 0
ArePosted alloc finals o [] = Unit
ArePosted alloc finals faults (ev ∷ evs) = Unit
ArePosted alloc finals hangs (ev ∷ evs) = Unit
ArePosted alloc finals (served s) (ev ∷ evs) =
    IsPosted finals s ev × ArePosted alloc (finals_after finals ev) (serve alloc s ev) evs

abbrev pub finals_of : List ℕ → List Event → List ℕ
finals_of finals [] = finals
finals_of finals (ev ∷ evs) = finals_of (finals_after finals ev) evs

-- The loop over the completions, from the outcome of the one before.
unfoldable pub serve_on : (ℕ → ℕ) → List Event → Served → Served
serve_on alloc evs (served s) = serve_all alloc s evs
serve_on alloc evs faults = faults
serve_on alloc evs hangs = hangs

serve_on-IsSafe :
    (alloc : ℕ → ℕ) (finals : List ℕ) (o : Served) (evs : List Event)
    → IsSafe finals o
    → ArePosted alloc finals o evs
    → IsSafe (finals_of finals evs) (serve_on alloc evs o)
unfolding serve_on serve_all
serve_on-IsSafe alloc finals faults evs h p = absurd h
serve_on-IsSafe alloc finals hangs evs h p = tt
serve_on-IsSafe alloc finals (served s) [] h p = h
serve_on-IsSafe alloc finals (served s) (ev ∷ evs) h (posted, p) =
    serve_on-IsSafe alloc (finals_after finals ev) (serve alloc s ev) evs
      (serve-IsSafe alloc finals s ev h posted) p

-- Let a TCP server in multishot mode be such that what is still in its ring belongs to the context for
-- accepting or to that of a session. Let every completion be one that the kernel may post: of an
-- operation that was queued more often than it was completed for good, and of a new connection under
-- a descriptor not in use, whose peer does not ask for the reverse direction. Then no completion is
-- dispatched on a context that is dead, and the server is left in such a state again (unless a peer
-- that is silent in the handshake keeps it).
pub serve_all-IsSafe :
    (alloc : ℕ → ℕ) (finals : List ℕ) (s : Server) (evs : List Event)
    → IsMultishot finals s
    → ArePosted alloc finals (served s) evs
    → IsSafe (finals_of finals evs) (serve_all alloc s evs)
unfolding serve_on
serve_all-IsSafe alloc finals s evs v p = serve_on-IsSafe alloc finals (served s) evs v p
