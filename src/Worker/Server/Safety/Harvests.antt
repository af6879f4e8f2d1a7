-- ===== src/Worker/Server/Safety/Harvests.antt =====
-- src/worker.cpp: what `run_server` harvests in a turn with multishot receives.
use uring_perf.Base.{ℕ, ◌+◌, ◌≡◌, refl, true, List, [], ◌∷◌, ◌++◌, ◌⊎◌, arith}
use uring_perf.Engine.Reap.{submit, submit_and_wait, reap_completions}
use uring_perf.Worker.Server.{Server, Event, Served, served, faults, hangs}
use uring_perf.Worker.Server.Handlers.{serve, serve_all}
use uring_perf.Worker.Server.Loop.{Pass, serve_harvest}
use uring_perf.Worker.Server.Flight.{IsMultishot, with-IsMultishot}
use uring_perf.Worker.Server.Receiving.{finals_after}
use uring_perf.Worker.Server.Joining.{IsSafe}
use uring_perf.Worker.Server.Safety.{ArePosted, finals_of, serve_on, serve-IsSafe, serve_all-IsSafe}
use uring_perf.Worker.Server.Safety.Descriptors.{
  taken, Keeps, Keeps-map, Keeps-trans, KeepsOn, KeepsOn-map, serve-Keeps,
}

-- What is harvested in a turn.
abbrev pub harvest : Server → Pass → List Event
harvest s t = reap_completions t.ready s.config.in_flight

-- Until the stop signal is seen, each completion that is harvested may be posted in the state that it
-- is dealt with in.
abbrev pub RunPosted : (ℕ → ℕ) → List ℕ → Served → List Pass → Type 0
RunPosted alloc finals o [] = Unit
RunPosted alloc finals faults (t ∷ ts) = Unit
RunPosted alloc finals hangs (t ∷ ts) = Unit
RunPosted alloc finals (served s) (t ∷ ts) =
    (t.stop ≡ true)
    ⊎ (ArePosted alloc finals (served s) (harvest s t)
        × RunPosted alloc (finals_of finals (harvest s t)) (serve_harvest alloc s (harvest s t)) ts)

submit_after : Served → Served
submit_after faults = faults
submit_after hangs = hangs
submit_after (served s) = served (record s { engine = submit s.engine })

submit_after-IsSafe :
    (finals : List ℕ) (o : Served) → IsSafe finals o → IsSafe finals (submit_after o)
unfolding submit_after submit
submit_after-IsSafe finals faults h = h
submit_after-IsSafe finals hangs h = h
submit_after-IsSafe finals (served s) v =
    with-IsMultishot finals s s.stats (submit s.engine) s.closed refl v

pub serve_harvest-IsSafe :
    (alloc : ℕ → ℕ) (finals : List ℕ) (s : Server) (evs : List Event)
    → IsMultishot finals s
    → ArePosted alloc finals (served s) evs
    → IsSafe (finals_of finals evs) (serve_harvest alloc s evs)
unfolding serve_harvest submit_and_wait submit_after
serve_harvest-IsSafe alloc finals s [] v p =
    with-IsMultishot finals s s.stats (submit_and_wait s.engine) s.closed refl v
serve_harvest-IsSafe alloc finals s (ev ∷ evs) v p =
    submit_after-IsSafe (finals_of finals (ev ∷ evs)) (serve_all alloc s (ev ∷ evs))
      (serve_all-IsSafe alloc finals s (ev ∷ evs) v p)

-- How many of the completions bring a connection with descriptor fd.
abbrev pub taken_all : ℕ → ℕ → List Event → ℕ
taken_all a fd [] = 0
taken_all a fd (ev ∷ evs) = taken a fd ev + taken_all a fd evs

pub taken_all-append :
    (a fd : ℕ) (xs ys : List Event)
    → taken_all a fd (xs ++ ys) ≡ taken_all a fd xs + taken_all a fd ys
taken_all-append a fd [] ys = omega arith
taken_all-append a fd (x ∷ xs) ys = omega (arith, taken_all-append a fd xs ys)

-- Steps one behind the other, from the server r.
pub KeepsOn-trans :
    (m n k : ℕ → ℕ) (r s : Server) (o : Served)
    → ((fd : ℕ) → m fd + n fd ≡ k fd)
    → Keeps m r s
    → KeepsOn n s o
    → KeepsOn k r o
KeepsOn-trans m n k r s (served t) e h g = Keeps-map _ k r t e (Keeps-trans m n r s t h g)
KeepsOn-trans m n k r s faults e h g = tt
KeepsOn-trans m n k r s hangs e h g = tt

serve_on-Keeps :
    (alloc : ℕ → ℕ) (finals : List ℕ) (r : Server) (m : ℕ → ℕ) (o : Served) (evs : List Event)
    → IsSafe finals o
    → KeepsOn m r o
    → ArePosted alloc finals o evs
    → KeepsOn (λ fd. m fd + taken_all r.accept_ctx fd evs) r (serve_on alloc evs o)
unfolding serve_on serve_all
serve_on-Keeps alloc finals r m faults evs h k p = absurd h
serve_on-Keeps alloc finals r m hangs evs h k p = tt
serve_on-Keeps alloc finals r m (served s) [] h k p =
    Keeps-map m (λ fd. m fd + 0) r s (λ fd. omega arith) k
serve_on-Keeps alloc finals r m (served s) (ev ∷ evs) h k (posted, p) =
    let (own, rest) = k in
    KeepsOn-map (λ fd. m fd + taken s.accept_ctx fd ev + taken_all r.accept_ctx fd evs)
      (λ fd. m fd + taken_all r.accept_ctx fd (ev ∷ evs)) r (serve_all alloc s (ev ∷ evs))
      (λ fd. rw own.1 (omega arith))
      (serve_on-Keeps alloc (finals_after finals ev) r (λ fd. m fd + taken s.accept_ctx fd ev)
        (serve alloc s ev) evs (serve-IsSafe alloc finals s ev h posted)
        (KeepsOn-trans m (λ fd. taken s.accept_ctx fd ev) _ r s (serve alloc s ev) (λ fd. refl) k
          (serve-Keeps alloc finals s ev h posted))
        p)

submit_after-Keeps :
    (n : ℕ → ℕ) (s : Server) (o : Served) → KeepsOn n s o → KeepsOn n s (submit_after o)
unfolding submit_after submit
submit_after-Keeps n s (served t) h = h
submit_after-Keeps n s faults h = h
submit_after-Keeps n s hangs h = h

pub serve_harvest-Keeps :
    (alloc : ℕ → ℕ) (finals : List ℕ) (s : Server) (evs : List Event)
    → IsMultishot finals s
    → ArePosted alloc finals (served s) evs
    → KeepsOn (λ fd. taken_all s.accept_ctx fd evs) s (serve_harvest alloc s evs)
unfolding serve_harvest submit_and_wait submit_after serve_on
serve_harvest-Keeps alloc finals s [] v p = ((refl, refl, refl), λ fd. omega arith)
serve_harvest-Keeps alloc finals s (ev ∷ evs) v p =
    submit_after-Keeps (λ fd. taken_all s.accept_ctx fd (ev ∷ evs)) s (serve_all alloc s (ev ∷ evs))
      (KeepsOn-map (λ fd. 0 + taken_all s.accept_ctx fd (ev ∷ evs))
        (λ fd. taken_all s.accept_ctx fd (ev ∷ evs)) s (serve_all alloc s (ev ∷ evs))
        (λ fd. omega arith)
        (serve_on-Keeps alloc finals s (λ fd. 0) (served s) (ev ∷ evs) v
          ((refl, refl, refl), λ fd. omega arith) p))
