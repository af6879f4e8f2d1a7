-- ===== src/Worker/Server/Flight.antt =====
-- src/worker.cpp: what is in the ring of `run_server` with multishot receives.
use uring_perf.Base.{
  ℕ, ◌+◌, ◌≤◌, ◌<◌, ◌≡◌, refl, ap, ◌∙◌, Bool, true, false, List, [], ◌∷◌, some, ◌==◌, if◌then◌else◌,
  ◌⊎◌, arith, inl, inr, Bool-cases, All,
}
use uring_perf.Config.Settings.{is_udp}
use uring_perf.Engine.State.{IoContext, Engine}
use uring_perf.Engine.Prep.{prep_accept, accept_sqe, prep_recv_multishot, multishot_sqe}
use uring_perf.Stats.Counters.{StatsCollector}
use uring_perf.Worker.Contexts.{find, remove, remove_all, find-remove}
use uring_perf.Worker.Server.{ClientSession, Server, erase, owned, drop_session}
use uring_perf.Worker.Server.Handlers.{rearm_accept, rearm_multishot}
use uring_perf.Worker.Server.Loop.{accept_context}
use uring_perf.Worker.Server.Multishot.{
  submitted, awaited, Frame, IsKept, fill_sqe-submitted, IsKept-map, IsSessionOf,
}
use uring_perf.Worker.Server.Ending.{awaited-erase}

abbrev pub count : ℕ → List ℕ → ℕ
count x [] = 0
count x (y ∷ ys) = (if x == y then 1 else 0) + count x ys

abbrev pub frame : Server → Frame
frame s = record {
  thread_id = s.thread_id;
  alive = s.ctxs.alive;
  next = s.ctxs.next;
  accept_ctx = s.accept_ctx;
}

-- No session is a reverse one.
abbrev pub IsForwardOnly : List (ℕ × ClientSession) → Type 0
IsForwardOnly = All (λ r. r.1.is_reverse ≡ false)

-- A TCP server in multishot mode that only receives. `finals` are the user data of the completions that
-- were the last of their operation. Whatever is still in the ring belongs to the context for
-- accepting, or to that of a session, which is alive.
pub record IsMultishot (finals : List ℕ) (s : Server) : Type 0 where
  pub multishot : s.use_multishot ≡ true
  pub tcp : is_udp s.config.protocol ≡ false
  pub listening : find s.accept_ctx s.ctxs.alive ≡ some (accept_context s.listen_fd)
  pub below : s.accept_ctx < s.ctxs.next
  pub kept : IsKept (frame s) s.sessions
  pub forward : IsForwardOnly s.sessions
  pub flights :
      (u : ℕ)
      → (u ≡ s.accept_ctx) ⊎ (submitted u s.engine.sqes ≤ count u finals + awaited u s.sessions)
  pub fresh : (u : ℕ) → (u ≡ s.accept_ctx) ⊎ ((u < s.ctxs.next) ⊎ (submitted u s.engine.sqes ≡ 0))

pub final-IsMultishot :
    (u : ℕ) (finals : List ℕ) (s : Server) → IsMultishot finals s → IsMultishot (u ∷ finals) s
final-IsMultishot u finals s v = record {
  multishot = v.multishot;
  tcp = v.tcp;
  listening = v.listening;
  below = v.below;
  kept = v.kept;
  forward = v.forward;
  flights = λ w. ground (arith, v.flights w);
  fresh = v.fresh;
}

-- Counters, the closed descriptors and what else the engine holds do not matter.
pub with-IsMultishot :
    (finals : List ℕ) (s : Server) (st : StatsCollector) (e : Engine) (closed : List ℕ)
    → e.sqes ≡ s.engine.sqes
    → IsMultishot finals s
    → IsMultishot finals (record s { stats = st; engine = e; closed = closed })
with-IsMultishot finals s st e closed same v = record {
  multishot = v.multishot;
  tcp = v.tcp;
  listening = v.listening;
  below = v.below;
  kept = v.kept;
  forward = v.forward;
  flights = λ w. rw same (v.flights w);
  fresh = λ w. rw same (v.fresh w);
}

prep_accept-submitted :
    (e : Engine) (fd p w : ℕ)
    → submitted w (prep_accept e fd p).1.sqes ≤ (if w == p then 1 else 0) + submitted w e.sqes
unfolding prep_accept accept_sqe
prep_accept-submitted e fd p w = fill_sqe-submitted e (accept_sqe fd p) w

pub prep_recv_multishot-submitted :
    (e : Engine) (fd p : ℕ) (fixed : Bool) (w : ℕ)
    → submitted w (prep_recv_multishot e fd p fixed).1.sqes
      ≤ (if w == p then 1 else 0) + submitted w e.sqes
unfolding prep_recv_multishot multishot_sqe
prep_recv_multishot-submitted e fd p fixed w = fill_sqe-submitted e (multishot_sqe e fd p fixed) w

-- The operation for accepting is queued again.
pub rearm_accept-IsMultishot :
    (finals : List ℕ) (s : Server) → IsMultishot finals s → IsMultishot finals (rearm_accept s)
unfolding rearm_accept
rearm_accept-IsMultishot finals s v = record {
  multishot = v.multishot;
  tcp = v.tcp;
  listening = v.listening;
  below = v.below;
  kept = v.kept;
  forward = v.forward;
  flights =
      λ w. ground (arith, v.flights w, prep_accept-submitted s.engine s.listen_fd s.accept_ctx w);
  fresh = λ w. ground (arith, v.fresh w, prep_accept-submitted s.engine s.listen_fd s.accept_ctx w);
}

-- The operation of a context that has had its last completion is queued again.
pub rearm_multishot-IsMultishot :
    (finals : List ℕ) (s : Server) (p : ℕ) (ctx : IoContext)
    → p < s.ctxs.next
    → IsMultishot finals s
    → IsMultishot (p ∷ finals) (rearm_multishot s p ctx)
unfolding rearm_multishot
rearm_multishot-IsMultishot finals s p ctx small v = record {
  multishot = v.multishot;
  tcp = v.tcp;
  listening = v.listening;
  below = v.below;
  kept = v.kept;
  forward = v.forward;
  flights = λ w.
      ground
        (arith, v.flights w, prep_recv_multishot-submitted s.engine ctx.fd p s.udp_fixed_file w);
  fresh = λ w.
      ground (
        arith,
        v.fresh w,
        small,
        prep_recv_multishot-submitted s.engine ctx.fd p s.udp_fixed_file w,
      );
}

remove_all-one :
    (u : ℕ) (x : ClientSession) (l : List (ℕ × IoContext))
    → x.ms_ctx ≡ some u
    → x.contexts ≡ []
    → remove_all (owned x) l ≡ remove u l
unfolding remove_all
remove_all-one u x l own pool = rw (own, pool) refl

erase-forward :
    (fd : ℕ) (l : List (ℕ × ClientSession)) → IsForwardOnly l → IsForwardOnly (erase fd l)
unfolding erase
erase-forward fd [] h = tt
erase-forward fd ((k, x) ∷ rest) (g, h) = elim (Bool-cases (k == fd)) [
  | inl e ↦ rw e (erase-forward fd rest h)
  | inr e ↦ rw e (g, erase-forward fd rest h)
]

-- The session of a context that has had its last completion ends.
pub drop_session-IsMultishot :
    (finals : List ℕ) (s : Server) (u fd : ℕ) (x : ClientSession)
    → IsSessionOf (frame s) u fd x s.sessions
    → IsMultishot finals s
    → IsMultishot (u ∷ finals) (drop_session fd x s)
unfolding drop_session
drop_session-IsMultishot finals s u fd x (own, pool, alive, below, other, found) v =
    let (kept, counts, gone) = awaited-erase (frame s) u fd x s.sessions v.kept found own in
    let gone_ctx = remove_all-one u x s.ctxs.alive own pool in
    record {
      multishot = v.multishot;
      tcp = v.tcp;
      listening =
          ap (find s.accept_ctx) gone_ctx
          ∙ ground (arith, find-remove s.accept_ctx u s.ctxs.alive, other, v.listening);
      below = v.below;
      kept =
          IsKept-map (frame s) _ (erase fd s.sessions) refl refl (omega arith)
            (λ p more less.
              ap (find p) gone_ctx
              ∙ ground (
                arith,
                find-remove p u s.ctxs.alive,
                ap (λ i. awaited i (erase fd s.sessions)),
                gone,
                more,
              ))
            kept;
      forward = erase-forward fd s.sessions v.forward;
      flights = λ w. ground (arith, v.flights w, counts w);
      fresh = v.fresh;
    }
