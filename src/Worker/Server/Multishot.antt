-- ===== src/Worker/Server/Multishot.antt =====
-- src/worker.cpp: the sessions of `run_server` with multishot receives, and their contexts.
use uring_perf.Base.{
  ℕ, ◌+◌, ◌≤◌, ◌<◌, ◌≡◌, ◌≢◌, sym, ap, subst, ◌∙◌, false, List, [], ◌∷◌, Option, none, some, ◌==◌,
  if◌then◌else◌, inl, inr, arith, Bool-cases,
}
use uring_perf.Engine.State.{IoContext, CtxType, Engine, Sqe}
use uring_perf.Engine.Prep.{fill_sqe}
use uring_perf.Worker.Contexts.{find}
use uring_perf.Worker.Server.{ClientSession, lookup}

-- How often an operation with user data u was queued.
abbrev pub submitted : ℕ → List Sqe → ℕ
submitted u [] = 0
submitted u (q ∷ qs) = (if u == q.user_data then 1 else 0) + submitted u qs

abbrev pub owns : ℕ → Option ℕ → ℕ
owns u none = 0
owns u (some p) = if u == p then 1 else 0

-- How many sessions have u as their multishot context.
abbrev pub awaited : ℕ → List (ℕ × ClientSession) → ℕ
awaited u [] = 0
awaited u ((fd, x) ∷ rest) = owns u x.ms_ctx + awaited u rest

-- The context of a connection.
abbrev pub conn_context : ℕ → ℕ → IoContext
conn_context thread_id fd = record {
  ctx_type = CtxType.recv;
  fd = fd;
  buf_idx = 0;
  buf_ptr = 0;
  length = 0;
  stream_id = thread_id;
}

-- What the sessions are measured by: the thread, the contexts alive and below which address they lie,
-- and the context for accepting.
pub record Frame : Type 0 where
  pub thread_id : ℕ
  pub alive : List (ℕ × IoContext)
  pub next : ℕ
  pub accept_ctx : ℕ

-- Each session owns one context, which is alive and its own; the descriptors are different.
abbrev pub IsKept : Frame → List (ℕ × ClientSession) → Type 0
IsKept f [] = Unit
IsKept f ((fd, x) ∷ rest) =
    ((p : ℕ) × (x.ms_ctx ≡ some p)
      × (x.contexts ≡ [])
      × (find p f.alive ≡ some (conn_context f.thread_id fd))
      × (p < f.next)
      × (p ≢ f.accept_ctx)
      × (lookup fd rest ≡ none)
      × (awaited p rest ≡ 0))
    × IsKept f rest

pub fill_sqe-submitted :
    (e : Engine) (sqe : Sqe) (u : ℕ)
    → submitted u (fill_sqe e sqe).1.sqes
      ≤ (if u == sqe.user_data then 1 else 0) + submitted u e.sqes
unfolding fill_sqe
fill_sqe-submitted e sqe u = elim (Bool-cases (e.lib.slots e.gets)) [
  | inl e1 ↦ rw e1 (omega arith)
  | inr e1 ↦ rw e1 (omega arith)
]

owns_self : (p : ℕ) → owns p (some p) ≡ 1
owns_self p = ground arith

owner :
    (p : ℕ) (x : ClientSession)
    → x.ms_ctx ≡ some p
    → (rest : List (ℕ × ClientSession)) → 1 ≤ owns p x.ms_ctx + awaited p rest
owner p x own rest = omega (arith, ap (λ o. owns p o) own ∙ owns_self p)

-- Where other contexts stay as they are, the sessions stay kept.
pub IsKept-map :
    (f g : Frame) (l : List (ℕ × ClientSession))
    → g.thread_id ≡ f.thread_id
    → g.accept_ctx ≡ f.accept_ctx
    → f.next ≤ g.next
    → ((p : ℕ) → 1 ≤ awaited p l → p < f.next → find p g.alive ≡ find p f.alive)
    → IsKept f l
    → IsKept g l
IsKept-map f g [] t a n h k = tt
IsKept-map f g ((fd, x) ∷ rest) t a n h ((p, own, pool, alive, below, other, fresh, apart), k) = (
  (
    p,
    own,
    pool,
    h p (owner p x own rest) below ∙ alive ∙ ap (λ i. some (conn_context i fd)) (sym t),
    omega (arith, below, n),
    λ e. other (e ∙ a),
    fresh,
    apart,
  ),
  IsKept-map f g rest t a n (λ q more small. h q (omega (arith, more)) small) k,
)

-- The session of a context, and what it is like.
abbrev pub IsSessionOf : Frame → ℕ → ℕ → ClientSession → List (ℕ × ClientSession) → Type 0
IsSessionOf f u fd x l =
    (x.ms_ctx ≡ some u)
    × (x.contexts ≡ [])
    × (find u f.alive ≡ some (conn_context f.thread_id fd))
    × (u < f.next)
    × (u ≢ f.accept_ctx)
    × (lookup fd l ≡ some x)

lookup-head :
    (fd : ℕ) (x : ClientSession) (rest : List (ℕ × ClientSession))
    → lookup fd ((fd, x) ∷ rest) ≡ some x
unfolding lookup
lookup-head fd x rest = ground arith

lookup-later :
    (k fd : ℕ) (y x : ClientSession) (rest : List (ℕ × ClientSession))
    → lookup k rest ≡ none
    → lookup fd rest ≡ some x
    → (k == fd ≡ false) × (lookup fd ((k, y) ∷ rest) ≡ some x)
unfolding lookup
lookup-later k fd y x rest fresh there = elim (Bool-cases (k == fd)) [
  | inl same ↦
      let at : k ≡ fd = ground arith in
      absurd (clash (sym (ap (λ i. lookup i rest) at ∙ there) ∙ fresh))
  | inr other ↦ (other, rw other there)
]
  where
    clash : some x ≡ none → ⊥
    clash e = cc

-- A context that is awaited has its session.
pub awaited-IsSessionOf :
    (f : Frame) (u : ℕ) (l : List (ℕ × ClientSession))
    → IsKept f l
    → 1 ≤ awaited u l
    → (fd : ℕ) × (x : ClientSession) × IsSessionOf f u fd x l
awaited-IsSessionOf f u [] k h = absurd (omega (arith, h))
awaited-IsSessionOf f u ((fd, x) ∷ rest) ((p, own, pool, alive, below, other, fresh, apart), k) h =
    elim (Bool-cases (u == p)) [
      | inl same ↦
          let at : p ≡ u = ground arith in
          (
            fd,
            x,
            (
              own ∙ ap some at,
              pool,
              subst (λ i. find i f.alive ≡ some (conn_context f.thread_id fd)) at alive,
              subst (λ i. i < f.next) at below,
              subst (λ i. i ≢ f.accept_ctx) at other,
              lookup-head fd x rest,
            ),
          )
      | inr apart_u ↦
          let none_here : owns u x.ms_ctx ≡ 0 = ap (owns u) own ∙ not_owned u p apart_u in
          let (fd2, y, (own2, pool2, alive2, below2, other2, found)) =
            awaited-IsSessionOf f u rest k (omega (arith, none_here, h)) in
          (
            fd2,
            y,
            (own2, pool2, alive2, below2, other2, (lookup-later fd fd2 x y rest fresh found).1),
          )
    ]
  where
    not_owned : (u p : ℕ) → u == p ≡ false → owns u (some p) ≡ 0
    not_owned u p e = ground arith
