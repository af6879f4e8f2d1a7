-- ===== src/Worker/Receiver/Turns.antt =====
-- src/worker.cpp: the turns of `run_client_reverse_recv`.
use uring_perf.Base.{
  ℕ, ◌≡◌, refl, sym, ap, subst, ◌∙◌, Bool, true, false, ◌||◌, List, [], ◌∷◌, ◌++◌, Option, some,
  if◌then◌else◌, All, ◌⊎◌, append-nil,
}
use uring_perf.Config.Settings.{Config}
use uring_perf.Engine.Memory.{submit-ring_mem, submit_and_wait-ring_mem}
use uring_perf.Engine.Reap.{submit, submit_and_wait, reap_completions}
use uring_perf.Stats.Counters.{StatsCollector}
use uring_perf.Stats.Interleaving.{count_calls}
use uring_perf.Worker.Contexts.{Contexts, find}
use uring_perf.Engine.State.{IoContext}
use uring_perf.Worker.Client.{Completion, Turn}
use uring_perf.Worker.Client.Accounting.{report, reports, count_calls-append}
use uring_perf.Worker.Client.Turns.{reports-append, All-unless, All-split}
use uring_perf.Worker.Receiver.{Receiver, receive_all, receive_harvest, receive_loop}
use uring_perf.Worker.Receiver.Counting.{
  Keeps, Keeps-trans, with_rest-Keeps, received, closes, IsKnown, receive-Counts,
}

abbrev pub some_closes : Bool → List Completion → Bool
some_closes m [] = false
some_closes m (d ∷ ds) = closes m d.cqe || some_closes m ds

-- The completions that the loop deals with, where the stream may have ended.
abbrev pub harvested : Bool → ℕ → Bool → List Turn → List Completion
harvested m in_flight closed [] = []
harvested m in_flight closed (t ∷ ts) =
    let now = reap_completions t.ready in_flight in
    if t.stop || closed then [] else now ++ harvested m in_flight (closed || some_closes m now) ts

-- A run over some completions: it comes to a state and has counted them.
abbrev pub Deals : Receiver → List Completion → Option Receiver → Type 0
Deals c ds r =
    (c' : Receiver) × (r ≡ some c')
    × Keeps c c'
    × (c'.stats ≡ count_calls c.stats (reports (received c.use_multishot) c.thread_id ds))

-- The same, with whether the stream has ended.
abbrev Notes : Receiver → List Completion → Bool → Option Receiver → Type 0
Notes c ds b r =
    (c' : Receiver) × (r ≡ some c')
    × Keeps c c'
    × (c'.stats ≡ count_calls c.stats (reports (received c.use_multishot) c.thread_id ds))
    × (c'.peer_closed ≡ b)

-- Counting some completions and then others.
counted_both :
    (c m c' : Receiver) (xs ys : List Completion)
    → Keeps c m
    → m.stats ≡ count_calls c.stats (reports (received c.use_multishot) c.thread_id xs)
    → c'.stats ≡ count_calls m.stats (reports (received m.use_multishot) m.thread_id ys)
    → c'.stats ≡ count_calls c.stats (reports (received c.use_multishot) c.thread_id (xs ++ ys))
counted_both c m c' xs ys k s s' =
    s'
    ∙ ap (λ t. count_calls t (reports (received m.use_multishot) m.thread_id ys)) s
    ∙ ap (λ b. count_calls counted (reports (received b) m.thread_id ys)) k.use_multishot
    ∙ ap (λ t. count_calls counted (reports (received c.use_multishot) t ys)) k.thread_id
    ∙ sym (
        count_calls-append c.stats (reports (received c.use_multishot) c.thread_id xs)
          (reports (received c.use_multishot) c.thread_id ys))
    ∙ ap (count_calls c.stats) (sym (reports-append (received c.use_multishot) c.thread_id xs ys))
  where
    counted : StatsCollector
    counted = count_calls c.stats (reports (received c.use_multishot) c.thread_id xs)

All-IsKnown :
    (c m : Receiver) (ds : List Completion)
    → c.ctxs ≡ m.ctxs
    → All (IsKnown c) ds
    → All (IsKnown m) ds
All-IsKnown c m ds e k =
    subst
      (λ (x : Contexts).
        All
          (λ (d : Completion).
            (d.cqe.user_data ≡ 0) ⊎ ((ctx : IoContext) × (find d.cqe.user_data x.alive ≡ some ctx)))
          ds)
      e k

or_assoc : (a b c : Bool) → ((a || b) || c) ≡ (a || (b || c))
or_assoc true b c = refl
or_assoc false b c = refl

or_false : (b : Bool) → b ≡ (b || false)
or_false true = refl
or_false false = refl

receive_all-Notes :
    (c : Receiver) (ds : List Completion)
    → All (IsKnown c) ds
    → Notes c ds (c.peer_closed || some_closes c.use_multishot ds) (receive_all c ds)
unfolding receive_all reports count_calls
receive_all-Notes c [] known =
    (c, refl, with_rest-Keeps c c.stats c.engine c.peer_closed refl, refl, or_false c.peer_closed)
receive_all-Notes c (d ∷ ds) (k, known) =
    let (m, e, kept, s, p) = receive-Counts c d k in
    let (c', e', kept', s', p') =
      receive_all-Notes m ds (All-IsKnown c m ds (sym kept.ctxs) known) in
    (
      c',
      rw (e, receive_all) e',
      Keeps-trans c m c' kept kept',
      counted_both c m c' (d ∷ []) ds kept
          (s
            ∙ ap (count_calls c.stats)
                (sym (append-nil (report c.thread_id (received c.use_multishot d.cqe)))))
          s',
      p'
          ∙ ap (λ b. b || some_closes m.use_multishot ds) p
          ∙ ap (λ u. (c.peer_closed || closes c.use_multishot d.cqe) || some_closes u ds)
              kept.use_multishot
          ∙ or_assoc c.peer_closed _ _,
    )

receive_harvest-Notes :
    (c : Receiver) (ds : List Completion)
    → All (IsKnown c) ds
    → Notes c ds (c.peer_closed || some_closes c.use_multishot ds) (receive_harvest c ds)
unfolding receive_harvest reports count_calls
receive_harvest-Notes c [] known = (
  record c { engine = submit_and_wait c.engine },
  refl,
  with_rest-Keeps c c.stats (submit_and_wait c.engine) c.peer_closed
      (submit_and_wait-ring_mem c.engine),
  refl,
  or_false c.peer_closed,
)
receive_harvest-Notes c (d ∷ ds) known =
    let (m, e, k, s, p) = receive_all-Notes c (d ∷ ds) known in
    (
      record m { engine = submit m.engine },
      rw (e, receive_harvest) refl,
      Keeps-trans c m _ k
          (with_rest-Keeps m m.stats (submit m.engine) m.peer_closed (submit-ring_mem m.engine)),
      s,
      p,
    )

if-Deals :
    (b : Bool) (c : Receiver) (xs : List Completion) (o r : Option Receiver)
    → Deals c [] o
    → (b ≡ false → Deals c xs r)
    → Deals c (if b then [] else xs) (if b then o else r)
if-Deals true c xs o r h k = h
if-Deals false c xs o r h k = k refl

-- The completions that a receiver deals with in its turns.
abbrev pub harvest_of : Receiver → List Turn → List Completion
harvest_of c ts = harvested c.use_multishot c.config.in_flight c.peer_closed ts

pub receive_loop-Deals :
    (c : Receiver) (ts : List Turn)
    → All (IsKnown c) (harvest_of c ts)
    → Deals c (harvest_of c ts) (receive_loop c ts)
unfolding receive_loop reports count_calls
receive_loop-Deals c [] known =
    (c, refl, with_rest-Keeps c c.stats c.engine c.peer_closed refl, refl)
receive_loop-Deals c (t ∷ ts) known =
    if-Deals (t.stop || c.peer_closed) c _ (some c) _
      (c, refl, with_rest-Keeps c c.stats c.engine c.peer_closed refl, refl)
      λ goes.
        let now = reap_completions t.ready c.config.in_flight in
        let later =
          harvested c.use_multishot c.config.in_flight
            (c.peer_closed || some_closes c.use_multishot now) ts in
        let (k1, k2) =
          All-split (IsKnown c) now later
            (All-unless (t.stop || c.peer_closed) (IsKnown c) _ goes known) in
        let (m, e, kept, s, p) = receive_harvest-Notes c now k1 in
        let same : harvest_of m ts ≡ later =
          ap (λ b. harvested b m.config.in_flight m.peer_closed ts) kept.use_multishot
          ∙ ap (λ (x : Config). harvested c.use_multishot x.in_flight m.peer_closed ts) kept.config
          ∙ ap (λ b. harvested c.use_multishot c.config.in_flight b ts) p in
        let (c', e', kept', s') = receive_loop-Deals m ts (
          All-IsKnown c m (harvest_of m ts) (sym kept.ctxs)
            (subst (All (IsKnown c)) (sym same) k2)) in
        (
          c',
          rw (e, receive_loop) e',
          Keeps-trans c m c' kept kept',
          subst
              (λ l.
                c'.stats
                ≡ count_calls c.stats (reports (received c.use_multishot) c.thread_id (now ++ l)))
              same (counted_both c m c' now (harvest_of m ts) kept s s'),
        )
