-- ===== src/Worker/Client/Turns.antt =====
-- src/worker.cpp: the turns of a client that sends.
use uring_perf.Base.{
  ℕ, ◌≡◌, refl, sym, ap, subst, ◌∙◌, Bool, true, false, List, [], ◌∷◌, ◌++◌, Option, none, some,
  if◌then◌else◌, inl, inr, arith, All, append_assoc, Option-cases,
}
use uring_perf.Config.Settings.{Config}
use uring_perf.Engine.Reap.{Cqe, submit, submit_and_wait, reap_completions}
use uring_perf.Stats.Counters.{StatsCollector}
use uring_perf.Stats.Interleaving.{count_calls}
use uring_perf.Worker.Client.{Client, Completion, Turn, handle, handle_all, work, send_loop}
use uring_perf.Worker.Client.Pipeline.{IsPipeline, IsKnown, All-IsKnown, handle_all-IsPipeline}
use uring_perf.Worker.Client.Accounting.{
  with_both-Keeps, Keeps-trans, Outcome, Keeps, outcome, report, reports, handle-report,
  handle_all-reports, count_calls-append,
}
use uring_perf.Worker.Client.Run.{harvested}

handle_all-Keeps :
    (c : Client) (ds : List Completion) {c' : Client} → handle_all c ds ≡ some c' → Keeps c c'
unfolding handle_all
handle_all-Keeps c [] {c'} h =
    let e : c ≡ c' = cc in subst (Keeps c) e (with_both-Keeps c c.stats c.engine)
handle_all-Keeps c (d ∷ ds) {c'} h = elim (Option-cases (handle c d)) [
  | inl e ↦ ground arith
  | inr (m, e) ↦
      let k = (handle-report c d e).0 in
      let k' = handle_all-Keeps m ds {c' = c'} (ground arith) in Keeps-trans c m c' k k'
]

-- A run over some completions: it comes to a state with the pipeline kept, and has counted them.
abbrev pub Deals : ℕ → Client → List Completion → Option Client → Type 0
Deals fd c ds r =
    (c' : Client) × (r ≡ some c')
    × IsPipeline fd c'
    × Keeps c c'
    × (c'.stats ≡ count_calls c.stats (reports (outcome c.config) c.thread_id ds))

work-Deals :
    (fd : ℕ) (c : Client) (ds : List Completion)
    → IsPipeline fd c
    → All (IsKnown c) ds
    → Deals fd c ds (work c ds)
unfolding work submit submit_and_wait reports count_calls
work-Deals fd c [] v k = (
  record c { engine = submit_and_wait c.engine },
  refl,
  record { zc = v.zc; files = v.files; pool = v.pool; queued = v.queued },
  with_both-Keeps c c.stats (submit_and_wait c.engine),
  refl,
)
work-Deals fd c (d ∷ ds) v k =
    let (m, e, w) = handle_all-IsPipeline fd c (d ∷ ds) v k in
    let kept = handle_all-Keeps c (d ∷ ds) e in
    (
      record m { engine = submit m.engine },
      rw (e, work) refl,
      record { zc = w.zc; files = w.files; pool = w.pool; queued = w.queued },
      Keeps-trans c m _ kept (with_both-Keeps m m.stats (submit m.engine)),
      (handle_all-reports c (d ∷ ds) e).0,
    )

pub reports-append :
    (f : Cqe → Outcome) (t : ℕ) (xs ys : List Completion)
    → reports f t (xs ++ ys) ≡ reports f t xs ++ reports f t ys
unfolding reports
reports-append f t [] ys = refl
reports-append f t (x ∷ xs) ys =
    ap (λ l. report t (f x.cqe) ++ l) (reports-append f t xs ys)
    ∙ sym (append_assoc (report t (f x.cqe)) (reports f t xs) (reports f t ys))

Deals-trans :
    (fd : ℕ) (c m : Client) (xs ys : List Completion) (r : Option Client)
    → Keeps c m
    → m.stats ≡ count_calls c.stats (reports (outcome c.config) c.thread_id xs)
    → Deals fd m ys r
    → Deals fd c (xs ++ ys) r
Deals-trans fd c m xs ys r k s (c', e, v, k', s') = (
  c',
  e,
  v,
  Keeps-trans c m c' k k',
  s'
      ∙ ap (λ t. count_calls t (reports (outcome m.config) m.thread_id ys)) s
      ∙ ap (λ cfg. count_calls counted (reports (outcome cfg) m.thread_id ys)) k.config
      ∙ ap (λ t. count_calls counted (reports (outcome c.config) t ys)) k.thread_id
      ∙ sym (
          count_calls-append c.stats (reports (outcome c.config) c.thread_id xs)
            (reports (outcome c.config) c.thread_id ys))
      ∙ ap (count_calls c.stats) (sym (reports-append (outcome c.config) c.thread_id xs ys)),
)
  where
    counted : StatsCollector
    counted = count_calls c.stats (reports (outcome c.config) c.thread_id xs)

if-Deals :
    (b : Bool) (fd : ℕ) (c : Client) (xs : List Completion) (o r : Option Client)
    → Deals fd c [] o
    → (b ≡ false → Deals fd c xs r)
    → Deals fd c (if b then [] else xs) (if b then o else r)
if-Deals true fd c xs o r h k = h
if-Deals false fd c xs o r h k = k refl

pub All-unless :
    (b : Bool) (P : Completion → Type 0) (xs : List Completion)
    → b ≡ false
    → All P (if b then [] else xs)
    → All P xs
All-unless true P xs e h = absurd (clash e)
  where
    clash : true ≡ false → ⊥
    clash q = cc
All-unless false P xs e h = h

pub All-split :
    (P : Completion → Type 0) (xs ys : List Completion) → All P (xs ++ ys) → All P xs × All P ys
All-split P [] ys h = (tt, h)
All-split P (x ∷ xs) ys (p, h) = let (l, r) = All-split P xs ys h in ((p, l), r)

pub send_loop-Deals :
    (fd : ℕ) (c : Client) (ts : List Turn)
    → IsPipeline fd c
    → All (IsKnown c) (harvested c.config.in_flight ts)
    → Deals fd c (harvested c.config.in_flight ts) (send_loop c ts)
unfolding send_loop reports count_calls
send_loop-Deals fd c [] v k = (c, refl, v, with_both-Keeps c c.stats c.engine, refl)
send_loop-Deals fd c (t ∷ ts) v k =
    if-Deals t.stop fd c _ (some c) _ (c, refl, v, with_both-Keeps c c.stats c.engine, refl)
      λ goes.
        let now = reap_completions t.ready c.config.in_flight in
        let (k1, k2) =
          All-split (IsKnown c) now (harvested c.config.in_flight ts)
            (All-unless t.stop (IsKnown c) _ goes k) in
        let (m, e, w, kept, s) = work-Deals fd c now v k1 in
        let same = ap (λ (x : Config). harvested x.in_flight ts) (sym kept.config) in
        subst (Deals fd c (now ++ harvested c.config.in_flight ts)) (after e) (
          Deals-trans fd c m now (harvested c.config.in_flight ts) (send_loop m ts) kept s (
            subst (λ xs. Deals fd m xs (send_loop m ts)) (sym same)
              (send_loop-Deals fd m ts w (
                All-IsKnown c m (harvested m.config.in_flight ts) (subst (All (IsKnown c)) same k2)
                  (sym kept.ctxs)))))
  where
    after :
        {m : Client}
        → work c (reap_completions t.ready c.config.in_flight) ≡ some m
        → send_loop m ts ≡ (elim (work c (reap_completions t.ready c.config.in_flight)) [
          | none ↦ none
          | some c' ↦ send_loop c' ts
        ])
    after {m} e = rw e refl
