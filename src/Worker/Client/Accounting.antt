-- ===== src/Worker/Client/Accounting.antt =====
-- src/worker.cpp: what `run_client` counts, against what the kernel answered.
use uring_perf.Base.{
  ℕ, ◌+◌, ◌≡◌, refl, sym, ap, ◌∙◌, Bool, not, ◌&&◌, List, [], ◌∷◌, ◌++◌, some, ◌==◌, if◌then◌else◌,
  inl, inr, arith, is_positive, is_negative, to_unsigned, has_flag, Option-cases, length,
}
use uring_perf.Config.Settings.{Config}
use uring_perf.Engine.Reap.{Cqe, cqe_seen}
use uring_perf.Stats.Counters.{add_bytes, StatsCollector, Counter}
use uring_perf.Stats.Interleaving.{
  Count, counts_bytes, counts_notification, counts_error, count_call, count_calls,
}
use uring_perf.Worker.Cqe.{cqe_f_notif, is_again, packets}
use uring_perf.Engine.State.{Engine, IoContext}
use uring_perf.Engine.Prep.{fill_sqe}
use uring_perf.Worker.Contexts.{find}
use uring_perf.Worker.Sending.{send_buffer, send_buffer-fill_sqe}
use uring_perf.Worker.Client.{Client, Completion, resend, rearm, on_sent, handle, handle_all}

-- What a completion is to be counted as.
pub data Outcome : Type 0 where
  ignored notified refused : Outcome
  delivered : ℕ → ℕ → Outcome

unfoldable pub outcome : Config → Cqe → Outcome
outcome cfg c =
    if c.user_data == 0
    then ignored
    else if has_flag c.flags cqe_f_notif
    then notified
    else if is_positive c.res
    then delivered (to_unsigned c.res) (packets cfg c)
    else if is_negative c.res && not (is_again c)
    then refused
    else ignored

abbrev pub report : ℕ → Outcome → List Count
report t ignored = []
report t notified = counts_notification t ∷ []
report t refused = counts_error t ∷ []
report t (delivered bytes packets) = counts_bytes t bytes packets ∷ []

unfoldable pub reports : (Cqe → Outcome) → ℕ → List Completion → List Count
reports f t [] = []
reports f t (d ∷ ds) = report t (f d.cqe) ++ reports f t ds

-- What the outcomes come to, for each counter.
abbrev pub measure_one : Counter → Outcome → ℕ
measure_one Counter.bytes_transferred (delivered bytes packets) = bytes
measure_one Counter.packets_count (delivered bytes packets) = packets
measure_one Counter.zc_notifications notified = 1
measure_one Counter.errors refused = 1
measure_one _ _ = 0

unfoldable pub measure : Counter → (Cqe → Outcome) → List Completion → ℕ
measure c f [] = 0
measure c f (d ∷ ds) = measure_one c (f d.cqe) + measure c f ds

-- What a handler leaves alone.
pub record Keeps (c c' : Client) : Type 0 where
  pub config : c'.config ≡ c.config
  pub thread_id : c'.thread_id ≡ c.thread_id
  pub ctxs : c'.ctxs ≡ c.ctxs
  pub use_fixed_file : c'.use_fixed_file ≡ c.use_fixed_file
  pub buffer_pool : c'.buffer_pool ≡ c.buffer_pool

-- The counters and the engine do not matter.
pub with_both-Keeps :
    (c : Client) (st : StatsCollector) (e : Engine) → Keeps c (record c { stats = st; engine = e })
with_both-Keeps c st e = record {
  config = refl;
  thread_id = refl;
  ctxs = refl;
  use_fixed_file = refl;
  buffer_pool = refl;
}

pub Keeps-trans : (a b c : Client) → Keeps a b → Keeps b c → Keeps a c
Keeps-trans a b c h k = record {
  config = k.config ∙ h.config;
  thread_id = k.thread_id ∙ h.thread_id;
  ctxs = k.ctxs ∙ h.ctxs;
  use_fixed_file = k.use_fixed_file ∙ h.use_fixed_file;
  buffer_pool = k.buffer_pool ∙ h.buffer_pool;
}

send_buffer-seen :
    (z : Bool) (e : Engine) (p : ℕ) (ctx : IoContext) (fixed : Bool)
    → (send_buffer z e p ctx fixed).seen ≡ e.seen
unfolding fill_sqe
send_buffer-seen z e p ctx fixed =
    ground (arith, ap (λ t. t.seen) (send_buffer-fill_sqe z e p ctx fixed))

rearm-stats :
    (c : Client) (p : ℕ) (stop : Bool) {c' : Client}
    → rearm c p stop ≡ some c'
    → Keeps c c' × (c'.stats ≡ c.stats) × (c'.engine.seen ≡ c.engine.seen)
unfolding rearm resend
rearm-stats c p stop h = elim (Option-cases (find p c.ctxs.alive)) [
  | inl e ↦ ground arith
  | inr (ctx, e) ↦
      ground (arith, send_buffer-seen c.config.zero_copy c.engine p ctx c.use_fixed_file)
]

-- The outcome of a completion that is no notification.
abbrev sent_outcome : Config → Cqe → Outcome
sent_outcome cfg c =
    if is_positive c.res
    then delivered (to_unsigned c.res) (packets cfg c)
    else if is_negative c.res && not (is_again c)
    then refused
    else ignored

on_sent-report :
    (c : Client) (cqe : Cqe) (stop : Bool) {c' : Client}
    → on_sent c cqe stop ≡ some c'
    → Keeps c c'
      × (c'.stats ≡ count_calls c.stats (report c.thread_id (sent_outcome c.config cqe)))
      × (c'.engine.seen ≡ c.engine.seen)
unfolding on_sent count_calls count_call
on_sent-report c cqe stop {c'} h = ground (
  arith,
  rearm-stats c cqe.user_data stop {c' = c'},
  rearm-stats
      (record c {
        stats = add_bytes c.stats c.thread_id (to_unsigned cqe.res) (packets c.config cqe);
      })
      cqe.user_data stop {c' = c'},
)

pub handle-report :
    (c : Client) (d : Completion) {c' : Client}
    → handle c d ≡ some c'
    → Keeps c c'
      × (c'.stats ≡ count_calls c.stats (report c.thread_id (outcome c.config d.cqe)))
      × (c'.engine.seen ≡ c.engine.seen + 1)
unfolding handle outcome count_calls count_call cqe_seen
handle-report c d {c'} h = elim (Option-cases (on_sent c d.cqe d.stop)) [
  | inl e ↦ ground arith
  | inr (m, e) ↦ ground (arith, on_sent-report c d.cqe d.stop e)
]

pub count_calls-append :
    (s : StatsCollector) (xs ys : List Count)
    → count_calls s (xs ++ ys) ≡ count_calls (count_calls s xs) ys
unfolding count_calls
count_calls-append s [] ys = refl
count_calls-append s (x ∷ xs) ys = count_calls-append (count_call s x) xs ys

pub handle_all-reports :
    (c : Client) (ds : List Completion) {c' : Client}
    → handle_all c ds ≡ some c'
    → (c'.stats ≡ count_calls c.stats (reports (outcome c.config) c.thread_id ds))
      × (c'.engine.seen ≡ c.engine.seen + length ds)
unfolding handle_all reports
handle_all-reports c [] h = unfold count_calls in ground arith
handle_all-reports c (d ∷ ds) {c'} h = elim (Option-cases (handle c d)) [
  | inl e ↦ ground arith
  | inr (m, e) ↦
      let (k, s, n) = handle-report c d e in
      let (s', n') = handle_all-reports m ds {c' = c'} (ground arith) in
      (
        s'
            ∙ ap (λ t. count_calls t (reports (outcome m.config) m.thread_id ds)) s
            ∙ ap
                (λ cfg.
                  count_calls (count_calls c.stats (report c.thread_id (outcome c.config d.cqe)))
                    (reports (outcome cfg) m.thread_id ds))
                k.config
            ∙ ap
                (λ t.
                  count_calls (count_calls c.stats (report c.thread_id (outcome c.config d.cqe)))
                    (reports (outcome c.config) t ds))
                k.thread_id
            ∙ sym (
                count_calls-append c.stats (report c.thread_id (outcome c.config d.cqe))
                  (reports (outcome c.config) c.thread_id ds)),
        omega (arith, n, n'),
      )
]
