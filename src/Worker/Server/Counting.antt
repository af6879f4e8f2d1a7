-- ===== src/Worker/Server/Counting.antt =====
-- src/worker.cpp: what `run_server` counts of a completion, by the type of its context.
pub mod Serving
use uring_perf.Base.{
  ℕ, ◌≡◌, refl, ap, ◌∙◌, Bool, true, false, ◌&&◌, none, some, ◌==◌, if◌then◌else◌, ℤ, pos, negsuc,
  is_positive, is_negative, is_errno, to_unsigned, has_flag, Option-cases, inl, inr,
}
use uring_perf.Base.Errno
use uring_perf.Config.Settings.{Config, is_udp}
use uring_perf.Engine.State.{IoContext, CtxType, accept, send, recv, timer}
use uring_perf.Engine.Reap.{Cqe}
use uring_perf.Stats.Counters.{add_error}
use uring_perf.Stats.Interleaving.{count_call, count_calls}
use uring_perf.Worker.Cqe.{cqe_f_notif, cqe_f_more, cqe_f_buffer, is_again, packets}
use uring_perf.Worker.Contexts.{find}
use uring_perf.Worker.Client.Accounting.{Outcome, ignored, notified, refused, delivered, report}
use uring_perf.Worker.Server.{Server, Event, lookup, drop_session, end_session}
use uring_perf.Worker.Server.Handlers.{
  send_again, on_send, take_data, rearm_multishot, note_error, hang_up, on_terminated, on_multishot,
  receive_again, clean_up, on_recv,
}

-- What a result is to be counted as that is no data.
abbrev pub failure : Cqe → Outcome
failure c = if is_negative c.res then refused else ignored

-- What a completion is to be counted as: the context's type, and whether receives are multishot.
abbrev pub counted_as : Bool → Config → CtxType → Cqe → Outcome
counted_as m cfg accept c = ignored
counted_as m cfg timer c = ignored
counted_as m cfg send c =
    if has_flag c.flags cqe_f_notif
    then notified
    else if is_positive c.res
    then delivered (to_unsigned c.res) 1
    else if is_again c
    then ignored
    else failure c
counted_as true cfg recv c =
    if is_positive c.res && has_flag c.flags cqe_f_buffer
    then delivered (to_unsigned c.res) (packets cfg c)
    else if has_flag c.flags cqe_f_more
    then ignored
    else if is_errno c.res Errno.enobufs
    then ignored
    else failure c
counted_as false cfg recv c =
    if is_positive c.res
    then delivered (to_unsigned c.res) (packets cfg c)
    else if is_again c
    then ignored
    else failure c

-- The same for the completion of an event in a state.
abbrev pub counted_in : Server → Event → Outcome
counted_in s ev =
    if ev.cqe.user_data == 0 then ignored else (elim (find ev.cqe.user_data s.ctxs.alive) [
      | none ↦ ignored
      | some ctx ↦ counted_as s.use_multishot s.config ctx.ctx_type ev.cqe
    ])

-- What a step leaves as it is.
abbrev pub Same : Server → Server → Type 0
Same s t =
    (t.config ≡ s.config)
    × (t.thread_id ≡ s.thread_id)
    × (t.use_multishot ≡ s.use_multishot)
    × (t.listen_fd ≡ s.listen_fd)

-- A step that counts an outcome.
abbrev pub Counts : Server → Outcome → Server → Type 0
Counts s o t = Same s t × (t.stats ≡ count_calls s.stats (report s.thread_id o))

module _ (s : Server) where
  if-Counts :
      (b : Bool) (o p : Outcome) (t u : Server)
      → Counts s o t
      → Counts s p u
      → Counts s (if b then o else p) (if b then t else u)
  if-Counts true o p t u h k = h
  if-Counts false o p t u h k = k

  either-Counts :
      (b : Bool) (o : Outcome) (t u : Server)
      → Counts s o t
      → Counts s o u
      → Counts s o (if b then t else u)
  either-Counts true o t u h k = h
  either-Counts false o t u h k = k

  -- Counting nothing more.
  Counts-more :
      (o : Outcome) (t u : Server) → Counts s o t → Same t u → u.stats ≡ t.stats → Counts s o u
  Counts-more o t u ((a, b, c, x), h) (d, e, f, y) g = ((d ∙ a, e ∙ b, f ∙ c, y ∙ x), g ∙ h)

  note_error-Counts : (ev : Event) → Counts s (failure ev.cqe) (note_error s ev)
  unfolding note_error count_calls count_call
  note_error-Counts ev = noted (is_negative ev.cqe.res)
    where
      noted :
          (b : Bool)
          → Counts s
              (if b then refused else ignored)
              (record s { stats = if b then add_error s.stats s.thread_id else s.stats })
      noted true = ((refl, refl, refl, refl), refl)
      noted false = ((refl, refl, refl, refl), refl)

  pub on_send-Counts :
      (p : ℕ) (ctx : IoContext) (ev : Event)
      → Counts s (counted_as s.use_multishot s.config send ev.cqe) (on_send s p ctx ev)
  unfolding on_send send_again count_calls count_call
  on_send-Counts p ctx ev =
      if-Counts (has_flag ev.cqe.flags cqe_f_notif) notified _ _ _ ((refl, refl, refl, refl), refl)
        (if-Counts (is_positive ev.cqe.res) (delivered (to_unsigned ev.cqe.res) 1) _ _ _
          ((refl, refl, refl, refl), refl)
          (if-Counts (is_again ev.cqe) ignored _ _ _ ((refl, refl, refl, refl), refl)
            (if-Counts (is_negative ev.cqe.res) refused ignored _ _ ((refl, refl, refl, refl), refl)
              ((refl, refl, refl, refl), refl))))

unchanged_by-hang_up :
    (fd : ℕ) (s : Server) → Same s (hang_up fd s) × ((hang_up fd s).stats ≡ s.stats)
unfolding hang_up drop_session
unchanged_by-hang_up fd s = elim (Option-cases (lookup fd s.sessions)) [
  | inl e ↦ rw (e, hang_up) ((refl, refl, refl, refl), refl)
  | inr (x, e) ↦ rw (e, hang_up) ((refl, refl, refl, refl), refl)
]

unchanged_by-clean_up :
    (fd : ℕ) (s : Server) → Same s (clean_up fd s) × ((clean_up fd s).stats ≡ s.stats)
unfolding clean_up end_session drop_session
unchanged_by-clean_up fd s = elim (Option-cases (lookup fd s.sessions)) [
  | inl e ↦ rw (e, clean_up) ((refl, refl, refl, refl), refl)
  | inr (x, e) ↦ rw (e, clean_up) ((refl, refl, refl, refl), refl)
]

pub on_recv-Counts :
    (s : Server) (p : ℕ) (ctx : IoContext) (ev : Event)
    → Counts s (counted_as false s.config recv ev.cqe) (on_recv s p ctx ev)
unfolding on_recv receive_again count_calls count_call
on_recv-Counts s p ctx ev =
    let (same, stats) = unchanged_by-clean_up ctx.fd (note_error s ev) in
    if-Counts s (is_positive ev.cqe.res)
      (delivered (to_unsigned ev.cqe.res) (packets s.config ev.cqe)) _ _ _
      ((refl, refl, refl, refl), refl)
      (if-Counts s (is_again ev.cqe) ignored _ _ _ ((refl, refl, refl, refl), refl)
        (Counts-more s (failure ev.cqe) (note_error s ev) (clean_up ctx.fd (note_error s ev))
          (note_error-Counts s ev) same stats))

-- What the last completion of a multishot operation is to be counted as, beside its data.
abbrev last_one : Cqe → Outcome
last_one c = if is_errno c.res Errno.enobufs then ignored else failure c

on_terminated-Counts :
    (s : Server) (p : ℕ) (ctx : IoContext) (ev : Event)
    → Counts s (last_one ev.cqe) (on_terminated s p ctx ev)
unfolding on_terminated rearm_multishot count_calls count_call
on_terminated-Counts s p ctx ev =
    let noted = note_error-Counts s ev in
    let (same, stats) = unchanged_by-hang_up ctx.fd (note_error s ev) in
    if-Counts s (is_errno ev.cqe.res Errno.enobufs) ignored _ _ _ ((refl, refl, refl, refl), refl)
      (either-Counts s (is_udp s.config.protocol) (failure ev.cqe) _ _
        (either-Counts s ev.stop (failure ev.cqe) _ _ noted (
          Counts-more s (failure ev.cqe) (note_error s ev) (rearm_multishot (note_error s ev) p ctx)
            noted (refl, refl, refl, refl) refl))
        (Counts-more s (failure ev.cqe) (note_error s ev) (hang_up ctx.fd (note_error s ev)) noted
          same stats))

no_error :
    (r : ℤ) → is_positive r ≡ true → is_errno r Errno.enobufs ≡ false × (is_negative r ≡ false)
no_error (pos n) h = (refl, refl)
no_error (negsuc n) h = cc

-- Data comes with no error.
last_one-ignored : (c : Cqe) → is_positive c.res ≡ true → last_one c ≡ ignored
last_one-ignored c h = let (a, b) = no_error c.res h in rw (a, b) refl

after_data :
    (b : Bool) (s t u : Server) (o p : Outcome) (more : Bool)
    → (b ≡ true → p ≡ ignored)
    → Counts s (if b then o else ignored) t
    → Counts t p u
    → Counts s (if b then o else if more then ignored else p) (if more then t else u)
unfolding count_calls
after_data true s t u o p more none_more h k = either-Counts s more o t u h (
    Counts-more s o t u h k.0
      (k.1 ∙ ap (λ x. count_calls t.stats (report t.thread_id x)) (none_more refl)))
after_data false s t u o p true none_more h k = h
after_data false s t u o p false none_more ((a, b, c, x), h) ((d, e, f, y), g) = (
  (d ∙ a, e ∙ b, f ∙ c, y ∙ x),
  g
      ∙ ap (λ x. count_calls x (report t.thread_id p)) h
      ∙ ap (λ i. count_calls s.stats (report i p)) b,
)

take_data-Counts :
    (s : Server) (ev : Event)
    → Counts s
        (if is_positive ev.cqe.res && has_flag ev.cqe.flags cqe_f_buffer
          then delivered (to_unsigned ev.cqe.res) (packets s.config ev.cqe)
          else ignored)
        (take_data s ev)
unfolding take_data count_calls count_call
take_data-Counts s ev =
    if-Counts s (is_positive ev.cqe.res && has_flag ev.cqe.flags cqe_f_buffer) _ ignored _ s
      ((refl, refl, refl, refl), refl) ((refl, refl, refl, refl), refl)

pub on_multishot-Counts :
    (s : Server) (p : ℕ) (ctx : IoContext) (ev : Event)
    → Counts s (counted_as true s.config recv ev.cqe) (on_multishot s p ctx ev)
unfolding on_multishot
on_multishot-Counts s p ctx ev =
    after_data (is_positive ev.cqe.res && has_flag ev.cqe.flags cqe_f_buffer) s (take_data s ev)
      (on_terminated (take_data s ev) p ctx ev)
      (delivered (to_unsigned ev.cqe.res) (packets s.config ev.cqe)) (last_one ev.cqe)
      (has_flag ev.cqe.flags cqe_f_more)
      (λ e.
        last_one-ignored ev.cqe
          (first (is_positive ev.cqe.res) (has_flag ev.cqe.flags cqe_f_buffer) e))
      (take_data-Counts s ev) (on_terminated-Counts (take_data s ev) p ctx ev)
  where
    first : (x y : Bool) → (x && y) ≡ true → x ≡ true
    first true y h = refl
    first false y h = h
