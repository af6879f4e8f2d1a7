-- ===== src/Worker/Server/Endurance.antt =====
-- src/worker.cpp: `run_server` keeps the context for accepting through every run.
use uring_perf.Base.{
  ℕ, ◌≢◌, Bool, true, false, ◌&&◌, ◌∷◌, if◌then◌else◌, inl, inr, Bool-cases, Option-cases,
  is_negative, is_positive, to_unsigned, has_flag, is_errno,
}
use uring_perf.Base.Errno
use uring_perf.Config.Settings.{is_udp}
use uring_perf.Net.Handshake.{Handshake, HandshakeResult, learnt, failed, waiting}
use uring_perf.Engine.State.{Engine, IoContext}
use uring_perf.Stats.Counters.{StatsCollector}
use uring_perf.Worker.Cqe.{cqe_f_notif, cqe_f_more, cqe_f_buffer, is_again}
use uring_perf.Worker.Server.{Server, Event, Served, served, faults, hangs, lookup}
use uring_perf.Worker.Server.Handlers.{
  greet, rearm_accept, admit, on_accept, send_again, on_send, take_data, rearm_multishot,
  note_error, hang_up, on_terminated, on_multishot, receive_again, clean_up, on_recv,
}
use uring_perf.Worker.Server.Listening.{
  IsListening, open_session-IsMade, store_session-IsListening, drop_session-IsListening,
  end_session-IsListening, found-IsAbove,
}

pub if-IsListening :
    (b : Bool) (s t : Server) → IsListening s → IsListening t → IsListening (if b then s else t)
if-IsListening true s t v w = v
if-IsListening false s t v w = w

-- Nothing in it depends on the counters or on the engine.
pub with_both-IsListening :
    (s : Server) (st : StatsCollector) (e : Engine)
    → IsListening s
    → IsListening (record s { stats = st; engine = e })
with_both-IsListening s st e v = record { alive = v.alive; fresh = v.fresh; apart = v.apart }

clean_up-IsListening : (fd : ℕ) (s : Server) → IsListening s → IsListening (clean_up fd s)
unfolding clean_up
clean_up-IsListening fd s v = elim (Option-cases (lookup fd s.sessions)) [
  | inl e ↦ rw (e, clean_up) v
  | inr (x, e) ↦ rw (e, clean_up) (end_session-IsListening fd x s v (found-IsAbove fd s v e))
]

hang_up-IsListening : (fd : ℕ) (s : Server) → IsListening s → IsListening (hang_up fd s)
unfolding hang_up
hang_up-IsListening fd s v = elim (Option-cases (lookup fd s.sessions)) [
  | inl e ↦ rw (e, hang_up) v
  | inr (x, e) ↦
      rw (e, hang_up)
        (drop_session-IsListening fd x _
          (record { alive = v.alive; fresh = v.fresh; apart = v.apart }) (found-IsAbove fd s v e))
]

pub on_send-IsListening :
    (s : Server) (p : ℕ) (ctx : IoContext) (ev : Event)
    → IsListening s
    → IsListening (on_send s p ctx ev)
unfolding on_send send_again
on_send-IsListening s p ctx ev v =
    if-IsListening (has_flag ev.cqe.flags cqe_f_notif) _ _ (with_both-IsListening s _ _ v) (
      if-IsListening (is_positive ev.cqe.res) _ _ (with_both-IsListening s _ _ v) (
        if-IsListening (is_again ev.cqe) _ _ (with_both-IsListening s _ _ v)
          (if-IsListening (is_negative ev.cqe.res) _ _ (with_both-IsListening s _ _ v) v)))

pub on_recv-IsListening :
    (s : Server) (p : ℕ) (ctx : IoContext) (ev : Event)
    → IsListening s
    → IsListening (on_recv s p ctx ev)
unfolding on_recv receive_again note_error
on_recv-IsListening s p ctx ev v =
    if-IsListening (is_positive ev.cqe.res) _ _ (with_both-IsListening s _ _ v) (
      if-IsListening (is_again ev.cqe) _ _ (with_both-IsListening s _ _ v)
        (clean_up-IsListening ctx.fd _ (with_both-IsListening s _ s.engine v)))

on_terminated-IsListening :
    (s : Server) (p : ℕ) (ctx : IoContext) (ev : Event)
    → IsListening s
    → IsListening (on_terminated s p ctx ev)
unfolding on_terminated rearm_multishot note_error
on_terminated-IsListening s p ctx ev v =
    if-IsListening (is_errno ev.cqe.res Errno.enobufs) _ _ (with_both-IsListening s s.stats _ v) (
      if-IsListening (is_udp s.config.protocol) _ _
        (if-IsListening ev.stop _ _ (with_both-IsListening s _ s.engine v)
          (with_both-IsListening s _ _ v))
        (hang_up-IsListening ctx.fd _ (with_both-IsListening s _ s.engine v)))

pub on_multishot-IsListening :
    (s : Server) (p : ℕ) (ctx : IoContext) (ev : Event)
    → IsListening s
    → IsListening (on_multishot s p ctx ev)
unfolding on_multishot take_data
on_multishot-IsListening s p ctx ev v =
    let w =
      if-IsListening (is_positive ev.cqe.res && has_flag ev.cqe.flags cqe_f_buffer) _ _
        (with_both-IsListening s _ _ v) v in
    if-IsListening (has_flag ev.cqe.flags cqe_f_more) _ _ w (on_terminated-IsListening _ p ctx ev w)

-- What comes of a step, when it comes to a state, listens.
abbrev pub Listens : Served → Type 0
Listens (served s) = IsListening s
Listens faults = Unit
Listens hangs = Unit

admit-IsListening :
    (alloc : ℕ → ℕ) (fd now : ℕ) (h : Handshake) (s : Server)
    → IsListening s
    → IsListening (admit alloc fd now h s)
unfolding admit
admit-IsListening alloc fd now h s v =
    let made = open_session-IsMade alloc h now fd s v in
    store_session-IsListening fd _ _ made.0 made.1

pub on_accept-Listens :
    (alloc : ℕ → ℕ) (s : Server) (ev : Event)
    → IsListening s
    → Listens (on_accept alloc s ev) × (on_accept alloc s ev ≢ faults)
unfolding on_accept rearm_accept
on_accept-Listens alloc s ev v = elim (Bool-cases (is_negative ev.cqe.res)) [
  | inl e ↦ rw e (with_both-IsListening s s.stats _ v, λ q. cc)
  | inr e ↦ rw e (greeted (greet s ev))
]
  where
    fd : ℕ
    fd = to_unsigned ev.cqe.res

    after : HandshakeResult → Served
    after (learnt h) = served (rearm_accept (admit alloc fd ev.now h s))
    after failed = served (rearm_accept (record s { closed = fd ∷ s.closed }))
    after waiting = hangs

    greeted : (r : HandshakeResult) → Listens (after r) × (after r ≢ faults)
    greeted (learnt h) =
        (with_both-IsListening _ _ _ (admit-IsListening alloc fd ev.now h s v), λ q. cc)
    greeted failed = (record { alive = v.alive; fresh = v.fresh; apart = v.apart }, λ q. cc)
    greeted waiting = (tt, λ q. cc)
