-- ===== src/Worker/Server/Handlers.antt =====
-- src/worker.cpp: what `run_server` does with a completion, by the type of its context.
use uring_perf.Base.{
  ℕ, Bool, false, not, ◌&&◌, List, [], ◌∷◌, none, some, ◌==◌, ltb, if◌then◌else◌, is_positive,
  is_negative, is_errno, to_unsigned, has_flag,
}
use uring_perf.Base.Errno
use uring_perf.Net.Handshake.{Handshake, HandshakeResult, learnt, failed, waiting, recv_handshake}
use uring_perf.Config.Settings.{is_tcp, is_udp}
use uring_perf.Engine.State.{IoContext, CtxType, accept, send, recv, timer}
use uring_perf.Engine.Prep.{prep_accept, prep_recv, prep_recv_multishot}
use uring_perf.Engine.BufRing.{return_recv_buffer}
use uring_perf.Engine.Reap.{cqe_seen}
use uring_perf.Stats.Counters.{add_bytes, add_zc_notification, add_error}
use uring_perf.Worker.Cqe.{cqe_f_buffer, cqe_f_more, cqe_f_notif, buffer_id, is_again, packets}
use uring_perf.Worker.Sending.{send_buffer}
use uring_perf.Worker.Contexts.{find}
use uring_perf.Worker.Server.{
  Server, Event, Served, served, faults, hangs, lookup, drop_session, end_session, store_session,
  open_session,
}

-- `hs_ok` with the two variables: only TCP has a handshake.
unfoldable pub greet : Server → Event → HandshakeResult
greet s ev =
    if is_tcp s.config.protocol
    then recv_handshake ev.handshake
    else learnt (record { reverse = false; duration_sec = s.config.duration_sec })

unfoldable pub rearm_accept : Server → Server
rearm_accept s = record s { engine = (prep_accept s.engine s.listen_fd s.accept_ctx).1 }

unfoldable pub admit : (ℕ → ℕ) → ℕ → ℕ → Handshake → Server → Server
admit alloc fd now h s = let (x, s') = open_session alloc h now fd s in store_session fd x s'

-- A connection, or an error in place of one.
unfoldable pub on_accept : (ℕ → ℕ) → Server → Event → Served
on_accept alloc s ev =
    if is_negative ev.cqe.res
    then served (rearm_accept s)
    else (let fd = to_unsigned ev.cqe.res in
        elim (greet s ev) [
          | learnt h ↦ served (rearm_accept (admit alloc fd ev.now h s))
          | failed ↦ served (rearm_accept (record s { closed = fd ∷ s.closed }))
          | waiting ↦ hangs
        ])

unfoldable pub keep_sending : Server → IoContext → Event → Bool
keep_sending s ctx ev = elim (lookup ctx.fd s.sessions) [
  | none ↦ false
  | some x ↦ ltb ev.now x.deadline && not ev.stop
]

unfoldable pub send_again : Server → ℕ → IoContext → Bool → Server
send_again s p ctx keep = record s {
  engine = if keep then send_buffer s.config.zero_copy s.engine p ctx false else s.engine;
}

unfoldable pub on_send : Server → ℕ → IoContext → Event → Server
on_send s p ctx ev =
    let keep = keep_sending s ctx ev in
    if has_flag ev.cqe.flags cqe_f_notif
    then record s { stats = add_zc_notification s.stats s.thread_id }
    else if is_positive ev.cqe.res
    then send_again (record s { stats = add_bytes s.stats s.thread_id (to_unsigned ev.cqe.res) 1 })
        p ctx keep
    else if is_again ev.cqe
    then send_again s p ctx keep
    else if is_negative ev.cqe.res
    then record s { stats = add_error s.stats s.thread_id }
    else s

-- What a multishot completion delivers.
unfoldable pub take_data : Server → Event → Server
take_data s ev =
    if is_positive ev.cqe.res && has_flag ev.cqe.flags cqe_f_buffer
    then record s {
      stats = add_bytes s.stats s.thread_id (to_unsigned ev.cqe.res) (packets s.config ev.cqe);
      engine = return_recv_buffer s.engine (buffer_id ev.cqe);
    }
    else s

unfoldable pub rearm_multishot : Server → ℕ → IoContext → Server
rearm_multishot s p ctx = record s {
  engine = (prep_recv_multishot s.engine ctx.fd p s.udp_fixed_file).1;
}

-- `if (cqe->res < 0) stats_.add_error(thread_id_)`
unfoldable pub note_error : Server → Event → Server
note_error s ev = record s {
  stats = if is_negative ev.cqe.res then add_error s.stats s.thread_id else s.stats;
}

-- `close` and `erase`, as the multishot branch does at the end of a connection.
unfoldable pub hang_up : ℕ → Server → Server
hang_up fd s = elim (lookup fd s.sessions) [
  | none ↦ s
  | some x ↦ drop_session fd x (record s { closed = fd ∷ s.closed })
]

-- The end of the multishot operation.
unfoldable pub on_terminated : Server → ℕ → IoContext → Event → Server
on_terminated s p ctx ev =
    if is_errno ev.cqe.res Errno.enobufs
    then rearm_multishot s p ctx
    else if is_udp s.config.protocol
    then (let t = note_error s ev in if ev.stop then t else rearm_multishot t p ctx)
    else hang_up ctx.fd (note_error s ev)

unfoldable pub on_multishot : Server → ℕ → IoContext → Event → Server
on_multishot s p ctx ev =
    let t = take_data s ev in
    if has_flag ev.cqe.flags cqe_f_more then t else on_terminated t p ctx ev

unfoldable pub receive_again : Server → ℕ → IoContext → Server
receive_again s p ctx = record s {
  engine = (prep_recv s.engine ctx.fd ctx.buf_ptr ctx.length ctx.buf_idx p s.udp_fixed_file).1;
}

-- The end of a connection in the single-shot branch.
unfoldable pub clean_up : ℕ → Server → Server
clean_up fd s = elim (lookup fd s.sessions) [ none ↦ s | some x ↦ end_session fd x s ]

unfoldable pub on_recv : Server → ℕ → IoContext → Event → Server
on_recv s p ctx ev =
    if is_positive ev.cqe.res
    then receive_again
        (record s {
          stats = add_bytes s.stats s.thread_id (to_unsigned ev.cqe.res) (packets s.config ev.cqe);
        })
        p ctx
    else if is_again ev.cqe
    then receive_again s p ctx
    else clean_up ctx.fd (note_error s ev)

unfoldable pub dispatch : CtxType → (ℕ → ℕ) → Server → ℕ → IoContext → Event → Served
dispatch accept alloc s p ctx ev = on_accept alloc s ev
dispatch send alloc s p ctx ev = served (on_send s p ctx ev)
dispatch recv alloc s p ctx ev =
    served (if s.use_multishot then on_multishot s p ctx ev else on_recv s p ctx ev)
dispatch timer alloc s p ctx ev = served s

-- The body of the loop over the harvest. It reads the type of the context: an address that is not
-- alive is a fault.
unfoldable pub serve : (ℕ → ℕ) → Server → Event → Served
serve alloc s ev =
    if ev.cqe.user_data == 0
    then served (record s { engine = cqe_seen s.engine })
    else (elim (find ev.cqe.user_data s.ctxs.alive) [
      | none ↦ faults
      | some ctx ↦ elim (dispatch ctx.ctx_type alloc s ev.cqe.user_data ctx ev) [
        | faults ↦ faults
        | hangs ↦ hangs
        | served s' ↦ served (record s' { engine = cqe_seen s'.engine })
      ]
    ])

unfoldable pub serve_all : (ℕ → ℕ) → Server → List Event → Served
serve_all alloc s [] = served s
serve_all alloc s (ev ∷ evs) = elim (serve alloc s ev) [
  | faults ↦ faults
  | hangs ↦ hangs
  | served s' ↦ serve_all alloc s' evs
]
