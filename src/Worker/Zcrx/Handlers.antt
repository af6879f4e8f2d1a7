-- ===== src/Worker/Zcrx/Handlers.antt =====
-- src/worker.cpp: what the handlers of `run_server_zcrx` do to its connections.
use uring_perf.Base.{
  ℕ, ◌+◌, ◌≤◌, ◌≡◌, refl, sym, subst, Bool, true, false, ◌∷◌, Option, none, some, if◌then◌else◌,
  arith, ℤ, pos, negsuc,
}
use uring_perf.Worker.Zcrx.{
  ZcrxConn, recv_zc, ZcrxEvent, queue_sqe, req_accept, pointer_of, rx_data, zcrx_submit_accept,
  zcrx_submit_recv, is_recoverable,
}
use uring_perf.Worker.Zcrx.Server.{
  Entry, ZcrxServer, object_at, has_key, erase_key, keep_conn, accept_conn, with_ring, accept_again,
  drop_conn, note_end, conn_ended,
}
use uring_perf.Worker.Zcrx.Flight.{count, keys, erase_key-new, keys-erase_key, object_at-erases}
use uring_perf.Worker.Zcrx.Ownership.{
  IsOwned, IsNew, accepted, Serves, grown, queue_sqe-grown, accept-IsOwned, recv-IsOwned, ended,
  rearm-IsOwned, drop-IsOwned,
}

-- A connection that is accepted, or an error in its place.
pub accept_conn-Serves :
    (s : ZcrxServer) (ev : ZcrxEvent) (res : ℤ)
    → IsOwned s.ring s.conns
    → IsNew s.conns ev res
    → Serves s (λ fd. accepted fd res) (accept_conn s ev res)
unfolding accept_conn zcrx_submit_recv keep_conn
accept_conn-Serves s ev (negsuc n) v new = (v, λ fd. omega arith)
accept_conn-Serves s ev (pos x) v (fresh, apart, addr) =
    subst (λ o. Serves s (λ fd. accepted fd (pos x)) (keep_conn s ev x o))
      (sym (queue_sqe-grown s.ring (recv_zc x s.zcrx_id) (rx_data ev.ptr) v.slots))
      (subst
        (λ es.
          IsOwned (grown s.ring (recv_zc x s.zcrx_id) (rx_data ev.ptr)) (e ∷ es)
          × ((fd : ℕ)
              → count fd s.closed + keys fd (e ∷ es)
                ≡ count fd s.closed + keys fd s.conns + accepted fd (pos x)))
        (sym (erase_key-new x s.conns fresh))
        (
          recv-IsOwned s.ring (recv_zc x s.zcrx_id) s.conns e v refl addr fresh apart,
          λ fd. omega arith,
        ))
  where
    e : Entry
    e = record { key = x; ptr = ev.ptr; conn = record { fd = x } }

if-Serves :
    (s : ZcrxServer) (n : ℕ → ℕ) (b : Bool) (u v : Option ZcrxServer)
    → Serves s n u
    → Serves s n v
    → Serves s n (if b then u else v)
if-Serves s n true u v h k = h
if-Serves s n false u v h k = k

pub accept_again-Serves :
    (s : ZcrxServer) (n : ℕ → ℕ) (ev : ZcrxEvent) (o : Option ZcrxServer)
    → Serves s n o
    → Serves s n (accept_again ev o)
unfolding accept_again zcrx_submit_accept with_ring
accept_again-Serves s n ev none h = h
accept_again-Serves s n ev (some t) (v, counts) =
    if-Serves s n ev.stop (some t) _ (v, counts)
      (subst (λ o. Serves s n (with_ring t o)) (sym (queue_sqe-grown t.ring _ req_accept v.slots))
        (accept-IsOwned t.ring _ t.conns v, counts))

drop_conn-there :
    (s : ZcrxServer) (x : ℕ)
    → has_key x s.conns ≡ true
    → drop_conn s x ≡ record s { closed = x ∷ s.closed; conns = erase_key x s.conns }
unfolding drop_conn
drop_conn-there s x there = rw there refl

-- The state that a receive which is over leaves to its handler.
unfoldable pub over : ZcrxServer → ZcrxEvent → ZcrxServer
over s ev = record s { ring = ended s.ring ev.cqe.user_data }

conn_again-Serves :
    (s : ZcrxServer) (ev : ZcrxEvent) (c : ZcrxConn)
    → IsOwned s.ring s.conns
    → 1 ≤ count ev.cqe.user_data s.ring.flight
    → ev.cqe.user_data ≡ rx_data (pointer_of ev.cqe.user_data)
    → Serves s
        (λ fd. 0)
        (with_ring (over s ev) (
          zcrx_submit_recv
            (ended s.ring ev.cqe.user_data)
            (pointer_of ev.cqe.user_data)
            c
            s.zcrx_id))
unfolding over ended zcrx_submit_recv with_ring
conn_again-Serves s ev c v there at =
    subst
      (λ x.
        Serves s (λ fd. 0)
          (with_ring (over s ev)
            (queue_sqe (ended s.ring ev.cqe.user_data) (recv_zc c.fd s.zcrx_id) x)))
      at
      (subst (λ o. Serves s (λ fd. 0) (with_ring (over s ev) o))
        (sym (
          queue_sqe-grown (ended s.ring ev.cqe.user_data) (recv_zc c.fd s.zcrx_id) ev.cqe.user_data
            v.slots))
        (
          rearm-IsOwned s.ring (recv_zc c.fd s.zcrx_id) s.conns ev.cqe.user_data v there,
          λ fd. omega arith,
        ))

conn_dropped-Serves :
    (s : ZcrxServer) (ev : ZcrxEvent) (c : ZcrxConn)
    → IsOwned s.ring s.conns
    → ev.cqe.user_data ≡ rx_data (pointer_of ev.cqe.user_data)
    → object_at (pointer_of ev.cqe.user_data) s.conns ≡ some c
    → Serves s (λ fd. 0) (some (drop_conn (note_end (over s ev) ev) c.fd))
unfolding over note_end
conn_dropped-Serves s ev c v at found =
    let (has, counts) = object_at-erases (pointer_of ev.cqe.user_data) s.conns c v.kept found in
    subst (λ t. Serves s (λ fd. 0) (some t))
      (sym (drop_conn-there (note_end (over s ev) ev) c.fd has))
      (
        drop-IsOwned s.ring s.conns ev.cqe.user_data c v at found,
        λ fd. omega (arith, keys-erase_key c.fd fd s.conns has),
      )

pub conn_ended-Serves :
    (s : ZcrxServer) (ev : ZcrxEvent) (c : ZcrxConn)
    → IsOwned s.ring s.conns
    → 1 ≤ count ev.cqe.user_data s.ring.flight
    → ev.cqe.user_data ≡ rx_data (pointer_of ev.cqe.user_data)
    → object_at (pointer_of ev.cqe.user_data) s.conns ≡ some c
    → Serves s (λ fd. 0) (conn_ended (over s ev) ev (some c))
unfolding conn_ended over
conn_ended-Serves s ev c v there at found =
    if-Serves s (λ fd. 0) (is_recoverable ev) _ _ (conn_again-Serves s ev c v there at)
      (conn_dropped-Serves s ev c v at found)
