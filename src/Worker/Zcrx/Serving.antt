-- ===== src/Worker/Zcrx/Serving.antt =====
-- src/worker.cpp: the completions of `run_server_zcrx`, one after the other, to the end of its loop.
use uring_perf.Base.{
  ℕ, ◌≤◌, ◌≡◌, refl, ◌≢◌, sym, ap, subst, ◌∙◌, Bool, true, false, List, Option, none, some, ◌==◌,
  if◌then◌else◌, arith, Bool-cases, ◌⊎◌, inl, inr,
}
use uring_perf.Worker.Zcrx.{
  ZcrxConn, ZcrxRing, ZcrxEvent, req_accept, tag_of, pointer_of, rx_data, has_more, completed,
}
use uring_perf.Worker.Zcrx.Server.{
  Entry, ZcrxServer, object_at, accept_conn, accept_again, conn_ended, take_server, on_rx,
  zcrx_dispatch, zcrx_serve,
}
use uring_perf.Worker.Zcrx.Flight.{count, receives, receives-object_at}
use uring_perf.Worker.Zcrx.Ownership.{IsOwned, IsNew, IsPosted, taken, Serves, ended, over-IsOwned}
use uring_perf.Worker.Zcrx.Handlers.{
  over, accept_conn-Serves, accept_again-Serves, conn_ended-Serves,
}

-- The state with the operation of a completion out of the ring, if it is over.
noted : ZcrxServer → ZcrxEvent → ZcrxServer
noted s ev = record s { ring = completed s.ring ev }

serve_accept :
    (s : ZcrxServer) (ev : ZcrxEvent)
    → ev.cqe.user_data ≡ req_accept
    → zcrx_serve s ev ≡ accept_again ev (accept_conn (noted s ev) ev ev.cqe.res)
unfolding zcrx_serve zcrx_dispatch noted
serve_accept s ev e = ground (arith, ap tag_of e)

serve_more :
    (s : ZcrxServer) (ev : ZcrxEvent)
    → tag_of ev.cqe.user_data ≡ 2
    → has_more ev ≡ true
    → zcrx_serve s ev ≡ some (take_server s ev)
unfolding zcrx_serve zcrx_dispatch on_rx completed
serve_more s ev tag more = rw (tag, more) refl

serve_ended :
    (s : ZcrxServer) (ev : ZcrxEvent) (c : ZcrxConn)
    → tag_of ev.cqe.user_data ≡ 2
    → has_more ev ≡ false
    → object_at (pointer_of ev.cqe.user_data) s.conns ≡ some c
    → zcrx_serve s ev ≡ conn_ended (over s ev) ev (some c)
unfolding zcrx_serve zcrx_dispatch on_rx completed over ended
serve_ended s ev c tag more found = rw (tag, more, found) refl

if-IsOwned :
    (b : Bool) (r t : ZcrxRing) (es : List Entry)
    → IsOwned r es
    → IsOwned t es
    → IsOwned (if b then r else t) es
if-IsOwned true r t es h k = h
if-IsOwned false r t es h k = k

completed-IsOwned :
    (r : ZcrxRing) (ev : ZcrxEvent) (es : List Entry)
    → IsOwned r es
    → ev.cqe.user_data ≡ req_accept
    → IsOwned (completed r ev) es
unfolding completed ended
completed-IsOwned r ev es v e =
    if-IsOwned (has_more ev) r _ es v (over-IsOwned r es ev.cqe.user_data v e)

-- From a count to the same count.
Serves-map :
    (s : ZcrxServer) (m n : ℕ → ℕ) (o : Option ZcrxServer)
    → ((fd : ℕ) → m fd ≡ n fd)
    → Serves s m o
    → Serves s n o
Serves-map s m n none h k = k
Serves-map s m n (some t) h (v, counts) = (v, λ fd. omega (arith, counts fd, h fd))

accept-Serves :
    (s : ZcrxServer) (ev : ZcrxEvent)
    → IsOwned s.ring s.conns
    → IsNew s.conns ev ev.cqe.res
    → ev.cqe.user_data ≡ req_accept
    → Serves s (λ fd. taken fd ev) (zcrx_serve s ev)
unfolding noted
accept-Serves s ev v new e = subst (Serves s (λ fd. taken fd ev)) (sym (serve_accept s ev e)) (
    Serves-map s _ (λ fd. taken fd ev) (accept_again ev (accept_conn (noted s ev) ev ev.cqe.res))
      (λ fd. ground (arith, e))
      (accept_again-Serves s _ ev _ (
        accept_conn-Serves (noted s ev) ev ev.cqe.res (completed-IsOwned s.ring ev s.conns v e)
          new)))

rx-Serves :
    (s : ZcrxServer) (ev : ZcrxEvent) (c : ZcrxConn)
    → IsOwned s.ring s.conns
    → 1 ≤ count ev.cqe.user_data s.ring.flight
    → tag_of ev.cqe.user_data ≡ 2
    → ev.cqe.user_data ≡ rx_data (pointer_of ev.cqe.user_data)
    → object_at (pointer_of ev.cqe.user_data) s.conns ≡ some c
    → Serves s (λ fd. 0) (zcrx_serve s ev)
rx-Serves s ev c v there tag at found = elim (Bool-cases (has_more ev)) [
  | inl more ↦ subst (Serves s (λ fd. 0)) (sym (serve_more s ev tag more)) (data_taken s ev v)
  | inr last ↦
      subst (Serves s (λ fd. 0)) (sym (serve_ended s ev c tag last found))
        (conn_ended-Serves s ev c v there at found)
]
  where
    data_taken :
        (s : ZcrxServer) (ev : ZcrxEvent)
        → IsOwned s.ring s.conns
        → Serves s (λ fd. 0) (some (take_server s ev))
    data_taken s ev v = unfold take_server in (v, λ fd. omega arith)

apart_tags : (u : ℕ) → tag_of u ≡ 2 → u ≢ req_accept
apart_tags u tag e = omega (arith, sym tag ∙ ap tag_of e)

posted_receive :
    (s : ZcrxServer) (u : ℕ)
    → IsOwned s.ring s.conns
    → 1 ≤ count u s.ring.flight
    → u ≢ req_accept
    → 1 ≤ receives u s.conns
posted_receive s u v there n = elim (v.flights u) [
  | inl e ↦ absurd (n e)
  | inr e ↦ omega (arith, e, there)
]

-- The completion of any operation in the ring reads no dead connection.
pub zcrx_serve-Serves :
    (s : ZcrxServer) (ev : ZcrxEvent)
    → IsOwned s.ring s.conns
    → IsPosted s ev
    → Serves s (λ fd. taken fd ev) (zcrx_serve s ev)
zcrx_serve-Serves s ev v (there, new) = elim (Bool-cases (ev.cqe.user_data == req_accept)) [
  | inl own ↦ accept-Serves s ev v (taken_new own new) (ground arith)
  | inr other ↦
      let (tag, at, c, found) =
        receives-object_at ev.cqe.user_data s.conns v.kept
          (posted_receive s ev.cqe.user_data v there (λ e. ground (arith, e, other))) in
      Serves-map s (λ fd. 0) (λ fd. taken fd ev) (zcrx_serve s ev) (λ fd. rw other refl)
        (rx-Serves s ev c v there tag at found)
]
  where
    taken_new :
        ev.cqe.user_data == req_accept ≡ true
        → (ev.cqe.user_data ≢ req_accept) ⊎ IsNew s.conns ev ev.cqe.res
        → IsNew s.conns ev ev.cqe.res
    taken_new own (inl other) = absurd (other (ground arith))
    taken_new own (inr new) = new
