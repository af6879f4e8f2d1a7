-- ===== src/Worker/Launch/Agreement.antt =====
-- src/worker.cpp: client and server take up opposite ends of a connection.
use uring_perf.Base.{
  ℕ, zero, suc, ◌+◌, ◌*◌, ◌^◌, ◌<◌, ◌≡◌, refl, ap, subst, sym, ◌∙◌, Bool, true, false, List, [],
  ◌∷◌, ◌++◌, if◌then◌else◌, arith, Option, some, none, ℤ, pos,
}
use uring_perf.Config.Settings.{Config, is_tcp, is_udp}
use uring_perf.Net.Transfer.{returned, SendRound}
use uring_perf.Net.Handshake.{learnt, send_handshake, recv_handshake}
use uring_perf.Net.Delivery.{Carries, Delivers}
use uring_perf.Net.RoundTrip.{handshake_roundtrip}
use uring_perf.Net.Sockets.{Call, Answers, create_client_socket}
use uring_perf.Engine.Operations.{accepting, Queues, Queues-append, prep_accept-Queues}
use uring_perf.Engine.Prep.{prep_accept}
use uring_perf.Worker.Contexts.{addresses}
use uring_perf.Worker.Server.Filling.{
  operations_for, kind_for, depth_for, open_session-IsFilled, store_session_keeps,
}
use uring_perf.Worker.Server.{
  owned, ClientSession, Server, Event, served, fill_session, open_session, store_session,
  drop_session, lookup,
}
use uring_perf.Worker.Server.Handlers.{greet, admit, rearm_accept, on_accept}
use uring_perf.Worker.Launch.{
  Begun, stops, waits, sends, receives, receives_zcrx, chosen_loop, after_handshake, connected,
  connect_port, local_bind_port, shake_hands, begin_client,
}

-- A session that sends until a time, or one that receives.
abbrev pub HasRole : Bool → ℕ → ClientSession → Type 0
HasRole reverse deadline x =
    (x.is_reverse ≡ reverse) × (x.deadline ≡ (if reverse then deadline else 0))

-- In s', as it was in s but for what is queued for x: an operation of its kind for each of its
-- contexts, in order, where the ring has a slot left, and then the next accept.
abbrev pub Performs : Bool → ℕ → Server → ClientSession → Server → Type 0
Performs reverse fd s x s' =
    (owned x ≡ addresses s.ctxs.next (depth_for s reverse))
    × Queues s.engine
        (operations_for (kind_for reverse) fd (owned x)
          ++ (record { kind = accepting; file = s.listen_fd; context = s.accept_ctx } ∷ []))
        s'.engine

fill_session-HasRole :
    (alloc : ℕ → ℕ) (receiving : Bool) (n b : ℕ) (x : ClientSession) (s : Server) (r : Bool) (d : ℕ)
    → HasRole r d x
    → HasRole r d (fill_session alloc receiving n b x s).0
unfolding fill_session
fill_session-HasRole alloc receiving zero b x s r d h = h
fill_session-HasRole alloc receiving (suc n) b x s r d h =
    fill_session-HasRole alloc receiving n (b + 1) _ _ r d h

if-HasRole :
    (b : Bool) (u v : ClientSession × Server) (r : Bool) (d : ℕ)
    → HasRole r d u.0
    → HasRole r d v.0
    → HasRole r d (if b then u else v).0
if-HasRole true u v r d h k = h
if-HasRole false u v r d h k = k

open_session-HasRole :
    (alloc : ℕ → ℕ) (r : Bool) (d now fd : ℕ) (s : Server)
    → HasRole r
        (now + d * 10 ^ 9)
        (open_session alloc (record { reverse = r; duration_sec = d }) now fd s).0
unfolding open_session
open_session-HasRole alloc true d now fd s =
    fill_session-HasRole alloc false s.config.in_flight 0 _ s true (now + d * 10 ^ 9) (refl, refl)
open_session-HasRole alloc false d now fd s =
    if-HasRole s.use_multishot _ _ false (now + d * 10 ^ 9) (refl, refl)
      (fill_session-HasRole alloc true s.config.in_flight 0 _ s false (now + d * 10 ^ 9)
        (refl, refl))

lookup-stored :
    (fd : ℕ) (x : ClientSession) (s : Server) (o : Option ClientSession)
    → lookup fd
        (elim o as (λ o'. Server) [
          | none ↦ record s { sessions = (fd, x) ∷ s.sessions }
          | some old ↦ let t = drop_session fd old s in record t { sessions = (fd, x) ∷ t.sessions }
        ]).sessions
      ≡ some x
unfolding lookup
lookup-stored fd x s none = ground arith
lookup-stored fd x s (some old) = ground arith

lookup-store_session :
    (fd : ℕ) (x : ClientSession) (s : Server) → lookup fd (store_session fd x s).sessions ≡ some x
unfolding store_session
lookup-store_session fd x s = lookup-stored fd x s (lookup fd s.sessions)

client_goes_on :
    (c : Config) (i fd : ℕ) (sock : ℤ) (a : Answers) (script : List SendRound) (calls : List Call)
    → is_tcp c.protocol ≡ true
    → create_client_socket sock a
        (connect_port c i)
        (is_udp c.protocol)
        c.zero_copy
        c.udp_gso_size
        (local_bind_port c i)
      ≡ (pos fd, calls)
    → (send_handshake script c.reverse c.duration_sec).0 ≡ returned true
    → begin_client c i sock a script
      ≡ (chosen_loop c fd, (send_handshake script c.reverse c.duration_sec).1, calls ++ [])
unfolding begin_client connected shake_hands after_handshake
client_goes_on c i fd sock a script calls tcp made sent = rw made (
    rw tcp (
      ap
        (λ p.
          (let (begun, wire, more) =
              after_handshake c fd (p, (send_handshake script c.reverse c.duration_sec).1) in
            (begun, wire, calls ++ more)))
        sent))

admitted-Performs :
    (alloc : ℕ → ℕ) (r : Bool) (d now fd : ℕ) (s : Server)
    → let opened = open_session alloc (record { reverse = r; duration_sec = d }) now fd s in
      Performs r fd s opened.0 (rearm_accept (store_session fd opened.0 opened.1))
unfolding rearm_accept
admitted-Performs alloc r d now fd s =
    let opened = open_session alloc (record { reverse = r; duration_sec = d }) now fd s in
    let t = store_session fd opened.0 opened.1 in
    let v = open_session-IsFilled alloc r d now fd s in
    let (e, l, a) = store_session_keeps fd opened.0 opened.1 in
    let ready =
      subst
        (Queues s.engine (operations_for (kind_for r) fd (addresses s.ctxs.next (depth_for s r))))
        (sym e) v.queued in
    let named =
      subst (λ ps. Queues s.engine (operations_for (kind_for r) fd ps) t.engine) (sym v.contexts)
        ready in
    let accepted =
      subst
        (λ p.
          Queues t.engine (record { kind = accepting; file = t.listen_fd; context = p } ∷ [])
            (prep_accept t.engine t.listen_fd t.accept_ctx).1)
        (a ∙ v.accepts) (prep_accept-Queues t.engine t.listen_fd t.accept_ctx) in
    (
      v.contexts,
      Queues-append s.engine t.engine _ _ _ named (
          subst
            (λ k.
              Queues t.engine (record { kind = accepting; file = k; context = s.accept_ctx } ∷ [])
                (prep_accept t.engine t.listen_fd t.accept_ctx).1)
            (l ∙ v.listens) accepted),
    )

admitted :
    (alloc : ℕ → ℕ) (s : Server) (ev : Event) (conn d : ℕ) (r : Bool)
    → ev.cqe.res ≡ pos conn
    → greet s ev ≡ learnt (record { reverse = r; duration_sec = d })
    → (s' : Server) × (x : ClientSession) × (on_accept alloc s ev ≡ served s')
      × (lookup conn s'.sessions ≡ some x)
      × HasRole r (ev.now + d * 10 ^ 9) x
      × Performs r conn s x s'
unfolding on_accept admit rearm_accept
admitted alloc s ev conn d r accepted e =
    let opened = open_session alloc (record { reverse = r; duration_sec = d }) ev.now conn s in
    (
      rearm_accept (store_session conn opened.0 opened.1),
      opened.0,
      rw e (rw accepted refl),
      lookup-store_session conn opened.0 opened.1,
      open_session-HasRole alloc r d ev.now conn s,
      admitted-Performs alloc r d ev.now conn s,
    )

greet-tcp :
    (s : Server) (ev : Event)
    → is_tcp s.config.protocol ≡ true
    → greet s ev ≡ recv_handshake ev.handshake
unfolding greet
greet-tcp s ev tcp = rw tcp refl

-- Whether a client receives, and on which descriptor.
abbrev pub end_of : Begun → Option (Bool × ℕ)
end_of stops = none
end_of (waits fd) = none
end_of (sends fd) = some (false, fd)
end_of (receives fd) = some (true, fd)
end_of (receives_zcrx fd) = some (true, fd)

end_of-receiving :
    (b : Bool) (fd : ℕ) → end_of (if b then receives_zcrx fd else receives fd) ≡ some (true, fd)
end_of-receiving true fd = refl
end_of-receiving false fd = refl

end_of-if :
    (b : Bool) (u : Begun) (fd : ℕ)
    → end_of u ≡ some (true, fd)
    → end_of (if b then u else sends fd) ≡ some (b, fd)
end_of-if true u fd h = h
end_of-if false u fd h = refl

end_of-chosen_loop : (c : Config) (fd : ℕ) → end_of (chosen_loop c fd) ≡ some (c.reverse, fd)
unfolding chosen_loop
end_of-chosen_loop c fd = end_of-if c.reverse _ fd (end_of-receiving c.use_zcrx fd)

-- Where client and server use TCP, the client has its socket, the duration fits in 32 bits, and the
-- two kernels carry the five bytes of the handshake in any pieces, followed by any later bytes: the
-- client goes on to receive on its socket if it is in reverse mode and else to send; the server, on
-- accepting the connection, keeps a session for it under the accepted descriptor that sends if and
-- only if the client receives, until the client's duration has passed since the acceptance. It has
-- queued a send for each of `in_flight` contexts of such a session, and else the receives of the
-- other, as far as the ring had slots.
pub roles_agree :
    (c : Config) (i fd conn : ℕ) (sock : ℤ) (a : Answers) (script : List SendRound)
    (calls : List Call) (later : List ℕ) (alloc : ℕ → ℕ) (s : Server) (ev : Event)
    → is_tcp c.protocol ≡ true
    → is_tcp s.config.protocol ≡ true
    → c.duration_sec < 2 ^ 32
    → create_client_socket sock a
        (connect_port c i)
        (is_udp c.protocol)
        c.zero_copy
        c.udp_gso_size
        (local_bind_port c i)
      ≡ (pos fd, calls)
    → Carries script 5
    → Delivers ev.handshake 5 ((send_handshake script c.reverse c.duration_sec).1 ++ later)
    → ev.cqe.res ≡ pos conn
    → (end_of (begin_client c i sock a script).0 ≡ some (c.reverse, fd))
      × (s' : Server) × (x : ClientSession) × (on_accept alloc s ev ≡ served s')
      × (lookup conn s'.sessions ≡ some x)
      × HasRole c.reverse (ev.now + c.duration_sec * 10 ^ 9) x
      × Performs c.reverse conn s x s'
roles_agree c i fd conn sock a script calls later alloc s ev ctcp stcp fits made carries delivers
      accepted =
    let (sent, learns) =
      handshake_roundtrip c.reverse c.duration_sec script ev.handshake later fits carries
        delivers in
    let (s2, x, taken, kept, role, performs) =
      admitted alloc s ev conn c.duration_sec c.reverse accepted (greet-tcp s ev stcp ∙ learns) in
    (
      ap (λ p. end_of p.0) (client_goes_on c i fd sock a script calls ctcp made sent)
          ∙ end_of-chosen_loop c fd,
      s2,
      x,
      taken,
      kept,
      role,
      performs,
    )
