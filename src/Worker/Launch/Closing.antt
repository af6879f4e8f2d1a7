-- ===== src/Worker/Launch/Closing.antt =====
-- src/worker.cpp: no return of `run_client` leaves a socket open.
use uring_perf.Base.{
  ℕ, ◌<◌, ◌≡◌, refl, ap, subst, sym, ◌∙◌, Bool, true, false, ◌&&◌, List, [], ◌∷◌, ◌++◌, map, none,
  some, ◌⊎◌, inl, inr, arith, ℤ, pos, negsuc, is_negative, Bool-cases, All,
}
use uring_perf.Config.Settings.{Config, is_tcp, is_udp}
use uring_perf.Engine.Setup.{setup_params}
use uring_perf.Stats.Counters.{new_collector}
use uring_perf.Net.Transfer.{returned, blocked, Progress, SendRound}
use uring_perf.Net.Handshake.{send_handshake}
use uring_perf.Net.Sockets.{Call, close, Answers}
use uring_perf.Net.Sockets.Outcome.{
  Socket, after, after-append, after-more, Leaves, create_client_socket_outcome,
}
use uring_perf.Worker.Client.Run.{Ending, SendRun, throws, ends, SendAnswers, harvested}
use uring_perf.Worker.Client.Outcome.{IsOwn, run_sends-outcome}
use uring_perf.Worker.Receiver.Outcome.{run_receives_outcome, dealt_with}
use uring_perf.Worker.Receiver.Pool.{gets_ring}
use uring_perf.Worker.Receiver.Outcome.{IsOwn as ReceivesOwn}
use uring_perf.Worker.Launch.{
  Begun, stops, waits, sends, receives, receives_zcrx, chosen_loop, after_handshake, shake_hands,
  connected, connect_port, local_bind_port, begin_client,
}
use uring_perf.Worker.Launch.Way.{
  ClientExit, ended, pending, thrown, crashed, ClientInputs, after_run, after_zcrx, go_on,
  run_client,
}
use uring_perf.Worker.Zcrx.Run.{ZcrxExit, exits, crashes}

-- The one socket that is open.
abbrev pub IsOpen : List Call → ℕ → Type 0
IsOpen calls fd = (s : Socket) × (s.fd ≡ fd) × (after none calls ≡ some s)

-- A client that has given up has closed its socket; one that goes on has it open.
abbrev HasBegun : Config → Begun × List ℕ × List Call → Type 0
HasBegun cfg (stops, wire, calls) = after none calls ≡ none
HasBegun cfg (waits fd, wire, calls) = IsOpen calls fd
HasBegun cfg (sends fd, wire, calls) = IsOpen calls fd
HasBegun cfg (receives fd, wire, calls) = IsOpen calls fd
HasBegun cfg (receives_zcrx fd, wire, calls) =
    ((cfg.use_zcrx && cfg.reverse) ≡ true) × IsOpen calls fd

close-after :
    (calls : List Call) (fd : ℕ) → IsOpen calls fd → after none (calls ++ (close fd ∷ [])) ≡ none
close-after calls fd (s, same, e) =
    after-append none calls (close fd ∷ []) ∙ ap (λ o. after o (close fd ∷ [])) e ∙ gone
  where
    gone : after (some s) (close fd ∷ []) ≡ none
    gone = unfold after in ground arith

IsOpen-nil : (calls : List Call) (fd : ℕ) → IsOpen calls fd → IsOpen (calls ++ []) fd
unfolding after
IsOpen-nil calls fd (s, same, e) = (s, same, after-more s calls [] e)

chosen_loop-HasBegun :
    (cfg : Config) (fd : ℕ) (wire : List ℕ) (calls : List Call)
    → IsOpen calls fd
    → HasBegun cfg (chosen_loop cfg fd, wire, calls)
unfolding chosen_loop
chosen_loop-HasBegun cfg fd wire calls h = elim (Bool-cases cfg.reverse) [
  | inl back ↦ elim (Bool-cases cfg.use_zcrx) [
    | inl zc ↦ rw (back, zc) (refl, h)
    | inr plain ↦ rw (back, plain) h
  ]
  | inr forth ↦ rw forth h
]

after_handshake-HasBegun :
    (cfg : Config) (fd : ℕ) (calls : List Call) (p : Progress × List ℕ)
    → IsOpen calls fd
    → let (begun, wire, more) = after_handshake cfg fd p in
      HasBegun cfg (begun, wire, calls ++ more)
unfolding after_handshake
after_handshake-HasBegun cfg fd calls (returned true, wire) h =
    chosen_loop-HasBegun cfg fd wire (calls ++ []) (IsOpen-nil calls fd h)
after_handshake-HasBegun cfg fd calls (returned false, wire) h = close-after calls fd h
after_handshake-HasBegun cfg fd calls (blocked, wire) h = IsOpen-nil calls fd h

shake_hands-HasBegun :
    (cfg : Config) (script : List SendRound) (fd : ℕ) (calls : List Call)
    → IsOpen calls fd
    → let (begun, wire, more) = shake_hands cfg script fd in
      HasBegun cfg (begun, wire, calls ++ more)
unfolding shake_hands
shake_hands-HasBegun cfg script fd calls h = elim (Bool-cases (is_tcp cfg.protocol)) [
  | inl tcp ↦
      rw tcp (
        after_handshake-HasBegun cfg fd calls (send_handshake script cfg.reverse cfg.duration_sec)
          h)
  | inr udp ↦ rw udp (IsOpen-nil calls fd h)
]

connected-HasBegun :
    (cfg : Config) (script : List SendRound) (calls : List Call) (r : ℤ) {fine : Bool}
    {P : Socket → Type 0}
    → Leaves (r, calls) fine P
    → HasBegun cfg (connected cfg script calls r)
unfolding connected
connected-HasBegun cfg script calls (negsuc n) (inl (failed, gone, why)) = gone
connected-HasBegun cfg script calls (negsuc n) (inr (s, e, held, fine, h)) =
    absurd (ground (arith, e))
connected-HasBegun cfg script calls (pos fd) (inl (e, gone, why)) = absurd (ground (arith, e))
connected-HasBegun cfg script calls (pos fd) (inr (s, e, held, fine, h)) =
    shake_hands-HasBegun cfg script fd calls (s, ground (arith, e), held)

begin_client-HasBegun :
    (cfg : Config) (thread_id : ℕ) (sock : ℤ) (a : Answers) (script : List SendRound)
    → HasBegun cfg (begin_client cfg thread_id sock a script)
unfolding begin_client
begin_client-HasBegun cfg thread_id sock a script = connected-HasBegun cfg script _ _ (
    create_client_socket_outcome sock a (connect_port cfg thread_id) (is_udp cfg.protocol)
      cfg.zero_copy cfg.udp_gso_size (local_bind_port cfg thread_id))

-- That both attempts to set up the ring fail.
abbrev pub HasNoRing : Config → SendAnswers → Type 0
HasNoRing cfg a =
    (is_negative (a.init_params (setup_params cfg.sqpoll)) ≡ true) × (is_negative a.init ≡ true)

-- A return leaves no socket held, and what is not over has one.
abbrev pub IsClosed : Config → ClientInputs → ClientExit → Type 0
IsClosed cfg a (ended calls r) = after none calls ≡ none
IsClosed cfg a (pending calls) = (s : Socket) × (after none calls ≡ some s)
IsClosed cfg a thrown = HasNoRing cfg a.sending ⊎ HasNoRing cfg a.receiving.common
IsClosed cfg a crashed = (cfg.use_zcrx && cfg.reverse) ≡ true

after_run-IsClosed :
    (cfg : Config) (a : ClientInputs) (fd : ℕ) (calls : List Call) (run : SendRun)
    → IsOpen calls fd
    → ((run ≡ throws) × (HasNoRing cfg a.sending ⊎ HasNoRing cfg a.receiving.common))
      ⊎ ((r : Ending) × (run ≡ ends r) × (r.closed ≡ fd ∷ []))
    → IsClosed cfg a (after_run calls run)
unfolding after_run
after_run-IsClosed cfg a fd calls run held (inl (e, none_set_up)) =
    subst (λ o. IsClosed cfg a (after_run calls o)) (sym e) none_set_up
after_run-IsClosed cfg a fd calls run held (inr (r, e, closed)) =
    subst (λ o. IsClosed cfg a (after_run calls o)) (sym e)
      (ap (λ l. after none (calls ++ map close l)) closed ∙ close-after calls fd held)

after_zcrx-IsClosed :
    (cfg : Config) (a : ClientInputs) (fd : ℕ) (calls : List Call) (r : ZcrxExit)
    → (cfg.use_zcrx && cfg.reverse) ≡ true
    → IsOpen calls fd
    → IsClosed cfg a (after_zcrx fd calls r)
unfolding after_zcrx
after_zcrx-IsClosed cfg a fd calls (exits stats hs closed) zc h = close-after calls fd h
after_zcrx-IsClosed cfg a fd calls ZcrxExit.waits zc (s, same, e) = (s, e)
after_zcrx-IsClosed cfg a fd calls crashes zc h = zc

module _ (cfg : Config) (thread_id n interval : ℕ) (a : ClientInputs) (small : thread_id < n)
    (sent : All (IsOwn cfg) (harvested cfg.in_flight a.send_turns))
    (got : All
      (ReceivesOwn cfg (gets_ring cfg a.receiving))
      (dealt_with cfg a.receiving a.receive_turns)) where
  go_on-IsClosed :
      (b : Begun × List ℕ × List Call)
      → HasBegun cfg b
      → IsClosed cfg a (go_on cfg thread_id (new_collector n interval) a b)
  unfolding go_on
  go_on-IsClosed (stops, wire, calls) h = h
  go_on-IsClosed (waits fd, wire, calls) (s, same, e) = (s, e)
  go_on-IsClosed (sends fd, wire, calls) h =
      after_run-IsClosed cfg a fd calls _ h
        (elim (run_sends-outcome cfg thread_id n interval fd a.sending a.send_turns small sent) [
          | inl (e, first, second) ↦ inl (e, inl (first, second))
          | inr (r, e, closed, freed, counted) ↦ inr (r, e, closed)
        ])
  go_on-IsClosed (receives fd, wire, calls) h =
      after_run-IsClosed cfg a fd calls _ h
        (elim (run_receives_outcome cfg thread_id n interval fd a.receiving a.receive_turns small
          got) [
            | inl (e, first, second) ↦ inl (e, inr (first, second))
            | inr (r, e, closed, freed, ring, counted) ↦ inr (r, e, closed)
          ])
  go_on-IsClosed (receives_zcrx fd, wire, calls) (zc, h) = after_zcrx-IsClosed cfg a fd calls _ zc h

-- Let the thread number be in range and the counters new, and let the kernel give back addresses of the
-- client's own contexts. Whatever the kernel, the allocator and the peer answer, and whichever way the
-- client goes on: where `run_client` returns, no socket is left held, whether the socket, the
-- connection or the handshake fails or the loop is over. Where it has not returned, its socket is
-- open. It throws only if both attempts to set up the ring fail, and only zero-copy receive can fault.
pub run_client-IsClosed :
    (cfg : Config) (thread_id n interval : ℕ) (a : ClientInputs)
    → thread_id < n
    → All (IsOwn cfg) (harvested cfg.in_flight a.send_turns)
    → All (ReceivesOwn cfg (gets_ring cfg a.receiving)) (dealt_with cfg a.receiving a.receive_turns)
    → IsClosed cfg a (run_client cfg thread_id (new_collector n interval) a)
unfolding run_client
run_client-IsClosed cfg thread_id n interval a small sent got =
    go_on-IsClosed cfg thread_id n interval a small sent got _
      (begin_client-HasBegun cfg thread_id a.sock a.socket a.script)
