-- ===== src/Worker/Launch/Way.antt =====
-- src/worker.cpp: `run_client` from its first line to its last, on each of its three ways.
use uring_perf.Base.{ℕ, List, [], ◌∷◌, ◌++◌, map, Option, none, some, Bool, ℤ}
use uring_perf.Config.Settings.{Config}
use uring_perf.Stats.Counters.{StatsCollector}
use uring_perf.Net.Transfer.{SendRound}
use uring_perf.Net.Sockets.{Call, close, Answers}
use uring_perf.Worker.Client.{Turn}
use uring_perf.Worker.Client.Run.{Ending, SendRun, throws, faults, ends, SendAnswers, run_sends}
use uring_perf.Worker.Receiver.Run.{ReceiveAnswers, run_receives}
use uring_perf.Worker.Launch.{Begun, stops, waits, sends, receives, receives_zcrx, begin_client}
use uring_perf.Worker.Zcrx.{ZcrxAnswers}
use uring_perf.Worker.Zcrx.Server.{ZcrxTurn}
use uring_perf.Worker.Zcrx.Run.{ZcrxExit, exits, crashes, run_client_reverse_recv_zcrx}

-- A return, with the calls on sockets, and with what else was counted and given back where a ring was
-- set up by the engine; a wait for the handshake, or for turns that are not given; an exception, which
-- ends the process; or a fault.
pub data ClientExit : Type 0 where
  ended : List Call → Option Ending → ClientExit
  pending : List Call → ClientExit
  thrown crashed : ClientExit

-- The answers on the way to the connection, and then on each of the ways that the client may go on.
pub record ClientInputs : Type 0 where
  pub sock : ℤ
  pub socket : Answers
  pub script : List SendRound
  pub sending : SendAnswers
  pub send_turns : List Turn
  pub receiving : ReceiveAnswers
  pub receive_turns : List Turn
  pub conn_ptr : ℕ
  pub queue : ℤ
  pub zcrx : ZcrxAnswers
  pub slots : ℕ → Bool
  pub zcrx_turns : List ZcrxTurn

unfoldable pub after_run : List Call → SendRun → ClientExit
after_run calls throws = thrown
after_run calls faults = crashed
after_run calls (ends r) = ended (calls ++ map close r.closed) (some r)

unfoldable pub after_zcrx : ℕ → List Call → ZcrxExit → ClientExit
after_zcrx fd calls (exits stats hs closed) = ended (calls ++ (close fd ∷ [])) none
after_zcrx fd calls ZcrxExit.waits = pending calls
after_zcrx fd calls crashes = crashed

-- From the choice of the loop on.
unfoldable pub go_on :
    Config → ℕ → StatsCollector → ClientInputs → Begun × List ℕ × List Call → ClientExit
go_on cfg thread_id stats a (stops, wire, calls) = ended calls none
go_on cfg thread_id stats a (waits fd, wire, calls) = pending calls
go_on cfg thread_id stats a (sends fd, wire, calls) =
    after_run calls (run_sends cfg thread_id stats fd a.sending a.send_turns)
go_on cfg thread_id stats a (receives fd, wire, calls) =
    after_run calls (run_receives cfg thread_id stats fd a.receiving a.receive_turns)
go_on cfg thread_id stats a (receives_zcrx fd, wire, calls) = after_zcrx fd calls (
    run_client_reverse_recv_zcrx cfg thread_id stats fd a.conn_ptr a.queue a.zcrx a.slots
      a.zcrx_turns)

unfoldable pub run_client : Config → ℕ → StatsCollector → ClientInputs → ClientExit
run_client cfg thread_id stats a =
    go_on cfg thread_id stats a (begin_client cfg thread_id a.sock a.socket a.script)
