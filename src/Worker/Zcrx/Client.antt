-- ===== src/Worker/Zcrx/Client.antt =====
-- src/worker.cpp: `run_client_reverse_recv_zcrx`, whose one connection lives as long as the call.
use uring_perf.Base.{
  ℕ, ◌+◌, Bool, true, false, ◌||◌, List, [], ◌∷◌, Option, none, some, if◌then◌else◌, is_negative,
  length,
}
use uring_perf.Stats.Counters.{StatsCollector, add_error}
use uring_perf.Worker.Refill.{RefillQueue}
use uring_perf.Worker.Zcrx.{
  ZcrxState, ZcrxConn, ZcrxRing, ZcrxEvent, zcrx_submit_recv, has_more, is_recoverable, completed,
  take_zcrx,
}
use uring_perf.Worker.Zcrx.Server.{ZcrxTurn, wait_failed}

pub record ZcrxClient : Type 0 where
  pub thread_id : ℕ
  pub stats : StatsCollector
  pub rq : RefillQueue
  pub zcrx_id : ℕ
  pub ring : ZcrxRing
  pub conn : ZcrxConn
  pub conn_ptr : ℕ
  pub peer_closed : Bool
  pub advanced : ℕ

unfoldable pub rearmed : ZcrxClient → Option ZcrxRing → Option ZcrxClient
rearmed c none = none
rearmed c (some ring) = some (record c { ring = ring })

unfoldable pub peer_ended : ZcrxClient → ZcrxEvent → Option ZcrxClient
peer_ended c ev =
    if is_recoverable ev
    then rearmed c (zcrx_submit_recv c.ring c.conn_ptr c.conn c.zcrx_id)
    else some (record c {
      stats = if is_negative ev.cqe.res then add_error c.stats c.thread_id else c.stats;
      peer_closed = true;
    })

unfoldable pub take_client : ZcrxClient → ZcrxEvent → ZcrxClient
take_client c ev =
    let (stats, rq) = take_zcrx c.stats c.thread_id c.rq ev in record c { stats = stats; rq = rq }

unfoldable pub zcrx_receive : ZcrxClient → ZcrxEvent → Option ZcrxClient
zcrx_receive c ev =
    let s = record c { ring = completed c.ring ev } in
    if has_more ev then some (take_client s ev) else peer_ended s ev

unfoldable pub zcrx_receive_all : Option ZcrxClient → List ZcrxEvent → Option ZcrxClient
zcrx_receive_all c [] = c
zcrx_receive_all none (ev ∷ evs) = none
zcrx_receive_all (some c) (ev ∷ evs) = zcrx_receive_all (zcrx_receive c ev) evs

-- `runs` where the turns given are over.
pub data ClientRun : Type 0 where
  stops runs : ZcrxClient → ClientRun
  faults : ClientRun

unfoldable pub zcrx_client_loop : Option ZcrxClient → List ZcrxTurn → ClientRun
zcrx_client_loop none ts = faults
zcrx_client_loop (some c) [] = if c.peer_closed then stops c else runs c
zcrx_client_loop (some c) (t ∷ ts) =
    let rest =
      zcrx_client_loop
        (zcrx_receive_all (some (record c { advanced = c.advanced + length t.ready })) t.ready)
        ts in
    if t.stop || c.peer_closed then stops c else if wait_failed t then stops c else rest

-- The client as its loop finds it; `conn_ptr` is the address of `conn`.
unfoldable pub zcrx_client : ℕ → StatsCollector → ℕ → ℕ → ZcrxState → (ℕ → Bool) → Option ZcrxClient
zcrx_client thread_id stats sockfd conn_ptr zst slots =
    elim (zcrx_submit_recv ring conn_ptr (record { fd = sockfd }) zst.zcrx_id) [
      | none ↦ none
      | some r ↦ some (record {
        thread_id = thread_id;
        stats = stats;
        rq = zst.rq;
        zcrx_id = zst.zcrx_id;
        ring = r;
        conn = record { fd = sockfd };
        conn_ptr = conn_ptr;
        peer_closed = false;
        advanced = 0;
      })
    ]
  where
    ring : ZcrxRing
    ring = record { slots = slots; gets = 0; sqes = []; flight = [] }
