-- ===== src/Worker/Zcrx/Server.antt =====
-- src/worker.cpp: `run_server_zcrx`. Each connection is an object in the table `conns`, and dies when
-- it leaves it; reading one that is dead is a fault, as is using an entry that the ring has not got.
use uring_perf.Base.{
  ℕ, ◌+◌, Bool, true, false, not, ◌&&◌, List, [], ◌∷◌, ◌++◌, Option, none, some, ◌==◌,
  if◌then◌else◌, ℤ, pos, negsuc, is_negative, is_errno, length,
}
use uring_perf.Base.Errno
use uring_perf.Stats.Counters.{StatsCollector, add_error}
use uring_perf.Net.Sockets.{set_nonblocking}
use uring_perf.Net.Sockets
use uring_perf.Worker.Refill.{RefillQueue}
use uring_perf.Worker.Zcrx.{
  ZcrxState, ZcrxConn, ZcrxRing, ZcrxEvent, zcrx_submit_accept, zcrx_submit_recv, req_accept,
  req_rx, tag_of, pointer_of, has_more, is_recoverable, completed, take_zcrx,
}

-- An element of `conns`: the key, and the object with its address.
pub record Entry : Type 0 where
  pub key : ℕ
  pub ptr : ℕ
  pub conn : ZcrxConn

pub record ZcrxServer : Type 0 where
  pub thread_id : ℕ
  pub stats : StatsCollector
  pub rq : RefillQueue
  pub zcrx_id : ℕ
  pub listen_fd : ℕ
  pub ring : ZcrxRing
  pub conns : List Entry
  pub closed : List ℕ
  pub flags : List Sockets.Call  -- the calls that `set_nonblocking` makes
  pub advanced : ℕ

-- The object at an address.
unfoldable pub object_at : ℕ → List Entry → Option ZcrxConn
object_at p [] = none
object_at p (e ∷ es) = if e.ptr == p then some e.conn else object_at p es

unfoldable pub has_key : ℕ → List Entry → Bool
has_key fd [] = false
has_key fd (e ∷ es) = if e.key == fd then true else has_key fd es

-- The map has a key once.
unfoldable pub erase_key : ℕ → List Entry → List Entry
erase_key fd [] = []
erase_key fd (e ∷ es) = let rest = erase_key fd es in if e.key == fd then es else e ∷ rest

unfoldable pub keep_conn : ZcrxServer → ZcrxEvent → ℕ → Option ZcrxRing → Option ZcrxServer
keep_conn s ev fd none = none
keep_conn s ev fd (some ring) = some (record s {
  ring = ring;
  conns = record { key = fd; ptr = ev.ptr; conn = record { fd = fd } } ∷ erase_key fd s.conns;
  flags = s.flags ++ set_nonblocking fd ev.flags;
})

unfoldable pub accept_conn : ZcrxServer → ZcrxEvent → ℤ → Option ZcrxServer
accept_conn s ev (negsuc n) = some s
accept_conn s ev (pos fd) =
    keep_conn s ev fd (zcrx_submit_recv s.ring ev.ptr (record { fd = fd }) s.zcrx_id)

unfoldable pub with_ring : ZcrxServer → Option ZcrxRing → Option ZcrxServer
with_ring s none = none
with_ring s (some ring) = some (record s { ring = ring })

unfoldable pub accept_again : ZcrxEvent → Option ZcrxServer → Option ZcrxServer
accept_again ev none = none
accept_again ev (some s) =
    if ev.stop then some s else with_ring s (zcrx_submit_accept s.ring s.listen_fd)

-- `close(it->first)` and `erase`, if the key is there.
unfoldable pub drop_conn : ZcrxServer → ℕ → ZcrxServer
drop_conn s fd =
    if has_key fd s.conns
    then record s { closed = fd ∷ s.closed; conns = erase_key fd s.conns }
    else s

unfoldable pub note_end : ZcrxServer → ZcrxEvent → ZcrxServer
note_end s ev = record s {
  stats = if is_negative ev.cqe.res then add_error s.stats s.thread_id else s.stats;
}

-- The receive has ended, of the connection at the address in the user data.
unfoldable pub conn_ended : ZcrxServer → ZcrxEvent → Option ZcrxConn → Option ZcrxServer
conn_ended s ev none = none
conn_ended s ev (some conn) =
    if is_recoverable ev
    then with_ring s (zcrx_submit_recv s.ring (pointer_of ev.cqe.user_data) conn s.zcrx_id)
    else some (drop_conn (note_end s ev) conn.fd)

unfoldable pub take_server : ZcrxServer → ZcrxEvent → ZcrxServer
take_server s ev =
    let (stats, rq) = take_zcrx s.stats s.thread_id s.rq ev in record s { stats = stats; rq = rq }

unfoldable pub on_rx : ZcrxServer → ZcrxEvent → Option ZcrxServer
on_rx s ev =
    if has_more ev
    then some (take_server s ev)
    else conn_ended s ev (object_at (pointer_of ev.cqe.user_data) s.conns)

-- By the tag.
unfoldable pub zcrx_dispatch : ZcrxServer → ZcrxEvent → Option ZcrxServer
zcrx_dispatch s ev =
    if tag_of ev.cqe.user_data == req_accept
    then accept_again ev (accept_conn s ev ev.cqe.res)
    else if tag_of ev.cqe.user_data == req_rx
    then on_rx s ev
    else some s

-- `io_uring_for_each_cqe`, over what is there.
unfoldable pub zcrx_serve : ZcrxServer → ZcrxEvent → Option ZcrxServer
zcrx_serve s ev = zcrx_dispatch (record s { ring = completed s.ring ev }) ev

unfoldable pub zcrx_serve_all : Option ZcrxServer → List ZcrxEvent → Option ZcrxServer
zcrx_serve_all s [] = s
zcrx_serve_all none (ev ∷ evs) = none
zcrx_serve_all (some s) (ev ∷ evs) = zcrx_serve_all (zcrx_serve s ev) evs

-- A turn: the stop signal at its head, what the wait answers, and what is there.
pub record ZcrxTurn : Type 0 where
  pub stop : Bool
  pub wret : ℤ
  pub ready : List ZcrxEvent

-- `runs` where the turns given are over.
pub data ZcrxRun : Type 0 where
  stops runs : ZcrxServer → ZcrxRun
  faults : ZcrxRun

abbrev pub wait_failed : ZcrxTurn → Bool
wait_failed t = is_negative t.wret && not (is_errno t.wret Errno.etime)

unfoldable pub zcrx_loop : Option ZcrxServer → List ZcrxTurn → ZcrxRun
zcrx_loop none ts = faults
zcrx_loop (some s) [] = runs s
zcrx_loop (some s) (t ∷ ts) =
    let rest =
      zcrx_loop
        (zcrx_serve_all (some (record s { advanced = s.advanced + length t.ready })) t.ready) ts in
    if t.stop then stops s else if wait_failed t then stops s else rest

-- The server as its loop finds it.
unfoldable pub zcrx_server : ℕ → StatsCollector → ℕ → ZcrxState → (ℕ → Bool) → Option ZcrxServer
zcrx_server thread_id stats listen_fd zst slots = elim (zcrx_submit_accept ring listen_fd) [
  | none ↦ none
  | some r ↦ some (record {
    thread_id = thread_id;
    stats = stats;
    rq = zst.rq;
    zcrx_id = zst.zcrx_id;
    listen_fd = listen_fd;
    ring = r;
    conns = [];
    closed = [];
    flags = [];
    advanced = 0;
  })
]
  where
    ring : ZcrxRing
    ring = record { slots = slots; gets = 0; sqes = []; flight = [] }

-- The last loop, over what is left in the table.
unfoldable pub close_conns : List Entry → List ℕ
close_conns [] = []
close_conns (e ∷ es) = e.key ∷ close_conns es
