-- ===== src/Worker/Launch.antt =====
-- src/worker.cpp: how `run_client` and `run_server` begin: the ports, the socket, and the handshake.
pub mod Agreement
pub mod Ports
pub mod Way
pub mod Service
pub mod Serving
pub mod Closing
mod Tests
use uring_perf.Base.{
  ℕ, ◌+◌, true, false, not, ◌&&◌, List, [], ◌∷◌, ◌++◌, Option, if◌then◌else◌, ℤ, pos, negsuc, u16,
  get_elem?,
}
use uring_perf.Config.Settings.{Config, is_tcp, is_udp, is_client}
use uring_perf.Net.Transfer.{returned, blocked, Progress, SendRound}
use uring_perf.Net.Handshake.{send_handshake}
use uring_perf.Net.Sockets.{Call, close, Answers, create_client_socket, create_listen_socket}

-- The thread that `start` makes runs one of these.
pub data Role : Type 0 where
  client server : Role

unfoldable pub start : Config → Role
start cfg = if is_client cfg.mode then client else server

-- The core that the thread asks to be pinned to.
unfoldable pub set_cpu_affinity : Config → ℕ → Option ℤ
set_cpu_affinity cfg thread_id = get_elem? cfg.cpu_affinity thread_id

unfoldable pub connect_port : Config → ℕ → ℕ
connect_port cfg thread_id =
    u16 (cfg.port + (if cfg.use_zcrx && not cfg.reverse then u16 thread_id else 0))

unfoldable pub local_bind_port : Config → ℕ → ℕ
local_bind_port cfg thread_id =
    if cfg.use_zcrx && cfg.reverse then u16 (cfg.port + u16 thread_id) else 0

-- The port of `run_server_zcrx`.
unfoldable pub zcrx_listen_port : Config → ℕ → ℕ
zcrx_listen_port cfg thread_id = u16 (cfg.port + u16 thread_id)

-- The port of a server: `run_server` begins by handing over to `run_server_zcrx`.
unfoldable pub listen_port : Config → ℕ → ℕ
listen_port cfg thread_id = if cfg.use_zcrx then zcrx_listen_port cfg thread_id else cfg.port

-- What `run_client` does once it has begun, on the descriptor given: `stops` is a return, and `waits`
-- a handshake that is not yet sent.
pub data Begun : Type 0 where
  stops : Begun
  waits sends receives receives_zcrx : ℕ → Begun

-- The loop that the client goes on with.
unfoldable pub chosen_loop : Config → ℕ → Begun
chosen_loop cfg fd =
    if cfg.reverse then (if cfg.use_zcrx then receives_zcrx fd else receives fd) else sends fd

unfoldable pub after_handshake : Config → ℕ → Progress × List ℕ → Begun × List ℕ × List Call
after_handshake cfg fd (returned true, wire) = (chosen_loop cfg fd, wire, [])
after_handshake cfg fd (returned false, wire) = (stops, wire, close fd ∷ [])
after_handshake cfg fd (blocked, wire) = (waits fd, wire, [])

-- What becomes of a connection, by the handshake if there is one, with the bytes that went out and
-- the calls that follow.
unfoldable pub shake_hands : Config → List SendRound → ℕ → Begun × List ℕ × List Call
shake_hands cfg script fd =
    if is_tcp cfg.protocol
    then after_handshake cfg fd (send_handshake script cfg.reverse cfg.duration_sec)
    else (sends fd, [], [])

unfoldable pub connected : Config → List SendRound → List Call → ℤ → Begun × List ℕ × List Call
connected cfg script calls (negsuc n) = (stops, [], calls)
connected cfg script calls (pos fd) =
    let (begun, wire, more) = shake_hands cfg script fd in (begun, wire, calls ++ more)

-- `run_client` up to the choice of its loop.
unfoldable pub begin_client : Config → ℕ → ℤ → Answers → List SendRound → Begun × List ℕ × List Call
begin_client cfg thread_id sock a script =
    let (sockfd, calls) =
      create_client_socket sock a (connect_port cfg thread_id) (is_udp cfg.protocol) cfg.zero_copy
        cfg.udp_gso_size (local_bind_port cfg thread_id) in
    connected cfg script calls sockfd

-- The socket of `run_server_zcrx`, for TCP without zero-copy sends.
unfoldable pub zcrx_listen_socket : Config → ℕ → ℤ → Answers → ℤ × List Call
zcrx_listen_socket cfg thread_id sock a =
    create_listen_socket sock a (zcrx_listen_port cfg thread_id) false false cfg.udp_gso_size

-- The socket of a server.
unfoldable pub listen_socket : Config → ℕ → ℤ → Answers → ℤ × List Call
listen_socket cfg thread_id sock a =
    if cfg.use_zcrx
    then zcrx_listen_socket cfg thread_id sock a
    else create_listen_socket sock a cfg.port (is_udp cfg.protocol) cfg.zero_copy cfg.udp_gso_size
