-- ===== src/Net/Sockets.antt =====
-- src/net_utils.cpp: how sockets are made, as the system calls made in order. What the calls answer
-- is an input (what `socket` gives, by itself, and the others); answers that the code does not look
-- at are left out.
pub mod Outcome
pub mod Listener
mod Tests
use uring_perf.Base.{
  ℕ, ◌+◌, ◌*◌, ◌/◌, ◌%◌, bit_or, Bool, true, false, List, [], ◌∷◌, ◌++◌, Option, none, some, ◌==◌,
  if◌then◌else◌, ℤ, pos, negsuc, is_negative,
}

pub data SocketOption : Type 0 where
  reuse_addr reuse_port send_buffer receive_buffer no_delay udp_segment udp_gro zero_copy :
      SocketOption

-- Descriptors are numbers; a port is as `sin_port` holds it, and an address as `s_addr` does.
pub data Call : Type 0 where
  opened : Bool → ℕ → Call  -- whether for datagrams, and the descriptor
  set_option : ℕ → SocketOption → ℕ → Call
  get_flags : ℕ → Call
  set_flags : ℕ → ℕ → Call
  bind : ℕ → ℕ → ℕ → Call  -- address, port
  listen : ℕ → ℕ → Call
  connect : ℕ → ℕ → ℕ → Call
  close : ℕ → Call

-- `resolved` is what `inet_pton` makes of the text (none where it gives no address), and `host` what
-- `gethostbyname` does.
pub record Answers : Type 0 where
  pub flags : ℤ
  pub bind : ℤ
  pub listen : ℤ
  pub resolved : Option ℕ
  pub host : Option ℕ
  pub connect : ℤ

-- O_NONBLOCK
abbrev pub o_nonblock : ℕ
o_nonblock = 2048

-- On a little-endian host.
unfoldable pub htons : ℕ → ℕ
htons port = port % 256 * 256 + port / 256

unfoldable pub set_nonblocking : ℕ → ℤ → List Call
set_nonblocking fd (negsuc n) = get_flags fd ∷ []
set_nonblocking fd (pos flags) = get_flags fd ∷ set_flags fd (bit_or flags o_nonblock) ∷ []

abbrev four_mb : ℕ
four_mb = 4 * 1024 * 1024

unfoldable pub tune_socket : ℕ → Bool → Bool → Bool → ℕ → List Call
tune_socket fd zc reuse is_udp udp_segment_size =
    set_option fd reuse_addr 1
    ∷ ((if reuse then set_option fd SocketOption.reuse_port 1 ∷ [] else [])
        ++ (set_option fd send_buffer four_mb
            ∷ set_option fd receive_buffer four_mb
            ∷ ((if is_udp
                  then set_option fd udp_segment udp_segment_size ∷ set_option fd udp_gro 1 ∷ []
                  else set_option fd no_delay 1 ∷ [])
                ++ (if zc then set_option fd SocketOption.zero_copy 1 ∷ [] else []))))

-- -1, where fd is closed.
abbrev pub given_up : ℕ → List Call → ℤ × List Call
given_up fd calls = (negsuc 0, calls ++ (close fd ∷ []))

-- From the `bind` on, behind the calls so far; the address is any address here.
unfoldable pub finish_listen : Answers → ℕ → Bool → List Call → ℤ × List Call
finish_listen a fd is_udp calls =
    if is_negative a.bind
    then given_up fd calls
    else if is_udp
    then (pos fd, calls)
    else if is_negative a.listen
    then given_up fd (calls ++ (listen fd 1024 ∷ []))
    else (pos fd, calls ++ (listen fd 1024 ∷ []))

-- Every caller passes "0.0.0.0", for which the address is INADDR_ANY.
unfoldable pub create_listen_socket : ℤ → Answers → ℕ → Bool → Bool → ℕ → ℤ × List Call
create_listen_socket (negsuc n) a port is_udp zc udp_segment_size = (negsuc 0, [])
create_listen_socket (pos fd) a port is_udp zc udp_segment_size = finish_listen a fd is_udp (
    opened is_udp fd
    ∷ (tune_socket fd zc true is_udp udp_segment_size
        ++ (set_nonblocking fd a.flags ++ (bind fd 0 (htons port) ∷ []))))

-- The address of the host: `inet_pton`, else `gethostbyname`.
abbrev pub address : Answers → Option ℕ
address a = elim a.resolved [ none ↦ a.host | some x ↦ some x ]

-- The connection and what follows, behind the calls so far.
unfoldable pub connect_to : Option ℕ → Answers → ℕ → ℕ → List Call → ℤ × List Call
connect_to none a fd port calls = given_up fd calls
connect_to (some x) a fd port calls =
    if is_negative a.connect
    then given_up fd (calls ++ (connect fd x (htons port) ∷ []))
    else (pos fd, calls ++ (connect fd x (htons port) ∷ set_nonblocking fd a.flags))

-- The binding to a local port, behind the calls so far.
unfoldable pub bind_local : ℕ → ℕ → List Call → List Call
bind_local fd local_port calls =
    calls ++ (set_option fd reuse_addr 1 ∷ bind fd 0 (htons local_port) ∷ [])

unfoldable pub create_client_socket : ℤ → Answers → ℕ → Bool → Bool → ℕ → ℕ → ℤ × List Call
create_client_socket (negsuc n) a port is_udp zc udp_segment_size local_port = (negsuc 0, [])
create_client_socket (pos fd) a port is_udp zc udp_segment_size local_port =
    let calls = opened is_udp fd ∷ tune_socket fd zc false is_udp udp_segment_size in
    if local_port == 0
    then connect_to (address a) a fd port calls
    else if is_negative a.bind
    then given_up fd (bind_local fd local_port calls)
    else connect_to (address a) a fd port (bind_local fd local_port calls)
