-- ===== src/Config/Settings.antt =====
-- include/config.hpp: `Mode`, `Protocol` and `Config` with its defaults. Texts are lists of bytes.
use uring_perf.Base.{ℕ, ◌*◌, Bool, true, false, List, [], ◌∷◌, ℤ}

pub data Mode : Type 0 where
  server client : Mode

pub data Protocol : Type 0 where
  tcp udp : Protocol

pub record Config : Type 0 where
  pub mode : Mode
  pub protocol : Protocol
  pub server_ip : List ℕ
  pub port : ℕ  -- uint16_t
  pub duration_sec : ℕ  -- uint32_t, as the numbers below
  pub threads : ℕ
  pub buf_size : ℕ
  pub queue_depth : ℕ
  pub in_flight : ℕ
  pub udp_gso_size : ℕ
  pub zero_copy : Bool
  pub sqpoll : Bool
  pub fixed_buffers : Bool
  pub fixed_files : Bool
  pub multishot_recv : Bool
  pub multi_process : Bool
  pub reverse : Bool
  pub use_zcrx : Bool
  pub zcrx_ifname : List ℕ
  pub zcrx_base_queue : ℕ
  pub zcrx_area_size : ℕ
  pub zcrx_rq_entries : ℕ
  pub zcrx_cq_entries : ℕ
  pub interval_sec : ℕ
  pub cpu_affinity : List ℤ

-- The member initialisers; the address is "127.0.0.1".
abbrev pub default_config : Config
default_config = record {
  mode = Mode.client;
  protocol = Protocol.tcp;
  server_ip = 49 ∷ 50 ∷ 55 ∷ 46 ∷ 48 ∷ 46 ∷ 48 ∷ 46 ∷ 49 ∷ [];
  port = 5201;
  duration_sec = 10;
  threads = 1;
  buf_size = 128 * 1024;
  queue_depth = 256;
  in_flight = 32;
  udp_gso_size = 1472;
  zero_copy = false;
  sqpoll = false;
  fixed_buffers = true;
  fixed_files = true;
  multishot_recv = true;
  multi_process = false;
  reverse = false;
  use_zcrx = false;
  zcrx_ifname = [];
  zcrx_base_queue = 0;
  zcrx_area_size = 256 * 1024 * 1024;
  zcrx_rq_entries = 8192;
  zcrx_cq_entries = 8192;
  interval_sec = 1;
  cpu_affinity = [];
}

abbrev pub is_server : Mode → Bool
is_server Mode.server = true
is_server Mode.client = false

abbrev pub is_client : Mode → Bool
is_client Mode.server = false
is_client Mode.client = true

abbrev pub is_udp : Protocol → Bool
is_udp Protocol.tcp = false
is_udp Protocol.udp = true

abbrev pub is_tcp : Protocol → Bool
is_tcp Protocol.tcp = true
is_tcp Protocol.udp = false
