-- ===== src/Net/Sockets/Tests.antt =====
-- A host whose name has to be looked up, and the theorems at it.
use uring_perf.Base.{ℕ, ◌≡◌, ℤ, true, false, none, some, pos, negsuc}
use uring_perf.Net.Sockets.{Answers, create_client_socket, create_listen_socket}
use uring_perf.Net.Sockets.Outcome.{
  Leaves, client_succeeds, IsClientSocket, create_client_socket_outcome,
}
use uring_perf.Net.Sockets.Listener.{listener_succeeds, listener, create_listen_socket_outcome}

abbrev friendly : Answers
friendly = record {
  flags = pos 2;
  bind = pos 0;
  listen = negsuc 97;
  resolved = none;
  host = some 77;
  connect = pos 0;
}

create_client_socket_outcome_example :
    Leaves
      (create_client_socket (pos 5) friendly 5201 false true 1472 5203)
      (client_succeeds (pos 5) friendly 5203)
      (IsClientSocket (pos 5) friendly 5201 false true 1472 5203)
create_client_socket_outcome_example =
    create_client_socket_outcome (pos 5) friendly 5201 false true 1472 5203

create_listen_socket_outcome_example :
    Leaves
      (create_listen_socket (pos 4) friendly 5201 true false 1472)
      (listener_succeeds (pos 4) friendly true)
      (λ s.
        (fd : ℕ) × (◌≡◌ {A = ℤ} (pos 4) (pos fd)) × (s ≡ listener friendly 5201 true false 1472 fd))
create_listen_socket_outcome_example =
    create_listen_socket_outcome (pos 4) friendly 5201 true false 1472
