-- ===== src/Lib.antt =====
-- A verification library for uring_perf, a network throughput tool on io_uring.
--
-- The program. `include/config.hpp` reads the command line. `src/main.cpp` makes one worker a thread
-- (or a process), which shares a mapping of counters with the others (`src/stats.cpp`); a reporter
-- thread prints them while the workers run, and a summary is printed at the end. A worker
-- (`src/worker.cpp`) connects or listens, tells or learns the direction of the connection by a
-- handshake of five bytes (`src/net_utils.cpp`), and keeps `in_flight` operations in its ring
-- (`src/uring_engine.cpp`): for each completion it counts, and it queues the operation again.
--
-- The files.
-- Base: shared names, tests on numbers, words and errno values.
-- Net: `src/net_utils.cpp`. Net.Transfer has `send_all` and `recv_all`, Net.Handshake has
--   `send_handshake` and `recv_handshake`. A script gives what `poll`, `send` and `recv` answer in
--   each round; where it ends before the call returns, the call is blocked. Net.Sockets has
--   `create_listen_socket` and `create_client_socket`, as the list of the calls on the socket.
--   Net.Buffers has `allocate_aligned_buffer` and the release.
-- Config: `include/config.hpp`. Config.Settings has `Config` with its defaults, Config.Parse has
--   `parse_args` over the options that `getopt_long` yields. `atoi` is a parameter of which nothing
--   is assumed but that it gives an `int`. Strings are lists of character codes.
-- Engine: `include/uring_engine.hpp` and `src/uring_engine.cpp`. Engine.State has `IOContext` and the
--   members of `UringEngine`; liburing is a record of its answers, and each call on it is recorded
--   (entries filled, newest first). Engine.Setup has the constructor, the destructor and the
--   registrations, Engine.Prep the `prep_*` functions, Engine.BufRing the provided buffers, and
--   Engine.Reap the harvest. Engine.Operations describes what is queued as a list of operations, of
--   which those that find a slot are taken, and Engine.Memory who frees the memory of the buffers.
-- Stats: `include/stats.hpp` and `src/stats.cpp`. Stats.Counters has the atomic additions, each one
--   step, Stats.Totals the sums of `print_summary`, Stats.Report `reporter_loop`, and Stats.Lifetime
--   the mapping of the counters and the beginning and the end of the reporter's thread.
-- Worker: `include/worker.hpp` and `src/worker.cpp`. Worker.Contexts has the `IOContext` objects
--   that are alive, by address; reading one that is dead is a fault. Worker.Client has
--   `run_client` and Worker.Receiver has `run_client_reverse_recv`: the handlers, the loops, and in
--   Worker.Client.Run and Worker.Receiver.Run the whole of a run with its buffers and its endings.
--   Worker.Server with its children has `ClientSession` and `run_server`. Worker.Launch has how both
--   begin: the ports, the socket and the handshake; Worker.Launch.Way has the whole of `run_client`,
--   and Worker.Launch.Service that of `run_server`. Zero-copy receive is in Worker.Refill, the
--   refill queue (`zcrx_return_buffer`), and in Worker.Zcrx: `zcrx_setup` and `zcrx_teardown`,
--   Worker.Zcrx.Server and Worker.Zcrx.Client the loops, and Worker.Zcrx.Run `run_server_zcrx` and
--   `run_client_reverse_recv_zcrx` with what they take and give back. There the ring carries the
--   user data of the operations that the kernel has not completed for good, and a connection is an
--   object that lives as long as its entry in `conns`. What the kernel answers, what is ready in
--   each turn, the addresses of buffers, and each reading of the clock and of the stop signal are
--   inputs.
-- Main: `src/main.cpp`. `main` is the list of the steps that a process takes, by the answers of
--   `fork`; `run_until_stop` reads the signal and the clock once a turn. Main.Threads has the threads
--   that are joinable, as the steps of a process change them.
--
-- Numbers. Words of w bits wrap at 2 ^ w where the source computes with them; results of system calls
-- are signed integers. Times are natural numbers of nanoseconds. The loops are
-- structural recursion on the rounds left or on the list of inputs: a run of any length is a list of
-- its turns. The loop over the list of CPUs has fuel, one more than the text is long: each round but
-- the last removes a comma. `run_until_stop` has as many turns as are given; ten a second of the
-- duration and one more are enough for a client.
--
-- Not modelled: what a buffer holds (the `memset` of a new one), printing (`print_banner`,
-- `print_usage`, the lines of the reports), the floating-point rates, the pinning to a core beyond
-- its choice, and what threads do at the same time, beyond the additions to shared counters, which
-- may come in any order. The peer address that `prep_accept` passes on is left out, as nothing
-- reads it, and so are the flags of the zero-copy rings and the queue that they register, which only
-- the kernel reads.
mod Base
pub mod Net
pub mod Config
pub mod Engine
pub mod Stats
pub mod Worker
pub mod Main
