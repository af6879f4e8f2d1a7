-- ===== src/Engine/Prep.antt =====
-- src/uring_engine.cpp: the functions that fill a submission entry. `user_data` is the address of the
-- context, which stands beside its content where the function reads it.
use uring_perf.Base.{ℕ, ◌+◌, Bool, true, false, ◌&&◌, ◌∷◌, if◌then◌else◌}
use uring_perf.Engine.State.{Engine, IoContext, Sqe, Opcode}

-- `io_uring_get_sqe`; without an entry the functions return false, and with one they fill it.
unfoldable pub fill_sqe : Engine → Sqe → Bool × Engine
fill_sqe e sqe =
    if e.lib.slots e.gets
    then (true, record e { gets = e.gets + 1; sqes = sqe ∷ e.sqes })
    else (false, record e { gets = e.gets + 1 })

unfoldable pub send_sqe : Engine → ℕ → ℕ → ℕ → ℕ → IoContext → Bool → Sqe
send_sqe e fd buf len user_data ctx use_fixed_file = record {
  opcode = Opcode.send;
  fd = fd;
  addr = buf;
  len = len;
  buf_index = if e.buffers_registered then ctx.buf_idx else 0;
  buf_group = 0;
  fixed_file = use_fixed_file && e.files_registered;
  buffer_select = false;
  user_data = user_data;
}

unfoldable pub prep_send_standard : Engine → ℕ → ℕ → ℕ → ℕ → IoContext → Bool → Bool × Engine
prep_send_standard e fd buf len user_data ctx use_fixed_file =
    fill_sqe e (send_sqe e fd buf len user_data ctx use_fixed_file)

unfoldable pub send_zc_sqe : Engine → ℕ → ℕ → ℕ → ℕ → ℕ → Bool → Sqe
send_zc_sqe e fd buf len buf_idx user_data use_fixed_file = record {
  opcode = if e.buffers_registered then Opcode.send_zc_fixed else Opcode.send_zc;
  fd = fd;
  addr = buf;
  len = len;
  buf_index = if e.buffers_registered then buf_idx else 0;
  buf_group = 0;
  fixed_file = use_fixed_file && e.files_registered;
  buffer_select = false;
  user_data = user_data;
}

unfoldable pub prep_send_zc : Engine → ℕ → ℕ → ℕ → ℕ → ℕ → IoContext → Bool → Bool × Engine
prep_send_zc e fd buf len buf_idx user_data ctx use_fixed_file =
    if e.zc_supported
    then fill_sqe e (send_zc_sqe e fd buf len buf_idx user_data use_fixed_file)
    else prep_send_standard e fd buf len user_data ctx false

unfoldable pub recv_sqe : Engine → ℕ → ℕ → ℕ → ℕ → ℕ → Bool → Sqe
recv_sqe e fd buf len buf_idx user_data use_fixed_file = record {
  opcode = Opcode.recv;
  fd = fd;
  addr = buf;
  len = len;
  buf_index = if e.buffers_registered then buf_idx else 0;
  buf_group = 0;
  fixed_file = use_fixed_file && e.files_registered;
  buffer_select = false;
  user_data = user_data;
}

unfoldable pub prep_recv : Engine → ℕ → ℕ → ℕ → ℕ → ℕ → Bool → Bool × Engine
prep_recv e fd buf len buf_idx user_data use_fixed_file =
    fill_sqe e (recv_sqe e fd buf len buf_idx user_data use_fixed_file)

-- The address that the kernel writes the peer's name to is the same at every call, and left out.
unfoldable pub accept_sqe : ℕ → ℕ → Sqe
accept_sqe listen_fd user_data = record {
  opcode = Opcode.accept;
  fd = listen_fd;
  addr = 0;
  len = 0;
  buf_index = 0;
  buf_group = 0;
  fixed_file = false;
  buffer_select = false;
  user_data = user_data;
}

unfoldable pub prep_accept : Engine → ℕ → ℕ → Bool × Engine
prep_accept e listen_fd user_data = fill_sqe e (accept_sqe listen_fd user_data)

unfoldable pub multishot_sqe : Engine → ℕ → ℕ → Bool → Sqe
multishot_sqe e fd user_data use_fixed_file = record {
  opcode = Opcode.recv_multishot;
  fd = fd;
  addr = 0;
  len = 0;
  buf_index = 0;
  buf_group = e.recv_bgid;
  fixed_file = use_fixed_file && e.files_registered;
  buffer_select = true;
  user_data = user_data;
}

unfoldable pub prep_recv_multishot : Engine → ℕ → ℕ → Bool → Bool × Engine
prep_recv_multishot e fd user_data use_fixed_file =
    fill_sqe e (multishot_sqe e fd user_data use_fixed_file)
