-- ===== src/Net/Handshake.antt =====
-- src/net_utils.cpp: `send_handshake` and `recv_handshake`, five bytes that name the direction of the
-- connection and the client's duration in network byte order (`htonl`, `memcpy`, `ntohl`).
use uring_perf.Base.{
  ℕ, ◌+◌, ◌*◌, ◌/◌, ◌%◌, ◌^◌, Bool, true, false, not, List, [], ◌∷◌, ◌==◌, if◌then◌else◌,
}
use uring_perf.Net.Transfer.{Progress, returned, blocked, SendRound, RecvRound, send_all, recv_all}

unfoldable pub handshake_bytes : Bool → ℕ → List ℕ
handshake_bytes reverse duration_sec =
    (if reverse then 1 else 0)
    ∷ (duration_sec / 2 ^ 24 % 256)
    ∷ (duration_sec / 2 ^ 16 % 256)
    ∷ (duration_sec / 2 ^ 8 % 256)
    ∷ (duration_sec % 256)
    ∷ []

unfoldable pub send_handshake : List SendRound → Bool → ℕ → Progress × List ℕ
send_handshake script reverse duration_sec =
    send_all script (handshake_bytes reverse duration_sec) 0

pub record Handshake : Type 0 where
  pub reverse : Bool
  pub duration_sec : ℕ

-- What `recv_handshake` returns: `failed` leaves the caller's variables as they were.
pub data HandshakeResult : Type 0 where
  learnt : Handshake → HandshakeResult
  failed : HandshakeResult
  waiting : HandshakeResult

-- The buffer has five bytes here; no other length is read.
unfoldable pub decode_handshake : List ℕ → HandshakeResult
decode_handshake (b0 ∷ b1 ∷ b2 ∷ b3 ∷ b4 ∷ []) =
    learnt (record {
      reverse = not (b0 == 0);
      duration_sec = b1 * 2 ^ 24 + b2 * 2 ^ 16 + b3 * 2 ^ 8 + b4;
    })
decode_handshake _ = failed

-- The test on what `recv_all` returned.
unfoldable pub read_handshake : Progress × List ℕ → HandshakeResult
read_handshake (returned true, buf) = decode_handshake buf
read_handshake (returned false, buf) = failed
read_handshake (blocked, buf) = waiting

unfoldable pub recv_handshake : List RecvRound → HandshakeResult
recv_handshake script = read_handshake (recv_all script 5 [])
