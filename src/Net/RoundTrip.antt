-- ===== src/Net/RoundTrip.antt =====
-- src/net_utils.cpp: what the client writes by `send_handshake` the server reads by
-- `recv_handshake`.
use uring_perf.Base.{ℕ, ◌^◌, ◌<◌, ◌≡◌, ap, ◌∙◌, Bool, true, false, List, [], ◌++◌, arith}
use uring_perf.Net.Transfer.{returned, SendRound, RecvRound, recv_all}
use uring_perf.Net.Handshake.{
  learnt, handshake_bytes, send_handshake, decode_handshake, read_handshake, recv_handshake,
}
use uring_perf.Net.Delivery.{Carries, Delivers, send_all_complete, recv_all_complete}

decode-handshake_bytes :
    (reverse : Bool) (duration_sec : ℕ)
    → duration_sec < 2 ^ 32
    → decode_handshake (handshake_bytes reverse duration_sec)
      ≡ learnt (record { reverse = reverse; duration_sec = duration_sec })
unfolding decode_handshake handshake_bytes
decode-handshake_bytes true d h = ground arith
decode-handshake_bytes false d h = ground arith

-- However the kernel cuts up the five bytes on the way out and on the way in, and whatever the
-- client sends right behind them, both calls return, and the server learns the direction and the
-- duration that the client gave.
pub handshake_roundtrip :
    (reverse : Bool) (duration_sec : ℕ) (sends : List SendRound) (recvs : List RecvRound)
    (later : List ℕ)
    → duration_sec < 2 ^ 32
    → Carries sends 5
    → Delivers recvs 5 ((send_handshake sends reverse duration_sec).1 ++ later)
    → ((send_handshake sends reverse duration_sec).0 ≡ returned true)
      × (recv_handshake recvs ≡ learnt (record { reverse = reverse; duration_sec = duration_sec }))
unfolding send_handshake recv_handshake read_handshake handshake_bytes
handshake_roundtrip reverse d sends recvs later h c v = (ap (λ p. p.0) sent, learns)
  where
    sent : send_handshake sends reverse d ≡ (returned true, handshake_bytes reverse d)
    sent = send_all_complete sends (handshake_bytes reverse d) 0 c

    arrives : Delivers recvs 5 (handshake_bytes reverse d ++ later)
    arrives = rw sent at v

    received : recv_all recvs 5 [] ≡ (returned true, handshake_bytes reverse d)
    received =
        recv_all_complete recvs 5 5 [] (handshake_bytes reverse d ++ later) (omega arith) arrives

    learns : recv_handshake recvs ≡ learnt (record { reverse = reverse; duration_sec = d })
    learns = ap read_handshake received ∙ decode-handshake_bytes reverse d h
