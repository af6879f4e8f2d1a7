-- ===== src/Net/Tests.antt =====
-- Runs of the transfers and of the handshake, and the theorems at inputs that meet their hypotheses.
use uring_perf.Base.{ℕ, ◌≡◌, refl, true, inr, List, [], ◌∷◌, arith, pos, drop}
use uring_perf.Net.Transfer.{
  returned, SendRound, SendResult, RecvRound, RecvResult, got, send_turn, recv_turn, send_all,
  recv_all,
}
use uring_perf.Net.Handshake.{
  learnt, failed, handshake_bytes, send_handshake, read_handshake, recv_handshake,
}
use uring_perf.Net.Delivery.{
  Carries, Delivers, send_all_exact, send_all_complete, recv_all_complete,
}
use uring_perf.Net.RoundTrip.{handshake_roundtrip}

-- Two bytes, an interruption, and the other three.
abbrev halting_sends : List SendRound
halting_sends =
    record { result = SendResult.accepted 2; poll = pos 0 }
    ∷ record { result = SendResult.failed 11; poll = pos 1 }
    ∷ record { result = SendResult.accepted 3; poll = pos 0 }
    ∷ []

abbrev halting_recvs : List RecvRound
halting_recvs =
    record { result = got (1 ∷ []); poll = pos 0 }
    ∷ record { result = RecvResult.failed 4; poll = pos 1 }
    ∷ record { result = got (0 ∷ 0 ∷ 1 ∷ 4 ∷ []); poll = pos 0 }
    ∷ []

halting_sends-Carries : Carries halting_sends 5
unfolding send_turn
halting_sends-Carries = inr (2, refl, inr (0, refl, inr (3, refl, refl)))

halting_recvs-Delivers : Delivers halting_recvs 5 (1 ∷ 0 ∷ 0 ∷ 1 ∷ 4 ∷ 7 ∷ [])
unfolding recv_turn
halting_recvs-Delivers = inr (
  1 ∷ [],
  0 ∷ 0 ∷ 1 ∷ 4 ∷ 7 ∷ [],
  refl,
  refl,
  omega arith,
  inr (
    [],
    0 ∷ 0 ∷ 1 ∷ 4 ∷ 7 ∷ [],
    refl,
    refl,
    omega arith,
    inr (0 ∷ 0 ∷ 1 ∷ 4 ∷ [], 7 ∷ [], refl, refl, omega arith, refl),
  ),
)

-- The peer closes after two bytes.
closes_early :
    recv_handshake (
      record { result = got (1 ∷ 0 ∷ []); poll = pos 0 }
      ∷ record { result = got []; poll = pos 0 }
      ∷ [])
    ≡ failed
unfolding recv_handshake read_handshake recv_all recv_turn
closes_early = refl

send_all_exact_example : ◌≡◌ {A = List ℕ} (3 ∷ 4 ∷ []) (drop 1 (2 ∷ 3 ∷ 4 ∷ []))
unfolding send_all send_turn
send_all_exact_example =
    send_all_exact (record { result = SendResult.accepted 2; poll = pos 0 } ∷ []) (2 ∷ 3 ∷ 4 ∷ []) 1
      refl

send_all_complete_example :
    send_all halting_sends (1 ∷ 2 ∷ 3 ∷ 4 ∷ 5 ∷ []) 0 ≡ (returned true, 1 ∷ 2 ∷ 3 ∷ 4 ∷ 5 ∷ [])
send_all_complete_example =
    send_all_complete halting_sends (1 ∷ 2 ∷ 3 ∷ 4 ∷ 5 ∷ []) 0 halting_sends-Carries

recv_all_complete_example : recv_all halting_recvs 5 [] ≡ (returned true, 1 ∷ 0 ∷ 0 ∷ 1 ∷ 4 ∷ [])
recv_all_complete_example =
    recv_all_complete halting_recvs 5 5 [] (1 ∷ 0 ∷ 0 ∷ 1 ∷ 4 ∷ 7 ∷ []) (omega arith)
      halting_recvs-Delivers

handshake_roundtrip_example :
    ((send_handshake halting_sends true 260).0 ≡ returned true)
    × (recv_handshake halting_recvs ≡ learnt (record { reverse = true; duration_sec = 260 }))
unfolding send_handshake send_all send_turn handshake_bytes
handshake_roundtrip_example =
    handshake_roundtrip true 260 halting_sends halting_recvs (7 ∷ []) (omega arith)
      halting_sends-Carries halting_recvs-Delivers
