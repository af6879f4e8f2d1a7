-- ===== src/Net/Transfer.antt =====
-- src/net_utils.cpp: `send_all` and `recv_all`. The system calls are a script, a round for each turn
-- of the loop: what `send` or `recv` gave, and what `poll` gives if the loop asks it. A call that
-- has used up its script is still blocked.
use uring_perf.Base.{
  ℕ, ◌+◌, Bool, true, false, ◌||◌, List, [], ◌∷◌, ◌++◌, ltb, ◌==◌, if◌then◌else◌, length, take,
  drop, ℤ, is_positive,
}
use uring_perf.Base.Errno

pub data Progress : Type 0 where
  returned : Bool → Progress
  blocked : Progress

-- `send` took n bytes, or gave -1 and an error number.
pub data SendResult : Type 0 where
  accepted : ℕ → SendResult
  failed : ℕ → SendResult

pub record SendRound : Type 0 where
  pub result : SendResult
  pub poll : ℤ

-- `recv` filled in these bytes (none: the peer has closed), or gave -1 and an error number.
pub data RecvResult : Type 0 where
  got : List ℕ → RecvResult
  failed : ℕ → RecvResult

pub record RecvRound : Type 0 where
  pub result : RecvResult
  pub poll : ℤ

-- errno == EAGAIN || errno == EWOULDBLOCK || errno == EINTR
abbrev pub is_transient : ℕ → Bool
is_transient e = e == Errno.eagain || e == Errno.eintr

-- What a turn of the loop does: goes on with this many more bytes, or returns false.
pub data Turn : Type 0 where
  advance : ℕ → Turn
  give_up : Turn

unfoldable pub send_turn : SendRound → Turn
send_turn r = elim r.result [
  | accepted n ↦ if ltb 0 n then advance n else give_up
  | failed e ↦
      if is_transient e then (if is_positive r.poll then advance 0 else give_up) else give_up
]

-- `send_all` from the moment that `sent` bytes are out, with the bytes that go out from there.
unfoldable pub send_all : List SendRound → List ℕ → ℕ → Progress × List ℕ
send_all [] buf sent = if ltb sent (length buf) then (blocked, []) else (returned true, [])
send_all (r ∷ rs) buf sent =
    if ltb sent (length buf)
    then (elim (send_turn r) [
      | advance n ↦
          let (p, wire) = send_all rs buf (sent + n) in (p, take n (drop sent buf) ++ wire)
      | give_up ↦ (returned false, [])
    ])
    else (returned true, [])

pub data Chunk : Type 0 where
  store : List ℕ → Chunk
  give_up : Chunk

unfoldable pub recv_turn : RecvRound → Chunk
recv_turn r = elim r.result [
  | got bytes ↦ if ltb 0 (length bytes) then store bytes else Chunk.give_up
  | failed e ↦
      if is_transient e
      then (if is_positive r.poll then store [] else Chunk.give_up)
      else Chunk.give_up
]

-- `recv_all`, with the bytes that the buffer holds so far and in the end.
unfoldable pub recv_all : List RecvRound → ℕ → List ℕ → Progress × List ℕ
recv_all [] len buf = if ltb (length buf) len then (blocked, buf) else (returned true, buf)
recv_all (r ∷ rs) len buf =
    if ltb (length buf) len
    then (elim (recv_turn r) [
      | store bytes ↦ recv_all rs len (buf ++ bytes)
      | give_up ↦ (returned false, buf)
    ])
    else (returned true, buf)
