-- ===== src/Net/Delivery.antt =====
-- What `send_all` and `recv_all` of src/net_utils.cpp move, for every way in which the system calls
-- cut the transfer up.
use native.Mathlib.Nat.{zero-add, suc-add, sub-zero}
use uring_perf.Base.{
  ap, sym, ℕ, zero, suc, ◌+◌, ◌-◌, ◌≤◌, ◌≡◌, refl, subst, ◌⊎◌, ◌∙◌, true, inl, inr, List, [], ◌∷◌,
  ◌++◌, append_assoc, append-nil, arith, length, take, drop, length-append, take-append-drop,
}
use uring_perf.Net.Transfer.{
  returned, SendRound, RecvRound, advance, give_up, store, send_turn, recv_turn, send_all, recv_all,
}

-- The bytes that a turn moves.
moved : SendRound → ℕ
moved r = elim (send_turn r) [ advance n ↦ n | give_up ↦ 0 ]

module _ {ℓ} {A : Type ℓ} where
  drop-all : (n : ℕ) (xs : List A) → length xs ≤ n → drop n xs ≡ []
  drop-all zero [] h = refl
  drop-all zero (x ∷ xs) h = absurd (omega arith)
  drop-all (suc n) [] h = refl
  drop-all (suc n) (x ∷ xs) h = drop-all n xs (omega arith)

  take-drop-append : (m n : ℕ) (xs : List A) → take n (drop m xs) ++ drop (m + n) xs ≡ drop m xs
  take-drop-append zero n xs = rw zero-add (take-append-drop n xs)
  take-drop-append (suc m) zero [] = rw suc-add refl
  take-drop-append (suc m) (suc n) [] = rw suc-add refl
  take-drop-append (suc m) n (x ∷ xs) = rw suc-add (take-drop-append m n xs)

-- A transfer that returns true has put out the whole rest of the buffer, in order and once.
pub send_all_exact :
    (rs : List SendRound) (buf : List ℕ) (sent : ℕ) {wire : List ℕ}
    → send_all rs buf sent ≡ (returned true, wire)
    → wire ≡ drop sent buf
unfolding send_all moved
send_all_exact [] buf sent h = ground (arith, drop-all sent buf)
send_all_exact (r ∷ rs) buf sent h = ground (
  arith,
  drop-all sent buf,
  take-drop-append sent (moved r) buf,
  send_all_exact rs buf (sent + moved r) {wire = (send_all rs buf (sent + moved r)).1},
)

-- The script takes `want` bytes, with interruptions that `poll` ends.
abbrev pub Carries : List SendRound → ℕ → Type 0
Carries [] want = want ≡ 0
Carries (r ∷ rs) want = (want ≡ 0) ⊎ ((n : ℕ) × (send_turn r ≡ advance n) × Carries rs (want - n))

rest_after : (len sent n : ℕ) → len - sent - n ≡ len - (sent + n)
rest_after len sent n = omega arith

-- Where the script takes all that is left, the call returns true, and the rest has gone out.
pub send_all_complete :
    (rs : List SendRound) (buf : List ℕ) (sent : ℕ)
    → Carries rs (length buf - sent)
    → send_all rs buf sent ≡ (returned true, drop sent buf)
unfolding send_all moved
send_all_complete [] buf sent c = ground (arith, drop-all sent buf)
send_all_complete (r ∷ rs) buf sent (inl e) = ground (arith, drop-all sent buf)
send_all_complete (r ∷ rs) buf sent (inr (n, e, c)) =
    let c' = subst (Carries rs) (rest_after (length buf) sent n) c in
    ground (
      arith,
      drop-all sent buf,
      take-drop-append sent n buf,
      send_all_complete rs buf (sent + n) c',
    )

-- The script hands over the next `want` bytes of the stream, in chunks of any size that the call has
-- room for, with interruptions that `poll` ends.
abbrev pub Delivers : List RecvRound → ℕ → List ℕ → Type 0
Delivers [] want stream = want ≡ 0
Delivers (r ∷ rs) want stream =
    (want ≡ 0)
    ⊎ ((bytes rest : List ℕ) × (recv_turn r ≡ store bytes)
        × (stream ≡ bytes ++ rest)
        × (length bytes ≤ want)
        × Delivers rs (want - length bytes) rest)

take-append_le :
    (want : ℕ) (bytes rest : List ℕ)
    → length bytes ≤ want
    → take want (bytes ++ rest) ≡ bytes ++ take (want - length bytes) rest
take-append_le want [] rest h = ap (λ n. take n rest) (sym (sub-zero want))
take-append_le zero (b ∷ bytes) rest h = absurd (omega arith)
take-append_le (suc want) (b ∷ bytes) rest h =
    ap (◌∷◌ b)
      (take-append_le want bytes rest (omega arith) ∙ ap (λ n. bytes ++ take n rest) (omega arith))

-- Where the script delivers what is missing, the call returns true with the next bytes of the
-- stream behind those that it had.
pub recv_all_complete :
    (rs : List RecvRound) (len want : ℕ) (buf stream : List ℕ)
    → length buf + want ≡ len
    → Delivers rs want stream
    → recv_all rs len buf ≡ (returned true, buf ++ take want stream)
unfolding recv_all
recv_all_complete [] len zero buf stream e d = ground (arith, append-nil buf)
recv_all_complete [] len (suc want) buf stream e d = absurd (omega arith)
recv_all_complete (r ∷ rs) len zero buf stream e d = ground (arith, append-nil buf)
recv_all_complete (r ∷ rs) len (suc want) buf stream e (inl d) = absurd (omega arith)
recv_all_complete (r ∷ rs) len (suc want) buf stream e (inr (bytes, rest, t, s, l, d)) = ground (
  arith,
  length-append buf bytes,
  take-append_le (suc want) bytes rest l,
  append_assoc buf bytes (take (suc want - length bytes) rest),
  recv_all_complete rs len (suc want - length bytes) (buf ++ bytes) rest,
  d,
)
