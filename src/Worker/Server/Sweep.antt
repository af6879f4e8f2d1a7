-- ===== src/Worker/Server/Sweep.antt =====
-- src/worker.cpp: which sessions the sweep of `run_server` ends.
use uring_perf.Base.{
  ℕ, ◌≡◌, refl, ◌≢◌, sym, ap, ◌∙◌, List, [], ◌∷◌, ◌++◌, if◌then◌else◌, inl, inr, arith, Bool-cases,
  All, append_assoc,
}
use uring_perf.Net.Buffers.{non_null, free_buffers-non_null}
use uring_perf.Worker.Server.{
  ClientSession, Server, erase, is_expired, drop_session, end_session, sweep_from, sweep,
}

-- No descriptor has two sessions.
abbrev pub IsKeyed : List (ℕ × ClientSession) → Type 0
IsKeyed [] = Unit
IsKeyed ((fd, x) ∷ rest) = All (λ r. fd ≢ r.0) rest × IsKeyed rest

abbrev pub spared : ℕ → List (ℕ × ClientSession) → List (ℕ × ClientSession)
spared now [] = []
spared now ((fd, x) ∷ rest) =
    let tail = spared now rest in if is_expired now x then tail else (fd, x) ∷ tail

-- The descriptors and the buffers of the sessions whose time is up, as the sweep finds them.
abbrev pub ended_fds : ℕ → List (ℕ × ClientSession) → List ℕ
ended_fds now [] = []
ended_fds now ((fd, x) ∷ rest) =
    let tail = ended_fds now rest in if is_expired now x then tail ++ (fd ∷ []) else tail

abbrev pub ended_buffers : ℕ → List (ℕ × ClientSession) → List ℕ
ended_buffers now [] = []
ended_buffers now ((fd, x) ∷ rest) =
    let tail = ended_buffers now rest in
    if is_expired now x then tail ++ non_null x.buffers else tail

erase_absent : (fd : ℕ) (l : List (ℕ × ClientSession)) → All (λ r. fd ≢ r.0) l → erase fd l ≡ l
unfolding erase
erase_absent fd [] h = refl
erase_absent fd ((k, x) ∷ rest) (n, h) = ground (arith, erase_absent fd rest h)

erase_middle :
    (fd : ℕ) (x : ClientSession) (kept rest : List (ℕ × ClientSession))
    → All (λ r. fd ≢ r.0) kept
    → All (λ r. fd ≢ r.0) rest
    → erase fd (kept ++ ((fd, x) ∷ rest)) ≡ kept ++ rest
unfolding erase
erase_middle fd x [] rest h k = ground (arith, erase_absent fd rest k)
erase_middle fd x ((q, y) ∷ kept) rest (n, h) k = ground (arith, erase_middle fd x kept rest h k)

-- The keys of the sessions still to pass are none of those that were kept.
abbrev IsApart : List (ℕ × ClientSession) → List (ℕ × ClientSession) → Type 0
IsApart kept = All (λ r. All (λ q. r.0 ≢ q.0) kept)

All-append_one :
    (fd k : ℕ) (x : ClientSession) (kept : List (ℕ × ClientSession))
    → All (λ q. fd ≢ q.0) kept
    → fd ≢ k
    → All (λ q. fd ≢ q.0) (kept ++ ((k, x) ∷ []))
All-append_one fd k x [] h n = (n, tt)
All-append_one fd k x (q ∷ kept) h n = (h.0, All-append_one fd k x kept h.1 n)

IsApart-append :
    (k : ℕ) (x : ClientSession) (kept rest : List (ℕ × ClientSession))
    → IsApart kept rest
    → All (λ r. k ≢ r.0) rest
    → IsApart (kept ++ ((k, x) ∷ [])) rest
IsApart-append k x kept [] h n = tt
IsApart-append k x kept ((fd, y) ∷ rest) (a, h) (m, n) =
    (All-append_one fd k x kept a (λ e. m (sym e)), IsApart-append k x kept rest h n)

sweep_from-spared :
    (now : ℕ) (kept todo : List (ℕ × ClientSession)) (s : Server)
    → s.sessions ≡ kept ++ todo
    → IsApart kept todo
    → IsKeyed todo
    → let t = sweep_from now todo s in
      (t.sessions ≡ kept ++ spared now todo)
      × (t.closed ≡ ended_fds now todo ++ s.closed)
      × (t.freed ≡ ended_buffers now todo ++ s.freed)
unfolding sweep_from end_session drop_session
sweep_from-spared now kept [] s e a k = (e, refl, refl)
sweep_from-spared now kept ((fd, x) ∷ rest) s e (b, a) (n, k) =
    elim (Bool-cases (is_expired now x)) [
      | inl late ↦
          let (l, c, f) =
            sweep_from-spared now kept rest (end_session fd x s)
              (ap (erase fd) e ∙ erase_middle fd x kept rest b n) a k in
          rw late (
            l,
            c ∙ sym (append_assoc (ended_fds now rest) (fd ∷ []) s.closed),
            f
                ∙ ap (λ l. ended_buffers now rest ++ (l ++ s.freed))
                    (free_buffers-non_null x.buffers)
                ∙ sym (append_assoc (ended_buffers now rest) (non_null x.buffers) s.freed),
          )
      | inr early ↦
          let (l, c, f) =
            sweep_from-spared now (kept ++ ((fd, x) ∷ [])) rest s
              (e ∙ sym (append_assoc kept ((fd, x) ∷ []) rest)) (IsApart-append fd x kept rest a n)
              k in
          rw early (l ∙ append_assoc kept ((fd, x) ∷ []) (spared now rest), c, f)
    ]

IsApart-nil : (l : List (ℕ × ClientSession)) → IsApart [] l
IsApart-nil [] = tt
IsApart-nil (r ∷ rest) = (tt, IsApart-nil rest)

-- Where no descriptor has two sessions, the sweep keeps, in order, exactly the sessions that are no
-- reverse ones or have time left. It closes the descriptor and frees the buffers of each other
-- session (all but null pointers), once.
pub sweep-spared :
    (now : ℕ) (s : Server)
    → IsKeyed s.sessions
    → ((sweep now s).sessions ≡ spared now s.sessions)
      × ((sweep now s).closed ≡ ended_fds now s.sessions ++ s.closed)
      × ((sweep now s).freed ≡ ended_buffers now s.sessions ++ s.freed)
unfolding sweep
sweep-spared now s k = sweep_from-spared now [] s.sessions s refl (IsApart-nil s.sessions) k
