-- ===== src/Net/Sockets/Listener.antt =====
-- src/net_utils.cpp: what the socket of a server is like.
use uring_perf.Base.{
  ℕ, ◌≡◌, refl, ap, ◌∙◌, Bool, true, false, not, ◌&&◌, ◌||◌, List, [], ◌∷◌, ◌++◌, none, some,
  if◌then◌else◌, inl, inr, arith, ℤ, pos, negsuc, is_negative, Bool-cases,
}
use uring_perf.Net.Sockets.{
  Call, opened, bind, listen, Answers, htons, set_nonblocking, tune_socket, finish_listen,
  create_listen_socket,
}
use uring_perf.Net.Sockets.Outcome.{
  Socket, tuned, tuned_socket, after, Leaves, Leaves-map, after-append, after-set_nonblocking,
  after-given_up, after-more, opened-tuned,
}

-- What has to succeed for a listener.
abbrev pub listener_succeeds : ℤ → Answers → Bool → Bool
listener_succeeds r a udp =
    not (is_negative r) && (not (is_negative a.bind) && (udp || not (is_negative a.listen)))

abbrev pub listener : Answers → ℕ → Bool → Bool → ℕ → ℕ → Socket
listener a port udp zc seg fd = record {
  fd = fd;
  datagrams = udp;
  bound = some (0, htons port);
  peer = none;
  listening = not udp;
  nonblocking = not (is_negative a.flags);
  options = tuned zc true udp seg;
}

-- A socket that is bound.
bound_one : Answers → ℕ → Bool → Bool → ℕ → ℕ → Socket
bound_one a port udp zc seg fd = record (listener a port udp zc seg fd) { listening = false }

finish_listen-Leaves :
    (a : Answers) (port : ℕ) (udp zc : Bool) (seg fd : ℕ) (calls : List Call)
    → after none calls ≡ some (bound_one a port udp zc seg fd)
    → Leaves
        (finish_listen a fd udp calls)
        (not (is_negative a.bind) && (udp || not (is_negative a.listen)))
        (λ s. s ≡ listener a port udp zc seg fd)
unfolding finish_listen bound_one
finish_listen-Leaves a port true zc seg fd calls e = elim (Bool-cases (is_negative a.bind)) [
  | inl refused ↦ rw refused (inl (refl, after-given_up _ fd calls refl e, refl))
  | inr ok ↦ rw ok (inr (listener a port true zc seg fd, refl, e, refl, refl))
]
finish_listen-Leaves a port false zc seg fd calls e = elim (Bool-cases (is_negative a.bind)) [
  | inl refused ↦ rw refused (inl (refl, after-given_up _ fd calls refl e, refl))
  | inr ok ↦ elim (Bool-cases (is_negative a.listen)) [
    | inl bad ↦ rw (ok, bad) (inl (refl, after-given_up _ fd _ refl listens, refl))
    | inr good ↦ rw (ok, good) (inr (listener a port false zc seg fd, refl, listens, refl, refl))
  ]
]
  where
    listens : after none (calls ++ (listen fd 1024 ∷ [])) ≡ some (listener a port false zc seg fd)
    listens = after-more _ calls (listen fd 1024 ∷ []) e ∙ (unfold after in ground arith)

-- `create_listen_socket` fails exactly if the socket or its binding fails, or the listening of a
-- socket that is not for datagrams; then it returns -1 and leaves no descriptor open. Else the one
-- descriptor that it leaves open is the one that it returns: of the kind asked for, with the options of
-- `tuned`, bound to the
-- port on every address, listening if it is not for datagrams, and non-blocking where its flags could
-- be read.
pub create_listen_socket_outcome :
    (r : ℤ) (a : Answers) (port : ℕ) (udp zc : Bool) (seg : ℕ)
    → Leaves
        (create_listen_socket r a port udp zc seg)
        (listener_succeeds r a udp)
        (λ s. (fd : ℕ) × (r ≡ pos fd) × (s ≡ listener a port udp zc seg fd))
unfolding create_listen_socket
create_listen_socket_outcome (negsuc n) a port udp zc seg = inl (refl, unfold after in refl, refl)
create_listen_socket_outcome (pos fd) a port udp zc seg =
    Leaves-map _ _ (λ s v. (fd, refl, v))
      (finish_listen-Leaves a port udp zc seg fd _ (
        after-append none (opened udp fd ∷ tune_socket fd zc true udp seg) _
        ∙ ap (λ o. after o (set_nonblocking fd a.flags ++ (bind fd 0 (htons port) ∷ [])))
            (opened-tuned fd udp zc true seg)
        ∙ after-append (some (tuned_socket zc true udp seg fd)) (set_nonblocking fd a.flags) _
        ∙ ap (λ o. after o (bind fd 0 (htons port) ∷ []))
            (after-set_nonblocking (tuned_socket zc true udp seg fd) fd a.flags refl)
        ∙ bound))
  where
    bound :
        after
          (some (record (tuned_socket zc true udp seg fd) {
            nonblocking = if is_negative a.flags then false else true;
          }))
          (bind fd 0 (htons port) ∷ [])
        ≡ some (bound_one a port udp zc seg fd)
    bound = unfold after bound_one in ground arith
