-- ===== src/Net/Sockets/Outcome.antt =====
-- src/net_utils.cpp: what the socket that a call makes is like, and that none is left behind.
use uring_perf.Base.{
  ℕ, bit_or, ◌*◌, ◌^◌, ◌≡◌, refl, ap, ◌∙◌, Bool, true, false, not, ◌&&◌, ◌||◌, List, [], ◌∷◌, ◌++◌,
  Option, none, some, ◌==◌, if◌then◌else◌, ◌⊎◌, inl, inr, arith, ℤ, pos, negsuc, is_negative,
  Bool-cases,
}
use uring_perf.Base.Bits.{bit, bit_small, bit-bit_or}
use uring_perf.Net.Sockets.{
  SocketOption, reuse_addr, send_buffer, receive_buffer, no_delay, udp_segment, udp_gro, o_nonblock,
  Call, opened, set_option, set_flags, bind, listen, connect, close, Answers, htons,
  set_nonblocking, tune_socket, address, given_up, connect_to, bind_local, create_client_socket,
}

-- The values that options have been set to.
pub record Tuning : Type 0 where
  pub reuse_address : Option ℕ
  pub reuse_ports : Option ℕ
  pub send_size : Option ℕ
  pub receive_size : Option ℕ
  pub undelayed : Option ℕ
  pub segment : Option ℕ
  pub coalesced : Option ℕ
  pub uncopied : Option ℕ

abbrev set : SocketOption → ℕ → Tuning → Tuning
set reuse_addr v t = record t { reuse_address = some v }
set SocketOption.reuse_port v t = record t { reuse_ports = some v }
set send_buffer v t = record t { send_size = some v }
set receive_buffer v t = record t { receive_size = some v }
set no_delay v t = record t { undelayed = some v }
set udp_segment v t = record t { segment = some v }
set udp_gro v t = record t { coalesced = some v }
set SocketOption.zero_copy v t = record t { uncopied = some v }

-- The options that a socket is to have: buffers of 4 MB, datagrams that are segmented and coalesced by
-- the kernel, and streams without delay.
abbrev pub tuned : Bool → Bool → Bool → ℕ → Tuning
tuned zc reuse udp seg = record {
  reuse_address = some 1;
  reuse_ports = if reuse then some 1 else none;
  send_size = some (4 * 2 ^ 20);
  receive_size = some (4 * 2 ^ 20);
  undelayed = if udp then none else some 1;
  segment = if udp then some seg else none;
  coalesced = if udp then some 1 else none;
  uncopied = if zc then some 1 else none;
}

-- Whether the flags of a file say O_NONBLOCK, which is bit 11.
abbrev pub says_nonblocking : ℕ → Bool
says_nonblocking flags = bit flags 11 == 1

pub nonblocking_set : (flags : ℕ) → says_nonblocking (bit_or flags o_nonblock) ≡ true
nonblocking_set flags = ground (arith, bit-bit_or 11 flags o_nonblock, bit_small 11 flags)

-- A socket, as the calls on it leave it. (Every call here succeeds but the last one before a `close`.)
pub record Socket : Type 0 where
  pub fd : ℕ
  pub datagrams : Bool
  pub bound : Option (ℕ × ℕ)
  pub peer : Option (ℕ × ℕ)
  pub listening : Bool
  pub nonblocking : Bool
  pub options : Tuning

abbrev pub new_socket : Bool → ℕ → Socket
new_socket datagrams fd = record {
  fd = fd;
  datagrams = datagrams;
  bound = none;
  peer = none;
  listening = false;
  nonblocking = false;
  options = record {
    reuse_address = none;
    reuse_ports = none;
    send_size = none;
    receive_size = none;
    undelayed = none;
    segment = none;
    coalesced = none;
    uncopied = none;
  };
}

abbrev pub tuned_socket : Bool → Bool → Bool → ℕ → ℕ → Socket
tuned_socket zc reuse udp seg fd = record (new_socket udp fd) { options = tuned zc reuse udp seg }

-- The one socket that is open after a call; a call on another one is not for it.
abbrev pub after_call : Option Socket → Call → Option Socket
after_call o (opened datagrams fd) = some (new_socket datagrams fd)
after_call (some s) (bind fd addr port) =
    some (if s.fd == fd then record s { bound = some (addr, port) } else s)
after_call (some s) (listen fd n) = some (if s.fd == fd then record s { listening = true } else s)
after_call (some s) (connect fd addr port) =
    some (if s.fd == fd then record s { peer = some (addr, port) } else s)
after_call (some s) (set_flags fd v) =
    some (if s.fd == fd then record s { nonblocking = says_nonblocking v } else s)
after_call (some s) (set_option fd o v) =
    some (if s.fd == fd then record s { options = set o v s.options } else s)
after_call (some s) (close fd) = if s.fd == fd then none else some s
after_call o c = o

unfoldable pub after : Option Socket → List Call → Option Socket
after o [] = o
after o (c ∷ cs) = after (after_call o c) cs

pub after-append :
    (o : Option Socket) (xs ys : List Call) → after o (xs ++ ys) ≡ after (after o xs) ys
unfolding after
after-append o [] ys = refl
after-append o (x ∷ xs) ys = after-append (after_call o x) xs ys

-- The calls that set options.
abbrev setting : ℕ → List (SocketOption × ℕ) → List Call
setting fd [] = []
setting fd ((o, v) ∷ l) = set_option fd o v ∷ setting fd l

abbrev set_all : List (SocketOption × ℕ) → Tuning → Tuning
set_all [] t = t
set_all ((o, v) ∷ l) t = set_all l (set o v t)

after-options :
    (s : Socket) (l : List (SocketOption × ℕ))
    → after (some s) (setting s.fd l) ≡ some (record s { options = set_all l s.options })
unfolding after
after-options s [] = refl
after-options s ((o, v) ∷ l) =
    let same : (s.fd == s.fd) ≡ true = ground arith in
    let next = record s { options = set o v s.options } in
    ap (λ b. after (some (if b then next else s)) (setting s.fd l)) same ∙ after-options next l

abbrev settings : Bool → Bool → Bool → ℕ → List (SocketOption × ℕ)
settings zc reuse udp seg =
    (reuse_addr, 1)
    ∷ ((if reuse then (SocketOption.reuse_port, 1) ∷ [] else [])
        ++ ((send_buffer, 4 * 2 ^ 20)
            ∷ (receive_buffer, 4 * 2 ^ 20)
            ∷ ((if udp then (udp_segment, seg) ∷ (udp_gro, 1) ∷ [] else (no_delay, 1) ∷ [])
                ++ (if zc then (SocketOption.zero_copy, 1) ∷ [] else []))))

after-tune_socket :
    (fd : ℕ) (zc reuse udp : Bool) (seg : ℕ)
    → after (some (new_socket udp fd)) (tune_socket fd zc reuse udp seg)
      ≡ some (tuned_socket zc reuse udp seg fd)
unfolding after tune_socket
after-tune_socket fd true true true seg =
    after-options (new_socket true fd) (settings true true true seg)
after-tune_socket fd true true false seg =
    after-options (new_socket false fd) (settings true true false seg)
after-tune_socket fd true false true seg =
    after-options (new_socket true fd) (settings true false true seg)
after-tune_socket fd true false false seg =
    after-options (new_socket false fd) (settings true false false seg)
after-tune_socket fd false true true seg =
    after-options (new_socket true fd) (settings false true true seg)
after-tune_socket fd false true false seg =
    after-options (new_socket false fd) (settings false true false seg)
after-tune_socket fd false false true seg =
    after-options (new_socket true fd) (settings false false true seg)
after-tune_socket fd false false false seg =
    after-options (new_socket false fd) (settings false false false seg)

pub after-set_nonblocking :
    (s : Socket) (fd : ℕ) (flags : ℤ)
    → s.fd ≡ fd
    → after (some s) (set_nonblocking fd flags)
      ≡ some (record s { nonblocking = if is_negative flags then s.nonblocking else true })
unfolding after set_nonblocking
after-set_nonblocking s fd (pos n) h = ground (arith, nonblocking_set n)
after-set_nonblocking s fd (negsuc n) h = refl

pub after-given_up :
    (s : Socket) (fd : ℕ) (calls : List Call)
    → s.fd ≡ fd
    → after none calls ≡ some s
    → after none (given_up fd calls).1 ≡ none
unfolding after
after-given_up s fd calls h e =
    after-append none calls (close fd ∷ []) ∙ ap (λ o. after o (close fd ∷ [])) e ∙ ground arith

pub after-more :
    (s : Socket) (calls more : List Call)
    → after none calls ≡ some s
    → after none (calls ++ more) ≡ after (some s) more
after-more s calls more e = after-append none calls more ∙ ap (λ o. after o more) e

-- What is asked of the outside for a connection: an address of the host, and that it lets connect.
abbrev pub is_reached : Option ℕ → Answers → Bool
is_reached none a = false
is_reached (some x) a = not (is_negative a.connect)

-- A call that fails leaves no socket. One that succeeds leaves the one that it returns.
abbrev pub Leaves : ℤ × List Call → Bool → (Socket → Type 0) → Type 0
Leaves (r, calls) fine P =
    ((r ≡ negsuc 0) × (after none calls ≡ none) × (fine ≡ false))
    ⊎ ((s : Socket) × (r ≡ pos s.fd) × (after none calls ≡ some s) × (fine ≡ true) × P s)

-- The socket is connected to the host, and is as it was but for that and for being non-blocking.
pub record IsConnected (o : Option ℕ) (a : Answers) (port : ℕ) (was s : Socket) : Type 0 where
  pub fd : s.fd ≡ was.fd
  pub datagrams : s.datagrams ≡ was.datagrams
  pub options : s.options ≡ was.options
  pub bound : s.bound ≡ was.bound
  pub peer : (x : ℕ) × (o ≡ some x) × (s.peer ≡ some (x, htons port))
  pub nonblocking : s.nonblocking ≡ (if is_negative a.flags then was.nonblocking else true)

connect_to-Leaves :
    (o : Option ℕ) (a : Answers) (port : ℕ) (calls : List Call) (s : Socket)
    → after none calls ≡ some s
    → Leaves (connect_to o a s.fd port calls) (is_reached o a) (IsConnected o a port s)
unfolding connect_to
connect_to-Leaves none a port calls s e = inl (refl, after-given_up s s.fd calls refl e, refl)
connect_to-Leaves (some x) a port calls s e = elim (Bool-cases (is_negative a.connect)) [
  | inl refused ↦
      rw refused
        (inl (refl, after-given_up joined s.fd _ refl (after-more s calls _ e ∙ tried), refl))
  | inr done ↦ rw done (
      inr (
        _,
        refl,
        after-more s calls _ e
            ∙ after-append (some s) (connect s.fd x (htons port) ∷ []) _
            ∙ ap (λ o. after o (set_nonblocking s.fd a.flags)) tried
            ∙ after-set_nonblocking joined s.fd a.flags refl,
        refl,
        record {
          fd = refl;
          datagrams = refl;
          options = refl;
          bound = refl;
          peer = (x, refl, refl);
          nonblocking = refl;
        },
      ))
]
  where
    joined : Socket
    joined = record s { peer = some (x, htons port) }

    tried : after (some s) (connect s.fd x (htons port) ∷ []) ≡ some joined
    tried = unfold after in ground arith

-- The socket before it is connected.
abbrev pub prepared : Bool → Bool → ℕ → ℕ → ℕ → Socket
prepared udp zc seg local_port fd = record (tuned_socket zc false udp seg fd) {
  bound = if local_port == 0 then none else some (0, htons local_port);
}

-- What has to succeed for a client's socket.
abbrev pub client_succeeds : ℤ → Answers → ℕ → Bool
client_succeeds r a local_port =
    not (is_negative r)
    && ((local_port == 0 || not (is_negative a.bind)) && is_reached (address a) a)

abbrev pub IsClientSocket : ℤ → Answers → ℕ → Bool → Bool → ℕ → ℕ → Socket → Type 0
IsClientSocket r a port udp zc seg local_port s =
    (fd : ℕ) × (r ≡ pos fd) × IsConnected (address a) a port (prepared udp zc seg local_port fd) s

pub opened-tuned :
    (fd : ℕ) (udp zc reuse : Bool) (seg : ℕ)
    → after none (opened udp fd ∷ tune_socket fd zc reuse udp seg)
      ≡ some (tuned_socket zc reuse udp seg fd)
unfolding after
opened-tuned fd udp zc reuse seg = after-tune_socket fd zc reuse udp seg

after-bind_local :
    (fd local_port : ℕ) (calls : List Call) (s : Socket)
    → s.fd ≡ fd
    → after none calls ≡ some s
    → after none (bind_local fd local_port calls)
      ≡ some (record s {
        bound = some (0, htons local_port);
        options = record s.options { reuse_address = some 1 };
      })
unfolding bind_local after
after-bind_local fd local_port calls s h e = after-more s calls _ e ∙ ground arith

pub Leaves-map :
    (r : ℤ × List Call) (fine : Bool) {P Q : Socket → Type 0}
    → ((s : Socket) → P s → Q s)
    → Leaves r fine P
    → Leaves r fine Q
Leaves-map r fine f (inl h) = inl h
Leaves-map r fine f (inr (s, e, a, y, p)) = inr (s, e, a, y, f s p)

-- `create_client_socket` fails exactly if the socket, the binding to a local port (where one is
-- asked for), the lookup of the host or the connection fails; then it returns -1 and leaves no
-- descriptor open. Else the one descriptor that it leaves open is the one that it returns: of the
-- kind asked for, with the options of `tuned`, bound to the local port (or unbound without one), connected to the port at the
-- address found for the host, and non-blocking where its flags could be read.
pub create_client_socket_outcome :
    (r : ℤ) (a : Answers) (port : ℕ) (udp zc : Bool) (seg local_port : ℕ)
    → Leaves
        (create_client_socket r a port udp zc seg local_port)
        (client_succeeds r a local_port)
        (IsClientSocket r a port udp zc seg local_port)
unfolding create_client_socket
create_client_socket_outcome (negsuc n) a port udp zc seg local_port =
    inl (refl, unfold after in refl, refl)
create_client_socket_outcome (pos fd) a port udp zc seg local_port =
    let made = opened-tuned fd udp zc false seg in
    elim (Bool-cases (local_port == 0)) [
      | inl free ↦ rw free (
          Leaves-map _ _ (λ s v. (fd, refl, v))
            (connect_to-Leaves (address a) a port _ (tuned_socket zc false udp seg fd) made))
      | inr asked ↦
          let bound =
            after-bind_local fd local_port _ (tuned_socket zc false udp seg fd) refl made in
          elim (Bool-cases (is_negative a.bind)) [
            | inl refused ↦ rw (asked, refused) (inl (refl, after-given_up _ fd _ refl bound, refl))
            | inr ok ↦
                rw (asked, ok)
                  (Leaves-map _ _ (λ s v. (fd, refl, v))
                    (connect_to-Leaves (address a) a port _ _ bound))
          ]
    ]
