-- ===== src/Worker/Server/Safety/Descriptors.antt =====
-- src/worker.cpp: the descriptors of the connections of `run_server` with multishot receives.
use uring_perf.Base.{
  ℕ, ◌+◌, ◌≡◌, refl, sym, ap, subst, ◌∙◌, Bool, true, false, not, List, [], ◌∷◌, none, some, ◌==◌,
  if◌then◌else◌, inl, inr, arith, Bool-cases, ◌&&◌, ℤ, pos, negsuc, is_positive, is_negative,
  is_errno, to_unsigned, has_flag,
}
use uring_perf.Base.Errno
use uring_perf.Config.Settings.{is_udp}
use uring_perf.Net.Handshake.{Handshake, HandshakeResult, learnt, failed, waiting}
use uring_perf.Worker.Cqe.{cqe_f_more, cqe_f_buffer}
use uring_perf.Worker.Contexts.{find}
use uring_perf.Worker.Server.{
  ClientSession, Server, Event, Served, served, faults, hangs, lookup, erase, drop_session,
  store_session, open_session,
}
use uring_perf.Worker.Server.Handlers.{
  greet, rearm_accept, admit, on_accept, take_data, rearm_multishot, note_error, hang_up,
  on_terminated, on_multishot, dispatch, serve,
}
use uring_perf.Worker.Server.Loop.{accept_context}
use uring_perf.Worker.Server.Multishot.{
  Frame, conn_context, IsKept, IsSessionOf, awaited-IsSessionOf,
}
use uring_perf.Worker.Server.Ending.{head-erased, erase-later}
use uring_perf.Worker.Server.Flight.{count, frame, IsMultishot}
use uring_perf.Worker.Server.Receiving.{pick-then, pick-else, take_data-Has, take_data-IsMultishot}
use uring_perf.Worker.Server.Joining.{IsForward, IsTaken, store_session-new}
use uring_perf.Worker.Server.Safety.{IsPosted, seen, serve-found, serve-nothing, posted_cases}

-- How many sessions have the descriptor fd.
abbrev pub keys : ℕ → List (ℕ × ClientSession) → ℕ
keys fd [] = 0
keys fd ((k, x) ∷ rest) = (if fd == k then 1 else 0) + keys fd rest

-- How often fd was closed or is open.
abbrev pub held : ℕ → Server → ℕ
held fd s = count fd s.closed + keys fd s.sessions

abbrev brings : ℕ → ℤ → ℕ
brings fd (pos k) = if fd == k then 1 else 0
brings fd (negsuc e) = 0

-- Whether a completion brings a connection with descriptor fd, where a is the context for accepting.
abbrev pub taken : ℕ → ℕ → Event → ℕ
taken a fd ev =
    if not (ev.cqe.user_data == 0) && ev.cqe.user_data == a then brings fd ev.cqe.res else 0

-- A step that leaves what is fixed as it is, and takes n fd descriptors fd.
abbrev pub Keeps : (ℕ → ℕ) → Server → Server → Type 0
Keeps n s t =
    ((t.config ≡ s.config) × (t.accept_ctx ≡ s.accept_ctx) × (t.listen_fd ≡ s.listen_fd))
    × ((fd : ℕ) → held fd t ≡ held fd s + n fd)

abbrev nothing : ℕ → ℕ
nothing fd = 0

pub Keeps-trans :
    (m n : ℕ → ℕ) (s t u : Server) → Keeps m s t → Keeps n t u → Keeps (λ fd. m fd + n fd) s u
Keeps-trans m n s t u ((a, b, c), h) ((d, e, f), g) =
    ((d ∙ a, e ∙ b, f ∙ c), λ fd. omega (arith, h fd, g fd))

pub Keeps-map : (m n : ℕ → ℕ) (s t : Server) → ((fd : ℕ) → m fd ≡ n fd) → Keeps m s t → Keeps n s t
Keeps-map m n s t e (same, h) = (same, λ fd. omega (arith, e fd, h fd))

if-Keeps :
    (b : Bool) (n : ℕ → ℕ) (s t u : Server)
    → Keeps n s t
    → Keeps n s u
    → Keeps n s (if b then t else u)
if-Keeps true n s t u h k = h
if-Keeps false n s t u h k = k

keys-erase :
    (f : Frame) (fd : ℕ) (x : ClientSession) (l : List (ℕ × ClientSession))
    → IsKept f l
    → lookup fd l ≡ some x
    → (w : ℕ) → keys w (erase fd l) + (if w == fd then 1 else 0) ≡ keys w l
keys-erase f fd x [] k found w = unfold lookup in cc
keys-erase f fd x ((j, y) ∷ rest) ((p, own, pool, alive, below, other, fresh, apart), k) found w =
    elim (Bool-cases (j == fd)) [
      | inl same ↦
          let at : j ≡ fd = ground arith in
          let (gone, here) = head-erased fd j y rest at fresh in rw gone (grind (arith, at))
      | inr differs ↦
          let (stays, later) = erase-later j fd y rest differs in
          rw stays (omega (arith, keys-erase f fd x rest k (sym later ∙ found) w))
    ]

take_data-Keeps : (s : Server) (ev : Event) → Keeps nothing s (take_data s ev)
unfolding take_data
take_data-Keeps s ev =
    if-Keeps (is_positive ev.cqe.res && has_flag ev.cqe.flags cqe_f_buffer) nothing s _ s
      ((refl, refl, refl), λ fd. omega arith) ((refl, refl, refl), λ fd. omega arith)

hang_up-Keeps :
    (s : Server) (u fd : ℕ) (x : ClientSession)
    → IsKept (frame s) s.sessions
    → IsSessionOf (frame s) u fd x s.sessions
    → Keeps nothing s (hang_up fd s)
unfolding hang_up drop_session
hang_up-Keeps s u fd x kept (own, pool, alive, below, other, found) =
    rw (found, hang_up)
      ((refl, refl, refl), λ w. omega (arith, keys-erase (frame s) fd x s.sessions kept found w))

on_terminated-Keeps :
    (finals : List ℕ) (s : Server) (u fd : ℕ) (x : ClientSession) (ev : Event)
    → IsSessionOf (frame s) u fd x s.sessions
    → IsMultishot finals s
    → Keeps nothing s (on_terminated s u (conn_context s.thread_id fd) ev)
unfolding on_terminated note_error rearm_multishot
on_terminated-Keeps finals s u fd x ev session v =
    if-Keeps (is_errno ev.cqe.res Errno.enobufs) nothing s _ _
      ((refl, refl, refl), λ w. omega arith)
      (pick-else (Keeps nothing s) (is_udp s.config.protocol) _ _ v.tcp
        (hang_up-Keeps (note_error s ev) u fd x v.kept session))

on_multishot-Keeps :
    (finals : List ℕ) (s : Server) (fd : ℕ) (x : ClientSession) (ev : Event)
    → IsSessionOf (frame s) ev.cqe.user_data fd x s.sessions
    → IsMultishot finals s
    → Keeps nothing s (on_multishot s ev.cqe.user_data (conn_context s.thread_id fd) ev)
unfolding on_multishot
on_multishot-Keeps finals s fd x ev session v =
    let (same, has) = take_data-Has ev.cqe.user_data fd x s ev session in
    let t = take_data s ev in
    let over = on_terminated t ev.cqe.user_data (conn_context t.thread_id fd) ev in
    if-Keeps (has_flag ev.cqe.flags cqe_f_more) nothing s t _ (take_data-Keeps s ev) (
      subst (λ i. Keeps nothing s (on_terminated t ev.cqe.user_data (conn_context i fd) ev)) same
        (Keeps-map (λ w. 0 + 0) nothing s over (λ w. omega arith)
          (Keeps-trans nothing nothing s t over (take_data-Keeps s ev) (
            on_terminated-Keeps finals t ev.cqe.user_data fd x ev has
              (take_data-IsMultishot finals s ev v)))))

admit-Keeps :
    (alloc : ℕ → ℕ) (finals : List ℕ) (fd now : ℕ) (h : Handshake) (s : Server)
    → h.reverse ≡ false
    → lookup fd s.sessions ≡ none
    → IsMultishot finals s
    → Keeps (λ w. if w == fd then 1 else 0) s (admit alloc fd now h s)
unfolding admit open_session
admit-Keeps alloc finals fd now h s forward fresh v =
    pick-else (λ (r : ClientSession × Server). Keeps one s (store_session fd r.0 r.1)) h.reverse _ _
      forward
      (pick-then (λ (r : ClientSession × Server). Keeps one s (store_session fd r.0 r.1))
        s.use_multishot _ _ v.multishot
        (subst (Keeps one s) (sym (store_session-new fd _ _ fresh))
          ((refl, refl, refl), λ w. omega arith)))
  where
    one : ℕ → ℕ
    one w = if w == fd then 1 else 0

-- What is kept where a step comes to a state.
abbrev pub KeepsOn : (ℕ → ℕ) → Server → Served → Type 0
KeepsOn n s (served t) = Keeps n s t
KeepsOn n s faults = Unit
KeepsOn n s hangs = Unit

on_accept-Keeps :
    (alloc : ℕ → ℕ) (finals : List ℕ) (s : Server) (ev : Event) (res : ℤ)
    → ev.cqe.res ≡ res
    → IsTaken s ev res
    → IsMultishot finals s
    → KeepsOn (λ fd. brings fd res) s (on_accept alloc s ev)
unfolding on_accept rearm_accept
on_accept-Keeps alloc finals s ev (negsuc n) e taken_it v =
    pick-then (KeepsOn nothing s) (is_negative ev.cqe.res) _ _ (ap is_negative e)
      ((refl, refl, refl), λ w. omega arith)
on_accept-Keeps alloc finals s ev (pos fd) e (fresh, forward) v =
    pick-else (KeepsOn one s) (is_negative ev.cqe.res) _ _ (ap is_negative e) (
      subst (λ x. KeepsOn one s (after x (greet s ev))) (sym (ap to_unsigned e))
        (greeted (greet s ev) forward))
  where
    one : ℕ → ℕ
    one w = if w == fd then 1 else 0

    after : ℕ → HandshakeResult → Served
    after x (learnt h) = served (rearm_accept (admit alloc x ev.now h s))
    after x failed = served (rearm_accept (record s { closed = x ∷ s.closed }))
    after x waiting = hangs

    greeted : (r : HandshakeResult) → IsForward r → KeepsOn one s (after fd r)
    greeted (learnt h) f = admit-Keeps alloc finals fd ev.now h s f fresh v
    greeted failed f = ((refl, refl, refl), λ w. omega arith)
    greeted waiting f = tt

seen-Keeps : (n : ℕ → ℕ) (s : Server) (o : Served) → KeepsOn n s o → KeepsOn n s (seen o)
unfolding seen
seen-Keeps n s (served t) h = h
seen-Keeps n s faults h = h
seen-Keeps n s hangs h = h

pub KeepsOn-map :
    (m n : ℕ → ℕ) (s : Server) (o : Served)
    → ((fd : ℕ) → m fd ≡ n fd)
    → KeepsOn m s o
    → KeepsOn n s o
KeepsOn-map m n s (served t) e h = Keeps-map m n s t e h
KeepsOn-map m n s faults e h = tt
KeepsOn-map m n s hangs e h = tt

-- A completion that may be posted brings its descriptor to those held, and loses none.
pub serve-Keeps :
    (alloc : ℕ → ℕ) (finals : List ℕ) (s : Server) (ev : Event)
    → IsMultishot finals s
    → IsPosted finals s ev
    → KeepsOn (λ fd. taken s.accept_ctx fd ev) s (serve alloc s ev)
unfolding dispatch
serve-Keeps alloc finals s ev v posted = elim (posted_cases finals s ev v posted) [
  | inl zero_data ↦
      subst (KeepsOn (λ fd. taken s.accept_ctx fd ev) s) (sym (serve-nothing alloc s ev zero_data))
        (seen-Keeps _ s (served s) ((refl, refl, refl), λ fd. rw zero_data (omega arith)))
  | inr (inl (other, own, new)) ↦
      subst (KeepsOn (λ fd. taken s.accept_ctx fd ev) s)
        (sym (
          serve-found alloc s ev (accept_context s.listen_fd) other
            (ap (λ i. find i s.ctxs.alive) own ∙ v.listening)))
        (KeepsOn-map (λ fd. brings fd ev.cqe.res) _ s _ (λ fd. ground (arith, other, own))
          (seen-Keeps _ s _ (on_accept-Keeps alloc finals s ev ev.cqe.res refl new v)))
  | inr (inr (other, apart, waits)) ↦
      let (fd, x, (own, pool, alive, below, far, found)) =
        awaited-IsSessionOf (frame s) ev.cqe.user_data s.sessions v.kept waits in
      let after = on_multishot s ev.cqe.user_data (conn_context s.thread_id fd) ev in
      subst (KeepsOn (λ fd. taken s.accept_ctx fd ev) s)
        (sym (serve-found alloc s ev (conn_context s.thread_id fd) other alive))
        (seen-Keeps _ s _ (
          pick-then (Keeps (λ fd. taken s.accept_ctx fd ev) s) s.use_multishot after _ v.multishot (
            Keeps-map nothing (λ fd. taken s.accept_ctx fd ev) s after
              (λ fd. ground (arith, other, apart))
              (on_multishot-Keeps finals s fd x ev (own, pool, alive, below, far, found) v))))
]
