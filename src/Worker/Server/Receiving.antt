-- ===== src/Worker/Server/Receiving.antt =====
-- src/worker.cpp: the multishot receives of `run_server`, and how they end.
use uring_perf.Base.{
  ℕ, ◌+◌, ◌*◌, ◌≡◌, refl, subst, Bool, true, false, ◌&&◌, List, ◌∷◌, Option, none, some,
  if◌then◌else◌, is_positive, is_errno, has_flag,
}
use uring_perf.Base.Errno
use uring_perf.Config.Settings.{is_udp}
use uring_perf.Engine.State.{Engine, BufRing}
use uring_perf.Engine.BufRing.{return_recv_buffer}
use uring_perf.Worker.Cqe.{cqe_f_more, cqe_f_buffer}
use uring_perf.Worker.Server.{ClientSession, Server, Event}
use uring_perf.Worker.Server.Handlers.{take_data, note_error, hang_up, on_terminated, on_multishot}
use uring_perf.Worker.Server.Multishot.{conn_context, IsSessionOf}
use uring_perf.Worker.Server.Flight.{
  frame, IsMultishot, with-IsMultishot, rearm_multishot-IsMultishot, drop_session-IsMultishot,
}

return_recv_buffer-sqes : (e : Engine) (b : ℕ) → (return_recv_buffer e b).sqes ≡ e.sqes
unfolding return_recv_buffer
return_recv_buffer-sqes e b = by_ring e.recv_buf_ring
  where
    by_ring :
        (o : Option BufRing)
        → (elim o as (λ x. Engine) [
          | none ↦ e
          | some r ↦ record e {
            recv_buf_ring = some (record {
              adds =
                  record {
                    addr = e.recv_buf_mem + b * e.recv_buf_size;
                    len = e.recv_buf_size;
                    bid = b;
                    mask = e.lib.buf_ring_mask e.recv_buf_count;
                    buf_offset = 0;
                  }
                  ∷ r.adds;
              published = r.published + 1;
            });
          }
        ]).sqes
          ≡ e.sqes
    by_ring none = refl
    by_ring (some r) = refl

if-IsMultishot :
    (b : Bool) (finals : List ℕ) (s t : Server)
    → IsMultishot finals s
    → IsMultishot finals t
    → IsMultishot finals (if b then s else t)
if-IsMultishot true finals s t v w = v
if-IsMultishot false finals s t v w = w

pub pick-then {ℓ κ} :
    {A : Type ℓ} (P : A → Type κ) (b : Bool) (x y : A) → b ≡ true → P x → P (if b then x else y)
pick-then P true x y e h = h
pick-then P false x y e h = absurd (clash e)
  where
    clash : false ≡ true → ⊥
    clash q = cc

pub pick-else {ℓ κ} :
    {A : Type ℓ} (P : A → Type κ) (b : Bool) (x y : A) → b ≡ false → P y → P (if b then x else y)
pick-else P true x y e h = absurd (clash e)
  where
    clash : true ≡ false → ⊥
    clash q = cc
pick-else P false x y e h = h

pub take_data-IsMultishot :
    (finals : List ℕ) (s : Server) (ev : Event)
    → IsMultishot finals s
    → IsMultishot finals (take_data s ev)
unfolding take_data
take_data-IsMultishot finals s ev v =
    if-IsMultishot (is_positive ev.cqe.res && has_flag ev.cqe.flags cqe_f_buffer) finals _ s
      (with-IsMultishot finals s _ (return_recv_buffer s.engine _) s.closed
        (return_recv_buffer-sqes s.engine _) v)
      v

hang_up-IsMultishot :
    (finals : List ℕ) (s : Server) (u fd : ℕ) (x : ClientSession)
    → IsSessionOf (frame s) u fd x s.sessions
    → IsMultishot finals s
    → IsMultishot (u ∷ finals) (hang_up fd s)
unfolding hang_up
hang_up-IsMultishot finals s u fd x (own, pool, alive, below, other, found) v =
    rw (found, hang_up)
      (drop_session-IsMultishot finals (record s { closed = fd ∷ s.closed }) u fd x
        (own, pool, alive, below, other, found)
        (with-IsMultishot finals s s.stats s.engine (fd ∷ s.closed) refl v))

on_terminated-IsMultishot :
    (finals : List ℕ) (s : Server) (u fd : ℕ) (x : ClientSession) (ev : Event)
    → IsSessionOf (frame s) u fd x s.sessions
    → IsMultishot finals s
    → IsMultishot (u ∷ finals) (on_terminated s u (conn_context s.thread_id fd) ev)
unfolding on_terminated note_error
on_terminated-IsMultishot finals s u fd x ev (own, pool, alive, below, other, found) v =
    if-IsMultishot (is_errno ev.cqe.res Errno.enobufs) (u ∷ finals) _ _
      (rearm_multishot-IsMultishot finals s u (conn_context s.thread_id fd) below v)
      (pick-else (IsMultishot (u ∷ finals)) (is_udp s.config.protocol) _ _ v.tcp (
        hang_up-IsMultishot finals _ u fd x (own, pool, alive, below, other, found)
          (with-IsMultishot finals s _ s.engine s.closed refl v)))

-- The last completions so far, behind a completion.
abbrev pub finals_after : List ℕ → Event → List ℕ
finals_after finals ev =
    if has_flag ev.cqe.flags cqe_f_more then finals else ev.cqe.user_data ∷ finals

-- A state in which the session of u is there, with what a completion needs to know of it.
abbrev pub Has : ℕ → ℕ → ℕ → ClientSession → Server → Type 0
Has thread_id u fd x s = (s.thread_id ≡ thread_id) × IsSessionOf (frame s) u fd x s.sessions

if-Has :
    (b : Bool) (thread_id u fd : ℕ) (x : ClientSession) (s t : Server)
    → Has thread_id u fd x s
    → Has thread_id u fd x t
    → Has thread_id u fd x (if b then s else t)
if-Has true thread_id u fd x s t h k = h
if-Has false thread_id u fd x s t h k = k

pub take_data-Has :
    (u fd : ℕ) (x : ClientSession) (s : Server) (ev : Event)
    → IsSessionOf (frame s) u fd x s.sessions
    → Has s.thread_id u fd x (take_data s ev)
unfolding take_data
take_data-Has u fd x s ev h =
    if-Has (is_positive ev.cqe.res && has_flag ev.cqe.flags cqe_f_buffer) s.thread_id u fd x _ s
      (refl, h) (refl, h)

if-more :
    (b : Bool) (u : ℕ) (finals : List ℕ) (s t : Server)
    → IsMultishot finals s
    → IsMultishot (u ∷ finals) t
    → IsMultishot (if b then finals else u ∷ finals) (if b then s else t)
if-more true u finals s t v w = v
if-more false u finals s t v w = w

pub on_multishot-IsMultishot :
    (finals : List ℕ) (s : Server) (fd : ℕ) (x : ClientSession) (ev : Event)
    → IsSessionOf (frame s) ev.cqe.user_data fd x s.sessions
    → IsMultishot finals s
    → IsMultishot
        (finals_after finals ev)
        (on_multishot s ev.cqe.user_data (conn_context s.thread_id fd) ev)
unfolding on_multishot
on_multishot-IsMultishot finals s fd x ev h v =
    let (same, has) = take_data-Has ev.cqe.user_data fd x s ev h in
    let w = take_data-IsMultishot finals s ev v in
    if-more (has_flag ev.cqe.flags cqe_f_more) ev.cqe.user_data finals (take_data s ev) _ w (
      subst
        (λ i.
          IsMultishot (ev.cqe.user_data ∷ finals)
            (on_terminated (take_data s ev) ev.cqe.user_data (conn_context i fd) ev))
        same (on_terminated-IsMultishot finals (take_data s ev) ev.cqe.user_data fd x ev has w))
