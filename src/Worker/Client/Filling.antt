-- ===== src/Worker/Client/Filling.antt =====
-- src/worker.cpp: what `run_client` has queued when it comes to its loop.
use uring_perf.Base.{
  ℕ, zero, suc, ◌+◌, ◌≡◌, refl, sym, subst, ◌∙◌, Bool, true, false, List, [], ◌∷◌, ◌++◌, map, some,
  if◌then◌else◌, arith, ℤ, append_assoc, append-nil, Option-cases, inl, inr,
}
use uring_perf.Config.Settings.{Config}
use uring_perf.Engine.State.{Engine, IoContext}
use uring_perf.Engine.Setup.{register_files, register_buffers}
use uring_perf.Engine.Operations.{sending, Operation, Queues, Queues-nil, Queues-append}
use uring_perf.Worker.Contexts.{find, make, addresses}
use uring_perf.Worker.Sending.{send_buffer-Queues}
use uring_perf.Worker.Client.{Client, make_pool, resend, send_pool, register_pool, register_socket}

-- The sends for some contexts on a file.
abbrev pub sends_for : ℕ → List ℕ → List Operation
sends_for fd ps = map (λ p. record { kind = sending; file = fd; context = p }) ps

pub send_pool-Queues :
    (fd : ℕ) (ps : List ℕ) (c : Client) {c' : Client}
    → ((p : ℕ) (ctx : IoContext) → find p c.ctxs.alive ≡ some ctx → ctx.fd ≡ fd)
    → send_pool ps c ≡ some c'
    → Queues c.engine (sends_for fd ps) c'.engine
unfolding send_pool resend
send_pool-Queues fd [] c {c'} on h =
    let e : c ≡ c' = cc in
    subst (λ x. Queues c.engine [] x.engine) e (Queues-nil c.engine c.engine refl refl refl)
send_pool-Queues fd (p ∷ ps) c {c'} on h = elim (Option-cases (find p c.ctxs.alive)) [
  | inl e ↦ ground arith
  | inr (ctx, e) ↦
      let next = resend c p ctx in
      Queues-append c.engine next.engine c'.engine (sends_for fd (p ∷ [])) (sends_for fd ps)
        (subst
          (λ k. Queues c.engine (record { kind = sending; file = k; context = p } ∷ []) next.engine)
          (on p ctx e) (send_buffer-Queues c.config.zero_copy c.engine p ctx c.use_fixed_file))
        (send_pool-Queues fd ps next {c' = c'} on (rw (e, send_pool) at h))
]

pub make_pool-context_pool :
    (alloc : ℕ → ℕ) (fd n i : ℕ) (c : Client)
    → (make_pool alloc fd n i c).context_pool ≡ c.context_pool ++ addresses c.ctxs.next n
unfolding make_pool make
make_pool-context_pool alloc fd zero i c = sym (append-nil c.context_pool)
make_pool-context_pool alloc fd (suc n) i c =
    make_pool-context_pool alloc fd n (i + 1) _
    ∙ append_assoc c.context_pool (c.ctxs.next ∷ []) (addresses (c.ctxs.next + 1) n)

-- A registration queues nothing.
abbrev pub SameQueue : Engine → Engine → Type 0
SameQueue e e' = (e'.lib ≡ e.lib) × (e'.gets ≡ e.gets) × (e'.sqes ≡ e.sqes)

register_buffers-SameQueue :
    (e : Engine) (bs : List ℕ) (size : ℕ) (ret : ℤ) → SameQueue e (register_buffers e bs size ret).1
unfolding register_buffers
register_buffers-SameQueue e [] size ret = (refl, refl, refl)
register_buffers-SameQueue e (b ∷ bs) size ret = ground arith

if-SameQueue :
    (b : Bool) (e u v : Engine) → SameQueue e u → SameQueue e v → SameQueue e (if b then u else v)
if-SameQueue true e u v h k = h
if-SameQueue false e u v h k = k

pub register_pool-SameQueue :
    (c : Client) (ret : ℤ) → SameQueue c.engine (register_pool c ret).engine
unfolding register_pool
register_pool-SameQueue c ret =
    if-SameQueue c.config.fixed_buffers c.engine _ c.engine
      (register_buffers-SameQueue c.engine c.buffer_pool c.config.buf_size ret) (refl, refl, refl)

pub register_socket-SameQueue :
    (cfg : Config) (e : Engine) (fd : ℕ) (ret : ℤ) → SameQueue e (register_socket cfg e fd ret).1
unfolding register_socket register_files
register_socket-SameQueue cfg e fd ret = ground arith
