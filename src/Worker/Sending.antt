-- ===== src/Worker/Sending.antt =====
-- src/worker.cpp: the choice between a zero-copy and a standard send of a context's buffer, which
-- `run_client` and `run_server` make wherever they send, and the entry that it queues.
use uring_perf.Base.{
  ℕ, ◌+◌, ◌≡◌, refl, ap, subst, sym, [], ◌∙◌, Bool, true, false, ◌&&◌, ◌∷◌, ◌⊎◌, inl, inr,
  if◌then◌else◌, arith, Bool-cases,
}
use uring_perf.Engine.State.{Engine, IoContext, Sqe}
use uring_perf.Engine.Operations.{Kind, sending, kind_of, operation, Queues, fill_sqe-Queues}
use uring_perf.Engine.Prep.{prep_send_standard, prep_send_zc, fill_sqe, send_sqe, send_zc_sqe}
use uring_perf.Engine.Slots.{
  Prep, send_standard, send_zc, asked, perform, sqe_for, perform-fill_sqe, sqe_for-asked,
  sqe_for-memory, sqe_for-fixed_file,
}

-- What the prep function returns is not looked at.
unfoldable pub send_buffer : Bool → Engine → ℕ → IoContext → Bool → Engine
send_buffer zero_copy e p ctx use_fixed_file =
    if zero_copy
    then (prep_send_zc e ctx.fd ctx.buf_ptr ctx.length ctx.buf_idx p ctx use_fixed_file).1
    else (prep_send_standard e ctx.fd ctx.buf_ptr ctx.length p ctx use_fixed_file).1

-- The call of a prep function that this is.
abbrev request : Bool → ℕ → IoContext → Bool → Prep
request true p ctx fixed = send_zc ctx.fd ctx.buf_ptr ctx.length ctx.buf_idx p ctx fixed
request false p ctx fixed = send_standard ctx.fd ctx.buf_ptr ctx.length p ctx fixed

-- The entry that it queues.
unfoldable pub entry : Bool → Engine → ℕ → IoContext → Bool → Sqe
entry zero_copy e p ctx fixed = sqe_for e (request zero_copy p ctx fixed)

pub send_buffer-fill_sqe :
    (z : Bool) (e : Engine) (p : ℕ) (ctx : IoContext) (fixed : Bool)
    → send_buffer z e p ctx fixed ≡ (fill_sqe e (entry z e p ctx fixed)).1
unfolding send_buffer entry perform
send_buffer-fill_sqe true e p ctx fixed =
    ap (λ r. r.1) (perform-fill_sqe e (request true p ctx fixed))
send_buffer-fill_sqe false e p ctx fixed =
    ap (λ r. r.1) (perform-fill_sqe e (request false p ctx fixed))

-- The entry is for the context, its file and its buffer.
pub record IsFor (p : ℕ) (ctx : IoContext) (fixed : Bool) (sqe : Sqe) : Type 0 where
  pub user_data : sqe.user_data ≡ p
  pub addr : sqe.addr ≡ ctx.buf_ptr
  pub len : sqe.len ≡ ctx.length
  pub fd : sqe.fd ≡ ctx.fd
  pub fixed_file : sqe.fixed_file ≡ fixed

pub entry-IsFor :
    (z : Bool) (e : Engine) (p : ℕ) (ctx : IoContext) (fixed : Bool)
    → e.zc_supported ≡ true
    → IsFor p ctx (fixed && e.files_registered) (entry z e p ctx fixed)
unfolding entry
entry-IsFor true e p ctx fixed h = ground (
  arith,
  sqe_for-asked e (request true p ctx fixed),
  sqe_for-memory e (request true p ctx fixed),
  sqe_for-fixed_file e (request true p ctx fixed) h,
)
entry-IsFor false e p ctx fixed h = ground (
  arith,
  sqe_for-asked e (request false p ctx fixed),
  sqe_for-memory e (request false p ctx fixed),
  sqe_for-fixed_file e (request false p ctx fixed) h,
)

-- A send takes an entry and queues it, or finds none.
pub send_buffer_cases :
    (z : Bool) (e : Engine) (p : ℕ) (ctx : IoContext) (fixed : Bool)
    → (send_buffer z e p ctx fixed ≡ record e { gets = e.gets + 1 })
      ⊎ (send_buffer z e p ctx fixed
          ≡ record e { gets = e.gets + 1; sqes = entry z e p ctx fixed ∷ e.sqes })
unfolding fill_sqe
send_buffer_cases z e p ctx fixed = elim (Bool-cases (e.lib.slots e.gets)) [
  | inl free ↦ inr (send_buffer-fill_sqe z e p ctx fixed ∙ rw (free, fill_sqe) refl)
  | inr full ↦ inl (send_buffer-fill_sqe z e p ctx fixed ∙ rw (full, fill_sqe) refl)
]

kind_of-entry :
    (z : Bool) (e : Engine) (p : ℕ) (ctx : IoContext) (fixed : Bool)
    → kind_of (entry z e p ctx fixed).opcode ≡ sending
unfolding entry sqe_for send_sqe send_zc_sqe
kind_of-entry true e p ctx fixed = ground arith
kind_of-entry false e p ctx fixed = refl

operation_eq :
    (k : Kind) (fd p : ℕ) (q : Sqe)
    → kind_of q.opcode ≡ k
    → q.fd ≡ fd
    → q.user_data ≡ p
    → operation q ≡ record { kind = k; file = fd; context = p }
operation_eq k fd p q a b c = cc

operation-entry :
    (z : Bool) (e : Engine) (p : ℕ) (ctx : IoContext) (fixed : Bool)
    → operation (entry z e p ctx fixed) ≡ record { kind = sending; file = ctx.fd; context = p }
unfolding entry
operation-entry z e p ctx fixed =
    let (u, f) = sqe_for-asked e (request z p ctx fixed) in
    operation_eq sending ctx.fd p (entry z e p ctx fixed) (kind_of-entry z e p ctx fixed)
      (f ∙ asked_file z) (u ∙ asked_context z)
  where
    asked_file : (b : Bool) → (asked (request b p ctx fixed)).1 ≡ ctx.fd
    asked_file true = refl
    asked_file false = refl

    asked_context : (b : Bool) → (asked (request b p ctx fixed)).0 ≡ p
    asked_context true = refl
    asked_context false = refl

-- A send is queued where there is a slot.
pub send_buffer-Queues :
    (z : Bool) (e : Engine) (p : ℕ) (ctx : IoContext) (fixed : Bool)
    → Queues e
        (record { kind = sending; file = ctx.fd; context = p } ∷ [])
        (send_buffer z e p ctx fixed)
send_buffer-Queues z e p ctx fixed =
    subst (λ op. Queues e (op ∷ []) (send_buffer z e p ctx fixed)) (operation-entry z e p ctx fixed)
      (subst (Queues e (operation (entry z e p ctx fixed) ∷ []))
        (sym (send_buffer-fill_sqe z e p ctx fixed)) (fill_sqe-Queues e (entry z e p ctx fixed)))
