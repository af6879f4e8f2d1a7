-- ===== src/Engine/Operations.antt =====
-- src/uring_engine.cpp: which operations are queued, for whom, and in which order.
use uring_perf.Base.{
  ℕ, ◌+◌, ◌≡◌, refl, ap, ◌∙◌, Bool, List, [], ◌∷◌, ◌++◌, map, if◌then◌else◌, arith, length,
  length-append, Bool-cases, inl, inr,
}
use uring_perf.Engine.State.{Engine, Sqe, Opcode, send_zc, send_zc_fixed, recv_multishot}
use uring_perf.Engine.Prep.{
  fill_sqe, recv_sqe, accept_sqe, multishot_sqe, prep_recv, prep_accept, prep_recv_multishot,
}

-- What an operation is for.
pub data Kind : Type 0 where
  sending receiving accepting : Kind

abbrev pub kind_of : Opcode → Kind
kind_of Opcode.send = sending
kind_of send_zc = sending
kind_of send_zc_fixed = sending
kind_of Opcode.recv = receiving
kind_of recv_multishot = receiving
kind_of Opcode.accept = accepting

-- The kind of an operation, its file and its context.
pub record Operation : Type 0 where
  pub kind : Kind
  pub file : ℕ
  pub context : ℕ

abbrev pub operation : Sqe → Operation
operation q = record { kind = kind_of q.opcode; file = q.fd; context = q.user_data }

-- What becomes of a queue when operations are to be queued from the g-th call on: those that find a
-- slot come to its front.
abbrev pub with_slot : (ℕ → Bool) → ℕ → List Operation → List Operation → List Operation
with_slot slots g [] queued = queued
with_slot slots g (op ∷ ops) queued =
    with_slot slots (g + 1) ops (if slots g then op ∷ queued else queued)

-- An engine that has tried to queue operations in order.
pub record Queues (e : Engine) (ops : List Operation) (e' : Engine) : Type 0 where
  pub lib : e'.lib ≡ e.lib
  pub gets : e'.gets ≡ e.gets + length ops
  pub queued : map operation e'.sqes ≡ with_slot e.lib.slots e.gets ops (map operation e.sqes)

pub Queues-same :
    (e m e' : Engine) (ops : List Operation)
    → m.lib ≡ e.lib
    → m.gets ≡ e.gets
    → m.sqes ≡ e.sqes
    → Queues m ops e'
    → Queues e ops e'
Queues-same e m e' ops l g s v = record {
  lib = v.lib ∙ l;
  gets = v.gets ∙ ap (λ k. k + length ops) g;
  queued =
      v.queued
      ∙ ap (λ x. with_slot x.slots m.gets ops (map operation m.sqes)) l
      ∙ ap (λ k. with_slot e.lib.slots k ops (map operation m.sqes)) g
      ∙ ap (λ q. with_slot e.lib.slots e.gets ops (map operation q)) s;
}

pub Queues-nil :
    (e e' : Engine) → e'.lib ≡ e.lib → e'.gets ≡ e.gets → e'.sqes ≡ e.sqes → Queues e [] e'
Queues-nil e e' l g s = record { lib = l; gets = omega (arith, g); queued = ap (map operation) s }

with_slot-append :
    (slots : ℕ → Bool) (g : ℕ) (xs ys queued : List Operation)
    → with_slot slots (g + length xs) ys (with_slot slots g xs queued)
      ≡ with_slot slots g (xs ++ ys) queued
with_slot-append slots g [] ys queued = ap (λ k. with_slot slots k ys queued) (omega arith)
with_slot-append slots g (x ∷ xs) ys queued =
    let now = if slots g then x ∷ queued else queued in
    ap (λ k. with_slot slots k ys (with_slot slots (g + 1) xs now)) (omega arith)
    ∙ with_slot-append slots (g + 1) xs ys now

pub Queues-append :
    (e m e' : Engine) (xs ys : List Operation)
    → Queues e xs m
    → Queues m ys e'
    → Queues e (xs ++ ys) e'
Queues-append e m e' xs ys v w = record {
  lib = w.lib ∙ v.lib;
  gets = omega (arith, w.gets, v.gets, length-append xs ys);
  queued =
      w.queued
      ∙ ap (λ x. with_slot x.slots m.gets ys (map operation m.sqes)) v.lib
      ∙ ap (λ k. with_slot e.lib.slots k ys (map operation m.sqes)) v.gets
      ∙ ap (with_slot e.lib.slots (e.gets + length xs) ys) v.queued
      ∙ with_slot-append e.lib.slots e.gets xs ys (map operation e.sqes);
}

pub fill_sqe-Queues : (e : Engine) (sqe : Sqe) → Queues e (operation sqe ∷ []) (fill_sqe e sqe).1
unfolding fill_sqe
fill_sqe-Queues e sqe = elim (Bool-cases (e.lib.slots e.gets)) [
  | inl free ↦ rw (free, fill_sqe) (record { lib = refl; gets = refl; queued = rw free refl })
  | inr full ↦ rw (full, fill_sqe) (record { lib = refl; gets = refl; queued = rw full refl })
]

pub prep_recv-Queues :
    (e : Engine) (fd buf len idx p : ℕ) (fixed : Bool)
    → Queues e
        (record { kind = receiving; file = fd; context = p } ∷ [])
        (prep_recv e fd buf len idx p fixed).1
unfolding prep_recv recv_sqe
prep_recv-Queues e fd buf len idx p fixed = fill_sqe-Queues e (recv_sqe e fd buf len idx p fixed)

pub prep_accept-Queues :
    (e : Engine) (fd p : ℕ)
    → Queues e (record { kind = accepting; file = fd; context = p } ∷ []) (prep_accept e fd p).1
unfolding prep_accept accept_sqe
prep_accept-Queues e fd p = fill_sqe-Queues e (accept_sqe fd p)

pub prep_recv_multishot-Queues :
    (e : Engine) (fd p : ℕ) (fixed : Bool)
    → Queues e
        (record { kind = receiving; file = fd; context = p } ∷ [])
        (prep_recv_multishot e fd p fixed).1
unfolding prep_recv_multishot multishot_sqe
prep_recv_multishot-Queues e fd p fixed = fill_sqe-Queues e (multishot_sqe e fd p fixed)
