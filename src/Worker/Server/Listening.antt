-- ===== src/Worker/Server/Listening.antt =====
-- src/worker.cpp: the context for accepting of `run_server`, which belongs to no session.
use uring_perf.Base.{
  ℕ, zero, suc, ◌+◌, ◌<◌, ◌≡◌, refl, subst, ◌∙◌, Bool, true, false, List, [], ◌∷◌, ◌++◌, some, ◌==◌,
  if◌then◌else◌, inl, inr, arith, Bool-cases, Option-cases, All, append_assoc,
}
use uring_perf.Engine.State.{IoContext, CtxType}
use uring_perf.Net.Handshake.{Handshake}
use uring_perf.Worker.Contexts.{Contexts, find, make, remove, remove_all, find-remove}
use uring_perf.Worker.Server.{
  ClientSession, Server, lookup, erase, owned, drop_session, end_session, store_session, is_expired,
  sweep_from, sweep, pool_context, multishot_context, fill_session, open_session,
}
use uring_perf.Worker.Server.Loop.{accept_context}

-- The contexts of a session were made after the context at a.
abbrev pub IsAbove : ℕ → ClientSession → Type 0
IsAbove a x = All (λ p. a < p) (owned x)

-- The context for accepting is alive, with the listening socket, and dies with no session.
pub record IsListening (s : Server) : Type 0 where
  pub alive : find s.accept_ctx s.ctxs.alive ≡ some (accept_context s.listen_fd)
  pub fresh : s.accept_ctx < s.ctxs.next
  pub apart : All (λ r. IsAbove s.accept_ctx r.1) s.sessions

find-remove_all_above :
    (a : ℕ) (ps : List ℕ) (l : List (ℕ × IoContext))
    → All (λ p. a < p) ps
    → find a (remove_all ps l) ≡ find a l
unfolding remove_all
find-remove_all_above a [] l h = refl
find-remove_all_above a (p ∷ ps) l (lt, h) =
    find-remove_all_above a ps (remove p l) h ∙ ground (arith, find-remove a p l)

pub find-make_above :
    (a : ℕ) (cs : Contexts) (ctx : IoContext)
    → a < cs.next
    → find a (make cs ctx).1.alive ≡ find a cs.alive
unfolding make find
find-make_above a cs ctx h = ground arith

pub make_above :
    (a : ℕ) (cs : Contexts) (ctx : IoContext)
    → a < cs.next
    → (a < (make cs ctx).1.next) × (a < (make cs ctx).0)
unfolding make
make_above a cs ctx h = (omega arith, h)

erase-apart :
    (a fd : ℕ) (l : List (ℕ × ClientSession))
    → All (λ r. IsAbove a r.1) l
    → All (λ r. IsAbove a r.1) (erase fd l)
unfolding erase
erase-apart a fd [] h = tt
erase-apart a fd ((k, x) ∷ rest) (g, h) = elim (Bool-cases (k == fd)) [
  | inl e ↦ rw e (erase-apart a fd rest h)
  | inr e ↦ rw e (g, erase-apart a fd rest h)
]

lookup-apart :
    (a fd : ℕ) (l : List (ℕ × ClientSession)) {x : ClientSession}
    → All (λ r. IsAbove a r.1) l
    → lookup fd l ≡ some x
    → IsAbove a x
unfolding lookup
lookup-apart a fd [] {x} h e = cc
lookup-apart a fd ((k, y) ∷ rest) {x} (g, h) e = elim (Bool-cases (k == fd)) [
  | inl same ↦ let f : some y ≡ some x = rw same at e in let q : y ≡ x = cc in subst (IsAbove a) q g
  | inr other ↦ lookup-apart a fd rest h (rw other at e)
]

pub drop_session-IsListening :
    (fd : ℕ) (x : ClientSession) (s : Server)
    → IsListening s
    → IsAbove s.accept_ctx x
    → IsListening (drop_session fd x s)
unfolding drop_session
drop_session-IsListening fd x s v h = record {
  alive = find-remove_all_above s.accept_ctx (owned x) s.ctxs.alive h ∙ v.alive;
  fresh = v.fresh;
  apart = erase-apart s.accept_ctx fd s.sessions v.apart;
}

pub end_session-IsListening :
    (fd : ℕ) (x : ClientSession) (s : Server)
    → IsListening s
    → IsAbove s.accept_ctx x
    → IsListening (end_session fd x s)
unfolding end_session
end_session-IsListening fd x s v h =
    drop_session-IsListening fd x _ (record { alive = v.alive; fresh = v.fresh; apart = v.apart }) h

pub found-IsAbove :
    (fd : ℕ) (s : Server) {x : ClientSession}
    → IsListening s
    → lookup fd s.sessions ≡ some x
    → IsAbove s.accept_ctx x
found-IsAbove fd s v e = lookup-apart s.accept_ctx fd s.sessions v.apart e

pub store_session-IsListening :
    (fd : ℕ) (x : ClientSession) (s : Server)
    → IsListening s
    → IsAbove s.accept_ctx x
    → IsListening (store_session fd x s)
unfolding store_session drop_session
store_session-IsListening fd x s v h = elim (Option-cases (lookup fd s.sessions)) [
  | inl e ↦
      rw (e, store_session) (record { alive = v.alive; fresh = v.fresh; apart = (h, v.apart) })
  | inr (old, e) ↦
      let w = drop_session-IsListening fd old s v (found-IsAbove fd s v e) in
      rw (e, store_session) (record { alive = w.alive; fresh = w.fresh; apart = (h, w.apart) })
]

sweep_from-IsListening :
    (now : ℕ) (todo : List (ℕ × ClientSession)) (s : Server)
    → IsListening s
    → All (λ r. IsAbove s.accept_ctx r.1) todo
    → IsListening (sweep_from now todo s)
unfolding sweep_from end_session drop_session
sweep_from-IsListening now [] s v h = v
sweep_from-IsListening now ((fd, x) ∷ rest) s v (g, h) = elim (Bool-cases (is_expired now x)) [
  | inl e ↦
      rw e (
        sweep_from-IsListening now rest (end_session fd x s) (end_session-IsListening fd x s v g) h)
  | inr e ↦ rw e (sweep_from-IsListening now rest s v h)
]

pub sweep-IsListening : (now : ℕ) (s : Server) → IsListening s → IsListening (sweep now s)
unfolding sweep
sweep-IsListening now s v = sweep_from-IsListening now s.sessions s v v.apart

All-append_one :
    (a p : ℕ) (l : List ℕ) → All (λ q. a < q) l → a < p → All (λ q. a < q) (l ++ (p ∷ []))
All-append_one a p [] h lt = (lt, tt)
All-append_one a p (q ∷ l) (g, h) lt = (g, All-append_one a p l h lt)

fill_session-IsListening :
    (alloc : ℕ → ℕ) (receives : Bool) (n b : ℕ) (x : ClientSession) (s : Server)
    → IsListening s
    → IsAbove s.accept_ctx x
    → let (x', s') = fill_session alloc receives n b x s in
      IsListening s' × IsAbove s'.accept_ctx x'
unfolding fill_session
fill_session-IsListening alloc receives zero b x s v h = (v, h)
fill_session-IsListening alloc receives (suc n) b x s v h =
    fill_session-IsListening alloc receives n (b + 1) _ _
      (record {
        alive = find-make_above s.accept_ctx s.ctxs ctx v.fresh ∙ v.alive;
        fresh = (make_above s.accept_ctx s.ctxs ctx v.fresh).0;
        apart = v.apart;
      })
      (subst (All (λ p. s.accept_ctx < p)) (append_assoc _ x.contexts _)
        (All-append_one s.accept_ctx _ (owned x) h (make_above s.accept_ctx s.ctxs ctx v.fresh).1))
  where
    ctx : IoContext
    ctx =
        pool_context s (if receives then CtxType.recv else CtxType.send) x.client_fd b
          (alloc s.allocs)

-- A session made with its contexts, and the server that it is made by.
abbrev pub IsMade : ClientSession × Server → Type 0
IsMade (x, s) = IsListening s × IsAbove s.accept_ctx x

if-IsMade :
    (b : Bool) (u v : ClientSession × Server) → IsMade u → IsMade v → IsMade (if b then u else v)
if-IsMade true u v h k = h
if-IsMade false u v h k = k

pub open_session-IsMade :
    (alloc : ℕ → ℕ) (h : Handshake) (now fd : ℕ) (s : Server)
    → IsListening s
    → IsMade (open_session alloc h now fd s)
unfolding open_session
open_session-IsMade alloc h now fd s v =
    if-IsMade h.reverse _ _ (fill_session-IsListening alloc false s.config.in_flight 0 _ s v tt) (
      if-IsMade s.use_multishot _ _
        (
          record {
            alive = find-make_above s.accept_ctx s.ctxs (multishot_context s fd) v.fresh ∙ v.alive;
            fresh = (make_above s.accept_ctx s.ctxs (multishot_context s fd) v.fresh).0;
            apart = v.apart;
          },
          ((make_above s.accept_ctx s.ctxs (multishot_context s fd) v.fresh).1, tt),
        )
        (fill_session-IsListening alloc true s.config.in_flight 0 _ s v tt))
