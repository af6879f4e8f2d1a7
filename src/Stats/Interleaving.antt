-- ===== src/Stats/Interleaving.antt =====
-- src/stats.cpp: the counters do not depend on how the threads' atomic additions interleave.
use mathlib.Core.Logic.{∥∥₁_elim}
use mathlib.Core.List.{Perm, Permᴰ}
use uring_perf.Base.{
  ℕ, zero, suc, ◌≡◌, refl, sym, ap, ◌∙◌, List, [], ◌∷◌, ◌++◌, arith, ltb, if◌then◌else◌,
}
use uring_perf.Stats.Counters.{
  ThreadStats, StatsCollector, Counter, Addition, bump, bump_at, fetch_add, add_bytes,
  add_zc_notification, add_error,
}

bump_comm :
    (c d : Counter) (n m : ℕ) (s : ThreadStats) → bump c n (bump d m s) ≡ bump d m (bump c n s)
unfolding bump
bump_comm Counter.bytes_transferred Counter.bytes_transferred n m s = ground arith
bump_comm c d n m s = ground arith

bump_at_comm :
    (ss : List ThreadStats) (i j : ℕ) (c d : Counter) (n m : ℕ)
    → bump_at (bump_at ss j d m) i c n ≡ bump_at (bump_at ss i c n) j d m
unfolding bump_at
bump_at_comm [] i j c d n m = refl
bump_at_comm (s ∷ ss) zero zero c d n m = ap (λ x. x ∷ ss) (bump_comm c d n m s)
bump_at_comm (s ∷ ss) zero (suc j) c d n m = refl
bump_at_comm (s ∷ ss) (suc i) zero c d n m = refl
bump_at_comm (s ∷ ss) (suc i) (suc j) c d n m = ap (◌∷◌ s) (bump_at_comm ss i j c d n m)

fetch_add_comm :
    (s : StatsCollector) (a b : Addition)
    → fetch_add (fetch_add s a) b ≡ fetch_add (fetch_add s b) a
unfolding fetch_add
fetch_add_comm s a b =
    ap (λ ss. let t : StatsCollector = record s { shared_stats = ss } in t)
      (bump_at_comm s.shared_stats b.thread_id a.thread_id b.counter a.counter b.amount a.amount)

-- The additions in the order in which they take effect.
unfoldable pub fetch_adds : StatsCollector → List Addition → StatsCollector
fetch_adds s [] = s
fetch_adds s (a ∷ as') = fetch_adds (fetch_add s a) as'

fetch_adds-permᴰ :
    {xs ys : List Addition} → Permᴰ xs ys → (s : StatsCollector) → fetch_adds s xs ≡ fetch_adds s ys
unfolding fetch_adds
fetch_adds-permᴰ Permᴰ.nil s = refl
fetch_adds-permᴰ (Permᴰ.cons {a = a} {l₂ = l₂} e p) s =
    fetch_adds-permᴰ p (fetch_add s a) ∙ ap (λ x. fetch_adds (fetch_add s x) l₂) e
fetch_adds-permᴰ (Permᴰ.swap {a = a} {b = b} {a' = a'} {l = l} e f) s =
    ap (λ t. fetch_adds t l)
      (fetch_add_comm s a b
        ∙ ap (λ x. fetch_add (fetch_add s x) a) f
        ∙ ap (λ x. fetch_add (fetch_add s a') x) e)
fetch_adds-permᴰ (Permᴰ.trans p q) s = fetch_adds-permᴰ p s ∙ fetch_adds-permᴰ q s

StatsCollector-set : IsSet StatsCollector
StatsCollector-set = hlevel

fetch_adds-perm :
    (s : StatsCollector) (xs ys : List Addition) → Perm xs ys → fetch_adds s xs ≡ fetch_adds s ys
fetch_adds-perm s xs ys p =
    ∥∥₁_elim p (StatsCollector-set (fetch_adds s xs) (fetch_adds s ys)) (λ d. fetch_adds-permᴰ d s)

-- A counting call of a worker.
pub data Count : Type 0 where
  counts_bytes : ℕ → ℕ → ℕ → Count
  counts_notification : ℕ → Count
  counts_error : ℕ → Count

unfoldable pub count_call : StatsCollector → Count → StatsCollector
count_call s (counts_bytes t bytes packets) = add_bytes s t bytes packets
count_call s (counts_notification t) = add_zc_notification s t
count_call s (counts_error t) = add_error s t

unfoldable pub count_calls : StatsCollector → List Count → StatsCollector
count_calls s [] = s
count_calls s (c ∷ cs) = count_calls (count_call s c) cs

abbrev pub addition : ℕ → Counter → ℕ → Addition
addition t c n = record { thread_id = t; counter = c; amount = n }

-- The atomic additions that a call makes where there are n threads.
unfoldable pub additions_of : ℕ → Count → List Addition
additions_of n (counts_bytes t bytes packets) =
    if ltb t n
    then addition t Counter.bytes_transferred bytes ∷ addition t Counter.packets_count packets ∷ []
    else []
additions_of n (counts_notification t) =
    if ltb t n then addition t Counter.zc_notifications 1 ∷ [] else []
additions_of n (counts_error t) = if ltb t n then addition t Counter.errors 1 ∷ [] else []

unfoldable pub all_additions : ℕ → List Count → List Addition
all_additions n [] = []
all_additions n (c ∷ cs) = additions_of n c ++ all_additions n cs

fetch_adds-append :
    (s : StatsCollector) (xs ys : List Addition)
    → fetch_adds s (xs ++ ys) ≡ fetch_adds (fetch_adds s xs) ys
unfolding fetch_adds
fetch_adds-append s [] ys = refl
fetch_adds-append s (x ∷ xs) ys = fetch_adds-append (fetch_add s x) xs ys

count_call-fetch_adds :
    (s : StatsCollector) (c : Count)
    → (count_call s c ≡ fetch_adds s (additions_of s.num_threads c))
      × ((count_call s c).num_threads ≡ s.num_threads)
unfolding count_call additions_of fetch_adds add_bytes add_zc_notification add_error
count_call-fetch_adds s (counts_bytes t bytes packets) = ground arith
count_call-fetch_adds s (counts_notification t) = ground arith
count_call-fetch_adds s (counts_error t) = ground arith

pub count_calls-fetch_adds :
    (s : StatsCollector) (cs : List Count)
    → count_calls s cs ≡ fetch_adds s (all_additions s.num_threads cs)
unfolding count_calls all_additions
count_calls-fetch_adds s [] = unfold fetch_adds in refl
count_calls-fetch_adds s (c ∷ cs) =
    let (e, n) = count_call-fetch_adds s c in
    count_calls-fetch_adds (count_call s c) cs
    ∙ ap (λ k. fetch_adds (count_call s c) (all_additions k cs)) n
    ∙ ap (λ t. fetch_adds t (all_additions s.num_threads cs)) e
    ∙ sym (fetch_adds-append s (additions_of s.num_threads c) (all_additions s.num_threads cs))

-- Let the threads make their counting calls, and the atomic additions of these calls take effect in
-- any order whatever: the counters end as if the calls had run one after the other.
pub count_calls-perm :
    (s : StatsCollector) (cs : List Count) (effects : List Addition)
    → Perm effects (all_additions s.num_threads cs)
    → fetch_adds s effects ≡ count_calls s cs
count_calls-perm s cs effects p = fetch_adds-perm s effects _ p ∙ sym (count_calls-fetch_adds s cs)
