-- ===== src/Main/Joining.antt =====
-- src/main.cpp: the steps of a process that begin and join the threads of its workers.
use uring_perf.Base.{
  ℕ, zero, suc, ◌+◌, ◌≤◌, ◌<◌, ◌≡◌, refl, ap, sym, subst, ◌∙◌, Bool, true, false, List, [], ◌∷◌,
  ◌++◌, map, none, some, ◌==◌, leb, if◌then◌else◌, arith, inl, inr, Bool-cases, Option-cases, ◌≢◌,
  ℤ,
}
use uring_perf.Config.Settings.{Config}
use uring_perf.Main.{Step, each_worker, opening, warns_of_zero_copy}
use uring_perf.Main.Threads.{
  Process, set, start_worker, join_worker, take_step, take_steps, destroy_workers,
}

abbrev pub count : ℕ → List ℕ → ℕ
count k [] = 0
count k (x ∷ xs) = (if k == x then 1 else 0) + count k xs

-- A thread is joinable exactly if it was begun once more than joined.
abbrev pub IsBalanced : Process → Type 0
IsBalanced p = (k : ℕ) → count k p.begun ≡ count k p.joined + (if p.joinable k then 1 else 0)

start_worker-IsBalanced :
    (i : ℕ) (p : Process)
    → p.joinable i ≡ false
    → IsBalanced p
    → (q : Process) × (start_worker i p ≡ some q)
      × IsBalanced q
      × (q.collector ≡ p.collector)
      × ((k : ℕ) → i < k → q.joinable k ≡ p.joinable k)
unfolding start_worker
start_worker-IsBalanced i p idle v = (
  record p { joinable = set p.joinable i true; begun = i ∷ p.begun },
  rw idle refl,
  λ k. ground (arith, v k, idle),
  refl,
  λ k h. ground (arith, h),
)

pub join_worker-IsBalanced : (i : ℕ) (p : Process) → IsBalanced p → IsBalanced (join_worker i p)
unfolding join_worker
join_worker-IsBalanced i p v = elim (Bool-cases (p.joinable i)) [
  | inl e ↦ rw e (λ k. ground (arith, v k, e))
  | inr e ↦ rw e v
]

pub join_worker-joinable :
    (i : ℕ) (p : Process)
    → ((join_worker i p).joinable i ≡ false)
      × ((k : ℕ) → k ≢ i → (join_worker i p).joinable k ≡ p.joinable k)
      × ((join_worker i p).collector ≡ p.collector)
unfolding join_worker
join_worker-joinable i p = elim (Bool-cases (p.joinable i)) [
  | inl e ↦ rw e (ground arith, (λ k n. ground (arith, n)), refl)
  | inr e ↦ rw e (e, (λ k n. refl), refl)
]

-- Where the steps take a process, and what it then is like.
abbrev pub Comes : ℕ → List Step → Process → (Process → Type 0) → Type 0
Comes now ss p P = (q : Process) × (take_steps now ss p ≡ some q) × P q

pub take_steps-append :
    (now : ℕ) (xs ys : List Step) (p q : Process)
    → take_steps now xs p ≡ some q
    → take_steps now (xs ++ ys) p ≡ take_steps now ys q
unfolding take_steps
take_steps-append now [] ys p q h = let e : p ≡ q = cc in ap (take_steps now ys) e
take_steps-append now (x ∷ xs) ys p q h = elim (Option-cases (take_step now x p)) [
  | inl e ↦ absurd (clash (rw (e, take_steps) at h))
  | inr (m, e) ↦ rw (e, take_steps) (take_steps-append now xs ys m q (rw (e, take_steps) at h))
]
  where
    clash : none ≡ some q → ⊥
    clash e = cc

pub all_begin :
    (now : ℕ) (cfg : Config) (n i : ℕ) (p : Process)
    → ((k : ℕ) → i ≤ k → p.joinable k ≡ false)
    → IsBalanced p
    → Comes now (each_worker (λ j. Step.start j cfg) i n) p λ q.
      IsBalanced q × (q.collector ≡ p.collector) × ((k : ℕ) → i + n ≤ k → q.joinable k ≡ false)
unfolding take_steps take_step each_worker
all_begin now cfg zero i p idle v = (p, refl, (v, refl, λ k h. idle k (omega (arith, h))))
all_begin now cfg (suc n) i p idle v =
    let (m, e, w, same, above) = start_worker-IsBalanced i p (idle i (omega arith)) v in
    let (q, e', (w', same', idle')) =
      all_begin now cfg n (i + 1) m (λ k h. above k (omega (arith, h)) ∙ idle k (omega (arith, h)))
        w in
    (q, rw (e, take_steps) e', (w', same' ∙ same, λ k h. idle' k (omega (arith, h))))

pub all_join :
    (now : ℕ) (n i : ℕ) (p : Process)
    → ((k : ℕ) → k < i → p.joinable k ≡ false)
    → ((k : ℕ) → i + n ≤ k → p.joinable k ≡ false)
    → IsBalanced p
    → Comes now
        (each_worker Step.join i n)
        p
        λ q. IsBalanced q × (q.collector ≡ p.collector) × ((k : ℕ) → q.joinable k ≡ false)
unfolding take_steps take_step each_worker
all_join now zero i p low high v = (p, refl, (v, refl, λ k. either k (leb i k) refl))
  where
    either : (k : ℕ) (b : Bool) → leb i k ≡ b → p.joinable k ≡ false
    either k true h = high k (ground (arith, h))
    either k false h = low k (ground (arith, h))
all_join now (suc n) i p low high v =
    let (own, others, same) = join_worker-joinable i p in
    let (q, e, (w, same', idle)) =
      all_join now n (i + 1) (join_worker i p) (λ k h. either k (k == i) refl h)
        (λ k h. others k (omega (arith, h)) ∙ high k (omega (arith, h)))
        (join_worker-IsBalanced i p v) in
    (q, e, (w, same' ∙ same, idle))
  where
    either : (k : ℕ) (b : Bool) → k == i ≡ b → k < i + 1 → (join_worker i p).joinable k ≡ false
    either k true e h =
        subst (λ j. (join_worker i p).joinable j ≡ false)
          (sym (let at : k ≡ i = ground arith in at)) (join_worker-joinable i p).0
    either k false e h = (join_worker-joinable i p).1 k (ground arith) ∙ low k (ground arith)

pub take_steps-waits :
    (now : ℕ) (pids : List ℤ) (p : Process) → take_steps now (map Step.waitpid pids) p ≡ some p
unfolding take_steps take_step
take_steps-waits now [] p = refl
take_steps-waits now (pid ∷ pids) p = take_steps-waits now pids p

pub take_steps-opening :
    (now : ℕ) (cfg : Config) (ys : List Step) (p : Process)
    → take_steps now (opening cfg ++ ys) p ≡ take_steps now ys p
unfolding take_steps take_step opening
take_steps-opening now cfg ys p = warned (warns_of_zero_copy cfg)
  where
    warned :
        (b : Bool)
        → take_steps now ((if b then Step.warn_of_zero_copy ∷ [] else []) ++ ys) p
          ≡ take_steps now ys p
    warned true = refl
    warned false = refl

pub destroy_workers-idle :
    (n i : ℕ) (p : Process) → ((k : ℕ) → p.joinable k ≡ false) → destroy_workers i n p ≡ p
unfolding destroy_workers join_worker
destroy_workers-idle zero i p idle = refl
destroy_workers-idle (suc n) i p idle =
    let same : join_worker i p ≡ p = rw (idle i) refl in
    ap (destroy_workers (i + 1) n) same ∙ destroy_workers-idle n (i + 1) p idle
