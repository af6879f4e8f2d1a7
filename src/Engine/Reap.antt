-- ===== src/Engine/Reap.antt =====
-- src/uring_engine.cpp: submitting and harvesting.
use uring_perf.Base.{
  ℕ, zero, suc, ◌+◌, ◌≡◌, refl, List, [], ◌∷◌, leb, if◌then◌else◌, ℤ, arith, take,
}
use uring_perf.Engine.State.{Engine}

-- `struct io_uring_cqe`.
pub record Cqe : Type 0 where
  pub user_data : ℕ
  pub res : ℤ
  pub flags : ℕ

unfoldable pub submit : Engine → Engine
submit e = record e { submits = e.submits + 1 }

unfoldable pub submit_and_wait : Engine → Engine
submit_and_wait e = record e { waits = e.waits + 1 }

unfoldable pub cqe_seen : Engine → Engine
cqe_seen e = record e { seen = e.seen + 1 }

-- The completions that are ready come with whatever is known of each.
module _ {ℓ} {A : Type ℓ} where
  -- The loop of `reap_completions` over the completions that are ready, with `count` harvested.
  reap_from : List A → ℕ → ℕ → List A
  reap_from [] max_reap count = []
  reap_from (c ∷ ready) max_reap count =
      let rest = reap_from ready max_reap (count + 1) in if leb max_reap count then [] else c ∷ rest

  unfoldable pub reap_completions : List A → ℕ → List A
  unfolding reap_from
  reap_completions ready max_reap = reap_from ready max_reap 0

  reap_from-take :
      (ready : List A) (n max_reap count : ℕ)
      → count + n ≡ max_reap
      → reap_from ready max_reap count ≡ take n ready
  unfolding reap_from
  reap_from-take [] zero max_reap count h = refl
  reap_from-take [] (suc n) max_reap count h = refl
  reap_from-take (c ∷ ready) zero max_reap count h = ground arith
  reap_from-take (c ∷ ready) (suc n) max_reap count h =
      ground (arith, reap_from-take ready n max_reap (count + 1))

  -- The harvest is the first completions that are ready, in order, `max_reap` of them at most.
  pub reap_completions-take :
      (ready : List A) (max_reap : ℕ) → reap_completions ready max_reap ≡ take max_reap ready
  unfolding reap_completions
  reap_completions-take ready max_reap = reap_from-take ready max_reap max_reap 0 (omega arith)
