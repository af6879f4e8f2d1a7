-- ===== src/Worker/Refill/Values.antt =====
-- src/worker.cpp: the entries of the refill queue, as a list of values of its slots.
use mathlib.Core.Path.{ap₂}
use uring_perf.Base.{
  ℕ, zero, suc, ◌+◌, ◌-◌, ◌<◌, ◌≡◌, refl, ap, ◌∙◌, min, List, [], ◌∷◌, ◌++◌, arith, length, take,
  drop,
}
use uring_perf.Worker.Refill.{Rqe}

-- n values from the i-th on.
abbrev pub values : (ℕ → Rqe) → ℕ → ℕ → List Rqe
values f i zero = []
values f i (suc n) = f i ∷ values f (i + 1) n

pub length-values : (f : ℕ → Rqe) (i n : ℕ) → length (values f i n) ≡ n
length-values f i zero = refl
length-values f i (suc n) = ap suc (length-values f (i + 1) n)

pub values-same :
    (f g : ℕ → Rqe) (i n : ℕ) → ((j : ℕ) → j < i + n → f j ≡ g j) → values f i n ≡ values g i n
values-same f g i zero h = refl
values-same f g i (suc n) h =
    rw (h i (omega arith))
      (ap (λ l. g i ∷ l) (values-same f g (i + 1) n (λ j l. h j (omega (arith, l)))))

pub values-at : (f : ℕ → Rqe) (i j m n : ℕ) → i ≡ j → m ≡ n → values f i m ≡ values f j n
values-at f i j m n e g = ap₂ (values f) e g

values-last : (f : ℕ → Rqe) (i n : ℕ) → values f i (n + 1) ≡ values f i n ++ (f (i + n) ∷ [])
values-last f i zero = ap (λ x. f x ∷ []) (omega arith)
values-last f i (suc n) =
    values-at f i i (suc n + 1) (suc (n + 1)) refl (omega arith)
    ∙ ap (λ l. f i ∷ l)
        (values-last f (i + 1) n ∙ ap (λ x. values f (i + 1) n ++ (f x ∷ [])) (omega arith))

pub values-last_of : (f : ℕ → Rqe) (n : ℕ) → values f 0 (n + 1) ≡ values f 0 n ++ (f n ∷ [])
values-last_of f n = values-last f 0 n ∙ ap (λ x. values f 0 n ++ (f x ∷ [])) (omega arith)

pub values-shift :
    (f g : ℕ → Rqe) (m i n : ℕ) → ((j : ℕ) → g j ≡ f (m + j)) → values g i n ≡ values f (m + i) n
values-shift f g m i zero h = refl
values-shift f g m i (suc n) h = rw (h i) (
    ap (λ l. f (m + i) ∷ l)
      (values-shift f g m (i + 1) n h ∙ values-at f _ _ n n (omega arith) refl))

pub take-values : (f : ℕ → Rqe) (i m n : ℕ) → take m (values f i n) ≡ values f i (min m n)
take-values f i zero n = values-at f i i 0 _ refl (omega arith)
take-values f i (suc m) zero = values-at f i i 0 _ refl (omega arith)
take-values f i (suc m) (suc n) =
    ap (λ l. f i ∷ l) (take-values f (i + 1) m n)
    ∙ values-at f i i (suc (min m n)) _ refl (omega arith)

pub drop-values :
    (f : ℕ → Rqe) (i m n : ℕ) → drop m (values f i n) ≡ values f (min m n + i) (n - min m n)
drop-values f i zero n = values-at f i (min 0 n + i) n (n - min 0 n) (omega arith) (omega arith)
drop-values f i (suc m) zero =
    values-at f i (min (suc m) 0 + i) 0 (0 - min (suc m) 0) (omega arith) (omega arith)
drop-values f i (suc m) (suc n) =
    drop-values f (i + 1) m n
    ∙ values-at f (min m n + (i + 1)) (min (suc m) (suc n) + i) (n - min m n)
        (suc n - min (suc m) (suc n)) (omega arith) (omega arith)
