-- ===== src/Worker/Contexts.antt =====
-- The `IOContext` objects that are alive, by address. `std::make_unique` gives an address that was
-- never given before, and 0 is null; what is read at an address that is not alive is a fault.
use uring_perf.Base.{
  ℕ, zero, suc, ◌+◌, ◌≡◌, List, [], ◌∷◌, Option, none, some, ◌==◌, if◌then◌else◌, arith, ◌⊎◌, inl,
  inr,
}
use uring_perf.Engine.State.{IoContext}

pub record Contexts : Type 0 where
  pub alive : List (ℕ × IoContext)
  pub next : ℕ

abbrev pub no_contexts : Contexts
no_contexts = record { alive = []; next = 1 }

unfoldable pub find : ℕ → List (ℕ × IoContext) → Option IoContext
find p [] = none
find p ((q, c) ∷ rest) = if q == p then some c else find p rest

unfoldable pub make : Contexts → IoContext → ℕ × Contexts
make cs c = (cs.next, record { alive = (cs.next, c) ∷ cs.alive; next = cs.next + 1 })

-- n addresses from p on, as `make` gives them.
abbrev pub addresses : ℕ → ℕ → List ℕ
addresses p zero = []
addresses p (suc n) = p ∷ addresses (p + 1) n

unfoldable pub remove : ℕ → List (ℕ × IoContext) → List (ℕ × IoContext)
remove p [] = []
remove p ((q, c) ∷ rest) = let tail = remove p rest in if q == p then tail else (q, c) ∷ tail

unfoldable pub remove_all : List ℕ → List (ℕ × IoContext) → List (ℕ × IoContext)
remove_all [] l = l
remove_all (p ∷ ps) l = remove_all ps (remove p l)

pub find-remove :
    (p q : ℕ) (l : List (ℕ × IoContext)) → find p (remove q l) ≡ (if q == p then none else find p l)
unfolding find remove
find-remove p q [] = ground arith
find-remove p q ((r, c) ∷ rest) = ground (arith, find-remove p q rest)

abbrev pub Among : ℕ → List ℕ → Type 0
Among p [] = ⊥
Among p (q ∷ qs) = (p ≡ q) ⊎ Among p qs

pub find-remove_all-none :
    (p : ℕ) (ps : List ℕ) (l : List (ℕ × IoContext))
    → find p l ≡ none
    → find p (remove_all ps l) ≡ none
unfolding remove_all
find-remove_all-none p [] l h = h
find-remove_all-none p (q ∷ ps) l h =
    find-remove_all-none p ps (remove q l) (ground (arith, find-remove p q l))

-- What was freed is not found again.
pub find-remove_all :
    (p : ℕ) (ps : List ℕ) (l : List (ℕ × IoContext)) → Among p ps → find p (remove_all ps l) ≡ none
unfolding remove_all
find-remove_all p [] l h = absurd h
find-remove_all p (q ∷ ps) l (inl e) =
    find-remove_all-none p ps (remove q l) (ground (arith, find-remove p q l))
find-remove_all p (q ∷ ps) l (inr m) = find-remove_all p ps (remove q l) m
