-- ===== src/Worker/Server/Ending.antt =====
-- src/worker.cpp: the end of a session of `run_server` with multishot receives.
use uring_perf.Base.{
  ℕ, ◌+◌, ◌≤◌, ◌≡◌, refl, ◌≢◌, sym, ap, subst, ◌∙◌, false, List, [], ◌∷◌, Option, none, some, ◌==◌,
  if◌then◌else◌, inl, inr, arith, Bool-cases,
}
use uring_perf.Worker.Server.{ClientSession, lookup, erase}
use uring_perf.Worker.Server.Multishot.{owns, awaited, Frame, IsKept}

erase-none : (fd : ℕ) (l : List (ℕ × ClientSession)) → lookup fd l ≡ none → erase fd l ≡ l
unfolding lookup erase
erase-none fd [] h = refl
erase-none fd ((k, y) ∷ rest) h = ground (arith, erase-none fd rest)

lookup-erase :
    (k fd : ℕ) (l : List (ℕ × ClientSession)) → lookup k l ≡ none → lookup k (erase fd l) ≡ none
unfolding lookup erase
lookup-erase k fd [] h = refl
lookup-erase k fd ((j, y) ∷ rest) h = ground (arith, lookup-erase k fd rest)

pub head-erased :
    (fd j : ℕ) (y : ClientSession) (rest : List (ℕ × ClientSession))
    → j ≡ fd
    → lookup j rest ≡ none
    → (erase fd ((j, y) ∷ rest) ≡ rest) × (lookup fd ((j, y) ∷ rest) ≡ some y)
unfolding erase lookup
head-erased fd j y rest e h =
    ground (arith, erase-none fd rest (sym (ap (λ i. lookup i rest) e) ∙ h))

pub erase-later :
    (k fd : ℕ) (y : ClientSession) (rest : List (ℕ × ClientSession))
    → k == fd ≡ false
    → (erase fd ((k, y) ∷ rest) ≡ (k, y) ∷ erase fd rest)
      × (lookup fd ((k, y) ∷ rest) ≡ lookup fd rest)
unfolding erase lookup
erase-later k fd y rest e = ground arith

abbrev ms_of : Option ClientSession → Option ℕ
ms_of none = none
ms_of (some x) = x.ms_ctx

-- What ending the session of the context u comes to.
abbrev pub Ended : Frame → ℕ → List (ℕ × ClientSession) → List (ℕ × ClientSession) → Type 0
Ended f u l after =
    IsKept f after
    × ((w : ℕ) → awaited w after + (if w == u then 1 else 0) ≡ awaited w l)
    × (awaited u after ≡ 0)

owns-some : (w p : ℕ) (o : Option ℕ) → o ≡ some p → owns w o ≡ (if w == p then 1 else 0)
owns-some w p o e = ap (owns w) e

-- Ending the session of a context takes one from what is awaited, of that context only.
pub awaited-erase :
    (f : Frame) (u fd : ℕ) (x : ClientSession) (l : List (ℕ × ClientSession))
    → IsKept f l
    → lookup fd l ≡ some x
    → x.ms_ctx ≡ some u
    → Ended f u l (erase fd l)
awaited-erase f u fd x [] k found own = unfold lookup in cc
awaited-erase f u fd x ((j, y) ∷ rest) ((p, own2, pool, alive, below, other, fresh, apart), k) found
      own =
    elim (Bool-cases (j == fd)) [
      | inl same ↦
          let (gone, here) = head-erased fd j y rest (ground arith) fresh in
          let own_u : y.ms_ctx ≡ some u = ap ms_of (sym here ∙ found) ∙ own in
          let at : p ≡ u = (let e : some p ≡ some u = sym own2 ∙ own_u in cc) in
          subst (Ended f u ((j, y) ∷ rest)) (sym gone) (
            k,
            λ w. omega (arith, owns-some w u y.ms_ctx own_u),
            subst (λ i. awaited i rest ≡ 0) at apart,
          )
      | inr differs ↦
          let (stays, later) = erase-later j fd y rest differs in
          let (kept, counts, gone) = awaited-erase f u fd x rest k (sym later ∙ found) own in
          let not_u : p ≢ u =
            λ e. ground (arith, counts u, subst (λ i. awaited i rest ≡ 0) e apart) in
          subst (Ended f u ((j, y) ∷ rest)) (sym stays) (
            (
              (
                p,
                own2,
                pool,
                alive,
                below,
                other,
                lookup-erase j fd rest fresh,
                omega (arith, counts p, apart),
              ),
              kept,
            ),
            λ w. omega (arith, counts w),
            ground (arith, owns-some u p y.ms_ctx own2, not_u, gone),
          )
    ]

-- An address that was never given is not awaited.
pub awaited-next :
    (f : Frame) (u : ℕ) (l : List (ℕ × ClientSession)) → IsKept f l → f.next ≤ u → awaited u l ≡ 0
awaited-next f u [] k h = refl
awaited-next f u ((fd, x) ∷ rest) ((p, own, pool, alive, below, other, fresh, apart), k) h =
    let e = awaited-next f u rest k h in ground (arith, owns-some u p x.ms_ctx own, below, e)
