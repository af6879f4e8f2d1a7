-- ===== src/Config/Affinity.antt =====
-- include/config.hpp: the list of processor cores against a plain reading of the text.
use uring_perf.Base.{
  ℕ, zero, suc, ◌<◌, ◌≡◌, refl, sym, ◌∙◌, List, [], ◌∷◌, ◌++◌, map, append_assoc, append-nil, none,
  some, ◌==◌, if◌then◌else◌, length, ℤ, arith, Bool-cases, Option-cases, inl, inr,
}
use uring_perf.Config.Parse.{cut_at_comma, is_empty, affinity_loop, push_affinity}

-- One more byte in front of the first piece.
abbrev pub cons_first : ℕ → List (List ℕ) → List (List ℕ)
cons_first c [] = (c ∷ []) ∷ []
cons_first c (p ∷ ps) = (c ∷ p) ∷ ps

-- The pieces between the commas, read byte by byte.
unfoldable pub split : List ℕ → List (List ℕ)
split [] = [] ∷ []
split (c ∷ cs) = let rest = split cs in if c == b',' then [] ∷ rest else cons_first c rest

-- An empty piece at the end does not count.
unfoldable pub without_empty_last : List (List ℕ) → List (List ℕ)
without_empty_last [] = []
without_empty_last (p ∷ []) = if is_empty p then [] else p ∷ []
without_empty_last (p ∷ q ∷ ps) = p ∷ without_empty_last (q ∷ ps)

cut-none : (cs : List ℕ) → cut_at_comma cs ≡ none → split cs ≡ cs ∷ []
unfolding cut_at_comma split
cut-none [] h = refl
cut-none (c ∷ cs) h = ground (arith, cut-none cs)

cut-some :
    (cs : List ℕ) {p r : List ℕ}
    → cut_at_comma cs ≡ some (p, r)
    → (split cs ≡ p ∷ split r) × (length r < length cs)
unfolding cut_at_comma split
cut-some [] h = cc
cut-some (c ∷ cs) {p} {r} h = elim (Option-cases (cut_at_comma cs)) [
  | inl e ↦ ground arith
  | inr (pr, e) ↦ ground (arith, cut-some cs {p = pr.0} {r = pr.1})
]

without_empty_last-cons_first :
    (p : List ℕ) (c : ℕ) (ps : List (List ℕ))
    → without_empty_last (p ∷ cons_first c ps) ≡ p ∷ without_empty_last (cons_first c ps)
unfolding without_empty_last
without_empty_last-cons_first p c [] = refl
without_empty_last-cons_first p c (q ∷ qs) = refl

without_empty_last-split :
    (p r : List ℕ) → without_empty_last (p ∷ split r) ≡ p ∷ without_empty_last (split r)
unfolding without_empty_last split
without_empty_last-split p [] = refl
without_empty_last-split p (c ∷ r) = elim (Bool-cases (c == b',')) [
  | inl e ↦ rw e refl
  | inr e ↦ rw e (without_empty_last-cons_first p c (split r))
]

last_piece :
    (atoi : List ℕ → ℤ) (cpus : List ℕ) (list : List ℤ)
    → (if is_empty cpus then list else list ++ (atoi cpus ∷ []))
      ≡ list ++ map atoi (without_empty_last (cpus ∷ []))
unfolding without_empty_last
last_piece atoi [] list = sym (append-nil list)
last_piece atoi (c ∷ cs) list = refl

module _ (atoi : List ℕ → ℤ) where
  affinity_loop-split :
      (fuel : ℕ) (cpus : List ℕ) (list : List ℤ)
      → length cpus < fuel
      → affinity_loop atoi fuel cpus list ≡ list ++ map atoi (without_empty_last (split cpus))
  unfolding affinity_loop
  affinity_loop-split zero cpus list h = elim h [ ]
  affinity_loop-split (suc fuel) cpus list h = elim (Option-cases (cut_at_comma cpus)) [
    | inl e ↦ rw (e, affinity_loop, cut-none cpus e) (last_piece atoi cpus list)
    | inr ((piece, rest), e) ↦
        rw (e, affinity_loop, (cut-some cpus e).0, without_empty_last-split piece rest)
          (affinity_loop-split fuel rest (list ++ (atoi piece ∷ []))
              (omega (arith, (cut-some cpus e).1))
            ∙ append_assoc list (atoi piece ∷ []) (map atoi (without_empty_last (split rest))))
  ]

  -- The option adds the number of each piece of the text between commas, in order, but for an empty
  -- piece at the end; the loop always ends.
  pub push_affinity-split :
      (cpus : List ℕ) (list : List ℤ)
      → push_affinity atoi cpus list ≡ list ++ map atoi (without_empty_last (split cpus))
  unfolding push_affinity
  push_affinity-split cpus list = affinity_loop-split (suc (length cpus)) cpus list (omega arith)
