-- ===== src/Net/Buffers.antt =====
-- src/net_utils.cpp: the buffers of the workers. An address is a number, and 0 is the null pointer.
use uring_perf.Base.{
  ℕ, ◌≡◌, refl, List, [], ◌∷◌, ◌++◌, Option, none, some, ◌==◌, if◌then◌else◌, arith,
}

-- `block` is what `posix_memalign` gives.
unfoldable pub allocate_aligned_buffer : Option ℕ → ℕ
allocate_aligned_buffer none = 0
allocate_aligned_buffer (some p) = p

-- The calls of `free`.
unfoldable pub free_aligned_buffer : ℕ → List ℕ
free_aligned_buffer p = if p == 0 then [] else p ∷ []

-- `for (void* buf : ...) free_aligned_buffer(buf);`
unfoldable pub free_buffers : List ℕ → List ℕ
free_buffers [] = []
free_buffers (p ∷ ps) = free_aligned_buffer p ++ free_buffers ps

-- The blocks among what the allocator gave: an address of 0 is none.
abbrev pub blocks : List (Option ℕ) → List ℕ
blocks [] = []
blocks (none ∷ bs) = blocks bs
blocks (some p ∷ bs) = let rest = blocks bs in if p == 0 then rest else p ∷ rest

-- The pointers that the workers hold for them.
abbrev pub pointers : List (Option ℕ) → List ℕ
pointers [] = []
pointers (b ∷ bs) = allocate_aligned_buffer b ∷ pointers bs

-- The blocks are freed once each, and nothing else is.
pub free_buffers-pointers : (bs : List (Option ℕ)) → free_buffers (pointers bs) ≡ blocks bs
unfolding free_buffers free_aligned_buffer allocate_aligned_buffer
free_buffers-pointers [] = refl
free_buffers-pointers (none ∷ bs) = free_buffers-pointers bs
free_buffers-pointers (some p ∷ bs) = ground (arith, free_buffers-pointers bs)

abbrev pub non_null : List ℕ → List ℕ
non_null [] = []
non_null (p ∷ ps) = let rest = non_null ps in if p == 0 then rest else p ∷ rest

-- What is freed is every pointer that is not null, once.
pub free_buffers-non_null : (ps : List ℕ) → free_buffers ps ≡ non_null ps
unfolding free_buffers free_aligned_buffer
free_buffers-non_null [] = refl
free_buffers-non_null (p ∷ ps) = ground (arith, free_buffers-non_null ps)
