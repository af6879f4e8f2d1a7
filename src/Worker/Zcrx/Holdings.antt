-- ===== src/Worker/Zcrx/Holdings.antt =====
-- src/worker.cpp: what the set-up of zero-copy receive takes, its teardown gives back.
use uring_perf.Base.{
  ℕ, zero, suc, ◌+◌, ◌≡◌, refl, Bool, true, false, ◌&&◌, List, [], ◌∷◌, ◌++◌, Option, none, some,
  ◌==◌, if◌then◌else◌, arith, ℤ, pos, negsuc,
}
use uring_perf.Worker.Zcrx.{
  Holding, mmap, munmap, queue_init, queue_exit, open_fd, close_fd, ZcrxState, ZcrxAnswers,
  refill_ring_size, register_ifq, map_area, map_ring, zcrx_setup, zcrx_teardown,
}

abbrev pub tally : (Holding → ℕ) → List Holding → ℕ
tally f [] = 0
tally f (h ∷ hs) = f h + tally f hs

-- The mappings of a size at an address, made and undone.
abbrev pub maps : ℕ → ℕ → Holding → ℕ
maps p n (mmap q m) = if q == p && m == n then 1 else 0
maps p n h = 0

abbrev pub unmaps : ℕ → ℕ → Holding → ℕ
unmaps p n (munmap q m) = if q == p && m == n then 1 else 0
unmaps p n h = 0

abbrev pub inits : Holding → ℕ
inits queue_init = 1
inits h = 0

abbrev pub quits : Holding → ℕ
quits queue_exit = 1
quits h = 0

abbrev pub opens : ℕ → Holding → ℕ
opens fd (open_fd x) = if x == fd then 1 else 0
opens fd h = 0

abbrev pub closes : ℕ → Holding → ℕ
closes fd (close_fd x) = if x == fd then 1 else 0
closes fd h = 0

-- All that is taken is given back as often.
abbrev pub IsEven : ℕ → ℕ → ℕ → List Holding → Type 0
IsEven p n fd hs =
    (tally (maps p n) hs ≡ tally (unmaps p n) hs)
    × (tally inits hs ≡ tally quits hs)
    × (tally (opens fd) hs ≡ tally (closes fd) hs)

tally-append :
    (f : Holding → ℕ) (xs ys : List Holding) → tally f (xs ++ ys) ≡ tally f xs + tally f ys
tally-append f [] ys = omega arith
tally-append f (x ∷ xs) ys = omega (arith, tally-append f xs ys)

IsEven-append :
    (p n fd : ℕ) (xs ys : List Holding)
    → IsEven p n fd xs
    → IsEven p n fd ys
    → IsEven p n fd (xs ++ ys)
IsEven-append p n fd xs ys (a, b, c) (d, e, f) = (
  omega (arith, tally-append (maps p n) xs ys, tally-append (unmaps p n) xs ys),
  omega (arith, tally-append inits xs ys, tally-append quits xs ys),
  omega (arith, tally-append (opens fd) xs ys, tally-append (closes fd) xs ys),
)

-- A list that is even, between the means of a worker.
pub IsEven-between :
    (p n fd : ℕ) (front back hs : List Holding)
    → IsEven p n fd (front ++ back)
    → IsEven p n fd hs
    → IsEven p n fd (front ++ (hs ++ back))
IsEven-between p n fd front back hs (a, b, c) (d, e, f) = (
  omega (
    arith,
    split (maps p n),
    split (unmaps p n),
    tally-append (maps p n) front back,
    tally-append (unmaps p n) front back,
  ),
  omega (
    arith,
    split inits,
    split quits,
    tally-append inits front back,
    tally-append quits front back,
  ),
  omega (
    arith,
    split (opens fd),
    split (closes fd),
    tally-append (opens fd) front back,
    tally-append (closes fd) front back,
  ),
)
  where
    split :
        (t : Holding → ℕ)
        → tally t (front ++ (hs ++ back)) ≡ tally t front + tally t hs + tally t back
    split t = omega (arith, tally-append t front (hs ++ back), tally-append t hs back)

-- A set-up that fails keeps nothing, and one that succeeds what the teardown gives back.
abbrev pub KeepsNothing : ℕ → ℕ → ℕ → ℕ → Bool × ZcrxState × List Holding → Type 0
KeepsNothing p n fd area_size (false, zst, hs) = IsEven p n fd hs
KeepsNothing p n fd area_size (true, zst, hs) = IsEven p n fd (hs ++ zcrx_teardown zst area_size)

register_ifq-KeepsNothing :
    (p n fd : ℕ) (r : ℤ) (a : ZcrxAnswers) (ring size area area_size : ℕ)
    → KeepsNothing p n fd area_size (register_ifq r a ring size area area_size)
unfolding register_ifq zcrx_teardown
register_ifq-KeepsNothing p n fd (pos zero) a ring size area area_size = (omega arith, refl, refl)
register_ifq-KeepsNothing p n fd (pos (suc k)) a ring size area area_size =
    (omega arith, refl, refl)
register_ifq-KeepsNothing p n fd (negsuc k) a ring size area area_size = (omega arith, refl, refl)

map_area-KeepsNothing :
    (p n fd : ℕ) (o : Option ℕ) (a : ZcrxAnswers) (ring size area_size : ℕ)
    → KeepsNothing p n fd area_size (map_area o a ring size area_size)
unfolding map_area
map_area-KeepsNothing p n fd none a ring size area_size = (omega arith, refl, refl)
map_area-KeepsNothing p n fd (some area) a ring size area_size =
    register_ifq-KeepsNothing p n fd a.register a ring size area area_size

map_ring-KeepsNothing :
    (p n fd : ℕ) (o : Option ℕ) (a : ZcrxAnswers) (size area_size : ℕ)
    → KeepsNothing p n fd area_size (map_ring o a size area_size)
unfolding map_ring
map_ring-KeepsNothing p n fd none a size area_size = (refl, refl, refl)
map_ring-KeepsNothing p n fd (some ring) a size area_size =
    map_area-KeepsNothing p n fd a.area_map a ring size area_size

if-KeepsNothing :
    (p n fd area_size : ℕ) (b : Bool) (u v : Bool × ZcrxState × List Holding)
    → KeepsNothing p n fd area_size u
    → KeepsNothing p n fd area_size v
    → KeepsNothing p n fd area_size (if b then u else v)
if-KeepsNothing p n fd area_size true u v h k = h
if-KeepsNothing p n fd area_size false u v h k = k

pub zcrx_setup-KeepsNothing :
    (p n fd : ℕ) (a : ZcrxAnswers) (area_size rq_entries : ℕ)
    → KeepsNothing p n fd area_size (zcrx_setup a area_size rq_entries)
unfolding zcrx_setup
zcrx_setup-KeepsNothing p n fd a area_size rq_entries =
    if-KeepsNothing p n fd area_size (a.ifindex == 0) _ _ (refl, refl, refl)
      (map_ring-KeepsNothing p n fd a.ring_map a (refill_ring_size a rq_entries) area_size)
