-- ===== src/Worker/Zcrx/Ownership.antt =====
-- src/worker.cpp: what a completion does to the connections of `run_server_zcrx`.
use uring_perf.Base.{
  ℕ, ◌+◌, ◌≤◌, ◌≡◌, refl, ◌≢◌, true, false, List, ◌∷◌, Option, none, some, ◌==◌, if◌then◌else◌,
  arith, ◌⊎◌, ℤ, pos, negsuc,
}
use uring_perf.Worker.Zcrx.{
  ZcrxConn, ZcrxRing, ZcrxSqe, ZcrxEvent, queue_sqe, req_accept, pointer_of, rx_data, remove_one,
}
use uring_perf.Worker.Zcrx.Server.{Entry, ZcrxServer, object_at, has_key, erase_key}
use uring_perf.Worker.Zcrx.Tags.{IsAddress}
use uring_perf.Worker.Zcrx.Flight.{
  count, receives, keys, IsKept, count-remove_one, erase_key-IsKept, object_at-erases,
}

-- Every connection has as many receives in the ring as it stands in the table, which is once, and the
-- ring has no others; it never runs out of entries.
pub record IsOwned (r : ZcrxRing) (es : List Entry) : Type 0 where
  pub kept : IsKept es
  pub flights : (u : ℕ) → (u ≡ req_accept) ⊎ (count u r.flight ≡ receives u es)
  pub slots : (n : ℕ) → r.slots n ≡ true

-- The kernel gives a new connection a descriptor that is not in use, and the allocator its object an
-- aligned address that is not in use.
abbrev pub IsNew : List Entry → ZcrxEvent → ℤ → Type 0
IsNew es ev (negsuc n) = Unit
IsNew es ev (pos fd) = (has_key fd es ≡ false) × (object_at ev.ptr es ≡ none) × IsAddress ev.ptr

-- A completion that the kernel may post: of an operation that it has not completed for good.
abbrev pub IsPosted : ZcrxServer → ZcrxEvent → Type 0
IsPosted s ev =
    (1 ≤ count ev.cqe.user_data s.ring.flight)
    × ((ev.cqe.user_data ≢ req_accept) ⊎ IsNew s.conns ev ev.cqe.res)

abbrev pub accepted : ℕ → ℤ → ℕ
accepted fd (pos x) = if fd == x then 1 else 0
accepted fd (negsuc n) = 0

-- How often a completion brings a connection with descriptor fd.
abbrev pub taken : ℕ → ZcrxEvent → ℕ
taken fd ev = if ev.cqe.user_data == req_accept then accepted fd ev.cqe.res else 0

-- How often fd was closed or is open.
abbrev pub held : ℕ → ZcrxServer → ℕ
held fd s = count fd s.closed + keys fd s.conns

-- The outcome is a state in which the receives are still owned, with n fd more descriptors.
abbrev pub Serves : ZcrxServer → (ℕ → ℕ) → Option ZcrxServer → Type 0
Serves s n none = ⊥
Serves s n (some s') = IsOwned s'.ring s'.conns × ((fd : ℕ) → held fd s' ≡ held fd s + n fd)

-- The ring with an operation more.
pub grown : ZcrxRing → ZcrxSqe → ℕ → ZcrxRing
grown r sqe u = record r { gets = r.gets + 1; sqes = sqe ∷ r.sqes; flight = u ∷ r.flight }

pub queue_sqe-grown :
    (r : ZcrxRing) (sqe : ZcrxSqe) (u : ℕ)
    → ((n : ℕ) → r.slots n ≡ true)
    → queue_sqe r sqe u ≡ some (grown r sqe u)
unfolding queue_sqe grown
queue_sqe-grown r sqe u h = rw (h r.gets) refl

pub accept-IsOwned :
    (r : ZcrxRing) (sqe : ZcrxSqe) (es : List Entry)
    → IsOwned r es
    → IsOwned (grown r sqe req_accept) es
unfolding grown
accept-IsOwned r sqe es v = record {
  kept = v.kept;
  flights = λ u. ground (arith, v.flights u);
  slots = v.slots;
}

pub recv-IsOwned :
    (r : ZcrxRing) (sqe : ZcrxSqe) (es : List Entry) (e : Entry)
    → IsOwned r es
    → e.conn.fd ≡ e.key
    → IsAddress e.ptr
    → has_key e.key es ≡ false
    → object_at e.ptr es ≡ none
    → IsOwned (grown r sqe (rx_data e.ptr)) (e ∷ es)
unfolding grown
recv-IsOwned r sqe es e v same addr fresh apart = record {
  kept = (same, addr, fresh, apart, v.kept);
  flights = λ u. ground (arith, v.flights u);
  slots = v.slots;
}

-- Without an operation that the kernel has completed for good.
unfoldable pub ended : ZcrxRing → ℕ → ZcrxRing
ended r u = record r { flight = remove_one u r.flight }

pub rearm-IsOwned :
    (r : ZcrxRing) (sqe : ZcrxSqe) (es : List Entry) (u : ℕ)
    → IsOwned r es
    → 1 ≤ count u r.flight
    → IsOwned (grown (ended r u) sqe u) es
unfolding grown ended
rearm-IsOwned r sqe es u v there = record {
  kept = v.kept;
  flights = λ x. ground (arith, v.flights x, count-remove_one x u r.flight);
  slots = v.slots;
}

pub drop-IsOwned :
    (r : ZcrxRing) (es : List Entry) (u : ℕ) (c : ZcrxConn)
    → IsOwned r es
    → u ≡ rx_data (pointer_of u)
    → object_at (pointer_of u) es ≡ some c
    → IsOwned (ended r u) (erase_key c.fd es)
unfolding ended
drop-IsOwned r es u c v at found =
    let (has, counts) = object_at-erases (pointer_of u) es c v.kept found in
    record {
      kept = erase_key-IsKept c.fd es v.kept;
      flights = λ x. ground (arith, v.flights x, count-remove_one x u r.flight, counts x, at);
      slots = v.slots;
    }

pub over-IsOwned :
    (r : ZcrxRing) (es : List Entry) (u : ℕ)
    → IsOwned r es
    → u ≡ req_accept
    → IsOwned (ended r u) es
unfolding ended
over-IsOwned r es u v e = record {
  kept = v.kept;
  flights = λ x. ground (arith, v.flights x, count-remove_one x u r.flight);
  slots = v.slots;
}
