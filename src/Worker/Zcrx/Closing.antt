-- ===== src/Worker/Zcrx/Closing.antt =====
-- src/worker.cpp: the loop of `run_server_zcrx`, and the descriptors of its connections.
use uring_perf.Base.{
  ℕ, ◌+◌, ◌≡◌, refl, sym, subst, Bool, true, false, List, [], ◌∷◌, ◌++◌, Option, none, some,
  if◌then◌else◌, arith, ◌⊎◌, length,
}
use uring_perf.Stats.Counters.{StatsCollector}
use uring_perf.Worker.Zcrx.{accept, ZcrxState, ZcrxEvent, queue_sqe, zcrx_submit_accept, req_accept}
use uring_perf.Worker.Zcrx.Server.{
  Entry, ZcrxServer, zcrx_serve, zcrx_serve_all, ZcrxTurn, wait_failed, ZcrxRun, stops, runs,
  faults, zcrx_loop, zcrx_server, close_conns,
}
use uring_perf.Worker.Zcrx.Flight.{count, receives, keys}
use uring_perf.Worker.Zcrx.Ownership.{IsPosted, taken, held, Serves}
use uring_perf.Worker.Zcrx.Serving.{zcrx_serve-Serves}

-- The server with the completions of a turn counted.
abbrev pub counted : ZcrxServer → ZcrxTurn → Option ZcrxServer
counted s t = some (record s { advanced = s.advanced + length t.ready })

-- Each completion may be posted in the state that it is dealt with in.
abbrev pub ArePosted : Option ZcrxServer → List ZcrxEvent → Type 0
ArePosted o [] = Unit
ArePosted none (ev ∷ evs) = Unit
ArePosted (some s) (ev ∷ evs) = IsPosted s ev × ArePosted (zcrx_serve s ev) evs

abbrev pub TurnsPosted : Option ZcrxServer → List ZcrxTurn → Type 0
TurnsPosted o [] = Unit
TurnsPosted none (t ∷ ts) = Unit
TurnsPosted (some s) (t ∷ ts) =
    ArePosted (counted s t) t.ready × TurnsPosted (zcrx_serve_all (counted s t) t.ready) ts

-- Whether a turn ends the loop, and the completions of the turns before it.
abbrev pub is_ended : List ZcrxTurn → Bool
is_ended [] = false
is_ended (t ∷ ts) = if t.stop then true else if wait_failed t then true else is_ended ts

abbrev pub harvested : List ZcrxTurn → List ZcrxEvent
harvested [] = []
harvested (t ∷ ts) = if t.stop then [] else if wait_failed t then [] else t.ready ++ harvested ts

-- How many of the completions bring a connection with descriptor fd.
abbrev pub taken_all : ℕ → List ZcrxEvent → ℕ
taken_all fd [] = 0
taken_all fd (ev ∷ evs) = taken fd ev + taken_all fd evs

taken_all-append :
    (fd : ℕ) (xs ys : List ZcrxEvent) → taken_all fd (xs ++ ys) ≡ taken_all fd xs + taken_all fd ys
taken_all-append fd [] ys = omega arith
taken_all-append fd (x ∷ xs) ys = omega (arith, taken_all-append fd xs ys)

Serves-trans :
    (a b : ZcrxServer) (m n k : ℕ → ℕ) (o : Option ZcrxServer)
    → ((fd : ℕ) → m fd + n fd ≡ k fd)
    → Serves a m (some b)
    → Serves b n o
    → Serves a k o
Serves-trans a b m n k none e h g = g
Serves-trans a b m n k (some c) e (v, h) (w, g) = (w, λ fd. omega (arith, e fd, h fd, g fd))

serve_all-Serves :
    (a : ZcrxServer) (m : ℕ → ℕ) (o : Option ZcrxServer) (evs : List ZcrxEvent)
    → Serves a m o
    → ArePosted o evs
    → Serves a (λ fd. m fd + taken_all fd evs) (zcrx_serve_all o evs)
unfolding zcrx_serve_all
serve_all-Serves a m none [] h p = h
serve_all-Serves a m (some s) [] (v, h) p = (v, λ fd. omega (arith, h fd))
serve_all-Serves a m none (ev ∷ evs) h p = absurd h
serve_all-Serves a m (some s) (ev ∷ evs) (v, h) (posted, p) =
    more (zcrx_serve_all (zcrx_serve s ev) evs) (
      serve_all-Serves a (λ fd. m fd + taken fd ev) (zcrx_serve s ev) evs
        (Serves-trans a s m (λ fd. taken fd ev) (λ fd. m fd + taken fd ev) (zcrx_serve s ev)
          (λ fd. refl) (v, h) (zcrx_serve-Serves s ev v posted))
        p)
  where
    more :
        (o : Option ZcrxServer)
        → Serves a (λ fd. m fd + taken fd ev + taken_all fd evs) o
        → Serves a (λ fd. m fd + taken_all fd (ev ∷ evs)) o
    more none k = k
    more (some t) (w, k) = (w, λ fd. omega (arith, k fd))

-- No fault; the loop has ended if and only if a turn ended it; each connection that is open has its
-- one receive in the ring; and n fd connections with descriptor fd were taken.
abbrev pub Ends : ZcrxServer → (ℕ → ℕ) → Bool → ZcrxRun → Type 0
Ends a n b faults = ⊥
Ends a n b (stops s) = (b ≡ true) × Serves a n (some s)
Ends a n b (runs s) = (b ≡ false) × Serves a n (some s)

if-Ends :
    (a : ZcrxServer) (m : ℕ → ℕ) (c : Bool) (us vs : List ZcrxEvent) (d e : Bool) (x y : ZcrxRun)
    → Ends a (λ fd. m fd + taken_all fd us) d x
    → Ends a (λ fd. m fd + taken_all fd vs) e y
    → Ends a
        (λ fd. m fd + taken_all fd (if c then us else vs))
        (if c then d else e)
        (if c then x else y)
if-Ends a m true us vs d e x y h k = h
if-Ends a m false us vs d e x y h k = k

Ends-map :
    (a : ZcrxServer) (m n : ℕ → ℕ) (b : Bool) (x : ZcrxRun)
    → ((fd : ℕ) → m fd ≡ n fd)
    → Ends a m b x
    → Ends a n b x
Ends-map a m n b faults e h = h
Ends-map a m n b (stops s) e (c, (v, h)) = (c, (v, λ fd. omega (arith, e fd, h fd)))
Ends-map a m n b (runs s) e (c, (v, h)) = (c, (v, λ fd. omega (arith, e fd, h fd)))

zcrx_loop-Ends :
    (a : ZcrxServer) (m : ℕ → ℕ) (o : Option ZcrxServer) (ts : List ZcrxTurn)
    → Serves a m o
    → TurnsPosted o ts
    → Ends a (λ fd. m fd + taken_all fd (harvested ts)) (is_ended ts) (zcrx_loop o ts)
unfolding zcrx_loop
zcrx_loop-Ends a m none ts h p = absurd h
zcrx_loop-Ends a m (some s) [] (v, h) p = (refl, (v, λ fd. omega (arith, h fd)))
zcrx_loop-Ends a m (some s) (t ∷ ts) (v, h) (posted, p) =
    if-Ends a m t.stop [] _ true _ (stops s) _ here (
      if-Ends a m (wait_failed t) [] _ true _ (stops s) _ here (
        Ends-map a (λ fd. m fd + taken_all fd t.ready + taken_all fd (harvested ts)) _ (is_ended ts)
          _ (λ fd. omega (arith, taken_all-append fd t.ready (harvested ts)))
          (zcrx_loop-Ends a (λ fd. m fd + taken_all fd t.ready) _ ts
            (serve_all-Serves a m (counted s t) t.ready (v, h) posted) p)))
  where
    here : Ends a (λ fd. m fd + taken_all fd []) true (stops s)
    here = (refl, (v, λ fd. omega (arith, h fd)))

-- The server that starts.
started : ℕ → StatsCollector → ℕ → ZcrxState → (ℕ → Bool) → ZcrxServer
started thread_id stats listen_fd zst slots = record {
  thread_id = thread_id;
  stats = stats;
  rq = zst.rq;
  zcrx_id = zst.zcrx_id;
  listen_fd = listen_fd;
  ring = record { slots = slots; gets = 1; sqes = accept listen_fd ∷ []; flight = req_accept ∷ [] };
  conns = [];
  closed = [];
  flags = [];
  advanced = 0;
}

zcrx_server-started :
    (thread_id : ℕ) (stats : StatsCollector) (listen_fd : ℕ) (zst : ZcrxState) (slots : ℕ → Bool)
    → ((n : ℕ) → slots n ≡ true)
    → zcrx_server thread_id stats listen_fd zst slots
      ≡ some (started thread_id stats listen_fd zst slots)
unfolding zcrx_server zcrx_submit_accept queue_sqe started
zcrx_server-started thread_id stats listen_fd zst slots h = rw (h 0) refl

started-Serves :
    (thread_id : ℕ) (stats : StatsCollector) (listen_fd : ℕ) (zst : ZcrxState) (slots : ℕ → Bool)
    → ((n : ℕ) → slots n ≡ true)
    → Serves
        (started thread_id stats listen_fd zst slots)
        (λ fd. 0)
        (some (started thread_id stats listen_fd zst slots))
unfolding started
started-Serves thread_id stats listen_fd zst slots h =
    (record { kept = tt; flights = λ u. ground arith; slots = h }, λ fd. omega arith)

count-close_conns :
    (fd : ℕ) (es : List Entry) (closed : List ℕ)
    → count fd (close_conns es ++ closed) ≡ count fd closed + keys fd es
unfolding close_conns
count-close_conns fd [] closed = omega arith
count-close_conns fd (e ∷ es) closed = omega (arith, count-close_conns fd es closed)

-- How a run of the loop has come out, for the descriptor fd and the user data u.
abbrev pub Outcome : ℕ → ℕ → List ZcrxTurn → ZcrxRun → Type 0
Outcome fd u ts faults = ⊥
Outcome fd u ts (stops s) =
    (is_ended ts ≡ true)
    × (count fd (close_conns s.conns ++ s.closed) ≡ taken_all fd (harvested ts))
Outcome fd u ts (runs s) =
    (is_ended ts ≡ false)
    × (held fd s ≡ taken_all fd (harvested ts))
    × ((u ≡ req_accept) ⊎ (count u s.ring.flight ≡ receives u s.conns))

Ends-Outcome :
    (thread_id : ℕ) (stats : StatsCollector) (listen_fd : ℕ) (zst : ZcrxState) (slots : ℕ → Bool)
    (fd u : ℕ) (ts : List ZcrxTurn) (r : ZcrxRun)
    → Ends
        (started thread_id stats listen_fd zst slots)
        (λ x. 0 + taken_all x (harvested ts))
        (is_ended ts)
        r
    → Outcome fd u ts r
unfolding started
Ends-Outcome thread_id stats listen_fd zst slots fd u ts faults h = h
Ends-Outcome thread_id stats listen_fd zst slots fd u ts (stops s) (e, (v, h)) =
    (e, omega (arith, h fd, count-close_conns fd s.conns s.closed))
Ends-Outcome thread_id stats listen_fd zst slots fd u ts (runs s) (e, (v, h)) =
    (e, omega (arith, h fd), v.flights u)

-- Let the ring always have an entry, and let the completions be such as the kernel posts: each of an
-- operation that it has not completed for good, with a new connection's descriptor and object not in
-- use and the object's address aligned. Then the loop of `run_server_zcrx` reads no connection that
-- is dead, and ends if and only if a turn finds the stop signal or a wait that failed. At its end, with
-- the closing of what is left in the table, every descriptor has been closed exactly as often as a
-- connection under it was accepted. While it runs, each has been closed or is open as often as it was
-- accepted, and the open connections have one receive each in the ring, and the ring no others.
pub zcrx_loop_outcome :
    (thread_id : ℕ) (stats : StatsCollector) (listen_fd : ℕ) (zst : ZcrxState) (slots : ℕ → Bool)
    (ts : List ZcrxTurn) (fd u : ℕ)
    → ((n : ℕ) → slots n ≡ true)
    → TurnsPosted (zcrx_server thread_id stats listen_fd zst slots) ts
    → Outcome fd u ts (zcrx_loop (zcrx_server thread_id stats listen_fd zst slots) ts)
zcrx_loop_outcome thread_id stats listen_fd zst slots ts fd u h p =
    let e = zcrx_server-started thread_id stats listen_fd zst slots h in
    subst (λ o. Outcome fd u ts (zcrx_loop o ts)) (sym e)
      (Ends-Outcome thread_id stats listen_fd zst slots fd u ts _ (
        zcrx_loop-Ends (started thread_id stats listen_fd zst slots) (λ x. 0) _ ts
          (started-Serves thread_id stats listen_fd zst slots h)
          (subst (λ o. TurnsPosted o ts) e p)))
