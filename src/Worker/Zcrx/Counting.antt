-- ===== src/Worker/Zcrx/Counting.antt =====
-- src/worker.cpp: what `run_server_zcrx` counts of the completions that it deals with.
use uring_perf.Base.{
  ℕ, ◌+◌, ◌≡◌, refl, ap, sym, ◌∙◌, Bool, true, false, List, [], ◌∷◌, ◌++◌, Option, none, some, ◌==◌,
  if◌then◌else◌, ℤ, pos, negsuc, is_positive, is_negative, to_unsigned, Bool-cases, inl, inr,
  length,
}
use uring_perf.Stats.Interleaving.{count_call, count_calls}
use uring_perf.Worker.Client.Accounting.{Outcome, notified, refused, delivered, count_calls-append}
use uring_perf.Worker.Server.Accounting.{report_all, report_all-append}
use uring_perf.Worker.Zcrx.{
  ZcrxRing, ZcrxConn, ZcrxEvent, has_more, is_recoverable, take_zcrx, req_accept, req_rx, tag_of,
  zcrx_submit_accept, completed,
}
use uring_perf.Worker.Zcrx.Server.{
  ZcrxServer, ZcrxTurn, ZcrxRun, stops, runs, faults, wait_failed, keep_conn, accept_conn,
  with_ring, accept_again, drop_conn, has_key, note_end, conn_ended, take_server, on_rx,
  zcrx_dispatch, zcrx_serve, zcrx_serve_all, zcrx_loop,
}

-- What a completion of a receive is to be counted as: data once with their bytes and once as arrived
-- without a copy, and an end by an error as one, but for a lack of buffers.
abbrev pub received_as : ZcrxEvent → List Outcome
received_as ev =
    if has_more ev
    then (if is_positive ev.cqe.res
        then delivered (to_unsigned ev.cqe.res) 1 ∷ notified ∷ []
        else [])
    else if is_recoverable ev
    then []
    else if is_negative ev.cqe.res
    then refused ∷ []
    else []

-- Only receives count.
abbrev pub served_as : ZcrxEvent → List Outcome
served_as ev =
    if tag_of ev.cqe.user_data == req_accept
    then []
    else if tag_of ev.cqe.user_data == req_rx
    then received_as ev
    else []

abbrev pub served_all_as : List ZcrxEvent → List Outcome
served_all_as [] = []
served_all_as (ev ∷ evs) = served_as ev ++ served_all_as evs

-- The turns up to the stop signal or a wait that fails.
abbrev pub turns_as : List ZcrxTurn → List Outcome
turns_as [] = []
turns_as (t ∷ ts) =
    if t.stop then [] else if wait_failed t then [] else served_all_as t.ready ++ turns_as ts

-- A server that has counted some outcomes.
abbrev Counted : ZcrxServer → List Outcome → Option ZcrxServer → Type 0
Counted s os none = Unit
Counted s os (some t) =
    (t.thread_id ≡ s.thread_id) × (t.stats ≡ count_calls s.stats (report_all s.thread_id os))

if-Counted :
    (b : Bool) (s : ZcrxServer) (os ps : List Outcome) (o r : Option ZcrxServer)
    → Counted s os o
    → Counted s ps r
    → Counted s (if b then os else ps) (if b then o else r)
if-Counted true s os ps o r h k = h
if-Counted false s os ps o r h k = k

with_ring-Counted :
    (s t : ZcrxServer) (os : List Outcome) (o : Option ZcrxRing)
    → Counted s os (some t)
    → Counted s os (with_ring t o)
unfolding with_ring
with_ring-Counted s t os none h = tt
with_ring-Counted s t os (some ring) h = h

keep_conn-Counted :
    (s : ZcrxServer) (ev : ZcrxEvent) (fd : ℕ) (o : Option ZcrxRing)
    → Counted s [] (keep_conn s ev fd o)
unfolding keep_conn count_calls
keep_conn-Counted s ev fd none = tt
keep_conn-Counted s ev fd (some ring) = (refl, refl)

accept_conn-Counted : (s : ZcrxServer) (ev : ZcrxEvent) (r : ℤ) → Counted s [] (accept_conn s ev r)
unfolding accept_conn count_calls
accept_conn-Counted s ev (negsuc n) = (refl, refl)
accept_conn-Counted s ev (pos fd) = keep_conn-Counted s ev fd _

accept_again-Counted :
    (s : ZcrxServer) (ev : ZcrxEvent) (o : Option ZcrxServer)
    → Counted s [] o
    → Counted s [] (accept_again ev o)
unfolding accept_again
accept_again-Counted s ev none h = tt
accept_again-Counted s ev (some t) h = either ev.stop
  where
    either :
        (b : Bool)
        → Counted s [] (if b then some t else with_ring t (zcrx_submit_accept t.ring t.listen_fd))
    either true = h
    either false = with_ring-Counted s t [] _ h

drop_conn-Counted :
    (s t : ZcrxServer) (os : List Outcome) (fd : ℕ)
    → Counted s os (some t)
    → Counted s os (some (drop_conn t fd))
unfolding drop_conn
drop_conn-Counted s t os fd h = elim (Bool-cases (has_key fd t.conns)) [
  | inl there ↦ rw (there, drop_conn) h
  | inr absent ↦ rw (absent, drop_conn) h
]

note_end-Counted :
    (s : ZcrxServer) (ev : ZcrxEvent)
    → Counted s (if is_negative ev.cqe.res then refused ∷ [] else []) (some (note_end s ev))
unfolding note_end count_calls count_call
note_end-Counted s ev = elim (Bool-cases (is_negative ev.cqe.res)) [
  | inl bad ↦ rw (bad, note_end) (refl, refl)
  | inr good ↦ rw (good, note_end) (refl, refl)
]

conn_ended-Counted :
    (s : ZcrxServer) (ev : ZcrxEvent) (o : Option ZcrxConn)
    → Counted s
        (if is_recoverable ev then [] else if is_negative ev.cqe.res then refused ∷ [] else [])
        (conn_ended s ev o)
unfolding conn_ended count_calls
conn_ended-Counted s ev none = tt
conn_ended-Counted s ev (some conn) =
    if-Counted (is_recoverable ev) s [] _ _ _ (with_ring-Counted s s [] _ (refl, refl)) (
      drop_conn-Counted s (note_end s ev) (if is_negative ev.cqe.res then refused ∷ [] else [])
        conn.fd (note_end-Counted s ev))

take_server-Counted :
    (s : ZcrxServer) (ev : ZcrxEvent)
    → Counted s
        (if is_positive ev.cqe.res
          then delivered (to_unsigned ev.cqe.res) 1 ∷ notified ∷ []
          else [])
        (some (take_server s ev))
unfolding take_server take_zcrx count_calls count_call
take_server-Counted s ev = elim (Bool-cases (is_positive ev.cqe.res)) [
  | inl arrived ↦ rw (arrived, take_server, take_zcrx) (refl, refl)
  | inr other ↦ rw (other, take_server, take_zcrx) (refl, refl)
]

zcrx_serve-Counted : (s : ZcrxServer) (ev : ZcrxEvent) → Counted s (served_as ev) (zcrx_serve s ev)
unfolding zcrx_serve zcrx_dispatch on_rx count_calls
zcrx_serve-Counted s ev =
    let t = record s { ring = completed s.ring ev } in
    if-Counted (tag_of ev.cqe.user_data == req_accept) s [] _ _ _
      (accept_again-Counted t ev _ (accept_conn-Counted t ev ev.cqe.res))
      (if-Counted (tag_of ev.cqe.user_data == req_rx) s (received_as ev) [] _ (some t)
        (if-Counted (has_more ev) s _ _ _ _ (take_server-Counted t ev) (conn_ended-Counted t ev _))
        (refl, refl))

Counted-trans :
    (s t : ZcrxServer) (os ps : List Outcome) (o : Option ZcrxServer)
    → Counted s os (some t)
    → Counted t ps o
    → Counted s (os ++ ps) o
Counted-trans s t os ps none h k = tt
Counted-trans s t os ps (some u) (same, h) (kept, k) = (
  kept ∙ same,
  k
      ∙ (λ i. count_calls (h i) (report_all (same i) ps))
      ∙ sym (count_calls-append s.stats (report_all s.thread_id os) (report_all s.thread_id ps))
      ∙ ap (λ l. count_calls s.stats l) (sym (report_all-append s.thread_id os ps)),
)

none-Counted :
    (s : ZcrxServer) (os : List Outcome) (evs : List ZcrxEvent)
    → Counted s os (zcrx_serve_all none evs)
unfolding zcrx_serve_all
none-Counted s os [] = tt
none-Counted s os (ev ∷ evs) = tt

zcrx_serve_all-Counted :
    (s : ZcrxServer) (evs : List ZcrxEvent)
    → Counted s (served_all_as evs) (zcrx_serve_all (some s) evs)
unfolding zcrx_serve_all count_calls
zcrx_serve_all-Counted s [] = (refl, refl)
zcrx_serve_all-Counted s (ev ∷ evs) =
    next (zcrx_serve s ev) (zcrx_serve-Counted s ev) (λ t. zcrx_serve_all-Counted t evs)
  where
    next :
        (o : Option ZcrxServer)
        → Counted s (served_as ev) o
        → ((t : ZcrxServer) → Counted t (served_all_as evs) (zcrx_serve_all (some t) evs))
        → Counted s (served_as ev ++ served_all_as evs) (zcrx_serve_all o evs)
    next none h k = none-Counted s (served_as ev ++ served_all_as evs) evs
    next (some t) h k =
        Counted-trans s t (served_as ev) (served_all_as evs) (zcrx_serve_all (some t) evs) h (k t)

-- A run of the loop that has counted some outcomes where it stops.
abbrev pub Ran : ZcrxServer → List Outcome → ZcrxRun → Type 0
Ran s os (stops t) = Counted s os (some t)
Ran s os (runs t) = Unit
Ran s os faults = Unit

if-Ran :
    (b : Bool) (s : ZcrxServer) (os ps : List Outcome) (o r : ZcrxRun)
    → Ran s os o
    → Ran s ps r
    → Ran s (if b then os else ps) (if b then o else r)
if-Ran true s os ps o r h k = h
if-Ran false s os ps o r h k = k

Ran-trans :
    (s t : ZcrxServer) (os ps : List Outcome) (r : ZcrxRun)
    → Counted s os (some t)
    → Ran t ps r
    → Ran s (os ++ ps) r
Ran-trans s t os ps (stops u) h k = Counted-trans s t os ps (some u) h k
Ran-trans s t os ps (runs u) h k = tt
Ran-trans s t os ps faults h k = tt

pub zcrx_loop-Ran :
    (s : ZcrxServer) (ts : List ZcrxTurn) → Ran s (turns_as ts) (zcrx_loop (some s) ts)
unfolding zcrx_loop count_calls
zcrx_loop-Ran s [] = tt
zcrx_loop-Ran s (t ∷ ts) =
    let u = record s { advanced = s.advanced + length t.ready } in
    if-Ran t.stop s [] _ _ _ (refl, refl)
      (if-Ran (wait_failed t) s [] _ _ _ (refl, refl)
        (next (zcrx_serve_all (some u) t.ready) (zcrx_serve_all-Counted u t.ready)
          (λ v. zcrx_loop-Ran v ts)))
  where
    next :
        (o : Option ZcrxServer)
        → Counted s (served_all_as t.ready) o
        → ((v : ZcrxServer) → Ran v (turns_as ts) (zcrx_loop (some v) ts))
        → Ran s (served_all_as t.ready ++ turns_as ts) (zcrx_loop o ts)
    next none h k = tt
    next (some v) h k =
        Ran-trans s v (served_all_as t.ready) (turns_as ts) (zcrx_loop (some v) ts) h (k v)
