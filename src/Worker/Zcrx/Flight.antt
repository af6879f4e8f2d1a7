-- ===== src/Worker/Zcrx/Flight.antt =====
-- src/worker.cpp: the connections of `run_server_zcrx` and the receives in the ring, one for each.
use uring_perf.Base.{
  ℕ, ◌+◌, ◌-◌, ◌≤◌, ◌≡◌, refl, sym, ap, ◌∙◌, Bool, true, false, List, [], ◌∷◌, Option, none, some,
  ◌==◌, if◌then◌else◌, arith, Bool-cases, inl, inr,
}
use uring_perf.Worker.Zcrx.{ZcrxConn, tag_of, pointer_of, rx_data, remove_one}
use uring_perf.Worker.Zcrx.Server.{Entry, object_at, has_key, erase_key}
use uring_perf.Worker.Zcrx.Tags.{IsAddress, tag_of-rx_data, pointer_of-rx_data}

abbrev pub count : ℕ → List ℕ → ℕ
count x [] = 0
count x (y ∷ ys) = (if x == y then 1 else 0) + count x ys

-- How many of the connections have u as the user data of their receive.
abbrev pub receives : ℕ → List Entry → ℕ
receives u [] = 0
receives u (e ∷ es) = (if u == rx_data e.ptr then 1 else 0) + receives u es

abbrev pub keys : ℕ → List Entry → ℕ
keys fd [] = 0
keys fd (e ∷ es) = (if fd == e.key then 1 else 0) + keys fd es

-- The keys and the addresses are different, and a key is the descriptor in its object.
abbrev pub IsKept : List Entry → Type 0
IsKept [] = Unit
IsKept (e ∷ es) =
    (e.conn.fd ≡ e.key)
    × IsAddress e.ptr
    × (has_key e.key es ≡ false)
    × (object_at e.ptr es ≡ none)
    × IsKept es

pub count-remove_one :
    (x y : ℕ) (l : List ℕ) → count x (remove_one y l) ≡ count x l - (if x == y then 1 else 0)
count-remove_one x y [] = ground arith
count-remove_one x y (z ∷ l) = ground (arith, count-remove_one x y l)

pub erase_key-new : (fd : ℕ) (es : List Entry) → has_key fd es ≡ false → erase_key fd es ≡ es
unfolding has_key erase_key
erase_key-new fd [] h = refl
erase_key-new fd (e ∷ es) h = ground (arith, erase_key-new fd es)

if-found :
    (b : Bool) (c d : ZcrxConn) (rest : Option ZcrxConn)
    → rest ≡ some c
    → (x : ZcrxConn) × ((if b then some d else rest) ≡ some x)
if-found true c d rest h = (d, refl)
if-found false c d rest h = (c, h)

own_object :
    (u p : ℕ) (c : ZcrxConn) (rest : Option ZcrxConn)
    → IsAddress p
    → u ≡ rx_data p
    → (tag_of u ≡ 2)
      × (u ≡ rx_data (pointer_of u))
      × (x : ZcrxConn) × ((if p == pointer_of u then some c else rest) ≡ some x)
own_object u p c rest addr e =
    let at : pointer_of u ≡ p = ap pointer_of e ∙ pointer_of-rx_data p addr in
    (ap tag_of e ∙ tag_of-rx_data p addr, e ∙ ap rx_data (sym at), c, ground (arith, at))

-- A receive in the ring has a connection.
pub receives-object_at :
    (u : ℕ) (es : List Entry)
    → IsKept es
    → 1 ≤ receives u es
    → (tag_of u ≡ 2)
      × (u ≡ rx_data (pointer_of u))
      × (c : ZcrxConn) × (object_at (pointer_of u) es ≡ some c)
unfolding object_at
receives-object_at u [] k h = absurd (omega (arith, h))
receives-object_at u (e ∷ es) (same, addr, fresh, apart, k) h =
    elim (Bool-cases (u == rx_data e.ptr)) [
      | inl own ↦ own_object u e.ptr e.conn (object_at (pointer_of u) es) addr (ground arith)
      | inr other ↦
          let (tag, at, c, found) = receives-object_at u es k (ground arith) in
          let (x, seen) =
            if-found (e.ptr == pointer_of u) c e.conn (object_at (pointer_of u) es) found in
          (tag, at, x, seen)
    ]

has_key-erase_key :
    (fd x : ℕ) (es : List Entry) → has_key fd es ≡ false → has_key fd (erase_key x es) ≡ false
unfolding has_key erase_key
has_key-erase_key fd x [] h = refl
has_key-erase_key fd x (e ∷ es) h = ground (arith, has_key-erase_key fd x es)

object_at-erase_key :
    (p x : ℕ) (es : List Entry) → object_at p es ≡ none → object_at p (erase_key x es) ≡ none
unfolding object_at erase_key
object_at-erase_key p x [] h = refl
object_at-erase_key p x (e ∷ es) h = ground (arith, object_at-erase_key p x es)

if-IsKept : (b : Bool) (us vs : List Entry) → IsKept us → IsKept vs → IsKept (if b then us else vs)
if-IsKept true us vs h k = h
if-IsKept false us vs h k = k

pub erase_key-IsKept : (x : ℕ) (es : List Entry) → IsKept es → IsKept (erase_key x es)
unfolding erase_key
erase_key-IsKept x [] k = tt
erase_key-IsKept x (e ∷ es) (same, addr, fresh, apart, k) =
    if-IsKept (e.key == x) es (e ∷ erase_key x es) k (
      same,
      addr,
      has_key-erase_key e.key x es fresh,
      object_at-erase_key e.ptr x es apart,
      erase_key-IsKept x es k,
    )

-- Erasing a key that is there takes one from the count of the keys.
pub keys-erase_key :
    (x fd : ℕ) (es : List Entry)
    → has_key x es ≡ true
    → (if fd == x then 1 else 0) + keys fd (erase_key x es) ≡ keys fd es
unfolding has_key erase_key
keys-erase_key x fd [] h = cc
keys-erase_key x fd (e ∷ es) h = ground (arith, keys-erase_key x fd es)

head_found : (p : ℕ) (e : Entry) (es : List Entry) → e.ptr ≡ p → object_at p (e ∷ es) ≡ some e.conn
unfolding object_at
head_found p e es h = ground arith

later_found :
    (p : ℕ) (e : Entry) (es : List Entry)
    → e.ptr == p ≡ false
    → object_at p (e ∷ es) ≡ object_at p es
unfolding object_at
later_found p e es h = ground arith

head_erased :
    (x : ℕ) (e : Entry) (es : List Entry)
    → e.key ≡ x
    → (has_key x (e ∷ es) ≡ true) × (erase_key x (e ∷ es) ≡ es)
unfolding has_key erase_key
head_erased x e es h = ground arith

clash : true ≡ false → ⊥
clash e = cc

later_erased :
    (x : ℕ) (e : Entry) (es : List Entry)
    → has_key e.key es ≡ false
    → has_key x es ≡ true
    → (has_key x (e ∷ es) ≡ true) × (erase_key x (e ∷ es) ≡ e ∷ erase_key x es)
unfolding has_key erase_key
later_erased x e es fresh there = elim (Bool-cases (e.key == x)) [
  | inl same ↦
      let at : e.key ≡ x = ground arith in
      absurd (clash (sym (ap (λ k. has_key k es) at ∙ there) ∙ fresh))
  | inr other ↦ ground arith
]

abbrev fd_of : Option ZcrxConn → ℕ → ℕ
fd_of none d = d
fd_of (some c) d = c.fd

-- The connection of a receive is the one that its descriptor erases.
pub object_at-erases :
    (p : ℕ) (es : List Entry) (c : ZcrxConn)
    → IsKept es
    → object_at p es ≡ some c
    → (has_key c.fd es ≡ true)
      × ((u : ℕ)
          → receives u (erase_key c.fd es) + (if u == rx_data p then 1 else 0) ≡ receives u es)
object_at-erases p [] c k found = unfold object_at in cc
object_at-erases p (e ∷ es) c (same, addr, fresh, apart, k) found = elim (Bool-cases (e.ptr == p)) [
  | inl here ↦
      let at : e.ptr ≡ p = ground arith in
      let fd : e.key ≡ c.fd = sym same ∙ ap (λ o. fd_of o 0) (sym (head_found p e es at) ∙ found) in
      let (has, gone) = head_erased c.fd e es fd in (has, λ u. rw (gone, at) (omega arith))
  | inr there ↦
      let (has, counts) = object_at-erases p es c k (sym (later_found p e es there) ∙ found) in
      let (has', gone) = later_erased c.fd e es fresh has in
      (has', λ u. rw gone (omega (arith, counts u)))
]
