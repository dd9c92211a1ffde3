-- ===== src/Net/Good/Slots.antt =====
-- The functions of src/socket.c that look up, take and give back a slot, under the invariant of Net/Good.
use lsocket.Prelude.{
  ℕ, ◌<◌, ◌≡◌, ◌∙◌, inl, inr, ℤ, true, Option, none, some, List, [], ◌∷◌, ◌++◌, arith, lt→ltb,
  Bool-cases, Returns-some,
}
use lsocket.Platform.{err_nosock}
use lsocket.Net.{Net, M, pure, ◌>>=◌, is_invalid, case_of, get_socket, close_socket}
use lsocket.Net.Pool.{first?, IsPool}
use lsocket.Net.Slots.{taken, close_socket-Closed, Closed, Closes}
use lsocket.Net.Good.{bind, IsGood, IsLive, Ends, IsGood-err, live-has, OptLive, ends}

pub get_socket-Ends :
    {max : ℕ} {n : Net} (id : ℕ)
    → IsGood max n
    → id < max
    → Ends max (OptLive max) (get_socket id n)
unfolding get_socket
get_socket-Ends {max} {n} id g b =
    rw (lt→ltb id n.max (rw g.size b)) (elim (Bool-cases (is_invalid (n.sockets id).status)) [
      | inl e ↦ rw e (ends (IsGood-err err_nosock g) tt)
      | inr e ↦ rw e (ends g (record { bound = b; valid = e }))
    ])

pub case_of-Ends :
    {A : Type 0} {max : ℕ} {Q : A → Net → Type 0} (null : M A) (f : ℕ → M A) (o : Option ℕ)
    {n : Net}
    → OptLive max o n
    → Ends max Q (null n)
    → ((i : ℕ) → IsLive max i n → Ends max Q (f i n))
    → Ends max Q (case_of null f o n)
case_of-Ends null f none l a b = a
case_of-Ends null f (some i) l a b = b i l

-- The functions that look a socket up and give `null` when it is not there.
pub with_socket :
    {A : Type 0} {max : ℕ} {Q : A → Net → Type 0} {n : Net} (null : A) (f : ℕ → M A) (id : ℕ)
    → IsGood max n
    → id < max
    → ((m : Net) → Q null m)
    → ((i : ℕ) (m : Net) → IsGood max m → IsLive max i m → Ends max Q (f i m))
    → Ends max Q ((get_socket id >>= case_of (pure null) f) n)
with_socket null f id g b q k =
    bind (get_socket-Ends id g b)
      (λ o m gm om. case_of-Ends (pure null) f o om (ends gm (q m)) (λ i l. k i m gm l))

-- the slot `i` is not in use
abbrev pub Gone : {A : Type 0} → ℕ → A → Net → Type 0
Gone i a n = is_invalid (n.sockets i).status ≡ true

pub Closed-IsGood : {max i : ℕ} {n m : Net} (g : IsGood max n) → Closed n i g.free m → IsGood max m
Closed-IsGood {i = i} g c = record {
  size = c.same_max ∙ g.size;
  sane = c.kept _ g.sane;
  free = g.free ++ i ∷ [];
  pool = c.pool;
  exact = λ o. c.exact (g.exact (c.honest o));
  empty = c.empty g.empty;
}

-- `_close_socket` on a slot in use
pub close_socket-some :
    {max i : ℕ} {n : Net} (g : IsGood max n)
    → IsLive max i n
    → (r : Unit {0} × Net) × (close_socket i n ≡ some r) × Closes n i g.free r
close_socket-some {i = i} {n = n} g l =
    Returns-some (close_socket-Closed n i g.free (rw g.size l.bound) (live-has g l) g.pool)

pub close_socket-Ends :
    {max i : ℕ} {n : Net} → IsGood max n → IsLive max i n → Ends max (Gone i) (close_socket i n)
close_socket-Ends g l =
    let ((u, m), q, c) = close_socket-some g l in rw q (ends (Closed-IsGood g c) c.gone)

-- after `_create_socket` took the slot `i`
pub created-IsGood :
    {max : ℕ} {n : Net} (fd slimit udata protocol : ℤ) (g : IsGood max n) (i : ℕ) (is : List ℕ)
    → IsPool (taken n i fd slimit udata protocol (first? is)) is
    → IsGood max (taken n i fd slimit udata protocol (first? is))
created-IsGood fd slimit udata protocol g i is v = record {
  size = g.size;
  sane = g.sane;
  free = is;
  pool = v;
  exact = λ o j. ground (arith, g.exact o j);
  empty = λ j e. ground (arith, g.empty j);
}
