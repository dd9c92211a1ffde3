-- ===== src/Net/Good.antt =====
-- The invariant of `struct net` in src/socket.c under any kernel that keeps its promises, and the
-- rules by which the operations keep it.
pub mod Slots
use lsocket.Prelude.{
  ℕ, ◌<◌, ◌≡◌, ◌==◌, refl, sym, ◌∙◌, inl, inr, ℤ, Bool, true, false, Option, none, some, List, [],
  ◌∷◌, ◌++◌, arith, lt→ltb, if◌then◌else◌, Bool-cases, Returns-some,
}
use lsocket.Platform.{Answer, Sys, World, is_neg, err_nosock}
use lsocket.Platform.Sane.{AllSane, StaysHonest, KeepsSane}
use lsocket.Net.{
  Net, Socket, M, pure, ◌>>=◌, and_then, put, is_invalid, case_of, get_socket, create_socket,
  close_socket,
}
use lsocket.Net.Pool.{has, first?, IsPool, IsLinked-put}
use lsocket.Net.Exact.{IsExact, IsEmpty}
use lsocket.Platform.Honest.{IsHonest}
use lsocket.Net.Slots.{IsPool-os, taken, create_socket-IsPool, close_socket-Closed, Closed, Closes}

-- The kernel keeps its promises, and the pool has a free list. If the kernel took no more bytes than
-- it was offered, each counter is exact, and no slot that is not in use holds a buffer.
pub record IsGood (max : ℕ) (n : Net) : Type 0 where
  pub size : n.max ≡ max
  pub sane : AllSane max n.os.answers
  pub free : List ℕ
  pub pool : IsPool n free
  pub exact : IsHonest n.os.log → (i : ℕ) → IsExact (n.sockets i)
  pub empty : (i : ℕ) → IsEmpty (n.sockets i)

-- the slot `i` is in use
pub record IsLive (max : ℕ) (i : ℕ) (n : Net) : Type 0 where
  pub bound : i < max
  pub valid : is_invalid (n.sockets i).status ≡ false

-- A run that ends: no assertion failed, the state is good, and `Q` tells what else holds.
pub data Ends {A : Type 0} (max : ℕ) (Q : A → Net → Type 0) : Option (A × Net) → Type 0 where
  ends : {a : A} {n : Net} → IsGood max n → Q a n → Ends max Q (some (a, n))

abbrev pub Any : {A : Type 0} → A → Net → Type 0
Any a n = Unit

abbrev pub StaysLive : {A : Type 0} → ℕ → ℕ → A → Net → Type 0
StaysLive max i a n = IsLive max i n

module _ {A : Type 0} {max : ℕ} {P : A → Net → Type 0} where
  pub bind :
      {B : Type 0} {Q : B → Net → Type 0} {o : Option (A × Net)} {f : A → M B}
      → Ends max P o
      → ((a : A) (n : Net) → IsGood max n → P a n → Ends max Q (f a n))
      → Ends max Q (and_then o f)
  bind (ends g p) k = k _ _ g p

  pub weaken :
      {Q : A → Net → Type 0} {o : Option (A × Net)}
      → Ends max P o
      → ((a : A) (n : Net) → P a n → Q a n)
      → Ends max Q o
  weaken (ends g p) k = ends g (k _ _ p)

pub either :
    {A : Type 0} {max : ℕ} {Q : A → Net → Type 0} (b : Bool) {x y : Option (A × Net)}
    → (b ≡ true → Ends max Q x)
    → (b ≡ false → Ends max Q y)
    → Ends max Q (if b then x else y)
either true p q = p refl
either false p q = q refl

pub IsGood-os :
    {max : ℕ} {n : Net} (w : World)
    → AllSane max w.answers
    → StaysHonest n.os w
    → IsGood max n
    → IsGood max (record n { os = w })
IsGood-os {n} w s k g = record {
  size = g.size;
  sane = s;
  free = g.free;
  pool = IsPool-os n g.free w n.err g.pool;
  exact = λ o. g.exact (k o);
  empty = g.empty;
}

-- A run of a system call from a good state.
pub called :
    {max : ℕ} {n : Net} (f : Sys Answer)
    → KeepsSane max f
    → IsGood max n
    → IsGood max (record n { os = (f n.os).1 })
called {n} f k g = let r = k n.os g.sane in IsGood-os (f n.os).1 r.1 r.2 g

pub IsGood-err : {max : ℕ} {n : Net} (e : ℤ) → IsGood max n → IsGood max (record n { err = e })
IsGood-err {n} e g = record {
  size = g.size;
  sane = g.sane;
  free = g.free;
  pool = IsPool-os n g.free n.os e g.pool;
  exact = g.exact;
  empty = g.empty;
}

-- a slot in use is not on the free list, and holds a descriptor
pub live-has : {max i : ℕ} {n : Net} (g : IsGood max n) → IsLive max i n → has i g.free ≡ false
live-has {i = i} g l = sym (g.pool.free_lem i (rw g.size l.bound)) ∙ l.valid

pub live-fd :
    {max i : ℕ} {n : Net} → IsGood max n → IsLive max i n → is_neg (n.sockets i).fd ≡ false
live-fd {i = i} g l = g.pool.used i (rw g.size l.bound) (live-has g l)

-- `s` may be stored in a slot in use
pub record IsUsed (s : Socket) : Type 0 where
  pub valid : is_invalid s.status ≡ false
  pub fd_lem : is_neg s.fd ≡ false

module _ {max i : ℕ} {n : Net} (s : Socket) (u : IsUsed s) (g : IsGood max n)
    (l : IsLive max i n) where
  pub IsGood-store :
      (IsHonest n.os.log → IsExact s) → IsGood max (record n { sockets = put n.sockets i s })
  IsGood-store x = record {
    size = g.size;
    sane = g.sane;
    free = g.free;
    pool = record {
      starts = g.pool.starts;
      ends = g.pool.ends;
      linked = IsLinked-put n.sockets i s g.free (live-has g l) g.pool.linked;
      unique = g.pool.unique;
      bounded = g.pool.bounded;
      free_lem = λ j b. ground (arith, g.pool.free_lem j, live-has g l, u.valid);
      used = λ j b e. ground (arith, g.pool.used j b, u.fd_lem);
    };
    exact = λ o j. elim (Bool-cases (i == j)) [ inl y ↦ rw y (x o) | inr m ↦ rw m (g.exact o j) ];
    empty = λ j e. ground (arith, g.empty j, u.valid);
  }

  pub IsLive-store : IsLive max i (record n { sockets = put n.sockets i s })
  IsLive-store = record { bound = l.bound; valid = ground (arith, u.valid) }

abbrev pub OptLive : (max : ℕ) → Option ℕ → Net → Type 0
OptLive max none n = Unit
OptLive max (some i) n = IsLive max i n

-- A slot in use stays so when the kernel, the error code or other slots change.
pub IsLive-same :
    {max i : ℕ} {n n' : Net} → n'.sockets i ≡ n.sockets i → IsLive max i n → IsLive max i n'
IsLive-same e l = record { bound = l.bound; valid = rw e l.valid }

-- `bind`, with what the first run gives
pub bind_eq :
    {A B : Type 0} {max : ℕ} {P : A → Net → Type 0} {Q : B → Net → Type 0} {o : Option (A × Net)}
    {f : A → M B}
    → Ends max P o
    → ((a : A) (n : Net) → IsGood max n → P a n → o ≡ some (a, n) → Ends max Q (f a n))
    → Ends max Q (and_then o f)
bind_eq (ends g p) k = k _ _ g p refl
