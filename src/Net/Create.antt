-- ===== src/Net/Create.antt =====
-- The first and the last pool of src/socket.c: `net_create` and `net_free`.
use lsocket.Prelude.{
  ℕ, zero, suc, ◌+◌, ◌-◌, ◌<◌, ◌≡◌, refl, ap, ℤ, pos, negsuc, true, ◌&&◌, some, List, [], ◌∷◌, inl,
  inr, arith, ltb, leb, Bool-cases, ℕ_discrete,
}
use lsocket.Platform.{World}
use lsocket.Platform.Sane.{AllSane}
use lsocket.Net.{
  Net, Socket, is_invalid, size_of, alloc_sockets, net_create, close_opened, net_free,
}
use lsocket.Net.Pool.{has, IsPool, IsLast, IsLinked, IsUnique, has-append}
use lsocket.Net.Slots.{Closed}
use lsocket.Net.Good.{IsGood, IsLive, Ends, ends}
use lsocket.Net.Good.Slots.{Closed-IsGood, close_socket-some}

-- the `k` indices from `i` on
abbrev pub range : ℕ → ℕ → List ℕ
range i zero = []
range i (suc k) = i ∷ range (i + 1) k

pub has-range : (j i k : ℕ) → has j (range i k) ≡ (leb i j && ltb j (i + k))
has-range j i zero = ground arith
has-range j i (suc k) = ground (arith, has-range j (i + 1) k)

range-IsUnique : (i k : ℕ) → IsUnique (range i k)
range-IsUnique i zero = tt
range-IsUnique i (suc k) = (ground (arith, has-range i (i + 1) k), range-IsUnique (i + 1) k)

range-IsLast : (t i k : ℕ) → t ≡ i + k → IsLast (some t) (range i (suc k))
range-IsLast t i zero e = ap some (omega arith)
range-IsLast t i (suc k) e = range-IsLast t (i + 1) k (omega arith)

alloc_sockets-IsLinked :
    (max : ℕ) (junk : ℕ → Socket) (i k : ℕ)
    → i + k ≡ max
    → IsLinked (alloc_sockets max junk) (range i k)
unfolding alloc_sockets
alloc_sockets-IsLinked max junk i zero e = tt
alloc_sockets-IsLinked max junk i (suc zero) e = ground arith
alloc_sockets-IsLinked max junk i (suc (suc k)) e =
    (ground arith, alloc_sockets-IsLinked max junk (i + 1) (suc k) (omega arith))

alloc_sockets-IsPool :
    (m : ℕ) (os : World) (junk : ℕ → Socket)
    → 0 < m
    → IsPool
        (record {
          os = os;
          max = m;
          err = pos 0;
          sockets = alloc_sockets m junk;
          free_socket = some 0;
          tail_socket = some (m - 1);
        })
        (range 0 m)
unfolding alloc_sockets
alloc_sockets-IsPool zero os junk b = absurd (omega arith)
alloc_sockets-IsPool (suc k) os junk b = record {
  starts = refl;
  ends = range-IsLast (suc k - 1) 0 k (omega arith);
  linked = alloc_sockets-IsLinked (suc k) junk 0 (suc k) (omega arith);
  unique = range-IsUnique 0 (suc k);
  bounded = λ i e. ground (arith, has-range i 0 (suc k));
  free_lem = λ i b. ground (arith, has-range i 0 (suc k));
  used = λ i b e. ground (arith, has-range i 0 (suc k));
}

size_of-pos : (max : ℤ) → 0 < size_of max
size_of-pos (pos zero) = omega arith
size_of-pos (pos (suc n)) = omega arith
size_of-pos (negsuc n) = omega arith

-- `net_create` makes a pool of at least one slot, in which every slot is free and the slots are
-- handed out in order, whatever `malloc` left in the fields that are not written.
pub net_create-IsPool :
    (max : ℤ) (os : World) (junk : ℕ → Socket)
    → (0 < size_of max) × IsPool (net_create max os junk) (range 0 (size_of max))
unfolding net_create
net_create-IsPool max os junk =
    (size_of-pos max, alloc_sockets-IsPool (size_of max) os junk (size_of-pos max))

pub net_create-IsGood :
    (max : ℤ) (os : World) (junk : ℕ → Socket)
    → AllSane (size_of max) os.answers
    → IsGood (size_of max) (net_create max os junk)
unfolding net_create alloc_sockets
net_create-IsGood max os junk h = record {
  size = refl;
  sane = h;
  free = range 0 (size_of max);
  pool = (net_create-IsPool max os junk).1;
  exact = λ o i. refl;
  empty = λ i e. refl;
}

-- no slot below `i` is in use
abbrev pub AreFree : ℕ → Net → Type 0
AreFree i n = (j : ℕ) → j < i → is_invalid (n.sockets j).status ≡ true

Closed-AreFree :
    {i : ℕ} {n m : Net} (free : List ℕ)
    → i < n.max
    → IsPool n free
    → Closed n i free m
    → AreFree i n
    → AreFree (i + 1) m
Closed-AreFree {i} {n} {m} free lt v c f j b = elim (ℕ_discrete j i) [
  | yes p ↦ rw p c.gone
  | no p ↦ ground (
    arith,
    c.pool.free_lem j (rw c.same_max (omega arith)),
    has-append j free (i ∷ []),
    v.free_lem j (omega arith),
    f j (omega arith),
  )
]

close_opened-Ends :
    (k : ℕ) {max i : ℕ} {n : Net}
    → i + k ≡ max
    → IsGood max n
    → AreFree i n
    → Ends max (λ x m. AreFree max m) (close_opened k i n)
unfolding close_opened
close_opened-Ends zero e g f = ends g (λ j b. f j (omega arith))
close_opened-Ends (suc k) {max} {i} {n} e g f =
    elim (Bool-cases (is_invalid (n.sockets i).status)) [
      | inl y ↦ rw y (
          close_opened-Ends k (omega arith) g
            (λ j b. elim (ℕ_discrete j i) [ yes p ↦ rw p y | no p ↦ f j (omega arith) ]))
      | inr y ↦
          let l : IsLive max i n = record { bound = omega arith; valid = y } in
          let ((u, m), q, c) = close_socket-some g l in
          let g' = Closed-IsGood g c in
          rw (y, q)
            (close_opened-Ends k (omega arith) g'
              (Closed-AreFree g.free (rw g.size l.bound) g.pool c f))
    ]

-- `net_free` ends, and closes every socket that is in use.
pub net_free-Ends :
    {max : ℕ} {n : Net} → IsGood max n → Ends max (λ x m. AreFree max m) (net_free n)
unfolding net_free
net_free-Ends {n = n} g = close_opened-Ends n.max (omega arith) g (λ j b. absurd (omega arith))
