-- ===== src/Net/Pool.antt =====
-- The free list of the pool in src/socket.c, and the invariant of the pool.
use lsocket.Prelude.{
  ℕ, ◌<◌, ◌≡◌, refl, pos, Bool, true, false, ◌||◌, Option, none, some, List, [], ◌∷◌, ◌++◌, arith,
  ◌==◌,
}
use lsocket.Platform.{minus_one, is_neg}
use lsocket.Net.{Net, Socket, put, is_invalid}

abbrev pub has : ℕ → List ℕ → Bool
has i [] = false
has i (j ∷ js) = j == i || has i js

abbrev pub IsUnique : List ℕ → Type 0
IsUnique [] = Unit
IsUnique (i ∷ is) = (has i is ≡ false) × IsUnique is

abbrev pub first? : List ℕ → Option ℕ
first? [] = none
first? (i ∷ is) = some i

-- the last index, if there is one, is `t`
abbrev pub IsLast : Option ℕ → List ℕ → Type 0
IsLast t [] = Unit
IsLast t (i ∷ []) = t ≡ some i
IsLast t (i ∷ j ∷ is) = IsLast t (j ∷ is)

-- From each free slot the `fd` leads to the next one, and the last one holds -1.
abbrev pub IsLinked : (ℕ → Socket) → List ℕ → Type 0
IsLinked f [] = Unit
IsLinked f (i ∷ []) = (f i).fd ≡ minus_one
IsLinked f (i ∷ j ∷ is) = ((f i).fd ≡ pos j) × IsLinked f (j ∷ is)

-- `free` are the free slots, from the one that is handed out next to the one that was freed last;
-- all other slots are in use and hold a descriptor.
pub record IsPool (n : Net) (free : List ℕ) : Type 0 where
  pub starts : n.free_socket ≡ first? free
  pub ends : IsLast n.tail_socket free
  pub linked : IsLinked n.sockets free
  pub unique : IsUnique free
  pub bounded : (i : ℕ) → has i free ≡ true → i < n.max
  pub free_lem : (i : ℕ) → i < n.max → is_invalid (n.sockets i).status ≡ has i free
  pub used : (i : ℕ) → i < n.max → has i free ≡ false → is_neg (n.sockets i).fd ≡ false

pub has-append : (i : ℕ) (is js : List ℕ) → has i (is ++ js) ≡ (has i is || has i js)
has-append i [] js = refl
has-append i (k ∷ is) js = ground (arith, has-append i is js)

pub IsLinked-put :
    (f : ℕ → Socket) (k : ℕ) (s : Socket) (is : List ℕ)
    → has k is ≡ false
    → IsLinked f is
    → IsLinked (put f k s) is
IsLinked-put f k s [] h l = tt
IsLinked-put f k s (i ∷ []) h l = ground arith
IsLinked-put f k s (i ∷ j ∷ is) h l = (ground arith, IsLinked-put f k s (j ∷ is) (ground arith) l.1)

pub IsUnique-snoc : (i : ℕ) (is : List ℕ) → IsUnique is → has i is ≡ false → IsUnique (is ++ i ∷ [])
IsUnique-snoc i [] u h = (refl, tt)
IsUnique-snoc i (j ∷ is) u h =
    (ground (arith, has-append j is (i ∷ [])), IsUnique-snoc i is u.1 (ground arith))

pub IsLast-snoc : (i : ℕ) (is : List ℕ) → IsLast (some i) (is ++ i ∷ [])
IsLast-snoc i [] = refl
IsLast-snoc i (j ∷ []) = refl
IsLast-snoc i (j ∷ k ∷ is) = IsLast-snoc i (k ∷ is)

pub has-last : (t : ℕ) (i : ℕ) (is : List ℕ) → IsLast (some t) (i ∷ is) → has t (i ∷ is) ≡ true
has-last t i [] h = ground arith
has-last t i (j ∷ is) h = ground (arith, has-last t j is h)

pub last-fd :
    (f : ℕ → Socket) (t i : ℕ) (is : List ℕ)
    → IsLast (some t) (i ∷ is)
    → IsLinked f (i ∷ is)
    → (f t).fd ≡ minus_one
last-fd f t i [] h l = let e : t ≡ i = ground arith in rw e l
last-fd f t i (j ∷ is) h l = last-fd f t j is h l.1

-- Appending a slot to the chain: the old last slot leads to it.
pub IsLinked-snoc :
    (f : ℕ → Socket) (s e : Socket) (t k i : ℕ) (is : List ℕ)
    → IsLast (some t) (i ∷ is)
    → IsUnique (i ∷ is)
    → has k (i ∷ is) ≡ false
    → s.fd ≡ pos k
    → e.fd ≡ minus_one
    → IsLinked f (i ∷ is)
    → IsLinked (put (put f k e) t s) ((i ∷ is) ++ k ∷ [])
IsLinked-snoc f s e t k i [] h u out x y l = ground arith
IsLinked-snoc f s e t k i (j ∷ is) h u out x y l =
    (ground (arith, has-last t j is h), IsLinked-snoc f s e t k j is h u.1 (ground arith) x y l.1)
