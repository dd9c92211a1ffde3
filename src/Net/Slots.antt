-- ===== src/Net/Slots.antt =====
-- The pool of src/socket.c when `_create_socket` takes a slot and `_close_socket` gives one back.
use lsocket.Prelude.{
  ℕ, ◌<◌, ◌≡◌, ◌≢◌, refl, ℤ, pos, true, false, Option, none, some, List, [], ◌∷◌, ◌++◌, inl, inr,
  arith, Bool-cases, Option-cases, ltb_ℤ, Returns, returns, Returns-mono,
}
use mathlib.Core.List.{tail}
use mathlib.Core.Path.{subst}
use lsocket.Platform.{is_neg, World, socket_close}
use lsocket.Platform.Sane.{AllSane, StaysHonest, socket_close-KeepsSane, socket_close-honest}
use lsocket.Net.Exact.{IsExact, IsEmpty}
use lsocket.Net.{
  Net, put, opened, closed, protocol_of, is_invalid, create_socket, append_free, close_socket,
}
use lsocket.Net.Pool.{
  has, first?, IsLast, IsPool, has-append, IsLinked-put, IsUnique-snoc, IsLast-snoc, has-last,
  last-fd, IsLinked-snoc,
}

-- the state after `_create_socket` took the slot `i`
abbrev pub taken : Net → (i : ℕ) (fd slimit udata protocol : ℤ) → Option ℕ → Net
taken n i fd slimit udata protocol next = record n {
  sockets = put n.sockets i (opened (n.sockets i) fd slimit udata (protocol_of protocol));
  free_socket = next;
}

taken-IsPool :
    (n : Net) (i : ℕ) (is : List ℕ) (fd slimit udata protocol : ℤ)
    → is_neg fd ≡ false
    → IsPool n (i ∷ is)
    → IsPool (taken n i fd slimit udata protocol (first? is)) is
taken-IsPool n i [] fd sl ud pr h v = record {
  starts = refl;
  ends = tt;
  linked = tt;
  unique = tt;
  bounded = λ j e. cc;
  free_lem = λ j lt. ground (arith, v.free_lem j);
  used = λ j lt e. ground (arith, v.used j);
}
taken-IsPool n i (k ∷ is) fd sl ud pr h v = record {
  starts = refl;
  ends = v.ends;
  linked = IsLinked-put n.sockets i _ (k ∷ is) v.unique.0 v.linked.1;
  unique = v.unique.1;
  bounded = λ j e. v.bounded j (ground arith);
  free_lem = λ j lt. ground (arith, v.free_lem j, v.unique.0);
  used = λ j lt e. ground (arith, v.used j);
}

-- the state after `_create_socket` on a pool with the free list `free`
abbrev pub created : Net → List ℕ → (fd slimit udata protocol : ℤ) → Option ℕ × Net
created n [] fd slimit udata protocol = (none, n)
created n (i ∷ is) fd slimit udata protocol =
    (some i, taken n i fd slimit udata protocol (first? is))

-- `_create_socket`, for a descriptor: no assertion fails. It hands out the slot that has been free for
-- longest, with the descriptor and the limits that it was given, or none if no slot is free, and what
-- is left of the free list is the rest of it.
pub create_socket-IsPool :
    (n : Net) (free : List ℕ) (fd slimit udata protocol : ℤ)
    → is_neg fd ≡ false
    → IsPool n free
    → (create_socket fd slimit udata protocol n ≡ some (created n free fd slimit udata protocol))
      × IsPool (created n free fd slimit udata protocol).1 (tail free)
unfolding create_socket
create_socket-IsPool n [] fd sl ud pr h v = (ground (arith, v.starts), v)
create_socket-IsPool n (i ∷ []) fd sl ud pr h v =
    (ground (arith, v.starts, v.linked), taken-IsPool n i [] fd sl ud pr h v)
create_socket-IsPool n (i ∷ j ∷ is) fd sl ud pr h v =
    (ground (arith, v.starts, v.linked.0), taken-IsPool n i (j ∷ is) fd sl ud pr h v)

-- What `_close_socket` leaves: the slot `i` is at the end of the free list, and no other slot in use
-- is changed.
pub record Closed (n : Net) (i : ℕ) (free : List ℕ) (n' : Net) : Type 0 where
  pub pool : IsPool n' (free ++ i ∷ [])
  pub gone : is_invalid (n'.sockets i).status ≡ true
  pub same_max : n'.max ≡ n.max
  pub same_err : n'.err ≡ n.err
  pub kept : (m : ℕ) → AllSane m n.os.answers → AllSane m n'.os.answers
  pub honest : StaysHonest n.os n'.os
  pub exact : ((j : ℕ) → IsExact (n.sockets j)) → (j : ℕ) → IsExact (n'.sockets j)
  pub empty : ((j : ℕ) → IsEmpty (n.sockets j)) → (j : ℕ) → IsEmpty (n'.sockets j)
  pub others : (j : ℕ) → j ≢ i → has j free ≡ false → n'.sockets j ≡ n.sockets j

abbrev pub Closes : Net → ℕ → List ℕ → Unit {0} × Net → Type 0
Closes n i free (_, n') = Closed n i free n'

last-some : (o : Option ℕ) (i : ℕ) (is : List ℕ) → IsLast o (i ∷ is) → (t : ℕ) × (o ≡ some t)
last-some o i [] h = (i, h)
last-some o i (j ∷ is) h = last-some o j is h

module _ (n : Net) (i : ℕ) (lt : i < n.max) where
  abbrev emptied : Net
  emptied = record n { sockets = put n.sockets i (closed (n.sockets i)) }

  append_free-nil : IsPool n [] → Returns (Closes n i []) (append_free i emptied)
  unfolding append_free
  append_free-nil v = rw v.starts (
      returns (record {
        pool = record {
          starts = refl;
          ends = refl;
          linked = ground arith;
          unique = (refl, tt);
          bounded = λ j e. ground arith;
          free_lem = λ j b. ground (arith, v.free_lem j);
          used = λ j b e. ground (arith, v.used j);
        };
        gone = ground arith;
        same_max = refl;
        same_err = refl;
        kept = λ m h. h;
        honest = λ o. o;
        exact = λ h j. ground (arith, h j);
        empty = λ h j e. ground (arith, h j);
        others = λ j ne e. ground arith;
      }))

  module _ (f t : ℕ) (fs : List ℕ) (v : IsPool n (f ∷ fs)) (out : has i (f ∷ fs) ≡ false)
      (q : n.tail_socket ≡ some t) where
    abbrev relinked : Net
    relinked = record emptied {
      sockets = put emptied.sockets t (record (emptied.sockets t) { fd = pos i });
      tail_socket = some i;
    }

    last : IsLast (some t) (f ∷ fs)
    last = subst (λ o. IsLast o (f ∷ fs)) q v.ends

    inside : has t (f ∷ fs) ≡ true
    inside = has-last t f fs last

    append_free-relinked : append_free i emptied ≡ some (tt, relinked)
    unfolding append_free
    append_free-relinked = ground (arith, v.starts, last-fd n.sockets t f fs last v.linked, inside)

    relinked-Closed : Closed n i (f ∷ fs) relinked
    relinked-Closed = record {
      pool = record {
        starts = v.starts;
        ends = IsLast-snoc i (f ∷ fs);
        linked =
            IsLinked-snoc n.sockets (record (emptied.sockets t) { fd = pos i })
              (closed (n.sockets i)) t i f fs last v.unique out refl refl v.linked;
        unique = IsUnique-snoc i (f ∷ fs) v.unique out;
        bounded = λ j e. ground (arith, v.bounded j, has-append j (f ∷ fs) (i ∷ []));
        free_lem = λ j b.
            ground (arith, v.free_lem j, v.free_lem t, has-append j (f ∷ fs) (i ∷ []), inside);
        used = λ j b e. ground (arith, v.used j, has-append j (f ∷ fs) (i ∷ []), inside);
      };
      gone = ground (arith, inside);
      same_max = refl;
      same_err = refl;
      kept = λ m h. h;
      honest = λ o. o;
      exact = λ h j. ground (arith, h j, h t);
      empty = λ h j e. ground (arith, h j, h t);
      others = λ j ne e. ground (arith, inside);
    }

  append_free-Closed :
      (free : List ℕ)
      → IsPool n free
      → has i free ≡ false
      → Returns (Closes n i free) (append_free i emptied)
  append_free-Closed [] v out = append_free-nil v
  append_free-Closed (f ∷ fs) v out =
      let (t, q) = last-some n.tail_socket f fs v.ends in
      rw (append_free-relinked f t fs v out q) (returns (relinked-Closed f t fs v out q))

pub IsPool-os :
    (n : Net) (free : List ℕ) (w : World) (e : ℤ)
    → IsPool n free
    → IsPool (record n { os = w; err = e }) free
IsPool-os n free w e v = record {
  starts = v.starts;
  ends = v.ends;
  linked = v.linked;
  unique = v.unique;
  bounded = v.bounded;
  free_lem = v.free_lem;
  used = v.used;
}

Closed-os :
    (n : Net) (i : ℕ) (free : List ℕ) (w : World)
    → ((m : ℕ) → AllSane m n.os.answers → AllSane m w.answers)
    → StaysHonest n.os w
    → (r : Unit {0} × Net) → Closes (record n { os = w }) i free r
    → Closes n i free r
Closed-os n i free w k o r c = record {
  pool = c.pool;
  gone = c.gone;
  same_max = c.same_max;
  same_err = c.same_err;
  kept = λ m h. c.kept m (k m h);
  honest = λ h. o (c.honest h);
  exact = c.exact;
  empty = c.empty;
  others = c.others;
}

-- `_close_socket` on a slot in use: no assertion fails, the slot is free afterwards and is the last
-- one to be handed out again, and no other slot in use is changed.
pub close_socket-Closed :
    (n : Net) (i : ℕ) (free : List ℕ)
    → i < n.max
    → has i free ≡ false
    → IsPool n free
    → Returns (Closes n i free) (close_socket i n)
unfolding close_socket
close_socket-Closed n i free lt out v =
    rw (v.used i lt out) (elim (Bool-cases (ltb_ℤ (pos 2) (n.sockets i).fd)) [
      | inl big ↦
          let w = (socket_close (n.sockets i).fd n.os).1 in
          rw big (
            Returns-mono
              (append_free-Closed (record n { os = w }) i lt free (IsPool-os n free w n.err v) out)
              (Closed-os n i free w (λ m h. (socket_close-KeepsSane m (n.sockets i).fd n.os h).1)
                (socket_close-honest (n.sockets i).fd n.os)))
      | inr std ↦ rw std (append_free-Closed n i lt free v out)
    ])

-- the error code after a run, or `d` if there is none
abbrev pub err_or : {A : Type 0} → ℤ → Option (A × Net) → ℤ
err_or d none = d
err_or d (some (a, n)) = n.err

-- `_create_socket` leaves the error code alone.
pub create_socket-err :
    (fd slimit udata protocol : ℤ) (n : Net)
    → err_or n.err (create_socket fd slimit udata protocol n) ≡ n.err
unfolding create_socket
create_socket-err fd slimit udata protocol n = elim (Bool-cases (is_neg fd)) [
  | inl y ↦ rw y refl
  | inr m ↦ rw m (elim (Option-cases n.free_socket) [ inl e ↦ rw e refl | inr (i, e) ↦ rw e refl ])
]
