-- ===== src/Net/Start.antt =====
-- The whole of `net_create` and `net_free` of src/socket.c, with the poller that they make and end.
use lsocket.Prelude.{
  ℕ, ◌≡◌, refl, ℤ, pos, int_add, Option, none, some, inl, inr, Bool-cases, if◌then◌else◌, true,
  false,
}
use lsocket.Platform.{World, Call, sys, is_minus_one, is_zero}
use lsocket.Platform.Sane.{AllSane, sys-KeepsSane}
use lsocket.Epoll.{np_init, np_fini}
use lsocket.Net.{Net, Socket, size_of, net_create, net_free}
use lsocket.Net.Good.{IsGood, Ends}
use lsocket.Net.Create.{net_create-IsGood, net_free-Ends}

-- What `net_create` returns: a state and `epoll_fd` of its poller, or NULL, when the kernel is left.
pub data Started : Type 0 where
  null : World → Started
  started : Net → (epoll_fd : ℤ) → Started

abbrev pub with_poller : (max : ℤ) (junk : ℕ → Socket) → Option ℤ → World → Started
with_poller max junk none w = Started.null w
with_poller max junk (some fd) w = Started.started (net_create max w junk) fd

-- `net_create`; `np_init` hands over a descriptor just when it returns 0.
pub start : (max : ℤ) (junk : ℕ → Socket) → World → Started
start max junk w =
    let ((failed, fd), w') = np_init (size_of max) w in
    if is_zero failed then with_poller max junk fd w' else Started.null w'

abbrev pub after_free : (epoll_fd : ℤ) → Option (Unit {0} × Net) → Option World
after_free epoll_fd none = none
after_free epoll_fd (some (u, n)) = some (np_fini epoll_fd n.os).1

-- `net_free`: the kernel that it leaves, or `none` for a failed assertion
pub stop : Started → Option World
stop (Started.null w) = some w
stop (Started.started n epoll_fd) = after_free epoll_fd (net_free n)

-- a result of `net_create` that is NULL or a good state
pub data IsStarted (max : ℕ) : Started → Type 0 where
  is_null : {w : World} → AllSane max w.answers → IsStarted max (Started.null w)
  is_good : {n : Net} {epoll_fd : ℤ} → IsGood max n → IsStarted max (Started.started n epoll_fd)

np_init-AllSane : (m : ℕ) (w : World) → AllSane m w.answers → AllSane m (np_init m w).1.answers
unfolding np_init
np_init-AllSane m w h =
    let c = Call.epoll_create (int_add (pos m) (pos 1)) in
    let q = sys c w in
    let hq = sys-KeepsSane m c w h in
    let a = sys (Call.fcntl q.0.ret false) q.1 in
    let ha = sys-KeepsSane m (Call.fcntl q.0.ret false) q.1 hq.1 in
    let hb = sys-KeepsSane m (Call.fcntl q.0.ret true) a.1 ha.1 in
    elim (Bool-cases (is_minus_one q.0.ret)) [
      | inl y ↦ rw y hq.1
      | inr n ↦
          rw n (elim (Bool-cases (is_minus_one a.0.ret)) [ inl y ↦ rw y ha.1 | inr n ↦ rw n hb.1 ])
    ]

-- `net_create` gives NULL or a good state, under any kernel that keeps its promises.
pub start-IsStarted :
    (max : ℤ) (junk : ℕ → Socket) (w : World)
    → AllSane (size_of max) w.answers
    → IsStarted (size_of max) (start max junk w)
unfolding start
start-IsStarted max junk w h = elim (Bool-cases (is_zero (np_init (size_of max) w).0.0)) [
  | inl y ↦ rw y (at (np_init (size_of max) w).0.1 _ (np_init-AllSane (size_of max) w h))
  | inr n ↦ rw n (IsStarted.is_null (np_init-AllSane (size_of max) w h))
]
  where
    at :
        (fd : Option ℤ) (w : World)
        → AllSane (size_of max) w.answers
        → IsStarted (size_of max) (with_poller max junk fd w)
    at none w h = IsStarted.is_null h
    at (some fd) w h = IsStarted.is_good (net_create-IsGood max w junk h)

freed :
    {max : ℕ} {Q : Unit {0} → Net → Type 0} (epoll_fd : ℤ) (o : Option (Unit {0} × Net))
    → Ends max Q o
    → (w : World) × (after_free epoll_fd o ≡ some w)
freed epoll_fd none h = elim h [ ]
freed epoll_fd (some (u, n)) h = (_, refl)

-- `net_free` of a good state, or of NULL, ends.
pub stop-ends : {max : ℕ} {t : Started} → IsStarted max t → (w : World) × (stop t ≡ some w)
unfolding stop
stop-ends (is_null {w} h) = (w, refl)
stop-ends (is_good {n} {epoll_fd} g) = freed epoll_fd _ (net_free-Ends g)
