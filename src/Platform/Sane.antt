-- ===== src/Platform/Sane.antt =====
-- What the system calls of src/socket.c rely on of the kernel: a call returns -1 or a number that is
-- not negative, and `epoll_wait` gives back at most `max` pointers that it was given, to one of `max` sockets.
use lsocket.Prelude.{
  length, ◌≤◌, arith, ℕ, ◌<◌, ◌≡◌, refl, ℤ, true, false, List, [], ◌∷◌, inl, inr, Bool-cases,
}
use lsocket.Platform.Honest.{IsHonest}
use lsocket.Platform.{
  Answer, EpollEvent, World, Call, Sys, is_neg, is_minus_one, sys, retry, retry_from, interrupted,
  bad, keepalive, socket_close, nonblocking, closeonexec, reuseaddr, flagged,
}

abbrev pub AreBelow : ℕ → List EpollEvent → Type 0
AreBelow max [] = Unit
AreBelow max (e ∷ es) = (e.ptr < max) × AreBelow max es

pub record IsSane (max : ℕ) (a : Answer) : Type 0 where
  pub ret_lem : is_neg a.ret ≡ true → is_minus_one a.ret ≡ true
  pub events_lem : AreBelow max a.events
  pub count_lem : length a.events ≤ max

abbrev pub AllSane : ℕ → List Answer → Type 0
AllSane max [] = Unit
AllSane max (a ∷ as') = IsSane max a × AllSane max as'

-- If the calls of a log are honest, those of the other one are, which was extended to it.
abbrev pub StaysHonest : World → World → Type 0
StaysHonest w w' = IsHonest w'.log → IsHonest w.log

-- a call that gives a sane answer, if all are sane, and adds to the log
abbrev pub KeepsSane : ℕ → Sys Answer → Type 0
KeepsSane max m =
    (w : World)
    → AllSane max w.answers
    → IsSane max (m w).0 × AllSane max (m w).1.answers × StaysHonest w (m w).1

bad-IsSane : (max : ℕ) → IsSane max bad
bad-IsSane max = record { ret_lem = λ e. refl; events_lem = tt; count_lem = omega arith }

pub sys-KeepsSane : (max : ℕ) (c : Call) → KeepsSane max (sys c)
unfolding sys
sys-KeepsSane max c w h = at w.answers w.log h
  where
    at :
        (as' : List Answer) (log : List (Call × Answer))
        → AllSane max as'
        → let r = sys c (record { answers = as'; log = log }) in
          IsSane max r.0 × AllSane max r.1.answers × (IsHonest r.1.log → IsHonest log)
    at [] log h = (bad-IsSane max, tt, λ o. o.1)
    at (a ∷ as') log h = (h.0, h.1, λ o. o.1)

pub retry-KeepsSane : (max : ℕ) (c : Call) → KeepsSane max (retry c)
unfolding retry
retry-KeepsSane max c w h = at w.answers w.log h
  where
    at :
        (as' : List Answer) (log : List (Call × Answer))
        → AllSane max as'
        → let r = retry_from as' c log in
          IsSane max r.0 × AllSane max r.1.answers × (IsHonest r.1.log → IsHonest log)
    at [] log h = (bad-IsSane max, tt, λ o. o.1)
    at (a ∷ as') log h = elim (Bool-cases (interrupted a)) [
      | inl y ↦ let (q, r, k) = at as' ((c, a) ∷ log) h.1 in rw y (q, r, λ o. (k o).1)
      | inr n ↦ rw n (h.0, h.1, λ o. o.1)
    ]

flagged-KeepsSane : (max : ℕ) (fd : ℤ) → KeepsSane max (flagged fd)
unfolding flagged
flagged-KeepsSane max fd w h =
    let g = sys-KeepsSane max (Call.fcntl fd false) w h in
    elim (Bool-cases (is_minus_one (sys (Call.fcntl fd false) w).0.ret)) [
      | inl y ↦ rw y g
      | inr n ↦
          let k = sys-KeepsSane max (Call.fcntl fd true) _ g.1 in rw n (k.0, k.1, λ o. g.2 (k.2 o))
    ]

pub nonblocking-KeepsSane : (max : ℕ) (fd : ℤ) → KeepsSane max (nonblocking fd)
unfolding nonblocking
nonblocking-KeepsSane max fd = flagged-KeepsSane max fd

pub closeonexec-KeepsSane : (max : ℕ) (fd : ℤ) → KeepsSane max (closeonexec fd)
unfolding closeonexec
closeonexec-KeepsSane max fd = flagged-KeepsSane max fd

pub keepalive-KeepsSane : (max : ℕ) (fd : ℤ) → KeepsSane max (keepalive fd)
unfolding keepalive
keepalive-KeepsSane max fd = sys-KeepsSane max (Call.setsockopt fd)

pub reuseaddr-KeepsSane : (max : ℕ) (fd : ℤ) → KeepsSane max (reuseaddr fd)
unfolding reuseaddr
reuseaddr-KeepsSane max fd = sys-KeepsSane max (Call.setsockopt fd)

pub socket_close-KeepsSane : (max : ℕ) (fd : ℤ) → KeepsSane max (socket_close fd)
unfolding socket_close
socket_close-KeepsSane max fd = sys-KeepsSane max (Call.close fd)

-- This needs nothing of the answers.
sys-honest : (c : Call) (w : World) → StaysHonest w (sys c w).1
unfolding sys
sys-honest c w = at w.answers w.log
  where
    at :
        (as' : List Answer) (log : List (Call × Answer))
        → IsHonest (sys c (record { answers = as'; log = log })).1.log
        → IsHonest log
    at [] log o = o.1
    at (a ∷ as') log o = o.1

pub socket_close-honest : (fd : ℤ) (w : World) → StaysHonest w (socket_close fd w).1
unfolding socket_close
socket_close-honest fd = sys-honest (Call.close fd)

-- A call that does not fail is made once.
pub retry-done :
    (a : Answer) (as' : List Answer) (log : List (Call × Answer)) (c : Call)
    → is_neg a.ret ≡ false
    → retry c (record { answers = a ∷ as'; log = log })
      ≡ (a, record { answers = as'; log = (c, a) ∷ log })
unfolding retry
retry-done a as' log c e = rw e refl
