-- ===== src/Net/Poll/Reported.antt =====
-- The events that the poller reports to `socket_poll` of src/socket.c.
use lsocket.Prelude.{ℕ, zero, suc, ◌≤◌, ◌<◌, ℤ, pos, negsuc, List, [], ◌∷◌, map, length, arith}
use lsocket.Platform.{EpollEvent}
use lsocket.Platform.Sane.{AreBelow}
use lsocket.Epoll.{NpEvent, to_event, first, reported}

-- the events lead to slots of the pool
abbrev pub AreEvents : ℕ → List NpEvent → Type 0
AreEvents max [] = Unit
AreEvents max (e ∷ es) = (e.ud < max) × AreEvents max es

first-AreEvents :
    (max k : ℕ) (es : List EpollEvent) → AreBelow max es → AreEvents max (map to_event (first k es))
unfolding to_event first
first-AreEvents max zero es h = tt
first-AreEvents max (suc k) [] h = tt
first-AreEvents max (suc k) (e ∷ es) h = (h.0, first-AreEvents max k es h.1)

pub reported-AreEvents :
    (max : ℕ) (es : List EpollEvent) (ret : ℤ) → AreBelow max es → AreEvents max (reported es ret)
unfolding reported
reported-AreEvents max es (pos n) h = first-AreEvents max n es h
reported-AreEvents max es (negsuc n) h = tt

pub reported-le : (es : List EpollEvent) (ret : ℤ) → length (reported es ret) ≤ length es
unfolding reported first
reported-le es (negsuc n) = omega arith
reported-le [] (pos zero) = omega arith
reported-le [] (pos (suc n)) = omega arith
reported-le (e ∷ es) (pos zero) = omega arith
reported-le (e ∷ es) (pos (suc n)) = omega (arith, reported-le es (pos n))
