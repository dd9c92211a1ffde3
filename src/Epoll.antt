-- ===== src/Epoll.antt =====
-- src/np_epoll.h: the poller of Linux, over the kernel's `epoll` calls.
use lsocket.Prelude.{
  if◌then◌else◌, int_add, true, Option, none, some, ℕ, suc, ℤ, pos, negsuc, Bool, false, ◌||◌, List,
  [], ◌∷◌, map,
}
use lsocket.Platform.{
  Mask, Op, Call, EpollEvent, Answer, Sys, return, ◌>>=◌, ◌>>◌, sys, is_minus_one, is_zero,
  minus_one,
}

-- `struct np_event`
pub record NpEvent : Type 0 where
  pub ud : ℕ
  pub read : Bool
  pub write : Bool

-- `_op`: the event bits EPOLLIN and EPOLLOUT are set as the mask's two bits are.
unfoldable pub op : Op → (fd : ℤ) (mask : Mask) (ud : ℕ) → Sys Answer
unfolding sys
op o fd mask ud = sys (Call.epoll_ctl o fd mask ud)

unfoldable pub np_add : (fd : ℤ) (mask : Mask) (ud : ℕ) → Sys Answer
unfolding op
np_add fd mask ud = op Op.add fd mask ud

unfoldable pub np_mod : (fd : ℤ) (mask : Mask) (ud : ℕ) → Sys Answer
unfolding op
np_mod fd mask ud = op Op.mod_ fd mask ud

unfoldable pub np_del : (fd : ℤ) → Sys Answer
unfolding op
np_del fd = sys (Call.epoll_ctl Op.del fd (record { rable = false; wable = false }) 0)

-- One round of the loop of `np_poll`: an error or a hang-up counts as writable.
unfoldable pub to_event : EpollEvent → NpEvent
to_event e = record { ud = e.ptr; read = e.epollin; write = e.epollout || e.epollerr || e.epollhup }

unfoldable pub first : ℕ → List EpollEvent → List EpollEvent
first ℕ.zero es = []
first (suc n) [] = []
first (suc n) (e ∷ es) = e ∷ first n es

-- The events that the loop of `np_poll` copies, by what `epoll_wait` returned.
unfoldable pub reported : List EpollEvent → ℤ → List NpEvent
unfolding to_event first
reported es (pos n) = map to_event (first n es)
reported es (negsuc n) = []

-- `np_poll`; the kernel's answer holds what it wrote to the array.
unfoldable pub np_poll : (max : ℕ) (timeout : ℤ) → Sys (List NpEvent)
unfolding sys reported
np_poll max timeout = do a ← sys (Call.epoll_wait max timeout); return (reported a.events a.ret)

-- `np_init` for `max` sockets: the return value and `epoll_fd`, which is not written on a failure
unfoldable pub np_init : (max : ℕ) → Sys (ℤ × Option ℤ)
np_init max = do
  q ← sys (Call.epoll_create (int_add (pos max) (pos 1)))
  if is_minus_one q.ret then return (pos 1, none) else do
    a ← sys (Call.fcntl q.ret false)
    if is_minus_one a.ret then return (pos 1, none) else do
      b ← sys (Call.fcntl q.ret true)
      return (if is_zero b.ret then (pos 0, some q.ret) else (pos 1, none))

-- `np_fini`: the new value of `epoll_fd`
unfoldable pub np_fini : (epoll_fd : ℤ) → Sys ℤ
np_fini epoll_fd =
    if is_minus_one epoll_fd
    then return epoll_fd
    else (do sys (Call.close epoll_fd); return minus_one)
