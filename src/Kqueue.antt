-- ===== src/Kqueue.antt =====
-- src/np_kqueue.h: the poller of the BSDs. The kernel is the section's parameter: what `kevent` does
-- with one change, and what it reports.
pub mod Laws
mod Tests
use lsocket.Prelude.{
  ℕ, zero, suc, ◌+◌, ◌*◌, ◌/◌, ◌%◌, ℤ, pos, negsuc, Bool, true, false, Option, none, some, List, [],
  ◌∷◌, map, if◌then◌else◌,
}
use lsocket.Platform.{minus_one, is_minus_one, Mask, Call, Sys, return, ◌>>=◌, ◌>>◌, sys, is_zero}
use lsocket.Epoll.{NpEvent}

-- EVFILT_READ and EVFILT_WRITE
pub data Filter : Type 0 where
  reads writes : Filter

-- EV_ADD, EV_DELETE and EV_DISABLE; the code uses no other flag.
pub data Flag : Type 0 where
  add delete disable : Flag

-- A `struct kevent` that asks for a change. `none` in `udata` is NULL.
pub record Change : Type 0 where
  pub ident : ℤ
  pub filter : Filter
  pub flags : Flag
  pub udata : Option ℕ

-- A `struct kevent` that the kernel reports, with its `udata` and `filter`.
pub record Fired : Type 0 where
  pub fired_ud : ℕ
  pub fired_filter : Filter

-- `struct timespec`
pub record Timespec : Type 0 where
  pub tv_sec : ℕ
  pub tv_nsec : ℕ

-- The kernel's queue: its state, `kevent` with one change and no room for events, and `kevent` with
-- no change, which waits.
pub record Kernel (K : Type 0) : Type 0 where
  pub kevent : Change → K → ℤ × K
  pub wait : (max : ℕ) → Option Timespec → K → (ℤ × List Fired) × K

-- `np_init`: the return value and `kqueue_fd`, which is not written on a failure
pub np_init : Sys (ℤ × Option ℤ)
np_init = do
  q ← sys Call.kqueue
  if is_minus_one q.ret then return (pos 1, none) else do
    a ← sys (Call.fcntl q.ret false)
    if is_minus_one a.ret then return (pos 1, none) else do
      b ← sys (Call.fcntl q.ret true)
      return (if is_zero b.ret then (pos 0, some q.ret) else (pos 1, none))

-- `np_fini`: the new value of `kqueue_fd`
pub np_fini : (kqueue_fd : ℤ) → Sys ℤ
np_fini kqueue_fd =
    if is_minus_one kqueue_fd
    then return kqueue_fd
    else (do sys (Call.close kqueue_fd); return minus_one)

-- The timeout in milliseconds as a `struct timespec`; NULL, which is `none`, waits for ever.
pub timespec_of : ℤ → Option Timespec
timespec_of (pos t) = some (record { tv_sec = t / 1000; tv_nsec = t % 1000 * 1000000 })
timespec_of (negsuc t) = none

pub is_reads : Filter → Bool
is_reads Filter.reads = true
is_reads Filter.writes = false

pub is_writes : Filter → Bool
is_writes Filter.reads = false
is_writes Filter.writes = true

-- One round of the loop of `np_poll`.
pub to_event : Fired → NpEvent
to_event e = record {
  ud = e.fired_ud;
  read = is_reads e.fired_filter;
  write = is_writes e.fired_filter;
}

-- The loop of `np_poll`: the first `n` entries of the array.
pub copy_events : ℕ → List Fired → List NpEvent
copy_events zero es = []
copy_events (suc n) [] = []
copy_events (suc n) (e ∷ es) = to_event e ∷ copy_events n es

pub copied : ℤ → List Fired → List NpEvent
copied (pos n) es = copy_events n es
copied (negsuc n) es = []

module _ {K : Type 0} (kernel : Kernel K) where
  -- `EV_SET` and `kevent` for one change
  abbrev pub request : (fd : ℤ) → Filter → Flag → Option ℕ → K → ℤ × K
  request fd f flags ud =
      kernel.kevent (record { ident = fd; filter = f; flags = flags; udata = ud })

  -- `np_del`
  pub np_del : (fd : ℤ) → K → ℤ × K
  np_del fd k =
      let (a, k1) = request fd Filter.reads Flag.delete none k in
      let (b, k2) = request fd Filter.writes Flag.delete none k1 in (pos 0, k2)

  -- The calls that `np_add` makes to disable a filter, if the mask does not have its bit: 0 for
  -- none needed.
  abbrev pub disable_unless : Bool → (fd : ℤ) → Filter → (ud : ℕ) → K → ℤ × K
  disable_unless bit fd f ud k = if bit then (pos 0, k) else request fd f Flag.disable (some ud) k

  -- The part of `np_add` behind the two additions.
  pub np_add_disable : (fd : ℤ) (mask : Mask) (ud : ℕ) → K → ℤ × K
  np_add_disable fd mask ud k =
      let (a, k1) = disable_unless mask.wable fd Filter.writes ud k in
      if is_minus_one a
      then (minus_one, (np_del fd k1).1)
      else (let (b, k2) = disable_unless mask.rable fd Filter.reads ud k1 in
          if is_minus_one b then (minus_one, (np_del fd k2).1) else (pos 0, k2))

  -- `np_add`
  pub np_add : (fd : ℤ) (mask : Mask) (ud : ℕ) → K → ℤ × K
  np_add fd mask ud k =
      let (a, k1) = request fd Filter.reads Flag.add (some ud) k in
      if is_minus_one a
      then (minus_one, k1)
      else (let (b, k2) = request fd Filter.writes Flag.add (some ud) k1 in
          if is_minus_one b
          then (minus_one, (request fd Filter.reads Flag.delete none k2).1)
          else np_add_disable fd mask ud k2)

  -- `np_mod`
  pub np_mod : (fd : ℤ) (mask : Mask) (ud : ℕ) → K → ℤ × K
  np_mod fd mask ud k =
      if mask.wable
      then (if mask.rable then (minus_one, k) else request fd Filter.reads Flag.disable (some ud) k)
      else request fd Filter.writes Flag.disable (some ud) k

  -- `np_poll`: the return value, and the events that it wrote
  pub np_poll : (max : ℕ) (timeout : ℤ) → K → (ℤ × List NpEvent) × K
  np_poll max timeout k =
      let ((n, es), k1) = kernel.wait max (timespec_of timeout) k in ((n, copied n es), k1)
