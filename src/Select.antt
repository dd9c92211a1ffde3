-- ===== src/Select.antt =====
-- src/np_select.h: the poller over `select`, with its table from descriptors to sockets. An
-- `fd_set` is a function to Bool; the table `ud` is a function, of which the first `cap` entries are
-- memory; `none` in it is NULL. What `select` answers is an argument.
pub mod Table
mod Tests
use lsocket.Prelude.{
  ℕ, zero, suc, ◌+◌, ◌*◌, ◌/◌, ◌%◌, int_add, ℤ, pos, negsuc, ltb_ℤ, Bool, true, false, ◌&&◌, ◌||◌,
  Option, none, some, List, [], ◌∷◌, ◌++◌, ltb, leb, ◌==◌, if◌then◌else◌,
}
use lsocket.Platform.{Mask, minus_one, is_minus_one}
use lsocket.Epoll.{NpEvent}

-- `struct np_state`
pub record NpState : Type 0 where
  pub cap : ℕ
  pub ud : ℕ → Option ℕ
  pub maxfd : ℤ
  pub rfds : ℕ → Bool
  pub wfds : ℕ → Bool

-- `while (cap <= maxfd) cap *= 2`, for `fuel` rounds at most
pub double_cap : (fuel cap maxfd : ℕ) → ℕ
double_cap zero cap maxfd = cap
double_cap (suc fuel) cap maxfd =
    let rest = double_cap fuel (cap * 2) maxfd in if leb cap maxfd then rest else cap

abbrev pub is_used : Option ℕ → Bool
is_used none = false
is_used (some u) = true

-- `np_init`; the loop `while (cap < max)` is that of `_grow` for `max - 1`.
pub np_init : ℕ → NpState
np_init max = record {
  cap = elim max [ zero ↦ 1 | suc m ↦ double_cap (suc m) 1 m ];
  ud = λ fd. none;
  maxfd = minus_one;
  rfds = λ fd. false;
  wfds = λ fd. false;
}

-- `_grow`
pub grow : NpState → ℕ → NpState
grow np maxfd =
    let cap = double_cap (suc maxfd) np.cap maxfd in
    record np { ud = λ fd. if leb np.cap fd && ltb fd cap then none else np.ud fd; cap = cap }

-- FD_SETSIZE of Linux
abbrev pub fd_setsize : ℕ
fd_setsize = 1024

-- `_isvalid_fd`
abbrev pub is_valid_fd : ℤ → Bool
is_valid_fd (negsuc n) = false
is_valid_fd (pos n) = ltb n fd_setsize

-- FD_SET and FD_CLR
abbrev pub set_bit : (ℕ → Bool) → ℕ → Bool → ℕ → Bool
set_bit fds fd b j = if fd == j then b else fds j

abbrev pub add_bit : (ℕ → Bool) → ℕ → Bool → ℕ → Bool
add_bit fds fd true = set_bit fds fd true
add_bit fds fd false = fds

abbrev pub set_ud : (ℕ → Option ℕ) → ℕ → Option ℕ → ℕ → Option ℕ
set_ud ud fd u j = if fd == j then u else ud j

-- `np->ud[fd] = ud` and the update of `maxfd` in `np_add`
abbrev pub enter : NpState → ℕ → ℕ → NpState
enter np fd u = record np {
  ud = set_ud np.ud fd (some u);
  maxfd = if ltb_ℤ np.maxfd (pos fd) then pos fd else np.maxfd;
}

-- `np_add`, for a valid descriptor
pub add_valid : NpState → (fd : ℕ) (mask : Mask) (ud : ℕ) → NpState
add_valid np fd mask u =
    let np' : NpState = record np {
      rfds = add_bit np.rfds fd mask.rable;
      wfds = add_bit np.wfds fd mask.wable;
    } in
    if mask.rable || mask.wable
    then (if leb np.cap fd then enter (grow np' fd) fd u else enter np' fd u)
    else np'

pub np_add : NpState → (fd : ℤ) (mask : Mask) (ud : ℕ) → ℤ × NpState
np_add np (negsuc n) mask u = (minus_one, np)
np_add np (pos fd) mask u =
    if is_valid_fd (pos fd) then (pos 0, add_valid np fd mask u) else (minus_one, np)

pub mod_valid : NpState → ℕ → Mask → NpState
mod_valid np fd mask = record np {
  rfds = set_bit np.rfds fd mask.rable;
  wfds = set_bit np.wfds fd mask.wable;
}

-- `np_mod`
pub np_mod : NpState → (fd : ℤ) (mask : Mask) → ℤ × NpState
np_mod np (negsuc n) mask = (minus_one, np)
np_mod np (pos fd) mask =
    if is_valid_fd (pos fd) then (pos 0, mod_valid np fd mask) else (minus_one, np)

-- The loop of `np_del`, from `i - 1` down: the greatest descriptor that is used, or -1.
pub last_used : (ℕ → Option ℕ) → (i : ℕ) → ℤ
last_used ud zero = minus_one
last_used ud (suc i) = let rest = last_used ud i in if is_used (ud i) then pos i else rest

abbrev pub is_fd : ℕ → ℤ → Bool
is_fd fd (pos n) = fd == n
is_fd fd (negsuc n) = false

pub del_valid : NpState → ℕ → NpState
del_valid np fd =
    let ud = set_ud np.ud fd none in
    record np {
      rfds = set_bit np.rfds fd false;
      wfds = set_bit np.wfds fd false;
      ud = ud;
      maxfd = if is_fd fd np.maxfd then last_used ud fd else np.maxfd;
    }

-- `np_del`; `none` is its failed assertion.
pub np_del : NpState → (fd : ℤ) → Option (ℤ × NpState)
np_del np (negsuc n) = some (minus_one, np)
np_del np (pos fd) =
    if is_valid_fd (pos fd)
    then (if ltb fd np.cap then some (pos 0, del_valid np fd) else none)
    else some (minus_one, np)

-- what `select` returns, and the sets that it leaves
pub record Selected : Type 0 where
  pub count : ℤ
  pub rtmp : ℕ → Bool
  pub wtmp : ℕ → Bool

pub event_of : Option ℕ → (read write : Bool) → List NpEvent
event_of none read write = []
event_of (some u) read write =
    if read || write then record { ud = u; read = read; write = write } ∷ [] else []

-- The loop of `np_poll`, over `k` descriptors from `i` on.
pub collect : (ℕ → Option ℕ) → Selected → (k i : ℕ) → List NpEvent
collect ud s zero i = []
collect ud s (suc k) i = event_of (ud i) (s.rtmp i) (s.wtmp i) ++ collect ud s k (i + 1)

-- `np_poll`
pub np_poll : NpState → Selected → List NpEvent
np_poll np s = elim np.maxfd [
  | negsuc n ↦ []
  | pos m ↦ if ltb_ℤ (pos 0) s.count then collect np.ud s (m + 1) 0 else []
]

-- `struct timeval`
pub record Timeval : Type 0 where
  pub tv_sec : ℕ
  pub tv_usec : ℕ

-- The timeout in milliseconds; NULL, which is `none`, waits for ever.
pub timeval_of : ℤ → Option Timeval
timeval_of (pos t) = some (record { tv_sec = t / 1000; tv_usec = t % 1000 * 1000 })
timeval_of (negsuc t) = none

-- `np_poll` with its call of `select`, which is an argument.
pub np_poll_by :
    (select : (nfds : ℤ) (rtmp wtmp : ℕ → Bool) (tv : Option Timeval) → Selected) (np : NpState)
    (timeout : ℤ)
    → List NpEvent
np_poll_by select np timeout =
    np_poll np (select (int_add np.maxfd (pos 1)) np.rfds np.wfds (timeval_of timeout))

-- `np_fini`; the table is freed, and `maxfd` is 0 in the end.
pub np_fini : NpState → NpState
np_fini np = record np { ud = λ fd. none; rfds = λ fd. false; wfds = λ fd. false; maxfd = pos 0 }
