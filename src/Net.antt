-- ===== src/Net.antt =====
-- The state of src/socket.c, `struct net`, and the operations on its pool of sockets.
-- The array of sockets is a function from indices; a `struct socket *` is an index. A failed `assert`
-- is `none`. The queue of a socket is the list from `head` to `tail`.
pub mod State
pub mod Exact
pub mod Pool
pub mod Slots
pub mod Good
pub mod Subscribe
pub mod Life
pub mod Poll
pub mod Receive
pub mod Open
pub mod Send
pub mod Api
pub mod Address
mod Tests
pub mod Kernels
pub mod Trace
pub mod Create
pub mod Start
pub use State.*
use lsocket.Prelude.{
  ℕ, zero, suc, ◌+◌, ◌-◌, ◌^◌, ℤ, pos, negsuc, ltb_ℤ, Bool, true, false, not, ◌&&◌, ◌||◌, Option,
  none, some, List, [], ◌∷◌, ltb, ◌==◌, if◌then◌else◌,
}
use lsocket.Platform.{
  minus_one, err_nosock, Mask, World, Sys, Call, is_neg, is_minus_one, socket_close, Answer,
  Control,
}
use lsocket.Epoll.{np_add, np_mod, np_del}

-- `_socket`: the index, unless the slot is not in use; an `id` out of range fails the assertion.
pub get_socket : ℕ → M (Option ℕ)
get_socket id n =
    if ltb id n.max
    then (if is_invalid (n.sockets id).status
        then some (none, record n { err = err_nosock })
        else some (some id, n))
    else none

abbrev pub is_zero_ret : ℤ → Bool
is_zero_ret (pos zero) = true
is_zero_ret _ = false

-- what a function returns that made no call, or whose call succeeded
abbrev pub success : Answer
success = record {
  ret = pos 0;
  errno = 0;
  buf = [];
  truncated = false;
  control = Control.no_fd;
  events = [];
}

-- the choice of `_subscribe` between the calls of the poller
pub change : Socket → ℕ → Mask → Sys Answer
change s i mask =
    if is_empty mask
    then np_del s.fd
    else if is_empty s.mask
    then np_add s.fd mask i
    else np_mod s.fd mask i

-- `_subscribe`: the answer of the poller, whose `ret` is what the code returns.
pub subscribe : ℕ → Mask → M Answer
subscribe i mask = do
  s ← load i
  if same_mask mask s.mask then pure success else do
    result ← call (change s i mask)
    (if is_zero_ret result.ret then store i (record s { mask = mask }) else pure tt)
    pure result

-- `_alloc_sockets`: each free slot holds the index of the next one in `fd`, the last one -1. The
-- fields `protocol` and `rbuffersz` are left as `malloc` gives them: the argument `junk`.
pub alloc_sockets : (max : ℕ) (junk : ℕ → Socket) → ℕ → Socket
alloc_sockets max junk i = record (junk i) {
  fd = if i + 1 == max then minus_one else pos (i + 1);
  status = Status.invalid;
  mask = no_mask;
  udata = minus_one;
  head = [];
  slimit = pos 0;
  rlimit = pos 0;
  sbuffersz = pos 0;
}

-- The range check of `_create_socket`; protocols are LS_PROTOCOL_TCP 0, UDP 1 and IPC 2.
pub protocol_of : ℤ → Protocol
protocol_of (negsuc n) = Protocol.tcp
protocol_of (pos zero) = Protocol.tcp
protocol_of (pos (suc zero)) = Protocol.udp
protocol_of (pos (suc (suc zero))) = Protocol.ipc
protocol_of (pos (suc (suc (suc n)))) = Protocol.tcp

-- The slot that the index in `fd` of a free slot leads to.
abbrev pub next_free : ℤ → Option ℕ
next_free (pos i) = some i
next_free (negsuc n) = none

abbrev pub limit_of : ℤ → ℤ
limit_of slimit = if ltb_ℤ (pos 0) slimit then slimit else int_max

-- what `_create_socket` writes to the slot
abbrev pub opened : Socket → (fd : ℤ) (slimit udata : ℤ) → Protocol → Socket
opened s fd slimit udata protocol = record s {
  fd = fd;
  protocol = protocol;
  status = Status.suspend;
  mask = no_mask;
  udata = udata;
  head = [];
  sbuffersz = pos 0;
  rbuffersz = rbuffer_sz;
  slimit = limit_of slimit;
}

-- `_create_socket`
pub create_socket : (fd slimit udata protocol : ℤ) → M (Option ℕ)
create_socket fd slimit udata protocol n = if is_neg fd then none else elim n.free_socket [
  | none ↦ some (none, n)
  | some i ↦ some (
    some i,
    record n {
      sockets = put n.sockets i (opened (n.sockets i) fd slimit udata (protocol_of protocol));
      free_socket = next_free (n.sockets i).fd;
    },
  )
]

-- The end of `_close_socket`: the slot goes to the end of the free list.
pub append_free : ℕ → M (Unit {0})
append_free i n = elim n.free_socket [
  | none ↦ some (tt, record n { free_socket = some i; tail_socket = some i })
  | some f ↦ elim n.tail_socket [
    | none ↦ none
    | some t ↦
        if is_minus_one (n.sockets t).fd
        then some (
          tt,
          record n {
            sockets = put n.sockets t (record (n.sockets t) { fd = pos i });
            tail_socket = some i;
          },
        )
        else none
  ]
]

-- what `_close_socket` writes to the slot
abbrev pub closed : Socket → Socket
closed s = record s {
  fd = minus_one;
  status = Status.invalid;
  udata = pos 0;
  head = [];
  sbuffersz = pos 0;
}

-- `_close_socket`. The descriptors 0, 1 and 2 are not closed.
pub close_socket : ℕ → M (Unit {0})
close_socket i = do
  s ← load i
  if is_neg s.fd then pure tt else do
    (if ltb_ℤ (pos 2) s.fd then call (socket_close s.fd) else pure success)
    store i (closed s)
    append_free i

-- `socket_close`: 0 for closed or not there, 1 for half closed
pub close : (id : ℕ) (force : Bool) → M ℤ
close id force =
    get_socket id
    >>= case_of (pure (pos 0)) λ i. do
      s ← load i
      if force || is_nil s.head
          then (do close_socket i; pure (pos 0))
          else (do store i (record s { status = Status.halfclose }); pure (pos 1))

-- `socket_enableread`: 1 if there is no such socket
pub enable_read : (id : ℕ) (read : Bool) → M ℤ
enable_read id read =
    get_socket id
    >>= case_of (pure (pos 1)) λ i. do
      s ← load i
      result ← subscribe i (record { rable = read; wable = s.mask.wable })
      pure result.ret

-- `socket_udata`
pub set_udata : (id : ℕ) (udata : ℤ) → M ℤ
set_udata id udata =
    get_socket id
    >>= case_of (pure (pos 1))
        λ i. do s ← load i; store i (record s { udata = udata }); pure (pos 0)

-- `socket_limit`
pub limit : (id : ℕ) (slimit rlimit : ℤ) → M ℤ
limit id slimit rlimit =
    get_socket id
    >>= case_of (pure (pos 1)) λ i. do
      s ← load i
      store i (
          if ltb_ℤ (pos 0) rlimit
          then record s { slimit = limit_of slimit; rlimit = rlimit; rbuffersz = rlimit }
          else record s { slimit = limit_of slimit; rlimit = pos 0 })
      pure (pos 0)

-- `socket_fd`: SOCKET_INVALID, which is -1, if there is no such socket
pub socket_fd : ℕ → M ℤ
socket_fd id = get_socket id >>= λ found. elim found [
  | none ↦ pure minus_one
  | some i ↦ do s ← load i; pure s.fd
]

-- `socket_lasterrno`
pub last_errno : M ℤ
last_errno n = some (n.err, n)

-- `if (max <= 0) max = 1`
abbrev pub size_of : ℤ → ℕ
size_of (negsuc n) = 1
size_of (pos zero) = 1
size_of (pos (suc n)) = suc n

-- `net_create`, when `np_init` succeeds; `os` is the kernel after it.
pub net_create : (max : ℤ) (os : World) (junk : ℕ → Socket) → Net
net_create max os junk = record {
  os = os;
  max = size_of max;
  err = pos 0;
  sockets = alloc_sockets (size_of max) junk;
  free_socket = some 0;
  tail_socket = some (size_of max - 1);
}

-- The loop of `net_free`, over the `k` sockets from `i` on.
pub close_opened : (k i : ℕ) → M (Unit {0})
close_opened zero i = pure tt
close_opened (suc k) i = do
  s ← load i
  (if is_invalid s.status then pure tt else close_socket i)
  close_opened k (i + 1)

-- `net_free`, up to the `free` of the arrays and `np_fini`
pub net_free : M (Unit {0})
net_free n = close_opened n.max 0 n
