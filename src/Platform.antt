-- ===== src/Platform.antt =====
-- The system calls of src/socket_platform.h and src/socket.c, and the constants of socket_define.h.
-- The kernel is not part of the program: it is the list of the answers that it gives, call by call,
-- and a log of the calls, newest first. When the list is used up, every call fails with EBADF, so
-- each finite run of the kernel is such a list. The constants are those of Linux.
pub mod Honest
pub mod Sane
pub mod Windows
use lsocket.Prelude.{
  ℕ, zero, suc, ℤ, pos, negsuc, Bool, true, false, ◌&&◌, List, [], ◌∷◌, Option, ◌==◌, if◌then◌else◌,
}

abbrev pub minus_one : ℤ
minus_one = negsuc 0

-- LS_ERR_ codes; system error numbers are positive
abbrev pub err_eof : ℤ
err_eof = negsuc 0

abbrev pub err_nosock : ℤ
err_nosock = negsuc 2

abbrev pub err_createsock : ℤ
err_createsock = negsuc 3

abbrev pub err_wbufover : ℤ
err_wbufover = negsuc 4

abbrev pub err_listen : ℤ
err_listen = negsuc 6

abbrev pub err_connect : ℤ
err_connect = negsuc 7

abbrev pub connecting_code : ℤ
connecting_code = negsuc 8

abbrev pub err_trunc : ℤ
err_trunc = negsuc 9

abbrev pub err_cmsgtype : ℤ
err_cmsgtype = negsuc 10

abbrev pub err_status : ℤ
err_status = negsuc 11

abbrev pub eintr : ℕ
eintr = 4

abbrev pub ebadf : ℕ
ebadf = 9

abbrev pub eagain : ℕ
eagain = 11

abbrev pub einprogress : ℕ
einprogress = 115

-- the bits NP_RABLE and NP_WABLE of np.h
pub record Mask : Type 0 where
  pub rable : Bool
  pub wable : Bool

pub data Op : Type 0 where
  add mod_ del : Op

pub data Call : Type 0 where
  close : ℤ → Call
  read : (fd : ℤ) (sz : ℕ) → Call
  write : (fd : ℤ) (bytes : List ℕ) → Call
  sendmsg : (fd : ℤ) (bytes : List ℕ) (cfd : ℤ) → Call
  recvmsg : ℤ → Call
  fcntl : (fd : ℤ) (set : Bool) → Call
  setsockopt : ℤ → Call
  getsockopt : ℤ → Call
  epoll_ctl : Op → (fd : ℤ) (mask : Mask) (ud : ℕ) → Call
  epoll_wait : (max : ℕ) (timeout : ℤ) → Call
  accept bind listen connect : ℤ → Call
  getaddrinfo socket kqueue : Call
  epoll_create : (size : ℤ) → Call
  getpeername : ℤ → Call

-- What `epoll_wait` reports of a descriptor.
pub record EpollEvent : Type 0 where
  pub ptr : ℕ
  pub epollin : Bool
  pub epollout : Bool
  pub epollerr : Bool
  pub epollhup : Bool

-- The control message that `recvmsg` finds: none of that length, a descriptor, or another type.
pub data Control : Type 0 where
  no_fd : Control
  rights : ℤ → Control
  other_type : Control

-- The return value of a call, the error number, and what the call writes to its arguments.
pub record Answer : Type 0 where
  pub ret : ℤ
  pub errno : ℕ
  pub buf : List ℕ
  pub truncated : Bool
  pub control : Control
  pub events : List EpollEvent

pub record World : Type 0 where
  pub answers : List Answer
  pub log : List (Call × Answer)

abbrev pub bad : Answer
bad = record {
  ret = minus_one;
  errno = ebadf;
  buf = [];
  truncated = false;
  control = Control.no_fd;
  events = [];
}

abbrev pub is_neg : ℤ → Bool
is_neg (pos n) = false
is_neg (negsuc n) = true

abbrev pub is_minus_one : ℤ → Bool
is_minus_one (negsuc zero) = true
is_minus_one (negsuc (suc n)) = false
is_minus_one (pos n) = false

abbrev pub is_zero : ℤ → Bool
is_zero (pos zero) = true
is_zero (pos (suc n)) = false
is_zero (negsuc n) = false

abbrev pub Sys : Type 0 → Type 0
Sys A = World → A × World

abbrev pub return : {A : Type 0} → A → Sys A
return a w = (a, w)

infixl 5 ◌>>=◌ ◌>>◌
abbrev pub ◌>>=◌ : {A B : Type 0} → Sys A → (A → Sys B) → Sys B
◌>>=◌ m f w = let (a, w') = m w in f a w'

abbrev pub ◌>>◌ : {A B : Type 0} → Sys A → Sys B → Sys B
m >> k = m >>= λ _. k

unfoldable pub sys : Call → Sys Answer
sys c w = elim w.answers [
  | [] ↦ (bad, record { answers = []; log = (c, bad) ∷ w.log })
  | a ∷ as' ↦ (a, record { answers = as'; log = (c, a) ∷ w.log })
]

abbrev pub interrupted : Answer → Bool
interrupted a = is_neg a.ret && a.errno == eintr

-- `for (;;) { n = call(); if (n < 0 && errno == EINTR) continue; … }`
pub retry_from : List Answer → Call → List (Call × Answer) → Answer × World
retry_from [] c log = (bad, record { answers = []; log = (c, bad) ∷ log })
retry_from (a ∷ as') c log =
    let again = retry_from as' c ((c, a) ∷ log) in
    if interrupted a then again else (a, record { answers = as'; log = (c, a) ∷ log })

unfoldable pub retry : Call → Sys Answer
unfolding retry_from
retry c w = retry_from w.answers c w.log

-- `ERR(err)`
unfoldable pub or_eof : ℕ → ℤ
or_eof zero = err_eof
or_eof (suc n) = pos (suc n)

unfoldable pub keepalive : ℤ → Sys Answer
unfolding sys
keepalive fd = sys (Call.setsockopt fd)

unfoldable pub socket_close : ℤ → Sys Answer
unfolding sys
socket_close fd = sys (Call.close fd)

-- `_socket_nonblocking` and `_socket_closeonexec`: get the flags, then set them.
pub flagged : ℤ → Sys Answer
flagged fd = do
  a ← sys (Call.fcntl fd false)
  if is_minus_one a.ret then return a else sys (Call.fcntl fd true)

unfoldable pub nonblocking : ℤ → Sys Answer
unfolding flagged sys
nonblocking fd = flagged fd

unfoldable pub closeonexec : ℤ → Sys Answer
unfolding flagged sys
closeonexec fd = flagged fd

unfoldable pub reuseaddr : ℤ → Sys Answer
unfolding sys
reuseaddr fd = sys (Call.setsockopt fd)
