-- ===== src/Net/Receive.antt =====
-- The receive side of src/socket.c: `socket_read` and what it calls.
pub mod Keeps
pub mod Resize
pub mod Got
mod Tests
use lsocket.Prelude.{
  ℕ, zero, suc, ◌+◌, ◌*◌, ◌/◌, ℤ, pos, negsuc, int_add, ltb_ℤ, Bool, true, false, not, ◌&&◌, Option,
  none, some, List, [], ◌∷◌, ltb, ◌==◌, if◌then◌else◌, take, pos_part,
}
use lsocket.Platform
use lsocket.Platform.{
  minus_one, err_status, err_eof, err_trunc, err_cmsgtype, eagain, Answer, Call, Sys, return, retry,
  or_eof, Control,
}
use lsocket.Net.{
  case_of, Net, M, Socket, Protocol, pure, ◌>>=◌, ◌>>◌, call, load, store, set_err, is_halfclose,
  get_socket, close_socket, rbuffer_sz, is_zero_ret,
}

-- What is handed to the caller: a descriptor in front of the bytes, if one was received.
pub record ReadData : Type 0 where
  pub cfd : Option ℤ
  pub bytes : List ℕ

-- the returned number, and the data if there is some
abbrev pub ReadResult : Type 0
ReadResult = ℤ × Option ReadData

-- `_read_close`: 0 or an error code
pub read_close : ℤ → Sys ℤ
read_close fd = Platform.◌>>=◌ (retry (Call.read fd 1024)) λ a. return (elim a.ret [
  | negsuc _ ↦ if a.errno == eagain then pos 0 else or_eof a.errno
  | pos n ↦ if n == 0 then err_eof else pos 0
])

-- the end of a read that failed: the socket is closed
pub failed : ℕ → ℤ → M ReadResult
failed i err = do close_socket i; set_err err; pure (minus_one, none)

abbrev pub is_size : ℕ → ℤ → Bool
is_size n (pos m) = n == m
is_size n (negsuc m) = false

-- How the size of the read buffer follows a read of `n` bytes, if no limit is set. The shift to the
-- right is of a positive number.
pub resize : Socket → ℕ → Socket
resize s n =
    if is_zero_ret s.rlimit
    then (if is_size n s.rbuffersz
        then record s { rbuffersz = int_add s.rbuffersz s.rbuffersz }
        else if ltb_ℤ rbuffer_sz s.rbuffersz && ltb_ℤ (pos n) (int_add s.rbuffersz s.rbuffersz)
        then record s { rbuffersz = pos (pos_part s.rbuffersz / 2) }
        else s)
    else s

pub read_half : ℕ → M ReadResult
read_half i = do
  s ← load i
  err ← call (read_close s.fd)
  set_err err
  if is_zero_ret err then pure (pos 0, none) else do close_socket i; pure (minus_one, none)

-- `_read` when `read` has returned, for a socket that is not half closed
pub read_done : ℕ → (a : Answer) (ret : ℤ) → M ReadResult
read_done i a (negsuc k) =
    if a.errno == eagain then pure (pos 0, none) else failed i (or_eof a.errno)
read_done i a (pos n) = if n == 0 then failed i err_eof else (do
  s ← load i
  store i (resize s n)
  pure (pos n, some (record { cfd = none; bytes = take n a.buf })))

pub read_open : ℕ → M ReadResult
read_open i = do
  s ← load i
  a ← call (retry (Call.read s.fd (pos_part s.rbuffersz)))
  read_done i a a.ret

-- `_read`
pub read_tcp : ℕ → M ReadResult
read_tcp i = do s ← load i; if is_halfclose s.status then read_half i else read_open i

-- How `_readfd` ends by the control data; the descriptor takes the four bytes of an `int`.
pub take_fd : ℕ → (n : ℕ) (buf : List ℕ) → Control → M ReadResult
take_fd i n buf Control.no_fd = pure (pos n, some (record { cfd = none; bytes = take n buf }))
take_fd i n buf (Control.rights c) =
    pure (pos (n + 4), some (record { cfd = some c; bytes = take n buf }))
take_fd i n buf Control.other_type = failed i err_cmsgtype

-- `_readfd` when `recvmsg` has returned
pub read_fd_done : ℕ → (a : Answer) (ret : ℤ) → M ReadResult
read_fd_done i a (negsuc k) =
    if a.errno == eagain then pure (pos 0, none) else failed i (or_eof a.errno)
read_fd_done i a (pos n) =
    if n == 0
    then failed i err_eof
    else if a.truncated
    then failed i err_trunc
    else take_fd i n a.buf a.control

-- `_readfd`
pub read_fd : ℕ → M ReadResult
read_fd i = do s ← load i; a ← call (retry (Call.recvmsg s.fd)); read_fd_done i a a.ret

-- the choice of `socket_read`; its test makes the guard at the start of `_readfd` pass
pub read_by : Protocol → ℕ → M ReadResult
read_by Protocol.tcp i = read_tcp i
read_by Protocol.ipc i = read_fd i
read_by Protocol.udp i = pure (minus_one, none)

-- `socket_read`: the number of bytes, 0 for none, or -1
pub read : ℕ → M ReadResult
read id =
    get_socket id >>= case_of (pure (minus_one, none)) λ i. do s ← load i; read_by s.protocol i
