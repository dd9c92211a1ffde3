-- ===== src/Net/Open.antt =====
-- How sockets of src/socket.c come to be: `socket_bind`, `socket_listen`, `socket_connect` and
-- `_accept`. The list of addresses that `getaddrinfo` finds is the buffer of its answer.
pub mod Keeps
pub mod Listening
pub mod Connecting
use lsocket.Prelude.{
  ℕ, zero, suc, ℤ, pos, negsuc, Bool, true, false, not, ◌&&◌, ◌||◌, Option, none, some, List, [],
  ◌∷◌, ◌==◌, if◌then◌else◌,
}
use lsocket.Platform
use lsocket.Platform.{
  minus_one, err_createsock, err_listen, err_connect, connecting_code, einprogress, Answer, Call,
  Mask, Sys, return, sys, is_neg, is_minus_one, keepalive, socket_close, nonblocking, closeonexec,
  reuseaddr,
}
use lsocket.Net.{
  case_of, Net, M, Socket, Status, pure, ◌>>=◌, ◌>>◌, call, load, store, set_err, create_socket,
  close_socket, subscribe, no_mask, is_zero_ret,
}

abbrev pub set_status : ℕ → Status → M (Unit {0})
set_status i status = do s ← load i; store i (record s { status = status })

-- `self->err = _socket_error; _close_socket(self, s); return -1`
abbrev pub give_up : ℕ → ℕ → M ℤ
give_up i errno = do set_err (pos errno); close_socket i; pure minus_one

-- `socket_bind`: the index of the slot, or -1
unfoldable pub bind : (fd udata protocol : ℤ) → M ℤ
bind fd udata protocol =
    create_socket fd (pos 0) udata protocol
    >>= case_of (do set_err err_createsock; pure minus_one)
        λ i. do
          a ← call (nonblocking fd)
          if is_minus_one a.ret
              then give_up i a.errno
              else (do set_status i Status.bind; pure (pos i))

-- `_accept`
pub accept : ℕ → M (Option ℕ)
accept lis = do
  l ← load lis
  a ← call (sys (Call.accept l.fd))
  if is_neg a.ret then pure none else do
    call (keepalive a.ret)
    create_socket a.ret l.slimit l.udata (pos 0)
        >>= case_of (do call (socket_close a.ret); pure none)
            λ i. do
              b ← call (nonblocking a.ret)
              if is_minus_one b.ret
                  then (do close_socket i; pure none)
                  else (do set_status i Status.connected; pure (some i))

-- How the loop over the addresses ends: with a `return -1`, or with the descriptor (-1 for none),
-- and for `socket_connect` whether the connection is still being made.
pub data Tried : Type 0 where
  returned : Tried
  chose : (fd : ℤ) (pending : Bool) → Tried

-- the three calls of the test in `socket_listen`, up to the first that fails
pub prepare : ℤ → Sys Answer
prepare fd = Platform.◌>>=◌ (nonblocking fd) λ a.
    if is_minus_one a.ret
    then return a
    else Platform.◌>>=◌ (closeonexec fd) λ b. if is_minus_one b.ret then return b else reuseaddr fd

-- The loop of `socket_listen`.
pub try_listen : List ℕ → M Tried
try_listen [] = pure (Tried.chose minus_one false)
try_listen (address ∷ rest) = do
  a ← call (sys Call.socket)
  if is_minus_one a.ret then try_listen rest else do
    p ← call (prepare a.ret)
    if is_minus_one p.ret
        then (do set_err (pos p.errno); call (socket_close a.ret); pure Tried.returned)
        else (do
          b ← call (sys (Call.bind a.ret))
          if is_minus_one b.ret
              then (do set_err (pos b.errno); call (socket_close a.ret); try_listen rest)
              else pure (Tried.chose a.ret false))

-- `if (fd == -1) { if (self->err == 0) self->err = code; return -1; }`
pub no_address : ℤ → M ℤ
no_address code n = (do (if is_zero_ret n.err then set_err code else pure tt); pure minus_one) n

-- What follows the loop: `none_left` if no address served.
pub after_loop : (none_left : M ℤ) (chosen : ℤ → Bool → M ℤ) → Tried → M ℤ
after_loop none_left chosen Tried.returned = pure minus_one
after_loop none_left chosen (Tried.chose fd pending) =
    if is_minus_one fd then none_left else chosen fd pending

-- The part of `socket_listen` behind the loop.
pub listen_on : (fd udata : ℤ) → M ℤ
listen_on fd udata = do
  set_err (pos 0)
  a ← call (sys (Call.listen fd))
  if is_minus_one a.ret
      then (do set_err (pos a.errno); call (socket_close fd); pure minus_one)
      else (create_socket fd (pos 0) udata (pos 0)
          >>= case_of (do set_err err_createsock; call (socket_close fd); pure minus_one)
              λ i. do
                r ← subscribe i (record { rable = true; wable = false })
                if is_zero_ret r.ret
                    then (do set_status i Status.listening; pure (pos i))
                    else give_up i r.errno)

-- `socket_listen`: the index of the slot, or -1
pub listen : (udata : ℤ) → M ℤ
listen udata = do
  g ← call (sys Call.getaddrinfo)
  if is_zero_ret g.ret
      then (do
        set_err (pos 0)
        tried ← try_listen g.buf
        after_loop (no_address err_listen) (λ fd pending. listen_on fd udata) tried)
      else (do set_err err_listen; pure minus_one)

-- The end of a round of the loop of `socket_connect`, after a `connect` that succeeded. A descriptor
-- that cannot be set to non-blocking afterwards is not closed.
pub settle : (fd : ℤ) (block : Bool) → M Tried
settle fd block =
    if block
    then (do
      a ← call (nonblocking fd)
      if is_minus_one a.ret
          then (do set_err (pos a.errno); pure Tried.returned)
          else pure (Tried.chose fd false))
    else pure (Tried.chose fd false)

-- A round of that loop from the test of `_nonblocking` on; `b` is its answer, and `rest` the rounds
-- that follow.
pub attempt : (block : Bool) (fd : ℤ) (rest : M Tried) (b : Answer) → M Tried
attempt block fd rest b =
    if is_minus_one b.ret
    then (do set_err (pos b.errno); call (socket_close fd); pure Tried.returned)
    else (do
      c ← call (sys (Call.connect fd))
      if is_minus_one c.ret
          then (if not block && c.errno == einprogress
              then pure (Tried.chose fd true)
              else (do set_err (pos c.errno); call (socket_close fd); rest))
          else settle fd block)

-- The loop of `socket_connect`.
pub try_connect : (block : Bool) → List ℕ → M Tried
try_connect block [] = pure (Tried.chose minus_one false)
try_connect block (address ∷ rest) = do
  a ← call (sys Call.socket)
  if is_minus_one a.ret then try_connect block rest else do
    k ← call (keepalive a.ret)
    if not (is_zero_ret k.ret)
        then (do set_err (pos k.errno); call (socket_close a.ret); pure Tried.returned)
        else (do
          b ← (if block then pure k else call (nonblocking a.ret))
          attempt block a.ret (try_connect block rest) b)

-- The part of `socket_connect` behind the loop.
pub connect_on : (fd udata : ℤ) (pending : Bool) → M ℤ
connect_on fd udata pending = do
  set_err (pos 0)
  create_socket fd (pos 0) udata (pos 0)
      >>= case_of (do set_err err_createsock; call (socket_close fd); pure minus_one)
          λ i.
            if pending
            then (do
              set_status i Status.connecting
              r ← subscribe i (record { rable = true; wable = true })
              if is_zero_ret r.ret
                  then (do set_err connecting_code; pure (pos i))
                  else give_up i r.errno)
            else (do set_status i Status.connected; pure (pos i))

-- `socket_connect`: the index of the slot, or -1
pub connect : (block : Bool) (udata : ℤ) → M ℤ
connect block udata = do
  set_err (pos 0)
  g ← call (sys Call.getaddrinfo)
  if is_zero_ret g.ret
      then (do
        tried ← try_connect block g.buf
        after_loop (no_address err_connect) (λ fd pending. connect_on fd udata pending) tried)
      else (do set_err err_connect; pure minus_one)
