-- ===== src/Net/Poll.antt =====
-- `socket_poll` of src/socket.c, which turns what the poller reports into events.
pub mod Reports
pub mod Reported
pub mod Keeps
pub mod Dialled
pub mod Drains
mod Tests
use lsocket.Prelude.{
  ℕ, zero, suc, ℤ, pos, negsuc, Bool, true, false, not, ◌&&◌, Option, none, some, List, [], ◌∷◌,
  ◌++◌, ◌==◌, if◌then◌else◌, length,
}
use lsocket.Platform
use lsocket.Platform.{minus_one, Answer, Call, Mask, Sys, return, sys, is_minus_one}
use lsocket.Epoll.{NpEvent, np_poll}
use lsocket.Net.{
  case_of, Net, M, Socket, Status, pure, ◌>>=◌, ◌>>◌, call, load, store, is_nil, is_halfclose,
  close_socket, subscribe, no_mask,
}
use lsocket.Net.Send.{send_buffer, is_success}
use lsocket.Net.Open.{accept, set_status}

-- LS_E codes
pub data EventType : Type 0 where
  read accept_ connect_ conn_err sock_err write_done_close conn_then_read : EventType

-- `struct socket_event`; `info` is what is written to the union of `err` and `listenid`.
pub record SocketEvent : Type 0 where
  pub id : ℕ
  pub type : EventType
  pub udata : ℤ
  pub info : Option ℤ

-- `_onconnect`: 0, or the error; `so_error` is what `getsockopt` wrote to `err`, the first of the
-- bytes that it returns.
pub so_error : List ℕ → ℕ
so_error [] = 0
so_error (e ∷ es) = e

pub nonzero_or : ℕ → ℤ
nonzero_or zero = minus_one
nonzero_or (suc n) = pos (suc n)

pub connect_error : Answer → ℤ
connect_error a =
    if is_minus_one a.ret && so_error a.buf == 0 then nonzero_or a.errno else pos (so_error a.buf)

pub on_connect : ℕ → M ℤ
on_connect i = do
  s ← load i
  a ← call (sys (Call.getsockopt s.fd))
  if is_success (connect_error a)
      then (do set_status i Status.connected; subscribe i no_mask; pure (pos 0))
      else (do close_socket i; pure (connect_error a))

pub connect_type : ℤ → Bool → EventType
connect_type err ready =
    if is_success err
    then (if ready then EventType.conn_then_read else EventType.connect_)
    else EventType.conn_err

-- the case STATUS_LISTENING
pub poll_listening : ℕ → M (List SocketEvent)
poll_listening i =
    accept i
    >>= case_of (pure []) λ k. do
      s ← load k
      pure (record { id = k; type = EventType.accept_; udata = s.udata; info = some (pos i) } ∷ [])

-- the case STATUS_CONNECTING
pub poll_connecting : ℕ → Bool → M (List SocketEvent)
poll_connecting i ready = do
  s ← load i
  err ← on_connect i
  pure (record { id = i; type = connect_type err ready; udata = s.udata; info = some err } ∷ [])

unfoldable pub read_event : ℕ → Bool → M (List SocketEvent)
read_event i ready = do
  s ← load i
  pure (
      if ready
      then record { id = i; type = EventType.read; udata = s.udata; info = none } ∷ []
      else [])

-- the default case
unfoldable pub poll_open : ℕ → NpEvent → M (List SocketEvent)
poll_open i e =
    if e.write
    then (do
      err ← send_buffer i
      s ← load i
      if not (is_success err)
          then (do
            close_socket i
            pure (
                record { id = i; type = EventType.sock_err; udata = s.udata; info = some err }
                ∷ []))
          else if is_halfclose s.status && is_nil s.head
          then (do
            close_socket i
            pure (
                record { id = i; type = EventType.write_done_close; udata = s.udata; info = none }
                ∷ []))
          else read_event i e.read)
    else read_event i e.read

unfoldable pub poll_by : Status → NpEvent → M (List SocketEvent)
poll_by Status.listening e = poll_listening e.ud
poll_by Status.connecting e = poll_connecting e.ud e.read
poll_by Status.invalid e = pure []
poll_by _ e = poll_open e.ud e

-- one round of the loop
unfoldable pub poll_one : NpEvent → M (List SocketEvent)
poll_one e = do s ← load e.ud; poll_by s.status e

unfoldable pub poll_all : List NpEvent → M (List SocketEvent)
poll_all [] = pure []
poll_all (e ∷ es) = do out ← poll_one e; rest ← poll_all es; pure (out ++ rest)

-- `socket_poll`: the events, of which it returns the number
unfoldable pub poll : (timeout : ℤ) → M (List SocketEvent)
poll timeout n = (do es ← call (np_poll n.max timeout); poll_all es) n
