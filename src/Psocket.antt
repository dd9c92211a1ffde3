-- ===== src/Psocket.antt =====
-- src/psocket.c: one `struct net`, the global N, and the callback that is given its events. The
-- callback, and the two functions of src/socket.h that it calls in a form of which the repository
-- has no source, are parameters of the section.
use Prim.Native.String.{String}
pub mod Dispatch
pub mod Safe
pub mod Calls
pub mod Program
mod Tests
use lsocket.Prelude.{
  ℕ, ℤ, pos, negsuc, Bool, true, false, Option, none, some, List, [], ◌∷◌, ◌++◌, length, ltb_ℤ,
  if◌then◌else◌,
}
use lsocket.Platform.{World, is_zero, is_minus_one}
use lsocket.Net
use lsocket.Net.{Net, Socket}
use lsocket.Net.Start.{Started, start, stop}
use lsocket.Net.Open.{listen, connect}
use lsocket.Net.Receive.{read, ReadResult}
use lsocket.Net.Poll.{poll, SocketEvent, EventType}
use lsocket.Net.Address.{SocketAddr, address, socket_error}

-- The global N, and what else the callback works on: the state of the program that uses the library.
pub record State (S : Type 0) : Type 0 where
  pub net : Started
  pub user : S

-- An operation of the library; `none` is a failed `assert` or the use of N when it is NULL.
abbrev pub P : Type 0 → Type 0 → Type 0
P S A = State S → Option (A × State S)

module _ {S : Type 0} where
  abbrev pub pure : {A : Type 0} → A → P S A
  pure a s = some (a, s)

  abbrev pub and_then : {A B : Type 0} → Option (A × State S) → (A → P S B) → Option (B × State S)
  and_then none f = none
  and_then (some (a, s)) f = f a s

  infixl 5 ◌>>=◌ ◌>>◌
  abbrev pub ◌>>=◌ : {A B : Type 0} → P S A → (A → P S B) → P S B
  m >>= f = λ s. and_then (m s) f

  abbrev pub ◌>>◌ : {A B : Type 0} → P S A → P S B → P S B
  m >> k = m >>= λ _. k

  abbrev pub reopen : {A : Type 0} → ℤ → S → Option (A × Net) → Option (A × State S)
  reopen epoll_fd u none = none
  reopen epoll_fd u (some (a, n)) = some (a, record { net = Started.started n epoll_fd; user = u })

  abbrev pub on_net : {A : Type 0} → Net.M A → Started → S → Option (A × State S)
  on_net m (Started.null w) u = none
  on_net m (Started.started n epoll_fd) u = reopen epoll_fd u (m n)

  -- a call of src/socket.h on N
  abbrev pub lift : {A : Type 0} → Net.M A → P S A
  lift m s = on_net m s.net s.user

  -- An id is an `int`; the assertion of `_socket` fails on a negative one.
  abbrev pub with_id : {A : Type 0} → (ℕ → Net.M A) → ℤ → P S A
  with_id f (pos id) = lift (f id)
  with_id f (negsuc id) = λ s. none

pub is_conn_then_read : EventType → Bool
is_conn_then_read EventType.conn_then_read = true
is_conn_then_read _ = false

abbrev pub with_type : SocketEvent → EventType → SocketEvent
with_type e t = record e { type = t }

module _ {S : Type 0} (dispatch : SocketEvent → P S (Unit {0})) where
  -- one round of the loop of `psocket_poll`
  pub dispatch_one : SocketEvent → P S (Unit {0})
  dispatch_one e =
      if is_conn_then_read e.type
      then (do dispatch (with_type e EventType.connect_); dispatch (with_type e EventType.read))
      else dispatch e

  pub dispatch_all : List SocketEvent → P S (Unit {0})
  dispatch_all [] = pure tt
  dispatch_all (e ∷ es) = do dispatch_one e; dispatch_all es

  -- `psocket_poll`, where the callback does not poll itself, so that the array of events stays
  pub psocket_poll : (timeout : ℤ) → P S ℤ
  psocket_poll timeout = do es ← lift (poll timeout); dispatch_all es; pure (pos (length es))

-- the kernel, whether N is NULL or not
abbrev pub os_of : Started → World
os_of (Started.null w) = w
os_of (Started.started n epoll_fd) = n.os

abbrev pub init_result : Started → ℤ
init_result (Started.null w) = pos 1
init_result (Started.started n epoll_fd) = pos 0

module _ {S : Type 0} where
  -- `psocket_init`; `junk` is what `malloc` leaves in the sockets. An N that is there is lost.
  pub psocket_init : (junk : ℕ → Socket) (cmax : ℤ) → P S ℤ
  psocket_init junk cmax s =
      let t = start cmax junk (os_of s.net) in some (init_result t, record s { net = t })

  abbrev pub stopped : S → Option World → Option (Unit {0} × State S)
  stopped u none = none
  stopped u (some w) = some (tt, record { net = Started.null w; user = u })

  -- `psocket_fini`
  pub psocket_fini : P S (Unit {0})
  psocket_fini s = stopped s.user (stop s.net)

  pub psocket_listen : P S ℤ
  psocket_listen = lift (listen (pos 0))

  pub psocket_connect : P S ℤ
  psocket_connect = lift (connect false (pos 0))

  pub psocket_close : (id : ℤ) (force : Bool) → P S ℤ
  psocket_close id force = with_id (λ i. Net.close i force) id

  pub psocket_read : (id : ℤ) → P S ReadResult
  psocket_read id = with_id read id

  -- `none` for the return value 1
  pub psocket_address : (ntop : List ℕ → List ℕ) (id : ℤ) → P S (Option SocketAddr)
  psocket_address ntop id = with_id (address ntop) id

  pub psocket_limit : (id slimit rlimit : ℤ) → P S ℤ
  psocket_limit id slimit rlimit = with_id (λ i. Net.limit i slimit rlimit) id

  pub psocket_lasterrno : P S ℤ
  psocket_lasterrno = lift Net.last_errno

  abbrev pub or_fault : {A : Type 0} → Option A → P S A
  or_fault none s = none
  or_fault (some a) s = some (a, s)

  pub psocket_error : (strerror : ℕ → String) → ℤ → P S String
  psocket_error strerror err = or_fault (socket_error strerror err)

-- The `socket_send` that is called here takes a `struct socket_event` too, in which it writes `err`;
-- it gives back its return value and that.
pub psocket_send :
    {S : Type 0} (socket_send : (id : ℤ) (bytes : List ℕ) (sz : ℤ) → P S (ℤ × ℤ)) (id : ℤ)
    (bytes : List ℕ) (sz : ℤ)
    → P S ℤ
psocket_send socket_send id bytes sz = do
  (n, err) ← socket_send id bytes sz
  pure (if ltb_ℤ (pos 0) n then err else pos 0)

pub psocket_subscribe :
    {S : Type 0} (socket_subscribe : (id : ℤ) (read : Bool) → P S ℤ) (id : ℤ) (read : Bool) → P S ℤ
psocket_subscribe socket_subscribe id read = socket_subscribe id read
