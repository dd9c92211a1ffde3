-- ===== src/Lua/Connect.antt =====
-- What `connect` of src/lsocket.c tells the Lua program about the socket that it made.
use Prim.Native.String.{String}
use lsocket.Prelude.{
  ℕ, ◌≡◌, refl, inl, inr, ℤ, pos, negsuc, wrap, Bool, true, false, Option, none, some, List, [],
  ◌∷◌, if◌then◌else◌,
}
use lsocket.Platform.{connecting_code, is_neg}
use lsocket.Net.{Net, Socket, Status}
use lsocket.Net.Good.{IsGood, IsLive}
use lsocket.Net.Start.{Started}
use lsocket.Net.Open.Connecting.{Dials}
use lsocket.Net.Poll.{SocketEvent}
use lsocket.Psocket.{State, P, and_then, psocket_connect, psocket_lasterrno}
use lsocket.Psocket.Safe.{IsOpen, is_open}
use lsocket.Psocket.Calls.{RunsOn, runs_on, psocket_connect-Dials, psocket_lasterrno-err}
use lsocket.Lua.{Value, Interpreter, Result, arg, lconnect, with_int, with_text, give, same_int}
use lsocket.Lua.Shapes.{psocket_api}

-- What the values stand for: an error, or the id of a slot that is in use, and whether the connection
-- is still being made or stands.
pub data Tells (max : ℕ) : Result → Net → Type 0 where
  of_argument : {i : ℕ} {n : Net} → Tells max (Result.arg_error i) n
  of_error : {n : Net} → Tells max (Result.values (Value.nil ∷ Value.integer n.err ∷ [])) n
  of_connecting :
      {i : ℕ} {n : Net}
      → IsLive max i n
      → (n.sockets i).status ≡ Status.connecting
      → Tells max (Result.values (Value.integer (pos i) ∷ Value.nil ∷ Value.boolean true ∷ [])) n
  of_connected :
      {i : ℕ} {n : Net}
      → IsLive max i n
      → (n.sockets i).status ≡ Status.connected
      → Tells max (Result.values (Value.integer (pos i) ∷ [])) n

-- what `lconnect` makes of a result
abbrev pub told : {S : Type 0} → ℤ → ℤ → P S Result
told id e = give (
    if is_neg id
    then Value.nil ∷ Value.integer e ∷ []
    else if same_int e connecting_code
    then Value.integer id ∷ Value.nil ∷ Value.boolean true ∷ []
    else Value.integer id ∷ [])

module _ {S : Type 0} {max : ℕ} where
  with_text-Tells :
      (o : Option (List ℕ)) (i : ℕ) (k : List ℕ → P S Result) (s : State S)
      → IsOpen max s
      → ((t : List ℕ) → RunsOn max (Tells max) (k t s))
      → RunsOn max (Tells max) (with_text o i k s)
  with_text-Tells none i k _ (is_open g) r = runs_on g of_argument
  with_text-Tells (some t) i k s h r = r t

  with_int-Tells :
      (o : Option ℤ) (i : ℕ) (k : ℤ → P S Result) (s : State S)
      → IsOpen max s
      → ((z : ℤ) → RunsOn max (Tells max) (k z s))
      → RunsOn max (Tells max) (with_int o i k s)
  with_int-Tells none i k _ (is_open g) r = runs_on g of_argument
  with_int-Tells (some z) i k s h r = r (wrap z)

  told-Tells :
      (id : ℤ) (n : Net) (epoll_fd : ℤ) (u : S)
      → IsGood max n
      → Dials max id n
      → RunsOn max (Tells max) (
          and_then
            (psocket_lasterrno (record { net = Started.started n epoll_fd; user = u }))
            (told id))
  told-Tells (negsuc k) n epoll_fd u g d =
      rw (psocket_lasterrno-err n epoll_fd u) (runs_on g of_error)
  told-Tells (pos i) n epoll_fd u g (l, inl (s, e)) =
      let q : same_int n.err connecting_code ≡ true = rw e refl in
      rw (psocket_lasterrno-err n epoll_fd u, q) (runs_on g (of_connecting l s))
  told-Tells (pos i) n epoll_fd u g (l, inr (s, e)) =
      let q : same_int n.err connecting_code ≡ false = rw e refl in
      rw (psocket_lasterrno-err n epoll_fd u, q) (runs_on g (of_connected l s))

  dialled-Tells :
      (o : Option (ℤ × State S))
      → RunsOn max (Dials max) o
      → RunsOn max (Tells max) (and_then o (λ id s. and_then (psocket_lasterrno s) (told id)))
  dialled-Tells none h = elim h [ ]
  dialled-Tells (some (id, _)) (runs_on {n = n} {epoll_fd = fd} {u = u} g q) =
      told-Tells id n fd u g q

module _ {S : Type 0} (ntop : List ℕ → List ℕ) (strerror : ℕ → String) (junk : ℕ → Socket)
    (dispatch : SocketEvent → P S (Unit {0}))
    (socket_send : (id : ℤ) (bytes : List ℕ) (sz : ℤ) → P S (ℤ × ℤ))
    (socket_subscribe : (id : ℤ) (read : Bool) → P S ℤ) (lua : Interpreter) where
  -- `connect` of the library, called from Lua with any values, ends in a good state, and the values
  -- that it gives back tell the truth: an id alone is that of a connected socket, an id with nil and
  -- true is that of a socket whose connection is being made, and nil comes with the error code.
  pub lconnect-Tells :
      {max : ℕ} (args : List Value) (s : State S)
      → IsOpen max s
      → RunsOn max (Tells max) (
          lconnect lua
            (psocket_api ntop strerror junk dispatch socket_send socket_subscribe)
            args
            s)
  unfolding lconnect psocket_api
  lconnect-Tells args s h = with_text-Tells (lua.to_text (arg args 1)) 1 _ s h λ ip.
      with_int-Tells (lua.to_integer (arg args 2)) 2 _ s h
        λ z. dialled-Tells (psocket_connect s) (psocket_connect-Dials s h)
