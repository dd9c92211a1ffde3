-- ===== src/Lua/Shapes.antt =====
-- What the functions of src/lsocket.c give back to Lua, what they ask of their arguments, and the
-- library of src/psocket.c that they stand on.
use Prim.Native.String.{String}
use lsocket.Prelude.{ℕ, suc, ◌≤◌, ◌≡◌, ℤ, pos, wrap, Bool, true, false, some, List, [], ◌∷◌}
use lsocket.Net.{Socket}
use lsocket.Net.Poll.{SocketEvent}
use lsocket.Psocket.{
  P, psocket_poll, psocket_init, psocket_fini, psocket_listen, psocket_connect, psocket_close,
  psocket_read, psocket_address, psocket_limit, psocket_lasterrno, psocket_error, psocket_send,
  psocket_subscribe,
}
use lsocket.Psocket.Calls.{IdIn}
use lsocket.Lua.{
  Value, Interpreter, Result, Api, arg, lpoll, llisten, lconnect, lread, lsend, lclose, lreadenable,
  laddress, llimit, lerror,
}

-- The functions of the library that work on an open one.
pub data Name : Type 0 where
  poll_ listen_ connect_ close_ read_ send_ readenable_ address_ limit_ error_ : Name

-- The functions whose code is all there: not those that stand on `socket_send` and `socket_subscribe`
-- as src/psocket.c calls them.
abbrev pub is_complete : Name → Bool
is_complete Name.send_ = false
is_complete Name.readenable_ = false
is_complete _ = true

-- The results of each of these; `max` is the number of slots.
pub data Shaped (max : ℕ) : Name → Result → Type 0 where
  wrong_argument : {f : Name} {i : ℕ} → Shaped max f (Result.arg_error i)
  polled : {k : ℕ} → k ≤ max → Shaped max Name.poll_ (Result.values (Value.integer (pos k) ∷ []))
  listens : {i : ℕ} → Shaped max Name.listen_ (Result.values (Value.integer (pos i) ∷ []))
  listens_not :
      {m : List ℕ} → Shaped max Name.listen_ (Result.values (Value.nil ∷ Value.str m ∷ []))
  connected : {i : ℕ} → Shaped max Name.connect_ (Result.values (Value.integer (pos i) ∷ []))
  connecting :
      {i : ℕ}
      → Shaped max Name.connect_
          (Result.values (Value.integer (pos i) ∷ Value.nil ∷ Value.boolean true ∷ []))
  connects_not :
      {e : ℤ} → Shaped max Name.connect_ (Result.values (Value.nil ∷ Value.integer e ∷ []))
  closes : {b : Bool} → Shaped max Name.close_ (Result.values (Value.boolean b ∷ []))
  reads :
      {bytes : List ℕ} {n : ℕ}
      → Shaped max Name.read_ (Result.values (Value.light bytes ∷ Value.integer (pos (suc n)) ∷ []))
  reads_nothing : Shaped max Name.read_ (Result.values (Value.nil ∷ []))
  reads_not : {e : ℤ} → Shaped max Name.read_ (Result.values (Value.nil ∷ Value.integer e ∷ []))
  has_address :
      {ip : List ℕ} {p : ℕ}
      → Shaped max Name.address_ (Result.values (Value.str ip ∷ Value.integer (pos p) ∷ []))
  has_none : Shaped max Name.address_ (Result.values (Value.nil ∷ []))
  limits : Shaped max Name.limit_ (Result.values [])
  message : {m : List ℕ} → Shaped max Name.error_ (Result.values (Value.str m ∷ []))

module _ {S : Type 0} (ntop : List ℕ → List ℕ) (strerror : ℕ → String) (junk : ℕ → Socket)
    (dispatch : SocketEvent → P S (Unit {0}))
    (socket_send : (id : ℤ) (bytes : List ℕ) (sz : ℤ) → P S (ℤ × ℤ))
    (socket_subscribe : (id : ℤ) (read : Bool) → P S ℤ) where
  -- The functions of src/psocket.c.
  unfoldable pub psocket_api : Api S
  psocket_api = record {
    init = psocket_init junk;
    fini = psocket_fini;
    poll = psocket_poll dispatch;
    listen = λ addr port. psocket_listen;
    connect = λ addr port. psocket_connect;
    close = psocket_close;
    subscribe = psocket_subscribe socket_subscribe;
    send = psocket_send socket_send;
    read = psocket_read;
    address = psocket_address ntop;
    limit = psocket_limit;
    lasterrno = psocket_lasterrno;
    error = psocket_error strerror;
  }

  -- the function of that name
  unfoldable pub function_of : Interpreter → Name → List Value → P S Result
  function_of lua Name.poll_ = lpoll lua psocket_api
  function_of lua Name.listen_ = llisten lua psocket_api
  function_of lua Name.connect_ = lconnect lua psocket_api
  function_of lua Name.close_ = lclose lua psocket_api
  function_of lua Name.read_ = lread lua psocket_api
  function_of lua Name.send_ = lsend lua psocket_api
  function_of lua Name.readenable_ = lreadenable lua psocket_api
  function_of lua Name.address_ = laddress lua psocket_api
  function_of lua Name.limit_ = llimit lua psocket_api
  function_of lua Name.error_ = lerror lua psocket_api

-- The arguments that the assertions of the library ask for: an id of a slot.
abbrev pub IdArg : Interpreter → ℕ → List Value → Type 0
IdArg lua max args = (z : ℤ) → lua.to_integer (arg args 1) ≡ some z → IdIn max (wrap z)

abbrev pub AreProper : Interpreter → ℕ → Name → List Value → Type 0
AreProper lua max Name.poll_ args = Unit
AreProper lua max Name.listen_ args = Unit
AreProper lua max Name.connect_ args = Unit
AreProper lua max Name.error_ args = Unit
AreProper lua max _ args = IdArg lua max args
