-- ===== src/Lua/Safe.antt =====
-- The functions of src/lsocket.c on the library of src/psocket.c: their results have the shapes that
-- Lua programs rely on, and they leave the library in a good state.
use Prim.Native.String.{String}
use lsocket.Prelude.{
  ℕ, zero, suc, ◌≡◌, refl, ℤ, pos, negsuc, wrap, Bool, true, Option, none, some, List, [], ◌∷◌,
  arith, Bool-cases, inl, inr, if◌then◌else◌,
}
use lsocket.Platform.{is_neg, connecting_code}
use lsocket.Net.{Socket}
use lsocket.Net.Address.{SocketAddr}
use lsocket.Net.Poll.{SocketEvent}
use lsocket.Net.Receive.{ReadResult}
use lsocket.Psocket.{State, P, ◌>>=◌, psocket_error}
use lsocket.Psocket.Safe
use lsocket.Psocket.Safe.{
  IsOpen, Runs, is_open, runs, All, IsCallback, reopen-Runs, psocket_poll-Runs,
}
use lsocket.Psocket.Calls.{
  psocket_listen-Runs, psocket_connect-Runs, psocket_lasterrno-Runs, psocket_close-Runs,
  psocket_read-Runs, psocket_address-Runs, psocket_limit-Runs, psocket_error-Runs,
}
use lsocket.Lua.{
  Value, Interpreter, Result, Api, arg, codes, lpoll, llisten, lconnect, lread, lsend, lclose,
  lreadenable, laddress, llimit, lerror, with_int, with_text, same_int, address_result,
  last_message, give, read_result,
}
use lsocket.Lua.Shapes.{
  Name, Shaped, wrong_argument, polled, listens, listens_not, connected, connecting, connects_not,
  closes, reads, reads_nothing, reads_not, has_address, has_none, limits, message, is_complete,
  AreProper, psocket_api, function_of,
}

module _ {S : Type 0} {max : ℕ} {f : Name} {s : State S} where
  with_int-Runs :
      (o : Option ℤ) (i : ℕ) (k : ℤ → P S Result)
      → IsOpen max s
      → ((z : ℤ) → o ≡ some z → Runs max (Shaped max f) (k (wrap z) s))
      → Runs max (Shaped max f) (with_int o i k s)
  with_int-Runs none i k h r = runs h wrong_argument
  with_int-Runs (some z) i k h r = r z refl

  with_text-Runs :
      (o : Option (List ℕ)) (i : ℕ) (k : List ℕ → P S Result)
      → IsOpen max s
      → ((t : List ℕ) → Runs max (Shaped max f) (k t s))
      → Runs max (Shaped max f) (with_text o i k s)
  with_text-Runs none i k h r = runs h wrong_argument
  with_text-Runs (some t) i k h r = r t

connect-Shaped :
    (max : ℕ) (id e : ℤ)
    → Shaped max Name.connect_ (
        Result.values (
          if is_neg id
          then Value.nil ∷ Value.integer e ∷ []
          else if same_int e connecting_code
          then Value.integer id ∷ Value.nil ∷ Value.boolean true ∷ []
          else Value.integer id ∷ []))
connect-Shaped max (negsuc k) e = connects_not
connect-Shaped max (pos i) e = elim (Bool-cases (same_int e connecting_code)) [
  | inl y ↦ rw y connecting
  | inr n ↦ rw n connected
]

address-Shaped :
    {S : Type 0} {max : ℕ} (a : Option SocketAddr) {s : State S}
    → IsOpen max s
    → Runs max (Shaped max Name.address_) (address_result a s)
address-Shaped none h = runs h has_none
address-Shaped (some a) h = runs h has_address

module _ {S : Type 0} (ntop : List ℕ → List ℕ) (strerror : ℕ → String) (junk : ℕ → Socket)
    (dispatch : SocketEvent → P S (Unit {0}))
    (socket_send : (id : ℤ) (bytes : List ℕ) (sz : ℤ) → P S (ℤ × ℤ))
    (socket_subscribe : (id : ℤ) (read : Bool) → P S ℤ) (lua : Interpreter) {max : ℕ}
    (callback : IsCallback max dispatch) where
  abbrev api : Api S
  api = psocket_api ntop strerror junk dispatch socket_send socket_subscribe

  message-Runs :
      {f : Name} (err : ℤ) (k : List ℕ → P S Result) {s : State S}
      → IsOpen max s
      → ((m : List ℕ) (s : State S) → IsOpen max s → Runs max (Shaped max f) (k m s))
      → Runs max (Shaped max f) ((psocket_error strerror err >>= λ m. k (codes m)) s)
  message-Runs err k h r =
      Safe.bind (psocket_error-Runs strerror err _ h) λ m s h q. r (codes m) s h

  last_message-Runs :
      {f : Name} (k : List ℕ → P S Result) {s : State S}
      → IsOpen max s
      → ((m : List ℕ) (s : State S) → IsOpen max s → Runs max (Shaped max f) (k m s))
      → Runs max (Shaped max f) (last_message lua api k s)
  unfolding psocket_api
  last_message-Runs k h r = Safe.bind (psocket_lasterrno-Runs _ h) λ e s h' q. message-Runs e k h' r

  read_result-Runs :
      (r : ReadResult) {s : State S}
      → IsOpen max s
      → Runs max (Shaped max Name.read_) (read_result lua api r s)
  unfolding psocket_api
  read_result-Runs (pos zero, d) h = runs h reads_nothing
  read_result-Runs (pos (suc n), none) h = runs h reads
  read_result-Runs (pos (suc n), some d) h = runs h reads
  read_result-Runs (negsuc n, d) h =
      Safe.bind (psocket_lasterrno-Runs _ h) λ e s h' q. runs h' reads_not

  listen_result-Runs :
      (id : ℤ) {s : State S}
      → IsOpen max s
      → Runs max (Shaped max Name.listen_) (
          (if is_neg id
              then last_message lua api (λ m. give (Value.nil ∷ Value.str m ∷ []))
              else give (Value.integer id ∷ []))
            s)
  listen_result-Runs (pos i) h = runs h listens
  listen_result-Runs (negsuc i) h =
      last_message-Runs (λ m. give (Value.nil ∷ Value.str m ∷ [])) h λ m s h'. runs h' listens_not

  -- Each of the functions that poll, listen, connect, close, read, address, limit and error stand for,
  -- called from Lua on an open library with any values whose conversions are proper, under any callback
  -- that leaves the state good, ends in a good state without a failed assertion, and gives back values
  -- of the shape that its name stands for, or the error for an argument. The two names whose C functions
  -- call what has no source, send and readenable, are not among them.
  pub function_of-Shaped :
      (f : Name) (args : List Value) (s : State S)
      → is_complete f ≡ true
      → AreProper lua max f args
      → IsOpen max s
      → Runs max
          (Shaped max f)
          (function_of ntop strerror junk dispatch socket_send socket_subscribe lua f args s)
  unfolding function_of psocket_api lpoll llisten lconnect lread lsend lclose lreadenable laddress
      llimit lerror
  function_of-Shaped Name.poll_ args s c p h =
      with_int-Runs (lua.to_integer (arg args 1)) 1 _ h λ z e.
        Safe.bind (psocket_poll-Runs dispatch callback (wrap z) s h)
          λ r s' h' (k, q, le). rw q (runs h' (polled le))
  function_of-Shaped Name.listen_ args s c p h =
      with_text-Runs (lua.to_text (arg args 1)) 1 _ h λ ip.
        with_int-Runs (lua.to_integer (arg args 2)) 2 _ h
          λ z e. Safe.bind (psocket_listen-Runs s h) λ id s' h' q. listen_result-Runs id h'
  function_of-Shaped Name.connect_ args s c p h =
      with_text-Runs (lua.to_text (arg args 1)) 1 _ h λ ip.
        with_int-Runs (lua.to_integer (arg args 2)) 2 _ h λ z e.
          Safe.bind (psocket_connect-Runs s h) λ id s' h' q.
            Safe.bind (psocket_lasterrno-Runs s' h')
              λ err s'' h'' q. runs h'' (connect-Shaped max id err)
  function_of-Shaped Name.close_ args s c p h =
      with_int-Runs (lua.to_integer (arg args 1)) 1 _ h
        λ z e. Safe.bind (psocket_close-Runs (wrap z) _ s (p z e) h) λ r s' h' q. runs h' closes
  function_of-Shaped Name.read_ args s c p h =
      with_int-Runs (lua.to_integer (arg args 1)) 1 _ h
        λ z e. Safe.bind (psocket_read-Runs (wrap z) s (p z e) h) λ r s' h' q. read_result-Runs r h'
  function_of-Shaped Name.send_ args s c p h = absurd (ground (arith, c))
  function_of-Shaped Name.readenable_ args s c p h = absurd (ground (arith, c))
  function_of-Shaped Name.address_ args s c p h =
      with_int-Runs (lua.to_integer (arg args 1)) 1 _ h λ z e.
        Safe.bind (psocket_address-Runs ntop (wrap z) s (p z e) h) λ a s' h' q. address-Shaped a h'
  function_of-Shaped Name.limit_ args s c p h =
      with_int-Runs (lua.to_integer (arg args 1)) 1 _ h λ z e.
        with_int-Runs (lua.to_integer (arg args 2)) 2 _ h λ x e'.
          with_int-Runs (lua.to_integer (arg args 3)) 3 _ h λ y e''.
            Safe.bind (psocket_limit-Runs (wrap z) (wrap x) (wrap y) s (p z e) h)
              λ r s' h' q. runs h' limits
  function_of-Shaped Name.error_ [] s c p h =
      last_message-Runs (λ m. give (Value.str m ∷ [])) h λ m s' h'. runs h' message
  function_of-Shaped Name.error_ (a ∷ args) s c p h =
      with_int-Runs (lua.to_integer a) 1 _ h
        λ z e. message-Runs (wrap z) (λ m. give (Value.str m ∷ [])) h λ m s' h'. runs h' message
