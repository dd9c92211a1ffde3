-- ===== src/Lua.antt =====
-- src/lsocket.c: the functions of the library as Lua calls them. The Lua interpreter is a parameter:
-- how it converts a value to an integer or a string. A function takes the list of its arguments and
-- gives the list of the values that it pushes, or the error for one of its arguments.
pub mod Data
pub mod Slice
pub mod Values
pub mod Shapes
pub mod Safe
pub mod Connect
mod Tests
pub use Data.*
pub use Slice.{Part, slice}
use Prim.Native.Char.{code}
use Prim.Native.String.{String}
use lsocket.Prelude.{
  ℕ, zero, suc, ◌+◌, ◌-◌, ◌/◌, ◌%◌, ◌^◌, ℤ, pos, negsuc, wrap, to_word, int_add, int_sub, ltb_ℤ,
  Bool, true, false, Option, none, some, List, [], ◌∷◌, ◌++◌, length, get_or, take, drop, ltb, leb,
  if◌then◌else◌,
}
use lsocket.Platform.{connecting_code, is_zero, is_neg}
use lsocket.Net.Receive.{ReadData, ReadResult}
use lsocket.Net.Address.{SocketAddr}
use lsocket.Net.Poll.{SocketEvent, EventType}
use lsocket.Psocket.{P, pure, ◌>>=◌, ◌>>◌}

module _ {S : Type 0} where
  abbrev pub give : List Value → P S Result
  give vs = pure (Result.values vs)

  abbrev pub fail_arg : ℕ → P S Result
  fail_arg i = pure (Result.arg_error i)

  -- the error for the argument `i`, or the converted argument, an integer as an `int`
  abbrev pub with_int : Option ℤ → ℕ → (ℤ → P S Result) → P S Result
  with_int none i k = fail_arg i
  with_int (some z) i k = k (wrap z)

  abbrev pub with_text : Option (List ℕ) → ℕ → (List ℕ → P S Result) → P S Result
  with_text none i k = fail_arg i
  with_text (some s) i k = k s

  -- `_dispatch`, with the Lua function that `init` was given; its error is only logged. `stale` is
  -- what is in the union of an event that has no error and no listening id. `gl` says that `_GL` is not
  -- NULL, as `linit` leaves it; otherwise the assertion fails.
  pub dispatch :
      (gl : Bool) (stale : ℤ) (handler : List Value → P S (Option String))
      → SocketEvent
      → P S (Unit {0})
  dispatch false stale handler e = λ _. none
  dispatch true stale handler e = do
    handler (
        Value.integer (type_code e.type)
        ∷ Value.integer (pos e.id)
        ∷ Value.integer (elim e.info [ none ↦ stale | some z ↦ z ])
        ∷ [])
    pure tt

  abbrev pub address_result : Option SocketAddr → P S Result
  address_result none = give (Value.nil ∷ [])
  address_result (some a) = give (Value.str a.ip ∷ Value.integer (pos a.port) ∷ [])

  abbrev pub send_result : ℤ → P S Result
  send_result err = give (elim err [
    | pos n ↦ (elim n [ zero ↦ Value.nil | suc k ↦ Value.integer (pos (suc k)) ]) ∷ []
    | negsuc n ↦ Value.integer (negsuc n) ∷ []
  ])

module _ {S : Type 0} (lua : Interpreter) (api : Api S) where
  -- `luaL_checkinteger`, stored in an `int`
  abbrev pub check_int : List Value → ℕ → (ℤ → P S Result) → P S Result
  check_int args i k = with_int (lua.to_integer (arg args i)) i k

  -- `luaL_optinteger`, stored in an `int`
  abbrev pub opt_int : List Value → ℕ → ℤ → (ℤ → P S Result) → P S Result
  opt_int args i d k = if is_nil (arg args i) then k (wrap d) else check_int args i k

  -- `luaL_checkstring`
  abbrev pub check_text : List Value → ℕ → (List ℕ → P S Result) → P S Result
  check_text args i k = with_text (lua.to_text (arg args i)) i k

  pub linit : List Value → P S Result
  linit args = check_int args 1 λ cmax.
      if is_function (arg args 2)
      then (api.init cmax >>= λ r. give (
          if is_zero r
          then Value.boolean true ∷ []
          else Value.nil ∷ Value.str (codes "net init fail") ∷ []))
      else fail_arg 2

  pub lfini : List Value → P S Result
  lfini args = do api.fini; give []

  pub lpoll : List Value → P S Result
  lpoll args = check_int args 1 λ timeout. do n ← api.poll timeout; give (Value.integer n ∷ [])

  -- PSOCKET_ERR
  abbrev pub last_message : (List ℕ → P S Result) → P S Result
  last_message k = api.lasterrno >>= λ e. api.error e >>= λ m. k (codes m)

  pub llisten : List Value → P S Result
  llisten args = check_text args 1 λ ip. check_int args 2 λ port. do
    id ← api.listen ip port
    if is_neg id
        then last_message (λ m. give (Value.nil ∷ Value.str m ∷ []))
        else give (Value.integer id ∷ [])

  pub lconnect : List Value → P S Result
  lconnect args = check_text args 1 λ ip. check_int args 2 λ port. do
    id ← api.connect ip port
    e ← api.lasterrno
    give (
        if is_neg id
        then Value.nil ∷ Value.integer e ∷ []
        else if same_int e connecting_code
        then Value.integer id ∷ Value.nil ∷ Value.boolean true ∷ []
        else Value.integer id ∷ [])

  abbrev pub read_result : ReadResult → P S Result
  read_result (pos zero, d) = give (Value.nil ∷ [])
  read_result (pos (suc n), d) = give (pointer d ∷ Value.integer (pos (suc n)) ∷ [])
  read_result (negsuc n, d) = api.lasterrno >>= λ e. give (Value.nil ∷ Value.integer e ∷ [])

  pub lread : List Value → P S Result
  lread args = check_int args 1 λ id. api.read id >>= read_result

  -- `lsend` from the call of `psocket_send` on, for a part of a string
  abbrev pub send_part : (id : ℤ) → Part → P S Result
  send_part id Part.nothing = give (Value.boolean false ∷ [])
  send_part id Part.outside = λ s. none
  send_part id (Part.part bytes sz) = api.send id bytes sz >>= send_result

  abbrev pub send_value : (id : ℤ) (args : List Value) → Value → P S Result
  send_value id args (Value.light bytes) =
      check_int args 3 λ sz. api.send id bytes sz >>= send_result
  send_value id args (Value.str s) =
      opt_int args 3 (pos 1)
        λ start. opt_int args 4 (pos (length s)) λ end. send_part id (slice s start end)
  send_value id args _ = fail_arg 2

  pub lsend : List Value → P S Result
  lsend args = check_int args 1 λ id. send_value id args (arg args 2)

  pub lclose : List Value → P S Result
  lclose args =
      check_int args 1
        λ id. do r ← api.close id (to_boolean (arg args 2)); give (Value.boolean (is_zero r) ∷ [])

  pub lreadenable : List Value → P S Result
  lreadenable args = check_int args 1 λ id. do api.subscribe id (to_boolean (arg args 2)); give []

  pub laddress : List Value → P S Result
  laddress args = check_int args 1 λ id. api.address id >>= address_result

  pub llimit : List Value → P S Result
  llimit args = check_int args 1 λ id.
      check_int args 2 λ slimit. check_int args 3 λ rlimit. do api.limit id slimit rlimit; give []

  pub lerror : List Value → P S Result
  lerror [] = last_message (λ m. give (Value.str m ∷ []))
  lerror (a ∷ args) =
      check_int (a ∷ args) 1 λ err. do m ← api.error err; give (Value.str (codes m) ∷ [])

  -- the table of `luaopen_socket_c`
  pub library : List (String × (List Value → P S Result))
  library =
      ("init", linit)
      ∷ ("fini", lfini)
      ∷ ("poll", lpoll)
      ∷ ("listen", llisten)
      ∷ ("connect", lconnect)
      ∷ ("close", lclose)
      ∷ ("read", lread)
      ∷ ("send", lsend)
      ∷ ("readenable", lreadenable)
      ∷ ("address", laddress)
      ∷ ("limit", llimit)
      ∷ ("error", lerror)
      ∷ []
