-- ===== src/Lua/Data.antt =====
-- What src/lsocket.c works on: the values of Lua, the functions of src/psocket.h, and the conversions
-- between them.
use Prim.Native.Char.{code}
use Prim.Native.String.{String}
use lsocket.Prelude.{
  ℕ, ◌-◌, ◌/◌, ◌%◌, ℤ, pos, to_word, ltb_ℤ, Bool, true, false, Option, none, some, List, [], ◌∷◌,
  ◌++◌, get_or, if◌then◌else◌,
}
use lsocket.Net.Receive.{ReadData, ReadResult}
use lsocket.Net.Address.{SocketAddr}
use lsocket.Net.Poll.{EventType}
use lsocket.Psocket.{P}

-- A value of Lua. A light userdata is the memory that it points to.
pub data Value : Type 0 where
  nil function other : Value
  boolean : Bool → Value
  integer : ℤ → Value
  str : List ℕ → Value
  light : List ℕ → Value

-- What the interpreter does: `lua_tointegerx`, and `lua_tolstring`, which also takes numbers.
pub record Interpreter : Type 0 where
  pub to_integer : Value → Option ℤ
  pub to_text : Value → Option (List ℕ)

-- the values that a function pushes, or `luaL_argerror`
pub data Result : Type 0 where
  values : List Value → Result
  arg_error : ℕ → Result

-- The functions of src/psocket.h.
pub record Api (S : Type 0) : Type 0 where
  pub init : (cmax : ℤ) → P S ℤ
  pub fini : P S (Unit {0})
  pub poll : (timeout : ℤ) → P S ℤ
  pub listen : (addr : List ℕ) (port : ℤ) → P S ℤ
  pub connect : (addr : List ℕ) (port : ℤ) → P S ℤ
  pub close : (id : ℤ) (force : Bool) → P S ℤ
  pub subscribe : (id : ℤ) (read : Bool) → P S ℤ
  pub send : (id : ℤ) (bytes : List ℕ) (sz : ℤ) → P S ℤ
  pub read : (id : ℤ) → P S ReadResult
  pub address : (id : ℤ) → P S (Option SocketAddr)
  pub limit : (id slimit rlimit : ℤ) → P S ℤ
  pub lasterrno : P S ℤ
  pub error : (err : ℤ) → P S String

-- the bytes of a text
abbrev pub codes : String → List ℕ
codes String.[] = []
codes (String.◌∷◌ c s) = code c ∷ codes s

-- the argument `i`, counted from 1
abbrev pub arg : List Value → ℕ → Value
arg args i = get_or args (i - 1) Value.nil

-- `lua_toboolean`
pub to_boolean : Value → Bool
to_boolean Value.nil = false
to_boolean (Value.boolean b) = b
to_boolean _ = true

pub is_nil : Value → Bool
is_nil Value.nil = true
is_nil _ = false

pub is_function : Value → Bool
is_function Value.function = true
is_function _ = false

-- The four bytes of an `int`, the least significant one first.
pub int_bytes : ℤ → List ℕ
int_bytes z = let w = to_word z in w % 256 ∷ w / 256 % 256 ∷ w / 65536 % 256 ∷ w / 16777216 ∷ []

-- the memory that `socket_read` hands over
pub memory : ReadData → List ℕ
memory d = elim d.cfd [ none ↦ d.bytes | some fd ↦ int_bytes fd ++ d.bytes ]

abbrev pub same_int : ℤ → ℤ → Bool
same_int a b = if ltb_ℤ a b then false else if ltb_ℤ b a then false else true

-- The pointer is not written unless data was read.
abbrev pub pointer : Option ReadData → Value
pointer none = Value.light []
pointer (some d) = Value.light (memory d)

-- LS_E codes of the events
pub type_code : EventType → ℤ
type_code EventType.read = pos 0
type_code EventType.accept_ = pos 1
type_code EventType.connect_ = pos 2
type_code EventType.conn_err = pos 3
type_code EventType.sock_err = pos 4
type_code EventType.write_done_close = pos 5
type_code EventType.conn_then_read = pos 6
