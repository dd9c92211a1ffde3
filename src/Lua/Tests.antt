-- ===== src/Lua/Tests.antt =====
-- Runs of src/lsocket.c with a small interpreter.
use lsocket.Prelude.{ℕ, ◌≡◌, refl, ℤ, pos, negsuc, Option, none, some, List, [], ◌∷◌, arith, Bool}
use lsocket.Net.{net_create}
use lsocket.Net.Kernels.{junk, oks, oks-AllSane}
use lsocket.Net.Create.{net_create-IsGood}
use lsocket.Net.Start.{Started}
use lsocket.Net.Poll.{SocketEvent}
use lsocket.Net.Receive.{ReadData}
use lsocket.Platform.{World}
use lsocket.Platform.Sane.{AllSane}
use lsocket.Psocket.{State, P, pure, ◌>>=◌}
use lsocket.Psocket.Safe.{IsOpen, Runs, is_open, runs, IsCallback}
use lsocket.Psocket.Calls.{RunsOn}
use lsocket.Lua.{
  Value, Interpreter, Result, Api, lread, lsend, lconnect, memory, send_result, slice, Part,
}
use lsocket.Lua.Slice.Bounds.{IsInside, from, upto, sub, slice-sub, slice-IsInside}
use lsocket.Lua.Values.{IsLua, lread-lsend}
use lsocket.Lua.Shapes.{Name, Shaped, psocket_api, function_of}
use lsocket.Lua.Safe.{function_of-Shaped}
use lsocket.Lua.Connect.{Tells, lconnect-Tells}

-- no conversions between kinds of values
abbrev integer_of : Value → Option ℤ
integer_of (Value.integer z) = some z
integer_of _ = none

abbrev text_of : Value → Option (List ℕ)
text_of (Value.str s) = some s
text_of _ = none

abbrev lua : Interpreter
lua = record { to_integer = integer_of; to_text = text_of }

lua-IsLua : IsLua lua
lua-IsLua = record { to_integer_lem = λ z. refl; to_text_lem = λ s. refl }

abbrev hello : List ℕ
hello = 104 ∷ 101 ∷ 108 ∷ 108 ∷ 111 ∷ []

slice-sub_example : slice hello (pos 2) (negsuc 2) ≡ sub hello (from (pos 2)) (upto 5 (negsuc 2))
slice-sub_example = slice-sub hello (pos 2) (negsuc 2) (omega arith) (omega arith) (omega arith)

-- a last position before the end of the string is the end
negative_end : slice hello (pos 2) (negsuc 2) ≡ Part.part (101 ∷ 108 ∷ 108 ∷ 111 ∷ []) (pos 4)
negative_end = slice-sub hello (pos 2) (negsuc 2) (omega arith) (omega arith) (omega arith)

slice-IsInside_example : IsInside hello (slice hello (negsuc 4) (pos 3))
slice-IsInside_example =
    slice-IsInside hello (negsuc 4) (pos 3) (omega arith) (omega arith) (omega arith)

abbrev ignores : SocketEvent → P ℕ (Unit {0})
ignores e = pure tt

abbrev sends_all : (id : ℤ) (bytes : List ℕ) (sz : ℤ) → P ℕ (ℤ × ℤ)
sends_all id bytes sz = pure (sz, pos 0)

abbrev subscribes : (id : ℤ) (read : Bool) → P ℕ ℤ
subscribes id read = pure (pos 0)

-- a library whose reads give two bytes
abbrev reading_api : Api ℕ
reading_api = record (psocket_api (λ a. a) (λ e. "") junk ignores sends_all subscribes) {
  read = λ id. pure (pos 2, some (record { cfd = none; bytes = 7 ∷ 8 ∷ [] }));
}

abbrev two_bytes : ReadData
two_bytes = record { cfd = none; bytes = 7 ∷ 8 ∷ [] }

abbrev kernel : World
kernel = record { answers = oks (0 ∷ 0 ∷ []) []; log = [] }

kernel-AllSane : AllSane 2 kernel.answers
kernel-AllSane = oks-AllSane 2 (0 ∷ 0 ∷ []) [] tt

abbrev fresh : State ℕ
fresh = record { net = Started.started (net_create (pos 2) kernel junk) (pos 3); user = 0 }

fresh-IsOpen : IsOpen 2 fresh
fresh-IsOpen = is_open (net_create-IsGood (pos 2) kernel junk kernel-AllSane)

echo :
    let vs = Value.light (memory two_bytes) ∷ Value.integer (pos 2) ∷ [] in
    (lread lua reading_api (Value.integer (pos 1) ∷ []) fresh ≡ some (Result.values vs, fresh))
    × (lsend lua reading_api (Value.integer (pos 1) ∷ vs) fresh
        ≡ (reading_api.send (pos 1) (memory two_bytes) (pos 2) >>= send_result) fresh)
echo =
    lread-lsend lua reading_api (pos 1) 1 two_bytes fresh fresh fresh lua-IsLua (omega arith)
      (omega arith) refl

ignores-IsCallback : IsCallback 2 ignores
ignores-IsCallback e s b t h = runs h tt

function_of-Shaped_example : Runs 2 (Shaped 2 Name.poll_) (
    function_of
      (λ a. a)
      (λ e. "")
      junk
      ignores
      sends_all
      subscribes
      lua
      Name.poll_
      (Value.integer (pos 0) ∷ [])
      fresh)
function_of-Shaped_example =
    function_of-Shaped (λ a. a) (λ e. "") junk ignores sends_all subscribes lua ignores-IsCallback
      Name.poll_ (Value.integer (pos 0) ∷ []) fresh refl tt fresh-IsOpen

lconnect-Tells_example : RunsOn 2 (Tells 2) (
    lconnect lua
      (psocket_api (λ a. a) (λ e. "") junk ignores sends_all subscribes)
      (Value.str hello ∷ Value.integer (pos 80) ∷ [])
      fresh)
lconnect-Tells_example =
    lconnect-Tells (λ a. a) (λ e. "") junk ignores sends_all subscribes lua
      (Value.str hello ∷ Value.integer (pos 80) ∷ []) fresh fresh-IsOpen
