-- ===== src/Lua/Values.antt =====
-- What goes through the functions of src/lsocket.c and back.
use lsocket.Prelude.{ℕ, suc, ◌^◌, ◌<◌, ◌≡◌, refl, ℤ, pos, negsuc, wrap, some, List, [], ◌∷◌, arith}
use lsocket.Net.Receive.{ReadData}
use lsocket.Psocket.{State, ◌>>=◌}
use lsocket.Lua.{Value, Interpreter, Result, Api, lread, lsend, memory, send_result}
use lsocket.Lua.Slice.Bounds.{IsInt}

-- The manual of Lua: an integer is converted to itself, and a string to itself.
pub record IsLua (lua : Interpreter) : Type 0 where
  pub to_integer_lem : (z : ℤ) → lua.to_integer (Value.integer z) ≡ some z
  pub to_text_lem : (s : List ℕ) → lua.to_text (Value.str s) ≡ some s

pub wrap-int : (z : ℤ) → IsInt z → wrap z ≡ z
wrap-int (pos n) h = ground arith
wrap-int (negsuc n) h = ground arith

-- What `read` of the library gives back may be handed to its `send` at once: that sends the memory
-- that was read, with its size.
pub lread-lsend :
    {S : Type 0} (lua : Interpreter) (api : Api S) (id : ℤ) (n : ℕ) (d : ReadData)
    (s s' t : State S)
    → IsLua lua
    → IsInt id
    → suc n < 2 ^ 31
    → api.read id s ≡ some ((pos (suc n), some d), s')
    → let vs = Value.light (memory d) ∷ Value.integer (pos (suc n)) ∷ [] in
      (lread lua api (Value.integer id ∷ []) s ≡ some (Result.values vs, s'))
      × (lsend lua api (Value.integer id ∷ vs) t
          ≡ (api.send id (memory d) (pos (suc n)) >>= send_result) t)
unfolding lread lsend
lread-lsend lua api id n d s s' t l i h e = (
  rw (l.to_integer_lem id, wrap-int id i, e) refl,
  rw (l.to_integer_lem id, wrap-int id i, l.to_integer_lem (pos (suc n)), wrap-int (pos (suc n)) h)
      refl,
)
