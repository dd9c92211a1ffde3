-- ===== src/Lua/Slice.antt =====
-- How `lsend` of src/lsocket.c cuts the part that it sends out of a string.
pub mod Bounds
use Prim.Native.Char.{code}
use Prim.Native.String.{String}
use lsocket.Prelude.{
  ℕ, zero, suc, ◌+◌, ◌-◌, ◌/◌, ◌%◌, ◌^◌, ℤ, pos, negsuc, wrap, to_word, int_add, int_sub, ltb_ℤ,
  Bool, true, false, Option, none, some, List, [], ◌∷◌, ◌++◌, length, get_or, take, drop, ltb, leb,
  if◌then◌else◌,
}
use lsocket.Platform.{connecting_code, is_zero, is_neg}
use lsocket.Net.Receive.{ReadData, ReadResult}
use lsocket.Net.Address.{SocketAddr}
use lsocket.Net.Poll.{SocketEvent, EventType}
use lsocket.Psocket.{P, pure, ◌>>=◌, ◌>>◌}

-- an `int` as a `size_t` of 64 bits
pub to_size : ℤ → ℕ
to_size (pos n) = n
to_size (negsuc n) = 2 ^ 64 - 1 - n

-- `memcpy(msg, s + off, sz)`: `none` if it reads outside of `s`
pub memcpy : (s : List ℕ) (off sz : ℤ) → Option (List ℕ)
memcpy s (pos off) (pos sz) =
    if leb (off + sz) (length s) then some (take sz (drop off s)) else none
memcpy s _ _ = none

-- `if (start < 1) start = 1` and `if (end > l) end = l` of `lsend`
pub first_of : ℤ → ℤ
first_of start = if ltb_ℤ start (pos 1) then pos 1 else start

pub last_of : (l : ℕ) (end : ℤ) → ℤ
last_of l end = if ltb l (to_size end) then wrap (pos l) else end

-- What `lsend` does with a string: nothing to send, a read outside of the string, or the part.
pub data Part : Type 0 where
  nothing outside : Part
  part : (bytes : List ℕ) (sz : ℤ) → Part

abbrev pub part_of : ℤ → Option (List ℕ) → Part
part_of sz none = Part.outside
part_of sz (some bytes) = Part.part bytes sz

pub slice : (s : List ℕ) (start end : ℤ) → Part
slice s start end =
    let first = first_of start in
    let last = last_of (length s) end in
    let sz = int_add (int_sub last first) (pos 1) in
    if ltb_ℤ last first then Part.nothing else part_of sz (memcpy s (int_sub first (pos 1)) sz)
