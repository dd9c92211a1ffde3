-- ===== src/SocketBuffer/Read/Pop.antt =====
-- `lpop`, which chooses the reader by its second argument.
use mathlib.Core.Path.{subst}
use lsocket.SocketBuffer.{BufferNode}
use lsocket.SocketBuffer.Read.Sep.Found.{HasMemory}
use lsocket.Prelude.{
  ◌+◌, ◌⊎◌, inl, inr, sym, ℕ, ◌≤◌, ◌<◌, ◌^◌, ◌≡◌, refl, pos, negsuc, wrap, Option, List, [], ◌∷◌,
  ◌++◌, arith, length, length-append, Returns, lt→ltb, returns,
}
use lsocket.SocketBuffer.{SocketBuffer, ◌>>=◌}
use lsocket.SocketBuffer.Read.{
  PopArg, Popped, popped, invalid_sep, pop, returned, string, absent, number, other,
}
use lsocket.SocketBuffer.Inv.{contents, IsValid}
use lsocket.SocketBuffer.Agree.{Agrees}
use lsocket.SocketBuffer.Read.Count.{read_n-refines}
use lsocket.SocketBuffer.Read.All.{read_all-refines}
use lsocket.SocketBuffer.Read.Byte.{read_sep-refines}
use lsocket.SocketBuffer.Read.Sep.{IsCut, read_sep-IsCut}
use lsocket.SocketBuffer.Spec

-- What the caller passes: a count that is an `int` and not negative, or a text of at most two bytes,
-- or of any length if the buffer is at most one chunk. Behind the bytes of a text stands a NUL.
abbrev pub IsUsable : SocketBuffer → PopArg → Type 0
IsUsable sb absent = Unit
IsUsable sb (string bytes behind) =
    (1 ≤ length behind) × ((length bytes ≤ 2) ⊎ (length sb.head ≤ 1))
IsUsable sb (number (pos n)) = n < 2 ^ 31
IsUsable sb (number (negsuc n)) = ⊥
IsUsable sb other = Unit

-- The memory of such a text is enough for `checksep`.
usable-HasMemory :
    (cs : List BufferNode) (l b : ℕ) → 1 ≤ b → (l ≤ 2) ⊎ (length cs ≤ 1) → HasMemory cs l 0 (l + b)
usable-HasMemory [] l b h u = tt
usable-HasMemory (c ∷ []) l b h u = omega arith
usable-HasMemory (c ∷ d ∷ cs) l b h (inl u) = omega arith
usable-HasMemory (c ∷ d ∷ cs) l b h (inr u) = absurd (omega arith)

abbrev pub IsPopped : (SocketBuffer × Option (List ℕ) → Type 0) → Popped → Type 0
IsPopped P (popped sb v) = P (sb, v)
IsPopped P invalid_sep = ⊥

-- What a pop does to the bytes of the buffer.
abbrev pub Pops : SocketBuffer → PopArg → Popped → Type 0
Pops sb absent r = IsPopped (Agrees sb (Spec.read_all (contents sb))) r
Pops sb (string [] behind) r = r ≡ invalid_sep
Pops sb (string (x ∷ []) behind) r = IsPopped (Agrees sb (Spec.read_byte (contents sb) x)) r
Pops sb (string (x ∷ y ∷ ys) behind) r =
    IsPopped (IsCut sb ((x ∷ y ∷ ys) ++ behind) (length (x ∷ y ∷ ys))) r
Pops sb (number (pos n)) r = IsPopped (Agrees sb (Spec.read_n (contents sb) n)) r
Pops sb (number (negsuc n)) r = ⊥
Pops sb other r = IsPopped (Agrees sb (Spec.read_all (contents sb))) r

Returns-IsPopped :
    {P : SocketBuffer × Option (List ℕ) → Type 0} {o : Option (SocketBuffer × Option (List ℕ))}
    → Returns P o
    → Returns (IsPopped P) (o >>= returned)
Returns-IsPopped (returns h) = returns h

wrap-pos : (n : ℕ) → n < 2 ^ 31 → wrap (pos n) ≡ pos n
wrap-pos n h = ground arith

-- `lpop` on a valid buffer, for no argument, a count that is an `int` and not negative, or a text of at
-- most two bytes, or of any length if the buffer is at most one chunk, with the NUL of Lua behind it:
-- it does not fault and does what the abstract queue does. Without an argument, or with one of another
-- type, it returns everything; a count returns so many bytes or nil; a text of one byte returns what
-- stands before it or nil; a longer text cuts bytes out of the front as `IsCut` says; and the empty
-- text is the argument error.
pub pop-Pops :
    (sb : SocketBuffer) (arg : PopArg)
    → IsValid sb
    → IsUsable sb arg
    → Returns (Pops sb arg) (pop sb arg)
unfolding pop
pop-Pops sb absent v u = Returns-IsPopped (read_all-refines sb v)
pop-Pops sb (string [] behind) v u = returns refl
pop-Pops sb (string (x ∷ []) behind) v u = Returns-IsPopped (read_sep-refines x behind sb v)
pop-Pops sb (string (x ∷ y ∷ ys) behind) v u = rw (lt→ltb 0 (length (x ∷ y ∷ ys)) (omega arith)) (
    Returns-IsPopped (
      read_sep-IsCut sb ((x ∷ y ∷ ys) ++ behind) (length (x ∷ y ∷ ys)) v (omega arith) (
        subst (HasMemory sb.head (length (x ∷ y ∷ ys)) 0)
          (sym (length-append {0} (x ∷ y ∷ ys) behind))
          (usable-HasMemory sb.head (length (x ∷ y ∷ ys)) (length behind) u.0 u.1))))
pop-Pops sb (number (pos n)) v u = rw (wrap-pos n u) (Returns-IsPopped (read_n-refines sb n v u))
pop-Pops sb (number (negsuc n)) v u = absurd u
pop-Pops sb other v u = Returns-IsPopped (read_all-refines sb v)
