-- ===== src/SocketBuffer/Spec.antt =====
-- What the buffer of src/lsocketbuffer.c promises: a queue of bytes in which the chunks do not show.
use lsocket.Prelude.{
  ℕ, ◌+◌, Option, none, some, List, [], ◌∷◌, leb, ◌==◌, if◌then◌else◌, length, take, drop,
}
use mathlib.Core.Option

-- the position of the first byte `x`
unfoldable pub index_of : ℕ → List ℕ → Option ℕ
index_of x [] = none
index_of x (y ∷ ys) = if y == x then some 0 else Option.map (λ i. i + 1) (index_of x ys)

-- What each reader leaves, and what it returns.
abbrev pub Reply : Type 0
Reply = List ℕ × Option (List ℕ)

unfoldable pub read_n : List ℕ → ℕ → Reply
read_n xs n = if leb n (length xs) then (drop n xs, some (take n xs)) else (xs, none)

unfoldable pub read_all : List ℕ → Reply
read_all [] = ([], none)
read_all (x ∷ xs) = ([], some (x ∷ xs))

unfoldable pub read_byte : List ℕ → ℕ → Reply
read_byte xs x = elim (index_of x xs) [
  | none ↦ (xs, none)
  | some i ↦ (drop (i + 1) xs, some (take i xs))
]
