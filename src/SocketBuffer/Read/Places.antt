-- ===== src/SocketBuffer/Read/Places.antt =====
-- The place of a byte in the chain of src/lsocketbuffer.c.
use mathlib.Core.Option
use lsocket.Prelude.{
  ℕ, zero, suc, ◌+◌, ◌<◌, ◌≡◌, refl, ap, Option, none, some, List, [], ◌∷◌, ◌++◌, arith, length,
  drop,
}
use lsocket.SocketBuffer.{BufferNode}
use lsocket.SocketBuffer.Read.{Match}
use lsocket.SocketBuffer.Spec.{index_of}

pub index_of-append :
    (x : ℕ) (xs ys : List ℕ)
    → index_of x (xs ++ ys) ≡ elim (index_of x xs) [
      | none ↦ Option.map (λ i. length xs + i) (index_of x ys)
      | some i ↦ some i
    ]
unfolding index_of
index_of-append x [] ys = ground (arith, map_zero (index_of x ys))
  where
    map_zero : (o : Option ℕ) → o ≡ Option.map (λ i. 0 + i) o
    map_zero none = refl
    map_zero (some i) = ap some (omega arith)
index_of-append x (y ∷ xs) ys = ground (arith, index_of-append x xs ys)

pub drop-cons : (i : ℕ) (xs : List ℕ) → i < length xs → (y : ℕ) × (drop i xs ≡ y ∷ drop (suc i) xs)
drop-cons i [] h = absurd (omega arith)
drop-cons zero (x ∷ xs) h = (x, refl)
drop-cons (suc i) (x ∷ xs) h = drop-cons i xs (omega arith)

-- The place that the loops return for a byte at `j`, counted from `i` of the node `c`.
abbrev pub place : BufferNode → ℕ → ℕ → Match
place c i j = record { current = c.addr; i = i + j; node = c.addr; end = i + j + 1 }

pub place_zero :
    (c : BufferNode) (i : ℕ)
    → ◌≡◌ {A = Match} (record { current = c.addr; i = i; node = c.addr; end = i + 1 }) (place c i 0)
place_zero c i =
    let e : i ≡ i + 0 = omega arith in
    ap (λ j. record { current = c.addr; i = j; node = c.addr; end = j + 1 }) e

pub place_suc :
    (c : BufferNode) (i : ℕ) (o : Option ℕ)
    → Option.map (place c (i + 1)) o ≡ Option.map (place c i) (Option.map (λ j. j + 1) o)
place_suc c i none = refl
place_suc c i (some j) =
    let e : i + 1 + j ≡ i + (j + 1) = omega arith in
    ap (λ k. some (record { current = c.addr; i = k; node = c.addr; end = k + 1 })) e
