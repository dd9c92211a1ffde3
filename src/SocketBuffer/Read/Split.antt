-- ===== src/SocketBuffer/Read/Split.antt =====
-- The readers of src/lsocketbuffer.c on a separator that is split between two chunks, and on a
-- negative count.
use native.Mathlib.Nat.{zero-add}
use lsocket.Prelude.{
  ltb_ℤ, ℤ, dec_le, int_sub-neg, ℕ, ◌+◌, ◌-◌, ◌<◌, ◌^◌, ◌≡◌, ◌≢◌, refl, pos, negsuc, int_sub, false,
  none, some, List, [], ◌∷◌, arith, ==_true, int_add-pos, int_sub-pos,
}
use lsocket.SocketBuffer.{BufferNode, SocketBuffer, slice, pack_chain, push_pack}
use lsocket.SocketBuffer.Read.{check_sep, find_at, find_from, find_sep, find_n, read_n, mem_eq}
use lsocket.SocketBuffer.Inv.{contents}

module _ (a b x y z : ℕ) (rest : List ℕ) where
  -- the bytes `x` and then `y z`, as two chunks
  abbrev pub split : SocketBuffer
  split = record {
    size = pos 3;
    offset = 0;
    head =
        record { addr = a; p = x ∷ []; sz = 1 } ∷ record { addr = b; p = y ∷ z ∷ []; sz = 2 } ∷ [];
    tail = b;
    freed = [];
  }

  -- The separator `x y`, with the NUL that ends a text behind it, is not found where the first byte
  -- ends one chunk and the second one begins the next chunk with another byte behind it: the buffer
  -- holds `x y z`, and `lfindsep` says that there is no separator.
  pub find_sep-split :
      y ≢ x
      → z ≢ x
      → z ≢ 0
      → (contents split ≡ x ∷ y ∷ z ∷ []) × (find_sep split (x ∷ y ∷ 0 ∷ rest) 2 ≡ some false)
  unfolding find_sep find_from find_at check_sep mem_eq
  find_sep-split p q r = (refl, ground arith)

slice-none : (c : BufferNode) (o e : ℕ) → e < o → slice c o e ≡ none
unfolding slice
slice-none c o e h = ground arith

-- The `end` that `readn` computes for the count `-(m + 1)` lies before `offset`.
data Before (o : ℕ) : ℤ → Type 0 where
  below : (e : ℕ) → e < o → Before o (pos e)
  negative : (e : ℕ) → Before o (negsuc e)

end-Before :
    (o sz m : ℕ)
    → o < sz
    → sz + m + 1 < 2 ^ 31
    → Before o (int_sub (pos sz) (int_sub (pos (sz - o)) (negsuc m)))
end-Before o sz m h f = rw inner (elim (dec_le (sz - o + m + 1) sz) [
  | yes p ↦
      rw (int_sub-pos sz (sz - o + m + 1) p (omega arith))
        (below (sz - (sz - o + m + 1)) (omega arith))
  | no p ↦ rw (int_sub-neg sz (sz - o + m + 1) (omega arith) (omega arith)) (negative _)
])
  where
    inner : int_sub (pos (sz - o)) (negsuc m) ≡ pos (sz - o + m + 1)
    inner = unfold int_sub in ground arith

read_n-Before :
    (sb : SocketBuffer) (m node : ℕ) (end : ℤ)
    → ltb_ℤ sb.size (negsuc m) ≡ false
    → find_n sb.head sb.offset (negsuc m) (pos 0) ≡ some (node, end)
    → Before sb.offset end
    → ((e : ℕ) → e < sb.offset → push_pack sb node e ≡ none)
    → read_n sb (negsuc m) ≡ none
unfolding read_n
read_n-Before sb m node end big found (below e h) none_at = rw (big, found, none_at e h)
read_n-Before sb m node end big found (negative e) none_at = rw (big, found)

module _ (c : BufferNode) (cs : List BufferNode) (size : ℕ) (o tail m : ℕ) (freed : List ℕ)
    (room : o < c.sz) (fits : c.sz + m + 1 < 2 ^ 31) where
  abbrev pub filled : SocketBuffer
  filled = record { size = pos size; offset = o; head = c ∷ cs; tail = tail; freed = freed }

  find_n-negative :
      find_n (c ∷ cs) o (negsuc m) (pos 0)
      ≡ some (c.addr, int_sub (pos c.sz) (int_sub (pos (c.sz - o)) (negsuc m)))
  unfolding find_n
  find_n-negative =
      rw (int_sub-pos c.sz o (omega arith) (omega arith), int_add-pos 0 (c.sz - o) (omega arith))
        (ground (arith, zero-add (c.sz - o)))

  push_pack-before : (e : ℕ) → e < o → push_pack filled c.addr e ≡ none
  unfolding push_pack pack_chain
  push_pack-before e h = rw (==_true {a = c.addr} refl, slice-none c o e h)

  -- On a buffer that holds a node, `readn` with a count below zero passes the guard on the size, and
  -- asks for a copy of a negative length, which faults.
  pub read_n-negative : read_n filled (negsuc m) ≡ none
  read_n-negative =
      read_n-Before filled m c.addr (int_sub (pos c.sz) (int_sub (pos (c.sz - o)) (negsuc m)))
        (ground arith) find_n-negative (end-Before o c.sz m room fits) push_pack-before
