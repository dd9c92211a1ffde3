-- ===== src/SocketBuffer/Read.antt =====
-- The readers of src/lsocketbuffer.c: by separator, by count, everything, and `ldetach`.
pub mod Count
pub mod All
pub mod Sep
pub mod Places
pub mod Byte
pub mod Detach
pub mod Pop
pub mod Split
mod Tests
use lsocket.Prelude.{
  ℕ, zero, suc, ◌+◌, ◌-◌, ℤ, pos, negsuc, int_add, int_sub, wrap, ltb_ℤ, Bool, true, false, ◌&&◌,
  Option, none, some, List, [], ◌∷◌, ◌++◌, ltb, leb, ◌==◌, if◌then◌else◌, length, drop, pos_part,
}
use lsocket.SocketBuffer.{BufferNode, SocketBuffer, ◌>>=◌, slice, push_pack, free_buffer}

abbrev pub is_zero : ℤ → Bool
is_zero (pos zero) = true
is_zero (pos (suc n)) = false
is_zero (negsuc n) = false

-- `memcmp(xs, ys, k) == 0`. It is a fault if one of the `k` bytes is outside of the memory that is
-- given, wherever the first difference is.
mem_eq : ℕ → List ℕ → List ℕ → Option Bool
mem_eq zero xs ys = some true
mem_eq (suc k) [] ys = none
mem_eq (suc k) (x ∷ xs) [] = none
mem_eq (suc k) (x ∷ xs) (y ∷ ys) = do same ← mem_eq k xs ys; some (x == y && same)

-- how many bytes of the chunk one round of `checksep` compares
abbrev pub round_size : ℕ → ℕ → ℕ
round_size l left = if ltb l left then l else left

-- `checksep`. The list is the chain from `node` on, `sep` the memory at the separator, which goes on
-- behind its `l` bytes, and `n` the count of bytes found so far. The result is the node and the
-- `end` where the match stops.
pub check_sep : List BufferNode → ℕ → List ℕ → ℕ → ℕ → Option (Option (ℕ × ℕ))
unfolding mem_eq
check_sep [] offset sep l n = some none
check_sep (c ∷ cs) offset sep l n = do
  let sz = round_size l (c.sz - offset)
  same ← mem_eq sz (drop offset c.p) (drop n sep)
  if same
      then (if leb l (n + sz)
          then some (some (c.addr, offset + sz))
          else check_sep cs 0 sep l (n + sz))
      else some none

-- Where a separator was found: it begins at `i` in the node `current`, and stops at `end` in `node`.
pub record Match : Type 0 where
  pub current : ℕ
  pub i : ℕ
  pub node : ℕ
  pub end : ℕ

-- The inner loop of `readsep` and `lfindsep`, over the positions from `i` on; the first argument is
-- the number of rounds left, `sz - i`.
find_at : ℕ → BufferNode → List BufferNode → ℕ → List ℕ → ℕ → Option (Option Match)
unfolding check_sep
find_at zero c cs i sep l = some none
find_at (suc k) c cs i sep l = do
  r ← check_sep (c ∷ cs) i sep l 0
  elim r [
    | none ↦ find_at k c cs (i + 1) sep l
    | some (node, end) ↦ some (some (record { current = c.addr; i = i; node = node; end = end }))
  ]

-- The outer loop, over the nodes.
find_from : List BufferNode → ℕ → List ℕ → ℕ → Option (Option Match)
unfolding find_at
find_from [] offset sep l = some none
find_from (c ∷ cs) offset sep l = do
  r ← find_at (c.sz - offset) c cs offset sep l
  elim r [ none ↦ find_from cs 0 sep l | some m ↦ some (some m) ]

-- `lfindsep`
pub find_sep : SocketBuffer → List ℕ → ℕ → Option Bool
unfolding find_from
find_sep sb sep l = do
  r ← find_from sb.head sb.offset sep l
  some (elim r [ none ↦ false | some m ↦ true ])

-- `readsep`
pub read_sep : SocketBuffer → List ℕ → ℕ → Option (SocketBuffer × Option (List ℕ))
unfolding find_from
read_sep sb sep l = do
  r ← find_from sb.head sb.offset sep l
  elim r [
    | none ↦ some (sb, none)
    | some m ↦ do
      pack ← push_pack sb m.current m.i
      sb' ← free_buffer sb m.node m.end
      some (sb', some pack)
  ]

-- `*p` for a pointer to a node of the chain.
abbrev pub node_at : ℕ → List BufferNode → Option BufferNode
node_at a [] = none
node_at a (c ∷ cs) = if c.addr == a then some c else node_at a cs

-- `readall`. A failed `assert` is a fault.
pub read_all : SocketBuffer → Option (SocketBuffer × Option (List ℕ))
read_all sb = elim sb.head [
  | [] ↦ some (sb, none)
  | c ∷ cs ↦ do
    node ← node_at sb.tail sb.head
    pack ← push_pack sb node.addr node.sz
    sb' ← free_buffer sb node.addr node.sz
    if is_zero sb'.size && sb'.offset == 0 then some (sb', some pack) else none
]

-- The loop of `readn`: the node and the `end` where `n` bytes are reached, if they are.
find_n : List BufferNode → ℕ → ℤ → ℤ → Option (ℕ × ℤ)
find_n [] offset n sz = none
find_n (c ∷ cs) offset n sz =
    let sz' = int_add sz (int_sub (pos c.sz) (pos offset)) in
    if ltb_ℤ sz' n then find_n cs 0 n sz' else some (c.addr, int_sub (pos c.sz) (int_sub sz' n))

-- `readn`. A negative `end` makes the length that `pushpack` copies negative, a fault.
pub read_n : SocketBuffer → ℤ → Option (SocketBuffer × Option (List ℕ))
unfolding find_n
read_n sb n =
    if is_zero n
    then some (sb, some [])
    else if ltb_ℤ sb.size n
    then some (sb, none)
    else elim (find_n sb.head sb.offset n (pos 0)) [
      | none ↦ some (sb, none)
      | some (node, negsuc e) ↦ none
      | some (node, pos e) ↦ do
        pack ← push_pack sb node e
        sb' ← free_buffer sb node e
        some (sb', some pack)
    ]

-- The second argument of `lpop`, if it is there. A string comes with the memory behind its bytes.
pub data PopArg : Type 0 where
  absent : PopArg
  string : (bytes behind : List ℕ) → PopArg
  number : ℤ → PopArg
  other : PopArg

-- `lpop` returns a value or nil, or raises the argument error.
pub data Popped : Type 0 where
  popped : SocketBuffer → Option (List ℕ) → Popped
  invalid_sep : Popped

abbrev pub returned : SocketBuffer × Option (List ℕ) → Option Popped
returned (sb, v) = some (popped sb v)

-- `lpop`. The number goes through `uint32_t` to `int`.
pub pop : SocketBuffer → PopArg → Option Popped
unfolding read_all read_sep read_n
pop sb PopArg.absent = do r ← read_all sb; returned r
pop sb (PopArg.string bytes behind) =
    if ltb 0 (length bytes)
    then (do r ← read_sep sb (bytes ++ behind) (length bytes); returned r)
    else some invalid_sep
pop sb (PopArg.number n) = do r ← read_n sb (wrap n); returned r
pop sb PopArg.other = do r ← read_all sb; returned r

-- The loop of `ldetach`, which copies every chunk; `diff` is the count of bytes copied.
copy_chain : List BufferNode → ℕ → ℤ → ℤ → Option (List ℕ × ℤ)
copy_chain [] offset size diff = some ([], diff)
copy_chain (c ∷ cs) offset size diff =
    if ltb_ℤ diff size
    then (do
      a ← slice c offset c.sz
      (b, diff') ← copy_chain cs 0 size (int_add diff (int_sub (pos c.sz) (pos offset)))
      some (a ++ b, diff'))
    else none

-- `ldetach`: the block of bytes with its size, or nil.
pub detach : SocketBuffer → Option (SocketBuffer × Option (List ℕ × ℤ))
unfolding copy_chain
detach sb =
    if ltb_ℤ (pos 0) sb.size
    then (do
      (block, diff) ← copy_chain sb.head sb.offset sb.size (pos 0)
      if is_zero (int_sub diff sb.size)
          then (do
            sb' ← free_buffer sb sb.tail (pos_part sb.size)
            some (sb', some (block, sb.size)))
          else none)
    else some (sb, none)
