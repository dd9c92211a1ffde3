-- ===== src/SocketBuffer.antt =====
-- The receive buffer of src/lsocketbuffer.c: a chain of chunks that the reader cuts into messages.
-- The chain that `head` points to is a list of nodes, each with the address that `malloc` gave it;
-- `tail` and the `node` arguments are addresses, 0 for NULL. The list `freed` records the nodes that
-- were handed to `free`, in order. `none` is a fault: a NULL dereference, or a read past a chunk.
pub mod Read
pub mod Spec
pub mod Agree
pub mod Push
pub mod RoundTrip
pub mod Queue
pub mod Trace
pub mod Inv
pub mod Consume
use lsocket.Prelude.{
  ℕ, zero, suc, ◌-◌, ℤ, pos, negsuc, int_add, int_sub, ◌&&◌, Option, none, some, List, [], ◌∷◌,
  ◌++◌, leb, ◌==◌, if◌then◌else◌, length, take, drop,
}

-- `struct buffer_node`; `p` is the memory that its pointer leads to.
pub record BufferNode : Type 0 where
  pub addr : ℕ
  pub p : List ℕ
  pub sz : ℕ

-- `struct socket_buffer`
pub record SocketBuffer : Type 0 where
  pub size : ℤ
  pub offset : ℕ
  pub head : List BufferNode
  pub tail : ℕ
  pub freed : List ℕ

infixl 5 ◌>>=◌
abbrev pub ◌>>=◌ : {A B : Type 0} → Option A → (A → Option B) → Option B
none >>= f = none
some a >>= f = f a

-- `lnew`
pub new : SocketBuffer
new = record { size = pos 0; offset = 0; head = []; tail = 0; freed = [] }

-- `lfree`: the loop frees each node of the chain and leaves the other fields alone.
free_chain : List BufferNode → SocketBuffer → SocketBuffer
free_chain [] sb = record sb { head = [] }
free_chain (c ∷ cs) sb = free_chain cs (record sb { freed = sb.freed ++ c.addr ∷ [] })

pub free : SocketBuffer → SocketBuffer
unfolding free_chain
free sb = free_chain sb.head sb

-- `sb->tail->next = node`: the node at the address `tail` gets a successor, which ends the chain.
-- A `tail` outside the chain is a fault.
abbrev pub link_after : ℕ → BufferNode → List BufferNode → Option (List BufferNode)
link_after tail node [] = none
link_after tail node (c ∷ cs) =
    if c.addr == tail
    then some (c ∷ node ∷ [])
    else do cs' ← link_after tail node cs; some (c ∷ cs')

-- `lpush`. `fresh` is the address that `malloc` returns, `p` the memory at the pointer (`none` for
-- NULL) and `sz` the integer argument. The result is what is pushed on Lua's stack, `none` for nil.
push_node : SocketBuffer → BufferNode → Option (List BufferNode × ℕ)
push_node sb node = elim sb.head [
  | [] ↦ some (node ∷ [], node.addr)
  | c ∷ cs ↦ do head ← link_after sb.tail node sb.head; some (head, node.addr)
]

pub push : (fresh : ℕ) → SocketBuffer → Option (List ℕ) → ℤ → Option (SocketBuffer × Option ℤ)
unfolding push_node
push fresh sb none sz = some (sb, none)
push fresh sb (some p) (negsuc n) = some (sb, none)
push fresh sb (some p) (pos zero) = some (sb, none)
push fresh sb (some p) (pos (suc n)) = do
  (head, tail) ← push_node sb (record { addr = fresh; p = p; sz = suc n })
  let size = int_add sb.size (pos (suc n))
  some (record sb { size = size; head = head; tail = tail }, some size)

-- The bytes from `offset` up to `end` of a chunk, as `luaL_addlstring(&b, p + offset, end - offset)`
-- copies them. The length is a `size_t`: a negative one runs past the chunk.
pub slice : BufferNode → ℕ → ℕ → Option (List ℕ)
slice c offset end =
    if leb offset end && leb end (length c.p)
    then some (take (end - offset) (drop offset c.p))
    else none

-- `pushpack`: the bytes from `offset` of the first node up to `end` of the node at `node`.
pack_chain : List BufferNode → ℕ → ℕ → ℕ → Option (List ℕ)
unfolding slice
pack_chain [] offset node end = none
pack_chain (c ∷ cs) offset node end =
    if c.addr == node
    then slice c offset end
    else do a ← slice c offset c.sz; b ← pack_chain cs 0 node end; some (a ++ b)

pub push_pack : SocketBuffer → ℕ → ℕ → Option (List ℕ)
unfolding pack_chain
push_pack sb node end = pack_chain sb.head sb.offset node end

-- `freebuffer`: drops what stands before `end` in the node at `node`. The first argument is the
-- chain that `sb->head` leads to in the round of the loop.
free_upto : List BufferNode → SocketBuffer → ℕ → ℕ → Option SocketBuffer
free_upto [] sb node end = none
free_upto (c ∷ cs) sb node end =
    if c.addr == node
    then (if c.sz == end
        then some (record sb {
          head = cs;
          size = int_sub sb.size (pos c.sz);
          offset = 0;
          freed = sb.freed ++ c.addr ∷ [];
        })
        else some (record sb { head = c ∷ cs; size = int_sub sb.size (pos end); offset = end }))
    else free_upto cs
        (record sb {
          head = cs;
          size = int_sub sb.size (pos c.sz);
          freed = sb.freed ++ c.addr ∷ [];
        })
        node end

pub free_buffer : SocketBuffer → ℕ → ℕ → Option SocketBuffer
unfolding free_upto
free_buffer sb node end =
    free_upto sb.head (record sb { size = int_add sb.size (pos sb.offset) }) node end
