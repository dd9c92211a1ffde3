-- ===== src/SocketBuffer/Inv.antt =====
-- What a buffer of src/lsocketbuffer.c holds, and the invariant of its chain.
use lsocket.Prelude.{
  ℕ, ◌+◌, ◌-◌, ◌^◌, ◌≤◌, ◌<◌, ◌≡◌, refl, ap, ◌∙◌, ◌≢◌, pos, List, [], ◌∷◌, ◌++◌, arith, length,
  take, drop, length-append, length-take, length-drop,
}
use lsocket.SocketBuffer.{BufferNode, SocketBuffer}

-- the bytes of a node, and those of a chain
abbrev pub bytes : BufferNode → List ℕ
bytes c = take c.sz c.p

abbrev pub flat : List BufferNode → List ℕ
flat [] = []
flat (c ∷ cs) = bytes c ++ flat cs

-- The abstract buffer: the bytes that were pushed and not yet taken out.
abbrev pub contents : SocketBuffer → List ℕ
contents sb = drop sb.offset (flat sb.head)

abbrev pub total : List BufferNode → ℕ
total [] = 0
total (c ∷ cs) = c.sz + total cs

abbrev pub addrs : List BufferNode → List ℕ
addrs [] = []
addrs (c ∷ cs) = c.addr ∷ addrs cs

-- every node is not empty, and its memory holds its bytes
abbrev pub IsSound : List BufferNode → Type 0
IsSound [] = Unit
IsSound (c ∷ cs) = (0 < c.sz) × (c.sz ≤ length c.p) × IsSound cs

abbrev pub IsFresh : ℕ → List BufferNode → Type 0
IsFresh a [] = Unit
IsFresh a (c ∷ cs) = (c.addr ≢ a) × IsFresh a cs

abbrev pub IsDistinct : List BufferNode → Type 0
IsDistinct [] = Unit
IsDistinct (c ∷ cs) = IsFresh c.addr cs × IsDistinct cs

-- `tail` points at the last node, if there is one
abbrev pub IsTail : ℕ → List BufferNode → Type 0
IsTail t [] = Unit
IsTail t (c ∷ []) = c.addr ≡ t
IsTail t (c ∷ d ∷ cs) = IsTail t (d ∷ cs)

-- `offset` lies in the first node
abbrev pub HasRoom : ℕ → List BufferNode → Type 0
HasRoom o [] = o ≡ 0
HasRoom o (c ∷ cs) = o < c.sz

pub record IsValid (sb : SocketBuffer) : Type 0 where
  pub sound : IsSound sb.head
  pub distinct : IsDistinct sb.head
  pub last : IsTail sb.tail sb.head
  pub room : HasRoom sb.offset sb.head
  pub counted : sb.size ≡ pos (total sb.head - sb.offset)
  pub fits : total sb.head < 2 ^ 31

pub length-bytes : (c : BufferNode) → c.sz ≤ length c.p → length (bytes c) ≡ c.sz
length-bytes c h = omega (arith, length-take {0} c.sz c.p)

pub length-flat : (cs : List BufferNode) → IsSound cs → length (flat cs) ≡ total cs
length-flat [] h = refl
length-flat (c ∷ cs) h =
    omega (arith, length-append {0} (bytes c) (flat cs), length-bytes c h.1, length-flat cs h.2)

pub room-le : (o : ℕ) (cs : List BufferNode) → HasRoom o cs → o ≤ total cs
room-le o [] h = omega arith
room-le o (c ∷ cs) h = omega arith

pub IsTail-IsTail :
    (t : ℕ) (c : BufferNode) (cs : List BufferNode) → IsTail t (c ∷ cs) → IsTail t cs
IsTail-IsTail t c [] h = tt
IsTail-IsTail t c (d ∷ cs) h = h

-- The `size` field is the number of bytes that the buffer holds.
pub size-eq-length : (sb : SocketBuffer) → IsValid sb → sb.size ≡ pos (length (contents sb))
size-eq-length sb v =
    v.counted
    ∙ ap pos (omega (arith, length-drop {0} sb.offset (flat sb.head), length-flat sb.head v.sound))
