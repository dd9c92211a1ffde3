-- ===== src/SocketBuffer/Push.antt =====
-- `lpush` of src/lsocketbuffer.c, and the chain behind it.
use lsocket.Prelude.{
  ℕ, suc, ◌+◌, ◌-◌, ◌^◌, ◌≤◌, ◌<◌, ◌≡◌, refl, sym, ap, ◌∙◌, ◌≢◌, ℤ, pos, some, List, [], ◌∷◌, ◌++◌,
  append-nil, append_assoc, arith, length, take, drop, ==_true, ==_false, drop-append_le,
  int_add-pos,
}
use lsocket.SocketBuffer.{BufferNode, SocketBuffer, link_after, push_node, push}
use lsocket.SocketBuffer.Inv.{
  bytes, flat, contents, total, addrs, IsSound, IsFresh, IsDistinct, IsTail, HasRoom, IsValid,
  length-flat, room-le, size-eq-length,
}

ne_tail :
    (a t : ℕ) (c : BufferNode) (cs : List BufferNode)
    → IsTail t (c ∷ cs)
    → IsFresh a (c ∷ cs)
    → a ≢ t
ne_tail a t c [] h f e = f.0 (h ∙ sym e)
ne_tail a t c (d ∷ cs) h f e = ne_tail a t d cs h f.1 e

link_after-IsTail :
    (t : ℕ) (node c : BufferNode) (cs : List BufferNode)
    → IsTail t (c ∷ cs)
    → IsDistinct (c ∷ cs)
    → link_after t node (c ∷ cs) ≡ some ((c ∷ cs) ++ node ∷ [])
link_after-IsTail t node c [] h d = rw (==_true h)
link_after-IsTail t node c (e ∷ cs) h d =
    rw (==_false (ne_tail c.addr t e cs h d.0), link_after-IsTail t node e cs h d.1)

flat-snoc : (cs : List BufferNode) (c : BufferNode) → flat (cs ++ c ∷ []) ≡ flat cs ++ bytes c
flat-snoc [] c = append-nil (bytes c)
flat-snoc (d ∷ cs) c = rw (flat-snoc cs c) (sym (append_assoc (bytes d) (flat cs) (bytes c)))

pub total-snoc : (cs : List BufferNode) (c : BufferNode) → total (cs ++ c ∷ []) ≡ total cs + c.sz
total-snoc [] c = omega arith
total-snoc (d ∷ cs) c = omega (arith, total-snoc cs c)

pub addrs-snoc :
    (cs : List BufferNode) (c : BufferNode) → addrs (cs ++ c ∷ []) ≡ addrs cs ++ c.addr ∷ []
addrs-snoc [] c = refl
addrs-snoc (d ∷ cs) c = rw (addrs-snoc cs c)

IsSound-snoc :
    (cs : List BufferNode) (c : BufferNode)
    → IsSound cs
    → 0 < c.sz
    → c.sz ≤ length c.p
    → IsSound (cs ++ c ∷ [])
IsSound-snoc [] c s h k = (h, k, tt)
IsSound-snoc (d ∷ cs) c s h k = (s.0, s.1, IsSound-snoc cs c s.2 h k)

pub IsFresh-snoc :
    (a : ℕ) (cs : List BufferNode) (c : BufferNode)
    → IsFresh a cs
    → c.addr ≢ a
    → IsFresh a (cs ++ c ∷ [])
IsFresh-snoc a [] c f h = (h, tt)
IsFresh-snoc a (d ∷ cs) c f h = (f.0, IsFresh-snoc a cs c f.1 h)

IsDistinct-snoc :
    (cs : List BufferNode) (c : BufferNode)
    → IsDistinct cs
    → IsFresh c.addr cs
    → IsDistinct (cs ++ c ∷ [])
IsDistinct-snoc [] c d f = (tt, tt)
IsDistinct-snoc (e ∷ cs) c d f =
    (IsFresh-snoc e.addr cs c d.0 (λ q. f.0 (sym q)), IsDistinct-snoc cs c d.1 f.1)

IsTail-snoc : (cs : List BufferNode) (c : BufferNode) → IsTail c.addr (cs ++ c ∷ [])
IsTail-snoc [] c = refl
IsTail-snoc (d ∷ []) c = refl
IsTail-snoc (d ∷ e ∷ cs) c = IsTail-snoc (e ∷ cs) c

HasRoom-snoc :
    (o : ℕ) (cs : List BufferNode) (c : BufferNode)
    → HasRoom o cs
    → 0 < c.sz
    → HasRoom o (cs ++ c ∷ [])
HasRoom-snoc o [] c r h = omega arith
HasRoom-snoc o (d ∷ cs) c r h = r

-- the state after a push of a node
abbrev pub appended : SocketBuffer → BufferNode → SocketBuffer
appended sb node = record sb {
  size = pos (total sb.head - sb.offset + node.sz);
  head = sb.head ++ node ∷ [];
  tail = node.addr;
}

push_node-IsValid :
    (size : ℤ) (offset : ℕ) (head : List BufferNode) (tail : ℕ) (freed : List ℕ) (node : BufferNode)
    → IsTail tail head
    → IsDistinct head
    → push_node
        (record { size = size; offset = offset; head = head; tail = tail; freed = freed })
        node
      ≡ some (head ++ node ∷ [], node.addr)
unfolding push_node
push_node-IsValid size offset [] tail freed node t d = refl
push_node-IsValid size offset (c ∷ cs) tail freed node t d =
    rw (link_after-IsTail tail node c cs t d)

module _ (sb : SocketBuffer) (v : IsValid sb) (fresh : ℕ) (new : IsFresh fresh sb.head) (p : List ℕ)
    (n : ℕ) (le : suc n ≤ length p) (fits : total sb.head + suc n < 2 ^ 31) where
  abbrev pub node : BufferNode
  node = record { addr = fresh; p = p; sz = suc n }

  pub push-appended :
      push fresh sb (some p) (pos (suc n))
      ≡ some (appended sb node, some (pos (total sb.head - sb.offset + suc n)))
  unfolding push
  push-appended = rw (
    push_node-IsValid sb.size sb.offset sb.head sb.tail sb.freed node v.last v.distinct,
    v.counted,
    int_add-pos (total sb.head - sb.offset) (suc n) (omega arith),
  )

  pub appended-IsValid : IsValid (appended sb node)
  appended-IsValid = record {
    sound = IsSound-snoc sb.head node v.sound (omega arith) le;
    distinct = IsDistinct-snoc sb.head node v.distinct new;
    last = IsTail-snoc sb.head node;
    room = HasRoom-snoc sb.offset sb.head node v.room (omega arith);
    counted = ap pos (omega (arith, total-snoc sb.head node, room-le sb.offset sb.head v.room));
    fits = omega (arith, total-snoc sb.head node);
  }

  pub contents-appended : contents (appended sb node) ≡ contents sb ++ take (suc n) p
  contents-appended =
      ap (drop sb.offset) (flat-snoc sb.head node)
      ∙ drop-append_le sb.offset (flat sb.head) (take (suc n) p)
          (omega (arith, room-le sb.offset sb.head v.room, length-flat sb.head v.sound))

  -- On a valid buffer, with a fresh address from `malloc`, a chunk of `suc n` bytes that fit into
  -- the `int` size: `lpush` does not fault, it appends those bytes, returns the new number of bytes,
  -- keeps the invariant, and frees nothing.
  pub push-append :
      (sb' : SocketBuffer) × (push fresh sb (some p) (pos (suc n))
        ≡ some (sb', some (pos (length (contents sb')))))
      × (contents sb' ≡ contents sb ++ take (suc n) p)
      × IsValid sb'
      × (sb'.freed ++ addrs sb'.head ≡ (sb.freed ++ addrs sb.head) ++ fresh ∷ [])
  push-append = (
    appended sb node,
    push-appended
        ∙ ap (λ z. some (appended sb node, some z))
            (size-eq-length (appended sb node) appended-IsValid),
    contents-appended,
    appended-IsValid,
    ap (◌++◌ sb.freed) (addrs-snoc sb.head node)
        ∙ sym (append_assoc sb.freed (addrs sb.head) (fresh ∷ [])),
  )
