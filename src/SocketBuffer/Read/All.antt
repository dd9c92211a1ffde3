-- ===== src/SocketBuffer/Read/All.antt =====
-- `readall` of src/lsocketbuffer.c against the abstract queue.
use mathlib.Core.Path.{ap₂}
use lsocket.Prelude.{
  ◌<◌, ℕ, ◌+◌, ◌-◌, ◌≤◌, ◌≡◌, refl, sym, ap, ◌∙◌, inl, inr, ℤ, pos, some, List, [], ◌∷◌, ◌&&◌, true,
  arith, length, ==_true, ==_false, Returns, returns, drop-all, take-all, drop-nil, ◌==◌,
}
use lsocket.SocketBuffer.{BufferNode, SocketBuffer}
use lsocket.SocketBuffer.Read.{is_zero, node_at, read_all}
use lsocket.SocketBuffer.Inv.{
  contents, total, IsFresh, IsDistinct, IsTail, HasRoom, IsValid, room-le,
}
use lsocket.SocketBuffer.Consume.{IsAt, Took, take-out}
use lsocket.SocketBuffer.Agree.{Agrees, Took-Keeps, held, held-eq}
use lsocket.SocketBuffer.Spec

-- The node that `tail` points to, and the end of its bytes, which is the end of the chain.
record Last (t : ℕ) (cs : List BufferNode) : Type 0 where
  node : BufferNode
  found : node_at t cs ≡ some node
  at : IsAt cs node.addr node.sz (total cs)
  ne : (a : ℕ) → IsFresh a cs → (a ≡ t → ⊥)
  addr : node.addr ≡ t

Last-cons :
    (t : ℕ) (c : BufferNode) (cs : List BufferNode)
    → IsTail t (c ∷ cs)
    → IsDistinct (c ∷ cs)
    → Last t (c ∷ cs)
Last-cons t c [] h d = record {
  node = c;
  found = rw (==_true h);
  at = inl (refl, omega arith, omega arith);
  ne = λ a f e. f.0 (h ∙ sym e);
  addr = h;
}
Last-cons t c (e ∷ cs) h d =
    let rest = Last-cons t e cs h d.1 in
    let other : c.addr ≡ t → ⊥ = rest.ne c.addr d.0 in
    let k : c.sz + total (e ∷ cs) - c.sz ≡ total (e ∷ cs) = omega arith in
    record {
      node = rest.node;
      found = rw (==_false other) rest.found;
      at = inr (λ q. other (q ∙ rest.addr), omega arith, rw k rest.at);
      ne = λ a f. rest.ne a f.1;
      addr = rest.addr;
    }

-- A valid buffer that holds no byte has no node.
empty_zero : (sb : SocketBuffer) → IsValid sb → held sb ≡ 0 → (sb.size ≡ pos 0) × (sb.offset ≡ 0)
empty_zero sb v h =
    (v.counted ∙ ap pos (sym (held-eq sb v) ∙ h), at sb.head v.room (sym (held-eq sb v) ∙ h))
  where
    at : (cs : List BufferNode) → HasRoom sb.offset cs → total cs - sb.offset ≡ 0 → sb.offset ≡ 0
    at [] r e = r
    at (c ∷ cs) r e = absurd (omega arith)

spec_pos : (xs : List ℕ) → 0 < length xs → Spec.read_all xs ≡ ([], some xs)
unfolding Spec.read_all
spec_pos [] h = absurd (omega arith)
spec_pos (x ∷ xs) h = refl

-- What is left when all is taken out passes the assertions.
Took-empty :
    (sb : SocketBuffer) {m node end : ℕ} (t : Took sb m node end)
    → held sb ≤ m
    → (contents t.left ≡ []) × ((is_zero t.left.size && t.left.offset == 0) ≡ true)
Took-empty sb {m} t h =
    let gone : contents t.left ≡ [] = t.rest ∙ drop-all m (contents sb) h in
    let (z, o) = empty_zero t.left t.valid (ap length gone) in
    (gone, ap₂ (λ a b. is_zero a && b == 0) z o)

module _ (size : ℤ) (offset tail : ℕ) (freed : List ℕ) where
  abbrev buffer : List BufferNode → SocketBuffer
  buffer head = record { size = size; offset = offset; head = head; tail = tail; freed = freed }

  read_all-head :
      (head : List BufferNode)
      → IsValid (buffer head)
      → Returns
          (Agrees (buffer head) (Spec.read_all (contents (buffer head))))
          (read_all (buffer head))
  unfolding read_all Spec.read_all
  read_all-head [] v =
      rw (drop-nil ℕ offset) (returns (record { valid = v; log = refl }, rw (drop-nil ℕ offset)))
  read_all-head (c ∷ cs) v =
      let sb = buffer (c ∷ cs) in
      let l = Last-cons tail c cs v.last v.distinct in
      let le : offset ≤ total (c ∷ cs) = room-le offset (c ∷ cs) v.room in
      let lt : offset < c.sz = v.room in
      let t = take-out sb l.node.addr l.node.sz (total (c ∷ cs)) v l.at le in
      let all : held sb ≡ total (c ∷ cs) - offset = held-eq sb v in
      let (gone, ok) = Took-empty sb t (omega arith) in
      rw
        (
          l.found,
          t.packed,
          t.freed,
          ok,
          spec_pos (contents sb) (omega arith),
          take-all (total (c ∷ cs) - offset) (contents sb) (omega arith),
        )
        (returns (Took-Keeps t, rw gone))

-- `readall` on a valid buffer does not fault, and neither of its assertions fails: it returns all
-- the bytes and leaves none, or nil if there are none; the invariant is kept, and every node is
-- freed once.
pub read_all-refines :
    (sb : SocketBuffer)
    → IsValid sb
    → Returns (Agrees sb (Spec.read_all (contents sb))) (read_all sb)
read_all-refines sb v = read_all-head sb.size sb.offset sb.tail sb.freed sb.head v
