-- ===== src/SocketBuffer/Consume.antt =====
-- `pushpack` and `freebuffer`: what they copy and what they leave, at a place in the chain.
use lsocket.Prelude.{
  ℕ_discrete, ==_true, ==_false, ℕ, ◌+◌, ◌-◌, ◌^◌, ◌≤◌, ◌<◌, ◌≡◌, refl, sym, ap, ◌∙◌, ◌≢◌, ◌⊎◌, inl,
  inr, pos, int_add, int_sub, some, List, [], ◌∷◌, ◌++◌, append_assoc, arith, length, take, drop,
  take-append_le, take-append_ge, drop-append_le, drop-append_ge, take-drop, drop-drop, take-take,
  Returns, returns, Returns-mono, Returns-some, int_add-pos, int_sub-pos,
}
use lsocket.SocketBuffer.{
  BufferNode, SocketBuffer, slice, pack_chain, push_pack, free_upto, free_buffer,
}
use lsocket.SocketBuffer.Inv.{
  bytes, flat, contents, total, addrs, IsSound, IsFresh, IsDistinct, IsTail, HasRoom, IsValid,
  length-bytes, IsTail-IsTail, room-le,
}

-- `end` bytes into the node at `node` is `k` bytes into the chain.
abbrev pub IsAt : List BufferNode → ℕ → ℕ → ℕ → Type 0
IsAt [] node end k = ⊥
IsAt (c ∷ cs) node end k =
    ((c.addr ≡ node) × (end ≤ c.sz) × (k ≡ end))
    ⊎ ((c.addr ≢ node) × (c.sz ≤ k) × IsAt cs node end (k - c.sz))

pub ne_at :
    (a : ℕ) (cs : List BufferNode) (node end k : ℕ) → IsFresh a cs → IsAt cs node end k → a ≢ node
ne_at a [] node end k f h e = h
ne_at a (c ∷ cs) node end k f (inl (q, _, _)) e = f.0 (q ∙ sym e)
ne_at a (c ∷ cs) node end k f (inr (_, _, h)) e = ne_at a cs node end (k - c.sz) f.1 h e

pub slice_lem :
    (c : BufferNode) (o e : ℕ) → o ≤ e → e ≤ length c.p → slice c o e ≡ some (drop o (take e c.p))
unfolding slice
slice_lem c o e h k = ground (arith, take-drop o e c.p)

pub room_zero : (cs : List BufferNode) → IsSound cs → HasRoom 0 cs
room_zero [] s = refl
room_zero (c ∷ cs) s = s.0

pack_chain-IsAt :
    (cs : List BufferNode) (o node end k : ℕ)
    → IsSound cs
    → HasRoom o cs
    → o ≤ k
    → IsAt cs node end k
    → pack_chain cs o node end ≡ some (drop o (take k (flat cs)))
unfolding pack_chain
pack_chain-IsAt [] o node end k s r h a = absurd a
pack_chain-IsAt (c ∷ cs) o node end k s r h (inl (e, le, ek)) = ground (
  arith,
  slice_lem c o end,
  take-append_le k (bytes c) (flat cs),
  length-bytes c,
  take-take k c.sz c.p,
)
pack_chain-IsAt (c ∷ cs) o node end k s r h (inr (ne, le, a)) = ground (
  arith,
  slice_lem c o c.sz,
  take-append_ge k (bytes c) (flat cs),
  length-bytes c,
  drop-append_le o (bytes c) (take (k - c.sz) (flat cs)),
  pack_chain-IsAt cs 0 node end (k - c.sz) s.2 (room_zero cs s.2),
)

-- What `freebuffer` leaves of the chain `cs` of `sb` when it drops `k` bytes.
pub record Freed (sb : SocketBuffer) (cs : List BufferNode) (k : ℕ) (sb' : SocketBuffer)
    : Type 0 where
  pub rest : contents sb' ≡ drop k (flat cs)
  pub valid : IsValid sb'
  pub tail : sb'.tail ≡ sb.tail
  pub log : sb'.freed ++ addrs sb'.head ≡ sb.freed ++ addrs cs

module _ (c : BufferNode) (cs : List BufferNode) (sb : SocketBuffer) (s : IsSound (c ∷ cs))
    (d : IsDistinct (c ∷ cs)) (t : IsTail sb.tail (c ∷ cs)) (z : sb.size ≡ pos (total (c ∷ cs)))
    (f : total (c ∷ cs) < 2 ^ 31) where
  -- the state after a node that goes whole
  abbrev dropped : SocketBuffer
  dropped = record sb {
    head = cs;
    size = int_sub sb.size (pos c.sz);
    freed = sb.freed ++ c.addr ∷ [];
  }

  size-dropped : dropped.size ≡ pos (total cs)
  size-dropped = rw (z, int_sub-pos (c.sz + total cs) c.sz (omega arith) f) (ap pos (omega arith))

  log-dropped : (sb.freed ++ c.addr ∷ []) ++ addrs cs ≡ sb.freed ++ addrs (c ∷ cs)
  log-dropped = append_assoc sb.freed (c.addr ∷ []) (addrs cs)

  drop-flat : (k : ℕ) → c.sz ≤ k → drop k (flat (c ∷ cs)) ≡ drop (k - c.sz) (flat cs)
  drop-flat k h =
      drop-append_ge k (bytes c) (flat cs) (omega (arith, length-bytes c s.1))
      ∙ ap (λ j. drop (k - j) (flat cs)) (length-bytes c s.1)

  Freed-whole : (k : ℕ) → k ≡ c.sz → Freed sb (c ∷ cs) k (record dropped { offset = 0 })
  Freed-whole k e = record {
    rest = sym (drop-flat k (omega arith) ∙ ap (λ j. drop j (flat cs)) {y = 0} (omega arith));
    valid = record {
      sound = s.2;
      distinct = d.1;
      last = IsTail-IsTail sb.tail c cs t;
      room = room_zero cs s.2;
      counted = size-dropped ∙ ap pos (omega arith);
      fits = omega arith;
    };
    tail = refl;
    log = log-dropped;
  }

  Freed-part :
      (k : ℕ)
      → k < c.sz
      → Freed sb
          (c ∷ cs)
          k
          (record sb { head = c ∷ cs; size = int_sub sb.size (pos k); offset = k })
  Freed-part k h = record {
    rest = refl;
    valid = record {
      sound = s;
      distinct = d;
      last = t;
      room = h;
      counted = rw (z, int_sub-pos (c.sz + total cs) k (omega arith) f);
      fits = f;
    };
    tail = refl;
    log = refl;
  }

  Freed-next :
      (k : ℕ) (sb' : SocketBuffer)
      → c.sz ≤ k
      → Freed dropped cs (k - c.sz) sb'
      → Freed sb (c ∷ cs) k sb'
  Freed-next k sb' h g = record {
    rest = g.rest ∙ sym (drop-flat k h);
    valid = g.valid;
    tail = g.tail;
    log = g.log ∙ log-dropped;
  }

free_upto-IsAt :
    (cs : List BufferNode) (sb : SocketBuffer) (node end k : ℕ)
    → IsSound cs
    → IsDistinct cs
    → IsTail sb.tail cs
    → sb.size ≡ pos (total cs)
    → total cs < 2 ^ 31
    → IsAt cs node end k
    → Returns (Freed sb cs k) (free_upto cs sb node end)
unfolding free_upto
free_upto-IsAt [] sb node end k s d t z f a = absurd a
free_upto-IsAt (c ∷ cs) sb node end k s d t z f (inl (e, le, ek)) = elim (ℕ_discrete c.sz end) [
  | yes p ↦ rw (==_true e, ==_true p) (returns (Freed-whole c cs sb s d t z f k (ek ∙ sym p)))
  | no p ↦ rw (==_true e, ==_false p, ← ek) (returns (Freed-part c cs sb s d t z f k (omega arith)))
]
free_upto-IsAt (c ∷ cs) sb node end k s d t z f (inr (ne, le, a)) = rw (==_false ne) (
    Returns-mono
      (free_upto-IsAt cs (dropped c cs sb s d t z f) node end (k - c.sz) s.2 d.1
        (IsTail-IsTail sb.tail c cs t) (size-dropped c cs sb s d t z f) (omega arith) a)
      (λ sb' g. Freed-next c cs sb s d t z f k sb' le g))

-- Taking out the `m` bytes up to a place in the chain: `pushpack` copies them, and `freebuffer`
-- leaves the rest.
pub record Took (sb : SocketBuffer) (m node end : ℕ) : Type 0 where
  pub left : SocketBuffer
  pub packed : push_pack sb node end ≡ some (take m (contents sb))
  pub freed : free_buffer sb node end ≡ some left
  pub valid : IsValid left
  pub rest : contents left ≡ drop m (contents sb)
  pub log : left.freed ++ addrs left.head ≡ sb.freed ++ addrs sb.head

free_buffer-Freed :
    (sb : SocketBuffer) (node end k : ℕ)
    → IsValid sb
    → IsAt sb.head node end k
    → Returns (Freed sb sb.head k) (free_buffer sb node end)
unfolding free_buffer
free_buffer-Freed sb node end k v a =
    Returns-mono
      (free_upto-IsAt sb.head (record sb { size = int_add sb.size (pos sb.offset) }) node end k
        v.sound v.distinct v.last restored v.fits a)
      (λ sb' g. record { rest = g.rest; valid = g.valid; tail = g.tail; log = g.log })
  where
    restored : int_add sb.size (pos sb.offset) ≡ pos (total sb.head)
    restored =
        let le : sb.offset ≤ total sb.head = room-le sb.offset sb.head v.room in
        let f : total sb.head < 2 ^ 31 = v.fits in
        rw (v.counted, int_add-pos (total sb.head - sb.offset) sb.offset (omega arith))
          (ap pos (omega arith))

pub take-out :
    (sb : SocketBuffer) (node end k : ℕ)
    → IsValid sb
    → IsAt sb.head node end k
    → sb.offset ≤ k
    → Took sb (k - sb.offset) node end
unfolding push_pack
take-out sb node end k v a h =
    let (sb', e, g) = Returns-some (free_buffer-Freed sb node end k v a) in
    record {
      left = sb';
      packed =
          pack_chain-IsAt sb.head sb.offset node end k v.sound v.room h a
          ∙ ap some (sym (take-drop sb.offset k (flat sb.head)));
      freed = e;
      valid = g.valid;
      rest =
          g.rest
          ∙ sym (
              drop-drop (k - sb.offset) sb.offset (flat sb.head)
              ∙ ap (λ j. drop j (flat sb.head)) (omega arith));
      log = g.log;
    }
