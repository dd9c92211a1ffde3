-- ===== src/SocketBuffer/Read/Count.antt =====
-- `readn` of src/lsocketbuffer.c against the abstract queue.
use lsocket.Prelude.{
  ltb_ℤ-pos, leb-not, ltb_zero, ℕ, zero, suc, ◌+◌, ◌-◌, ◌^◌, ◌≤◌, ◌<◌, ◌≡◌, refl, ap, ◌∙◌, inl, inr,
  pos, int_add, int_sub, ltb_ℤ, some, List, [], ◌∷◌, arith, ltb, true, false, Bool-cases, ltb→lt,
  ltb→ge, int_add-pos, int_sub-pos, Returns, returns,
}
use lsocket.SocketBuffer.{BufferNode, SocketBuffer}
use lsocket.SocketBuffer.Read.{find_n, read_n}
use lsocket.SocketBuffer.Inv.{
  contents, total, IsSound, IsDistinct, HasRoom, IsValid, room-le, size-eq-length,
}
use lsocket.SocketBuffer.Consume.{IsAt, ne_at, Took, take-out, room_zero}
use lsocket.SocketBuffer.Spec
use lsocket.SocketBuffer.Agree.{Agrees, Took-Keeps, held, held-eq}

record FoundN (cs : List BufferNode) (o : ℕ) (n sz : ℕ) : Type 0 where
  node : ℕ
  end : ℕ
  found : find_n cs o (pos n) (pos sz) ≡ some (node, pos end)
  at : IsAt cs node end (n - sz + o)

find_n-FoundN :
    (cs : List BufferNode) (o n sz : ℕ)
    → IsSound cs
    → IsDistinct cs
    → HasRoom o cs
    → sz < n
    → n + o ≤ sz + total cs
    → sz + total cs < 2 ^ 31
    → FoundN cs o n sz
unfolding find_n
find_n-FoundN [] o n sz s d r h le f = absurd (omega arith)
find_n-FoundN (c ∷ cs) o n sz s d r h le f = elim (Bool-cases (ltb (sz + (c.sz - o)) n)) [
  | inl more ↦
      let lt : sz + (c.sz - o) < n = ltb→lt _ _ more in
      let rest =
        find_n-FoundN cs 0 n (sz + (c.sz - o)) s.2 d.1 (room_zero cs s.2) lt (omega arith)
          (omega arith) in
      let k : n - (sz + (c.sz - o)) + 0 ≡ n - sz + o - c.sz = omega arith in
      let there : IsAt cs rest.node rest.end (n - sz + o - c.sz) = rw (← k) rest.at in
      record {
        node = rest.node;
        end = rest.end;
        found = rw (step, ltb_ℤ-pos, more) rest.found;
        at = inr (ne_at c.addr cs rest.node rest.end _ d.0 there, omega arith, there);
      }
  | inr done ↦
      let le : n ≤ sz + (c.sz - o) = ltb→ge _ _ done in
      record {
        node = c.addr;
        end = c.sz - (sz + (c.sz - o) - n);
        found =
            rw (step, ltb_ℤ-pos, done, int_sub-pos (sz + (c.sz - o)) n le (omega arith))
              (ap (λ e. some (c.addr, e))
                (int_sub-pos c.sz (sz + (c.sz - o) - n) (omega arith) (omega arith)));
        at = inl (refl, omega arith, omega arith);
      }
]
  where
    step : int_add (pos sz) (int_sub (pos c.sz) (pos o)) ≡ pos (sz + (c.sz - o))
    step =
        rw (int_sub-pos c.sz o (omega arith) (omega arith))
          (int_add-pos sz (c.sz - o) (omega arith))

few_lem : (sb : SocketBuffer) (n : ℕ) → IsValid sb → ltb_ℤ sb.size (pos n) ≡ ltb (held sb) n
few_lem sb n v = ap (λ z. ltb_ℤ z (pos n)) (size-eq-length sb v) ∙ ltb_ℤ-pos (held sb) n

module _ (sb : SocketBuffer) (n : ℕ) (v : IsValid sb) (f : suc n < 2 ^ 31) where
  read_n_few :
      ltb (held sb) (suc n) ≡ true
      → Returns (Agrees sb (Spec.read_n (contents sb) (suc n))) (read_n sb (pos (suc n)))
  unfolding read_n Spec.read_n
  read_n_few few =
      rw (few_lem sb (suc n) v, few, leb-not, few)
        (returns (record { valid = v; log = refl }, refl))

  found : suc n ≤ held sb → FoundN sb.head sb.offset (suc n) 0
  found h =
      let r : sb.offset ≤ total sb.head = room-le sb.offset sb.head v.room in
      find_n-FoundN sb.head sb.offset (suc n) 0 v.sound v.distinct v.room (omega arith)
        (omega (arith, held-eq sb v)) (omega (arith, v.fits))

  read_n_enough :
      ltb (held sb) (suc n) ≡ false
      → Returns (Agrees sb (Spec.read_n (contents sb) (suc n))) (read_n sb (pos (suc n)))
  unfolding read_n Spec.read_n
  read_n_enough enough =
      let g : FoundN sb.head sb.offset (suc n) 0 = found (ltb→ge _ _ enough) in
      let k : suc n - 0 + sb.offset - sb.offset ≡ suc n = omega arith in
      let t : Took sb (suc n - 0 + sb.offset - sb.offset) g.node g.end =
        take-out sb g.node g.end _ v g.at (omega arith) in
      rw (few_lem sb (suc n) v, enough, g.found, t.packed, t.freed, leb-not, enough)
        (returns (Took-Keeps t, rw (t.rest, k)))

-- `readn` on a valid buffer, for a count that is an `int`: it does not fault, it returns the first
-- `n` bytes and drops them if there are so many, and returns nil and changes nothing if not; the
-- invariant is kept, and every node stays in the chain or is freed once.
pub read_n-refines :
    (sb : SocketBuffer) (n : ℕ)
    → IsValid sb
    → n < 2 ^ 31
    → Returns (Agrees sb (Spec.read_n (contents sb) n)) (read_n sb (pos n))
unfolding read_n Spec.read_n
read_n-refines sb zero v f =
    returns (record { valid = v; log = refl }, rw (leb-not 0 (held sb), ltb_zero (held sb)))
read_n-refines sb (suc n) v f = elim (Bool-cases (ltb (held sb) (suc n))) [
  | inl few ↦ read_n_few sb n v f few
  | inr enough ↦ read_n_enough sb n v f enough
]
