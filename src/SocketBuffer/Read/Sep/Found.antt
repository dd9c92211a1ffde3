-- ===== src/SocketBuffer/Read/Sep/Found.antt =====
-- What `checksep` of src/lsocketbuffer.c finds.
use mathlib.Core.Path.{ap₂}
use lsocket.Prelude.{
  ℕ_discrete, ℕ, zero, suc, ◌+◌, ◌-◌, ◌*◌, ◌≤◌, ◌<◌, ◌≡◌, ◌≢◌, refl, sym, ap, ◌∙◌, inl, inr, Option,
  none, some, List, [], ◌∷◌, ◌++◌, true, arith, length, take, drop, leb, ==_true, ==_false,
  Bool-cases, Returns, returns, Returns-some, Returns-mono, length-take, length-drop,
  take-append_le, take-append_ge, drop-append_le, take-take, take-drop, drop-drop, take-add, leb→le,
  leb→lt,
}
use lsocket.SocketBuffer.{BufferNode}
use lsocket.SocketBuffer.Read.{round_size, mem_eq, check_sep}
use lsocket.SocketBuffer.Inv.{bytes, flat, IsSound, IsFresh, IsDistinct, HasRoom, length-bytes}
use lsocket.SocketBuffer.Consume.{IsAt, ne_at, room_zero}

mem_eq-Returns :
    (k : ℕ) (xs ys : List ℕ)
    → k ≤ length xs
    → k ≤ length ys
    → Returns (λ b. b ≡ true → take k xs ≡ take k ys) (mem_eq k xs ys)
unfolding mem_eq
mem_eq-Returns zero xs ys h g = returns (λ e. refl)
mem_eq-Returns (suc k) [] ys h g = absurd (omega arith)
mem_eq-Returns (suc k) (x ∷ xs) [] h g = absurd (omega arith)
mem_eq-Returns (suc k) (x ∷ xs) (y ∷ ys) h g =
    let (b, q, f) = Returns-some (mem_eq-Returns k xs ys (omega arith) (omega arith)) in
    rw q (elim (ℕ_discrete x y) [
      | yes e ↦ rw (==_true e) (returns (λ t. ap₂ ◌∷◌ e (f t)))
      | no n ↦ rw (==_false n) (returns (λ t. cc))
    ])

-- From byte `o` of the chain on, the `m` bytes that were compared are those of the memory from `n`
-- on, and with them at least `l` are found. They stop at `end` of the node at `node`.
pub record Hit (cs : List BufferNode) (o : ℕ) (sep : List ℕ) (l n node end : ℕ) : Type 0 where
  pub m : ℕ
  pub at : IsAt cs node end (o + m)
  pub same : take m (drop o (flat cs)) ≡ take m (drop n sep)
  pub enough : l ≤ n + m
  pub short : n + m < 2 * l

-- the rest of the first chunk, and the chunks behind it
unfoldable pub rest_of : BufferNode → ℕ → List ℕ
rest_of c o = take (c.sz - o) (drop o c.p)

pub length-rest_of : (c : BufferNode) (o : ℕ) → c.sz ≤ length c.p → length (rest_of c o) ≡ c.sz - o
unfolding rest_of
length-rest_of c o h = omega (arith, length-take {0} (c.sz - o) (drop o c.p), length-drop {0} o c.p)

pub drop-flat :
    (c : BufferNode) (cs : List BufferNode) (o : ℕ)
    → c.sz ≤ length c.p
    → o ≤ c.sz
    → drop o (flat (c ∷ cs)) ≡ rest_of c o ++ flat cs
unfolding rest_of
drop-flat c cs o h g =
    drop-append_le o (bytes c) (flat cs) (omega (arith, length-bytes c h))
    ∙ ap (λ xs. xs ++ flat cs) (sym (take-drop o c.sz c.p))

module _ (c : BufferNode) (cs : List BufferNode) (o : ℕ) (sep : List ℕ) (l n k : ℕ)
    (h : c.sz ≤ length c.p) (r : o < c.sz) (lt : n < l)
    (same : take k (drop o c.p) ≡ take k (drop n sep)) where
  Hit-stop : k ≤ c.sz - o → k ≤ l → l ≤ n + k → Hit (c ∷ cs) o sep l n c.addr (o + k)
  unfolding rest_of
  Hit-stop le le' enough = record {
    m = k;
    at = inl (refl, omega arith, refl);
    same =
        ap (take k) (drop-flat c cs o h (omega arith))
        ∙ take-append_le k (rest_of c o) (flat cs) (omega (arith, length-rest_of c o h))
        ∙ take-take k (c.sz - o) (drop o c.p) le
        ∙ same;
    enough = enough;
    short = omega arith;
  }

  Hit-next :
      {node end : ℕ}
      → k ≡ c.sz - o
      → c.addr ≢ node
      → Hit cs 0 sep l (n + k) node end
      → Hit (c ∷ cs) o sep l n node end
  unfolding rest_of
  Hit-next {node} {end} e ne hit =
      let m' = hit.m in
      let there : o + (k + m') - c.sz ≡ 0 + m' = omega arith in
      record {
        m = k + m';
        at = inr (ne, omega arith, rw there hit.at);
        same =
            ap (take (k + m')) (drop-flat c cs o h (omega arith))
            ∙ take-append_ge (k + m') (rest_of c o) (flat cs) (omega (arith, length-rest_of c o h))
            ∙ ap₂ ◌++◌ (ap (λ j. take j (drop o c.p)) (sym e) ∙ same) (
                ap (λ j. take j (flat cs)) (omega (arith, length-rest_of c o h))
                ∙ hit.same
                ∙ ap (take m') (sym (drop-drop k n sep)))
            ∙ sym (take-add k m' (drop n sep));
        enough = omega (arith, hit.enough);
        short = omega (arith, hit.short);
      }

abbrev pub Hits : List BufferNode → ℕ → List ℕ → ℕ → ℕ → Option (ℕ × ℕ) → Type 0
Hits cs o sep l n none = Unit
Hits cs o sep l n (some (node, end)) = Hit cs o sep l n node end

Hits-next :
    (c : BufferNode) (cs : List BufferNode) (o : ℕ) (sep : List ℕ) (l n k : ℕ)
    → c.sz ≤ length c.p
    → o < c.sz
    → n < l
    → take k (drop o c.p) ≡ take k (drop n sep)
    → k ≡ c.sz - o
    → IsFresh c.addr cs
    → (res : Option (ℕ × ℕ)) → Hits cs 0 sep l (n + k) res
    → Hits (c ∷ cs) o sep l n res
Hits-next c cs o sep l n k h r lt same e f none hit = tt
Hits-next c cs o sep l n k h r lt same e f (some (node, end)) hit =
    Hit-next c cs o sep l n k h r lt same e (ne_at c.addr cs node end (0 + hit.m) f hit.at) hit

round_size_bounds :
    (l a : ℕ)
    → (round_size l a ≤ l) × (round_size l a ≤ a) × (round_size l a < l → round_size l a ≡ a)
round_size_bounds l a = ground arith

-- The memory at the separator, `m` bytes, is enough for `checksep` when `n` bytes were found: in the
-- last chunk `l` bytes behind those, and `2 * l - 1` if there are more chunks. A text of Lua, with the
-- NUL behind it, is enough for any separator in one chunk, and for one or two bytes in any chunks.
abbrev pub HasMemory : List BufferNode → (l n m : ℕ) → Type 0
HasMemory [] l n m = Unit
HasMemory (c ∷ []) l n m = n + l ≤ m
HasMemory (c ∷ d ∷ cs) l n m = 2 * l ≤ m + 1

pub memory_here :
    (c : BufferNode) (cs : List BufferNode) (l n m k : ℕ)
    → n < l
    → k ≤ l
    → HasMemory (c ∷ cs) l n m
    → n + k ≤ m
memory_here c [] l n m k lt le h = omega arith
memory_here c (d ∷ cs) l n m k lt le h = omega arith

pub memory_next :
    (c : BufferNode) (cs : List BufferNode) (l n k m : ℕ)
    → n + k < l
    → HasMemory (c ∷ cs) l n m
    → HasMemory cs l (n + k) m
memory_next c [] l n k m lt h = tt
memory_next c (d ∷ []) l n k m lt h = omega arith
memory_next c (d ∷ e ∷ cs) l n k m lt h = h

pub check_sep-Hits :
    (cs : List BufferNode) (o : ℕ) (sep : List ℕ) (l n : ℕ)
    → IsSound cs
    → IsDistinct cs
    → HasRoom o cs
    → n < l
    → HasMemory cs l n (length sep)
    → Returns (Hits cs o sep l n) (check_sep cs o sep l n)
unfolding check_sep
check_sep-Hits [] o sep l n s d r h g = returns tt
check_sep-Hits (c ∷ cs) o sep l n s d r h g =
    let k = round_size l (c.sz - o) in
    let b = round_size_bounds l (c.sz - o) in
    let (same, e, f) = Returns-some (
      mem_eq-Returns k (drop o c.p) (drop n sep) (omega (arith, b.1, s.1, length-drop {0} o c.p))
        (omega (arith, memory_here c cs l n (length sep) k h b.0 g, length-drop {0} n sep))) in
    rw e (elim (Bool-cases same) [
      | inr no' ↦ rw no' (returns tt)
      | inl yes' ↦ rw yes' (elim (Bool-cases (leb l (n + k))) [
        | inl last ↦
            rw last (returns (Hit-stop c cs o sep l n k s.1 r h (f yes') b.1 b.0 (leb→le _ _ last)))
        | inr more ↦ rw more (
            Returns-mono
              (check_sep-Hits cs 0 sep l (n + k) s.2 d.1 (room_zero cs s.2) (leb→lt _ _ more)
                (memory_next c cs l n k (length sep) (leb→lt _ _ more) g))
              (Hits-next c cs o sep l n k s.1 r h (f yes') (b.2 (omega (arith, leb→lt _ _ more)))
                d.0))
      ])
    ])

-- Where a match begins (`k` bytes into the chain, not before `o`), and where it stops.
