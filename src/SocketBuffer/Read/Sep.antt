-- ===== src/SocketBuffer/Read/Sep.antt =====
-- `readsep` of src/lsocketbuffer.c for a separator of any length.
pub mod Whole
pub mod Found
use mathlib.Core.Path.{ap₂}
use lsocket.Prelude.{
  ℕ_discrete, ℕ, zero, suc, ◌+◌, ◌-◌, ◌*◌, ◌≤◌, ◌<◌, ◌≡◌, ◌≢◌, refl, sym, ap, ◌∙◌, inl, inr, Option,
  none, some, List, [], ◌∷◌, ◌++◌, true, arith, length, take, drop, leb, ==_true, ==_false,
  Bool-cases, Returns, returns, Returns-some, Returns-mono, length-take, length-drop,
  take-append_le, take-append_ge, drop-append_le, drop-append_ge, take-take, take-drop, drop-drop,
  take-add, cut_at, leb→le, leb→lt,
}
use lsocket.SocketBuffer.{BufferNode, SocketBuffer, ◌>>=◌, push_pack, free_buffer}
use lsocket.SocketBuffer.Read.{round_size, mem_eq, check_sep, find_at, find_from, Match, read_sep}
use lsocket.SocketBuffer.Inv.{
  bytes, flat, contents, IsSound, IsFresh, IsDistinct, HasRoom, IsValid, length-bytes,
}
use lsocket.SocketBuffer.Consume.{IsAt, ne_at, room_zero, take-out}
use lsocket.SocketBuffer.Agree.{Keeps, Took-Keeps}
use lsocket.SocketBuffer.Read.Sep.Found.{
  HasMemory, memory_next, Hit, rest_of, length-rest_of, drop-flat, Hits, check_sep-Hits,
}

record Cut (cs : List BufferNode) (o : ℕ) (sep : List ℕ) (l : ℕ) (f : Match) : Type 0 where
  k : ℕ
  m : ℕ
  begins : IsAt cs f.current f.i k
  stops : IsAt cs f.node f.end (k + m)
  from : o ≤ k
  same : take m (drop k (flat cs)) ≡ take m sep
  enough : l ≤ m
  short : m < 2 * l

abbrev Cuts : List BufferNode → ℕ → List ℕ → ℕ → Option Match → Type 0
Cuts cs o sep l none = Unit
Cuts cs o sep l (some f) = Cut cs o sep l f

Cut-Hit :
    (c : BufferNode) (cs : List BufferNode) (o i : ℕ) (sep : List ℕ) (l node end : ℕ)
    → o ≤ i
    → i ≤ c.sz
    → Hit (c ∷ cs) i sep l 0 node end
    → Cut (c ∷ cs) o sep l (record { current = c.addr; i = i; node = node; end = end })
Cut-Hit c cs o i sep l node end h g hit = record {
  k = i;
  m = hit.m;
  begins = inl (refl, g, refl);
  stops = hit.at;
  from = h;
  same = hit.same;
  enough = omega (arith, hit.enough);
  short = omega (arith, hit.short);
}

Cut-next :
    (c : BufferNode) (cs : List BufferNode) (o : ℕ) (sep : List ℕ) (l : ℕ) (f : Match)
    → c.sz ≤ length c.p
    → o ≤ c.sz
    → IsFresh c.addr cs
    → Cut cs 0 sep l f
    → Cut (c ∷ cs) o sep l f
Cut-next c cs o sep l f h r d cut =
    let a : c.sz + cut.k - c.sz ≡ cut.k = omega arith in
    let b : c.sz + cut.k + cut.m - c.sz ≡ cut.k + cut.m = omega arith in
    record {
      k = c.sz + cut.k;
      m = cut.m;
      begins = inr (ne_at c.addr cs f.current f.i cut.k d cut.begins, omega arith, rw a cut.begins);
      stops =
          inr
            (ne_at c.addr cs f.node f.end (cut.k + cut.m) d cut.stops, omega arith, rw b cut.stops);
      from = omega arith;
      same =
          ap (take cut.m) (
            drop-append_ge (c.sz + cut.k) (bytes c) (flat cs) (omega (arith, length-bytes c h))
            ∙ ap (λ j. drop j (flat cs)) (omega (arith, length-bytes c h)))
          ∙ cut.same;
      enough = cut.enough;
      short = cut.short;
    }

Cuts-next :
    (c : BufferNode) (cs : List BufferNode) (o : ℕ) (sep : List ℕ) (l : ℕ)
    → c.sz ≤ length c.p
    → o ≤ c.sz
    → IsFresh c.addr cs
    → (res : Option Match) → Cuts cs 0 sep l res
    → Cuts (c ∷ cs) o sep l res
Cuts-next c cs o sep l h r d none x = tt
Cuts-next c cs o sep l h r d (some f) x = Cut-next c cs o sep l f h r d x

module _ (sep : List ℕ) (l : ℕ) (full : 0 < l) where
  find_at-Cuts :
      (k : ℕ) (c : BufferNode) (cs : List BufferNode) (o i : ℕ)
      → IsSound (c ∷ cs)
      → IsDistinct (c ∷ cs)
      → o ≤ i
      → i + k ≡ c.sz
      → HasMemory (c ∷ cs) l 0 (length sep)
      → Returns (Cuts (c ∷ cs) o sep l) (find_at k c cs i sep l)
  unfolding find_at
  find_at-Cuts zero c cs o i s d h e mem = returns tt
  find_at-Cuts (suc k) c cs o i s d h e mem =
      let (r, q, hit) =
        Returns-some (check_sep-Hits (c ∷ cs) i sep l 0 s d (omega arith) full mem) in
      rw q (next r hit (find_at-Cuts k c cs o (i + 1) s d (omega arith) (omega arith) mem))
    where
      next :
          (r : Option (ℕ × ℕ))
          → Hits (c ∷ cs) i sep l 0 r
          → Returns (Cuts (c ∷ cs) o sep l) (find_at k c cs (i + 1) sep l)
          → Returns (Cuts (c ∷ cs) o sep l) (elim r [
            | none ↦ find_at k c cs (i + 1) sep l
            | some (node, end) ↦
                some (some (record { current = c.addr; i = i; node = node; end = end }))
          ])
      next none hit rest = rest
      next (some (node, end)) hit rest =
          returns (Cut-Hit c cs o i sep l node end h (omega arith) hit)

  find_from-Cuts :
      (cs : List BufferNode) (o : ℕ)
      → IsSound cs
      → IsDistinct cs
      → HasRoom o cs
      → HasMemory cs l 0 (length sep)
      → Returns (Cuts cs o sep l) (find_from cs o sep l)
  unfolding find_from
  find_from-Cuts [] o s d h mem = returns tt
  find_from-Cuts (c ∷ cs) o s d h mem =
      let (r, q, hit) =
        Returns-some (find_at-Cuts (c.sz - o) c cs o o s d (omega arith) (omega arith) mem) in
      rw q (
        next r hit (
          find_from-Cuts cs 0 s.2 d.1 (room_zero cs s.2)
            (memory_next c cs l 0 0 (length sep) full mem)))
    where
      next :
          (r : Option Match)
          → Cuts (c ∷ cs) o sep l r
          → Returns (Cuts cs 0 sep l) (find_from cs 0 sep l)
          → Returns
              (Cuts (c ∷ cs) o sep l)
              (elim r [ none ↦ find_from cs 0 sep l | some m ↦ some (some m) ])
      next none hit rest = Returns-mono rest (Cuts-next c cs o sep l s.1 (omega arith) d.0)
      next (some m) hit rest = returns hit

-- What `readsep` did: nil and nothing changed; or the bytes `d` were cut out from the front with the
-- `m` bytes behind them, which are the first `m` bytes of the memory at the separator.
abbrev pub IsCut : SocketBuffer → List ℕ → ℕ → SocketBuffer × Option (List ℕ) → Type 0
IsCut sb sep l (sb', none) = sb' ≡ sb
IsCut sb sep l (sb', some d) =
    Keeps sb sb'
    × ((m : ℕ) × (l ≤ m) × (m < 2 * l) × (contents sb ≡ d ++ (take m sep ++ contents sb')))

-- `readsep` on a valid buffer, for a separator of `l` bytes, at least one, with memory of `2 * l - 1`
-- bytes at it, or of `l` bytes if the buffer is one chunk: it does not fault. It returns nil and
-- changes nothing, or it cuts the bytes that it returns out of the front of the buffer, together with
-- at least `l` and less than `2 * l` bytes of the separator's memory; the invariant is kept, and every
-- node stays or is freed once.
pub read_sep-IsCut :
    (sb : SocketBuffer) (sep : List ℕ) (l : ℕ)
    → IsValid sb
    → 0 < l
    → HasMemory sb.head l 0 (length sep)
    → Returns (IsCut sb sep l) (read_sep sb sep l)
unfolding read_sep
read_sep-IsCut sb sep l v full mem =
    let (r, q, cuts) =
      Returns-some (find_from-Cuts sep l full sb.head sb.offset v.sound v.distinct v.room mem) in
    rw q (finish r cuts)
  where
    split :
        {f : Match} (cut : Cut sb.head sb.offset sep l f) (left : SocketBuffer)
        → contents left ≡ drop (cut.k + cut.m - sb.offset) (contents sb)
        → contents sb ≡ take (cut.k - sb.offset) (contents sb) ++ (take cut.m sep ++ contents left)
    split cut left e =
        let from : sb.offset ≤ cut.k = cut.from in
        let whole : sb.offset + (cut.k - sb.offset) ≡ cut.k = omega arith in
        let behind : cut.k + cut.m - sb.offset ≡ cut.k - sb.offset + cut.m = omega arith in
        cut_at (cut.k - sb.offset) cut.m (contents sb)
        ∙ ap₂ (λ ys zs. take (cut.k - sb.offset) (contents sb) ++ (ys ++ zs))
            (ap (take cut.m) (
                drop-drop (cut.k - sb.offset) sb.offset (flat sb.head)
                ∙ ap (λ j. drop j (flat sb.head)) whole)
              ∙ cut.same)
            (ap (λ j. drop j (contents sb)) (sym behind) ∙ sym e)

    finish :
        (r : Option Match)
        → Cuts sb.head sb.offset sep l r
        → Returns (IsCut sb sep l) (elim r [
          | none ↦ some (sb, none)
          | some m ↦ push_pack sb m.current m.i >>= λ pack.
              free_buffer sb m.node m.end >>= λ sb'. some (sb', some pack)
        ])
    finish none cuts = returns refl
    finish (some f) cut =
        let a = take-out sb f.current f.i cut.k v cut.begins cut.from in
        let b = take-out sb f.node f.end (cut.k + cut.m) v cut.stops (omega (arith, cut.from)) in
        rw (a.packed, b.freed)
          (returns (Took-Keeps b, (cut.m, cut.enough, cut.short, split cut b.left b.rest)))
