-- ===== src/SocketBuffer/Read/Sep/Whole.antt =====
-- `readsep` and `lfindsep` of src/lsocketbuffer.c when the separator lies in one chunk.
use lsocket.Prelude.{
  ℕ_discrete, leb, false, ◌⊎◌, length-drop, ap, Bool, ℕ_discrete, ℕ, zero, suc, ◌+◌, ◌-◌, ◌≤◌, ◌<◌,
  ◌≡◌, refl, ap, ◌∙◌, inl, inr, Option, none, some, List, [], ◌∷◌, true, arith, length, take, drop,
  leb, ==_true, Returns, returns, Returns-some, length-drop,
}
use lsocket.SocketBuffer.{BufferNode, SocketBuffer}
use lsocket.SocketBuffer.Read.Sep.{find_at-Cuts}
use lsocket.SocketBuffer.Read.Sep.Found.{HasMemory, memory_here, memory_next, check_sep-Hits}
use lsocket.SocketBuffer.Read.{find_sep, round_size, mem_eq, check_sep, find_at, find_from, Match}
use lsocket.SocketBuffer.Inv.{IsSound, IsDistinct, HasRoom, IsValid}
use lsocket.SocketBuffer.Consume.{room_zero}

mem_eq-same :
    (k : ℕ) (xs ys : List ℕ)
    → k ≤ length xs
    → k ≤ length ys
    → take k xs ≡ take k ys
    → mem_eq k xs ys ≡ some true
unfolding mem_eq
mem_eq-same zero xs ys a b e = refl
mem_eq-same (suc k) [] ys a b e = absurd (omega arith)
mem_eq-same (suc k) (x ∷ xs) [] a b e = absurd (omega arith)
mem_eq-same (suc k) (x ∷ xs) (y ∷ ys) a b e =
    rw (mem_eq-same k xs ys (omega arith) (omega arith) (cc), ==_true {a = x} {b = y} (cc)) refl

-- The separator, the first `l` bytes at `sep`, stands in one of the chunks.
abbrev pub IsWhole : List BufferNode → ℕ → List ℕ → ℕ → Type 0
IsWhole [] o sep l = ⊥
IsWhole (c ∷ cs) o sep l =
    ((i : ℕ) × (o ≤ i) × (i + l ≤ c.sz) × (take l (drop i c.p) ≡ take l sep)) ⊎ IsWhole cs 0 sep l

abbrev pub IsFound : Option Match → Type 0
IsFound none = ⊥
IsFound (some m) = Unit

module _ (sep : List ℕ) (l : ℕ) (full : 0 < l) where
  check_sep-here :
      (c : BufferNode) (cs : List BufferNode) (i : ℕ)
      → c.sz ≤ length c.p
      → i + l ≤ c.sz
      → take l (drop i c.p) ≡ take l sep
      → l ≤ length sep
      → check_sep (c ∷ cs) i sep l 0 ≡ some (some (c.addr, i + l))
  unfolding check_sep
  check_sep-here c cs i s b e mem =
      let r : round_size l (c.sz - i) ≡ l = ground arith in
      let m : mem_eq l (drop i c.p) sep ≡ some true =
        mem_eq-same l (drop i c.p) sep (omega (arith, length-drop {0} i c.p)) (omega arith) e in
      let z : leb l (0 + l) ≡ true = ground arith in rw (r, m, z) refl

  find_at-IsFound :
      (k : ℕ) (c : BufferNode) (cs : List BufferNode) (i j : ℕ)
      → IsSound (c ∷ cs)
      → IsDistinct (c ∷ cs)
      → i ≤ j
      → i + k ≡ c.sz
      → j + l ≤ c.sz
      → take l (drop j c.p) ≡ take l sep
      → HasMemory (c ∷ cs) l 0 (length sep)
      → Returns IsFound (find_at k c cs i sep l)
  unfolding find_at
  find_at-IsFound zero c cs i j s d h e b w mem = absurd (omega arith)
  find_at-IsFound (suc k) c cs i j s d h e b w mem = elim (ℕ_discrete i j) [
    | yes p ↦
        rw
          (check_sep-here c cs i s.1 (omega arith) (ap (λ t. take l (drop t c.p)) p ∙ w)
            (omega (arith, memory_here c cs l 0 (length sep) l full (omega arith) mem)))
          (returns tt)
    | no p ↦
        let (r, q, hit) =
          Returns-some (check_sep-Hits (c ∷ cs) i sep l 0 s d (omega arith) full mem) in
        rw q (next r (find_at-IsFound k c cs (i + 1) j s d (omega arith) (omega arith) b w mem))
  ]
    where
      next :
          (r : Option (ℕ × ℕ))
          → Returns IsFound (find_at k c cs (i + 1) sep l)
          → Returns IsFound (elim r [
            | none ↦ find_at k c cs (i + 1) sep l
            | some (node, end) ↦
                some (some (record { current = c.addr; i = i; node = node; end = end }))
          ])
      next none rest = rest
      next (some (node, end)) rest = returns tt

  find_from-IsFound :
      (cs : List BufferNode) (o : ℕ)
      → IsSound cs
      → IsDistinct cs
      → HasRoom o cs
      → IsWhole cs o sep l
      → HasMemory cs l 0 (length sep)
      → Returns IsFound (find_from cs o sep l)
  unfolding find_from
  find_from-IsFound [] o s d h w mem = absurd w
  find_from-IsFound (c ∷ cs) o s d h (inl (j, a, b, e)) mem =
      let (r, q, f) =
        Returns-some (find_at-IsFound (c.sz - o) c cs o j s d a (omega arith) b e mem) in
      rw q (found r f)
    where
      found :
          (r : Option Match)
          → IsFound r
          → Returns IsFound (elim r [ none ↦ find_from cs 0 sep l | some m ↦ some (some m) ])
      found none f = absurd f
      found (some m) f = returns tt
  find_from-IsFound (c ∷ cs) o s d h (inr w) mem =
      let (r, q, hit) =
        Returns-some
          (find_at-Cuts sep l full (c.sz - o) c cs o o s d (omega arith) (omega arith) mem) in
      rw q (
        next r (
          find_from-IsFound cs 0 s.2 d.1 (room_zero cs s.2) w
            (memory_next c cs l 0 0 (length sep) full mem)))
    where
      next :
          (r : Option Match)
          → Returns IsFound (find_from cs 0 sep l)
          → Returns IsFound (elim r [ none ↦ find_from cs 0 sep l | some m ↦ some (some m) ])
      next none rest = rest
      next (some m) rest = returns tt

  -- On a valid buffer in which the separator stands whole in one of the chunks, behind what was read,
  -- with memory of `2 * l - 1` bytes at the separator, or of `l` bytes if the buffer is one chunk:
  -- `lfindsep` finds it.
  pub find_sep-IsWhole :
      (sb : SocketBuffer)
      → IsValid sb
      → HasMemory sb.head l 0 (length sep)
      → IsWhole sb.head sb.offset sep l
      → find_sep sb sep l ≡ some true
  unfolding find_sep
  find_sep-IsWhole sb v mem w =
      let (r, q, f) =
        Returns-some (find_from-IsFound sb.head sb.offset v.sound v.distinct v.room w mem) in
      rw q (said r f)
    where
      said :
          (r : Option Match)
          → IsFound r
          → ◌≡◌ {A = Option Bool} (some (elim r [ none ↦ false | some m ↦ true ])) (some true)
      said none f = absurd f
      said (some m) f = refl
