-- ===== src/SocketBuffer/Read/Byte.antt =====
-- `readsep` and `lfindsep` of src/lsocketbuffer.c for a separator of one byte.
use mathlib.Core.Option
use native.Mathlib.Numerals.{add-one}
use mathlib.Core.Path.{subst}
use lsocket.Prelude.{
  ℕ_discrete, ℕ, zero, suc, ◌+◌, ◌-◌, ◌≤◌, ◌<◌, ◌≡◌, refl, ap, ◌∙◌, inl, inr, Option, none, some,
  List, [], ◌∷◌, Bool, true, false, arith, length, take, drop, ==_true, ==_false, Returns, returns,
  Returns-some, Returns-mono, drop-nil, ◌==◌, if◌then◌else◌,
}
use lsocket.SocketBuffer.{BufferNode, SocketBuffer, ◌>>=◌, push_pack, free_buffer}
use lsocket.SocketBuffer.Read.{round_size, check_sep, find_at, find_from, Match, read_sep, find_sep}
use lsocket.SocketBuffer.Inv.{flat, contents, IsSound, IsFresh, IsDistinct, HasRoom, IsValid}
use lsocket.SocketBuffer.Consume.{IsAt, ne_at, room_zero, take-out}
use lsocket.SocketBuffer.Agree.{Agrees, Took-Keeps}
use lsocket.SocketBuffer.Spec
use lsocket.SocketBuffer.Spec.{index_of}
use lsocket.SocketBuffer.Read.Sep.Found.{rest_of, drop-flat, length-rest_of}
use lsocket.SocketBuffer.Read.Places.{index_of-append, drop-cons, place, place_zero, place_suc}

module _ (x : ℕ) (behind : List ℕ) where
  -- one comparison of `checksep`
  check_sep-byte :
      (c : BufferNode) (cs : List BufferNode) (i y : ℕ) (ys : List ℕ)
      → i < c.sz
      → drop i c.p ≡ y ∷ ys
      → check_sep (c ∷ cs) i (x ∷ behind) 1 0 ≡ some (if y == x then some (c.addr, i + 1) else none)
  unfolding check_sep
  check_sep-byte c cs i y ys h e = rw (one, e) (ground arith)
    where
      one : round_size 1 (c.sz - i) ≡ 1
      one = ground arith

  find_at-byte :
      (k : ℕ) (c : BufferNode) (cs : List BufferNode) (i : ℕ)
      → c.sz ≤ length c.p
      → i + k ≡ c.sz
      → find_at k c cs i (x ∷ behind) 1
        ≡ some (Option.map (place c i) (index_of x (take k (drop i c.p))))
  unfolding find_at index_of
  find_at-byte zero c cs i h e = refl
  find_at-byte (suc k) c cs i h e =
      let (y, q) = drop-cons i c.p (omega arith) in
      let next = find_at-byte k c cs (i + 1) h (omega arith) in
      rw (check_sep-byte c cs i y (drop (suc i) c.p) (omega arith) q, q)
        (elim (ℕ_discrete y x) [
          | yes p ↦ rw (==_true p) (ap (λ f. some (some f)) (place_zero c i))
          | no p ↦ rw (==_false p) (
              next
              ∙ ap (λ j. some (Option.map (place c (i + 1)) (index_of x (take k (drop j c.p)))))
                  (add-one i)
              ∙ ap some (place_suc c i (index_of x (take k (drop (suc i) c.p)))))
        ])

  abbrev Places : List BufferNode → ℕ → Option Match → Option ℕ → Type 0
  Places cs o none none = Unit
  Places cs o none (some j) = ⊥
  Places cs o (some f) none = ⊥
  Places cs o (some f) (some j) = IsAt cs f.current f.i (o + j) × IsAt cs f.node f.end (o + j + 1)

  Places-next :
      (c : BufferNode) (cs : List BufferNode) (o n : ℕ)
      → o + n ≡ c.sz
      → IsFresh c.addr cs
      → (r : Option Match) (j : Option ℕ) → Places cs 0 r j
      → Places (c ∷ cs) o r (Option.map (λ i. n + i) j)
  Places-next c cs o n e d none none h = tt
  Places-next c cs o n e d none (some j) h = h
  Places-next c cs o n e d (some f) none h = h
  Places-next c cs o n e d (some f) (some j) (a, b) =
      let a' : IsAt cs f.current f.i (o + (n + j) - c.sz) =
        subst (IsAt cs f.current f.i) (omega arith) a in
      let b' : IsAt cs f.node f.end (o + (n + j) + 1 - c.sz) =
        subst (IsAt cs f.node f.end) (omega arith) b in
      (
        inr (ne_at c.addr cs f.current f.i _ d a', omega arith, a'),
        inr (ne_at c.addr cs f.node f.end _ d b', omega arith, b'),
      )

  index_of-lt : (xs : List ℕ) (j : ℕ) → index_of x xs ≡ some j → j < length xs
  unfolding index_of
  index_of-lt [] j h = cc
  index_of-lt (y ∷ xs) j h = grind (arith, index_of-lt xs)

  find_from-byte :
      (cs : List BufferNode) (o : ℕ)
      → IsSound cs
      → IsDistinct cs
      → HasRoom o cs
      → Returns (λ r. Places cs o r (index_of x (drop o (flat cs)))) (find_from cs o (x ∷ behind) 1)
  unfolding find_from rest_of
  find_from-byte [] o s d h = returns (rw (drop-nil ℕ o) none_lem)
    where
      none_lem : Places [] o none (index_of x [])
      none_lem = unfold index_of in tt
  find_from-byte (c ∷ cs) o s d h =
      rw
        (
          find_at-byte (c.sz - o) c cs o s.1 (omega arith),
          drop-flat c cs o s.1 (omega arith),
          index_of-append x (rest_of c o) (flat cs),
        )
        (next (index_of x (rest_of c o)) (index_of-lt (rest_of c o))
          (find_from-byte cs 0 s.2 d.1 (room_zero cs s.2)))
    where
      next :
          (j : Option ℕ)
          → ((i : ℕ) → j ≡ some i → i < length (rest_of c o))
          → Returns (λ r. Places cs 0 r (index_of x (flat cs))) (find_from cs 0 (x ∷ behind) 1)
          → Returns
              (λ r. Places (c ∷ cs) o r (elim j [
                | none ↦ Option.map (λ i. length (rest_of c o) + i) (index_of x (flat cs))
                | some i ↦ some i
              ]))
              (elim (Option.map (place c o) j) [
                | none ↦ find_from cs 0 (x ∷ behind) 1
                | some m ↦ some (some m)
              ])
      next none lt rest = Returns-mono rest (λ r.
          Places-next c cs o (length (rest_of c o)) (omega (arith, length-rest_of c o s.1)) d.0 r
            (index_of x (flat cs)))
      next (some i) lt rest =
          let b : i < length (rest_of c o) = lt i refl in
          let e : length (rest_of c o) ≡ c.sz - o = length-rest_of c o s.1 in
          returns (inl (refl, omega arith, refl), inl (refl, omega arith, refl))

  -- `readsep` on a valid buffer, for a separator of one byte, whatever stands behind it in memory: it
  -- does not fault, it returns the bytes before the first such byte and drops that byte with them, or
  -- returns nil and changes nothing if there is none; the invariant is kept, and every node stays in
  -- the chain or is freed once.
  pub read_sep-refines :
      (sb : SocketBuffer)
      → IsValid sb
      → Returns (Agrees sb (Spec.read_byte (contents sb) x)) (read_sep sb (x ∷ behind) 1)
  unfolding read_sep Spec.read_byte
  read_sep-refines sb v =
      let (r, q, p) = Returns-some (find_from-byte sb.head sb.offset v.sound v.distinct v.room) in
      rw q (finish r (index_of x (contents sb)) p)
    where
      finish :
          (r : Option Match) (j : Option ℕ)
          → Places sb.head sb.offset r j
          → Returns
              (Agrees sb (elim j [
                | none ↦ (contents sb, none)
                | some i ↦ (drop (i + 1) (contents sb), some (take i (contents sb)))
              ]))
              (elim r [
                | none ↦ some (sb, none)
                | some m ↦ push_pack sb m.current m.i >>= λ pack.
                    free_buffer sb m.node m.end >>= λ sb'. some (sb', some pack)
              ])
      finish none none p = returns (record { valid = v; log = refl }, refl)
      finish none (some j) p = absurd p
      finish (some f) none p = absurd p
      finish (some f) (some j) (a, b) =
          let t = take-out sb f.current f.i (sb.offset + j) v a (omega arith) in
          let u = take-out sb f.node f.end (sb.offset + j + 1) v b (omega arith) in
          let i : sb.offset + j - sb.offset ≡ j = omega arith in
          let k : sb.offset + j + 1 - sb.offset ≡ j + 1 = omega arith in
          rw (t.packed, u.freed, i) (returns (Took-Keeps u, rw (u.rest, k)))

  -- `lfindsep` on a valid buffer, for a separator of one byte: it does not fault, and says whether
  -- the byte is in the buffer.
  pub find_sep-refines :
      (sb : SocketBuffer)
      → IsValid sb
      → find_sep sb (x ∷ behind) 1
        ≡ some (elim (index_of x (contents sb)) [ none ↦ false | some i ↦ true ])
  unfolding find_sep
  find_sep-refines sb v =
      let (r, q, p) = Returns-some (find_from-byte sb.head sb.offset v.sound v.distinct v.room) in
      rw q (ap some (said r (index_of x (contents sb)) p))
    where
      said :
          (r : Option Match) (j : Option ℕ)
          → Places sb.head sb.offset r j
          → ◌≡◌ {A = Bool}
              (elim r [ none ↦ false | some m ↦ true ])
              (elim j [ none ↦ false | some i ↦ true ])
      said none none p = refl
      said none (some j) p = absurd p
      said (some f) none p = absurd p
      said (some f) (some j) p = refl
