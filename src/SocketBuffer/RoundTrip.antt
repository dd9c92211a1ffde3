-- ===== src/SocketBuffer/RoundTrip.antt =====
-- What is pushed on a buffer of src/lsocketbuffer.c comes out again, whatever the chunks are.
use lsocket.Prelude.{
  ℕ, suc, ◌+◌, ◌^◌, ◌≤◌, ◌<◌, ◌≡◌, refl, sym, ap, ◌∙◌, ◌≢◌, pos, Option, none, some, List, [], ◌∷◌,
  ◌++◌, append_assoc, append-nil, arith, length, take, drop, length-append, length-take, take-all,
  Returns, returns, Returns-mono, Returns-some, take-append-drop, leb, true,
}
use lsocket.SocketBuffer.{BufferNode, SocketBuffer, new, push, ◌>>=◌}
use lsocket.SocketBuffer.Inv.{contents, total, IsFresh, IsValid}
use lsocket.SocketBuffer.Push.{
  push-appended, appended-IsValid, contents-appended, appended, total-snoc, IsFresh-snoc, node,
}
use lsocket.SocketBuffer.Spec
use lsocket.SocketBuffer.Read.{read_n, read_all}
use lsocket.SocketBuffer.Read.Count.{read_n-refines}
use lsocket.SocketBuffer.Read.All.{read_all-refines}

-- A chunk, with the address that `malloc` returns for its node.
abbrev pub Chunk : Type 0
Chunk = ℕ × List ℕ

-- one `lpush` for each chunk
pub push_each : List Chunk → SocketBuffer → Option SocketBuffer
push_each [] sb = some sb
push_each ((a, p) ∷ cs) sb = push a sb (some p) (pos (length p)) >>= λ r. push_each cs r.0

-- the bytes of the chunks
abbrev pub join : List Chunk → List ℕ
join [] = []
join ((a, p) ∷ cs) = p ++ join cs

abbrev pub NotIn : ℕ → List Chunk → Type 0
NotIn a [] = Unit
NotIn a ((b, p) ∷ cs) = (b ≢ a) × NotIn a cs

-- `malloc` returns no address twice, since no node is freed in between.
abbrev pub AreNew : List Chunk → Type 0
AreNew [] = Unit
AreNew ((a, p) ∷ cs) = NotIn a cs × AreNew cs

-- no address is in use
abbrev pub AreFresh : List Chunk → List BufferNode → Type 0
AreFresh [] ns = Unit
AreFresh ((a, p) ∷ cs) ns = IsFresh a ns × AreFresh cs ns

AreFresh-nil : (cs : List Chunk) → AreFresh cs []
AreFresh-nil [] = tt
AreFresh-nil ((a, p) ∷ cs) = (tt, AreFresh-nil cs)

AreFresh-snoc :
    (cs : List Chunk) (ns : List BufferNode) (n : BufferNode)
    → AreFresh cs ns
    → NotIn n.addr cs
    → AreFresh cs (ns ++ n ∷ [])
AreFresh-snoc [] ns n f h = tt
AreFresh-snoc ((a, p) ∷ cs) ns n f h =
    (IsFresh-snoc a ns n f.0 (λ e. h.0 (sym e)), AreFresh-snoc cs ns n f.1 h.1)

-- After the pushes the buffer is valid and holds the bytes behind those that it held.
pub record Pushed (xs : List ℕ) (sb' : SocketBuffer) : Type 0 where
  pub valid : IsValid sb'
  pub holds : contents sb' ≡ xs

push_each-Pushed :
    (cs : List Chunk) (sb : SocketBuffer)
    → IsValid sb
    → AreNew cs
    → AreFresh cs sb.head
    → total sb.head + length (join cs) < 2 ^ 31
    → Returns (Pushed (contents sb ++ join cs)) (push_each cs sb)
unfolding push_each push
push_each-Pushed [] sb v n f h =
    returns (record { valid = v; holds = sym (append-nil (contents sb)) })
push_each-Pushed ((a, []) ∷ cs) sb v n f h = push_each-Pushed cs sb v n.1 f.1 h
push_each-Pushed ((a, x ∷ p) ∷ cs) sb v n f h =
    let k = length p in
    let l : length (x ∷ p ++ join cs) ≡ suc k + length (join cs) =
      length-append {0} (x ∷ p) (join cs) in
    let le : suc k ≤ length (x ∷ p) = omega arith in
    let fits : total sb.head + suc k < 2 ^ 31 = omega (arith, h, l) in
    let b = node sb v a f.0 (x ∷ p) k le fits in
    let sb' = appended sb b in
    let e : contents sb' ++ join cs ≡ contents sb ++ (x ∷ p ++ join cs) =
      ap (λ t. t ++ join cs) (contents-appended sb v a f.0 (x ∷ p) k le fits)
      ∙ ap (λ t. (contents sb ++ t) ++ join cs) (take-all (suc k) (x ∷ p) (omega arith))
      ∙ append_assoc (contents sb) (x ∷ p) (join cs) in
    rw (push-appended sb v a f.0 (x ∷ p) k le fits) (
      Returns-mono
        (push_each-Pushed cs sb' (appended-IsValid sb v a f.0 (x ∷ p) k le fits) n.1
          (AreFresh-snoc cs sb.head b f.1 n.0) (omega (arith, h, l, total-snoc sb.head b)))
        (λ s q. record { valid = q.valid; holds = q.holds ∙ e }))

pub new-IsValid : IsValid new
unfolding new
new-IsValid = record {
  sound = tt;
  distinct = tt;
  last = tt;
  room = refl;
  counted = refl;
  fits = omega arith;
}

abbrev pub bytes_of : Option (List ℕ) → List ℕ
bytes_of none = []
bytes_of (some xs) = xs

-- `readn` of `k` bytes and then `readall`: what they leave, and what they return
abbrev pub read_parts : (k : ℕ) → SocketBuffer → Option (SocketBuffer × (List ℕ × List ℕ))
read_parts k sb =
    read_n sb (pos k) >>= λ r. read_all r.0 >>= λ t. some (t.0, (bytes_of r.1, bytes_of t.1))

-- the two parts of `xs`, cut behind `k` bytes
pub record IsParts (k : ℕ) (xs : List ℕ) (r : SocketBuffer × (List ℕ × List ℕ)) : Type 0 where
  pub empty : contents r.0 ≡ []
  pub size : length r.1.0 ≡ k
  pub whole : r.1.0 ++ r.1.1 ≡ xs

spec-parts :
    (k : ℕ) (xs : List ℕ)
    → k ≤ length xs
    → let r = Spec.read_n xs k in
      let t = Spec.read_all r.0 in
      (t.0 ≡ []) × (length (bytes_of r.1) ≡ k) × (bytes_of r.1 ++ bytes_of t.1 ≡ xs)
unfolding Spec.read_n Spec.read_all
spec-parts k xs h =
    let l : leb k (length xs) ≡ true = ground arith in rw l (at (drop k xs) (take-append-drop k xs))
  where
    at :
        (ys : List ℕ)
        → take k xs ++ ys ≡ xs
        → let t = Spec.read_all ys in
          (t.0 ≡ []) × (length (take k xs) ≡ k) × (take k xs ++ bytes_of t.1 ≡ xs)
    at [] e = (refl, omega (arith, length-take k xs), e)
    at (y ∷ ys) e = (refl, omega (arith, length-take k xs), e)

-- The same, from the equations that `readn` and `readall` give.
parts_lem :
    (k : ℕ) (xs ys zs : List ℕ) (v w : Option (List ℕ))
    → ◌≡◌ {A = Spec.Reply} (ys, v) (Spec.read_n xs k)
    → ◌≡◌ {A = Spec.Reply} (zs, w) (Spec.read_all ys)
    → k ≤ length xs
    → (zs ≡ []) × (length (bytes_of v) ≡ k) × (bytes_of v ++ bytes_of w ≡ xs)
parts_lem k xs ys zs v w e e' h =
    let a : ys ≡ (Spec.read_n xs k).0 = ap (λ r. r.0) e in
    let b : v ≡ (Spec.read_n xs k).1 = ap (λ r. r.1) e in
    let c : zs ≡ (Spec.read_all ys).0 = ap (λ r. r.0) e' in
    let d : w ≡ (Spec.read_all ys).1 = ap (λ r. r.1) e' in rw (c, d, b, a) (spec-parts k xs h)

read_parts-IsParts :
    (k : ℕ) (xs : List ℕ) (sb : SocketBuffer)
    → Pushed xs sb
    → k < 2 ^ 31
    → k ≤ length xs
    → Returns (IsParts k xs) (read_parts k sb)
read_parts-IsParts k xs sb p h le =
    let (r, e, q) = Returns-some (read_n-refines sb k p.valid h) in
    let (t, e', q') = Returns-some (read_all-refines r.0 q.0.valid) in
    let (empty, size, whole) =
      parts_lem k xs (contents r.0) (contents t.0) r.1 t.1 (q.1 ∙ ap (λ c. Spec.read_n c k) p.holds)
        q'.1 le in
    rw (e, e') (returns (record { empty = empty; size = size; whole = whole }))

push_each-new :
    (cs : List Chunk)
    → AreNew cs
    → length (join cs) < 2 ^ 31
    → Returns (Pushed (join cs)) (push_each cs new)
unfolding new
push_each-new cs n h = push_each-Pushed cs new new-IsValid n (AreFresh-nil cs) (omega (arith, h))

-- Chunks that are pushed on a new buffer come out again byte for byte, in order and whole, in two
-- reads cut anywhere, at the border of a chunk or inside it: `readn` gives the first `k` bytes and
-- `readall` the others, and the buffer is empty again. No operation faults.
pub push_each-read_parts :
    (cs : List Chunk) (k : ℕ)
    → AreNew cs
    → length (join cs) < 2 ^ 31
    → k ≤ length (join cs)
    → Returns (IsParts k (join cs)) (push_each cs new >>= read_parts k)
push_each-read_parts cs k n h le =
    let (sb, e, p) = Returns-some (push_each-new cs n h) in
    rw e (read_parts-IsParts k (join cs) sb p (omega (arith, h)) le)
