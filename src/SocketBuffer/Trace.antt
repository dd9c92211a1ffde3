-- ===== src/SocketBuffer/Trace.antt =====
-- Runs of calls on a buffer of src/lsocketbuffer.c, as a step relation, against a queue of bytes.
use lsocket.Prelude.{
  ℕ, suc, ◌+◌, ◌^◌, ◌≤◌, ◌<◌, ◌≡◌, sym, ap, ◌∙◌, ℤ, pos, Option, some, List, [], ◌∷◌, ◌++◌, length,
  take, Returns, returns,
}
use mathlib.Core.Path.{subst}
use lsocket.SocketBuffer.{SocketBuffer, new, push}
use lsocket.SocketBuffer.Inv.{contents, total, IsFresh, IsValid}
use lsocket.SocketBuffer.Push.{push-append}
use lsocket.SocketBuffer.Agree.{Agrees}
use lsocket.SocketBuffer.Spec
use lsocket.SocketBuffer.Spec.{index_of}
use lsocket.SocketBuffer.Read.{read_n, read_all, read_sep}
use lsocket.SocketBuffer.Read.Count.{read_n-refines}
use lsocket.SocketBuffer.Read.All.{read_all-refines}
use lsocket.SocketBuffer.Read.Byte.{read_sep-refines}
use lsocket.SocketBuffer.RoundTrip.{new-IsValid}
use lsocket.SocketBuffer.Queue.{
  Event, Does, does_push, does_read_n, does_read_byte, does_read_all, DoesAll, does_none, does_more,
  some-injective, all_in, all_out, DoesAll-balance,
}

-- A call of `lpush`, `readn`, `readsep` with one byte, or `readall`, which returns. `malloc` gives an
-- address that is not in use, and the sizes fit into an `int`.
pub data Step : SocketBuffer → Event → SocketBuffer → Type 0 where
  by_push :
      {sb sb' : SocketBuffer} (a : ℕ) (p : List ℕ) (n : ℕ) {size : ℤ}
      → IsFresh a sb.head
      → suc n ≤ length p
      → total sb.head + suc n < 2 ^ 31
      → push a sb (some p) (pos (suc n)) ≡ some (sb', some size)
      → Step sb (Event.pushed (take (suc n) p) size) sb'
  by_read_n :
      {sb sb' : SocketBuffer} (n : ℕ) {v : Option (List ℕ)}
      → n < 2 ^ 31
      → read_n sb (pos n) ≡ some (sb', v)
      → Step sb (Event.popped n v) sb'
  by_read_sep :
      {sb sb' : SocketBuffer} (x : ℕ) (behind : List ℕ) {v : Option (List ℕ)}
      → read_sep sb (x ∷ behind) 1 ≡ some (sb', v)
      → Step sb (Event.cut x v) sb'
  by_read_all :
      {sb sb' : SocketBuffer} {v : Option (List ℕ)}
      → read_all sb ≡ some (sb', v)
      → Step sb (Event.emptied v) sb'

-- calls one after the other
pub data Run : SocketBuffer → List Event → SocketBuffer → Type 0 where
  done : {sb : SocketBuffer} → Run sb [] sb
  followed :
      {a b c : SocketBuffer} {e : Event} {es : List Event}
      → Step a e b
      → Run b es c
      → Run a (e ∷ es) c

-- What holds of every result of a call holds of the one that it has.
Returns-at : {A : Type 0} {P : A → Type 0} {o : Option A} (a : A) → Returns P o → o ≡ some a → P a
Returns-at {P = P} a (returns {a = b} h) e = subst P (some-injective e) h

-- A reader that agrees with one of the queue does what an event says that the queue does.
Agrees-Does :
    {sb sb' : SocketBuffer} {v : Option (List ℕ)} (r : Spec.Reply) (e : Option (List ℕ) → Event)
    → Agrees sb r (sb', v)
    → Does (contents sb) (e r.1) r.0
    → Does (contents sb) (e v) (contents sb')
Agrees-Does {sb} r e (k, q) d = subst (λ t. Does (contents sb) (e t.1) t.0) (sym q) d

pub Step-Does :
    {sb sb' : SocketBuffer} {e : Event}
    → IsValid sb
    → Step sb e sb'
    → IsValid sb' × Does (contents sb) e (contents sb')
Step-Does {sb} {sb'} v (by_push a p n {size} fresh le fits q) =
    let ys = contents sb ++ take (suc n) p in
    let (t, q', c, v', l) = push-append sb v a fresh p n le fits in
    let both : (t, some (pos (length (contents t)))) ≡ (sb', some size) =
      some-injective (sym q' ∙ q) in
    let e : sb' ≡ t = sym (ap (λ r. r.0) both) in
    let z : size ≡ pos (length ys) =
      sym (some-injective (ap (λ r. r.1) both)) ∙ ap (λ xs. pos (length xs)) c in
    (
      subst IsValid (sym e) v',
      subst (λ xs. Does (contents sb) (Event.pushed (take (suc n) p) size) xs)
          (sym (ap contents e ∙ c))
          (subst (λ k. Does (contents sb) (Event.pushed (take (suc n) p) k) ys) (sym z) does_push),
    )
Step-Does {sb} {sb'} v (by_read_n n h q) =
    let g = Returns-at _ (read_n-refines sb n v h) q in
    (g.0.valid, Agrees-Does (Spec.read_n (contents sb) n) (Event.popped n) g (does_read_n n))
Step-Does {sb} {sb'} v (by_read_sep x behind q) =
    let g = Returns-at _ (read_sep-refines x behind sb v) q in
    (g.0.valid, Agrees-Does (Spec.read_byte (contents sb) x) (Event.cut x) g (does_read_byte x))
Step-Does {sb} {sb'} v (by_read_all q) =
    let g = Returns-at _ (read_all-refines sb v) q in
    (g.0.valid, Agrees-Does (Spec.read_all (contents sb)) Event.emptied g does_read_all)

Run-DoesAll :
    {sb sb' : SocketBuffer} {es : List Event}
    → IsValid sb
    → Run sb es sb'
    → IsValid sb' × DoesAll (contents sb) es (contents sb')
Run-DoesAll v done = (v, does_none)
Run-DoesAll v (followed s r) =
    let (v', d) = Step-Does v s in let (v'', ds) = Run-DoesAll v' r in (v'', does_more d ds)

-- Every run of pushes, `readn`, one-byte `readsep` and `readall` that starts with `lnew`, in any
-- order, keeps the invariant of the buffer and gives the results of a queue of bytes: all the bytes
-- that were pushed are those that were taken out, in order and the separators with them, followed by
-- those that the buffer holds.
pub Run-queue :
    (es : List Event) (sb : SocketBuffer)
    → Run new es sb
    → IsValid sb × DoesAll [] es (contents sb) × (all_in es ≡ all_out es ++ contents sb)
unfolding new
Run-queue es sb r = let (v, d) = Run-DoesAll new-IsValid r in (v, d, DoesAll-balance d)
