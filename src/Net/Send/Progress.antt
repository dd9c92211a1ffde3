-- ===== src/Net/Send/Progress.antt =====
-- The flush of a TCP send queue of src/socket.c gets done, if the kernel takes bytes.
use lsocket.Prelude.{
  ℕ, zero, suc, ◌-◌, ◌≤◌, ◌<◌, ◌≡◌, refl, ℤ, pos, true, List, [], ◌∷◌, ltb, inl, inr, arith,
  Bool-cases, ltb→lt, if◌then◌else◌,
}
use mathlib.Core.Path.{subst}
use lsocket.Platform.{Answer, World, Sys, Call}
use lsocket.Platform.Sane.{retry-done}
use lsocket.Net.{Socket, Sbuffer, Protocol}
use lsocket.Net.Exact.{load}
use lsocket.Net.Send.{unsent, advance, tcp_wrote, send_tcp, send_by, is_success}

abbrev pub AreFull : List Sbuffer → Type 0
AreFull [] = Unit
AreFull (b ∷ bs) = (0 < b.sz) × AreFull bs

-- what is left of a queue after a `write` that took `n` bytes of its first buffer
abbrev pub left : List Sbuffer → ℕ → List Sbuffer
left [] n = []
left (b ∷ bs) n = if ltb n b.sz then advance b n ∷ bs else bs

-- Until the queue is empty, the kernel answers each `write` of it, and takes at least one byte. Its
-- answers after that are free.
abbrev pub Takes : List Sbuffer → List Answer → Type 0
Takes [] as' = Unit
Takes (b ∷ bs) [] = ⊥
Takes (b ∷ bs) (a ∷ as') = (n : ℕ) × (a.ret ≡ pos (suc n)) × Takes (left (b ∷ bs) (suc n)) as'

-- `_send_buffer` in so many rounds, as `socket_poll` calls it, up to an error
pub flush : ℕ → Socket → Sys (ℤ × Socket)
flush zero s w = ((pos 0, s), w)
flush (suc k) s w =
    let ((e, s'), w') = send_by Protocol.tcp s w in
    let rest = flush k s' w' in if is_success e then rest else ((e, s'), w')

-- What a round leaves of a queue `q`: less to send, and answers for it.
pub record Round (q : List Sbuffer) (r : (ℤ × Socket) × World) : Type 0 where
  pub success : is_success r.0.0 ≡ true
  pub full : AreFull r.0.1.head
  pub takes : Takes r.0.1.head r.1.answers
  pub less : load r.0.1.head ≤ load q - 1

tcp_wrote-Round :
    (b : Sbuffer) (bs : List Sbuffer) (s : Socket) (e n : ℕ) (ret : ℤ) (w : World)
    → ret ≡ pos (suc n)
    → AreFull (b ∷ bs)
    → Takes (left (b ∷ bs) (suc n)) w.answers
    → ((s' : Socket) → Takes bs w.answers → Round bs (send_tcp bs s' w))
    → Round (b ∷ bs) (tcp_wrote b bs s (send_tcp bs) e ret w)
unfolding tcp_wrote
tcp_wrote-Round b bs s e n ret w q f t ih = rw q (elim (Bool-cases (ltb (suc n) b.sz)) [
  | inl y ↦ rw y (record {
    success = refl;
    full = (omega (arith, ltb→lt _ _ y), f.1);
    takes = subst (λ c. Takes (if c then advance b (suc n) ∷ bs else bs) w.answers) y t;
    less = omega (arith, ltb→lt _ _ y);
  })
  | inr m ↦ rw m (
      let r = ih _ (subst (λ c. Takes (if c then advance b (suc n) ∷ bs else bs) w.answers) m t) in
      record {
        success = r.success;
        full = r.full;
        takes = r.takes;
        less = omega (arith, r.less, f.0);
      })
])

pub send_tcp-Round :
    (q : List Sbuffer) (s : Socket) (answers : List Answer) (log : List (Call × Answer))
    → AreFull q
    → Takes q answers
    → Round q (send_tcp q s (record { answers = answers; log = log }))
unfolding send_tcp
send_tcp-Round [] s as' log f t = record {
  success = refl;
  full = tt;
  takes = tt;
  less = omega arith;
}
send_tcp-Round (b ∷ bs) s [] log f t = absurd t
send_tcp-Round (b ∷ bs) s (a ∷ as') log f (n, e, t) =
    let c = Call.write s.fd (unsent b) in
    rw (retry-done a as' log c (ground (arith, e))) (
      tcp_wrote-Round b bs s a.errno n a.ret (record { answers = as'; log = (c, a) ∷ log }) e f t
        (λ s' t'. send_tcp-Round bs s' as' ((c, a) ∷ log) f.1 t'))

-- The end of a flush: no error, and an empty queue.
abbrev pub IsFlushed : (ℤ × Socket) × World → Type 0
IsFlushed ((e, s), w) = (is_success e ≡ true) × (s.head ≡ [])

load-zero : (q : List Sbuffer) → AreFull q → load q ≤ 0 → q ≡ []
load-zero [] f h = refl
load-zero (b ∷ bs) f h = absurd (omega (arith, f.0, h))

-- The send queue of a TCP socket gets empty without an error: if the kernel takes at least one byte
-- in each `write` until then, as many rounds are enough as there are bytes to send, whatever parts it takes.
pub flush-IsFlushed :
    (k : ℕ) (s : Socket) (w : World)
    → AreFull s.head
    → Takes s.head w.answers
    → load s.head ≤ k
    → IsFlushed (flush k s w)
unfolding flush send_by
flush-IsFlushed zero s w f t le = (refl, load-zero s.head f le)
flush-IsFlushed (suc k) s w f t le =
    let r = send_tcp-Round s.head s w.answers w.log f t in
    rw r.success (flush-IsFlushed k _ _ r.full r.takes (omega (arith, r.less, le)))
