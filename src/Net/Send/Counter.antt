-- ===== src/Net/Send/Counter.antt =====
-- The counter `sbuffersz` of a socket in src/socket.c is the number of bytes that wait in its queue.
use lsocket.Prelude.{
  ℕ, ◌+◌, ◌-◌, ◌≤◌, ◌≡◌, ap, ◌∙◌, ℤ, pos, negsuc, int_sub, int_sub-wrap, wrap, List, [], ◌∷◌,
  length, ltb, ◌==◌, inl, inr, arith, Bool-cases, ltb→ge, false,
}
use lsocket.Platform.{Answer, World, Sys, Call, retry, retry_from, interrupted}
use lsocket.Net.{Socket, Sbuffer, Protocol}
use lsocket.Net.Send.{unsent, tcp_wrote, send_tcp, ipc_sent, send_ipc, send_by}
use lsocket.Platform.Honest.{AtMost, IsHonestCall, IsHonest}
use lsocket.Net.Exact.{load, IsExact}
use lsocket.Net.Send.Stream.{unsent-le}

-- The counter counts the queue `q`, as an `int`.
abbrev pub Counts : List Sbuffer → Socket → Type 0
Counts q s = s.sbuffersz ≡ wrap (pos (load q))

abbrev pub IsCounted : (ℤ × Socket) × World → Type 0
IsCounted ((e, s), w) = IsExact s

retry-IsHonest :
    (c : Call) (w : World)
    → IsHonest (retry c w).1.log
    → IsHonestCall c (retry c w).0.ret × IsHonest w.log
unfolding retry
retry-IsHonest c w = at w.answers w.log
  where
    at :
        (as' : List Answer) (log : List (Call × Answer))
        → IsHonest (retry_from as' c log).1.log
        → IsHonestCall c (retry_from as' c log).0.ret × IsHonest log
    at [] log = λ h. h
    at (a ∷ as') log = elim (Bool-cases (interrupted a)) [
      | inl y ↦ rw y (λ h. let r = at as' ((c, a) ∷ log) h in (r.0, r.1.1))
      | inr n ↦ rw n (λ h. h)
    ]

AtMost-unsent : (b : Sbuffer) (ret : ℤ) → AtMost ret (length (unsent b)) → AtMost ret b.sz
AtMost-unsent b (pos n) h = omega (arith, h, unsent-le b)
AtMost-unsent b (negsuc n) h = tt

-- What `int_sub` leaves of the counter after a call that took `n` bytes of the first buffer.
taken :
    (b : Sbuffer) (bs : List Sbuffer) (s : Socket) (n m : ℕ)
    → Counts (b ∷ bs) s
    → n ≤ b.sz
    → b.sz + load bs - n ≡ m
    → int_sub s.sbuffersz (pos n) ≡ wrap (pos m)
taken b bs s n m c h e =
    ap (λ z. int_sub z (pos n)) c
    ∙ int_sub-wrap (b.sz + load bs) n (omega (arith, h))
    ∙ ap (λ k. wrap (pos k)) e

-- After a call that took `ret` bytes of the first buffer of the queue; `rest` goes on.
module _ (b : Sbuffer) (bs : List Sbuffer) (s : Socket) (rest : Socket → Sys (ℤ × Socket)) (e : ℕ)
    (w : World) where
  -- that call does not undo the honesty of the log
  abbrev Honest : (ℤ × Socket) × World → Type 0
  Honest r = IsHonest r.1.log → IsHonest w.log

  tcp_wrote-IsHonest :
      (ret : ℤ) → ((s' : Socket) → Honest (rest s' w)) → Honest (tcp_wrote b bs s rest e ret w)
  unfolding tcp_wrote
  tcp_wrote-IsHonest (negsuc k) ih = λ h. h
  tcp_wrote-IsHonest (pos n) ih = elim (Bool-cases (ltb n b.sz)) [
    | inl y ↦ rw y (λ h. h)
    | inr m ↦ rw m (ih _)
  ]

  ipc_sent-IsHonest :
      (ret : ℤ) → ((s' : Socket) → Honest (rest s' w)) → Honest (ipc_sent b bs s rest e ret w)
  unfolding ipc_sent
  ipc_sent-IsHonest (negsuc k) ih = λ h. h
  ipc_sent-IsHonest (pos n) ih = elim (Bool-cases (n == 0)) [
    | inl z ↦ rw z (λ h. h)
    | inr z ↦ rw z (elim (Bool-cases (ltb n b.sz)) [ inl y ↦ rw y (λ h. h) | inr m ↦ rw m (ih _) ])
  ]

  -- an honest run counts
  abbrev Counting : (ℤ × Socket) × World → Type 0
  Counting r = IsHonest r.1.log → IsCounted r

  module _ (c : Counts (b ∷ bs) s) (ih : (s' : Socket) → Counts bs s' → Counting (rest s' w)) where
    -- the buffer is done
    done-Counting :
        (n : ℕ)
        → n ≤ b.sz
        → ltb n b.sz ≡ false
        → Counting (rest (record s { sbuffersz = int_sub s.sbuffersz (pos n) }) w)
    done-Counting n h m = ih _ (taken b bs s n _ c h (omega (arith, h, ltb→ge _ _ m)))

    tcp_wrote-Counting : (ret : ℤ) → AtMost ret b.sz → Counting (tcp_wrote b bs s rest e ret w)
    unfolding tcp_wrote
    tcp_wrote-Counting (negsuc k) h = λ o. c
    tcp_wrote-Counting (pos n) h = elim (Bool-cases (ltb n b.sz)) [
      | inl y ↦ rw y (λ o. taken b bs s n _ c h (omega (arith, h)))
      | inr m ↦ rw m (done-Counting n h m)
    ]

    ipc_sent-Counting : (ret : ℤ) → AtMost ret b.sz → Counting (ipc_sent b bs s rest e ret w)
    unfolding ipc_sent
    ipc_sent-Counting (negsuc k) h = λ o. c
    ipc_sent-Counting (pos n) h = elim (Bool-cases (n == 0)) [
      | inl z ↦ rw z (λ o. c)
      | inr z ↦ rw z (elim (Bool-cases (ltb n b.sz)) [
        | inl y ↦ rw y (λ o. taken b bs s n _ c h (omega (arith, h)))
        | inr m ↦ rw m (done-Counting n h m)
      ])
    ]

send_tcp-IsHonest :
    (q : List Sbuffer) (s : Socket) (w : World) → IsHonest (send_tcp q s w).1.log → IsHonest w.log
unfolding send_tcp
send_tcp-IsHonest [] s w h = h
send_tcp-IsHonest (b ∷ bs) s w h =
    let c = Call.write s.fd (unsent b) in
    let a = retry c w in
    (retry-IsHonest c w (
      tcp_wrote-IsHonest b bs s (send_tcp bs) a.0.errno a.1 a.0.ret
        (λ s'. send_tcp-IsHonest bs s' a.1) h)).1

send_ipc-IsHonest :
    (q : List Sbuffer) (s : Socket) (w : World) → IsHonest (send_ipc q s w).1.log → IsHonest w.log
unfolding send_ipc
send_ipc-IsHonest [] s w h = h
send_ipc-IsHonest (b ∷ bs) s w h =
    let c = Call.sendmsg s.fd (unsent b) b.fd in
    let a = retry c w in
    (retry-IsHonest c w (
      ipc_sent-IsHonest b bs s (send_ipc bs) a.0.errno a.1 a.0.ret
        (λ s'. send_ipc-IsHonest bs s' a.1) h)).1

send_tcp-IsCounted :
    (q : List Sbuffer) (s : Socket) (w : World)
    → Counts q s
    → IsHonest (send_tcp q s w).1.log
    → IsCounted (send_tcp q s w)
unfolding send_tcp
send_tcp-IsCounted [] s w c h = c
send_tcp-IsCounted (b ∷ bs) s w c h =
    let k = Call.write s.fd (unsent b) in
    let a = retry k w in
    let honest =
      tcp_wrote-IsHonest b bs s (send_tcp bs) a.0.errno a.1 a.0.ret
        (λ s'. send_tcp-IsHonest bs s' a.1) h in
    tcp_wrote-Counting b bs s (send_tcp bs) a.0.errno a.1 c
      (λ s' c'. send_tcp-IsCounted bs s' a.1 c') a.0.ret
      (AtMost-unsent b a.0.ret (retry-IsHonest k w honest).0) h

send_ipc-IsCounted :
    (q : List Sbuffer) (s : Socket) (w : World)
    → Counts q s
    → IsHonest (send_ipc q s w).1.log
    → IsCounted (send_ipc q s w)
unfolding send_ipc
send_ipc-IsCounted [] s w c h = c
send_ipc-IsCounted (b ∷ bs) s w c h =
    let k = Call.sendmsg s.fd (unsent b) b.fd in
    let a = retry k w in
    let honest =
      ipc_sent-IsHonest b bs s (send_ipc bs) a.0.errno a.1 a.0.ret
        (λ s'. send_ipc-IsHonest bs s' a.1) h in
    ipc_sent-Counting b bs s (send_ipc bs) a.0.errno a.1 c
      (λ s' c'. send_ipc-IsCounted bs s' a.1 c') a.0.ret
      (AtMost-unsent b a.0.ret (retry-IsHonest k w honest).0) h

pub send_by-IsHonest :
    (p : Protocol) (s : Socket) (w : World) → IsHonest (send_by p s w).1.log → IsHonest w.log
unfolding send_by
send_by-IsHonest Protocol.tcp s w h = send_tcp-IsHonest s.head s w h
send_by-IsHonest Protocol.ipc s w h = send_ipc-IsHonest s.head s w h
send_by-IsHonest Protocol.udp s w h = h

-- A flush keeps the counter of the waiting bytes exact, on every branch, if the kernel took no more
-- in a call than it was offered: if `sbuffersz` is the size of the queue before, as an `int` that
-- wraps around, it is that of the queue that is left.
pub send_by-IsCounted :
    (p : Protocol) (s : Socket) (w : World)
    → IsExact s
    → IsHonest (send_by p s w).1.log
    → IsCounted (send_by p s w)
unfolding send_by
send_by-IsCounted Protocol.tcp s w c h = send_tcp-IsCounted s.head s w c h
send_by-IsCounted Protocol.ipc s w c h = send_ipc-IsCounted s.head s w c h
send_by-IsCounted Protocol.udp s w c h = c
