-- ===== src/Net/Send/Stream.antt =====
-- The bytes that src/socket.c hands to the kernel, in order.
use lsocket.Prelude.{
  ℕ, ◌-◌, ◌≤◌, ◌≡◌, refl, sym, ap, ◌∙◌, ℤ, pos, negsuc, true, List, [], ◌∷◌, ◌++◌, append-nil,
  append_assoc, inl, inr, arith, ltb, ◌==◌, Bool-cases, length, take, drop, take-append-drop,
  ltb→ge, take-drop, drop-drop, take-all, length-take,
}
use lsocket.Platform.{Answer, World, Sys, Call, is_neg, retry, retry_from, interrupted}
use lsocket.Net.{Socket, Sbuffer, Protocol}
use lsocket.Net.Send.{unsent, advance, tcp_wrote, send_tcp, ipc_sent, send_ipc, send_by}

-- the bytes that the kernel took in a call
abbrev pub given : List ℕ → ℤ → List ℕ
given bytes (pos n) = take n bytes
given bytes (negsuc n) = []

-- the bytes that a call offers
abbrev pub offered : Call → List ℕ
offered (Call.write fd bytes) = bytes
offered (Call.sendmsg fd bytes cfd) = bytes
offered _ = []

abbrev pub accepted : Call → ℤ → List ℕ
accepted c ret = given (offered c) ret

-- the bytes that the kernel took, from the first call on
abbrev pub stream : List (Call × Answer) → List ℕ
stream [] = []
stream ((c, a) ∷ es) = stream es ++ accepted c a.ret

-- the bytes that wait in a queue
abbrev pub pending : List Sbuffer → List ℕ
pending [] = []
pending (b ∷ bs) = unsent b ++ pending bs

pub given-neg : (bytes : List ℕ) (ret : ℤ) → is_neg ret ≡ true → given bytes ret ≡ []
given-neg bytes (pos n) h = absurd (ground arith)
given-neg bytes (negsuc n) h = refl

pub retry-stream :
    (c : Call) (w : World)
    → let r = retry c w in stream r.1.log ≡ stream w.log ++ accepted c r.0.ret
unfolding retry
retry-stream c w = at w.answers w.log
  where
    at :
        (as' : List Answer) (log : List (Call × Answer))
        → let r = retry_from as' c log in stream r.1.log ≡ stream log ++ accepted c r.0.ret
    at [] log = refl
    at (a ∷ as') log = elim (Bool-cases (interrupted a)) [
      | inr e ↦ rw e refl
      | inl e ↦ rw e (
          at as' ((c, a) ∷ log)
          ∙ ap (λ x. x ++ accepted c (retry_from as' c ((c, a) ∷ log)).0.ret)
              (ap (λ x. stream log ++ x) (given-neg (offered c) a.ret (ground (arith, e)))
                ∙ append-nil (stream log)))
    ]

unsent-advance : (b : Sbuffer) (n : ℕ) → unsent (advance b n) ≡ drop n (unsent b)
unsent-advance b n =
    ap (take (b.sz - n)) (sym (drop-drop n b.ptr b.begin)) ∙ take-drop n b.sz (drop b.ptr b.begin)

pub unsent-le : (b : Sbuffer) → length (unsent b) ≤ b.sz
unsent-le b = omega (arith, length-take {0} b.sz (drop b.ptr b.begin))

-- what is taken and what is left, behind the bytes `xs`
joined : (xs ys zs : List ℕ) (n : ℕ) → (xs ++ take n ys) ++ (drop n ys ++ zs) ≡ xs ++ (ys ++ zs)
joined xs ys zs n =
    append_assoc xs (take n ys) (drop n ys ++ zs)
    ∙ ap (λ t. xs ++ t)
        (sym (append_assoc (take n ys) (drop n ys) zs) ∙ ap (λ t. t ++ zs) (take-append-drop n ys))

-- The run `r` neither loses a byte of the queue `q` nor changes their order.
pub Streams : List ℕ → List Sbuffer → (ℤ × Socket) × World → Type 0
Streams before q ((e, s), w) = stream w.log ++ pending s.head ≡ before ++ pending q

tcp_wrote-Streams :
    (b : Sbuffer) (bs : List Sbuffer) (s : Socket) (rest : Socket → Sys (ℤ × Socket)) (e : ℕ)
    (ret : ℤ) (before : List ℕ) (w : World)
    → stream w.log ≡ before ++ given (unsent b) ret
    → ((s' : Socket) → Streams (stream w.log) bs (rest s' w))
    → Streams before (b ∷ bs) (tcp_wrote b bs s rest e ret w)
unfolding tcp_wrote Streams
tcp_wrote-Streams b bs s rest e (negsuc n) before w h ih =
    ap (λ x. x ++ pending (b ∷ bs)) (h ∙ append-nil before)
tcp_wrote-Streams b bs s rest e (pos n) before w h ih = elim (Bool-cases (ltb n b.sz)) [
  | inl part ↦ rw (part, h, unsent-advance b n) (joined before (unsent b) (pending bs) n)
  | inr all ↦ rw all (
      ih _
      ∙ ap (λ x. x ++ pending bs)
          (h
            ∙ ap (λ x. before ++ x)
                (take-all n (unsent b) (omega (arith, unsent-le b, ltb→ge n b.sz all))))
      ∙ append_assoc before (unsent b) (pending bs))
]

send_tcp-Streams :
    (q : List Sbuffer) (s : Socket) (w : World) → Streams (stream w.log) q (send_tcp q s w)
unfolding send_tcp Streams
send_tcp-Streams [] s w = refl
send_tcp-Streams (b ∷ bs) s w =
    let c = Call.write s.fd (unsent b) in
    let a = retry c w in
    tcp_wrote-Streams b bs s (send_tcp bs) a.0.errno a.0.ret (stream w.log) a.1 (retry-stream c w)
      (λ s'. send_tcp-Streams bs s' a.1)

ipc_sent-Streams :
    (b : Sbuffer) (bs : List Sbuffer) (s : Socket) (rest : Socket → Sys (ℤ × Socket)) (e : ℕ)
    (ret : ℤ) (before : List ℕ) (w : World)
    → stream w.log ≡ before ++ given (unsent b) ret
    → ((s' : Socket) → Streams (stream w.log) bs (rest s' w))
    → Streams before (b ∷ bs) (ipc_sent b bs s rest e ret w)
unfolding ipc_sent Streams
ipc_sent-Streams b bs s rest e (negsuc n) before w h ih =
    ap (λ x. x ++ pending (b ∷ bs)) (h ∙ append-nil before)
ipc_sent-Streams b bs s rest e (pos n) before w h ih = elim (Bool-cases (n == 0)) [
  | inl z ↦
      let e : n ≡ 0 = ground (arith, z) in
      rw z (
        ap (λ x. x ++ pending (b ∷ bs))
          (h ∙ ap (λ m. before ++ take m (unsent b)) e ∙ append-nil before))
  | inr z ↦ rw z (elim (Bool-cases (ltb n b.sz)) [
    | inl part ↦ rw (part, h, unsent-advance b n) (joined before (unsent b) (pending bs) n)
    | inr all ↦ rw all (
        ih _
        ∙ ap (λ x. x ++ pending bs)
            (h
              ∙ ap (λ x. before ++ x)
                  (take-all n (unsent b) (omega (arith, unsent-le b, ltb→ge n b.sz all))))
        ∙ append_assoc before (unsent b) (pending bs))
  ])
]

send_ipc-Streams :
    (q : List Sbuffer) (s : Socket) (w : World) → Streams (stream w.log) q (send_ipc q s w)
unfolding send_ipc Streams
send_ipc-Streams [] s w = refl
send_ipc-Streams (b ∷ bs) s w =
    let c = Call.sendmsg s.fd (unsent b) b.fd in
    let a = retry c w in
    ipc_sent-Streams b bs s (send_ipc bs) a.0.errno a.0.ret (stream w.log) a.1 (retry-stream c w)
      (λ s'. send_ipc-Streams bs s' a.1)

-- `_send_buffer_tcp` and `_send_buffer_ipc` neither lose, repeat nor reorder a byte: whatever the
-- kernel answers, the bytes that it took, followed by those that still wait, are the bytes that it
-- had taken before, followed by those that waited.
pub send_by-stream :
    (p : Protocol) (s : Socket) (w : World)
    → let ((e, s'), w') = send_by p s w in
      stream w'.log ++ pending s'.head ≡ stream w.log ++ pending s.head
unfolding send_by Streams
send_by-stream Protocol.tcp s w = send_tcp-Streams s.head s w
send_by-stream Protocol.ipc s w = send_ipc-Streams s.head s w
send_by-stream Protocol.udp s w = refl
