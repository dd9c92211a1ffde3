-- ===== src/Net/Send/Flow.antt =====
-- The bytes that src/socket.c has handed to the kernel or keeps in the queue of a socket.
use lsocket.Prelude.{
  ℕ, ◌≡◌, refl, ap, ◌∙◌, ℤ, pos, negsuc, ◌&&◌, List, [], ◌∷◌, ◌++◌, append-nil, inl, inr, ==_true,
  Bool-cases, take-nil,
}
use lsocket.Platform.{Answer, World, Call, Mask, sys}
use lsocket.Epoll.{np_add, np_mod, np_del}
use lsocket.Net.{Net, Socket, put, pure, ◌>>◌, is_nil, is_empty, subscribe, change}
use lsocket.Net.Good
use lsocket.Net.Good.{
  called, IsGood, IsLive, IsUsed, Ends, ends, weaken, StaysLive, bind, IsGood-os, IsGood-err,
  IsGood-store, IsLive-store, IsLive-same, live-fd, live-has,
}
use lsocket.Net.Subscribe.{asked, subscribe-by}
use lsocket.Net.Send.Flush.{flushed-IsGood, flushed-IsLive}
use lsocket.Net.Send.{send_by, send_buffer, is_success}
use lsocket.Net.Send.Stream.{send_by-stream, stream, given, offered, pending}

-- what the kernel took, and what waits in the queue of a socket
abbrev pub flow : ℕ → Net → List ℕ
flow i n = stream n.os.log ++ pending (n.sockets i).head

pub sys-stream :
    (c : Call) (w : World)
    → stream (sys c w).1.log ≡ stream w.log ++ given (offered c) (sys c w).0.ret
unfolding sys
sys-stream c w = at w.answers w.log
  where
    at :
        (as' : List Answer) (log : List (Call × Answer))
        → let r = sys c (record { answers = as'; log = log }) in
          stream r.1.log ≡ stream log ++ given (offered c) r.0.ret
    at [] log = refl
    at (a ∷ as') log = refl

pub given-nil : (ret : ℤ) → given [] ret ≡ []
given-nil (pos n) = take-nil ℕ n
given-nil (negsuc n) = refl

-- a call that offers no bytes
pub quiet : (c : Call) (w : World) → offered c ≡ [] → stream (sys c w).1.log ≡ stream w.log
quiet c w e =
    sys-stream c w
    ∙ ap (λ x. stream w.log ++ given x (sys c w).0.ret) e
    ∙ ap (λ x. stream w.log ++ x) (given-nil (sys c w).0.ret)
    ∙ append-nil (stream w.log)

pub change-stream :
    (s : Socket) (i : ℕ) (mask : Mask) (w : World) → stream (change s i mask w).1.log ≡ stream w.log
unfolding change np_add np_mod np_del
change-stream s i mask w = elim (Bool-cases (is_empty mask)) [
  | inl e ↦ rw e (quiet _ w refl)
  | inr e ↦ rw e (elim (Bool-cases (is_empty s.mask)) [
    | inl f ↦ rw f (quiet _ w refl)
    | inr f ↦ rw f (quiet _ w refl)
  ])
]

-- the flow of the slot is `xs`
abbrev pub Flows : {A : Type 0} → ℕ → List ℕ → A → Net → Type 0
Flows i xs a m = flow i m ≡ xs

pub put-same : (f : ℕ → Socket) (i : ℕ) (s : Socket) → put f i s i ≡ s
put-same f i s = rw (==_true {a = i} refl) refl

pub flow-put :
    (n : Net) (i : ℕ) (s : Socket)
    → flow i (record n { sockets = put n.sockets i s }) ≡ stream n.os.log ++ pending s.head
flow-put n i s = ap (λ t. stream n.os.log ++ pending t.head) (put-same n.sockets i s)

pub subscribe-flow :
    {max i : ℕ} {n : Net} (mask : Mask)
    → IsGood max n
    → IsLive max i n
    → Ends max (Flows i (flow i n)) (subscribe i mask n)
subscribe-flow {i = i} {n = n} mask g l =
    let s = n.sockets i in
    let same = ap (λ x. x ++ pending s.head) (change-stream s i mask n.os) in
    subscribe-by mask g l refl
      (λ k. flow-put (asked mask g l).1 i (record s { mask = mask }) ∙ same) (λ k. same)

pub subscribe_only-flow :
    {max i : ℕ} {n : Net} (mask : Mask)
    → IsGood max n
    → IsLive max i n
    → Ends max (Flows i (flow i n)) ((subscribe i mask >> pure tt) n)
subscribe_only-flow mask g l = Good.bind (subscribe-flow mask g l) (λ b m gm q. ends gm q)

-- `_send_buffer` on a slot in use ends in a good state, with the slot in use, and what the kernel
-- took and what waits in the queue together stay the same.
pub send_buffer-flow :
    {max i : ℕ} {n : Net}
    → IsGood max n
    → IsLive max i n
    → Ends max (Flows i (flow i n)) (send_buffer i n)
unfolding send_buffer
send_buffer-flow {max} {i} {n} g l =
    let s = n.sockets i in
    let r = send_by s.protocol s n.os in
    let same = flow-put (record n { os = r.1 }) i r.0.1 ∙ send_by-stream s.protocol s n.os in
    elim (Bool-cases (is_nil s.head)) [
      | inl e ↦ rw e (ends g refl)
      | inr e ↦ rw e (elim (Bool-cases (is_success r.0.0 && is_nil r.0.1.head)) [
        | inl z ↦ rw z (
            Good.bind (subscribe_only-flow _ (flushed-IsGood g l) (flushed-IsLive g l))
              (λ b m gm q. ends gm (q ∙ same)))
        | inr z ↦ rw z (ends (flushed-IsGood g l) same)
      ])
    ]
