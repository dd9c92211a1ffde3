-- ===== src/Net/Send/Taken.antt =====
-- What `socket_send` and `socket_sendfd` of src/socket.c take over from their caller.
use lsocket.Prelude.{
  ℕ, zero, suc, ◌<◌, ◌≡◌, refl, sym, ap, ◌∙◌, ℤ, pos, negsuc, true, false, ◌||◌, Option, List, [],
  ◌∷◌, ◌++◌, append-nil, inl, inr, arith, ltb, leb, lt→ltb, leb→le, ◌==◌, Bool-cases, take,
  take-all, length-take,
}
use lsocket.Platform.{Call, sys, minus_one}
use lsocket.Platform.Sane.{sys-KeepsSane}
use lsocket.Net.{Net, Sbuffer, is_halfclose, get_socket, is_nil}
use lsocket.Net.Good.{called, IsGood, IsLive, Ends, ends, IsLive-same}
use lsocket.Net.Send.{
  sent_fd, send_fd_on, send_fd, is_ipc, is_one_byte, data_of, past_tmp, send, is_tcp, again, wrote,
  send_on,
}
use lsocket.Net.Send.Stream.{stream, given, offered, pending}
use lsocket.Net.Send.Flow.{flow, sys-stream}
use lsocket.Net.Send.Queued.{Sent, errout-Sent, enqueue-Sent, queue_all-Sent, queue_rest-Sent}

all_taken :
    (xs bytes : List ℕ) (sz k : ℕ)
    → leb sz k ≡ true
    → xs ++ take k (take sz bytes) ≡ xs ++ take sz bytes
all_taken xs bytes sz k e =
    ap (λ y. xs ++ y)
      (take-all k (take sz bytes) (omega (arith, length-take {0} sz bytes, leb→le sz k e)))

wrote-Sent :
    {max i : ℕ} {n : Net} (xs bytes : List ℕ) (sz errno : ℕ) (ret : ℤ)
    → IsGood max n
    → IsLive max i n
    → flow i n ≡ xs ++ given (take sz bytes) ret
    → Ends max (Sent i (xs ++ take sz bytes)) (wrote i bytes sz errno ret n)
unfolding wrote
wrote-Sent xs bytes sz errno (pos k) g l h = elim (Bool-cases (leb sz k)) [
  | inl e ↦ rw e (ends g (inr (h ∙ all_taken xs bytes sz k e)))
  | inr e ↦ rw e (queue_rest-Sent xs bytes sz minus_one (pos k) g l k h)
]
wrote-Sent xs bytes sz errno (negsuc k) g l h = elim (Bool-cases (again errno)) [
  | inl e ↦ rw e (queue_all-Sent xs bytes sz minus_one (negsuc k) g l (h ∙ append-nil xs))
  | inr e ↦ rw e (errout-Sent _ _ g l)
]

is_nil-nil : (q : List Sbuffer) → is_nil q ≡ true → pending q ≡ []
is_nil-nil [] h = refl
is_nil-nil (b ∷ bs) h = absurd (ground arith)

-- A call on a socket whose queue is empty.
call-flow :
    (i : ℕ) (c : Call) (n : Net)
    → is_nil (n.sockets i).head ≡ true
    → flow i (record n { os = (sys c n.os).1 }) ≡ flow i n ++ given (offered c) (sys c n.os).0.ret
call-flow i c n e =
    let q = (n.sockets i).head in
    let none_waits : (xs : List ℕ) → xs ++ pending q ≡ xs =
      λ xs. ap (λ x. xs ++ x) (is_nil-nil q e) ∙ append-nil xs in
    none_waits (stream (sys c n.os).1.log)
    ∙ sys-stream c n.os
    ∙ ap (λ x. x ++ given (offered c) (sys c n.os).0.ret) (sym (none_waits (stream n.os.log)))

send_on-Sent :
    {max i : ℕ} {n : Net} (bytes : List ℕ) (sz : ℕ)
    → IsGood max n
    → IsLive max i n
    → Ends max (Sent i (flow i n ++ take sz bytes)) (send_on i bytes sz n)
unfolding send_on
send_on-Sent {max} {i} {n} bytes sz g l =
    let s = n.sockets i in
    let c = Call.write s.fd (take sz bytes) in
    let a = sys c n.os in
    elim (Bool-cases (is_nil s.head)) [
      | inl e ↦ rw e (
          wrote-Sent (flow i n) bytes sz a.0.errno a.0.ret (called (sys c) (sys-KeepsSane max c) g)
            (IsLive-same refl l) (call-flow i c n e))
      | inr e ↦ rw e (enqueue-Sent _ _ g l)
    ]

-- `socket_send` on a TCP socket in use that is not half closed: it ends in a good state. Either the
-- socket was closed, or the kernel and the queue together have taken over exactly the `sz` bytes that
-- were given, behind all that was sent or queued before.
pub send-Sent :
    {max : ℕ} {n : Net} (id : ℕ) (bytes : List ℕ) (sz : ℕ)
    → IsGood max n
    → IsLive max id n
    → is_tcp (n.sockets id).protocol ≡ true
    → is_halfclose (n.sockets id).status ≡ false
    → 0 < sz
    → Ends max (Sent id (flow id n ++ take sz bytes)) (send id bytes sz n)
unfolding send get_socket
send-Sent id bytes zero g l t h b = absurd (omega arith)
send-Sent {n = n} id bytes (suc k) g l t h b =
    let e : ltb id n.max ≡ true = lt→ltb id n.max (rw g.size l.bound) in
    rw (e, l.valid, t, h) (send_on-Sent bytes (suc k) g l)

sent_fd-Sent :
    {max i : ℕ} {n : Net} (xs bytes : List ℕ) (sz : ℕ) (cfd : ℤ) (errno : ℕ) (ret : ℤ)
    → IsGood max n
    → IsLive max i n
    → flow i n ≡ xs ++ given (take sz bytes) ret
    → Ends max
        (Sent i (xs ++ take sz bytes))
        (sent_fd i (record { sz = sz; fd = cfd; begin = bytes; ptr = 0 }) errno ret n)
unfolding sent_fd
sent_fd-Sent xs bytes sz cfd errno (pos k) g l h = elim (Bool-cases (leb sz k)) [
  | inl e ↦ rw e (ends g (inr (h ∙ all_taken xs bytes sz k e)))
  | inr e ↦ rw e (elim (Bool-cases (k == 0)) [
    | inl z ↦
        let z' : k ≡ 0 = ground (arith, z) in
        rw z (
          queue_all-Sent xs bytes sz cfd (pos 0) g l
            (h ∙ ap (λ j. xs ++ take j (take sz bytes)) z' ∙ append-nil xs))
    | inr z ↦ rw z (queue_rest-Sent xs bytes sz minus_one (pos k) g l k h)
  ])
]
sent_fd-Sent xs bytes sz cfd errno (negsuc k) g l h = elim (Bool-cases (again errno)) [
  | inl e ↦ rw e (queue_all-Sent xs bytes sz cfd (negsuc k) g l (h ∙ append-nil xs))
  | inr e ↦ rw e (errout-Sent _ _ g l)
]

send_fd_on-Sent :
    {max i : ℕ} {n : Net} (bytes : Option (List ℕ)) (sz : ℕ) (cfd : ℤ)
    → past_tmp bytes sz ≡ false
    → IsGood max n
    → IsLive max i n
    → Ends max (Sent i (flow i n ++ take sz (data_of bytes))) (send_fd_on i bytes sz cfd n)
unfolding send_fd_on
send_fd_on-Sent {max} {i} {n} bytes sz cfd p g l =
    let s = n.sockets i in
    let c = Call.sendmsg s.fd (take sz (data_of bytes)) cfd in
    let a = sys c n.os in
    elim (Bool-cases (is_nil s.head)) [
      | inl e ↦
          rw (e, p)
            (sent_fd-Sent (flow i n) (data_of bytes) sz cfd a.0.errno a.0.ret
              (called (sys c) (sys-KeepsSane max c) g) (IsLive-same refl l) (call-flow i c n e))
      | inr e ↦ rw e (enqueue-Sent _ _ g l)
    ]

-- `socket_sendfd` on an IPC socket in use, called with at least one byte of data, or without data and
-- with the size 1, ends in a good state, and either the socket was closed, or the kernel and the queue
-- together have taken over exactly the `sz` bytes that were given, or one byte 0 if there is no data.
pub send_fd-Sent :
    {max : ℕ} {n : Net} (id : ℕ) (bytes : Option (List ℕ)) (sz : ℕ) (cfd : ℤ)
    → IsGood max n
    → IsLive max id n
    → is_ipc (n.sockets id).protocol ≡ true
    → (ltb 0 sz || is_one_byte bytes sz) ≡ true
    → past_tmp bytes sz ≡ false
    → Ends max (Sent id (flow id n ++ take sz (data_of bytes))) (send_fd id bytes sz cfd n)
unfolding send_fd get_socket
send_fd-Sent {n = n} id bytes sz cfd g l t h p =
    let e : ltb id n.max ≡ true = lt→ltb id n.max (rw g.size l.bound) in
    rw (h, e, l.valid, t) (send_fd_on-Sent bytes sz cfd p g l)
