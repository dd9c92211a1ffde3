-- ===== src/Net/Send/Keeps.antt =====
-- The send side of src/socket.c under the invariant of Net/Good.
use lsocket.Prelude.{
  ◌≤◌, leb→lt, length, Bool, false, ◌++◌, [], ◌∷◌, ℕ, zero, suc, ◌<◌, ◌≡◌, refl, take, ℤ, pos,
  negsuc, true, not, ◌||◌, Option, List, inl, inr, arith, ltb, leb, ◌==◌, Bool-cases,
}
use lsocket.Platform.{Call, sys, minus_one}
use lsocket.Platform.Sane.{sys-KeepsSane}
use lsocket.Net.{Net, Sbuffer, is_nil, is_halfclose}
use lsocket.Net.Good.{called, IsGood, IsLive, Ends, ends, Any, IsGood-err, IsLive-same}
use lsocket.Net.Send.Enqueue.{grown-IsGood, grown-IsLive, enqueue-by}
use lsocket.Net.Send.{
  errout, enqueue, send_on, send, send_fd_on, send_fd, again, is_tcp, is_ipc, is_one_byte, data_of,
  past_tmp, wrote, sent_fd,
}
use lsocket.Net.Exact.{queued, IsInside, AreInside-snoc}
use lsocket.Net.Life.{Actor, Edge, Way, Lives, stays, put-Goes, bind, after}
use lsocket.Net.Life.Slots.{with_socket, close_socket-Lives}
use lsocket.Net.Send.Flush.{subscribe_only-Lives}

pub errout-Lives :
    {fits : Bool} {max i : ℕ} {n : Net} (e : ℤ)
    → IsGood max n
    → IsLive max i n
    → Ends max (Lives (Actor.caller fits) n.sockets Any) (errout i e n)
unfolding errout
errout-Lives e g l =
    bind (close_socket-Lives g l (Edge.closes refl l.valid))
      (λ b m gm lm. ends (IsGood-err e gm) (tt, stays))

nil-snoc : (q : List Sbuffer) (b : Sbuffer) → is_nil (q ++ b ∷ []) ≡ false
nil-snoc [] b = refl
nil-snoc (c ∷ q) b = refl

pub enqueue-Lives :
    {fits : Bool} {max i : ℕ} {n : Net} (b : Sbuffer) (x : ℤ)
    → (fits ≡ true → IsInside b)
    → IsGood max n
    → IsLive max i n
    → Ends max (Lives (Actor.caller fits) n.sockets Any) (enqueue i b x n)
enqueue-Lives {i = i} {n = n} b x f g l =
    let p = put-Goes i (queued b (n.sockets i)) (
      Way.stay,
      λ h e. nil-snoc (n.sockets i).head b,
      λ o k. AreInside-snoc (n.sockets i).head b k (f o),
    ) in
    enqueue-by b g l x (λ e. errout-Lives _ g l)
      (λ e z. after p (
        bind (subscribe_only-Lives _ (grown-IsGood b g l) (grown-IsLive b g l))
          (λ a m gm lm. ends gm (tt, stays))))
      (λ e z. (tt, p))

wrote-Lives :
    {fits : Bool} {max i : ℕ} {n : Net} (bytes : List ℕ) (sz errno : ℕ) (ret : ℤ)
    → (fits ≡ true → sz ≤ length bytes)
    → IsGood max n
    → IsLive max i n
    → Ends max (Lives (Actor.caller fits) n.sockets Any) (wrote i bytes sz errno ret n)
unfolding wrote
wrote-Lives bytes sz errno (pos n) f g l = elim (Bool-cases (leb sz n)) [
  | inl e ↦ rw e (ends g (tt, stays))
  | inr e ↦ rw e (enqueue-Lives _ _ (λ o. omega (arith, f o, leb→lt _ _ e)) g l)
]
wrote-Lives bytes sz errno (negsuc n) f g l = elim (Bool-cases (again errno)) [
  | inl e ↦ rw e (enqueue-Lives _ _ (λ o. omega (arith, f o)) g l)
  | inr e ↦ rw e (errout-Lives _ g l)
]

send_on-Lives :
    {fits : Bool} {max i : ℕ} {n : Net} (bytes : List ℕ) (sz : ℕ)
    → (fits ≡ true → sz ≤ length bytes)
    → IsGood max n
    → IsLive max i n
    → Ends max (Lives (Actor.caller fits) n.sockets Any) (send_on i bytes sz n)
unfolding send_on
send_on-Lives {max = max} {i} {n} bytes sz f g l =
    let s = n.sockets i in
    let c = Call.write s.fd (take sz bytes) in
    let a = sys c n.os in
    elim (Bool-cases (is_nil s.head)) [
      | inl e ↦ rw e (
          wrote-Lives bytes sz a.0.errno a.0.ret f (called (sys c) (sys-KeepsSane max c) g)
            (IsLive-same refl l))
      | inr e ↦ rw e (enqueue-Lives _ _ (λ o. omega (arith, f o)) g l)
    ]

-- `socket_send` of at least one byte ends in a good state, on every branch.
pub send-Lives :
    {fits : Bool} {max : ℕ} {n : Net} (id : ℕ) (bytes : List ℕ) (sz : ℕ)
    → (fits ≡ true → sz ≤ length bytes)
    → IsGood max n
    → id < max
    → 0 < sz
    → Ends max (Lives (Actor.caller fits) n.sockets Any) (send id bytes sz n)
unfolding send
send-Lives id bytes zero f g b h = absurd (omega arith)
send-Lives id bytes (suc k) f g b h =
    with_socket minus_one _ id g b (λ m. tt)
      λ i m gm l.
        elim (Bool-cases
          (not (is_tcp (m.sockets i).protocol) || is_halfclose (m.sockets i).status)) [
            | inl e ↦ rw e (ends (IsGood-err _ gm) (tt, stays))
            | inr e ↦ rw e (send_on-Lives bytes (suc k) f gm l)
          ]

sent_fd-Lives :
    {fits : Bool} {max i : ℕ} {n : Net} (b : Sbuffer) (errno : ℕ) (ret : ℤ)
    → (fits ≡ true → IsInside b)
    → IsGood max n
    → IsLive max i n
    → Ends max (Lives (Actor.caller fits) n.sockets Any) (sent_fd i b errno ret n)
unfolding sent_fd
sent_fd-Lives b errno (pos n) f g l = elim (Bool-cases (leb b.sz n)) [
  | inl e ↦ rw e (ends g (tt, stays))
  | inr e ↦ rw e (elim (Bool-cases (n == 0)) [
    | inl z ↦ rw z (enqueue-Lives _ _ f g l)
    | inr z ↦ rw z (enqueue-Lives _ _ (λ o. omega (arith, f o, leb→lt _ _ e)) g l)
  ])
]
sent_fd-Lives b errno (negsuc n) f g l = elim (Bool-cases (again errno)) [
  | inl e ↦ rw e (enqueue-Lives _ _ f g l)
  | inr e ↦ rw e (errout-Lives _ g l)
]

send_fd_on-Lives :
    {fits : Bool} {max i : ℕ} {n : Net} (bytes : Option (List ℕ)) (sz : ℕ) (cfd : ℤ)
    → (fits ≡ true → sz ≤ length (data_of bytes))
    → past_tmp bytes sz ≡ false
    → IsGood max n
    → IsLive max i n
    → Ends max (Lives (Actor.caller fits) n.sockets Any) (send_fd_on i bytes sz cfd n)
unfolding send_fd_on
send_fd_on-Lives {max = max} {i} {n} bytes sz cfd f p g l =
    let s = n.sockets i in
    let c = Call.sendmsg s.fd (take sz (data_of bytes)) cfd in
    let a = sys c n.os in
    elim (Bool-cases (is_nil s.head)) [
      | inl e ↦
          rw (e, p)
            (sent_fd-Lives _ a.0.errno a.0.ret (λ o. omega (arith, f o))
              (called (sys c) (sys-KeepsSane max c) g) (IsLive-same refl l))
      | inr e ↦ rw e (enqueue-Lives _ _ (λ o. omega (arith, f o)) g l)
    ]

-- `socket_sendfd`, of data or of the one byte that `tmp` has, ends in a good state.
pub send_fd-Lives :
    {fits : Bool} {max : ℕ} {n : Net} (id : ℕ) (bytes : Option (List ℕ)) (sz : ℕ) (cfd : ℤ)
    → (fits ≡ true → sz ≤ length (data_of bytes))
    → IsGood max n
    → id < max
    → (ltb 0 sz || is_one_byte bytes sz) ≡ true
    → past_tmp bytes sz ≡ false
    → Ends max (Lives (Actor.caller fits) n.sockets Any) (send_fd id bytes sz cfd n)
unfolding send_fd
send_fd-Lives id bytes sz cfd f g b h p = rw h (
    with_socket minus_one _ id g b (λ m. tt)
      λ i m gm l. elim (Bool-cases (is_ipc (m.sockets i).protocol)) [
        | inl e ↦ rw e (send_fd_on-Lives bytes sz cfd f p gm l)
        | inr e ↦ rw e (ends (IsGood-err _ gm) (tt, stays))
      ])
