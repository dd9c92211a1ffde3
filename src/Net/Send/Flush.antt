-- ===== src/Net/Send/Flush.antt =====
-- The flush of src/socket.c, `_send_buffer`, under the invariant of Net/Good.
use lsocket.Prelude.{
  ℕ, ◌≡◌, refl, ap, ◌∙◌, ℤ, pos, negsuc, ◌&&◌, List, [], ◌∷◌, inl, inr, ltb, ◌==◌, Bool-cases,
}
use lsocket.Platform.{World, Sys, Call, Mask, is_neg, retry}
use lsocket.Platform.Sane.{AllSane, retry-KeepsSane}
use lsocket.Net.{Net, Socket, Sbuffer, Protocol, pure, ◌>>◌, is_nil, is_invalid, put, subscribe}
use lsocket.Net.Good
use lsocket.Net.Good.{
  IsGood, IsLive, IsUsed, Ends, ends, StaysLive, IsGood-os, IsGood-store, IsLive-store, live-fd,
  IsLive-same,
}
use lsocket.Net.Life.{Actor, Lives, stays, bind, Nearly, put-Nearly, Goes-Nearly, Nearly-append}
use lsocket.Net.Life.Slots.{same-Way, subscribe-Lives}
use lsocket.Net.Send.Inside.{send_by-AreInside}
use lsocket.Net.Send.Counter.{send_by-IsHonest, send_by-IsCounted}
use lsocket.Net.Send.{
  send_tcp, send_ipc, send_by, send_buffer, unsent, is_success, tcp_wrote, ipc_sent,
}

pub record SendsFrom (max : ℕ) (s : Socket) (w : World) (r : (ℤ × Socket) × World) : Type 0 where
  pub same_fd : r.0.1.fd ≡ s.fd
  pub same_status : r.0.1.status ≡ s.status
  pub same_protocol : r.0.1.protocol ≡ s.protocol
  pub sane : AllSane max w.answers → AllSane max r.1.answers

still :
    {max : ℕ} {s : Socket} {w : World} (e : ℤ) (h : List Sbuffer) (z : ℤ) (w' : World)
    → (AllSane max w.answers → AllSane max w'.answers)
    → SendsFrom max s w ((e, record s { head = h; sbuffersz = z }), w')
still e h z w' k = record { same_fd = refl; same_status = refl; same_protocol = refl; sane = k }

onward :
    {max : ℕ} {s s' : Socket} {w w' : World} {r : (ℤ × Socket) × World}
    → s'.fd ≡ s.fd
    → s'.status ≡ s.status
    → s'.protocol ≡ s.protocol
    → (AllSane max w.answers → AllSane max w'.answers)
    → SendsFrom max s' w' r
    → SendsFrom max s w r
onward f t q k p = record {
  same_fd = p.same_fd ∙ f;
  same_status = p.same_status ∙ t;
  same_protocol = p.same_protocol ∙ q;
  sane = λ h. p.sane (k h);
}

tcp_wrote-SendsFrom :
    {max : ℕ} {w w' : World} (b : Sbuffer) (bs : List Sbuffer) (s : Socket)
    (rest : Socket → Sys (ℤ × Socket)) (e : ℕ) (ret : ℤ)
    → (AllSane max w.answers → AllSane max w'.answers)
    → ((s' : Socket) → SendsFrom max s' w' (rest s' w'))
    → SendsFrom max s w (tcp_wrote b bs s rest e ret w')
unfolding tcp_wrote
tcp_wrote-SendsFrom b bs s rest e (negsuc n) k ih = still _ _ s.sbuffersz _ k
tcp_wrote-SendsFrom b bs s rest e (pos n) k ih = elim (Bool-cases (ltb n b.sz)) [
  | inl part ↦ rw part (still _ _ _ _ k)
  | inr all ↦ rw all (onward refl refl refl k (ih _))
]

send_tcp-SendsFrom :
    (max : ℕ) (q : List Sbuffer) (s : Socket) (w : World) → SendsFrom max s w (send_tcp q s w)
unfolding send_tcp
send_tcp-SendsFrom max [] s w = record {
  same_fd = refl;
  same_status = refl;
  same_protocol = refl;
  sane = λ h. h;
}
send_tcp-SendsFrom max (b ∷ bs) s w =
    let c = Call.write s.fd (unsent b) in
    let a = retry c w in
    tcp_wrote-SendsFrom b bs s (send_tcp bs) a.0.errno a.0.ret (λ h. (retry-KeepsSane max c w h).1)
      (λ s'. send_tcp-SendsFrom max bs s' a.1)

ipc_sent-SendsFrom :
    {max : ℕ} {w w' : World} (b : Sbuffer) (bs : List Sbuffer) (s : Socket)
    (rest : Socket → Sys (ℤ × Socket)) (e : ℕ) (ret : ℤ)
    → (AllSane max w.answers → AllSane max w'.answers)
    → ((s' : Socket) → SendsFrom max s' w' (rest s' w'))
    → SendsFrom max s w (ipc_sent b bs s rest e ret w')
unfolding ipc_sent
ipc_sent-SendsFrom b bs s rest e (negsuc n) k ih = still _ _ s.sbuffersz _ k
ipc_sent-SendsFrom b bs s rest e (pos n) k ih = elim (Bool-cases (n == 0)) [
  | inl z ↦ rw z (still _ _ s.sbuffersz _ k)
  | inr z ↦ rw z (elim (Bool-cases (ltb n b.sz)) [
    | inl part ↦ rw part (still _ _ _ _ k)
    | inr all ↦ rw all (onward refl refl refl k (ih _))
  ])
]

send_ipc-SendsFrom :
    (max : ℕ) (q : List Sbuffer) (s : Socket) (w : World) → SendsFrom max s w (send_ipc q s w)
unfolding send_ipc
send_ipc-SendsFrom max [] s w = record {
  same_fd = refl;
  same_status = refl;
  same_protocol = refl;
  sane = λ h. h;
}
send_ipc-SendsFrom max (b ∷ bs) s w =
    let c = Call.sendmsg s.fd (unsent b) b.fd in
    let a = retry c w in
    ipc_sent-SendsFrom b bs s (send_ipc bs) a.0.errno a.0.ret (λ h. (retry-KeepsSane max c w h).1)
      (λ s'. send_ipc-SendsFrom max bs s' a.1)

pub send_by-SendsFrom :
    (max : ℕ) (p : Protocol) (s : Socket) (w : World) → SendsFrom max s w (send_by p s w)
unfolding send_by
send_by-SendsFrom max Protocol.tcp s w = send_tcp-SendsFrom max s.head s w
send_by-SendsFrom max Protocol.ipc s w = send_ipc-SendsFrom max s.head s w
send_by-SendsFrom max Protocol.udp s w = record {
  same_fd = refl;
  same_status = refl;
  same_protocol = refl;
  sane = λ h. h;
}

pub subscribe_only-Lives :
    {who : Actor} {max i : ℕ} {n : Net} (mask : Mask)
    → IsGood max n
    → IsLive max i n
    → Ends max (Lives who n.sockets (StaysLive max i)) ((subscribe i mask >> pure tt) n)
subscribe_only-Lives mask g l = bind (subscribe-Lives mask g l) (λ b m gm lm. ends gm (lm.0, stays))

-- the state when the socket is stored that `_send_buffer_tcp` or `_send_buffer_ipc` leaves
module _ {max i : ℕ} {n : Net} (g : IsGood max n) (l : IsLive max i n) where
  abbrev pub sent : (ℤ × Socket) × World
  sent = send_by (n.sockets i).protocol (n.sockets i) n.os

  abbrev pub flushed : Net
  flushed = record n { os = sent.1; sockets = put n.sockets i sent.0.1 }

  pub sent-SendsFrom : SendsFrom max (n.sockets i) n.os sent
  sent-SendsFrom = send_by-SendsFrom max (n.sockets i).protocol (n.sockets i) n.os

  sent-IsGood : IsGood max (record n { os = sent.1 })
  sent-IsGood =
      IsGood-os sent.1 (sent-SendsFrom.sane g.sane)
        (send_by-IsHonest (n.sockets i).protocol (n.sockets i) n.os) g

  sent-IsUsed : IsUsed sent.0.1
  sent-IsUsed = record {
    valid = ap is_invalid sent-SendsFrom.same_status ∙ l.valid;
    fd_lem = ap is_neg sent-SendsFrom.same_fd ∙ live-fd g l;
  }

  pub flushed-IsGood : IsGood max flushed
  flushed-IsGood =
      let k = send_by-IsHonest (n.sockets i).protocol (n.sockets i) n.os in
      IsGood-store _ sent-IsUsed sent-IsGood (IsLive-same refl l)
        (λ o. send_by-IsCounted (n.sockets i).protocol (n.sockets i) n.os (g.exact (k o) i) o)

  pub flushed-IsLive : IsLive max i flushed
  flushed-IsLive = IsLive-store _ sent-IsUsed sent-IsGood (IsLive-same refl l)

-- `_send_buffer` ends in a good state, and the slot stays in use. It may be half closed and have no
-- data any more.
pub send_buffer-Nearly :
    {who : Actor} {max i : ℕ} {n : Net}
    → IsGood max n
    → IsLive max i n
    → Ends max (λ e m. StaysLive max i e m × Nearly who i n.sockets m.sockets) (send_buffer i n)
unfolding send_buffer
send_buffer-Nearly {who} {max} {i} {n} g l =
    let s = n.sockets i in
    let r = send_by s.protocol s n.os in
    let p : Nearly who i n.sockets (flushed g l).sockets =
      put-Nearly i r.0.1 (same-Way (sent-SendsFrom g l).same_status)
        (send_by-AreInside s.protocol s n.os) in
    elim (Bool-cases (is_nil s.head)) [
      | inl e ↦ rw e (ends g (l, Goes-Nearly stays))
      | inr e ↦ rw e (elim (Bool-cases (is_success r.0.0 && is_nil r.0.1.head)) [
        | inl z ↦ rw z (
            Good.bind (subscribe_only-Lives _ (flushed-IsGood g l) (flushed-IsLive g l))
              (λ b m gm q. ends gm (q.0, Nearly-append p q.1)))
        | inr z ↦ rw z (ends (flushed-IsGood g l) (flushed-IsLive g l, p))
      ])
    ]
