-- ===== src/Net/Poll/Keeps.antt =====
-- `socket_poll` of src/socket.c under the invariant of Net/Good.
use lsocket.Prelude.{
  arith, true, length, Option, ℕ, ◌<◌, ◌≡◌, refl, ℤ, pos, Bool, false, not, ◌&&◌, none, some, List,
  [], ◌∷◌, inl, inr, Bool-cases, sym,
}
use lsocket.Platform.{Answer, Sys, Call, sys}
use lsocket.Platform.Sane.{sys-KeepsSane}
use lsocket.Net.{
  close_socket, Socket, Net, Status, load, pure, ◌>>=◌, case_of, is_nil, is_invalid, is_halfclose,
  no_mask,
}
use lsocket.Net.Good
use lsocket.Net.Good.{
  IsGood, IsLive, IsUsed, Ends, ends, Any, OptLive, called, IsGood-os, IsGood-store, IsLive-store,
  live-fd, IsLive-same,
}
use lsocket.Net.Life.{
  Nearly, Nearly-append, Nearly-Goes, Actor, Edge, Way, Lives, stays, put-Goes, bind, after, weaken,
  forget,
}
use lsocket.Net.Life.Slots.{gone-IsPending, close_socket-Lives, subscribe-Lives}
use mathlib.Core.Path.{subst}
use lsocket.Epoll.{NpEvent, np_poll, reported}
use lsocket.Net.Send.{is_success}
use lsocket.Net.Send.Flush.{send_buffer-Nearly}
use lsocket.Net.Open.Keeps.{accept-Lives}
use lsocket.Net.Poll.{
  SocketEvent, EventType, on_connect, connect_error, poll_listening, poll_connecting, read_event,
  poll_open, poll_by, poll_one, poll_all, poll,
}
use lsocket.Net.Poll.Reported.{AreEvents, reported-AreEvents, reported-le}
use lsocket.Net.Poll.Reports.{Reports, none_yet, just, AtMost-append}

on_connect-Lives :
    {max i : ℕ} {n : Net}
    → IsGood max n
    → IsLive max i n
    → (n.sockets i).status ≡ Status.connecting
    → Ends max (Lives Actor.poller n.sockets Any) (on_connect i n)
unfolding on_connect
on_connect-Lives {max} {i} {n} g l h =
    let c : Sys Answer = sys (Call.getsockopt (n.sockets i).fd) in
    let a = c n.os in
    let g1 : IsGood max (record n { os = a.1 }) = called (sys _) (sys-KeepsSane max _) g in
    let l1 : IsLive max i (record n { os = a.1 }) = IsLive-same refl l in
    let s : Socket = record (n.sockets i) { status = Status.connected } in
    let u : IsUsed s = record { valid = refl; fd_lem = live-fd g l } in
    let e : Edge Actor.poller (n.sockets i).status Status.connected =
      subst (λ t. Edge Actor.poller t Status.connected) (sym h) Edge.arrives in
    elim (Bool-cases (is_success (connect_error a.0))) [
      | inl y ↦ rw y (
          after (put-Goes i s (Way.step e Way.stay, λ k z. absurd (ground (arith, z)), λ o k. k)) (
            bind
              (subscribe-Lives no_mask (IsGood-store s u g1 l1 (λ o. g1.exact o i))
                (IsLive-store s u g1 l1))
              λ b k gk q. ends gk (tt, stays)))
      | inr y ↦ rw y (
          bind (close_socket-Lives g1 l1 (Edge.closes refl l.valid))
            λ b k gk q. ends gk (tt, stays))
    ]

poll_listening-Lives :
    {max : ℕ} {n : Net} (i : ℕ)
    → IsGood max n
    → Ends max (Lives Actor.poller n.sockets (Reports 1 max)) (poll_listening i n)
unfolding poll_listening
poll_listening-Lives i g = bind (accept-Lives i g) λ o m gm q. at o m gm q
  where
    at :
        {max : ℕ} (o : Option ℕ) (m : Net)
        → IsGood max m
        → OptLive max o m
        → Ends {A = List SocketEvent} max (Lives Actor.poller m.sockets (Reports 1 max)) (
            case_of
              (pure [])
              (λ k. load k >>= λ s. pure (
                record { id = k; type = EventType.accept_; udata = s.udata; info = some (pos i) }
                ∷ []))
              o
              m)
    at none m gm q = ends gm (none_yet, stays)
    at (some k) m gm q = ends gm (just _ q.bound, stays)

poll_connecting-Lives :
    {max i : ℕ} {n : Net} (ready : Bool)
    → IsGood max n
    → IsLive max i n
    → (n.sockets i).status ≡ Status.connecting
    → Ends max (Lives Actor.poller n.sockets (Reports 1 max)) (poll_connecting i ready n)
unfolding poll_connecting
poll_connecting-Lives ready g l h =
    bind (on_connect-Lives g l h) λ e m gm q. ends gm (just _ l.bound, stays)

reads-Lives :
    {max i : ℕ} {n : Net} (ready : Bool)
    → IsGood max n
    → IsLive max i n
    → Ends max (Lives Actor.poller n.sockets (Reports 1 max)) (read_event i ready n)
unfolding read_event
reads-Lives true g l = ends g (just _ l.bound, stays)
reads-Lives false g l = ends g (none_yet, stays)

-- The socket is closed after the flush.
closes_after :
    {max i : ℕ} (n : Net) {m : Net} (e : SocketEvent)
    → IsGood max m
    → IsLive max i m
    → e.id < max
    → Nearly Actor.poller i n.sockets m.sockets
    → Ends max
        (Lives Actor.poller n.sockets (Reports 1 max))
        ((close_socket i >>= λ x. pure (e ∷ [])) m)
closes_after n e g l b p = Good.bind (close_socket-Lives g l (Edge.closes refl l.valid)) λ x k gk q.
    ends gk (just _ b, Nearly-Goes (Nearly-append p q.1) (gone-IsPending (k.sockets _) q.0))

poll_open-Lives :
    {max i : ℕ} {n : Net} (e : NpEvent)
    → IsGood max n
    → IsLive max i n
    → Ends max (Lives Actor.poller n.sockets (Reports 1 max)) (poll_open i e n)
unfolding poll_open
poll_open-Lives {i = i} {n = n} e g l = elim (Bool-cases e.write) [
  | inr w ↦ rw w (reads-Lives e.read g l)
  | inl w ↦ rw w (
      Good.bind (send_buffer-Nearly g l) λ err m gm q. elim (Bool-cases (not (is_success err))) [
        | inl f ↦ rw f (closes_after n _ gm q.0 q.0.bound q.1)
        | inr f ↦
            rw f
              (elim (Bool-cases (is_halfclose (m.sockets i).status && is_nil (m.sockets i).head)) [
                | inl h ↦ rw h (closes_after n _ gm q.0 q.0.bound q.1)
                | inr h ↦ rw h (
                    after (Nearly-Goes q.1 (λ z. ground (arith, h, z))) (reads-Lives e.read gm q.0))
              ])
      ])
]

poll_by-Lives :
    {max : ℕ} {n : Net} (s : Status) (e : NpEvent)
    → IsGood max n
    → (is_invalid s ≡ false → IsLive max e.ud n)
    → (n.sockets e.ud).status ≡ s
    → Ends max (Lives Actor.poller n.sockets (Reports 1 max)) (poll_by s e n)
unfolding poll_by
poll_by-Lives Status.invalid e g l h = ends g (none_yet, stays)
poll_by-Lives Status.listening e g l h = poll_listening-Lives e.ud g
poll_by-Lives Status.connecting e g l h = poll_connecting-Lives e.read g (l refl) h
poll_by-Lives Status.connected e g l h = poll_open-Lives e g (l refl)
poll_by-Lives Status.halfclose e g l h = poll_open-Lives e g (l refl)
poll_by-Lives Status.suspend e g l h = poll_open-Lives e g (l refl)
poll_by-Lives Status.bind e g l h = poll_open-Lives e g (l refl)

poll_one-Lives :
    {max : ℕ} {n : Net} (e : NpEvent)
    → e.ud < max
    → IsGood max n
    → Ends max (Lives Actor.poller n.sockets (Reports 1 max)) (poll_one e n)
unfolding poll_one
poll_one-Lives {n = n} e b g =
    poll_by-Lives (n.sockets e.ud).status e g (λ v. record { bound = b; valid = v }) refl

poll_all-Lives :
    {max : ℕ} (es : List NpEvent) {n : Net}
    → AreEvents max es
    → IsGood max n
    → Ends max (Lives Actor.poller n.sockets (Reports (length es) max)) (poll_all es n)
unfolding poll_all
poll_all-Lives [] h g = ends g (none_yet, stays)
poll_all-Lives (e ∷ es) h g = bind (poll_one-Lives e h.0 g) λ out m gm q.
    bind (poll_all-Lives es h.1 gm) λ rest k gk r. ends gk (AtMost-append out rest q r, stays)

pub poll-Lives :
    {max : ℕ} {n : Net} (timeout : ℤ)
    → IsGood max n
    → Ends max (Lives Actor.poller n.sockets (Reports max max)) (poll timeout n)
unfolding poll np_poll
poll-Lives {max} {n} timeout g =
    let c : Sys Answer = sys (Call.epoll_wait n.max timeout) in
    let a = c n.os in
    let k = sys-KeepsSane max (Call.epoll_wait n.max timeout) n.os g.sane in
    let es = reported a.0.events a.0.ret in
    weaken
      (poll_all-Lives es (reported-AreEvents max a.0.events a.0.ret k.0.events_lem)
        (IsGood-os a.1 k.1 k.2 g))
      λ out m q. record {
        count_lem = omega (arith, q.count_lem, reported-le a.0.events a.0.ret, k.0.count_lem);
        ids_lem = q.ids_lem;
      }

-- `socket_poll` ends in a good state, whatever events the kernel reports and answers. It writes at
-- most as many events as its array holds, each with the id of a slot of the pool.
pub poll-Ends :
    {max : ℕ} {n : Net} (timeout : ℤ) → IsGood max n → Ends max (Reports max max) (poll timeout n)
poll-Ends timeout g = forget (poll-Lives timeout g)
