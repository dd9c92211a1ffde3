-- ===== src/Net/Poll/Drains.antt =====
-- A half closed socket of src/socket.c is closed by `socket_poll` when its data is sent.
use lsocket.Prelude.{
  ℕ, zero, suc, ◌≤◌, ◌≡◌, refl, ap, sym, ◌∙◌, inl, inr, ℤ, true, false, some, none, List, [], ◌∷◌,
  ◌++◌, append-nil, arith, Bool-cases,
}
use mathlib.Core.Path.{subst}
use lsocket.Platform.{Mask}
use lsocket.Epoll.{NpEvent}
use lsocket.Net.{Net, M, Sbuffer, Status, Protocol, pure, ◌>>=◌, is_nil, is_invalid, subscribe}
use lsocket.Net.Exact.{load}
use lsocket.Net.Good
use lsocket.Net.Good.{IsGood, IsLive, Ends, ends}
use lsocket.Net.Good.Slots.{close_socket-Ends}
use lsocket.Net.Send.{send_buffer, send_by, is_success}
use lsocket.Net.Send.Flow.{put-same}
use lsocket.Net.Send.Flush.{sent, flushed, flushed-IsGood, flushed-IsLive, sent-SendsFrom}
use lsocket.Net.Send.Progress.{AreFull, Takes, Round, send_tcp-Round}
use lsocket.Net.Life.Slots.{invalid_status}
use lsocket.Net.Subscribe.{subscribe-by}
use lsocket.Net.Poll.{SocketEvent, EventType, poll_one, poll_by, poll_open, read_event}

-- The poller reports that the socket takes data.
abbrev pub writable : ℕ → NpEvent
writable i = record { ud = i; read = false; write = true }

-- So many reports, and the events that `socket_poll` writes for them.
pub drain : ℕ → ℕ → M (List SocketEvent)
unfolding poll_one
drain zero i = pure []
drain (suc k) i = do out ← poll_one (writable i); rest ← drain k i; pure (out ++ rest)

-- The slot is a half closed TCP socket, whose buffers hold data, and until its queue is empty the
-- kernel takes at least one byte in each `write`.
pub record IsDraining (i : ℕ) (n : Net) : Type 0 where
  pub half : (n.sockets i).status ≡ Status.halfclose
  pub tcp : (n.sockets i).protocol ≡ Protocol.tcp
  pub full : AreFull (n.sockets i).head
  pub waits : is_nil (n.sockets i).head ≡ false
  pub takes : Takes (n.sockets i).head n.os.answers

-- The slot is not in use any more, and the only event tells that its data was written.
pub record IsDone (i : ℕ) (out : List SocketEvent) (n : Net) : Type 0 where
  pub gone : is_invalid (n.sockets i).status ≡ true
  pub udata : ℤ
  pub event :
      out ≡ record { id = i; type = EventType.write_done_close; udata = udata; info = none } ∷ []

-- The slot is in use, half closed and without data.
abbrev Emptied : {A : Type 0} → (max i : ℕ) → A → Net → Type 0
Emptied max i a m =
    IsLive max i m × ((m.sockets i).status ≡ Status.halfclose) × (is_nil (m.sockets i).head ≡ true)

subscribe-Emptied :
    {max i : ℕ} {n : Net} (mask : Mask)
    → IsGood max n
    → Emptied {A = Unit {0}} max i tt n
    → Ends max (Emptied max i) (subscribe i mask n)
subscribe-Emptied mask g (l, h, z) =
    subscribe-by mask g l (l, h, z) (λ k. (k, ground (arith, h), ground (arith, z)))
      (λ k. (k, h, z))

module _ {max i : ℕ} {n : Net} (g : IsGood max n) (l : IsLive max i n) (d : IsDraining i n) where
  r-Round : Round (n.sockets i).head (sent g l)
  unfolding send_by
  r-Round =
      let s = n.sockets i in
      subst (λ p. Round s.head (send_by p s n.os)) (sym d.tcp)
        (send_tcp-Round s.head s n.os.answers n.os.log d.full d.takes)

  -- the slot after a flush
  flushed-slot : (flushed g l).sockets i ≡ (sent g l).0.1
  flushed-slot = put-same n.sockets i (sent g l).0.1

  send_buffer-leaves :
      is_nil (sent g l).0.1.head ≡ false → send_buffer i n ≡ some ((sent g l).0.0, flushed g l)
  unfolding send_buffer
  send_buffer-leaves z = rw (d.waits, z, r-Round.success) refl

  send_buffer-Emptied :
      is_nil (sent g l).0.1.head ≡ true
      → Ends max (λ e m. (is_success e ≡ true) × Emptied max i e m) (send_buffer i n)
  unfolding send_buffer
  send_buffer-Emptied z =
      let h = ap (λ t. t.status) flushed-slot ∙ (sent-SendsFrom g l).same_status ∙ d.half in
      let z' = ap (λ t. is_nil t.head) flushed-slot ∙ z in
      rw (d.waits, z, r-Round.success)
        (Good.bind
          (Good.bind (subscribe-Emptied _ (flushed-IsGood g l) (flushed-IsLive g l, h, z'))
            (λ a m gm q. ends {a = tt} gm q))
          (λ a m gm q. ends gm (r-Round.success, q)))

  poll_one-IsDone :
      is_nil (sent g l).0.1.head ≡ true → Ends max (IsDone i) (poll_one (writable i) n)
  unfolding poll_one poll_by poll_open
  poll_one-IsDone z = rw d.half (
      Good.bind (send_buffer-Emptied z) λ e m gm (s, (k, h, z')).
        rw (s, h, z')
          (Good.bind (close_socket-Ends gm k) (λ a m' gm' q.
            ends gm' (record { gone = q; udata = (m.sockets i).udata; event = refl }))))

  poll_open-leaves :
      is_nil (sent g l).0.1.head ≡ false → poll_open i (writable i) n ≡ some ([], flushed g l)
  unfolding poll_open read_event
  poll_open-leaves z =
      let e = ap (λ t. is_nil t.head) flushed-slot ∙ z in
      let h = ap (λ t. t.status) flushed-slot ∙ (sent-SendsFrom g l).same_status ∙ d.half in
      rw (send_buffer-leaves z, r-Round.success, h, e) refl

  poll_one-leaves :
      is_nil (sent g l).0.1.head ≡ false → poll_one (writable i) n ≡ some ([], flushed g l)
  unfolding poll_one poll_by
  poll_one-leaves z = ap (λ s. poll_by s (writable i) n) d.half ∙ poll_open-leaves z

  flushed-IsDraining : is_nil (sent g l).0.1.head ≡ false → IsDraining i (flushed g l)
  flushed-IsDraining z = record {
    half = ap (λ t. t.status) flushed-slot ∙ (sent-SendsFrom g l).same_status ∙ d.half;
    tcp = ap (λ t. t.protocol) flushed-slot ∙ (sent-SendsFrom g l).same_protocol ∙ d.tcp;
    full = rw flushed-slot r-Round.full;
    waits = ap (λ t. is_nil t.head) flushed-slot ∙ z;
    takes = rw flushed-slot r-Round.takes;
  }

poll_one-gone :
    (i : ℕ) (n : Net)
    → is_invalid (n.sockets i).status ≡ true
    → poll_one (writable i) n ≡ some ([], n)
unfolding poll_one poll_by
poll_one-gone i n h = ap (λ s. poll_by s (writable i) n) (invalid_status (n.sockets i).status h)

-- Nothing happens to a slot that is not in use.
drain-gone :
    (k i : ℕ) (n : Net) → is_invalid (n.sockets i).status ≡ true → drain k i n ≡ some ([], n)
unfolding drain
drain-gone zero i n h = refl
drain-gone (suc k) i n h = rw (poll_one-gone i n h, drain-gone k i n h) refl

-- there is something to send
load-has : (q : List Sbuffer) → AreFull q → is_nil q ≡ false → 1 ≤ load q
load-has [] f h = absurd (ground (arith, h))
load-has (b ∷ bs) f h = omega (arith, f.0)

-- If a half closed TCP socket has data to send, and the kernel takes at least one byte in each `write`
-- until it is sent, whatever it answers to the calls after that, so many reports that the socket takes data as there are bytes are enough: `socket_poll` closes the
-- socket, and the only event that it writes for these reports tells that the data was written.
pub drain-IsDone :
    (k : ℕ) {max i : ℕ} {n : Net}
    → IsGood max n
    → IsLive max i n
    → IsDraining i n
    → load (n.sockets i).head ≤ k
    → Ends max (IsDone i) (drain k i n)
unfolding drain
drain-IsDone zero {n = n} g l d h =
    absurd (omega (arith, h, load-has (n.sockets _).head d.full d.waits))
drain-IsDone (suc k) {max} {i} {n} g l d h = elim (Bool-cases (is_nil (sent g l).0.1.head)) [
  | inl z ↦ Good.bind (poll_one-IsDone g l d z) λ out m gm q.
      rw (drain-gone k i m q.gone)
        (ends gm (record { gone = q.gone; udata = q.udata; event = append-nil out ∙ q.event }))
  | inr z ↦
      let r = r-Round g l d in
      let less : load ((flushed g l).sockets i).head ≤ k =
        rw (flushed-slot g l d) (omega (arith, r.less, h)) in
      rw (poll_one-leaves g l d z) (
        Good.bind
          (drain-IsDone k (flushed-IsGood g l) (flushed-IsLive g l) (flushed-IsDraining g l d z)
            less)
          (λ rest m gm q. ends gm q))
]
