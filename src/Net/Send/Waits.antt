-- ===== src/Net/Send/Waits.antt =====
-- What `socket_send` and `socket_sendfd` of src/socket.c do while data waits in the queue.
use lsocket.Prelude.{
  ℕ, ◌<◌, ◌≡◌, ◌⊎◌, refl, ap, ◌∙◌, ℤ, true, false, List, [], ◌∷◌, ◌++◌, inl, inr, arith,
}
use lsocket.Platform.{World, Mask}
use lsocket.Net.{Net, Sbuffer, is_nil, is_invalid}
use lsocket.Net.Good
use lsocket.Net.Good.{
  IsGood, IsLive, IsUsed, Ends, ends, bind, IsGood-err, IsGood-store, IsLive-store, live-fd,
}
use lsocket.Net.Good.Slots.{close_socket-Ends}
use lsocket.Net.Exact.{queued}
use lsocket.Net.Send.Enqueue.{enqueue-by}
use lsocket.Net.Send.{errout, enqueue, send_on, send_fd_on}
use lsocket.Net.Send.Calls.{Sending, sending_on, sending-Ends, send_each, AllSome}
use lsocket.Net.Send.Flow.{put-same}

-- Data waits in the queue of the slot, whose mask is `mask`, and the kernel is as it was.
pub record IsWaiting (i : ℕ) (os : World) (mask : Mask) (n : Net) : Type 0 where
  pub waits : is_nil (n.sockets i).head ≡ false
  pub os_lem : n.os ≡ os
  pub mask_lem : (n.sockets i).mask ≡ mask

-- the socket was closed, or data waits
abbrev pub Quiet : {A : Type 0} → ℕ → World → Mask → A → Net → Type 0
Quiet i os mask a m = (is_invalid (m.sockets i).status ≡ true) ⊎ IsWaiting i os mask m

is_nil-snoc : (q : List Sbuffer) (b : Sbuffer) → is_nil (q ++ b ∷ []) ≡ false
is_nil-snoc [] b = refl
is_nil-snoc (c ∷ q) b = refl

-- the kernel and the mask
module _ (os : World) (mask : Mask) where
  enqueue-Quiet :
      {max i : ℕ} {n : Net} (b : Sbuffer) (x : ℤ)
      → IsGood max n
      → IsLive max i n
      → IsWaiting i os mask n
      → Ends max (Quiet i os mask) (enqueue i b x n)
  unfolding errout
  enqueue-Quiet {i = i} {n = n} b x g l w =
      let e' = put-same n.sockets i (queued b (n.sockets i)) in
      enqueue-by b g l x
        (λ e. Good.bind (close_socket-Ends g l) (λ a m gm q. ends (IsGood-err _ gm) (inl q)))
        (λ e z. absurd (ground (arith, z, w.waits)))
        (λ e z. inr (record {
          waits = ap (λ t. is_nil t.head) e' ∙ is_nil-snoc (n.sockets i).head b;
          os_lem = w.os_lem;
          mask_lem = ap (λ t. t.mask) e' ∙ w.mask_lem;
        }))

  sending_on-Quiet :
      {max i : ℕ} {n : Net} (c : Sending)
      → IsGood max n
      → IsLive max i n
      → Quiet i os mask tt n
      → Ends max (Quiet i os mask) (sending_on i c n)
  unfolding send_on send_fd_on
  sending_on-Quiet c g l (inl z) = absurd (ground (arith, z, l.valid))
  sending_on-Quiet (Sending.plain bytes sz) g l (inr w) = rw (w.waits) (enqueue-Quiet _ _ g l w)
  sending_on-Quiet (Sending.with_fd bytes sz cfd) g l (inr w) =
      rw (w.waits) (enqueue-Quiet _ _ g l w)

  Quiet-err :
      {i : ℕ} {n : Net} (e : ℤ) → Quiet i os mask tt n → Quiet i os mask tt (record n { err = e })
  Quiet-err e (inl z) = inl z
  Quiet-err e (inr w) = inr (record { waits = w.waits; os_lem = w.os_lem; mask_lem = w.mask_lem })

  -- While data waits in the queue of a slot, any sequence of `socket_send` and `socket_sendfd` of at
  -- least one byte on it ends in a good state, and makes no system call unless it closes the socket: no
  -- byte overtakes those that wait. The mask of the slot stays as it is, so that data that waits while
  -- the poller does not watch for write events is not sent by a later call either.
  pub send_each-Quiet :
      {max : ℕ} {n : Net} (id : ℕ) (cs : List Sending)
      → IsGood max n
      → id < max
      → AllSome cs
      → Quiet id os mask tt n
      → Ends max (Quiet id os mask) (send_each id cs n)
  send_each-Quiet id [] g b f h = ends g h
  send_each-Quiet id (c ∷ cs) g b f h =
      Good.bind (sending-Ends id c g b f.0 (λ e. Quiet-err e h) (λ l. sending_on-Quiet c g l h))
        (λ a m gm hm. send_each-Quiet id cs gm b f.1 hm)
