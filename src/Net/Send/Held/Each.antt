-- ===== src/Net/Send/Held/Each.antt =====
-- `socket_send` and `socket_sendfd` of src/socket.c under the limit on the send queue.
use lsocket.Prelude.{
  ℕ, ◌+◌, ◌^◌, ◌<◌, ◌≡◌, false, refl, ℤ, pos, negsuc, Option, List, [], ◌∷◌, inl, inr, arith, leb,
  ◌==◌, Bool-cases, take,
}
use lsocket.Platform.{Call, sys}
use lsocket.Platform.Sane.{sys-KeepsSane}
use lsocket.Net.{Net, is_nil}
use lsocket.Net.Good
use lsocket.Net.Good.{
  IsGood, IsLive, IsUsed, Ends, ends, bind, IsGood-os, IsGood-err, IsGood-store, IsLive-store,
  IsLive-same, live-fd,
}
use lsocket.Net.Send.{sent_fd, send_fd_on, data_of, past_tmp, again, wrote, send_on}
use lsocket.Net.Send.Held.{IsHeld, Held, errout-Held, enqueue-Held}
use lsocket.Net.Send.Calls.{
  Sending, size_of_sending, sending, send_each, AllFit, is_past, sending_on, sending-Ends,
}

-- A socket in use whose queue is held, and a size that keeps the sum below 2^31.
module _ {max i : ℕ} {n : Net} (lim sz : ℕ) (g : IsGood max n) (l : IsLive max i n)
    (h : IsHeld lim (n.sockets i)) (k : lim + sz < 2 ^ 31) where
  wrote-Held :
      (bytes : List ℕ) (errno : ℕ) (ret : ℤ) → Ends max (Held i lim) (wrote i bytes sz errno ret n)
  unfolding wrote
  wrote-Held bytes errno (pos c) = elim (Bool-cases (leb sz c)) [
    | inl e ↦ rw e (ends g (inr h))
    | inr e ↦ rw e (enqueue-Held lim _ _ g l h (omega arith))
  ]
  wrote-Held bytes errno (negsuc c) = elim (Bool-cases (again errno)) [
    | inl e ↦ rw e (enqueue-Held lim _ _ g l h k)
    | inr e ↦ rw e (errout-Held lim _ g l)
  ]

  sent_fd-Held :
      (bytes : List ℕ) (cfd : ℤ) (errno : ℕ) (ret : ℤ)
      → Ends max
          (Held i lim)
          (sent_fd i (record { sz = sz; fd = cfd; begin = bytes; ptr = 0 }) errno ret n)
  unfolding sent_fd
  sent_fd-Held bytes cfd errno (pos c) = elim (Bool-cases (leb sz c)) [
    | inl e ↦ rw e (ends g (inr h))
    | inr e ↦ rw e (elim (Bool-cases (c == 0)) [
      | inl z ↦ rw z (enqueue-Held lim _ _ g l h k)
      | inr z ↦ rw z (enqueue-Held lim _ _ g l h (omega arith))
    ])
  ]
  sent_fd-Held bytes cfd errno (negsuc c) = elim (Bool-cases (again errno)) [
    | inl e ↦ rw e (enqueue-Held lim _ _ g l h k)
    | inr e ↦ rw e (errout-Held lim _ g l)
  ]

module _ {max i : ℕ} {n : Net} (lim sz : ℕ) (g : IsGood max n) (l : IsLive max i n)
    (h : IsHeld lim (n.sockets i)) (k : lim + sz < 2 ^ 31) where
  -- after a system call
  abbrev called : Call → Net
  called c = record n { os = (sys c n.os).1 }

  called-IsGood : (c : Call) → IsGood max (called c)
  called-IsGood c = Good.called (sys c) (sys-KeepsSane max c) g

  send_on-Held : (bytes : List ℕ) → Ends max (Held i lim) (send_on i bytes sz n)
  unfolding send_on
  send_on-Held bytes =
      let c = Call.write (n.sockets i).fd (take sz bytes) in
      let a = (sys c n.os).0 in
      elim (Bool-cases (is_nil (n.sockets i).head)) [
        | inl e ↦
            rw e (wrote-Held lim sz (called-IsGood c) (IsLive-same refl l) h k bytes a.errno a.ret)
        | inr e ↦ rw e (enqueue-Held lim _ _ g l h k)
      ]

  send_fd_on-Held :
      (bytes : Option (List ℕ)) (cfd : ℤ)
      → past_tmp bytes sz ≡ false
      → Ends max (Held i lim) (send_fd_on i bytes sz cfd n)
  unfolding send_fd_on
  send_fd_on-Held bytes cfd p =
      let c = Call.sendmsg (n.sockets i).fd (take sz (data_of bytes)) cfd in
      let a = (sys c n.os).0 in
      elim (Bool-cases (is_nil (n.sockets i).head)) [
        | inl e ↦
            rw (e, p)
              (sent_fd-Held lim sz (called-IsGood c) (IsLive-same refl l) h k (data_of bytes) cfd
                a.errno a.ret)
        | inr e ↦ rw e (enqueue-Held lim _ _ g l h k)
      ]

sending_on-Held :
    {max id : ℕ} {n : Net} (lim : ℕ) (c : Sending)
    → IsGood max n
    → IsLive max id n
    → lim + size_of_sending c < 2 ^ 31
    → is_past c ≡ false
    → Held id lim tt n
    → Ends max (Held id lim) (sending_on id c n)
sending_on-Held lim c g l k p (inl z) = absurd (ground (arith, z, l.valid))
sending_on-Held lim (Sending.plain bytes sz) g l k p (inr t) = send_on-Held lim sz g l t k bytes
sending_on-Held lim (Sending.with_fd bytes sz cfd) g l k p (inr t) =
    send_fd_on-Held lim sz g l t k bytes cfd p

sending-Held :
    {max : ℕ} {n : Net} (id lim : ℕ) (c : Sending)
    → IsGood max n
    → id < max
    → 0 < size_of_sending c
    → lim + size_of_sending c < 2 ^ 31
    → is_past c ≡ false
    → Held id lim tt n
    → Ends max (Held id lim) (sending id c n)
sending-Held id lim c g b p k t h =
    sending-Ends id c g b p (λ e. h) (λ l. sending_on-Held lim c g l k t h)

-- Any sequence of `socket_send` and `socket_sendfd` on a slot, each of at least one byte, of one byte
-- if there is no data, and of a size that makes no more than an `int` with the limit, ends in a good state, in which the slot is not in
-- use or its queue holds no more bytes than the limit, and as many as its counter says, if this was so
-- before.
pub send_each-Held :
    {max : ℕ} {n : Net} (id lim : ℕ) (cs : List Sending)
    → IsGood max n
    → id < max
    → AllFit lim cs
    → Held id lim tt n
    → Ends max (Held id lim) (send_each id cs n)
send_each-Held id lim [] g b f h = ends g h
send_each-Held id lim (c ∷ cs) g b f h =
    Good.bind (sending-Held id lim c g b f.0 f.1.0 f.1.1 h)
      (λ a m gm hm. send_each-Held id lim cs gm b f.2 hm)
