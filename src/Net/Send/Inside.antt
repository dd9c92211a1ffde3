-- ===== src/Net/Send/Inside.antt =====
-- What waits in a queue of src/socket.c stays inside its buffers.
use lsocket.Prelude.{ℕ, ℤ, pos, negsuc, List, [], ◌∷◌, ltb, ◌==◌, inl, inr, arith, Bool-cases}
use lsocket.Platform.{World, Sys, Call, retry}
use lsocket.Net.{Socket, Sbuffer, Protocol}
use lsocket.Net.Exact.{AreInside}
use lsocket.Net.Send.{unsent, tcp_wrote, send_tcp, ipc_sent, send_ipc, send_by}

-- the queue that a run leaves
abbrev pub LeavesInside : (ℤ × Socket) × World → Type 0
LeavesInside ((e, s), w) = AreInside s.head

module _ (b : Sbuffer) (bs : List Sbuffer) (s : Socket) (rest : Socket → Sys (ℤ × Socket)) (e : ℕ)
    (w : World) (h : AreInside (b ∷ bs)) (ih : (s' : Socket) → LeavesInside (rest s' w)) where
  tcp_wrote-AreInside : (ret : ℤ) → LeavesInside (tcp_wrote b bs s rest e ret w)
  unfolding tcp_wrote
  tcp_wrote-AreInside (negsuc k) = h
  tcp_wrote-AreInside (pos n) = elim (Bool-cases (ltb n b.sz)) [
    | inl y ↦ rw y (ground (arith, h.0, y), h.1)
    | inr m ↦ rw m (ih _)
  ]

  ipc_sent-AreInside : (ret : ℤ) → LeavesInside (ipc_sent b bs s rest e ret w)
  unfolding ipc_sent
  ipc_sent-AreInside (negsuc k) = h
  ipc_sent-AreInside (pos n) = elim (Bool-cases (n == 0)) [
    | inl z ↦ rw z h
    | inr z ↦ rw z (elim (Bool-cases (ltb n b.sz)) [
      | inl y ↦ rw y (ground (arith, h.0, y), h.1)
      | inr m ↦ rw m (ih _)
    ])
  ]

send_tcp-AreInside :
    (q : List Sbuffer) (s : Socket) (w : World) → AreInside q → LeavesInside (send_tcp q s w)
unfolding send_tcp
send_tcp-AreInside [] s w h = tt
send_tcp-AreInside (b ∷ bs) s w h =
    let a = retry (Call.write s.fd (unsent b)) w in
    tcp_wrote-AreInside b bs s (send_tcp bs) a.0.errno a.1 h
      (λ s'. send_tcp-AreInside bs s' a.1 h.1) a.0.ret

send_ipc-AreInside :
    (q : List Sbuffer) (s : Socket) (w : World) → AreInside q → LeavesInside (send_ipc q s w)
unfolding send_ipc
send_ipc-AreInside [] s w h = tt
send_ipc-AreInside (b ∷ bs) s w h =
    let a = retry (Call.sendmsg s.fd (unsent b) b.fd) w in
    ipc_sent-AreInside b bs s (send_ipc bs) a.0.errno a.1 h (λ s'. send_ipc-AreInside bs s' a.1 h.1)
      a.0.ret

-- A flush leaves parts of buffers that are inside the buffers, whatever the kernel answers.
pub send_by-AreInside :
    (p : Protocol) (s : Socket) (w : World) → AreInside s.head → LeavesInside (send_by p s w)
unfolding send_by
send_by-AreInside Protocol.tcp s w h = send_tcp-AreInside s.head s w h
send_by-AreInside Protocol.ipc s w h = send_ipc-AreInside s.head s w h
send_by-AreInside Protocol.udp s w h = h
