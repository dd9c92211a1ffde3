-- ===== src/Net/Send/Tests.antt =====
-- Sending in src/socket.c on a small pool.
use lsocket.Prelude.{inr, ◌^◌, ◌≡◌, refl, pos, true, List, [], take, ℤ, none, ◌∷◌, ◌++◌, arith}
use lsocket.Platform.{World, minus_one}
use lsocket.Platform.Sane.{AllSane}
use lsocket.Net.{Status, Net, Socket, Sbuffer, Protocol, put, protocol_of, limit_of, net_create}
use lsocket.Net.Slots.{created, create_socket-IsPool}
use lsocket.Net.Send.Flow.{flow, Flows, send_buffer-flow}
use lsocket.Net.Send.Taken.{send-Sent, send_fd-Sent}
use lsocket.Net.Send.Queued.{Sent}
use lsocket.Net.Good.{IsGood-os, IsLive-same, IsGood, IsLive, IsGood-store, IsLive-store, Ends}
use lsocket.Net.Good.Slots.{created-IsGood}
use lsocket.Net.Create.{range, net_create-IsPool, net_create-IsGood}
use lsocket.Net.Send.{is_tcp, is_ipc, send, send_fd, send_buffer, data_of, send_by, enqueue}
use lsocket.Net.Send.Limit.{Grows, enqueue-never}
use lsocket.Net.Send.Stream.{stream, pending, send_by-stream}
use lsocket.Net.Send.Slow.{slow, slow_socket, slow-Takes, slow-IsHonest}
use lsocket.Net.Send.Counter.{IsCounted, send_by-IsCounted}
use lsocket.Net.Send.Held.{IsHeld, Held}
use lsocket.Net.Send.Waits.{IsWaiting, Quiet, send_each-Quiet}
use lsocket.Net.Send.Held.Each.{send_each-Held}
use lsocket.Net.Send.Calls.{Sending, send_each}
use lsocket.Net.Send.Progress.{flush, IsFlushed, flush-IsFlushed}
use lsocket.Net.Poll.Drains.{drain, IsDraining, IsDone, drain-IsDone}
use lsocket.Net.Kernels.{fails, junk, oks, oks-AllSane}

-- a socket with two buffers in its queue, of which the kernel takes the first and a part of the
-- second
abbrev queued : Socket
queued = record (junk 0) {
  protocol = Protocol.tcp;
  sbuffersz = pos 5;
  head =
      record { sz = 2; fd = minus_one; begin = 1 ∷ 2 ∷ 3 ∷ []; ptr = 1 }
      ∷ record { sz = 3; fd = minus_one; begin = 4 ∷ 5 ∷ 6 ∷ []; ptr = 0 }
      ∷ [];
}

abbrev partial_writes : World
partial_writes = record { answers = fails 4 ∷ oks (2 ∷ 1 ∷ []) []; log = [] }

send_by-slow :
    let ((e, s'), w') = send_by Protocol.tcp queued partial_writes in
    stream w'.log ++ pending s'.head ≡ 2 ∷ 3 ∷ 4 ∷ 5 ∷ 6 ∷ []
send_by-slow = send_by-stream Protocol.tcp queued partial_writes

-- A pool of two slots whose first one holds a connection, with a kernel whose first write takes two
-- bytes and whose later calls succeed.
abbrev writing : World
writing = record { answers = oks (2 ∷ 0 ∷ []) []; log = [] }

writing-AllSane : AllSane 2 writing.answers
writing-AllSane = oks-AllSane 2 (2 ∷ 0 ∷ []) [] tt

abbrev connected : (protocol : ℤ) → Net
connected protocol =
    (created (net_create (pos 2) writing junk) (range 0 2) (pos 8) (pos 8) (pos 1) protocol).1

connected-IsGood : (protocol : ℤ) → IsGood 2 (connected protocol)
unfolding net_create
connected-IsGood protocol =
    created-IsGood (pos 8) (pos 8) (pos 1) protocol
      (net_create-IsGood (pos 2) writing junk writing-AllSane) 0 (1 ∷ [])
      (create_socket-IsPool (net_create (pos 2) writing junk) (range 0 2) (pos 8) (pos 8) (pos 1)
        protocol refl (net_create-IsPool (pos 2) writing junk).1).1

connected-IsLive : (protocol : ℤ) → IsLive 2 0 (connected protocol)
connected-IsLive protocol = record { bound = omega arith; valid = refl }

connected-tcp : is_tcp ((connected (pos 0)).sockets 0).protocol ≡ true
unfolding protocol_of
connected-tcp = refl

connected-ipc : is_ipc ((connected (pos 2)).sockets 0).protocol ≡ true
unfolding protocol_of
connected-ipc = refl

send-Sent_example :
    Ends 2
      (Sent 0 (flow 0 (connected (pos 0)) ++ take 5 (1 ∷ 2 ∷ 3 ∷ 4 ∷ 5 ∷ [])))
      (send 0 (1 ∷ 2 ∷ 3 ∷ 4 ∷ 5 ∷ []) 5 (connected (pos 0)))
send-Sent_example =
    send-Sent 0 (1 ∷ 2 ∷ 3 ∷ 4 ∷ 5 ∷ []) 5 (connected-IsGood (pos 0)) (connected-IsLive (pos 0))
      connected-tcp refl (omega arith)

send_fd-Sent_example :
    Ends 2
      (Sent 0 (flow 0 (connected (pos 2)) ++ take 1 (data_of none)))
      (send_fd 0 none 1 (pos 9) (connected (pos 2)))
send_fd-Sent_example =
    send_fd-Sent 0 none 1 (pos 9) (connected-IsGood (pos 2)) (connected-IsLive (pos 2))
      connected-ipc refl refl

-- two buffers wait in the queue of the connection
abbrev waiting : Net
waiting =
    let n = connected (pos 0) in
    record n {
      sockets = put n.sockets 0 (record (n.sockets 0) { head = queued.head; sbuffersz = pos 5 });
    }

waiting-IsGood : IsGood 2 waiting
waiting-IsGood =
    IsGood-store _ (record { valid = refl; fd_lem = refl }) (connected-IsGood (pos 0))
      (connected-IsLive (pos 0)) (λ o. refl)

waiting-IsLive : IsLive 2 0 waiting
waiting-IsLive =
    IsLive-store _ (record { valid = refl; fd_lem = refl }) (connected-IsGood (pos 0))
      (connected-IsLive (pos 0))

send_buffer-flow_example : Ends 2 (Flows 0 (flow 0 waiting)) (send_buffer 0 waiting)
send_buffer-flow_example = send_buffer-flow waiting-IsGood waiting-IsLive

slow-IsFlushed : IsFlushed (flush 5 slow_socket slow)
slow-IsFlushed =
    flush-IsFlushed 5 slow_socket slow (omega arith, (omega arith, tt)) slow-Takes (omega arith)

slow-IsCounted : IsCounted (send_by Protocol.tcp slow_socket slow)
slow-IsCounted = send_by-IsCounted Protocol.tcp slow_socket slow refl slow-IsHonest

-- Two buffers wait in the queue of a connection whose socket was made without a limit, and its counter
-- is the largest `int`.
abbrev unlimited : Socket
unlimited = record (waiting.sockets 0) { slimit = limit_of (pos 0) }

abbrev endless : Net
endless = record waiting { sockets = put waiting.sockets 0 unlimited }

endless-IsGood : IsGood 2 endless
unfolding net_create
endless-IsGood =
    IsGood-store unlimited (record { valid = refl; fd_lem = refl }) waiting-IsGood waiting-IsLive
      (λ o. refl)

-- a buffer of 2^31 bytes, which makes the sum wrap around
abbrev huge : Sbuffer
huge = record { sz = 2 ^ 31; fd = minus_one; begin = []; ptr = 0 }

enqueue-never_example :
    Ends 2 (Grows 0 (endless.sockets 0).head huge (pos 0)) (enqueue 0 huge (pos 0) endless)
enqueue-never_example =
    enqueue-never huge (pos 0) endless-IsGood (record { bound = omega arith; valid = refl }) (pos 0)
      refl refl

-- the limit of the connection is 8
connected-IsHeld : IsHeld 8 ((connected (pos 0)).sockets 0)
connected-IsHeld = record { limit_lem = refl; count_lem = refl; within = omega arith }

-- five bytes, of which the kernel takes two, and two more, which wait with the others
abbrev sendings : List Sending
sendings = Sending.plain (1 ∷ 2 ∷ 3 ∷ 4 ∷ 5 ∷ []) 5 ∷ Sending.plain (6 ∷ 7 ∷ []) 2 ∷ []

send_each-Held_example : Ends 2 (Held 0 8) (send_each 0 sendings (connected (pos 0)))
send_each-Held_example =
    send_each-Held 0 8 sendings (connected-IsGood (pos 0)) (omega arith)
      (omega arith, (omega arith, refl), (omega arith, (omega arith, refl), tt))
      (inr connected-IsHeld)

waiting-IsWaiting : IsWaiting 0 waiting.os (waiting.sockets 0).mask waiting
waiting-IsWaiting = record { waits = refl; os_lem = refl; mask_lem = refl }

send_each-Quiet_example :
    Ends 2 (Quiet 0 waiting.os (waiting.sockets 0).mask) (send_each 0 sendings waiting)
send_each-Quiet_example =
    send_each-Quiet waiting.os (waiting.sockets 0).mask 0 sendings waiting-IsGood (omega arith)
      (omega arith, (omega arith, tt)) (inr waiting-IsWaiting)

-- the connection is half closed, and its kernel takes one byte in each `write`
abbrev half_closed : Socket
half_closed = record (waiting.sockets 0) { status = Status.halfclose }

abbrev draining : Net
draining = record waiting { os = slow; sockets = put waiting.sockets 0 half_closed }

draining-tcp : (draining.sockets 0).protocol ≡ Protocol.tcp
unfolding protocol_of
draining-tcp = refl

slow-AllSane : AllSane 2 slow.answers
slow-AllSane = oks-AllSane 2 (1 ∷ 1 ∷ 1 ∷ 1 ∷ 1 ∷ 0 ∷ 0 ∷ []) [] tt

slowed-IsGood : IsGood 2 (record waiting { os = slow })
unfolding net_create
slowed-IsGood = IsGood-os slow slow-AllSane (λ o. tt) waiting-IsGood

draining-IsGood : IsGood 2 draining
draining-IsGood =
    IsGood-store half_closed (record { valid = refl; fd_lem = refl }) slowed-IsGood
      (IsLive-same refl waiting-IsLive) (λ o. refl)

draining-IsDraining : IsDraining 0 draining
draining-IsDraining = record {
  half = refl;
  tcp = draining-tcp;
  full = (omega arith, (omega arith, tt));
  waits = refl;
  takes = (0, refl, (0, refl, (0, refl, (0, refl, (0, refl, tt)))));
}

drain-IsDone_example : Ends 2 (IsDone 0) (drain 5 0 draining)
drain-IsDone_example =
    drain-IsDone 5 draining-IsGood (record { bound = omega arith; valid = refl })
      draining-IsDraining (omega arith)
