-- ===== src/Net/Trace/Tests.antt =====
-- A program of calls of src/socket.c against a small kernel.
use lsocket.Prelude.{int_add, ℕ, pos, true, false, refl, List, [], ◌∷◌, arith}
use lsocket.Platform.{World}
use lsocket.Platform.Sane.{AllSane}
use lsocket.Net.Open
use lsocket.Platform.Honest.{IsHonest}
use lsocket.Net.{Status, net_free, ◌>>◌}
use lsocket.Net.Good.{Ends, Any}
use lsocket.Net.Create.{AreFree}
use lsocket.Net.Kernels.{junk, oks, oks-AllSane, ready, ready-IsSane, kernel, kernel-AllSane}
use lsocket.Net.Trace.{Request, AreEmpty, AreProper, net_create-serve_all, net_create-net_free}
use lsocket.Net.Life.{IsPending}
use lsocket.Net.Trace.Routes.{AreTrusted, Route, serve_all-Route}
use lsocket.Net.Exact.{AreInside}
use lsocket.Net.Trace.Inside.{serve_all-AreInside}
use lsocket.Net.Trace.Counters.{log_of, AreExact, serve_all-AreExact}
use lsocket.Epoll.{np_poll, to_event, first, reported, op, np_add, np_mod}
use lsocket.Net.{
  net_create, alloc_sockets, create_socket, protocol_of, subscribe, change, get_socket, close,
}
use lsocket.Net.Poll.{poll, poll_all, poll_one, poll_by, poll_open, read_event}
use lsocket.Net.Send.{send_buffer, send_by, send_tcp, tcp_wrote, send, send_on, wrote, enqueue}
use lsocket.Net.Trace.{serve, serve_all}
use lsocket.Platform.{sys, retry, nonblocking}

abbrev program : List Request
program =
    Request.listen_ (pos 1)
    ∷ Request.poll_ (pos 0)
    ∷ Request.send_ 1 (72 ∷ 105 ∷ 33 ∷ []) 3
    ∷ Request.poll_ (pos 0)
    ∷ Request.close_ 0 true
    ∷ Request.read_ 0
    ∷ []

program-AreProper : AreProper 2 program
program-AreProper = (tt, (tt, ((omega arith, omega arith), (tt, (omega arith, (omega arith, tt))))))

net_create-serve_all_example : Ends 2 Any (serve_all program (net_create (pos 2) kernel junk))
net_create-serve_all_example =
    net_create-serve_all (pos 2) kernel junk program kernel-AllSane program-AreProper

net_create-net_free_example :
    Ends 2
      (λ x n. AreFree 2 n × AreEmpty 2 n)
      ((serve_all program >> net_free) (net_create (pos 2) kernel junk))
net_create-net_free_example =
    net_create-net_free (pos 2) kernel junk program kernel-AllSane program-AreProper

serve_all-Route_example :
    Ends 2
      (λ a m. (i : ℕ) → Route program Status.invalid (m.sockets i).status × IsPending (m.sockets i))
      (serve_all program (net_create (pos 2) kernel junk))
serve_all-Route_example =
    serve_all-Route (pos 2) kernel junk program kernel-AllSane program-AreProper

-- A descriptor is bound; of five bytes to send the kernel takes two, and one more when the poller
-- reports the socket, which is then half closed.
abbrev taking : World
taking = record { answers = oks (0 ∷ 0 ∷ 2 ∷ 0 ∷ []) (ready 0 ∷ oks (1 ∷ []) []); log = [] }

abbrev sending : List Request
sending =
    Request.bind_ (pos 5) (pos 1) (pos 0)
    ∷ Request.send_ 0 (1 ∷ 2 ∷ 3 ∷ 4 ∷ 5 ∷ []) 5
    ∷ Request.poll_ (pos 0)
    ∷ Request.close_ 0 false
    ∷ []

taking-AllSane : AllSane 2 taking.answers
taking-AllSane =
    oks-AllSane 2 (0 ∷ 0 ∷ 2 ∷ 0 ∷ []) (ready 0 ∷ oks (1 ∷ []) [])
      (ready-IsSane 2 0 (omega arith), oks-AllSane 2 (1 ∷ []) [] tt)

sending-AreProper : AreProper 2 sending
sending-AreProper = (refl, ((omega arith, omega arith), (tt, (omega arith, tt))))

sending-IsHonest : IsHonest (log_of (serve_all sending (net_create (pos 2) taking junk)))
unfolding serve serve_all net_create alloc_sockets Open.bind create_socket protocol_of poll poll_all
    poll_one poll_by poll_open read_event send_buffer send_by send_tcp tcp_wrote subscribe change
    get_socket send send_on wrote enqueue close np_poll to_event first reported op np_add np_mod sys
    retry nonblocking int_add
sending-IsHonest = (omega arith, (tt, (tt, (omega arith, (tt, (tt, tt))))))

serve_all-AreExact_example : Ends 2 AreExact (serve_all sending (net_create (pos 2) taking junk))
serve_all-AreExact_example =
    serve_all-AreExact (pos 2) taking junk sending taking-AllSane sending-AreProper sending-IsHonest

-- each send of the program has as many bytes as it says
sending-AreTrusted : AreTrusted sending
sending-AreTrusted = (refl, (refl, (refl, (refl, tt))))

serve_all-AreInside_example :
    Ends 2
      (λ a m. (i : ℕ) → AreInside (m.sockets i).head)
      (serve_all sending (net_create (pos 2) taking junk))
serve_all-AreInside_example =
    serve_all-AreInside (pos 2) taking junk sending taking-AllSane sending-AreProper
      sending-AreTrusted
