-- ===== src/Net/Poll/Tests.antt =====
-- A run of src/socket.c in which data is queued while a connection is being made.
use lsocket.Prelude.{◌≡◌, refl, Option, none, some, pos, true, int_add, List, [], ◌∷◌, ℕ}
use lsocket.Platform.{World, Mask, eagain}
use lsocket.Epoll.{np_poll, np_mod, np_del}
use lsocket.Net.{Net, ◌>>◌, Status, Protocol, net_create, no_mask, subscribe, change, get_socket}
use lsocket.Net.Kernels.{fails, ready, oks, junk}
use lsocket.Net.Send.{send, send_on, wrote, enqueue}
use lsocket.Net.Send.Stream.{stream, pending}
use lsocket.Net.Poll.{
  poll, poll_all, poll_one, poll_by, poll_connecting, on_connect, connect_type, connect_error,
  so_error,
}

-- The first write is not possible yet; the poller then reports the socket, and the connection is made.
abbrev early : World
early = record { answers = fails eagain ∷ ready 0 ∷ oks (0 ∷ 0 ∷ 5 ∷ []) []; log = [] }

abbrev dialling : Net
dialling = record (net_create (pos 2) early junk) {
  sockets = λ i. record (junk i) {
    fd = pos 5;
    protocol = Protocol.tcp;
    status = Status.connecting;
    mask = record { rable = true; wable = true };
    sbuffersz = pos 0;
    slimit = pos 8;
  };
}

abbrev outcome : Option (Mask × List ℕ × List ℕ)
outcome = elim ((send 0 (1 ∷ 2 ∷ []) 2 >> poll (pos 0) >> send 0 (3 ∷ []) 1) dialling) [
  | none ↦ none
  | some r ↦ some ((r.1.sockets 0).mask, pending (r.1.sockets 0).head, stream r.1.os.log)
]

-- The data stays in the queue, and the poller watches the connection for nothing any more.
outcome-stuck : outcome ≡ some (no_mask, 1 ∷ 2 ∷ 3 ∷ [], [])
unfolding send send_on wrote enqueue get_socket poll poll_all poll_one poll_by poll_connecting
    on_connect connect_type connect_error so_error subscribe change np_poll np_mod np_del net_create
    int_add
outcome-stuck = refl
