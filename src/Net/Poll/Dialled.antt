-- ===== src/Net/Poll/Dialled.antt =====
-- A run of `socket_poll` of src/socket.c on a socket whose connection is being made.
use lsocket.Prelude.{◌≡◌, refl, Option, none, some, pos, true, List, [], ◌∷◌}
use lsocket.Platform.{World}
use lsocket.Epoll.{np_poll, np_del}
use lsocket.Net.{Net, net_create, Status, subscribe, change}
use lsocket.Net.Kernels.{ready, oks, junk}
use lsocket.Net.Poll.{
  poll, SocketEvent, EventType, poll_all, poll_one, poll_by, poll_connecting, on_connect,
  connect_type, connect_error, so_error,
}

-- A socket whose connection is being made; the poller reports it, and `getsockopt` gives no error.
abbrev pub dialling : World
dialling = record { answers = ready 0 ∷ oks (0 ∷ 0 ∷ []) []; log = [] }

abbrev pub dialled : Net
dialled = record (net_create (pos 2) dialling junk) {
  sockets = λ i. record (junk i) {
    fd = pos 5;
    status = Status.connecting;
    mask = record { rable = true; wable = true };
  };
}

abbrev pub events_of : Option (List SocketEvent × Net) → List SocketEvent
events_of none = []
events_of (some (es, n)) = es

abbrev pub net_of : Option (List SocketEvent × Net) → Net
net_of none = dialled
net_of (some (es, n)) = n

abbrev pub connected_events : List SocketEvent
connected_events =
    record { id = 0; type = EventType.conn_then_read; udata = pos 7; info = some (pos 0) } ∷ []

pub dialled-poll : poll (pos 0) dialled ≡ some (connected_events, net_of (poll (pos 0) dialled))
unfolding poll poll_all poll_one poll_by poll_connecting on_connect connect_type connect_error
    so_error subscribe change np_poll net_create np_del
dialled-poll = refl
