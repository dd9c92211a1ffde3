-- ===== src/Psocket/Dispatch.antt =====
-- Which events src/psocket.c hands to its callback, and in which order.
use lsocket.Prelude.{
  ℕ, suc, ◌+◌, ◌≡◌, refl, ℤ, pos, false, some, List, [], ◌∷◌, ◌++◌, length, append_assoc,
  append-nil, arith, if◌then◌else◌,
}
use lsocket.Net.{Net}
use lsocket.Net.Start.{Started}
use lsocket.Net.Poll.{poll, SocketEvent, EventType}
use lsocket.Psocket.{
  State, P, is_conn_then_read, with_type, dispatch_one, dispatch_all, psocket_poll,
}

-- Every event, and for "connected, then readable" the two events that it stands for.
pub split_event : SocketEvent → List SocketEvent
split_event e = elim e.type [
  | EventType.conn_then_read ↦ with_type e EventType.connect_ ∷ with_type e EventType.read ∷ []
  | _ ↦ e ∷ []
]

pub split_events : List SocketEvent → List SocketEvent
split_events [] = []
split_events (e ∷ es) = split_event e ++ split_events es

-- a callback that writes down what it is given
abbrev pub recorder : SocketEvent → P (List SocketEvent) (Unit {0})
recorder e s = some (tt, record s { user = s.user ++ e ∷ [] })

dispatch_one-recorder :
    (e : SocketEvent) (s : State (List SocketEvent))
    → dispatch_one recorder e s ≡ some (tt, record s { user = s.user ++ split_event e })
unfolding dispatch_one is_conn_then_read split_event
dispatch_one-recorder e s = at e.type e s refl
  where
    at :
        (t : EventType) (e : SocketEvent) (s : State (List SocketEvent))
        → e.type ≡ t
        → dispatch_one recorder e s ≡ some (tt, record s { user = s.user ++ split_event e })
    at EventType.conn_then_read e s q =
        rw
          (
            q,
            append_assoc s.user (with_type e EventType.connect_ ∷ [])
                (with_type e EventType.read ∷ []),
          )
          refl
    at EventType.read e s q = rw q refl
    at EventType.accept_ e s q = rw q refl
    at EventType.connect_ e s q = rw q refl
    at EventType.conn_err e s q = rw q refl
    at EventType.sock_err e s q = rw q refl
    at EventType.write_done_close e s q = rw q refl

dispatch_all-recorder :
    (es : List SocketEvent) (s : State (List SocketEvent))
    → dispatch_all recorder es s ≡ some (tt, record s { user = s.user ++ split_events es })
unfolding dispatch_all split_events
dispatch_all-recorder [] s = rw (append-nil s.user) refl
dispatch_all-recorder (e ∷ es) s =
    rw
      (
        dispatch_one-recorder e s,
        dispatch_all-recorder es _,
        append_assoc s.user (split_event e) (split_events es),
      )
      refl

abbrev pub AreSplit : List SocketEvent → Type 0
AreSplit [] = Unit
AreSplit (e ∷ es) = (is_conn_then_read e.type ≡ false) × AreSplit es

-- how many events stand for two
pub doubles : List SocketEvent → ℕ
doubles [] = 0
doubles (e ∷ es) = if is_conn_then_read e.type then suc (doubles es) else doubles es

split_events-AreSplit :
    (es : List SocketEvent)
    → AreSplit (split_events es) × (length (split_events es) ≡ length es + doubles es)
unfolding split_events split_event is_conn_then_read doubles
split_events-AreSplit [] = (tt, omega arith)
split_events-AreSplit (e ∷ es) = let (a, b) = split_events-AreSplit es in at e.type e refl a b
  where
    at :
        (t : EventType) (e : SocketEvent)
        → e.type ≡ t
        → AreSplit (split_events es)
        → length (split_events es) ≡ length es + doubles es
        → AreSplit (split_events (e ∷ es))
          × (length (split_events (e ∷ es)) ≡ length (e ∷ es) + doubles (e ∷ es))
    at EventType.conn_then_read e q a b = rw q ((refl, (refl, a)), omega (arith, b))
    at EventType.read e q a b = rw q ((refl, a), omega (arith, b))
    at EventType.accept_ e q a b = rw q ((refl, a), omega (arith, b))
    at EventType.connect_ e q a b = rw q ((refl, a), omega (arith, b))
    at EventType.conn_err e q a b = rw q ((refl, a), omega (arith, b))
    at EventType.sock_err e q a b = rw q ((refl, a), omega (arith, b))
    at EventType.write_done_close e q a b = rw q ((refl, a), omega (arith, b))

-- `psocket_poll` hands every event of `socket_poll` to the callback, in order and once, and each
-- "connected, then readable" as a connect and then a read, so that the callback never sees that
-- code; it returns the number of events before this split.
pub psocket_poll-split_events :
    (timeout epoll_fd : ℤ) (n n' : Net) (es seen : List SocketEvent)
    → poll timeout n ≡ some (es, n')
    → (psocket_poll recorder timeout (record { net = Started.started n epoll_fd; user = seen })
        ≡ some (
          pos (length es),
          record { net = Started.started n' epoll_fd; user = seen ++ split_events es },
        ))
      × AreSplit (split_events es)
      × (length (split_events es) ≡ length es + doubles es)
unfolding psocket_poll
psocket_poll-split_events timeout epoll_fd n n' es seen q = (
  rw (q, dispatch_all-recorder es _) refl,
  (split_events-AreSplit es).0,
  (split_events-AreSplit es).1,
)
