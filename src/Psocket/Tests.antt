-- ===== src/Psocket/Tests.antt =====
-- Runs of src/psocket.c against small kernels.
use lsocket.Prelude.{ℕ, ◌≤◌, ◌≡◌, refl, pos, true, some, List, [], ◌∷◌, ◌++◌, length, ◌+◌, arith}
use lsocket.Platform.{World, Answer}
use lsocket.Platform.Sane.{AllSane}
use lsocket.Net.{net_create}
use lsocket.Net.Kernels.{ok, ready, junk, oks, oks-AllSane, ready-IsSane}
use lsocket.Net.Create.{net_create-IsGood}
use lsocket.Net.Start.{Started}
use lsocket.Net.Poll.{poll, SocketEvent}
use lsocket.Net.Poll.Dialled.{dialled, dialled-poll, connected_events, net_of}
use lsocket.Net.Receive.Keeps.{read-Lives}
use lsocket.Net.Life.{forget}
use lsocket.Psocket.{State, P, ◌>>=◌, psocket_poll, psocket_read}
use lsocket.Psocket.Dispatch.{recorder, split_events, AreSplit, doubles, psocket_poll-split_events}
use lsocket.Psocket.Safe
use lsocket.Psocket.Safe.{
  IsOpen, Runs, is_open, runs, All, IsCallback, reopen-Runs, psocket_poll-Runs,
}
use lsocket.Psocket.Program.{Request, AreProper, program, IsOver, program-IsOver}

psocket_poll-split_events_example :
    (psocket_poll recorder (pos 0) (record { net = Started.started dialled (pos 3); user = [] })
      ≡ some (
        pos 1,
        record {
          net = Started.started (net_of (poll (pos 0) dialled)) (pos 3);
          user = [] ++ split_events connected_events;
        },
      ))
    × AreSplit (split_events connected_events)
    × (length (split_events connected_events) ≡ 1 + doubles connected_events)
psocket_poll-split_events_example =
    psocket_poll-split_events (pos 0) (pos 3) dialled (net_of (poll (pos 0) dialled))
      connected_events [] dialled-poll

-- a callback that reads from the socket of the event, and counts
abbrev reader : SocketEvent → P ℕ (Unit {0})
reader e = psocket_read (pos e.id) >>= λ r s. some (tt, record s { user = s.user + 1 })

counts :
    {max : ℕ} (s : State ℕ)
    → IsOpen max s
    → Runs max All (some (tt, record s { user = s.user + 1 }))
counts _ (is_open g) = runs (is_open g) tt

reader-IsCallback : (max : ℕ) → IsCallback max reader
unfolding psocket_read
reader-IsCallback max e _ b t (is_open {epoll_fd = epoll_fd} {u = u} g) =
    Safe.bind (reopen-Runs epoll_fd u _ (forget (read-Lives e.id g b)) (λ a n q. tt))
      λ r s h q. counts s h

-- The poller is made, a listening socket too, and a connection is accepted.
abbrev accepting : List Answer
accepting = ready 0 ∷ oks (6 ∷ 0 ∷ 0 ∷ 0 ∷ []) []

abbrev listening : List Answer
listening = record (ok 0) { buf = 1 ∷ [] } ∷ oks (5 ∷ 0 ∷ 0 ∷ 0 ∷ 0 ∷ 0 ∷ 0 ∷ 0 ∷ 0 ∷ []) accepting

abbrev kernel : World
kernel = record { answers = oks (3 ∷ 0 ∷ 0 ∷ []) listening; log = [] }

accepting-AllSane : AllSane 2 accepting
accepting-AllSane = (ready-IsSane 2 0 (omega arith), oks-AllSane 2 (6 ∷ 0 ∷ 0 ∷ 0 ∷ []) [] tt)

listening-AllSane : AllSane 2 listening
listening-AllSane = (
  record { ret_lem = λ e. absurd (ground arith); events_lem = tt; count_lem = omega arith },
  oks-AllSane 2 (5 ∷ 0 ∷ 0 ∷ 0 ∷ 0 ∷ 0 ∷ 0 ∷ 0 ∷ 0 ∷ []) accepting accepting-AllSane,
)

kernel-AllSane : AllSane 2 kernel.answers
kernel-AllSane = oks-AllSane 2 (3 ∷ 0 ∷ 0 ∷ []) listening listening-AllSane

abbrev requests : List Request
requests =
    Request.listen_
    ∷ Request.poll_ (pos 0)
    ∷ Request.read_ (pos 1)
    ∷ Request.close_ (pos 0) true
    ∷ []

requests-AreProper : AreProper 2 requests
requests-AreProper = (tt, (tt, ((1, refl, omega arith), ((0, refl, omega arith), tt))))

program-IsOver_example :
    IsOver (
      program
        (λ a. a)
        reader
        junk
        (pos 2)
        requests
        (record { net = Started.null kernel; user = 0 }))
program-IsOver_example =
    program-IsOver (λ a. a) reader junk (pos 2) requests kernel 0 (reader-IsCallback 2)
      kernel-AllSane requests-AreProper

psocket_poll-Runs_example :
    Runs 2
      (λ r. (k : ℕ) × (r ≡ pos k) × (k ≤ 2))
      (psocket_poll reader
        (pos 0)
        (record { net = Started.started (net_create (pos 2) kernel junk) (pos 3); user = 0 }))
psocket_poll-Runs_example =
    psocket_poll-Runs reader (reader-IsCallback 2) (pos 0) _
      (is_open (net_create-IsGood (pos 2) kernel junk kernel-AllSane))
