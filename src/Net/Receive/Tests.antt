-- ===== src/Net/Receive/Tests.antt =====
-- Receiving in src/socket.c on a small pool.
use lsocket.Prelude.{◌≡◌, refl, pos, [], ◌∷◌, arith}
use lsocket.Platform.{World}
use lsocket.Platform.Sane.{AllSane}
use lsocket.Net.{Net, Socket, net_create}
use lsocket.Net.Slots.{created, create_socket-IsPool}
use lsocket.Net.Good.{IsGood, Ends}
use lsocket.Net.Good.Slots.{created-IsGood}
use lsocket.Net.Create.{range, net_create-IsPool, net_create-IsGood}
use lsocket.Net.Receive.{resize}
use lsocket.Net.Receive.Resize.{resize-next_size}
use lsocket.Net.Kernels.{ok, fails, fails-IsSane, junk, oks, oks-AllSane}
use lsocket.Net.{protocol_of}
use lsocket.Net.Receive.Got.{got}
use lsocket.Net.Receive.Got.Each.{IsReading, Adds, read_each, read_each-Adds}

-- a socket whose read buffer has grown to 128 bytes
abbrev grown : Socket
grown = record (junk 0) { rbuffersz = pos 128; rlimit = pos 0 }

resize-next_size_example : (resize grown 100).rbuffersz ≡ pos 64
resize-next_size_example = resize-next_size grown 100 128 refl refl (omega arith) (omega arith)

-- The kernel gives two bytes, is interrupted, gives three more, and then ends.
abbrev giving : World
giving = record {
  answers =
      record (ok 2) { buf = 1 ∷ 2 ∷ [] }
      ∷ fails 4
      ∷ record (ok 3) { buf = 3 ∷ 4 ∷ 5 ∷ [] }
      ∷ oks (0 ∷ []) [];
  log = [];
}

giving-AllSane : AllSane 2 giving.answers
giving-AllSane = (
  record { ret_lem = λ e. absurd (ground arith); events_lem = tt; count_lem = omega arith },
  (
    fails-IsSane 2 4,
    (
      record { ret_lem = λ e. absurd (ground arith); events_lem = tt; count_lem = omega arith },
      oks-AllSane 2 (0 ∷ []) [] tt,
    ),
  ),
)

-- a pool of two slots whose first one holds a TCP socket
abbrev reading : Net
reading = (created (net_create (pos 2) giving junk) (range 0 2) (pos 8) (pos 0) (pos 1) (pos 0)).1

reading-IsGood : IsGood 2 reading
unfolding net_create
reading-IsGood =
    created-IsGood (pos 8) (pos 0) (pos 1) (pos 0)
      (net_create-IsGood (pos 2) giving junk giving-AllSane) 0 (1 ∷ [])
      (create_socket-IsPool (net_create (pos 2) giving junk) (range 0 2) (pos 8) (pos 0) (pos 1)
        (pos 0) refl (net_create-IsPool (pos 2) giving junk).1).1

reading-IsReading : IsReading 2 0 reading
unfolding protocol_of
reading-IsReading = record {
  live = record { bound = omega arith; valid = refl };
  tcp_lem = refl;
  open_lem = refl;
}

read_each-Adds_example : Ends 2 (Adds (got reading.os.log)) (read_each 3 0 reading)
read_each-Adds_example = read_each-Adds 3 0 reading-IsGood reading-IsReading
