-- ===== src/Net/Send/Slow.antt =====
-- A queue of src/socket.c and a slow kernel.
use lsocket.Prelude.{refl, pos, List, [], ◌∷◌, arith}
use lsocket.Platform.{World, minus_one, retry}
use lsocket.Net.{Socket, Sbuffer, Protocol}
use lsocket.Net.Kernels.{junk, oks}
use lsocket.Net.Send.{send_by, send_tcp, tcp_wrote}
use lsocket.Net.Send.Progress.{Takes}
use lsocket.Platform.Honest.{IsHonest}

-- A queue of five bytes, of which the kernel takes one in each `write`. Its next calls, of `epoll_ctl`
-- and `close`, succeed with 0.
abbrev pub queue : List Sbuffer
queue =
    record { sz = 3; fd = minus_one; begin = 1 ∷ 2 ∷ 3 ∷ []; ptr = 0 }
    ∷ record { sz = 2; fd = minus_one; begin = 9 ∷ 4 ∷ 5 ∷ []; ptr = 1 }
    ∷ []

abbrev pub slow : World
slow = record { answers = oks (1 ∷ 1 ∷ 1 ∷ 1 ∷ 1 ∷ 0 ∷ 0 ∷ []) []; log = [] }

pub slow-Takes : Takes queue slow.answers
slow-Takes = (0, refl, (0, refl, (0, refl, (0, refl, (0, refl, tt)))))

abbrev pub slow_socket : Socket
slow_socket = record (junk 0) { head = queue; sbuffersz = pos 5 }

pub slow-IsHonest : IsHonest (send_by Protocol.tcp slow_socket slow).1.log
unfolding send_by send_tcp tcp_wrote retry
slow-IsHonest = (omega arith, tt)
