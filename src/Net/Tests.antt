-- ===== src/Net/Tests.antt =====
-- Runs of src/socket.c against small kernels.
use lsocket.Prelude.{negsuc, get_or, ◌<◌, ◌≡◌, refl, pos, some, [], ◌∷◌, arith, Returns}
use lsocket.Net.{Net, net_create, create_socket, close_socket}
use lsocket.Net.Pool.{IsPool}
use lsocket.Net.Slots.{Closes, created, create_socket-IsPool, close_socket-Closed}
use lsocket.Net.Good.{IsGood, Ends}
use lsocket.Net.Create.{range, net_create-IsPool, net_create-IsGood}
use lsocket.Net.Poll.{poll}
use lsocket.Net.Poll.Keeps.{poll-Ends}
use lsocket.Net.Poll.Reports.{Reports}
use lsocket.Net.Address.{socket_error, strerror_table, socket_error-in_table}
use lsocket.Net.Kernels.{junk, kernel, kernel-AllSane}

-- a pool of three slots, all free
abbrev fresh : Net
fresh = net_create (pos 3) kernel junk

fresh-IsPool : IsPool fresh (range 0 3)
fresh-IsPool = (net_create-IsPool (pos 3) kernel junk).1

-- the descriptor 8 in its first slot
abbrev one_used : Net
one_used = (created fresh (range 0 3) (pos 8) (pos 0) (pos 1) (pos 0)).1

create_socket-IsPool_example :
    (create_socket (pos 8) (pos 0) (pos 1) (pos 0) fresh
      ≡ some (created fresh (range 0 3) (pos 8) (pos 0) (pos 1) (pos 0)))
    × IsPool one_used (1 ∷ 2 ∷ [])
create_socket-IsPool_example =
    create_socket-IsPool fresh (range 0 3) (pos 8) (pos 0) (pos 1) (pos 0) refl fresh-IsPool

one_used-IsPool : IsPool one_used (1 ∷ 2 ∷ [])
one_used-IsPool =
    (create_socket-IsPool fresh (range 0 3) (pos 8) (pos 0) (pos 1) (pos 0) refl fresh-IsPool).1

three_slots : 0 < one_used.max
unfolding net_create
three_slots = omega arith

close_socket-Closed_example : Returns (Closes one_used 0 (1 ∷ 2 ∷ [])) (close_socket 0 one_used)
close_socket-Closed_example =
    close_socket-Closed one_used 0 (1 ∷ 2 ∷ []) three_slots refl one_used-IsPool

-- a pool of two slots, of which a poll accepts a connection on the first one
fresh-IsGood : IsGood 2 (net_create (pos 2) kernel junk)
fresh-IsGood = net_create-IsGood (pos 2) kernel junk kernel-AllSane

poll-Ends_example : Ends 2 (Reports 2 2) (poll (pos 0) (net_create (pos 2) kernel junk))
poll-Ends_example = poll-Ends (pos 0) fresh-IsGood

-- LS_ERR_WBUFOVER
socket_error-in_table_example :
    socket_error (λ e. "errno") (negsuc 4) ≡ some (get_or strerror_table 5 "")
socket_error-in_table_example = socket_error-in_table (λ e. "errno") 4 (omega arith)
