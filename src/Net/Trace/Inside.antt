-- ===== src/Net/Trace/Inside.antt =====
-- The memory of the send queues in a program of calls of src/socket.c.
use lsocket.Prelude.{ℕ, ℤ, List}
use lsocket.Platform.{World}
use lsocket.Platform.Sane.{AllSane}
use lsocket.Net.{Socket, size_of, net_create, alloc_sockets}
use lsocket.Net.Exact.{AreInside}
use lsocket.Net.Good
use lsocket.Net.Good.{Ends}
use lsocket.Net.Create.{net_create-IsGood}
use lsocket.Net.Trace.{Request, AreProper, serve_all}
use lsocket.Net.Trace.Routes.{AreTrusted, serve_all-Follow}

-- Any proper calls in any order on a pool that `net_create` made, of which each that sends has as
-- many bytes as it says, end, under any kernel that keeps its promises, and then all that waits in
-- any send queue is inside its buffer: `ptr + sz` is not more than the length of `begin`, so that no
-- flush reads behind a buffer.
pub serve_all-AreInside :
    (max : ℤ) (os : World) (junk : ℕ → Socket) (rs : List Request)
    → AllSane (size_of max) os.answers
    → AreProper (size_of max) rs
    → AreTrusted rs
    → Ends
        (size_of max)
        (λ a m. (i : ℕ) → AreInside (m.sockets i).head)
        (serve_all rs (net_create max os junk))
unfolding net_create alloc_sockets
serve_all-AreInside max os junk rs h p t =
    Good.weaken (serve_all-Follow rs p (net_create-IsGood max os junk h))
      λ a m f i. let (w, d, b) = f i in b t tt
