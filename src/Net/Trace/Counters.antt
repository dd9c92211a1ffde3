-- ===== src/Net/Trace/Counters.antt =====
-- The counters and the queues of the slots in a program of calls of src/socket.c.
use lsocket.Prelude.{ℕ, ℤ, Option, none, some, List, []}
use lsocket.Platform.{World, Answer, Call}
use lsocket.Platform.Sane.{AllSane}
use lsocket.Platform.Honest.{IsHonest}
use lsocket.Net.{Net, Socket, size_of, net_create}
use lsocket.Net.Exact.{IsExact, IsEmpty}
use lsocket.Net.Good.{Ends, ends, Any}
use lsocket.Net.Trace.{Request, AreProper, serve_all, net_create-serve_all}

-- the system calls of a run
abbrev pub log_of : Option (Unit {0} × Net) → List (Call × Answer)
log_of none = []
log_of (some (a, n)) = n.os.log

-- every counter is the number of bytes that wait, and no slot that is free holds a buffer
abbrev pub AreExact : Unit {0} → Net → Type 0
AreExact a n = (i : ℕ) → IsExact (n.sockets i) × IsEmpty (n.sockets i)

counted :
    {max : ℕ} (o : Option (Unit {0} × Net))
    → Ends max Any o
    → IsHonest (log_of o)
    → Ends max AreExact o
counted none q h = elim q [ ]
counted (some (a, n)) (ends g q) h = ends g (λ i. (g.exact h i, g.empty i))

-- After any proper calls in any order on a pool that `net_create` made, under a kernel that keeps its
-- promises and took no more bytes in a call than it was offered, the counter `sbuffersz` of every
-- slot is the size of its queue, as an `int` that wraps around, and the queue of a slot that is not
-- in use is empty.
pub serve_all-AreExact :
    (max : ℤ) (os : World) (junk : ℕ → Socket) (rs : List Request)
    → AllSane (size_of max) os.answers
    → AreProper (size_of max) rs
    → IsHonest (log_of (serve_all rs (net_create max os junk)))
    → Ends (size_of max) AreExact (serve_all rs (net_create max os junk))
serve_all-AreExact max os junk rs h p o =
    counted (serve_all rs (net_create max os junk)) (net_create-serve_all max os junk rs h p) o
