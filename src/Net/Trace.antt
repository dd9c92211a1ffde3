-- ===== src/Net/Trace.antt =====
-- Programs of calls of the functions of src/socket.h on one `struct net`.
pub mod Routes
pub mod Counters
pub mod Inside
mod Tests
use lsocket.Prelude.{
  leb, leb→le, length, ℕ, ◌<◌, ◌≡◌, ℤ, Bool, true, false, ◌||◌, Option, List, [], ◌∷◌, ltb,
}
use lsocket.Platform.{World, is_neg}
use lsocket.Platform.Sane.{AllSane}
use lsocket.Net.{
  Net, Socket, M, and_then, ◌>>=◌, ◌>>◌, pure, size_of, net_create, net_free, close, enable_read,
  set_udata, limit, socket_fd, last_errno,
}
use lsocket.Net.Send.{data_of, send, send_fd, is_one_byte, past_tmp}
use lsocket.Net.Receive.{read}
use lsocket.Net.Open
use lsocket.Net.Open.{listen, connect}
use lsocket.Net.Poll.{poll}
use lsocket.Net.Good
use lsocket.Net.Good.{IsGood, Ends, ends, Any}
use lsocket.Net.Life.{Actor, Lives, stays, forget}
use lsocket.Net.Api.{close-Lives, enable_read-Lives, set_udata-Lives, limit-Lives, socket_fd-Lives}
use lsocket.Net.Create.{net_create-IsGood, net_free-Ends, AreFree}
use lsocket.Net.Send.Keeps.{send-Lives, send_fd-Lives}
use lsocket.Net.Receive.Keeps.{read-Lives}
use lsocket.Net.Open.Keeps.{bind-Lives}
use lsocket.Net.Open.Listening.{listen-Lives}
use lsocket.Net.Open.Connecting.{connect-Dials}
use lsocket.Net.Poll.Keeps.{poll-Lives}

-- a call, with its arguments
pub data Request : Type 0 where
  close_ : (id : ℕ) (force : Bool) → Request
  enable_read_ : (id : ℕ) (read : Bool) → Request
  set_udata_ : (id : ℕ) (udata : ℤ) → Request
  limit_ : (id : ℕ) (slimit rlimit : ℤ) → Request
  socket_fd_ : (id : ℕ) → Request
  last_errno_ : Request
  read_ : (id : ℕ) → Request
  send_ : (id : ℕ) (bytes : List ℕ) (sz : ℕ) → Request
  send_fd_ : (id : ℕ) (bytes : Option (List ℕ)) (sz : ℕ) (cfd : ℤ) → Request
  bind_ : (fd udata protocol : ℤ) → Request
  listen_ : (udata : ℤ) → Request
  connect_ : (block : Bool) (udata : ℤ) → Request
  poll_ : (timeout : ℤ) → Request

-- the call, whose result is passed over
abbrev pub ignore : {A : Type 0} → M A → M (Unit {0})
ignore m = m >>= λ _. pure tt

pub serve : Request → M (Unit {0})
serve (Request.close_ id force) = ignore (close id force)
serve (Request.enable_read_ id read) = ignore (enable_read id read)
serve (Request.set_udata_ id udata) = ignore (set_udata id udata)
serve (Request.limit_ id slimit rlimit) = ignore (limit id slimit rlimit)
serve (Request.socket_fd_ id) = ignore (socket_fd id)
serve Request.last_errno_ = ignore last_errno
serve (Request.read_ id) = ignore (read id)
serve (Request.send_ id bytes sz) = ignore (send id bytes sz)
serve (Request.send_fd_ id bytes sz cfd) = ignore (send_fd id bytes sz cfd)
serve (Request.bind_ fd udata protocol) = ignore (Open.bind fd udata protocol)
serve (Request.listen_ udata) = ignore (listen udata)
serve (Request.connect_ block udata) = ignore (connect block udata)
serve (Request.poll_ timeout) = ignore (poll timeout)

pub serve_all : List Request → M (Unit {0})
unfolding serve
serve_all [] = pure tt
serve_all (r ∷ rs) = do serve r; serve_all rs

-- What the assertions of the called functions ask of the caller: an id in the range of the pool,
-- at least one byte to send, and a descriptor to bind. A call of `socket_sendfd` without data has the
-- size 1, as its comment says.
abbrev pub IsProper : ℕ → Request → Type 0
IsProper max (Request.close_ id force) = id < max
IsProper max (Request.enable_read_ id read) = id < max
IsProper max (Request.set_udata_ id udata) = id < max
IsProper max (Request.limit_ id slimit rlimit) = id < max
IsProper max (Request.socket_fd_ id) = id < max
IsProper max Request.last_errno_ = Unit
IsProper max (Request.read_ id) = id < max
IsProper max (Request.send_ id bytes sz) = (id < max) × (0 < sz)
IsProper max (Request.send_fd_ id bytes sz cfd) =
    (id < max) × ((ltb 0 sz || is_one_byte bytes sz) ≡ true) × (past_tmp bytes sz ≡ false)
IsProper max (Request.bind_ fd udata protocol) = is_neg fd ≡ false
IsProper max (Request.listen_ udata) = Unit
IsProper max (Request.connect_ block udata) = Unit
IsProper max (Request.poll_ timeout) = Unit

abbrev pub AreProper : ℕ → List Request → Type 0
AreProper max [] = Unit
AreProper max (r ∷ rs) = IsProper max r × AreProper max rs

-- who makes the call, for the life of the slots
abbrev pub actor_of : Request → Actor
actor_of (Request.bind_ fd udata protocol) = Actor.opener
actor_of (Request.listen_ udata) = Actor.opener
actor_of (Request.connect_ block udata) = Actor.opener
actor_of (Request.poll_ timeout) = Actor.poller
actor_of (Request.send_ id bytes sz) = Actor.caller (leb sz (length bytes))
actor_of (Request.send_fd_ id bytes sz cfd) = Actor.caller (leb sz (length (data_of bytes)))
actor_of _ = Actor.caller true

ignored :
    {A : Type 0} {max : ℕ} {Q : A → Net → Type 0} {who : Actor} {f : ℕ → Socket}
    {o : Option (A × Net)}
    → Ends max (Lives who f Q) o
    → Ends max (Lives who f Any) (and_then o (λ _. pure tt))
ignored (ends g q) = ends g (tt, q.1)

pub serve-Lives :
    {max : ℕ} {n : Net} (r : Request)
    → IsProper max r
    → IsGood max n
    → Ends max (Lives (actor_of r) n.sockets Any) (serve r n)
unfolding serve last_errno
serve-Lives (Request.close_ id force) p g = ignored (close-Lives id force g p)
serve-Lives (Request.enable_read_ id read) p g = ignored (enable_read-Lives id read g p)
serve-Lives (Request.set_udata_ id udata) p g = ignored (set_udata-Lives id udata g p)
serve-Lives (Request.limit_ id slimit rlimit) p g = ignored (limit-Lives id slimit rlimit g p)
serve-Lives (Request.socket_fd_ id) p g = ignored (socket_fd-Lives id g p)
serve-Lives Request.last_errno_ p g = ends g (tt, stays)
serve-Lives (Request.read_ id) p g = ignored (read-Lives id g p)
serve-Lives (Request.send_ id bytes sz) p g =
    ignored (send-Lives id bytes sz (leb→le _ _) g p.0 p.1)
serve-Lives (Request.send_fd_ id bytes sz cfd) p g =
    ignored (send_fd-Lives id bytes sz cfd (leb→le _ _) g p.0 p.1 p.2)
serve-Lives (Request.bind_ fd udata protocol) p g = ignored (bind-Lives fd udata protocol p g)
serve-Lives (Request.listen_ udata) p g = ignored (listen-Lives udata g)
serve-Lives (Request.connect_ block udata) p g = ignored (connect-Dials block udata g)
serve-Lives (Request.poll_ timeout) p g = ignored (poll-Lives timeout g)

serve_all-Ends :
    {max : ℕ} (rs : List Request) {n : Net}
    → AreProper max rs
    → IsGood max n
    → Ends max Any (serve_all rs n)
unfolding serve_all
serve_all-Ends [] p g = ends g tt
serve_all-Ends (r ∷ rs) p g =
    Good.bind (forget (serve-Lives r p.0 g)) (λ a n gn q. serve_all-Ends rs p.1 gn)

-- On a pool that `net_create` made, any proper calls in any order run without a failed assertion,
-- under any kernel that keeps its promises, and leave the state good.
pub net_create-serve_all :
    (max : ℤ) (os : World) (junk : ℕ → Socket) (rs : List Request)
    → AllSane (size_of max) os.answers
    → AreProper (size_of max) rs
    → Ends (size_of max) Any (serve_all rs (net_create max os junk))
net_create-serve_all max os junk rs h p = serve_all-Ends rs p (net_create-IsGood max os junk h)

-- no slot below `i` holds a buffer
abbrev pub AreEmpty : ℕ → Net → Type 0
AreEmpty i n = (j : ℕ) → j < i → (n.sockets j).head ≡ []

emptied :
    {max : ℕ} {o : Option (Unit {0} × Net)}
    → Ends max (λ x m. AreFree max m) o
    → Ends max (λ x m. AreFree max m × AreEmpty max m) o
emptied (ends g f) = ends g (f, λ j b. g.empty j (f j b))

-- `net_free` after any such run ends too, and leaves no socket in use and no buffer in a queue.
pub net_create-net_free :
    (max : ℤ) (os : World) (junk : ℕ → Socket) (rs : List Request)
    → AllSane (size_of max) os.answers
    → AreProper (size_of max) rs
    → Ends
        (size_of max)
        (λ x n. AreFree (size_of max) n × AreEmpty (size_of max) n)
        ((serve_all rs >> net_free) (net_create max os junk))
net_create-net_free max os junk rs h p =
    Good.bind (net_create-serve_all max os junk rs h p) (λ a n g q. emptied (net_free-Ends g))
