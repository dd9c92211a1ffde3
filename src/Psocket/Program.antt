-- ===== src/Psocket/Program.antt =====
-- Whole lives of the library of src/psocket.c: `psocket_init`, calls that do not send, `psocket_fini`.
use lsocket.Prelude.{ℕ, ◌≡◌, refl, ap, ℤ, Bool, Option, none, some, List, [], ◌∷◌, if◌then◌else◌}
use lsocket.Platform.{World, is_zero}
use lsocket.Platform.Sane.{AllSane}
use lsocket.Net.{Socket, size_of}
use lsocket.Net.Start.{is_good, Started, start, IsStarted, start-IsStarted, stop-ends}
use lsocket.Net.Poll.{SocketEvent}
use lsocket.Psocket.{
  State, P, pure, and_then, ◌>>=◌, ◌>>◌, psocket_poll, psocket_init, psocket_fini, psocket_listen,
  psocket_connect, psocket_close, psocket_read, psocket_address, psocket_limit, psocket_lasterrno,
  stopped, init_result,
}
use lsocket.Psocket.Calls.{
  IdIn, psocket_listen-Runs, psocket_connect-Runs, psocket_lasterrno-Runs, psocket_close-Runs,
  psocket_read-Runs, psocket_address-Runs, psocket_limit-Runs,
}
use lsocket.Psocket.Safe
use lsocket.Psocket.Safe.{
  IsOpen, Runs, is_open, runs, All, IsCallback, reopen-Runs, psocket_poll-Runs,
}

-- A call of src/psocket.h, with its arguments: each but `psocket_error`, which changes nothing, and
-- `psocket_send` and `psocket_subscribe`, which call functions of a form that src/socket.c has not.
pub data Request : Type 0 where
  poll_ : (timeout : ℤ) → Request
  listen_ connect_ lasterrno_ : Request
  close_ : (id : ℤ) (force : Bool) → Request
  read_ address_ : (id : ℤ) → Request
  limit_ : (id slimit rlimit : ℤ) → Request

-- an id that is given is one of the pool's
abbrev pub IsProper : ℕ → Request → Type 0
IsProper max (Request.close_ id force) = IdIn max id
IsProper max (Request.read_ id) = IdIn max id
IsProper max (Request.address_ id) = IdIn max id
IsProper max (Request.limit_ id slimit rlimit) = IdIn max id
IsProper max _ = Unit

abbrev pub AreProper : ℕ → List Request → Type 0
AreProper max [] = Unit
AreProper max (r ∷ rs) = IsProper max r × AreProper max rs

-- the end of a program: no assertion failed, and N is NULL
abbrev pub IsOver : {S : Type 0} → Option (Unit {0} × State S) → Type 0
IsOver {S} o = (w : World) × (u : S) × (o ≡ some (tt, record { net = Started.null w; user = u }))

module _ {S : Type 0} (ntop : List ℕ → List ℕ) (dispatch : SocketEvent → P S (Unit {0})) where
  abbrev pub ignore : {A : Type 0} → P S A → P S (Unit {0})
  ignore m = m >>= λ _. pure tt

  pub serve : Request → P S (Unit {0})
  serve (Request.poll_ timeout) = ignore (psocket_poll dispatch timeout)
  serve Request.listen_ = ignore psocket_listen
  serve Request.connect_ = ignore psocket_connect
  serve Request.lasterrno_ = ignore psocket_lasterrno
  serve (Request.close_ id force) = ignore (psocket_close id force)
  serve (Request.read_ id) = ignore (psocket_read id)
  serve (Request.address_ id) = ignore (psocket_address ntop id)
  serve (Request.limit_ id slimit rlimit) = ignore (psocket_limit id slimit rlimit)

  pub serve_all : List Request → P S (Unit {0})
  serve_all [] = pure tt
  serve_all (r ∷ rs) = do serve r; serve_all rs

  -- a program that gives up if `psocket_init` fails
  pub program : (junk : ℕ → Socket) (cmax : ℤ) (rs : List Request) → P S (Unit {0})
  program junk cmax rs = do
    r ← psocket_init junk cmax
    if is_zero r then (do serve_all rs; psocket_fini) else pure tt

  module _ {max : ℕ} (callback : IsCallback max dispatch) where
    ignored :
        {A : Type 0} {Q : A → Type 0} {o : Option (A × State S)}
        → Runs max Q o
        → Runs {S = S} max All (and_then o (λ _. pure tt))
    ignored (runs g q) = runs g tt

    serve-Runs :
        (r : Request) (s : State S) → IsProper max r → IsOpen max s → Runs max All (serve r s)
    unfolding serve
    serve-Runs (Request.poll_ timeout) s p h =
        ignored (psocket_poll-Runs dispatch callback timeout s h)
    serve-Runs Request.listen_ s p h = ignored (psocket_listen-Runs s h)
    serve-Runs Request.connect_ s p h = ignored (psocket_connect-Runs s h)
    serve-Runs Request.lasterrno_ s p h = ignored (psocket_lasterrno-Runs s h)
    serve-Runs (Request.close_ id force) s p h = ignored (psocket_close-Runs id force s p h)
    serve-Runs (Request.read_ id) s p h = ignored (psocket_read-Runs id s p h)
    serve-Runs (Request.address_ id) s p h = ignored (psocket_address-Runs ntop id s p h)
    serve-Runs (Request.limit_ id slimit rlimit) s p h =
        ignored (psocket_limit-Runs id slimit rlimit s p h)

    serve_all-Runs :
        (rs : List Request) (s : State S)
        → AreProper max rs
        → IsOpen max s
        → Runs max All (serve_all rs s)
    unfolding serve_all
    serve_all-Runs [] s p h = runs h tt
    serve_all-Runs (r ∷ rs) s p h =
        Safe.bind (serve-Runs r s p.0 h) λ x s' h' q. serve_all-Runs rs s' p.1 h'

    psocket_fini-IsOver :
        (o : Option (Unit {0} × State S)) → Runs max All o → IsOver (and_then o (λ _. psocket_fini))
    unfolding psocket_fini
    psocket_fini-IsOver none h = elim h [ ]
    psocket_fini-IsOver (some (x, _)) (runs (is_open {n} {epoll_fd} {u} g) q) =
        let (w, e) = stop-ends (IsStarted.is_good g) in (w, u, ap (stopped u) e)

module _ {S : Type 0} (ntop : List ℕ → List ℕ) (dispatch : SocketEvent → P S (Unit {0})) where
  -- A program of any proper calls of `psocket_poll`, `psocket_listen`, `psocket_connect`,
  -- `psocket_lasterrno`, `psocket_close`, `psocket_read`, `psocket_address` and `psocket_limit`, between
  -- `psocket_init` and `psocket_fini`, ends without a failed assertion and without a use of NULL, under
  -- any kernel that keeps its promises and with any callback that leaves the state good.
  pub program-IsOver :
      (junk : ℕ → Socket) (cmax : ℤ) (rs : List Request) (w : World) (u : S)
      → (callback : IsCallback (size_of cmax) dispatch) → AllSane (size_of cmax) w.answers
      → AreProper (size_of cmax) rs
      → IsOver (program ntop dispatch junk cmax rs (record { net = Started.null w; user = u }))
  unfolding program psocket_init
  program-IsOver junk cmax rs w u callback h p =
      at (start cmax junk w) (start-IsStarted cmax junk w h)
    where
      at :
          (t : Started)
          → IsStarted (size_of cmax) t
          → IsOver (
              and_then
                (some (init_result t, record { net = t; user = u }))
                (λ r. if is_zero r then (do serve_all ntop dispatch rs; psocket_fini) else pure tt))
      at (Started.null w) g = (w, u, refl)
      at (Started.started n epoll_fd) (is_good g) =
          psocket_fini-IsOver ntop dispatch callback _
            (serve_all-Runs ntop dispatch callback rs _ p (is_open g))
