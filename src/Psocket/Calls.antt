-- ===== src/Psocket/Calls.antt =====
-- The wrappers of src/psocket.c on an open library: each ends, with the state good.
use Prim.Native.String.{String}
use lsocket.Prelude.{ℕ, ◌<◌, ◌≡◌, refl, ℤ, pos, Bool, false, Option, none, some, List}
use lsocket.Net.{Net}
use lsocket.Net.Good.{IsGood, Ends, ends}
use lsocket.Net.Start.{Started}
use lsocket.Net.Life.{forget}
use lsocket.Net.Api.{close-Lives, limit-Lives, last_errno-Ends, last_errno-err}
use lsocket.Net.Address.{address-Ends, socket_error-some}
use lsocket.Net.Receive.Keeps.{read-Lives}
use lsocket.Net.Open.Listening.{listen-Lives}
use lsocket.Net.Open.Connecting.{connect-Dials, Dials}
use lsocket.Psocket.{
  State, reopen, psocket_listen, psocket_connect, psocket_close, psocket_read, psocket_address,
  psocket_limit, psocket_lasterrno, psocket_error,
}
use lsocket.Psocket.Safe.{IsOpen, Runs, is_open, runs, All, reopen-Runs}

-- The id is that of a slot.
abbrev pub IdIn : ℕ → ℤ → Type 0
IdIn max id = (i : ℕ) × (id ≡ pos i) × (i < max)

module _ {S : Type 0} {max : ℕ} where
  lifted :
      {A : Type 0} {Q : A → Net → Type 0} (epoll_fd : ℤ) (u : S) (o : Option (A × Net))
      → Ends max Q o
      → Runs {S = S} max All (reopen epoll_fd u o)
  lifted epoll_fd u o h = reopen-Runs epoll_fd u o h (λ a n q. tt)

  pub psocket_listen-Runs : (s : State S) → IsOpen max s → Runs max All (psocket_listen s)
  unfolding psocket_listen
  psocket_listen-Runs _ (is_open g) = lifted _ _ _ (forget (listen-Lives (pos 0) g))

  pub psocket_connect-Runs : (s : State S) → IsOpen max s → Runs max All (psocket_connect s)
  unfolding psocket_connect
  psocket_connect-Runs _ (is_open g) = lifted _ _ _ (forget (connect-Dials false (pos 0) g))

  pub psocket_lasterrno-Runs : (s : State S) → IsOpen max s → Runs max All (psocket_lasterrno s)
  unfolding psocket_lasterrno
  psocket_lasterrno-Runs _ (is_open g) = lifted _ _ _ (last_errno-Ends g)

  pub psocket_close-Runs :
      (id : ℤ) (force : Bool) (s : State S)
      → IdIn max id
      → IsOpen max s
      → Runs max All (psocket_close id force s)
  unfolding psocket_close
  psocket_close-Runs id force _ (i, e, b) (is_open g) =
      rw e (lifted _ _ _ (forget (close-Lives i force g b)))

  pub psocket_read-Runs :
      (id : ℤ) (s : State S) → IdIn max id → IsOpen max s → Runs max All (psocket_read id s)
  unfolding psocket_read
  psocket_read-Runs id _ (i, e, b) (is_open g) = rw e (lifted _ _ _ (forget (read-Lives i g b)))

  pub psocket_address-Runs :
      (ntop : List ℕ → List ℕ) (id : ℤ) (s : State S)
      → IdIn max id
      → IsOpen max s
      → Runs max All (psocket_address ntop id s)
  unfolding psocket_address
  psocket_address-Runs ntop id _ (i, e, b) (is_open g) =
      rw e (lifted _ _ _ (address-Ends ntop i g b))

  pub psocket_limit-Runs :
      (id slimit rlimit : ℤ) (s : State S)
      → IdIn max id
      → IsOpen max s
      → Runs max All (psocket_limit id slimit rlimit s)
  unfolding psocket_limit
  psocket_limit-Runs id slimit rlimit _ (i, e, b) (is_open g) =
      rw e (lifted _ _ _ (forget (limit-Lives i slimit rlimit g b)))

  pub psocket_error-Runs :
      (strerror : ℕ → String) (err : ℤ) (s : State S)
      → IsOpen max s
      → Runs max All (psocket_error strerror err s)
  unfolding psocket_error
  psocket_error-Runs strerror err s h =
      let (m, e) = socket_error-some strerror err in rw e (runs h tt)

-- a run that ends with N in a good state `n`, and `Q` of that and of the result
pub data RunsOn {S A : Type 0} (max : ℕ) (Q : A → Net → Type 0)
    : Option (A × State S) → Type 0 where
  runs_on :
      {a : A} {n : Net} {epoll_fd : ℤ} {u : S}
      → IsGood max n
      → Q a n
      → RunsOn max Q (some (a, record { net = Started.started n epoll_fd; user = u }))

module _ {S : Type 0} {max : ℕ} where
  reopen-RunsOn :
      {A : Type 0} {Q : A → Net → Type 0} (epoll_fd : ℤ) (u : S) (o : Option (A × Net))
      → Ends max Q o
      → RunsOn max Q (reopen epoll_fd u o)
  reopen-RunsOn epoll_fd u none h = elim h [ ]
  reopen-RunsOn epoll_fd u (some (a, n)) (ends g q) = runs_on g q

  pub psocket_connect-Dials :
      (s : State S) → IsOpen max s → RunsOn max (Dials max) (psocket_connect s)
  unfolding psocket_connect
  psocket_connect-Dials _ (is_open g) = reopen-RunsOn _ _ _ (forget (connect-Dials false (pos 0) g))

module _ {S : Type 0} where
  pub psocket_lasterrno-err :
      (n : Net) (epoll_fd : ℤ) (u : S)
      → let s : State S = record { net = Started.started n epoll_fd; user = u } in
        psocket_lasterrno s ≡ some (n.err, s)
  unfolding psocket_lasterrno
  psocket_lasterrno-err n epoll_fd u = rw (last_errno-err n) refl
