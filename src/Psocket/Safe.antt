-- ===== src/Psocket/Safe.antt =====
-- Programs of calls of src/psocket.h, with a callback that may call the library too.
use lsocket.Prelude.{
  ℕ, ◌<◌, ◌≤◌, ◌≡◌, refl, ℤ, pos, false, Option, none, some, List, [], ◌∷◌, length, inl, inr,
  Bool-cases,
}
use lsocket.Net.{Net}
use lsocket.Net.Start.{Started}
use lsocket.Net.Poll.{SocketEvent, EventType}
use lsocket.Net.Good.{IsGood, Ends, ends}
use lsocket.Net.Poll.Keeps.{poll-Ends}
use lsocket.Net.Poll.Reports.{IdsBelow}
use lsocket.Psocket.{
  State, P, and_then, reopen, is_conn_then_read, with_type, dispatch_one, dispatch_all,
  psocket_poll,
}

abbrev pub All : {A : Type 0} → A → Type 0
All a = Unit

module _ {S : Type 0} where
  -- N is there, and its state is good.
  pub data IsOpen (max : ℕ) : State S → Type 0 where
    is_open :
        {n : Net} {epoll_fd : ℤ} {u : S}
        → IsGood max n
        → IsOpen max (record { net = Started.started n epoll_fd; user = u })

  -- A run that ends, with N in a good state; `Q` tells of the result.
  pub data Runs {A : Type 0} (max : ℕ) (Q : A → Type 0) : Option (A × State S) → Type 0 where
    runs : {a : A} {s : State S} → IsOpen max s → Q a → Runs max Q (some (a, s))

  pub reopen-Runs :
      {A : Type 0} {max : ℕ} {Q : A → Net → Type 0} {R : A → Type 0} (epoll_fd : ℤ) (u : S)
      (o : Option (A × Net))
      → Ends max Q o
      → ((a : A) (n : Net) → Q a n → R a)
      → Runs max R (reopen epoll_fd u o)
  reopen-Runs epoll_fd u none h k = elim h [ ]
  reopen-Runs epoll_fd u (some (a, n)) (ends g q) k = runs (is_open g) (k a n q)

  module _ {A : Type 0} {max : ℕ} {Q : A → Type 0} where
    pub bind :
        {B : Type 0} {R : B → Type 0} {o : Option (A × State S)} {f : A → P S B}
        → Runs max Q o
        → ((a : A) (s : State S) → IsOpen max s → Q a → Runs max R (f a s))
        → Runs max R (and_then o f)
    bind (runs g q) k = k _ _ g q

-- What the library asks of the callback: called in a good state with an event of a slot of the
-- pool, which is not of the type "connected, then readable", it leaves a good state.
abbrev pub IsCallback : {S : Type 0} → ℕ → (SocketEvent → P S (Unit {0})) → Type 0
IsCallback {S} max dispatch =
    (e : SocketEvent) (s : State S)
    → e.id < max
    → is_conn_then_read e.type ≡ false
    → IsOpen max s
    → Runs max All (dispatch e s)

module _ {S : Type 0} {max : ℕ} (dispatch : SocketEvent → P S (Unit {0}))
    (callback : IsCallback max dispatch) where
  dispatch_one-Runs :
      (e : SocketEvent) (s : State S)
      → e.id < max
      → IsOpen max s
      → Runs max All (dispatch_one dispatch e s)
  unfolding dispatch_one is_conn_then_read
  dispatch_one-Runs e s b h = elim (Bool-cases (is_conn_then_read e.type)) [
    | inl y ↦ rw y (
        bind (callback (with_type e EventType.connect_) s b refl h)
          λ x s' h' q. callback (with_type e EventType.read) s' b refl h')
    | inr n ↦ rw n (callback e s b n h)
  ]

  dispatch_all-Runs :
      (es : List SocketEvent) (s : State S)
      → IdsBelow max es
      → IsOpen max s
      → Runs max All (dispatch_all dispatch es s)
  unfolding dispatch_all
  dispatch_all-Runs [] s b h = runs h tt
  dispatch_all-Runs (e ∷ es) s b h =
      bind (dispatch_one-Runs e s b.0 h) λ x s' h' q. dispatch_all-Runs es s' b.1 h'

  -- `psocket_poll` ends in a good state, whatever the callback does in between, and returns the
  -- number of events, which is at most that of the slots.
  pub psocket_poll-Runs :
      (timeout : ℤ) (s : State S)
      → IsOpen max s
      → Runs max (λ r. (k : ℕ) × (r ≡ pos k) × (k ≤ max)) (psocket_poll dispatch timeout s)
  unfolding psocket_poll
  psocket_poll-Runs timeout _ (is_open {n} {epoll_fd} {u} g) =
      bind (reopen-Runs epoll_fd u _ (poll-Ends timeout g) (λ es m q. q)) λ es s' h q.
        bind (dispatch_all-Runs es s' q.ids_lem h)
          λ x s'' h' p. runs h' (length es, refl, q.count_lem)
