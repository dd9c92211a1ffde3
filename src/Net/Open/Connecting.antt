-- ===== src/Net/Open/Connecting.antt =====
-- `socket_connect` of src/socket.c under the invariant of Net/Good.
use lsocket.Prelude.{
  ℕ, ◌≡◌, refl, sym, ap, ◌∙◌, ◌⊎◌, ℤ, pos, negsuc, Bool, true, false, not, ◌&&◌, List, [], ◌∷◌, inl,
  inr, arith, ◌==◌, if◌then◌else◌, Bool-cases,
}
use lsocket.Platform.{
  connecting_code, Answer, Call, is_neg, is_minus_one, sys, keepalive, socket_close, nonblocking,
  einprogress,
}
use lsocket.Platform.Sane.{
  sys-KeepsSane, nonblocking-KeepsSane, keepalive-KeepsSane, socket_close-KeepsSane,
}
use lsocket.Net.{Net, Socket, Status, M, call, pure, is_zero_ret, ◌>>◌, set_err}
use lsocket.Net.Slots.{err_or, create_socket-err}
use lsocket.Net.Good.{
  IsGood, IsLive, IsUsed, Ends, ends, Any, called, IsGood-err, IsGood-store, IsLive-store, live-fd,
  IsLive-same,
}
use lsocket.Net.Life.{Actor, is_unfinished, Edge, Way, Lives, stays, put-Goes, bind, bind_eq, after}
use lsocket.Net.Life.Slots.{case_of-Lives, create_socket-Lives, subscribe-Lives}
use lsocket.Net.Subscribe.{StaysAs}
use lsocket.Net.Open.{connect, Tried, settle, attempt, try_connect, connect_on, give_up, set_status}
use lsocket.Net.Open.Keeps.{fresh, give_up-Lives, sane_fd}
use lsocket.Net.Open.Listening.{IsChosen, no_address-Lives, after_loop-Lives}

pub settle-Lives :
    {max : ℕ} {n : Net} (fd : ℤ) (block : Bool)
    → is_neg fd ≡ false
    → IsGood max n
    → Ends max (Lives Actor.opener n.sockets IsChosen) (settle fd block n)
unfolding settle
settle-Lives fd false h g = ends g ((λ e. h), stays)
settle-Lives {max} {n} fd true h g =
    let g1 = called (nonblocking fd) (nonblocking-KeepsSane max fd) g in
    elim (Bool-cases (is_minus_one (nonblocking fd n.os).0.ret)) [
      | inl e ↦ rw e (ends (IsGood-err _ g1) (tt, stays))
      | inr e ↦ rw e (ends g1 ((λ q. h), stays))
    ]

pub attempt-Lives :
    {max : ℕ} {n : Net} (block : Bool) (fd : ℤ) (rest : M Tried) (b : Answer)
    → is_neg fd ≡ false
    → IsGood max n
    → ((m : Net) → IsGood max m → Ends max (Lives Actor.opener m.sockets IsChosen) (rest m))
    → Ends max (Lives Actor.opener n.sockets IsChosen) (attempt block fd rest b n)
unfolding attempt
attempt-Lives {max} {n} block fd rest b h g k =
    let c = sys (Call.connect fd) n.os in
    let g1 = called (sys (Call.connect fd)) (sys-KeepsSane max _) g in
    elim (Bool-cases (is_minus_one b.ret)) [
      | inl e ↦ rw e (
          ends (called (socket_close fd) (socket_close-KeepsSane max fd) (IsGood-err _ g))
            (tt, stays))
      | inr e ↦ rw e (elim (Bool-cases (is_minus_one c.0.ret)) [
        | inr f ↦ rw f (settle-Lives fd block h g1)
        | inl f ↦ rw f (elim (Bool-cases (not block && c.0.errno == einprogress)) [
          | inl y ↦ rw y (ends g1 ((λ e. h), stays))
          | inr y ↦
              rw y
                (k _ (called (socket_close fd) (socket_close-KeepsSane max fd) (IsGood-err _ g1)))
        ])
      ])
    ]

-- the answer that `attempt` looks at
pub set_up-Lives :
    {max : ℕ} {n : Net} (block : Bool) (k : Answer) (fd : ℤ)
    → IsGood max n
    → Ends max
        (Lives Actor.opener n.sockets Any)
        ((if block then pure k else call (nonblocking fd)) n)
set_up-Lives true k fd g = ends g (tt, stays)
set_up-Lives {max} false k fd g =
    ends (called (nonblocking fd) (nonblocking-KeepsSane max fd) g) (tt, stays)

pub try_connect-Lives :
    {max : ℕ} (block : Bool) (addresses : List ℕ) {n : Net}
    → IsGood max n
    → Ends max (Lives Actor.opener n.sockets IsChosen) (try_connect block addresses n)
unfolding try_connect
try_connect-Lives block [] g = ends g ((λ e. absurd (ground arith)), stays)
try_connect-Lives {max} block (x ∷ xs) {n} g =
    let a = sys Call.socket n.os in
    let fd = a.0.ret in
    let g1 = called (sys Call.socket) (sys-KeepsSane max _) g in
    let k = keepalive fd a.1 in
    let g2 = called (keepalive fd) (keepalive-KeepsSane max fd) g1 in
    elim (Bool-cases (is_minus_one fd)) [
      | inl e ↦ rw e (try_connect-Lives block xs g1)
      | inr e ↦
          let h = sane_fd a.0 (sys-KeepsSane max _ n.os g.sane).0 e in
          rw e (elim (Bool-cases (not (is_zero_ret k.0.ret))) [
            | inl f ↦ rw f (
                ends (called (socket_close fd) (socket_close-KeepsSane max fd) (IsGood-err _ g2))
                  (tt, stays))
            | inr f ↦ rw f (
                bind (set_up-Lives block k.0 fd g2) λ b m gm q.
                  attempt-Lives block fd _ b h gm λ m' g'. try_connect-Lives block xs g')
          ])
    ]

-- What `socket_connect` tells: of an index, that the slot is in use, and by the error code whether
-- the connection is still being made.
abbrev pub Dials : ℕ → ℤ → Net → Type 0
Dials max (negsuc k) n = Unit
Dials max (pos i) n =
    IsLive max i n
    × ((((n.sockets i).status ≡ Status.connecting) × (n.err ≡ connecting_code))
        ⊎ (((n.sockets i).status ≡ Status.connected) × (n.err ≡ pos 0)))

connected-Dials :
    {max i : ℕ} {n : Net}
    → IsGood max n
    → IsLive max i n
    → n.err ≡ pos 0
    → (n.sockets i).status ≡ Status.suspend
    → Ends max
        (Lives Actor.opener n.sockets (Dials max))
        ((set_status i Status.connected >> pure (pos i)) n)
connected-Dials {i} {n} g l e h =
    let s : Socket = record (n.sockets i) { status = Status.connected } in
    let u : IsUsed s = record { valid = refl; fd_lem = live-fd g l } in
    ends (IsGood-store s u g l (λ o. g.exact o i)) (
      (IsLive-store s u g l, inr (ground arith, e)),
      put-Goes i s (
        Way.step (fresh h (Edge.connects refl)) Way.stay,
        λ k e. absurd (ground (arith, e)),
        λ o k. k,
      ),
    )

-- The part of `socket_connect` behind a connection that is still being made.
connecting-Dials :
    {max i : ℕ} {n : Net} (r : Answer)
    → IsGood max n
    → StaysAs max i Status.connecting r n
    → Ends max (Lives Actor.opener n.sockets (Dials max)) (
        (if is_zero_ret r.ret then set_err connecting_code >> pure (pos i) else give_up i r.errno)
          n)
connecting-Dials r g (l, e) = elim (Bool-cases (is_zero_ret r.ret)) [
  | inl z ↦ rw z (ends (IsGood-err _ g) ((IsLive-same refl l, inl (e, refl)), stays))
  | inr z ↦ rw z (give_up-Lives _ g l (ap is_unfinished e) (λ m. tt))
]

pub connect_on-Dials :
    {max : ℕ} {n : Net} (fd udata : ℤ) (pending : Bool)
    → is_neg fd ≡ false
    → IsGood max n
    → Ends max (Lives Actor.opener n.sockets (Dials max)) (connect_on fd udata pending n)
unfolding connect_on
connect_on-Dials {max} {n} fd udata pending h g =
    bind_eq (create_socket-Lives fd _ udata (pos 0) refl h (IsGood-err (pos 0) g)) λ o m gm om q.
      let e : m.err ≡ pos 0 =
        ap (err_or (pos 0)) (sym q)
        ∙ create_socket-err fd (pos 0) udata (pos 0) (record n { err = pos 0 }) in
      case_of-Lives _ _ o om
        (ends (called (socket_close fd) (socket_close-KeepsSane max fd) (IsGood-err _ gm))
          (tt, stays))
        λ i l. elim (Bool-cases pending) [
          | inr f ↦ rw f (connected-Dials gm l.0 e l.1)
          | inl f ↦
              let s : Socket = record (m.sockets i) { status = Status.connecting } in
              let u : IsUsed s = record { valid = refl; fd_lem = live-fd gm l.0 } in
              rw f (
                after
                  (put-Goes i s (
                    Way.step (fresh l.1 Edge.dials) Way.stay,
                    λ k e. absurd (ground (arith, e)),
                    λ o k. k,
                  ))
                  (bind
                    (subscribe-Lives _ (IsGood-store s u gm l.0 (λ o. gm.exact o i))
                      (IsLive-store s u gm l.0))
                    λ r j gj lj. connecting-Dials r gj (lj.0, lj.1 ∙ ground arith)))
        ]

-- `socket_connect` ends in a good state, whatever the kernel answers. If it gives an index, the slot
-- is in use, and it is either connecting, and the error code says so, or connected with no error.
pub connect-Dials :
    {max : ℕ} {n : Net} (block : Bool) (udata : ℤ)
    → IsGood max n
    → Ends max (Lives Actor.opener n.sockets (Dials max)) (connect block udata n)
unfolding connect
connect-Dials {max} {n} block udata g =
    let a = sys Call.getaddrinfo n.os in
    let g1 = called (sys Call.getaddrinfo) (sys-KeepsSane max _) (IsGood-err (pos 0) g) in
    elim (Bool-cases (is_zero_ret a.0.ret)) [
      | inl e ↦ rw e (
          bind (try_connect-Lives block a.0.buf g1) λ t m gm c.
            after_loop-Lives _ _ t gm c (λ m. tt) (no_address-Lives _ gm (λ m. tt))
              λ fd pending h. connect_on-Dials fd udata pending h gm)
      | inr e ↦ rw e (ends (IsGood-err _ g1) (tt, stays))
    ]
