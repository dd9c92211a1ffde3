-- ===== src/Net/Open/Listening.antt =====
-- `socket_listen` of src/socket.c under the invariant of Net/Good.
use lsocket.Prelude.{
  ℕ, ◌≡◌, refl, ap, ◌∙◌, ℤ, pos, Bool, false, List, [], ◌∷◌, inl, inr, arith, Bool-cases,
}
use lsocket.Platform.{
  Answer, World, Call, is_neg, is_minus_one, minus_one, sys, socket_close, nonblocking, closeonexec,
}
use lsocket.Platform.Sane.{
  KeepsSane, sys-KeepsSane, nonblocking-KeepsSane, closeonexec-KeepsSane, reuseaddr-KeepsSane,
  socket_close-KeepsSane,
}
use lsocket.Net.{Net, Status, M, is_zero_ret}
use lsocket.Net.Good.{IsGood, Ends, ends, Any, called, IsGood-err}
use lsocket.Net.Life.{Actor, is_unfinished, Edge, Lives, stays, bind, weaken}
use lsocket.Net.Life.Slots.{case_of-Lives, create_socket-Lives, subscribe-Lives}
use lsocket.Net.Open.{listen, Tried, prepare, try_listen, no_address, after_loop, listen_on}
use lsocket.Net.Open.Keeps.{fresh, status_then-Lives, give_up-Lives, sane_fd}

-- The loops over the addresses choose a descriptor that is valid, if it is not -1.
abbrev pub IsChosen : Tried → Net → Type 0
IsChosen Tried.returned n = Unit
IsChosen (Tried.chose fd pending) n = is_minus_one fd ≡ false → is_neg fd ≡ false

pub prepare-KeepsSane : (max : ℕ) (fd : ℤ) → KeepsSane max (prepare fd)
unfolding prepare
prepare-KeepsSane max fd w h =
    let a = nonblocking-KeepsSane max fd w h in
    let r = nonblocking fd w in
    let b = closeonexec-KeepsSane max fd r.1 a.1 in
    let q = closeonexec fd r.1 in
    let c = reuseaddr-KeepsSane max fd q.1 b.1 in
    elim (Bool-cases (is_minus_one r.0.ret)) [
      | inl e ↦ rw e a
      | inr e ↦ rw e (elim (Bool-cases (is_minus_one q.0.ret)) [
        | inl f ↦ rw f (b.0, b.1, λ o. a.2 (b.2 o))
        | inr f ↦ rw f (c.0, c.1, λ o. a.2 (b.2 (c.2 o)))
      ])
    ]

pub try_listen-Lives :
    {max : ℕ} (addresses : List ℕ) {n : Net}
    → IsGood max n
    → Ends max (Lives Actor.opener n.sockets IsChosen) (try_listen addresses n)
unfolding try_listen
try_listen-Lives [] g = ends g ((λ e. absurd (ground arith)), stays)
try_listen-Lives {max} (x ∷ xs) {n} g =
    let a = sys Call.socket n.os in
    let fd = a.0.ret in
    let g1 = called (sys Call.socket) (sys-KeepsSane max _) g in
    let p = prepare fd a.1 in
    let g2 = called (prepare fd) (prepare-KeepsSane max fd) g1 in
    let b : Answer × World = sys (Call.bind fd) p.1 in
    let g3 = called (sys (Call.bind fd)) (sys-KeepsSane max _) g2 in
    elim (Bool-cases (is_minus_one fd)) [
      | inl e ↦ rw e (try_listen-Lives xs g1)
      | inr e ↦ rw e (elim (Bool-cases (is_minus_one p.0.ret)) [
        | inl f ↦ rw f (
            ends (called (socket_close fd) (socket_close-KeepsSane max fd) (IsGood-err _ g2))
              (tt, stays))
        | inr f ↦ rw f (elim (Bool-cases (is_minus_one b.0.ret)) [
          | inl h ↦ rw h (
              try_listen-Lives xs
                (called (socket_close fd) (socket_close-KeepsSane max fd) (IsGood-err _ g3)))
          | inr h ↦ rw h (ends g3 ((λ q. sane_fd a.0 (sys-KeepsSane max _ n.os g.sane).0 e), stays))
        ])
      ])
    ]

pub no_address-Lives :
    {max : ℕ} {n : Net} {Q : ℤ → Net → Type 0} (code : ℤ)
    → IsGood max n
    → ((m : Net) → Q minus_one m)
    → Ends max (Lives Actor.opener n.sockets Q) (no_address code n)
unfolding no_address
no_address-Lives {n = n} code g q = elim (Bool-cases (is_zero_ret n.err)) [
  | inl e ↦ rw e (ends (IsGood-err _ g) (q _, stays))
  | inr e ↦ rw e (ends g (q _, stays))
]

pub after_loop-Lives :
    {max : ℕ} {n : Net} {Q : ℤ → Net → Type 0} (none_left : M ℤ) (chosen : ℤ → Bool → M ℤ)
    (t : Tried)
    → IsGood max n
    → IsChosen t n
    → ((m : Net) → Q minus_one m)
    → Ends max (Lives Actor.opener n.sockets Q) (none_left n)
    → ((fd : ℤ) (pending : Bool)
        → is_neg fd ≡ false
        → Ends max (Lives Actor.opener n.sockets Q) (chosen fd pending n))
    → Ends max (Lives Actor.opener n.sockets Q) (after_loop none_left chosen t n)
unfolding after_loop
after_loop-Lives nl ch Tried.returned g c q a b = ends g (q _, stays)
after_loop-Lives nl ch (Tried.chose fd pending) g c q a b = elim (Bool-cases (is_minus_one fd)) [
  | inl e ↦ rw e a
  | inr e ↦ rw e (b fd pending (c e))
]

pub listen_on-Lives :
    {max : ℕ} {n : Net} (fd udata : ℤ)
    → is_neg fd ≡ false
    → IsGood max n
    → Ends max (Lives Actor.opener n.sockets Any) (listen_on fd udata n)
unfolding listen_on
listen_on-Lives {max} {n} fd udata h g =
    let g1 = called (sys (Call.listen fd)) (sys-KeepsSane max _) (IsGood-err (pos 0) g) in
    elim (Bool-cases (is_minus_one (sys (Call.listen fd) n.os).0.ret)) [
      | inl e ↦ rw e (
          ends (called (socket_close fd) (socket_close-KeepsSane max fd) (IsGood-err _ g1))
            (tt, stays))
      | inr e ↦ rw e (
          bind (create_socket-Lives fd _ udata (pos 0) refl h g1) λ o m gm om.
            case_of-Lives _ _ o om
              (ends (called (socket_close fd) (socket_close-KeepsSane max fd) (IsGood-err _ gm))
                (tt, stays))
              λ i l. bind (subscribe-Lives _ gm l.0) λ r k gk lk.
                elim (Bool-cases (is_zero_ret r.ret)) [
                  | inl f ↦ rw f (
                      weaken
                        (status_then-Lives (pos i) Status.listening refl refl
                          (fresh (lk.1 ∙ l.1) Edge.listens) gk lk.0)
                        (λ a n q. tt))
                  | inr f ↦ rw f (give_up-Lives _ gk lk.0 (ap is_unfinished (lk.1 ∙ l.1)) (λ m. tt))
                ])
    ]

-- `socket_listen` ends in a good state, whatever the kernel answers.
pub listen-Lives :
    {max : ℕ} {n : Net} (udata : ℤ)
    → IsGood max n
    → Ends max (Lives Actor.opener n.sockets Any) (listen udata n)
unfolding listen
listen-Lives {max} {n} udata g =
    let a = sys Call.getaddrinfo n.os in
    let g1 = called (sys Call.getaddrinfo) (sys-KeepsSane max _) g in
    elim (Bool-cases (is_zero_ret a.0.ret)) [
      | inl e ↦ rw e (
          bind (try_listen-Lives a.0.buf (IsGood-err _ g1)) λ t m gm c.
            after_loop-Lives _ _ t gm c (λ m. tt) (no_address-Lives _ gm (λ m. tt))
              λ fd pending h. listen_on-Lives fd udata h gm)
      | inr e ↦ rw e (ends (IsGood-err _ g1) (tt, stays))
    ]
