-- ===== src/Net/Open/Keeps.antt =====
-- The functions of src/socket.c that make sockets, under the invariant of Net/Good.
use lsocket.Prelude.{ℕ, ◌≡◌, refl, sym, ap, some, ℤ, pos, true, false, inl, inr, arith, Bool-cases}
use lsocket.Platform.{
  Answer, Sys, Call, is_neg, minus_one, is_minus_one, sys, keepalive, socket_close, nonblocking,
}
use lsocket.Platform.Sane.{
  IsSane, sys-KeepsSane, nonblocking-KeepsSane, keepalive-KeepsSane, socket_close-KeepsSane,
}
use lsocket.Net.{Net, Status, pure, ◌>>◌, is_invalid, is_halfclose}
use lsocket.Net.Good.{IsGood, IsLive, Ends, ends, Any, OptLive, called, IsGood-err, IsLive-same}
use lsocket.Net.Life.{Actor, is_unfinished, Edge, Lives, stays, bind, weaken}
use lsocket.Net.Life.Slots.{
  set_status-Lives, case_of-Lives, create_socket-Lives, close_socket-Lives,
}
use lsocket.Net.Subscribe.{StaysAs}
use mathlib.Core.Path.{subst}
use lsocket.Net.Open
use lsocket.Net.Open.{accept, set_status, give_up}

-- The status of a new slot is set, and `x` returned.
pub status_then-Lives :
    {who : Actor} {A : Type 0} {max i : ℕ} {n : Net} (x : A) (status : Status)
    → is_invalid status ≡ false
    → is_halfclose status ≡ false
    → Edge who (n.sockets i).status status
    → IsGood max n
    → IsLive max i n
    → Ends max (Lives who n.sockets (StaysAs max i status)) ((set_status i status >> pure x) n)
status_then-Lives x status v w e g l =
    bind (set_status-Lives status v w e g l) (λ b m gm lm. ends {a = x} gm (lm, stays))

pub give_up-Lives :
    {max i : ℕ} {n : Net} {Q : ℤ → Net → Type 0} (e : ℕ)
    → IsGood max n
    → IsLive max i n
    → is_unfinished (n.sockets i).status ≡ true
    → ((m : Net) → Q minus_one m)
    → Ends max (Lives Actor.opener n.sockets Q) (give_up i e n)
give_up-Lives e g l u q =
    bind (close_socket-Lives (IsGood-err _ g) (IsLive-same refl l) (Edge.gives_up u))
      (λ b m gm lm. ends gm (q m, stays))

-- an edge from the status that a new slot has
pub fresh :
    {who : Actor} {s t : Status} → s ≡ Status.suspend → Edge who Status.suspend t → Edge who s t
fresh {who} {t = t} h e = subst (λ s. Edge who s t) (sym h) e

-- `socket_bind` of a descriptor ends in a good state.
pub bind-Lives :
    {max : ℕ} {n : Net} (fd udata protocol : ℤ)
    → is_neg fd ≡ false
    → IsGood max n
    → Ends max (Lives Actor.opener n.sockets Any) (Open.bind fd udata protocol n)
unfolding Open.bind
bind-Lives {max} fd udata protocol h g =
    bind (create_socket-Lives fd (pos 0) udata protocol refl h g) λ o m gm om.
      case_of-Lives _ _ o om (ends (IsGood-err _ gm) (tt, stays)) λ i l.
        let a = nonblocking fd m.os in
        let g' = called (nonblocking fd) (nonblocking-KeepsSane max fd) gm in
        elim (Bool-cases (is_minus_one a.0.ret)) [
          | inl e ↦
              rw e (give_up-Lives _ g' (IsLive-same refl l.0) (ap is_unfinished l.1) (λ m. tt))
          | inr e ↦ rw e (
              weaken
                (status_then-Lives (pos i) Status.bind refl refl (fresh l.1 Edge.binds) g'
                  (IsLive-same refl l.0))
                (λ a n q. tt))
        ]

pub sane_fd :
    {max : ℕ} (a : Answer) → IsSane max a → is_minus_one a.ret ≡ false → is_neg a.ret ≡ false
sane_fd a s e = elim (Bool-cases (is_neg a.ret)) [
  | inl t ↦ absurd (ground (arith, s.ret_lem t))
  | inr f ↦ f
]

-- `_accept` ends in a good state, and the slot that it gives is in use.
pub accept-Lives :
    {max : ℕ} {n : Net} (lis : ℕ)
    → IsGood max n
    → Ends max (Lives Actor.poller n.sockets (OptLive max)) (accept lis n)
unfolding accept
accept-Lives {max} {n} lis g =
    let c : Sys Answer = sys (Call.accept (n.sockets lis).fd) in
    let a = c n.os in
    let g1 = called c (sys-KeepsSane max _) g in
    let g2 = called (keepalive a.0.ret) (keepalive-KeepsSane max _) g1 in
    elim (Bool-cases (is_neg a.0.ret)) [
      | inl e ↦ rw e (ends g1 (tt, stays))
      | inr e ↦ rw e (
          bind (create_socket-Lives a.0.ret _ _ (pos 0) refl e g2) λ o m gm om.
            case_of-Lives _ _ o om
              (ends (called (socket_close a.0.ret) (socket_close-KeepsSane max _) gm) (tt, stays))
              λ i l.
                let g3 = called (nonblocking a.0.ret) (nonblocking-KeepsSane max _) gm in
                let l3 = IsLive-same refl l.0 in
                elim (Bool-cases (is_minus_one (nonblocking a.0.ret m.os).0.ret)) [
                  | inl f ↦ rw f (
                      bind (close_socket-Lives g3 l3 (Edge.closes refl l3.valid))
                        λ b k gk q. ends gk (tt, stays))
                  | inr f ↦ rw f (
                      bind
                        (set_status-Lives Status.connected refl refl
                          (fresh l.1 (Edge.connects refl)) g3 l3)
                        λ b k gk q. ends {a = some i} gk (q.0, stays))
                ])
    ]
