-- ===== src/Net/Receive/Got.antt =====
-- The bytes that src/socket.c gets from the kernel, and those that `socket_read` returns.
pub mod Each
use lsocket.Prelude.{
  ℕ, zero, suc, ◌<◌, ◌≡◌, ◌⊎◌, refl, sym, ap, ◌∙◌, ℤ, pos, negsuc, ltb_ℤ, true, false, Option, none,
  some, Option-cases, List, [], ◌∷◌, ◌++◌, append-nil, append_assoc, inl, inr, arith, ltb, lt→ltb,
  ◌==◌, Bool-cases, take, pos_part,
}
use mathlib.Core.Path.{subst}
use lsocket.Platform.{
  Answer, World, Call, sys, retry, retry_from, interrupted, eagain, minus_one, is_minus_one, is_neg,
  socket_close,
}
use lsocket.Platform.Sane.{retry-KeepsSane}
use lsocket.Net.{
  Net, M, Socket, pure, ◌>>=◌, put, closed, is_halfclose, get_socket, is_invalid, append_free,
  close_socket,
}
use lsocket.Net.Good
use lsocket.Net.Good.{
  IsGood, IsLive, IsUsed, Ends, ends, bind, bind_eq, IsGood-os, IsGood-err, IsGood-store,
  IsLive-store, IsLive-same, live-fd,
}
use lsocket.Net.Good.Slots.{Gone, close_socket-Ends}
use lsocket.Net.Send.{is_tcp}
use lsocket.Net.Send.Stream.{given, given-neg}
use lsocket.Net.Send.Flow.{given-nil, put-same}
use lsocket.Net.Receive.{
  ReadData, ReadResult, read, read_by, read_tcp, read_open, read_done, failed, resize,
}
use lsocket.Net.Receive.Keeps.{resize-IsUsed}

-- what is in the buffer of a call that receives
abbrev pub arrived : Call → Answer → List ℕ
arrived (Call.read fd sz) a = a.buf
arrived (Call.recvmsg fd) a = a.buf
arrived _ a = []

-- the bytes that the kernel gave, from the first call on
abbrev pub got : List (Call × Answer) → List ℕ
got [] = []
got ((c, a) ∷ es) = got es ++ given (arrived c a) a.ret

pub retry-got :
    (c : Call) (w : World)
    → let r = retry c w in got r.1.log ≡ got w.log ++ given (arrived c r.0) r.0.ret
unfolding retry
retry-got c w = at w.answers w.log
  where
    at :
        (as' : List Answer) (log : List (Call × Answer))
        → let r = retry_from as' c log in got r.1.log ≡ got log ++ given (arrived c r.0) r.0.ret
    at [] log = refl
    at (a ∷ as') log = elim (Bool-cases (interrupted a)) [
      | inr e ↦ rw e refl
      | inl e ↦ rw e (
          let r = (retry_from as' c ((c, a) ∷ log)).0 in
          at as' ((c, a) ∷ log)
          ∙ ap (λ x. x ++ given (arrived c r) r.ret)
              (ap (λ x. got log ++ x) (given-neg (arrived c a) a.ret (ground (arith, e)))
                ∙ append-nil (got log)))
    ]

-- a run that leaves the kernel `os`, and one after which the kernel has given `xs`
abbrev KeepsOs : World → Option (Unit {0} × Net) → Type 0
KeepsOs os none = Unit
KeepsOs os (some (u, n)) = n.os ≡ os

abbrev pub KeepsGot : List ℕ → Option (Unit {0} × Net) → Type 0
KeepsGot xs none = Unit
KeepsGot xs (some (u, n)) = got n.os.log ≡ xs

KeepsOs-got :
    (xs : List ℕ) (os : World) (o : Option (Unit {0} × Net))
    → got os.log ≡ xs
    → KeepsOs os o
    → KeepsGot xs o
KeepsOs-got xs os none e k = tt
KeepsOs-got xs os (some (u, n)) e k = ap (λ w. got w.log) k ∙ e

append_free-KeepsOs : (i : ℕ) (n : Net) → KeepsOs n.os (append_free i n)
unfolding append_free
append_free-KeepsOs i n = elim (Option-cases n.free_socket) [
  | inl e ↦ rw e refl
  | inr (f, e) ↦ rw e (elim (Option-cases n.tail_socket) [
    | inl q ↦ rw q tt
    | inr (t, q) ↦
        rw q (elim (Bool-cases (is_minus_one (n.sockets t).fd)) [
          | inl y ↦ rw y refl
          | inr m ↦ rw m tt
        ])
  ])
]

close-got : (fd : ℤ) (w : World) → got (socket_close fd w).1.log ≡ got w.log
unfolding socket_close
close-got fd w = at w.answers w.log
  where
    at :
        (as' : List Answer) (log : List (Call × Answer))
        → got (socket_close fd (record { answers = as'; log = log })).1.log ≡ got log
    at [] log = append-nil (got log)
    at (a ∷ as') log = ap (λ x. got log ++ x) (given-nil a.ret) ∙ append-nil (got log)

pub close_socket-KeepsGot : (i : ℕ) (n : Net) → KeepsGot (got n.os.log) (close_socket i n)
unfolding close_socket
close_socket-KeepsGot i n =
    let s = n.sockets i in
    let w = (socket_close s.fd n.os).1 in
    elim (Bool-cases (is_neg s.fd)) [
      | inl y ↦ rw y refl
      | inr m ↦ rw m (elim (Bool-cases (ltb_ℤ (pos 2) s.fd)) [
        | inl big ↦ rw big (
            KeepsOs-got (got n.os.log) w _ (close-got s.fd n.os)
              (append_free-KeepsOs i (record n { os = w; sockets = put n.sockets i (closed s) })))
        | inr std ↦ rw std (
            KeepsOs-got (got n.os.log) n.os _ refl
              (append_free-KeepsOs i (record n { sockets = put n.sockets i (closed s) })))
      ])
    ]
