-- ===== src/Net/Send/Charged.antt =====
-- When the limit of a send queue of src/socket.c is exceeded, the counter was raised already; the
-- socket is closed then, which makes up for it.
use lsocket.Prelude.{
  ℕ, ◌≡◌, refl, ap, ℤ, pos, inl, inr, true, false, int_add, ltb_ℤ, ◌==◌, ==_true, Bool-cases,
}
use mathlib.Core.Path.{fun_ext}
use lsocket.Platform.{is_neg, socket_close, minus_one, err_wbufover}
use lsocket.Net.{
  Net, Socket, put, closed, close_socket, append_free, and_then, ◌>>=◌, set_err, pure, Sbuffer,
}
use lsocket.Net.Send.{errout, enqueue}

put-put : (f : ℕ → Socket) (i : ℕ) (s t : Socket) → put (put f i s) i t ≡ put f i t
put-put f i s t = fun_ext λ j. elim (Bool-cases (i == j)) [ inl y ↦ rw y refl | inr m ↦ rw m refl ]

-- the counter of the slot `i` was set
abbrev charged : ℕ → ℤ → Net → Net
charged i z n = record n { sockets = put n.sockets i (record (n.sockets i) { sbuffersz = z }) }

close_socket-charged :
    (i : ℕ) (z : ℤ) (n : Net)
    → is_neg (n.sockets i).fd ≡ false
    → close_socket i (charged i z n) ≡ close_socket i n
unfolding close_socket
close_socket-charged i z n h =
    let s = n.sockets i in
    let w = (socket_close s.fd n.os).1 in
    let e = put-put n.sockets i (record s { sbuffersz = z }) (closed s) in
    rw (==_true {a = i} refl, h)
      (elim (Bool-cases (ltb_ℤ (pos 2) s.fd)) [
        | inl y ↦ rw y (ap (λ f. append_free i (record n { os = w; sockets = f })) e)
        | inr m ↦ rw m (ap (λ f. append_free i (record n { sockets = f })) e)
      ])

errout-charged :
    (i : ℕ) (z e : ℤ) (n : Net)
    → is_neg (n.sockets i).fd ≡ false
    → errout i e (charged i z n) ≡ errout i e n
unfolding errout
errout-charged i z e n h =
    ap (λ o. and_then o (λ _. set_err e >>= λ _. pure minus_one)) (close_socket-charged i z n h)

-- A buffer that exceeds the limit: the socket is closed.
pub enqueue-over :
    (i : ℕ) (b : Sbuffer) (x : ℤ) (n : Net)
    → is_neg (n.sockets i).fd ≡ false
    → ltb_ℤ (n.sockets i).slimit (int_add (n.sockets i).sbuffersz (pos b.sz)) ≡ true
    → enqueue i b x n ≡ errout i err_wbufover n
unfolding enqueue
enqueue-over i b x n h e = rw e (errout-charged i _ err_wbufover n h)
