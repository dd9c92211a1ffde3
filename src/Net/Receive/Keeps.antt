-- ===== src/Net/Receive/Keeps.antt =====
-- The receive side of src/socket.c under the invariant of Net/Good.
use lsocket.Net.Exact.{AreInside}
use mathlib.Core.Path.{subst}
use lsocket.Prelude.{
  true, sym, ℕ, ◌<◌, ◌≡◌, arith, refl, ℤ, pos, negsuc, ltb_ℤ, int_add, ◌&&◌, List, inl, inr, ◌==◌,
  Bool-cases, pos_part,
}
use lsocket.Platform.{Answer, World, Call, Control, retry, eagain}
use lsocket.Platform.Sane.{AllSane, StaysHonest, retry-KeepsSane}
use lsocket.Net.{rbuffer_sz, Net, Socket, Protocol, is_halfclose, is_zero_ret}
use lsocket.Net.Exact.{IsExact}
use lsocket.Net.Life.{Turns, Actor, Edge, Lives, stays, put-Goes, bind}
use lsocket.Net.Life.Slots.{with_socket, same-Way, close_socket-Lives}
use lsocket.Net.Good.{
  called, IsGood, IsLive, IsUsed, Ends, ends, Any, IsGood-os, IsGood-err, IsGood-store, live-fd,
  IsLive-same,
}
use lsocket.Net.Receive.{
  read, read_by, read_tcp, read_fd, read_open, read_half, read_close, read_done, read_fd_done,
  take_fd, failed, resize, is_size,
}

failed-Lives :
    {max i : ℕ} {n : Net} (e : ℤ)
    → IsGood max n
    → IsLive max i n
    → Ends max (Lives (Actor.caller true) n.sockets Any) (failed i e n)
unfolding failed
failed-Lives e g l =
    bind (close_socket-Lives g l (Edge.closes refl l.valid))
      (λ b m gm lm. ends (IsGood-err e gm) (tt, stays))

read_close-KeepsSane :
    (max : ℕ) (fd : ℤ) (w : World)
    → AllSane max w.answers
    → AllSane max (read_close fd w).1.answers × StaysHonest w (read_close fd w).1
unfolding read_close
read_close-KeepsSane max fd w h = let r = retry-KeepsSane max (Call.read fd 1024) w h in (r.1, r.2)

read_half-Lives :
    {max i : ℕ} {n : Net}
    → IsGood max n
    → IsLive max i n
    → Ends max (Lives (Actor.caller true) n.sockets Any) (read_half i n)
unfolding read_half
read_half-Lives {max} {i} {n} g l =
    let s = n.sockets i in
    let r = read_close s.fd n.os in
    let k = read_close-KeepsSane max s.fd n.os g.sane in
    let g' : IsGood max (record n { os = r.1; err = r.0 }) =
      IsGood-err r.0 (IsGood-os r.1 k.0 k.1 g) in
    elim (Bool-cases (is_zero_ret r.0)) [
      | inl e ↦ rw e (ends g' (tt, stays))
      | inr e ↦ rw e (
          bind (close_socket-Lives g' (IsLive-same refl l) (Edge.closes refl l.valid))
            λ b m gm q. ends gm (tt, stays))
    ]

pub resize-IsUsed : (s : Socket) (n : ℕ) → IsUsed s → IsUsed (resize s n)
unfolding resize
resize-IsUsed s n u = elim (Bool-cases (is_zero_ret s.rlimit)) [
  | inr e ↦ rw e u
  | inl e ↦ rw e (elim (Bool-cases (is_size n s.rbuffersz)) [
    | inl f ↦ rw f (record { valid = u.valid; fd_lem = u.fd_lem })
    | inr f ↦
        rw f
          (elim (Bool-cases
            (ltb_ℤ rbuffer_sz s.rbuffersz && ltb_ℤ (pos n) (int_add s.rbuffersz s.rbuffersz))) [
              | inl h ↦ rw h (record { valid = u.valid; fd_lem = u.fd_lem })
              | inr h ↦ rw h u
            ])
  ])
]

pub resize-IsExact : (s : Socket) (n : ℕ) → IsExact s → IsExact (resize s n)
unfolding resize
resize-IsExact s n h = elim (Bool-cases (is_zero_ret s.rlimit)) [
  | inr e ↦ rw e h
  | inl e ↦ rw e (elim (Bool-cases (is_size n s.rbuffersz)) [
    | inl f ↦ rw f h
    | inr f ↦
        rw f
          (elim (Bool-cases
            (ltb_ℤ rbuffer_sz s.rbuffersz && ltb_ℤ (pos n) (int_add s.rbuffersz s.rbuffersz))) [
              | inl k ↦ rw k h
              | inr k ↦ rw k h
            ])
  ])
]

pub resize-same :
    (s : Socket) (k : ℕ) → ((resize s k).protocol ≡ s.protocol) × ((resize s k).status ≡ s.status)
unfolding resize
resize-same s k = (ground arith, ground arith)

resize-Turns : {who : Actor} (s : Socket) (n : ℕ) → Turns who s (resize s n)
unfolding resize
resize-Turns s n =
    let e : (resize s n).head ≡ s.head = ground arith in
    (same-Way (ground arith), λ h. ground (arith, h), λ o k. subst AreInside (sym e) k)

read_done-Lives :
    {max i : ℕ} {n : Net} (a : Answer) (ret : ℤ)
    → IsGood max n
    → IsLive max i n
    → Ends max (Lives (Actor.caller true) n.sockets Any) (read_done i a ret n)
unfolding read_done
read_done-Lives a (negsuc k) g l = elim (Bool-cases (a.errno == eagain)) [
  | inl e ↦ rw e (ends g (tt, stays))
  | inr e ↦ rw e (failed-Lives _ g l)
]
read_done-Lives {i = i} {n = m} a (pos n) g l = elim (Bool-cases (n == 0)) [
  | inl e ↦ rw e (failed-Lives _ g l)
  | inr e ↦ rw e (
      ends
        (IsGood-store _
          (resize-IsUsed (m.sockets i) n (record { valid = l.valid; fd_lem = live-fd g l })) g l
          (λ o. resize-IsExact (m.sockets i) n (g.exact o i)))
        (tt, put-Goes i _ (resize-Turns (m.sockets i) n)))
]

read_open-Lives :
    {max i : ℕ} {n : Net}
    → IsGood max n
    → IsLive max i n
    → Ends max (Lives (Actor.caller true) n.sockets Any) (read_open i n)
unfolding read_open
read_open-Lives {max} {i} {n} g l =
    let s = n.sockets i in
    let c = Call.read s.fd (pos_part s.rbuffersz) in
    let a = retry c n.os in
    read_done-Lives a.0 a.0.ret (called (retry c) (retry-KeepsSane max c) g) (IsLive-same refl l)

read_tcp-Lives :
    {max i : ℕ} {n : Net}
    → IsGood max n
    → IsLive max i n
    → Ends max (Lives (Actor.caller true) n.sockets Any) (read_tcp i n)
unfolding read_tcp
read_tcp-Lives {i = i} {n = n} g l = elim (Bool-cases (is_halfclose (n.sockets i).status)) [
  | inl e ↦ rw e (read_half-Lives g l)
  | inr e ↦ rw e (read_open-Lives g l)
]

take_fd-Lives :
    {max i : ℕ} {m : Net} (n : ℕ) (buf : List ℕ) (c : Control)
    → IsGood max m
    → IsLive max i m
    → Ends max (Lives (Actor.caller true) m.sockets Any) (take_fd i n buf c m)
unfolding take_fd
take_fd-Lives n buf Control.no_fd g l = ends g (tt, stays)
take_fd-Lives n buf (Control.rights c) g l = ends g (tt, stays)
take_fd-Lives n buf Control.other_type g l = failed-Lives _ g l

read_fd_done-Lives :
    {max i : ℕ} {n : Net} (a : Answer) (ret : ℤ)
    → IsGood max n
    → IsLive max i n
    → Ends max (Lives (Actor.caller true) n.sockets Any) (read_fd_done i a ret n)
unfolding read_fd_done
read_fd_done-Lives a (negsuc k) g l = elim (Bool-cases (a.errno == eagain)) [
  | inl e ↦ rw e (ends g (tt, stays))
  | inr e ↦ rw e (failed-Lives _ g l)
]
read_fd_done-Lives a (pos n) g l = elim (Bool-cases (n == 0)) [
  | inl e ↦ rw e (failed-Lives _ g l)
  | inr e ↦ rw e (elim (Bool-cases a.truncated) [
    | inl t ↦ rw t (failed-Lives _ g l)
    | inr t ↦ rw t (take_fd-Lives n a.buf a.control g l)
  ])
]

read_fd-Lives :
    {max i : ℕ} {n : Net}
    → IsGood max n
    → IsLive max i n
    → Ends max (Lives (Actor.caller true) n.sockets Any) (read_fd i n)
unfolding read_fd
read_fd-Lives {max} {i} {n} g l =
    let c = Call.recvmsg (n.sockets i).fd in
    let a = retry c n.os in
    read_fd_done-Lives a.0 a.0.ret (called (retry c) (retry-KeepsSane max c) g) (IsLive-same refl l)

read_by-Lives :
    {max i : ℕ} {n : Net} (p : Protocol)
    → IsGood max n
    → IsLive max i n
    → Ends max (Lives (Actor.caller true) n.sockets Any) (read_by p i n)
unfolding read_by
read_by-Lives Protocol.tcp g l = read_tcp-Lives g l
read_by-Lives Protocol.ipc g l = read_fd-Lives g l
read_by-Lives Protocol.udp g l = ends g (tt, stays)

-- `socket_read` ends in a good state, on every branch.
pub read-Lives :
    {max : ℕ} {n : Net} (id : ℕ)
    → IsGood max n
    → id < max
    → Ends max (Lives (Actor.caller true) n.sockets Any) (read id n)
unfolding read
read-Lives id g b =
    with_socket _ _ id g b (λ m. tt) λ i m gm l. read_by-Lives (m.sockets i).protocol gm l
