-- ===== src/Net/Receive/Got/Each.antt =====
-- A sequence of `socket_read` of src/socket.c on a TCP socket.
use lsocket.Prelude.{
  ℕ, zero, suc, ◌<◌, ◌≡◌, ◌⊎◌, refl, sym, ap, ◌∙◌, ℤ, pos, negsuc, true, false, Option, none, some,
  List, [], ◌++◌, append-nil, append_assoc, inl, inr, arith, ltb, lt→ltb, ◌==◌, Bool-cases, take,
  pos_part,
}
use mathlib.Core.Path.{subst}
use lsocket.Platform.{Answer, Call, retry, eagain, err_nosock, minus_one}
use lsocket.Platform.Sane.{retry-KeepsSane}
use lsocket.Net.{Net, M, Protocol, pure, ◌>>=◌, put, is_halfclose, get_socket, is_invalid}
use lsocket.Net.Good
use lsocket.Net.Good.{
  called, IsGood, IsLive, IsUsed, Ends, ends, bind, bind_eq, IsGood-os, IsGood-err, IsGood-store,
  IsLive-store, IsLive-same, live-fd,
}
use lsocket.Net.Good.Slots.{Gone, close_socket-Ends}
use lsocket.Net.Send.{is_tcp}
use lsocket.Net.Send.Stream.{given}
use lsocket.Net.Send.Flow.{put-same}
use lsocket.Net.Receive.{
  ReadData, ReadResult, read, read_by, read_tcp, read_open, read_done, failed, resize,
}
use lsocket.Net.Receive.Keeps.{resize-IsUsed, resize-IsExact, resize-same}
use lsocket.Net.Receive.Got.{got, retry-got, KeepsGot, close_socket-KeepsGot}

abbrev pub bytes_in : Option ReadData → List ℕ
bytes_in none = []
bytes_in (some d) = d.bytes

-- The slot `i` holds a TCP socket that is not half closed.
pub record IsReading (max i : ℕ) (n : Net) : Type 0 where
  pub live : IsLive max i n
  pub tcp_lem : is_tcp (n.sockets i).protocol ≡ true
  pub open_lem : is_halfclose (n.sockets i).status ≡ false

-- The kernel has given `xs` and the bytes that are returned, and the socket can be read on, or was
-- closed and -1 is returned.
abbrev pub Returned : ℕ → ℕ → List ℕ → ReadResult → Net → Type 0
Returned max i xs r m =
    (got m.os.log ≡ xs ++ bytes_in r.1) × (IsReading max i m ⊎ (Gone i r m × (r.0 ≡ minus_one)))

failed-Returned :
    {max i : ℕ} {n : Net} (xs : List ℕ) (e : ℤ)
    → IsGood max n
    → IsLive max i n
    → got n.os.log ≡ xs ++ []
    → Ends max (Returned max i xs) (failed i e n)
unfolding failed
failed-Returned {i = i} {n = n} xs e g l h = bind_eq (close_socket-Ends g l) λ b m gm q o.
    ends (IsGood-err e gm)
      (subst (KeepsGot (got n.os.log)) o (close_socket-KeepsGot i n) ∙ h, inr (q, refl))

-- The socket can be read on after its read buffer was resized.
module _ {max i : ℕ} {n : Net} (g : IsGood max n) (r : IsReading max i n) (k : ℕ) where
  abbrev resized : Net
  resized = record n { sockets = put n.sockets i (resize (n.sockets i) k) }

  used : IsUsed (resize (n.sockets i) k)
  used = resize-IsUsed (n.sockets i) k (record { valid = r.live.valid; fd_lem = live-fd g r.live })

  resized-IsReading : IsReading max i resized
  resized-IsReading =
      let (p, t) = resize-same (n.sockets i) k in
      let e = put-same n.sockets i (resize (n.sockets i) k) in
      record {
        live = IsLive-store _ used g r.live;
        tcp_lem = ap (λ s. is_tcp s.protocol) e ∙ ap is_tcp p ∙ r.tcp_lem;
        open_lem = ap (λ s. is_halfclose s.status) e ∙ ap is_halfclose t ∙ r.open_lem;
      }

read_done-Returned :
    {max i : ℕ} {n : Net} (xs : List ℕ) (a : Answer) (ret : ℤ)
    → IsGood max n
    → IsReading max i n
    → got n.os.log ≡ xs ++ given a.buf ret
    → Ends max (Returned max i xs) (read_done i a ret n)
unfolding read_done
read_done-Returned xs a (negsuc k) g r h = elim (Bool-cases (a.errno == eagain)) [
  | inl e ↦ rw e (ends g (h, inl r))
  | inr e ↦ rw e (failed-Returned xs _ g r.live h)
]
read_done-Returned xs a (pos k) g r h = elim (Bool-cases (k == 0)) [
  | inl z ↦
      let z' : k ≡ 0 = ground (arith, z) in
      rw z (failed-Returned xs _ g r.live (h ∙ ap (λ j. xs ++ take j a.buf) z'))
  | inr z ↦ rw z (
      ends (IsGood-store _ (used g r k) g r.live (λ o. resize-IsExact _ k (g.exact o _)))
        (h, inl (resized-IsReading g r k)))
]

read_open-Returned :
    {max i : ℕ} {n : Net}
    → IsGood max n
    → IsReading max i n
    → Ends max (Returned max i (got n.os.log)) (read_open i n)
unfolding read_open
read_open-Returned {max} {i} {n} g r =
    let s = n.sockets i in
    let c = Call.read s.fd (pos_part s.rbuffersz) in
    let a = retry c n.os in
    let r' : IsReading max i (record n { os = a.1 }) = record {
      live = IsLive-same refl r.live;
      tcp_lem = r.tcp_lem;
      open_lem = r.open_lem;
    } in
    read_done-Returned (got n.os.log) a.0 a.0.ret (called (retry c) (retry-KeepsSane max c) g) r'
      (retry-got c n.os)

-- the choice by the protocol
read_by-tcp :
    {max i : ℕ} {n : Net} (p : Protocol)
    → is_tcp p ≡ true
    → IsReading max i n
    → read_by p i n ≡ read_open i n
unfolding read_by read_tcp
read_by-tcp Protocol.tcp t r = rw (r.open_lem) refl
read_by-tcp Protocol.udp t r = absurd (ground (arith, t))
read_by-tcp Protocol.ipc t r = absurd (ground (arith, t))

read-Returned :
    {max : ℕ} {n : Net} (id : ℕ)
    → IsGood max n
    → IsReading max id n
    → Ends max (Returned max id (got n.os.log)) (read id n)
unfolding read get_socket
read-Returned {max} {n} id g r =
    let e : ltb id n.max ≡ true = lt→ltb id n.max (rw g.size r.live.bound) in
    rw (e, r.live.valid)
      (subst (Ends max (Returned max id (got n.os.log)))
        (sym (read_by-tcp (n.sockets id).protocol r.tcp_lem r)) (read_open-Returned g r))

-- `k` calls of `socket_read` one after the other, and the bytes that they return
pub read_each : (k id : ℕ) → M (List ℕ)
read_each zero id = pure []
read_each (suc k) id = do r ← read id; bytes ← read_each k id; pure (bytes_in r.1 ++ bytes)

-- The bytes `ys` are all that the kernel has given since it had given `xs`.
abbrev pub Adds : List ℕ → List ℕ → Net → Type 0
Adds xs ys m = got m.os.log ≡ xs ++ ys

-- A slot that is not in use gives nothing.
read_each-Gone :
    {max : ℕ} {n : Net} (k id : ℕ)
    → IsGood max n
    → id < max
    → is_invalid (n.sockets id).status ≡ true
    → Ends max (Adds (got n.os.log)) (read_each k id n)
unfolding read_each read get_socket
read_each-Gone {n = n} zero id g b z = ends g (sym (append-nil (got n.os.log)))
read_each-Gone {n = n} (suc k) id g b z =
    let e : ltb id n.max ≡ true = lt→ltb id n.max (rw g.size b) in
    rw (e, z)
      (Good.bind (read_each-Gone k id (IsGood-err err_nosock g) b z) (λ a m gm q. ends gm q))

-- Any number of calls of `socket_read` on a TCP socket in use that is not half closed: they end in a
-- good state, also when one of them closes the socket, and the bytes that they return are, in order,
-- all those that the kernel gave in the meantime.
pub read_each-Adds :
    {max : ℕ} {n : Net} (k id : ℕ)
    → IsGood max n
    → IsReading max id n
    → Ends max (Adds (got n.os.log)) (read_each k id n)
unfolding read_each
read_each-Adds {n = n} zero id g r = ends g (sym (append-nil (got n.os.log)))
read_each-Adds {max} {n} (suc k) id g r = Good.bind (read-Returned id g r) λ a m gm q.
    let rest : Ends max (Adds (got m.os.log)) (read_each k id m) = elim q.1 [
      | inl t ↦ read_each-Adds k id gm t
      | inr (z, w) ↦ read_each-Gone k id gm r.live.bound z
    ] in
    Good.bind rest λ bytes m' gm' p.
      ends gm' (p ∙ ap (λ x. x ++ bytes) q.0 ∙ append_assoc (got n.os.log) (bytes_in a.1) bytes)
