-- ===== src/Net/Api.antt =====
-- The small operations of src/socket.c under the invariant of Net/Good, and the life of the slots.
use lsocket.Prelude.{
  true, arith, ◌≡◌, some, ℕ, ◌<◌, refl, ℤ, pos, ltb_ℤ, Bool, ◌||◌, inl, inr, Bool-cases,
}
use lsocket.Platform.Honest.{IsHonest}
use lsocket.Net.{
  Net, Socket, Status, put, limit_of, is_nil, close, enable_read, set_udata, limit, socket_fd,
  last_errno,
}
use lsocket.Net.Exact.{IsExact}
use lsocket.Net.Good.{IsGood, IsLive, IsUsed, Ends, ends, Any, IsGood-store, live-fd}
use lsocket.Net.Life.{Actor, Edge, Way, Goes, Lives, stays, put-Goes, bind}
use lsocket.Net.Life.Slots.{with_socket, close_socket-Lives, subscribe-Lives}

-- A slot in use is stored, and `x` returned.
stored :
    {max i : ℕ} {n : Net} (x : ℤ) (s : Socket)
    → IsUsed s
    → (g : IsGood max n) → IsLive max i n
    → Goes (Actor.caller true) n.sockets (put n.sockets i s)
    → (IsHonest n.os.log → IsExact s)
    → Ends max
        (Lives (Actor.caller true) n.sockets Any)
        (some (x, record n { sockets = put n.sockets i s }))
stored x s u g l p e = ends (IsGood-store s u g l e) (tt, p)

-- `socket_close` ends in a good state, whether the socket is closed, half closed or not there.
pub close-Lives :
    {max : ℕ} {n : Net} (id : ℕ) (force : Bool)
    → IsGood max n
    → id < max
    → Ends max (Lives (Actor.caller true) n.sockets Any) (close id force n)
unfolding close
close-Lives id force g b =
    with_socket _ _ id g b (λ m. tt)
      λ i m gm l. elim (Bool-cases (force || is_nil (m.sockets i).head)) [
        | inl e ↦ rw e (
            bind (close_socket-Lives gm l (Edge.closes refl l.valid))
              λ x k gk q. ends gk (tt, stays))
        | inr e ↦
            let s : Socket = record (m.sockets i) { status = Status.halfclose } in
            let p =
              put-Goes i s (
                Way.step (Edge.half_closes l.valid) Way.stay,
                λ h f. ground (arith, e),
                λ o k. k,
              ) in
            rw e (
              stored (pos 1) s (record { valid = refl; fd_lem = live-fd gm l }) gm l p
                (λ o. gm.exact o i))
      ]

pub enable_read-Lives :
    {max : ℕ} {n : Net} (id : ℕ) (read : Bool)
    → IsGood max n
    → id < max
    → Ends max (Lives (Actor.caller true) n.sockets Any) (enable_read id read n)
unfolding enable_read
enable_read-Lives id read g b =
    with_socket _ _ id g b (λ m. tt)
      λ i m gm l. bind (subscribe-Lives _ gm l) λ x k gk q. ends gk (tt, stays)

pub set_udata-Lives :
    {max : ℕ} {n : Net} (id : ℕ) (udata : ℤ)
    → IsGood max n
    → id < max
    → Ends max (Lives (Actor.caller true) n.sockets Any) (set_udata id udata n)
unfolding set_udata
set_udata-Lives id udata g b =
    with_socket _ _ id g b (λ m. tt)
      λ i m gm l.
        let s : Socket = record (m.sockets i) { udata = udata } in
        stored (pos 0) s (record { valid = l.valid; fd_lem = live-fd gm l }) gm l
          (put-Goes i s (Way.stay, λ h. h, λ o k. k)) (λ o. gm.exact o i)

pub limit-Lives :
    {max : ℕ} {n : Net} (id : ℕ) (slimit rlimit : ℤ)
    → IsGood max n
    → id < max
    → Ends max (Lives (Actor.caller true) n.sockets Any) (limit id slimit rlimit n)
unfolding limit
limit-Lives id slimit rlimit g b =
    with_socket _ _ id g b (λ m. tt)
      λ i m gm l.
        let s = m.sockets i in
        let limited : Socket = record s {
          slimit = limit_of slimit;
          rlimit = rlimit;
          rbuffersz = rlimit;
        } in
        let unlimited : Socket = record s { slimit = limit_of slimit; rlimit = pos 0 } in
        elim (Bool-cases (ltb_ℤ (pos 0) rlimit)) [
          | inl e ↦ rw e (
              stored (pos 0) limited (record { valid = l.valid; fd_lem = live-fd gm l }) gm l
                (put-Goes i limited (Way.stay, λ h. h, λ o k. k)) (λ o. gm.exact o i))
          | inr e ↦ rw e (
              stored (pos 0) unlimited (record { valid = l.valid; fd_lem = live-fd gm l }) gm l
                (put-Goes i unlimited (Way.stay, λ h. h, λ o k. k)) (λ o. gm.exact o i))
        ]

pub socket_fd-Lives :
    {max : ℕ} {n : Net} (id : ℕ)
    → IsGood max n
    → id < max
    → Ends max (Lives (Actor.caller true) n.sockets Any) (socket_fd id n)
unfolding socket_fd
socket_fd-Lives id g b = with_socket _ _ id g b (λ m. tt) λ i m gm l. ends gm (tt, stays)

pub last_errno-Ends : {max : ℕ} {n : Net} → IsGood max n → Ends max Any (last_errno n)
unfolding last_errno
last_errno-Ends g = ends g tt

pub last_errno-err : (n : Net) → last_errno n ≡ some (n.err, n)
unfolding last_errno
last_errno-err n = refl
