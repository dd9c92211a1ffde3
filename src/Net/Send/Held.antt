-- ===== src/Net/Send/Held.antt =====
-- The limit on the send queue of src/socket.c.
pub mod Each
use lsocket.Prelude.{
  ℕ, zero, suc, ◌+◌, ◌^◌, ◌≤◌, ◌<◌, ◌≡◌, ◌⊎◌, refl, sym, ap, ◌∙◌, ℤ, pos, negsuc, int_add,
  int_add-pos, ltb_ℤ, ltb_ℤ-pos, true, false, ◌||◌, Option, List, [], ◌∷◌, ◌++◌, inl, inr, arith,
  ltb, leb, lt→ltb, ltb→ge, ◌==◌, Bool-cases, take, not,
}
use mathlib.Core.Path.{subst}
use lsocket.Platform.{Call, Mask, sys}
use lsocket.Platform.Sane.{sys-KeepsSane}
use lsocket.Net.{
  Net, M, Socket, Sbuffer, put, pure, ◌>>◌, is_halfclose, get_socket, is_nil, is_invalid, same_mask,
  is_zero_ret, subscribe, change,
}
use lsocket.Net.Good
use lsocket.Net.Good.{
  called, IsGood, IsLive, IsUsed, Ends, ends, bind, IsGood-os, IsGood-err, IsGood-store,
  IsLive-store, IsLive-same, live-fd,
}
use lsocket.Net.Good.Slots.{Gone, close_socket-Ends}
use lsocket.Net.Send.Enqueue.{grown, grown-IsGood, grown-IsLive, enqueue-by}
use lsocket.Net.Subscribe.{subscribe-by, change-KeepsSane}
use lsocket.Net.Send.{
  sent_fd, send_fd_on, send_fd, is_ipc, is_one_byte, data_of, send, is_tcp, again, errout, enqueue,
  wrote, send_on,
}
use lsocket.Net.Send.Flow.{put-same}
use lsocket.Net.Exact.{load, load-snoc, queued}

-- The queue of a socket whose limit is `lim` holds as many bytes as the counter says, and no more
-- than the limit.
pub record IsHeld (lim : ℕ) (s : Socket) : Type 0 where
  pub limit_lem : s.slimit ≡ pos lim
  pub count_lem : s.sbuffersz ≡ pos (load s.head)
  pub within : load s.head ≤ lim

-- the socket was closed, or its queue is held
abbrev pub Held : {A : Type 0} → ℕ → ℕ → A → Net → Type 0
Held i lim a m = (is_invalid (m.sockets i).status ≡ true) ⊎ IsHeld lim (m.sockets i)

pub errout-Held :
    {max i : ℕ} {n : Net} (lim : ℕ) (e : ℤ)
    → IsGood max n
    → IsLive max i n
    → Ends max (Held i lim) (errout i e n)
unfolding errout
errout-Held lim e g l =
    Good.bind (close_socket-Ends g l) (λ b m gm q. ends (IsGood-err e gm) (inl q))

-- `_subscribe` changes no more than the mask of the slot.
subscribe-Held :
    {max i : ℕ} {n : Net} (lim : ℕ) (mask : Mask)
    → IsGood max n
    → IsLive max i n
    → IsHeld lim (n.sockets i)
    → Ends max (Held i lim) ((subscribe i mask >> pure tt) n)
subscribe-Held {i = i} {n = n} lim mask g l h =
    let s' : Socket = record (n.sockets i) { mask = mask } in
    let h' : IsHeld lim s' = record {
      limit_lem = h.limit_lem;
      count_lem = h.count_lem;
      within = h.within;
    } in
    Good.bind
      (subscribe-by mask g l {Q = λ a m. Held i lim a m} (inr h)
        (λ k. inr (subst (IsHeld lim) (sym (put-same n.sockets i s')) h')) (λ k. inr h))
      (λ a m gm q. ends gm q)

pub enqueue-Held :
    {max i : ℕ} {n : Net} (lim : ℕ) (b : Sbuffer) (x : ℤ)
    → IsGood max n
    → IsLive max i n
    → IsHeld lim (n.sockets i)
    → lim + b.sz < 2 ^ 31
    → Ends max (Held i lim) (enqueue i b x n)
enqueue-Held {i = i} {n = n} lim b x g l h k =
    let s = n.sockets i in
    let size = int_add s.sbuffersz (pos b.sz) in
    let z : size ≡ pos (load s.head + b.sz) =
      ap (λ c. int_add c (pos b.sz)) h.count_lem
      ∙ int_add-pos (load s.head) b.sz (omega (arith, k, h.within)) in
    let fits : ltb_ℤ s.slimit size ≡ false → IsHeld lim ((grown b g l).sockets i) = λ e.
      subst (IsHeld lim) (sym (put-same n.sockets i (queued b s))) (record {
        limit_lem = h.limit_lem;
        count_lem = z ∙ ap pos (sym (load-snoc s.head b));
        within =
            let t : ltb lim (load s.head + b.sz) ≡ false =
              sym (ltb_ℤ-pos lim (load s.head + b.sz))
              ∙ sym (ap (λ c. ltb_ℤ c (pos (load s.head + b.sz))) h.limit_lem)
              ∙ sym (ap (λ c. ltb_ℤ s.slimit c) z)
              ∙ e in
            omega (arith, load-snoc s.head b, ltb→ge lim (load s.head + b.sz) t);
      }) in
    enqueue-by b g l x (λ e. errout-Held lim _ g l)
      (λ e y.
        Good.bind (subscribe-Held lim _ (grown-IsGood b g l) (grown-IsLive b g l) (fits e))
          (λ a m gm q. ends gm q))
      (λ e y. inr (fits e))
