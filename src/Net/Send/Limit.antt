-- ===== src/Net/Send/Limit.antt =====
-- The limit on the send queue in src/socket.c.
use lsocket.Prelude.{
  ℕ, ◌+◌, ◌^◌, ◌≡◌, ℤ, pos, int_add, wrap, ltb_ℤ, sub_ℕ, ◌+ℤ◌, ◌%◌, ◌<◌, false, arith, ap, ◌∙◌,
  refl, List, [], ◌∷◌, ◌++◌,
}
use lsocket.Prelude.Int.{to_word}
use lsocket.Platform.{Mask}
use lsocket.Net.{Net, Sbuffer, limit_of, int_max, subscribe, and_then, pure, ◌>>◌}
use lsocket.Net.Exact.{queued}
use lsocket.Net.Good
use lsocket.Net.Good.{IsGood, IsLive, Ends, ends}
use lsocket.Net.Subscribe.{subscribe-by}
use lsocket.Net.Send.{enqueue}
use lsocket.Net.Send.Enqueue.{grown, grown-IsGood, grown-IsLive, enqueue-by}
use lsocket.Net.Send.Flow.{put-same}

wrap-le : (z : ℤ) → ltb_ℤ int_max (wrap z) ≡ false
wrap-le z = at ((to_word z + 2 ^ 31) % 2 ^ 32) (omega arith)
  where
    at : (x : ℕ) → x < 2 ^ 32 → ltb_ℤ int_max (sub_ℕ x (2 ^ 31)) ≡ false
    at x h = ground arith

limit_of-never :
    (slimit a b : ℤ) → ltb_ℤ (pos 0) slimit ≡ false → ltb_ℤ (limit_of slimit) (int_add a b) ≡ false
unfolding int_add
limit_of-never slimit a b h = rw h (wrap-le (a +ℤ b))

-- The buffer is at the end of the queue, and the caller gets `x`.
abbrev pub Grows : ℕ → List Sbuffer → Sbuffer → ℤ → ℤ → Net → Type 0
Grows i q b x r m = (r ≡ x) × ((m.sockets i).head ≡ q ++ b ∷ [])

module _ {max i : ℕ} {n : Net} (b : Sbuffer) (x : ℤ) (g : IsGood max n) (l : IsLive max i n) where
  subscribe-Grows :
      (mask : Mask)
      → Ends max
          (Grows i (n.sockets i).head b x)
          (and_then ((subscribe i mask >> pure tt) (grown b g l)) (λ _. pure x))
  subscribe-Grows mask =
      let s' = queued b (n.sockets i) in
      let h : ((grown b g l).sockets i).head ≡ (n.sockets i).head ++ b ∷ [] =
        ap (λ t. t.head) (put-same n.sockets i s') in
      let f = (grown b g l).sockets in
      Good.bind
        (Good.bind
          (subscribe-by mask (grown-IsGood b g l) (grown-IsLive b g l)
            {Q = λ a m. (m.sockets i).head ≡ (n.sockets i).head ++ b ∷ []} h
            (λ k. ap (λ t. t.head) (put-same f i (record (f i) { mask = mask })) ∙ h) (λ k. h))
          (λ a m gm q. ends {a = tt} gm q))
        (λ a m gm q. ends gm (refl, q))

  -- If the send queue of a socket in use has the limit that `_create_socket` stores for a limit of
  -- zero or less, `socket_send` and `socket_sendfd` never refuse to add a buffer to it, whatever its
  -- counter and the size of the buffer: a sum that is too large for an `int` wraps around to a
  -- negative number, which passes the test.
  pub enqueue-never :
      (slimit : ℤ)
      → ltb_ℤ (pos 0) slimit ≡ false
      → (n.sockets i).slimit ≡ limit_of slimit
      → Ends max (Grows i (n.sockets i).head b x) (enqueue i b x n)
  enqueue-never slimit h e =
      let s = n.sockets i in
      let t : ltb_ℤ s.slimit (int_add s.sbuffersz (pos b.sz)) ≡ false =
        ap (λ z. ltb_ℤ z (int_add s.sbuffersz (pos b.sz))) e
        ∙ limit_of-never slimit s.sbuffersz (pos b.sz) h in
      enqueue-by b g l x (λ y. absurd (ground (arith, y, t))) (λ y z. subscribe-Grows _)
        (λ y z. (refl, ap (λ r. r.head) (put-same n.sockets i (queued b s))))
