-- ===== src/Net/Send/Enqueue.antt =====
-- The rule for adding a buffer to a send queue of src/socket.c.
use lsocket.Prelude.{ℕ, ◌≡◌, ℤ, pos, int_add, ltb_ℤ, true, false, inl, inr, Bool-cases}
use lsocket.Platform.{err_wbufover}
use lsocket.Net.{Net, Sbuffer, put, is_nil, subscribe, and_then, pure, ◌>>◌}
use lsocket.Net.Exact.{queued, queued-IsExact}
use lsocket.Net.Good.{IsGood, IsLive, IsUsed, Ends, ends, IsGood-store, IsLive-store, live-fd}
use lsocket.Net.Send.{errout, enqueue}
use lsocket.Net.Send.Charged.{enqueue-over}

module _ {max i : ℕ} {n : Net} (b : Sbuffer) (g : IsGood max n) (l : IsLive max i n) where
  -- the state with the buffer in the queue
  abbrev pub grown : Net
  grown = record n { sockets = put n.sockets i (queued b (n.sockets i)) }

  grown-IsUsed : IsUsed (queued b (n.sockets i))
  grown-IsUsed = record { valid = l.valid; fd_lem = live-fd g l }

  pub grown-IsGood : IsGood max grown
  grown-IsGood = IsGood-store _ grown-IsUsed g l (λ o. queued-IsExact b (n.sockets i) (g.exact o i))

  pub grown-IsLive : IsLive max i grown
  grown-IsLive = IsLive-store _ grown-IsUsed g l

  module _ {Q : ℤ → Net → Type 0} (x : ℤ) where
    -- If the limit is exceeded the socket is closed. Otherwise the buffer is in the queue, and if it is
    -- the first one, `_subscribe` is called.
    pub enqueue-by :
        (ltb_ℤ (n.sockets i).slimit (int_add (n.sockets i).sbuffersz (pos b.sz)) ≡ true
          → Ends max Q (errout i err_wbufover n))
        → (ltb_ℤ (n.sockets i).slimit (int_add (n.sockets i).sbuffersz (pos b.sz)) ≡ false
            → is_nil (n.sockets i).head ≡ true
            → Ends max Q (
                and_then
                  ((subscribe i (record (n.sockets i).mask { wable = true }) >> pure tt) grown)
                  (λ _. pure x)))
        → (ltb_ℤ (n.sockets i).slimit (int_add (n.sockets i).sbuffersz (pos b.sz)) ≡ false
            → is_nil (n.sockets i).head ≡ false
            → Q x grown)
        → Ends max Q (enqueue i b x n)
    unfolding enqueue
    enqueue-by over first more =
        let s = n.sockets i in
        elim (Bool-cases (ltb_ℤ s.slimit (int_add s.sbuffersz (pos b.sz)))) [
          | inl e ↦ rw (enqueue-over i b x n (live-fd g l) e) (over e)
          | inr e ↦ elim (Bool-cases (is_nil s.head)) [
            | inl z ↦ rw (e, z) (first e z)
            | inr z ↦ rw (e, z) (ends grown-IsGood (more e z))
          ]
        ]
