-- ===== src/Net/Subscribe.antt =====
-- `_subscribe` of src/socket.c under the invariant of Net/Good.
use lsocket.Prelude.{ℕ, ◌≡◌, refl, arith, inl, inr, Bool-cases}
use lsocket.Platform.{Answer, Mask}
use lsocket.Platform.Sane.{KeepsSane, sys-KeepsSane}
use lsocket.Epoll.{np_add, np_mod, np_del}
use lsocket.Net.{
  Net, Socket, Status, put, change, subscribe, success, is_empty, same_mask, is_zero_ret,
}
use lsocket.Net.Good.{
  IsGood, IsLive, IsUsed, Ends, ends, called, live-fd, IsGood-store, IsLive-store, IsLive-same,
}

pub change-KeepsSane :
    (max : ℕ) (s : Socket) (i : ℕ) (mask : Mask) → KeepsSane max (change s i mask)
unfolding change np_add np_mod np_del
change-KeepsSane max s i mask w h = elim (Bool-cases (is_empty mask)) [
  | inl e ↦ rw e (sys-KeepsSane max _ w h)
  | inr e ↦ rw e (elim (Bool-cases (is_empty s.mask)) [
    | inl f ↦ rw f (sys-KeepsSane max _ w h)
    | inr f ↦ rw f (sys-KeepsSane max _ w h)
  ])
]

-- The rule for `_subscribe`: it makes no call, or the call sets the mask, or fails.
module _ {max i : ℕ} {n : Net} (mask : Mask) (g : IsGood max n) (l : IsLive max i n) where
  abbrev pub asked : Answer × Net
  asked = let r = change (n.sockets i) i mask n.os in (r.0, record n { os = r.1 })

  abbrev pub watched : Net
  watched = record asked.1 { sockets = put n.sockets i (record (n.sockets i) { mask = mask }) }

  watched-IsUsed : IsUsed (record (n.sockets i) { mask = mask })
  watched-IsUsed = record { valid = l.valid; fd_lem = live-fd g l }

  asked-IsGood : IsGood max asked.1
  asked-IsGood = called (change (n.sockets i) i mask) (change-KeepsSane max (n.sockets i) i mask) g

  watched-IsGood : IsGood max watched
  watched-IsGood =
      let g' = asked-IsGood in
      IsGood-store _ watched-IsUsed g' (IsLive-same refl l) (λ o. g'.exact o i)

  watched-IsLive : IsLive max i watched
  watched-IsLive = IsLive-store _ watched-IsUsed asked-IsGood (IsLive-same refl l)

  pub subscribe-by :
      {Q : Answer → Net → Type 0}
      → Q success n
      → (IsLive max i watched → Q asked.0 watched)
      → (IsLive max i asked.1 → Q asked.0 asked.1)
      → Ends max Q (subscribe i mask n)
  unfolding subscribe
  subscribe-by same set failed = elim (Bool-cases (same_mask mask (n.sockets i).mask)) [
    | inl e ↦ rw e (ends g same)
    | inr e ↦ rw e (elim (Bool-cases (is_zero_ret asked.0.ret)) [
      | inl z ↦ rw z (ends watched-IsGood (set watched-IsLive))
      | inr z ↦ rw z (ends asked-IsGood (failed (IsLive-same refl l)))
    ])
  ]

-- what `_subscribe` leaves of the slot: it stays in use, with its status
abbrev pub StaysAs : {A : Type 0} → ℕ → ℕ → Status → A → Net → Type 0
StaysAs max i status a n = IsLive max i n × ((n.sockets i).status ≡ status)

pub subscribe-StaysAs :
    {max i : ℕ} {n : Net} (mask : Mask)
    → IsGood max n
    → IsLive max i n
    → Ends max (StaysAs max i (n.sockets i).status) (subscribe i mask n)
subscribe-StaysAs mask g l =
    subscribe-by mask g l (l, refl) (λ k. (k, ground arith)) (λ k. (k, refl))
