-- ===== src/Net/Send/Queued.antt =====
-- What src/socket.c puts in the send queue of a socket.
use lsocket.Prelude.{
  ℕ, ◌-◌, ◌≡◌, ◌⊎◌, sym, ap, ◌∙◌, ℤ, true, List, [], ◌∷◌, ◌++◌, append-nil, append_assoc, inl, inr,
  take, drop, take-append-drop, take-drop,
}
use lsocket.Net.{Net, Sbuffer, is_invalid}
use lsocket.Net.Good
use lsocket.Net.Good.{
  IsGood, IsLive, IsUsed, Ends, ends, weaken, StaysLive, bind, IsGood-os, IsGood-err, IsGood-store,
  IsLive-store, IsLive-same, live-fd, live-has,
}
use lsocket.Net.Good.Slots.{close_socket-Ends}
use lsocket.Net.Send.Enqueue.{grown, grown-IsGood, grown-IsLive, enqueue-by}
use lsocket.Net.Exact.{queued}
use lsocket.Net.Send.{unsent, errout, enqueue}
use lsocket.Net.Send.Stream.{stream, pending}
use lsocket.Net.Send.Flow.{flow, flow-put, subscribe_only-flow}

-- The socket was closed, or the flow of its slot is `xs`.
abbrev pub Sent : {A : Type 0} → ℕ → List ℕ → A → Net → Type 0
Sent i xs a m = (is_invalid (m.sockets i).status ≡ true) ⊎ (flow i m ≡ xs)

pub errout-Sent :
    {max i : ℕ} {n : Net} (xs : List ℕ) (e : ℤ)
    → IsGood max n
    → IsLive max i n
    → Ends max (Sent i xs) (errout i e n)
unfolding errout
errout-Sent xs e g l =
    Good.bind (close_socket-Ends g l) (λ b m gm q. ends (IsGood-err e gm) (inl q))

pending-snoc : (q : List Sbuffer) (b : Sbuffer) → pending (q ++ b ∷ []) ≡ pending q ++ unsent b
pending-snoc [] b = append-nil (unsent b)
pending-snoc (c ∷ q) b =
    ap (λ x. unsent c ++ x) (pending-snoc q b)
    ∙ sym (append_assoc (unsent c) (pending q) (unsent b))

pub enqueue-Sent :
    {max i : ℕ} {n : Net} (b : Sbuffer) (x : ℤ)
    → IsGood max n
    → IsLive max i n
    → Ends max (Sent i (flow i n ++ unsent b)) (enqueue i b x n)
enqueue-Sent {i = i} {n = n} b x g l =
    let s = n.sockets i in
    let e' : flow i (grown b g l) ≡ flow i n ++ unsent b =
      flow-put n i (queued b s)
      ∙ ap (λ x. stream n.os.log ++ x) (pending-snoc s.head b)
      ∙ sym (append_assoc (stream n.os.log) (pending s.head) (unsent b)) in
    enqueue-by b g l x (λ e. errout-Sent _ _ g l)
      (λ e z.
        Good.bind (subscribe_only-flow _ (grown-IsGood b g l) (grown-IsLive b g l))
          (λ a m gm q. ends gm (inr (q ∙ e'))))
      (λ e z. inr e')

-- The whole data is queued, or what is left behind its first `k` bytes.
module _ {max i : ℕ} {n : Net} (xs bytes : List ℕ) (sz : ℕ) (fd x : ℤ) (g : IsGood max n)
    (l : IsLive max i n) where
  pub queue_all-Sent :
      flow i n ≡ xs
      → Ends max
          (Sent i (xs ++ take sz bytes))
          (enqueue i (record { sz = sz; fd = fd; begin = bytes; ptr = 0 }) x n)
  queue_all-Sent h =
      weaken (enqueue-Sent _ _ g l)
        (λ a m q. elim q [ inl z ↦ inl z | inr z ↦ inr (z ∙ ap (λ y. y ++ take sz bytes) h) ])

  pub queue_rest-Sent :
      (k : ℕ)
      → flow i n ≡ xs ++ take k (take sz bytes)
      → Ends max
          (Sent i (xs ++ take sz bytes))
          (enqueue i (record { sz = sz - k; fd = fd; begin = bytes; ptr = k }) x n)
  queue_rest-Sent k h = weaken (enqueue-Sent _ _ g l) (λ a m q. elim q [
    | inl z ↦ inl z
    | inr z ↦ inr (
        z
        ∙ ap (λ y. y ++ take (sz - k) (drop k bytes)) h
        ∙ append_assoc xs (take k (take sz bytes)) (take (sz - k) (drop k bytes))
        ∙ ap (λ y. xs ++ (take k (take sz bytes) ++ y)) (take-drop k sz bytes)
        ∙ ap (λ y. xs ++ y) (take-append-drop k (take sz bytes)))
  ])
