-- ===== src/Net/Life/Slots.antt =====
-- The life of the slots in the operations of src/socket.c on the pool.
use lsocket.Prelude.{
  ℕ, ◌<◌, ◌≡◌, refl, sym, ◌∙◌, ℤ, Option, none, some, List, [], ◌∷◌, ◌++◌, true, false, inl, inr,
  arith, Bool-cases, ℕ_discrete, lt→ltb,
}
use mathlib.Core.Path.{subst}
use lsocket.Platform.{is_neg, Mask, err_nosock}
use lsocket.Net.Exact.{AreInside}
use lsocket.Net.{
  Sbuffer, opened, protocol_of, Protocol, Net, M, Socket, Status, pure, ◌>>=◌, case_of,
  is_halfclose, is_invalid, get_socket, create_socket, close_socket, subscribe,
}
use lsocket.Net.Pool.{has, has-append, IsPool}
use lsocket.Net.Slots.{Closed, create_socket-IsPool}
use lsocket.Net.Good.{
  IsGood, IsLive, IsUsed, Ends, ends, OptLive, live-fd, IsGood-err, IsGood-store, IsLive-store,
}
use lsocket.Net.Good.Slots.{case_of-Ends, Gone, Closed-IsGood, close_socket-some, created-IsGood}
use lsocket.Net.Subscribe.{subscribe-by, StaysAs}
use lsocket.Net.Open.{set_status}
use lsocket.Net.Life.{
  Turns, IsPending, Actor, may_open, Edge, Way, Goes, Lives, stays, put-Goes, bind,
}

pub invalid_status : (s : Status) → is_invalid s ≡ true → s ≡ Status.invalid
invalid_status Status.invalid e = refl
invalid_status Status.listening e = absurd (ground (arith, e))
invalid_status Status.connecting e = absurd (ground (arith, e))
invalid_status Status.connected e = absurd (ground (arith, e))
invalid_status Status.halfclose e = absurd (ground (arith, e))
invalid_status Status.suspend e = absurd (ground (arith, e))
invalid_status Status.bind e = absurd (ground (arith, e))

pub same-Way : {who : Actor} {s t : Status} → t ≡ s → Way who s t
same-Way {who} {s} e = subst (Way who s) (sym e) Way.stay

both_invalid :
    {who : Actor} {s t : Status} → is_invalid s ≡ true → is_invalid t ≡ true → Way who s t
both_invalid {s} {t} e h = same-Way (invalid_status t h ∙ sym (invalid_status s e))

closing :
    {who : Actor} {s t : Status} → Edge who s Status.invalid → is_invalid t ≡ true → Way who s t
closing {who} {s} {t} e h = subst (Way who s) (sym (invalid_status t h)) (Way.step e Way.stay)

pub gone-IsPending : (s : Socket) → is_invalid s.status ≡ true → IsPending s
gone-IsPending s h e =
    absurd (
      ground (arith, e, subst (λ t. is_halfclose t ≡ false) (sym (invalid_status s.status h)) refl))

same-Turns : {who : Actor} {s t : Socket} → t ≡ s → Turns who s t
same-Turns {who} {s} e = subst (Turns who s) (sym e) (Way.stay, λ h. h, λ o k. k)

emptied : {q : List Sbuffer} → q ≡ [] → AreInside q
emptied e = subst AreInside (sym e) tt

Closed-Goes :
    {who : Actor} {max i : ℕ} {n m : Net} (g : IsGood max n)
    → Edge who (n.sockets i).status Status.invalid
    → Closed n i g.free m
    → Goes who n.sockets m.sockets
Closed-Goes {who} {i = i} {n = n} {m = m} g e c = record {
  turns = λ j. elim (ℕ_discrete j i) [
    | yes p ↦
        subst (λ k. Turns who (n.sockets k) (m.sockets k)) (sym p)
          (
            closing e c.gone,
            λ k. gone-IsPending (m.sockets i) c.gone,
            λ o k. emptied (c.empty g.empty i c.gone),
          )
    | no p ↦ elim (Bool-cases (has j g.free)) [
      | inl h ↦
          let b = g.pool.bounded j h in
          let f : has j (g.free ++ i ∷ []) ≡ true = rw (has-append j g.free (i ∷ []), h) refl in
          let t = c.pool.free_lem j (c.pool.bounded j f) ∙ f in
          (
            both_invalid (g.pool.free_lem j b ∙ h) t,
            λ k. gone-IsPending (m.sockets j) t,
            λ o k. emptied (c.empty g.empty j t),
          )
      | inr h ↦ same-Turns (c.others j p h)
    ]
  ];
}

pub close_socket-Lives :
    {who : Actor} {max i : ℕ} {n : Net}
    → IsGood max n
    → IsLive max i n
    → Edge who (n.sockets i).status Status.invalid
    → Ends max (Lives who n.sockets (Gone i)) (close_socket i n)
close_socket-Lives g l e =
    let ((u, m), q, c) = close_socket-some g l in
    rw q (ends (Closed-IsGood g c) (c.gone, Closed-Goes g e c))

-- the slot that `_create_socket` gives, if it gives one
abbrev pub OptFresh : (max : ℕ) → Option ℕ → Net → Type 0
OptFresh max none n = Unit
OptFresh max (some i) n = StaysAs max i Status.suspend (some i) n

opening :
    {who : Actor} (s : Socket) (fd slimit udata : ℤ) (protocol : Protocol)
    → may_open who ≡ true
    → is_invalid s.status ≡ true
    → Turns who s (opened s fd slimit udata protocol)
opening {who} s fd sl ud pr k e = (
  subst (λ t. Way who t Status.suspend) (sym (invalid_status s.status e))
      (Way.step (Edge.opens k) Way.stay),
  λ h f. absurd (ground (arith, f)),
  λ o k. tt,
)

pub create_socket-Lives :
    {who : Actor} {max : ℕ} {n : Net} (fd slimit udata protocol : ℤ)
    → may_open who ≡ true
    → is_neg fd ≡ false
    → IsGood max n
    → Ends max (Lives who n.sockets (OptFresh max)) (create_socket fd slimit udata protocol n)
create_socket-Lives {who} {max} {n} fd sl ud pr k h g = at g.free g.pool
  where
    at :
        (free : List ℕ)
        → IsPool n free
        → Ends max (Lives who n.sockets (OptFresh max)) (create_socket fd sl ud pr n)
    at [] v = rw (create_socket-IsPool n [] fd sl ud pr h v).0 (ends g (tt, stays))
    at (i ∷ is) v =
        let (q, v') = create_socket-IsPool n (i ∷ is) fd sl ud pr h v in
        let b = v.bounded i (ground arith) in
        let e : is_invalid (n.sockets i).status ≡ true = v.free_lem i b ∙ ground arith in
        rw q (
          ends (created-IsGood fd sl ud pr g i is v') (
            (record { bound = rw (← g.size) b; valid = ground arith }, ground arith),
            put-Goes i _ (opening (n.sockets i) fd sl ud (protocol_of pr) k e),
          ))

pub get_socket-Lives :
    {who : Actor} {max : ℕ} {n : Net} (id : ℕ)
    → IsGood max n
    → id < max
    → Ends max (Lives who n.sockets (OptLive max)) (get_socket id n)
unfolding get_socket
get_socket-Lives {who} {max} {n} id g b =
    rw (lt→ltb id n.max (rw g.size b)) (elim (Bool-cases (is_invalid (n.sockets id).status)) [
      | inl e ↦ rw e (ends (IsGood-err err_nosock g) (tt, stays))
      | inr e ↦ rw e (ends g (record { bound = b; valid = e }, stays))
    ])

pub with_socket :
    {who : Actor} {A : Type 0} {max : ℕ} {Q : A → Net → Type 0} {n : Net} (null : A) (f : ℕ → M A)
    (id : ℕ)
    → IsGood max n
    → id < max
    → ((m : Net) → Q null m)
    → ((i : ℕ) (m : Net) → IsGood max m → IsLive max i m → Ends max (Lives who m.sockets Q) (f i m))
    → Ends max (Lives who n.sockets Q) ((get_socket id >>= case_of (pure null) f) n)
with_socket null f id g b q k =
    bind (get_socket-Lives id g b)
      λ o m gm om. case_of-Ends (pure null) f o om (ends gm (q m, stays)) (λ i l. k i m gm l)

pub subscribe-Lives :
    {who : Actor} {max i : ℕ} {n : Net} (mask : Mask)
    → IsGood max n
    → IsLive max i n
    → Ends max (Lives who n.sockets (StaysAs max i (n.sockets i).status)) (subscribe i mask n)
subscribe-Lives {i = i} {n = n} mask g l =
    let s : Socket = record (n.sockets i) { mask = mask } in
    subscribe-by mask g l ((l, refl), stays)
      (λ k. ((k, ground arith), put-Goes i s (Way.stay, λ h. h, λ o k. k)))
      (λ k. ((k, refl), stays))

-- The status of a slot in use is set, along an edge.
pub set_status-Lives :
    {who : Actor} {max i : ℕ} {n : Net} (status : Status)
    → is_invalid status ≡ false
    → is_halfclose status ≡ false
    → Edge who (n.sockets i).status status
    → IsGood max n
    → IsLive max i n
    → Ends max (Lives who n.sockets (StaysAs max i status)) (set_status i status n)
set_status-Lives {i = i} {n = n} status v w e g l =
    let s : Socket = record (n.sockets i) { status = status } in
    let u : IsUsed s = record { valid = v; fd_lem = live-fd g l } in
    ends (IsGood-store s u g l (λ o. g.exact o i)) (
      (IsLive-store s u g l, ground arith),
      put-Goes i s (Way.step e Way.stay, λ h f. absurd (ground (arith, w, f)), λ o k. k),
    )

-- the slot that `_create_socket` gives, or none
pub case_of-Lives :
    {A : Type 0} {max : ℕ} {Q : A → Net → Type 0} (null : M A) (f : ℕ → M A) (o : Option ℕ)
    {n : Net}
    → OptFresh max o n
    → Ends max Q (null n)
    → ((i : ℕ) → StaysAs max i Status.suspend (some i) n → Ends max Q (f i n))
    → Ends max Q (case_of null f o n)
case_of-Lives null f none l a b = a
case_of-Lives null f (some i) l a b = b i l
