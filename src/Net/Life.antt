-- ===== src/Net/Life.antt =====
-- The life of a slot of the pool of src/socket.c, as a step relation on its status.
pub mod Slots
use lsocket.Prelude.{
  ℕ, ◌≡◌, refl, sym, ap, ◌∙◌, Option, some, Bool, true, false, inl, inr, arith, ◌==◌, Bool-cases,
  ==_false, ◌≢◌, ℕ_discrete,
}
use mathlib.Core.Path.{subst}
use lsocket.Net.{Net, M, Socket, Status, and_then, put, is_invalid, is_halfclose, is_nil}
use lsocket.Net.Exact.{AreInside}
use lsocket.Net.Good
use lsocket.Net.Good.{IsGood, Ends, ends}

-- Who calls: a function that makes a socket, `socket_poll`, or another function of src/socket.h, with
-- as many bytes as the caller says, or not.
pub data Actor : Type 0 where
  caller : (fits : Bool) → Actor
  opener : Actor
  poller : Actor

abbrev pub may_open : Actor → Bool
may_open (Actor.caller fits) = false
may_open Actor.opener = true
may_open Actor.poller = true

abbrev pub may_close : Actor → Bool
may_close (Actor.caller fits) = true
may_close Actor.opener = false
may_close Actor.poller = true

-- there are as many bytes as the caller says
abbrev pub is_trusted : Actor → Bool
is_trusted (Actor.caller fits) = fits
is_trusted Actor.opener = true
is_trusted Actor.poller = true

-- the status of a socket that is being made
abbrev pub is_unfinished : Status → Bool
is_unfinished Status.suspend = true
is_unfinished Status.connecting = true
is_unfinished _ = false

-- `_create_socket` takes a slot, which the function that called it binds, listens with or connects,
-- or gives up; the poller tells that a connection is there; a caller half closes.
pub data Edge : Actor → Status → Status → Type 0 where
  opens : {who : Actor} → may_open who ≡ true → Edge who Status.invalid Status.suspend
  binds : Edge Actor.opener Status.suspend Status.bind
  listens : Edge Actor.opener Status.suspend Status.listening
  dials : Edge Actor.opener Status.suspend Status.connecting
  connects : {who : Actor} → may_open who ≡ true → Edge who Status.suspend Status.connected
  gives_up : {s : Status} → is_unfinished s ≡ true → Edge Actor.opener s Status.invalid
  arrives : Edge Actor.poller Status.connecting Status.connected
  half_closes :
      {fits : Bool} {s : Status}
      → is_invalid s ≡ false
      → Edge (Actor.caller fits) s Status.halfclose
  closes :
      {who : Actor} {s : Status}
      → may_close who ≡ true
      → is_invalid s ≡ false
      → Edge who s Status.invalid

pub data Way (who : Actor) : Status → Status → Type 0 where
  stay : {s : Status} → Way who s s
  step : {s t u : Status} → Edge who s t → Way who t u → Way who s u

Way-append : {who : Actor} {s t u : Status} → Way who s t → Way who t u → Way who s u
Way-append Way.stay q = q
Way-append (Way.step e p) q = Way.step e (Way-append p q)

-- If the socket is half closed, data waits to be sent.
abbrev pub IsPending : Socket → Type 0
IsPending s = is_halfclose s.status ≡ true → is_nil s.head ≡ false

-- The status of a slot went along the edges, and it is not half closed without data now, if it was
-- not before. What its queue holds is inside its buffers, if it was before and the caller is trusted.
abbrev pub Turns : Actor → Socket → Socket → Type 0
Turns who s t =
    Way who s.status t.status
    × (IsPending s → IsPending t)
    × (is_trusted who ≡ true → AreInside s.head → AreInside t.head)

idle : {who : Actor} (s : Socket) → Turns who s s
idle s = (Way.stay, λ h. h, λ o k. k)

-- Each slot of the array turned so.
pub record Goes (who : Actor) (f g : ℕ → Socket) : Type 0 where
  pub turns : (i : ℕ) → Turns who (f i) (g i)

-- `Q` holds of what a run gives, and each slot of the array `f` turned into that of the new array.
abbrev pub Lives : {A : Type 0} → Actor → (ℕ → Socket) → (A → Net → Type 0) → A → Net → Type 0
Lives who f Q a m = Q a m × Goes who f m.sockets

pub stays : {who : Actor} {f : ℕ → Socket} → Goes who f f
stays {f = f} = record { turns = λ i. idle (f i) }

Goes-append : {who : Actor} {f g h : ℕ → Socket} → Goes who f g → Goes who g h → Goes who f h
Goes-append p q = record {
  turns = λ i.
      let (w, d, a) = p.turns i in
      let (w', d', a') = q.turns i in (Way-append w w', λ h. d' (d h), λ o k. a' o (a o k));
}

-- The slot `i` was stored.
pub put-Goes :
    {who : Actor} {f : ℕ → Socket} (i : ℕ) (s : Socket) → Turns who (f i) s → Goes who f (put f i s)
put-Goes {who} {f} i s p = record {
  turns = λ j. elim (Bool-cases (i == j)) [
    | inl y ↦ rw y (subst (λ k. Turns who (f k) s) (ground (arith, y)) p)
    | inr m ↦ rw m (idle (f j))
  ];
}

-- The slots turned so, but `i` may be half closed without data.
pub record Nearly (who : Actor) (i : ℕ) (f g : ℕ → Socket) : Type 0 where
  pub way : (j : ℕ) → Way who (f j).status (g j).status
  pub pending : (j : ℕ) → i ≢ j → IsPending (f j) → IsPending (g j)
  pub inside : (j : ℕ) → is_trusted who ≡ true → AreInside (f j).head → AreInside (g j).head

put_other : (f : ℕ → Socket) (i j : ℕ) (s : Socket) → i ≢ j → put f i s j ≡ f j
put_other f i j s d = rw (==_false d) refl

pub put-Nearly :
    {who : Actor} {f : ℕ → Socket} (i : ℕ) (s : Socket)
    → Way who (f i).status s.status
    → (AreInside (f i).head → AreInside s.head)
    → Nearly who i f (put f i s)
put-Nearly {who} {f} i s p a = record {
  way = λ j. elim (Bool-cases (i == j)) [
    | inl y ↦ rw y (subst (λ k. Way who (f k).status s.status) (ground (arith, y)) p)
    | inr m ↦ rw m Way.stay
  ];
  pending = λ j d h. subst IsPending (sym (put_other f i j s d)) h;
  inside = λ j o. elim (Bool-cases (i == j)) [
    | inl y ↦ rw y (subst (λ k. AreInside (f k).head → AreInside s.head) (ground (arith, y)) a)
    | inr m ↦ rw m (λ k. k)
  ];
}

module _ {who : Actor} {i : ℕ} {f g : ℕ → Socket} where
  pub Goes-Nearly : Goes who f g → Nearly who i f g
  Goes-Nearly p = record {
    way = λ j. let (w, d, a) = p.turns j in w;
    pending = λ j e. let (w, d, a) = p.turns j in d;
    inside = λ j. let (w, d, a) = p.turns j in a;
  }

  pub Nearly-append : {h : ℕ → Socket} → Nearly who i f g → Goes who g h → Nearly who i f h
  Nearly-append p q = record {
    way = λ j. let (w, d, a) = q.turns j in Way-append (p.way j) w;
    pending = λ j e k. let (w, d, a) = q.turns j in d (p.pending j e k);
    inside = λ j o k. let (w, d, a) = q.turns j in a o (p.inside j o k);
  }

  -- The exception is one no more.
  pub Nearly-Goes : Nearly who i f g → IsPending (g i) → Goes who f g
  Nearly-Goes p d = record {
    turns = λ j. elim (ℕ_discrete i j) [
      | yes e ↦ (p.way j, λ h. subst (λ k. IsPending (g k)) e d, p.inside j)
      | no e ↦ (p.way j, p.pending j e, p.inside j)
    ];
  }

module _ {A : Type 0} {max : ℕ} {who : Actor} {f : ℕ → Socket} {P : A → Net → Type 0} where
  pub bind :
      {B : Type 0} {Q : B → Net → Type 0} {o : Option (A × Net)} {k : A → M B}
      → Ends max (Lives who f P) o
      → ((a : A) (m : Net) → IsGood max m → P a m → Ends max (Lives who m.sockets Q) (k a m))
      → Ends max (Lives who f Q) (and_then o k)
  bind h k =
      Good.bind h λ a m gm q. Good.weaken (k a m gm q.0) (λ b m' r. (r.0, Goes-append q.1 r.1))

  -- `bind`, with what the first run gives
  pub bind_eq :
      {B : Type 0} {Q : B → Net → Type 0} {o : Option (A × Net)} {k : A → M B}
      → Ends max (Lives who f P) o
      → ((a : A) (m : Net)
          → IsGood max m
          → P a m
          → o ≡ some (a, m)
          → Ends max (Lives who m.sockets Q) (k a m))
      → Ends max (Lives who f Q) (and_then o k)
  bind_eq h k =
      Good.bind_eq h
        λ a m gm q e. Good.weaken (k a m gm q.0 e) (λ b m' r. (r.0, Goes-append q.1 r.1))

  pub after :
      {g : ℕ → Socket} {o : Option (A × Net)}
      → Goes who f g
      → Ends max (Lives who g P) o
      → Ends max (Lives who f P) o
  after p h = Good.weaken h (λ a m' q. (q.0, Goes-append p q.1))

  pub weaken :
      {Q : A → Net → Type 0} {o : Option (A × Net)}
      → Ends max (Lives who f P) o
      → ((a : A) (m : Net) → P a m → Q a m)
      → Ends max (Lives who f Q) o
  weaken h k = Good.weaken h (λ a m q. (k a m q.0, q.1))

  pub forget : {o : Option (A × Net)} → Ends max (Lives who f P) o → Ends max P o
  forget h = Good.weaken h (λ a m q. q.0)
