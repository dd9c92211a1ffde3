-- ===== src/Select/Table/Parts.antt =====
-- The table of the poller of src/np_select.h, and what keeps it: np_init, _grow, and the parts of
-- np_mod and np_del.
use lsocket.Prelude.{
  ℕ, zero, suc, ◌+◌, ◌*◌, ◌≤◌, ◌<◌, ◌≡◌, ◌≢◌, refl, sym, ap, ◌∙◌, ℤ, pos, ltb_ℤ, Bool, true, false,
  ◌&&◌, ◌||◌, Option, none, some, ltb, leb, leb→lt, inl, inr, arith, Bool-cases,
}
use lsocket.Platform.{Mask}
use lsocket.Select.{
  NpState, double_cap, is_used, np_init, grow, set_ud, enter, mod_valid, last_used, del_valid,
}

-- The loop of `_grow` ends, for a capacity above zero and with rounds enough to count from it past
-- `maxfd`: the new capacity has room for the descriptor, and is not below the old one.
pub double_cap-enough :
    (fuel cap maxfd : ℕ)
    → 0 < cap
    → maxfd < cap + fuel
    → (maxfd < double_cap fuel cap maxfd) × (cap ≤ double_cap fuel cap maxfd)
unfolding double_cap
double_cap-enough zero cap maxfd h f = (omega arith, omega arith)
double_cap-enough (suc fuel) cap maxfd h f = elim (Bool-cases (leb cap maxfd)) [
  | inl e ↦
      let r = double_cap-enough fuel (cap * 2) maxfd (omega arith) (omega arith) in
      rw e (r.0, omega (arith, r.1))
  | inr e ↦ rw e (leb→lt cap maxfd e, omega arith)
]

-- The entry `maxfd` is the greatest one that is used, it lies in the memory of the table, and every
-- descriptor that `select` is asked about has an entry.
pub record IsTable (np : NpState) : Type 0 where
  pub cap_lem : 0 < np.cap
  pub top : ltb_ℤ np.maxfd (pos np.cap) ≡ true
  pub covers : (j : ℕ) → is_used (np.ud j) ≡ true → ltb_ℤ np.maxfd (pos j) ≡ false
  pub exact : (m : ℕ) → np.maxfd ≡ pos m → is_used (np.ud m) ≡ true
  pub watched : (j : ℕ) → (np.rfds j || np.wfds j) ≡ true → is_used (np.ud j) ≡ true

pub np_init-IsTable : (max : ℕ) → IsTable (np_init max)
unfolding np_init
np_init-IsTable zero = record {
  cap_lem = omega arith;
  top = refl;
  covers = λ j e. ground arith;
  exact = λ m e. ground arith;
  watched = λ j e. ground arith;
}
np_init-IsTable (suc m) =
    let d = double_cap-enough (suc m) 1 m (omega arith) (omega arith) in
    record {
      cap_lem = omega (arith, d.1);
      top = ground (arith, d.1);
      covers = λ j e. ground arith;
      exact = λ m e. ground arith;
      watched = λ j e. ground arith;
    }

-- A used entry lies in the memory of the table.
pub used-lt : (np : NpState) (j : ℕ) → IsTable np → is_used (np.ud j) ≡ true → j < np.cap
used-lt np j t e = ground (arith, t.covers j e, t.top)

pub unused : (o : Option ℕ) → is_used o ≡ false → o ≡ none
unused none e = refl
unused (some u) e = absurd (ground arith)

grow-ud : (np : NpState) (fd j : ℕ) → IsTable np → (grow np fd).ud j ≡ np.ud j
unfolding grow
grow-ud np fd j t = elim (Bool-cases (leb np.cap j && ltb j (double_cap (suc fd) np.cap fd))) [
  | inr e ↦ rw e refl
  | inl e ↦ rw e (
      sym (
        unused (np.ud j) (elim (Bool-cases (is_used (np.ud j))) [
          | inr y ↦ y
          | inl y ↦ absurd (ground (arith, used-lt np j t y, e))
        ])))
]

pub grow-IsTable :
    (np : NpState) (fd : ℕ) → IsTable np → IsTable (grow np fd) × (fd < (grow np fd).cap)
unfolding grow
grow-IsTable np fd t =
    let d = double_cap-enough (suc fd) np.cap fd t.cap_lem (omega arith) in
    let u : (j : ℕ) → is_used ((grow np fd).ud j) ≡ is_used (np.ud j) =
      λ j. ap is_used (grow-ud np fd j t) in
    (
      record {
        cap_lem = omega (arith, d.0);
        top = at np.maxfd d.1 t.top;
        covers = λ j e. t.covers j (sym (u j) ∙ e);
        exact = λ m e. u m ∙ t.exact m e;
        watched = λ j e. u j ∙ t.watched j e;
      },
      d.0,
    )
  where
    at :
        (m : ℤ)
        → np.cap ≤ double_cap (suc fd) np.cap fd
        → ltb_ℤ m (pos np.cap) ≡ true
        → ltb_ℤ m (pos (double_cap (suc fd) np.cap fd)) ≡ true
    at m h e = ground arith

pub enter-IsTable :
    (np : NpState) (rfds wfds : ℕ → Bool) (fd u : ℕ)
    → IsTable np
    → fd < np.cap
    → ((j : ℕ) → fd ≢ j → (rfds j || wfds j) ≡ true → (np.rfds j || np.wfds j) ≡ true)
    → IsTable (enter (record np { rfds = rfds; wfds = wfds }) fd u)
enter-IsTable np rfds wfds fd u t b h = record {
  cap_lem = t.cap_lem;
  top = ground (arith, t.top);
  covers = λ j e. ground (arith, t.covers j);
  exact = λ m e. ground (arith, t.exact m);
  watched = λ j e. ground (arith, t.watched j, h j);
}

pub mod_valid-IsTable :
    (np : NpState) (fd : ℕ) (mask : Mask)
    → IsTable np
    → is_used (np.ud fd) ≡ true
    → IsTable (mod_valid np fd mask)
unfolding mod_valid
mod_valid-IsTable np fd mask t u = record {
  cap_lem = t.cap_lem;
  top = t.top;
  covers = t.covers;
  exact = t.exact;
  watched = λ j e. ground (arith, t.watched j, u);
}

-- `last_used` finds the greatest used entry below `i`.
last_used-lem :
    (ud : ℕ → Option ℕ) (i : ℕ)
    → ((j : ℕ) → j < i → is_used (ud j) ≡ true → ltb_ℤ (last_used ud i) (pos j) ≡ false)
      × ((m : ℕ) → last_used ud i ≡ pos m → is_used (ud m) ≡ true)
      × (ltb_ℤ (last_used ud i) (pos i) ≡ true)
unfolding last_used
last_used-lem ud zero = (λ j b e. absurd (omega arith), λ m e. ground arith, refl)
last_used-lem ud (suc i) =
    let (a, b, c) = last_used-lem ud i in
    elim (Bool-cases (is_used (ud i))) [
      | inl y ↦ rw y (λ j b e. ground arith, λ m e. ground (arith, y), ground arith)
      | inr y ↦ rw y (λ j b e. ground (arith, a j, y), b, ground (arith, c))
    ]

pub del_valid-IsTable : (np : NpState) (fd : ℕ) → IsTable np → IsTable (del_valid np fd)
unfolding del_valid
del_valid-IsTable np fd t =
    let (a, b, c) = last_used-lem (set_ud np.ud fd none) fd in
    record {
      cap_lem = t.cap_lem;
      top = ground (arith, t.top, c);
      covers = λ j e. ground (arith, t.covers j, a j);
      exact = λ m e. ground (arith, t.exact m, b m);
      watched = λ j e. ground (arith, t.watched j);
    }
