-- ===== src/Select/Table.antt =====
-- The table of src/np_select.h.
pub mod Parts
use mathlib.Core.Path.{ap₂}
use lsocket.Prelude.{
  ℕ, zero, suc, ◌+◌, ◌*◌, ◌≤◌, ◌<◌, ◌≡◌, ◌≢◌, refl, sym, ap, ◌∙◌, ℤ, pos, negsuc, ltb_ℤ, ltb_ℤ-pos,
  Bool, true, false, ◌&&◌, ◌||◌, Option, none, some, List, [], ◌++◌, ltb, leb, leb→lt, ltb→lt,
  if◌then◌else◌, inl, inr, arith, Bool-cases, ==_false, lt→ltb, Returns, returns,
}
use lsocket.Platform.{Mask}
use lsocket.Epoll.{NpEvent}
use lsocket.Select.{
  NpState, double_cap, is_used, np_init, grow, is_valid_fd, add_bit, set_ud, enter, add_valid,
  np_add, mod_valid, np_mod, last_used, del_valid, np_del, Selected, event_of, collect, np_poll,
}
use lsocket.Select.Table.Parts.{
  IsTable, np_init-IsTable, used-lt, unused, grow-IsTable, enter-IsTable, mod_valid-IsTable,
  del_valid-IsTable,
}

add_bit-other : (fds : ℕ → Bool) (fd j : ℕ) (b : Bool) → fd ≢ j → add_bit fds fd b j ≡ fds j
add_bit-other fds fd j false h = refl
add_bit-other fds fd j true h = rw (==_false h) refl

add_valid-IsTable :
    (np : NpState) (fd : ℕ) (mask : Mask) (u : ℕ) → IsTable np → IsTable (add_valid np fd mask u)
unfolding add_valid grow
add_valid-IsTable np fd mask u t = at mask.rable mask.wable
  where
    watched_before :
        (r w : Bool) (j : ℕ)
        → fd ≢ j
        → (add_bit np.rfds fd r j || add_bit np.wfds fd w j) ≡ true
        → (np.rfds j || np.wfds j) ≡ true
    watched_before r w j h e =
        sym (ap₂ (λ a b. a || b) (add_bit-other np.rfds fd j r h) (add_bit-other np.wfds fd j w h))
        ∙ e

    idle :
        (r w : Bool)
        → (r || w) ≡ false
        → IsTable (record np { rfds = add_bit np.rfds fd r; wfds = add_bit np.wfds fd w })
    idle false false e = t
    idle false true e = absurd (ground arith)
    idle true w e = absurd (ground arith)

    at : (r w : Bool) → IsTable (add_valid np fd (record { rable = r; wable = w }) u)
    at r w = elim (Bool-cases (r || w)) [
      | inr e ↦ rw e (idle r w e)
      | inl e ↦ rw e (elim (Bool-cases (leb np.cap fd)) [
        | inl c ↦
            let (g, b) = grow-IsTable np fd t in
            rw c (
              enter-IsTable (grow np fd) (add_bit np.rfds fd r) (add_bit np.wfds fd w) fd u g b
                (watched_before r w))
        | inr c ↦ rw c (
            enter-IsTable np (add_bit np.rfds fd r) (add_bit np.wfds fd w) fd u t
              (leb→lt np.cap fd c) (watched_before r w))
      ])
    ]

-- `np_add` keeps the table, whatever the descriptor and the mask.
pub np_add-IsTable :
    (np : NpState) (fd : ℤ) (mask : Mask) (u : ℕ) → IsTable np → IsTable (np_add np fd mask u).1
unfolding np_add
np_add-IsTable np (negsuc n) mask u t = t
np_add-IsTable np (pos fd) mask u t = elim (Bool-cases (is_valid_fd (pos fd))) [
  | inl e ↦ rw e (add_valid-IsTable np fd mask u t)
  | inr e ↦ rw e t
]

-- `np_mod` of a descriptor that is used keeps the table.
pub np_mod-IsTable :
    (np : NpState) (fd : ℕ) (mask : Mask)
    → IsTable np
    → is_used (np.ud fd) ≡ true
    → IsTable (np_mod np (pos fd) mask).1
unfolding np_mod
np_mod-IsTable np fd mask t u = elim (Bool-cases (is_valid_fd (pos fd))) [
  | inl e ↦ rw e (mod_valid-IsTable np fd mask t u)
  | inr e ↦ rw e t
]

-- `np_del` of a descriptor that is used: no assertion fails, the table is kept, the descriptor is
-- neither used nor watched afterwards, and no other entry is changed.
pub np_del-IsTable :
    (np : NpState) (fd : ℕ)
    → IsTable np
    → is_used (np.ud fd) ≡ true
    → ltb fd 1024 ≡ true
    → Returns
        (λ (r, np').
          (r ≡ pos 0)
          × IsTable np'
          × (is_used (np'.ud fd) ≡ false)
          × ((np'.rfds fd || np'.wfds fd) ≡ false)
          × ((j : ℕ) → j ≢ fd → np'.ud j ≡ np.ud j))
        (np_del np (pos fd))
unfolding np_del
np_del-IsTable np fd t u v =
    let b : ltb fd np.cap ≡ true = lt→ltb fd np.cap (used-lt np fd t u) in
    rw (v, b)
      (returns (
        refl,
        del_valid-IsTable np fd t,
        unfold del_valid in ground arith,
        unfold del_valid in ground arith,
        unfold del_valid in λ j e. ground arith,
      ))

collect-unused :
    (ud : ℕ → Option ℕ) (s : Selected) (k i : ℕ)
    → ((j : ℕ) → i ≤ j → is_used (ud j) ≡ false)
    → collect ud s k i ≡ []
unfolding collect event_of
collect-unused ud s zero i h = refl
collect-unused ud s (suc k) i h =
    rw (unused (ud i) (h i (omega arith)))
      (collect-unused ud s k (i + 1) (λ j b. h j (omega arith)))

collect-more :
    (ud : ℕ → Option ℕ) (s : Selected) (k l i : ℕ)
    → k ≤ l
    → ((j : ℕ) → i + k ≤ j → is_used (ud j) ≡ false)
    → collect ud s l i ≡ collect ud s k i
unfolding collect
collect-more ud s zero l i b h = collect-unused ud s l i (λ j p. h j (omega arith))
collect-more ud s (suc k) zero i b h = absurd (omega arith)
collect-more ud s (suc k) (suc l) i b h =
    ap (λ es. event_of (ud i) (s.rtmp i) (s.wtmp i) ++ es)
      (collect-more ud s k l (i + 1) (omega arith) (λ j p. h j (omega arith)))

not_used :
    (np : NpState) (t : IsTable np) (j : ℕ)
    → ltb_ℤ np.maxfd (pos j) ≡ true
    → is_used (np.ud j) ≡ false
not_used np t j e = elim (Bool-cases (is_used (np.ud j))) [
  | inr y ↦ y
  | inl y ↦ absurd (ground (arith, t.covers j y, e))
]

-- `np_poll` stops at `maxfd` and loses nothing by it: after a `select` that found something, it
-- gives the events of all the descriptors of the table that are ready, in order.
pub np_poll-collect :
    (np : NpState) (s : Selected)
    → IsTable np
    → ltb_ℤ (pos 0) s.count ≡ true
    → np_poll np s ≡ collect np.ud s np.cap 0
unfolding np_poll
np_poll-collect np s t c = at np.maxfd refl
  where
    at :
        (m : ℤ)
        → np.maxfd ≡ m
        → ◌≡◌ {A = List NpEvent}
            (elim m [
              | negsuc n ↦ []
              | pos k ↦ if ltb_ℤ (pos 0) s.count then collect np.ud s (k + 1) 0 else []
            ])
            (collect np.ud s np.cap 0)
    at (negsuc n) e = sym (
        collect-unused np.ud s np.cap 0
          (λ j b. not_used np t j (ap (λ m. ltb_ℤ m (pos j)) e ∙ ground arith)))
    at (pos k) e =
        let b : ltb k np.cap ≡ true =
          sym (ltb_ℤ-pos k np.cap) ∙ sym (ap (λ m. ltb_ℤ m (pos np.cap)) e) ∙ t.top in
        rw c (
          sym (
            collect-more np.ud s (k + 1) np.cap 0 (omega (arith, ltb→lt k np.cap b)) (λ j p.
              not_used np t j
                (ap (λ m. ltb_ℤ m (pos j)) e ∙ ltb_ℤ-pos k j ∙ lt→ltb k j (omega arith)))))
