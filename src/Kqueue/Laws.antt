-- ===== src/Kqueue/Laws.antt =====
-- What src/np_kqueue.h does to the filters of a descriptor, on a kernel that documents `kevent`.
use lsocket.Prelude.{
  ℕ, ◌+◌, ◌*◌, ◌/◌, ◌<◌, ◌≡◌, refl, sym, ap, ◌∙◌, ◌≢◌, ◌⊎◌, inl, inr, ℤ, pos, Bool, true, false,
  Option, none, some, arith, Bool-cases,
}
use lsocket.Platform.{minus_one, is_minus_one, Mask}
use lsocket.Kqueue.{
  Filter, Flag, Change, Kernel, Timespec, request, np_add, np_add_disable, np_del, np_mod,
  timespec_of, disable_unless,
}

-- A filter is absent, or it is there and enabled or not.
abbrev pub Registered : Type 0
Registered = Option Bool

-- What a change does to a filter; `none` is ENOENT.
abbrev pub applied : Flag → Registered → Option Registered
applied Flag.add r = some (some true)
applied Flag.delete none = none
applied Flag.delete (some b) = some none
applied Flag.disable none = none
applied Flag.disable (some b) = some (some false)

-- `kevent(2)`: a change that fails changes nothing, one that succeeds does what it asks for and
-- touches no other filter, and the deletion of a filter that is there succeeds.
pub record IsDocumented {K : Type 0} (kernel : Kernel K) (filters : K → ℤ → Filter → Registered)
    : Type 0 where
  pub fails_lem :
      (c : Change) (k : K)
      → is_minus_one (kernel.kevent c k).0 ≡ true
      → filters (kernel.kevent c k).1 ≡ filters k
  pub applies_lem :
      (c : Change) (k : K)
      → is_minus_one (kernel.kevent c k).0 ≡ false
      → some (filters (kernel.kevent c k).1 c.ident c.filter)
        ≡ applied c.flags (filters k c.ident c.filter)
  pub others_lem :
      (c : Change) (k : K) (fd : ℤ) (f : Filter)
      → (c.ident ≢ fd) ⊎ (c.filter ≢ f)
      → filters (kernel.kevent c k).1 fd f ≡ filters k fd f
  pub deletes_lem :
      (c : Change) (k : K) (b : Bool)
      → c.flags ≡ Flag.delete
      → filters k c.ident c.filter ≡ some b
      → is_minus_one (kernel.kevent c k).0 ≡ false

module _ {K : Type 0} (kernel : Kernel K) (filters : K → ℤ → Filter → Registered)
    (doc : IsDocumented kernel filters) where
  -- After a deletion the filter is absent, whether it succeeded or not.
  request-delete :
      (fd : ℤ) (f : Filter) (k : K) → filters (request kernel fd f Flag.delete none k).1 fd f ≡ none
  request-delete fd f k = at (filters k fd f) refl
    where
      c : Change
      c = record { ident = fd; filter = f; flags = Flag.delete; udata = none }

      at : (r : Registered) → filters k fd f ≡ r → filters (kernel.kevent c k).1 fd f ≡ none
      at none e = elim (Bool-cases (is_minus_one (kernel.kevent c k).0)) [
        | inl y ↦ rw (doc.fails_lem c k y) e
        | inr n ↦ ground (arith, doc.applies_lem c k n, e)
      ]
      at (some b) e = ground (arith, doc.applies_lem c k (doc.deletes_lem c k b refl e), e)

  -- The other filter of the descriptor stays.
  reads-stay :
      (fd : ℤ) (fl : Flag) (ud : Option ℕ) (k : K)
      → filters (request kernel fd Filter.writes fl ud k).1 fd Filter.reads
        ≡ filters k fd Filter.reads
  reads-stay fd fl ud k = doc.others_lem _ k fd Filter.reads (inr (λ e. ground (arith, e)))

  writes-stay :
      (fd : ℤ) (fl : Flag) (ud : Option ℕ) (k : K)
      → filters (request kernel fd Filter.reads fl ud k).1 fd Filter.writes
        ≡ filters k fd Filter.writes
  writes-stay fd fl ud k = doc.others_lem _ k fd Filter.writes (inr (λ e. ground (arith, e)))

  -- `np_del` removes both filters, and leaves those of other descriptors alone.
  pub np_del-filters :
      (fd : ℤ) (k : K)
      → let k' = (np_del kernel fd k).1 in
        (filters k' fd Filter.reads ≡ none)
        × (filters k' fd Filter.writes ≡ none)
        × ((fd' : ℤ) (f : Filter) → fd ≢ fd' → filters k' fd' f ≡ filters k fd' f)
  unfolding np_del
  np_del-filters fd k =
      let k1 = (request kernel fd Filter.reads Flag.delete none k).1 in
      (
        reads-stay fd Flag.delete none k1 ∙ request-delete fd Filter.reads k,
        request-delete fd Filter.writes k1,
        λ fd' f ne. doc.others_lem _ k1 fd' f (inl ne) ∙ doc.others_lem _ k fd' f (inl ne),
      )

  -- What stands of `fd` after a run from a kernel where it was absent: nothing after a failure,
  -- and after a success both filters, each enabled as the mask says.
  abbrev pub AsMask : (fd : ℤ) → Mask → ℤ × K → Type 0
  AsMask fd mask r =
      ((r.0 ≡ pos 0)
        × (filters r.1 fd Filter.reads ≡ some mask.rable)
        × (filters r.1 fd Filter.writes ≡ some mask.wable))
      ⊎ ((r.0 ≡ minus_one)
          × (filters r.1 fd Filter.reads ≡ none)
          × (filters r.1 fd Filter.writes ≡ none))

  disabled :
      (bit : Bool) (fd : ℤ) (f : Filter) (ud : ℕ) (k : K)
      → filters k fd f ≡ some true
      → is_minus_one (disable_unless kernel bit fd f ud k).0 ≡ false
      → filters (disable_unless kernel bit fd f ud k).1 fd f ≡ some bit
  disabled true fd f ud k e h = e
  disabled false fd f ud k e h = ground (arith, doc.applies_lem _ k h, e)

  reads-disabled :
      (bit : Bool) (fd : ℤ) (ud : ℕ) (k : K)
      → filters (disable_unless kernel bit fd Filter.writes ud k).1 fd Filter.reads
        ≡ filters k fd Filter.reads
  reads-disabled true fd ud k = refl
  reads-disabled false fd ud k = reads-stay fd Flag.disable (some ud) k

  writes-disabled :
      (bit : Bool) (fd : ℤ) (ud : ℕ) (k : K)
      → filters (disable_unless kernel bit fd Filter.reads ud k).1 fd Filter.writes
        ≡ filters k fd Filter.writes
  writes-disabled true fd ud k = refl
  writes-disabled false fd ud k = writes-stay fd Flag.disable (some ud) k

  undone : (fd : ℤ) (mask : Mask) (k : K) → AsMask fd mask (minus_one, (np_del kernel fd k).1)
  undone fd mask k = let (a, b, c) = np_del-filters fd k in inr (refl, a, b)

  np_add_disable-AsMask :
      (fd : ℤ) (mask : Mask) (ud : ℕ) (k : K)
      → filters k fd Filter.reads ≡ some true
      → filters k fd Filter.writes ≡ some true
      → AsMask fd mask (np_add_disable kernel fd mask ud k)
  unfolding np_add_disable
  np_add_disable-AsMask fd mask ud k er ew =
      let a = disable_unless kernel mask.wable fd Filter.writes ud k in
      let b = disable_unless kernel mask.rable fd Filter.reads ud a.1 in
      let er' : filters a.1 fd Filter.reads ≡ some true = reads-disabled mask.wable fd ud k ∙ er in
      elim (Bool-cases (is_minus_one a.0)) [
        | inl y ↦ rw y (undone fd mask a.1)
        | inr n ↦ rw n (elim (Bool-cases (is_minus_one b.0)) [
          | inl y ↦ rw y (undone fd mask b.1)
          | inr m ↦ rw m (
              inl (
                refl,
                disabled mask.rable fd Filter.reads ud a.1 er' m,
                writes-disabled mask.rable fd ud a.1
                    ∙ disabled mask.wable fd Filter.writes ud k ew n,
              ))
        ])
      ]

  added :
      (fd : ℤ) (f : Filter) (ud : ℕ) (k : K)
      → is_minus_one (request kernel fd f Flag.add (some ud) k).0 ≡ false
      → filters (request kernel fd f Flag.add (some ud) k).1 fd f ≡ some true
  added fd f ud k h = ground (arith, doc.applies_lem _ k h)

  -- `np_add` of a descriptor that is not there ends with 0 and both filters registered, each
  -- enabled exactly as the mask says, or with -1 and neither registered, whichever call failed.
  pub np_add-AsMask :
      (fd : ℤ) (mask : Mask) (ud : ℕ) (k : K)
      → filters k fd Filter.reads ≡ none
      → filters k fd Filter.writes ≡ none
      → AsMask fd mask (np_add kernel fd mask ud k)
  unfolding np_add
  np_add-AsMask fd mask ud k er ew =
      let a = request kernel fd Filter.reads Flag.add (some ud) k in
      let b = request kernel fd Filter.writes Flag.add (some ud) a.1 in
      elim (Bool-cases (is_minus_one a.0)) [
        | inl y ↦ rw y (inr (refl, rw (doc.fails_lem _ k y) er, rw (doc.fails_lem _ k y) ew))
        | inr n ↦ rw n (elim (Bool-cases (is_minus_one b.0)) [
          | inl y ↦ rw y (
              inr (
                refl,
                request-delete fd Filter.reads b.1,
                writes-stay fd Flag.delete none b.1
                    ∙ rw (doc.fails_lem _ a.1 y) (writes-stay fd Flag.add (some ud) k ∙ ew),
              ))
          | inr m ↦ rw m (
              np_add_disable-AsMask fd mask ud b.1
                (reads-stay fd Flag.add (some ud) a.1 ∙ added fd Filter.reads ud k n)
                (added fd Filter.writes ud a.1 m))
        ])
      ]

  disable-never :
      (fd : ℤ) (f : Filter) (ud : ℕ) (k : K)
      → filters k fd f ≢ some true
      → filters (request kernel fd f Flag.disable (some ud) k).1 fd f ≢ some true
  disable-never fd f ud k h e =
      elim (Bool-cases (is_minus_one (request kernel fd f Flag.disable (some ud) k).0)) [
        | inl y ↦ h (rw (← doc.fails_lem _ k y) e)
        | inr n ↦ at (filters k fd f) (sym (doc.applies_lem _ k n) ∙ ap some e)
      ]
    where
      at : (r : Registered) → applied Flag.disable r ≡ some (some true) → ⊥
      at none q = ground (arith, q)
      at (some b) q = ground (arith, q)

  abbrev pub both_bits : Mask
  both_bits = record { rable = true; wable = true }

  -- `np_mod` enables no filter of the descriptor, whatever the mask asks for, and answers a mask
  -- with both bits with -1, without a change.
  pub np_mod-never_enables :
      (fd : ℤ) (mask : Mask) (ud : ℕ) (k : K) (f : Filter)
      → filters k fd f ≢ some true
      → (filters (np_mod kernel fd mask ud k).1 fd f ≢ some true)
        × (np_mod kernel fd both_bits ud k ≡ (minus_one, k))
  unfolding np_mod
  np_mod-never_enables fd mask ud k f h = (at mask.rable mask.wable f h, refl)
    where
      at :
          (r w : Bool) (f : Filter)
          → filters k fd f ≢ some true
          → let m : Mask = record { rable = r; wable = w } in
            filters (np_mod kernel fd m ud k).1 fd f ≢ some true
      at true true f h = h
      at false true Filter.reads h = disable-never fd Filter.reads ud k h
      at false true Filter.writes h = λ e. h (sym (writes-stay fd Flag.disable (some ud) k) ∙ e)
      at r false Filter.writes h = disable-never fd Filter.writes ud k h
      at r false Filter.reads h = λ e. h (sym (reads-stay fd Flag.disable (some ud) k) ∙ e)

-- The time of a `struct timespec` in milliseconds.
abbrev pub millis : Timespec → ℕ
millis t = t.tv_sec * 1000 + t.tv_nsec / 1000000

-- The timeout that `np_poll` hands to the kernel is the one it was given, without a rest, and its
-- nanoseconds are less than a second.
pub timespec_of-millis :
    (t : ℕ)
    → (ts : Timespec) × (timespec_of (pos t) ≡ some ts)
      × (millis ts ≡ t)
      × (ts.tv_nsec < 1000000000)
unfolding timespec_of
timespec_of-millis t = (_, refl, omega arith, omega arith)
