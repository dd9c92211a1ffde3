-- ===== src/Kqueue/Tests.antt =====
-- src/np_kqueue.h on a kernel that keeps a table of filters.
use lsocket.Prelude.{
  ◌<◌, ◌≡◌, refl, ◌≢◌, ◌⊎◌, inl, inr, ℤ, pos, negsuc, Bool, true, false, ◌&&◌, Option, none, some,
  [], pos_part, neg_part, ◌==◌, if◌then◌else◌, arith,
}
use lsocket.Platform.{Mask, minus_one, is_minus_one}
use lsocket.Kqueue.{Filter, Change, Kernel, Timespec, np_add, np_mod, timespec_of}
use lsocket.Kqueue.Laws.{
  Registered, applied, IsDocumented, AsMask, np_add-AsMask, np_mod-never_enables, millis,
  timespec_of-millis,
}

abbrev Table : Type 0
Table = ℤ → Filter → Registered

abbrev same_fd : ℤ → ℤ → Bool
same_fd a b = (pos_part a == pos_part b) && (neg_part a == neg_part b)

abbrev same_filter : Filter → Filter → Bool
same_filter Filter.reads Filter.reads = true
same_filter Filter.writes Filter.writes = true
same_filter _ _ = false

abbrev put_filter : Table → ℤ → Filter → Registered → Table
put_filter t fd f r fd' f' = if same_fd fd fd' && same_filter f f' then r else t fd' f'

abbrev settled : Change → Table → Option Registered → ℤ × Table
settled c t none = (minus_one, t)
settled c t (some r) = (pos 0, put_filter t c.ident c.filter r)

abbrev table_kernel : Kernel Table
table_kernel = record {
  kevent = λ c t. settled c t (applied c.flags (t c.ident c.filter));
  wait = λ max ts t. ((pos 0, []), t);
}

same_fd_refl : (a : ℤ) → same_fd a a ≡ true
same_fd_refl a = ground arith

same_filter_refl : (f : Filter) → same_filter f f ≡ true
same_filter_refl Filter.reads = refl
same_filter_refl Filter.writes = refl

same_fd_ne : (a b : ℤ) → a ≢ b → same_fd a b ≡ false
same_fd_ne (pos a) (pos b) h = ground arith
same_fd_ne (pos a) (negsuc b) h = ground arith
same_fd_ne (negsuc a) (pos b) h = ground arith
same_fd_ne (negsuc a) (negsuc b) h = ground arith

same_filter_ne : (f g : Filter) → f ≢ g → same_filter f g ≡ false
same_filter_ne Filter.reads Filter.reads h = absurd (h refl)
same_filter_ne Filter.reads Filter.writes h = refl
same_filter_ne Filter.writes Filter.reads h = refl
same_filter_ne Filter.writes Filter.writes h = absurd (h refl)

put_filter-other :
    (t : Table) (a b : ℤ) (f g : Filter) (r : Registered)
    → (a ≢ b) ⊎ (f ≢ g)
    → put_filter t a f r b g ≡ t b g
put_filter-other t a b f g r (inl h) = ground (arith, same_fd_ne a b h)
put_filter-other t a b f g r (inr h) = ground (arith, same_filter_ne f g h)

settled-fails :
    (c : Change) (t : Table) (o : Option Registered)
    → is_minus_one (settled c t o).0 ≡ true
    → (settled c t o).1 ≡ t
settled-fails c t none h = refl
settled-fails c t (some r) h = absurd (ground (arith, h))

settled-applies :
    (c : Change) (t : Table) (o : Option Registered)
    → is_minus_one (settled c t o).0 ≡ false
    → some ((settled c t o).1 c.ident c.filter) ≡ o
settled-applies c t none h = absurd (ground (arith, h))
settled-applies c t (some r) h = ground (arith, same_fd_refl c.ident, same_filter_refl c.filter)

settled-others :
    (c : Change) (t : Table) (o : Option Registered) (fd : ℤ) (f : Filter)
    → (c.ident ≢ fd) ⊎ (c.filter ≢ f)
    → (settled c t o).1 fd f ≡ t fd f
settled-others c t none fd f h = refl
settled-others c t (some r) fd f h = put_filter-other t c.ident fd c.filter f r h

table_kernel-IsDocumented : IsDocumented table_kernel (λ t. t)
table_kernel-IsDocumented = record {
  fails_lem = λ c t h. settled-fails c t _ h;
  applies_lem = λ c t h. settled-applies c t _ h;
  others_lem = λ c t fd f h. settled-others c t _ fd f h;
  deletes_lem = λ c t b e q. ground (arith, e, q);
}

abbrev full_mask : Mask
full_mask = record { rable = true; wable = true }

abbrev no_filters : Table
no_filters fd f = none

abbrev only_reads : Table
only_reads =
    put_filter (put_filter no_filters (pos 7) Filter.reads (some true)) (pos 7) Filter.writes
      (some false)

np_add-AsMask_example :
    AsMask table_kernel
      (λ t. t)
      table_kernel-IsDocumented
      (pos 7)
      (record { rable = true; wable = false })
      (np_add table_kernel (pos 7) (record { rable = true; wable = false }) 3 no_filters)
np_add-AsMask_example =
    np_add-AsMask table_kernel (λ t. t) table_kernel-IsDocumented (pos 7)
      (record { rable = true; wable = false }) 3 no_filters refl refl

-- asking for write events as well, on a descriptor that has read events only
np_mod-never_enables_example :
    ((np_mod table_kernel (pos 7) full_mask 3 only_reads).1 (pos 7) Filter.writes ≢ some true)
    × (np_mod table_kernel (pos 7) full_mask 3 only_reads ≡ (minus_one, only_reads))
np_mod-never_enables_example =
    np_mod-never_enables table_kernel (λ t. t) table_kernel-IsDocumented (pos 7) full_mask 3
      only_reads Filter.writes (λ e. ground (arith, e))

timespec_of-millis_example :
    (ts : Timespec) × (timespec_of (pos 2500) ≡ some ts)
    × (millis ts ≡ 2500)
    × (ts.tv_nsec < 1000000000)
timespec_of-millis_example = timespec_of-millis 2500
