-- ===== src/Lua/Slice/Bounds.antt =====
-- The part of a string that `lsend` of src/lsocket.c sends.
use lsocket.Prelude.{
  ℕ, zero, suc, ◌+◌, ◌-◌, ◌^◌, ◌%◌, ◌<◌, ◌≤◌, ◌≡◌, refl, sym, ◌⊎◌, inl, inr, ℤ, pos, negsuc, wrap,
  int_add, int_sub, int_add-pos, int_sub-pos, ltb_ℤ, ltb_ℤ-pos, true, List, ◌++◌, length, take,
  drop, ltb, lt→ltb, length-take, length-drop, append_assoc, take-append-drop, leb, if◌then◌else◌,
  arith, Bool-cases, dec_lt, ltb→ge,
}
use lsocket.Lua.Slice.{Part, part_of, slice, first_of, last_of, to_size, memcpy}

-- a value of the C type `int`
abbrev pub IsInt : ℤ → Type 0
IsInt (pos n) = n < 2 ^ 31
IsInt (negsuc n) = n < 2 ^ 31

-- The first position that is asked for, counted from 1.
abbrev pub from : ℤ → ℕ
from (pos zero) = 1
from (pos (suc n)) = suc n
from (negsuc n) = 1

-- The last position; a negative one stands for the end of the string.
abbrev pub upto : (l : ℕ) → ℤ → ℕ
upto l (pos n) = if ltb l n then l else n
upto l (negsuc n) = l

-- the positions `m` to `n` of the string
abbrev pub sub : (s : List ℕ) (m n : ℕ) → Part
sub s m n =
    if ltb n m
    then Part.nothing
    else Part.part (take (n + 1 - m) (drop (m - 1) s)) (pos (n + 1 - m))

first_of-from : (z : ℤ) → first_of z ≡ pos (from z)
unfolding first_of
first_of-from (pos zero) = ground arith
first_of-from (pos (suc n)) = ground arith
first_of-from (negsuc n) = ground arith

from-int : (z : ℤ) → IsInt z → (0 < from z) × (from z < 2 ^ 31)
from-int (pos zero) h = (omega arith, omega arith)
from-int (pos (suc n)) h = (omega arith, omega (arith, h))
from-int (negsuc n) h = (omega arith, omega arith)

wrap-small : (l : ℕ) → l < 2 ^ 31 → wrap (pos l) ≡ pos l
wrap-small l h = ground arith

last_of-upto : (l : ℕ) (z : ℤ) → l < 2 ^ 31 → IsInt z → last_of l z ≡ pos (upto l z)
unfolding last_of to_size
last_of-upto l (pos n) h i = ground (arith, wrap-small l h)
last_of-upto l (negsuc n) h i = ground (arith, wrap-small l h)

-- The size that `lsend` computes, and its copy, for a part that is not empty.
part-inside :
    (s : List ℕ) (f m : ℕ)
    → 0 < f
    → f ≤ m
    → m ≤ length s
    → m < 2 ^ 31
    → let sz = int_add (int_sub (pos m) (pos f)) (pos 1) in
      part_of sz (memcpy s (int_sub (pos f) (pos 1)) sz)
      ≡ Part.part (take (m + 1 - f) (drop (f - 1) s)) (pos (m + 1 - f))
unfolding memcpy
part-inside s f m h k le lt =
    let a : int_sub (pos m) (pos f) ≡ pos (m - f) = int_sub-pos m f k lt in
    let b : int_add (pos (m - f)) (pos 1) ≡ pos (m - f + 1) =
      int_add-pos (m - f) 1 (omega (arith, lt)) in
    let c : m - f + 1 ≡ m + 1 - f = omega (arith, k) in
    let d : int_sub (pos f) (pos 1) ≡ pos (f - 1) = int_sub-pos f 1 (omega arith) (omega arith) in
    let e : leb (f - 1 + (m + 1 - f)) (length s) ≡ true = ground arith in rw (a, b, c, d, e) refl

-- If the last position is inside the string, `slice` is the part up to there.
slice-sub_at :
    (s : List ℕ) (start end : ℤ) (m : ℕ)
    → IsInt start
    → last_of (length s) end ≡ pos m
    → m ≤ length s
    → m < 2 ^ 31
    → slice s start end ≡ sub s (from start) m
unfolding slice memcpy
slice-sub_at s start end m i e le lt =
    let (f0, f1) = from-int start i in
    rw (first_of-from start, e, ltb_ℤ-pos m (from start))
      (elim (Bool-cases (ltb m (from start))) [
        | inl y ↦ rw y refl
        | inr n ↦ rw n (part-inside s (from start) m f0 (ltb→ge _ _ n) le lt)
      ])

upto-inside : (l : ℕ) (z : ℤ) → upto l z ≤ l
upto-inside l (pos n) = ground arith
upto-inside l (negsuc n) = omega arith

-- For a string of less than 2^31 bytes, `lsend` sends the bytes from position `start` to position
-- `end`, counted from 1, where `start` is raised to 1 and a last position that is negative or
-- behind the end stands for the end; it sends nothing just when there is no such position.
pub slice-sub :
    (s : List ℕ) (start end : ℤ)
    → length s < 2 ^ 31
    → IsInt start
    → IsInt end
    → slice s start end ≡ sub s (from start) (upto (length s) end)
slice-sub s start end h i j =
    slice-sub_at s start end (upto (length s) end) i (last_of-upto (length s) end h j)
      (upto-inside (length s) end) (omega (arith, upto-inside (length s) end))

-- what may be copied of a string: nothing, or at least one byte and no byte outside of it
pub data IsInside (s : List ℕ) : Part → Type 0 where
  is_nothing : IsInside s Part.nothing
  is_inside :
      (pre bytes post : List ℕ) {k : ℕ}
      → s ≡ pre ++ bytes ++ post
      → length bytes ≡ k
      → 0 < k
      → IsInside s (Part.part bytes (pos k))

length-sub :
    (s : List ℕ) (f m : ℕ)
    → 0 < f
    → f ≤ m
    → m ≤ length s
    → length (take (m + 1 - f) (drop (f - 1) s)) ≡ m + 1 - f
length-sub s f m h k le =
    omega (arith, length-take (m + 1 - f) (drop (f - 1) s), length-drop (f - 1) s)

sub-IsInside : (s : List ℕ) (f m : ℕ) → 0 < f → m ≤ length s → IsInside s (sub s f m)
sub-IsInside s f m h le = elim (Bool-cases (ltb m f)) [
  | inl y ↦ rw y is_nothing
  | inr n ↦ rw n (
      is_inside (take (f - 1) s) (take (m + 1 - f) (drop (f - 1) s))
        (drop (m + 1 - f) (drop (f - 1) s))
        (sym (
          rw
            (
              append_assoc (take (f - 1) s) (take (m + 1 - f) (drop (f - 1) s))
                  (drop (m + 1 - f) (drop (f - 1) s)),
              take-append-drop (m + 1 - f) (drop (f - 1) s),
            )
            (take-append-drop (f - 1) s)))
        (length-sub s f m h (ltb→ge _ _ n) le) (omega (arith, ltb→ge _ _ n)))
]

wrap-cases :
    (l : ℕ)
    → ((m : ℕ) × (wrap (pos l) ≡ pos m) × (m ≤ l) × (m < 2 ^ 31))
      ⊎ ((k : ℕ) × (wrap (pos l) ≡ negsuc k))
wrap-cases l = elim (dec_lt (l % 2 ^ 32) (2 ^ 31)) [
  | yes h ↦ inl (l % 2 ^ 32, ground arith, omega arith, h)
  | no h ↦ inr (2 ^ 32 - 1 - l % 2 ^ 32, ground arith)
]

last_of-cases :
    (l : ℕ) (z : ℤ)
    → l < 2 ^ 63
    → IsInt z
    → ((m : ℕ) × (last_of l z ≡ pos m) × (m ≤ l) × (m < 2 ^ 31))
      ⊎ ((k : ℕ) × (last_of l z ≡ negsuc k))
unfolding last_of to_size
last_of-cases l (pos n) h i = elim (Bool-cases (ltb l n)) [
  | inl y ↦ rw y (wrap-cases l)
  | inr m ↦ rw m (inl (n, refl, ltb→ge _ _ m, i))
]
last_of-cases l (negsuc n) h i =
    let e : ltb l (2 ^ 64 - 1 - n) ≡ true = lt→ltb _ _ (omega (arith, h, i)) in rw e (wrap-cases l)

slice-negative :
    (s : List ℕ) (start end : ℤ) (k : ℕ)
    → last_of (length s) end ≡ negsuc k
    → slice s start end ≡ Part.nothing
unfolding slice
slice-negative s start end k e =
    let b : ltb_ℤ (negsuc k) (pos (from start)) ≡ true = ground arith in
    rw (first_of-from start, e, b) refl

-- For a string of any length that memory can hold, `lsend` copies at least one byte and none from
-- outside of the string, or sends nothing.
pub slice-IsInside :
    (s : List ℕ) (start end : ℤ)
    → length s < 2 ^ 63
    → IsInt start
    → IsInt end
    → IsInside s (slice s start end)
slice-IsInside s start end h i j = elim (last_of-cases (length s) end h j) [
  | inl (m, e, le, lt) ↦
      rw (slice-sub_at s start end m i e le lt)
        (sub-IsInside s (from start) m (from-int start i).0 le)
  | inr (k, e) ↦ rw (slice-negative s start end k e) is_nothing
]
