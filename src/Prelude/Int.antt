-- ===== src/Prelude/Int.antt =====
-- Signed integers over the native numbers, under the library's names (its ℤ stands on the unary ℕ).
-- Sums and orders go through the two parts of an integer, which are numbers that `omega` reads.
use Prim.Native.Nat.{ℕ, suc, ◌+◌, ◌-◌, ◌%◌, ◌^◌, ◌≤◌, ◌<◌}
use mathlib.Core.Path.{◌≡◌, refl}
use mathlib.Core.Logic.{◌⊎◌, inl, inr}
use mathlib.Core.Bool.{Bool}
use native.Mathlib.Omega.{arith}
use lsocket.Prelude.Tests.{ltb, leb, if◌then◌else◌}

-- `negsuc n` is -(n + 1).
pub data ℤ : Type 0 where
  pos : ℕ → ℤ
  negsuc : ℕ → ℤ

abbrev pub pos_part : ℤ → ℕ
pos_part (pos n) = n
pos_part (negsuc n) = 0

abbrev pub neg_part : ℤ → ℕ
neg_part (pos n) = 0
neg_part (negsuc n) = suc n

-- a - b, as an integer.
abbrev pub sub_ℕ : ℕ → ℕ → ℤ
sub_ℕ a b = if leb b a then pos (a - b) else negsuc (b - a - 1)

infixl 65 ◌+ℤ◌ ◌-ℤ◌
infix 50 ◌≤ℤ◌
unfoldable pub ◌+ℤ◌ : ℤ → ℤ → ℤ
a +ℤ b = sub_ℕ (pos_part a + pos_part b) (neg_part a + neg_part b)

unfoldable pub ◌-ℤ◌ : ℤ → ℤ → ℤ
a -ℤ b = sub_ℕ (pos_part a + neg_part b) (neg_part a + pos_part b)

abbrev pub ◌≤ℤ◌ : ℤ → ℤ → Type 0
a ≤ℤ b = pos_part a + neg_part b ≤ pos_part b + neg_part a

abbrev pub ltb_ℤ : ℤ → ℤ → Bool
ltb_ℤ a b = ltb (pos_part a + neg_part b) (pos_part b + neg_part a)

-- One lemma for each operation lets `omega` work with the operations shut, at any depth.
pub +ℤ_parts :
    (a b : ℤ)
    → pos_part (a +ℤ b) + neg_part a + neg_part b ≡ neg_part (a +ℤ b) + pos_part a + pos_part b
unfolding ◌+ℤ◌
+ℤ_parts a b = ground arith

pub -ℤ_parts :
    (a b : ℤ)
    → pos_part (a -ℤ b) + neg_part a + pos_part b ≡ neg_part (a -ℤ b) + pos_part a + neg_part b
unfolding ◌-ℤ◌
-ℤ_parts a b = ground arith

pub eq_of_parts : (a b : ℤ) → pos_part a + neg_part b ≡ pos_part b + neg_part a → a ≡ b
eq_of_parts a b h = ground arith

pub ruleset int_laws = (arith, +ℤ_parts, -ℤ_parts, eq_of_parts)

-- `n` as an unsigned machine word, and a word read as a signed `int` (two's complement).
abbrev pub to_word : ℤ → ℕ
to_word (pos n) = n % 2 ^ 32
to_word (negsuc n) = 2 ^ 32 - 1 - n % 2 ^ 32

abbrev pub wrap : ℤ → ℤ
wrap z = sub_ℕ ((to_word z + 2 ^ 31) % 2 ^ 32) (2 ^ 31)

-- Addition and subtraction of the C type `int`, 32 bits wide, with wrap-around.
unfoldable pub int_add : ℤ → ℤ → ℤ
unfolding ◌+ℤ◌
int_add a b = wrap (a +ℤ b)

unfoldable pub int_sub : ℤ → ℤ → ℤ
unfolding ◌-ℤ◌
int_sub a b = wrap (a -ℤ b)

pub int_add-pos : (a b : ℕ) → a + b < 2 ^ 31 → int_add (pos a) (pos b) ≡ pos (a + b)
unfolding int_add
int_add-pos a b h = ground arith

pub int_sub-pos : (a b : ℕ) → b ≤ a → a < 2 ^ 31 → int_sub (pos a) (pos b) ≡ pos (a - b)
unfolding int_sub
int_sub-pos a b h k = ground arith

pub int_sub-neg : (a b : ℕ) → a < b → b < 2 ^ 31 → int_sub (pos a) (pos b) ≡ negsuc (b - a - 1)
unfolding int_sub
int_sub-neg a b h k = ground arith

pub ltb_ℤ-pos : (a b : ℕ) → ltb_ℤ (pos a) (pos b) ≡ ltb a b
ltb_ℤ-pos a b = ground arith

pub ℤ-cases : (z : ℤ) → ((n : ℕ) × (z ≡ pos n)) ⊎ ((n : ℕ) × (z ≡ negsuc n))
ℤ-cases (pos n) = inl (n, refl)
ℤ-cases (negsuc n) = inr (n, refl)

-- A sum that wraps around is the sum of the words.
pub wrap-small : (n : ℕ) → n < 2 ^ 31 → wrap (pos n) ≡ pos n
wrap-small n h = ground arith

pub int_add-wrap : (a b : ℕ) → int_add (wrap (pos a)) (pos b) ≡ wrap (pos (a + b))
unfolding int_add ◌+ℤ◌
int_add-wrap a b = ground arith

pub int_sub-wrap : (a b : ℕ) → b ≤ a → int_sub (wrap (pos a)) (pos b) ≡ wrap (pos (a - b))
unfolding int_sub ◌-ℤ◌
int_sub-wrap a b h = ground arith
