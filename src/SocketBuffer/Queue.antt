-- ===== src/SocketBuffer/Queue.antt =====
-- The calls on a buffer of src/lsocketbuffer.c as events of a queue of bytes, and what goes in and out.
use lsocket.Prelude.{
  ℕ, suc, ◌+◌, ◌≡◌, refl, sym, ap, ◌∙◌, ℤ, pos, Option, none, some, List, [], ◌∷◌, ◌++◌,
  append_assoc, append-nil, arith, length, take, drop, leb, Bool-cases, inl, inr, take-append-drop,
  ◌==◌,
}
use mathlib.Core.Option
use mathlib.Core.Path.{subst}
use lsocket.SocketBuffer.Spec
use lsocket.SocketBuffer.Spec.{index_of}
use lsocket.SocketBuffer.RoundTrip.{bytes_of}

-- What is seen of a call: its arguments and what it returns.
pub data Event : Type 0 where
  pushed : (bytes : List ℕ) (size : ℤ) → Event
  popped : (n : ℕ) (v : Option (List ℕ)) → Event
  cut : (x : ℕ) (v : Option (List ℕ)) → Event
  emptied : (v : Option (List ℕ)) → Event

-- The queue: what it holds after an event, and that the event has its result.
pub data Does : List ℕ → Event → List ℕ → Type 0 where
  does_push : {xs ys : List ℕ} → Does xs (Event.pushed ys (pos (length (xs ++ ys)))) (xs ++ ys)
  does_read_n :
      {xs : List ℕ} (n : ℕ) → Does xs (Event.popped n (Spec.read_n xs n).1) (Spec.read_n xs n).0
  does_read_byte :
      {xs : List ℕ} (x : ℕ) → Does xs (Event.cut x (Spec.read_byte xs x).1) (Spec.read_byte xs x).0
  does_read_all : {xs : List ℕ} → Does xs (Event.emptied (Spec.read_all xs).1) (Spec.read_all xs).0

pub data DoesAll : List ℕ → List Event → List ℕ → Type 0 where
  does_none : {xs : List ℕ} → DoesAll xs [] xs
  does_more :
      {xs ys zs : List ℕ} {e : Event} {es : List Event}
      → Does xs e ys
      → DoesAll ys es zs
      → DoesAll xs (e ∷ es) zs

pub some-injective : {A : Type 0} {a b : A} → some a ≡ some b → a ≡ b
some-injective {a = a} e = ap (λ o. elim o [ none ↦ a | some x ↦ x ]) e

-- the bytes that an event puts in, and those that it takes out, a separator with them
abbrev pub put_in : Event → List ℕ
put_in (Event.pushed ys size) = ys
put_in (Event.popped n v) = []
put_in (Event.cut x v) = []
put_in (Event.emptied v) = []

abbrev pub taken_out : Event → List ℕ
taken_out (Event.pushed ys size) = []
taken_out (Event.popped n v) = bytes_of v
taken_out (Event.cut x none) = []
taken_out (Event.cut x (some ys)) = ys ++ x ∷ []
taken_out (Event.emptied v) = bytes_of v

abbrev pub all_in : List Event → List ℕ
all_in [] = []
all_in (e ∷ es) = put_in e ++ all_in es

abbrev pub all_out : List Event → List ℕ
all_out [] = []
all_out (e ∷ es) = taken_out e ++ all_out es

read_n-balance :
    (xs : List ℕ) (n : ℕ) → xs ++ [] ≡ bytes_of (Spec.read_n xs n).1 ++ (Spec.read_n xs n).0
unfolding Spec.read_n
read_n-balance xs n = elim (Bool-cases (leb n (length xs))) [
  | inl y ↦ rw y (append-nil xs ∙ sym (take-append-drop n xs))
  | inr m ↦ rw m (append-nil xs)
]

-- the bytes around the byte at position `i`
abbrev Around : ℕ → List ℕ → ℕ → Type 0
Around x xs i = xs ≡ (take i xs ++ x ∷ []) ++ drop (i + 1) xs

Around-next : (x y : ℕ) (ys : List ℕ) (j : ℕ) → Around x ys j → Around x (y ∷ ys) (suc j)
Around-next x y ys j h =
    let k : suc (j + 1) ≡ suc j + 1 = omega arith in
    ap (λ t. y ∷ t) h ∙ ap (λ m. (y ∷ take j ys ++ x ∷ []) ++ drop m (y ∷ ys)) k

index_of-Around : (x : ℕ) (xs : List ℕ) (i : ℕ) → index_of x xs ≡ some i → Around x xs i
unfolding index_of
index_of-Around x [] i e = absurd (ground (arith, e))
index_of-Around x (y ∷ ys) i e = elim (Bool-cases (y == x)) [
  | inl t ↦
      let z : index_of x (y ∷ ys) ≡ some 0 = rw t refl in
      let at_zero : Around x (y ∷ ys) 0 = ap (λ w. w ∷ ys) (ground (arith, t)) in
      subst (Around x (y ∷ ys)) (some-injective (sym z ∙ e)) at_zero
  | inr f ↦
      let z : index_of x (y ∷ ys) ≡ Option.map (λ j. j + 1) (index_of x ys) = rw f refl in
      later (λ j q. index_of-Around x ys j q) (index_of x ys) refl (sym z ∙ e)
]
  where
    later :
        ((j : ℕ) → index_of x ys ≡ some j → Around x ys j)
        → (o : Option ℕ) → index_of x ys ≡ o
        → Option.map (λ j. j + 1) o ≡ some i
        → Around x (y ∷ ys) i
    later ih none q w = absurd (ground (arith, w))
    later ih (some j) q w =
        let k : suc j ≡ j + 1 = omega arith in
        subst (Around x (y ∷ ys)) (k ∙ some-injective w) (Around-next x y ys j (ih j q))

read_byte-balance :
    (xs : List ℕ) (x : ℕ)
    → xs ++ [] ≡ taken_out (Event.cut x (Spec.read_byte xs x).1) ++ (Spec.read_byte xs x).0
unfolding Spec.read_byte
read_byte-balance xs x = at (index_of x xs) refl
  where
    at :
        (o : Option ℕ)
        → index_of x xs ≡ o
        → let r : Spec.Reply = elim o [
          | none ↦ (xs, none)
          | some i ↦ (drop (i + 1) xs, some (take i xs))
        ] in
          xs ++ [] ≡ taken_out (Event.cut x r.1) ++ r.0
    at none q = append-nil xs
    at (some i) q = append-nil xs ∙ index_of-Around x xs i q

read_all-balance : (xs : List ℕ) → xs ++ [] ≡ bytes_of (Spec.read_all xs).1 ++ (Spec.read_all xs).0
unfolding Spec.read_all
read_all-balance [] = refl
read_all-balance (x ∷ xs) = refl

Does-balance : {xs ys : List ℕ} {e : Event} → Does xs e ys → xs ++ put_in e ≡ taken_out e ++ ys
Does-balance does_push = refl
Does-balance {xs} (does_read_n n) = read_n-balance xs n
Does-balance {xs} (does_read_byte x) = read_byte-balance xs x
Does-balance {xs} does_read_all = read_all-balance xs

pub DoesAll-balance :
    {xs zs : List ℕ} {es : List Event} → DoesAll xs es zs → xs ++ all_in es ≡ all_out es ++ zs
DoesAll-balance {xs} does_none = append-nil xs
DoesAll-balance {xs} {zs} (does_more {ys = ys} {e = e} {es = es} d ds) =
    sym (append_assoc xs (put_in e) (all_in es))
    ∙ ap (λ t. t ++ all_in es) (Does-balance d)
    ∙ append_assoc (taken_out e) ys (all_in es)
    ∙ ap (λ t. taken_out e ++ t) (DoesAll-balance ds)
    ∙ sym (append_assoc (taken_out e) (all_out es) zs)
