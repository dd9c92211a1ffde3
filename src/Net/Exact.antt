-- ===== src/Net/Exact.antt =====
-- What holds of each slot of the pool of src/socket.c: its counter `sbuffersz`, and its queue.
use lsocket.Prelude.{
  length, ◌≤◌, ℕ, ◌+◌, ◌≡◌, ap, ◌∙◌, sym, pos, wrap, int_add, int_add-wrap, true, List, [], ◌∷◌,
  ◌++◌, arith,
}
use lsocket.Net.{Socket, Sbuffer, is_invalid}

-- the number of bytes in a queue
abbrev pub load : List Sbuffer → ℕ
load [] = 0
load (b ∷ bs) = b.sz + load bs

-- The counter is the number of bytes in the queue, as an `int` that wraps around.
abbrev pub IsExact : Socket → Type 0
IsExact s = s.sbuffersz ≡ wrap (pos (load s.head))

-- A slot that is not in use holds no buffer.
abbrev pub IsEmpty : Socket → Type 0
IsEmpty s = is_invalid s.status ≡ true → s.head ≡ []

-- The part of a buffer that is still to be sent is inside the buffer.
abbrev pub IsInside : Sbuffer → Type 0
IsInside b = b.ptr + b.sz ≤ length b.begin

-- so are those of a queue
abbrev pub AreInside : List Sbuffer → Type 0
AreInside [] = Unit
AreInside (b ∷ bs) = IsInside b × AreInside bs

pub AreInside-snoc :
    (q : List Sbuffer) (b : Sbuffer) → AreInside q → IsInside b → AreInside (q ++ b ∷ [])
AreInside-snoc [] b h i = (i, tt)
AreInside-snoc (c ∷ q) b h i = (h.0, AreInside-snoc q b h.1 i)

pub load-snoc : (q : List Sbuffer) (b : Sbuffer) → load (q ++ b ∷ []) ≡ load q + b.sz
load-snoc [] b = omega arith
load-snoc (c ∷ q) b = omega (arith, load-snoc q b)

-- the slot after a buffer was added to its queue
abbrev pub queued : Sbuffer → Socket → Socket
queued b s = record s { sbuffersz = int_add s.sbuffersz (pos b.sz); head = s.head ++ b ∷ [] }

pub queued-IsExact : (b : Sbuffer) (s : Socket) → IsExact s → IsExact (queued b s)
queued-IsExact b s h =
    ap (λ z. int_add z (pos b.sz)) h
    ∙ int_add-wrap (load s.head) b.sz
    ∙ ap (λ k. wrap (pos k)) (sym (load-snoc s.head b))
