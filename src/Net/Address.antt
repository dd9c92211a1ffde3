-- ===== src/Net/Address.antt =====
-- `socket_address` and `socket_error` of src/socket.c, with its table STRERROR.
use Prim.Native.String.{String}
use lsocket.Prelude.{
  ℕ, zero, suc, ◌+◌, ◌*◌, ◌<◌, ◌≤◌, ◌≡◌, refl, ℤ, pos, negsuc, int_sub, ◌^◌, Option, none, some,
  List, [], ◌∷◌, get_elem?, get_or, length, take, arith, ltb, if◌then◌else◌, Bool-cases, inl, inr,
  sym, ap, ltb→lt, ltb→ge, dec_lt, ◌-◌, ◌∙◌,
}
use lsocket.Platform.{Call, sys}
use lsocket.Platform.Sane.{sys-KeepsSane}
use lsocket.Net.Good.{called, IsGood, Ends, ends, Any}
use lsocket.Net.Good.Slots.{with_socket}
use lsocket.Net.{Net, M, pure, ◌>>=◌, call, load, get_socket, case_of, is_zero_ret}

-- `struct socket_addr`: the text of the address, and the port
pub record SocketAddr : Type 0 where
  pub ip : List ℕ
  pub port : ℕ

-- The two bytes of `sin_port`, the most significant one first (`ntohs`). They are the first two that
-- `getpeername` wrote, and `sin_addr` is the four that follow.
pub ntohs : List ℕ → ℕ
ntohs (hi ∷ lo ∷ rest) = hi * 256 + lo
ntohs _ = 0

pub sin_addr : List ℕ → List ℕ
sin_addr (hi ∷ lo ∷ rest) = take 4 rest
sin_addr _ = []

-- `socket_address`; `ntop` is `inet_ntop`. `none` is the return value 1.
pub address : (ntop : List ℕ → List ℕ) → ℕ → M (Option SocketAddr)
address ntop id =
    get_socket id
    >>= case_of (pure none) λ i. do
      s ← load i
      a ← call (sys (Call.getpeername s.fd))
      pure (
          if is_zero_ret a.ret
          then some (record { ip = ntop (sin_addr a.buf); port = ntohs a.buf })
          else none)

-- STRERROR
pub strerror_table : List String
strerror_table =
    "" ∷ "net error end of file" ∷ "net error msg" ∷ "net error no socket"
    ∷ "net error create socket" ∷ "net error write buffer over" ∷ "net error no buffer"
    ∷ "net error listen" ∷ "net error connect" ∷ "net connecting" ∷ "ipc trunc"
    ∷ "recvmsg control type error" ∷ "net error status" ∷ []

-- The index that `socket_error` reads of STRERROR, from `-err`; `-INT_MIN` is negative.
pub message_index : ℤ → ℕ
message_index (negsuc n) = 0
message_index (pos n) = if ltb n (length strerror_table) then n else 0

-- `socket_error`; a read outside of the table is `none`. `strerror` is the C library's.
pub socket_error : (strerror : ℕ → String) → ℤ → Option String
socket_error strerror (pos (suc e)) = some (strerror (suc e))
socket_error strerror (pos zero) = get_elem? strerror_table (message_index (pos 0))
socket_error strerror (negsuc k) =
    get_elem? strerror_table (message_index (int_sub (pos 0) (negsuc k)))

get_elem?-get_or :
    {A : Type 0} (xs : List A) (i : ℕ) (d : A)
    → i < length xs
    → get_elem? xs i ≡ some (get_or xs i d)
get_elem?-get_or [] i d h = absurd (omega arith)
get_elem?-get_or (x ∷ xs) zero d h = refl
get_elem?-get_or (x ∷ xs) (suc i) d h = get_elem?-get_or xs i d (omega arith)

get_or-past : {A : Type 0} (xs : List A) (i : ℕ) (d : A) → length xs ≤ i → get_or xs i d ≡ d
get_or-past [] i d h = refl
get_or-past (x ∷ xs) zero d h = absurd (omega arith)
get_or-past (x ∷ xs) (suc i) d h = get_or-past xs i d (omega arith)

message-cases :
    (n : ℕ) → get_elem? strerror_table (message_index (pos n)) ≡ some (get_or strerror_table n "")
unfolding message_index strerror_table
message-cases n = elim (Bool-cases (ltb n (length strerror_table))) [
  | inl y ↦ rw y (get_elem?-get_or strerror_table n "" (ltb→lt _ _ y))
  | inr m ↦ rw m (ap some (sym (get_or-past strerror_table n "" (ltb→ge _ _ m))))
]

length-strerror_table : length strerror_table ≡ 13
unfolding strerror_table
length-strerror_table = refl

negated : (k : ℕ) → suc k < 2 ^ 31 → int_sub (pos 0) (negsuc k) ≡ pos (suc k)
unfolding int_sub
negated k h = ground arith

-- `-INT_MIN` is INT_MIN again.
negated_min : int_sub (pos 0) (negsuc (2 ^ 31 - 1)) ≡ negsuc (2 ^ 31 - 1)
unfolding int_sub
negated_min = refl

-- `socket_error` of any negative `int`, the least one included, reads inside its table: it gives
-- the message with that number, and the empty message to a number that has none.
pub socket_error-in_table :
    (strerror : ℕ → String) (k : ℕ)
    → k < 2 ^ 31
    → socket_error strerror (negsuc k) ≡ some (get_or strerror_table (suc k) "")
unfolding socket_error strerror_table message_index
socket_error-in_table strerror k h = elim (dec_lt (suc k) (2 ^ 31)) [
  | yes lt ↦ rw (negated k lt) (message-cases (suc k))
  | no ge ↦
      let e : k ≡ 2 ^ 31 - 1 = omega arith in
      rw (e, negated_min)
        (message-cases 0
          ∙ ap some (
              sym
                (get_or-past strerror_table (2 ^ 31) "" (rw length-strerror_table (omega arith)))))
]

-- `socket_error` always reads inside its table.
pub socket_error-some :
    (strerror : ℕ → String) (err : ℤ) → (m : String) × (socket_error strerror err ≡ some m)
unfolding socket_error message_index strerror_table
socket_error-some strerror (pos (suc e)) = (_, refl)
socket_error-some strerror (pos zero) = (_, message-cases 0)
socket_error-some strerror (negsuc k) = at (int_sub (pos 0) (negsuc k))
  where
    at : (z : ℤ) → (m : String) × (get_elem? strerror_table (message_index z) ≡ some m)
    at (pos n) = (_, message-cases n)
    at (negsuc n) = (_, message-cases 0)

-- `socket_address` keeps the state good.
pub address-Ends :
    {max : ℕ} {n : Net} (ntop : List ℕ → List ℕ) (id : ℕ)
    → IsGood max n
    → id < max
    → Ends max Any (address ntop id n)
unfolding address
address-Ends ntop id g b =
    with_socket _ _ id g b (λ m. tt)
      λ i m gm l.
        let c = Call.getpeername (m.sockets i).fd in ends (called (sys c) (sys-KeepsSane _ c) gm) tt
