-- ===== src/Net/State.antt =====
-- The state of src/socket.c, `struct net`, and the operations on it as functions from states. A failed
-- `assert` is `none`.
use lsocket.Prelude.{
  ℕ, ◌-◌, ◌^◌, ℤ, pos, Bool, true, false, not, ◌&&◌, ◌||◌, Option, none, some, List, [], ◌∷◌, ◌==◌,
  if◌then◌else◌,
}
use lsocket.Platform.{Mask, World, Sys}

-- LS_PROTOCOL_ codes
pub data Protocol : Type 0 where
  tcp udp ipc : Protocol

-- STATUS_ codes
pub data Status : Type 0 where
  invalid listening connecting connected halfclose suspend bind : Status

-- `struct sbuffer`: `ptr` is an offset into the memory `begin`.
pub record Sbuffer : Type 0 where
  pub sz : ℕ
  pub fd : ℤ
  pub begin : List ℕ
  pub ptr : ℕ

-- `struct socket`
pub record Socket : Type 0 where
  pub fd : ℤ
  pub protocol : Protocol
  pub status : Status
  pub mask : Mask
  pub udata : ℤ
  pub head : List Sbuffer
  pub sbuffersz : ℤ
  pub rbuffersz : ℤ
  pub slimit : ℤ
  pub rlimit : ℤ

-- `struct net`, with the kernel's answers and log in `os`
pub record Net : Type 0 where
  pub os : World
  pub max : ℕ
  pub err : ℤ
  pub sockets : ℕ → Socket
  pub free_socket : Option ℕ
  pub tail_socket : Option ℕ

-- An operation on the state; `none` is a failed `assert`.
abbrev pub M : Type 0 → Type 0
M A = Net → Option (A × Net)

abbrev pub pure : {A : Type 0} → A → M A
pure a n = some (a, n)

abbrev pub and_then : {A B : Type 0} → Option (A × Net) → (A → M B) → Option (B × Net)
and_then none f = none
and_then (some (a, n)) f = f a n

infixl 5 ◌>>=◌ ◌>>◌
abbrev pub ◌>>=◌ : {A B : Type 0} → M A → (A → M B) → M B
m >>= f = λ n. and_then (m n) f

abbrev pub ◌>>◌ : {A B : Type 0} → M A → M B → M B
m >> k = m >>= λ _. k

-- A result that is a pointer to a socket, or NULL.
abbrev pub case_of : {A : Type 0} → M A → (ℕ → M A) → Option ℕ → M A
case_of null f none = null
case_of null f (some i) = f i

abbrev pub call : {A : Type 0} → Sys A → M A
call m n = let (a, w) = m n.os in some (a, record n { os = w })

abbrev pub put : (ℕ → Socket) → ℕ → Socket → ℕ → Socket
put f i s j = if i == j then s else f j

-- `*s`, an assignment to its fields, and an assignment to `self->err`
abbrev pub load : ℕ → M Socket
load i n = some (n.sockets i, n)

abbrev pub store : ℕ → Socket → M (Unit {0})
store i s n = some (tt, record n { sockets = put n.sockets i s })

abbrev pub set_err : ℤ → M (Unit {0})
set_err e n = some (tt, record n { err = e })

abbrev pub no_mask : Mask
no_mask = record { rable = false; wable = false }

abbrev pub is_empty : Mask → Bool
is_empty m = not (m.rable || m.wable)

abbrev pub same_bit : Bool → Bool → Bool
same_bit true b = b
same_bit false b = not b

abbrev pub same_mask : Mask → Mask → Bool
same_mask a b = same_bit a.rable b.rable && same_bit a.wable b.wable

abbrev pub is_invalid : Status → Bool
is_invalid Status.invalid = true
is_invalid _ = false

abbrev pub is_halfclose : Status → Bool
is_halfclose Status.halfclose = true
is_halfclose _ = false

abbrev pub is_nil : List Sbuffer → Bool
is_nil [] = true
is_nil (b ∷ bs) = false

abbrev pub int_max : ℤ
int_max = pos (2 ^ 31 - 1)

-- RBUFFER_SZ
abbrev pub rbuffer_sz : ℤ
rbuffer_sz = pos 64
