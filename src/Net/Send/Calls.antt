-- ===== src/Net/Send/Calls.antt =====
-- Sequences of `socket_send` and `socket_sendfd` of src/socket.c on a slot.
use lsocket.Prelude.{
  ℕ, zero, suc, ◌+◌, ◌^◌, ◌<◌, ◌≡◌, refl, ℤ, Bool, true, false, ◌||◌, Option, List, [], ◌∷◌, inl,
  inr, arith, ltb, lt→ltb, Bool-cases, not,
}
use lsocket.Platform.{minus_one}
use lsocket.Net.{Net, M, pure, ◌>>◌, is_halfclose, get_socket, is_invalid}
use lsocket.Net.Good.{IsGood, IsLive, Ends, ends, IsGood-err}
use lsocket.Net.Send.{send_fd_on, send_fd, is_ipc, is_one_byte, past_tmp, send, is_tcp, send_on}

-- a call of `socket_send` or `socket_sendfd`
pub data Sending : Type 0 where
  plain : (bytes : List ℕ) (sz : ℕ) → Sending
  with_fd : (bytes : Option (List ℕ)) (sz : ℕ) (cfd : ℤ) → Sending

-- the number of bytes of a call
abbrev pub size_of_sending : Sending → ℕ
size_of_sending (Sending.plain bytes sz) = sz
size_of_sending (Sending.with_fd bytes sz cfd) = sz

abbrev pub sending : ℕ → Sending → M ℤ
sending id (Sending.plain bytes sz) = send id bytes sz
sending id (Sending.with_fd bytes sz cfd) = send_fd id bytes sz cfd

abbrev pub send_each : ℕ → List Sending → M (Unit {0})
send_each id [] = pure tt
send_each id (c ∷ cs) = do sending id c; send_each id cs

-- more bytes than `_sendfd` has when there is no data
abbrev pub is_past : Sending → Bool
is_past (Sending.plain bytes sz) = false
is_past (Sending.with_fd bytes sz cfd) = past_tmp bytes sz

-- Each call has at least one byte, and just one if there is no data, and with the limit its size fits
-- into an `int`.
abbrev pub AllFit : ℕ → List Sending → Type 0
AllFit lim [] = Unit
AllFit lim (c ∷ cs) =
    (0 < size_of_sending c)
    × ((lim + size_of_sending c < 2 ^ 31) × (is_past c ≡ false))
    × AllFit lim cs

-- the part of a call after its guards
abbrev pub sending_on : ℕ → Sending → M ℤ
sending_on id (Sending.plain bytes sz) = send_on id bytes sz
sending_on id (Sending.with_fd bytes sz cfd) = send_fd_on id bytes sz cfd

-- A call that a guard stops sets no more than the error code.
pub sending-Ends :
    {max : ℕ} {n : Net} {Q : ℤ → Net → Type 0} (id : ℕ) (c : Sending)
    → IsGood max n
    → id < max
    → 0 < size_of_sending c
    → ((e : ℤ) → Q minus_one (record n { err = e }))
    → (IsLive max id n → Ends max Q (sending_on id c n))
    → Ends max Q (sending id c n)
unfolding send send_fd get_socket
sending-Ends id (Sending.plain bytes zero) g b p q k = absurd (omega arith)
sending-Ends {n = n} id (Sending.plain bytes (suc j)) g b p q k =
    let s = n.sockets id in
    let e : ltb id n.max ≡ true = lt→ltb id n.max (rw g.size b) in
    elim (Bool-cases (is_invalid s.status)) [
      | inl z ↦ rw (e, z) (ends (IsGood-err _ g) (q _))
      | inr z ↦ elim (Bool-cases (not (is_tcp s.protocol) || is_halfclose s.status)) [
        | inl y ↦ rw (e, z, y) (ends (IsGood-err _ g) (q _))
        | inr y ↦ rw (e, z, y) (k (record { bound = b; valid = z }))
      ]
    ]
sending-Ends {n = n} id (Sending.with_fd bytes sz cfd) g b p q k =
    let s = n.sockets id in
    let e : ltb id n.max ≡ true = lt→ltb id n.max (rw g.size b) in
    let y : (ltb 0 sz || is_one_byte bytes sz) ≡ true = rw (lt→ltb 0 sz p) refl in
    elim (Bool-cases (is_invalid s.status)) [
      | inl z ↦ rw (y, e, z) (ends (IsGood-err _ g) (q _))
      | inr z ↦ elim (Bool-cases (is_ipc s.protocol)) [
        | inl i ↦ rw (y, e, z, i) (k (record { bound = b; valid = z }))
        | inr i ↦ rw (y, e, z, i) (ends (IsGood-err _ g) (q _))
      ]
    ]

-- each call has at least one byte
abbrev pub AllSome : List Sending → Type 0
AllSome [] = Unit
AllSome (c ∷ cs) = (0 < size_of_sending c) × AllSome cs
