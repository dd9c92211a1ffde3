-- ===== src/Platform/Windows.antt =====
-- The Windows branch of src/socket_platform.h. The functions of Winsock are parameters.
use lsocket.Prelude.{
  ◌≡◌, ℤ, pos, negsuc, Bool, true, false, ◌&&◌, ◌||◌, not, ◌==◌, if◌then◌else◌, Bool-cases, inl,
  inr, arith,
}
use lsocket.Platform.{World, Sys, is_neg, is_minus_one, is_zero, minus_one, return, ◌>>=◌}

-- WSAEINTR, WSAEWOULDBLOCK and WSAEINPROGRESS
abbrev pub wsaeintr : ℤ
wsaeintr = pos 10004

abbrev pub wsaewouldblock : ℤ
wsaewouldblock = pos 10035

abbrev pub wsaeinprogress : ℤ
wsaeinprogress = pos 10036

abbrev pub is_code : ℤ → ℤ → Bool
is_code (pos m) (pos n) = m == n
is_code (negsuc m) (negsuc n) = m == n
is_code _ _ = false

-- `SECONNECTING`
pub is_connecting : ℤ → Bool
is_connecting e = is_code e wsaewouldblock || is_code e wsaeinprogress

pub socket_closeonexec : ℤ → Sys ℤ
socket_closeonexec fd = return (pos 0)

pub socket_reuseaddr : ℤ → Sys ℤ
socket_reuseaddr fd = return (pos 0)

-- `ioctlsocket(fd, FIONBIO, &nonblocking)`
module _ (ioctlsocket : ℤ → Sys ℤ) where
  pub socket_nonblocking : ℤ → Sys ℤ
  socket_nonblocking fd = do
    r ← ioctlsocket fd
    return (if is_minus_one r then minus_one else pos 0)

-- `WSAGetLastError()`, and `getsockopt` with SO_ERROR: what it returns, and what it writes to `optval`
module _ (last_error : Sys ℤ) (getsockopt : ℤ → Sys (ℤ × ℤ)) where
  pub socket_geterror : ℤ → Sys ℤ
  socket_geterror fd = do
    err ← last_error
    (if is_code err wsaewouldblock && not (is_neg fd)
        then (do
          (r, optval) ← getsockopt fd
          return (if not (is_zero r) then err else if not (is_zero optval) then optval else err))
        else return err)

  -- An error is told as an error, whatever `getsockopt` gives.
  socket_geterror-tells :
      (fd : ℤ) (w : World)
      → is_zero (last_error w).0 ≡ false
      → is_zero (socket_geterror fd w).0 ≡ false
  unfolding socket_geterror
  socket_geterror-tells fd w h =
      let err = (last_error w).0 in
      let (r, optval) = (getsockopt fd (last_error w).1).0 in
      elim (Bool-cases (is_code err wsaewouldblock && not (is_neg fd))) [
        | inr e ↦ rw e h
        | inl e ↦ rw e (elim (Bool-cases (is_zero r)) [
          | inr f ↦ rw f h
          | inl f ↦ rw f (elim (Bool-cases (is_zero optval)) [ inr k ↦ rw k k | inl k ↦ rw k h ])
        ])
      ]

  -- If the last error is WSAEWOULDBLOCK and no error is pending, the connection is being made.
  socket_geterror-is_connecting :
      (fd : ℤ) (w : World)
      → (last_error w).0 ≡ wsaewouldblock
      → is_neg fd ≡ false
      → (getsockopt fd (last_error w).1).0 ≡ (pos 0, pos 0)
      → is_connecting (socket_geterror fd w).0 ≡ true
  unfolding socket_geterror is_connecting
  socket_geterror-is_connecting fd w h f e = rw (h, f, e) (ground arith)
