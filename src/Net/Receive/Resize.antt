-- ===== src/Net/Receive/Resize.antt =====
-- The size of the read buffer in `_read` of src/socket.c.
use lsocket.Prelude.{
  ℕ, ◌+◌, ◌/◌, ◌^◌, ◌≤◌, ◌<◌, ◌≡◌, pos, int_add-pos, arith, ltb, ◌==◌, if◌then◌else◌,
}
use lsocket.Net.{Socket}
use lsocket.Net.Receive.{resize}

-- the next size, after a read of `n` bytes into a buffer of `m`
abbrev pub next_size : (n m : ℕ) → ℕ
next_size n m = if n == m then m + m else if ltb 64 m then m / 2 else m

module _ (s : Socket) (n m : ℕ) (z : s.rlimit ≡ pos 0) (e : s.rbuffersz ≡ pos m) (le : n ≤ m)
    (fits : m < 2 ^ 30) where
  -- Without a limit, and for a read of at most `m` bytes into a buffer of `m` bytes, less than 2^30:
  -- the buffer doubles when the read fills it, and is halved by every other read while it is larger
  -- than 64 bytes, however much was read.
  pub resize-next_size : (resize s n).rbuffersz ≡ pos (next_size n m)
  unfolding resize
  resize-next_size = ground (arith, z, e, int_add-pos m m (omega arith))
