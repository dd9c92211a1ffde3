-- ===== src/Platform/Honest.antt =====
-- Kernels that take no more bytes than they are offered.
use lsocket.Prelude.{ℕ, ◌≤◌, ℤ, pos, negsuc, List, [], ◌∷◌, length}
use lsocket.Platform.{Answer, Call}

abbrev pub AtMost : ℤ → ℕ → Type 0
AtMost (pos n) m = n ≤ m
AtMost (negsuc n) m = Unit

-- A call that sends takes at most the bytes that it was offered.
abbrev pub IsHonestCall : Call → ℤ → Type 0
IsHonestCall (Call.write fd bytes) ret = AtMost ret (length bytes)
IsHonestCall (Call.sendmsg fd bytes cfd) ret = AtMost ret (length bytes)
IsHonestCall _ ret = Unit

-- so does every call of a log
abbrev pub IsHonest : List (Call × Answer) → Type 0
IsHonest [] = Unit
IsHonest ((c, a) ∷ log) = IsHonestCall c a.ret × IsHonest log
