-- ===== src/Net/Poll/Reports.antt =====
-- What `socket_poll` of src/socket.c reports.
use lsocket.Prelude.{arith, ◌++◌, length, length-append, ◌≤◌, ℕ, suc, ◌<◌, List, [], ◌∷◌}
use lsocket.Net.{Net}
use lsocket.Net.Poll.{SocketEvent}

-- at most `k` events, each of a slot of the pool
abbrev pub IdsBelow : ℕ → List SocketEvent → Type 0
IdsBelow max [] = Unit
IdsBelow max (e ∷ es) = (e.id < max) × IdsBelow max es

pub record AtMost (k max : ℕ) (es : List SocketEvent) : Type 0 where
  pub count_lem : length es ≤ k
  pub ids_lem : IdsBelow max es

abbrev pub Reports : ℕ → ℕ → List SocketEvent → Net → Type 0
Reports k max es n = AtMost k max es

pub none_yet : {k max : ℕ} → AtMost k max []
none_yet = record { count_lem = omega arith; ids_lem = tt }

pub just : {max : ℕ} (e : SocketEvent) → e.id < max → AtMost 1 max (e ∷ [])
just e h = record { count_lem = omega arith; ids_lem = (h, tt) }

IdsBelow-append :
    (max : ℕ) (xs ys : List SocketEvent)
    → IdsBelow max xs
    → IdsBelow max ys
    → IdsBelow max (xs ++ ys)
IdsBelow-append max [] ys h k = k
IdsBelow-append max (x ∷ xs) ys h k = (h.0, IdsBelow-append max xs ys h.1 k)

pub AtMost-append :
    {k max : ℕ} (xs ys : List SocketEvent)
    → AtMost 1 max xs
    → AtMost k max ys
    → AtMost (suc k) max (xs ++ ys)
AtMost-append {max = max} xs ys p q = record {
  count_lem = omega (arith, length-append {0} xs ys, p.count_lem, q.count_lem);
  ids_lem = IdsBelow-append max xs ys p.ids_lem q.ids_lem;
}
