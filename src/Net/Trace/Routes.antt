-- ===== src/Net/Trace/Routes.antt =====
-- The life of every slot in a program of calls of src/socket.c.
use lsocket.Prelude.{true, ◌≡◌, arith, ℕ, ℤ, List, [], ◌∷◌}
use lsocket.Platform.{World}
use lsocket.Platform.Sane.{AllSane}
use lsocket.Net.{Net, Socket, Status, size_of, net_create, alloc_sockets}
use lsocket.Net.Good
use lsocket.Net.Good.{IsGood, Ends, ends}
use lsocket.Net.Create.{net_create-IsGood}
use lsocket.Net.Exact.{AreInside}
use lsocket.Net.Life.{is_trusted, Way, Goes, IsPending}
use lsocket.Net.Trace.{Request, AreProper, actor_of, serve_all, serve-Lives}

-- In each call the status of a slot goes along edges that the call may take.
pub data Route : List Request → Status → Status → Type 0 where
  done : {s : Status} → Route [] s s
  call :
      {r : Request} {rs : List Request} {s t u : Status}
      → Way (actor_of r) s t
      → Route rs t u
      → Route (r ∷ rs) s u

-- Each call that sends has as many bytes as it says.
abbrev pub AreTrusted : List Request → Type 0
AreTrusted [] = Unit
AreTrusted (r ∷ rs) = (is_trusted (actor_of r) ≡ true) × AreTrusted rs

-- The slots `f` turned into the slots `g` in the calls.
abbrev pub Follow : List Request → (f g : ℕ → Socket) → Type 0
Follow rs f g =
    (i : ℕ)
    → Route rs (f i).status (g i).status
      × (IsPending (f i) → IsPending (g i))
      × (AreTrusted rs → AreInside (f i).head → AreInside (g i).head)

served :
    {r : Request} {rs : List Request} {f g : ℕ → Socket} (h : ℕ → Socket)
    → Goes (actor_of r) f g
    → Follow rs g h
    → Follow (r ∷ rs) f h
served h p q i =
    let (w, d, a) = p.turns i in
    let (v, e, b) = q i in (Route.call w v, λ k. e (d k), λ t k. b t.1 (a t.0 k))

pub serve_all-Follow :
    {max : ℕ} (rs : List Request) {n : Net}
    → AreProper max rs
    → IsGood max n
    → Ends max (λ a m. Follow rs n.sockets m.sockets) (serve_all rs n)
unfolding serve_all
serve_all-Follow [] p g = ends g (λ i. (Route.done, λ h. h, λ t h. h))
serve_all-Follow (r ∷ rs) p g =
    Good.bind (serve-Lives r p.0 g)
      λ a m gm q. Good.weaken (serve_all-Follow rs p.1 gm) λ b k f. served k.sockets q.1 f

-- Any proper calls in any order on a pool that `net_create` made end, under any kernel that keeps its
-- promises, and in them the status of every slot follows the life of a slot, call by call: it is
-- opened by `bind`, `listen`, `connect` or an accept of `poll` only, becomes connected, where a
-- connection is being made, by `poll` only, is half closed by a call of the caller only, and once it
-- is half closed is only closed, by the caller or by `poll`; `bind`, `listen` and `connect` close no
-- finished socket. In the end each slot that is half closed has data to send.
pub serve_all-Route :
    (max : ℤ) (os : World) (junk : ℕ → Socket) (rs : List Request)
    → AllSane (size_of max) os.answers
    → AreProper (size_of max) rs
    → Ends
        (size_of max)
        (λ a m. (i : ℕ) → Route rs Status.invalid (m.sockets i).status × IsPending (m.sockets i))
        (serve_all rs (net_create max os junk))
unfolding net_create alloc_sockets
serve_all-Route max os junk rs h p =
    Good.weaken (serve_all-Follow rs p (net_create-IsGood max os junk h))
      λ a m f i. let (w, d, b) = f i in (w, d (λ e. absurd (ground (arith, e))))
