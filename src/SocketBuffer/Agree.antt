-- ===== src/SocketBuffer/Agree.antt =====
-- How a reader of src/lsocketbuffer.c agrees with one of the abstract queue.
use lsocket.Prelude.{ℕ, ◌-◌, ◌≡◌, List, Option, ◌++◌, arith, length, length-drop}
use lsocket.SocketBuffer.{SocketBuffer}
use lsocket.SocketBuffer.Inv.{flat, contents, total, addrs, IsValid, length-flat}
use lsocket.SocketBuffer.Consume.{Took}
use lsocket.SocketBuffer.Spec

-- What every reader keeps: the invariant, and that each node is either in the chain or was freed,
-- once and in order.
pub record Keeps (sb sb' : SocketBuffer) : Type 0 where
  pub valid : IsValid sb'
  pub log : sb'.freed ++ addrs sb'.head ≡ sb.freed ++ addrs sb.head

-- A reader of the code agrees with a reader of the abstract queue.
abbrev pub Agrees : SocketBuffer → Spec.Reply → SocketBuffer × Option (List ℕ) → Type 0
Agrees sb r (sb', v) = Keeps sb sb' × (◌≡◌ {A = Spec.Reply} (contents sb', v) r)

pub Took-Keeps : {sb : SocketBuffer} {m node end : ℕ} (t : Took sb m node end) → Keeps sb t.left
Took-Keeps t = record { valid = t.valid; log = t.log }

-- the number of bytes held
abbrev pub held : SocketBuffer → ℕ
held sb = length (contents sb)

pub held-eq : (sb : SocketBuffer) → IsValid sb → held sb ≡ total sb.head - sb.offset
held-eq sb v = omega (arith, length-drop {0} sb.offset (flat sb.head), length-flat sb.head v.sound)
