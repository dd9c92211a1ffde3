-- ===== src/SocketBuffer/Read/Detach.antt =====
-- `ldetach`: the block that it returns, and what its `freebuffer` leaves of the chain.
use mathlib.Core.Path.{ap₂}
use lsocket.Prelude.{
  ℕ, ◌+◌, ◌-◌, ◌^◌, ◌<◌, ◌≡◌, ◌≢◌, refl, sym, ap, ◌∙◌, pos, negsuc, pos_part, int_sub, some, List,
  [], ◌∷◌, ◌++◌, append-nil, true, arith, drop, ltb_ℤ, lt→ltb, ==_true, ==_false, drop-nil,
  int_add-pos, int_sub-pos, int_sub-neg, ltb_ℤ-pos, drop-append_le,
}
use lsocket.SocketBuffer.{BufferNode, SocketBuffer, free_upto, free_buffer}
use lsocket.SocketBuffer.Read.{is_zero, copy_chain, detach}
use lsocket.SocketBuffer.Inv.{bytes, flat, total, IsSound, HasRoom, length-bytes}
use lsocket.SocketBuffer.Consume.{room_zero, slice_lem}

copy_chain-flat :
    (cs : List BufferNode) (o diff size : ℕ)
    → IsSound cs
    → HasRoom o cs
    → diff + (total cs - o) ≡ size
    → diff + total cs < 2 ^ 31
    → copy_chain cs o (pos size) (pos diff) ≡ some (drop o (flat cs), pos size)
unfolding copy_chain
copy_chain-flat [] o diff size s h e f =
    ap₂ (λ xs n. some (xs, pos n)) (sym (drop-nil ℕ o)) (omega arith)
copy_chain-flat (c ∷ cs) o diff size s h e f = rw (
  ltb_ℤ-pos,
  lt→ltb diff size (omega arith),
  slice_lem c o c.sz (omega arith) s.1,
  int_sub-pos c.sz o (omega arith) (omega arith),
  int_add-pos diff (c.sz - o) (omega arith),
  copy_chain-flat cs 0 (diff + (c.sz - o)) size s.2 (room_zero cs s.2) (omega arith) (omega arith),
  drop-append_le o (bytes c) (flat cs) (omega (arith, length-bytes c s.1)),
)

abbrev Ends : SocketBuffer → Type 0
Ends _ = Unit

is_zero_self : (n : ℕ) → n < 2 ^ 31 → is_zero (int_sub (pos n) (pos n)) ≡ true
is_zero_self n h =
    let e : n - n ≡ 0 = omega arith in
    rw (int_sub-pos n n (omega arith) h) (ap (λ k. is_zero (pos k)) e)

detach_lem :
    (sb left : SocketBuffer) (n : ℕ) (block : List ℕ)
    → sb.size ≡ pos n
    → 0 < n
    → n < 2 ^ 31
    → copy_chain sb.head sb.offset sb.size (pos 0) ≡ some (block, pos n)
    → free_buffer sb sb.tail n ≡ some left
    → detach sb ≡ some (left, some (block, pos n))
unfolding detach
detach_lem sb left n block z h f copied freed =
    rw
      (
        ap (λ k. ltb_ℤ (pos 0) k) z ∙ ltb_ℤ-pos 0 n ∙ lt→ltb 0 n h,
        copied,
        ap (λ k. is_zero (int_sub (pos n) k)) z ∙ is_zero_self n f,
        ap (λ k. free_buffer sb sb.tail (pos_part k)) z ∙ freed,
      )
      (ap (λ k. some (left, some (block, k))) z)

module _ (c d : BufferNode) (freed : List ℕ) (s : IsSound (c ∷ d ∷ [])) (ne : c.addr ≢ d.addr)
    (fits : c.sz + d.sz < 2 ^ 31) where
  abbrev pub two_chunks : SocketBuffer
  two_chunks = record {
    size = pos (c.sz + d.sz);
    offset = 0;
    head = c ∷ d ∷ [];
    tail = d.addr;
    freed = freed;
  }

  free_buffer-two_chunks :
      free_buffer two_chunks d.addr (c.sz + d.sz)
      ≡ some (record two_chunks {
        size = negsuc (c.sz - 1);
        offset = c.sz + d.sz;
        head = d ∷ [];
        freed = freed ++ c.addr ∷ [];
      })
  unfolding free_buffer free_upto
  free_buffer-two_chunks =
      let short : d.sz ≢ c.sz + d.sz = omega (arith, s.0) in
      let x : c.sz + d.sz + 0 - c.sz ≡ d.sz = omega arith in
      let y : c.sz + d.sz - d.sz - 1 ≡ c.sz - 1 = omega arith in
      rw (
        ==_false ne,
        ==_true {a = d.addr} refl,
        ==_false short,
        int_add-pos (c.sz + d.sz) 0 (omega arith),
        int_sub-pos (c.sz + d.sz + 0) c.sz (omega arith) (omega arith),
        x,
        int_sub-neg d.sz (c.sz + d.sz) (omega (arith, s.0)) fits,
        y,
      )

  -- On a buffer of two chunks with nothing read, `ldetach` returns the right block, but the last
  -- chunk stays in the buffer, and the `size` field is negative.
  pub detach-two_chunks :
      detach two_chunks
      ≡ some (
        record two_chunks {
          size = negsuc (c.sz - 1);
          offset = c.sz + d.sz;
          head = d ∷ [];
          freed = freed ++ c.addr ∷ [];
        },
        some (bytes c ++ bytes d, pos (c.sz + d.sz)),
      )
  detach-two_chunks =
      let copied : copy_chain two_chunks.head 0 two_chunks.size (pos 0)
          ≡ some (bytes c ++ (bytes d ++ []), pos (c.sz + d.sz)) =
        copy_chain-flat (c ∷ d ∷ []) 0 0 (c.sz + d.sz) s s.0 (omega arith) (omega arith) in
      rw (← append-nil (bytes d)) (
        detach_lem two_chunks _ (c.sz + d.sz) _ refl (omega (arith, s.0)) fits copied
          free_buffer-two_chunks)
