-- ===== src/SocketBuffer/Read/Tests.antt =====
-- Runs of the buffer of src/lsocketbuffer.c on small chains.
use lsocket.Prelude.{
  inl, inr, int_add, int_sub, ◌≡◌, refl, pos, negsuc, true, false, none, some, [], ◌∷◌, ◌++◌, arith,
  length, take, List, Returns,
}
use lsocket.SocketBuffer.{
  BufferNode, SocketBuffer, push_node, push_pack, free_buffer, push, new, ◌>>=◌,
}
use lsocket.SocketBuffer.Inv.{contents, addrs, bytes, IsValid}
use lsocket.SocketBuffer.Spec
use lsocket.SocketBuffer.Spec.{index_of}
use lsocket.SocketBuffer.Agree.{Agrees}
use lsocket.SocketBuffer.Push.{push-append}
use lsocket.SocketBuffer.Read.{PopArg, pop, read_n, read_all, read_sep, find_sep, check_sep, detach}
use lsocket.SocketBuffer.Trace.{Run, by_push, by_read_n, by_read_sep, followed, done, Run-queue}
use lsocket.SocketBuffer.Queue.{Event, DoesAll, all_in, all_out}
use lsocket.SocketBuffer.RoundTrip.{
  Chunk, join, IsParts, push_each, read_parts, push_each-read_parts,
}
use lsocket.SocketBuffer.Read.Count.{read_n-refines}
use lsocket.SocketBuffer.Read.All.{read_all-refines}
use lsocket.SocketBuffer.Read.Byte.{read_sep-refines, find_sep-refines}
use lsocket.SocketBuffer.Read.Sep.{IsCut, read_sep-IsCut}
use lsocket.SocketBuffer.Read.Sep.Whole.{find_sep-IsWhole}
use lsocket.SocketBuffer.Read.Pop.{Pops, pop-Pops}
use lsocket.SocketBuffer.Read.Detach.{detach-two_chunks, two_chunks}
use lsocket.SocketBuffer.Read.Split.{split, find_sep-split, filled, read_n-negative}

abbrev chunk_a : BufferNode
chunk_a = record { addr = 100; p = 7 ∷ 8 ∷ 9 ∷ []; sz = 3 }

abbrev chunk_b : BufferNode
chunk_b = record { addr = 200; p = 10 ∷ 11 ∷ []; sz = 2 }

-- two chunks, of whose first one byte is read
abbrev sample : SocketBuffer
sample = record { size = pos 4; offset = 1; head = chunk_a ∷ chunk_b ∷ []; tail = 200; freed = [] }

sample-IsValid : IsValid sample
sample-IsValid = record {
  sound = (omega arith, omega arith, (omega arith, omega arith, tt));
  distinct = ((omega arith, tt), (tt, tt));
  last = refl;
  room = omega arith;
  counted = refl;
  fits = omega arith;
}

-- A count that ends in the second chunk.
three :
    read_n sample (pos 3)
    ≡ some (
      record { size = pos 1; offset = 1; head = chunk_b ∷ []; tail = 200; freed = 100 ∷ [] },
      some (8 ∷ 9 ∷ 10 ∷ []),
    )
unfolding read_n int_add int_sub push_pack free_buffer
three = refl

push-append_example :
    (sb' : SocketBuffer) × (push 300 sample (some (12 ∷ 13 ∷ [])) (pos 2)
      ≡ some (sb', some (pos (length (contents sb')))))
    × (contents sb' ≡ contents sample ++ take 2 (12 ∷ 13 ∷ []))
    × IsValid sb'
    × (sb'.freed ++ addrs sb'.head ≡ (sample.freed ++ addrs sample.head) ++ 300 ∷ [])
push-append_example =
    push-append sample sample-IsValid 300 (omega arith, (omega arith, tt)) (12 ∷ 13 ∷ []) 1
      (omega arith) (omega arith)

pop-Pops_example :
    Returns
      (Pops sample (PopArg.string (9 ∷ 10 ∷ []) (0 ∷ [])))
      (pop sample (PopArg.string (9 ∷ 10 ∷ []) (0 ∷ [])))
pop-Pops_example =
    pop-Pops sample (PopArg.string (9 ∷ 10 ∷ []) (0 ∷ [])) sample-IsValid
      (omega arith, inl (omega arith))

read_n-sample : Returns (Agrees sample (Spec.read_n (contents sample) 3)) (read_n sample (pos 3))
read_n-sample = read_n-refines sample 3 sample-IsValid (omega arith)

read_all-sample : Returns (Agrees sample (Spec.read_all (contents sample))) (read_all sample)
read_all-sample = read_all-refines sample sample-IsValid

read_sep-IsCut_example :
    Returns (IsCut sample (8 ∷ 9 ∷ 0 ∷ []) 2) (read_sep sample (8 ∷ 9 ∷ 0 ∷ []) 2)
read_sep-IsCut_example =
    read_sep-IsCut sample (8 ∷ 9 ∷ 0 ∷ []) 2 sample-IsValid (omega arith) (omega arith)

read_sep-sample :
    Returns (Agrees sample (Spec.read_byte (contents sample) 10)) (read_sep sample (10 ∷ 0 ∷ []) 1)
read_sep-sample = read_sep-refines 10 (0 ∷ []) sample sample-IsValid

find_sep-sample :
    find_sep sample (10 ∷ 0 ∷ []) 1
    ≡ some (elim (index_of 10 (contents sample)) [ none ↦ false | some i ↦ true ])
find_sep-sample = find_sep-refines 10 (0 ∷ []) sample sample-IsValid

detach-two_chunks_example :
    detach (
      two_chunks chunk_a chunk_b []
        (omega arith, omega arith, (omega arith, omega arith, tt))
        (omega arith)
        (omega arith))
    ≡ some (
      record { size = negsuc 2; offset = 5; head = chunk_b ∷ []; tail = 200; freed = 100 ∷ [] },
      some (bytes chunk_a ++ bytes chunk_b, pos 5),
    )
detach-two_chunks_example =
    detach-two_chunks chunk_a chunk_b [] (omega arith, omega arith, (omega arith, omega arith, tt))
      (omega arith) (omega arith)

find_sep-split_example :
    (contents (split 1 2 13 10 65 []) ≡ 13 ∷ 10 ∷ 65 ∷ [])
    × (find_sep (split 1 2 13 10 65 []) (13 ∷ 10 ∷ 0 ∷ []) 2 ≡ some false)
find_sep-split_example = find_sep-split 1 2 13 10 65 [] (omega arith) (omega arith) (omega arith)

read_n-filled :
    read_n (filled chunk_a [] 3 1 100 4 [] (omega arith) (omega arith)) (negsuc 4) ≡ none
read_n-filled = read_n-negative chunk_a [] 3 1 100 4 [] (omega arith) (omega arith)

-- the separator stands at the front of the second chunk
find_sep-IsWhole_example : find_sep sample (10 ∷ 11 ∷ 0 ∷ []) 2 ≡ some true
find_sep-IsWhole_example =
    find_sep-IsWhole (10 ∷ 11 ∷ 0 ∷ []) 2 (omega arith) sample sample-IsValid (omega arith)
      (inr (inl (0, omega arith, omega arith, refl)))

-- two chunks, cut inside the second one
abbrev chunks : List Chunk
chunks = (100, 7 ∷ 8 ∷ []) ∷ (200, 9 ∷ 10 ∷ 11 ∷ []) ∷ []

push_each-read_parts_example :
    Returns (IsParts 3 (join chunks)) (push_each chunks new >>= read_parts 3)
push_each-read_parts_example =
    push_each-read_parts chunks 3 ((omega arith, tt), (tt, tt)) (omega arith) (omega arith)

-- Three bytes are pushed, one is read, two more are pushed, and the byte 10 cuts what is left.
abbrev chunk_c : BufferNode
chunk_c = record { addr = 200; p = 10 ∷ 11 ∷ []; sz = 2 }

abbrev one_chunk : SocketBuffer
one_chunk = record { size = pos 3; offset = 0; head = chunk_a ∷ []; tail = 100; freed = [] }

abbrev one_read : SocketBuffer
one_read = record { size = pos 2; offset = 1; head = chunk_a ∷ []; tail = 100; freed = [] }

abbrev one_left : SocketBuffer
one_left = record { size = pos 1; offset = 1; head = chunk_b ∷ []; tail = 200; freed = 100 ∷ [] }

first_push : push 100 new (some (7 ∷ 8 ∷ 9 ∷ [])) (pos 3) ≡ some (one_chunk, some (pos 3))
unfolding push push_node new int_add
first_push = refl

first_read : read_n one_chunk (pos 1) ≡ some (one_read, some (7 ∷ []))
unfolding read_n int_add int_sub push_pack free_buffer
first_read = refl

second_push : push 200 one_read (some (10 ∷ 11 ∷ [])) (pos 2) ≡ some (sample, some (pos 4))
unfolding push push_node int_add
second_push = refl

first_cut : read_sep sample (10 ∷ []) 1 ≡ some (one_left, some (8 ∷ 9 ∷ []))
unfolding read_sep check_sep int_add int_sub push_pack free_buffer
first_cut = refl

abbrev events : List Event
events =
    Event.pushed (7 ∷ 8 ∷ 9 ∷ []) (pos 3)
    ∷ Event.popped 1 (some (7 ∷ []))
    ∷ Event.pushed (10 ∷ 11 ∷ []) (pos 4)
    ∷ Event.cut 10 (some (8 ∷ 9 ∷ []))
    ∷ []

run : Run new events one_left
unfolding new
run = followed (by_push 100 (7 ∷ 8 ∷ 9 ∷ []) 2 tt (omega arith) (omega arith) first_push) (
    followed (by_read_n 1 (omega arith) first_read) (
      followed
        (by_push 200 (10 ∷ 11 ∷ []) 1 (omega arith, tt) (omega arith) (omega arith) second_push)
        (followed (by_read_sep 10 [] first_cut) done)))

Run-queue_example :
    IsValid one_left
    × DoesAll [] events (contents one_left)
    × (all_in events ≡ all_out events ++ contents one_left)
Run-queue_example = Run-queue events one_left run
