-- ===== src/Net/Send.antt =====
-- The send side of src/socket.c: the queue of a socket, `socket_send` and `socket_sendfd`.
pub mod Charged
pub mod Enqueue
pub mod Keeps
pub mod Flush
pub mod Stream
pub mod Flow
pub mod Queued
pub mod Taken
pub mod Limit
pub mod Progress
pub mod Counter
pub mod Calls
pub mod Waits
pub mod Inside
pub mod Held
mod Tests
pub mod Slow
use lsocket.Prelude.{
  ℕ, zero, suc, ◌+◌, ◌-◌, ℤ, pos, negsuc, int_add, int_sub, ltb_ℤ, Bool, true, false, not, ◌&&◌,
  ◌||◌, Option, none, some, List, [], ◌∷◌, ◌++◌, ltb, leb, ◌==◌, if◌then◌else◌, take, drop,
}
use lsocket.Platform
use lsocket.Platform.{
  minus_one, err_status, err_wbufover, eagain, eintr, Answer, Call, Sys, return, sys, retry, is_neg,
  Mask,
}
use lsocket.Net.{
  case_of, Net, M, Socket, Sbuffer, Protocol, pure, ◌>>=◌, ◌>>◌, call, load, store, set_err, is_nil,
  is_halfclose, get_socket, subscribe, close_socket,
}

-- what is left of a buffer
abbrev pub unsent : Sbuffer → List ℕ
unsent b = take b.sz (drop b.ptr b.begin)

-- a part of `n` bytes was sent
abbrev pub advance : Sbuffer → ℕ → Sbuffer
advance b n = record b { ptr = b.ptr + n; sz = b.sz - n }

-- `_sendfd`: without data it sends its local array `tmp`, which has one byte, 0.
abbrev pub data_of : Option (List ℕ) → List ℕ
data_of none = 0 ∷ []
data_of (some d) = d

-- More bytes than `tmp` has are asked for.
abbrev pub past_tmp : Option (List ℕ) → ℕ → Bool
past_tmp none sz = ltb 1 sz
past_tmp (some d) sz = false

-- What `_send_buffer_tcp` does when `write` has returned: it ends with 0 or an error number, or
-- `rest` goes on with the next buffer.
unfoldable pub tcp_wrote :
    (b : Sbuffer) (bs : List Sbuffer) (s : Socket) (rest : Socket → Sys (ℤ × Socket)) (errno : ℕ)
    (ret : ℤ)
    → Sys (ℤ × Socket)
tcp_wrote b bs s rest errno (negsuc k) =
    return (if errno == eagain then pos 0 else pos errno, record s { head = b ∷ bs })
tcp_wrote b bs s rest errno (pos n) =
    if ltb n b.sz
    then return
        (pos 0, record s { head = advance b n ∷ bs; sbuffersz = int_sub s.sbuffersz (pos n) })
    else rest (record s { sbuffersz = int_sub s.sbuffersz (pos n) })

-- `_send_buffer_tcp`, over the queue of `s`: 0 or an error number, and the socket.
unfoldable pub send_tcp : List Sbuffer → Socket → Sys (ℤ × Socket)
unfolding tcp_wrote
send_tcp [] s = return (pos 0, record s { head = [] })
send_tcp (b ∷ bs) s =
    Platform.◌>>=◌ (retry (Call.write s.fd (unsent b)))
      λ a. tcp_wrote b bs s (send_tcp bs) a.errno a.ret

-- The same of `_send_buffer_ipc`: the descriptor of a buffer goes with its first part.
pub ipc_sent :
    (b : Sbuffer) (bs : List Sbuffer) (s : Socket) (rest : Socket → Sys (ℤ × Socket)) (errno : ℕ)
    (ret : ℤ)
    → Sys (ℤ × Socket)
ipc_sent b bs s rest errno (negsuc k) =
    return (if errno == eagain then pos 0 else pos errno, record s { head = b ∷ bs })
ipc_sent b bs s rest errno (pos n) =
    if n == 0
    then return (pos 0, record s { head = b ∷ bs })
    else if ltb n b.sz
    then return (
      pos 0,
      record s {
        head = record (advance b n) { fd = minus_one } ∷ bs;
        sbuffersz = int_sub s.sbuffersz (pos n);
      },
    )
    else rest (record s { sbuffersz = int_sub s.sbuffersz (pos n) })

-- `_send_buffer_ipc`
pub send_ipc : List Sbuffer → Socket → Sys (ℤ × Socket)
unfolding ipc_sent
send_ipc [] s = return (pos 0, record s { head = [] })
send_ipc (b ∷ bs) s =
    Platform.◌>>=◌ (retry (Call.sendmsg s.fd (unsent b) b.fd))
      λ a. ipc_sent b bs s (send_ipc bs) a.errno a.ret

unfoldable pub send_by : Protocol → Socket → Sys (ℤ × Socket)
send_by Protocol.tcp s = send_tcp s.head s
send_by Protocol.ipc s = send_ipc s.head s
send_by Protocol.udp s = return (pos 0, s)

abbrev pub is_success : ℤ → Bool
is_success (pos n) = n == 0
is_success (negsuc n) = false

-- `_send_buffer`
unfoldable pub send_buffer : ℕ → M ℤ
send_buffer i = do
  s ← load i
  if is_nil s.head then pure (pos 0) else do
    (err, s') ← call (send_by s.protocol s)
    store i s'
    (if is_success err && is_nil s'.head
        then subscribe i (record s'.mask { wable = false }) >> pure tt
        else pure tt)
    pure err

-- `errout` of `socket_send` and `socket_sendfd`
pub errout : ℕ → ℤ → M ℤ
errout i err = do close_socket i; set_err err; pure minus_one

-- The buffer is added to the queue, unless the limit is exceeded. The first one of an empty queue
-- asks for write events.
unfoldable pub enqueue : ℕ → Sbuffer → (result : ℤ) → M ℤ
enqueue i b result = do
  s ← load i
  let size = int_add s.sbuffersz (pos b.sz)
  if ltb_ℤ s.slimit size
      then (do store i (record s { sbuffersz = size }); errout i err_wbufover)
      else (do
        store i (record s { sbuffersz = size; head = s.head ++ b ∷ [] })
        (if is_nil s.head then subscribe i (record s.mask { wable = true }) >> pure tt else pure tt)
        pure result)

abbrev pub again : ℕ → Bool
again errno = errno == eagain || errno == eintr

abbrev pub is_tcp : Protocol → Bool
is_tcp Protocol.tcp = true
is_tcp _ = false

abbrev pub is_ipc : Protocol → Bool
is_ipc Protocol.ipc = true
is_ipc _ = false

-- `socket_send` when `write` has returned.
unfoldable pub wrote : ℕ → (bytes : List ℕ) (sz : ℕ) (errno : ℕ) (ret : ℤ) → M ℤ
wrote i bytes sz errno (pos n) =
    if leb sz n
    then pure (pos n)
    else enqueue i (record { sz = sz - n; fd = minus_one; begin = bytes; ptr = n }) (pos n)
wrote i bytes sz errno (negsuc k) =
    if again errno
    then enqueue i (record { sz = sz; fd = minus_one; begin = bytes; ptr = 0 }) (negsuc k)
    else errout i (pos errno)

-- The part of `socket_send` after its guards.
unfoldable pub send_on : ℕ → (bytes : List ℕ) (sz : ℕ) → M ℤ
send_on i bytes sz = do
  s ← load i
  if is_nil s.head
      then (call (sys (Call.write s.fd (take sz bytes))) >>= λ a. wrote i bytes sz a.errno a.ret)
      else enqueue i (record { sz = sz; fd = minus_one; begin = bytes; ptr = 0 }) (pos 0)

-- `socket_send`: the number of bytes that were sent, or -1.
unfoldable pub send : (id : ℕ) (bytes : List ℕ) (sz : ℕ) → M ℤ
send id bytes zero = λ _. none
send id bytes (suc k) =
    get_socket id
    >>= case_of (pure minus_one) λ i. do
      s ← load i
      if not (is_tcp s.protocol) || is_halfclose s.status
          then (do set_err err_status; pure minus_one)
          else send_on i bytes (suc k)

-- `socket_sendfd` when `_sendfd` has returned; `b` is the buffer with all the data.
pub sent_fd : ℕ → (b : Sbuffer) (errno : ℕ) (ret : ℤ) → M ℤ
sent_fd i b errno (pos n) =
    if leb b.sz n
    then pure (pos 0)
    else if n == 0
    then enqueue i b (pos 0)
    else enqueue i (record b { sz = b.sz - n; fd = minus_one; ptr = n }) (pos n)
sent_fd i b errno (negsuc k) = if again errno then enqueue i b (negsuc k) else errout i (pos errno)

-- The part of `socket_sendfd` after its guards. A read behind `tmp` of `_sendfd` is a fault.
pub send_fd_on : ℕ → (bytes : Option (List ℕ)) (sz : ℕ) (cfd : ℤ) → M ℤ
send_fd_on i bytes sz cfd = do
  s ← load i
  let b : Sbuffer = record { sz = sz; fd = cfd; begin = data_of bytes; ptr = 0 }
  if is_nil s.head
      then (if past_tmp bytes sz
          then (λ _. none)
          else (call (sys (Call.sendmsg s.fd (take sz (data_of bytes)) cfd)) >>= λ a.
              sent_fd i b a.errno a.ret))
      else enqueue i b (pos 0)

abbrev pub is_one_byte : Option (List ℕ) → ℕ → Bool
is_one_byte none sz = sz == 1
is_one_byte (some d) sz = false

-- `socket_sendfd`
pub send_fd : (id : ℕ) (bytes : Option (List ℕ)) (sz : ℕ) (cfd : ℤ) → M ℤ
send_fd id bytes sz cfd =
    if ltb 0 sz || is_one_byte bytes sz
    then (get_socket id
        >>= case_of (pure minus_one) λ i. do
          s ← load i
          if is_ipc s.protocol
              then send_fd_on i bytes sz cfd
              else (do set_err err_status; pure minus_one))
    else λ _. none
