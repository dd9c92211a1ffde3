-- ===== src/Lib.antt =====
-- lsocket is a C library of sockets for Lua: src/socket.c keeps a pool of sockets and the queues of
-- what is to be sent, src/np.h chooses a poller for it (src/np_epoll.h on Linux), and
-- src/lsocketbuffer.c keeps what was received until the Lua side cuts messages out of it. The Lua side
-- polls (socket_poll), reads what is reported (socket_read), pushes it to a buffer (lpush) and pops
-- messages (lpop). It does so through src/lsocket.c, the functions that Lua calls, and src/psocket.c,
-- which keeps one struct net and hands each event to a callback.
--
-- The files:
--   Prelude          shared names, lists and tests over the native numbers, and the C type int, 32 bits
--                    wide with wrap-around (int_add, int_sub)
--   SocketBuffer     src/lsocketbuffer.c: the chain of chunks, lnew, lpush, lfree, pushpack, freebuffer;
--                    Read has checksep, readsep, readall, readn, lfindsep, lpop and ldetach, Inv the
--                    invariant of the chain, Spec the queue of bytes that a buffer stands for, Queue
--                    the calls as events of that queue, and Trace the runs of calls
--   Platform         the system calls of src/socket_platform.h, and the codes of src/socket_define.h;
--                    Platform/Windows has the Windows branch, which the other files do not use
--   Epoll            src/np_epoll.h
--   Kqueue           src/np_kqueue.h, over a kernel whose kevent is a parameter; Laws has what kevent
--                    documents, as the record IsDocumented
--   Select           src/np_select.h, over what select answers
--   Net              src/socket.c: struct net and its pool; Net/Send, Net/Receive, Net/Open and Net/Poll
--                    have the functions of these names, Net/State the structures, Net/Pool the
--                    invariant of the free list, Net/Send/Held that of a send queue with a limit,
--                    Net/Send/Waits what happens while data waits, Net/Receive/Got the bytes that the
--                    kernel gives, and Net/Trace the programs of calls of src/socket.h. Net/Good is the
--                    invariant of the whole state, with the counters of Net/Exact and the cases of
--                    _subscribe in Net/Subscribe; Net/Life is the life of a slot, a step relation on its
--                    status with who may take a step, and Net/Trace/Routes follows it through a
--                    program; Net/Trace/Counters and Net/Trace/Inside are about the send queues
--                    then, and Net/Poll/Drains about how a half closed socket ends; Net/Start has the
--                    whole of net_create and net_free with the poller, and Net/Address socket_address
--                    and socket_error
--   Psocket          src/psocket.c, with its callback as a parameter; Dispatch has the events that the
--                    callback sees, and Program the programs of calls of src/psocket.h
--   Lua              src/lsocket.c; Data has the values and src/psocket.h, Slice the part of a string that
--                    send takes, Shapes the results of the functions, and Connect is about connect
--
-- Interfaces. src/lsocket.c works on a record Api of the functions of src/psocket.h, which psocket_api
-- of Lua/Shapes fills with those of Psocket; the callback goes the other way, as an argument. What is
-- asked of a callback is IsCallback of Psocket/Safe: with an event of a slot of the pool it leaves a good
-- state. The callback may call the library, but not poll or end it. src/psocket.c calls a socket_send of
-- five arguments and a socket_subscribe, which src/socket.c does not have: they are arguments of
-- psocket_send and psocket_subscribe, and neither these nor lsend and lreadenable are part of the
-- programs of Psocket/Program or of what Lua/Safe is about. What is said of sending is about
-- socket_send of src/socket.c and, for lsend, about the bytes that it cuts out of a string.
--
-- State and failure. A chain of chunks is a list of nodes with the addresses that malloc gave them, so
-- that the comparisons of pointers in the loops are comparisons of addresses; freed records the nodes
-- handed to free. The array of sockets is a function from indices, and a pointer to a socket is an
-- index. A failed assert, a NULL dereference and a read past a chunk, past a
-- separator or past the array tmp of _sendfd are none. The kernel is not part
-- of the program: it is a list of answers, one for each system call, and a log of the calls with their
-- answers. When the list is used up every call fails with EBADF, so that each finite run of a kernel is
-- such a list. What the code relies on of it is IsSane of Platform/Sane: a call returns -1 or a
-- number that is not negative, and epoll_wait gives back pointers that it was given, as many as the
-- array holds at most. getaddrinfo is such a call too: the code only compares its result with 0, and
-- each of its failure codes stands as -1. What is said of counters also asks for
-- IsHonest of Platform/Honest: write and sendmsg take no more bytes than they are offered. malloc does
-- not fail, and its addresses are fresh; what it leaves in a field that is not written is an argument. The tail of a send queue is the end
-- of the list, so that the assertions on s->tail of socket_send and socket_sendfd hold by the
-- representation; that of the free list is a field of its own. A read with a negative rbuffersz is a
-- read of 0 bytes.
--
-- Memory of a separator. memcmp of checksep may not touch a byte behind its memory, and with several
-- chunks it is asked for more bytes than the separator has, up to twice as many less one. Lua has one
-- NUL behind a string; that is enough for one chunk and for a separator of at most two bytes.
--
-- Bounds and fuel. Only the loop that doubles the capacity in src/np_select.h runs on fuel: the number
-- of rounds is the descriptor and one more, and each round adds at least one. The other loops follow
-- the chain, the queue, the addresses or the answers of the kernel, and the loop that repeats an
-- interrupted call follows the answers. Sizes are numbers below 2^31 where the int of the code must
-- not overflow, as a hypothesis; elsewhere the wrap-around is written out.
--
-- Not modelled: the Lua interpreter, whose conversions are a parameter, and the glue of
-- src/lsocketbuffer.c and src/lsocket.c that makes a metatable or a traceback; alloc.h, which renames
-- malloc; the calls of signal and of Winsock in src/psocket.c; what select itself does;
-- lib/socket.lua and test/.
pub mod Prelude
pub mod SocketBuffer
pub mod Platform
pub mod Epoll
pub mod Kqueue
pub mod Select
pub mod Net
pub mod Psocket
pub mod Lua
