-- ===== src/Net/Kernels.antt =====
-- Kernels for runs of src/socket.c on concrete data.
use lsocket.Prelude.{ℕ, ◌<◌, refl, pos, true, false, List, [], ◌∷◌, arith}
use lsocket.Platform.{World, Answer, Control, minus_one}
use lsocket.Platform.Sane.{IsSane, AllSane}
use lsocket.Net.{Socket, Protocol, Status, no_mask}

-- a call that succeeded with the number `n`
abbrev pub ok : ℕ → Answer
ok n = record {
  ret = pos n;
  errno = 0;
  buf = [];
  truncated = false;
  control = Control.no_fd;
  events = [];
}

abbrev pub fails : ℕ → Answer
fails e = record {
  ret = minus_one;
  errno = e;
  buf = [];
  truncated = false;
  control = Control.no_fd;
  events = [];
}

-- `epoll_wait` that reports the sockets to be readable and writable
abbrev pub ready : ℕ → Answer
ready i = record (ok 1) {
  events =
      record { ptr = i; epollin = true; epollout = true; epollerr = false; epollhup = false } ∷ [];
}

pub ok-IsSane : (max n : ℕ) → IsSane max (ok n)
ok-IsSane max n = record {
  ret_lem = λ e. absurd (ground arith);
  events_lem = tt;
  count_lem = omega arith;
}

pub ready-IsSane : (max i : ℕ) → i < max → IsSane max (ready i)
ready-IsSane max i h = record {
  ret_lem = λ e. absurd (ground arith);
  events_lem = (h, tt);
  count_lem = omega arith;
}

pub fails-IsSane : (max e : ℕ) → IsSane max (fails e)
fails-IsSane max e = record { ret_lem = λ h. refl; events_lem = tt; count_lem = omega arith }

-- what `malloc` left in a slot
abbrev pub junk : ℕ → Socket
junk i = record {
  fd = pos 99;
  protocol = Protocol.udp;
  status = Status.halfclose;
  mask = no_mask;
  udata = pos 7;
  head = [];
  sbuffersz = pos 3;
  rbuffersz = pos 5;
  slimit = pos 1;
  rlimit = pos 2;
}

-- successes in front of other answers
abbrev pub oks : List ℕ → List Answer → List Answer
oks [] as' = as'
oks (n ∷ ns) as' = ok n ∷ oks ns as'

pub oks-AllSane :
    (max : ℕ) (ns : List ℕ) (as' : List Answer) → AllSane max as' → AllSane max (oks ns as')
oks-AllSane max [] as' h = h
oks-AllSane max (n ∷ ns) as' h = (ok-IsSane max n, oks-AllSane max ns as' h)

-- A listening socket is made, a connection is accepted, a write is cut short and the rest is sent
-- when the poller reports the socket; then the kernel fails.
abbrev pub serving : List Answer
serving = ready 1 ∷ fails 4 ∷ oks (1 ∷ 0 ∷ []) []

abbrev pub accepting : List Answer
accepting = ready 0 ∷ oks (6 ∷ 0 ∷ 0 ∷ 0 ∷ 2 ∷ 0 ∷ []) serving

abbrev pub kernel : World
kernel = record {
  answers = record (ok 0) { buf = 1 ∷ [] } ∷ oks (5 ∷ 0 ∷ 0 ∷ 0 ∷ 0 ∷ 0 ∷ 0 ∷ 0 ∷ 0 ∷ []) accepting;
  log = [];
}

serving-AllSane : AllSane 2 serving
serving-AllSane =
    (ready-IsSane 2 1 (omega arith), (fails-IsSane 2 4, oks-AllSane 2 (1 ∷ 0 ∷ []) [] tt))

accepting-AllSane : AllSane 2 accepting
accepting-AllSane = (
  ready-IsSane 2 0 (omega arith),
  oks-AllSane 2 (6 ∷ 0 ∷ 0 ∷ 0 ∷ 2 ∷ 0 ∷ []) serving serving-AllSane,
)

pub kernel-AllSane : AllSane 2 kernel.answers
kernel-AllSane = (
  record { ret_lem = λ e. absurd (ground arith); events_lem = tt; count_lem = omega arith },
  oks-AllSane 2 (5 ∷ 0 ∷ 0 ∷ 0 ∷ 0 ∷ 0 ∷ 0 ∷ 0 ∷ 0 ∷ []) accepting accepting-AllSane,
)
