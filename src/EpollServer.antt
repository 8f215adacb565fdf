-- ===== src/EpollServer.antt =====
-- Examples/SimpleEpoll_1.cpp: a server that answers each request by one text and closes the connection. A
-- connection's descriptor and buffer are in memory of their own, to which the kernel keeps a pointer.
--
-- A pointer is a number, never given out twice, so that a use of freed memory shows: it is `none`, as is a write
-- behind the buffer. The calls of epoll_ctl succeed. The kernel keeps, for a descriptor, whether it waits to write, and the pointer.
pub mod Links
pub mod Ownership
pub mod Runs
mod Examples
use so_l.Common.{
  ◌>>=◌, ℕ, ◌+◌, Bool, true, false, not, ◌&&◌, ltb, ◌==◌, if◌then◌else◌, Option, none, some, List,
  [], ◌∷◌, ◌++◌, length,
}
use so_l.Common.Update.{move}

pub record FdBuf : Type 0 where
  pub fd : ℕ
  pub buf : List ℕ

-- What the kernel keeps for a descriptor: the mask, EPOLLIN or EPOLLOUT, and `data.ptr`.
pub record Entry : Type 0 where
  pub out : Bool
  pub ptr : ℕ

pub record Server : Type 0 where
  pub listen_sockfd : ℕ
  pub bufs : ℕ → Option FdBuf
  pub next : ℕ
  pub interest : ℕ → Option Entry
  pub is_open : ℕ → Bool
  -- the descriptors to which the text was written, in order
  pub answered : List ℕ

-- An event, with what accept(2), if it is called, and read(2), if it is called, answer: a descriptor, or an error;
-- bytes, or the end of the stream or an error.
pub record Event : Type 0 where
  pub ptr : ℕ
  pub readable : Bool
  pub writable : Bool
  pub accepted : Option ℕ
  pub read : List ℕ

-- `new_fd_buf`; the pointer is the old `next`.
unfoldable pub new_fd_buf : ℕ → Server → Server
new_fd_buf fd s = record s {
  bufs = move s.bufs s.next (some (record { fd = fd; buf = [] }));
  next = s.next + 1;
}

-- A descriptor that is registered for reading, with a new buffer.
unfoldable pub register : ℕ → Server → Server
unfolding new_fd_buf
register fd s = record (new_fd_buf fd s) {
  interest = move s.interest fd (some (record { out = false; ptr = s.next }));
}

-- What accept(2) answered: an error, or a new descriptor.
unfoldable pub accepted_socket : Option ℕ → Server → Server
unfolding register
accepted_socket none s = s
accepted_socket (some new_sock) s =
    register new_sock (record s { is_open = move s.is_open new_sock true })

-- `run_accept`
unfoldable pub run_accept : Event → Server → Server
unfolding accepted_socket
run_accept ev s = accepted_socket ev.accepted s

-- `close`, which takes the descriptor out of the kernel's table too, `EPOLL_CTL_DEL` and `free`.
unfoldable pub release : ℕ → FdBuf → Server → Server
release ptr fdp s = record s {
  is_open = move s.is_open fdp.fd false;
  interest = move s.interest fdp.fd none;
  bufs = move s.bufs ptr none;
}

-- A request was read, and the answer is to be written.
unfoldable pub wait_to_write : Event → FdBuf → Server → Server
wait_to_write ev fdp s = record s {
  bufs = move s.bufs ev.ptr (some (record fdp { buf = ev.read }));
  interest = move s.interest fdp.fd (some (record { out = true; ptr = ev.ptr }));
}

-- `run_action`, on the buffer that the event points to.
unfoldable pub run_action : Event → FdBuf → Server → Option Server
unfolding release wait_to_write
run_action ev fdp s =
    if ev.readable
    then if ltb 0 (length ev.read)
      then (if ltb (length ev.read) 1024 then some (wait_to_write ev fdp s) else none)
      else some (release ev.ptr fdp s)
    else if ev.writable
    then some (release ev.ptr fdp (record s { answered = s.answered ++ (fdp.fd ∷ []) }))
    else some s

-- One event of `run_epoll`.
unfoldable pub handle : Event → Server → Option Server
unfolding run_accept run_action
handle ev s = s.bufs ev.ptr >>= λ fdp.
    if fdp.fd == s.listen_sockfd
    then some (if ev.readable then run_accept ev s else s)
    else run_action ev fdp s

-- The events of one epoll_wait.
unfoldable pub handle_all : List Event → Server → Option Server
unfolding handle
handle_all [] s = some s
handle_all (ev ∷ evs) s = handle ev s >>= λ t. handle_all evs t

-- `run_epoll`, up to its loop.
unfoldable pub run_epoll : ℕ → Server
unfolding register
run_epoll listen_sockfd = register listen_sockfd (record {
  listen_sockfd = listen_sockfd;
  bufs = λ p. none;
  next = 0;
  interest = λ fd. none;
  is_open = move (λ fd. false) listen_sockfd true;
  answered = [];
})

-- The loop of `run_epoll`.
unfoldable pub run : List (List Event) → Server → Option Server
unfolding handle_all
run [] s = some s
run (evs ∷ rounds) s = handle_all evs s >>= λ t. run rounds t
