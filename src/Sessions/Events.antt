-- ===== src/Sessions/Events.antt =====
-- librvgpu/tcp/rvgpu-tcp.c: `set_pfd` and `in_out_events`, which pass bytes between the pipes of the
-- program and the sockets of the renderers, and what `close_conn` and `reconnect_single` change of a
-- connection between two calls of them.
pub mod Turns
pub mod Passing
pub mod Reached
mod Tests
use remote_virtio_gpu.Prelude.{
  ℕ, List, [], ◌∷◌, ◌++◌, map, Option, none, some, Bool, true, false, ◌||◌, take, drop, length, ltb,
  ◌==◌, if◌then◌else◌,
}

-- A connection with its two `struct pollfd`, that of the socket and that of the pipe.
pub record Link : Type 0 where
  -- `fd` of the socket, `none` for a negative one.
  pub fd : Option ℕ
  -- `events`: POLLIN and POLLOUT of the socket, and POLLIN of the pipe.
  pub host_in : Bool
  pub host_out : Bool
  pub pipe_in : Bool
  -- `revents`: POLLIN and POLLOUT of the socket, one of POLLHUP, POLLERR and POLLNVAL, and POLLIN of
  -- the pipe.
  pub readable : Bool
  pub writable : Bool
  pub broken : Bool
  pub pipe_readable : Bool
  -- The bytes in the pipe of the program, and those that went from it to the socket.
  pub outgoing : List ℕ
  pub sent : List ℕ
  -- The bytes that the socket has received, and those that went from it to the other pipe. The peer
  -- has closed the connection when `recv` sees 0 bytes.
  pub incoming : List ℕ
  pub passed_on : List ℕ
  pub closed : Bool
  -- How many bytes `splice` moves in each direction, which the kernel decides.
  pub moved_out : ℕ
  pub moved_in : ℕ
  -- Whether `splice` was called on the pipe while it had no bytes, which stops the thread.
  pub blocked : Bool

-- `set_pfd`, for a connection.
pub set_pfd : Link → Link
set_pfd l = record l { host_in = true; host_out = false; pipe_in = true }

-- What `close_conn` changes of a connection: the socket, and `events` and `revents` of the socket.
pub close_link : Link → Link
close_link l = elim l.fd [
  | none ↦ l
  | some fd ↦
      if ltb 0 fd
      then record l {
        fd = none;
        host_in = false;
        host_out = false;
        readable = false;
        writable = false;
        broken = false;
      }
      else l
]

-- What `reconnect_single` changes of it, with the socket of the attempt.
pub renew_link : Option ℕ → Link → Link
renew_link fd l = record l { fd = fd }

-- Whether `handle_connection_error` is called.
pub any_broken : List Link → Bool
any_broken [] = false
any_broken (l ∷ ls) = l.broken || any_broken ls

-- The pipe has bytes: wait for the socket to take them.
pub await_socket : Link → Link
await_socket l = if l.pipe_readable then record l { pipe_in = false; host_out = true } else l

-- The socket takes bytes: pass them on, and wait for the pipe again.
pub send_out : Link → Link
send_out l =
    if l.writable
    then record l {
      outgoing = drop l.moved_out l.outgoing;
      sent = l.sent ++ take l.moved_out l.outgoing;
      host_out = false;
      pipe_in = true;
      blocked = l.blocked || (length l.outgoing == 0);
    }
    else l

-- `splice` from the socket.
pub take_in : Link → Link
take_in l = record l {
  incoming = drop l.moved_in l.incoming;
  passed_on = l.passed_on ++ take l.moved_in l.incoming;
}

-- What the loop over the sockets does with one of them: `none` when `check_connection_closed` ends it.
pub receive : Link → Option Link
receive l = elim l.fd [
  | none ↦ some l
  | some fd ↦ elim l.readable [
    | false ↦ some l
    | true ↦ if l.closed then none else some (take_in l)
  ]
]

-- Whether a connection was closed, and the connections.
pub receive_loop : List Link → Bool × List Link
receive_loop [] = (false, [])
receive_loop (l ∷ ls) = elim (receive l) [
  | none ↦ (true, l ∷ ls)
  | some l' ↦ let (ended, ls') = receive_loop ls in (ended, l' ∷ ls')
]

-- The three loops over the connections of a kind.
pub serve_links : List Link → Bool × List Link
serve_links ls = receive_loop (map send_out (map await_socket ls))

-- `interrupted`, the connections for commands, and those for resources.
pub record Links : Type 0 where
  pub interrupted : Bool
  pub cmd : List Link
  pub res : List Link

pub in_out_events : Links → Links
in_out_events w = elim (any_broken w.cmd || any_broken w.res) [
  | true ↦ record w { interrupted = true }
  | false ↦
      let (cmd_closed, cmd') = serve_links w.cmd in
      elim cmd_closed [
        | true ↦ record w { interrupted = true; cmd = cmd' }
        | false ↦
            let (res_closed, res') = serve_links w.res in
            record w { interrupted = w.interrupted || res_closed; cmd = cmd'; res = res' }
      ]
]
