-- ===== src/Sessions/Events/Tests.antt =====
-- Rounds of the loop over the connections, and their theorems at concrete inputs.
use remote_virtio_gpu.Prelude.{ℕ, ◌≡◌, refl, List, [], ◌∷◌, some, true, false, All, arith}
use remote_virtio_gpu.Sessions.Events.{
  Link, Links, set_pfd, close_link, renew_link, in_out_events, serve_links, receive_loop, receive,
  send_out, await_socket, take_in, any_broken,
}
use remote_virtio_gpu.Sessions.Events.Passing.{Pairs}
use remote_virtio_gpu.Sessions.Events.Reached.{
  Waited, Rounded, untouched, closed, renewed, begin, round, Fed, reachable-Fed,
}

-- A new connection.
abbrev fresh : Link
fresh = record {
  fd = some 5;
  host_in = true;
  host_out = false;
  pipe_in = true;
  readable = false;
  writable = false;
  broken = false;
  pipe_readable = false;
  outgoing = [];
  sent = [];
  incoming = [];
  passed_on = [];
  closed = false;
  moved_out = 0;
  moved_in = 0;
  blocked = false;
}

-- The program has written three bytes.
abbrev filled : Link
filled = record fresh { outgoing = 1 ∷ 2 ∷ 3 ∷ []; pipe_readable = true }

-- The socket takes two of them, and two bytes have arrived.
abbrev flowing : Link
flowing = record filled {
  pipe_in = false;
  host_out = true;
  pipe_readable = false;
  writable = true;
  moved_out = 2;
  readable = true;
  incoming = 8 ∷ 9 ∷ [];
  moved_in = 2;
}

abbrev links : Link → Links
links l = record { interrupted = false; cmd = l ∷ []; res = [] }

abbrev first_sent : List Link → List ℕ
first_sent [] = []
first_sent (l ∷ ls) = l.sent

two_sent : first_sent (in_out_events (links flowing)).cmd ≡ 1 ∷ 2 ∷ []
unfolding in_out_events any_broken serve_links receive_loop receive send_out await_socket take_in
two_sent = refl

closing_ends : (in_out_events (links (record flowing { closed = true }))).interrupted ≡ true
unfolding in_out_events any_broken serve_links receive_loop receive send_out await_socket take_in
closing_ends = refl

first_wait : Waited (set_pfd fresh) filled
unfolding set_pfd
first_wait = record {
  events_in = refl;
  events_out = refl;
  bytes = 1 ∷ 2 ∷ 3 ∷ [];
  written = refl;
  arrived = [];
  received = refl;
  still_sent = refl;
  still_passed_on = refl;
  still_blocked = refl;
  polled = record { asked_out = λ e. e; asked_in = λ e. refl; has_bytes = λ e. omega arith };
}

abbrev rounded : (l l' : Link) → Waited l l' → Rounded l l'
rounded l l' w = record { polled = l'; waited = w; handled = untouched }

-- The connection is closed and renewed while it waits for its socket.
abbrev renewed_one : Link
renewed_one = record flowing {
  fd = some 7;
  host_in = false;
  host_out = false;
  readable = false;
  writable = false;
}

second_round : Pairs Rounded (in_out_events (links filled)).cmd (renewed_one ∷ [])
unfolding in_out_events any_broken serve_links receive_loop receive send_out await_socket take_in
    close_link renew_link
second_round = (
  record {
    polled = flowing;
    waited = record {
      events_in = refl;
      events_out = refl;
      bytes = [];
      written = refl;
      arrived = 8 ∷ 9 ∷ [];
      received = refl;
      still_sent = refl;
      still_passed_on = refl;
      still_blocked = refl;
      polled = record { asked_out = λ e. refl; asked_in = λ e. e; has_bytes = λ e. omega arith };
    };
    handled = renewed (some 7) (closed untouched);
  },
  tt,
)

goes_on : (in_out_events (links filled)).interrupted ≡ false
unfolding in_out_events any_broken serve_links receive_loop receive send_out await_socket take_in
goes_on = refl

nothing_waits : Pairs Rounded (in_out_events (links filled)).res []
unfolding in_out_events any_broken serve_links receive_loop receive send_out await_socket take_in
nothing_waits = tt

reachable-Fed_example :
    All Fed (in_out_events (links renewed_one)).cmd
    × All Fed (in_out_events (links renewed_one)).res
reachable-Fed_example =
    reachable-Fed (fresh ∷ [], []) (links renewed_one)
      (round
        (begin {w = links filled} ((refl, tt), tt) refl
          (rounded (set_pfd fresh) filled first_wait, tt) tt)
        goes_on second_round nothing_waits)
