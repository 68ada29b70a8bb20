-- ===== src/Sessions/Tests.antt =====
-- Runs of the sessions, and their theorems at concrete inputs.
use remote_virtio_gpu.Prelude.{
  ℕ, zero, suc, ◌+◌, ◌≡◌, refl, inl, Option, none, some, true, false, arith,
}
use remote_virtio_gpu.Sessions.{
  Host, Hosts, host_none, host_disconnected, sessions_hung, sessions_reconnect, hung_loop,
  disconnect, close_conn, reconnect_loop, try_host,
}
use remote_virtio_gpu.Sessions.Hung.{Paired, NoneHung, sessions_hung_lem}
use remote_virtio_gpu.Sessions.Back.{sessions_reconnect_deaf}

abbrev busy : Host
busy = record { fd = some 5; pollin = true; pollout = true; state = host_none }

abbrev idle : Host
idle = record { fd = some 6; pollin = true; pollout = false; state = host_none }

-- One renderer, whose command connection is hung.
abbrev one_hung : Hosts
one_hung zero = busy
one_hung (suc n) = idle

both_closed : ((sessions_hung 1 1 one_hung 1 2).2 0).fd ≡ none
unfolding sessions_hung hung_loop disconnect close_conn
both_closed = refl

one_hung-Paired : Paired 1 one_hung
one_hung-Paired zero h = refl
one_hung-Paired (suc j) h = absurd (omega arith)

sessions_hung_lem_example :
    NoneHung 2 (sessions_hung 1 1 one_hung 1 2).2 × Paired 1 (sessions_hung 1 1 one_hung 1 2).2
sessions_hung_lem_example = sessions_hung_lem 1 one_hung 1 one_hung-Paired

-- The same renderer after its connections were closed; each attempt gives a socket.
abbrev lost : Hosts
lost i = record { fd = none; pollin = false; pollout = false; state = host_disconnected }

abbrev socket : ℕ → Option ℕ
socket i = some (7 + i)

all_back : (sessions_reconnect socket socket 2 lost).0 ≡ true
unfolding sessions_reconnect reconnect_loop try_host
all_back = refl

sessions_reconnect_deaf_example : ((sessions_reconnect socket socket 2 lost).1 0).pollin ≡ false
sessions_reconnect_deaf_example =
    sessions_reconnect_deaf socket socket 2 lost 0 all_back (omega arith) (inl refl)
