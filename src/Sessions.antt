-- ===== src/Sessions.antt =====
-- librvgpu/tcp/rvgpu-tcp.c: the connections to the renderers, how a hung one is closed, and how they
-- come back. `vhost`, an array of pointers, is a function from the index: the command connections
-- stand first, then the resource connections.
pub mod Hung
pub mod Back
pub mod Events
mod Tests
use remote_virtio_gpu.Prelude.{
  ℕ, zero, suc, ◌+◌, ◌-◌, Option, none, some, Bool, true, false, ◌&&◌, not, ltb, ◌==◌,
  if◌then◌else◌, sub32,
}

-- `state` of `struct vgpu_host`
pub data HostState : Type 0 where
  host_none host_disconnected host_connected host_reconnected : HostState

-- `struct vgpu_host` with its `struct pollfd`: the socket, `none` for -1, and the bits POLLIN and
-- POLLOUT of `events`.
pub record Host : Type 0 where
  pub fd : Option ℕ
  pub pollin : Bool
  pub pollout : Bool
  pub state : HostState

abbrev pub Hosts : Type 0
Hosts = ℕ → Host

-- `fd > 0`
abbrev pub is_open : Host → Bool
is_open h = elim h.fd [ none ↦ false | some n ↦ ltb 0 n ]

-- An array with one host changed.
abbrev pub change : ℕ → (Host → Host) → Hosts → Hosts
change i f vhost j = if j == i then f (vhost j) else vhost j

pub close_conn : Host → Host
close_conn h = elim (is_open h) [
  | true ↦ record { fd = none; pollin = false; pollout = false; state = host_disconnected }
  | false ↦ record h { state = host_disconnected }
]

pub disconnect : ℕ → ℕ → ℕ → Hosts → Hosts
disconnect cmd_cnt res_cnt idx vhost =
    let cmd = if ltb idx cmd_cnt then idx else idx - cmd_cnt in
    let res = if ltb idx res_cnt then idx + res_cnt else idx in
    let vhost' = if cmd_cnt == 0 then vhost else change cmd close_conn vhost in
    if res_cnt == 0 then vhost' else change res close_conn vhost'

-- A connection whose bytes did not leave until the session's timer fired.
abbrev pub is_hung : Host → Bool
is_hung h = h.pollout && is_open h

-- The loop of `sessions_hung` from `i` on: whether one was hung, `active_sessions`, and the hosts.
pub hung_loop : ℕ → ℕ → ℕ → ℕ → Hosts → ℕ → Bool → Bool × ℕ × Hosts
hung_loop cmd_count res_count zero i vhost active hung = (hung, active, vhost)
hung_loop cmd_count res_count (suc k) i vhost active hung =
    let next =
      hung_loop cmd_count res_count k (suc i) (disconnect cmd_count res_count i vhost)
        (sub32 active 1) true in
    let same = hung_loop cmd_count res_count k (suc i) vhost active hung in
    elim (is_hung (vhost i)) [ true ↦ next | false ↦ same ]

pub sessions_hung : ℕ → ℕ → Hosts → ℕ → ℕ → Bool × ℕ × Hosts
sessions_hung cmd_count res_count vhost active count =
    hung_loop cmd_count res_count count 0 vhost active false

-- `reconnect_single`: the socket that a new attempt gives for a host, or `none`. A failure of
-- `getaddrinfo` leaves `fd` as it is; it counts as `none` here, which `close_conn` has set before.
abbrev pub reconnect_single : (ℕ → Option ℕ) → ℕ → Host → Host
reconnect_single attempt i h = record h { fd = attempt i }

abbrev pub is_disconnected : HostState → Bool
is_disconnected host_disconnected = true
is_disconnected _ = false

abbrev pub is_reconnected : HostState → Bool
is_reconnected host_reconnected = true
is_reconnected _ = false

-- `reconnect_all`, for the host at an index.
pub reconnect_host : (ℕ → Option ℕ) → ℕ → Host → Host
reconnect_host attempt i h = elim (is_reconnected h.state) [
  | true ↦ record h { state = host_connected }
  | false ↦ record (reconnect_single attempt i (close_conn h)) { state = host_connected }
]

pub reconnect_all : (ℕ → Option ℕ) → ℕ → Hosts → Hosts
reconnect_all attempt count vhost j =
    if ltb j count then reconnect_host attempt j (vhost j) else vhost j

-- A host in the loop of `sessions_reconnect`, and whether its attempt failed.
pub try_host : (ℕ → Option ℕ) → ℕ → Host → Host × Bool
try_host attempt i h = elim (is_disconnected h.state) [
  | false ↦ (h, false)
  | true ↦ elim (attempt i) [
    | none ↦ (reconnect_single attempt i h, true)
    | some fd ↦ (record (reconnect_single attempt i h) { state = host_reconnected }, false)
  ]
]

-- Whether all are back, and the hosts.
pub reconnect_loop : (ℕ → Option ℕ) → ℕ → ℕ → Hosts → Bool → Bool × Hosts
reconnect_loop attempt zero i vhost reconnected = (reconnected, vhost)
reconnect_loop attempt (suc k) i vhost reconnected =
    let (h, failed) = try_host attempt i (vhost i) in
    reconnect_loop attempt k (suc i) (change i (λ _. h) vhost) (reconnected && not failed)

-- `sessions_reconnect`; `again` gives the sockets of the attempts that `reconnect_all` makes in
-- `handle_reset`.
pub sessions_reconnect : (ℕ → Option ℕ) → (ℕ → Option ℕ) → ℕ → Hosts → Bool × Hosts
sessions_reconnect attempt again count vhost =
    let (reconnected, vhost') = reconnect_loop attempt count 0 vhost true in
    (reconnected, if reconnected then reconnect_all again count vhost' else vhost')
