-- ===== src/Sessions/Back.antt =====
-- The connections that come back.
use native.Mathlib.Decide.{dec_lt}
use remote_virtio_gpu.Prelude.{
  ℕ, zero, suc, ◌+◌, ◌≤◌, ◌<◌, ◌≡◌, ◌≢◌, refl, sym, ap, ◌∙◌, ◌⊎◌, inl, inr, Option, Bool, true,
  false, not, ◌&&◌, arith, ltb, ◌==◌, Bool-cases, Option-cases, ==_iff, tests,
}
use remote_virtio_gpu.Sessions.{
  host_connected, Host, Hosts, is_open, change, close_conn, is_disconnected, is_reconnected,
  reconnect_host, reconnect_all, try_host, reconnect_loop, sessions_reconnect,
}

reconnect_host_connected :
    (attempt : ℕ → Option ℕ) (i : ℕ) (h : Host)
    → (reconnect_host attempt i h).state ≡ host_connected
unfolding reconnect_host
reconnect_host_connected attempt i h = elim (Bool-cases (is_reconnected h.state)) [
  | inl e ↦ rw (e, reconnect_host) refl
  | inr e ↦ rw (e, reconnect_host) refl
]

-- A host that was asked for no input is asked for none, and one that was open and is renewed too.
reconnect_host_deaf :
    (attempt : ℕ → Option ℕ) (i : ℕ) (h : Host)
    → (h.pollin ≡ false) ⊎ ((is_open h ≡ true) × (is_reconnected h.state ≡ false))
    → (reconnect_host attempt i h).pollin ≡ false
unfolding reconnect_host close_conn
reconnect_host_deaf attempt i h d = elim (Bool-cases (is_reconnected h.state)) [
  | inl e ↦ rw (e, reconnect_host) (ground (arith, d))
  | inr e ↦ elim (Bool-cases (is_open h)) [
    | inl o ↦ rw (e, o, reconnect_host, close_conn) refl
    | inr o ↦ rw (e, o, reconnect_host, close_conn) (ground (arith, d))
  ]
]

reconnect_all-at :
    (attempt : ℕ → Option ℕ) (count : ℕ) (vhost : Hosts) (j : ℕ)
    → j < count
    → reconnect_all attempt count vhost j ≡ reconnect_host attempt j (vhost j)
unfolding reconnect_all
reconnect_all-at attempt count vhost j h =
    let inside : ltb j count ≡ true = omega tests in rw (inside, reconnect_all)

sessions_reconnect-all :
    (attempt again : ℕ → Option ℕ) (count : ℕ) (vhost : Hosts)
    → (sessions_reconnect attempt again count vhost).0 ≡ true
    → (sessions_reconnect attempt again count vhost).1
      ≡ reconnect_all again count (reconnect_loop attempt count 0 vhost true).1
unfolding sessions_reconnect
sessions_reconnect-all attempt again count vhost e = rw e refl

-- Once `sessions_reconnect` reports that all sessions are back, every connection is marked as
-- connected.
pub sessions_reconnect_connected :
    (attempt again : ℕ → Option ℕ) (count : ℕ) (vhost : Hosts) (j : ℕ)
    → (sessions_reconnect attempt again count vhost).0 ≡ true
    → j < count
    → ((sessions_reconnect attempt again count vhost).1 j).state ≡ host_connected
sessions_reconnect_connected attempt again count vhost j e h =
    ap (λ v. (v j).state) (sessions_reconnect-all attempt again count vhost e)
    ∙ ap (λ x. x.state) (reconnect_all-at again count _ j h)
    ∙ reconnect_host_connected again j _

-- The attempt at a host that does not ask for input, or is open and not to be renewed yet.
abbrev Deaf : Host → Type 0
Deaf h = (h.pollin ≡ false) ⊎ ((is_open h ≡ true) × (is_reconnected h.state ≡ false))

-- A connection that is open, and is neither lost nor just renewed.
abbrev pub Settled : Host → Type 0
Settled h =
    (is_open h ≡ true) × (is_disconnected h.state ≡ false) × (is_reconnected h.state ≡ false)

try_host-Deaf :
    (attempt : ℕ → Option ℕ) (i : ℕ) (h : Host)
    → (h.pollin ≡ false) ⊎ Settled h
    → Deaf (try_host attempt i h).0
unfolding try_host
try_host-Deaf attempt i h d = elim (Bool-cases (is_disconnected h.state)) [
  | inr e ↦
      rw (e, try_host)
        (elim d [ inl quiet ↦ inl quiet | inr (opened, up, settled) ↦ inr (opened, settled) ])
  | inl e ↦ elim d [
    | inl quiet ↦ elim (Option-cases (attempt i)) [
      | inl lost ↦ rw (e, lost, try_host) (inl quiet)
      | inr (fd, found) ↦ rw (e, found, try_host) (inl quiet)
    ]
    | inr (opened, up, settled) ↦ absurd (ground (arith, up, e))
  ]
]

change_other : (i j : ℕ) (f : Host → Host) (vhost : Hosts) → j ≢ i → change i f vhost j ≡ vhost j
change_other i j f vhost h = let other : (j == i) ≡ false = ground (arith, ==_iff j i) in rw other

change_at : (i : ℕ) (f : Host → Host) (vhost : Hosts) → change i f vhost i ≡ f (vhost i)
change_at i f vhost = let here : (i == i) ≡ true = ground arith in rw here

reconnect_loop-suc :
    (attempt : ℕ → Option ℕ) (k i : ℕ) (vhost : Hosts) (b : Bool)
    → (let tried = try_host attempt i (vhost i) in
        reconnect_loop attempt (suc k) i vhost b
        ≡ reconnect_loop attempt k (suc i) (change i (λ _. tried.0) vhost) (b && not tried.1))
unfolding reconnect_loop
reconnect_loop-suc attempt k i vhost b = refl

reconnect_loop-before :
    (attempt : ℕ → Option ℕ) (k i : ℕ) (vhost : Hosts) (b : Bool) (j : ℕ)
    → j < i
    → (reconnect_loop attempt k i vhost b).1 j ≡ vhost j
reconnect_loop-before attempt zero i vhost b j h = unfold reconnect_loop in refl
reconnect_loop-before attempt (suc k) i vhost b j h =
    let tried = try_host attempt i (vhost i) in
    let ne : j ≢ i = λ e. omega arith in
    ap (λ r. r.1 j) (reconnect_loop-suc attempt k i vhost b)
    ∙ reconnect_loop-before attempt k (suc i) (change i (λ _. tried.0) vhost) (b && not tried.1) j
        (omega arith)
    ∙ change_other i j (λ _. tried.0) vhost ne

reconnect_loop-at :
    (attempt : ℕ → Option ℕ) (k i : ℕ) (vhost : Hosts) (b : Bool) (j : ℕ)
    → i ≤ j
    → j < i + k
    → (reconnect_loop attempt k i vhost b).1 j ≡ (try_host attempt j (vhost j)).0
reconnect_loop-at attempt zero i vhost b j h m = absurd (omega arith)
reconnect_loop-at attempt (suc k) i vhost b j h m =
    let tried = try_host attempt i (vhost i) in
    let v : Hosts = change i (λ _. tried.0) vhost in
    ap (λ r. r.1 j) (reconnect_loop-suc attempt k i vhost b) ∙ elim (dec_lt i j) [
      | yes behind ↦
          let ne : j ≢ i = λ e. omega arith in
          reconnect_loop-at attempt k (suc i) v (b && not tried.1) j (omega arith) (omega arith)
          ∙ ap (λ x. (try_host attempt j x).0) (change_other i j (λ _. tried.0) vhost ne)
      | no at ↦
          let here : j ≡ i = omega arith in
          reconnect_loop-before attempt k (suc i) v (b && not tried.1) j (omega arith)
          ∙ ap (λ n. v n) here
          ∙ change_at i (λ _. tried.0) vhost
          ∙ sym (ap (λ n. (try_host attempt n (vhost n)).0) here)
    ]

-- Once `sessions_reconnect` reports that all sessions are back, no connection that was closed before
-- (and so asked for no input), or was open and neither lost nor just renewed, is polled for input any more: closing it
-- cleared its `events`, and nothing sets POLLIN again.
pub sessions_reconnect_deaf :
    (attempt again : ℕ → Option ℕ) (count : ℕ) (vhost : Hosts) (j : ℕ)
    → (sessions_reconnect attempt again count vhost).0 ≡ true
    → j < count
    → ((vhost j).pollin ≡ false) ⊎ Settled (vhost j)
    → ((sessions_reconnect attempt again count vhost).1 j).pollin ≡ false
sessions_reconnect_deaf attempt again count vhost j e h d =
    ap (λ v. (v j).pollin) (sessions_reconnect-all attempt again count vhost e)
    ∙ ap (λ x. x.pollin) (reconnect_all-at again count _ j h)
    ∙ ap (λ x. (reconnect_host again j x).pollin)
        (reconnect_loop-at attempt count 0 vhost true j (omega arith) (omega arith))
    ∙ reconnect_host_deaf again j (try_host attempt j (vhost j)).0
        (try_host-Deaf attempt j (vhost j) d)
