-- ===== src/Sessions/Hung.antt =====
-- Closing the hung connections: none is left, and the two connections of a host go together.
use native.Mathlib.Decide.{dec_lt}
use mathlib.Core.Path.{subst}
use remote_virtio_gpu.Prelude.{
  ℕ, zero, suc, ◌+◌, ◌-◌, ◌<◌, ◌≡◌, ◌≢◌, refl, sym, ap, ◌∙◌, ◌⊎◌, inl, inr, Bool, true, false,
  arith, ltb, ◌==◌, if◌then◌else◌, Bool-cases, ==_iff, sub32,
}
use remote_virtio_gpu.Sessions.{
  Host, Hosts, is_open, change, close_conn, disconnect, is_hung, hung_loop, sessions_hung,
}

close_conn_closed : (h : Host) → is_open (close_conn h) ≡ false
unfolding close_conn
close_conn_closed h = elim (Bool-cases (is_open h)) [
  | inl e ↦ rw (e, close_conn) refl
  | inr e ↦ rw (e, close_conn) e
]

closed_not_hung : (h : Host) → is_open h ≡ false → is_hung h ≡ false
closed_not_hung h e = ground arith

-- The host of a connection, and its two connections.
abbrev cmd_of : ℕ → ℕ → ℕ
cmd_of n i = if ltb i n then i else i - n

abbrev res_of : ℕ → ℕ → ℕ
res_of n i = if ltb i n then i + n else i

change_same : (i j : ℕ) (f : Host → Host) (vhost : Hosts) → j ≢ i → change i f vhost j ≡ vhost j
change_same i j f vhost h = let other : (j == i) ≡ false = ground (arith, ==_iff j i) in rw other

change_here : (i : ℕ) (f : Host → Host) (vhost : Hosts) → change i f vhost i ≡ f (vhost i)
change_here i f vhost = let here : (i == i) ≡ true = ground arith in rw here

module _ (n i : ℕ) (vhost : Hosts) (some_host : 0 < n) where
  disconnect_lem :
      disconnect n n i vhost ≡ change (res_of n i) close_conn (change (cmd_of n i) close_conn vhost)
  unfolding disconnect
  disconnect_lem = let positive : (n == 0) ≡ false = ground arith in rw (positive, disconnect) refl

  -- A connection is closed by it, or stays as it was.
  disconnect_cases :
      (j : ℕ)
      → ((is_open (disconnect n n i vhost j) ≡ false) × ((j ≡ cmd_of n i) ⊎ (j ≡ res_of n i)))
        ⊎ ((disconnect n n i vhost j ≡ vhost j) × (j ≢ cmd_of n i) × (j ≢ res_of n i))
  disconnect_cases j =
      let e = ap (λ v. v j) disconnect_lem in
      elim (Bool-cases (j == res_of n i)) [
        | inl at_res ↦
            let here : j ≡ res_of n i = (==_iff j (res_of n i)).0 at_res in
            inl (
              ap is_open (
                    e
                    ∙ ap
                        (λ k.
                          change (res_of n i) close_conn (change (cmd_of n i) close_conn vhost) k)
                        here
                    ∙ change_here (res_of n i) close_conn (change (cmd_of n i) close_conn vhost))
                  ∙ close_conn_closed _,
              inr here,
            )
        | inr not_res ↦
            let away : j ≢ res_of n i = λ p. ground (arith, ==_iff j (res_of n i)) in
            let e' =
              e
              ∙ change_same (res_of n i) j close_conn (change (cmd_of n i) close_conn vhost) away in
            elim (Bool-cases (j == cmd_of n i)) [
              | inl at_cmd ↦
                  let here : j ≡ cmd_of n i = (==_iff j (cmd_of n i)).0 at_cmd in
                  inl (
                    ap is_open (
                          e'
                          ∙ ap (λ k. change (cmd_of n i) close_conn vhost k) here
                          ∙ change_here (cmd_of n i) close_conn vhost)
                        ∙ close_conn_closed _,
                    inl here,
                  )
              | inr not_cmd ↦
                  let away' : j ≢ cmd_of n i = λ p. ground (arith, ==_iff j (cmd_of n i)) in
                  inr (e' ∙ change_same (cmd_of n i) j close_conn vhost away', away', away)
            ]
      ]

-- The command connection and the resource connection of each of `n` hosts are both open or both
-- closed.
abbrev pub Paired : ℕ → Hosts → Type 0
Paired n vhost = (j : ℕ) → j < n → is_open (vhost j) ≡ is_open (vhost (j + n))

disconnect-not_hung :
    (n i : ℕ) (vhost : Hosts) (j : ℕ)
    → 0 < n
    → is_hung (vhost j) ≡ false
    → is_hung (disconnect n n i vhost j) ≡ false
disconnect-not_hung n i vhost j p h = elim (disconnect_cases n i vhost p j) [
  | inl (closed, which) ↦ closed_not_hung (disconnect n n i vhost j) closed
  | inr (same, not_cmd, not_res) ↦ ap is_hung same ∙ h
]

-- The connection itself is closed.
disconnect_closes :
    (n i : ℕ) (vhost : Hosts) → i < n + n → is_open (disconnect n n i vhost i) ≡ false
disconnect_closes n i vhost h = elim (disconnect_cases n i vhost (omega arith) i) [
  | inl (closed, which) ↦ closed
  | inr (same, not_cmd, not_res) ↦ absurd (elim (dec_lt i n) [
    | yes low ↦ let e : i ≡ cmd_of n i = ground arith in not_cmd e
    | no high ↦ let e : i ≡ res_of n i = ground arith in not_res e
  ])
]

disconnect-Paired :
    (n i : ℕ) (vhost : Hosts) → i < n + n → Paired n vhost → Paired n (disconnect n n i vhost)
disconnect-Paired n i vhost h pair j k = elim (disconnect_cases n i vhost (omega arith) j) [
  | inl (closed, which) ↦ elim (disconnect_cases n i vhost (omega arith) (j + n)) [
    | inl (closed', which') ↦ closed ∙ sym closed'
    | inr (same', not_cmd', not_res') ↦ absurd (other_end which not_cmd' not_res')
  ]
  | inr (same, not_cmd, not_res) ↦ elim (disconnect_cases n i vhost (omega arith) (j + n)) [
    | inl (closed', which') ↦ absurd (this_end which' not_cmd not_res)
    | inr (same', not_cmd', not_res') ↦ ap is_open same ∙ pair j k ∙ sym (ap is_open same')
  ]
]
  where
    other_end : (j ≡ cmd_of n i) ⊎ (j ≡ res_of n i) → j + n ≢ cmd_of n i → j + n ≢ res_of n i → ⊥
    other_end which a b = elim (dec_lt i n) [
      | yes low ↦ ground (arith, which)
      | no high ↦ ground (arith, which)
    ]

    this_end : (j + n ≡ cmd_of n i) ⊎ (j + n ≡ res_of n i) → j ≢ cmd_of n i → j ≢ res_of n i → ⊥
    this_end which a b = elim (dec_lt i n) [
      | yes low ↦ ground (arith, which)
      | no high ↦ ground (arith, which)
    ]

module _ (n k i : ℕ) (vhost : Hosts) (active : ℕ) (hung : Bool) where
  hung_loop-hung :
      is_hung (vhost i) ≡ true
      → hung_loop n n (suc k) i vhost active hung
        ≡ hung_loop n n k (suc i) (disconnect n n i vhost) (sub32 active 1) true
  unfolding hung_loop
  hung_loop-hung e = rw (e, hung_loop)

  hung_loop-well :
      is_hung (vhost i) ≡ false
      → hung_loop n n (suc k) i vhost active hung ≡ hung_loop n n k (suc i) vhost active hung
  unfolding hung_loop
  hung_loop-well e = rw (e, hung_loop)

-- Before `i` none is hung.
abbrev pub NoneHung : ℕ → Hosts → Type 0
NoneHung i vhost = (j : ℕ) → j < i → is_hung (vhost j) ≡ false

NoneHung-suc :
    (i : ℕ) (vhost : Hosts) → NoneHung i vhost → is_hung (vhost i) ≡ false → NoneHung (suc i) vhost
NoneHung-suc i vhost h e j k = elim (dec_lt j i) [
  | yes before ↦ h j before
  | no at ↦ let here : j ≡ i = omega arith in ap (λ m. is_hung (vhost m)) here ∙ e
]

hung_loop-NoneHung :
    (n k i : ℕ) (vhost : Hosts) (active : ℕ) (hung : Bool)
    → k + i ≡ n + n
    → NoneHung i vhost
    → Paired n vhost
    → NoneHung (n + n) (hung_loop n n k i vhost active hung).2
      × Paired n (hung_loop n n k i vhost active hung).2
hung_loop-NoneHung n zero i vhost active hung e none_hung pair =
    unfold hung_loop in ((λ j h. none_hung j (omega arith)), pair)
hung_loop-NoneHung n (suc k) i vhost active hung e none_hung pair =
    elim (Bool-cases (is_hung (vhost i))) [
      | inl yes_hung ↦
          let closed = disconnect_closes n i vhost (omega arith) in
          subst (λ r. NoneHung (n + n) r.2 × Paired n r.2)
            (sym (hung_loop-hung n k i vhost active hung yes_hung))
            (hung_loop-NoneHung n k (suc i) (disconnect n n i vhost) (sub32 active 1) true
              (omega arith)
              (NoneHung-suc i (disconnect n n i vhost)
                (λ j h. disconnect-not_hung n i vhost j (omega arith) (none_hung j h))
                (closed_not_hung (disconnect n n i vhost i) closed))
              (disconnect-Paired n i vhost (omega arith) pair))
      | inr well ↦
          subst (λ r. NoneHung (n + n) r.2 × Paired n r.2)
            (sym (hung_loop-well n k i vhost active hung well))
            (hung_loop-NoneHung n k (suc i) vhost active hung (omega arith)
              (NoneHung-suc i vhost none_hung well) pair)
    ]

-- With a command connection and a resource connection for each of `n` renderers, `sessions_hung`
-- leaves no connection that is open and has bytes waiting, and closes the two connections of a
-- renderer together: if they were both open or both closed before, they are so afterwards.
pub sessions_hung_lem :
    (n : ℕ) (vhost : Hosts) (active : ℕ)
    → Paired n vhost
    → NoneHung (n + n) (sessions_hung n n vhost active (n + n)).2
      × Paired n (sessions_hung n n vhost active (n + n)).2
unfolding sessions_hung
sessions_hung_lem n vhost active pair =
    hung_loop-NoneHung n (n + n) 0 vhost active false (omega arith) (λ j h. absurd (omega arith))
      pair
