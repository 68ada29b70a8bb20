-- ===== src/Sessions/Events/Reached.antt =====
-- The loop of `thread_conn_tcp`, as steps from the connections that `set_pfd` makes ready.
use remote_virtio_gpu.Prelude.{
  ℕ, ◌<◌, ◌≡◌, sym, ap, ◌∙◌, List, [], ◌∷◌, ◌++◌, map, Option, true, false, arith, length, All,
  length-append,
}
use remote_virtio_gpu.Sessions.Events.{
  Link, Links, set_pfd, close_link, renew_link, await_socket, in_out_events,
}
use remote_virtio_gpu.Sessions.Events.Turns.{
  Turn, Polled, Ready, set_pfd-Turn, await_socket-Armed, send_out-Turn, take_in-Turn,
  close_link-Ready, renew_link-Ready,
}
use remote_virtio_gpu.Sessions.Events.Passing.{Pairs, sent_out, in_out_events-Pairs}

-- What happens to a connection while the loop waits in `poll`: the program writes into its pipe,
-- bytes arrive at its socket, and `poll` reports.
pub record Waited (l l' : Link) : Type 0 where
  pub events_in : l'.pipe_in ≡ l.pipe_in
  pub events_out : l'.host_out ≡ l.host_out
  pub bytes : List ℕ
  pub written : l'.outgoing ≡ l.outgoing ++ bytes
  pub arrived : List ℕ
  pub received : l'.incoming ≡ l.incoming ++ arrived
  pub still_sent : l'.sent ≡ l.sent
  pub still_passed_on : l'.passed_on ≡ l.passed_on
  pub still_blocked : l'.blocked ≡ l.blocked
  pub polled : Polled l'

-- What `sessions_hung` and `sessions_reconnect` may do with a connection behind `poll`: close it and
-- connect it again, as often as they like.
pub data Handled (l : Link) : Link → Type 0 where
  untouched : Handled l l
  closed : {m : Link} → Handled l m → Handled l (close_link m)
  renewed : {m : Link} (fd : Option ℕ) → Handled l m → Handled l (renew_link fd m)

-- What happens to a connection between two calls of `in_out_events`.
pub record Rounded (l l' : Link) : Type 0 where
  pub polled : Link
  pub waited : Waited l polled
  pub handled : Handled polled l'

abbrev pub Unblocked : Link → Type 0
Unblocked l = l.blocked ≡ false

-- The states in which `in_out_events` is called.
pub data Reachable (start : List Link × List Link) : Links → Type 0 where
  begin :
      {w : Links}
      → All Unblocked start.0 × All Unblocked start.1
      → w.interrupted ≡ false
      → Pairs Rounded (map set_pfd start.0) w.cmd
      → Pairs Rounded (map set_pfd start.1) w.res
      → Reachable start w
  round :
      {w w' : Links}
      → Reachable start w
      → (in_out_events w).interrupted ≡ false
      → Pairs Rounded (in_out_events w).cmd w'.cmd
      → Pairs Rounded (in_out_events w).res w'.res
      → Reachable start w'

Waited-Ready : (l l' : Link) → Turn l → Waited l l' → Ready l'
Waited-Ready l l' t w = record {
  turn = record {
    never_both = λ e. w.events_in ∙ t.never_both (sym w.events_out ∙ e);
    filled = λ e.
        let more = t.filled (sym w.events_out ∙ e) in
        omega (arith, more, ap length w.written, length-append l.outgoing w.bytes);
    unblocked = w.still_blocked ∙ t.unblocked;
  };
  polled = w.polled;
}

Handled-Ready : (l l' : Link) → Ready l → Handled l l' → Ready l'
Handled-Ready l l' r untouched = r
Handled-Ready l l' r (closed {m = m} h) = close_link-Ready m (Handled-Ready l m r h)
Handled-Ready l l' r (renewed {m = m} fd h) = renew_link-Ready fd m (Handled-Ready l m r h)

Rounded-Ready : (l l' : Link) → Turn l → Rounded l l' → Ready l'
Rounded-Ready l l' t r = Handled-Ready r.polled l' (Waited-Ready l r.polled t r.waited) r.handled

-- A relation leads from what holds of the one list to what holds of the other.
Pairs-All :
    (R : Link → Link → Type 0) (P Q : Link → Type 0)
    → ((l l' : Link) → P l → R l l' → Q l')
    → (ls ls' : List Link) → Pairs R ls ls'
    → All P ls
    → All Q ls'
Pairs-All R P Q f [] [] r p = tt
Pairs-All R P Q f [] (y ∷ ys) r p = absurd r
Pairs-All R P Q f (x ∷ xs) [] r p = absurd r
Pairs-All R P Q f (x ∷ xs) (y ∷ ys) (r, rs) (p, ps) = (f x y p r, Pairs-All R P Q f xs ys rs ps)

set_pfd-All : (ls : List Link) → All Unblocked ls → All Turn (map set_pfd ls)
set_pfd-All [] a = tt
set_pfd-All (l ∷ ls) (e, rest) = (set_pfd-Turn l e, set_pfd-All ls rest)

-- The turns go on in a call of `in_out_events`.
abbrev GoesOn : Link → Link → Type 0
GoesOn l l' = Ready l → Turn l'

sent_out-GoesOn : (l : Link) → GoesOn l (sent_out l)
sent_out-GoesOn l r = send_out-Turn (await_socket l) (await_socket-Armed l r.turn r.polled)

events-GoesOn :
    (w : Links)
    → Pairs GoesOn w.cmd (in_out_events w).cmd × Pairs GoesOn w.res (in_out_events w).res
events-GoesOn w =
    in_out_events-Pairs GoesOn sent_out-GoesOn
      (λ l r. take_in-Turn (sent_out l) (sent_out-GoesOn l r)) (λ l r. r.turn) w

turned : (l l' : Link) → Ready l → GoesOn l l' → Turn l'
turned l l' r f = f r

events-Turn :
    (w : Links)
    → All Ready w.cmd × All Ready w.res
    → All Turn (in_out_events w).cmd × All Turn (in_out_events w).res
events-Turn w (c, s) =
    let (gc, gs) = events-GoesOn w in
    (
      Pairs-All GoesOn Ready Turn turned w.cmd (in_out_events w).cmd gc c,
      Pairs-All GoesOn Ready Turn turned w.res (in_out_events w).res gs s,
    )

reached-Ready :
    (start : List Link × List Link) (w : Links)
    → Reachable start w
    → All Ready w.cmd × All Ready w.res
reached-Ready start w (begin (uc, us) ok cmd res) = (
  Pairs-All Rounded Turn Ready Rounded-Ready (map set_pfd start.0) w.cmd cmd
      (set_pfd-All start.0 uc),
  Pairs-All Rounded Turn Ready Rounded-Ready (map set_pfd start.1) w.res res
      (set_pfd-All start.1 us),
)
reached-Ready start w' (round {w = w} r ok cmd res) =
    let (tc, ts) = events-Turn w (reached-Ready start w r) in
    (
      Pairs-All Rounded Turn Ready Rounded-Ready (in_out_events w).cmd w'.cmd cmd tc,
      Pairs-All Rounded Turn Ready Rounded-Ready (in_out_events w).res w'.res res ts,
    )

-- A connection none of whose calls of `splice` waited on an empty pipe, which waits for its socket
-- only when its pipe has bytes and is not waited for.
abbrev pub Fed : Link → Type 0
Fed l = (l.blocked ≡ false) × (l.host_out ≡ true → (l.pipe_in ≡ false) × (0 < length l.outgoing))

Turn-Fed : (ls : List Link) → All Turn ls → All Fed ls
Turn-Fed [] r = tt
Turn-Fed (l ∷ ls) (t, ts) = ((t.unblocked, λ e. (t.never_both e, t.filled e)), Turn-Fed ls ts)

-- Behind every call of `in_out_events` that the loop makes, from `set_pfd` on, whatever the program
-- writes, the renderers send and the kernel moves, and whichever connections `sessions_hung` and
-- `sessions_reconnect` close and renew between `poll` and the call: no `splice` towards a socket, of
-- this call or of an earlier one, was made on an empty pipe, where it would stop the thread; and a
-- connection that waits for its socket has bytes in its pipe and does not wait for the pipe as well.
-- It is assumed that `poll` reports nothing that it was not asked for, and a pipe as readable only
-- when bytes are in it.
pub reachable-Fed :
    (start : List Link × List Link) (w : Links)
    → Reachable start w
    → All Fed (in_out_events w).cmd × All Fed (in_out_events w).res
reachable-Fed start w r =
    let (c, s) = events-Turn w (reached-Ready start w r) in
    (Turn-Fed (in_out_events w).cmd c, Turn-Fed (in_out_events w).res s)
