-- ===== src/Sessions/Events/Turns.antt =====
-- A connection waits for its pipe or for its socket, by turns.
use remote_virtio_gpu.Prelude.{
  ℕ, ◌<◌, ◌≡◌, refl, Option, none, some, Bool, true, false, ◌||◌, ◌==◌, ltb, arith, length,
  if_either, if◌then◌else◌,
}
use remote_virtio_gpu.Sessions.Events.{
  Link, set_pfd, close_link, renew_link, await_socket, send_out, take_in, receive,
}

-- The pipe's POLLIN and the socket's POLLOUT are not both waited for; when it is the socket's, there
-- are bytes in the pipe; and no `splice` has waited on an empty pipe so far.
pub record Turn (l : Link) : Type 0 where
  pub never_both : l.host_out ≡ true → l.pipe_in ≡ false
  pub filled : l.host_out ≡ true → 0 < length l.outgoing
  pub unblocked : l.blocked ≡ false

-- `poll` reports what was asked for, and a pipe as readable when it has bytes.
pub record Polled (l : Link) : Type 0 where
  pub asked_out : l.writable ≡ true → l.host_out ≡ true
  pub asked_in : l.pipe_readable ≡ true → l.pipe_in ≡ true
  pub has_bytes : l.pipe_readable ≡ true → 0 < length l.outgoing

-- Behind the first loop.
pub record Armed (l : Link) : Type 0 where
  pub turn : Turn l
  pub asked : l.writable ≡ true → l.host_out ≡ true

pub set_pfd-Turn : (l : Link) → l.blocked ≡ false → Turn (set_pfd l)
unfolding set_pfd
set_pfd-Turn l e = record {
  never_both = λ e. absurd (ground arith);
  filled = λ e. absurd (ground arith);
  unblocked = e;
}

pub await_socket-Armed : (l : Link) → Turn l → Polled l → Armed (await_socket l)
unfolding await_socket
await_socket-Armed l t p =
    if_either Armed l.pipe_readable (record l { pipe_in = false; host_out = true }) l
      (λ e. record {
        turn = record {
          never_both = λ _. refl;
          filled = λ _. p.has_bytes e;
          unblocked = t.unblocked;
        };
        asked = λ _. refl;
      })
      (λ e. record { turn = t; asked = p.asked_out })

not_blocked : (b : Bool) (n : ℕ) → b ≡ false → 0 < n → (b || (n == 0)) ≡ false
not_blocked b n e h = ground (arith, e, h)

pub send_out-Turn : (l : Link) → Armed l → Turn (send_out l)
unfolding send_out
send_out-Turn l t =
    if_either Turn l.writable _ l
      (λ e. record {
        never_both = λ x. absurd (ground arith);
        filled = λ x. absurd (ground arith);
        unblocked =
            not_blocked l.blocked (length l.outgoing) t.turn.unblocked (t.turn.filled (t.asked e));
      })
      (λ e. t.turn)

pub take_in-Turn : (l : Link) → Turn l → Turn (take_in l)
unfolding take_in
take_in-Turn l t = record { never_both = t.never_both; filled = t.filled; unblocked = t.unblocked }

-- What holds of a connection when `poll` has returned.
pub record Ready (l : Link) : Type 0 where
  pub turn : Turn l
  pub polled : Polled l

pub close_link-Ready : (l : Link) → Ready l → Ready (close_link l)
unfolding close_link
close_link-Ready l r = either l.fd
  where
    closed : Link
    closed = record l {
      fd = none;
      host_in = false;
      host_out = false;
      readable = false;
      writable = false;
      broken = false;
    }

    closed-Ready : Ready closed
    closed-Ready = record {
      turn = record {
        never_both = λ x. absurd (ground arith);
        filled = λ x. absurd (ground arith);
        unblocked = r.turn.unblocked;
      };
      polled = record {
        asked_out = λ x. absurd (ground arith);
        asked_in = r.polled.asked_in;
        has_bytes = r.polled.has_bytes;
      };
    }

    either :
        (fd : Option ℕ) → Ready (elim fd [ none ↦ l | some fd ↦ if ltb 0 fd then closed else l ])
    either none = r
    either (some fd) = if_either Ready (ltb 0 fd) closed l (λ _. closed-Ready) (λ _. r)

pub renew_link-Ready : (fd : Option ℕ) (l : Link) → Ready l → Ready (renew_link fd l)
unfolding renew_link
renew_link-Ready fd l r = record {
  turn = record {
    never_both = r.turn.never_both;
    filled = r.turn.filled;
    unblocked = r.turn.unblocked;
  };
  polled = record {
    asked_out = r.polled.asked_out;
    asked_in = r.polled.asked_in;
    has_bytes = r.polled.has_bytes;
  };
}

-- What holds of a connection when the loop goes on.
abbrev pub Still : (Link → Type 0) → Option Link → Type 0
Still P none = Unit {0}
Still P (some l) = P l

either_way :
    (P : Link → Type 0) (fd : Option ℕ) (readable closed : Bool) (x y : Link)
    → P x
    → P y
    → Still P (elim fd [
      | none ↦ some x
      | some fd ↦ elim readable [ false ↦ some x | true ↦ if closed then none else some y ]
    ])
either_way P none readable closed x y p q = p
either_way P (some fd) false closed x y p q = p
either_way P (some fd) true true x y p q = tt
either_way P (some fd) true false x y p q = q

-- A connection is left alone or read from.
pub receive-Still : (P : Link → Type 0) (l : Link) → P l → P (take_in l) → Still P (receive l)
unfolding receive
receive-Still P l p q = either_way P l.fd l.readable l.closed l (take_in l) p q
