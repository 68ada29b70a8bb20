-- ===== src/Sessions/Events/Passing.antt =====
-- What a call of `in_out_events` does to each of the connections.
use remote_virtio_gpu.Prelude.{List, [], ◌∷◌, map, Option, none, some, Bool, true, false, ◌||◌}
use remote_virtio_gpu.Sessions.Events.{
  Link, Links, await_socket, send_out, take_in, receive, receive_loop, serve_links, in_out_events,
  any_broken,
}
use remote_virtio_gpu.Sessions.Events.Turns.{Still, receive-Still}

-- The elements of two lists are related one by one.
abbrev pub Pairs : (Link → Link → Type 0) → List Link → List Link → Type 0
Pairs R [] [] = Unit {0}
Pairs R (x ∷ xs) (y ∷ ys) = R x y × Pairs R xs ys
Pairs R _ _ = ⊥

-- What both loops before the sockets' do with a connection.
abbrev pub sent_out : Link → Link
sent_out l = send_out (await_socket l)

module _ (R : Link → Link → Type 0) (outward : (l : Link) → R l (sent_out l))
    (inward : (l : Link) → R l (take_in (sent_out l))) where
  Pairs-sent_out : (ls : List Link) → Pairs R ls (map send_out (map await_socket ls))
  Pairs-sent_out [] = tt
  Pairs-sent_out (l ∷ ls) = (outward l, Pairs-sent_out ls)

  loop_Pairs :
      (o : Option Link) (x y : Link) (xs ys : List Link) (r : Bool × List Link)
      → R x y
      → Still (R x) o
      → Pairs R xs ys
      → Pairs R xs r.1
      → Pairs R
          (x ∷ xs)
          (elim o as (λ _. Bool × List Link) [ none ↦ (true, y ∷ ys) | some l ↦ (r.0, l ∷ r.1) ]).1
  loop_Pairs none x y xs ys r p q a b = (p, a)
  loop_Pairs (some l) x y xs ys r p q a b = (q, b)

  serve_links-Pairs : (ls : List Link) → Pairs R ls (serve_links ls).1
  unfolding serve_links receive_loop
  serve_links-Pairs [] = tt
  serve_links-Pairs (l ∷ ls) =
      loop_Pairs (receive (send_out (await_socket l))) l (send_out (await_socket l)) ls
        (map send_out (map await_socket ls)) (receive_loop (map send_out (map await_socket ls)))
        (outward l) (receive-Still (R l) (send_out (await_socket l)) (outward l) (inward l))
        (Pairs-sent_out ls) (serve_links-Pairs ls)

  module _ (still : (l : Link) → R l l) where
    Pairs-same : (ls : List Link) → Pairs R ls ls
    Pairs-same [] = tt
    Pairs-same (l ∷ ls) = (still l, Pairs-same ls)

    -- Each connection is left alone, or sent to, or sent to and read from.
    pub in_out_events-Pairs :
        (w : Links) → Pairs R w.cmd (in_out_events w).cmd × Pairs R w.res (in_out_events w).res
    unfolding in_out_events
    in_out_events-Pairs w =
        cases (any_broken w.cmd || any_broken w.res) (serve_links w.cmd) (serve_links w.res)
          (serve_links-Pairs w.cmd) (serve_links-Pairs w.res)
      where
        after : Bool → Bool × List Link → Bool × List Link → Links
        after broken c r = elim broken [
          | true ↦ record w { interrupted = true }
          | false ↦ elim c.0 [
            | true ↦ record w { interrupted = true; cmd = c.1 }
            | false ↦ record w { interrupted = w.interrupted || r.0; cmd = c.1; res = r.1 }
          ]
        ]

        cases :
            (broken : Bool) (c r : Bool × List Link)
            → Pairs R w.cmd c.1
            → Pairs R w.res r.1
            → Pairs R w.cmd (after broken c r).cmd × Pairs R w.res (after broken c r).res
        cases true c r p q = (Pairs-same w.cmd, Pairs-same w.res)
        cases false (true, c) r p q = (p, Pairs-same w.res)
        cases false (false, c) r p q = (p, q)
