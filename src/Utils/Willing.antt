-- ===== src/Utils/Willing.antt =====
-- A kernel that goes on answering moves all of a buffer, however it cuts it up.
use Prim.Native.Nat.{min}
use remote_virtio_gpu.Prelude.{
  take-drop, ℕ, zero, suc, ◌+◌, ◌-◌, ◌≤◌, ◌≡◌, sym, ap, ◌∙◌, List, [], ◌∷◌, ◌++◌, some, arith,
  length, take, drop, length-append, length-take, length-drop, append_assoc, append-nil, take_add,
  drop_add, pair_eq,
}
use remote_virtio_gpu.Utils.{
  Answer, moved, stopped, again, interrupted, failed, Io, returned, Written, write_loop, write_all,
  Received, read_all_loop, read_all,
}

-- No answer is an error or 0; how many of them move something.
abbrev pub Willing : List Answer → Type 0
Willing [] = Unit {0}
Willing (moved k ∷ ks) = Willing ks
Willing (again ∷ ks) = Willing ks
Willing (interrupted ∷ ks) = Willing ks
Willing (stopped ∷ ks) = ⊥
Willing (failed ∷ ks) = ⊥

abbrev pub moves : List Answer → ℕ
moves [] = 0
moves (moved k ∷ ks) = suc (moves ks)
moves (again ∷ ks) = moves ks
moves (interrupted ∷ ks) = moves ks
moves (stopped ∷ ks) = moves ks
moves (failed ∷ ks) = moves ks

-- All was written behind `sent`, and at most one moving answer was taken for each byte.
pub record AllWritten (ks : List Answer) (sent rest : List ℕ) (r : Io Written) : Type 0 where
  pub left : List Answer
  pub all :
      r
      ≡ returned
          (record { sent = sent ++ rest; result = some (length (sent ++ rest)); answers = left })
  pub willing : Willing left
  pub enough : moves ks ≤ moves left + length rest

write_loop-AllWritten :
    (ks : List Answer) (sent rest : List ℕ)
    → Willing ks
    → length rest ≤ moves ks
    → AllWritten ks sent rest (write_loop ks sent rest)
unfolding write_loop
write_loop-AllWritten ks sent [] w h = record {
  left = ks;
  all = rw (append-nil sent);
  willing = w;
  enough = omega arith;
}
write_loop-AllWritten [] sent (b ∷ bs) w h = absurd (omega arith)
write_loop-AllWritten (again ∷ ks) sent (b ∷ bs) w h =
    let r = write_loop-AllWritten ks sent (b ∷ bs) w h in
    record { left = r.left; all = r.all; willing = r.willing; enough = r.enough }
write_loop-AllWritten (interrupted ∷ ks) sent (b ∷ bs) w h =
    let r = write_loop-AllWritten ks sent (b ∷ bs) w h in
    record { left = r.left; all = r.all; willing = r.willing; enough = r.enough }
write_loop-AllWritten (moved k ∷ ks) sent (b ∷ bs) w h =
    let n = length-drop k bs in
    let r = write_loop-AllWritten ks (sent ++ (b ∷ take k bs)) (drop k bs) w (omega (arith, n)) in
    let joined : (sent ++ (b ∷ take k bs)) ++ drop k bs ≡ sent ++ (b ∷ bs) =
      append_assoc sent (b ∷ take k bs) (drop k bs) ∙ ap (λ l. sent ++ (b ∷ l)) (take-drop k bs) in
    record {
      left = r.left;
      all =
          r.all
          ∙ ap (λ l. returned (record { sent = l; result = some (length l); answers = r.left }))
              joined;
      willing = r.willing;
      enough = omega (arith, r.enough, n);
    }
write_loop-AllWritten (stopped ∷ ks) sent (b ∷ bs) w h = absurd w
write_loop-AllWritten (failed ∷ ks) sent (b ∷ bs) w h = absurd w

pub write_all-AllWritten :
    (ks : List Answer) (buf : List ℕ)
    → Willing ks
    → length buf ≤ moves ks
    → AllWritten ks [] buf (write_all ks buf)
unfolding write_all
write_all-AllWritten ks buf w h = write_loop-AllWritten ks [] buf w h

-- As many bytes were read as were asked for, and the stream is left behind them.
pub record AllRead (ks : List Answer) (got : List ℕ) (n : ℕ) (stream : List ℕ) (r : Io Received)
    : Type 0 where
  pub left : List Answer
  pub all :
      r
      ≡ returned (record {
        got = got ++ take n stream;
        result = some (length got + n);
        stream = drop n stream;
        answers = left;
      })
  pub willing : Willing left
  pub enough : moves ks ≤ moves left + n

read_all_loop-AllRead :
    (ks : List Answer) (got : List ℕ) (n : ℕ) (stream : List ℕ)
    → Willing ks
    → n ≤ moves ks
    → n ≤ length stream
    → AllRead ks got n stream (read_all_loop ks got n stream)
unfolding read_all_loop
read_all_loop-AllRead ks got zero stream w h k = record {
  left = ks;
  all =
      ap (λ l. returned (record { got = l.0; result = some l.1; stream = stream; answers = ks }))
        (pair_eq (sym (append-nil got)) (omega arith));
  willing = w;
  enough = omega arith;
}
read_all_loop-AllRead [] got (suc n) stream w h k = absurd (omega arith)
read_all_loop-AllRead (again ∷ ks) got (suc n) stream w h k =
    let r = read_all_loop-AllRead ks got (suc n) stream w h k in
    record { left = r.left; all = r.all; willing = r.willing; enough = r.enough }
read_all_loop-AllRead (interrupted ∷ ks) got (suc n) stream w h k =
    let r = read_all_loop-AllRead ks got (suc n) stream w h k in
    record { left = r.left; all = r.all; willing = r.willing; enough = r.enough }
read_all_loop-AllRead (moved m ∷ ks) got (suc n) [] w h k = absurd (omega arith)
read_all_loop-AllRead (moved m ∷ ks) got (suc n) (b ∷ bs) w h k =
    let c = min m n in
    let l1 = length-take c bs in
    let l2 = length-drop c bs in
    let len : length (take c bs) ≡ c = omega (arith, l1) in
    let r =
      read_all_loop-AllRead ks (got ++ (b ∷ take c bs)) (n - length (take c bs)) (drop c bs) w
        (omega arith) (omega (arith, l2)) in
    let joined : (got ++ (b ∷ take c bs)) ++ take (n - length (take c bs)) (drop c bs)
        ≡ got ++ (b ∷ take n bs) =
      append_assoc got (b ∷ take c bs) (take (n - length (take c bs)) (drop c bs))
      ∙ ap (λ l. got ++ (b ∷ (take c bs ++ take (n - l) (drop c bs)))) len
      ∙ ap (λ l. got ++ (b ∷ l)) (sym (take_add c (n - c) bs))
      ∙ ap (λ l. got ++ (b ∷ take l bs)) (omega arith) in
    let behind : drop (n - length (take c bs)) (drop c bs) ≡ drop n bs =
      ap (λ l. drop (n - l) (drop c bs)) len
      ∙ drop_add c (n - c) bs
      ∙ ap (λ l. drop l bs) (omega arith) in
    let count : length (got ++ (b ∷ take c bs)) + (n - length (take c bs)) ≡ length got + suc n =
      omega (arith, length-append got (b ∷ take c bs)) in
    record {
      left = r.left;
      all =
          r.all
          ∙ ap
              (λ p.
                returned
                  (record { got = p.0; result = some p.1.0; stream = p.1.1; answers = r.left }))
              (pair_eq joined (pair_eq count behind));
      willing = r.willing;
      enough = omega (arith, r.enough);
    }
read_all_loop-AllRead (stopped ∷ ks) got (suc n) stream w h k = absurd w
read_all_loop-AllRead (failed ∷ ks) got (suc n) stream w h k = absurd w

pub read_all-AllRead :
    (ks : List Answer) (n : ℕ) (stream : List ℕ)
    → Willing ks
    → n ≤ moves ks
    → n ≤ length stream
    → AllRead ks [] n stream (read_all ks n stream)
unfolding read_all
read_all-AllRead ks n stream w h k = read_all_loop-AllRead ks [] n stream w h k
