-- ===== src/Device/FromHost/Update.antt =====
-- What `resource_update` does to the guest's memory: one stretch of it gets the bytes of the pipe.
use native.Mathlib.Decide.{dec_lt}
use Prim.Native.Nat.{min}
use remote_virtio_gpu.Prelude.{
  ℕ, ◌+◌, ◌-◌, ◌≤◌, ◌<◌, ◌≡◌, refl, sym, ap, ◌∙◌, ◌⊎◌, inl, inr, List, [], ◌∷◌, ◌++◌, some, true,
  false, arith, length, take, drop, ltb, leb, ◌==◌, if◌then◌else◌, overwrite, overwrite-nil,
  length-take, length-drop, take_add, drop_add, tests, append-nil, pair_eq,
}
use remote_virtio_gpu.Memory.{
  Memory, Iovec, store, load, flatten, total, length-load, load-store-Apart,
}
use remote_virtio_gpu.Iov.Scatter.{AllApart, Separate, flatten-store}
use remote_virtio_gpu.Device.FromHost.{read_from_pipe, resource_update}
use remote_virtio_gpu.Device.FromHost.Spread.{
  overwrite-append_ge, overwrite-append_le, overwrite-append, load-store_inside,
}

update-nil :
    (mem : Memory) (skip len : ℕ) (pipe : List ℕ)
    → resource_update mem [] skip len pipe ≡ some (mem, pipe)
unfolding resource_update
update-nil mem skip len pipe = refl

-- The rounds of the loop.
module _ (mem : Memory) (v : Iovec) (vs : List Iovec) (skip len : ℕ) (pipe : List ℕ) where
  update-done : len ≡ 0 → resource_update mem (v ∷ vs) skip len pipe ≡ some (mem, pipe)
  unfolding resource_update
  update-done e = let zero_len : (len == 0) ≡ true = rw e refl in rw (zero_len, resource_update)

  update-skip :
      0 < len
      → v.iov_len ≤ skip
      → resource_update mem (v ∷ vs) skip len pipe
        ≡ resource_update mem vs (skip - v.iov_len) len pipe
  unfolding resource_update
  update-skip h k =
      let more : (len == 0) ≡ false = ground arith in
      let past : leb v.iov_len skip ≡ true = omega tests in rw (more, past, resource_update)

  update-use :
      (l : ℕ)
      → l ≡ min len (v.iov_len - skip)
      → 0 < len
      → skip < v.iov_len
      → l ≤ length pipe
      → resource_update mem (v ∷ vs) skip len pipe
        ≡ resource_update (store mem (v.iov_base + skip) (take l pipe)) vs 0 (len - l) (drop l pipe)
  unfolding resource_update read_from_pipe
  update-use l e h k m =
      let more : (len == 0) ≡ false = ground arith in
      let inside : leb v.iov_len skip ≡ false = ground arith in
      let part : (if ltb len (v.iov_len - skip) then len else v.iov_len - skip) ≡ l =
        ground arith in
      let enough : ltb (length pipe) l ≡ false = ground arith in
      rw (more, inside, part, enough, part, resource_update)

-- The memory after an update.
pub record Updated (mem : Memory) (vs : List Iovec) (skip : ℕ) (bytes : List ℕ) (m : Memory)
    : Type 0 where
  pub written : flatten m vs ≡ overwrite (flatten mem vs) skip bytes
  pub kept : (b n : ℕ) → AllApart b n vs → load m b n ≡ load mem b n

-- Behind a buffer that is skipped.
pub Updated-skip :
    (mem : Memory) (v : Iovec) (vs : List Iovec) (skip : ℕ) (bytes : List ℕ) (m : Memory)
    → AllApart v.iov_base v.iov_len vs
    → v.iov_len ≤ skip
    → Updated mem vs (skip - v.iov_len) bytes m
    → Updated mem (v ∷ vs) skip bytes m
Updated-skip mem v vs skip bytes m a h u = record {
  written =
      ap (λ l. l ++ flatten m vs) (u.kept v.iov_base v.iov_len a)
      ∙ ap (◌++◌ (load mem v.iov_base v.iov_len)) u.written
      ∙ sym (
          overwrite-append_ge (load mem v.iov_base v.iov_len) (flatten mem vs) bytes skip
            (omega (arith, length-load mem v.iov_base v.iov_len))
          ∙ ap (λ n. load mem v.iov_base v.iov_len ++ overwrite (flatten mem vs) (skip - n) bytes)
              (length-load mem v.iov_base v.iov_len));
  kept = λ b n (x, xs). u.kept b n xs;
}

AllApart-within :
    (a n b k : ℕ) (vs : List Iovec) → a ≤ b → b + k ≤ a + n → AllApart a n vs → AllApart b k vs
AllApart-within a n b k [] h m x = tt
AllApart-within a n b k (v ∷ vs) h m (x, xs) = (omega arith, AllApart-within a n b k vs h m xs)

-- Behind a buffer of which a part is written: the part reaches its end, or is the last one.
pub Updated-use :
    (mem : Memory) (v : Iovec) (vs : List Iovec) (skip : ℕ) (part later : List ℕ) (m : Memory)
    → AllApart v.iov_base v.iov_len vs
    → skip + length part ≤ v.iov_len
    → (later ≡ []) ⊎ (skip + length part ≡ v.iov_len)
    → Updated (store mem (v.iov_base + skip) part) vs 0 later m
    → Updated mem (v ∷ vs) skip (part ++ later) m
Updated-use mem v vs skip part later m a h e u = record {
  written =
      ap (λ l. l ++ flatten m vs)
        (u.kept v.iov_base v.iov_len a ∙ load-store_inside mem v.iov_base v.iov_len skip part h)
      ∙ ap (◌++◌ (overwrite (load mem v.iov_base v.iov_len) skip part))
          (u.written ∙ ap (λ l. overwrite l 0 later) untouched)
      ∙ both e;
  kept = λ b n (x, xs).
      u.kept b n xs ∙ load-store-Apart mem (v.iov_base + skip) part b n (omega arith);
}
  where
    size : length (load mem v.iov_base v.iov_len) ≡ v.iov_len
    size = length-load mem v.iov_base v.iov_len

    untouched : flatten (store mem (v.iov_base + skip) part) vs ≡ flatten mem vs
    untouched = flatten-store mem vs (v.iov_base + skip) part (v.iov_len - skip) (omega arith) (
        AllApart-within v.iov_base v.iov_len (v.iov_base + skip) (v.iov_len - skip) vs (omega arith)
          (omega arith) a)

    both :
        (later ≡ []) ⊎ (skip + length part ≡ v.iov_len)
        → overwrite (load mem v.iov_base v.iov_len) skip part ++ overwrite (flatten mem vs) 0 later
          ≡ overwrite (load mem v.iov_base v.iov_len ++ flatten mem vs) skip (part ++ later)
    both (inl nothing) =
        rw (nothing, append-nil part)
          (ap (◌++◌ (overwrite (load mem v.iov_base v.iov_len) skip part))
              (overwrite-nil (flatten mem vs) 0)
            ∙ sym (
                overwrite-append_le (load mem v.iov_base v.iov_len) (flatten mem vs) part skip
                  (omega (arith, size))))
    both (inr full) = sym (
        overwrite-append (load mem v.iov_base v.iov_len) (flatten mem vs) part later skip
          (omega (arith, size)))

-- Nothing is left to write.
pub Updated-nothing : (mem : Memory) (vs : List Iovec) (skip : ℕ) → Updated mem vs skip [] mem
Updated-nothing mem vs skip = record {
  written = sym (overwrite-nil (flatten mem vs) skip);
  kept = λ b n x. refl;
}

-- `resource_update` does not fail on a pipe with enough bytes, takes these from it, and writes them
-- from `skip` on into what the array lists.
pub resource_update-Updated :
    (vs : List Iovec) (mem : Memory) (skip len : ℕ) (pipe : List ℕ)
    → Separate vs
    → (0 < len → skip + len ≤ total vs)
    → len ≤ length pipe
    → (m : Memory) × (resource_update mem vs skip len pipe ≡ some (m, drop len pipe))
      × Updated mem vs skip (take len pipe) m
resource_update-Updated [] mem skip len pipe s h k =
    let zero_len : len ≡ 0 = grind (arith, h) in
    (
      mem,
      update-nil mem skip len pipe ∙ rw zero_len refl,
      rw zero_len (Updated-nothing mem [] skip),
    )
resource_update-Updated (v ∷ vs) mem skip len pipe (a, s) h k = elim (dec_lt 0 len) [
  | no none_left ↦
      let zero_len : len ≡ 0 = omega arith in
      (
        mem,
        update-done mem v vs skip len pipe zero_len ∙ rw zero_len refl,
        rw zero_len (Updated-nothing mem (v ∷ vs) skip),
      )
  | yes some_left ↦ elim (dec_lt skip v.iov_len) [
    | no skipped ↦
        let (m, e, u) =
          resource_update-Updated vs mem (skip - v.iov_len) len pipe s
            (λ _. omega (arith, h some_left)) k in
        (
          m,
          update-skip mem v vs skip len pipe some_left (omega arith) ∙ e,
          Updated-skip mem v vs skip (take len pipe) m a (omega arith) u,
        )
    | yes used ↦
        let l = min len (v.iov_len - skip) in
        let part = take l pipe in
        let size = length-take l pipe in
        let all = h some_left in
        let (m, e, u) =
          resource_update-Updated vs (store mem (v.iov_base + skip) part) 0 (len - l) (drop l pipe)
            s (omega (arith, all)) (omega (arith, length-drop l pipe)) in
        (
          m,
          update-use mem v vs skip len pipe l refl some_left used (omega arith)
              ∙ e
              ∙ ap some
                  (pair_eq refl (drop_add l (len - l) pipe ∙ ap (λ n. drop n pipe) (omega arith))),
          rw (split_take l len pipe (omega arith)) (
              Updated-use mem v vs skip part (take (len - l) (drop l pipe)) m a
                (omega (arith, size)) (last_or_full l (omega (arith, size))) u),
        )
  ]
]
  where
    split_take : (l n : ℕ) (xs : List ℕ) → l ≤ n → take n xs ≡ take l xs ++ take (n - l) (drop l xs)
    split_take l n xs x =
        let sum : l + (n - l) ≡ n = omega arith in
        ap (λ i. take i xs) (sym sum) ∙ take_add l (n - l) xs

    last_or_full :
        (l : ℕ)
        → (len ≤ l) ⊎ (skip + length (take l pipe) ≡ v.iov_len)
        → (take (len - l) (drop l pipe) ≡ []) ⊎ (skip + length (take l pipe) ≡ v.iov_len)
    last_or_full l (inl last) = let z : len - l ≡ 0 = omega arith in inl (rw z refl)
    last_or_full l (inr full) = inr full
