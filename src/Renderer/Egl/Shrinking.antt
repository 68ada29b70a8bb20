-- ===== src/Renderer/Egl/Shrinking.antt =====
-- Destroying a context: its object is deleted, and the arrays lose a place.
use remote_virtio_gpu.Prelude.{
  ℕ, suc, ◌+◌, ◌-◌, ◌≤◌, ◌<◌, ◌≡◌, ◌≢◌, refl, sym, ap, ◌∙◌, inl, inr, List, [], ◌∷◌, none, some,
  true, false, arith, length, ltb, ◌==◌, if◌then◌else◌, Bool-cases, ==_iff, tests,
}
use remote_virtio_gpu.Renderer.Egl.{
  SyncEntry, Glsyncobjs, GlCall, gl_delete_sync, remove_loop, decrement,
}
use remote_virtio_gpu.Renderer.Egl.Room.{object_of, HasRoom}

-- What is kept, and what is deleted.
pub record Removed (ctx : ℕ) (es kept : List SyncEntry) (calls : List GlCall) : Type 0 where
  pub counted : length kept + length calls ≡ length es
  pub gone : object_of ctx kept ≡ none
  pub others : (c : ℕ) → c ≢ ctx → object_of c kept ≡ object_of c es
  pub nothing : object_of ctx es ≡ none → length calls ≡ 0

remove_loop-Removed :
    (size i ctx : ℕ) (es : List SyncEntry)
    → i + length es ≤ size
    → (kept : List SyncEntry) × (calls : List GlCall) × (remove_loop size i ctx es
        ≡ some (kept, calls))
      × Removed ctx es kept calls
unfolding remove_loop
remove_loop-Removed size i ctx [] h = (
  [],
  [],
  refl,
  record { counted = refl; gone = refl; others = λ c n. refl; nothing = λ e. refl },
)
remove_loop-Removed size i ctx (e ∷ es) h =
    let inside : ltb i size ≡ true = omega tests in
    let (kept, calls, run, r) = remove_loop-Removed size (suc i) ctx es (omega arith) in
    elim (Bool-cases (e.ctx == ctx)) [
      | inl same ↦ (
        kept,
        gl_delete_sync e.sync ∷ calls,
        rw (inside, run, same, remove_loop) refl,
        record {
          counted = omega (arith, r.counted);
          gone = r.gone;
          others = λ c n.
              let other : (e.ctx == c) ≡ false = ground (arith, ==_iff e.ctx ctx, ==_iff e.ctx c) in
              r.others c n ∙ sym (ap (λ b. if b then some e.sync else object_of c es) other);
          nothing = λ x.
              let found = sym (ap (λ b. if b then some e.sync else object_of ctx es) same) ∙ x in
              absurd (ground (arith, found));
        },
      )
      | inr other ↦ (
        e ∷ kept,
        calls,
        rw (inside, run, other, remove_loop) refl,
        record {
          counted = omega (arith, r.counted);
          gone = ap (λ b. if b then some e.sync else object_of ctx kept) other ∙ r.gone;
          others = λ c n. ap (λ o. if e.ctx == c then some e.sync else o) (r.others c n);
          nothing = λ x.
              r.nothing (sym (ap (λ b. if b then some e.sync else object_of ctx es) other) ∙ x);
        },
      )
    ]

-- Destroying a context deletes the object of that context, when it has one, and keeps the others; it
-- takes a place from the arrays whether or not one became free. It is assumed that a place is free
-- and that there are two or more.
pub decrement-Removed :
    (ctx : ℕ) (s : Glsyncobjs)
    → HasRoom s
    → 1 < s.size
    → (s' : Glsyncobjs) × (calls : List GlCall) × (decrement ctx s ≡ some (s', calls))
      × Removed ctx s.entries s'.entries calls
      × (s'.size + 1 ≡ s.size)
      × (s'.current_ctx ≡ s.current_ctx)
unfolding decrement
decrement-Removed ctx s room two =
    let (kept, calls, run, r) = remove_loop-Removed s.size 0 ctx s.entries (omega arith) in
    let some_place : (s.size == 0) ≡ false = ground arith in
    let left : (s.size - 1 == 0) ≡ false = ground arith in
    (
      record s { entries = kept; size = s.size - 1 },
      calls,
      rw (some_place, run, left, decrement) refl,
      r,
      omega arith,
      refl,
    )
