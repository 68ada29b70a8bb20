-- ===== src/Renderer/Egl/Room.antt =====
-- Setting a sync object: there is always room, and the context's object is the new one.
use mathlib.Core.Path.{subst}
use remote_virtio_gpu.Prelude.{
  ℕ, suc, ◌+◌, ◌≤◌, ◌<◌, ◌≡◌, ◌≢◌, refl, sym, ap, ◌∙◌, List, [], ◌∷◌, Option, none, some, true,
  false, arith, length, ltb, ◌==◌, if◌then◌else◌, ==_iff, tests, Bool,
}
use remote_virtio_gpu.Renderer.Egl.{
  SyncEntry, Glsyncobjs, Replace, beyond, absent, replaced, behind_entry, replace_loop,
}

-- The object that the state keeps for a context.
abbrev pub object_of : ℕ → List SyncEntry → Option ℕ
object_of c [] = none
object_of c (e ∷ es) = if e.ctx == c then some e.sync else object_of c es

-- There is a free place behind the used ones.
abbrev pub HasRoom : Glsyncobjs → Type 0
HasRoom s = length s.entries < s.size

-- What the loop finds, when the used places lie in the arrays.
abbrev pub Found : ℕ → ℕ → List SyncEntry → Replace → Type 0
Found ctx sync es beyond = ⊥
Found ctx sync es absent = object_of ctx es ≡ none
Found ctx sync es (replaced fs old) =
    (length fs ≡ length es)
    × (object_of ctx es ≡ some old)
    × (object_of ctx fs ≡ some sync)
    × ((c : ℕ) → c ≢ ctx → object_of c fs ≡ object_of c es)

Found-behind :
    (ctx sync : ℕ) (e : SyncEntry) (es : List SyncEntry) (r : Replace)
    → (e.ctx == ctx) ≡ false
    → Found ctx sync es r
    → Found ctx sync (e ∷ es) (behind_entry e r)
unfolding behind_entry
Found-behind ctx sync e es beyond other f = f
Found-behind ctx sync e es absent other f =
    ap (λ b. if b then some e.sync else object_of ctx es) other ∙ f
Found-behind ctx sync e es (replaced fs old) other (len, was, is, others) = (
  ap suc len,
  ap (λ b. if b then some e.sync else object_of ctx es) other ∙ was,
  ap (λ b. if b then some e.sync else object_of ctx fs) other ∙ is,
  λ c n. ap (λ o. if e.ctx == c then some e.sync else o) (others c n),
)

pub replace_loop-Found :
    (size i ctx sync : ℕ) (es : List SyncEntry)
    → i + length es ≤ size
    → Found ctx sync es (replace_loop size i ctx sync es)
unfolding replace_loop
replace_loop-Found size i ctx sync [] h = refl
replace_loop-Found size i ctx sync (e ∷ es) h =
    let inside : ltb i size ≡ true = omega tests in
    let step : replace_loop size i ctx sync (e ∷ es) ≡ (elim (e.ctx == ctx) as (λ _. Replace) [
      | true ↦ replaced (record e { sync = sync } ∷ es) e.sync
      | false ↦ behind_entry e (replace_loop size (suc i) ctx sync es)
    ]) =
      rw (inside, replace_loop) refl in
    subst (Found ctx sync (e ∷ es)) (sym step)
      (here (replace_loop-Found size (suc i) ctx sync es (omega arith)) (e.ctx == ctx) refl)
  where
    here :
        Found ctx sync es (replace_loop size (suc i) ctx sync es)
        → (b : Bool) → (e.ctx == ctx) ≡ b
        → Found ctx sync (e ∷ es) (elim b as (λ _. Replace) [
          | true ↦ replaced (record e { sync = sync } ∷ es) e.sync
          | false ↦ behind_entry e (replace_loop size (suc i) ctx sync es)
        ])
    here later false other =
        Found-behind ctx sync e es (replace_loop size (suc i) ctx sync es) other later
    here later true same = (
      refl,
      ap (λ b. if b then some e.sync else object_of ctx es) same,
      ap (λ b. if b then some sync else object_of ctx es) same,
      λ c n.
          let other : (e.ctx == c) ≡ false = ground (arith, ==_iff e.ctx ctx, ==_iff e.ctx c) in
          ap (λ b. if b then some sync else object_of c es) other
          ∙ sym (ap (λ b. if b then some e.sync else object_of c es) other),
    )

-- The state behind a call that set an object.
pub record Set (sync : ℕ) (s s' : Glsyncobjs) : Type 0 where
  pub room : HasRoom s'
  pub is : object_of s.current_ctx s'.entries ≡ some sync
  pub others : (c : ℕ) → c ≢ s.current_ctx → object_of c s'.entries ≡ object_of c s.entries
  pub same_ctx : s'.current_ctx ≡ s.current_ctx
