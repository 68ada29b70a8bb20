-- ===== src/InputDevice/Slots/Fingers.antt =====
-- Each finger of each source has one slot of its own.
use mathlib.Core.Path.{subst}
use native.Mathlib.Decide.{ℕ_discrete}
use remote_virtio_gpu.Prelude.{
  ℕ, zero, suc, ◌+◌, ◌<◌, ◌≡◌, ◌≢◌, ◌⊎◌, refl, sym, ap, ◌∙◌, inl, inr, List, [], ◌∷◌, Option, none,
  some, true, arith, get_elem?, set, ltb, Bool-cases, lt→ltb,
}
use remote_virtio_gpu.InputDevice.Slots.{
  InputSlot, InputDevice, Scan, taken, first_free, full, slot_scan, get_slot, max_hosts,
}
use remote_virtio_gpu.InputDevice.Slots.Search.{Holds, FreeAt, Found, slot_scan-Found}

-- What holds of an answer, if no `assert` fails.
abbrev pub OnSome {ℓ} : {A : Type ℓ} → (A → Type 0) → Option A → Type 0
OnSome P none = Unit {0}
OnSome P (some a) = P a

-- No two slots belong to the same finger.
abbrev pub Distinct : List InputSlot → Type 0
Distinct slots = (i j src n : ℕ) → Holds slots i src n → Holds slots j src n → i ≡ j

-- What `get_slot` makes of the slots for a finger, when its answer is `i`.
pub record Finger (slots slots' : List InputSlot) (src n i : ℕ) : Type 0 where
  pub held : Holds slots' i src n
  pub before : Holds slots i src n ⊎ FreeAt slots i
  pub kept : (j : ℕ) → Holds slots j src n → i ≡ j
  pub others : (j : ℕ) → j ≢ i → get_elem? slots' j ≡ get_elem? slots j
  pub distinct : Distinct slots'

-- A place of a list that is written.
pub get_elem?-set_self :
    (xs : List InputSlot) (i : ℕ) (v w : InputSlot)
    → get_elem? xs i ≡ some w
    → get_elem? (set xs i v) i ≡ some v
get_elem?-set_self [] i v w h = cc
get_elem?-set_self (x ∷ xs) zero v w h = refl
get_elem?-set_self (x ∷ xs) (suc i) v w h = get_elem?-set_self xs i v w h

pub get_elem?-set_other :
    (xs : List InputSlot) (i j : ℕ) (v : InputSlot)
    → j ≢ i
    → get_elem? (set xs i v) j ≡ get_elem? xs j
get_elem?-set_other [] i j v h = refl
get_elem?-set_other (x ∷ xs) zero zero v h = absurd (h refl)
get_elem?-set_other (x ∷ xs) zero (suc j) v h = refl
get_elem?-set_other (x ∷ xs) (suc i) zero v h = refl
get_elem?-set_other (x ∷ xs) (suc i) (suc j) v h = get_elem?-set_other xs i j v (λ e. h (ap suc e))

pub Holds-same :
    {xs ys : List InputSlot} {j src n : ℕ}
    → get_elem? ys j ≡ get_elem? xs j
    → Holds ys j src n
    → Holds xs j src n
Holds-same e h = record {
  entry = h.entry;
  at_place = sym e ∙ h.at_place;
  its_src = h.its_src;
  its_slot = h.its_slot;
}

module _ (slots : List InputSlot) (src n : ℕ) (distinct : Distinct slots) where
  Finger-taken : (i : ℕ) → Holds slots i src n → Finger slots slots src n i
  Finger-taken i h = record {
    held = h;
    before = inl h;
    kept = λ j k. distinct i j src n h k;
    others = λ j ne. refl;
    distinct = distinct;
  }

  abbrev assigned : ℕ → List InputSlot
  assigned i = set slots i (record { src = some src; slot = n })

  owner : (i s m : ℕ) → FreeAt slots i → Holds (assigned i) i s m → (src ≡ s) × (n ≡ m)
  owner i s m f h =
      let e : ◌≡◌ {A = Option InputSlot} (some (record { src = some src; slot = n }))
          (some h.entry) =
        sym (get_elem?-set_self slots i _ f.entry f.at_place) ∙ h.at_place in
      (cc (e, h.its_src), cc (e, h.its_slot))

  -- The new owner of a free slot is in no other.
  lone :
      (i b s m : ℕ)
      → FreeAt slots i
      → ((d : ℕ) → ¬ Holds slots d src n)
      → b ≢ i
      → Holds (assigned i) i s m
      → ¬ Holds (assigned i) b s m
  lone i b s m f new ne h k =
      let (e, o) = owner i s m f h in
      let old = Holds-same (get_elem?-set_other slots i b _ ne) k in
      new b (record {
        entry = old.entry;
        at_place = old.at_place;
        its_src = old.its_src ∙ ap some (sym e);
        its_slot = old.its_slot ∙ sym o;
      })

  assigned-Distinct :
      (i : ℕ) → FreeAt slots i → ((d : ℕ) → ¬ Holds slots d src n) → Distinct (assigned i)
  assigned-Distinct i f new a b s m h k = elim (ℕ_discrete a i) [
    | yes p ↦ elim (ℕ_discrete b i) [
      | yes q ↦ p ∙ sym q
      | no q ↦ absurd (lone i b s m f new q (subst (λ z. Holds (assigned i) z s m) p h) k)
    ]
    | no p ↦ elim (ℕ_discrete b i) [
      | yes q ↦ absurd (lone i a s m f new p (subst (λ z. Holds (assigned i) z s m) q k) h)
      | no q ↦
          distinct a b s m (Holds-same (get_elem?-set_other slots i a _ p) h)
            (Holds-same (get_elem?-set_other slots i b _ q) k)
    ]
  ]

  Finger-free :
      (i : ℕ)
      → FreeAt slots i
      → ((d : ℕ) → ¬ Holds slots d src n)
      → Finger slots (assigned i) src n i
  Finger-free i f new = record {
    held = record {
      entry = record { src = some src; slot = n };
      at_place = get_elem?-set_self slots i _ f.entry f.at_place;
      its_src = refl;
      its_slot = refl;
    };
    before = inr f;
    kept = λ j k. absurd (new j k);
    others = λ j ne. get_elem?-set_other slots i j _ ne;
    distinct = assigned-Distinct i f new;
  }

-- What `get_slot` changes, and what it leaves.
pub record Assigned (g g' : InputDevice) (src n i : ℕ) : Type 0 where
  pub finger : Finger g.slots g'.slots src n i
  pub remembered : g'.src_slots ≡ set g.src_slots src n
  pub same_windows : g'.src_window_id ≡ g.src_window_id
  pub same_tracking : g'.tracking_id ≡ g.tracking_id

module _ (g : InputDevice) (src n : ℕ) (distinct : Distinct g.slots) where
  -- A slot that the finger can have.
  abbrev Available : ℕ → Type 0
  Available d = Holds g.slots d src n ⊎ FreeAt g.slots d

  abbrev with_slots : List InputSlot → InputDevice
  with_slots slots = record g { src_slots = set g.src_slots src n; slots = slots }

  Assigned-Finger :
      (i : ℕ) (slots : List InputSlot)
      → Finger g.slots slots src n i
      → Assigned g (with_slots slots) src n i
  Assigned-Finger i slots f = record {
    finger = f;
    remembered = refl;
    same_windows = refl;
    same_tracking = refl;
  }

  Assigned-taken :
      (i d : ℕ) → i ≡ 0 + d → Holds g.slots d src n → Assigned g (with_slots g.slots) src n i
  Assigned-taken i d p h =
      Assigned-Finger i g.slots
        (Finger-taken g.slots src n distinct i (subst (λ z. Holds g.slots z src n) (omega arith) h))

  Assigned-free :
      (i d : ℕ)
      → i ≡ 0 + d
      → FreeAt g.slots d
      → ((e : ℕ) → ¬ Holds g.slots e src n)
      → Assigned g (with_slots (assigned g.slots src n distinct i)) src n i
  Assigned-free i d p f new =
      Assigned-Finger i (assigned g.slots src n distinct i)
        (Finger-free g.slots src n distinct i (subst (λ z. FreeAt g.slots z) (omega arith) f) new)

  by_scan :
      (r : Scan)
      → src < max_hosts
      → slot_scan g.slots src n 0 none ≡ r
      → Found g.slots src n 0 none r
      → (d : ℕ) → Available d
      → (i : ℕ) × (g' : InputDevice) × (get_slot g src n ≡ some (i, g')) × Assigned g g' src n i
  by_scan (taken i) l e (d, p, h) a av = (
    i,
    with_slots g.slots,
    unfold get_slot in rw (lt→ltb src max_hosts l, e, get_slot),
    Assigned-taken i d p h,
  )
  by_scan (first_free i) l e (new, inl p) a av = cc
  by_scan (first_free i) l e (new, inr (d, p, f)) a av = (
    i,
    with_slots (assigned g.slots src n distinct i),
    unfold get_slot in rw (lt→ltb src max_hosts l, e, get_slot),
    Assigned-free i d p f new,
  )
  by_scan full l e (new, none_free, p) a (inl h) = absurd (new a h)
  by_scan full l e (new, none_free, p) a (inr f) = absurd (none_free a f)

  -- If a slot is free, or the finger has one, `get_slot` gives the finger a slot of its own: the one
  -- that it has, if it has one, and else a free one. No other slot changes, so no finger loses its
  -- slot, and no two fingers share one. It is assumed that no two shared one before.
  pub get_slot-Assigned :
      (d : ℕ)
      → src < max_hosts
      → Available d
      → (i : ℕ) × (g' : InputDevice) × (get_slot g src n ≡ some (i, g')) × Assigned g g' src n i
  get_slot-Assigned d l av =
      by_scan (slot_scan g.slots src n 0 none) l refl (slot_scan-Found g.slots src n 0 none) d av

  -- The same of any answer, where the `assert` does not fail.
  answer_by_scan :
      (r : Scan)
      → ltb src max_hosts ≡ true
      → slot_scan g.slots src n 0 none ≡ r
      → Found g.slots src n 0 none r
      → OnSome (λ r. Assigned g r.1 src n r.0) (get_slot g src n)
  answer_by_scan (taken i) l e (d, p, h) =
      unfold get_slot in rw (l, e, get_slot) (Assigned-taken i d p h)
  answer_by_scan (first_free i) l e (new, inl p) = cc
  answer_by_scan (first_free i) l e (new, inr (d, p, f)) =
      unfold get_slot in rw (l, e, get_slot) (Assigned-free i d p f new)
  answer_by_scan full l e f = unfold get_slot in rw (l, e, get_slot) tt

  pub get_slot-OnSome : OnSome (λ r. Assigned g r.1 src n r.0) (get_slot g src n)
  get_slot-OnSome = elim (Bool-cases (ltb src max_hosts)) [
    | inr wrong ↦ unfold get_slot in rw (wrong, get_slot) tt
    | inl ok ↦
        answer_by_scan (slot_scan g.slots src n 0 none) ok refl
          (slot_scan-Found g.slots src n 0 none)
  ]
