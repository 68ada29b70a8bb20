-- ===== src/InputDevice/Slots/Search.antt =====
-- The search of `get_slot`, and what it keeps: no two slots belong to the same finger.
use remote_virtio_gpu.Prelude.{
  ℕ, zero, suc, ◌+◌, ◌≡◌, ◌⊎◌, refl, ap, ◌∙◌, inl, inr, List, [], ◌∷◌, Option, none, some, Bool,
  true, false, ◌&&◌, arith, get_elem?, ◌==◌, Bool-cases,
}
use remote_virtio_gpu.InputDevice.Slots.{
  InputSlot, is_src, is_free, Scan, taken, first_free, full, or_first, slot_scan,
}

-- The slot at a place belongs to a source's slot; the slot at a place is free.
pub record Holds (slots : List InputSlot) (place src src_slot : ℕ) : Type 0 where
  pub entry : InputSlot
  pub at_place : get_elem? slots place ≡ some entry
  pub its_src : entry.src ≡ some src
  pub its_slot : entry.slot ≡ src_slot

pub record FreeAt (slots : List InputSlot) (place : ℕ) : Type 0 where
  pub entry : InputSlot
  pub at_place : get_elem? slots place ≡ some entry
  pub no_src : entry.src ≡ none

Holds-suc :
    {xs : List InputSlot} {x : InputSlot} {d src n : ℕ}
    → Holds xs d src n
    → Holds (x ∷ xs) (suc d) src n
Holds-suc h = record {
  entry = h.entry;
  at_place = h.at_place;
  its_src = h.its_src;
  its_slot = h.its_slot;
}

FreeAt-suc : {xs : List InputSlot} {x : InputSlot} {d : ℕ} → FreeAt xs d → FreeAt (x ∷ xs) (suc d)
FreeAt-suc h = record { entry = h.entry; at_place = h.at_place; no_src = h.no_src }

-- What the loop finds in the slots from place `i` on.
abbrev pub Found : List InputSlot → ℕ → ℕ → ℕ → Option ℕ → Scan → Type 0
Found xs src n i free (taken k) = (d : ℕ) × (k ≡ i + d) × Holds xs d src n
Found xs src n i free (first_free k) =
    ((d : ℕ) → ¬ Holds xs d src n) × ((free ≡ some k) ⊎ ((d : ℕ) × (k ≡ i + d) × FreeAt xs d))
Found xs src n i free full =
    ((d : ℕ) → ¬ Holds xs d src n) × ((d : ℕ) → ¬ FreeAt xs d) × (free ≡ none)

Holds-pred :
    {xs : List InputSlot} {x : InputSlot} {d src n : ℕ}
    → Holds (x ∷ xs) (suc d) src n
    → Holds xs d src n
Holds-pred h = record {
  entry = h.entry;
  at_place = h.at_place;
  its_src = h.its_src;
  its_slot = h.its_slot;
}

FreeAt-pred : {xs : List InputSlot} {x : InputSlot} {d : ℕ} → FreeAt (x ∷ xs) (suc d) → FreeAt xs d
FreeAt-pred h = record { entry = h.entry; at_place = h.at_place; no_src = h.no_src }

abbrev matches : InputSlot → ℕ → ℕ → Bool
matches x src n = is_src x.src src && x.slot == n

matches_self : (x : InputSlot) (src n : ℕ) → x.src ≡ some src → x.slot ≡ n → matches x src n ≡ true
matches_self x src n e f = rw (e, f) (ground arith)

matches_lem :
    (x : InputSlot) (src n : ℕ) → matches x src n ≡ true → (x.src ≡ some src) × (x.slot ≡ n)
matches_lem x src n h = ground arith

Holds-head :
    {xs : List InputSlot} {x : InputSlot} {src n : ℕ}
    → Holds (x ∷ xs) 0 src n
    → matches x src n ≡ true
Holds-head {x = x} {src = src} {n = n} h =
    let e : x ≡ h.entry = cc (h.at_place) in
    matches_self x src n (ap (λ y. y.src) e ∙ h.its_src) (ap (λ y. y.slot) e ∙ h.its_slot)

module _ (x : InputSlot) (xs : List InputSlot) (src n i : ℕ) (free : Option ℕ)
    (other : matches x src n ≡ false) where
  none_holds : ((d : ℕ) → ¬ Holds xs d src n) → (d : ℕ) → ¬ Holds (x ∷ xs) d src n
  none_holds h zero k = let e = Holds-head k in cc
  none_holds h (suc d) k = h d (Holds-pred k)

  free_here :
      (f : Option ℕ) (b : Bool) (k : ℕ)
      → or_first f b i ≡ some k
      → (f ≡ some k) ⊎ ((b ≡ true) × (k ≡ i))
  free_here none true k e = inr (refl, ground arith)
  free_here none false k e = cc
  free_here (some j) b k e = inl e

  free_nowhere : (f : Option ℕ) (b : Bool) → or_first f b i ≡ none → (f ≡ none) × (b ≡ false)
  free_nowhere none true e = cc
  free_nowhere none false e = (refl, refl)
  free_nowhere (some j) b e = cc

  is_free_lem : (o : Option ℕ) → is_free o ≡ true → o ≡ none
  is_free_lem none e = refl
  is_free_lem (some j) e = cc

  Found-cons :
      (r : Scan)
      → Found xs src n (suc i) (or_first free (is_free x.src) i) r
      → Found (x ∷ xs) src n i free r
  Found-cons (taken k) (d, e, h) = (suc d, omega arith, Holds-suc h)
  Found-cons (first_free k) (h, inr (d, e, f)) =
      (none_holds h, inr (suc d, omega arith, FreeAt-suc f))
  Found-cons (first_free k) (h, inl e) = (none_holds h, place (free_here free (is_free x.src) k e))
    where
      place :
          (free ≡ some k) ⊎ ((is_free x.src ≡ true) × (k ≡ i))
          → (free ≡ some k) ⊎ ((d : ℕ) × (k ≡ i + d) × FreeAt (x ∷ xs) d)
      place (inl f) = inl f
      place (inr (b, f)) =
          inr (0, omega arith, record { entry = x; at_place = refl; no_src = is_free_lem x.src b })
  Found-cons full (h, f, e) =
      let (none_before, busy) = free_nowhere free (is_free x.src) e in
      (none_holds h, none_free busy, none_before)
    where
      none_free : is_free x.src ≡ false → (d : ℕ) → ¬ FreeAt (x ∷ xs) d
      none_free busy zero k =
          let same : x ≡ k.entry = cc (k.at_place) in
          let e : is_free x.src ≡ true = ap (λ y. is_free y.src) same ∙ ap is_free k.no_src in cc
      none_free busy (suc d) k = f d (FreeAt-pred k)

pub slot_scan-Found :
    (xs : List InputSlot) (src n i : ℕ) (free : Option ℕ)
    → Found xs src n i free (slot_scan xs src n i free)
unfolding slot_scan
slot_scan-Found [] src n i none = (λ d h. cc (h.at_place), (λ d h. cc (h.at_place)), refl)
slot_scan-Found [] src n i (some k) = (λ d h. cc (h.at_place), inl refl)
slot_scan-Found (x ∷ xs) src n i free = elim (Bool-cases (matches x src n)) [
  | inl here ↦
      let (its_src, its_slot) = matches_lem x src n here in
      rw here (
        0,
        omega arith,
        record { entry = x; at_place = refl; its_src = its_src; its_slot = its_slot },
      )
  | inr other ↦ rw other (
      Found-cons x xs src n i free other
        (slot_scan xs src n (suc i) (or_first free (is_free x.src) i))
        (slot_scan-Found xs src n (suc i) (or_first free (is_free x.src) i)))
]
