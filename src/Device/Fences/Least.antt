-- ===== src/Device/Fences/Least.antt =====
-- The least fence of all scanouts, and the entries of a list.
use mathlib.Core.Path.{subst}
use remote_virtio_gpu.Prelude.{
  ℕ, zero, suc, ◌+◌, ◌≤◌, ◌<◌, ◌≡◌, ◌≢◌, ◌⊎◌, refl, ap, inl, inr, List, [], ◌∷◌, Bool, true, false,
  arith, length, ltb, set, get_or, Bool-cases, All, tests, sym, replicate,
}
use remote_virtio_gpu.Device.Fences.{least_loop}

least_loop-less :
    (j x : ℕ) (xs : List ℕ) (s a : ℕ)
    → ltb x s ≡ true
    → least_loop j (x ∷ xs) s a ≡ least_loop (suc j) xs x j
unfolding least_loop
least_loop-less j x xs s a e = rw (e, least_loop)

least_loop-more :
    (j x : ℕ) (xs : List ℕ) (s a : ℕ)
    → ltb x s ≡ false
    → least_loop j (x ∷ xs) s a ≡ least_loop (suc j) xs s a
unfolding least_loop
least_loop-more j x xs s a e = rw (e, least_loop)

abbrev pub Least : ℕ → List ℕ → ℕ × ℕ → Type 0
Least s xs p = (p.0 ≤ s) × All (λ x. p.0 ≤ x) xs

-- The result of the loop is at most the fence that it starts from, and at most those it passes.
pub least_loop-All : (j : ℕ) (xs : List ℕ) (s a : ℕ) → Least s xs (least_loop j xs s a)
least_loop-All j [] s a = unfold least_loop in (omega arith, tt)
least_loop-All j (x ∷ xs) s a = elim (Bool-cases (ltb x s)) [
  | inl less ↦
      let (below, rest) = least_loop-All (suc j) xs x j in
      subst (Least s (x ∷ xs)) (sym (least_loop-less j x xs s a less))
        (omega (tests, below, less), (below, rest))
  | inr more ↦
      let (below, rest) = least_loop-All (suc j) xs s a in
      subst (Least s (x ∷ xs)) (sym (least_loop-more j x xs s a more))
        (below, (ground (arith, below), rest))
]

-- Where the result comes from.
abbrev pub Found : ℕ → List ℕ → ℕ → ℕ → ℕ × ℕ → Type 0
Found j xs s a p =
    ((p.0 ≡ s) × (p.1 ≡ a)) ⊎ ((k : ℕ) × (k < length xs) × (p.0 ≡ get_or xs k 0) × (p.1 ≡ j + k))

Found-behind :
    (j x : ℕ) (xs : List ℕ) (s a : ℕ) (p : ℕ × ℕ)
    → Found (suc j) xs x j p ⊎ Found (suc j) xs s a p
    → Found j (x ∷ xs) s a p
Found-behind j x xs s a p (inl (inl (e, f))) = inr (0, omega arith, e, omega (arith, f))
Found-behind j x xs s a p (inl (inr (k, h, e, f))) = inr (suc k, omega arith, e, omega (arith, f))
Found-behind j x xs s a p (inr (inl f)) = inl f
Found-behind j x xs s a p (inr (inr (k, h, e, f))) = inr (suc k, omega arith, e, omega (arith, f))

pub least_loop-Found : (j : ℕ) (xs : List ℕ) (s a : ℕ) → Found j xs s a (least_loop j xs s a)
least_loop-Found j [] s a = unfold least_loop in inl (refl, refl)
least_loop-Found j (x ∷ xs) s a = elim (Bool-cases (ltb x s)) [
  | inl less ↦
      subst (Found j (x ∷ xs) s a) (sym (least_loop-less j x xs s a less))
        (Found-behind j x xs s a _ (inl (least_loop-Found (suc j) xs x j)))
  | inr more ↦
      subst (Found j (x ∷ xs) s a) (sym (least_loop-more j x xs s a more))
        (Found-behind j x xs s a _ (inr (least_loop-Found (suc j) xs s a)))
]

pub All-at : (m : ℕ) (xs : List ℕ) (k : ℕ) → k < length xs → All (λ x. m ≤ x) xs → m ≤ get_or xs k 0
All-at m [] k h a = absurd (omega arith)
All-at m (x ∷ xs) zero h (a, rest) = a
All-at m (x ∷ xs) (suc k) h (a, rest) = All-at m xs k (omega arith) rest

pub get_or-set_same :
    {A : Type 0} (xs : List A) (i : ℕ) (v d : A) → i < length xs → get_or (set xs i v) i d ≡ v
get_or-set_same [] i v d h = absurd (omega arith)
get_or-set_same (x ∷ xs) zero v d h = refl
get_or-set_same (x ∷ xs) (suc i) v d h = get_or-set_same xs i v d (omega arith)

pub get_or-set_other :
    {A : Type 0} (xs : List A) (i j : ℕ) (v d : A) → j ≢ i → get_or (set xs i v) j d ≡ get_or xs j d
get_or-set_other [] i j v d n = refl
get_or-set_other (x ∷ xs) zero zero v d n = absurd (n refl)
get_or-set_other (x ∷ xs) zero (suc j) v d n = refl
get_or-set_other (x ∷ xs) (suc i) zero v d n = refl
get_or-set_other (x ∷ xs) (suc i) (suc j) v d n = get_or-set_other xs i j v d (λ e. n (ap suc e))

pub get_or-replicate : {A : Type 0} (n j : ℕ) (v : A) → get_or (replicate n v) j v ≡ v
get_or-replicate zero j v = refl
get_or-replicate (suc n) zero v = refl
get_or-replicate (suc n) (suc j) v = get_or-replicate n j v

pub length-replicate : {A : Type 0} (n : ℕ) (v : A) → length (replicate n v) ≡ n
length-replicate zero v = refl
length-replicate (suc n) v = ap suc (length-replicate n v)

pub true_not_false : (b : Bool) → b ≡ true → b ≡ false → ⊥
true_not_false b e f = ground (arith, e, f)
