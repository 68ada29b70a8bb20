-- ===== src/Prelude/Lists.antt =====
-- Lists measured and indexed by native numbers, under the library's names, and the overwriting of
-- a part of a list, which is what `memcpy` does to a buffer.
use Prim.Native.Nat.{ℕ, zero, suc, ◌+◌, ◌-◌, ◌≤◌, min}
use mathlib.Core.Path.{◌≡◌, refl, sym, ap, ◌∙◌}
use mathlib.Core.List.{List, [], ◌∷◌, ◌++◌}
use mathlib.Core.Option.{Option, none, some}
use native.Mathlib.Omega.{arith}

module _ {ℓ} {A : Type ℓ} where
  abbrev pub length : List A → ℕ
  length [] = 0
  length (x ∷ xs) = suc (length xs)

  abbrev pub get_elem? : List A → ℕ → Option A
  get_elem? [] i = none
  get_elem? (x ∷ xs) zero = some x
  get_elem? (x ∷ xs) (suc i) = get_elem? xs i

  -- A write out of bounds changes nothing.
  abbrev pub set : List A → ℕ → A → List A
  set [] i v = []
  set (x ∷ xs) zero v = v ∷ xs
  set (x ∷ xs) (suc i) v = x ∷ set xs i v

  abbrev pub get_or : List A → ℕ → A → A
  get_or [] i d = d
  get_or (x ∷ xs) zero d = x
  get_or (x ∷ xs) (suc i) d = get_or xs i d

  abbrev pub take : ℕ → List A → List A
  take zero xs = []
  take (suc n) [] = []
  take (suc n) (x ∷ xs) = x ∷ take n xs

  abbrev pub drop : ℕ → List A → List A
  drop zero xs = xs
  drop (suc n) [] = []
  drop (suc n) (x ∷ xs) = drop n xs

  abbrev pub replicate : ℕ → A → List A
  replicate zero a = []
  replicate (suc n) a = a ∷ replicate n a

  -- The elements from the start replaced by those of the second list, as far as there are places.
  abbrev pub overlay : List A → List A → List A
  overlay [] ys = []
  overlay (x ∷ xs) [] = x ∷ xs
  overlay (x ∷ xs) (y ∷ ys) = y ∷ overlay xs ys

  -- The same from a place on.
  abbrev pub overwrite : List A → ℕ → List A → List A
  overwrite xs zero ys = overlay xs ys
  overwrite [] (suc i) ys = []
  overwrite (x ∷ xs) (suc i) ys = x ∷ overwrite xs i ys

module _ {ℓ} {A : Type ℓ} where
  pub length-append : (xs ys : List A) → length (xs ++ ys) ≡ length xs + length ys
  length-append [] ys = omega arith
  length-append (x ∷ xs) ys = omega (arith, length-append xs ys)

  pub length-set : (xs : List A) (i : ℕ) (v : A) → length (set xs i v) ≡ length xs
  length-set [] i v = refl
  length-set (x ∷ xs) zero v = refl
  length-set (x ∷ xs) (suc i) v = ap suc (length-set xs i v)

  pub length-take : (n : ℕ) (xs : List A) → length (take n xs) ≡ min n (length xs)
  length-take zero xs = omega arith
  length-take (suc n) [] = omega arith
  length-take (suc n) (x ∷ xs) = omega (arith, length-take n xs)

  pub length-drop : (n : ℕ) (xs : List A) → length (drop n xs) ≡ length xs - n
  length-drop zero xs = omega arith
  length-drop (suc n) [] = omega arith
  length-drop (suc n) (x ∷ xs) = omega (arith, length-drop n xs)

  pub take-nil : (n : ℕ) → take {A = A} n [] ≡ []
  take-nil zero = refl
  take-nil (suc n) = refl

  pub drop-nil : (n : ℕ) → drop {A = A} n [] ≡ []
  drop-nil zero = refl
  drop-nil (suc n) = refl

  overlay-nil : (xs : List A) → overlay xs [] ≡ xs
  overlay-nil [] = refl
  overlay-nil (x ∷ xs) = refl

  pub take_all : (n : ℕ) (xs : List A) → length xs ≤ n → take n xs ≡ xs
  take_all zero [] h = refl
  take_all zero (x ∷ xs) h = absurd (omega arith)
  take_all (suc n) [] h = refl
  take_all (suc n) (x ∷ xs) h = ap (◌∷◌ x) (take_all n xs (omega arith))

  pub drop_all : (n : ℕ) (xs : List A) → length xs ≤ n → drop n xs ≡ []
  drop_all zero [] h = refl
  drop_all zero (x ∷ xs) h = absurd (omega arith)
  drop_all (suc n) [] h = refl
  drop_all (suc n) (x ∷ xs) h = drop_all n xs (omega arith)

  -- A list whose first part has the length asked for.
  pub take-append : (n : ℕ) (xs ys : List A) → n ≡ length xs → take n (xs ++ ys) ≡ xs
  take-append zero [] ys e = refl
  take-append zero (x ∷ xs) ys e = absurd (omega arith)
  take-append (suc n) [] ys e = absurd (omega arith)
  take-append (suc n) (x ∷ xs) ys e = ap (◌∷◌ x) (take-append n xs ys (omega arith))

  pub drop-append : (n : ℕ) (xs ys : List A) → n ≡ length xs → drop n (xs ++ ys) ≡ ys
  drop-append zero [] ys e = refl
  drop-append zero (x ∷ xs) ys e = absurd (omega arith)
  drop-append (suc n) [] ys e = absurd (omega arith)
  drop-append (suc n) (x ∷ xs) ys e = drop-append n xs ys (omega arith)

  pub take-append_le : (n : ℕ) (xs ys : List A) → n ≤ length xs → take n (xs ++ ys) ≡ take n xs
  take-append_le zero xs ys e = refl
  take-append_le (suc n) [] ys e = absurd (omega arith)
  take-append_le (suc n) (x ∷ xs) ys e = ap (◌∷◌ x) (take-append_le n xs ys (omega arith))

  pub take-append_ge :
      (n : ℕ) (xs ys : List A) → length xs ≤ n → take n (xs ++ ys) ≡ xs ++ take (n - length xs) ys
  take-append_ge n [] ys e = ap (λ m. take m ys) (omega arith)
  take-append_ge zero (x ∷ xs) ys e = absurd (omega arith)
  take-append_ge (suc n) (x ∷ xs) ys e =
      ap (◌∷◌ x) (take-append_ge n xs ys (omega arith) ∙ ap (λ m. xs ++ take m ys) (omega arith))

  pub drop-append_ge :
      (n : ℕ) (xs ys : List A) → length xs ≤ n → drop n (xs ++ ys) ≡ drop (n - length xs) ys
  drop-append_ge n [] ys e = ap (λ m. drop m ys) (omega arith)
  drop-append_ge zero (x ∷ xs) ys e = absurd (omega arith)
  drop-append_ge (suc n) (x ∷ xs) ys e =
      drop-append_ge n xs ys (omega arith) ∙ ap (λ m. drop m ys) (omega arith)

  pub drop-append_le :
      (n : ℕ) (xs ys : List A) → n ≤ length xs → drop n (xs ++ ys) ≡ drop n xs ++ ys
  drop-append_le zero xs ys e = refl
  drop-append_le (suc n) [] ys e = absurd (omega arith)
  drop-append_le (suc n) (x ∷ xs) ys e = drop-append_le n xs ys (omega arith)

  pub length-overlay : (xs ys : List A) → length (overlay xs ys) ≡ length xs
  length-overlay [] ys = refl
  length-overlay (x ∷ xs) [] = refl
  length-overlay (x ∷ xs) (y ∷ ys) = ap suc (length-overlay xs ys)

  pub length-overwrite :
      (xs : List A) (i : ℕ) (ys : List A) → length (overwrite xs i ys) ≡ length xs
  length-overwrite xs zero ys = length-overlay xs ys
  length-overwrite [] (suc i) ys = refl
  length-overwrite (x ∷ xs) (suc i) ys = ap suc (length-overwrite xs i ys)

  pub overwrite-nil : (xs : List A) (i : ℕ) → overwrite xs i [] ≡ xs
  overwrite-nil [] zero = refl
  overwrite-nil (x ∷ xs) zero = refl
  overwrite-nil [] (suc i) = refl
  overwrite-nil (x ∷ xs) (suc i) = ap (◌∷◌ x) (overwrite-nil xs i)

  -- Two writes, the second just behind the first, are one write of both.
  pub overwrite-overwrite :
      (xs : List A) (i j : ℕ) (ys zs : List A)
      → j ≡ i + length ys
      → overwrite (overwrite xs i ys) j zs ≡ overwrite xs i (ys ++ zs)
  overwrite-overwrite [] zero zero ys zs e = refl
  overwrite-overwrite [] zero (suc j) ys zs e = refl
  overwrite-overwrite (x ∷ xs) zero zero [] zs e = refl
  overwrite-overwrite (x ∷ xs) zero zero (y ∷ ys) zs e = absurd (omega arith)
  overwrite-overwrite (x ∷ xs) zero (suc j) [] zs e = absurd (omega arith)
  overwrite-overwrite (x ∷ xs) zero (suc j) (y ∷ ys) zs e =
      ap (◌∷◌ y) (overwrite-overwrite xs zero j ys zs (omega arith))
  overwrite-overwrite [] (suc i) zero ys zs e = refl
  overwrite-overwrite [] (suc i) (suc j) ys zs e = refl
  overwrite-overwrite (x ∷ xs) (suc i) zero ys zs e = absurd (omega arith)
  overwrite-overwrite (x ∷ xs) (suc i) (suc j) ys zs e =
      ap (◌∷◌ x) (overwrite-overwrite xs i j ys zs (omega arith))

  pub overlay-append :
      (xs ys zs ws : List A)
      → length zs ≡ length xs
      → overlay (xs ++ ys) (zs ++ ws) ≡ zs ++ overlay ys ws
  overlay-append [] ys [] ws e = refl
  overlay-append [] ys (z ∷ zs) ws e = absurd (omega arith)
  overlay-append (x ∷ xs) ys [] ws e = absurd (omega arith)
  overlay-append (x ∷ xs) ys (z ∷ zs) ws e = ap (◌∷◌ z) (overlay-append xs ys zs ws (omega arith))

  pub overlay-append_le :
      (xs ys zs : List A) → length zs ≤ length xs → overlay (xs ++ ys) zs ≡ overlay xs zs ++ ys
  overlay-append_le [] ys [] e = overlay-nil ys
  overlay-append_le [] ys (z ∷ zs) e = absurd (omega arith)
  overlay-append_le (x ∷ xs) ys [] e = refl
  overlay-append_le (x ∷ xs) ys (z ∷ zs) e = ap (◌∷◌ z) (overlay-append_le xs ys zs (omega arith))

  pub overlay_same : (xs zs : List A) → length zs ≡ length xs → overlay xs zs ≡ zs
  overlay_same [] [] e = refl
  overlay_same [] (z ∷ zs) e = absurd (omega arith)
  overlay_same (x ∷ xs) [] e = absurd (omega arith)
  overlay_same (x ∷ xs) (z ∷ zs) e = ap (◌∷◌ z) (overlay_same xs zs (omega arith))

  pub take-drop : (n : ℕ) (xs : List A) → take n xs ++ drop n xs ≡ xs
  take-drop zero xs = refl
  take-drop (suc n) [] = refl
  take-drop (suc n) (x ∷ xs) = ap (◌∷◌ x) (take-drop n xs)

  -- The first `m + n` elements are the first `m` and the `n` behind them.
  pub take_add : (m n : ℕ) (xs : List A) → take (m + n) xs ≡ take m xs ++ take n (drop m xs)
  take_add zero n xs = ap (λ k. take k xs) (omega arith)
  take_add (suc m) n [] = take-nil (suc m + n) ∙ sym (take-nil n)
  take_add (suc m) n (x ∷ xs) =
      let e : suc m + n ≡ suc (m + n) = omega arith in rw e (ap (◌∷◌ x) (take_add m n xs))

  pub drop_add : (m n : ℕ) (xs : List A) → drop n (drop m xs) ≡ drop (m + n) xs
  drop_add zero n xs = ap (λ k. drop k xs) (omega arith)
  drop_add (suc m) n [] = drop-nil n ∙ sym (drop-nil (suc m + n))
  drop_add (suc m) n (x ∷ xs) =
      let e : suc m + n ≡ suc (m + n) = omega arith in rw e (drop_add m n xs)
