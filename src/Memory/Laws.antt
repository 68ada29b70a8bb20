-- ===== src/Memory/Laws.antt =====
-- Loads: their lengths and their parts, and a load after a store.
use remote_virtio_gpu.Prelude.{
  ℕ, zero, suc, ◌+◌, ◌-◌, ◌≤◌, ◌<◌, ◌≡◌, refl, ap, ◌∙◌, ◌⊎◌, List, [], ◌∷◌, arith, length, take,
  drop, get_or, overlay, length-append,
}
use remote_virtio_gpu.Memory.Defs.{Memory, load, store, Iovec, flatten, total}

pub length-load : (mem : Memory) (base n : ℕ) → length (load mem base n) ≡ n
unfolding load
length-load mem base zero = refl
length-load mem base (suc n) = ap suc (length-load mem (base + 1) n)

pub length-flatten : (mem : Memory) (vs : List Iovec) → length (flatten mem vs) ≡ total vs
length-flatten mem [] = refl
length-flatten mem (v ∷ vs) = omega (
  arith,
  length-append (load mem v.iov_base v.iov_len) (flatten mem vs),
  length-load mem v.iov_base v.iov_len,
  length-flatten mem vs,
)

load-zero : (mem : Memory) (base n : ℕ) → load mem (base + 0) n ≡ load mem base n
load-zero mem base n = ap (λ b. load mem b n) (omega arith)

-- A part of a load is the load of the part.
pub take-drop-load :
    (mem : Memory) (base n s l : ℕ)
    → s + l ≤ n
    → take l (drop s (load mem base n)) ≡ load mem (base + s) l
unfolding load
take-drop-load mem base n zero zero h = refl
take-drop-load mem base zero zero (suc l) h = absurd (omega arith)
take-drop-load mem base (suc n) zero (suc l) h =
    ap (λ b. mem b ∷ take l (load mem (base + 1) n)) (omega arith)
    ∙ ap (◌∷◌ (mem (base + 0))) (
        take-drop-load mem (base + 1) n zero l (omega arith) ∙ ap (λ b. load mem b l) (omega arith))
take-drop-load mem base zero (suc s) l h = absurd (omega arith)
take-drop-load mem base (suc n) (suc s) l h =
    take-drop-load mem (base + 1) n s l (omega arith) ∙ ap (λ b. load mem b l) (omega arith)

pub drop-load :
    (mem : Memory) (base n s : ℕ) → s ≤ n → drop s (load mem base n) ≡ load mem (base + s) (n - s)
unfolding load
drop-load mem base n zero h =
    ap (λ b. load mem b n) (omega arith) ∙ ap (load mem (base + 0)) (omega arith)
drop-load mem base zero (suc s) h = absurd (omega arith)
drop-load mem base (suc n) (suc s) h =
    drop-load mem (base + 1) n s (omega arith)
    ∙ ap (λ b. load mem b (n - s)) (omega arith)
    ∙ ap (load mem (base + suc s)) (omega arith)

pub take-load : (mem : Memory) (base n l : ℕ) → l ≤ n → take l (load mem base n) ≡ load mem base l
unfolding load
take-load mem base n zero h = refl
take-load mem base zero (suc l) h = absurd (omega arith)
take-load mem base (suc n) (suc l) h =
    ap (◌∷◌ (mem base)) (take-load mem (base + 1) n l (omega arith))

-- Two places do not overlap.
abbrev pub Apart : ℕ → ℕ → ℕ → ℕ → Type 0
Apart a m b n = (a + m ≤ b) ⊎ (b + n ≤ a)

store_apart :
    (mem : Memory) (a : ℕ) (bytes : List ℕ) (x : ℕ)
    → (x < a) ⊎ (a + length bytes ≤ x)
    → store mem a bytes x ≡ mem x
unfolding store
store_apart mem a bytes x h = ground arith

load_ext :
    (f g : Memory) (b n : ℕ) → ((i : ℕ) → b ≤ i → i < b + n → f i ≡ g i) → load f b n ≡ load g b n
unfolding load
load_ext f g b zero h = refl
load_ext f g b (suc n) h =
    ap (λ x. x ∷ load f (b + 1) n) (h b (omega arith) (omega arith))
    ∙ ap (◌∷◌ (g b)) (load_ext f g (b + 1) n (λ i p q. h i (omega arith) (omega arith)))

pub load-store-Apart :
    (mem : Memory) (a : ℕ) (bytes : List ℕ) (b n : ℕ)
    → Apart a (length bytes) b n
    → load (store mem a bytes) b n ≡ load mem b n
load-store-Apart mem a bytes b n h =
    load_ext (store mem a bytes) mem b n (λ i p q. store_apart mem a bytes i (omega arith))

get_or_pos : (x : ℕ) (xs : List ℕ) (i : ℕ) → 0 < i → get_or (x ∷ xs) i 0 ≡ get_or xs (i - 1) 0
get_or_pos x xs zero h = absurd (omega arith)
get_or_pos x xs (suc i) h = ap (λ k. get_or xs k 0) (omega arith)

store-cons :
    (mem : Memory) (a x : ℕ) (xs : List ℕ) (y : ℕ)
    → a + 1 ≤ y
    → store mem a (x ∷ xs) y ≡ store mem (a + 1) xs y
unfolding store
store-cons mem a x xs y h =
    let e : y - a - 1 ≡ y - (a + 1) = omega arith in
    ground (arith, get_or_pos x xs (y - a), ap (λ k. get_or xs k 0) e)

store_first : (mem : Memory) (a x : ℕ) (xs : List ℕ) → store mem a (x ∷ xs) a ≡ x
unfolding store
store_first mem a x xs =
    let e : a - a ≡ 0 = omega arith in ground (arith, ap (λ k. get_or (x ∷ xs) k 0) e)

load-store_cons :
    (mem : Memory) (a x : ℕ) (xs : List ℕ) (n : ℕ)
    → load (store mem a (x ∷ xs)) (a + 1) n ≡ load (store mem (a + 1) xs) (a + 1) n
load-store_cons mem a x xs n =
    load_ext (store mem a (x ∷ xs)) (store mem (a + 1) xs) (a + 1) n
      (λ i p q. store-cons mem a x xs i p)

-- A load of the place that was stored to.
pub load-store_self :
    (mem : Memory) (a : ℕ) (bytes : List ℕ) (n : ℕ)
    → length bytes ≤ n
    → load (store mem a bytes) a n ≡ overlay (load mem a n) bytes
unfolding load
load-store_self mem a [] zero h = refl
load-store_self mem a (x ∷ xs) zero h = absurd (omega arith)
load-store_self mem a [] (suc n) h =
    load_ext (store mem a []) mem a (suc n) (λ i p q. store_apart mem a [] i (omega arith))
load-store_self mem a (x ∷ xs) (suc n) h =
    ap (λ z. z ∷ load (store mem a (x ∷ xs)) (a + 1) n) (store_first mem a x xs)
    ∙ ap (◌∷◌ x) (load-store_cons mem a x xs n ∙ load-store_self mem (a + 1) xs n (omega arith))
