-- ===== src/Device/FromHost/Spread.antt =====
-- `resource_update` writes one stretch of the bytes that the array lists.
use remote_virtio_gpu.Prelude.{
  ℕ, zero, suc, ◌+◌, ◌-◌, ◌≤◌, ◌≡◌, refl, sym, ap, ◌∙◌, inr, List, [], ◌∷◌, ◌++◌, arith, length,
  take, drop, overlay, overwrite, overlay-append, overlay-append_le, overlay_same, take_add,
  take_all,
}
use remote_virtio_gpu.Memory.{
  Memory, store, load, length-load, take-load, drop-load, load-store-Apart, load-store_self,
}

-- Writing into two lists, one behind the other.
pub overwrite-append_ge :
    (xs ys zs : List ℕ) (i : ℕ)
    → length xs ≤ i
    → overwrite (xs ++ ys) i zs ≡ xs ++ overwrite ys (i - length xs) zs
overwrite-append_ge [] ys zs i h = ap (λ n. overwrite ys n zs) (omega arith)
overwrite-append_ge (x ∷ xs) ys zs zero h = absurd (omega arith)
overwrite-append_ge (x ∷ xs) ys zs (suc i) h =
    ap (◌∷◌ x) (
      overwrite-append_ge xs ys zs i (omega arith)
      ∙ ap (λ n. xs ++ overwrite ys n zs) (omega arith))

pub overwrite-append_le :
    (xs ys zs : List ℕ) (i : ℕ)
    → i + length zs ≤ length xs
    → overwrite (xs ++ ys) i zs ≡ overwrite xs i zs ++ ys
overwrite-append_le xs ys zs zero h = overlay-append_le xs ys zs (omega arith)
overwrite-append_le [] ys zs (suc i) h = absurd (omega arith)
overwrite-append_le (x ∷ xs) ys zs (suc i) h =
    ap (◌∷◌ x) (overwrite-append_le xs ys zs i (omega arith))

pub overwrite-append :
    (xs ys zs ws : List ℕ) (i : ℕ)
    → i + length zs ≡ length xs
    → overwrite (xs ++ ys) i (zs ++ ws) ≡ overwrite xs i zs ++ overwrite ys 0 ws
overwrite-append xs ys zs ws zero h =
    overlay-append xs ys zs ws (omega arith)
    ∙ ap (λ l. l ++ overlay ys ws) (sym (overlay_same xs zs (omega arith)))
overwrite-append [] ys zs ws (suc i) h = absurd (omega arith)
overwrite-append (x ∷ xs) ys zs ws (suc i) h =
    ap (◌∷◌ x) (overwrite-append xs ys zs ws i (omega arith))

overwrite_split :
    (i : ℕ) (xs zs : List ℕ)
    → i ≤ length xs
    → overwrite xs i zs ≡ take i xs ++ overlay (drop i xs) zs
overwrite_split zero xs zs h = refl
overwrite_split (suc i) [] zs h = absurd (omega arith)
overwrite_split (suc i) (x ∷ xs) zs h = ap (◌∷◌ x) (overwrite_split i xs zs (omega arith))

-- A store inside a buffer.
pub load-store_inside :
    (mem : Memory) (base n skip : ℕ) (bytes : List ℕ)
    → skip + length bytes ≤ n
    → load (store mem (base + skip) bytes) base n ≡ overwrite (load mem base n) skip bytes
load-store_inside mem base n skip bytes h =
    parts m'
    ∙ ap (λ l. l ++ load m' (base + skip) (n - skip))
        (load-store-Apart mem (base + skip) bytes base skip (inr (omega arith)))
    ∙ ap (◌++◌ (load mem base skip))
        (load-store_self mem (base + skip) bytes (n - skip) (omega arith))
    ∙ sym (
        overwrite_split skip (load mem base n) bytes (omega (arith, length-load mem base n))
        ∙ ap (λ l. l ++ overlay (drop skip (load mem base n)) bytes)
            (take-load mem base n skip (omega arith))
        ∙ ap (λ l. load mem base skip ++ overlay l bytes) (drop-load mem base n skip (omega arith)))
  where
    m' : Memory
    m' = store mem (base + skip) bytes

    parts : (m : Memory) → load m base n ≡ load m base skip ++ load m (base + skip) (n - skip)
    parts m =
        let whole : n ≡ skip + (n - skip) = omega arith in
        let size = length-load m base n in
        sym (take_all n (load m base n) (omega arith))
        ∙ ap (λ k. take k (load m base n)) whole
        ∙ take_add skip (n - skip) (load m base n)
        ∙ ap (λ l. l ++ take (n - skip) (drop skip (load m base n)))
            (take-load m base n skip (omega arith))
        ∙ ap (λ l. load m base skip ++ take (n - skip) l) (drop-load m base n skip (omega arith))
        ∙ ap (◌++◌ (load m base skip)) (
            take_all (n - skip) (load m (base + skip) (n - skip))
              (omega (arith, length-load m (base + skip) (n - skip))))
