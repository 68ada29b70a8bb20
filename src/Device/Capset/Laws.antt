-- ===== src/Device/Capset/Laws.antt =====
-- A file of capsets is read back, and then the guest is told of each.
use remote_virtio_gpu.Prelude.{
  ℕ, zero, suc, ◌+◌, ◌/◌, ◌%◌, ◌≤◌, ◌<◌, ◌≡◌, refl, sym, ap, ◌∙◌, List, [], ◌∷◌, ◌++◌, false, arith,
  ltb, ◌!=◌, length, take, drop, All, u32_mod, append_assoc, take-append, drop-append, get_or,
}
use remote_virtio_gpu.Wire.{u32_bytes, u32_at}
use remote_virtio_gpu.Device.{Capdata}
use remote_virtio_gpu.Device.Capset.{
  capset_hdr_size, capset_max_size, gpu_max_capdata, init_loop, gpu_capset_init,
}

-- How a capset stands in the file.
pub capset_hdr_bytes : Capdata → List ℕ
capset_hdr_bytes c = u32_bytes c.id ++ (u32_bytes c.version ++ u32_bytes c.size)

abbrev pub capset_bytes : Capdata → List ℕ
capset_bytes c = capset_hdr_bytes c ++ c.bytes

abbrev pub capset_file : List Capdata → List ℕ
capset_file [] = []
capset_file (c ∷ cs) = capset_bytes c ++ capset_file cs

-- The header's fields are `uint32_t`, and its size is that of the data and fits.
pub record Capset (c : Capdata) : Type 0 where
  pub id_small : c.id < u32_mod
  pub version_small : c.version < u32_mod
  pub sized : c.size ≡ length c.bytes
  pub fits : length c.bytes ≤ capset_max_size

hdr_length : (c : Capdata) → length (capset_hdr_bytes c) ≡ capset_hdr_size
unfolding capset_hdr_bytes u32_bytes
hdr_length c = refl

u32_at-bytes :
    (n i : ℕ) (bs : List ℕ)
    → n < u32_mod
    → get_or bs i 0 ≡ n % 256
    → get_or bs (i + 1) 0 ≡ n / 256 % 256
    → get_or bs (i + 2) 0 ≡ n / 65536 % 256
    → get_or bs (i + 3) 0 ≡ n / 16777216 % 256
    → u32_at bs i ≡ n
unfolding u32_at
u32_at-bytes n i bs h a b c d = omega (arith, a, b, c, d)

hdr_fields :
    (c : Capdata)
    → Capset c
    → (u32_at (capset_hdr_bytes c) 0 ≡ c.id)
      × (u32_at (capset_hdr_bytes c) 4 ≡ c.version)
      × (u32_at (capset_hdr_bytes c) 8 ≡ c.size)
unfolding capset_hdr_bytes u32_bytes
hdr_fields c k = (
  u32_at-bytes c.id 0 _ k.id_small refl refl refl refl,
  u32_at-bytes c.version 4 _ k.version_small refl refl refl refl,
  u32_at-bytes c.size 8 _ (omega (arith, k.sized, k.fits)) refl refl refl refl,
)

-- One round on a file that starts with a capset.
init_loop-next :
    (slots : ℕ) (c : Capdata) (rest : List ℕ)
    → Capset c
    → init_loop (suc slots) (capset_bytes c ++ rest) ≡ c ∷ init_loop slots rest
unfolding init_loop
init_loop-next slots c rest k =
    let size = c.size in
    let hdr = capset_hdr_bytes c in
    let (id, version, sized) = hdr_fields c k in
    let front : take capset_hdr_size (capset_bytes c ++ rest) ≡ hdr =
      ap (take capset_hdr_size) (append_assoc hdr c.bytes rest)
      ∙ take-append capset_hdr_size hdr (c.bytes ++ rest) (sym (hdr_length c)) in
    let behind : drop capset_hdr_size (capset_bytes c ++ rest) ≡ c.bytes ++ rest =
      ap (drop capset_hdr_size) (append_assoc hdr c.bytes rest)
      ∙ drop-append capset_hdr_size hdr (c.bytes ++ rest) (sym (hdr_length c)) in
    let bytes = take-append size c.bytes rest k.sized in
    let after = drop-append size c.bytes rest k.sized in
    let whole : (length hdr != capset_hdr_size) ≡ false = ground (arith, hdr_length c) in
    let short : ltb capset_max_size size ≡ false = ground (arith, k.fits, k.sized) in
    let all : (length c.bytes != size) ≡ false = ground (arith, k.sized) in
    rw
      (
        front, whole, front, sized, short, front, sized, behind, bytes, all, front, sized, behind,
        bytes, after, init_loop,
      )
      (λ i.
        record { id = id i; version = version i; size = c.size; bytes = c.bytes }
        ∷ init_loop slots rest)

init_loop-file :
    (slots : ℕ) (cs : List Capdata)
    → All Capset cs
    → length cs ≤ slots
    → init_loop slots (capset_file cs) ≡ cs
init_loop-file zero [] k h = unfold init_loop in refl
init_loop-file (suc slots) [] k h = unfold init_loop in refl
init_loop-file zero (c ∷ cs) k h = absurd (omega arith)
init_loop-file (suc slots) (c ∷ cs) (k, ks) h =
    init_loop-next slots c (capset_file cs) k
    ∙ ap (◌∷◌ c) (init_loop-file slots cs ks (omega arith))

-- From a file of at most 16 capsets, each with the size of its data in its header and data of at
-- most 2048 bytes, `gpu_capset_init` reads exactly these capsets.
pub gpu_capset_init-file :
    (cs : List Capdata)
    → All Capset cs
    → length cs ≤ gpu_max_capdata
    → gpu_capset_init (capset_file cs) ≡ cs
unfolding gpu_capset_init
gpu_capset_init-file cs k h = init_loop-file gpu_max_capdata cs k h
