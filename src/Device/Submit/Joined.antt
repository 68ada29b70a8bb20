-- ===== src/Device/Submit/Joined.antt =====
-- A SUBMIT_3D buffer that is put together from commands, and what one round of its loop does.
use remote_virtio_gpu.Prelude.{
  ℕ, zero, suc, ◌+◌, ◌/◌, ◌<◌, ◌≡◌, refl, sym, ap, ◌∙◌, inl, inr, List, [], ◌∷◌, ◌++◌, none, some,
  arith, ◌==◌, Bool-cases, u32_mod, get_elem?, length, ==_iff,
}
use remote_virtio_gpu.Virtio.{Resp}
use remote_virtio_gpu.Device.{Device}
use remote_virtio_gpu.Device.Submit.{
  Env, word, words_transfer, submit_command, Run, result, aborted, transfer3d_header,
  copy_transfer3d_header,
}

-- A command, with its header: the upper half of the header is the number of the words behind it.
abbrev pub IsCommand : List ℕ → Type 0
IsCommand [] = ⊥
IsCommand (header ∷ words) = (header / 65536 ≡ length words) × (header < u32_mod)

abbrev pub joined : List (List ℕ) → List ℕ
joined [] = []
joined (c ∷ cs) = c ++ joined cs

-- The commands one after the other.
unfoldable pub run_commands : Env → Device → List (List ℕ) → Resp → List ℕ → Run (Resp × List ℕ)
run_commands env g [] type out = result (type, out)
run_commands env g (c ∷ cs) type out = elim (submit_command env g (word env c) type) [
  | none ↦ aborted
  | some (type', sent) ↦ run_commands env g cs type' (out ++ sent)
]

pub get_elem?-front :
    {A : Type 0} (ys zs : List A) (i : ℕ) → i < length ys → get_elem? (ys ++ zs) i ≡ get_elem? ys i
get_elem?-front [] zs i h = absurd (omega arith)
get_elem?-front (y ∷ ys) zs zero h = refl
get_elem?-front (y ∷ ys) zs (suc i) h = get_elem?-front ys zs i (omega arith)

pub get_elem?-behind :
    {A : Type 0} (xs zs : List A) (i : ℕ) → get_elem? (xs ++ zs) (length xs + i) ≡ get_elem? zs i
get_elem?-behind [] zs i = let e : 0 + i ≡ i = omega arith in ap (get_elem? zs) e
get_elem?-behind (x ∷ xs) zs i =
    let e : length (x ∷ xs) + i ≡ suc (length xs + i) = omega arith in
    ap (get_elem? (x ∷ (xs ++ zs))) e ∙ get_elem?-behind xs zs i

module _ (env : Env) (g : Device) (buf buf' : ℕ → ℕ) (type : Resp) where
  pub transfer_eq :
      (o o' : ℕ)
      → ((i : ℕ) → i < 14 → buf i ≡ buf' i)
      → o ≡ o'
      → words_transfer buf o ≡ words_transfer buf' o'
  transfer_eq o o' e f i = record {
    x = e 6 (omega arith) i;
    y = e 7 (omega arith) i;
    z = e 8 (omega arith) i;
    w = e 9 (omega arith) i;
    h = e 10 (omega arith) i;
    d = e 11 (omega arith) i;
    level = e 2 (omega arith) i;
    stride = e 4 (omega arith) i;
    layer_stride = e 5 (omega arith) i;
    offset = f i;
  }

  -- A command reads no word behind its end.
  pub submit_command_eq :
      buf 0 < u32_mod
      → ((i : ℕ) → i < suc (buf 0 / 65536) → buf i ≡ buf' i)
      → submit_command env g buf type ≡ submit_command env g buf' type
  unfolding submit_command
  submit_command_eq w e =
      let zeroth : buf' 0 ≡ buf 0 = sym (e 0 (omega arith)) in
      rw zeroth (elim (Bool-cases (buf 0 == transfer3d_header)) [
        | inl yes_first ↦
            let is : buf 0 ≡ transfer3d_header = (==_iff (buf 0) transfer3d_header).0 yes_first in
            let all : (i : ℕ) → i < 14 → buf i ≡ buf' i = λ i h. e i (omega arith) in
            rw (
              yes_first,
              all 1 (omega arith),
              transfer_eq (buf 12) (buf' 12) all (all 12 (omega arith)),
            )
        | inr other ↦ elim (Bool-cases (buf 0 == copy_transfer3d_header)) [
          | inl second ↦
              let is : buf 0 ≡ copy_transfer3d_header =
                (==_iff (buf 0) copy_transfer3d_header).0 second in
              let all : (i : ℕ) → i < 14 → buf i ≡ buf' i = λ i h. e i (omega arith) in
              rw (
                other,
                second,
                all 12 (omega arith),
                transfer_eq (buf 13) (buf' 13) all (all 13 (omega arith)),
              )
          | inr neither ↦ rw (other, neither)
        ]
      ])

-- A word of a command that stands behind others.
pub word-joined :
    (env : Env) (before c rest : List ℕ) (i : ℕ)
    → i < length c
    → word env (before ++ (c ++ rest)) (length before + i) ≡ word env c i
word-joined env before c rest i h =
    let e = get_elem?-behind before (c ++ rest) i ∙ get_elem?-front c rest i h in
    found (get_elem?-in c i h) e
  where
    word-some : (xs : List ℕ) (j n : ℕ) → get_elem? xs j ≡ some n → word env xs j ≡ n
    word-some xs j n f = ap (λ o. elim o [ none ↦ env.stale j | some m ↦ m ]) f

    get_elem?-in : (xs : List ℕ) (j : ℕ) → j < length xs → (n : ℕ) × (get_elem? xs j ≡ some n)
    get_elem?-in [] j k = absurd (omega arith)
    get_elem?-in (x ∷ xs) zero k = (x, refl)
    get_elem?-in (x ∷ xs) (suc j) k = get_elem?-in xs j (omega arith)

    found :
        ((n : ℕ) × (get_elem? c i ≡ some n))
        → get_elem? (before ++ (c ++ rest)) (length before + i) ≡ get_elem? c i
        → word env (before ++ (c ++ rest)) (length before + i) ≡ word env c i
    found (n, f) e =
        word-some (before ++ (c ++ rest)) (length before + i) n (e ∙ f) ∙ sym (word-some c i n f)
