-- ===== src/Memory/Defs.antt =====
-- Memory as a function from addresses to bytes, what `memcpy` reads from it and writes to it, and
-- `struct iovec`.
use remote_virtio_gpu.Prelude.{
  ℕ, zero, suc, ◌+◌, ◌-◌, List, [], ◌∷◌, ◌++◌, ◌&&◌, leb, ltb, if◌then◌else◌, get_or, length,
}

abbrev pub Memory : Type 0
Memory = ℕ → ℕ

-- The `n` bytes at an address.
unfoldable pub load : Memory → ℕ → ℕ → List ℕ
load mem base zero = []
load mem base (suc n) = mem base ∷ load mem (base + 1) n

-- The bytes written at an address.
unfoldable pub store : Memory → ℕ → List ℕ → Memory
store mem base bytes a =
    if leb base a && ltb a (base + length bytes) then get_or bytes (a - base) 0 else mem a

-- `struct iovec`
pub record Iovec : Type 0 where
  pub iov_base : ℕ
  pub iov_len : ℕ

-- The bytes that an array of `struct iovec` lists, one after the other.
abbrev pub flatten : Memory → List Iovec → List ℕ
flatten mem [] = []
flatten mem (v ∷ vs) = load mem v.iov_base v.iov_len ++ flatten mem vs

-- Their number, which no word holds.
abbrev pub total : List Iovec → ℕ
total [] = 0
total (v ∷ vs) = v.iov_len + total vs
