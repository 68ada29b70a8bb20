-- ===== src/Device/FromHost/Box.antt =====
-- rvgpu-gpu-device.c: the lines that `resource_transfer` copies into the guest's memory when the box
-- is not the whole resource. The buffers from `iov_index` on are the list `vs`, and `base` is
-- `backing_base`, which are kept from a line to the next.
use remote_virtio_gpu.Prelude.{
  ℕ, zero, suc, ◌+◌, ◌-◌, List, [], ◌∷◌, Option, none, some, true, false, length, take, drop, ltb,
  ◌==◌, if◌then◌else◌, add64, sub64, mul64,
}
use remote_virtio_gpu.Memory.{Memory, Iovec, store}

-- `while (iov_index < res->nbacking)`: the buffer in which the line starts.
unfoldable pub find_line : ℕ → List Iovec → ℕ → List Iovec × ℕ
find_line pos [] base = ([], base)
find_line pos (v ∷ vs) base =
    let next = find_line pos vs (add64 base v.iov_len) in
    if ltb pos (add64 base v.iov_len) then (v ∷ vs, base) else next

-- The loop's variables behind a line; `missing` is what is left of `line_len`.
pub record Line : Type 0 where
  pub memory : Memory
  pub left : List Iovec
  pub base : ℕ
  pub missing : ℕ

-- `bytes` is `res_data` from `res_data_pos + copied` on, and `none` a read behind its end. A part
-- that does not end its buffer is a whole line, behind which `line_len > 0` fails.
unfoldable pub copy_line : Memory → List Iovec → ℕ → ℕ → ℕ → List ℕ → Option Line
copy_line mem [] base pos line_len bytes =
    some (record { memory = mem; left = []; base = base; missing = line_len })
copy_line mem (v ∷ vs) base pos line_len bytes = elim (line_len == 0) [
  | true ↦ some (record { memory = mem; left = v ∷ vs; base = base; missing = 0 })
  | false ↦
      let offset = sub64 pos base in
      let room = sub64 v.iov_len offset in
      let chunk = if ltb line_len room then line_len else room in
      let mem' = store mem (v.iov_base + offset) (take chunk bytes) in
      elim (ltb (length bytes) chunk) [
        | true ↦ none
        | false ↦ elim (add64 offset chunk == v.iov_len) [
          | true ↦
              copy_line mem' vs (add64 base v.iov_len) (add64 pos chunk) (line_len - chunk)
                (drop chunk bytes)
          | false ↦
              some
                (record { memory = mem'; left = v ∷ vs; base = base; missing = line_len - chunk })
        ]
      ]
]

-- How the lines end: all are copied; the buffers end, with `line_len` bytes missing; or a read behind
-- the end of `res_data`.
pub data Lines : Type 0 where
  copied : Memory → Lines
  too_small : Memory → ℕ → Lines
  overrun : Lines

-- The loop from `line` on, with as many lines left as the first number says.
unfoldable pub copy_lines :
    ℕ → ℕ → Memory → List Iovec → ℕ → (offset stride width : ℕ) → List ℕ → Lines
copy_lines zero line mem vs base offset stride width bytes = copied mem
copy_lines (suc n) line mem vs base offset stride width bytes =
    let start = mul64 line stride in
    let pos = add64 offset start in
    let found = find_line pos vs base in
    elim (copy_line mem found.0 found.1 pos width (drop start bytes)) [
      | none ↦ overrun
      | some l ↦ elim (ltb 0 l.missing) [
        | true ↦ too_small l.memory l.missing
        | false ↦ copy_lines n (suc line) l.memory l.left l.base offset stride width bytes
      ]
    ]
