-- ===== src/Renderer/Input.antt =====
-- rvgpu-virgl.c: `rvgpu_pr_readbuf` and `rvgpu_pr_read`, the buffered reading of the command
-- socket. What the socket will give is the list of what each successful `poll` finds; waiting for
-- fences, which changes nothing of the buffer, is left out.
pub mod Rounds
pub mod Flat
mod Tests
use Prim.Native.Nat.{min}
use remote_virtio_gpu.Prelude.{
  ℕ, ◌+◌, ◌-◌, ◌/◌, ◌*◌, List, [], ◌∷◌, ◌++◌, Bool, true, false, length, take, drop, ltb, ◌==◌,
  if◌then◌else◌,
}

-- What `read` gives once `poll` reports the socket, and whether `poll` reports POLLERR, POLLHUP or
-- POLLNVAL as well. No bytes are the end of the connection, or an error.
pub record Event : Type 0 where
  pub bytes : List ℕ
  pub hangup : Bool

-- `buffer`, `bufpos`, and what the socket will give; `bufcurlen` is the length of `buffer`.
pub record Input : Type 0 where
  pub buffer : List ℕ
  pub bufpos : ℕ
  pub events : List Event

-- Part of the loop of `rvgpu_pr_read`: the bytes that are copied from the buffer.
abbrev pub avail : List ℕ → ℕ → ℕ → ℕ
avail buffer bufpos wanted = let n = length buffer - bufpos in if ltb wanted n then wanted else n

abbrev pub chunk : List ℕ → ℕ → ℕ → List ℕ
chunk buffer bufpos wanted = take (avail buffer bufpos wanted) (drop bufpos buffer)

-- The loop, with `out` the bytes that were copied, whose number is `offset`.
pub read_loop : List Event → List ℕ → ℕ → ℕ → List ℕ → List ℕ × Input
read_loop [] buffer bufpos total out =
    let got = avail buffer bufpos (total - length out) in
    let out' = out ++ chunk buffer bufpos (total - length out) in
    (out', record { buffer = buffer; bufpos = bufpos + got; events = [] })
read_loop (e ∷ es) buffer bufpos total out =
    let got = avail buffer bufpos (total - length out) in
    let out' = out ++ chunk buffer bufpos (total - length out) in
    let rest = read_loop es e.bytes 0 total out' in
    let enough : Input = record { buffer = buffer; bufpos = bufpos + got; events = e ∷ es } in
    let stopped : Input = record { buffer = buffer; bufpos = bufpos + got; events = es } in
    let refilled : Input = record { buffer = e.bytes; bufpos = 0; events = es } in
    elim (length out' == total) [
      | true ↦ (out', enough)
      | false ↦ elim (length e.bytes == 0) [
        | true ↦ (out', stopped)
        | false ↦ elim e.hangup [ true ↦ (out', refilled) | false ↦ rest ]
      ]
    ]

-- The bytes that are read, the number of whole members among them, and the input behind. All callers
-- ask for members of at least one byte, and for fewer bytes than `size_t` holds.
unfoldable pub rvgpu_pr_read : ℕ → ℕ → Input → List ℕ × ℕ × Input
rvgpu_pr_read size nmemb p =
    let total = size * nmemb in
    if total == 0
    then ([], 0, p)
    else (let (out, p') = read_loop p.events p.buffer p.bufpos total [] in
        (out, length out / size, p'))
