-- ===== src/Utils.antt =====
-- rvgpu-utils.c: writing and reading all of a buffer, and strings behind their size. What the kernel
-- answers to the calls of `write` or `read` is a list; a call that gets no answer blocks.
pub mod Willing
pub mod Strings
mod Tests
use Prim.Native.Nat.{min}
use remote_virtio_gpu.Prelude.{
  ℕ, zero, suc, ◌+◌, ◌-◌, ◌*◌, ◌/◌, ◌%◌, List, [], ◌∷◌, ◌++◌, Option, none, some, Bool, true, false,
  length, take, drop, get_or, ◌==◌, if◌then◌else◌, u32_mod,
}

-- An answer: that at most so many bytes and one more are taken or given, as far as there are any; the
-- answer 0; EAGAIN or EWOULDBLOCK; EINTR; or another error.
pub data Answer : Type 0 where
  moved : ℕ → Answer
  stopped again interrupted failed : Answer

-- A call that returns, or that waits for an answer still.
pub data Io {ℓ} (A : Type ℓ) : Type ℓ where
  returned : A → Io A
  blocked : Io A

-- What was written; the value that is returned, `none` for -1; and the answers that are left.
pub record Written : Type 0 where
  pub sent : List ℕ
  pub result : Option ℕ
  pub answers : List Answer

unfoldable pub write_loop : List Answer → List ℕ → List ℕ → Io Written
write_loop answers sent [] =
    returned (record { sent = sent; result = some (length sent); answers = answers })
write_loop [] sent (b ∷ bs) = blocked
write_loop (again ∷ ks) sent (b ∷ bs) = write_loop ks sent (b ∷ bs)
write_loop (interrupted ∷ ks) sent (b ∷ bs) = write_loop ks sent (b ∷ bs)
write_loop (failed ∷ ks) sent (b ∷ bs) =
    returned (record { sent = sent; result = none; answers = ks })
write_loop (stopped ∷ ks) sent (b ∷ bs) =
    returned (record { sent = sent; result = some (length sent); answers = ks })
write_loop (moved k ∷ ks) sent (b ∷ bs) = write_loop ks (sent ++ (b ∷ take k bs)) (drop k bs)

unfoldable pub write_all : List Answer → List ℕ → Io Written
unfolding write_loop
write_all answers buf = write_loop answers [] buf

-- What was read; the value that is returned; what is left of the stream, and of the answers.
pub record Received : Type 0 where
  pub got : List ℕ
  pub result : Option ℕ
  pub stream : List ℕ
  pub answers : List Answer

-- `remaining` counts down. At the end of the stream `read` answers 0.
unfoldable pub read_all_loop : List Answer → List ℕ → ℕ → List ℕ → Io Received
read_all_loop answers got zero stream =
    returned (record { got = got; result = some (length got); stream = stream; answers = answers })
read_all_loop [] got (suc n) stream = blocked
read_all_loop (again ∷ ks) got (suc n) stream = read_all_loop ks got (suc n) stream
read_all_loop (interrupted ∷ ks) got (suc n) stream = read_all_loop ks got (suc n) stream
read_all_loop (failed ∷ ks) got (suc n) stream =
    returned (record { got = got; result = none; stream = stream; answers = ks })
read_all_loop (stopped ∷ ks) got (suc n) stream =
    returned (record { got = got; result = some (length got); stream = stream; answers = ks })
read_all_loop (moved k ∷ ks) got (suc n) [] =
    returned (record { got = got; result = some (length got); stream = []; answers = ks })
read_all_loop (moved k ∷ ks) got (suc n) (b ∷ bs) =
    let m = min k n in
    read_all_loop ks (got ++ (b ∷ take m bs)) (n - length (take m bs)) (drop m bs)

unfoldable pub read_all : List Answer → ℕ → List ℕ → Io Received
unfolding read_all_loop
read_all answers count stream = read_all_loop answers [] count stream

-- `htonl` and `ntohl`, on the bytes in memory.
unfoldable pub htonl_bytes : ℕ → List ℕ
htonl_bytes n = (n / 16777216 % 256) ∷ (n / 65536 % 256) ∷ (n / 256 % 256) ∷ (n % 256) ∷ []

unfoldable pub ntohl_bytes : List ℕ → ℕ
ntohl_bytes bs =
    16777216 * get_or bs 0 0 + 65536 * get_or bs 1 0 + 256 * get_or bs 2 0 + get_or bs 3 0

abbrev pub is_count : Option ℕ → ℕ → Bool
is_count none n = false
is_count (some m) n = m == n

-- The end of `send_str_with_size`, when the size was written.
abbrev pub with_size : List ℕ → Io Written → Io (List ℕ)
with_size size blocked = blocked
with_size size (returned w) = returned (size ++ w.sent)

-- All that was written; the string is the list of its bytes, without the 0 at its end.
unfoldable pub send_str_with_size : List Answer → List ℕ → Io (List ℕ)
send_str_with_size answers str =
    let buffer_size = (length str + 1) % u32_mod in
    elim (write_all answers (htonl_bytes buffer_size)) [
      | blocked ↦ blocked
      | returned w ↦
          if is_count w.result 4
          then with_size w.sent (write_all w.answers (take buffer_size (str ++ (0 ∷ []))))
          else returned w.sent
    ]

-- What `recv_str_all` gives: the buffer, or the null pointer; or the string is read behind the end of
-- a buffer of no bytes.
pub data StrResult : Type 0 where
  buffer : List ℕ → StrResult
  null_pointer overrun : StrResult

-- The end of `recv_str_all`: the buffer, with a 0 behind it.
abbrev pub whole : ℕ → Io Received → Io (StrResult × List ℕ)
whole size blocked = blocked
whole size (returned r) =
    returned (if is_count r.result size then buffer (r.got ++ (0 ∷ [])) else null_pointer, r.stream)

-- `memory` says whether `calloc` finds memory; the number of its bytes is a `uint32_t`.
unfoldable pub recv_str_all : Bool → List Answer → List ℕ → Io (StrResult × List ℕ)
recv_str_all memory answers stream = elim (read_all answers 4 stream) [
  | blocked ↦ blocked
  | returned r ↦
      let buffer_size = ntohl_bytes r.got in
      if is_count r.result 4
      then if memory
        then (if (buffer_size + 1) % u32_mod == 0
            then returned (overrun, r.stream)
            else whole buffer_size (read_all r.answers buffer_size r.stream))
        else returned (null_pointer, r.stream)
      else returned (null_pointer, r.stream)
]

-- The string that a buffer holds: its bytes before the first 0.
abbrev pub c_string : List ℕ → List ℕ
c_string [] = []
c_string (b ∷ bs) = if b == 0 then [] else b ∷ c_string bs
