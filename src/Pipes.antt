-- ===== src/Pipes.antt =====
-- rvgpu.c: what the proxy sends to its scanouts and receives from them. Each scanout has a pipe in
-- each direction to the thread of its connections. What the kernel answers is a list, as in Utils.
pub mod Sending
mod Tests
use Prim.Native.Nat.{min}
use remote_virtio_gpu.Prelude.{
  ℕ, zero, suc, ◌+◌, ◌-◌, List, [], ◌∷◌, ◌++◌, Option, none, some, Bool, true, false, length, take,
  drop, if◌then◌else◌,
}
use remote_virtio_gpu.Utils.{
  Answer, moved, stopped, again, interrupted, failed, Io, returned, blocked,
}

-- The command pipes of `struct sc_priv`: what was written to the one and not yet read by the thread,
-- and what the thread will write to the other until it closes it.
pub record ScanoutPipes : Type 0 where
  pub activated : Bool
  pub snd : List ℕ
  pub rcv : List ℕ

-- What `rvgpu_ctx_send` returns: 0, -EBUSY, or the error of a write.
pub data SendResult : Type 0 where
  all_sent busy write_error : SendResult

-- The loop over one scanout: what was written, whether without an error, and the answers left. The
-- answer 0 and EAGAIN are asked again; EINTR is an error.
unfoldable pub write_rest : List Answer → List ℕ → List ℕ → Io (List ℕ × Bool × List Answer)
write_rest ks sent [] = returned (sent, true, ks)
write_rest [] sent (b ∷ bs) = blocked
write_rest (again ∷ ks) sent (b ∷ bs) = write_rest ks sent (b ∷ bs)
write_rest (stopped ∷ ks) sent (b ∷ bs) = write_rest ks sent (b ∷ bs)
write_rest (interrupted ∷ ks) sent (b ∷ bs) = returned (sent, false, ks)
write_rest (failed ∷ ks) sent (b ∷ bs) = returned (sent, false, ks)
write_rest (moved k ∷ ks) sent (b ∷ bs) = write_rest ks (sent ++ (b ∷ take k bs)) (drop k bs)

abbrev pub wrote : ScanoutPipes → List ℕ → ScanoutPipes
wrote s bytes = record s { snd = s.snd ++ bytes }

-- One more scanout in front of those that the rest of the loop leaves.
abbrev pub in_front :
    ScanoutPipes → Io (SendResult × List ScanoutPipes) → Io (SendResult × List ScanoutPipes)
in_front s blocked = blocked
in_front s (returned (r, ss)) = returned (r, s ∷ ss)

-- Behind the loop over one scanout, `next` being the loop over the others.
abbrev pub after_write :
    ScanoutPipes
    → List ScanoutPipes
    → (List Answer → Io (SendResult × List ScanoutPipes))
    → Io (List ℕ × Bool × List Answer)
    → Io (SendResult × List ScanoutPipes)
after_write s ss next blocked = blocked
after_write s ss next (returned (sent, false, ks)) = returned (write_error, wrote s sent ∷ ss)
after_write s ss next (returned (sent, true, ks)) = in_front (wrote s sent) (next ks)

unfoldable pub rvgpu_ctx_send :
    List Answer → List ScanoutPipes → List ℕ → Io (SendResult × List ScanoutPipes)
rvgpu_ctx_send ks [] buf = returned (all_sent, [])
rvgpu_ctx_send ks (s ∷ ss) buf =
    if s.activated
    then after_write s ss (λ ks'. rvgpu_ctx_send ks' ss buf) (write_rest ks [] buf)
    else returned (busy, s ∷ ss)

-- What `rvgpu_recv_all` returns: the number of the bytes, which are given as well, -EBUSY, or -1.
pub data RecvResult : Type 0 where
  received : List ℕ → RecvResult
  recv_busy recv_error : RecvResult

-- The loop: what was read, and what is left of the stream; `none` is an error or a closed connection.
unfoldable pub read_rest : List Answer → List ℕ → ℕ → List ℕ → Io (Option (List ℕ) × List ℕ)
read_rest ks got zero stream = returned (some got, stream)
read_rest [] got (suc n) stream = blocked
read_rest (again ∷ ks) got (suc n) stream = read_rest ks got (suc n) stream
read_rest (interrupted ∷ ks) got (suc n) stream = returned (none, stream)
read_rest (failed ∷ ks) got (suc n) stream = returned (none, stream)
read_rest (stopped ∷ ks) got (suc n) stream = returned (none, stream)
read_rest (moved k ∷ ks) got (suc n) [] = returned (none, [])
read_rest (moved k ∷ ks) got (suc n) (b ∷ bs) =
    let m = min k n in read_rest ks (got ++ (b ∷ take m bs)) (n - length (take m bs)) (drop m bs)

abbrev pub recv_result : Option (List ℕ) → RecvResult
recv_result none = recv_error
recv_result (some got) = received got

unfoldable pub rvgpu_recv_all : List Answer → ScanoutPipes → ℕ → Io (RecvResult × ScanoutPipes)
rvgpu_recv_all ks s len = elim s.activated [
  | false ↦ returned (recv_busy, s)
  | true ↦ elim (read_rest ks [] len s.rcv) [
    | blocked ↦ blocked
    | returned (got, left) ↦ returned (recv_result got, record s { rcv = left })
  ]
]

-- What `rvgpu_send` returns: a number of bytes, -EBUSY, or -1.
pub data SendOnce : Type 0 where
  send_count : ℕ → SendOnce
  send_busy send_error : SendOnce

-- One call of `write`; a full pipe passes for a write of all bytes.
abbrev pub write_once : Answer → ScanoutPipes → List ℕ → SendOnce × ScanoutPipes
write_once (moved k) s buf = let part = take (suc k) buf in (send_count (length part), wrote s part)
write_once stopped s buf = (send_count 0, s)
write_once again s buf = (send_count (length buf), s)
write_once interrupted s buf = (send_error, s)
write_once failed s buf = (send_error, s)

unfoldable pub rvgpu_send : Answer → ScanoutPipes → List ℕ → SendOnce × ScanoutPipes
rvgpu_send answer s buf = if s.activated then write_once answer s buf else (send_busy, s)
