-- ===== src/Iov.antt =====
-- rvgpu-iov.c: copying between a buffer and the buffers that an array of `struct iovec` lists.
-- A destination buffer is the list of its bytes, those that it held before included.
mod Tests
pub mod Copy
pub mod Scatter
pub mod Reference
use remote_virtio_gpu.Prelude.{
  ℕ, List, [], ◌∷◌, ltb, if◌then◌else◌, take, drop, overwrite, add64, sub64,
}
use remote_virtio_gpu.Memory.{Memory, load, store, Iovec}

-- The loop of `copy_from_iov`. The answer is `ret` and the destination buffer.
copy_from_loop : Memory → List Iovec → ℕ → ℕ → List ℕ → ℕ × List ℕ
copy_from_loop mem [] len ret buffer = (ret, buffer)
copy_from_loop mem (v ∷ vs) len ret buffer =
    if ltb v.iov_len (sub64 len ret)
    then copy_from_loop mem vs len (add64 ret v.iov_len)
        (overwrite buffer ret (load mem v.iov_base v.iov_len))
    else (add64 ret (sub64 len ret), overwrite buffer ret (load mem v.iov_base (sub64 len ret)))

unfoldable pub copy_from_iov : Memory → List Iovec → List ℕ → ℕ → ℕ × List ℕ
unfolding copy_from_loop
copy_from_iov mem iov buffer len = copy_from_loop mem iov len 0 buffer

-- The loop of `copy_to_iov`. The answer is `ret` and the memory.
pub copy_to_loop : Memory → List Iovec → List ℕ → ℕ → ℕ → ℕ × Memory
copy_to_loop mem [] buffer len ret = (ret, mem)
copy_to_loop mem (v ∷ vs) buffer len ret =
    if ltb v.iov_len (sub64 len ret)
    then copy_to_loop (store mem v.iov_base (take v.iov_len (drop ret buffer))) vs buffer len
        (add64 ret v.iov_len)
    else (add64 ret (sub64 len ret), store mem v.iov_base (take (sub64 len ret) (drop ret buffer)))

unfoldable pub copy_to_iov : Memory → List Iovec → List ℕ → ℕ → ℕ × Memory
unfolding copy_to_loop
copy_to_iov mem iov buffer len = copy_to_loop mem iov buffer len 0

iov_size_loop : List Iovec → ℕ → ℕ
iov_size_loop [] result = result
iov_size_loop (v ∷ vs) result = iov_size_loop vs (add64 result v.iov_len)

unfoldable pub iov_size : List Iovec → ℕ
unfolding iov_size_loop
iov_size iov = iov_size_loop iov 0
