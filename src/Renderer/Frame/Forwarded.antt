-- ===== src/Renderer/Frame/Forwarded.antt =====
-- The renderer reads a command as the proxy forwarded it.
use remote_virtio_gpu.Prelude.{
  ℕ, ◌%◌, ◌≤◌, ◌<◌, ◌≡◌, refl, sym, ap, ◌∙◌, List, [], ◌∷◌, ◌++◌, false, arith, length, take, drop,
  ltb, map, append_assoc, take-append, drop-append, length-append, u32_mod,
}
use remote_virtio_gpu.Wire.{Header, header_bytes, header_of, header_size}
use remote_virtio_gpu.Wire.Laws.{length-header_bytes, Fits, header_of-header_bytes}
use remote_virtio_gpu.Virtio.{Body, transfer_from_host_3d}
use remote_virtio_gpu.Device.Requests.{Incoming, Sent, to_all, to_first, address, forward}
use remote_virtio_gpu.Renderer.Frame.{frame, read_frame}

abbrev pub joined : List (List ℕ) → List ℕ
joined [] = []
joined (c ∷ cs) = c ++ joined cs

-- The bytes that the first scanout gets: all that is sent.
abbrev pub for_first : List Sent → List ℕ
for_first [] = []
for_first (to_all bs ∷ ss) = bs ++ for_first ss
for_first (to_first bs ∷ ss) = bs ++ for_first ss

pub for_first-append : (ss ts : List Sent) → for_first (ss ++ ts) ≡ for_first ss ++ for_first ts
for_first-append [] ts = refl
for_first-append (to_all bs ∷ ss) ts =
    ap (◌++◌ bs) (for_first-append ss ts) ∙ sym (append_assoc bs (for_first ss) (for_first ts))
for_first-append (to_first bs ∷ ss) ts =
    ap (◌++◌ bs) (for_first-append ss ts) ∙ sym (append_assoc bs (for_first ss) (for_first ts))

for_first-address : (b : Body) (cs : List (List ℕ)) → for_first (map (address b) cs) ≡ joined cs
for_first-address b [] = refl
for_first-address b (c ∷ cs) = one b ∙ ap (◌++◌ c) (for_first-address b cs)
  where
    one :
        (b : Body)
        → for_first (address b c ∷ map (address b) cs) ≡ c ++ for_first (map (address b) cs)
    one (transfer_from_host_3d t) = refl
    one _ = refl

read_frame-header :
    (cmd_size : ℕ) (h : Header) (body rest : List ℕ)
    → Fits h
    → h.size ≡ length body
    → h.size ≤ cmd_size
    → read_frame cmd_size (header_bytes h ++ (body ++ rest)) ≡ frame h body rest
unfolding read_frame
read_frame-header cmd_size h body rest f e k =
    let size = length-header_bytes h in
    let front : take header_size (header_bytes h ++ (body ++ rest)) ≡ header_bytes h =
      take-append header_size (header_bytes h) (body ++ rest) (sym size) in
    let behind : drop header_size (header_bytes h ++ (body ++ rest)) ≡ body ++ rest =
      drop-append header_size (header_bytes h) (body ++ rest) (sym size) in
    let header : header_of (take header_size (header_bytes h ++ (body ++ rest))) ≡ h =
      ap header_of front ∙ header_of-header_bytes h f in
    let enough : ltb (length (header_bytes h ++ (body ++ rest))) header_size ≡ false =
      ground (arith, length-append (header_bytes h) (body ++ rest), size) in
    let fits : ltb cmd_size h.size ≡ false = ground arith in
    let whole : ltb (length (body ++ rest)) h.size ≡ false =
      ground (arith, length-append body rest, e) in
    rw (enough, header, fits, behind, header, whole, header, behind, read_frame)
      (λ i. frame h (take-append h.size body rest e i) (drop-append h.size body rest e i))

-- The renderer of the first scanout reads a command that the proxy forwarded as it was: the header
-- with the command's size and the transfer's `bpp` and `stride`, exactly the bytes of the guest's
-- buffers, and then whatever was sent behind them. It is assumed that the size is that of the
-- buffers' bytes, as `iov_size` counts it, and that the command fits in the renderer's union, whose
-- size is a `uint32_t`.
pub read_frame-forward :
    (cmd_size : ℕ) (i : Incoming) (bpp stride : ℕ) (rest : List ℕ)
    → i.size ≡ length (joined i.chunks)
    → i.size ≤ cmd_size
    → cmd_size < u32_mod
    → bpp < u32_mod
    → stride < u32_mod
    → read_frame cmd_size (for_first (forward i bpp stride) ++ rest)
      ≡ frame
          (record { size = i.size; idx = 0; flags = 0; bpp = bpp; stride = stride })
          (joined i.chunks)
          rest
read_frame-forward cmd_size i bpp stride rest e k m a b =
    let h : Header = record {
      size = i.size % u32_mod;
      idx = 0;
      flags = 0;
      bpp = bpp;
      stride = stride;
    } in
    let same : i.size % u32_mod ≡ i.size = omega arith in
    ap (λ l. read_frame cmd_size (l ++ rest))
      (for_first-address i.cmd.body (header_bytes h ∷ i.chunks))
    ∙ ap (read_frame cmd_size) (append_assoc (header_bytes h) (joined i.chunks) rest)
    ∙ read_frame-header cmd_size h (joined i.chunks) rest
        (record {
          size_small = omega arith;
          idx_small = omega arith;
          flags_small = omega arith;
          bpp_small = a;
          stride_small = b;
        })
        (omega arith) (omega arith)
    ∙ ap
        (λ n.
          frame (record { size = n; idx = 0; flags = 0; bpp = bpp; stride = stride })
            (joined i.chunks) rest)
        same
