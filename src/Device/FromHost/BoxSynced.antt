-- ===== src/Device/FromHost/BoxSynced.antt =====
-- A transfer from the host of a part of a resource: the guest's memory gets the lines of the box.
use native.Mathlib.Nat.{suc-mul}
use remote_virtio_gpu.Prelude.{
  ℕ, ◌+◌, ◌-◌, ◌*◌, ◌%◌, ◌≤◌, ◌<◌, ◌≡◌, refl, sym, ap, ◌∙◌, List, ◌++◌, some, true, false, ◌&&◌,
  ◌==◌, arith, length, take, drop, ltb, length-append, length-take, length-drop, take-append,
  drop-append, u32_mod, sub64, sub32, mul32, suc, pair_eq,
}
use remote_virtio_gpu.Memory.{Memory, Iovec, flatten, total}
use remote_virtio_gpu.Iov.Scatter.{Separate}
use remote_virtio_gpu.Wire.{Patch, patch_bytes, Header, header_of, header_bytes}
use remote_virtio_gpu.Wire.Laws.{length-patch_bytes, patch_of-patch_bytes, length-header_bytes}
use remote_virtio_gpu.Virtio.{Transfer3d}
use remote_virtio_gpu.Renderer.Upload.{Upload, upload_resource, upload_patch, box_length}
use remote_virtio_gpu.Resource.Format.{get_format_bpp}
use remote_virtio_gpu.Resource.Transfer.{ResInfo, Res}
use remote_virtio_gpu.Resource.Table.{res_find}
use remote_virtio_gpu.Device.FromHost.{read_from_pipe}
use remote_virtio_gpu.Device.FromHost.Box.{copied, copy_lines}
use remote_virtio_gpu.Device.FromHost.BoxLines.{with_lines, copy_lines-lem}
use remote_virtio_gpu.Device.FromHost.Message.{
  transfer_of, returned, line_stride, transfer_lines, transfer_payload, resource_transfer,
}

read_from_pipe-append :
    (n : ℕ) (xs ys : List ℕ) → n ≡ length xs → read_from_pipe n (xs ++ ys) ≡ some (xs, ys)
unfolding read_from_pipe
read_from_pipe-append n xs ys e =
    let enough : ltb (length (xs ++ ys)) n ≡ false =
      let sum = length-append xs ys in ground arith in
    rw enough (ap some (pair_eq (take-append n xs ys e) (drop-append n xs ys e)))

-- The header that the renderer writes before a transfer.
abbrev upload_header : ℕ → ℕ → Header
upload_header bpp stride = record { size = 72; idx = 0; flags = 0; bpp = bpp; stride = stride }

-- The message of the renderer behind its type: `raw` is the transfer as it stands in memory.
abbrev pub upload_bytes : Upload → List ℕ → List ℕ → List ℕ
upload_bytes u raw rest =
    header_bytes u.header ++ (raw ++ (patch_bytes u.patch ++ (u.bytes ++ rest)))

upload_header_size :
    (bpp stride : ℕ) → ((header_of (header_bytes (upload_header bpp stride))).size == 72) ≡ true
unfolding header_of header_bytes
upload_header_size bpp stride = refl

-- The three structures are read.
resource_transfer-payload :
    (mem : Memory) (resources : List Res) (bpp stride : ℕ) (raw rest : List ℕ) (p : Patch)
    → length raw ≡ 72
    → p.type < 256
    → p.offset < u32_mod
    → p.len < u32_mod
    → resource_transfer true mem resources
        (header_bytes (upload_header bpp stride) ++ (raw ++ (patch_bytes p ++ rest)))
      ≡ transfer_payload true mem resources (transfer_of raw) p rest
unfolding resource_transfer
resource_transfer-payload mem resources bpp stride raw rest p size a b c =
    let hb = header_bytes (upload_header bpp stride) in
    let first =
      read_from_pipe-append 16 hb (raw ++ (patch_bytes p ++ rest))
        (sym (length-header_bytes (upload_header bpp stride))) in
    let second = read_from_pipe-append 72 raw (patch_bytes p ++ rest) (sym size) in
    let third = read_from_pipe-append 12 (patch_bytes p) rest (sym (length-patch_bytes p)) in
    rw (first, upload_header_size bpp stride, second, third, resource_transfer)
      (ap (λ q. transfer_payload true mem resources (transfer_of raw) q rest)
        (patch_of-patch_bytes p a b c))

-- The resource is found, and the box is a part of it.
transfer_payload-lines :
    (mem : Memory) (resources : List Res) (t : Transfer3d) (p : Patch) (pipe : List ℕ) (res : Res)
    (backing : List Iovec)
    → res_find t.resource_id resources ≡ some res
    → res.backing ≡ some backing
    → (t.box.w == res.info.width && t.box.h == res.info.height) ≡ false
    → transfer_payload true mem resources t p pipe
      ≡ transfer_lines true mem backing t res.info p pipe
unfolding transfer_payload
transfer_payload-lines mem resources t p pipe res backing found has part =
    rw (found, has, part, transfer_payload)

-- The lines are read and copied.
transfer_lines-copied :
    (mem : Memory) (backing : List Iovec) (t : Transfer3d) (info : ResInfo) (p : Patch)
    (bytes rest : List ℕ) (m : Memory)
    → p.len ≡ length bytes
    → copy_lines t.box.h 0 mem backing 0 p.offset
        (line_stride t info)
        (mul32 t.box.w (get_format_bpp info.format))
        bytes
      ≡ copied m
    → transfer_lines true mem backing t info p (bytes ++ rest) ≡ returned m rest
unfolding transfer_lines
transfer_lines-copied mem backing t info p bytes rest m size run =
    let read = read_from_pipe-append p.len bytes rest size in rw (read, run, transfer_lines)

-- The box as the renderer computes its place: from its first byte to its last one.
abbrev pub box_span : Transfer3d → ℕ → ℕ → ℕ
box_span t width stride = (t.box.h - 1) * stride + width

upload_patch-box :
    (n : ℕ) (t : Transfer3d) (bpp stride : ℕ)
    → n < u32_mod
    → 0 < t.box.h
    → t.box.h < u32_mod
    → t.offset + box_span t (mul32 t.box.w bpp) stride ≤ n
    → upload_patch n t bpp stride
      ≡ record { type = 0; offset = t.offset; len = box_span t (mul32 t.box.w bpp) stride }
upload_patch-box n t bpp stride small some_line high fits =
    let width = mul32 t.box.w bpp in
    let place : t.offset % u32_mod ≡ t.offset = omega arith in
    let left : sub64 n (t.offset % u32_mod) % u32_mod ≡ n - t.offset = omega arith in
    let lines : sub32 t.box.h 1 ≡ t.box.h - 1 = omega arith in
    let span : box_length t bpp stride ≡ box_span t width stride = rw lines (omega arith) in
    rw (left, span, place)
      (ap (λ l. record { type = 0; offset = t.offset; len = l }) (ground arith))

lines_reach : (h stride width : ℕ) → 0 < h → h * stride + width ≤ (h - 1) * stride + width + stride
lines_reach h stride width some_line =
    let one : suc (h - 1) ≡ h = omega arith in
    let product = ap (λ i. i * stride) (sym one) ∙ suc-mul (h - 1) stride in omega (arith, product)

-- What the renderer uploads of a box that is a part of a resource, the proxy writes line by line to
-- the same places of the guest's memory: `resource_transfer` returns, with the pipe at the next
-- message, no read behind the end of the received bytes and no line missing, and the attached memory
-- holds the renderer's bytes in the lines of the box and its own bytes elsewhere. It is assumed that
-- the resource has memory attached, of the size that the renderer has, less than 2 ^ 32, in buffers
-- that do not overlap; that the box has a line, its lines do not overlap, and it lies in the memory;
-- and that `malloc` finds memory.
pub box_from_host_synced :
    (mem : Memory) (resources : List Res) (res : Res) (backing : List Iovec) (memory : List ℕ)
    (raw rest : List ℕ)
    → (let t = transfer_of raw in
        let bpp = get_format_bpp res.info.format in
        let stride = line_stride t res.info in
        let width = mul32 t.box.w bpp in
        length raw ≡ 72
        → res_find t.resource_id resources ≡ some res
        → res.backing ≡ some backing
        → (t.box.w == res.info.width && t.box.h == res.info.height) ≡ false
        → Separate backing
        → length memory ≡ total backing
        → length memory < u32_mod
        → 0 < t.box.h
        → t.box.h < u32_mod
        → width ≤ stride
        → t.offset + box_span t width stride ≤ length memory
        → (u : Upload) × (m : Memory) × (upload_resource (some memory) t bpp stride ≡ some u)
          × (resource_transfer true mem resources (upload_bytes u raw rest) ≡ returned m rest)
          × (flatten m backing
              ≡ with_lines (flatten mem backing) memory t.offset stride width t.box.h))
unfolding upload_resource
box_from_host_synced mem resources res backing memory raw rest size found has part separate same
      small some_line high narrow fits =
    let t = transfer_of raw in
    let bpp = get_format_bpp res.info.format in
    let stride = line_stride t res.info in
    let width = mul32 t.box.w bpp in
    let span = box_span t width stride in
    let bytes = take span (drop t.offset memory) in
    let p : Patch = record { type = 0; offset = t.offset; len = span } in
    let long : span ≡ length bytes =
      omega (arith, length-take span (drop t.offset memory), length-drop t.offset memory) in
    let (m, run, written) =
      copy_lines-lem backing t.offset stride width span memory separate (omega arith) (omega arith)
        (omega arith) t.box.h mem narrow (lines_reach t.box.h stride width some_line) in
    (
      record { header = upload_header bpp stride; transfer = t; patch = p; bytes = bytes },
      m,
      ap
          (λ q. some (record {
            header = upload_header bpp stride;
            transfer = t;
            patch = q;
            bytes = take q.len (drop q.offset memory);
          }))
          (upload_patch-box (length memory) t bpp stride small some_line high fits),
      resource_transfer-payload mem resources bpp stride raw (bytes ++ rest) p size (omega arith)
            (omega arith) (omega arith)
          ∙ transfer_payload-lines mem resources t p (bytes ++ rest) res backing found has part
          ∙ transfer_lines-copied mem backing t res.info p bytes rest m long run,
      written,
    )
