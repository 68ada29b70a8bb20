-- ===== src/Device/Drain/All.antt =====
-- Draining once answers everything.
use remote_virtio_gpu.Prelude.{
  ℕ, suc, ◌+◌, ◌%◌, ◌<◌, ◌≡◌, ◌≢◌, refl, ap, ◌∙◌, List, [], ◌∷◌, none, some, arith, length, u16_mod,
  u64_mod,
}
use remote_virtio_gpu.Virtio.{ok_nodata}
use remote_virtio_gpu.Memory.{Memory}
use remote_virtio_gpu.Vqueue.{Vqueue, vqueue_send_response, drain_queue}
use remote_virtio_gpu.Vqueue.Drain.{
  pending, Indices, Put, Drained, send_response-Put, drain_queue_lem,
}
use remote_virtio_gpu.Device.{RespHdr, Waiting}
use remote_virtio_gpu.Device.Fences.{flush_answers}
use remote_virtio_gpu.Device.Drain.{Pending, Around, plain, flush_loop, gpu_device_drain_once}

-- Each of the waiting answers is put, in their order, into the buffers of its own request, with the
-- type of success and all else of its header as it was. The number counts them.
pub data Flushed (around : Around)
    : Memory → Vqueue → List Waiting → Memory → Vqueue → ℕ → Type 0 where
  none_left : {mem : Memory} {q : Vqueue} → Flushed around mem q [] mem q 0
  put_one :
      {mem m m' : Memory} {q p p' : Vqueue} {ws : List Waiting} {n : ℕ} (w : Waiting)
      → (let req = around.request w.req in
          Put mem q req.idx req.w (around.bytes_of (record w.hdr { type = ok_nodata })) m p)
      → Flushed around m p ws m' p' n
      → Flushed around mem q (w ∷ ws) m' p' (suc n)

-- A queue on which this many answers were put.
record Stepped (q : Vqueue) (n : ℕ) (q' : Vqueue) : Type 0 where
  same_avail : q'.avail_idx ≡ q.avail_idx
  same_taken : q'.last_avail_idx ≡ q.last_avail_idx
  stepped : q'.used_idx ≡ (q.used_idx + n) % u16_mod

Flushed-Stepped :
    (around : Around) (mem m : Memory) (q p : Vqueue) (ws : List Waiting) (n : ℕ)
    → q.used_idx < u16_mod
    → Flushed around mem q ws m p n
    → (n ≡ length ws) × Stepped q n p
Flushed-Stepped around mem _ q _ _ _ h none_left =
    (refl, record { same_avail = refl; same_taken = refl; stepped = omega arith })
Flushed-Stepped around mem m q p _ _ h (put_one {m = m₁} {p = p₁} {ws = ws} {n = n} w put rest) =
    let (count, s) = Flushed-Stepped around m₁ m p₁ p ws n (omega (arith, put.stepped)) rest in
    (
      ap suc count,
      record {
        same_avail = s.same_avail ∙ put.same_avail;
        same_taken = s.same_taken ∙ put.same_taken;
        stepped = omega (arith, s.stepped, put.stepped);
      },
    )

-- The bytes of each header fit in `size_t`.
abbrev pub Short : Around → Type 0
Short around = (hdr : RespHdr) → length (around.bytes_of hdr) < u64_mod

flush_loop-Flushed :
    (around : Around) (mem : Memory) (q : Vqueue) (ws : List Waiting)
    → Short around
    → (let r = flush_loop around mem q (flush_answers ws) in Flushed around mem q ws r.0 r.1 r.2)
unfolding flush_loop flush_answers
flush_loop-Flushed around mem q [] short = none_left
flush_loop-Flushed around mem q (w ∷ ws) short =
    let bytes = around.bytes_of (record w.hdr { type = ok_nodata }) in
    let req = around.request w.req in
    let sent = vqueue_send_response mem req q bytes (length bytes) in
    put_one {ws = ws} w
      (send_response-Put mem req q bytes (short (record w.hdr { type = ok_nodata })))
      (flush_loop-Flushed around sent.0 sent.1 ws short)

drain_once_lem :
    (around : Around) (chain fuel : ℕ) (s : Pending) (m₁ m₂ : Memory) (ctrl cursor : Vqueue)
    (n k : ℕ)
    → (let r = flush_loop around s.mem s.ctrl (flush_answers s.async_cmds) in
        (drain_queue around.map_guest chain fuel r.0 r.1 (around.bytes_of plain)
            ≡ some (m₁, ctrl, n))
          × (drain_queue around.map_guest chain fuel m₁ s.cursor (around.bytes_of plain)
              ≡ some (m₂, cursor, k))
        → gpu_device_drain_once around chain fuel s
          ≡ some (
            record { mem = m₂; async_cmds = []; ctrl = ctrl; cursor = cursor },
            r.2 + n + k,
            r.2 + n,
            k,
          ))
unfolding gpu_device_drain_once
drain_once_lem around chain fuel s m₁ m₂ ctrl cursor n k (e, f) = rw (e, f, gpu_device_drain_once)

-- What is left once everything was answered, and how it was answered: what waited first, then the
-- requests of the control queue, then those of the cursor queue.
pub record AllAnswered (around : Around) (s s' : Pending) (flushed kick_ctrl kick_cursor : ℕ)
    : Type 0 where
  pub mem₁ : Memory
  pub mem₂ : Memory
  pub ctrl₁ : Vqueue
  pub waited : ℕ
  pub drained : ℕ
  pub waiting : Flushed around s.mem s.ctrl s.async_cmds mem₁ ctrl₁ waited
  pub ctrl : Drained around.map_guest (around.bytes_of plain) mem₁ ctrl₁ mem₂ s'.ctrl drained
  pub cursor :
      Drained around.map_guest (around.bytes_of plain) mem₂ s.cursor s'.mem s'.cursor kick_cursor
  pub none_waits : s'.async_cmds ≡ []
  pub ctrl_empty : s'.ctrl.last_avail_idx ≡ s.ctrl.avail_idx
  pub cursor_empty : s'.cursor.last_avail_idx ≡ s.cursor.avail_idx
  pub ctrl_answers : s'.ctrl.used_idx ≡ (s.ctrl.used_idx + kick_ctrl) % u16_mod
  pub cursor_answers : s'.cursor.used_idx ≡ (s.cursor.used_idx + kick_cursor) % u16_mod
  pub ctrl_count : kick_ctrl ≡ length s.async_cmds + pending s.ctrl
  pub cursor_count : kick_cursor ≡ pending s.cursor
  pub all : flushed ≡ kick_ctrl + kick_cursor

-- Where every buffer can be mapped, `gpu_device_drain_once` ends, on fuel for one round more than
-- either queue has requests. First the answers that wait are put into the buffers of their requests,
-- with the type of success; then each request of the control queue, and then each of the cursor
-- queue, is taken in turn and answered: its writable buffers hold the plain answer, and the used ring
-- its head and the number of bytes. No answer waits then and no request of either queue is left, and
-- the counts are those of the answers.
pub drain_once-AllAnswered :
    (around : Around) (fuel : ℕ) (s : Pending)
    → ((addr len : ℕ) → around.map_guest addr len ≢ none)
    → Short around
    → Indices s.ctrl
    → Indices s.cursor
    → pending s.ctrl < fuel
    → pending s.cursor < fuel
    → (s' : Pending) × (flushed : ℕ) × (kick_ctrl : ℕ) × (kick_cursor : ℕ) × (gpu_device_drain_once
          around 2047 fuel s
        ≡ some (s', flushed, kick_ctrl, kick_cursor))
      × AllAnswered around s s' flushed kick_ctrl kick_cursor
drain_once-AllAnswered around fuel s maps short i j h k =
    let r = flush_loop around s.mem s.ctrl (flush_answers s.async_cmds) in
    let put = flush_loop-Flushed around s.mem s.ctrl s.async_cmds short in
    let (count, step) = Flushed-Stepped around s.mem r.0 s.ctrl r.1 s.async_cmds r.2 i.used put in
    let indices : Indices r.1 = record {
      avail = omega (arith, step.same_avail, i.avail);
      taken = omega (arith, step.same_taken, i.taken);
      used = omega (arith, step.stepped);
    } in
    let same_pending : pending r.1 ≡ pending s.ctrl =
      omega (arith, step.same_avail, step.same_taken) in
    let (m₁, ctrl, n, e, d, c) =
      drain_queue_lem around.map_guest fuel r.0 r.1 (around.bytes_of plain) maps (short plain)
        indices (omega (arith, same_pending)) in
    let (m₂, cursor, l, f, d', c') =
      drain_queue_lem around.map_guest fuel m₁ s.cursor (around.bytes_of plain) maps (short plain) j
        k in
    (
      record { mem = m₂; async_cmds = []; ctrl = ctrl; cursor = cursor },
      r.2 + n + l,
      r.2 + n,
      l,
      drain_once_lem around 2047 fuel s m₁ m₂ ctrl cursor n l (e, f),
      record {
        mem₁ = r.0;
        mem₂ = m₁;
        ctrl₁ = r.1;
        waited = r.2;
        drained = n;
        waiting = put;
        ctrl = d;
        cursor = d';
        none_waits = refl;
        ctrl_empty = c.nothing_left ∙ step.same_avail;
        cursor_empty = c'.nothing_left;
        ctrl_answers = omega (arith, c.answers, step.stepped, count);
        cursor_answers = c'.answers;
        ctrl_count = omega (arith, count, c.count, same_pending);
        cursor_count = c'.count;
        all = omega arith;
      },
    )
